-- ===== src/Economy.antt =====
-- The economy's formulas: pure functions of floats that the simulation, the fleet and the reading
-- layer share.
pub mod Money
pub mod Demand
pub mod Crew
pub mod Snapshot
pub mod Credit
pub mod Cabins
