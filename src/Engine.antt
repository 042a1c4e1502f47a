-- ===== src/Engine.antt =====
-- The engine's mutations: the tables they write (Db), the transaction that carries them (Tx), the
-- ledger and the fleet.
pub mod Db
pub mod Tx
pub mod Ledger
pub mod Fleet
pub mod Service
pub mod Routes
pub mod Requests
pub mod Bank
