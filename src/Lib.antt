-- ===== src/Lib.antt =====
-- Skyward's API server (apps/api): the rules of an airline game that runs in real time.
--
-- The parts and how they interact. A worker ticks the world and backs off while ticks fail; a tick
-- and the players' requests call the engine, whose services change the database in transactions and
-- move money through one ledger only; the economy's formulas give prices, demand and costs to both;
-- the hub tells the connected clients what changed, after a ticket admitted them; limiters guard the
-- HTTP surface, and every error is answered in one form.
--
-- What models what, by paths from apps/api/internal:
--   Realtime/Ticket         realtime/ticket.go: Issue, Redeem, SetTTL, Len on a map of tickets.
--   Realtime/Hub            realtime/hub.go: the hub's sets, the clients' sets and their send queues.
--   Middleware/Limiter      middleware/limiter.go: WindowLimiter.
--   Middleware/RateLimit    middleware/middleware.go: RateLimit and its cleanup.
--   HttpErr                 httperr/httperr.go: codes, wrapped errors and the answer.
--   Worker                  worker/worker.go: the loop as a step on the worker's state.
--   Economy/Money           money/money.go, and from engine/fleet.go the lease deposit.
--   Economy/Demand, Cabins, Crew
--                           engine/simulation.go: demand of a route, cabins, crew costs.
--   Economy/Snapshot        engine/snapshot.go: configuration values, events and multipliers of a tick.
--   Economy/Credit          engine/dayboundary.go and engine/fleet.go: credit tiers and their gate.
--   Bots                    engine/bots_decide.go: the choice of a route, flights, price, profit.
--   Engine/Db               the tables that the engine's SQL names, as association lists.
--   Engine/Tx               engine/withtx.go: a transaction over calls that may fail; Tx/Laws has the
--                           rules by which a function's commits are derived from its statements.
--   Engine/Ledger           engine/engine.go: applyTx and its three entries.
--   Engine/Service          a request over the pool: queries, statements that commit by themselves,
--                           transactions, early returns, and the rules to reason on them.
--   Engine/Fleet            engine/fleet.go: validateSeats, Repair, Sell; in Fleet/Lease
--                           TerminateLease, in Fleet/Purchase Purchase and Lease, in Fleet/Configure
--                           ConfigureSeats, in Fleet/TierGate checkTierGate.
--   Engine/Fleet/Tail       engine/engine.go: GenerateTailNumber.
--   Engine/Routes           engine/routes.go: Create, Delete, UpdateFreqPrice; in Routes/Assign Assign.
--                           Rows, Fitting and FleetWrites have the invariants of the routes' table.
--   Engine/Bank             engine/bank.go: Repay, and in Bank/Refinance Refinance.
--   Engine/Requests         sequences of the requests to these services.
--   Base                    lists, maps, integers and Boolean tests that the parts share.
--   Float                   float64 as a type with operations (a parameter), the laws of it that are
--                           used, their consequences, and a fixed-point instance where they hold.
--
-- How the code is read. Go's maps are association lists that keep each key once; goroutines under a
-- mutex are sequences of whole calls; the clock, random tokens and marshalled bytes are inputs. A
-- money column is whole cents, and `Platform` stands for what PostgreSQL and package time do with the
-- floats and times that pass to it. A failing call of the database is chosen by a list of Booleans in
-- the state, so that a theorem over every list speaks of every pattern of failures, and `IsCalm` says
-- of a list that none fails; after a failed
-- statement the transaction refuses all others and its commit, as PostgreSQL does, and a commit that
-- reports an error has stored nothing. One request runs at a time.
--
-- Bounds and fuel: every loop is structural recursion; the only one with a count is the draw of a tail
-- number, whose hundred attempts are the code's own. Go's int and time.Duration are integers without a
-- bound.
--
-- The tables keep the constraints that the migrations give them where a statement can break one:
-- primary keys, the unique indexes of routes and tail numbers, the CHECKs of a route, and the foreign
-- key by which the removal of an aircraft releases its routes. Ids and letters that are drawn are
-- arguments.
--
-- Not modelled: the bank's new loans and financings, the payments and scores of the day boundary,
-- the bots' own cycle and the tick itself; the assessment of routes; handlers, store,
-- authentication, configuration and migrations (SQL, input and output); the web client. The texts
-- of a ledger entry and nicknames are left out.
pub mod Base
pub mod Bots
pub mod Economy
pub mod Engine
pub mod Float
pub mod HttpErr
pub mod Middleware
pub mod Realtime
pub mod Worker
