-- ===== src/Worker.antt =====
-- apps/api/internal/worker/worker.go: the loop that runs the world tick. What the `select` finds is
-- a list of events; the tick itself, the clock and the database's interval are their arguments.
-- Durations are whole nanoseconds, and the intervals are positive. Logging is left out.
pub mod Pacing
mod Tests
use skyward.Base.{
  ℕ, zero, suc, ◌+◌, ◌*◌, Bool, true, false, if◌then◌else◌, Option, none, some, List, [], ◌∷◌,
  String, ltb, nat_eq, ◌==◌,
}

abbrev pub second : ℕ
second = 1_000_000_000

pub record Status : Type 0 where
  pub alive : Bool
  pub last_tick_at : String
  pub last_tick_ms : ℕ
  pub errors_count : ℕ
  pub status : String

-- `errors` and `ticker`, the period of the ticker, are variables of `loop`; `running` tells that it
-- has not returned.
pub record Worker : Type 0 where
  pub interval : ℕ
  pub status : Status
  pub errors : ℕ
  pub ticker : ℕ
  pub running : Bool

-- `for range n { d *= 2; if d > 60 { d = 60; break } }`
unfoldable pub backoff_from : ℕ → ℕ → ℕ
backoff_from zero d = d
backoff_from (suc n) d = let rest = backoff_from n (d * 2) in if ltb 60 (d * 2) then 60 else rest

unfoldable pub backoff : ℕ → ℕ
unfolding backoff_from
backoff n = backoff_from n 1 * second

unfoldable pub tick_interval : ℕ → ℕ → ℕ
tick_interval base errors = if ltb 0 errors then backoff errors else base

-- How `tickFn` ends; `absent` is a nil `tickFn`.
pub data Outcome : Type 0 where
  absent failed panicked : Outcome
  done : String → ℕ → Outcome

-- Whether `runTick` gives an error, and what it writes to the status. A panic is recovered.
unfoldable pub run_tick : Outcome → Status → Bool × Status
run_tick absent st = (false, st)
run_tick failed st = (true, st)
run_tick panicked st = (true, st)
run_tick (done at ms) st = (false, record st { last_tick_at = at; last_tick_ms = ms })

unfoldable pub new : ℕ → Worker
new interval_sec = record {
  interval = interval_sec * second;
  status = record {
    alive = false;
    last_tick_at = "";
    last_tick_ms = 0;
    errors_count = 0;
    status = "initialized";
  };
  errors = 0;
  ticker = 0;
  running = false;
}

-- The head of `loop`, up to its first `select`.
unfoldable pub start : Worker → Worker
start w = record w {
  status = record st { alive = true; status = "running" };
  errors = 0;
  ticker = w.interval;
  running = true;
}
  where
    open w use {status as st}

-- `readTickIntervalSeconds`, with its test that the value is positive
abbrev next_interval : ℕ → Option ℕ → ℕ
next_interval interval none = interval
next_interval interval (some secs) = if ltb 0 secs then secs * second else interval

after_tick : Worker → Bool × Status → Option ℕ → Worker
unfolding tick_interval
after_tick w (true, st) read =
    let errors' = suc w.errors in
    record w {
      errors = errors';
      status = record st { errors_count = errors' };
      ticker = tick_interval w.interval errors';
    }
after_tick w (false, st) read =
    let interval' = next_interval w.interval read in
    record w {
      errors = 0;
      status = record st { errors_count = 0 };
      interval = interval';
      ticker = interval';
    }

-- What the `select` finds: the context is cancelled, `Stop` has closed `done`, or the ticker fires.
pub data Event : Type 0 where
  cancelled signalled : Event
  ticks : Outcome → Option ℕ → Event

stopped : Worker → Worker
stopped w = record w { status = record st { alive = false; status = "stopped" }; running = false }
  where
    open w use {status as st}

turn : Worker → Event → Worker
unfolding stopped after_tick run_tick
turn w cancelled = stopped w
turn w signalled = stopped w
turn w (ticks outcome read) = after_tick w (run_tick outcome w.status) read

-- One round of the loop, and all of it.
unfoldable pub step : Worker → Event → Worker
unfolding turn
step w e = if w.running then turn w e else w

unfoldable pub run : Worker → List Event → Worker
run w [] = w
run w (e ∷ es) = run (step w e) es
