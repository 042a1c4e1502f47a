-- ===== src/Worker/Tests.antt =====
-- Runs of the worker's loop (worker.go), and its theorems at concrete inputs.
use skyward.Base.{
  suc, ◌^◌, ltb, if◌then◌else◌, ◌+◌, ◌*◌, ◌≡◌, refl, none, some, List, [], ◌∷◌, length,
}
use skyward.Worker.{
  Worker, Event, ticks, failed, panicked, done, signalled, second, backoff, new, start, step, run,
  next_interval,
}
use skyward.Worker.Pacing.{IsPaced, start-IsPaced, run-start-IsPaced, recovery}

backoff_table : (backoff 1 ≡ 2 * second) × (backoff 5 ≡ 32 * second) × (backoff 6 ≡ 60 * second)
unfolding backoff
backoff_table = (refl, refl, refl)

abbrev outage : List Event
outage = ticks failed none ∷ ticks panicked none ∷ ticks failed (some 5) ∷ []

abbrev fresh : Worker
fresh = start (new 30)

recovery_example :
    let w' = run fresh (ticks failed none ∷ outage) in
    let n = fresh.errors + suc (length outage) in
    (w'.ticker ≡ (if ltb 60 (2 ^ n) then 60 else 2 ^ n) * second)
    × ((step w' (ticks (done "now" 12) (some 20))).ticker ≡ next_interval fresh.interval (some 20))
    × ((step w' (ticks (done "now" 12) (some 20))).errors ≡ 0)
unfolding start new
recovery_example =
    recovery fresh (ticks failed none) outage (done "now" 12) (some 20) refl (start-IsPaced 30)
      (tt, (tt, (tt, (tt, tt)))) tt

run-start-IsPaced_example : IsPaced (run (start (new 30)) (ticks failed none ∷ signalled ∷ []))
run-start-IsPaced_example = run-start-IsPaced 30 (ticks failed none ∷ signalled ∷ [])
