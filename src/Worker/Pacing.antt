-- ===== src/Worker/Pacing.antt =====
-- The ticker's pace under failures (worker.go).
use skyward.Base.{
  ℕ, zero, suc, ◌+◌, ◌*◌, ◌^◌, ◌≤◌, ◌<◌, ◌≡◌, refl, true, if◌then◌else◌, Option, List, [], ◌∷◌,
  arith, ltb, ap, All, length, ◌∙◌, Bool-cases, inl, inr,
}
use native.Mathlib.Nat.{pow-suc, one-mul}
use skyward.Worker.{
  Worker, Outcome, absent, failed, panicked, done, Event, cancelled, signalled, ticks, second,
  backoff, backoff_from, tick_interval, new, start, step, run, next_interval,
}

two_pow_pos : (n : ℕ) → 0 < 2 ^ n
two_pow_pos zero = omega arith
two_pow_pos (suc n) = rw pow-suc (omega (arith, two_pow_pos n))

backoff_from-eq :
    (n d : ℕ) → d ≤ 60 → 0 < d → backoff_from n d ≡ (if ltb 60 (d * 2 ^ n) then 60 else d * 2 ^ n)
unfolding backoff_from
backoff_from-eq zero d h p = ground arith
backoff_from-eq (suc n) d h p = elim (Bool-cases (ltb 60 (d * 2))) [
  | inl capped ↦ rw doubled (grind (arith, two_pow_pos n, capped))
  | inr below ↦ rw doubled (ground (arith, backoff_from-eq n (d * 2)))
]
  where
    doubled : d * 2 ^ suc n ≡ d * 2 * 2 ^ n
    doubled = rw pow-suc (omega arith)

-- The pause is 2 to the number of failures in seconds, and 60 seconds at most.
pub backoff-eq : (n : ℕ) → backoff n ≡ (if ltb 60 (2 ^ n) then 60 else 2 ^ n) * second
unfolding backoff
backoff-eq n =
    ap (λ d. d * second) (backoff_from-eq n 1 (omega arith) (omega arith) ∙ rw one-mul refl)

-- The ticker keeps the configured interval while the ticks succeed and the pause of the failures so
-- far while they fail, and the status tells the truth.
pub record IsPaced (w : Worker) : Type 0 where
  pub paced : w.running ≡ true → w.ticker ≡ tick_interval w.interval w.errors
  pub counted : w.status.errors_count ≡ w.errors
  pub honest : w.status.alive ≡ w.running

pub start-IsPaced : (secs : ℕ) → IsPaced (start (new secs))
unfolding start new tick_interval
start-IsPaced secs = ground arith

step-IsPaced : (w : Worker) (e : Event) → IsPaced w → IsPaced (step w e)
unfolding step tick_interval
step-IsPaced w cancelled v = ground arith
step-IsPaced w signalled v = ground arith
step-IsPaced w (ticks absent read) v = ground arith
step-IsPaced w (ticks failed read) v = ground arith
step-IsPaced w (ticks panicked read) v = ground arith
step-IsPaced w (ticks (done at ms) read) v = ground arith

-- After any events, from the start of the loop.
pub run-IsPaced : (w : Worker) (es : List Event) → IsPaced w → IsPaced (run w es)
unfolding run
run-IsPaced w [] v = v
run-IsPaced w (e ∷ es) v = run-IsPaced (step w e) es (step-IsPaced w e v)

-- From the start of the loop, after any events, panics too, the worker keeps what `IsPaced` says:
-- while it runs its ticker is the configured interval after a success and the pause for the failures
-- in a row after failures, its status counts these failures, and its status is alive exactly while
-- it runs.
pub run-start-IsPaced : (secs : ℕ) (es : List Event) → IsPaced (run (start (new secs)) es)
run-start-IsPaced secs es = run-IsPaced _ es (start-IsPaced secs)

abbrev pub IsFailing : Event → Type 0
IsFailing (ticks failed read) = Unit
IsFailing (ticks panicked read) = Unit
IsFailing _ = ⊥

abbrev pub Succeeds : Outcome → Type 0
Succeeds absent = Unit
Succeeds (done at ms) = Unit
Succeeds _ = ⊥

fail_step :
    (w : Worker) (e : Event)
    → w.running ≡ true
    → IsFailing e
    → let w' = step w e in
      (w'.running ≡ true)
      × (w'.errors ≡ suc w.errors)
      × (w'.interval ≡ w.interval)
      × (w'.ticker ≡ tick_interval w.interval w'.errors)
unfolding step tick_interval
fail_step w cancelled r f = absurd f
fail_step w signalled r f = absurd f
fail_step w (ticks absent read) r f = absurd f
fail_step w (ticks failed read) r f = ground arith
fail_step w (ticks panicked read) r f = ground arith
fail_step w (ticks (done at ms) read) r f = absurd f

fail_run :
    (w : Worker) (es : List Event)
    → w.running ≡ true
    → w.ticker ≡ tick_interval w.interval w.errors
    → All IsFailing es
    → let w' = run w es in
      (w'.running ≡ true)
      × (w'.interval ≡ w.interval)
      × (w'.ticker ≡ tick_interval w.interval (w.errors + length es))
unfolding run
fail_run w [] r p f = (r, refl, ground arith)
fail_run w (e ∷ es) r p (f, fs) =
    let (r', errors', interval', ticker') = fail_step w e r f in
    let (running, same, pace) = fail_run (step w e) es r' (ground arith) fs in
    (running, same ∙ interval', ground arith)

success_step :
    (w : Worker) (o : Outcome) (read : Option ℕ)
    → w.running ≡ true
    → Succeeds o
    → ((step w (ticks o read)).ticker ≡ next_interval w.interval read)
      × ((step w (ticks o read)).errors ≡ 0)
unfolding step
success_step w absent read r s = ground arith
success_step w failed read r s = absurd s
success_step w panicked read r s = absurd s
success_step w (done at ms) read r s = ground arith

-- The pause after a row of failures, which is not empty.
backs_off :
    (base n : ℕ) → 0 < n → tick_interval base n ≡ (if ltb 60 (2 ^ n) then 60 else 2 ^ n) * second
unfolding tick_interval
backs_off base n failing = rw backoff-eq (ground (arith, failing))

-- While the ticks of a running worker that keeps its pace fail, by errors or panics, its ticker is 2
-- to the number of failures in a row in seconds, and 60 seconds at most; the first tick that succeeds
-- brings back the configured interval, or the one that the database gives by then, and no failure is
-- counted any more.
pub recovery :
    (w : Worker) (e : Event) (es : List Event) (o : Outcome) (read : Option ℕ)
    → w.running ≡ true
    → IsPaced w
    → All IsFailing (e ∷ es)
    → Succeeds o
    → let w' = run w (e ∷ es) in
      let n = w.errors + suc (length es) in
      (w'.ticker ≡ (if ltb 60 (2 ^ n) then 60 else 2 ^ n) * second)
      × ((step w' (ticks o read)).ticker ≡ next_interval w.interval read)
      × ((step w' (ticks o read)).errors ≡ 0)
recovery w e es o read r v f s =
    let (running, same, pace) = fail_run w (e ∷ es) r (v.paced r) f in
    let (ticker', errors') = success_step (run w (e ∷ es)) o read running s in
    (
      pace ∙ backs_off w.interval (w.errors + suc (length es)) (omega arith),
      ticker' ∙ ap (λ i. next_interval i read) same,
      errors',
    )
