-- ===== src/Middleware/Limiter/Laws.antt =====
-- How often a key is let through in one window, and how long a refused caller has to wait
-- (limiter.go).
use skyward.Base.{
  ℕ, suc, ◌≡◌, ◌≢◌, ◌⊎◌, inl, inr, true, if◌then◌else◌, Option, none, some, List, [], ◌∷◌, String,
  arith, All, ◌==◌, string_eq, Option-cases, Bool-cases, leb, ◌+◌, ◌∙◌, ap,
}
use skyward.Base.Int.{ℤ, pos, ◌+ℤ◌, ◌-ℤ◌, ◌≤ℤ◌, ◌<ℤ◌, +ℤ_parts, -ℤ_parts}
use skyward.Base.Dict.{
  lookup, IsMap, lookup-insert, lookup-erase, lookup-sweep, insert-IsMap, erase-IsMap, sweep-IsMap,
}
use skyward.Middleware.Limiter.{
  LimiterWindow, WindowLimiter, passed, open_window, allow, clear, retry_after, Call, attempts,
  clears, step, run,
}

open_window-IsMap :
    (l : WindowLimiter) (now : ℤ) (o : Option LimiterWindow)
    → IsMap l.hits
    → IsMap (open_window l now o).1.hits
unfolding open_window
open_window-IsMap l now none h = ground (arith, sweep-IsMap (passed now) l.hits h)
open_window-IsMap l now (some w) h = h

pub step-IsMap : (l : WindowLimiter) (c : Call) → IsMap l.hits → IsMap (step l c).hits
unfolding step allow clear
step-IsMap l (attempts key max now) h =
    insert-IsMap key _ _ (open_window-IsMap l now (lookup key l.hits) h)
step-IsMap l (clears key) h = erase-IsMap key l.hits h

-- A call that leaves the window of `key`, open until `deadline`, where it is.
abbrev pub Keeps : String → ℤ → Call → Type 0
Keeps key deadline (attempts k max now) = now ≤ℤ deadline
Keeps key deadline (clears k) = k ≢ key

-- How many of the calls are attempts for the key.
abbrev pub attempts_of : String → List Call → ℕ
attempts_of key [] = 0
attempts_of key (attempts k max now ∷ cs) =
    let rest = attempts_of key cs in if k == key then suc rest else rest
attempts_of key (clears k ∷ cs) = attempts_of key cs

open_window_other :
    (l : WindowLimiter) (key : String) (w : LimiterWindow) (now : ℤ) (o : Option LimiterWindow)
    → IsMap l.hits
    → now ≤ℤ w.reset_at
    → lookup key l.hits ≡ some w
    → lookup key (open_window l now o).1.hits ≡ some w
unfolding open_window
open_window_other l key w now none h t e = ground (arith, lookup-sweep (passed now) key l.hits h)
open_window_other l key w now (some v) h t e = e

abbrev bump : LimiterWindow → LimiterWindow
bump w = record w { count = suc w.count }

open_window_open :
    (l : WindowLimiter) (w : LimiterWindow) (now : ℤ)
    → now ≤ℤ w.reset_at
    → open_window l now (some w) ≡ (w, l)
unfolding open_window
open_window_open l w now t = ground arith

attempt_counts :
    (l : WindowLimiter) (key : String) (w : LimiterWindow) (max : ℕ) (now : ℤ)
    → now ≤ℤ w.reset_at
    → lookup key l.hits ≡ some w
    → (allow l key max now).0 ≡ leb (suc w.count) max
unfolding allow open_window
attempt_counts l key w max now t e = ground arith

Keeps-step :
    (l : WindowLimiter) (c : Call) (key : String) (w : LimiterWindow)
    → IsMap l.hits
    → Keeps key w.reset_at c
    → lookup key l.hits ≡ some w
    → lookup key (step l c).hits ≡ some (record w { count = w.count + attempts_of key (c ∷ []) })
unfolding step allow clear
Keeps-step l (attempts k max now) key w h t e = elim (Bool-cases (k == key)) [
  | inl b ↦ ground (
    arith,
    string_eq.equal_iff k key,
    open_window_open l w now t,
    lookup-insert k key (bump (open_window l now (lookup k l.hits)).0)
        (open_window l now (lookup k l.hits)).1.hits,
  )
  | inr b ↦ ground (
    arith,
    open_window_other l key w now (lookup k l.hits) h t e,
    lookup-insert k key (bump (open_window l now (lookup k l.hits)).0)
        (open_window l now (lookup k l.hits)).1.hits,
  )
]
Keeps-step l (clears k) key w h t e =
    ground (arith, string_eq.equal_iff k key, lookup-erase k key l.hits)

attempts_of_cons :
    (key : String) (c : Call) (cs : List Call)
    → attempts_of key (c ∷ cs) ≡ attempts_of key (c ∷ []) + attempts_of key cs
attempts_of_cons key (attempts k max now) cs = ground arith
attempts_of_cons key (clears k) cs = omega arith

Keeps-run :
    (l : WindowLimiter) (cs : List Call) (key : String) (w : LimiterWindow)
    → IsMap l.hits
    → All (Keeps key w.reset_at) cs
    → lookup key l.hits ≡ some w
    → lookup key (run l cs).hits ≡ some (record w { count = w.count + attempts_of key cs })
unfolding run
Keeps-run l [] key w h t e = ground arith
Keeps-run l (c ∷ cs) key w h t e =
    let w' : LimiterWindow = record w { count = w.count + attempts_of key (c ∷ []) } in
    ground (
      arith,
      attempts_of_cons key c cs,
      Keeps-run (step l c) cs key w' (step-IsMap l c h) t.1 (Keeps-step l c key w h t.0 e),
    )

-- The key's window is over, or there is none.
abbrev pub IsOver : WindowLimiter → String → ℤ → Type 0
IsOver l key now =
    (lookup key l.hits ≡ none)
    ⊎ ((w : LimiterWindow) × (lookup key l.hits ≡ some w) × (passed now w ≡ true))

opens :
    (l : WindowLimiter) (key : String) (max : ℕ) (now : ℤ)
    → IsOver l key now
    → (lookup key (step l (attempts key max now)).hits
        ≡ some (record { count = 1; reset_at = now +ℤ l.window }))
      × ((allow l key max now).0 ≡ leb 1 max)
unfolding step allow open_window
opens l key max now (inl e) = ground (
  arith,
  string_eq.equal_iff key key,
  lookup-insert key key (bump (open_window l now (lookup key l.hits)).0)
      (open_window l now (lookup key l.hits)).1.hits,
)
opens l key max now (inr (w, e, p)) = ground (
  arith,
  string_eq.equal_iff key key,
  lookup-insert key key (bump (open_window l now (lookup key l.hits)).0)
      (open_window l now (lookup key l.hits)).1.hits,
)

-- In a window that an attempt opens, the attempt after `n` more attempts for the key is let through
-- exactly if `n + 2` is within its limit. The map keeps each key once, the key had no window that is
-- still open, the calls in between come before the window ends and none of them clears the key or
-- sweeps after it, and the last attempt comes before it ends too.
pub allow_nth :
    (l : WindowLimiter) (key : String) (max max' : ℕ) (now later : ℤ) (cs : List Call)
    → IsMap l.hits
    → IsOver l key now
    → All (Keeps key (now +ℤ l.window)) cs
    → later ≤ℤ now +ℤ l.window
    → (allow (run (step l (attempts key max now)) cs) key max' later).0
      ≡ leb (attempts_of key cs + 2) max'
allow_nth l key max max' now later cs h over t before =
    attempt_counts _ key _ max' later before (
      Keeps-run (step l (attempts key max now)) cs key
        (record { count = 1; reset_at = now +ℤ l.window }) (step-IsMap l (attempts key max now) h) t
        (opens l key max now over).0)
    ∙ ap (λ n. leb n max') (omega arith)

over :
    (l : WindowLimiter) (key : String) (now later : ℤ)
    → now +ℤ retry_after l key now <ℤ later
    → IsOver l key later
unfolding retry_after
over l key now later wait = elim (Option-cases (lookup key l.hits)) [
  | inl e ↦ inl e
  | inr (w, e) ↦ inr (
    w,
    e,
    ground (arith, +ℤ_parts now (pos 0), -ℤ_parts w.reset_at now, +ℤ_parts now (w.reset_at -ℤ now)),
  )
]

-- Waiting longer than `retry_after` is enough: with no call in between, the next attempt after that
-- time is let through by any limit but 0.
pub retry_after_suffices :
    (l : WindowLimiter) (key : String) (max : ℕ) (now later : ℤ)
    → now +ℤ retry_after l key now <ℤ later
    → (allow l key max later).0 ≡ leb 1 max
retry_after_suffices l key max now later wait =
    (opens l key max later (over l key now later wait)).1
