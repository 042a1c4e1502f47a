-- ===== src/Middleware/RateLimit/Cleanup.antt =====
-- The cleanup bounds the memory and changes no answer (middleware.go).
use skyward.Base.{
  suc, ◌≡◌, refl, sym, Option, none, some, List, [], ◌∷◌, String, arith, string_eq, ◌∙◌, ap, ap₂,
}
use skyward.Base.Int.{ℤ, pos, ◌-ℤ◌, ◌≤ℤ◌, -ℤ_parts}
use skyward.Base.Dict.{
  lookup, IsMap, lookup-insert, lookup-sweep, insert-IsMap, sweep-IsMap, unless,
}
use skyward.Middleware.RateLimit.{
  Slot, States, stale, slot_at, request, clean, Event, requests, cleans, answers,
}

abbrev pub InOrder : ℤ → List Event → Type 0
InOrder t [] = Unit
InOrder t (requests ip now ∷ es) = (t ≤ℤ now) × InOrder now es
InOrder t (cleans now ∷ es) = (t ≤ℤ now) × InOrder now es

abbrev pub requests_only : List Event → List Event
requests_only [] = []
requests_only (requests ip now ∷ es) = requests ip now ∷ requests_only es
requests_only (cleans now ∷ es) = requests_only es

-- Two tables give the same slots from `now` on.
abbrev Agree : ℤ → States → States → Type 0
Agree now s s' =
    (ip : String) → unless (stale now) (lookup ip s) ≡ unless (stale now) (lookup ip s')

unless_later :
    (t now : ℤ) (o o' : Option Slot)
    → t ≤ℤ now
    → unless (stale t) o ≡ unless (stale t) o'
    → unless (stale now) o ≡ unless (stale now) o'
unless_later t now none none h e = refl
unless_later t now none (some s) h e = ground arith
unless_later t now (some s) none h e = ground arith
unless_later t now (some s) (some s') h e = ground arith

slot_at-unless : (o : Option Slot) (now : ℤ) → slot_at (unless (stale now) o) now ≡ slot_at o now
unfolding slot_at
slot_at-unless none now = refl
slot_at-unless (some s) now = ground arith

slot_at-Agree :
    (now : ℤ) (s s' : States) (ip : String)
    → Agree now s s'
    → slot_at (lookup ip s) now ≡ slot_at (lookup ip s') now
slot_at-Agree now s s' ip a =
    sym (slot_at-unless (lookup ip s) now)
    ∙ ap (λ o. slot_at o now) (a ip)
    ∙ slot_at-unless (lookup ip s') now

abbrev bump : Slot → Slot
bump s = record s { count = suc s.count }

Agree-later : (t now : ℤ) (s s' : States) → t ≤ℤ now → Agree t s s' → Agree now s s'
Agree-later t now s s' h a ip = unless_later t now (lookup ip s) (lookup ip s') h (a ip)

unless-stale :
    (now : ℤ) (o : Option Slot)
    → unless (stale now) (unless (stale (now -ℤ pos 60)) o) ≡ unless (stale now) o
unless-stale now none = refl
unless-stale now (some s) = ground (arith, -ℤ_parts now (pos 60))

clean-Agree : (s s' : States) (now : ℤ) → IsMap s → Agree now s s' → Agree now (clean s now) s'
unfolding clean
clean-Agree s s' now h a ip =
    ap (unless (stale now)) (lookup-sweep (stale (now -ℤ pos 60)) ip s h)
    ∙ unless-stale now (lookup ip s)
    ∙ a ip

clean-IsMap : (s : States) (now : ℤ) → IsMap s → IsMap (clean s now)
unfolding clean
clean-IsMap s now h = sweep-IsMap (stale (now -ℤ pos 60)) s h

module _ (per_min : ℤ) where
  request-answer :
      (s s' : States) (ip : String) (now : ℤ)
      → Agree now s s'
      → (request per_min s ip now).0 ≡ (request per_min s' ip now).0
  unfolding request
  request-answer s s' ip now a = ground (arith, slot_at-Agree now s s' ip a)

  request-Agree :
      (s s' : States) (ip : String) (now : ℤ)
      → Agree now s s'
      → Agree now (request per_min s ip now).1 (request per_min s' ip now).1
  unfolding request
  request-Agree s s' ip now a ip' = ground (
    arith,
    a ip',
    slot_at-Agree now s s' ip a,
    lookup-insert ip ip' (bump (slot_at (lookup ip s) now)) s,
    lookup-insert ip ip' (bump (slot_at (lookup ip s') now)) s',
  )

  request-IsMap :
      (s : States) (ip : String) (now : ℤ) → IsMap s → IsMap (request per_min s ip now).1
  unfolding request
  request-IsMap s ip now h = ground (arith, insert-IsMap ip (bump (slot_at (lookup ip s) now)) s h)

  answers-Agree :
      (t : ℤ) (s s' : States) (es : List Event)
      → IsMap s
      → InOrder t es
      → Agree t s s'
      → answers per_min s es ≡ answers per_min s' (requests_only es)
  unfolding answers
  answers-Agree t s s' [] h o a = refl
  answers-Agree t s s' (requests ip now ∷ es) h o a =
      let a' : Agree now s s' = Agree-later t now s s' o.0 a in
      ap₂ ◌∷◌ (request-answer s s' ip now a')
        (answers-Agree now _ _ es (request-IsMap s ip now h) o.1 (request-Agree s s' ip now a'))
  answers-Agree t s s' (cleans now ∷ es) h o a =
      answers-Agree now (clean s now) s' es (clean-IsMap s now h) o.1
        (clean-Agree s s' now h (Agree-later t now s s' o.0 a))

  -- The answers to the requests are the same as if the cleanup had never run. The map keeps each
  -- address once, and the clock does not go back.
  pub clean_invisible :
      (t : ℤ) (s : States) (es : List Event)
      → IsMap s
      → InOrder t es
      → answers per_min s es ≡ answers per_min s (requests_only es)
  clean_invisible t s es h o = answers-Agree t s s es h o (λ ip. refl)
