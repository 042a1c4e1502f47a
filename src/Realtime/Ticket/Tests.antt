-- ===== src/Realtime/Ticket/Tests.antt =====
-- Runs of the ticket store (ticket.go), and its theorems at concrete inputs.
use skyward.Base.{◌≡◌, refl, none, some, List, [], ◌∷◌, arith}
use skyward.Base.Int.{pos, ◌+ℤ◌}
use mathlib.Core.Option.{some-injective}
use skyward.Base.{ne_of_beq, string_eq}
use skyward.Realtime.Ticket.{
  new_ticket_store, redeem, issue, step, run, len, Call, issues, redeems, sets_ttl,
}
use skyward.Realtime.Ticket.Laws.{Issued, redeem_provenance, redeem_once, issue_redeem}

abbrev morning : List Call
morning = issues (some "abc") "u1" (pos 10) (pos 11) ∷ issues none "u2" (pos 12) (pos 13) ∷ []

abbrev later_calls : List Call
later_calls =
    sets_ttl (pos 1) ∷ issues (some "def") "u2" (pos 20) (pos 21) ∷ redeems "def" (pos 21) ∷ []

redeem-morning : (redeem (run new_ticket_store morning) "abc" (pos 15)).0 ≡ some "u1"
unfolding redeem run new_ticket_store step issue ◌+ℤ◌
redeem-morning = refl

-- A sweep removes what has expired.
swept_len :
    len (
      run new_ticket_store (
        issues (some "a") "u" (pos 0) (pos 0)
        ∷ issues (some "b") "u" (pos 30_000_000_001) (pos 30_000_000_001)
        ∷ []))
    ≡ 1
unfolding len run new_ticket_store step issue ◌+ℤ◌
swept_len = refl

redeem_provenance_example : Issued "abc" "u1" morning
redeem_provenance_example = redeem_provenance morning "abc" "u1" (pos 15) redeem-morning

redeem_once_example :
    let s' = run (step (run new_ticket_store morning) (redeems "abc" (pos 12))) [] in
    redeem s' "abc" (pos 13) ≡ (none, s')
unfolding run new_ticket_store step issue ◌+ℤ◌
redeem_once_example =
    redeem_once (run new_ticket_store morning) "abc" (pos 12) (pos 13) [] (refl, tt) (λ u h. h)

issue_redeem_example :
    (redeem
      (run (step new_ticket_store (issues (some "abc") "u1" (pos 10) (pos 11))) later_calls)
      "abc"
      (pos 30_000_000_011)).0
    ≡ some "u1"
unfolding new_ticket_store ◌+ℤ◌
issue_redeem_example =
    issue_redeem new_ticket_store "abc" "u1" (pos 10) (pos 11) (pos 30_000_000_011) later_calls
      (ne_of_beq "abc" "" refl) tt
      (
        tt,
        (
          ((λ e. ne_of_beq "def" "abc" refl (some-injective _ _ e)), omega arith),
          (ne_of_beq "def" "abc" refl, tt),
        ),
      )
