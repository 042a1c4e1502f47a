-- ===== src/Engine/Routes/Assign.antt =====
-- RoutesService.Assign (apps/api/internal/engine/routes.go): an aircraft for a route, or, with an
-- empty id, none.
pub mod Checks
pub mod Effect
pub mod Outcome
use skyward.Base.{ℕ, Option, none, some, nat_eq}
use skyward.Float.{Float, whole}
use skyward.Engine.Db.{Db, Platform, Route, unassigned}
use skyward.Engine.Tx.{
  Reply, ok, no_rows, failed, fn_error, Result, returned, err, tx_failure_message,
}
use skyward.Engine.Service.{Service, answer, query, execute, transact, or_answer, ◌>>=◌}
use skyward.Engine.Fleet.{MutationResult}
use skyward.Engine.Routes.{refusal, success_with, route_of, update_route}
use skyward.Engine.Routes.Assign.Checks.{safety_threshold, assign_tx}

abbrev pub assigned_answer :
    {F : Type 0} ⦃num : Float F⦄ → Result (MutationResult F) → MutationResult F
assigned_answer (returned result) = result
assigned_answer (err e) = refusal (tx_failure_message e)

module _ {F Time : Type 0} ⦃num : Float F⦄ ⦃p : Platform F Time⦄ where
  unfoldable pub unassign : ℕ → ℕ → Service F Time (MutationResult F) ⊥
  unassign user route = do
    updated ← execute (update_route user route unassigned)
    _ ← or_answer updated (refusal (tx_failure_message (fn_error "update")))
    answer (success_with "Aircraft unassigned from route.")

  -- From the read of the threshold on.
  unfoldable pub assign_within : ℕ → ℕ → ℕ → Route F → Service F Time (MutationResult F) ⊥
  assign_within user route aircraft r = do
    limit ← query (safety_threshold user)
    threshold ← or_answer limit (refusal "Aircraft is unavailable or below the safety threshold.")
    result ← transact (assign_tx user route aircraft r threshold)
    answer (assigned_answer result)

  unfoldable pub assign_found : ℕ → ℕ → Option ℕ → Route F → Service F Time (MutationResult F) ⊥
  assign_found user route none r = unassign user route
  assign_found user route (some aircraft) r = assign_within user route aircraft r

  unfoldable pub assign : ℕ → ℕ → Option ℕ → Service F Time (MutationResult F) ⊥
  assign user route aircraft = do
    row ← query (route_of user route)
    r ← or_answer row (refusal "Route not found.")
    assign_found user route aircraft r
