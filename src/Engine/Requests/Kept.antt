-- ===== src/Engine/Requests/Kept.antt =====
-- What each service's effect keeps: the books, the solvency and the routes.
use skyward.Base.{ℕ, ◌≡◌, sym, ap, ◌∙◌, String, nat_eq, inl, inr}
use skyward.Base.Int.{ℤ}
use skyward.Base.Dict.{lookup}
use skyward.Float.{Float, IsArithmetic}
use skyward.Engine.Db.{Db, Platform, IsSigned}
use skyward.Engine.Ledger.{Direction, balance_of}
use skyward.Engine.Ledger.Laws.{
  IsBalanced, IsSolvent, IsGuarded, Effect, Moves, written, Effect-IsBalanced, Effect-IsSolvent,
  Effect-fleet, owned_aircraft_same,
}
use skyward.Engine.Routes.Rows.{IsSound}
use skyward.Engine.Routes.FleetWrites.{kept-IsSound}

-- Every balance is its opening one with what the ledger records, none is negative, and the routes
-- are in order.
pub record IsOrderly {F Time : Type 0} (opening : ℕ → ℤ) (db : Db F Time) : Type 0 where
  pub balanced : IsBalanced opening db
  pub solvent : IsSolvent db
  pub routes : IsSound db

module _ {F Time : Type 0} where
  -- Rows whose balances and entries are the same.
  pub same_money-IsOrderly :
      (opening : ℕ → ℤ) (c w : Db F Time)
      → w.balances ≡ c.balances
      → w.entries ≡ c.entries
      → IsSound w
      → IsOrderly opening c
      → IsOrderly opening w
  unfolding IsBalanced IsSolvent balance_of
  same_money-IsOrderly opening c w b e sound h = record {
    balanced = λ user x l. rw e (h.balanced user x (ap (lookup user) (sym b) ∙ l));
    solvent = λ user x l. h.solvent user x (ap (lookup user) (sym b) ∙ l);
    routes = sound;
  }

module _ {F Time : Type 0} ⦃num : Float F⦄ ⦃p : Platform F Time⦄ where
  Effect-routes :
      (d : Direction) (user : ℕ) (amount : F) (category subcategory : String) (t : Time)
      (v w : Db F Time)
      → Effect d user amount category subcategory t v w
      → w.routes ≡ v.routes
  unfolding Effect Moves written
  Effect-routes d user amount category subcategory t v w (inl (z, e)) = ap (λ d. d.routes) e
  Effect-routes d user amount category subcategory t v w (inr (z, (before, after, b, m, e))) =
      ap (λ d. d.routes) e

  -- A movement of the ledger that is covered.
  pub Effect-IsOrderly :
      (law : IsArithmetic F) (sign : IsSigned F Time) (d : Direction) (user : ℕ) (amount : F)
      (category subcategory : String) (t : Time) (opening : ℕ → ℤ) (v w : Db F Time)
      → IsGuarded d
      → Effect d user amount category subcategory t v w
      → IsOrderly opening v
      → IsOrderly opening w
  Effect-IsOrderly law sign d user amount category subcategory t opening v w g moved h = record {
    balanced = Effect-IsBalanced d user amount category subcategory t opening v w moved h.balanced;
    solvent = Effect-IsSolvent law sign d user amount category subcategory t v w g moved h.solvent;
    routes =
        kept-IsSound v w (Effect-routes d user amount category subcategory t v w moved)
          (λ u id x own. (
            x,
            owned_aircraft_same u id v w
                  (Effect-fleet d user amount category subcategory t v w moved)
                ∙ own,
          ))
          h.routes;
  }
