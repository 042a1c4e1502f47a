-- ===== src/Engine/Ledger.antt =====
-- The ledger (LedgerService of apps/api/internal/engine/engine.go): every change of a balance goes
-- through apply_tx, which records it.
pub mod Laws
pub mod Reads
use skyward.Base.{
  ℕ, ◌≡◌, Bool, true, false, Option, none, some, List, [], ◌∷◌, String, nat_eq, if◌then◌else◌,
}
use skyward.Base.Int.{ℤ, pos, ◌+ℤ◌, ◌-ℤ◌, leb_ℤ}
use skyward.Base.Dict.{Dict, lookup, insert}
use skyward.Float.{Float, ◌⩽◌, ◌⋖◌, whole}
use skyward.Economy.Money.{round2}
use skyward.Engine.Db.{Db, Platform, Entry}
use skyward.Engine.Tx.{
  Reply, ok, no_rows, failed, TxError, fn_error, Verdict, error, Tx, pure, return, statement,
  pool_query, ◌>>=◌,
}

-- How a movement treats the balance: DebitTx asks that it be enough, DebitTxAllowNegative does not.
pub data Direction : Type 0 where
  credit debit debit_allow_negative : Direction

abbrev pub moved : Direction → ℤ → ℤ → Option ℤ
moved credit amount balance = some (balance +ℤ amount)
moved debit_allow_negative amount balance = some (balance -ℤ amount)
moved debit amount balance = if leb_ℤ amount balance then some (balance -ℤ amount) else none

abbrev pub signed : Direction → ℤ → ℤ
signed credit amount = amount
signed debit amount = pos 0 -ℤ amount
signed debit_allow_negative amount = pos 0 -ℤ amount

abbrev pub is_credit : Direction → Bool
is_credit credit = true
is_credit debit = false
is_credit debit_allow_negative = false

abbrev pub entry_of : {Time : Type 0} → Direction → ℕ → ℤ → ℤ → String → String → Time → Entry Time
entry_of d user amount after category subcategory game_time = record {
  user_id = user;
  is_credit = is_credit d;
  amount = signed d amount;
  balance_after = after;
  ifrs_category = category;
  ifrs_subcategory = subcategory;
  game_date = game_time;
}

abbrev pub returned_by : {F : Type 0} → F → Reply ℕ → Reply F
returned_by after (ok _) = ok after
returned_by after no_rows = no_rows
returned_by after failed = failed

abbrev pub loaded : {F : Type 0} → (ℤ → F) → Reply ℤ → Reply F
loaded load (ok b) = ok (load b)
loaded load no_rows = no_rows
loaded load failed = failed

module _ {F Time : Type 0} where
  abbrev pub with_balances : Dict ℕ ℤ → Db F Time → Db F Time
  with_balances balances db = record db { balances = balances }

  abbrev pub with_entries : List (Entry Time) → Db F Time → Db F Time
  with_entries entries db = record db { entries = entries }

  -- SELECT balance FROM bank_accounts WHERE user_id = … AND account_type = 'operating'
  unfoldable pub balance_of : ℕ → Db F Time → Option ℤ
  balance_of user db = lookup user db.balances

  -- UPDATE bank_accounts SET balance = … WHERE … RETURNING balance
  unfoldable pub update_balance : Direction → ℕ → ℤ → Db F Time → Option (ℤ × Db F Time)
  update_balance d user amount db = elim (balance_of user db) [
    | none ↦ none
    | some balance ↦ elim (moved d amount balance) [
      | none ↦ none
      | some after ↦ some (after, with_balances (insert user after db.balances) db)
    ]
  ]

  -- INSERT INTO bank_transactions … SELECT … FROM bank_accounts: no account, no row. It returns the number of rows.
  unfoldable pub insert_entry : Entry Time → Db F Time → Option (ℕ × Db F Time)
  insert_entry entry db = elim (balance_of entry.user_id db) [
    | none ↦ some (0, db)
    | some _ ↦ some (1, with_entries (entry ∷ db.entries) db)
  ]

  abbrev pub read_with : {A : Type 0} → (Db F Time → Option A) → Db F Time → Option (A × Db F Time)
  read_with f db = elim (f db) [ none ↦ none | some a ↦ some (a, db) ]

  -- The entry of a balance that was written.
  abbrev pub record_entry :
      {R : Type 0} ⦃p : Platform F Time⦄
      → Direction
      → ℕ
      → ℤ
      → String
      → String
      → Time
      → Reply ℤ
      → Tx F Time R (Reply F)
  record_entry ⦃p⦄ d user amount category subcategory game_time (ok after) =
      statement (insert_entry (entry_of d user amount after category subcategory game_time))
      >>= λ inserted. pure (returned_by (p.load after) inserted)
  record_entry d user amount category subcategory game_time no_rows = pure no_rows
  record_entry d user amount category subcategory game_time failed = pure failed

  unfoldable pub apply_tx :
      {R : Type 0} ⦃num : Float F⦄ ⦃p : Platform F Time⦄
      → Direction
      → ℕ
      → F
      → String
      → String
      → Time
      → Tx F Time R (Reply F)
  apply_tx ⦃num⦄ ⦃p⦄ d user amount category subcategory game_time =
      let amount = round2 amount in
      if amount ⋖ whole 0
      then pure failed
      else if amount ⩽ whole 0
      then (statement (read_with (balance_of user)) >>= λ b. pure (loaded p.load b))
      else statement (update_balance d user (p.store amount))
        >>= record_entry d user (p.store amount) category subcategory game_time
