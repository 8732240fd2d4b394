-- ===== src/Accounting/Tests.antt =====
-- The accounting theorems at concrete inputs.
use native.Mathlib.Decide.{ℕ_discrete}
use quantora_trade.Prelude.{
  ◌*◌, ◌/◌, ◌≡◌, refl, String, String_discrete, true, false, some, List, [], ◌∷◌, any, ◌!=◌,
  string_eq, arith,
}
use quantora_trade.Prelude.Int.{ℤ, pos, negsuc, ◌+ℤ◌, ◌-ℤ◌, ◌*ℤ◌, ◌≤ℤ◌, nat_abs, ℤ_discrete}
use quantora_trade.Prelude.Text.{text_length, is_hex}
use quantora_trade.Prelude.Exec.{ok}
use quantora_trade.Accounting.Models.{
  buys, sells, AccountingFill, PositionSnapshot, AccountSnapshot, check_position,
}
use quantora_trade.Accounting.Ledger.{
  apply_fill, updated, realized_by, average_after, signed_fill, same_direction, mismatches,
  mark_position, update_account, next_account,
}
use quantora_trade.Accounting.Ledger.Worth.{rounding, apply_fill-conserves}
use quantora_trade.Accounting.Ledger.Books.{
  IsBalanced, IsAfter, Update, run, applied, run-IsBalanced, update_account-returns,
}

abbrev digest : String
digest = "aaaaaaaaaaaaaaaaaaaaaaaaaaaaaaaaaaaaaaaaaaaaaaaaaaaaaaaaaaaaaaaa"

-- Long 10 at 100, and a sale of 15 at 120: the position turns short 5 at 120.
abbrev long : PositionSnapshot
long = record {
  instrument_id = 1;
  broker_id = 2;
  specification_hash = digest;
  symbol = "EURUSD";
  quote_currency = "USD";
  net_quantity = pos 10;
  average_price = 100;
  mark_price = 100;
  contract_multiplier = 3;
  realized_pnl = pos 0;
  unrealized_pnl = pos 0;
  fees = 1;
}

abbrev sale : AccountingFill
sale = record {
  order_id = 7;
  sequence = 1;
  instrument_id = 1;
  broker_id = 2;
  specification_hash = digest;
  symbol = "EURUSD";
  side = sells;
  quantity = 15;
  price = 120;
  commission = 2;
  filled_at = record { utc = true; instant = 5 };
  quote_currency = "USD";
  contract_multiplier = 3;
}

abbrev short : PositionSnapshot
short = record long {
  net_quantity = negsuc 4;
  average_price = 120;
  mark_price = 120;
  realized_pnl = pos 600;
  fees = 3;
}

sale_applied : apply_fill ◌/◌ (some long) sale ≡ ok (short, pos 600)
unfolding apply_fill updated realized_by average_after signed_fill same_direction mismatches
    check_position is_hex text_length ◌+ℤ◌ ◌-ℤ◌ ◌*ℤ◌ ℤ_discrete ℕ_discrete String_discrete
sale_applied = refl

-- A purchase of 5 at 122 on top of the 10 at 100: the average of 1610 over 15 is rounded to 107, and
-- 5 is left over.
abbrev purchase : AccountingFill
purchase = record sale { side = buys; quantity = 5; price = 122 }

abbrev longer : PositionSnapshot
longer = record long { net_quantity = pos 15; average_price = 107; mark_price = 122; fees = 3 }

purchase_applied : apply_fill ◌/◌ (some long) purchase ≡ ok (longer, pos 0)
unfolding apply_fill updated realized_by average_after signed_fill same_direction mismatches
    check_position is_hex text_length ◌+ℤ◌ ◌-ℤ◌ ◌*ℤ◌ ℤ_discrete ℕ_discrete String_discrete
purchase_applied = refl

apply_fill-conserves_example :
    (before : PositionSnapshot) × (after : PositionSnapshot) × (mark_position long 90 ≡ ok before)
    × (mark_position longer 90 ≡ ok after)
    × (after.unrealized_pnl +ℤ pos 0
        ≡ before.unrealized_pnl
          +ℤ (pos 90 -ℤ pos 122) *ℤ signed_fill purchase *ℤ pos 3
          +ℤ rounding ◌/◌ long purchase *ℤ pos 3)
    × (pos 0 ≡ pos 0 +ℤ pos 0)
    × (longer.fees ≡ 3)
apply_fill-conserves_example =
    apply_fill-conserves ◌/◌ long longer purchase (pos 0) purchase_applied 90 (omega arith)

abbrev account : AccountSnapshot
account = record {
  currency = "USD";
  initial_balance = pos 1000;
  cash_balance = pos 1000;
  realized_pnl = pos 0;
  unrealized_pnl = pos 0;
  fees = pos 0;
  equity = pos 1000;
  equity_peak = pos 1000;
  drawdown = pos 0;
  drawdown_pct = pos 0;
}

account-IsBalanced : IsBalanced account
unfolding ◌+ℤ◌ ◌-ℤ◌
account-IsBalanced = record { cash = refl; equity = refl; peak = omega arith; drawdown = refl }

-- A ratio of money in units of one part in a thousand.
abbrev per_mille : ℤ → ℤ → ℤ
per_mille d p = pos (nat_abs d * 1000 / nat_abs p)

abbrev updates : List Update
updates = (short ∷ [], pos 600, pos 2) ∷ (long ∷ [], negsuc 99, pos 1) ∷ []

run-IsBalanced_example :
    IsBalanced (run per_mille updates account)
    × IsAfter account (applied per_mille updates account) (run per_mille updates account)
run-IsBalanced_example = run-IsBalanced per_mille updates account account-IsBalanced

dollars : text_length account.currency ≡ 3
unfolding text_length
dollars = refl

same_currency : any (λ p. p.quote_currency != account.currency) (short ∷ []) ≡ false
unfolding String_discrete
same_currency = refl

fees_rise : pos 0 ≤ℤ pos 0 +ℤ pos 2
unfolding ◌+ℤ◌
fees_rise = omega arith

update_account-returns_example :
    update_account per_mille account (short ∷ []) (pos 600) (pos 2)
    ≡ ok (next_account per_mille account (short ∷ []) (pos 600) (pos 2))
update_account-returns_example =
    update_account-returns per_mille account (short ∷ []) (pos 600) (pos 2) dollars
      (λ d p hd hp. omega arith) same_currency fees_rise
