-- ===== src/Accounting/Ledger.antt =====
-- Average-cost accounting: src/quantora_trade/accounting/service.py. Division rounds: `quotient` is
-- the division of the decimal library, a parameter.
pub mod Worth
pub mod Books
use native.Mathlib.Decide.{ℕ_discrete}
use quantora_trade.Prelude.{
  ℕ, ◌+◌, ◌*◌, min, String, String_discrete, Bool, true, false, ◌||◌, ◌&&◌, Option, none, some,
  List, [], ◌∷◌, any, ◌==◌, ◌!=◌, nat_eq, string_eq, if◌then◌else◌,
}
use quantora_trade.Prelude.Int.{
  ℤ, pos, negsuc, sub_ℕ, ◌+ℤ◌, ◌-ℤ◌, ◌*ℤ◌, ltb_ℤ, leb_ℤ, nat_abs, max_ℤ, int_eq,
}
use quantora_trade.Prelude.Exec.{value_error, Check, check, ◌⨾◌, Result, ok, err}
use quantora_trade.Accounting.Models.{
  Side, buys, sells, AccountingFill, PositionSnapshot, check_position, AccountSnapshot,
  check_account,
}

unfoldable pub signed_fill : AccountingFill → ℤ
signed_fill f = elim f.side [ buys ↦ pos f.quantity | sells ↦ pos 0 -ℤ pos f.quantity ]

unfoldable pub position_from_fill : AccountingFill → ℤ → PositionSnapshot
position_from_fill f quantity = record {
  instrument_id = f.instrument_id;
  broker_id = f.broker_id;
  specification_hash = f.specification_hash;
  symbol = f.symbol;
  quote_currency = f.quote_currency;
  net_quantity = quantity;
  average_price = f.price;
  mark_price = f.price;
  contract_multiplier = f.contract_multiplier;
  realized_pnl = pos 0;
  unrealized_pnl = pos 0;
  fees = f.commission;
}

unfoldable pub mismatches : PositionSnapshot → AccountingFill → Bool
mismatches p f =
    p.instrument_id != f.instrument_id
    || p.broker_id != f.broker_id
    || p.specification_hash != f.specification_hash
    || p.symbol != f.symbol
    || p.quote_currency != f.quote_currency
    || p.contract_multiplier != f.contract_multiplier

-- `a > 0`
abbrev pub is_positive : ℤ → Bool
is_positive a = ltb_ℤ (pos 0) a

abbrev pub same : Bool → Bool → Bool
same true b = b
same false true = false
same false false = true

unfoldable pub same_direction : ℤ → ℤ → Bool
same_direction old fill = old == pos 0 || same (is_positive old) (is_positive fill)

abbrev pub direction : ℤ → ℤ
direction old = if is_positive old then pos 1 else negsuc 0

unfoldable pub realized_by : PositionSnapshot → AccountingFill → ℤ
realized_by p f =
    if same_direction p.net_quantity (signed_fill f)
    then pos 0
    else (pos f.price -ℤ pos p.average_price)
      *ℤ pos (min (nat_abs p.net_quantity) (nat_abs (signed_fill f)))
      *ℤ pos f.contract_multiplier
      *ℤ direction p.net_quantity

module _ (quotient : ℕ → ℕ → ℕ) where
  unfoldable pub average_after : PositionSnapshot → AccountingFill → ℤ → ℕ
  average_after p f quantity =
      if same_direction p.net_quantity (signed_fill f)
      then quotient (nat_abs p.net_quantity * p.average_price + nat_abs (signed_fill f) * f.price)
          (nat_abs quantity)
      else if quantity == pos 0
      then 0
      else if same (is_positive quantity) (is_positive p.net_quantity)
      then p.average_price
      else f.price

  unfoldable pub updated : PositionSnapshot → AccountingFill → PositionSnapshot
  updated p f =
      let quantity = p.net_quantity +ℤ signed_fill f in
      record p {
        net_quantity = quantity;
        average_price = average_after p f quantity;
        mark_price = if quantity == pos 0 then 0 else f.price;
        realized_pnl = p.realized_pnl +ℤ realized_by p f;
        unrealized_pnl = pos 0;
        fees = p.fees + f.commission;
      }

  abbrev pub checked : PositionSnapshot → ℤ → Check → Result (PositionSnapshot × ℤ)
  checked p realized (err e) = err e
  checked p realized (ok _) = ok (p, realized)

  unfoldable pub apply_fill :
      Option PositionSnapshot → AccountingFill → Result (PositionSnapshot × ℤ)
  apply_fill none f =
      let p = position_from_fill f (signed_fill f) in checked p (pos 0) (check_position p)
  apply_fill (some p) f = checked (updated p f) (realized_by p f) (
      check (mismatches p f)
        (value_error "fill specification does not match the persisted position")
      ⨾ check_position (updated p f))

-- `model_copy` makes no check.
unfoldable pub mark_position : PositionSnapshot → ℕ → Result PositionSnapshot
mark_position p price =
    if price == 0
    then err (value_error "mark price must be positive")
    else ok (record p {
      mark_price = price;
      unrealized_pnl =
          (pos price -ℤ pos p.average_price) *ℤ p.net_quantity *ℤ pos p.contract_multiplier;
    })

abbrev pub unrealized_sum : List PositionSnapshot → ℤ
unrealized_sum [] = pos 0
unrealized_sum (p ∷ ps) = p.unrealized_pnl +ℤ unrealized_sum ps

module _ (ratio : ℤ → ℤ → ℤ) where
  unfoldable pub next_account : AccountSnapshot → List PositionSnapshot → ℤ → ℤ → AccountSnapshot
  next_account a positions realized_delta fee_delta =
      let realized = a.realized_pnl +ℤ realized_delta in
      let fees = a.fees +ℤ fee_delta in
      let cash = a.initial_balance +ℤ realized -ℤ fees in
      let unrealized = unrealized_sum positions in
      let equity = cash +ℤ unrealized in
      let peak = max_ℤ a.equity_peak equity in
      record {
        currency = a.currency;
        initial_balance = a.initial_balance;
        cash_balance = cash;
        realized_pnl = realized;
        unrealized_pnl = unrealized;
        fees = fees;
        equity = equity;
        equity_peak = peak;
        drawdown = peak -ℤ equity;
        drawdown_pct = if leb_ℤ peak (pos 0) then pos 0 else ratio (peak -ℤ equity) peak;
      }

  abbrev pub checked_account : AccountSnapshot → Check → Result AccountSnapshot
  checked_account a (err e) = err e
  checked_account a (ok _) = ok a

  unfoldable pub update_account :
      AccountSnapshot → List PositionSnapshot → ℤ → ℤ → Result AccountSnapshot
  update_account a positions realized_delta fee_delta =
      let next = next_account a positions realized_delta fee_delta in
      checked_account next (
        check (any (λ p. p.quote_currency != a.currency) positions) (
          value_error "positions must be valued in the account currency; FX conversion unavailable")
        ⨾ check_account next)
