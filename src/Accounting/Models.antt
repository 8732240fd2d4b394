-- ===== src/Accounting/Models.antt =====
-- The values of src/quantora_trade/accounting/models.py with the constraints of their fields. A
-- quantity, a price and a multiplier count units of 10^-u, for a u large enough for all their digits,
-- and money, a product of three, units of 10^-3u. Sums and products are exact, which holds while a
-- value fits the 28 digits of the decimal context; a division returns what its parameter returns.
use quantora_trade.Prelude.{ℕ, String, not, ◌&&◌, ◌||◌, ◌==◌, ◌!=◌, ltb, nat_eq, string_eq}
use quantora_trade.Prelude.Text.{text_length, is_hex}
use quantora_trade.Prelude.Int.{ℤ, pos, ltb_ℤ, int_eq}
use quantora_trade.Prelude.Exec.{value_error, Check, check, ◌⨾◌}
use quantora_trade.Domain.Time.{DateTime}

pub data Side : Type 0 where
  buys sells : Side

pub record AccountingFill : Type 0 where
  pub order_id : ℕ
  pub sequence : ℕ
  pub instrument_id : ℕ
  pub broker_id : ℕ
  pub specification_hash : String
  pub symbol : String
  pub side : Side
  pub quantity : ℕ
  pub price : ℕ
  pub commission : ℕ
  pub filled_at : DateTime
  pub quote_currency : String
  pub contract_multiplier : ℕ

abbrev pub check_hash : String → Check
check_hash h = check (text_length h != 64 || not (is_hex h)) (value_error "specification_hash")

abbrev pub check_length : ℕ → ℕ → String → Check
check_length low high s =
    check (ltb (text_length s) low || ltb high (text_length s)) (value_error "length")

unfoldable pub check_fill : AccountingFill → Check
check_fill f =
    check (f.sequence == 0) (value_error "sequence")
    ⨾ check_hash f.specification_hash
    ⨾ check_length 1 50 f.symbol
    ⨾ check (f.quantity == 0) (value_error "quantity")
    ⨾ check (f.price == 0) (value_error "price")
    ⨾ check_length 3 3 f.quote_currency
    ⨾ check (f.contract_multiplier == 0) (value_error "contract_multiplier")

pub record PositionSnapshot : Type 0 where
  pub instrument_id : ℕ
  pub broker_id : ℕ
  pub specification_hash : String
  pub symbol : String
  pub quote_currency : String
  pub net_quantity : ℤ
  pub average_price : ℕ
  pub mark_price : ℕ
  pub contract_multiplier : ℕ
  pub realized_pnl : ℤ
  pub unrealized_pnl : ℤ
  pub fees : ℕ

unfoldable pub check_position : PositionSnapshot → Check
check_position p =
    check_hash p.specification_hash
    ⨾ check_length 3 3 p.quote_currency
    ⨾ check (p.contract_multiplier == 0) (value_error "contract_multiplier")
    ⨾ check (p.net_quantity == pos 0 && (p.average_price != 0 || p.unrealized_pnl != pos 0))
        (value_error "flat position cannot retain cost basis or unrealized P&L")

pub record AccountSnapshot : Type 0 where
  pub currency : String
  pub initial_balance : ℤ
  pub cash_balance : ℤ
  pub realized_pnl : ℤ
  pub unrealized_pnl : ℤ
  pub fees : ℤ
  pub equity : ℤ
  pub equity_peak : ℤ
  pub drawdown : ℤ
  pub drawdown_pct : ℤ

unfoldable pub check_account : AccountSnapshot → Check
check_account a =
    check_length 3 3 a.currency
    ⨾ check (ltb_ℤ a.fees (pos 0)) (value_error "fees")
    ⨾ check (ltb_ℤ a.drawdown (pos 0)) (value_error "drawdown")
    ⨾ check (ltb_ℤ a.drawdown_pct (pos 0)) (value_error "drawdown_pct")
