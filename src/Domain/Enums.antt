-- ===== src/Domain/Enums.antt =====
-- The enumerations of src/quantora_trade/domain/enums.py.
use quantora_trade.Prelude.{Eq}

pub data Action : Type 0 where
  buy sell hold : Action

pub data AssetClass : Type 0 where
  metal forex : AssetClass

pub data TradingMode : Type 0 where
  backtest paper live : TradingMode

unfoldable pub Action-discrete : Discrete Action
Action-discrete = hlevel

unfoldable pub AssetClass-discrete : Discrete AssetClass
AssetClass-discrete = hlevel

unfoldable pub TradingMode-discrete : Discrete TradingMode
TradingMode-discrete = hlevel

instance abbrev pub action_eq : Eq Action
action_eq = record { dec = Action-discrete }

instance abbrev pub asset_class_eq : Eq AssetClass
asset_class_eq = record { dec = AssetClass-discrete }

instance abbrev pub trading_mode_eq : Eq TradingMode
trading_mode_eq = record { dec = TradingMode-discrete }
