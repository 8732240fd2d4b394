-- ===== src/Domain/Libs.antt =====
-- The standard library's `json.dumps`, `hashlib.sha256(...).hexdigest()` and `uuid.uuid5` in the
-- URL namespace, as parameters. A `Rendered` value stands for the text that `str` or `isoformat`
-- makes of a UUID, a decimal or a datetime, or for a list of texts.
use quantora_trade.Prelude.{ℕ, String, List}
use quantora_trade.Domain.Time.{DateTime}

pub data Rendered : Type 0 where
  text : String → Rendered
  uuid decimal : ℕ → Rendered
  iso : DateTime → Rendered
  texts : List String → Rendered
  null : Rendered

abbrev pub Payload : Type 0
Payload = List (String × Rendered)

pub record Libs : Type 0 where
  pub json_dumps : Payload → String
  pub sha256 : String → String
  pub uuid5 : String → ℕ
