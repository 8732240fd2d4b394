-- ===== src/Risk/Approval/Gate.antt =====
-- What the approval gate lets through.
use mathlib.Core.Path.{subst}
use native.Mathlib.Decide.{ℕ_discrete}
use quantora_trade.Prelude.{
  ℕ, ◌≡◌, ◌≢◌, refl, [], ◌∷◌, ◌<◌, ◌≤◌, String, true, false, some, arith, ◌↔◌, inl, inr,
  Option-cases,
}
use Prim.Native.String.{◌++◌ as join}
use quantora_trade.Prelude.Text.{is_blank, codes-join}
use quantora_trade.Prelude.Exec.{ok}
use quantora_trade.Domain.Enums.{hold, TradingMode}
use quantora_trade.Domain.Time.{DateTime}
use quantora_trade.Domain.Libs.{Libs, text, uuid, decimal}
use quantora_trade.Domain.Orders.{Decision, RiskAssessment, ApprovedOrderIntent, check_intent}
use quantora_trade.Risk.Approval.{
  build_approved_order_intent, check_approval, new_intent, intent_identity, mode_value,
  action_value, optional_decimal,
}

-- What an order may be approved on: a direction, an unexpired decision, and an approved assessment
-- of that decision with a volume, made no later.
abbrev pub IsApprovable : Decision → RiskAssessment → DateTime → Type 0
IsApprovable d a t =
    (t.utc ≡ true)
    × (d.action ≢ hold)
    × t.instant < d.expires_at.instant
    × (a.decision_id ≡ d.id)
    × (a.approved ≡ true)
    × 0 < a.volume
    × a.created_at.instant ≤ t.instant

key-Blank : (s : String) → is_blank (join "quantora:" s) ≡ false
unfolding is_blank ℕ_discrete
key-Blank s = rw (codes-join "quantora:" s)

module _ (libs : Libs) (uuid_text : ℕ → String) where
  -- An intent, field by field: what it copies of the decision and the assessment, and its identity,
  -- which is the UUID of all that the order is about.
  abbrev pub IsIntentOf :
      Decision → RiskAssessment → TradingMode → DateTime → ℕ → ApprovedOrderIntent → Type 0
  IsIntentOf d a mode t level i =
      (i.id
        ≡ libs.uuid5 (
            libs.json_dumps (
              ("assessment_id", uuid a.id)
              ∷ ("decision_id", uuid d.id)
              ∷ ("mode", text (mode_value mode))
              ∷ ("side", text (action_value d.action))
              ∷ ("stop_loss", decimal level)
              ∷ ("symbol", text d.symbol)
              ∷ ("take_profit", optional_decimal a.take_profit)
              ∷ ("volume", decimal a.volume)
              ∷ [])))
      × (i.idempotency_key ≡ join "quantora:" (uuid_text i.id))
      × (i.risk_assessment_id ≡ a.id)
      × (i.mode ≡ mode)
      × (i.symbol ≡ d.symbol)
      × (i.side ≡ d.action)
      × (i.volume ≡ a.volume)
      × (i.stop_loss ≡ level)
      × (i.take_profit ≡ a.take_profit)
      × (i.created_at ≡ t)

  new_intent-IsIntentOf :
      (d : Decision) (a : RiskAssessment) (mode : TradingMode) (t : DateTime) (level : ℕ)
      → IsIntentOf d a mode t level (new_intent libs uuid_text d a mode t level)
  unfolding new_intent intent_identity
  new_intent-IsIntentOf d a mode t level =
      (refl, refl, refl, refl, refl, refl, refl, refl, refl, refl)

  IsIntentOf-new_intent :
      (d : Decision) (a : RiskAssessment) (mode : TradingMode) (t : DateTime) (level : ℕ)
      (i : ApprovedOrderIntent)
      → IsIntentOf d a mode t level i
      → i ≡ new_intent libs uuid_text d a mode t level
  unfolding new_intent intent_identity
  IsIntentOf-new_intent d a mode t level i h = ground (arith, h)

  -- The gate returns an intent exactly for an approvable decision and assessment with a stop loss,
  -- and the intent then has these fields: the assessment's identity, volume, stop loss and take
  -- profit, the decision's symbol and side, the mode and the time given, as identity the UUID of the
  -- JSON of the two identities, the mode, side, stop loss, symbol, take profit and volume, and as
  -- idempotency key the text of that UUID after "quantora:".
  pub build-IsApprovable :
      (d : Decision) (a : RiskAssessment) (mode : TradingMode) (t : DateTime)
      (i : ApprovedOrderIntent)
      → (build_approved_order_intent libs uuid_text d a mode t ≡ ok i) ↔ (
          IsApprovable d a t
          × ((level : ℕ) × (a.stop_loss ≡ some level) × IsIntentOf d a mode t level i))
  unfolding build_approved_order_intent check_approval check_intent new_intent
  build-IsApprovable d a mode t i = elim (Option-cases a.stop_loss) [
    | inl gone ↦ (λ h. ground (arith, h, gone), λ (p, (level, s, e)). ground (arith, gone, s))
    | inr (level, there) ↦ (
      λ h. built level there h,
      λ (p, (l, s, e)). ground (
        arith,
        p,
        there,
        s,
        IsIntentOf-new_intent d a mode t l i e,
        key-Blank (uuid_text (new_intent libs uuid_text d a mode t level).id),
      ),
    )
  ]
    where
      built :
          (level : ℕ)
          → a.stop_loss ≡ some level
          → build_approved_order_intent libs uuid_text d a mode t ≡ ok i
          → IsApprovable d a t × ((l : ℕ) × (a.stop_loss ≡ some l) × IsIntentOf d a mode t l i)
      built level there h =
          let made : IsApprovable d a t × (new_intent libs uuid_text d a mode t level ≡ i) =
            ground (arith, h, there) in
          (
            made.0,
            (
              level,
              there,
              subst (IsIntentOf d a mode t level) made.1 (new_intent-IsIntentOf d a mode t level),
            ),
          )
