-- ===== src/Risk/KillSwitch/Scopes.antt =====
-- The keys of scopes: distinct scopes have distinct keys.
use Prim.Native.String.{◌++◌ as join}
use mathlib.Core.Path.{ap₂}
use native.Mathlib.Decide.{ℕ_discrete}
use text.Mathlib.TextLemmas.{append_cancel_left}
use quantora_trade.Prelude.{
  ℕ, String, String_discrete, ◌≡◌, refl, sym, ◌∙◌, ap, List, ◌∷◌, ◌==◌, string_eq, nat_eq,
  if◌then◌else◌, Option, some, none, true, arith,
}
use quantora_trade.Prelude.Text.{codes, codes-join, is_blank}
use quantora_trade.Prelude.Exec.{ok}
use quantora_trade.Risk.KillSwitch.{
  KillSwitchScope, KillSwitchScopeKind, global_scope, account, asset, symbol, strategy, new_entries,
  check_scope, check_value, scope_key, kind_value, value_or_star, is_unqualified,
}

-- A scope that passes the checks of its `__post_init__`.
abbrev pub IsScope : KillSwitchScope → Type 0
IsScope s = check_scope s ≡ ok tt

-- The kind whose value begins with the two characters.
kind_from : ℕ → ℕ → KillSwitchScopeKind
kind_from c d =
    if c == b'g'
    then global_scope
    else if c == b'n'
    then new_entries
    else if d == b'c'
    then account
    else if d == b's'
    then asset
    else if d == b'y'
    then symbol
    else strategy

kind_read : List ℕ → KillSwitchScopeKind
kind_read (c ∷ d ∷ _) = kind_from c d
kind_read _ = global_scope

kind_read-key :
    (k : KillSwitchScopeKind) (v : String)
    → kind_read (codes (join (join (kind_value k) ":") v)) ≡ k
unfolding kind_read kind_from ℕ_discrete
kind_read-key global_scope v = rw (codes-join (join "global" ":") v)
kind_read-key account v = rw (codes-join (join "account" ":") v)
kind_read-key asset v = rw (codes-join (join "asset" ":") v)
kind_read-key symbol v = rw (codes-join (join "symbol" ":") v)
kind_read-key strategy v = rw (codes-join (join "strategy" ":") v)
kind_read-key new_entries v = rw (codes-join (join "new_entries" ":") v)

-- The value of a scope that passes the checks is read back from its text.
value_from : KillSwitchScopeKind → String → Option String
value_from k v = if is_unqualified k then none else some v

blank-empty : is_blank "" ≡ true
unfolding is_blank
blank-empty = refl

value_from-check :
    (k : KillSwitchScopeKind) (v : Option String)
    → check_value k v ≡ ok tt
    → value_from k (value_or_star v) ≡ v
unfolding value_from is_blank String_discrete
value_from-check k none h = ground arith
value_from-check k (some v) h = elim (String_discrete v "") [
  | yes p ↦ ground (arith, blank-empty, ap is_blank p)
  | no n ↦ ground arith
]

-- Two scopes that pass their checks and have the same key are the same scope: a switch never
-- stands for another scope's.
pub scope_key-injective :
    (s t : KillSwitchScope) → IsScope s → IsScope t → scope_key s ≡ scope_key t → s ≡ t
unfolding scope_key check_scope
scope_key-injective s t hs ht e =
    let same_kind : s.kind ≡ t.kind =
      sym (kind_read-key s.kind (value_or_star s.value))
      ∙ ap (λ k. kind_read (codes k)) e
      ∙ kind_read-key t.kind (value_or_star t.value) in
    let same_value : s.value ≡ t.value =
      sym (value_from-check s.kind s.value hs)
      ∙ ap₂ value_from same_kind (
          append_cancel_left (join (kind_value t.kind) ":") _ _
            (ap (λ k. join (join (kind_value k) ":") (value_or_star s.value)) (sym same_kind) ∙ e))
      ∙ value_from-check t.kind t.value ht in
    λ i. record { kind = same_kind i; value = same_value i }
