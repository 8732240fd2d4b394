-- ===== src/Infrastructure/Commands/Oldest.antt =====
-- Which command a claim considers: the oldest active one.
use mathlib.Core.List.Memᴰ
use mathlib.Core.List.{Memᴰ}
use quantora_trade.Prelude.{
  ◌≤◌, ◌≡◌, refl, ◌∙◌, inl, inr, true, false, Option, none, some, List, [], ◌∷◌, arith, ltb, nat_eq,
  ap, if-elim,
}
use quantora_trade.Infrastructure.Commands.{DurableSystemCommand, candidate, is_active, older}

abbrev Row : Type 0
Row = DurableSystemCommand

-- The oldest active row: no other active row has a smaller number.
abbrev pub IsOldest : Option Row → List Row → Type 0
IsOldest none rs = (b : Row) → Memᴰ b rs → is_active b ≡ false
IsOldest (some c) rs =
    Memᴰ c rs
    × (is_active c ≡ true)
    × ((b : Row) → Memᴰ b rs → is_active b ≡ true → c.queue_sequence ≤ b.queue_sequence)

older-IsOldest :
    (o : Option Row) (r : Row) (rs : List Row)
    → IsOldest o rs
    → is_active r ≡ true
    → IsOldest (older o r) (r ∷ rs)
older-IsOldest none r rs h a = (
  Memᴰ.head refl,
  a,
  λ b m e. elim (Memᴰ.cases_cons m) [
    | inl p ↦ omega (arith, ap (λ z. z.queue_sequence) p)
    | inr k ↦ cc (h b k, e)
  ],
)
older-IsOldest (some c) r rs h a =
    if-elim (λ o. IsOldest o (r ∷ rs)) (ltb c.queue_sequence r.queue_sequence)
      (λ l. (
        Memᴰ.tail h.0,
        h.1,
        λ b m e. elim (Memᴰ.cases_cons m) [
          | inl p ↦ ground (arith, l, ap (λ z. z.queue_sequence) p)
          | inr k ↦ h.2 b k e
        ],
      ))
      λ l. (
        Memᴰ.head refl,
        a,
        λ b m e. elim (Memᴰ.cases_cons m) [
          | inl p ↦ omega (arith, ap (λ z. z.queue_sequence) p)
          | inr k ↦ ground (arith, l, h.2 b k e)
        ],
      )

skip-IsOldest :
    (o : Option Row) (r : Row) (rs : List Row)
    → IsOldest o rs
    → is_active r ≡ false
    → IsOldest o (r ∷ rs)
skip-IsOldest none r rs h a =
    λ b m. elim (Memᴰ.cases_cons m) [ inl p ↦ ap is_active p ∙ a | inr k ↦ h b k ]
skip-IsOldest (some c) r rs h a = (
  Memᴰ.tail h.0,
  h.1,
  λ b m e. elim (Memᴰ.cases_cons m) [ inl p ↦ cc (ap is_active p, a, e) | inr k ↦ h.2 b k e ],
)

pub candidate-IsOldest : (rs : List Row) → IsOldest (candidate rs) rs
unfolding candidate
candidate-IsOldest [] = λ b m. absurd (Memᴰ.not-nil m)
candidate-IsOldest (r ∷ rs) =
    if-elim (λ o. IsOldest o (r ∷ rs)) (is_active r)
      (older-IsOldest (candidate rs) r rs (candidate-IsOldest rs))
      (skip-IsOldest (candidate rs) r rs (candidate-IsOldest rs))
