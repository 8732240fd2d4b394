-- ===== src/Accounting/Ledger/Worth.antt =====
-- The mark-to-market equation: what a fill realizes and what it leaves open add up.
use mathlib.Core.Path.{subst, subst₂, ap₂}
use native.Mathlib.Decide.{ℕ_discrete}
use quantora_trade.Prelude.{
  ℕ, zero, suc, ◌+◌, ◌*◌, ◌<◌, ◌≡◌, ◌≢◌, refl, sym, ap, ◌∙◌, ◌⊎◌, inl, inr, min, true, false,
  Bool-cases, if◌then◌else◌, some, nat_eq, arith,
}
use quantora_trade.Prelude.Int.{
  ℤ, pos, negsuc, ◌+ℤ◌, ◌-ℤ◌, ◌*ℤ◌, nat_abs, int_laws, eq_of_parts, parts_of_eq, *ℤ--ℤ, *ℤ_parts,
  *ℤ_comm, +ℤ-*ℤ, -ℤ-*ℤ, *ℤ-+ℤ, *ℤ_assoc, int_eq, ℤ_discrete,
}
use quantora_trade.Prelude.Exec.{ok}
use quantora_trade.Accounting.Models.{AccountingFill, PositionSnapshot}
use quantora_trade.Accounting.Ledger.{
  is_positive, same, direction, signed_fill, apply_fill, mismatches, mark_position, same_direction,
  realized_by, average_after, updated,
}

-- The open profit of a quantity bought at an average price, at a price, for a multiplier of 1.
abbrev open_at : ℕ → ℤ → ℕ → ℤ
open_at average quantity price = (pos price -ℤ pos average) *ℤ quantity

-- The cost of a quantity.
abbrev cost : ℕ → ℤ → ℤ
cost price quantity = pos price *ℤ quantity

*ℤ-pos1 : (a : ℤ) → a *ℤ pos 1 ≡ a
*ℤ-pos1 a = omega (arith, eq_of_parts, *ℤ_parts a (pos 1))

*ℤ-negsuc0 : (a : ℤ) → a *ℤ negsuc 0 ≡ pos 0 -ℤ a
*ℤ-negsuc0 a = omega (int_laws, *ℤ_parts a (negsuc 0))

module _ (old s : ℤ) (against : same_direction old s ≡ false) where
  abbrev closed : ℤ
  closed = pos (min (nat_abs old) (nat_abs s)) *ℤ direction old

  -- The closed quantity, with the position's sign, is the whole position unless some of it stays,
  -- and then it is what the fill takes off.
  closed-all :
      same (is_positive (old +ℤ s)) (is_positive old) ≡ false ⊎ (old +ℤ s ≡ pos 0) → closed ≡ old
  unfolding same_direction ◌+ℤ◌ ◌-ℤ◌ ℤ_discrete ℕ_discrete
  closed-all h = ground (
    arith,
    *ℤ-pos1 (pos (min (nat_abs old) (nat_abs s))),
    *ℤ-negsuc0 (pos (min (nat_abs old) (nat_abs s))),
  )

  closed-part :
      old +ℤ s ≢ pos 0
      → same (is_positive (old +ℤ s)) (is_positive old) ≡ true
      → closed ≡ pos 0 -ℤ s
  unfolding same_direction ◌+ℤ◌ ◌-ℤ◌ ℤ_discrete ℕ_discrete
  closed-part n h = ground (
    arith,
    *ℤ-pos1 (pos (min (nat_abs old) (nat_abs s))),
    *ℤ-negsuc0 (pos (min (nat_abs old) (nat_abs s))),
  )

nothing : (n : ℕ) → cost n (pos 0) ≡ pos 0
nothing n = omega (int_laws, *ℤ_parts (pos n) (pos 0))

rearranged : (a c d m : ℤ) → a *ℤ (c *ℤ d) *ℤ m ≡ a *ℤ c *ℤ m *ℤ d
rearranged a c d m =
    ap (λ x. x *ℤ m) (sym (*ℤ_assoc a c d))
    ∙ *ℤ_assoc (a *ℤ c) d m
    ∙ ap (λ x. a *ℤ c *ℤ x) (*ℤ_comm d m)
    ∙ sym (*ℤ_assoc (a *ℤ c) m d)

-- The cost equation: what is realized, with the old cost and the price paid, makes the new cost and
-- what the division has left over.
CostBalances : ℤ → ℤ → ℕ → ℕ → ℕ → ℤ → ℤ → Type 0
CostBalances r left average average' price old s =
    r +ℤ cost average old +ℤ cost price s ≡ cost average' (old +ℤ s) +ℤ left

-- With it the open profits at any later price balance.
balance :
    (r left : ℤ) (average average' price m : ℕ) (old s : ℤ)
    → CostBalances r left average average' price old s
    → open_at average' (old +ℤ s) m +ℤ r
      ≡ open_at average old m +ℤ (pos m -ℤ pos price) *ℤ s +ℤ left
unfolding CostBalances
balance r left average average' price m old s h = omega (
  int_laws,
  parts_of_eq _ _ (-ℤ-*ℤ (pos m) (pos average') (old +ℤ s)),
  parts_of_eq _ _ (-ℤ-*ℤ (pos m) (pos average) old),
  parts_of_eq _ _ (-ℤ-*ℤ (pos m) (pos price) s),
  parts_of_eq _ _ (*ℤ-+ℤ (pos m) old s),
  parts_of_eq _ _ h,
)

-- What the division of a cost by a quantity leaves over, with the quantity's sign.
abbrev left_over : ℕ → ℕ → ℕ → ℤ → ℤ → ℤ
left_over average average' price old s =
    (pos (nat_abs old * average + nat_abs s * price) -ℤ pos (average' * nat_abs (old +ℤ s)))
    *ℤ direction (old +ℤ s)

signed_cost : (n : ℕ) (x : ℤ) → pos (n * nat_abs x) *ℤ direction x ≡ cost n x
unfolding ◌*ℤ◌
signed_cost n (pos zero) = ground arith
signed_cost n (pos (suc a)) = ground arith
signed_cost n (negsuc a) = ground arith

signed_part :
    (n : ℕ) (x d : ℤ) → (x ≡ pos 0) ⊎ (d ≡ direction x) → pos (n * nat_abs x) *ℤ d ≡ cost n x
signed_part n x d (inl e) = omega (
  int_laws,
  parts_of_eq _ _ (ap (λ y. pos (n * nat_abs y) *ℤ d) e),
  parts_of_eq _ _ (ap (cost n) e),
  *ℤ_parts (pos (n * 0)) d,
  *ℤ_parts (pos n) (pos 0),
)
signed_part n x d (inr e) = ap (λ y. pos (n * nat_abs x) *ℤ y) e ∙ signed_cost n x

module _ (old s : ℤ) (along : same_direction old s ≡ true) where
  direction_old : (old ≡ pos 0) ⊎ (direction (old +ℤ s) ≡ direction old)
  unfolding same_direction ◌+ℤ◌ ℤ_discrete ℕ_discrete
  direction_old = ground arith

  direction_fill : (s ≡ pos 0) ⊎ (direction (old +ℤ s) ≡ direction s)
  unfolding same_direction ◌+ℤ◌ ℤ_discrete ℕ_discrete
  direction_fill = ground arith

  -- In the direction of the sum, two costs are those of the parts.
  signed_sum :
      (average price : ℕ)
      → pos (nat_abs old * average + nat_abs s * price) *ℤ direction (old +ℤ s)
        ≡ cost average old +ℤ cost price s
  signed_sum average price =
      ap (λ n. n *ℤ direction (old +ℤ s)) split
      ∙ +ℤ-*ℤ (pos (average * nat_abs old)) (pos (price * nat_abs s)) (direction (old +ℤ s))
      ∙ ap₂ ◌+ℤ◌ (signed_part average old (direction (old +ℤ s)) direction_old)
          (signed_part price s (direction (old +ℤ s)) direction_fill)
    where
      split :
          pos (nat_abs old * average + nat_abs s * price)
          ≡ pos (average * nat_abs old) +ℤ pos (price * nat_abs s)
      split = omega int_laws

-- A fill in the position's direction.
added :
    (average average' price : ℕ) (old s : ℤ)
    → same_direction old s ≡ true
    → CostBalances (pos 0) (left_over average average' price old s) average average' price old s
unfolding CostBalances
added average average' price old s h = omega (
  int_laws,
  parts_of_eq _ _ (signed_sum old s h average price),
  parts_of_eq _ _ (signed_cost average' (old +ℤ s)),
  parts_of_eq _ _ (
      -ℤ-*ℤ (pos (nat_abs old * average + nat_abs s * price)) (pos (average' * nat_abs (old +ℤ s)))
        (direction (old +ℤ s))),
)

module _ (average price : ℕ) (old s : ℤ) where
  -- A fill against it.
  module _ (against : same_direction old s ≡ false) where
    abbrev gain : ℤ
    gain = (pos price -ℤ pos average) *ℤ closed old s against

    taken_all :
        (average' : ℕ)
        → (old +ℤ s ≡ pos 0) ⊎ (average' ≡ price)
        → closed old s against ≡ old
        → CostBalances gain (pos 0) average average' price old s
    unfolding CostBalances
    taken_all average' h e = omega (
      int_laws,
      parts_of_eq _ _ (ap (λ x. (pos price -ℤ pos average) *ℤ x) e),
      parts_of_eq _ _ (-ℤ-*ℤ (pos price) (pos average) old),
      parts_of_eq _ _ (*ℤ-+ℤ (pos price) old s),
      parts_of_eq _ _ (end_cost average' h),
    )
      where
        end_cost :
            (n : ℕ) → (old +ℤ s ≡ pos 0) ⊎ (n ≡ price) → cost n (old +ℤ s) ≡ cost price (old +ℤ s)
        end_cost n (inr e) = ap (λ k. cost k (old +ℤ s)) e
        end_cost n (inl e) =
            ap (cost n) e ∙ nothing n ∙ sym (nothing price) ∙ ap (cost price) (sym e)

    taken_part :
        closed old s against ≡ pos 0 -ℤ s → CostBalances gain (pos 0) average average price old s
    unfolding CostBalances
    taken_part e = omega (
      int_laws,
      parts_of_eq _ _ (ap (λ x. (pos price -ℤ pos average) *ℤ x) e),
      parts_of_eq _ _ (-ℤ-*ℤ (pos price) (pos average) (pos 0 -ℤ s)),
      parts_of_eq _ _ (*ℤ--ℤ (pos price) (pos 0) s),
      parts_of_eq _ _ (*ℤ--ℤ (pos average) (pos 0) s),
      parts_of_eq _ _ (*ℤ-+ℤ (pos average) old s),
      *ℤ_parts (pos price) (pos 0),
      *ℤ_parts (pos average) (pos 0),
    )

module _ (quotient : ℕ → ℕ → ℕ) (p : PositionSnapshot) (f : AccountingFill) where
  abbrev quantity : ℤ
  quantity = p.net_quantity +ℤ signed_fill f

  -- What a division leaves over.
  abbrev remainder : ℕ → ℕ → ℤ
  remainder n d = pos n -ℤ pos (quotient n d * d)

  -- A fill in the position's direction divides the whole cost by the whole quantity, and what that
  -- leaves over has the quantity's sign; any other fill divides nothing.
  abbrev pub rounding : ℤ
  rounding =
      if same_direction p.net_quantity (signed_fill f)
      then remainder (nat_abs p.net_quantity * p.average_price + nat_abs (signed_fill f) * f.price)
          (nat_abs quantity)
        *ℤ direction quantity
      else pos 0

  -- The cost of the position after the fill, on every branch.
  abbrev gained : ℤ
  gained =
      if same_direction p.net_quantity (signed_fill f)
      then pos 0
      else (pos f.price -ℤ pos p.average_price)
        *ℤ (pos (min (nat_abs p.net_quantity) (nat_abs (signed_fill f)))
            *ℤ direction p.net_quantity)

  -- What the cost equation says of the code's values, from equal ones.
  balances_as :
      (r left : ℤ) (average : ℕ)
      → r ≡ gained
      → left ≡ rounding
      → average ≡ average_after quotient p f quantity
      → CostBalances r left p.average_price average f.price p.net_quantity (signed_fill f)
      → CostBalances gained rounding p.average_price
          (average_after quotient p f quantity)
          f.price
          p.net_quantity
          (signed_fill f)
  balances_as r left average e l k h =
      subst
        (λ z.
          CostBalances gained z p.average_price (average_after quotient p f quantity) f.price
            p.net_quantity (signed_fill f))
        l
        (subst₂
          (λ x y. CostBalances x left p.average_price y f.price p.net_quantity (signed_fill f)) e k
          h)

  against_balances :
      same_direction p.net_quantity (signed_fill f) ≡ false
      → CostBalances gained rounding p.average_price
          (average_after quotient p f quantity)
          f.price
          p.net_quantity
          (signed_fill f)
  unfolding average_after
  against_balances n =
      let old : ℤ = p.net_quantity in
      let s : ℤ = signed_fill f in
      let r : ℤ = gain p.average_price f.price old s n in
      elim (ℤ_discrete quantity (pos 0)) [
        | yes e ↦
            balances_as r (pos 0) 0 (ground (arith, n)) (ground (arith, n)) (ground (arith, n, e))
              (taken_all p.average_price f.price old s n 0 (inl e) (closed-all old s n (inr e)))
        | no ne ↦ elim (Bool-cases (same (is_positive quantity) (is_positive old))) [
          | inl stays ↦
              balances_as r (pos 0) p.average_price (ground (arith, n)) (ground (arith, n))
                (ground (arith, n, ne, stays))
                (taken_part p.average_price f.price old s n (closed-part old s n ne stays))
          | inr turns ↦
              balances_as r (pos 0) f.price (ground (arith, n)) (ground (arith, n))
                (ground (arith, n, ne, turns))
                (taken_all p.average_price f.price old s n f.price (inr refl)
                  (closed-all old s n (inl turns)))
        ]
      ]

  left_over-rounding :
      same_direction p.net_quantity (signed_fill f) ≡ true
      → left_over p.average_price
          (average_after quotient p f quantity)
          f.price
          p.net_quantity
          (signed_fill f)
        ≡ rounding
  unfolding average_after
  left_over-rounding y = ground (arith, y)

  fill_balances :
      CostBalances gained rounding p.average_price
        (average_after quotient p f quantity)
        f.price
        p.net_quantity
        (signed_fill f)
  fill_balances = elim (Bool-cases (same_direction p.net_quantity (signed_fill f))) [
    | inl y ↦
        balances_as (pos 0)
          (left_over p.average_price (average_after quotient p f quantity) f.price p.net_quantity
            (signed_fill f))
          (average_after quotient p f quantity) (ground (arith, y)) (left_over-rounding y) refl
          (added p.average_price (average_after quotient p f quantity) f.price p.net_quantity
            (signed_fill f) y)
    | inr n ↦ against_balances n
  ]

  gained-realized : gained *ℤ pos f.contract_multiplier ≡ realized_by p f
  unfolding realized_by
  gained-realized = elim (Bool-cases (same_direction p.net_quantity (signed_fill f))) [
    | inl y ↦
        ground
          (arith, y, *ℤ_comm (pos 0) (pos f.contract_multiplier) ∙ nothing f.contract_multiplier)
    | inr n ↦ ground (
      arith,
      n,
      rearranged (pos f.price -ℤ pos p.average_price)
          (pos (min (nat_abs p.net_quantity) (nat_abs (signed_fill f)))) (direction p.net_quantity)
          (pos f.contract_multiplier),
    )
  ]

  -- The open profits with the contract's multiplier.
  worth :
      (m : ℕ)
      → let k : ℤ = pos f.contract_multiplier in
        open_at (average_after quotient p f quantity) quantity m *ℤ k +ℤ realized_by p f
        ≡ open_at p.average_price p.net_quantity m *ℤ k
          +ℤ (pos m -ℤ pos f.price) *ℤ signed_fill f *ℤ k
          +ℤ rounding *ℤ k
  worth m =
      let k : ℤ = pos f.contract_multiplier in
      let after : ℤ = open_at (average_after quotient p f quantity) quantity m in
      let before : ℤ = open_at p.average_price p.net_quantity m in
      let gains : ℤ = (pos m -ℤ pos f.price) *ℤ signed_fill f in
      ap (λ x. after *ℤ k +ℤ x) (sym gained-realized)
      ∙ sym (+ℤ-*ℤ after gained k)
      ∙ ap (λ x. x *ℤ k)
          (balance gained rounding p.average_price (average_after quotient p f quantity) f.price m
            p.net_quantity (signed_fill f) fill_balances)
      ∙ +ℤ-*ℤ (before +ℤ gains) rounding k
      ∙ ap (λ x. x +ℤ rounding *ℤ k) (+ℤ-*ℤ before gains k)

  applied :
      (p' : PositionSnapshot) (r : ℤ)
      → apply_fill quotient (some p) f ≡ ok (p', r)
      → (p' ≡ updated quotient p f)
        × (r ≡ realized_by p f)
        × (p.contract_multiplier ≡ f.contract_multiplier)
  unfolding apply_fill mismatches
  applied p' r h = ground (arith, h)

-- Marking a position to a price: the open profit at it, and nothing else changes but the mark.
marked :
    (p : PositionSnapshot) (m : ℕ)
    → 0 < m
    → (a : PositionSnapshot) × (mark_position p m ≡ ok a)
      × (a.unrealized_pnl ≡ open_at p.average_price p.net_quantity m *ℤ pos p.contract_multiplier)
unfolding mark_position
marked p m h = (
  record p {
    mark_price = m;
    unrealized_pnl = open_at p.average_price p.net_quantity m *ℤ pos p.contract_multiplier;
  },
  ground (arith, h),
  refl,
)

module _ (quotient : ℕ → ℕ → ℕ) (p p' : PositionSnapshot) (f : AccountingFill) (r : ℤ)
    (done : apply_fill quotient (some p) f ≡ ok (p', r)) where
  -- A fill that is applied to a position makes no profit out of nothing, whether it adds to the
  -- position, reduces, closes or reverses it. At every price, the open profit of the position after
  -- it and what it realizes add up to the open profit of the position before it, that of the fill
  -- itself, bought or sold at its price, and, for a fill in the position's direction only, what the
  -- division for the new average price leaves over, times the multiplier; an exact quotient leaves
  -- nothing. The position's realized profit grows by what is realized and its fees by the
  -- commission.
  pub apply_fill-conserves :
      (m : ℕ)
      → 0 < m
      → (before : PositionSnapshot) × (after : PositionSnapshot) × (mark_position p m ≡ ok before)
        × (mark_position p' m ≡ ok after)
        × (after.unrealized_pnl +ℤ r
            ≡ before.unrealized_pnl
              +ℤ (pos m -ℤ pos f.price) *ℤ signed_fill f *ℤ pos f.contract_multiplier
              +ℤ rounding quotient p f *ℤ pos f.contract_multiplier)
        × (p'.realized_pnl ≡ p.realized_pnl +ℤ r)
        × (p'.fees ≡ p.fees + f.commission)
  unfolding updated
  apply_fill-conserves m h =
      let (e, er, k) = applied quotient p f p' r done in
      let (before, b, vb) = marked p m h in
      let (after, a, va) = marked p' m h in
      (
        before,
        after,
        b,
        a,
        ap₂ ◌+ℤ◌
              (va
                ∙ ap value_at e
                ∙ ap
                    (λ c.
                      open_at (updated quotient p f).average_price
                        (updated quotient p f).net_quantity m
                      *ℤ pos c)
                    k)
              er
            ∙ worth quotient p f m
            ∙ ap
                (λ x.
                  x
                  +ℤ (pos m -ℤ pos f.price) *ℤ signed_fill f *ℤ pos f.contract_multiplier
                  +ℤ rounding quotient p f *ℤ pos f.contract_multiplier)
                (ap (λ c. open_at p.average_price p.net_quantity m *ℤ pos c) (sym k) ∙ sym vb),
        ap (λ x. x.realized_pnl) e ∙ ap (λ x. p.realized_pnl +ℤ x) (sym er),
        ap (λ x. x.fees) e,
      )
    where
      value_at : PositionSnapshot → ℤ
      value_at x = open_at x.average_price x.net_quantity m *ℤ pos x.contract_multiplier
