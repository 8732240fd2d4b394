-- ===== src/Accounting/Ledger/Books.antt =====
-- The account's books over any sequence of updates.
use mathlib.Core.Path.{subst}
use quantora_trade.Prelude.{
  ◌⊎◌, inl, inr, ◌++◌, ◌≡◌, refl, sym, ap, ◌∙◌, false, List, [], ◌∷◌, any, arith, ◌!=◌, string_eq,
}
use quantora_trade.Prelude.Int.{int_laws, +ℤ_parts, ℤ, pos, ◌+ℤ◌, ◌-ℤ◌, ◌≤ℤ◌, max_ℤ, -ℤ_parts}
use quantora_trade.Prelude.Text.{text_length}
use quantora_trade.Prelude.Exec.{ok, err}
use quantora_trade.Accounting.Models.{PositionSnapshot, AccountSnapshot, check_account}
use quantora_trade.Accounting.Ledger.{update_account, next_account, unrealized_sum}

-- The identities between an account's figures, and its drawdown below the peak.
pub record IsBalanced (a : AccountSnapshot) : Type 0 where
  pub cash : a.cash_balance ≡ a.initial_balance +ℤ a.realized_pnl -ℤ a.fees
  pub equity : a.equity ≡ a.cash_balance +ℤ a.unrealized_pnl
  pub peak : a.equity ≤ℤ a.equity_peak
  pub drawdown : a.drawdown ≡ a.equity_peak -ℤ a.equity

max_ℤ-le : (a b : ℤ) → (a ≤ℤ max_ℤ a b) × (b ≤ℤ max_ℤ a b)
unfolding max_ℤ
max_ℤ-le a b = ground arith

-- One update: positions, a realized profit and a fee.
abbrev pub Update : Type 0
Update = List PositionSnapshot × ℤ × ℤ

-- The sum of a figure over a list.
abbrev pub total : {A : Type 0} → (A → ℤ) → List A → ℤ
total figure [] = pos 0
total figure (x ∷ xs) = figure x +ℤ total figure xs

unrealized_sum-total :
    (ps : List PositionSnapshot) → unrealized_sum ps ≡ total (λ p. p.unrealized_pnl) ps
unrealized_sum-total [] = refl
unrealized_sum-total (p ∷ ps) = ap (λ x. p.unrealized_pnl +ℤ x) (unrealized_sum-total ps)

-- The unrealized profit of the last update's positions, or the given one when there is none.
abbrev pub last_unrealized : ℤ → List Update → ℤ
last_unrealized open_profit [] = open_profit
last_unrealized open_profit ((ps, _, _) ∷ us) =
    last_unrealized (total (λ p. p.unrealized_pnl) ps) us

-- The equity after some updates, from what they realized and paid and from the last positions.
abbrev pub equity_of : AccountSnapshot → List Update → ℤ
equity_of a us =
    a.initial_balance
    +ℤ (a.realized_pnl +ℤ total (λ u. u.1) us)
    -ℤ (a.fees +ℤ total (λ u. u.2) us)
    +ℤ last_unrealized a.unrealized_pnl us

-- What an account is after some updates have been applied to it. The peak is the old one or the
-- equity that some first part of them reached.
pub record IsAfter (a : AccountSnapshot) (done : List Update) (b : AccountSnapshot) : Type 0 where
  pub currency : b.currency ≡ a.currency
  pub initial : b.initial_balance ≡ a.initial_balance
  pub realized : b.realized_pnl ≡ a.realized_pnl +ℤ total (λ u. u.1) done
  pub fees : b.fees ≡ a.fees +ℤ total (λ u. u.2) done
  pub unrealized : b.unrealized_pnl ≡ last_unrealized a.unrealized_pnl done
  pub peak : a.equity_peak ≤ℤ b.equity_peak
  pub reached :
      (b.equity_peak ≡ a.equity_peak)
      ⊎ ((first : List Update) × (rest : List Update) × (first ++ rest ≡ done)
          × (b.equity_peak ≡ equity_of a first))

max_ℤ-cases : (a b : ℤ) → (max_ℤ a b ≡ a) ⊎ (max_ℤ a b ≡ b)
unfolding max_ℤ
max_ℤ-cases a b = ground arith

+ℤ_zero : (x : ℤ) → x ≡ x +ℤ pos 0
+ℤ_zero x = omega (int_laws, +ℤ_parts x (pos 0))

+ℤ_assoc : (x y z : ℤ) → x +ℤ y +ℤ z ≡ x +ℤ (y +ℤ z)
+ℤ_assoc x y z = omega int_laws

IsAfter-refl : (a : AccountSnapshot) → IsAfter a [] a
IsAfter-refl a = record {
  currency = refl;
  initial = refl;
  realized = +ℤ_zero a.realized_pnl;
  fees = +ℤ_zero a.fees;
  unrealized = refl;
  peak = omega arith;
  reached = inl refl;
}

module _ (ratio : ℤ → ℤ → ℤ) where
  next_account-IsBalanced :
      (a : AccountSnapshot) (ps : List PositionSnapshot) (r f : ℤ)
      → IsBalanced (next_account ratio a ps r f)
        × (a.equity_peak ≤ℤ (next_account ratio a ps r f).equity_peak)
  unfolding next_account
  next_account-IsBalanced a ps r f =
      let (old, new) =
        max_ℤ-le a.equity_peak
          (a.initial_balance +ℤ (a.realized_pnl +ℤ r) -ℤ (a.fees +ℤ f) +ℤ unrealized_sum ps) in
      (record { cash = refl; equity = refl; peak = new; drawdown = refl }, old)

  next_equity_of :
      (a : AccountSnapshot) (ps : List PositionSnapshot) (r f : ℤ) (us : List Update)
      → equity_of (next_account ratio a ps r f) us ≡ equity_of a ((ps, r, f) ∷ us)
  unfolding next_account
  next_equity_of a ps r f us = rw (
    +ℤ_assoc a.realized_pnl r (total (λ u. u.1) us),
    +ℤ_assoc a.fees f (total (λ u. u.2) us),
    unrealized_sum-total ps,
  )

  -- The new equity is the one reached by the update alone.
  next_equity :
      (a : AccountSnapshot) (ps : List PositionSnapshot) (r f : ℤ)
      → (next_account ratio a ps r f).equity ≡ equity_of a ((ps, r, f) ∷ [])
  unfolding next_account
  next_equity a ps r f = rw (sym (+ℤ_zero r), sym (+ℤ_zero f), unrealized_sum-total ps)

  next_peak :
      (a : AccountSnapshot) (ps : List PositionSnapshot) (r f : ℤ)
      → ((next_account ratio a ps r f).equity_peak ≡ a.equity_peak)
        ⊎ ((next_account ratio a ps r f).equity_peak ≡ (next_account ratio a ps r f).equity)
  unfolding next_account
  next_peak a ps r f = max_ℤ-cases a.equity_peak _

  next_account-IsAfter :
      (a : AccountSnapshot) (ps : List PositionSnapshot) (r f : ℤ) (us : List Update)
      (c : AccountSnapshot)
      → IsAfter (next_account ratio a ps r f) us c
      → IsAfter a ((ps, r, f) ∷ us) c
  unfolding next_account
  next_account-IsAfter a ps r f us c h = record {
    currency = h.currency;
    initial = h.initial;
    realized = h.realized ∙ +ℤ_assoc a.realized_pnl r (total (λ u. u.1) us);
    fees = h.fees ∙ +ℤ_assoc a.fees f (total (λ u. u.2) us);
    unrealized = h.unrealized ∙ ap (λ x. last_unrealized x us) (unrealized_sum-total ps);
    peak = omega (arith, h.peak, (next_account-IsBalanced a ps r f).1);
    reached = elim h.reached [
      | inl kept ↦ elim (next_peak a ps r f) [
        | inl old ↦ inl (kept ∙ old)
        | inr new ↦ inr ((ps, r, f) ∷ [], us, refl, kept ∙ new ∙ next_equity a ps r f)
      ]
      | inr (first, rest, e, top) ↦ inr (
        (ps, r, f) ∷ first,
        rest,
        ap (λ x. (ps, r, f) ∷ x) e,
        top ∙ next_equity_of a ps r f first,
      )
    ];
  }

  next_fees :
      (a : AccountSnapshot) (ps : List PositionSnapshot) (r f : ℤ)
      → (next_account ratio a ps r f).fees ≡ a.fees +ℤ f
  unfolding next_account
  next_fees a ps r f = refl

  next_initial :
      (a : AccountSnapshot) (ps : List PositionSnapshot) (r f : ℤ)
      → (next_account ratio a ps r f).initial_balance ≡ a.initial_balance
  unfolding next_account
  next_initial a ps r f = refl

  next_currency :
      (a : AccountSnapshot) (ps : List PositionSnapshot) (r f : ℤ)
      → (next_account ratio a ps r f).currency ≡ a.currency
  unfolding next_account
  next_currency a ps r f = refl

  abbrev peak_after : AccountSnapshot → List PositionSnapshot → ℤ → ℤ → ℤ
  peak_after a ps r f = (next_account ratio a ps r f).equity_peak

  abbrev equity_after : AccountSnapshot → List PositionSnapshot → ℤ → ℤ → ℤ
  equity_after a ps r f = (next_account ratio a ps r f).equity

  -- The new drawdown is not negative, nor is its share of the peak.
  drawdown_nonneg :
      (a : AccountSnapshot) (ps : List PositionSnapshot) (r f : ℤ)
      → pos 0 ≤ℤ peak_after a ps r f -ℤ equity_after a ps r f
  drawdown_nonneg a ps r f =
      let (b, _) = next_account-IsBalanced a ps r f in
      omega (arith, b.peak, -ℤ_parts (peak_after a ps r f) (equity_after a ps r f))

  share_nonneg :
      (a : AccountSnapshot) (ps : List PositionSnapshot) (r f : ℤ)
      → ((d p : ℤ) → pos 0 ≤ℤ d → pos 0 ≤ℤ p → pos 0 ≤ℤ ratio d p)
      → pos 0 ≤ℤ (next_account ratio a ps r f).drawdown_pct
  unfolding next_account
  share_nonneg a ps r f nonneg = ground (
    arith,
    drawdown_nonneg a ps r f,
    nonneg (peak_after a ps r f -ℤ equity_after a ps r f) (peak_after a ps r f),
  )

  -- An update returns the next account when every position has the account's currency and the fees
  -- do not fall below zero, for an account whose currency has three letters. The hypothesis on the
  -- division: it takes no two values from zero on to a negative one.
  pub update_account-returns :
      (a : AccountSnapshot) (ps : List PositionSnapshot) (r f : ℤ)
      → text_length a.currency ≡ 3
      → ((d p : ℤ) → pos 0 ≤ℤ d → pos 0 ≤ℤ p → pos 0 ≤ℤ ratio d p)
      → any (λ p. p.quote_currency != a.currency) ps ≡ false
      → pos 0 ≤ℤ a.fees +ℤ f
      → update_account ratio a ps r f ≡ ok (next_account ratio a ps r f)
  unfolding update_account check_account
  update_account-returns a ps r f three nonneg same fees =
      let next : AccountSnapshot = next_account ratio a ps r f in
      let (balanced, _) = next_account-IsBalanced a ps r f in
      let low : pos 0 ≤ℤ next.drawdown =
        subst (λ x. pos 0 ≤ℤ x) (sym balanced.drawdown) (drawdown_nonneg a ps r f) in
      let share : _ = share_nonneg a ps r f nonneg in
      let kept : text_length next.currency ≡ 3 = ap text_length (next_currency a ps r f) ∙ three in
      let paid : pos 0 ≤ℤ next.fees = subst (λ x. pos 0 ≤ℤ x) (sym (next_fees a ps r f)) fees in
      ground (arith, same, low, share, kept, paid)

  -- The account after some updates; one that raises leaves it as it is.
  unfoldable pub run : List Update → AccountSnapshot → AccountSnapshot
  run [] a = a
  run ((ps, r, f) ∷ us) a = run us (elim (update_account ratio a ps r f) [ ok b ↦ b | err _ ↦ a ])

  update_account-ok :
      (a b : AccountSnapshot) (ps : List PositionSnapshot) (r f : ℤ)
      → update_account ratio a ps r f ≡ ok b
      → b ≡ next_account ratio a ps r f
  unfolding update_account
  update_account-ok a b ps r f h = ground (arith, h)

  -- The updates that return, in order.
  unfoldable pub applied : List Update → AccountSnapshot → List Update
  applied [] a = []
  applied ((ps, r, f) ∷ us) a = elim (update_account ratio a ps r f) [
    | ok b ↦ (ps, r, f) ∷ applied us b
    | err _ ↦ applied us a
  ]

  -- Over any updates the books balance and no amount is lost. Cash is the initial balance and the
  -- realized profit less fees, equity is cash and the unrealized profit, and the drawdown is what the
  -- equity lies below its peak. The realized profit has grown by the sum of what the updates that
  -- returned realized and the fees by the sum of theirs, and the unrealized profit is that of the
  -- last one's positions. The currency and the initial balance stay. The peak is no less than it was
  -- and than the equity, and is the first peak or the equity that some first part of the updates
  -- that returned had reached.
  -- The hypothesis: the account's books balance at first.
  pub run-IsBalanced :
      (us : List Update) (a : AccountSnapshot)
      → IsBalanced a
      → IsBalanced (run us a) × IsAfter a (applied us a) (run us a)
  unfolding run applied
  run-IsBalanced [] a h = (h, IsAfter-refl a)
  run-IsBalanced ((ps, r, f) ∷ us) a h =
      elim (update_account ratio a ps r f)
          as (λ x.
            (update_account ratio a ps r f ≡ x)
            → IsBalanced (run us (elim x [ ok b ↦ b | err _ ↦ a ]))
              × IsAfter a (elim x [ ok b ↦ (ps, r, f) ∷ applied us b | err _ ↦ applied us a ])
                  (run us (elim x [ ok b ↦ b | err _ ↦ a ]))) [
                    | err e ↦ λ p. run-IsBalanced us a h
                    | ok b ↦ λ p.
                        let e : b ≡ next_account ratio a ps r f = update_account-ok a b ps r f p in
                        let balanced : IsBalanced b =
                          subst IsBalanced (sym e) (next_account-IsBalanced a ps r f).0 in
                        let (rest, after) = run-IsBalanced us b balanced in
                        (
                          rest,
                          next_account-IsAfter a ps r f (applied us b) (run us b)
                              (subst (λ x. IsAfter x (applied us b) (run us b)) e after),
                        )
                  ]
        refl
