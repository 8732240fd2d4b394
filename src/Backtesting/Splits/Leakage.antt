-- ===== src/Backtesting/Splits/Leakage.antt =====
-- No label of an earlier partition reaches into a later one.
use mathlib.Core.List.Memᴰ
use mathlib.Core.List.{Memᴰ}
use mathlib.Core.Path.{transport}
use quantora_trade.Prelude.{
  ℕ, ◌<◌, ◌≤◌, ◌≡◌, refl, sym, ◌∙◌, inl, inr, ap, arith, Bool, true, false, not, ◌&&◌, List, [],
  ◌∷◌, leb, if-elim, string_eq,
}
use quantora_trade.Prelude.Int.{ℤ, pos, ◌+ℤ◌, ◌-ℤ◌, ◌≤ℤ◌, leb_ℤ, +ℤ_parts, -ℤ_parts}
use quantora_trade.Prelude.Exec.{Error, Check, check, ◌⨾◌, Result, ok, err, ok_inj}
use quantora_trade.Domain.Time.{DateTime, before, require_utc}
use quantora_trade.Backtesting.Splits.{
  TemporalSample, ChronologicalDatasetSplit, chronological_split, check_split, new_split, split_at,
  after_check, checked, filter,
}

filter-Memᴰ :
    (p : TemporalSample → Bool) (xs : List TemporalSample) (s : TemporalSample)
    → Memᴰ s (filter p xs)
    → (p s ≡ true) × Memᴰ s xs
filter-Memᴰ p [] s m = absurd (Memᴰ.not-nil m)
filter-Memᴰ p (x ∷ xs) s m =
    if-elim (λ ys. Memᴰ s ys → (p s ≡ true) × Memᴰ s (x ∷ xs)) (p x)
      (λ h k. elim (Memᴰ.cases_cons k) [
        | inl e ↦ (ap p e ∙ h, Memᴰ.head e)
        | inr l ↦ let (a, b) = filter-Memᴰ p xs s l in (a, Memᴰ.tail b)
      ])
      (λ _ k. let (a, b) = filter-Memᴰ p xs s k in (a, Memᴰ.tail b)) m

both-left : (a b : Bool) → (a && b) ≡ true → a ≡ true
both-left a b h = ground (arith, h)

both-right : (a b : Bool) → (a && b) ≡ true → b ≡ true
both-right a b h = ground (arith, h)

-- A check that passed has passed both its parts.
⨾-ok : (c d : Check) → (c ⨾ d) ≡ ok tt → (c ≡ ok tt) × (d ≡ ok tt)
⨾-ok (ok u) d h = (refl, h)
⨾-ok (err e) d h = absurd (cc h)

check-ok : (b : Bool) (e : Error) → check b e ≡ ok tt → b ≡ false
check-ok true e h = absurd (cc h)
check-ok false e h = refl

≤_of_leb : (a b : ℕ) → leb a b ≡ true → a ≤ b
≤_of_leb a b h = ground (arith, h)

leb_of_≤ : (a b : ℕ) → a ≤ b → leb a b ≡ true
leb_of_≤ a b h = ground (arith, h)

-- The buffers around a boundary.
chain :
    (l b o : ℕ) (p e : ℤ)
    → leb_ℤ (pos l) (pos b -ℤ p) ≡ true
    → leb_ℤ (pos b +ℤ e) (pos o) ≡ true
    → pos l +ℤ p +ℤ e ≤ℤ pos o
chain l b o p e h k = omega (
  arith,
  ≤_of_leb _ _ h,
  ≤_of_leb _ _ k,
  -ℤ_parts (pos b) p,
  +ℤ_parts (pos b) e,
  +ℤ_parts (pos l) p,
  +ℤ_parts (pos l +ℤ p) e,
)

further :
    (l b c : ℕ) (p : ℤ)
    → leb_ℤ (pos l) (pos b -ℤ p) ≡ true
    → b < c
    → leb_ℤ (pos l) (pos c -ℤ p) ≡ true
further l b c p h k =
    leb_of_≤ _ _ (omega (arith, ≤_of_leb _ _ h, -ℤ_parts (pos b) p, -ℤ_parts (pos c) p, k))

checked-ok :
    (x s : ChronologicalDatasetSplit) (c : Check) → checked x c ≡ ok s → (s ≡ x) × (c ≡ ok tt)
checked-ok x s (ok u) h = (sym (ok_inj x s h), refl)
checked-ok x s (err e) h = absurd (cc h)

after-ok :
    (c : Check) (r : Result ChronologicalDatasetSplit) (s : ChronologicalDatasetSplit)
    → after_check c r ≡ ok s
    → r ≡ ok s
after-ok (ok u) r s h = h
after-ok (err e) r s h = absurd (cc h)

check_split-before :
    (s : ChronologicalDatasetSplit)
    → check_split s ≡ ok tt
    → s.validation_boundary.instant < s.test_boundary.instant
unfolding check_split
check_split-before s h =
    let rest = (⨾-ok (require_utc s.validation_boundary "validation_boundary") _ h).1 in
    let last = (⨾-ok (require_utc s.test_boundary "test_boundary") _ rest).1 in
    let b = before s.validation_boundary s.test_boundary in
    earlier s (check-ok (not b) _ (⨾-ok (check (not b) _) _ last).0)
  where
    earlier :
        (s : ChronologicalDatasetSplit)
        → not (before s.validation_boundary s.test_boundary) ≡ false
        → s.validation_boundary.instant < s.test_boundary.instant
    earlier s h = ground (arith, h)

boundaries :
    (samples : List TemporalSample) (purge embargo : ℤ) (v t : DateTime)
    → ((new_split samples purge embargo v t).validation_boundary ≡ v)
      × ((new_split samples purge embargo v t).test_boundary ≡ t)
unfolding new_split
boundaries samples purge embargo v t = (refl, refl)

-- What a split that was returned is: one at two boundaries in order.
IsSplit : List TemporalSample → ℤ → ℤ → ChronologicalDatasetSplit → Type 0
IsSplit samples purge embargo s =
    (v : DateTime) × (t : DateTime) × (s ≡ new_split samples purge embargo v t)
    × v.instant < t.instant

split_at-IsSplit :
    (samples : List TemporalSample) (purge embargo : ℤ) (s : ChronologicalDatasetSplit)
    (a b : Result DateTime)
    → split_at samples purge embargo a b ≡ ok s
    → IsSplit samples purge embargo s
unfolding IsSplit
split_at-IsSplit samples purge embargo s (err e) b h = absurd (cc h)
split_at-IsSplit samples purge embargo s (ok v) (err e) h = absurd (cc h)
split_at-IsSplit samples purge embargo s (ok v) (ok t) h =
    let x = new_split samples purge embargo v t in
    let (e, c) = checked-ok x s (check_split x) h in
    let (ev, et) = boundaries samples purge embargo v t in
    (
      v,
      t,
      e,
      omega (
        arith,
        check_split-before x c,
        ap (λ (d : DateTime). d.instant) ev,
        ap (λ (d : DateTime). d.instant) et,
      ),
    )

returned :
    (samples : List TemporalSample) (f g purge embargo : ℤ) (s : ChronologicalDatasetSplit)
    → chronological_split samples f g purge embargo ≡ ok s
    → IsSplit samples purge embargo s
unfolding chronological_split
returned samples f g purge embargo s h =
    split_at-IsSplit samples purge embargo s _ _ (after-ok _ _ s h)

-- A sample's label ends before another sample is observed, with both buffers between them.
abbrev pub IsClear : ℤ → ℤ → TemporalSample → TemporalSample → Type 0
IsClear purge embargo a b =
    pos a.label_end_at.instant +ℤ purge +ℤ embargo ≤ℤ pos b.observed_at.instant

-- Every sample of one partition is clear of every sample of a later one.
abbrev pub AreClear : ℤ → ℤ → List TemporalSample → List TemporalSample → Type 0
AreClear purge embargo xs ys =
    (a b : TemporalSample) → Memᴰ a xs → Memᴰ b ys → IsClear purge embargo a b

new_split-AreClear :
    (samples : List TemporalSample) (purge embargo : ℤ) (v t : DateTime)
    → v.instant < t.instant
    → let s = new_split samples purge embargo v t in
      AreClear purge embargo s.training s.validation
      × AreClear purge embargo s.training s.test
      × AreClear purge embargo s.validation s.test
unfolding new_split
new_split-AreClear samples purge embargo v t l = (
  λ a b ma mb.
      let ha = (filter-Memᴰ _ samples a ma).0 in
      let hb = (filter-Memᴰ _ samples b mb).0 in
      chain a.label_end_at.instant v.instant b.observed_at.instant purge embargo (both-right _ _ ha)
        (both-left _ _ (both-left _ _ hb)),
  λ a b ma mb.
      let ha = (filter-Memᴰ _ samples a ma).0 in
      let hb = (filter-Memᴰ _ samples b mb).0 in
      chain a.label_end_at.instant t.instant b.observed_at.instant purge embargo
        (further a.label_end_at.instant v.instant t.instant purge (both-right _ _ ha) l) hb,
  λ a b ma mb.
      let ha = (filter-Memᴰ _ samples a ma).0 in
      let hb = (filter-Memᴰ _ samples b mb).0 in
      chain a.label_end_at.instant t.instant b.observed_at.instant purge embargo (both-right _ _ ha)
        hb,
)

-- In a split that is returned, the label of every training sample ends before any validation or test
-- sample is observed, and the label of every validation sample before any test sample is; and each
-- time at least the purge and the embargo lie between.
pub split-AreClear :
    (samples : List TemporalSample) (training_fraction validation_fraction purge embargo : ℤ)
    (s : ChronologicalDatasetSplit)
    → chronological_split samples training_fraction validation_fraction purge embargo ≡ ok s
    → AreClear purge embargo s.training s.validation
      × AreClear purge embargo s.training s.test
      × AreClear purge embargo s.validation s.test
unfolding IsSplit
split-AreClear samples f g purge embargo s h =
    let (v, t, e, l) = returned samples f g purge embargo s h in
    transport
      (λ i.
        AreClear purge embargo (sym e i).training (sym e i).validation
        × AreClear purge embargo (sym e i).training (sym e i).test
        × AreClear purge embargo (sym e i).validation (sym e i).test)
      (new_split-AreClear samples purge embargo v t l)
