-- ===== src/Prelude/Exec.antt =====
-- Methods that may raise and that change the state of an object. What was written before a raise
-- stays written, so the state comes back beside the error too.
use Prim.Native.String.{String}
use mathlib.Core.Path.{◌≡◌, refl, sym, transport}
use mathlib.Core.Logic.{◌⊎◌, inl, inr}
use mathlib.Core.Bool.{Bool, true, false}
use mathlib.Core.Option.{Option, none, some}

-- Python's exceptions with their messages; each of the program's own classes is a constructor, and
-- `integrity_error` is the database's refusal of a row.
pub data Error : Type 0 where
  value_error type_error key_error permission_error runtime_error assertion_error : String → Error
  idempotency_conflict invalid_transition : String → Error
  concurrent_update reconciliation_required : String → Error
  lease_ownership integrity_error index_error : String → Error

pub data Result (A : Type 0) : Type 0 where
  ok : A → Result A
  err : Error → Result A

pub ok_inj : {A : Type 0} (a b : A) → ok a ≡ ok b → a ≡ b
ok_inj a b h = cc h

-- `except RuntimeError`: its class and the program's classes derived from it.
abbrev pub is_runtime_error : Error → Bool
is_runtime_error (runtime_error _) = true
is_runtime_error (concurrent_update _) = true
is_runtime_error (reconciliation_required _) = true
is_runtime_error (lease_ownership _) = true
is_runtime_error _ = false

-- A check raises or passes; checks run in order.
abbrev pub Check : Type 0
Check = Result (Unit {0})

abbrev pub check : Bool → Error → Check
check true e = err e
check false _ = ok tt

pub Check-cases : (c : Check) → (c ≡ ok tt) ⊎ ((e : Error) × (c ≡ err e))
Check-cases (ok _) = inl refl
Check-cases (err e) = inr (e, refl)

infixr 6 ◌⨾◌
abbrev pub ◌⨾◌ : Check → Check → Check
ok _ ⨾ c = c
err e ⨾ _ = err e

abbrev pub Exec : Type 0 → Type 0 → Type 0
Exec S A = S → Result A × S

module _ {S A : Type 0} where
  abbrev pub pure : A → Exec S A
  pure a s = (ok a, s)

  abbrev pub raise : Error → Exec S A
  raise e s = (err e, s)

  abbrev pub gets : (S → A) → Exec S A
  gets f s = (ok (f s), s)

  abbrev pub lift : Result A → Exec S A
  lift r s = (r, s)

  abbrev pub or_raise : Option A → Error → Exec S A
  or_raise none e = raise e
  or_raise (some a) _ = pure a

module _ {S : Type 0} where
  abbrev pub modify : (S → S) → Exec S (Unit {0})
  modify f s = (ok tt, f s)

  abbrev pub raise_if : Bool → Error → Exec S (Unit {0})
  raise_if true e s = (err e, s)
  raise_if false e s = (ok tt, s)

module _ {S A B : Type 0} where
  abbrev pub continue : Result A → S → (A → Exec S B) → Result B × S
  continue (ok a) s f = f a s
  continue (err e) s f = (err e, s)

  infixl 5 ◌>>=◌ ◌>>◌
  abbrev pub ◌>>=◌ : Exec S A → (A → Exec S B) → Exec S B
  ◌>>=◌ m f s = let (r, s') = m s in continue r s' f

  abbrev pub ◌>>◌ : Exec S A → Exec S B → Exec S B
  m >> k = m >>= λ _. k

module _ {S A B : Type 0} where
  -- The state after a call that goes on with a computed result.
  pub continue-state {ℓ} :
      (P : S → Type ℓ) (r : Result A) (s : S) (f : A → Exec S B)
      → P s
      → ((a : A) → r ≡ ok a → P (f a s).1)
      → P (continue r s f).1
  continue-state P (ok a) s f h k = k a refl
  continue-state P (err e) s f h k = h

  -- A call that returned went on with a value.
  pub continue-ok :
      (r : Result A) (s : S) (f : A → Exec S B) (b : B)
      → (continue r s f).0 ≡ ok b
      → (a : A) × (r ≡ ok a) × ((f a s).0 ≡ ok b) × ((continue r s f).1 ≡ (f a s).1)
  continue-ok (ok a) s f b h = (a, refl, h, refl)
  continue-ok (err e) s f b h = absurd (cc h)

  -- The state after a call whose continuation changes nothing.
  pub then-state {ℓ} :
      (P : S → Type ℓ) (r : Result A × S) (f : A → Exec S B)
      → ((a : A) (s : S) → (f a s).1 ≡ s)
      → P r.1
      → P (continue r.0 r.1 f).1
  then-state P (ok a, s) f k h = transport (λ i. P (sym (k a s) i)) h
  then-state P (err e, s) f k h = h

module _ {S : Type 0} where
  -- What a call has done: `Q` of its value and the state that it leaves, or `E` of the error and the
  -- state that it leaves.
  abbrev pub Ends {ℓ} :
      {A : Type 0} → (A → S → Type ℓ) → (Error → S → Type ℓ) → Result A × S → Type ℓ
  Ends Q E (ok a, s) = Q a s
  Ends Q E (err e, s) = E e s

  pub Ends-bind {ℓ κ} :
      {A B : Type 0} (m : Exec S A) (f : A → Exec S B) (s : S) (P : A → S → Type κ)
      (Q : B → S → Type ℓ) (D : Error → S → Type κ) (E : Error → S → Type ℓ)
      → Ends P D (m s)
      → ((a : A) (t : S) → P a t → Ends Q E (f a t))
      → ((e : Error) (t : S) → D e t → E e t)
      → Ends Q E ((m >>= f) s)
  Ends-bind m f s P Q D E = go (m s)
    where
      go :
          (r : Result _ × S)
          → Ends P D r
          → ((a : _) (t : S) → P a t → Ends Q E (f a t))
          → ((e : Error) (t : S) → D e t → E e t)
          → Ends Q E (continue r.0 r.1 f)
      go (ok a, t) p k d = k a t p
      go (err e, t) p k d = d e t p

  pub Ends-mono {ℓ κ} :
      {A : Type 0} (P : A → S → Type κ) (Q : A → S → Type ℓ) (D : Error → S → Type κ)
      (E : Error → S → Type ℓ) (r : Result A × S)
      → Ends P D r
      → ((a : A) (t : S) → P a t → Q a t)
      → ((e : Error) (t : S) → D e t → E e t)
      → Ends Q E r
  Ends-mono P Q D E (ok a, t) h f g = f a t h
  Ends-mono P Q D E (err e, t) h f g = g e t h
