-- ===== src/Base/Result.antt =====
-- Exceptions as values: a computation returns, or throws an error of the type `E`.
use mathlib.Core.Path.{◌≡◌, refl}

pub data Result {ℓ κ} (E : Type ℓ) (A : Type κ) : Type (ℓ ⊔ κ) where
  ok : A → Result E A
  err : E → Result E A

module _ {ℓ κ ρ} {E : Type ℓ} {A : Type κ} {B : Type ρ} where
  infixl 5 ◌>>=◌
  abbrev pub ◌>>=◌ : Result E A → (A → Result E B) → Result E B
  ok v >>= later = later v
  err e >>= later = err e

  pub bind-eq-ok :
      (first : Result E A) (later : A → Result E B) {outcome : B}
      → first >>= later ≡ ok outcome
      → (v : A) × (first ≡ ok v) × (later v ≡ ok outcome)
  bind-eq-ok (ok v) later returned = (v, refl, returned)
  bind-eq-ok (err e) later returned = cc

module _ {ℓ κ ρ} {E : Type ℓ} {B : Type ρ} where
  infixl 5 ◌>>◌
  abbrev pub ◌>>◌ : Result E (Unit {κ}) → Result E B → Result E B
  ok a >> k = k
  err e >> k = err e

module _ {ℓ κ ρ} {E : Type ℓ} {F : Type ρ} {A : Type κ} where
  abbrev pub map_error : (E → F) → Result E A → Result F A
  map_error f (ok a) = ok a
  map_error f (err e) = err (f e)

  pub map_error-eq-ok : (f : E → F) (m : Result E A) {a : A} → map_error f m ≡ ok a → m ≡ ok a
  map_error-eq-ok f (ok a) h = cc
  map_error-eq-ok f (err e) h = cc
