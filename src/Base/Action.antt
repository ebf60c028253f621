-- ===== src/Base/Action.antt =====
-- Methods: a call reads and changes a state, and returns or throws. The state that a throw leaves
-- behind comes back too, since what was written stays written.
use mathlib.Core.Path.{◌≡◌, refl}
use mathlib.Core.Bool.{Bool, true, false}
use mailio.Base.Tests.{if◌then◌else◌}
use mailio.Base.Bytes.{Bytes}
use mailio.Base.Result.{Result, ok, err}

-- `dialog_error` and its descendants by message and details, the exceptions of the C++ library and
-- of Asio by their text. The last is none of the code's: it marks a loop that ran out of fuel.
pub data Exception : Type 0 where
  error : Bytes → Bytes → Exception
  invalid_argument : Bytes → Exception
  system_error : Bytes → Exception
  out_of_fuel : Exception

abbrev pub Action : Type 0 → Type 0 → Type 0
Action S A = S → Result Exception A × S

module _ {S A : Type 0} where
  abbrev pub pure : A → Action S A
  pure a s = (ok a, s)

  abbrev pub throw : Exception → Action S A
  throw e s = (err e, s)

  abbrev pub gets : (S → A) → Action S A
  gets f s = (ok (f s), s)

  -- A call whose result does not depend on the state.
  abbrev pub lift : Result Exception A → Action S A
  lift r s = (r, s)

abbrev pub modify : {S : Type 0} → (S → S) → Action S (Unit {0})
modify f s = (ok tt, f s)

abbrev pub throw_if : {S : Type 0} → Bool → Exception → Action S (Unit {0})
throw_if b e s = (if b then err e else ok tt, s)

module _ {S A B : Type 0} where
  abbrev pub continue : Result Exception A × S → (A → Action S B) → Result Exception B × S
  continue (ok a, s) later = later a s
  continue (err e, s) later = (err e, s)

  infixl 5 ◌>>=◌ ◌>>◌
  abbrev pub ◌>>=◌ : Action S A → (A → Action S B) → Action S B
  (first >>= later) s = continue (first s) later

  abbrev pub ◌>>◌ : Action S A → Action S B → Action S B
  (first >> second) s = continue (first s) (λ a. second)

-- A call ended before it ran out of fuel.
abbrev pub is_decided : {A : Type 0} → Result Exception A → Bool
is_decided (ok a) = true
is_decided (err (error text details)) = true
is_decided (err (invalid_argument text)) = true
is_decided (err (system_error text)) = true
is_decided (err out_of_fuel) = false

-- Started where a property of the state holds, a call ends and keeps it, however it ends.
pub record Safe {S A : Type 0} (P : S → Type 0) (call : Action S A) : Type 0 where
  pub ends : (s : S) → P s → (is_decided ((call s).0) ≡ true) × P ((call s).1)

-- The same, with what holds of the value that is returned.
pub record Gives {S A : Type 0} (P : S → Type 0) (Q : A → Type 0) (call : Action S A) : Type 0 where
  pub safe : Safe P call
  pub gives : (s : S) (a : A) → (call s).0 ≡ ok a → Q a

module _ {S A : Type 0} (P : S → Type 0) where
  pub if-Safe : (b : Bool) (x y : Action S A) → Safe P x → Safe P y → Safe P (if b then x else y)
  if-Safe true x y h k = h
  if-Safe false x y h k = k

  pub pure-Safe : (a : A) → Safe P (pure a)
  pure-Safe a = record { ends = λ s kept. (refl, kept) }

  pub gets-Safe : (f : S → A) → Safe P (gets f)
  gets-Safe f = record { ends = λ s kept. (refl, kept) }

pub modify-Safe :
    {S : Type 0} (P : S → Type 0) (f : S → S) → ((s : S) → P s → P (f s)) → Safe P (modify f)
modify-Safe P f h = record { ends = λ s kept. (refl, h s kept) }

pub throw_if-Safe :
    {S : Type 0} (P : S → Type 0) (b : Bool) (text details : Bytes)
    → Safe P (throw_if b (error text details))
throw_if-Safe P true text details = record { ends = λ s kept. (refl, kept) }
throw_if-Safe P false text details = record { ends = λ s kept. (refl, kept) }

module _ {S A B : Type 0} where
  pub continue-decided :
      (outcome : Result Exception A × S) (later : A → Action S B)
      → is_decided (outcome.0) ≡ true
      → ((a : A) (s : S) → outcome ≡ (ok a, s) → is_decided ((later a s).0) ≡ true)
      → is_decided ((continue outcome later).0) ≡ true
  continue-decided (ok a, s) later h k = k a s refl
  continue-decided (err (error text details), s) later h k = refl
  continue-decided (err (invalid_argument text), s) later h k = refl
  continue-decided (err (system_error text), s) later h k = refl
  continue-decided (err out_of_fuel, s) later h k = absurd cc

  -- A property of the state that both parts of a call keep.
  pub continue-keeps :
      (P : S → Type 0) (outcome : Result Exception A × S) (later : A → Action S B)
      → P (outcome.1)
      → ((a : A) (s : S) → P s → P ((later a s).1))
      → P ((continue outcome later).1)
  continue-keeps P (ok a, s) later kept k = k a s kept
  continue-keeps P (err e, s) later kept k = kept

  continue-Safe :
      (P : S → Type 0) (outcome : Result Exception A × S) (later : A → Action S B)
      → is_decided (outcome.0) ≡ true
      → P (outcome.1)
      → ((a : A) → outcome.0 ≡ ok a → Safe P (later a))
      → (is_decided ((continue outcome later).0) ≡ true) × P ((continue outcome later).1)
  continue-Safe P (ok a, s) later h kept k = (k a refl).ends s kept
  continue-Safe P (err (error text details), s) later h kept k = (refl, kept)
  continue-Safe P (err (invalid_argument text), s) later h kept k = (refl, kept)
  continue-Safe P (err (system_error text), s) later h kept k = (refl, kept)
  continue-Safe P (err out_of_fuel, s) later h kept k = absurd cc

  pub bind-Safe :
      (P : S → Type 0) (first : Action S A) (later : A → Action S B)
      → Safe P first
      → ((a : A) → Safe P (later a))
      → Safe P (first >>= later)
  bind-Safe P first later h k = record {
    ends = λ s kept.
        continue-Safe P (first s) later ((h.ends s kept).0) ((h.ends s kept).1) (λ a returned. k a);
  }

  pub then-Safe :
      (P : S → Type 0) (first : Action S A) (second : Action S B)
      → Safe P first
      → Safe P second
      → Safe P (first >> second)
  then-Safe P first second h k = record {
    ends = λ s kept.
        continue-Safe P (first s) (λ a. second) ((h.ends s kept).0) ((h.ends s kept).1)
          (λ a returned. k);
  }

  -- What a call that returns has done: its first part returned, and then the rest.
  pub continue-eq-ok :
      (outcome : Result Exception A × S) (later : A → Action S B) {b : B} {after : S}
      → continue outcome later ≡ (ok b, after)
      → (a : A) × (s : S) × (outcome ≡ (ok a, s)) × (later a s ≡ (ok b, after))
  continue-eq-ok (ok a, s) later h = (a, s, refl, h)
  continue-eq-ok (err e, s) later h = absurd (cc)

  pub continue-value :
      (outcome : Result Exception A × S) (later : A → Action S B) {b : B}
      → (continue outcome later).0 ≡ ok b
      → (a : A) × (s : S) × (outcome.0 ≡ ok a) × ((later a s).0 ≡ ok b)
  continue-value (ok a, s) later h = (a, s, refl, h)
  continue-value (err e, s) later h = absurd (cc)

  -- What follows may rely on what the first part promises of the value it returns.
  pub given-Safe :
      (P : S → Type 0) (Q : A → Type 0) (first : Action S A) (later : A → Action S B)
      → Gives P Q first
      → ((a : A) → Q a → Safe P (later a))
      → Safe P (first >>= later)
  given-Safe P Q first later h k = record {
    ends = λ s kept.
        continue-Safe P (first s) later ((h.safe.ends s kept).0) ((h.safe.ends s kept).1)
          λ a returned. k a (h.gives s a returned);
  }

  pub given-Gives :
      (P : S → Type 0) (Q : A → Type 0) (R : B → Type 0) (first : Action S A)
      (later : A → Action S B)
      → Gives P Q first
      → ((a : A) → Q a → Gives P R (later a))
      → Gives P R (first >>= later)
  given-Gives P Q R first later h k = record {
    safe = given-Safe P Q first later h (λ a q. (k a q).safe);
    gives = λ s b returned.
        let (a, t, found, rest) = continue-value (first s) later returned in
        let next = k a (h.gives s a found) in next.gives t b rest;
  }

  pub then-Gives :
      (P : S → Type 0) (R : B → Type 0) (first : Action S A) (second : Action S B)
      → Safe P first
      → Gives P R second
      → Gives P R (first >> second)
  then-Gives P R first second h k = record {
    safe = then-Safe P first second h k.safe;
    gives = λ s b returned.
        let (a, t, found, rest) = continue-value (first s) (λ u. second) returned in
        k.gives t b rest;
  }

  pub bind-Gives :
      (P : S → Type 0) (R : B → Type 0) (first : Action S A) (later : A → Action S B)
      → Safe P first
      → ((a : A) → Gives P R (later a))
      → Gives P R (first >>= later)
  bind-Gives P R first later h k =
      given-Gives P (λ a. Unit) R first later (record { safe = h; gives = λ s a returned. tt })
        (λ a u. k a)
