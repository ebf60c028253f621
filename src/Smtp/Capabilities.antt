-- ===== src/Smtp/Capabilities.antt =====
-- smtp/types.hpp: the letter case of capabilities.
use mailio.Base.{◌+◌, ◌≡◌, refl, ap, true, false, none, some, [], ◌∷◌, arith, within, if◌then◌else◌}
use mailio.Base.Bytes.{Bytes}
use mailio.Smtp.{Entries, normalize_key, find_entry, parameters, supports}

-- The lower-case letters of a name.
pub lower_key : Bytes → Bytes
lower_key [] = []
lower_key (ch ∷ key) = (if within b'A' b'Z' ch then ch + 32 else ch) ∷ lower_key key

normalize_key-lower : (key : Bytes) → normalize_key (lower_key key) ≡ normalize_key key
unfolding normalize_key lower_key
normalize_key-lower [] = refl
normalize_key-lower (ch ∷ key) = ground (arith, normalize_key-lower key)

normalize_key-idempotent : (key : Bytes) → normalize_key (normalize_key key) ≡ normalize_key key
unfolding normalize_key
normalize_key-idempotent [] = refl
normalize_key-idempotent (ch ∷ key) = ground (arith, normalize_key-idempotent key)

-- A capability is found, with the same parameters, whether its name is asked for as it is, in lower
-- case or in upper case; it is supported exactly when it has a list of parameters.
pub parameters-any_case :
    (entries : Entries) (capability : Bytes)
    → (parameters entries (lower_key capability) ≡ parameters entries capability)
      × (parameters entries (normalize_key capability) ≡ parameters entries capability)
      × (supports entries capability
          ≡ elim (parameters entries capability) [ none ↦ false | some p ↦ true ])
unfolding parameters supports
parameters-any_case entries capability = (
  ap (λ k. find_entry k entries) (normalize_key-lower capability),
  ap (λ k. find_entry k entries) (normalize_key-idempotent capability),
  refl,
)
