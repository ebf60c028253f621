-- ===== src/Ascii/Headers.antt =====
-- detail/ascii.hpp: the characters of header names and values, described apart from the validators.
use mailio.Base.{
  ℕ, suc, ◌≤◌, ◌≡◌, refl, ap, ◌≢◌, ◌↔◌, ◌⊎◌, inl, inr, Bool, true, false, [], ◌∷◌, map, arith, ◌==◌,
  ==_iff, Bool-cases,
}
use mailio.Base.Bytes.{Bytes, length, All, all_of}
use mailio.Ascii.{
  ascii_tolower, iequals_loop, iequals_ascii, is_valid_header_name, is_valid_header_value,
  header_name_char, header_value_char,
}

-- A printable ASCII character other than the colon.
abbrev pub IsFtext : ℕ → Type 0
IsFtext c = (33 ≤ c) × (c ≤ 126) × (c ≢ b':')

-- A tab, or a character that is no control.
abbrev pub IsFieldText : ℕ → Type 0
IsFieldText c = (c ≡ b'\t') ⊎ ((32 ≤ c) × (c ≢ 127))

module _ (p : ℕ → Bool) (P : ℕ → Type 0) (iff : (c : ℕ) → (p c ≡ true) ↔ P c) where
  all_of_iff : (s : Bytes) → (all_of p s ≡ true) ↔ All P s
  all_of_iff [] = ((λ _. tt), (λ _. refl))
  all_of_iff (c ∷ s) = (
    λ h. ((iff c).0 (ground arith), (all_of_iff s).0 (ground arith)),
    λ h. ground (arith, (iff c).1 h.0, (all_of_iff s).1 h.1),
  )

header_name_char_iff : (c : ℕ) → (header_name_char c ≡ true) ↔ IsFtext c
header_name_char_iff c = ground arith

header_value_char_iff : (c : ℕ) → (header_value_char c ≡ true) ↔ IsFieldText c
header_value_char_iff c = (λ h. ground arith, λ h. ground arith)

-- A header name is accepted exactly when it is one or more printable characters other than `:`.
pub is_valid_header_name_iff :
    (name : Bytes) → (is_valid_header_name name ≡ true) ↔ ((name ≢ []) × All IsFtext name)
unfolding is_valid_header_name
is_valid_header_name_iff [] = ground arith
is_valid_header_name_iff (c ∷ s) =
    let chars = all_of_iff header_name_char IsFtext header_name_char_iff (c ∷ s) in
    (λ h. ((λ e. cc), chars.0 h), λ h. chars.1 h.1)

-- A header value is accepted exactly when each character is a tab or no control character.
pub is_valid_header_value_iff :
    (value : Bytes) → (is_valid_header_value value ≡ true) ↔ All IsFieldText value
unfolding is_valid_header_value
is_valid_header_value_iff = all_of_iff header_value_char IsFieldText header_value_char_iff

iequals_loop_iff :
    (a b : Bytes)
    → length a ≡ length b
    → (iequals_loop a b ≡ true) ↔ (map ascii_tolower a ≡ map ascii_tolower b)
unfolding iequals_loop
iequals_loop_iff [] [] e = ground arith
iequals_loop_iff [] (y ∷ b) e = absurd (omega arith)
iequals_loop_iff (x ∷ a) [] e = absurd (omega arith)
iequals_loop_iff (x ∷ a) (y ∷ b) e =
    let rest = iequals_loop_iff a b (omega arith) in
    (λ h. ground (arith, rest), λ h. ground (arith, rest))

length-map : (f : ℕ → ℕ) (s : Bytes) → length (map f s) ≡ length s
length-map f [] = refl
length-map f (c ∷ s) = ap suc (length-map f s)

-- Two strings compare equal exactly when they are the same once put in lower case.
pub iequals_ascii_iff :
    (a b : Bytes) → (iequals_ascii a b ≡ true) ↔ (map ascii_tolower a ≡ map ascii_tolower b)
unfolding iequals_ascii
iequals_ascii_iff a b = elim (Bool-cases (length a == length b)) [
  | inl same ↦ rw same (iequals_loop_iff a b ((==_iff _ _).0 same))
  | inr other ↦ rw other (
    λ h. cc,
    λ h. absurd (
        omega (
          arith,
          ap length h,
          length-map ascii_tolower a,
          length-map ascii_tolower b,
          differ other,
        )),
  )
]
  where
    differ : (length a == length b) ≡ false → length a ≢ length b
    differ other e = ground arith
