-- ===== src/Wire/Decimal.antt =====
-- detail/append.hpp and imap/types.hpp: numbers written in decimal.
use native.Mathlib.Nat.{pow-suc}
use mailio.Base.{
  ℕ, zero, suc, ◌+◌, ◌-◌, ◌*◌, ◌/◌, ◌%◌, ◌^◌, ◌<◌, ◌≡◌, refl, ◌∙◌, true, false, some, [], ◌∷◌, ◌++◌,
  arith, ltb, lt→ltb, ltb→lt, within, inl, inr, Bool-cases,
}
use mailio.Base.Bytes.{Bytes, all_of, all_of-append, is_empty, length, length-append}
use mailio.Wire.{to_chars, digits_value, parse_uint32}

digits_value-append :
    (acc : ℕ) (xs ys : Bytes) → digits_value acc (xs ++ ys) ≡ digits_value (digits_value acc xs) ys
unfolding digits_value
digits_value-append acc [] ys = refl
digits_value-append acc (x ∷ xs) ys = digits_value-append (acc * 10 + (x - b'0')) xs ys

last_digit :
    (value front : ℕ) → front ≡ value / 10 → digits_value front ((value % 10 + b'0') ∷ []) ≡ value
unfolding digits_value
last_digit value front e = omega arith

tenth : (room value : ℕ) → value < 10 ^ suc room → value / 10 < 10 ^ room
tenth room value h = omega (arith, pow-suc 10 room)

one_digit : (value : ℕ) → value < 10 → digits_value 0 ((value + b'0') ∷ []) ≡ value
unfolding digits_value
one_digit value h = omega arith

no_digit : (value : ℕ) → value < 10 ^ 0 → digits_value 0 [] ≡ value
unfolding digits_value
no_digit value h = omega arith

-- The number is below ten to the power of the characters there is room for.
digits_value-to_chars :
    (room value : ℕ) → value < 10 ^ room → digits_value 0 (to_chars room value) ≡ value
unfolding to_chars
digits_value-to_chars zero value h = no_digit value h
digits_value-to_chars (suc room) value h = elim (Bool-cases (ltb value 10)) [
  | inl small ↦ rw small (one_digit value (ltb→lt value 10 small))
  | inr large ↦ rw large (
      digits_value-append 0 (to_chars room (value / 10)) ((value % 10 + b'0') ∷ [])
      ∙ last_digit value (digits_value 0 (to_chars room (value / 10)))
          (digits_value-to_chars room (value / 10) (tenth room value h)))
]

pub to_chars_digits : (room value : ℕ) → all_of (within b'0' b'9') (to_chars room value) ≡ true
unfolding to_chars
to_chars_digits zero value = refl
to_chars_digits (suc room) value = ground (
  arith,
  to_chars_digits room (value / 10),
  all_of-append (within b'0' b'9') (to_chars room (value / 10)) ((value % 10 + b'0') ∷ []),
)

pub to_chars_pos : (room value : ℕ) → 0 < length (to_chars (suc room) value)
unfolding to_chars
to_chars_pos room value =
    ground (arith, length-append (to_chars room (value / 10)) ((value % 10 + b'0') ∷ []))

not_empty : (s : Bytes) → 0 < length s → is_empty s ≡ false
not_empty [] h = absurd (omega arith)
not_empty (c ∷ s) h = refl

-- A number below 2^32, written in decimal, is read back by `parse_uint32`.
pub parse_uint32-to_chars :
    (value : ℕ) → value < 2 ^ 32 → parse_uint32 (to_chars 20 value) ≡ some value
unfolding parse_uint32
parse_uint32-to_chars value h = rw (
  not_empty (to_chars 20 value) (to_chars_pos 19 value),
  to_chars_digits 20 value,
  digits_value-to_chars 20 value (omega arith),
  lt→ltb value (2 ^ 32) h,
)
