-- ===== src/Wire.antt =====
-- include/mailxx/detail/sanitize.hpp and append.hpp: the pieces that commands are built from.
-- `std::to_chars` and `std::from_chars` are those of the C++ library, on unsigned numbers.
pub mod Decimal
pub mod Clean
use mailio.Base.{
  ℕ, zero, suc, ◌+◌, ◌-◌, ◌*◌, ◌/◌, ◌%◌, ◌^◌, Bool, true, false, ◌||◌, Option, none, some, List, [],
  ◌∷◌, ◌++◌, ltb, ◌==◌, within, if◌then◌else◌,
}
use mailio.Base.Bytes.{Bytes, codes, any_of, all_of, is_empty}
use mailio.Base.Result.{Result, ok, err}

unfoldable pub contains_crlf_or_nul : Bytes → Bool
contains_crlf_or_nul value = any_of (λ ch. ch == b'\r' || ch == b'\n' || ch == 0) value

-- The exception `std::invalid_argument`, by its text.
unfoldable pub ensure_no_crlf_or_nul : Bytes → Option Bytes → Result Bytes (Unit {0})
ensure_no_crlf_or_nul value field_name =
    let name : Bytes = elim field_name [ some f ↦ f | none ↦ codes "value" ] in
    if contains_crlf_or_nul value
    then err (codes "Invalid " ++ (name ++ codes ": CR/LF or NUL not allowed."))
    else ok tt

unfoldable pub append_sv : Bytes → Bytes → Bytes
append_sv out sv = out ++ sv

unfoldable pub append_char : Bytes → ℕ → Bytes
append_char out ch = out ++ ch ∷ []

unfoldable pub append_space : Bytes → Bytes
append_space out = append_char out b' '

pub append_crlf : Bytes → Bytes
append_crlf out = out ++ b'\r' ∷ b'\n' ∷ []

-- The decimal digits of a number that has at most so many.
unfoldable pub to_chars : ℕ → ℕ → Bytes
to_chars zero value = []
to_chars (suc room) value =
    let front = to_chars room (value / 10) in
    if ltb value 10 then (value + b'0') ∷ [] else front ++ (value % 10 + b'0') ∷ []

-- The buffer has 20 characters.
unfoldable pub append_uint : Bytes → ℕ → Bytes
append_uint out value = out ++ to_chars 20 value

pub append_angle_addr : Bytes → Bytes → Bytes
append_angle_addr out addr = (out ++ b'<' ∷ []) ++ (addr ++ b'>' ∷ [])

-- The value of decimal digits.
unfoldable pub digits_value : ℕ → Bytes → ℕ
digits_value acc [] = acc
digits_value acc (d ∷ ds) = digits_value (acc * 10 + (d - b'0')) ds

-- A token that is a number in decimal and fits in 32 bits.
unfoldable pub parse_uint32 : Bytes → Option ℕ
parse_uint32 token =
    if is_empty token
    then none
    else if all_of (within b'0' b'9') token
    then (let value = digits_value 0 token in if ltb value (2 ^ 32) then some value else none)
    else none
