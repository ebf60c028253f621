-- ===== src/Codec/Text.antt =====
-- The helpers of include/mailxx/codec/codec.hpp that the codecs and the protocols share, and the
-- character functions of the C library in the C locale that they call.
use mailio.Base.{ℕ, ◌+◌, ◌-◌, Bool, ◌||◌, [], ◌∷◌, ◌++◌, ltb, within, if◌then◌else◌}
use mailio.Base.Bytes.{Bytes, codes, any_of, contains}

unfoldable pub is_alnum : ℕ → Bool
is_alnum c = within b'0' b'9' c || within b'A' b'Z' c || within b'a' b'z' c

unfoldable pub is_xdigit : ℕ → Bool
is_xdigit c = within b'0' b'9' c || within b'A' b'F' c || within b'a' b'f' c

unfoldable pub to_upper : ℕ → ℕ
to_upper c = if within b'a' b'z' c then c - 32 else c

abbrev pub hex_digits : Bytes
hex_digits = codes "0123456789ABCDEF"

-- The callers pass a hexadecimal digit in upper case; for any other the C++ value may be negative.
unfoldable pub hex_digit_to_int : ℕ → ℕ
hex_digit_to_int digit = if within b'0' b'9' digit then digit - b'0' else digit + 10 - b'A'

-- A byte above 127; the sign extension of the cast does not change the test.
pub is_8bit_char : ℕ → Bool
is_8bit_char ch = ltb 127 ch

unfoldable pub escape_string : Bytes → Bytes → Bytes
escape_string [] escaping_chars = []
escape_string (ch ∷ text) escaping_chars =
    (if contains ch escaping_chars then b'\\' ∷ ch ∷ [] else ch ∷ [])
    ++ escape_string text escaping_chars

unfoldable pub surround_string : Bytes → ℕ → Bytes
surround_string text surround_char = surround_char ∷ (text ++ surround_char ∷ [])

pub is_utf8_string : Bytes → Bool
is_utf8_string txt = any_of (λ ch. ltb 127 ch) txt
