-- ===== src/Imap/Utf7.antt =====
-- include/mailxx/imap/utf7.hpp. A `char` or `unsigned char` is a byte below 256; exceptions are
-- values. Out-of-range code units and code points cannot occur in their C++ types.
pub mod Base64
pub mod Utf8
pub mod Printable
pub mod Fuel
pub mod Utf16
mod Tests
use Prim.Native.Nat.{bit_and, bit_or}
use mailio.Base.{
  ℕ, zero, suc, ◌+◌, ◌-◌, ◌*◌, ◌/◌, ◌%◌, ◌^◌, Bool, true, false, not, ◌&&◌, ◌||◌, Option, none,
  some, List, [], ◌∷◌, ◌++◌, ltb, leb, ◌==◌, within, if◌then◌else◌,
}
use mailio.Base.Bytes.{Bytes, codes, length, take, drop, get_or, is_empty, find, uchar}
use mailio.Base.Result.{Result, ok, err, ◌>>=◌}

-- `std::invalid_argument`, by its text.
pub data Utf7Error : Type 0 where
  invalid_utf7 invalid_utf8 : Utf7Error
  -- The model's fuel ran out; the code has no such case.
  no_fuel : Utf7Error

-- -1 is `none`.
pub base64_value : ℕ → Option ℕ
base64_value ch =
    if within b'A' b'Z' ch
    then some (ch - b'A')
    else if within b'a' b'z' ch
    then some (ch - b'a' + 26)
    else if within b'0' b'9' ch
    then some (ch - b'0' + 52)
    else if ch == b'+'
    then some 62
    else if ch == b','
    then some 63
    else none

abbrev pub alphabet : Bytes
alphabet = codes "ABCDEFGHIJKLMNOPQRSTUVWXYZabcdefghijklmnopqrstuvwxyz0123456789+,"

pub letter : ℕ → ℕ
letter i = get_or alphabet i 0

-- Groups of three bytes, and what remains.
pub encode_modified_base64 : Bytes → Bytes
encode_modified_base64 [] = []
encode_modified_base64 (b0 ∷ []) =
    letter (bit_and (b0 / 2 ^ 2) 0x3F) ∷ letter (bit_and b0 0x03 * 2 ^ 4) ∷ []
encode_modified_base64 (b0 ∷ b1 ∷ []) =
    letter (bit_and (b0 / 2 ^ 2) 0x3F)
    ∷ letter (bit_or (bit_and b0 0x03 * 2 ^ 4) (b1 / 2 ^ 4))
    ∷ letter (bit_and b1 0x0F * 2 ^ 2)
    ∷ []
encode_modified_base64 (b0 ∷ b1 ∷ b2 ∷ bytes) =
    letter (bit_and (b0 / 2 ^ 2) 0x3F)
    ∷ letter (bit_or (bit_and b0 0x03 * 2 ^ 4) (b1 / 2 ^ 4))
    ∷ letter (bit_or (bit_and b1 0x0F * 2 ^ 2) (b2 / 2 ^ 6))
    ∷ letter (bit_and b2 0x3F)
    ∷ encode_modified_base64 bytes

-- `base64_value`, or the exception when it is negative.
pub value_or_throw : ℕ → Result Utf7Error ℕ
value_or_throw ch = elim (base64_value ch) [ none ↦ err invalid_utf7 | some v ↦ ok v ]

pub decode_base64_groups : Bytes → Result Utf7Error Bytes
decode_base64_groups [] = ok []
decode_base64_groups (c0 ∷ []) = err invalid_utf7
decode_base64_groups (c0 ∷ c1 ∷ []) = do
  s0 ← value_or_throw c0
  s1 ← value_or_throw c1
  ok (uchar (bit_or (s0 * 2 ^ 2) (s1 / 2 ^ 4)) ∷ [])
decode_base64_groups (c0 ∷ c1 ∷ c2 ∷ []) = do
  s0 ← value_or_throw c0
  s1 ← value_or_throw c1
  s2 ← value_or_throw c2
  ok (uchar (bit_or (s0 * 2 ^ 2) (s1 / 2 ^ 4)) ∷ uchar (bit_or (s1 * 2 ^ 4) (s2 / 2 ^ 2)) ∷ [])
decode_base64_groups (c0 ∷ c1 ∷ c2 ∷ c3 ∷ text) = do
  s0 ← value_or_throw c0
  s1 ← value_or_throw c1
  s2 ← value_or_throw c2
  s3 ← value_or_throw c3
  rest ← decode_base64_groups text
  ok (
      uchar (bit_or (s0 * 2 ^ 2) (s1 / 2 ^ 4))
      ∷ uchar (bit_or (s1 * 2 ^ 4) (s2 / 2 ^ 2))
      ∷ uchar (bit_or (s2 * 2 ^ 6) s3)
      ∷ rest)

pub decode_modified_base64 : Bytes → Result Utf7Error Bytes
decode_modified_base64 text =
    if is_empty text
    then ok []
    else if length text % 4 == 1
    then err invalid_utf7
    else decode_base64_groups text

-- A continuation byte.
abbrev continues : ℕ → Bool
continues b = bit_and b 0xC0 == 0x80

unfoldable pub decode_two : ℕ → Bytes → Result Utf7Error (ℕ × Bytes)
decode_two b0 (b1 ∷ rest) =
    let cp = bit_or (bit_and b0 0x1F * 2 ^ 6) (bit_and b1 0x3F) in
    if not (continues b1)
    then err invalid_utf8
    else if ltb cp 0x80
    then err invalid_utf8
    else ok (cp, rest)
decode_two b0 [] = err invalid_utf8

pub decode_three : ℕ → Bytes → Result Utf7Error (ℕ × Bytes)
decode_three b0 (b1 ∷ b2 ∷ rest) =
    let cp =
      bit_or (bit_or (bit_and b0 0x0F * 2 ^ 12) (bit_and b1 0x3F * 2 ^ 6)) (bit_and b2 0x3F) in
    if not (continues b1) || not (continues b2)
    then err invalid_utf8
    else if ltb cp 0x800 || (leb 0xD800 cp && leb cp 0xDFFF)
    then err invalid_utf8
    else ok (cp, rest)
decode_three b0 _ = err invalid_utf8

pub decode_four : ℕ → Bytes → Result Utf7Error (ℕ × Bytes)
decode_four b0 (b1 ∷ b2 ∷ b3 ∷ rest) =
    let cp =
      bit_or
        (bit_or (bit_or (bit_and b0 0x07 * 2 ^ 18) (bit_and b1 0x3F * 2 ^ 12))
          (bit_and b2 0x3F * 2 ^ 6))
        (bit_and b3 0x3F) in
    if not (continues b1) || not (continues b2) || not (continues b3)
    then err invalid_utf8
    else if ltb cp 0x10000 || ltb 0x10FFFF cp
    then err invalid_utf8
    else ok (cp, rest)
decode_four b0 _ = err invalid_utf8

-- The code point at the front of the text, and the text behind it.
unfoldable pub decode_utf8 : Bytes → Result Utf7Error (ℕ × Bytes)
decode_utf8 [] = err invalid_utf8
decode_utf8 (b0 ∷ rest) =
    if ltb b0 0x80
    then ok (b0, rest)
    else if b0 / 2 ^ 5 == 0x6
    then decode_two b0 rest
    else if b0 / 2 ^ 4 == 0xE
    then decode_three b0 rest
    else if b0 / 2 ^ 3 == 0x1E
    then decode_four b0 rest
    else err invalid_utf8

pub utf16_units : ℕ → Result Utf7Error (List ℕ)
utf16_units codepoint =
    if leb codepoint 0xFFFF
    then (if leb 0xD800 codepoint && leb codepoint 0xDFFF
        then err invalid_utf8
        else ok (codepoint ∷ []))
    else if ltb 0x10FFFF codepoint
    then err invalid_utf8
    else (let value = codepoint - 0x10000 in
        ok ((0xD800 + value / 2 ^ 10) ∷ (0xDC00 + bit_and value 0x3FF) ∷ []))

pub append_utf8 : ℕ → Result Utf7Error Bytes
append_utf8 cp =
    if leb cp 0x7F
    then ok (cp ∷ [])
    else if leb cp 0x7FF
    then ok (bit_or 0xC0 (cp / 2 ^ 6) ∷ bit_or 0x80 (bit_and cp 0x3F) ∷ [])
    else if leb cp 0xFFFF
    then ok (
        bit_or 0xE0 (cp / 2 ^ 12)
        ∷ bit_or 0x80 (bit_and (cp / 2 ^ 6) 0x3F)
        ∷ bit_or 0x80 (bit_and cp 0x3F)
        ∷ [])
    else if leb cp 0x10FFFF
    then ok (
        bit_or 0xF0 (cp / 2 ^ 18)
        ∷ bit_or 0x80 (bit_and (cp / 2 ^ 12) 0x3F)
        ∷ bit_or 0x80 (bit_and (cp / 2 ^ 6) 0x3F)
        ∷ bit_or 0x80 (bit_and cp 0x3F)
        ∷ [])
    else err invalid_utf7

pub bytes_of : List ℕ → Bytes
bytes_of [] = []
bytes_of (unit ∷ units) = uchar (unit / 2 ^ 8) ∷ bit_and unit 0xFF ∷ bytes_of units

-- `flush_utf16`: what it appends to the output.
unfoldable pub flush_utf16 : List ℕ → Bytes
flush_utf16 [] = []
flush_utf16 (u ∷ units) = b'&' ∷ (encode_modified_base64 (bytes_of (u ∷ units)) ++ b'-' ∷ [])

-- What one round of the encoder's loop does to the output and to the units that wait.
unfoldable pub encode_codepoint : ℕ → Bytes × List ℕ → Result Utf7Error (Bytes × List ℕ)
encode_codepoint cp (out, units) =
    if cp == b'&'
    then ok ((out ++ flush_utf16 units) ++ b'&' ∷ b'-' ∷ [], [])
    else if leb 0x20 cp && leb cp 0x7E
    then ok ((out ++ flush_utf16 units) ++ cp ∷ [], [])
    else (utf16_units cp >>= λ more. ok (out, units ++ more))

-- The loop; each round takes at least one byte, so the length of the text is fuel enough.
unfoldable pub encode_loop : ℕ → Bytes → Bytes × List ℕ → Result Utf7Error Bytes
encode_loop fuel [] (out, units) = ok (out ++ flush_utf16 units)
encode_loop zero (b ∷ text) state = err no_fuel
encode_loop (suc fuel) (b ∷ text) state = decode_utf8 (b ∷ text) >>= λ (cp, rest).
    encode_codepoint cp state >>= λ next. encode_loop fuel rest next

unfoldable pub encode_modified_utf7 : Bytes → Result Utf7Error Bytes
encode_modified_utf7 utf8 = encode_loop (length utf8) utf8 ([], [])

-- The loop over the bytes of one shifted part, two for each unit; `decode_shifted` refuses an odd
-- number of them before.
pub decode_units : Bytes → Result Utf7Error Bytes
decode_units [] = ok []
decode_units (h ∷ []) = err invalid_utf7
decode_units (h ∷ l ∷ []) =
    let unit = bit_or (h * 2 ^ 8) l in
    if leb 0xD800 unit && leb unit 0xDFFF then err invalid_utf7 else append_utf8 unit
decode_units (h ∷ l ∷ h2 ∷ []) = err invalid_utf7
decode_units (h ∷ l ∷ h2 ∷ l2 ∷ bytes) =
    let unit = bit_or (h * 2 ^ 8) l in
    let low = bit_or (h2 * 2 ^ 8) l2 in
    let cp = 0x10000 + bit_or ((unit - 0xD800) * 2 ^ 10) (low - 0xDC00) in
    let pair = (append_utf8 cp >>= λ s. decode_units bytes >>= λ t. ok (s ++ t)) in
    let single = (append_utf8 unit >>= λ s. decode_units (h2 ∷ l2 ∷ bytes) >>= λ t. ok (s ++ t)) in
    if leb 0xD800 unit && leb unit 0xDBFF
    then if ltb low 0xDC00 || ltb 0xDFFF low then err invalid_utf7 else pair
    else if leb 0xDC00 unit && leb unit 0xDFFF
    then err invalid_utf7
    else single

-- One shifted part, behind the `&`: the text up to `-`, decoded.
pub decode_shifted : Bytes → Result Utf7Error Bytes
decode_shifted b64 = decode_modified_base64 b64 >>= λ bytes.
    if not (length bytes % 2 == 0) then err invalid_utf7 else decode_units bytes

pub prepend : Bytes → Result Utf7Error Bytes → Result Utf7Error Bytes
prepend s r = r >>= λ t. ok (s ++ t)

-- What stands behind a `&`, with the decoder of what follows it.
pub decode_escape : (Bytes → Result Utf7Error Bytes) → Bytes → Result Utf7Error Bytes
decode_escape later [] = err invalid_utf7
decode_escape later (c ∷ text) =
    if c == b'-' then prepend (b'&' ∷ []) (later text) else elim (find b'-' (c ∷ text)) [
      | none ↦ err invalid_utf7
      | some end ↦ decode_shifted (take end (c ∷ text)) >>= λ s.
          prepend s (later (drop (end + 1) (c ∷ text)))
    ]

-- The loop; each round takes at least one character.
pub decode_loop : ℕ → Bytes → Result Utf7Error Bytes
decode_loop fuel [] = ok []
decode_loop zero (ch ∷ text) = err no_fuel
decode_loop (suc fuel) (ch ∷ text) =
    if not (bit_and ch 0x80 == 0)
    then err invalid_utf7
    else if not (ch == b'&')
    then prepend (ch ∷ []) (decode_loop fuel text)
    else decode_escape (decode_loop fuel) text

pub decode_modified_utf7 : Bytes → Result Utf7Error Bytes
decode_modified_utf7 mutf7 = decode_loop (length mutf7) mutf7
