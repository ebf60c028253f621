-- ===== src/Imap/Utf7/Base64.antt =====
-- imap/utf7.hpp: modified Base64, in groups of three bytes.
use Prim.Native.Nat.{bit_and, bit_or}
use mailio.Base.{
  ℕ, ◌+◌, ◌*◌, ◌/◌, ◌%◌, ◌^◌, ◌<◌, ◌≡◌, refl, ap, ◌∙◌, Bool, true, false, Option, none, some, [],
  ◌∷◌, arith, ◌==◌,
}
use mailio.Base.Bits.{holds_below, holds_below-at, eq_below}
use mailio.Base.Bytes.{Bytes, length, is_empty, All, IsByte, uchar}
use mailio.Base.Result.{ok, ◌>>=◌}
use mailio.Base.Words.{bit_or-shifted, bit_and-63}
use mailio.Imap.Utf7.{
  letter, base64_value, value_or_throw, encode_modified_base64, decode_base64_groups,
  decode_modified_base64,
}

-- The value that a character stands for is the expected one.
abbrev stands_for : ℕ → Option ℕ → Bool
stands_for v none = false
stands_for v (some w) = w == v

throw-stands_for : (v ch : ℕ) → stands_for v (base64_value ch) ≡ true → value_or_throw ch ≡ ok v
unfolding value_or_throw
throw-stands_for v ch h = ground arith

value_or_throw-letter : (v : ℕ) → v < 64 → value_or_throw (letter v) ≡ ok v
unfolding letter base64_value holds_below
value_or_throw-letter v h =
    throw-stands_for v (letter v)
      (holds_below-at 64 (λ v. stands_for v (base64_value (letter v))) v refl h)

and_03 : (b : ℕ) → b < 256 → bit_and b 0x03 ≡ b % 4
unfolding holds_below
and_03 = eq_below 256 _ _ refl

and_0f : (b : ℕ) → b < 256 → bit_and b 0x0F ≡ b % 16
unfolding holds_below
and_0f = eq_below 256 _ _ refl

top_bits : (b : ℕ) → b < 256 → bit_and (b / 2 ^ 2) 0x3F ≡ b / 4
top_bits b h = omega (arith, bit_and-63 (b / 2 ^ 2))

-- The sum that the joined bits are, at the shifts of the encoder.
or_4 : (b c : ℕ) → c < 256 → bit_or (b % 4 * 2 ^ 4) (c / 2 ^ 4) ≡ b % 4 * 16 + c / 16
or_4 b c h = bit_or-shifted 4 (b % 4) (c / 16) (omega arith)

or_2 : (b c : ℕ) → c < 256 → bit_or (b % 16 * 2 ^ 2) (c / 2 ^ 6) ≡ b % 16 * 4 + c / 64
or_2 b c h = bit_or-shifted 2 (b % 16) (c / 64) (omega arith)

first_byte : (s t : ℕ) → s < 64 → t < 64 → uchar (bit_or (s * 2 ^ 2) (t / 2 ^ 4)) ≡ s * 4 + t / 16
first_byte s t h k = omega (arith, bit_or-shifted 2 s (t / 16) (omega arith))

second_byte :
    (s t : ℕ) → s < 64 → t < 64 → uchar (bit_or (s * 2 ^ 4) (t / 2 ^ 2)) ≡ s % 16 * 16 + t / 4
second_byte s t h k = omega (arith, bit_or-shifted 4 s (t / 4) (omega arith))

third_byte : (s t : ℕ) → s < 64 → t < 64 → uchar (bit_or (s * 2 ^ 6) t) ≡ s % 4 * 64 + t
third_byte s t h k = omega (arith, bit_or-shifted 6 s t (omega arith))

-- Groups of four characters, of three and of two, with the values of their characters.
decode-four :
    (p q r s : ℕ) (text : Bytes)
    → p < 64
    → q < 64
    → r < 64
    → s < 64
    → decode_base64_groups (letter p ∷ letter q ∷ letter r ∷ letter s ∷ text) ≡ (
        decode_base64_groups text >>= λ rest.
        ok ((p * 4 + q / 16) ∷ (q % 16 * 16 + r / 4) ∷ (r % 4 * 64 + s) ∷ rest))
unfolding decode_base64_groups
decode-four p q r s text hp hq hr hs = rw (
  value_or_throw-letter p hp,
  value_or_throw-letter q hq,
  value_or_throw-letter r hr,
  value_or_throw-letter s hs,
  first_byte p q hp hq,
  second_byte q r hq hr,
  third_byte r s hr hs,
)

decode-three :
    (p q r : ℕ)
    → p < 64
    → q < 64
    → r < 64
    → decode_base64_groups (letter p ∷ letter q ∷ letter r ∷ [])
      ≡ ok ((p * 4 + q / 16) ∷ (q % 16 * 16 + r / 4) ∷ [])
unfolding decode_base64_groups
decode-three p q r hp hq hr = rw (
  value_or_throw-letter p hp,
  value_or_throw-letter q hq,
  value_or_throw-letter r hr,
  first_byte p q hp hq,
  second_byte q r hq hr,
)

decode-two :
    (p q : ℕ)
    → p < 64
    → q < 64
    → decode_base64_groups (letter p ∷ letter q ∷ []) ≡ ok ((p * 4 + q / 16) ∷ [])
unfolding decode_base64_groups
decode-two p q hp hq =
    rw (value_or_throw-letter p hp, value_or_throw-letter q hq, first_byte p q hp hq)

module _ (a b c : ℕ) (ha : a < 256) (hb : b < 256) (hc : c < 256) where
  encode-three :
      (text : Bytes)
      → encode_modified_base64 (a ∷ b ∷ c ∷ text)
        ≡ letter (a / 4)
          ∷ letter (a % 4 * 16 + b / 16)
          ∷ letter (b % 16 * 4 + c / 64)
          ∷ letter (c % 64)
          ∷ encode_modified_base64 text
  unfolding encode_modified_base64
  encode-three text =
      rw (top_bits a ha, bit_and-63 c, and_03 a ha, and_0f b hb, or_4 a b hb, or_2 b c hc)

  group_back :
      (text : Bytes) (bytes : Bytes)
      → decode_base64_groups text ≡ ok bytes
      → decode_base64_groups (
          letter (a / 4)
          ∷ letter (a % 4 * 16 + b / 16)
          ∷ letter (b % 16 * 4 + c / 64)
          ∷ letter (c % 64)
          ∷ text)
        ≡ ok (a ∷ b ∷ c ∷ bytes)
  group_back text bytes h =
      decode-four _ _ _ _ text (omega arith) (omega arith) (omega arith) (omega arith)
      ∙ rw h (ground arith)

decode_groups-encode :
    (bytes : Bytes)
    → All IsByte bytes
    → decode_base64_groups (encode_modified_base64 bytes) ≡ ok bytes
unfolding encode_modified_base64 decode_base64_groups
decode_groups-encode [] h = refl
decode_groups-encode (a ∷ []) (ha, h) =
    rw (top_bits a ha, and_03 a ha)
      (decode-two (a / 4) (a % 4 * 16) (omega arith) (omega arith) ∙ ground arith)
decode_groups-encode (a ∷ b ∷ []) (ha, (hb, h)) =
    rw (top_bits a ha, and_03 a ha, and_0f b hb, or_4 a b hb)
      (decode-three (a / 4) (a % 4 * 16 + b / 16) (b % 16 * 4) (omega arith) (omega arith)
          (omega arith)
        ∙ ground arith)
decode_groups-encode (a ∷ b ∷ c ∷ bytes) (ha, (hb, (hc, h))) =
    ap decode_base64_groups (encode-three a b c ha hb hc bytes)
    ∙ group_back a b c ha hb hc (encode_modified_base64 bytes) bytes (decode_groups-encode bytes h)

-- The length of an encoded text never leaves one character behind the groups of four.
encoded_length : (bytes : Bytes) → (length (encode_modified_base64 bytes) % 4 == 1) ≡ false
unfolding encode_modified_base64
encoded_length [] = refl
encoded_length (a ∷ []) = refl
encoded_length (a ∷ b ∷ []) = refl
encoded_length (a ∷ b ∷ c ∷ bytes) = ground (arith, encoded_length bytes)

encoded_not_empty : (a : ℕ) (bytes : Bytes) → is_empty (encode_modified_base64 (a ∷ bytes)) ≡ false
unfolding encode_modified_base64
encoded_not_empty a [] = refl
encoded_not_empty a (b ∷ []) = refl
encoded_not_empty a (b ∷ c ∷ bytes) = refl

decode-groups :
    (text : Bytes)
    → is_empty text ≡ false
    → (length text % 4 == 1) ≡ false
    → decode_modified_base64 text ≡ decode_base64_groups text
unfolding decode_modified_base64
decode-groups text h k = ground arith

-- Modified Base64 without padding: decoding the encoding of any bytes gives the bytes back.
pub modified_base64-decode-encode :
    (bytes : Bytes)
    → All IsByte bytes
    → decode_modified_base64 (encode_modified_base64 bytes) ≡ ok bytes
modified_base64-decode-encode [] h = unfold decode_modified_base64 encode_modified_base64 in refl
modified_base64-decode-encode (a ∷ bytes) h =
    decode-groups _ (encoded_not_empty a bytes) (encoded_length (a ∷ bytes))
    ∙ decode_groups-encode (a ∷ bytes) h
