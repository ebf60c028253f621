-- ===== src/Codec/Base64/Sextets.antt =====
-- codec/base64.hpp: the masks and shifts of one group of three octets.
use Prim.Native.Nat.{bit_and}
use mailio.Base.{
  ℕ, ◌+◌, ◌*◌, ◌/◌, ◌%◌, ◌<◌, ◌≡◌, refl, ◌∙◌, ap, true, not, ◌&&◌, List, [], ◌∷◌, ◌++◌, arith, ◌==◌,
}
use mailio.Base.Bits.{holds_below, holds_below-at, eq_below}
use mailio.Base.Bytes.{Bytes, find, take}
use mailio.Codec.{CodecError}
use mailio.Base.Result.{Result, ok, ◌>>=◌}
use mailio.Codec.Base64.{
  sextets, digit, index, is_allowed, quantum, octets_of, take_sextet, Decoder, decode_char,
  decode_chars, decode_remaining, indices, decoded,
}

and_fc : (b : ℕ) → b < 256 → bit_and b 0xfc ≡ b / 4 * 4
unfolding holds_below
and_fc = eq_below 256 _ _ refl

and_f0 : (b : ℕ) → b < 256 → bit_and b 0xf0 ≡ b / 16 * 16
unfolding holds_below
and_f0 = eq_below 256 _ _ refl

and_c0 : (b : ℕ) → b < 256 → bit_and b 0xc0 ≡ b / 64 * 64
unfolding holds_below
and_c0 = eq_below 256 _ _ refl

and_03 : (b : ℕ) → b < 256 → bit_and b 0x03 ≡ b % 4
unfolding holds_below
and_03 = eq_below 256 _ _ refl

and_0f : (b : ℕ) → b < 256 → bit_and b 0x0f ≡ b % 16
unfolding holds_below
and_0f = eq_below 256 _ _ refl

and_3f : (b : ℕ) → b < 256 → bit_and b 0x3f ≡ b % 64
unfolding holds_below
and_3f = eq_below 256 _ _ refl

and_30 : (s : ℕ) → s < 64 → bit_and s 0x30 ≡ s / 16 * 16
unfolding holds_below
and_30 = eq_below 64 _ _ refl

and_3c : (s : ℕ) → s < 64 → bit_and s 0x3c ≡ s / 4 * 4
unfolding holds_below
and_3c = eq_below 64 _ _ refl

index-digit : (s : ℕ) → s < 64 → index (digit s) ≡ s
unfolding holds_below index digit find
index-digit = eq_below 64 _ _ refl

pub digit_allowed : (s : ℕ) → s < 64 → (is_allowed (digit s) && not (digit s == b'=')) ≡ true
unfolding holds_below digit is_allowed
digit_allowed s = holds_below-at 64 (λ s. is_allowed (digit s) && not (digit s == b'=')) s refl

-- What the two tables of masks make of three octets.
pub sextets_lem :
    (a b c : ℕ)
    → a < 256
    → b < 256
    → c < 256
    → sextets a b c ≡ a / 4 ∷ (a % 4 * 16 + b / 16) ∷ (b % 16 * 4 + c / 64) ∷ c % 64 ∷ []
unfolding sextets
sextets_lem a b c ha hb hc =
    rw (and_fc a ha, and_03 a ha, and_f0 b hb, and_0f b hb, and_c0 c hc, and_3f c hc) (ground arith)

and_f : (s : ℕ) → s < 64 → bit_and s 0xf ≡ s % 16
and_f s h = and_0f s (omega arith)

pub octets_of_lem :
    (p q r s : ℕ)
    → p < 64
    → q < 64
    → r < 64
    → s < 64
    → octets_of p q r s ≡ (p * 4 + q / 16) ∷ (q % 16 * 16 + r / 4) ∷ (r % 4 * 64 + s) ∷ []
unfolding octets_of
octets_of_lem p q r s hp hq hr hs =
    rw (and_30 q hq, and_f q hq, and_3c r hr, and_03 r (omega arith)) (ground arith)

pub decode_chars-digit :
    (d : Decoder) (s : ℕ) (rest : Bytes)
    → s < 64
    → decode_chars d (digit s ∷ rest) ≡ decode_chars (take_sextet d (digit s)) rest
unfolding decode_chars decode_char
decode_chars-digit d s rest h = ground (arith, digit_allowed s h)

module _ (a b c : ℕ) (ha : a < 256) (hb : b < 256) (hc : c < 256) where
  pub quantum_lem :
      quantum (a ∷ b ∷ c ∷ [])
      ≡ digit (a / 4)
        ∷ digit (a % 4 * 16 + b / 16)
        ∷ digit (b % 16 * 4 + c / 64)
        ∷ digit (c % 64)
        ∷ []
  unfolding quantum
  quantum_lem = rw (sextets_lem a b c ha hb hc)

  octets_back :
      octets_of (a / 4) (a % 4 * 16 + b / 16) (b % 16 * 4 + c / 64) (c % 64) ≡ a ∷ b ∷ c ∷ []
  octets_back =
      octets_of_lem _ _ _ _ (omega arith) (omega arith) (omega arith) (omega arith) ∙ ground arith

  filled_back :
      decoded (
        indices (
          digit (a / 4)
          ∷ digit (a % 4 * 16 + b / 16)
          ∷ digit (b % 16 * 4 + c / 64)
          ∷ digit (c % 64)
          ∷ []))
      ≡ a ∷ b ∷ c ∷ []
  unfolding decoded indices
  filled_back =
      rw
        (
          index-digit (a / 4) (omega arith),
          index-digit (a % 4 * 16 + b / 16) (omega arith),
          index-digit (b % 16 * 4 + c / 64) (omega arith),
          index-digit (c % 64) (omega arith),
        )
        octets_back

  -- A whole group of characters is decoded to its octets, whatever follows.
  pub decode_chars-quantum :
      (out rest : Bytes)
      → decode_chars (record { sextets = []; dec_text = out }) (quantum (a ∷ b ∷ c ∷ []) ++ rest)
        ≡ decode_chars (record { sextets = []; dec_text = out ++ a ∷ b ∷ c ∷ [] }) rest
  unfolding take_sextet
  decode_chars-quantum out rest = rw quantum_lem (
      decode_chars-digit _ (a / 4) _ (omega arith)
      ∙ decode_chars-digit _ (a % 4 * 16 + b / 16) _ (omega arith)
      ∙ decode_chars-digit _ (b % 16 * 4 + c / 64) _ (omega arith)
      ∙ decode_chars-digit _ (c % 64) _ (omega arith)
      ∙ ap (λ x. decode_chars (record { sextets = []; dec_text = out ++ x }) rest) filled_back)

-- What `decode` makes of one line that begins with an empty array, from the text decoded so far.
abbrev pub line_text : Bytes → Bytes → Result CodecError Bytes
line_text out line = decode_chars (record { sextets = []; dec_text = out }) line >>= λ d.
    ok (decode_remaining d).dec_text

head_of_two :
    (p q : ℕ)
    → p < 64
    → q < 64
    → take 1 (decoded (indices (digit p ∷ digit q ∷ []))) ≡ (p * 4 + q / 16) % 256 ∷ []
unfolding decoded indices octets_of
head_of_two p q hp hq = rw (index-digit p hp, index-digit q hq, and_30 q hq) (ground arith)

and_ff : bit_and 0xff 0x3c ≡ 60
and_ff = refl

heads_of_three :
    (p q r : ℕ)
    → p < 64
    → q < 64
    → r < 64
    → take 2 (decoded (indices (digit p ∷ digit q ∷ digit r ∷ [])))
      ≡ (p * 4 + q / 16) % 256 ∷ (q % 16 * 16 + r / 4) % 256 ∷ []
unfolding decoded indices octets_of
heads_of_three p q r hp hq hr =
    rw (index-digit p hp, index-digit q hq, index-digit r hr, and_30 q hq, and_f q hq, and_3c r hr)
      (ground arith)

decode_chars-equals : (d : Decoder) (rest : Bytes) → decode_chars d (b'=' ∷ rest) ≡ ok d
unfolding decode_chars
decode_chars-equals d rest = refl

abbrev filled : List ℕ → Bytes → Decoder
filled s out = record { sextets = s; dec_text = out }

chars_two :
    (p q : ℕ) (out rest : Bytes)
    → p < 64
    → q < 64
    → decode_chars (filled [] out) (digit p ∷ digit q ∷ b'=' ∷ rest)
      ≡ ok (filled (digit p ∷ digit q ∷ []) out)
unfolding take_sextet
chars_two p q out rest hp hq =
    decode_chars-digit _ p _ hp ∙ decode_chars-digit _ q _ hq ∙ decode_chars-equals _ rest

chars_three :
    (p q r : ℕ) (out rest : Bytes)
    → p < 64
    → q < 64
    → r < 64
    → decode_chars (filled [] out) (digit p ∷ digit q ∷ digit r ∷ b'=' ∷ rest)
      ≡ ok (filled (digit p ∷ digit q ∷ digit r ∷ []) out)
unfolding take_sextet
chars_three p q r out rest hp hq hr =
    decode_chars-digit _ p _ hp
    ∙ decode_chars-digit _ q _ hq
    ∙ decode_chars-digit _ r _ hr
    ∙ decode_chars-equals _ rest

-- One octet left over: two characters and two paddings.
pub line_text-one :
    (a : ℕ) (out : Bytes)
    → a < 256
    → line_text out (take 2 (quantum (a ∷ [])) ++ b'=' ∷ b'=' ∷ []) ≡ ok (out ++ a ∷ [])
unfolding decode_remaining quantum
line_text-one a out h = rw (sextets_lem a 0 0 h (omega arith) (omega arith)) (
    rw (chars_two (a / 4) (a % 4 * 16 + 0) out (b'=' ∷ []) (omega arith) (omega arith))
      (rw (head_of_two (a / 4) (a % 4 * 16 + 0) (omega arith) (omega arith)) (ground arith)))

-- Two octets left over: three characters and one padding.
pub line_text-two :
    (a b : ℕ) (out : Bytes)
    → a < 256
    → b < 256
    → line_text out (take 3 (quantum (a ∷ b ∷ [])) ++ b'=' ∷ []) ≡ ok (out ++ a ∷ b ∷ [])
unfolding decode_remaining quantum
line_text-two a b out h k = rw (sextets_lem a b 0 h k (omega arith)) (
    rw
      (chars_three (a / 4) (a % 4 * 16 + b / 16) (b % 16 * 4 + 0) out [] (omega arith) (omega arith)
        (omega arith))
      (rw
        (heads_of_three (a / 4) (a % 4 * 16 + b / 16) (b % 16 * 4 + 0) (omega arith) (omega arith)
          (omega arith))
        (ground arith)))
