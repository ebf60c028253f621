-- ===== src/Imap/Utf7/Utf8.antt =====
-- imap/utf7.hpp: `append_utf8` against `decode_utf8`.
use Prim.Native.Nat.{bit_and, bit_or}
use mailio.Base.{
  ℕ, suc, ◌+◌, ◌*◌, ◌/◌, ◌%◌, ◌^◌, ◌≤◌, ◌<◌, ◌≡◌, refl, ap, true, false, ◌&&◌, [], ◌∷◌, ◌++◌, arith,
  leb, leb→le, Bool-cases, ◌⊎◌, inl, inr,
}
use mailio.Base.Bits.{holds_below, holds_below-at, eq_below}
use mailio.Base.Bytes.{Bytes}
use mailio.Base.Result.{ok, ◌>>=◌}
use mailio.Base.Words.{bit_or-shifted, bit_and-63}
use mailio.Imap.Utf7.{decode_two, decode_three, decode_four, decode_utf8, append_utf8, continues}

or_80 : (b : ℕ) → b < 64 → bit_or 0x80 b ≡ 0x80 + b
or_80 b h = bit_or-shifted 6 2 b (omega arith)

or_c0 : (b : ℕ) → b < 32 → bit_or 0xC0 b ≡ 0xC0 + b
or_c0 b h = bit_or-shifted 5 6 b (omega arith)

or_e0 : (b : ℕ) → b < 16 → bit_or 0xE0 b ≡ 0xE0 + b
or_e0 b h = bit_or-shifted 4 14 b (omega arith)

or_f0 : (b : ℕ) → b < 8 → bit_or 0xF0 b ≡ 0xF0 + b
or_f0 b h = bit_or-shifted 3 30 b (omega arith)

tail_continues : (b : ℕ) → b < 64 → continues (0x80 + b) ≡ true
unfolding holds_below
tail_continues b h = holds_below-at 64 (λ b. continues (0x80 + b)) b refl h

tail_bits : (b : ℕ) → b < 64 → bit_and (0x80 + b) 0x3F ≡ b
tail_bits b h = omega (arith, bit_and-63 (0x80 + b))

lead_two : (b : ℕ) → b < 32 → bit_and (0xC0 + b) 0x1F ≡ b
unfolding holds_below
lead_two = eq_below 32 _ _ refl

lead_three : (b : ℕ) → b < 16 → bit_and (0xE0 + b) 0x0F ≡ b
unfolding holds_below
lead_three = eq_below 16 _ _ refl

lead_four : (b : ℕ) → b < 8 → bit_and (0xF0 + b) 0x07 ≡ b
unfolding holds_below
lead_four = eq_below 8 _ _ refl

join_two : (p q : ℕ) → q < 64 → bit_or (p * 2 ^ 6) q ≡ p * 64 + q
join_two p q hq = bit_or-shifted 6 p q hq

regroup : (p q : ℕ) → p * 4096 + q * 64 ≡ (p * 64 + q) * 64
regroup p q = omega arith

join_three :
    (p q r : ℕ)
    → q < 64
    → r < 64
    → bit_or (bit_or (p * 2 ^ 12) (q * 2 ^ 6)) r ≡ p * 4096 + q * 64 + r
join_three p q r hq hr = omega (
  arith,
  ap (λ n. bit_or n r) (bit_or-shifted 12 p (q * 64) (omega arith)),
  ap (λ n. bit_or n r) (regroup p q),
  bit_or-shifted 6 (p * 64 + q) r hr,
)

decode_two-at :
    (p q : ℕ) (rest : Bytes)
    → p < 32
    → q < 64
    → 0x80 ≤ p * 64 + q
    → decode_two (0xC0 + p) ((0x80 + q) ∷ rest) ≡ ok (p * 64 + q, rest)
unfolding decode_two
decode_two-at p q rest hp hq h =
    rw (tail_continues q hq, tail_bits q hq, lead_two p hp, bit_or-shifted 6 p q hq) (ground arith)

decode_three-at :
    (p q r cp : ℕ) (rest : Bytes)
    → p < 16
    → q < 64
    → r < 64
    → p * 4096 + q * 64 + r ≡ cp
    → 0x800 ≤ cp
    → (leb 0xD800 cp && leb cp 0xDFFF) ≡ false
    → decode_three (0xE0 + p) ((0x80 + q) ∷ (0x80 + r) ∷ rest) ≡ ok (cp, rest)
unfolding decode_three
decode_three-at p q r cp rest hp hq hr e h k =
    rw
      (
        tail_continues q hq,
        tail_bits q hq,
        tail_continues r hr,
        tail_bits r hr,
        lead_three p hp,
        join_three p q r hq hr,
        e,
      )
      (ground arith)

inner_four : (p q : ℕ) → q < 64 → bit_or (p * 2 ^ 18) (q * 2 ^ 12) ≡ (p * 64 + q) * 4096
inner_four p q hq = omega (arith, bit_or-shifted 18 p (q * 4096) (omega arith))

join_four :
    (p q r s : ℕ)
    → q < 64
    → r < 64
    → s < 64
    → bit_or (bit_or (bit_or (p * 2 ^ 18) (q * 2 ^ 12)) (r * 2 ^ 6)) s
      ≡ p * 262144 + q * 4096 + r * 64 + s
join_four p q r s hq hr hs =
    rw (inner_four p q hq) (omega (arith, join_three (p * 64 + q) r s hr hs))

decode_four-at :
    (p q r s cp : ℕ) (rest : Bytes)
    → p < 8
    → q < 64
    → r < 64
    → s < 64
    → p * 262144 + q * 4096 + r * 64 + s ≡ cp
    → 0x10000 ≤ cp
    → cp ≤ 0x10FFFF
    → decode_four (0xF0 + p) ((0x80 + q) ∷ (0x80 + r) ∷ (0x80 + s) ∷ rest) ≡ ok (cp, rest)
unfolding decode_four
decode_four-at p q r s cp rest hp hq hr hs e h k =
    rw
      (
        tail_continues q hq,
        tail_bits q hq,
        tail_continues r hr,
        tail_bits r hr,
        tail_continues s hs,
        tail_bits s hs,
        lead_four p hp,
        join_four p q r s hq hr hs,
        e,
      )
      (ground arith)

-- The bytes that `append_utf8` writes, with the bits as numbers.
utf8_two :
    (cp : ℕ)
    → 0x80 ≤ cp
    → cp ≤ 0x7FF
    → append_utf8 cp ≡ ok ((0xC0 + cp / 64) ∷ (0x80 + cp % 64) ∷ [])
unfolding append_utf8
utf8_two cp h k =
    rw (bit_and-63 cp, or_80 (cp % 64) (omega arith), or_c0 (cp / 64) (omega arith)) (ground arith)

utf8_three :
    (cp : ℕ)
    → 0x800 ≤ cp
    → cp ≤ 0xFFFF
    → append_utf8 cp ≡ ok ((0xE0 + cp / 4096) ∷ (0x80 + cp / 64 % 64) ∷ (0x80 + cp % 64) ∷ [])
unfolding append_utf8
utf8_three cp h k =
    rw
      (
        bit_and-63 cp,
        bit_and-63 (cp / 64),
        or_80 (cp % 64) (omega arith),
        or_80 (cp / 64 % 64) (omega arith),
        or_e0 (cp / 4096) (omega arith),
      )
      (ground arith)

utf8_four :
    (cp : ℕ)
    → 0x10000 ≤ cp
    → cp ≤ 0x10FFFF
    → append_utf8 cp
      ≡ ok (
          (0xF0 + cp / 262144)
          ∷ (0x80 + cp / 4096 % 64)
          ∷ (0x80 + cp / 64 % 64)
          ∷ (0x80 + cp % 64)
          ∷ [])
unfolding append_utf8
utf8_four cp h k =
    rw
      (
        bit_and-63 cp,
        bit_and-63 (cp / 64),
        bit_and-63 (cp / 4096),
        or_80 (cp % 64) (omega arith),
        or_80 (cp / 64 % 64) (omega arith),
        or_80 (cp / 4096 % 64) (omega arith),
        or_f0 (cp / 262144) (omega arith),
      )
      (ground arith)

-- The text that a code point's bytes begin is read as that code point and the text behind.
abbrev Reads : ℕ → Bytes → Type 0
Reads cp rest = (append_utf8 cp >>= λ s. decode_utf8 (s ++ rest)) ≡ ok (cp, rest)

Reads-one : (cp : ℕ) (rest : Bytes) → cp ≤ 0x7F → Reads cp rest
unfolding append_utf8 decode_utf8
Reads-one cp rest h = ground arith

Reads-two : (cp : ℕ) (rest : Bytes) → 0x80 ≤ cp → cp ≤ 0x7FF → Reads cp rest
unfolding decode_utf8
Reads-two cp rest h k = rw (utf8_two cp h k) (
    ground
      (arith, decode_two-at (cp / 64) (cp % 64) rest (omega arith) (omega arith) (omega arith)))

Reads-three :
    (cp : ℕ) (rest : Bytes)
    → 0x800 ≤ cp
    → cp ≤ 0xFFFF
    → (leb 0xD800 cp && leb cp 0xDFFF) ≡ false
    → Reads cp rest
unfolding decode_utf8
Reads-three cp rest h k surrogate = rw (utf8_three cp h k) (
    ground (
      arith,
      decode_three-at (cp / 4096) (cp / 64 % 64) (cp % 64) cp rest (omega arith) (omega arith)
          (omega arith) (omega arith) h surrogate,
    ))

Reads-four : (cp : ℕ) (rest : Bytes) → 0x10000 ≤ cp → cp ≤ 0x10FFFF → Reads cp rest
unfolding decode_utf8
Reads-four cp rest h k = rw (utf8_four cp h k) (
    ground (
      arith,
      decode_four-at (cp / 262144) (cp / 4096 % 64) (cp / 64 % 64) (cp % 64) cp rest (omega arith)
          (omega arith) (omega arith) (omega arith) (omega arith) h k,
    ))

leb-cases : (a b : ℕ) → (a ≤ b) ⊎ (suc b ≤ a)
leb-cases a b = elim (Bool-cases (leb a b)) [
  | inl h ↦ inl (leb→le a b h)
  | inr h ↦ inr (ground arith)
]

-- The UTF-8 that `append_utf8` writes for a code point up to 0x10FFFF that is no surrogate is read
-- by `decode_utf8` as that code point, and the text behind it is left, whatever it is.
pub utf8-decode-append :
    (cp : ℕ)
    → cp ≤ 0x10FFFF
    → (leb 0xD800 cp && leb cp 0xDFFF) ≡ false
    → (rest : Bytes) → (append_utf8 cp >>= λ s. decode_utf8 (s ++ rest)) ≡ ok (cp, rest)
utf8-decode-append cp top surrogate rest = elim (leb-cases cp 0x7F) [
  | inl one ↦ Reads-one cp rest one
  | inr above ↦ elim (leb-cases cp 0x7FF) [
    | inl two ↦ Reads-two cp rest above two
    | inr above ↦ elim (leb-cases cp 0xFFFF) [
      | inl three ↦ Reads-three cp rest above three surrogate
      | inr above ↦ Reads-four cp rest above top
    ]
  ]
]
