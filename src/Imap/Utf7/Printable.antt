-- ===== src/Imap/Utf7/Printable.antt =====
-- imap/utf7.hpp: names in printable ASCII.
use Prim.Native.Nat.{bit_and}
use mathlib.Core.List.{append_assoc}
use mailio.Base.{ℕ, zero, suc, ◌≤◌, ◌<◌, ◌≡◌, ◌≢◌, refl, ap, ◌∙◌, true, [], ◌∷◌, ◌++◌, arith, ◌==◌}
use mailio.Base.Bits.{holds_below, holds_below-at}
use mailio.Base.Bytes.{Bytes, length, All}
use mailio.Base.Result.{ok}
use mailio.Imap.Utf7.{
  encode_modified_utf7, encode_loop, encode_codepoint, flush_utf16, decode_utf8,
  decode_modified_utf7, decode_loop, prepend,
}

-- A printable ASCII character other than `&`.
abbrev pub IsPlain : ℕ → Type 0
IsPlain c = (0x20 ≤ c) × (c ≤ 0x7E) × (c ≢ b'&')

append_nil : (s : Bytes) → s ++ [] ≡ s
append_nil [] = refl
append_nil (c ∷ s) = ap (λ t. c ∷ t) (append_nil s)

decode_utf8-plain : (c : ℕ) (s : Bytes) → IsPlain c → decode_utf8 (c ∷ s) ≡ ok (c, s)
unfolding decode_utf8
decode_utf8-plain c s h = ground arith

encode_codepoint-plain :
    (c : ℕ) (out : Bytes) → IsPlain c → encode_codepoint c (out, []) ≡ ok (out ++ c ∷ [], [])
unfolding encode_codepoint flush_utf16
encode_codepoint-plain c out h = rw (append_nil out) (ground arith)

encode_loop-plain :
    (fuel : ℕ) (s out : Bytes)
    → All IsPlain s
    → length s ≤ fuel
    → encode_loop fuel s (out, []) ≡ ok (out ++ s)
unfolding encode_loop flush_utf16
encode_loop-plain fuel [] out h k = refl
encode_loop-plain zero (c ∷ s) out h k = absurd (omega arith)
encode_loop-plain (suc fuel) (c ∷ s) out (hc, h) k =
    rw (decode_utf8-plain c s hc, encode_codepoint-plain c out hc)
      (encode_loop-plain fuel s (out ++ c ∷ []) h (omega arith)
        ∙ ap ok (append_assoc out (c ∷ []) s))

high_bit : (c : ℕ) → c < 128 → (bit_and c 0x80 == 0) ≡ true
unfolding holds_below
high_bit c h = holds_below-at 128 (λ c. bit_and c 0x80 == 0) c refl h

decode_loop-plain :
    (fuel : ℕ) (s : Bytes) → All IsPlain s → length s ≤ fuel → decode_loop fuel s ≡ ok s
unfolding decode_loop prepend
decode_loop-plain fuel [] h k = refl
decode_loop-plain zero (c ∷ s) h k = absurd (omega arith)
decode_loop-plain (suc fuel) (c ∷ s) (hc, h) k =
    rw (high_bit c (omega arith), decode_loop-plain fuel s h (omega arith)) (ground arith)

-- A name in printable ASCII without `&` is its own encoding, and is decoded to itself.
pub modified_utf7-plain :
    (name : Bytes)
    → All IsPlain name
    → (encode_modified_utf7 name ≡ ok name) × (decode_modified_utf7 name ≡ ok name)
unfolding encode_modified_utf7 decode_modified_utf7
modified_utf7-plain name h = (
  encode_loop-plain (length name) name [] h (omega arith),
  decode_loop-plain (length name) name h (omega arith),
)
