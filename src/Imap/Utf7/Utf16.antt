-- ===== src/Imap/Utf7/Utf16.antt =====
-- imap/utf7.hpp: the UTF-16 of a shifted part against `decode_units`.
use Prim.Native.Nat.{bit_and, bit_or}
use mailio.Base.{
  ℕ, ◌+◌, ◌-◌, ◌*◌, ◌/◌, ◌%◌, ◌^◌, ◌≤◌, ◌<◌, ◌≡◌, ◌≢◌, refl, ap, ◌∙◌, sym, true, false, ◌&&◌, ◌||◌,
  List, [], ◌∷◌, ◌++◌, arith, ltb, leb, Bool-cases, inl, inr,
}
use mailio.Base.Bytes.{Bytes, All, uchar}
use mailio.Base.Result.{Result, ok, err, ◌>>=◌}
use mailio.Base.Words.{bit_or-shifted, bit_and-255, bit_and-1023}
use mailio.Imap.Utf7.{Utf7Error, bytes_of, decode_units, append_utf8, utf16_units}

joined : (u : ℕ) → u < 65536 → bit_or (uchar (u / 2 ^ 8) * 2 ^ 8) (bit_and u 0xFF) ≡ u
joined u h = omega (
  arith,
  bit_and-255 u,
  ap (bit_or (uchar (u / 2 ^ 8) * 2 ^ 8)) (bit_and-255 u),
  bit_or-shifted 8 (u / 256 % 256) (u % 256) (omega arith),
)

append_nil : (s : Bytes) → s ++ [] ≡ s
append_nil [] = refl
append_nil (c ∷ s) = ap (λ t. c ∷ t) (append_nil s)

nothing_behind : (s t : Bytes) → [] ≡ t → Path (Result Utf7Error Bytes) (ok s) (ok (s ++ t))
nothing_behind s t h = ap ok (sym (append_nil s) ∙ ap (λ x. s ++ x) h)

not_high : (u : ℕ) → (leb 0xD800 u && leb u 0xDFFF) ≡ false → (leb 0xD800 u && leb u 0xDBFF) ≡ false
not_high u k = ground arith

not_low : (u : ℕ) → (leb 0xD800 u && leb u 0xDFFF) ≡ false → (leb 0xDC00 u && leb u 0xDFFF) ≡ false
not_low u k = ground arith

decode_single :
    (u : ℕ) (rest s t : Bytes)
    → u < 65536
    → (leb 0xD800 u && leb u 0xDFFF) ≡ false
    → append_utf8 u ≡ ok s
    → decode_units rest ≡ ok t
    → decode_units (uchar (u / 2 ^ 8) ∷ bit_and u 0xFF ∷ rest) ≡ ok (s ++ t)
unfolding decode_units
decode_single u [] s t h k e d = rw (joined u h, k, e) (nothing_behind s t (cc))
decode_single u (x ∷ []) s t h k e d = absurd (cc)
decode_single u (x ∷ y ∷ rest) s t h k e d = rw (joined u h, not_high u k, not_low u k, e, d)

high_back : (n : ℕ) → 0xD800 + n - 0xD800 ≡ n
high_back n = omega arith

low_back : (n : ℕ) → 0xDC00 + n - 0xDC00 ≡ n
low_back n = omega arith

is_high :
    (v : ℕ)
    → v < 2 ^ 20
    → (leb 0xD800 (0xD800 + v / 2 ^ 10) && leb (0xD800 + v / 2 ^ 10) 0xDBFF) ≡ true
is_high v h = ground arith

is_low : (v : ℕ) → (ltb (0xDC00 + v % 1024) 0xDC00 || ltb 0xDFFF (0xDC00 + v % 1024)) ≡ false
is_low v = ground arith

pair_joined :
    (v : ℕ)
    → v < 2 ^ 20
    → bit_or ((0xD800 + v / 2 ^ 10 - 0xD800) * 2 ^ 10) (0xDC00 + v % 1024 - 0xDC00) ≡ v
pair_joined v h =
    rw
      (
        high_back (v / 2 ^ 10),
        low_back (v % 1024),
        bit_or-shifted 10 (v / 2 ^ 10) (v % 1024) (omega arith),
      )
      (omega arith)

-- The pair of surrogates of a code point above 0xFFFF, with `v` what it has above 0x10000.
decode_pair :
    (v : ℕ) (rest s t : Bytes)
    → v < 2 ^ 20
    → append_utf8 (0x10000 + v) ≡ ok s
    → decode_units rest ≡ ok t
    → decode_units (bytes_of ((0xD800 + v / 2 ^ 10) ∷ (0xDC00 + bit_and v 0x3FF) ∷ []) ++ rest)
      ≡ ok (s ++ t)
unfolding decode_units bytes_of
decode_pair v rest s t h e d = rw (
  bit_and-1023 v,
  joined (0xD800 + v / 2 ^ 10) (omega arith),
  joined (0xDC00 + v % 1024) (omega arith),
  pair_joined v h,
  e,
  d,
  is_high v h,
  is_low v,
)

-- The UTF-16 units of code points, and their UTF-8, in their order.
pub units_of : List ℕ → Result Utf7Error (List ℕ)
units_of [] = ok []
units_of (cp ∷ cps) = utf16_units cp >>= λ unit. units_of cps >>= λ units. ok (unit ++ units)

pub utf8_of : List ℕ → Result Utf7Error Bytes
utf8_of [] = ok []
utf8_of (cp ∷ cps) = append_utf8 cp >>= λ s. utf8_of cps >>= λ t. ok (s ++ t)

-- A code point that has an encoding: no surrogate, and at most 0x10FFFF.
abbrev pub IsScalar : ℕ → Type 0
IsScalar cp = (cp ≤ 0x10FFFF) × ((leb 0xD800 cp && leb cp 0xDFFF) ≡ false)

-- What both sides come to.
record Written (cps : List ℕ) : Type 0 where
  pub units : List ℕ
  pub text : Bytes
  pub to_utf16 : units_of cps ≡ ok units
  pub to_utf8 : utf8_of cps ≡ ok text
  pub decodes : decode_units (bytes_of units) ≡ ok text

append_utf8-err : (cp : ℕ) (e : Utf7Error) → cp ≤ 0x10FFFF → append_utf8 cp ≢ err e
unfolding append_utf8
append_utf8-err cp e h eq = ground arith

returned : (r : Result Utf7Error Bytes) → ((e : Utf7Error) → r ≢ err e) → (s : Bytes) × (r ≡ ok s)
returned (ok s) h = (s, refl)
returned (err e) h = absurd (h e refl)

append_utf8_total : (cp : ℕ) → cp ≤ 0x10FFFF → (s : Bytes) × (append_utf8 cp ≡ ok s)
append_utf8_total cp h = returned (append_utf8 cp) (λ e. append_utf8-err cp e h)

utf16_units-single :
    (cp : ℕ)
    → leb cp 0xFFFF ≡ true
    → (leb 0xD800 cp && leb cp 0xDFFF) ≡ false
    → utf16_units cp ≡ ok (cp ∷ [])
unfolding utf16_units
utf16_units-single cp h k = rw (h, k)

utf16_units-pair :
    (cp : ℕ)
    → leb cp 0xFFFF ≡ false
    → cp ≤ 0x10FFFF
    → utf16_units cp
      ≡ ok ((0xD800 + (cp - 0x10000) / 2 ^ 10) ∷ (0xDC00 + bit_and (cp - 0x10000) 0x3FF) ∷ [])
unfolding utf16_units
utf16_units-pair cp h k = ground arith

above : (cp : ℕ) → leb cp 0xFFFF ≡ false → 0x10000 + (cp - 0x10000) ≡ cp
above cp h = ground arith

offset_small : (cp : ℕ) → cp ≤ 0x10FFFF → cp - 0x10000 < 2 ^ 20
offset_small cp h = omega arith

Written-nil : Written []
unfolding units_of utf8_of bytes_of decode_units
Written-nil = record { units = []; text = []; to_utf16 = refl; to_utf8 = refl; decodes = refl }

Written-single :
    (cp : ℕ) (cps : List ℕ) → leb cp 0xFFFF ≡ true → IsScalar cp → Written cps → Written (cp ∷ cps)
unfolding units_of utf8_of bytes_of
Written-single cp cps small (top, k) w =
    let (s, e) = append_utf8_total cp top in
    record {
      units = cp ∷ w.units;
      text = s ++ w.text;
      to_utf16 = rw (utf16_units-single cp small k, w.to_utf16);
      to_utf8 = rw (e, w.to_utf8);
      decodes = decode_single cp (bytes_of w.units) s w.text (below small) k e w.decodes;
    }
  where
    below : leb cp 0xFFFF ≡ true → cp < 65536
    below h = ground arith

Written-pair :
    (cp : ℕ) (cps : List ℕ) → leb cp 0xFFFF ≡ false → IsScalar cp → Written cps → Written (cp ∷ cps)
unfolding units_of utf8_of bytes_of
Written-pair cp cps large (top, k) w =
    let (s, e) = append_utf8_total cp top in
    record {
      units =
          (0xD800 + (cp - 0x10000) / 2 ^ 10) ∷ (0xDC00 + bit_and (cp - 0x10000) 0x3FF) ∷ w.units;
      text = s ++ w.text;
      to_utf16 = rw (utf16_units-pair cp large top, w.to_utf16);
      to_utf8 = rw (e, w.to_utf8);
      decodes =
          decode_pair (cp - 0x10000) (bytes_of w.units) s w.text (offset_small cp top)
            (ap append_utf8 (above cp large) ∙ e) w.decodes;
    }

All-Written : (cps : List ℕ) → All IsScalar cps → Written cps
All-Written [] h = Written-nil
All-Written (cp ∷ cps) (scalar, h) = elim (Bool-cases (leb cp 0xFFFF)) [
  | inl small ↦ Written-single cp cps small scalar (All-Written cps h)
  | inr large ↦ Written-pair cp cps large scalar (All-Written cps h)
]

-- For any code points up to 0x10FFFF that are no surrogates, the decoder of a shifted part turns
-- the bytes of their UTF-16, surrogate pairs included, into their UTF-8.
pub decode_units-utf16 :
    (cps : List ℕ)
    → All IsScalar cps
    → (units_of cps >>= λ units. decode_units (bytes_of units)) ≡ utf8_of cps
decode_units-utf16 cps h = let w = All-Written cps h in rw (w.to_utf16) (w.decodes ∙ sym w.to_utf8)
