-- ===== src/Codec/Percent/RoundTrip.antt =====
-- codec/percent.hpp: the lines of the encoder against the decoder.
use mathlib.Core.List.{append-nil, append_assoc}
use mailio.Base.{
  ℕ, ◌/◌, ◌%◌, ◌<◌, ◌≡◌, refl, sym, ap, ◌∙◌, Bool, true, false, ◌&&◌, List, [], ◌∷◌, ◌++◌, arith,
  inl, inr, ◌==◌, ==_iff, Bool-cases,
}
use mailio.Base.Bits.{holds_below, holds_below-at}
use mailio.Base.Bytes.{Bytes, get_or, All, IsByte}
use mailio.Base.Result.{ok}
use mailio.Codec.{Codec}
use mailio.Codec.Text.{is_alnum, is_xdigit, to_upper, hex_digits, hex_digit_to_int}
use mailio.Codec.Percent.{
  Encoder, encode_char, encode_step, encode_loop, prefix, start, encode, hex_byte, decode, prepend,
}

abbrev pub concat : List Bytes → Bytes
concat [] = []
concat (x ∷ xs) = x ++ concat xs

abbrev pub encoded : Bytes → Bytes
encoded [] = []
encoded (ch ∷ txt) = encode_char ch ++ encoded txt

concat-append : (xs : List Bytes) (y : Bytes) → concat (xs ++ y ∷ []) ≡ concat xs ++ y
concat-append [] y = append-nil y
concat-append (x ∷ xs) y =
    ap (λ t. x ++ t) (concat-append xs y) ∙ sym (append_assoc x (concat xs) y)

-- All that is written so far, in order.
abbrev written : Encoder → Bytes
written e = concat e.enc_text ++ e.enc_line

written-step :
    (c : Codec) (e : Encoder) (ch : ℕ) → written (encode_step c e ch) ≡ written e ++ encode_char ch
unfolding encode_step
written-step c e ch = ground (
  arith,
  concat-append e.enc_text (e.enc_line ++ encode_char ch),
  append-nil (concat (e.enc_text ++ (e.enc_line ++ encode_char ch) ∷ [])),
  append_assoc (concat e.enc_text) e.enc_line (encode_char ch),
)

written-loop :
    (c : Codec) (e : Encoder) (txt : Bytes)
    → written (encode_loop c e txt) ≡ written e ++ encoded txt
unfolding encode_loop
written-loop c e [] = sym (append-nil (written e))
written-loop c e (ch ∷ txt) =
    written-loop c (encode_step c e ch) txt
    ∙ ap (λ t. t ++ encoded txt) (written-step c e ch)
    ∙ append_assoc (written e) (encode_char ch) (encoded txt)

abbrev hex_ok : ℕ → Bool
hex_ok b =
    let h = get_or hex_digits (b / 16) 0 in
    let l = get_or hex_digits (b % 16) 0 in (is_xdigit h && is_xdigit l) && hex_byte h l == b

hex_table : (b : ℕ) → b < 256 → hex_ok b ≡ true
unfolding holds_below hex_byte hex_digit_to_int is_xdigit to_upper
hex_table b = holds_below-at 256 hex_ok b refl

decode-plain :
    (ch : ℕ) (rest : Bytes) → (ch == b'%') ≡ false → decode (ch ∷ rest) ≡ prepend ch (decode rest)
unfolding decode
decode-plain ch [] h = rw h
decode-plain ch (a ∷ []) h = rw h
decode-plain ch (a ∷ b ∷ r) h = rw h

decode-escaped :
    (h l : ℕ) (rest : Bytes)
    → (is_xdigit h && is_xdigit l) ≡ true
    → decode (b'%' ∷ h ∷ l ∷ rest) ≡ prepend (hex_byte h l) (decode rest)
unfolding decode
decode-escaped h l rest e = ground arith

and_left : (a b : Bool) → (a && b) ≡ true → a ≡ true
and_left a b h = ground arith

and_right : (a b : Bool) → (a && b) ≡ true → b ≡ true
and_right a b h = ground arith

alnum_ne_percent : (b : ℕ) → is_alnum b ≡ true → (b == b'%') ≡ false
unfolding is_alnum
alnum_ne_percent b h = ground arith

decode-encode_char :
    (b : ℕ) (rest : Bytes) → b < 256 → decode (encode_char b ++ rest) ≡ prepend b (decode rest)
unfolding encode_char
decode-encode_char b rest lt = elim (Bool-cases (is_alnum b)) [
  | inl plain ↦ rw plain (decode-plain b rest (alnum_ne_percent b plain))
  | inr other ↦
      let digits = hex_table b lt in
      rw other (
        decode-escaped _ _ rest (and_left _ _ digits)
        ∙ ap (λ x. prepend x (decode rest)) ((==_iff _ _).0 (and_right _ _ digits)))
]

decode-encoded : (txt : Bytes) → All IsByte txt → decode (encoded txt) ≡ ok txt
unfolding decode
decode-encoded [] h = refl
decode-encoded (ch ∷ txt) h = decode-encode_char ch (encoded txt) h.0 ∙ rw (decode-encoded txt h.1)

-- For any bytes, charset and line policies, the encoded lines joined are the prefix and a body, and
-- decoding the body gives the bytes back.
pub decode-encode_body :
    (to_upper_copy : Bytes → Bytes) (c : Codec) (txt charset : Bytes)
    → All IsByte txt
    → (body : Bytes) × (concat (encode to_upper_copy c txt charset)
        ≡ prefix to_upper_copy charset ++ body)
      × (decode body ≡ ok txt)
unfolding encode start
decode-encode_body up c txt charset h =
    let e = encode_loop c (start up c charset) txt in
    (
      encoded txt,
      concat-append e.enc_text e.enc_line ∙ written-loop c (start up c charset) txt,
      decode-encoded txt h,
    )
