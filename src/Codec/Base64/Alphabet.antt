-- ===== src/Codec/Base64/Alphabet.antt =====
-- codec/base64.hpp: the encoder writes letters, digits, `+`, `/` and `=`, so no line ends.
use mailio.Base.{
  ℕ, zero, suc, ◌<◌, refl, Bool, true, false, not, List, [], ◌∷◌, ◌++◌, arith, ltb, leb, ◌==◌,
  if◌then◌else◌,
}
use mailio.Base.Bits.{holds_below, holds_below-at}
use mailio.Base.Bytes.{
  Bytes, All, All-append, IsByte, length, take, get_or, replicate, is_empty, sub_size,
}
use mailio.Wire.{contains_crlf_or_nul}
use mailio.Wire.Clean.{IsClean, IsClean-append}
use mailio.Codec.{Codec}
use mailio.Codec.Base64.{
  Encoder, add_new_line, take_octet, encode_char, encode_chars, emit, emit_all, encode_remaining,
  start, close, encode, digit, quantum, octets_no,
}
use mailio.Codec.Base64.Sextets.{sextets_lem}

-- `digit` is in the alphabet.
digit-IsClean : (s : ℕ) → s < 64 → IsClean (digit s ∷ [])
unfolding holds_below digit contains_crlf_or_nul
digit-IsClean s h =
    ground (arith, holds_below-at 64 (λ s. not (contains_crlf_or_nul (digit s ∷ []))) s refl h)

-- What the encoder holds so far.
pub record IsCleanEncoder (e : Encoder) : Type 0 where
  pub text : All IsClean e.enc_text
  pub line_ : IsClean e.line
  pub bytes : All IsByte e.octets

get_or-IsByte : (octets : Bytes) (i : ℕ) → All IsByte octets → get_or octets i 0 < 256
get_or-IsByte [] i h = omega arith
get_or-IsByte (o ∷ octets) zero h = h.0
get_or-IsByte (o ∷ octets) (suc i) h = get_or-IsByte octets i (h.1)

four-IsClean :
    (s t u v : ℕ)
    → s < 64
    → t < 64
    → u < 64
    → v < 64
    → IsClean (digit s ∷ digit t ∷ digit u ∷ digit v ∷ [])
four-IsClean s t u v hs ht hu hv =
    IsClean-append (digit s ∷ []) (digit t ∷ digit u ∷ digit v ∷ []) (digit-IsClean s hs) (
      IsClean-append (digit t ∷ []) (digit u ∷ digit v ∷ []) (digit-IsClean t ht)
        (IsClean-append (digit u ∷ []) (digit v ∷ []) (digit-IsClean u hu) (digit-IsClean v hv)))

quantum-IsClean : (octets : Bytes) → All IsByte octets → IsClean (quantum octets)
unfolding quantum
quantum-IsClean octets h =
    let a = get_or-IsByte octets 0 h in
    let b = get_or-IsByte octets 1 h in
    let c = get_or-IsByte octets 2 h in
    rw (sextets_lem (get_or octets 0 0) (get_or octets 1 0) (get_or octets 2 0) a b c) (
      four-IsClean _ _ _ _ (ground (arith, a)) (ground (arith, a, b)) (ground (arith, b, c))
        (ground (arith, c)))

add_new_line-IsClean :
    (c : Codec) (e : Encoder) → IsCleanEncoder e → IsCleanEncoder (add_new_line c e)
unfolding add_new_line
add_new_line-IsClean c e h = record {
  text = All-append IsClean e.enc_text (e.line ∷ []) h.text (h.line_, tt);
  line_ = unfold contains_crlf_or_nul in refl;
  bytes = h.bytes;
}

if-IsClean :
    (b : Bool) (x y : Encoder)
    → IsCleanEncoder x
    → IsCleanEncoder y
    → IsCleanEncoder (if b then x else y)
if-IsClean true x y h k = h
if-IsClean false x y h k = k

take_octet-IsClean :
    (e : Encoder) (ch : ℕ) → IsCleanEncoder e → IsByte ch → IsCleanEncoder (take_octet e ch)
unfolding take_octet
take_octet-IsClean e ch h byte =
    let octets = All-append IsByte e.octets (ch ∷ []) h.bytes (byte, tt) in
    if-IsClean (length (e.octets ++ ch ∷ []) == octets_no) _ _
      (record {
        text = h.text;
        line_ = IsClean-append e.line _ h.line_ (quantum-IsClean (e.octets ++ ch ∷ []) octets);
        bytes = tt;
      })
      (record { text = h.text; line_ = h.line_; bytes = octets })

encode_chars-IsClean :
    (c : Codec) (e : Encoder) (text : Bytes)
    → IsCleanEncoder e
    → All IsByte text
    → IsCleanEncoder (encode_chars c e text)
unfolding encode_chars encode_char
encode_chars-IsClean c e [] h bytes = h
encode_chars-IsClean c e (ch ∷ text) h bytes =
    let next = take_octet-IsClean e ch h (bytes.0) in
    encode_chars-IsClean c (encode_char c e ch) text
      (if-IsClean (leb (take_octet e ch).policy (take_octet e ch).line_len) _ _
        (add_new_line-IsClean c (take_octet e ch) next) next)
      (bytes.1)

emit_all-IsClean :
    (c : Codec) (e : Encoder) (rest : Bytes)
    → IsCleanEncoder e
    → IsClean rest
    → IsCleanEncoder (emit_all c e rest)
unfolding emit_all emit contains_crlf_or_nul
emit_all-IsClean c e [] h clean = h
emit_all-IsClean c e (ch ∷ rest) h clean =
    let at = if-IsClean (leb e.policy e.line_len) _ _ (add_new_line-IsClean c e h) h in
    emit_all-IsClean c (emit c e ch) rest
      (record {
        text = at.text;
        line_ =
            IsClean-append (if leb e.policy e.line_len then add_new_line c e else e).line (ch ∷ [])
              at.line_ (ground arith);
        bytes = at.bytes;
      })
      (ground arith)

IsClean-take : (n : ℕ) (s : Bytes) → IsClean s → IsClean (take n s)
unfolding contains_crlf_or_nul
IsClean-take zero s h = refl
IsClean-take (suc n) [] h = h
IsClean-take (suc n) (c ∷ s) h = ground (arith, IsClean-take n s)

padding-IsClean : (n : ℕ) → IsClean (replicate n b'=')
unfolding contains_crlf_or_nul
padding-IsClean zero = refl
padding-IsClean (suc n) = padding-IsClean n

encode_remaining-IsClean :
    (c : Codec) (e : Encoder) → IsCleanEncoder e → IsCleanEncoder (encode_remaining c e)
unfolding encode_remaining
encode_remaining-IsClean c e h =
    let at =
      if-IsClean (leb (sub_size e.policy octets_no) e.line_len) _ _ (add_new_line-IsClean c e h)
        h in
    if-IsClean (ltb 0 (length e.octets)) _ _
      (emit_all-IsClean c _ _
        (emit_all-IsClean c _ _ at (IsClean-take _ _ (quantum-IsClean e.octets h.bytes)))
        (padding-IsClean _))
      h

close-IsClean :
    (b : Bool) (text : List Bytes) (line : Bytes)
    → All IsClean text
    → IsClean line
    → All IsClean (if b then (text ++ line ∷ []) else text)
close-IsClean true text line h k = All-append IsClean text (line ∷ []) h (k, tt)
close-IsClean false text line h k = h

start-IsClean : (c : Codec) → IsCleanEncoder (start c)
unfolding start contains_crlf_or_nul
start-IsClean c = record { text = tt; line_ = refl; bytes = tt }

-- No line of the encoded text holds CR, LF or NUL.
pub encode-IsClean : (c : Codec) (text : Bytes) → All IsByte text → All IsClean (encode c text)
unfolding encode close
encode-IsClean c text bytes =
    let done =
      encode_remaining-IsClean c (encode_chars c (start c) text)
        (encode_chars-IsClean c (start c) text (start-IsClean c) bytes) in
    close-IsClean (not (is_empty (encode_remaining c (encode_chars c (start c) text)).line)) _ _
      done.text done.line_
