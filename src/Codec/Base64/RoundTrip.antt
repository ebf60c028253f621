-- ===== src/Codec/Base64/RoundTrip.antt =====
-- codec/base64.hpp: the last characters of an encoding, and whole texts.
use mathlib.Core.List.{append-nil, append_assoc}
use mailio.Base.{
  ℕ, suc, ◌+◌, ◌-◌, ◌≤◌, ◌<◌, ◌≡◌, refl, sym, ap, subst, ◌∙◌, false, List, [], ◌∷◌, ◌++◌, arith,
  leb, lt→ltb,
}
use mailio.Base.Bytes.{
  Bytes, length, length-append, take, replicate, All, IsByte, is_empty, sub_size,
}
use mailio.Base.Result.{Result, ok, err, ◌>>=◌}
use mailio.Codec.{Codec, CodecError}
use mailio.Codec.Base64.{
  Encoder, emit, emit_all, sextets, quantum, encode_chars, encode_remaining, start, close, encode,
  make, Decoder, decode_chars, decode_line, decode_lines, decode_remaining, decode,
}
use mailio.Codec.Base64.Sextets.{line_text, line_text-one, line_text-two}
use mailio.Codec.Base64.Encoding.{
  IsRounded, IsOpen, fresh, decode_lines-append, lines_with_current, encode_chars-IsOpen,
}

emit-room :
    (c : Codec) (e : Encoder) (ch : ℕ)
    → e.line_len < e.policy
    → emit c e ch ≡ record e { line = e.line ++ ch ∷ []; line_len = e.line_len + 1 }
unfolding emit
emit-room c e ch h = ground arith

-- Where the line has room for all of them, the characters are appended to it.
emit_all-room :
    (c : Codec) (cs : Bytes) (e : Encoder)
    → e.line_len + length cs ≤ e.policy
    → emit_all c e cs ≡ record e { line = e.line ++ cs; line_len = e.line_len + length cs }
unfolding emit_all
emit_all-room c [] e h =
    let same : e.line_len ≡ e.line_len + 0 = omega arith in
    λ i. record e { line = sym (append-nil e.line) i; line_len = same i }
emit_all-room c (ch ∷ cs) e h =
    let next = record e { line = e.line ++ ch ∷ []; line_len = e.line_len + 1 } in
    let sum : e.line_len + 1 + length cs ≡ e.line_len + suc (length cs) = omega arith in
    ap (λ x. emit_all c x cs) (emit-room c e ch (omega arith))
    ∙ emit_all-room c cs next (omega arith)
    ∙ (λ i. record e { line = append_assoc e.line (ch ∷ []) cs i; line_len = sum i })

emit_all-append :
    (c : Codec) (xs ys : Bytes) (e : Encoder)
    → emit_all c (emit_all c e xs) ys ≡ emit_all c e (xs ++ ys)
unfolding emit_all
emit_all-append c [] ys e = refl
emit_all-append c (x ∷ xs) ys e = emit_all-append c xs ys (emit c e x)

-- What is written for the octets left over.
abbrev tail_of : Bytes → Bytes
tail_of o = take (length o + 1) (quantum o) ++ replicate (3 - length o) b'='

-- The guard on the room left never moves a group to the next line, since lengths and policies
-- are multiples of four.
encode_remaining_lem :
    (c : Codec) (e : Encoder)
    → 0 < length e.octets
    → length (tail_of e.octets) ≡ 4
    → 4 ≤ e.policy
    → e.line_len + 4 ≤ e.policy
    → encode_remaining c e ≡ record e {
      line = e.line ++ tail_of e.octets;
      line_len = e.line_len + length (tail_of e.octets);
    }
unfolding encode_remaining
encode_remaining_lem c e pos four wide room =
    let guard : leb (sub_size e.policy 3) e.line_len ≡ false = ground arith in
    rw (lt→ltb 0 (length e.octets) pos, guard)
      (emit_all-append c (take (length e.octets + 1) (quantum e.octets))
          (replicate (3 - length e.octets) b'=') e
        ∙ emit_all-room c (tail_of e.octets) e (omega arith))

last_line :
    (c : Codec) (out line : Bytes)
    → length line ≤ c.lines_policy
    → (decode_lines c (fresh out) (line ∷ []) >>= λ d. ok d.dec_text) ≡ line_text out line
unfolding decode_lines decode_line
last_line c out line h = ground arith

decode-append :
    (c : Codec) (lines : List Bytes) (line out : Bytes)
    → decode_lines c (fresh []) lines ≡ ok (fresh out)
    → length line ≤ c.lines_policy
    → decode c (lines ++ line ∷ []) ≡ line_text out line
unfolding decode
decode-append c lines line out e h =
    rw (decode_lines-append c (fresh []) lines (line ∷ []), e) (last_line c out line h)

four_of_one : (a : ℕ) → length (tail_of (a ∷ [])) ≡ 4
unfolding quantum sextets
four_of_one a = refl

four_of_two : (a b : ℕ) → length (tail_of (a ∷ b ∷ [])) ≡ 4
unfolding quantum sextets
four_of_two a b = refl

not_empty : (s : Bytes) → 0 < length s → is_empty s ≡ false
not_empty [] h = absurd (omega arith)
not_empty (x ∷ s) h = refl

text_or_nil : Result CodecError Decoder → Bytes
text_or_nil (ok d) = d.dec_text
text_or_nil (err _) = []

module _ {c : Codec} (r : IsRounded c) {e : Encoder} {text : Bytes} (v : IsOpen c e text) where
  decode_full : e.octets ≡ [] → decode c (e.enc_text ++ e.line ∷ []) ≡ ok text
  unfolding decode
  decode_full q =
      rw (lines_with_current r v.encoded) (ap ok (sym (v.encoded.splits ∙ rw q (rw append-nil))))

  no_current : e.line ≡ [] → v.encoded.current ≡ []
  unfolding text_or_nil decode_chars
  no_current p =
      let same : decode_chars (fresh []) ([] ++ [])
          ≡ decode_chars (fresh ([] ++ v.encoded.current)) [] =
        subst
          (λ l.
            decode_chars (fresh []) (l ++ []) ≡ decode_chars (fresh ([] ++ v.encoded.current)) [])
          p (v.encoded.chars [] []) in
      sym (ap text_or_nil same)

  -- No octet is left over.
  close_even : e.octets ≡ [] → (l : Bytes) → e.line ≡ l → decode c (close e) ≡ ok text
  unfolding close decode
  close_even q [] p =
      rw (p, close)
        (rw v.encoded.lines (ap ok (sym (v.encoded.splits ∙ rw (q, no_current p) (rw append-nil)))))
  close_even q (x ∷ l) p =
      rw (p, close) (subst (λ s. decode c (e.enc_text ++ s ∷ []) ≡ ok text) p (decode_full q))

  -- Some are, and their characters are decoded to them.
  close_tail :
      (o : Bytes)
      → e.octets ≡ o
      → 0 < length o
      → length (tail_of o) ≡ 4
      → ((out : Bytes) → line_text out (tail_of o) ≡ ok (out ++ o))
      → decode c (close (encode_remaining c e)) ≡ ok text
  unfolding close
  close_tail o q pos four decodes =
      let longer = length-append e.line (tail_of o) in
      let fits : e.line_len + 4 ≤ e.policy =
        omega (arith, v.shorter, v.encoded.fours, v.encoded.policy_fours) in
      let written = encode_remaining_lem c e (rw q pos) (rw q four) (omega arith) fits in
      rw written (
        rw q (
          rw (not_empty (e.line ++ tail_of o) (omega (arith, longer))) (
            decode-append c e.enc_text (e.line ++ tail_of o) v.encoded.whole v.encoded.lines
              (omega (arith, longer, v.encoded.len, v.encoded.bound))
            ∙ ap (λ m. m >>= λ d. ok (decode_remaining d).dec_text)
                (v.encoded.chars v.encoded.whole (tail_of o))
            ∙ decodes (v.encoded.whole ++ v.encoded.current)
            ∙ ap ok (
                append_assoc v.encoded.whole v.encoded.current o ∙ sym (v.encoded.splits ∙ rw q)))))

  decode-close : (o : Bytes) → e.octets ≡ o → decode c (close (encode_remaining c e)) ≡ ok text
  unfolding encode_remaining close
  decode-close [] q = rw (q, encode_remaining) (close_even q e.line refl)
  decode-close (a ∷ []) q =
      let known = subst (All IsByte) q v.encoded.bytes in
      close_tail (a ∷ []) q (omega arith) (four_of_one a) (λ out. line_text-one a out known.0)
  decode-close (a ∷ b ∷ []) q =
      let known = subst (All IsByte) q v.encoded.bytes in
      close_tail (a ∷ b ∷ []) q (omega arith) (four_of_two a b)
        (λ out. line_text-two a b out known.0 known.1.0)
  decode-close (a ∷ b ∷ x ∷ o) q = absurd (omega (arith, v.encoded.few, ap length q))

start-IsOpen : (c : Codec) → IsRounded c → IsOpen c (start c) []
unfolding start decode_lines
start-IsOpen c r = record {
  encoded = record {
    whole = [];
    current = [];
    splits = refl;
    lines = refl;
    chars = λ out rest. rw append-nil;
    few = omega arith;
    bytes = tt;
    len = refl;
    fours = refl;
    policy_fours = r.first_fours;
    policy_pos = r.first_pos;
    room = omega arith;
    bound = r.first_le;
  };
  shorter = r.first_pos;
}

make-IsRounded : (m n : ℕ) → 4 ≤ m → m ≤ n → IsRounded (make m n)
unfolding make
make-IsRounded m n h k = omega arith

-- With line policies of at least four characters, the first no longer than the other, decoding
-- what was encoded from any bytes gives them back, without an exception.
pub decode-encode :
    (m n : ℕ) (text : Bytes)
    → 4 ≤ m
    → m ≤ n
    → All IsByte text
    → decode (make m n) (encode (make m n) text) ≡ ok text
unfolding encode
decode-encode m n text h k bytes =
    let r = make-IsRounded m n h k in
    let c = make m n in
    let run = encode_chars-IsOpen r (start c) [] text bytes (start-IsOpen c r) in
    decode-close r run (encode_chars c (start c) text).octets refl
