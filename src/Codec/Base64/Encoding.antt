-- ===== src/Codec/Base64/Encoding.antt =====
-- codec/base64.hpp: the state of the encoder against what the decoder reads.
use mathlib.Core.List.{append-nil, append_assoc}
use mailio.Base.{
  ℕ, ◌%◌, ◌≤◌, ◌<◌, ◌≡◌, refl, sym, ap, subst, ◌∙◌, List, [], ◌∷◌, ◌++◌, arith, inl, inr, leb,
  Bool-cases,
}
use mailio.Base.Bytes.{Bytes, length, length-append, All, IsByte}
use mailio.Base.Result.{Result, ok, err, ◌>>=◌}
use mailio.Codec.{Codec, CodecError}
use mailio.Codec.Base64.{
  Encoder, add_new_line, take_octet, encode_char, encode_chars, quantum, Decoder, decode_chars,
  decode_line, decode_lines, decode_remaining,
}
use mailio.Codec.Base64.Sextets.{decode_chars-quantum, quantum_lem}

-- Line policies as the constructor leaves them, when neither is below four.
pub record IsRounded (c : Codec) : Type 0 where
  pub first_pos : 0 < c.line1_policy
  pub first_fours : c.line1_policy % 4 ≡ 0
  pub lines_fours : c.lines_policy % 4 ≡ 0
  pub first_le : c.line1_policy ≤ c.lines_policy

abbrev pub fresh : Bytes → Decoder
fresh out = record { sextets = []; dec_text = out }

pub record Encoded (c : Codec) (e : Encoder) (text : Bytes) : Type 0 where
  pub whole : Bytes
  pub current : Bytes
  pub splits : text ≡ whole ++ (current ++ e.octets)
  pub lines : decode_lines c (fresh []) e.enc_text ≡ ok (fresh whole)
  pub chars :
      (out rest : Bytes)
      → decode_chars (fresh out) (e.line ++ rest) ≡ decode_chars (fresh (out ++ current)) rest
  pub few : length e.octets < 3
  pub bytes : All IsByte e.octets
  pub len : e.line_len ≡ length e.line
  pub fours : e.line_len % 4 ≡ 0
  pub policy_fours : e.policy % 4 ≡ 0
  pub policy_pos : 0 < e.policy
  pub room : e.line_len ≤ e.policy
  pub bound : e.policy ≤ c.lines_policy

>>=-assoc :
    (r : Result CodecError Decoder) (f g h : Decoder → Result CodecError Decoder)
    → ((d : Decoder) → f d ≡ (g d >>= h))
    → (r >>= f) ≡ ((r >>= g) >>= h)
>>=-assoc (ok d) f g h e = e d
>>=-assoc (err x) f g h e = refl

pub decode_lines-append :
    (c : Codec) (d : Decoder) (xs ys : List Bytes)
    → decode_lines c d (xs ++ ys) ≡ (decode_lines c d xs >>= λ d'. decode_lines c d' ys)
unfolding decode_lines
decode_lines-append c d [] ys = refl
decode_lines-append c d (x ∷ xs) ys =
    >>=-assoc (decode_line c d x) _ _ _ (λ d'. decode_lines-append c d' xs ys)

module _ {c : Codec} (r : IsRounded c) {e : Encoder} {text : Bytes} (v : Encoded c e text) where
  line-decodes : (out : Bytes) → decode_chars (fresh out) e.line ≡ ok (fresh (out ++ v.current))
  unfolding decode_chars
  line-decodes out = ap (decode_chars (fresh out)) (sym (append-nil e.line)) ∙ v.chars out []

  pub lines_with_current :
      decode_lines c (fresh []) (e.enc_text ++ e.line ∷ []) ≡ ok (fresh (v.whole ++ v.current))
  unfolding decode_lines decode_line decode_remaining
  lines_with_current =
      decode_lines-append c (fresh []) e.enc_text (e.line ∷ [])
      ∙ rw v.lines (ground (arith, line-decodes v.whole, v.len, v.room, v.bound))

  pub add_new_line-Encoded : Encoded c (add_new_line c e) text
  unfolding add_new_line
  add_new_line-Encoded = record {
    whole = v.whole ++ v.current;
    current = [];
    splits = v.splits ∙ sym (append_assoc v.whole v.current e.octets);
    lines = lines_with_current;
    chars = λ out rest. rw append-nil;
    few = v.few;
    bytes = v.bytes;
    len = refl;
    fours = refl;
    policy_fours = r.lines_fours;
    policy_pos = omega (arith, r.first_pos, r.first_le);
    room = omega arith;
    bound = omega arith;
  }

  extended :
      (ch : ℕ) (o : Bytes)
      → e.octets ≡ o
      → text ++ ch ∷ [] ≡ v.whole ++ (v.current ++ (o ++ ch ∷ []))
  extended ch o q = ap (λ t. t ++ ch ∷ []) v.splits ∙ rw q (simp append_assoc)

  -- The octet taken is the last of a group of three, or waits.
  take_octet-Encoded :
      (ch : ℕ) (o : Bytes)
      → IsByte ch
      → e.octets ≡ o
      → e.line_len < e.policy
      → Encoded c (take_octet e ch) (text ++ ch ∷ [])
  unfolding take_octet
  take_octet-Encoded ch [] h q lt = rw q (record {
    whole = v.whole;
    current = v.current;
    splits = extended ch [] q;
    lines = v.lines;
    chars = v.chars;
    few = omega arith;
    bytes = (h, tt);
    len = v.len;
    fours = v.fours;
    policy_fours = v.policy_fours;
    policy_pos = v.policy_pos;
    room = v.room;
    bound = v.bound;
  })
  take_octet-Encoded ch (a ∷ []) h q lt = rw q (record {
    whole = v.whole;
    current = v.current;
    splits = extended ch (a ∷ []) q;
    lines = v.lines;
    chars = v.chars;
    few = omega arith;
    bytes = let known = subst (All IsByte) q v.bytes in (known.0, (h, tt));
    len = v.len;
    fours = v.fours;
    policy_fours = v.policy_fours;
    policy_pos = v.policy_pos;
    room = v.room;
    bound = v.bound;
  })
  take_octet-Encoded ch (a ∷ b ∷ []) h q lt =
      let known = subst (All IsByte) q v.bytes in
      rw q (record {
        whole = v.whole;
        current = v.current ++ a ∷ b ∷ ch ∷ [];
        splits = extended ch (a ∷ b ∷ []) q ∙ simp append-nil;
        lines = v.lines;
        chars = λ out rest.
            ap (decode_chars (fresh out)) (append_assoc e.line (quantum (a ∷ b ∷ ch ∷ [])) rest)
            ∙ v.chars out (quantum (a ∷ b ∷ ch ∷ []) ++ rest)
            ∙ decode_chars-quantum a b ch known.0 known.1.0 h (out ++ v.current) rest
            ∙ ap (λ t. decode_chars (fresh t) rest) (append_assoc out v.current (a ∷ b ∷ ch ∷ []));
        few = omega arith;
        bytes = tt;
        len = omega (
          arith,
          v.len,
          length-append e.line (quantum (a ∷ b ∷ ch ∷ [])),
          ap length (quantum_lem a b ch known.0 known.1.0 h),
        );
        fours = omega (arith, v.fours);
        policy_fours = v.policy_fours;
        policy_pos = v.policy_pos;
        room = omega (arith, v.fours, v.policy_fours);
        bound = v.bound;
      })
  take_octet-Encoded ch (a ∷ b ∷ x ∷ o) h q lt = absurd (omega (arith, v.few, ap length q))

-- After each character the line is shorter than its policy.
pub record IsOpen (c : Codec) (e : Encoder) (text : Bytes) : Type 0 where
  pub encoded : Encoded c e text
  pub shorter : e.line_len < e.policy

module _ {c : Codec} (r : IsRounded c) where
  encode_char-IsOpen :
      {e : Encoder} {text : Bytes} (ch : ℕ)
      → IsByte ch
      → IsOpen c e text
      → IsOpen c (encode_char c e ch) (text ++ ch ∷ [])
  unfolding encode_char
  encode_char-IsOpen {e} ch h v =
      let taken = take_octet-Encoded r v.encoded ch e.octets h refl v.shorter in
      elim (Bool-cases (leb (take_octet e ch).policy (take_octet e ch).line_len)) [
        | inl full ↦ rw full (record {
          encoded = add_new_line-Encoded r taken;
          shorter = unfold add_new_line in omega (arith, r.first_pos, r.first_le);
        })
        | inr open_line ↦ rw open_line (record { encoded = taken; shorter = ground arith })
      ]

  -- The loop keeps the invariant over the whole text.
  pub encode_chars-IsOpen :
      (e : Encoder) (before text : Bytes)
      → All IsByte text
      → IsOpen c e before
      → IsOpen c (encode_chars c e text) (before ++ text)
  unfolding encode_chars
  encode_chars-IsOpen e before [] h v = rw append-nil v
  encode_chars-IsOpen e before (ch ∷ text) h v =
      subst (IsOpen c (encode_chars c (encode_char c e ch) text))
        (append_assoc before (ch ∷ []) text)
        (encode_chars-IsOpen (encode_char c e ch) (before ++ ch ∷ []) text h.1
          (encode_char-IsOpen ch h.0 v))
