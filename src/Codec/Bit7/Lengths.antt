-- ===== src/Codec/Bit7/Lengths.antt =====
-- codec/bit7.hpp: the lengths of the encoded lines.
use mailio.Base.{
  ℕ, zero, suc, ◌+◌, ◌-◌, ◌≤◌, ◌<◌, ◌≡◌, refl, subst, inl, inr, Bool, true, false, not, ◌&&◌, List,
  [], ◌∷◌, ◌++◌, arith, ltb, ◌==◌, if◌then◌else◌, Bool-cases,
}
use mailio.Base.Bytes.{Bytes, All, All-append, length, length-append, take, drop, is_empty}
use mailio.Base.Result.{Result, ok, err, bind-eq-ok}
use mailio.Codec.{Codec, CodecError}
use mailio.Codec.Bit7.{
  Encoder, is_allowed, add_new_line, add_char, wrap, encode_chars, drop_empty, close, start, encode,
}

length-take : (n : ℕ) (s : Bytes) → n ≤ length s → length (take n s) ≡ n
length-take zero s h = refl
length-take (suc n) [] h = absurd (omega (arith, h))
length-take (suc n) (c ∷ s) h = omega (arith, length-take n s (omega (arith, h)))

length-drop : (n : ℕ) (s : Bytes) → length (drop n s) ≡ length s - n
length-drop zero s = omega arith
length-drop (suc n) [] = omega arith
length-drop (suc n) (c ∷ s) = omega (arith, length-drop n s)

-- A line within the policy of the lines other than the first.
abbrev pub Fits : Codec → Bytes → Type 0
Fits c line = length line ≤ c.lines_policy

-- The encoder between two steps; `room` is what the line may still take.
record IsWithin (c : Codec) (is_folding : Bool) (room : ℕ) (e : Encoder) : Type 0 where
  lines : All (Fits c) e.enc_text
  len : e.line_len ≡ length e.line
  bound : e.line_len + room ≤ e.policy
  policy_le : e.policy ≤ c.lines_policy
  delim_le : is_folding ≡ true → e.delim_pos ≤ e.line_len

module _ (c : Codec) (positive : 0 < c.lines_policy) where
  folded :
      (e : Encoder)
      → IsWithin c true 0 e
      → 0 < e.delim_pos
      → IsWithin c true 1 (record {
        enc_text = e.enc_text ++ take e.delim_pos e.line ∷ [];
        line = drop e.delim_pos e.line;
        line_len = e.line_len - e.delim_pos;
        delim_pos = 0;
        policy = c.lines_policy;
      })
  folded e h some =
      let inside = h.delim_le refl in
      let cut = length-take e.delim_pos e.line (omega (arith, h.len, inside)) in
      let rest = length-drop e.delim_pos e.line in
      record {
        lines =
            All-append (Fits c) e.enc_text (take e.delim_pos e.line ∷ []) h.lines
              (omega (arith, cut, inside, h.bound, h.policy_le), tt);
        len = omega (arith, rest, h.len);
        bound = omega (arith, some, inside, h.bound, h.policy_le, positive);
        policy_le = omega arith;
        delim_le = λ b. omega arith;
      }

  unfolded :
      (is_folding : Bool) (e : Encoder)
      → IsWithin c is_folding 0 e
      → (is_folding && ltb 0 e.delim_pos) ≡ false
      → IsWithin c is_folding 1 (record e {
        enc_text = e.enc_text ++ e.line ∷ [];
        line = [];
        line_len = 0;
        policy = c.lines_policy;
      })
  unfolded is_folding e h unmarked = record {
    lines =
        All-append (Fits c) e.enc_text (e.line ∷ []) h.lines
          (omega (arith, h.len, h.bound, h.policy_le), tt);
    len = refl;
    bound = omega (arith, positive);
    policy_le = omega arith;
    delim_le = λ b. ground (arith, unmarked, b);
  }

  add_new_line-IsWithin :
      (is_folding : Bool) (e : Encoder)
      → IsWithin c is_folding 0 e
      → IsWithin c is_folding 1 (add_new_line c is_folding e)
  unfolding add_new_line
  add_new_line-IsWithin false e h = unfolded false e h refl
  add_new_line-IsWithin true e h = elim (Bool-cases (ltb 0 e.delim_pos)) [
    | inl some ↦ rw some (folded e h (ground (arith, some)))
    | inr none ↦ rw none (unfolded true e h none)
  ]

  wrap-IsWithin :
      (is_folding : Bool) (e : Encoder)
      → IsWithin c is_folding 0 e
      → IsWithin c is_folding 1 (wrap c is_folding e)
  unfolding wrap
  wrap-IsWithin is_folding e h = elim (Bool-cases (e.line_len == e.policy)) [
    | inl full ↦ rw full (add_new_line-IsWithin is_folding e h)
    | inr room ↦ rw room (record {
      lines = h.lines;
      len = h.len;
      bound = ground (arith, room, h.bound);
      policy_le = h.policy_le;
      delim_le = h.delim_le;
    })
  ]

  add_char-IsWithin :
      (is_folding : Bool) (e : Encoder) (ch : ℕ)
      → IsWithin c is_folding 1 e
      → IsWithin c is_folding 0 (add_char e ch)
  unfolding add_char
  add_char-IsWithin is_folding e ch h = record {
    lines = h.lines;
    len = omega (arith, h.len, length-append e.line (ch ∷ []));
    bound = omega (arith, h.bound);
    policy_le = h.policy_le;
    delim_le = λ b. let before = h.delim_le b in ground (arith, before);
  }

  relax : (is_folding : Bool) (e : Encoder) → IsWithin c is_folding 1 e → IsWithin c is_folding 0 e
  relax is_folding e h = record {
    lines = h.lines;
    len = h.len;
    bound = omega (arith, h.bound);
    policy_le = h.policy_le;
    delim_le = h.delim_le;
  }

  -- What a step leads to, if it does not throw.
  Ends : Bool → Result CodecError Encoder → Type 0
  Ends is_folding (ok e) = IsWithin c is_folding 1 e
  Ends is_folding (err x) = Unit

  -- A character is allowed, begins a line end, or is thrown.
  encode_chars-Ends :
      (strict is_folding : Bool) (text : Bytes) (e : Encoder)
      → IsWithin c is_folding 1 e
      → Ends is_folding (encode_chars c strict is_folding e text)
  unfolding encode_chars Ends
  encode_chars-Ends strict is_folding [] e h = h
  encode_chars-Ends strict is_folding (ch ∷ []) e h = elim (Bool-cases (is_allowed strict ch)) [
    | inl allowed ↦
        rw (allowed, encode_chars)
          (wrap-IsWithin is_folding (add_char e ch) (add_char-IsWithin is_folding e ch h))
    | inr bad ↦ rw bad tt
  ]
  encode_chars-Ends strict is_folding (ch ∷ next ∷ text) e h =
      elim (Bool-cases (is_allowed strict ch)) [
        | inl allowed ↦
            rw (allowed, encode_chars)
              (encode_chars-Ends strict is_folding (next ∷ text) (wrap c is_folding (add_char e ch))
                (wrap-IsWithin is_folding (add_char e ch) (add_char-IsWithin is_folding e ch h)))
        | inr bad ↦ elim (Bool-cases (ch == b'\r' && next == b'\n')) [
          | inl broken ↦
              rw (bad, broken, encode_chars)
                (encode_chars-Ends strict is_folding text
                  (wrap c is_folding (add_new_line c is_folding e))
                  (wrap-IsWithin is_folding (add_new_line c is_folding e) (
                    relax is_folding (add_new_line c is_folding e)
                      (add_new_line-IsWithin is_folding e (relax is_folding e h)))))
          | inr other ↦ rw (bad, other, encode_chars) tt
        ]
      ]

drop_empty-All : (P : Bytes → Type 0) (lines : List Bytes) → All P lines → All P (drop_empty lines)
unfolding drop_empty
drop_empty-All P [] h = tt
drop_empty-All P (line ∷ lines) h =
    elim (Bool-cases (is_empty line && is_empty (drop_empty lines))) [
      | inl gone ↦ rw (gone, drop_empty) tt
      | inr kept ↦ rw (kept, drop_empty) (h.0, drop_empty-All P lines (h.1))
    ]

last-Fits :
    (P : Bytes → Type 0) (b : Bool) (lines : List Bytes) (line : Bytes)
    → All P lines
    → P line
    → All P (if b then lines else (lines ++ line ∷ []))
last-Fits P true lines line h k = h
last-Fits P false lines line h k = All-append P lines (line ∷ []) h (k, tt)

close-Fits :
    (c : Codec) (is_folding : Bool) (e : Encoder)
    → IsWithin c is_folding 1 e
    → All (Fits c) (close e)
unfolding close
close-Fits c is_folding e h = drop_empty-All (Fits c) _ (
    last-Fits (Fits c) (is_empty e.line) e.enc_text e.line h.lines
      (omega (arith, h.len, h.bound, h.policy_le)))

ended :
    (c : Codec) (positive : 0 < c.lines_policy) (is_folding : Bool) (r : Result CodecError Encoder)
    → {e : Encoder} → Ends c positive is_folding r
    → r ≡ ok e
    → IsWithin c is_folding 1 e
unfolding Ends
ended c positive is_folding r {e} h same = subst (Ends c positive is_folding) same h

-- Where the policy of the first line is positive and no longer than that of the others, no line of
-- an encoded text is longer than the latter, with and without folding at delimiters.
pub encode-Fits :
    (c : Codec) (strict : Bool) (text : Bytes) (lines : List Bytes)
    → 0 < c.line1_policy
    → c.line1_policy ≤ c.lines_policy
    → encode c strict text ≡ ok lines
    → All (Fits c) lines
unfolding encode start
encode-Fits c strict text lines positive ordered returned =
    let is_folding = not (c.line1_policy == c.lines_policy) in
    let (e, encoded, closed) =
      bind-eq-ok (encode_chars c strict is_folding (start c) text) (λ e. ok (close e)) returned in
    let some : 0 < c.lines_policy = omega (arith, positive, ordered) in
    let within = encode_chars-Ends c some strict is_folding text (start c) (record {
      lines = tt;
      len = refl;
      bound = omega (arith, positive);
      policy_le = ordered;
      delim_le = λ b. omega arith;
    }) in
    let made : close e ≡ lines = cc in
    subst (All (Fits c)) made (close-Fits c is_folding e (ended c some is_folding _ within encoded))
