-- ===== src/Ascii/MessageId.antt =====
-- detail/ascii.hpp: dot-atoms and message ids, described apart from the validators.
use mailio.Base.{
  ℕ, suc, ◌≤◌, ◌<◌, ◌≡◌, refl, sym, subst, ◌≢◌, ◌↔◌, inl, inr, Bool, true, false, Option, none,
  some, [], ◌∷◌, ◌++◌, arith, ◌==◌, if◌then◌else◌, Bool-cases, Option-cases,
}
use mailio.Base.Bytes.{
  Bytes, length, is_empty, take, drop, all_of, all_of-append, contains, find, find-splits,
  find-append, take-length, drop-length-suc, back_or, front_or, length-append,
}
use native.Mathlib.Numerals.{add-one}
use mailio.Ascii.{
  is_atext, is_ascii_alnum, is_ascii_alpha, is_ascii_digit, is_space, dot_atom_loop,
  is_dot_atom_text, message_id_body, message_id_char, strict_at, relaxed_at,
  is_valid_message_id_strict, is_valid_message_id_relaxed,
}

-- RFC 5322: 1*atext *("." 1*atext)
pub data IsDotAtom : Bytes → Type 0 where
  last : {c : ℕ} → is_atext c ≡ true → IsDotAtom (c ∷ [])
  char : {c : ℕ} {s : Bytes} → is_atext c ≡ true → IsDotAtom s → IsDotAtom (c ∷ s)
  dot : {c d : ℕ} {s : Bytes} → is_atext c ≡ true → d ≡ b'.' → IsDotAtom s → IsDotAtom (c ∷ d ∷ s)

atext_range :
    (c : ℕ)
    → is_atext c ≡ true
    → (33 ≤ c) × (c ≤ 126) × (c ≢ b'.') × (c ≢ b'@') × (c ≢ b'<') × (c ≢ b'>')
unfolding is_atext is_ascii_alnum is_ascii_alpha is_ascii_digit
atext_range c h =
    (ground arith, ground arith, ground arith, ground arith, ground arith, ground arith)

loop-IsDotAtom :
    (s : Bytes) (c : ℕ)
    → c ≢ b'.'
    → back_or s c ≢ b'.'
    → dot_atom_loop false (c ∷ s) ≡ true
    → IsDotAtom (c ∷ s)
unfolding dot_atom_loop
loop-IsDotAtom [] c f b h = last (ground arith)
loop-IsDotAtom (d ∷ []) c f b h = char (ground arith) (last (ground arith))
loop-IsDotAtom (d ∷ e ∷ s) c f b h = elim (Bool-cases (d == b'.')) [
  | inl p ↦ dot (ground arith) (ground arith) (loop-IsDotAtom s e (ground arith) b (ground arith))
  | inr q ↦ char (ground arith) (loop-IsDotAtom (e ∷ s) d (ground arith) b (ground arith))
]

record Loops (s : Bytes) : Type 0 where
  nonempty : s ≢ []
  front : (d : ℕ) → front_or s d ≢ b'.'
  back : (d : ℕ) → back_or s d ≢ b'.'
  accepts : (p : Bool) → dot_atom_loop p s ≡ true

IsDotAtom-Loops : {s : Bytes} → IsDotAtom s → Loops s
unfolding dot_atom_loop
IsDotAtom-Loops (last {c} h) = record {
  nonempty = λ e. cc;
  front = λ d. ground (arith, atext_range c h);
  back = λ d. ground (arith, atext_range c h);
  accepts = λ p. ground (arith, atext_range c h);
}
IsDotAtom-Loops (char {c} {s} h t) =
    let r = IsDotAtom-Loops t in
    record {
      nonempty = λ e. cc;
      front = λ d. ground (arith, atext_range c h);
      back = λ d. r.back c;
      accepts = λ p. ground (arith, atext_range c h, r.accepts false);
    }
IsDotAtom-Loops (dot {c} {d} {s} h e t) =
    let r = IsDotAtom-Loops t in
    record {
      nonempty = λ e. cc;
      front = λ d. ground (arith, atext_range c h);
      back = λ _. r.back d;
      accepts = λ p. ground (arith, atext_range c h, r.accepts true);
    }

-- `is_dot_atom_text` accepts exactly the dot-atoms of RFC 5322.
pub is_dot_atom_text_iff : (s : Bytes) → (is_dot_atom_text s ≡ true) ↔ IsDotAtom s
unfolding is_dot_atom_text
is_dot_atom_text_iff [] = (λ h. cc, λ h. absurd ((IsDotAtom-Loops h).nonempty refl))
is_dot_atom_text_iff (c ∷ s) = (
  λ h. loop-IsDotAtom s c (ground arith) (ground arith) (ground arith),
  λ h. let r = IsDotAtom-Loops h in ground (arith, r.front 0, r.back 0, r.accepts false),
)

char_of_atext : (c : ℕ) → is_atext c ≡ true → message_id_char c ≡ true
unfolding message_id_char is_space
char_of_atext c h = ground (arith, atext_range c h)

char_of_dot : message_id_char b'.' ≡ true
unfolding message_id_char is_space
char_of_dot = refl

chars_of_IsDotAtom :
    {s : Bytes} → IsDotAtom s → (all_of message_id_char s ≡ true) × (contains b'@' s ≡ false)
chars_of_IsDotAtom (last {c} h) = ground (arith, atext_range c h, char_of_atext c h)
chars_of_IsDotAtom (char {c} h t) =
    ground (arith, atext_range c h, char_of_atext c h, chars_of_IsDotAtom t)
chars_of_IsDotAtom (dot {c} h e t) =
    rw e (ground (arith, atext_range c h, char_of_atext c h, char_of_dot, chars_of_IsDotAtom t))

-- The normalised id is two dot-atoms joined by an `@`.
pub record IsMsgId (body : Bytes) : Type 0 where
  pub left : Bytes
  pub right : Bytes
  pub splits : body ≡ left ++ b'@' ∷ right
  pub left_atom : IsDotAtom left
  pub right_atom : IsDotAtom right

strict_at-IsMsgId :
    (body : Bytes) (at : ℕ)
    → find b'@' body ≡ some at
    → strict_at body (some at) ≡ true
    → IsMsgId body
unfolding strict_at
strict_at-IsMsgId body at f h = record {
  left = take at body;
  right = drop (suc at) body;
  splits = (find-splits b'@' body at f).0;
  left_atom = (is_dot_atom_text_iff _).0 (ground arith);
  right_atom =
      (is_dot_atom_text_iff _).0
        (subst (λ n. is_dot_atom_text (drop n body) ≡ true) (add-one at) (ground arith));
}

strict-IsMsgId : (body : Bytes) → strict_at body (find b'@' body) ≡ true → IsMsgId body
unfolding strict_at
strict-IsMsgId body h = elim (Option-cases (find b'@' body)) [
  | inl e ↦ absurd (cc (rw e at h))
  | inr (at, e) ↦ strict_at-IsMsgId body at e (rw e at h)
]

char_of_at : message_id_char b'@' ≡ true
unfolding message_id_char is_space
char_of_at = refl

length_pos : {s : Bytes} → IsDotAtom s → 0 < length s
length_pos (last h) = omega arith
length_pos (char h t) = omega arith
length_pos (dot h e t) = omega arith

IsMsgId-strict :
    (left right : Bytes)
    → IsDotAtom left
    → IsDotAtom right
    → strict_at (left ++ b'@' ∷ right) (some (length left)) ≡ true
unfolding strict_at
IsMsgId-strict left right l r =
    rw (add-one (length left), take-length left (b'@' ∷ right), drop-length-suc left b'@' right)
      (ground (
        arith,
        length-append left (b'@' ∷ right),
        all_of-append message_id_char left (b'@' ∷ right),
        chars_of_IsDotAtom l,
        chars_of_IsDotAtom r,
        char_of_at,
        length_pos l,
        length_pos r,
        (is_dot_atom_text_iff left).1 l,
        (is_dot_atom_text_iff right).1 r,
      ))

accepts :
    (left right : Bytes)
    → IsDotAtom left
    → IsDotAtom right
    → let b = left ++ b'@' ∷ right in
      (if is_empty b then false else strict_at b (find b'@' b)) ≡ true
accepts [] right l r = absurd (omega (arith, length_pos l))
accepts (c ∷ left) right l r =
    rw (find-append b'@' (c ∷ left) right (chars_of_IsDotAtom l).1)
      (IsMsgId-strict (c ∷ left) right l r)

-- The strict validator accepts an id exactly when what is left of it, after trimming and taking
-- off one pair of angle brackets, is two dot-atoms joined by an `@`.
pub is_valid_message_id_strict_iff :
    (id : Bytes) → (is_valid_message_id_strict id ≡ true) ↔ IsMsgId (message_id_body id)
unfolding is_valid_message_id_strict
is_valid_message_id_strict_iff id = (
  λ h. strict-IsMsgId (message_id_body id) (ground arith),
  λ m.
      subst (λ b. (if is_empty b then false else strict_at b (find b'@' b)) ≡ true) (sym m.splits)
        (accepts m.left m.right m.left_atom m.right_atom),
)

relaxed_of_strict :
    (body : Bytes) (at : Option ℕ) → strict_at body at ≡ true → relaxed_at body at ≡ true
unfolding strict_at relaxed_at
relaxed_of_strict body none h = h
relaxed_of_strict body (some at) h = ground arith

-- Whatever the strict validator accepts, the relaxed one accepts too.
pub strict-relaxed :
    (id : Bytes) → is_valid_message_id_strict id ≡ true → is_valid_message_id_relaxed id ≡ true
unfolding is_valid_message_id_strict is_valid_message_id_relaxed
strict-relaxed id h =
    ground (arith, relaxed_of_strict (message_id_body id) (find b'@' (message_id_body id)))
