-- ===== src/Redact/Secrets.antt =====
-- detail/redact.hpp: the lines of PASS and LOGIN.
use mathlib.Core.List.{append_assoc, reverse-append, reverse-reverse, reverse-cons}
use native.Mathlib.Numerals.{add-one}
use mailio.Base.{
  ℕ, suc, ◌<◌, ◌≡◌, refl, sym, ap, subst, ◌∙◌, ◌≢◌, Bool, true, false, ◌||◌, Option, none, some,
  List, [], ◌∷◌, ◌++◌, reverse, arith, inl, inr, le→leb, ltb, lt→ltb, ◌==◌, Bool-cases,
}
use mailio.Base.Bytes.{
  Bytes, All, codes, length, is_empty, find, find-append, contains, take-length, drop-length-suc,
  drop-length, length-append, front_or, back_or,
}
use mailio.Redact.{
  iequals_ascii, skip_spaces, split_token, split_loop, split_tokens, marker, cut_at, scan,
  redact_command, redact_tokens, redact_parts, redact_line, join, trim_eol, drop_eol, count_spaces,
}
use mailio.Redact.Tokens.{split_loop_fuel}

-- A word: characters, none of them a space.
pub record IsWord (w : Bytes) : Type 0 where
  pub some_char : w ≢ []
  pub no_space : contains b' ' w ≡ false

skip_spaces-word : (w rest : Bytes) → IsWord w → skip_spaces (w ++ rest) ≡ w ++ rest
unfolding skip_spaces
skip_spaces-word [] rest h = absurd (h.some_char refl)
skip_spaces-word (c ∷ w) rest h = ground (arith, h.no_space)

split_loop-word :
    (fuel : ℕ) (w rest : Bytes)
    → IsWord w
    → split_loop (suc fuel) (w ++ b' ' ∷ rest) ≡ w ∷ split_loop fuel rest
unfolding split_loop split_token
split_loop-word fuel [] rest h = absurd (h.some_char refl)
split_loop-word fuel (c ∷ w) rest h =
    rw (skip_spaces-word (c ∷ w) (b' ' ∷ rest) h, find-append b' ' (c ∷ w) rest h.no_space)
      (rw (take-length w (b' ' ∷ rest), add-one (length (c ∷ w)), drop-length-suc w b' ' rest))

-- The first word of the text is its first token.
pub split_tokens-word :
    (w rest : Bytes) → IsWord w → split_tokens (w ++ b' ' ∷ rest) ≡ w ∷ split_tokens rest
unfolding split_tokens
split_tokens-word w rest h =
    split_loop-word (length (w ++ b' ' ∷ rest)) w rest h
    ∙ ap (◌∷◌ w) (
        split_loop_fuel (length (w ++ b' ' ∷ rest)) (suc (length rest)) rest
          (omega (arith, length-append w (b' ' ∷ rest))) (omega arith))

split_token-ne-nil :
    (f : Bytes → List Bytes) (t : Bytes) (at : Option ℕ) → 0 < length (split_token f t at)
unfolding split_token
split_token-ne-nil f t none = omega arith
split_token-ne-nil f t (some n) = omega arith

-- What does not begin with a space has a first token.
split_tokens_pos : (s : Bytes) → front_or s b' ' ≢ b' ' → 0 < length (split_tokens s)
unfolding split_tokens split_loop skip_spaces
split_tokens_pos [] h = absurd (h refl)
split_tokens_pos (c ∷ s) h = elim (Bool-cases (c == b' ')) [
  | inl e ↦ absurd (ground arith)
  | inr e ↦ rw e (split_token-ne-nil (split_loop (length (c ∷ s))) (c ∷ s) (find b' ' (c ∷ s)))
]

tokens_not_empty : (ts : List Bytes) → 0 < length ts → is_empty ts ≡ false
tokens_not_empty [] h = absurd (omega arith)
tokens_not_empty (t ∷ ts) h = refl

abbrev pub is_eol : ℕ → Bool
is_eol c = c == b'\r' || c == b'\n'

drop_eol-reverse :
    (eol x : Bytes) → All (λ c. is_eol c ≡ true) eol → drop_eol (reverse eol ++ x) ≡ drop_eol x
unfolding drop_eol
drop_eol-reverse [] x h = refl
drop_eol-reverse (e ∷ eol) x h =
    rw (reverse-cons e eol, append_assoc (reverse eol) (e ∷ []) x)
      (drop_eol-reverse eol (e ∷ x) h.1 ∙ rw h.0)

last_split : (c : ℕ) (s : Bytes) → (init : Bytes) × (c ∷ s ≡ init ++ back_or s c ∷ [])
last_split c [] = ([], refl)
last_split c (d ∷ s) = let (init, e) = last_split d s in (c ∷ init, ap (◌∷◌ c) e)

drop_eol-body :
    (body : Bytes) → is_eol (back_or body b'\n') ≡ false → drop_eol (reverse body) ≡ reverse body
unfolding drop_eol
drop_eol-body [] h = absurd (cc)
drop_eol-body (c ∷ s) h =
    let (init, e) = last_split c s in
    subst (λ t. drop_eol t ≡ t) (sym (ap reverse e ∙ reverse-append init (back_or s c ∷ []))) (rw h)

pub trim_eol-append :
    (body eol : Bytes)
    → is_eol (back_or body b'\n') ≡ false
    → All (λ c. is_eol c ≡ true) eol
    → trim_eol (body ++ eol) ≡ body
unfolding trim_eol
trim_eol-append body eol h k =
    rw (reverse-append body eol, drop_eol-reverse eol (reverse body) k, drop_eol-body body h)
      (reverse-reverse body)

-- A line that does not begin with a space, before its line end.
pub record IsBody (body : Bytes) : Type 0 where
  pub front : front_or body b' ' ≢ b' '
  pub back : is_eol (back_or body b'\n') ≡ false

count_spaces_zero : (s : Bytes) → front_or s b' ' ≢ b' ' → count_spaces s ≡ 0
unfolding count_spaces
count_spaces_zero [] h = absurd (h refl)
count_spaces_zero (c ∷ s) h = ground arith

redact_parts-some :
    (line core suffix : Bytes) (r : List Bytes)
    → front_or core b' ' ≢ b' '
    → redact_tokens (split_tokens core) ≡ some r
    → redact_parts line [] core suffix ≡ join r ++ suffix
unfolding redact_parts
redact_parts-some line [] suffix r h e = absurd (h refl)
redact_parts-some line (c ∷ s) suffix r h e =
    rw (tokens_not_empty (split_tokens (c ∷ s)) (split_tokens_pos (c ∷ s) h), e) refl

redact_line-body :
    (body eol : Bytes) (r : List Bytes)
    → IsBody body
    → All (λ c. is_eol c ≡ true) eol
    → redact_tokens (split_tokens body) ≡ some r
    → redact_line (body ++ eol) ≡ join r ++ eol
unfolding redact_line
redact_line-body body eol r h k e =
    rw (trim_eol-append body eol h.back k, count_spaces_zero body h.front, drop-length body eol)
      (redact_parts-some (body ++ eol) body eol r h.front e)

-- The text of an argument: it does not begin with a space or end in a line end.
pub record IsSecret (s : Bytes) : Type 0 where
  pub front : front_or s b' ' ≢ b' '
  pub back : is_eol (back_or s b'\n') ≡ false

back_or-append : (w : Bytes) (x : ℕ) (s : Bytes) (d : ℕ) → back_or (w ++ x ∷ s) d ≡ back_or s x
back_or-append [] x s d = refl
back_or-append (c ∷ w) x s d = back_or-append w x s c

IsBody-of : (w secret : Bytes) → IsWord w → IsSecret secret → IsBody (w ++ b' ' ∷ secret)
IsBody-of [] secret h k = absurd (h.some_char refl)
IsBody-of (c ∷ w) [] h k = absurd (k.front refl)
IsBody-of (c ∷ w) (d ∷ s) h k = record {
  front = λ e. ground (arith, h.no_space);
  back = rw (back_or-append w b' ' (d ∷ s) c) k.back;
}

redact_command-pass :
    (w : Bytes) (ts : List Bytes)
    → iequals_ascii w (codes "PASS") ≡ true
    → 0 < length ts
    → redact_command (w ∷ ts) ≡ some (w ∷ marker ∷ [])
unfolding redact_command cut_at
redact_command-pass w ts h k = rw (h, le→leb 2 (suc (length ts)) (omega arith))

redact_tokens-command : (ts r : List Bytes) → redact_command ts ≡ some r → redact_tokens ts ≡ some r
unfolding redact_tokens
redact_tokens-command ts r e = rw (e, redact_tokens)

-- Of a line `PASS secret`, in any case of the letters and with any CR and LF at its end, the log
-- shows the command, the marker and the line end. The secret is any text that does not begin with a
-- space nor end with CR or LF, and it may hold spaces.
pub redact_line-pass :
    (cmd secret eol : Bytes)
    → IsWord cmd
    → iequals_ascii cmd (codes "PASS") ≡ true
    → IsSecret secret
    → All (λ c. is_eol c ≡ true) eol
    → redact_line ((cmd ++ b' ' ∷ secret) ++ eol) ≡ (cmd ++ b' ' ∷ marker) ++ eol
unfolding join
redact_line-pass cmd secret eol w p s k =
    redact_line-body (cmd ++ b' ' ∷ secret) eol (cmd ∷ marker ∷ []) (IsBody-of cmd secret w s) k (
      rw (split_tokens-word cmd secret w) (
        redact_tokens-command _ _
          (redact_command-pass cmd (split_tokens secret) p (split_tokens_pos secret s.front))))

-- The tag of an IMAP command: a word that is none of the commands looked for.
pub record IsTag (t : Bytes) : Type 0 where
  pub word : IsWord t
  pub no_pass : iequals_ascii t (codes "PASS") ≡ false
  pub no_auth : iequals_ascii t (codes "AUTH") ≡ false
  pub no_login : iequals_ascii t (codes "LOGIN") ≡ false
  pub no_authenticate : iequals_ascii t (codes "AUTHENTICATE") ≡ false

redact_command-login :
    (tag login user : Bytes) (ts : List Bytes)
    → IsTag tag
    → iequals_ascii login (codes "LOGIN") ≡ true
    → 0 < length ts
    → redact_command (tag ∷ login ∷ user ∷ ts) ≡ some (tag ∷ login ∷ user ∷ marker ∷ [])
unfolding redact_command scan cut_at
redact_command-login tag login user ts t l k =
    let long : ltb 3 (suc (suc (suc (length ts)))) ≡ true = lt→ltb _ _ (omega arith) in
    rw (t.no_pass, t.no_auth, t.no_login, t.no_authenticate, l) (rw long)

-- Of an IMAP line `tag LOGIN user secret`, with any CR and LF at its end, the log shows the tag, the
-- command, the user, the marker and the line end. The tag and the user are words, the tag none of the
-- four commands looked for, and the secret is any text that does not begin with a space nor end with
-- CR or LF.
pub redact_line-login :
    (tag login user secret eol : Bytes)
    → IsTag tag
    → IsWord login
    → iequals_ascii login (codes "LOGIN") ≡ true
    → IsWord user
    → IsSecret secret
    → All (λ c. is_eol c ≡ true) eol
    → redact_line ((tag ++ b' ' ∷ (login ++ b' ' ∷ (user ++ b' ' ∷ secret))) ++ eol)
      ≡ (tag ++ b' ' ∷ (login ++ b' ' ∷ (user ++ b' ' ∷ marker))) ++ eol
unfolding join
redact_line-login tag login user secret eol t lw l u s k =
    let after_user = user ++ b' ' ∷ secret in
    let after_login = login ++ b' ' ∷ after_user in
    let us = IsBody-of user secret u s in
    let ls = IsBody-of login after_user lw (record { front = us.front; back = us.back }) in
    let ts = IsBody-of tag after_login t.word (record { front = ls.front; back = ls.back }) in
    redact_line-body (tag ++ b' ' ∷ after_login) eol (tag ∷ login ∷ user ∷ marker ∷ []) ts k (
      rw
        (
          split_tokens-word tag after_login t.word,
          split_tokens-word login after_user lw,
          split_tokens-word user secret u,
        )
        (redact_tokens-command _ _ (
          redact_command-login tag login user (split_tokens secret) t l
            (split_tokens_pos secret s.front))))
