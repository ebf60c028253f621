-- ===== src/Imap/Astring/Quoted.antt =====
-- imap/types.hpp: quoted strings against a reader of RFC 3501.
use mailio.Base.{
  ℕ, ◌≡◌, refl, ap, sym, subst, ◌∙◌, Bool, true, false, not, ltb, ◌&&◌, ◌||◌, Option, none, some,
  [], ◌∷◌, ◌++◌, arith, ◌==◌, if◌then◌else◌, Bool-cases, inl, inr,
}
use mathlib.Core.Option
use mathlib.Core.List.{append_assoc}
use mailio.Base.Bytes.{Bytes, All, codes, contains}
use mailio.Base.Result.{ok, map_error-eq-ok, bind-eq-ok}
use mailio.Codec.Text.{escape_string, surround_string}
use mailio.Wire.{contains_crlf_or_nul}
use mailio.Wire.Clean.{IsClean, IsClean-append, IsClean-cons, IsClean-ensure, ensure-IsClean}
use mailio.Imap.Astring.{ensure_clean, to_astring, to_mailbox}

-- TEXT-CHAR of RFC 3501: a 7-bit character but NUL, CR and LF.
unfoldable pub is_text_char : ℕ → Bool
is_text_char c = ltb 0 c && ltb c 128 && not (c == b'\r') && not (c == b'\n')

-- The reader of a quoted string in RFC 3501, behind the opening quote: a quote ends the string, and
-- what is behind it is handed back; a backslash stands before a quote or a backslash only, and any
-- other character is a TEXT-CHAR. Whatever else there is, is refused.
pub unquote : Bool → Bytes → Option (Bytes × Bytes)
unquote escaped [] = none
unquote true (c ∷ s) =
    let quoted = Option.map (λ r. (c ∷ r.0, r.1)) (unquote false s) in
    if c == b'"' || c == b'\\' then quoted else none
unquote false (c ∷ s) =
    let quoted = unquote true s in
    let plain = Option.map (λ r. (c ∷ r.0, r.1)) (unquote false s) in
    if c == b'"'
    then some ([], s)
    else if c == b'\\'
    then quoted
    else if is_text_char c
    then plain
    else none

abbrev special : Bytes
special = codes "\"\\"

unquote-escaped :
    (c : ℕ) (s : Bytes)
    → contains c special ≡ true
    → unquote false (b'\\' ∷ c ∷ s) ≡ Option.map (λ r. (c ∷ r.0, r.1)) (unquote false s)
unfolding unquote
unquote-escaped c s h = ground (arith, h)

unquote-plain :
    (c : ℕ) (s : Bytes)
    → contains c special ≡ false
    → is_text_char c ≡ true
    → unquote false (c ∷ s) ≡ Option.map (λ r. (c ∷ r.0, r.1)) (unquote false s)
unfolding unquote
unquote-plain c s h k = ground arith

abbrev pub IsTextChar : ℕ → Type 0
IsTextChar c = is_text_char c ≡ true

unquote-end : (rest : Bytes) → unquote false (b'"' ∷ rest) ≡ some ([], rest)
unfolding unquote
unquote-end rest = refl

pub unquote-escape :
    (text rest : Bytes)
    → All IsTextChar text
    → unquote false (escape_string text special ++ b'"' ∷ rest) ≡ some (text, rest)
unfolding escape_string
unquote-escape [] rest h = unquote-end rest
unquote-escape (c ∷ text) rest (k, ks) = elim (Bool-cases (contains c special)) [
  | inl h ↦
      rw h (
        unquote-escaped c _ h ∙ ap (Option.map (λ r. (c ∷ r.0, r.1))) (unquote-escape text rest ks))
  | inr h ↦
      rw h (
        unquote-plain c _ h k ∙ ap (Option.map (λ r. (c ∷ r.0, r.1))) (unquote-escape text rest ks))
]

IsClean-escape : (text chars : Bytes) → IsClean text → IsClean (escape_string text chars)
unfolding escape_string contains_crlf_or_nul
IsClean-escape [] chars h = refl
IsClean-escape (c ∷ text) chars h = ground (arith, IsClean-escape text chars)

-- What a returned quoted string is: the text was clean, and it is escaped between two quotes.
to_astring-eq-ok :
    (text q : Bytes)
    → to_astring text ≡ ok q
    → IsClean text × (q ≡ surround_string (escape_string text special) b'"')
unfolding to_astring ensure_clean
to_astring-eq-ok text q h =
    let (u, checked, e) =
      bind-eq-ok (ensure_clean text (codes "astring"))
        (λ _. ok (surround_string (escape_string text special) b'"')) h in
    (ensure-IsClean text (some (codes "astring")) (map_error-eq-ok _ _ checked), cc)

surround_lem : (s rest : Bytes) → surround_string s b'"' ++ rest ≡ b'"' ∷ (s ++ b'"' ∷ rest)
unfolding surround_string
surround_lem s rest = ap (λ t. b'"' ∷ t) (append_assoc s (b'"' ∷ []) rest)

text-IsClean : (text : Bytes) → All IsTextChar text → IsClean text
unfolding contains_crlf_or_nul is_text_char
text-IsClean [] h = refl
text-IsClean (c ∷ text) (k, ks) = ground (arith, text-IsClean text ks)

-- A text of 7-bit characters without CR, LF and NUL becomes a quoted string. Behind its opening
-- quote, the reader of RFC 3501, which takes a backslash only before a quote or a backslash, finds
-- the text again and stops at what follows the string.
pub to_astring-unquote :
    (text rest : Bytes)
    → All IsTextChar text
    → (q : Bytes) × (to_astring text ≡ ok (b'"' ∷ q))
      × (unquote false (q ++ rest) ≡ some (text, rest))
unfolding to_astring ensure_clean surround_string
to_astring-unquote text rest h = (
  escape_string text special ++ b'"' ∷ [],
  rw (IsClean-ensure text (some (codes "astring")) (text-IsClean text h)),
  ap (unquote false) (append_assoc (escape_string text special) (b'"' ∷ []) rest)
      ∙ unquote-escape text rest h,
)

quote-IsClean : IsClean (b'"' ∷ [])
unfolding contains_crlf_or_nul
quote-IsClean = refl

pub to_astring-IsClean : (text q : Bytes) → to_astring text ≡ ok q → IsClean q
unfolding surround_string
to_astring-IsClean text q h =
    let (clean, e) = to_astring-eq-ok text q h in
    subst IsClean (sym e) (
      IsClean-cons b'"' _ refl
        (IsClean-append _ _ (IsClean-escape text special clean) quote-IsClean))

pub ensure_clean-IsClean :
    (value field : Bytes) {u : Unit {0}} → ensure_clean value field ≡ ok u → IsClean value
unfolding ensure_clean
ensure_clean-IsClean value field h = ensure-IsClean value (some field) (map_error-eq-ok _ _ h)

pub to_mailbox-IsClean : (mailbox q : Bytes) → to_mailbox mailbox ≡ ok q → IsClean q
unfolding to_mailbox
to_mailbox-IsClean mailbox q h =
    let (name, encoded, e) = bind-eq-ok _ to_astring h in to_astring-IsClean name q e
