-- ===== src/Imap/Responses/Items.antt =====
-- imap/types.hpp: the response codes in brackets of an untagged OK.
use mailio.Base.{
  ℕ, suc, ◌-◌, ◌^◌, ◌<◌, ◌≡◌, refl, ap, ◌∙◌, true, false, [], ◌∷◌, ◌++◌, arith, within,
}
use mailio.Base.Bytes.{Bytes, codes, length, equal, contains, all_of, find-append, take-length}
use mailio.Wire.Decimal.{to_chars_digits}
use mailio.Imap.Responses.{split_token, parse_item, parse_brackets, parse_ok_item}
use mailio.Imap.Responses.Tokens.{
  IsWord, ltrim-word, ltrim-word_only, split_token-word, split_token-last, iequals_ascii_refl,
}
use mailio.Imap.Responses.Roundtrip.{
  decimal, decimal-IsWord, read_uint32-decimal, star_line, star_ltrim,
}

no_bracket : (s : Bytes) → all_of (within b'0' b'9') s ≡ true → contains b']' s ≡ false
no_bracket [] h = refl
no_bracket (c ∷ s) h = ground (arith, no_bracket s)

contains-append :
    (c : ℕ) (s t : Bytes)
    → contains c s ≡ false
    → contains c t ≡ false
    → contains c (s ++ t) ≡ false
contains-append c [] t h k = k
contains-append c (x ∷ s) t h k = ground (arith, contains-append c s t)

parse_item-line :
    (key : Bytes) (n out : ℕ)
    → IsWord key
    → n < 2 ^ 32
    → parse_item (key ++ b' ' ∷ decimal n) key out ≡ (true, n)
unfolding parse_item
parse_item-line key n out h k = rw (
  split_token-word key (decimal n) h,
  ltrim-word_only (decimal n) (decimal-IsWord n),
  split_token-last (decimal n) (decimal-IsWord n),
  iequals_ascii_refl key,
  read_uint32-decimal n out k,
)

one_less : (n : ℕ) → suc n - 1 ≡ n
one_less n = omega arith

-- The text between the brackets is found, whatever follows the closing one.
parse_brackets-line :
    (inner rest key : Bytes) (out : ℕ)
    → contains b']' inner ≡ false
    → parse_brackets (b'[' ∷ (inner ++ b']' ∷ rest)) key out ≡ parse_item inner key out
unfolding parse_brackets
parse_brackets-line inner rest key out h = rw (
  find-append b']' (b'[' ∷ inner) rest h,
  one_less (length inner),
  take-length inner (b']' ∷ rest),
)

ok_then :
    (rest : Bytes) → split_token (codes "OK" ++ b' ' ∷ b'[' ∷ rest) ≡ (codes "OK", b'[' ∷ rest)
ok_then rest =
    split_token-word (codes "OK") (b'[' ∷ rest) (refl, refl)
    ∙ ap (λ t. (codes "OK", t)) (ltrim-word (codes "[") rest (refl, refl))

-- `* OK [<key> <number>]` is read as the number, below 2^32, under its key, whatever follows the
-- bracket; the key is a word without a closing bracket.
pub parse_ok_item-line :
    (key rest : Bytes) (n out : ℕ)
    → IsWord key
    → contains b']' key ≡ false
    → n < 2 ^ 32
    → parse_ok_item (codes "* OK [" ++ ((key ++ b' ' ∷ decimal n) ++ b']' ∷ rest)) key out
      ≡ (true, n)
unfolding parse_ok_item equal
parse_ok_item-line key rest n out h b k =
    let inner = key ++ b' ' ∷ decimal n in
    let tail = inner ++ b']' ∷ rest in
    rw
      (
        star_ltrim (codes "OK [" ++ tail),
        star_line (codes "OK") (codes " [" ++ tail) (refl, refl),
        ok_then tail,
        iequals_ascii_refl (codes "OK"),
        ltrim-word (codes "[") tail (refl, refl),
      )
      (parse_brackets-line inner rest key out (
          contains-append b']' key (b' ' ∷ decimal n) b
            (no_bracket (decimal n) (to_chars_digits 20 n)))
        ∙ parse_item-line key n out h k)
