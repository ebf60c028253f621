-- ===== src/Imap/Responses/Tokens.antt =====
-- imap/types.hpp: words, spaces and keywords of a response line.
use native.Mathlib.Numerals.{add-one}
use mailio.Base.{ℕ, ◌≡◌, refl, true, false, none, [], ◌∷◌, ◌++◌, arith, ◌==◌}
use mailio.Base.Bytes.{
  Bytes, length, find, contains, is_empty, find-append, take-length, drop-length-suc,
}
use mailio.Imap.Responses.{ltrim, iequals_loop, iequals_ascii, split_at, split_token}

-- A word has a character, and no space.
abbrev pub IsWord : Bytes → Type 0
IsWord w = (is_empty w ≡ false) × (contains b' ' w ≡ false)

ltrim_id : (c : ℕ) (w : Bytes) → (c == b' ') ≡ false → ltrim (c ∷ w) ≡ c ∷ w
unfolding ltrim
ltrim_id c w h = rw h

pub ltrim-word : (w rest : Bytes) → IsWord w → ltrim (w ++ rest) ≡ w ++ rest
ltrim-word [] rest (h, k) = absurd (cc)
ltrim-word (c ∷ w) rest (h, k) = ltrim_id c (w ++ rest) (ground arith)

pub ltrim-word_only : (w : Bytes) → IsWord w → ltrim w ≡ w
ltrim-word_only [] (h, k) = absurd (cc)
ltrim-word_only (c ∷ w) (h, k) = ltrim_id c w (ground arith)

find-none : (c : ℕ) (s : Bytes) → contains c s ≡ false → find c s ≡ none
unfolding find
find-none c [] h = refl
find-none c (x ∷ s) h = ground (arith, find-none c s)

-- A word and a space behind it: the word, and what follows the spaces.
pub split_token-word :
    (w rest : Bytes) → IsWord w → split_token (w ++ b' ' ∷ rest) ≡ (w, ltrim rest)
unfolding split_token split_at
split_token-word w rest h = rw (
  ltrim-word w (b' ' ∷ rest) h,
  find-append b' ' w rest (h.1),
  take-length w (b' ' ∷ rest),
  add-one (length w),
  drop-length-suc w b' ' rest,
)

pub split_token-last : (w : Bytes) → IsWord w → split_token w ≡ (w, [])
unfolding split_token split_at
split_token-last w h = rw (ltrim-word_only w h, find-none b' ' w (h.1))

iequals_loop_refl : (a : Bytes) → iequals_loop a a ≡ true
unfolding iequals_loop
iequals_loop_refl [] = refl
iequals_loop_refl (c ∷ a) = ground (arith, iequals_loop_refl a)

pub iequals_ascii_refl : (a : Bytes) → iequals_ascii a a ≡ true
unfolding iequals_ascii
iequals_ascii_refl a = ground (arith, iequals_loop_refl a)
