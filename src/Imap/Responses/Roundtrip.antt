-- ===== src/Imap/Responses/Roundtrip.antt =====
-- imap/types.hpp: the parsers on lines as a server writes them.
use mailio.Base.{
  ℕ, zero, suc, ◌^◌, ◌≤◌, ◌<◌, ◌≡◌, refl, ap, sym, ◌∙◌, true, false, some, List, [], ◌∷◌, ◌++◌,
  arith, within,
}
use mailio.Base.Bytes.{Bytes, codes, length, length-append, equal, contains, all_of, All, is_empty}
use mailio.Wire.{to_chars, parse_uint32}
use mailio.Wire.Decimal.{to_chars_digits, to_chars_pos, parse_uint32-to_chars}
use mailio.Imap.Responses.{
  MailboxStat, ltrim, upper, iequals_loop, iequals_ascii, split_token, read_uint32, parse_counted,
  parse_exists, parse_recent, parse_mailbox_stat, search_loop, parse_search_ids,
}
use mailio.Imap.Responses.Tokens.{
  IsWord, ltrim-word, ltrim-word_only, split_token-word, split_token-last, iequals_ascii_refl,
}

-- A number in decimal.
abbrev pub decimal : ℕ → Bytes
decimal n = to_chars 20 n

digits_no_space : (s : Bytes) → all_of (within b'0' b'9') s ≡ true → contains b' ' s ≡ false
digits_no_space [] h = refl
digits_no_space (c ∷ s) h = ground (arith, digits_no_space s)

pos_not_empty : (s : Bytes) → 0 < length s → is_empty s ≡ false
pos_not_empty [] h = absurd (omega arith)
pos_not_empty (c ∷ s) h = refl

pub decimal-IsWord : (n : ℕ) → IsWord (decimal n)
decimal-IsWord n = (
  pos_not_empty (decimal n) (to_chars_pos 19 n),
  digits_no_space (decimal n) (to_chars_digits 20 n),
)

read_uint32-some :
    (token : Bytes) (n out : ℕ) → parse_uint32 token ≡ some n → read_uint32 token out ≡ (true, n)
unfolding read_uint32
read_uint32-some token n out h = ground arith

pub read_uint32-decimal : (n out : ℕ) → n < 2 ^ 32 → read_uint32 (decimal n) out ≡ (true, n)
read_uint32-decimal n out h = read_uint32-some (decimal n) n out (parse_uint32-to_chars n h)

star-IsWord : IsWord (codes "*")
star-IsWord = (refl, refl)

-- `* <word> <rest>` is split into the star and the rest from the word on.
pub star_line :
    (w rest : Bytes) → IsWord w → split_token (codes "* " ++ (w ++ rest)) ≡ (codes "*", w ++ rest)
star_line w rest h =
    split_token-word (codes "*") (w ++ rest) star-IsWord
    ∙ ap (λ t. (codes "*", t)) (ltrim-word w rest h)

pub star_ltrim : (rest : Bytes) → ltrim (codes "* " ++ rest) ≡ codes "* " ++ rest
star_ltrim rest = ltrim-word (codes "*") (b' ' ∷ rest) star-IsWord

number_then : (n : ℕ) (w : Bytes) → IsWord w → split_token (decimal n ++ b' ' ∷ w) ≡ (decimal n, w)
number_then n w h =
    split_token-word (decimal n) w (decimal-IsWord n)
    ∙ ap (λ t. (decimal n, t)) (ltrim-word_only w h)

parse_counted-line :
    (keyword : Bytes) (n out : ℕ)
    → IsWord keyword
    → n < 2 ^ 32
    → parse_counted keyword (codes "* " ++ (decimal n ++ b' ' ∷ keyword)) out ≡ (true, n)
unfolding parse_counted equal
parse_counted-line keyword n out h k = rw (
  star_ltrim (decimal n ++ b' ' ∷ keyword),
  star_line (decimal n) (b' ' ∷ keyword) (decimal-IsWord n),
  number_then n keyword h,
  read_uint32-decimal n out k,
  split_token-last keyword h,
  iequals_ascii_refl keyword,
)

-- `* <number> EXISTS` is read as the number, which is below 2^32.
pub parse_exists-line :
    (n out : ℕ)
    → n < 2 ^ 32
    → parse_exists (codes "* " ++ (decimal n ++ codes " EXISTS")) out ≡ (true, n)
unfolding parse_exists
parse_exists-line n out h = parse_counted-line (codes "EXISTS") n out (refl, refl) h

pub parse_recent-line :
    (n out : ℕ)
    → n < 2 ^ 32
    → parse_recent (codes "* " ++ (decimal n ++ codes " RECENT")) out ≡ (true, n)
unfolding parse_recent
parse_recent-line n out h = parse_counted-line (codes "RECENT") n out (refl, refl) h

-- The line of another keyword is no EXISTS line, although its number is left in `out`.
other_keyword :
    (n out : ℕ)
    → n < 2 ^ 32
    → parse_exists (codes "* " ++ (decimal n ++ codes " RECENT")) out ≡ (false, n)
unfolding parse_exists parse_counted equal iequals_ascii iequals_loop upper
other_keyword n out h = rw (
  star_ltrim (decimal n ++ codes " RECENT"),
  star_line (decimal n) (codes " RECENT") (decimal-IsWord n),
  number_then n (codes "RECENT") (refl, refl),
  read_uint32-decimal n out h,
  split_token-last (codes "RECENT") (refl, refl),
)

-- An EXISTS line with a number below 2^32 sets `messages_no` to it, a RECENT line sets `recent`,
-- and both leave the other four fields as they were.
pub parse_mailbox_stat-counted :
    (n : ℕ) (stat : MailboxStat)
    → n < 2 ^ 32
    → (parse_mailbox_stat (codes "* " ++ (decimal n ++ codes " EXISTS")) stat
        ≡ record stat { messages_no = n })
      × (parse_mailbox_stat (codes "* " ++ (decimal n ++ codes " RECENT")) stat
          ≡ record stat { recent = n })
unfolding parse_mailbox_stat
parse_mailbox_stat-counted n stat h =
    (rw (parse_exists-line n 0 h), rw (other_keyword n 0 h, parse_recent-line n n h))

-- The numbers of a SEARCH response, each behind a space.
abbrev pub id_list : List ℕ → Bytes
id_list [] = []
id_list (n ∷ ids) = b' ' ∷ (decimal n ++ id_list ids)

ltrim_space : (s : Bytes) → ltrim (b' ' ∷ s) ≡ ltrim s
unfolding ltrim
ltrim_space s = refl

append_nil : (s : Bytes) → s ++ [] ≡ s
append_nil [] = refl
append_nil (c ∷ s) = ap (λ t. c ∷ t) (append_nil s)

ltrim_nil : ltrim [] ≡ []
unfolding ltrim
ltrim_nil = refl

word_then_ids :
    (w : Bytes) (ids : List ℕ)
    → IsWord w
    → split_token (w ++ id_list ids) ≡ (w, ltrim (id_list ids))
word_then_ids w [] h =
    ap split_token (append_nil w) ∙ split_token-last w h ∙ ap (λ t. (w, t)) (sym ltrim_nil)
word_then_ids w (m ∷ ids) h =
    split_token-word w (decimal m ++ id_list ids) h
    ∙ ap (λ t. (w, t)) (sym (ltrim_space (decimal m ++ id_list ids)))

length-ltrim : (s : Bytes) → length (ltrim s) ≤ length s
unfolding ltrim
length-ltrim [] = omega arith
length-ltrim (c ∷ s) = ground (arith, length-ltrim s)

ids_start : (n : ℕ) (ids : List ℕ) → ltrim (id_list (n ∷ ids)) ≡ decimal n ++ id_list ids
ids_start n ids =
    ltrim_space (decimal n ++ id_list ids) ∙ ltrim-word (decimal n) (id_list ids) (decimal-IsWord n)

number_not_empty : (n : ℕ) (rest : Bytes) → is_empty (decimal n ++ rest) ≡ false
number_not_empty n rest =
    pos_not_empty (decimal n ++ rest)
      (omega (arith, length-append (decimal n) rest, to_chars_pos 19 n))

-- One round on a number and what follows it.
search_loop-number :
    (fuel n : ℕ) (ids : List ℕ)
    → n < 2 ^ 32
    → search_loop (suc fuel) (decimal n ++ id_list ids) ≡ n ∷ search_loop fuel (ltrim (id_list ids))
unfolding search_loop
search_loop-number fuel n ids h =
    rw
      (
        number_not_empty n (id_list ids),
        word_then_ids (decimal n) ids (decimal-IsWord n),
        parse_uint32-to_chars n h,
      )
      (ap (λ t. n ∷ search_loop fuel (t.1)) (word_then_ids (decimal n) ids (decimal-IsWord n)))

search_loop-nothing : (fuel : ℕ) → search_loop fuel [] ≡ []
unfolding search_loop
search_loop-nothing zero = refl
search_loop-nothing (suc fuel) = refl

fuel_left :
    (fuel n : ℕ) (ids : List ℕ)
    → length (ltrim (id_list (n ∷ ids))) ≤ suc fuel
    → length (ltrim (id_list ids)) ≤ fuel
fuel_left fuel n ids h = omega (
  arith,
  ap length (ids_start n ids),
  length-append (decimal n) (id_list ids),
  to_chars_pos 19 n,
  length-ltrim (id_list ids),
)

no_fuel_left : (n : ℕ) (ids : List ℕ) → ¬ (length (ltrim (id_list (n ∷ ids))) ≤ 0)
no_fuel_left n ids h =
    omega (
      arith,
      ap length (ids_start n ids),
      length-append (decimal n) (id_list ids),
      to_chars_pos 19 n,
    )

search_loop-ids :
    (fuel : ℕ) (ids : List ℕ)
    → All (λ n. n < 2 ^ 32) ids
    → length (ltrim (id_list ids)) ≤ fuel
    → search_loop fuel (ltrim (id_list ids)) ≡ ids
search_loop-ids fuel [] h k = ap (search_loop fuel) ltrim_nil ∙ search_loop-nothing fuel
search_loop-ids zero (n ∷ ids) h k = absurd (no_fuel_left n ids k)
search_loop-ids (suc fuel) (n ∷ ids) (hn, h) k =
    ap (search_loop (suc fuel)) (ids_start n ids)
    ∙ search_loop-number fuel n ids hn
    ∙ ap (λ later. n ∷ later) (search_loop-ids fuel ids h (fuel_left fuel n ids k))

ltrim-ltrim : (s : Bytes) → ltrim (ltrim s) ≡ ltrim s
unfolding ltrim
ltrim-ltrim [] = refl
ltrim-ltrim (c ∷ s) = ground (arith, ltrim-ltrim s)

-- `* SEARCH` followed by any numbers below 2^32, each behind a space, is read as these numbers in
-- their order: the loop has fuel enough for all of them.
pub parse_search_ids-line :
    (ids : List ℕ)
    → All (λ n. n < 2 ^ 32) ids
    → parse_search_ids (codes "* SEARCH" ++ id_list ids) ≡ ids
unfolding parse_search_ids equal
parse_search_ids-line ids h =
    rw
      (
        star_ltrim (codes "SEARCH" ++ id_list ids),
        star_line (codes "SEARCH") (id_list ids) (refl, refl),
        word_then_ids (codes "SEARCH") ids (refl, refl),
        iequals_ascii_refl (codes "SEARCH"),
        ltrim-ltrim (id_list ids),
      )
      (search_loop-ids (length (ltrim (id_list ids))) ids h (omega arith))
