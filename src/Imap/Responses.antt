-- ===== src/Imap/Responses.antt =====
-- include/mailxx/imap/types.hpp: the untagged responses of a server. A `std::uint32_t&` that a
-- function writes is passed in and handed back beside the result.
pub mod Tokens
pub mod Roundtrip
pub mod Items
mod Tests
use mailio.Base.{
  ℕ, zero, suc, ◌+◌, ◌-◌, Bool, true, false, not, Option, none, some, List, [], ◌∷◌, ltb, leb, ◌&&◌,
  ◌||◌, ◌==◌, within, if◌then◌else◌,
}
use mailio.Base.Bytes.{Bytes, codes, length, take, drop, find, is_empty, front_or, equal}
use mailio.Wire.{parse_uint32}

pub record MailboxStat : Type 0 where
  pub messages_no : ℕ
  pub recent : ℕ
  pub unseen : ℕ
  pub uid_next : ℕ
  pub uid_validity : ℕ

unfoldable pub ltrim : Bytes → Bytes
ltrim [] = []
ltrim (c ∷ text) = let rest = ltrim text in if c == b' ' then rest else c ∷ text

unfoldable pub upper : ℕ → ℕ
upper c = if leb b'a' c && leb c b'z' then c - (b'a' - b'A') else c

pub iequals_loop : Bytes → Bytes → Bool
iequals_loop (ca ∷ a) (cb ∷ b) =
    let rest = iequals_loop a b in if not (upper ca == upper cb) then false else rest
iequals_loop _ _ = true

pub iequals_ascii : Bytes → Bytes → Bool
iequals_ascii a b = if not (length a == length b) then false else iequals_loop a b

-- The text up to the space that was found, and what follows it.
unfoldable pub split_at : Bytes → Option ℕ → Bytes × Bytes
split_at text none = (text, [])
split_at text (some pos) = (take pos text, ltrim (drop (pos + 1) text))

unfoldable pub split_token : Bytes → Bytes × Bytes
split_token text = split_at (ltrim text) (find b' ' (ltrim text))

-- The number read, or the old value of `out` beside `false`.
pub read_uint32 : Bytes → ℕ → Bool × ℕ
read_uint32 token out = elim (parse_uint32 token) [
  | none ↦ (false, out)
  | some value ↦ (true, value)
]

-- `parse_exists` and `parse_recent`, which differ in the keyword alone.
pub parse_counted : Bytes → Bytes → ℕ → Bool × ℕ
parse_counted expected line out =
    let (star, rest) = split_token (ltrim line) in
    let (num, rest2) = split_token rest in
    let (is_number, value) = read_uint32 num out in
    let (keyword, rest3) = split_token rest2 in
    if not (equal star (codes "*"))
    then (false, out)
    else if not is_number
    then (false, out)
    else (iequals_ascii keyword expected, value)

pub parse_exists : Bytes → ℕ → Bool × ℕ
parse_exists = parse_counted (codes "EXISTS")

pub parse_recent : Bytes → ℕ → Bool × ℕ
parse_recent = parse_counted (codes "RECENT")

-- What stands between the brackets: a key and its value.
pub parse_item : Bytes → Bytes → ℕ → Bool × ℕ
parse_item inner key out =
    let (inner_key, inner_rest) = split_token inner in
    let (value_token, ignored) = split_token inner_rest in
    if not (iequals_ascii inner_key key) then (false, out) else read_uint32 value_token out

-- The response code in brackets at the front, when there is a closing bracket.
pub parse_brackets : Bytes → Bytes → ℕ → Bool × ℕ
parse_brackets rest2 key out =
    if is_empty rest2 || not (front_or rest2 0 == b'[')
    then (false, out)
    else elim (find b']' rest2) [
      | none ↦ (false, out)
      | some close ↦ parse_item (take (close - 1) (drop 1 rest2)) key out
    ]

pub parse_ok_item : Bytes → Bytes → ℕ → Bool × ℕ
parse_ok_item line key out =
    let (star, rest) = split_token (ltrim line) in
    let (ok_word, rest2) = split_token rest in
    if not (equal star (codes "*"))
    then (false, out)
    else if not (iequals_ascii ok_word (codes "OK"))
    then (false, out)
    else parse_brackets (ltrim rest2) key out

pub parse_unseen : Bytes → ℕ → Bool × ℕ
parse_unseen line out = parse_ok_item line (codes "UNSEEN") out

pub parse_uidnext : Bytes → ℕ → Bool × ℕ
parse_uidnext line out = parse_ok_item line (codes "UIDNEXT") out

pub parse_uidvalidity : Bytes → ℕ → Bool × ℕ
parse_uidvalidity line out = parse_ok_item line (codes "UIDVALIDITY") out

-- The parsers in turn on one `value`, which each may overwrite.
pub parse_mailbox_stat : Bytes → MailboxStat → MailboxStat
parse_mailbox_stat line stat =
    let (exists, value1) = parse_exists line 0 in
    let (recent, value2) = parse_recent line value1 in
    let (unseen, value3) = parse_unseen line value2 in
    let (uidnext, value4) = parse_uidnext line value3 in
    let (uidvalidity, value5) = parse_uidvalidity line value4 in
    if exists
    then record stat { messages_no = value1 }
    else if recent
    then record stat { recent = value2 }
    else if unseen
    then record stat { unseen = value3 }
    else if uidnext
    then record stat { uid_next = value4 }
    else if uidvalidity
    then record stat { uid_validity = value5 }
    else stat

-- The loop over the numbers; each round takes at least one character.
pub search_loop : ℕ → Bytes → List ℕ
search_loop zero rest2 = []
search_loop (suc fuel) rest2 =
    let (id_token, remaining) = split_token rest2 in
    let later = search_loop fuel remaining in
    if is_empty rest2
    then []
    else elim (parse_uint32 id_token) [ none ↦ [] | some value ↦ value ∷ later ]

pub parse_search_ids : Bytes → List ℕ
parse_search_ids line =
    let (star, rest) = split_token (ltrim line) in
    let (keyword, rest2) = split_token rest in
    if not (equal star (codes "*"))
    then []
    else if not (iequals_ascii keyword (codes "SEARCH"))
    then []
    else search_loop (length (ltrim rest2)) (ltrim rest2)
