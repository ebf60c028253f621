-- ===== src/Ascii.antt =====
-- include/mailxx/detail/ascii.hpp: character classes, trimming, and the validators of header
-- names, header values and message ids. A `char` is a byte below 256; `std::isspace` is that of
-- the C locale.
pub mod Headers
pub mod MessageId
mod Tests
use mailio.Base.{
  ℕ, suc, ◌+◌, ◌-◌, Bool, true, false, not, ◌&&◌, ◌||◌, Option, none, some, List, [], ◌∷◌, reverse,
  ltb, leb, ◌==◌, within, if◌then◌else◌,
}
use mailio.Base.Bytes.{
  Bytes, codes, length, take, drop, is_empty, all_of, back_or, front_or, find, contains,
}

pub ascii_tolower : ℕ → ℕ
ascii_tolower c = if within b'A' b'Z' c then c + (b'a' - b'A') else c

-- The loop over the indices of two strings of one size.
pub iequals_loop : Bytes → Bytes → Bool
iequals_loop (x ∷ a) (y ∷ b) =
    let rest = iequals_loop a b in if not (ascii_tolower x == ascii_tolower y) then false else rest
iequals_loop _ _ = true

pub iequals_ascii : Bytes → Bytes → Bool
iequals_ascii a b = if not (length a == length b) then false else iequals_loop a b

pub is_space : ℕ → Bool
is_space c = within 9 13 c || c == b' '

-- `remove_prefix(1)` while the front is a space.
pub trim_front : Bytes → Bytes
trim_front [] = []
trim_front (c ∷ cs) = let rest = trim_front cs in if is_space c then rest else c ∷ cs

-- The second loop does the same at the back.
pub trim_view : Bytes → Bytes
trim_view sv = reverse (trim_front (reverse (trim_front sv)))

abbrev pub header_name_char : ℕ → Bool
header_name_char c = within 33 57 c || within 59 126 c

pub is_valid_header_name : Bytes → Bool
is_valid_header_name name = if is_empty name then false else all_of header_name_char name

abbrev pub header_value_char : ℕ → Bool
header_value_char c =
    if c == b'\r' || c == b'\n'
    then false
    else if ltb c 32 && not (c == b'\t')
    then false
    else not (c == 127)

pub is_valid_header_value : Bytes → Bool
is_valid_header_value value = all_of header_value_char value

pub is_ascii_alpha : ℕ → Bool
is_ascii_alpha c = within b'A' b'Z' c || within b'a' b'z' c

pub is_ascii_digit : ℕ → Bool
is_ascii_digit c = within b'0' b'9' c

pub is_ascii_alnum : ℕ → Bool
is_ascii_alnum c = is_ascii_alpha c || is_ascii_digit c

abbrev pub atext_punct : Bytes
atext_punct = codes "!#$%&'*+-/=?^_`{|}~"

pub is_atext : ℕ → Bool
is_atext c = is_ascii_alnum c || contains c atext_punct

-- The loop of `is_dot_atom_text`, over its flag.
pub dot_atom_loop : Bool → Bytes → Bool
dot_atom_loop prev_dot [] = true
dot_atom_loop prev_dot (ch ∷ s) =
    let after_dot = dot_atom_loop true s in
    let after_atext = dot_atom_loop false s in
    if ch == b'.'
    then if prev_dot then false else after_dot
    else if not (is_atext ch)
    then false
    else after_atext

pub is_dot_atom_text : Bytes → Bool
is_dot_atom_text s =
    if is_empty s
    then false
    else if front_or s 0 == b'.' || back_or s 0 == b'.'
    then false
    else dot_atom_loop false s

-- `id.substr(1, id.size() - 2)`
abbrev pub without_ends : Bytes → Bytes
without_ends s = take (length s - 2) (drop 1 s)

-- The normalisation both validators begin with.
pub message_id_body : Bytes → Bytes
message_id_body id =
    let t = trim_view id in
    if leb 2 (length t) && front_or t 0 == b'<' && back_or t 0 == b'>'
    then trim_view (without_ends t)
    else t

-- One round of the loop that refuses whitespace, controls and angle brackets.
pub message_id_char : ℕ → Bool
message_id_char c =
    if c == b'<' || c == b'>'
    then false
    else if c == b'\r' || c == b'\n'
    then false
    else if is_space c
    then false
    else not (ltb c 33 || c == 127)

pub strict_at : Bytes → Option ℕ → Bool
strict_at id none = false
strict_at id (some at) =
    if at == 0 || leb (length id) (at + 1)
    then false
    else if contains b'@' (drop (at + 1) id)
    then false
    else if not (all_of message_id_char id)
    then false
    else is_dot_atom_text (take at id) && is_dot_atom_text (drop (at + 1) id)

pub is_valid_message_id_strict : Bytes → Bool
is_valid_message_id_strict id =
    let body = message_id_body id in
    if is_empty body then false else strict_at body (find b'@' body)

pub relaxed_at : Bytes → Option ℕ → Bool
relaxed_at id none = false
relaxed_at id (some at) =
    if at == 0 || leb (length id) (at + 1) then false else all_of message_id_char id

pub is_valid_message_id_relaxed : Bytes → Bool
is_valid_message_id_relaxed id =
    let body = message_id_body id in
    if is_empty body then false else relaxed_at body (find b'@' body)

pub is_name_token_char : ℕ → Bool
is_name_token_char c = is_ascii_alnum c || c == b' ' || c == b'\t'

abbrev pub qtext_punct : Bytes
qtext_punct = codes "!#$%&'()*+,-.@/:;<=>?[]^_`{|}~"

pub is_qtext_char : ℕ → Bool
is_qtext_char c = is_ascii_alnum c || c == b' ' || c == b'\t' || contains c qtext_punct

abbrev pub dtext_punct : Bytes
dtext_punct = codes "!#$%&'*+-./@=?^_`{|}~"

pub is_dtext_char : ℕ → Bool
is_dtext_char c = is_ascii_alnum c || contains c dtext_punct

pub is_group_name_char : ℕ → Bool
is_group_name_char c = is_ascii_alnum c || c == b'.' || contains c atext_punct

pub is_group_name : Bytes → Bool
is_group_name s = all_of is_group_name_char s
