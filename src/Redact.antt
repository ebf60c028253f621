-- ===== src/Redact.antt =====
-- include/mailxx/detail/redact.hpp: hiding credentials in a line that is about to be logged.
pub mod Tokens
pub mod Secrets
mod Tests
use mailio.Base.{
  ℕ, zero, suc, ◌+◌, ◌-◌, Bool, true, false, not, ◌&&◌, ◌||◌, Option, none, some, List, [], ◌∷◌,
  ◌++◌, reverse, ltb, leb, ◌==◌, within, if◌then◌else◌,
}
use mailio.Base.Bytes.{Bytes, codes, length, take, drop, get_or, is_empty, all_of, any_of, find}

pub upper : ℕ → ℕ
upper c = if within b'a' b'z' c then c - (b'a' - b'A') else c

pub iequals_loop : Bytes → Bytes → Bool
iequals_loop (x ∷ a) (y ∷ b) =
    let rest = iequals_loop a b in if not (upper x == upper y) then false else rest
iequals_loop _ _ = true

pub iequals_ascii : Bytes → Bytes → Bool
iequals_ascii a b = if not (length a == length b) then false else iequals_loop a b

pub starts_with_ci : Bytes → Bytes → Bool
starts_with_ci text prefix =
    if ltb (length text) (length prefix)
    then false
    else iequals_ascii (take (length prefix) text) prefix

-- `remove_prefix(1)` while the front is a space.
pub skip_spaces : Bytes → Bytes
skip_spaces [] = []
skip_spaces (c ∷ s) = let rest = skip_spaces s in if c == b' ' then rest else c ∷ s

-- One token, up to the space that was found or to the end, and the tokens of the text behind it.
pub split_token : (Bytes → List Bytes) → Bytes → Option ℕ → List Bytes
split_token later text none = text ∷ []
split_token later text (some pos) = take pos text ∷ later (drop (pos + 1) text)

-- The loop of `split_tokens`; each round takes at least one character.
pub split_loop : ℕ → Bytes → List Bytes
split_loop zero text = []
split_loop (suc fuel) text =
    let t = skip_spaces text in
    if is_empty t then [] else split_token (split_loop fuel) t (find b' ' t)

pub split_tokens : Bytes → List Bytes
split_tokens text = split_loop (suc (length text)) text

pub is_base64_char : ℕ → Bool
is_base64_char ch =
    within b'A' b'Z' ch
    || within b'a' b'z' ch
    || within b'0' b'9' ch
    || ch == b'+'
    || ch == b'/'
    || ch == b'='

pub looks_like_base64 : Bytes → Bool
looks_like_base64 text = if is_empty text then false else all_of is_base64_char text

pub has_base64_markers : Bytes → Bool
has_base64_markers text =
    any_of (λ ch. ch == b'=' || ch == b'+' || ch == b'/' || within b'0' b'9' ch) text

abbrev pub marker : Bytes
marker = codes "<redacted>"

-- `tokens.resize(i + 1); tokens[i] = "<redacted>";` where `i` is below the size.
pub cut_at : ℕ → List Bytes → List Bytes
cut_at i tokens = take i tokens ++ marker ∷ []

-- The loop that looks for LOGIN or AUTHENTICATE, from index `i` on.
pub scan : List Bytes → ℕ → List Bytes → Option (List Bytes)
scan tokens i [] = none
scan tokens i (token ∷ rest) =
    let later = scan tokens (i + 1) rest in
    if iequals_ascii token (codes "LOGIN")
    then if ltb (i + 2) (length tokens) then some (cut_at (i + 2) tokens) else none
    else if iequals_ascii token (codes "AUTHENTICATE")
    then if ltb (i + 1) (length tokens)
      then if ltb (i + 2) (length tokens) then some (cut_at (i + 2) tokens) else none
      else none
    else later

-- The three cases on the first token; `none` while nothing is redacted.
pub redact_command : List Bytes → Option (List Bytes)
redact_command tokens =
    if iequals_ascii (get_or tokens 0 []) (codes "PASS")
    then if leb 2 (length tokens) then some (cut_at 1 tokens) else none
    else if iequals_ascii (get_or tokens 0 []) (codes "AUTH")
    then if leb 3 (length tokens) then some (cut_at 2 tokens) else none
    else scan tokens 0 tokens

pub redact_single : List Bytes → Option (List Bytes)
redact_single tokens =
    let token = get_or tokens 0 [] in
    if length tokens == 1
      && looks_like_base64 token
      && (leb 12 (length token) || has_base64_markers token)
    then some (cut_at 0 tokens)
    else none

pub redact_tokens : List Bytes → Option (List Bytes)
redact_tokens tokens = elim (redact_command tokens) [
  | some r ↦ some r
  | none ↦ redact_single tokens
]

pub join : List Bytes → Bytes
join [] = []
join (t ∷ []) = t
join (t ∷ u ∷ ts) = t ++ b' ' ∷ join (u ∷ ts)

pub drop_eol : Bytes → Bytes
drop_eol [] = []
drop_eol (c ∷ s) = let rest = drop_eol s in if c == b'\r' || c == b'\n' then rest else c ∷ s

-- `remove_suffix(1)` while the back is CR or LF.
pub trim_eol : Bytes → Bytes
trim_eol line = reverse (drop_eol (reverse line))

pub count_spaces : Bytes → ℕ
count_spaces [] = 0
count_spaces (c ∷ s) = let rest = count_spaces s in if c == b' ' then suc rest else 0

-- From the split of the line into its parts on.
pub redact_parts : Bytes → Bytes → Bytes → Bytes → Bytes
redact_parts line prefix core suffix =
    let tokens = split_tokens core in
    if is_empty core
    then line
    else if is_empty tokens
    then line
    else elim (redact_tokens tokens) [ none ↦ line | some r ↦ prefix ++ (join r ++ suffix) ]

pub redact_line : Bytes → Bytes
redact_line line =
    let trimmed = trim_eol line in
    let prefix_len = count_spaces trimmed in
    redact_parts line (take prefix_len trimmed) (drop prefix_len trimmed)
      (drop (length trimmed) line)
