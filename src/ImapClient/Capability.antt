-- ===== src/ImapClient/Capability.antt =====
-- imap/client.hpp: the capabilities of a server.
use mailio.Base.{
  ℕ, zero, suc, Bool, true, false, not, ◌&&◌, ◌||◌, Option, none, some, List, [], ◌∷◌, ◌++◌, leb,
  ◌==◌, if◌then◌else◌,
}
use mailio.Base.Bytes.{Bytes, codes, length, take, drop, any_of, is_empty, equal}
use mailio.Imap.Responses.{ltrim, iequals_ascii, split_token}
use mailio.ImapClient.{Client, Response, Capabilities, to_upper_ascii}

pub starts_with_ci : Bytes → Bytes → Bool
starts_with_ci text prefix =
    leb (length prefix) (length text) && iequals_ascii (take (length prefix) text) prefix

pub strip_front : Bytes → Bytes
strip_front [] = []
strip_front (c ∷ token) =
    let rest = strip_front token in if c == b'[' || c == b'(' then rest else c ∷ token

pub strip_back : Bytes → Bytes
strip_back [] = []
strip_back (c ∷ token) =
    let rest = strip_back token in
    if is_empty rest && (c == b']' || c == b')') then [] else c ∷ rest

pub normalize_capability_token : Bytes → Bytes
normalize_capability_token token = strip_back (strip_front (ltrim token))

-- `text.find(word)`, by what follows the word.
pub after_word : Bytes → Bytes → Option Bytes
after_word word [] = if is_empty word then some [] else none
after_word word (c ∷ text) =
    let rest = after_word word text in
    if equal (take (length word) (c ∷ text)) word
    then some (drop (length word) (c ∷ text))
    else rest

pub no_capabilities : Capabilities
no_capabilities = record { sasl_ir = false; auth_mechanisms = []; raw_tokens = [] }

pub add_auth_mechanism : Capabilities → Bytes → Capabilities
add_auth_mechanism caps mechanism =
    let key = to_upper_ascii (normalize_capability_token mechanism) in
    if is_empty (normalize_capability_token mechanism)
      || any_of (λ known. equal known key) caps.auth_mechanisms
    then caps
    else record caps { auth_mechanisms = caps.auth_mechanisms ++ key ∷ [] }

-- The mechanisms between commas; `current` is the one being read.
pub add_auth_mechanisms_from_list : Capabilities → Bytes → Bytes → Capabilities
add_auth_mechanisms_from_list caps current [] = add_auth_mechanism caps current
add_auth_mechanisms_from_list caps current (c ∷ list) =
    add_auth_mechanisms_from_list (if c == b',' then add_auth_mechanism caps current else caps)
      (if c == b',' then [] else (current ++ c ∷ [])) list

-- One token: what it adds, and whether a list of SASL mechanisms has begun.
pub add_token : Capabilities → Bool → Bytes → Capabilities × Bool
add_token caps sasl_list token =
    let known = record caps { raw_tokens = caps.raw_tokens ++ to_upper_ascii token ∷ [] } in
    let ir = iequals_ascii token (codes "SASL-IR") in
    let noted : Capabilities = if ir then record known { sasl_ir = true } else known in
    if starts_with_ci token (codes "AUTH=")
    then (add_auth_mechanism noted (drop 5 token), sasl_list)
    else if starts_with_ci token (codes "SASL=")
    then (
      if is_empty (drop 5 token)
          then noted
          else add_auth_mechanisms_from_list noted [] (drop 5 token),
      sasl_list,
    )
    else if iequals_ascii token (codes "SASL")
    then (noted, true)
    else if sasl_list && not ir
    then (add_auth_mechanism noted token, sasl_list)
    else (noted, sasl_list)

-- The loop over the tokens; each takes at least one character.
pub token_loop : ℕ → Capabilities → Bool → Bytes → Capabilities
token_loop zero caps sasl_list rest = caps
token_loop (suc fuel) caps sasl_list rest =
    let (raw, remaining) = split_token rest in
    let token = normalize_capability_token raw in
    let (added, begun) =
      if is_empty token then (caps, sasl_list) else add_token caps sasl_list token in
    let later = token_loop fuel added begun remaining in
    if is_empty rest || is_empty raw then caps else later

pub parse_capability_line : Capabilities → Bytes → Capabilities
parse_capability_line caps line = elim (after_word (codes "CAPABILITY") line) [
  | none ↦ caps
  | some rest ↦ token_loop (length (ltrim rest)) caps false (ltrim rest)
]

pub parse_lines : Capabilities → List Bytes → Capabilities
parse_lines caps [] = caps
parse_lines caps (line ∷ lines) = parse_lines (parse_capability_line caps line) lines

pub parse_capabilities : Response → Capabilities
parse_capabilities resp =
    parse_lines (parse_lines no_capabilities resp.untagged_lines) resp.tagged_lines

pub has_auth_mechanism : Capabilities → Bytes → Bool
has_auth_mechanism caps mechanism =
    any_of (λ mech. equal mech (to_upper_ascii mechanism)) caps.auth_mechanisms

pub token_has_literal_plus : Bytes → Bool
token_has_literal_plus token = iequals_ascii (normalize_capability_token token) (codes "LITERAL+")

pub literal_plus_loop : ℕ → Bytes → Bool
literal_plus_loop zero rest = false
literal_plus_loop (suc fuel) rest =
    let (token, remaining) = split_token rest in
    let later = literal_plus_loop fuel remaining in
    if is_empty rest || is_empty token then false else token_has_literal_plus token || later

-- Whether the line lists capabilities, and LITERAL+ among them.
pub line_has_capability : Bytes → Option Bool
line_has_capability line = elim (after_word (codes "CAPABILITY") line) [
  | none ↦ none
  | some rest ↦ some (literal_plus_loop (length (ltrim rest)) (ltrim rest))
]

-- What the lines say together; the old value where none lists capabilities.
pub join_found : Option Bool → Option Bool → Option Bool
join_found none found = found
join_found (some a) none = some a
join_found (some a) (some b) = some (a || b)

pub find_literal_plus : Option Bool → List Bytes → Option Bool
find_literal_plus found [] = found
find_literal_plus found (line ∷ lines) =
    find_literal_plus (join_found found (line_has_capability line)) lines

unfoldable pub keep_literal_plus : Option Bool → Client → Client
keep_literal_plus none c = c
keep_literal_plus (some found) c = record c { literal_plus = some found }

unfoldable pub update_literal_plus : Response → Client → Client
update_literal_plus resp =
    keep_literal_plus
      (find_literal_plus (find_literal_plus none resp.untagged_lines) resp.tagged_lines)

unfoldable pub update_literal_plus_from_line : Bytes → Client → Client
update_literal_plus_from_line line = keep_literal_plus (line_has_capability line)
