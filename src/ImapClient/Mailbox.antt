-- ===== src/ImapClient/Mailbox.antt =====
-- imap/client.hpp: the commands on mailboxes and messages.
use mailio.Base.{
  ℕ, zero, suc, ◌+◌, ◌-◌, Bool, true, false, not, ◌&&◌, ◌||◌, Option, none, some, List, [], ◌∷◌,
  ◌++◌, leb, ◌==◌, if◌then◌else◌,
}
use mailio.Base.Bytes.{Bytes, codes, length, take, drop, get_or, front_or, is_empty, find, equal}
use mailio.Base.Result.{map_error}
use mailio.Base.Action.{Action, pure, lift, gets, ◌>>=◌, ◌>>◌}
use mailio.Net.{write_line, write_raw}
use mailio.Wire.{append_sv, append_space, append_uint, append_char}
use mailio.Imap.Astring.{to_mailbox}
use mailio.Imap.Append.{build_append_command}
use mailio.Imap.Responses.{
  MailboxStat, ltrim, iequals_ascii, split_token, parse_mailbox_stat, parse_search_ids,
}
use mailio.ImapClient.{
  Client, Response, new_response, on_link, ensure, extract_literal_size, to_upper_ascii,
  is_tagged_line, read_lines, read_response_until_tag, next_tag, command_impl,
}
use mailio.ImapClient.Capability.{starts_with_ci, after_word}
use mailio.ImapClient.Session.{thrown}

-- A quoted string: its text and what follows, where it is closed.
pub quoted_loop : Bytes → Bytes → Option (Bytes × Bytes)
quoted_loop out [] = none
quoted_loop out (ch ∷ []) = if ch == b'"' then some (out, []) else none
quoted_loop out (ch ∷ next ∷ text) = elim (ch == b'"') [
  | true ↦ some (out, ltrim (next ∷ text))
  | false ↦ elim (ch == b'\\') [
    | true ↦ quoted_loop (out ++ next ∷ []) text
    | false ↦ quoted_loop (out ++ ch ∷ []) (next ∷ text)
  ]
]

pub parse_quoted_string : Bytes → Option (Bytes × Bytes)
parse_quoted_string text =
    if front_or (ltrim text) 0 == b'"' then quoted_loop [] (drop 1 (ltrim text)) else none

pub parse_atom : Bytes → Option (Bytes × Bytes)
parse_atom text = if is_empty (ltrim text) then none else some (split_token text)

pub parse_quoted_or_atom : Bytes → Option (Bytes × Bytes)
parse_quoted_or_atom text =
    if is_empty (ltrim text)
    then none
    else if front_or (ltrim text) 0 == b'"'
    then parse_quoted_string text
    else parse_atom text

pub record MailboxFolder : Type 0 where
  pub name : Bytes
  pub delimiter : ℕ
  pub attributes : List Bytes

-- The attributes between spaces; each takes at least one character.
pub attributes_loop : ℕ → Bytes → List Bytes
attributes_loop zero attrs = []
attributes_loop (suc fuel) attrs =
    let (token, rest) = split_token attrs in
    let later = attributes_loop fuel rest in
    if is_empty attrs then [] else if is_empty token then later else token ∷ later

pub parse_list_attributes : Bytes → List Bytes
parse_list_attributes attrs = attributes_loop (length (ltrim attrs)) (ltrim attrs)

abbrev or_nil : Bytes → Bytes
or_nil token = if iequals_ascii token (codes "NIL") then [] else token

-- What follows the attributes: the delimiter and the name.
pub parse_folder : List Bytes → Bytes → Option MailboxFolder
parse_folder attributes rest = elim (parse_quoted_or_atom rest) [
  | none ↦ none
  | some (delimiter_token, rest2) ↦ elim (parse_quoted_or_atom rest2) [
    | none ↦ none
    | some (name_token, rest3) ↦ some (record {
      name = or_nil name_token;
      delimiter = front_or (or_nil delimiter_token) 0;
      attributes = attributes;
    })
  ]
]

pub parse_list_line : Bytes → Option MailboxFolder
parse_list_line line =
    let (star, rest) = split_token (ltrim line) in
    let (keyword, rest2) = split_token rest in
    let list = ltrim rest2 in
    if not (equal star (codes "*"))
      || not (iequals_ascii keyword (codes "LIST"))
      || not (front_or list 0 == b'(')
    then none
    else elim (find b')' list) [
      | none ↦ none
      | some close ↦
          parse_folder (parse_list_attributes (take (close - 1) (drop 1 list)))
            (ltrim (drop (close + 1) list))
    ]

pub parse_folders : List Bytes → List MailboxFolder
parse_folders [] = []
parse_folders (line ∷ lines) = elim (parse_list_line line) [
  | none ↦ parse_folders lines
  | some folder ↦ folder ∷ parse_folders lines
]

-- Two words with a space between.
abbrev spaced : Bytes → Bytes → Bytes
spaced cmd word = append_sv (append_space cmd) word

unfoldable pub list : Bytes → Bytes → Action Client (Response × List MailboxFolder)
list reference pattern_ = do
  ensure reference (codes "reference")
  ensure pattern_ (codes "pattern")
  ref ← lift (map_error thrown (to_mailbox reference))
  pat ← lift (map_error thrown (to_mailbox pattern_))
  resp ← command_impl (spaced (spaced (codes "LIST") ref) pat)
  pure (resp, parse_folders resp.untagged_lines)

pub parse_stats : MailboxStat → List Bytes → MailboxStat
parse_stats stat [] = stat
parse_stats stat (line ∷ lines) = parse_stats (parse_mailbox_stat line stat) lines

abbrev no_stat : MailboxStat
no_stat = record { messages_no = 0; recent = 0; unseen = 0; uid_next = 0; uid_validity = 0 }

-- `select` and `examine`, by their word.
unfoldable pub open_mailbox : Bytes → Bytes → Action Client (Response × MailboxStat)
open_mailbox word mailbox = do
  ensure mailbox (codes "mailbox")
  box ← lift (map_error thrown (to_mailbox mailbox))
  resp ← command_impl (spaced word box)
  pure (resp, parse_stats no_stat resp.untagged_lines)

unfoldable pub select : Bytes → Action Client (Response × MailboxStat)
select = open_mailbox (codes "SELECT")

unfoldable pub examine : Bytes → Action Client (Response × MailboxStat)
examine = open_mailbox (codes "EXAMINE")

pub collect_ids : List Bytes → List ℕ
collect_ids [] = []
collect_ids (line ∷ lines) = parse_search_ids line ++ collect_ids lines

unfoldable pub search_messages : Bytes → Bool → Action Client (Response × List ℕ)
search_messages criteria uid = do
  ensure criteria (codes "criteria")
  let word = if uid then codes "UID SEARCH" else codes "SEARCH"
  resp ← command_impl (if is_empty criteria then word else spaced word criteria)
  pure (resp, collect_ids resp.untagged_lines)

unfoldable pub uid_search : Bytes → Action Client (List ℕ)
uid_search criteria = do found ← search_messages criteria true; pure (found.1)

-- The loop over the lines that announce a literal.
pub literal_loop : Bytes → List Bytes → ℕ → List Bytes → Bytes
literal_loop marker literals literal_index [] = []
literal_loop marker literals literal_index (line ∷ lines) = elim (extract_literal_size line) [
  | none ↦ literal_loop marker literals literal_index lines
  | some size ↦ elim (after_word marker (to_upper_ascii line)) [
    | some rest ↦ get_or literals literal_index []
    | none ↦ elim (leb (length literals) (literal_index + 1)) [
      | true ↦ []
      | false ↦ literal_loop marker literals (literal_index + 1) lines
    ]
  ]
]

pub select_fetch_literal : Response → Bytes → Bytes
select_fetch_literal resp marker =
    if length resp.literals == 1
    then front_or resp.literals []
    else if is_empty resp.literals
    then []
    else literal_loop (to_upper_ascii marker) resp.literals 0 resp.untagged_lines

unfoldable pub uid_fetch_rfc822 : ℕ → Action Client Bytes
uid_fetch_rfc822 uid = do
  resp ←
      command_impl (spaced (append_uint (append_space (codes "UID FETCH")) uid) (codes "(RFC822)"))
  pure (select_fetch_literal resp (codes "RFC822"))

unfoldable pub uid_fetch_body : ℕ → Bytes → Action Client Bytes
uid_fetch_body uid section = do
  ensure section (codes "section")
  let head = append_char (append_space (append_uint (append_space (codes "UID FETCH")) uid)) b'('
  resp ← command_impl (append_char (append_sv head section) b')')
  pure (select_fetch_literal resp (codes "BODY["))

unfoldable pub fetch : Bytes → Bytes → Bool → Action Client Response
fetch seq_set items uid = do
  ensure seq_set (codes "seq_set")
  ensure items (codes "items")
  let word = if uid then codes "UID FETCH" else codes "FETCH"
  command_impl (spaced (spaced word seq_set) items)

abbrev is_signed : Bytes → Bool
is_signed mode = front_or mode 0 == b'+' || front_or mode 0 == b'-'

pub build_store_item : Bytes → Bytes → Bytes
build_store_item item_name mode =
    let named = starts_with_ci item_name (codes "FLAGS") in
    if is_empty mode
    then item_name
    else if is_empty item_name
    then mode
    else if iequals_ascii mode (codes "FLAGS") && named
    then item_name
    else if is_signed mode && iequals_ascii (drop 1 mode) (codes "FLAGS") && named
    then front_or mode 0 ∷ item_name
    else spaced mode item_name

unfoldable pub store : Bytes → Bytes → Bytes → Bytes → Bool → Action Client Response
store seq_set item_name value mode uid = do
  ensure seq_set (codes "seq_set")
  ensure item_name (codes "item_name")
  ensure value (codes "value")
  ensure mode (codes "mode")
  let word = if uid then codes "UID STORE" else codes "STORE"
  let cmd = spaced (spaced word seq_set) (build_store_item item_name mode)
  command_impl (if is_empty value then cmd else spaced cmd value)

-- The wait for a continuation ends at one, or at the tagged line.
unfoldable pub await_continuation : Bytes → Bytes → Bool → Action Client (Bool × Bool)
await_continuation tag line got =
    pure (front_or line 0 == b'+', (front_or line 0 == b'+') || is_tagged_line line tag)

-- The literal, and the rest of the response.
unfoldable pub send_literal : Bytes → Bytes → Response → Action Client Response
send_literal payload tag resp = do on_link (write_raw payload); read_response_until_tag resp tag

unfoldable pub append_answered : Bytes → Bytes → Response × Bool → Action Client Response
append_answered payload tag (resp, got_continuation) =
    if got_continuation then send_literal payload tag resp else pure resp

unfoldable pub append_raw_impl : Bytes → Bytes → Bytes → Bytes → Action Client Response
append_raw_impl mailbox payload flags date_time = do
  c ← gets (λ c. c)
  let use_literal_plus : Bool = elim c.literal_plus [ none ↦ false | some b ↦ b ]
  cmd ← lift (
      map_error thrown
        (build_append_command mailbox (length payload) flags date_time use_literal_plus))
  tag ← next_tag
  on_link (write_line (append_sv (append_space tag) cmd))
  if use_literal_plus then send_literal payload tag (new_response tag) else (do
    answered ← read_lines (await_continuation tag) tag (new_response tag) false
    append_answered payload tag answered)
