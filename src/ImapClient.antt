-- ===== src/ImapClient.antt =====
-- include/mailxx/imap/client.hpp: the state of a client, commands and their tagged responses. The
-- members here run while the mutex of the client is held. `ltrim`, `split_token` and `iequals_ascii`
-- are written in the client as in imap/types.hpp.
pub mod Capability
pub mod Session
pub mod Mailbox
pub mod Steps
pub mod Calls
pub mod Append
pub mod Answers
mod Tests
use mailio.Base.{
  ℕ, zero, suc, ◌+◌, ◌-◌, ◌*◌, ◌%◌, ◌^◌, Bool, true, false, not, ◌&&◌, ◌||◌, Option, none, some,
  List, [], ◌∷◌, ◌++◌, ltb, leb, ◌==◌, within, if◌then◌else◌,
}
use mailio.Base.Bytes.{Bytes, codes, length, take, drop, get_or, back_or, front_or, is_empty, equal}
use mailio.Base.Result.{Result, ok, err, map_error}
use mailio.Base.Action.{
  Exception, error, invalid_argument, out_of_fuel, Action, pure, throw, lift, modify, gets, ◌>>=◌,
  ◌>>◌,
}
use mailio.Net.{Link, write_line, write_raw, read_line, read_exactly, available}
use mailio.Wire.{ensure_no_crlf_or_nul, append_sv, append_space, append_uint}
use mailio.Imap.Responses.{ltrim, upper, split_token}

pub data Status : Type 0 where
  ok_status no_status bad preauth bye unknown : Status

pub record Response : Type 0 where
  pub tag : Bytes
  pub st : Status
  pub text : Bytes
  pub untagged_lines : List Bytes
  pub continuation : List Bytes
  pub tagged_lines : List Bytes
  pub literals : List Bytes

abbrev pub new_response : Bytes → Response
new_response tag = record {
  tag = tag;
  st = unknown;
  text = [];
  untagged_lines = [];
  continuation = [];
  tagged_lines = [];
  literals = [];
}

-- The fields of `options` that the client reads.
pub record Options : Type 0 where
  pub max_line_length : ℕ
  pub auto_starttls : Bool
  pub allow_cleartext_auth : Bool
  pub require_tls_for_auth : Bool

-- `capabilities_cache`
pub record Capabilities : Type 0 where
  pub sasl_ir : Bool
  pub auth_mechanisms : List Bytes
  pub raw_tokens : List Bytes

-- `link` is `dialog_` and the network behind it.
pub record Client : Type 0 where
  pub options : Options
  pub link : Link
  pub remote_host : Bytes
  pub tag_counter : ℕ
  pub capabilities : Capabilities
  pub capabilities_known : Bool
  pub literal_plus : Option Bool

-- An operation of the dialog, as one of the client.
abbrev pub on_link : {A : Type 0} → Action Link A → Action Client A
on_link op c = ((op c.link).0, record c { link = (op c.link).1 })

-- `mailxx::detail::ensure_no_crlf_or_nul`, whose exception is `std::invalid_argument`.
pub ensure : Bytes → Bytes → Action Client (Unit {0})
ensure value field = lift (map_error invalid_argument (ensure_no_crlf_or_nul value (some field)))

-- `line.rfind(c)`
pub rfind : ℕ → Bytes → Option ℕ
rfind c [] = none
rfind c (x ∷ s) = elim (rfind c s) [
  | some i ↦ some (suc i)
  | none ↦ if x == c then some 0 else none
]

-- The digits of a size, which wraps at the width of `std::size_t`.
pub literal_digits : ℕ → Bytes → Option ℕ
literal_digits value [] = some value
literal_digits value (ch ∷ inner) =
    let rest = literal_digits ((value * 10 + (ch - b'0')) % 2 ^ 64) inner in
    if ltb ch b'0' || ltb b'9' ch then none else rest

-- A last `+` is taken off.
pub strip_plus : Bytes → Bytes
strip_plus inner = if back_or inner 0 == b'+' then take (length inner - 1) inner else inner

pub inner_size : Bytes → Option ℕ
inner_size inner =
    if is_empty inner
    then none
    else if is_empty (strip_plus inner)
    then none
    else literal_digits 0 (strip_plus inner)

-- The size of a literal that a line announces.
pub extract_literal_size : Bytes → Option ℕ
extract_literal_size line =
    if ltb (length line) 3 || not (back_or line 0 == b'}') then none else elim (rfind b'{' line) [
      | none ↦ none
      | some brace ↦ inner_size (take (length line - brace - 2) (drop (brace + 1) line))
    ]

pub is_tagged_line : Bytes → Bytes → Bool
is_tagged_line line tag =
    not (is_empty tag)
    && ltb (length tag) (length line)
    && equal (take (length tag) line) tag
    && get_or line (length tag) 0 == b' '

pub to_upper_ascii : Bytes → Bytes
to_upper_ascii [] = []
to_upper_ascii (ch ∷ input) = upper ch ∷ to_upper_ascii input

pub parse_status_word : Bytes → Status
parse_status_word word =
    let word_upper = to_upper_ascii word in
    if equal word_upper (codes "OK")
    then ok_status
    else if equal word_upper (codes "NO")
    then no_status
    else if equal word_upper (codes "BAD")
    then bad
    else if equal word_upper (codes "PREAUTH")
    then preauth
    else if equal word_upper (codes "BYE")
    then bye
    else unknown

pub is_unknown : Status → Bool
is_unknown unknown = true
is_unknown _ = false

pub apply_status_from_untagged : Response → Bytes → Response
apply_status_from_untagged resp line =
    let (word, tail) = split_token (ltrim (drop 1 line)) in
    let st = parse_status_word word in
    if not (is_unknown st) && is_unknown resp.st then record resp { st = st; text = tail } else resp

pub apply_status_from_tagged : Response → Bytes → Bytes → Response
apply_status_from_tagged resp line tag =
    let (word, tail) = split_token (ltrim (drop (length tag) line)) in
    record resp { st = parse_status_word word; text = tail }

abbrev is_plus : Bytes → Bool
is_plus line = front_or line 0 == b'+'

pub handle_line : Response → Bytes → Bytes → Response
handle_line resp line tag =
    if is_tagged_line line tag
    then apply_status_from_tagged (record resp { tagged_lines = resp.tagged_lines ++ line ∷ [] })
        line tag
    else if front_or line 0 == b'*'
    then apply_status_from_untagged
        (record resp { untagged_lines = resp.untagged_lines ++ line ∷ [] }) line
    else if front_or line 0 == b'+'
    then (let noted : Response = record resp { continuation = resp.continuation ++ line ∷ [] } in
        if is_unknown resp.st && is_empty resp.text
        then record noted { text = ltrim (drop 1 line) }
        else noted)
    else record resp { untagged_lines = resp.untagged_lines ++ line ∷ [] }

-- The literal that follows a line, if it announces one.
pub read_literal : Option ℕ → Response → Action Client Response
read_literal none resp = pure resp
read_literal (some literal_size) resp = do
  literal ← on_link (read_exactly literal_size)
  pure (record resp { literals = resp.literals ++ literal ∷ [] })

-- A line with its literal.
pub take_line : Bytes → Bytes → Response → Action Client Response
take_line tag line resp = read_literal (extract_literal_size line) (handle_line resp line tag)

-- The loops over the lines of a response. `after` is what follows a line: what it makes of the
-- other variables, and whether the loop ends.
module _ {S : Type 0} (after : Bytes → S → Action Client (S × Bool)) (tag : Bytes) where
  pub lines_loop : ℕ → Response → S → Action Client (Response × S)
  lines_loop zero resp s = throw out_of_fuel
  lines_loop (suc fuel) resp s = do
    line ← on_link read_line
    taken ← take_line tag line resp
    next ← after line s
    if next.1 then pure (taken, next.0) else lines_loop fuel taken (next.0)

  -- Every line takes at least its line end from what is still to be read.
  pub read_lines : Response → S → Action Client (Response × S)
  read_lines resp s c = lines_loop (suc (available c.link)) resp s c

-- Up to the tagged line.
pub end_at_tag : Bytes → Bytes → Unit {0} → Action Client (Unit {0} × Bool)
end_at_tag tag line u = pure (tt, is_tagged_line line tag)

pub read_response_until_tag : Response → Bytes → Action Client Response
read_response_until_tag resp tag = do read ← read_lines (end_at_tag tag) tag resp tt; pure (read.0)

pub read_response_impl : Bytes → Action Client Response
read_response_impl tag = read_response_until_tag (new_response tag) tag

-- `std::to_string(++tag_counter_)`
pub count_tag : Client → Client
count_tag c = record c { tag_counter = (c.tag_counter + 1) % 2 ^ 64 }

pub next_tag : Action Client Bytes
next_tag = do modify count_tag; c ← gets (λ c. c); pure (append_uint [] c.tag_counter)

pub tagged : Bytes → Bytes → Bytes
tagged tag cmd = if is_empty cmd then tag else append_sv (append_space tag) cmd

pub command_impl : Bytes → Action Client Response
command_impl cmd = do
  ensure cmd (codes "command")
  tag ← next_tag
  on_link (write_line (tagged tag cmd))
  read_response_impl tag

-- The continuation is sent at the first line with a plus, and never again.
pub continue_once : Bytes → Bytes → Bytes → Bool → Action Client (Bool × Bool)
continue_once continuation_line tag line continuation_sent =
    if not continuation_sent && front_or line 0 == b'+'
    then (do on_link (write_line continuation_line); pure (true, is_tagged_line line tag))
    else pure (continuation_sent, is_tagged_line line tag)

pub command_with_one_continuation : Bytes → Bytes → Action Client Response
command_with_one_continuation cmd continuation_line = do
  ensure cmd (codes "command")
  ensure continuation_line (codes "continuation")
  tag ← next_tag
  on_link (write_line (tagged tag cmd))
  read ← read_lines (continue_once continuation_line tag) tag (new_response tag) false
  pure (read.0)
