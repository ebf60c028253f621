-- ===== src/ImapClient/Tests.antt =====
-- imap/client.hpp at concrete inputs.
use mailio.Base.{◌≡◌, ◌⊎◌, refl, map, true, false, none, some, List, [], ◌∷◌, ◌++◌}
use mailio.Base.Bytes.{Bytes, codes, equal, find}
use mailio.Base.Result.{ok}
use mailio.Base.Action.{is_decided}
use mailio.Net.{
  Network, raw, make_dialog, take_outcome, read_line, read_found, read_more, after_read,
  extract_found, extract, line_length, write_line, write_raw, write, async_write, normalize_line,
  ends_with_crlf, available,
}
use mailio.Wire.{
  ensure_no_crlf_or_nul, contains_crlf_or_nul, append_sv, append_space, append_char, append_uint,
  to_chars,
}
use mailio.Imap.Utf7.{encode_modified_utf7, encode_loop, decode_utf8, flush_utf16, encode_codepoint}
use mailio.Imap.Astring.{ensure_clean, to_astring, to_mailbox}
use mailio.Imap.Append.{append_flags, append_date_time, append_size, build_append_command}
use mailio.Imap.Responses.{ltrim, upper, split_token, split_at}
use mailio.ImapClient.{
  Client, Options, Response, ok_status, next_tag, count_tag, handle_line, is_tagged_line,
  read_lines, lines_loop, read_response_until_tag, end_at_tag, take_line, extract_literal_size,
  read_literal, apply_status_from_tagged, parse_status_word, to_upper_ascii, is_unknown,
}
use mailio.ImapClient.Session.{thrown, no_tls, auto_detect}
use mailio.ImapClient.Mailbox.{await_continuation, append_answered, send_literal, append_raw_impl}
use mailio.ImapClient.Calls.{
  Call, connect, read_greeting, authenticate, append_raw, perform, initial, Reachable, begin, next,
  WritesClean, Reachable-WritesClean, perform-is_decided,
}
use mailio.ImapClient.Append.{command_line, append_raw_impl-sent}

-- A policy that lets credentials through in clear, and a server that answers with these lines.
abbrev lenient : Options
lenient = record {
  max_line_length = 8192;
  auto_starttls = false;
  allow_cleartext_auth = true;
  require_tls_for_auth = true;
}

abbrev serves : List Bytes → Network
serves lines = record {
  reads = map (λ line. (line ++ codes "\r\n", none)) lines;
  writes = none ∷ none ∷ none ∷ none ∷ none ∷ [];
  handshakes = [];
  connects = none ∷ none ∷ [];
  host_name = none;
  sent = [];
}

abbrev answers : List Bytes
answers = codes "* OK ready" ∷ codes "* CAPABILITY IMAP4rev1" ∷ codes "1 OK" ∷ codes "2 OK" ∷ []

abbrev to_server : Call
to_server = connect (codes "mx") (codes "143") no_tls false []

abbrev greeted_client : Client
greeted_client = (perform read_greeting (perform to_server (initial lenient (serves answers))).1).1

abbrev as_me : Call
as_me = authenticate (codes "me") (codes "pw") auto_detect

greeted-Reachable : Reachable greeted_client
greeted-Reachable = next read_greeting (next to_server (begin lenient (serves answers)))

Reachable-WritesClean_example : WritesClean (perform as_me greeted_client).1
Reachable-WritesClean_example = Reachable-WritesClean _ (next as_me greeted-Reachable)

perform-is_decided_example :
    is_decided ((perform (append_raw (codes "a") (codes "x") [] []) greeted_client).0) ≡ true
perform-is_decided_example =
    perform-is_decided (append_raw (codes "a") (codes "x") [] []) greeted_client

-- A client that has authenticated, and a server that asks for a literal and then takes it.
abbrev appending : Client
appending = record (initial lenient (serves [])) {
  link = record {
    dialog = some (make_dialog false 8192);
    network = serves (codes "+ go" ∷ codes "1 OK done" ∷ []);
  };
}

abbrev append_answer : Response
append_answer = record {
  tag = codes "1";
  st = ok_status;
  text = codes "done";
  untagged_lines = [];
  continuation = codes "+ go" ∷ [];
  tagged_lines = codes "1 OK done" ∷ [];
  literals = [];
}

abbrev appended : Client
appended = (append_raw_impl (codes "a") (codes "x") [] [] appending).1

append_returns :
    append_raw_impl (codes "a") (codes "x") [] [] appending ≡ (ok append_answer, appended)
unfolding append_raw_impl thrown encode_loop decode_utf8 flush_utf16 encode_codepoint
    build_append_command ensure_clean to_mailbox to_astring encode_modified_utf7 append_flags
    append_date_time append_size append_sv append_space append_char append_uint to_chars
    ensure_no_crlf_or_nul contains_crlf_or_nul next_tag count_tag write_line write async_write
    take_outcome normalize_line ends_with_crlf read_lines lines_loop await_continuation
    append_answered send_literal write_raw read_response_until_tag end_at_tag take_line handle_line
    is_tagged_line extract_literal_size read_literal read_line read_found read_more after_read
    extract_found extract line_length available equal find initial make_dialog ltrim split_token
    upper apply_status_from_tagged parse_status_word to_upper_ascii is_unknown split_at
append_returns = refl

append_raw_impl-sent_example :
    (cmd : Bytes) × (build_append_command (codes "a") 1 [] [] false ≡ ok cmd)
    × ((appended.link.network.sent ≡ raw (codes "x") ∷ command_line (codes "1") cmd ∷ [])
        ⊎ (appended.link.network.sent ≡ command_line (codes "1") cmd ∷ []))
unfolding initial append_uint to_chars
append_raw_impl-sent_example =
    append_raw_impl-sent (codes "a") (codes "x") [] [] append_answer appending appended
      append_returns

abbrev exists : Bytes
exists = codes "* 3 EXISTS"

abbrev done : Bytes
done = codes "1 OK done"
