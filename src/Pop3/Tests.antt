-- ===== src/Pop3/Tests.antt =====
-- pop3/client.hpp at concrete inputs.
use mailio.Base.{
  ℕ, ltb, ◌^◌, Option, if◌then◌else◌, ◌≡◌, refl, subst, map, true, false, none, some, List, [], ◌∷◌,
  ◌++◌, arith,
}
use mailio.Base.Bytes.{Bytes, All, IsByte, codes, equal, find}
use mailio.Base.Result.{ok, err}
use mailio.Base.Action.{is_decided}
use mailio.Net.{
  Network, make_dialog, emplace, async_connect, take_outcome, end_of_file, read_line, read_found,
  read_more, after_read, extract_found, extract, line_length, write_line, write, async_write,
}
use mailio.Sasl.{ensure_auth_allowed}
use mailio.Wire.{ensure_no_crlf_or_nul, contains_crlf_or_nul}
use mailio.Pop3.{
  Client, Options, SessionSnapshot, no_tls, user_pass, transaction, rank, ensure, ensure_state,
  state_details, invalid_state, expect_ok, parse_status, split_status, is_ok, command, send_command,
  read_ok_response,
}
use mailio.Pop3.Session.{
  connect_impl, begin_connect, remember_connection, remember_tls, established, set_dialog,
  read_greeting_impl, note_greeting, greeted, the_dialog,
}
use mailio.Pop3.Auth.{
  by_login, authenticate_impl, login_impl, begin_auth, enforce_auth_tls_policy, logged_in,
  remember_auth,
}
use mailio.Pop3.Mailbox.{reserved, retr_impl, retr_with_progress_impl}
use mailio.Pop3.Reconnect.{ReconnectionPolicy, lost, reconnect_with_snapshot, retr_loop}
use mailio.Pop3.Kept.{HasCleanLog}
use mailio.Pop3.Calls.{
  Call, connect, read_greeting, authenticate, list_all, perform, IsCallable, IsLimited, initial,
  Reachable, begin, next, Reachable-HasCleanLog, Reachable-secret, perform-decided,
}
use mailio.Pop3.Retries.{HasBytes, retr_loop-gives_up}
use mailio.Pop3.Multiline.{
  joined, on_wire, accepted, ready, mapped, retr_impl-joined, retr_with_progress_impl-text,
}

-- A policy that lets credentials through in clear, and a server that answers with these lines.
abbrev lenient : Options
lenient = record {
  max_line_length = 8192;
  auto_starttls = false;
  allow_cleartext_auth = true;
  require_tls_for_auth = true;
  store_credentials_for_reconnect = false;
}

abbrev serves : List Bytes → Network
serves lines = record {
  reads = map (λ line. (line ++ codes "\r\n", none)) lines;
  writes = none ∷ none ∷ none ∷ none ∷ none ∷ [];
  handshakes = [];
  connects = none ∷ none ∷ [];
  host_name = none;
  sent = [];
}

abbrev digest : Bytes → Bytes
digest s = s

-- A string may be as long as it takes to hold a mebibyte.
abbrev room : ℕ → Option Bytes
room n = if ltb (2 ^ 20) n then some (codes "basic_string::reserve") else none

abbrev answers : List Bytes
answers =
    codes "+OK ready" ∷ codes "+OK" ∷ codes "+OK" ∷ codes "+OK" ∷ codes "1 120" ∷ codes "." ∷ []

abbrev started : Client
started = initial digest room lenient (serves answers)

abbrev to_server : Call
to_server = connect (codes "mx") (codes "110") no_tls false []

abbrev as_me : Call
as_me = authenticate (codes "me") (codes "pw") by_login

abbrev connected_client : Client
connected_client = (perform digest room to_server started).1

abbrev greeted_client : Client
greeted_client = (perform digest room read_greeting connected_client).1

abbrev logged_in_client : Client
logged_in_client = (perform digest room as_me greeted_client).1

logged_in-Reachable : Reachable digest room logged_in_client
unfolding IsCallable
logged_in-Reachable =
    next as_me (omega arith, omega arith)
      (next read_greeting tt (next to_server tt (begin lenient (serves answers))))

Reachable-HasCleanLog_example : HasCleanLog logged_in_client
Reachable-HasCleanLog_example = Reachable-HasCleanLog digest room _ logged_in-Reachable

perform-decided_example : is_decided ((perform digest room list_all logged_in_client).0) ≡ true
unfolding IsCallable IsLimited
perform-decided_example = perform-decided digest room list_all _ tt tt logged_in-Reachable

keeps_no_secret : logged_in_client.options.store_credentials_for_reconnect ≡ false
unfolding perform initial connect_impl ensure_state rank ensure ensure_no_crlf_or_nul
    contains_crlf_or_nul async_connect take_outcome begin_connect remember_connection remember_tls
    established set_dialog emplace make_dialog read_greeting_impl note_greeting greeted read_line
    read_found read_more after_read extract_found extract line_length expect_ok parse_status
    split_status is_ok equal find authenticate_impl login_impl begin_auth enforce_auth_tls_policy
    the_dialog ensure_auth_allowed command send_command write_line write async_write
    read_ok_response logged_in remember_auth
keeps_no_secret = refl

Reachable-secret_example : logged_in_client.session_snapshot.secret ≡ none
Reachable-secret_example = Reachable-secret digest room _ logged_in-Reachable keeps_no_secret

abbrev snapshot : SessionSnapshot
snapshot = record {
  host = codes "mx";
  service = codes "110";
  tls_mode = no_tls;
  has_context = false;
  sni = [];
  auth = user_pass;
  username = codes "me";
  secret = some (codes "pw");
}

snapshot-HasBytes : HasBytes snapshot
snapshot-HasBytes = record {
  username = omega arith;
  secret = λ secret h. let same : codes "pw" ≡ secret = cc in subst (All IsByte) same (omega arith);
}

abbrev patient : ReconnectionPolicy
patient = record {
  enabled = true;
  max_attempts = 5;
  calculate_delay = λ attempt. 1000;
  on_reconnect_attempt = none;
}

-- Nobody listens.
abbrev offline : Client
offline = initial digest room lenient (record (serves []) { connects = [] })

abbrev after_failure : Client
after_failure = (reconnect_with_snapshot digest snapshot offline).1

reconnection_fails :
    reconnect_with_snapshot digest snapshot offline ≡ (err end_of_file, after_failure)
unfolding reconnect_with_snapshot lost connect_impl ensure_state rank ensure ensure_no_crlf_or_nul
    contains_crlf_or_nul async_connect take_outcome initial begin_connect remember_tls
    remember_connection
reconnection_fails = refl

retr_loop-gives_up_example : retr_loop digest patient 5 1 7 after_failure ≡ (
  err (
      invalid_state
        (codes "RETR")
        (state_details (codes "expected ") transaction after_failure.state)),
  after_failure,
)
retr_loop-gives_up_example =
    retr_loop-gives_up digest patient 4 1 7 snapshot offline after_failure snapshot-HasBytes
      reconnection_fails

abbrev letter : List Bytes
letter = codes "Subject: hi" ∷ [] ∷ codes ".dot" ∷ codes "." ∷ []

retr_impl-joined_example :
    (retr_impl 7
      (ready started false 80 (serves []) [] (accepted (codes "follows") (on_wire letter [])))).0
    ≡ ok (joined letter)
retr_impl-joined_example =
    retr_impl-joined 7 80 letter (codes "follows") [] started false (serves []) []
      ((refl, omega arith), ((refl, omega arith), ((refl, omega arith), ((refl, omega arith), tt))))
      refl (omega arith)

retr_with_progress_impl-text_example :
    mapped (λ r. r.0) (retr_with_progress_impl room 7 120 true logged_in_client)
    ≡ retr_impl 7 logged_in_client
unfolding reserved
retr_with_progress_impl-text_example =
    retr_with_progress_impl-text room 7 120 true logged_in_client refl
