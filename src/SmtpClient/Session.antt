-- ===== src/SmtpClient/Session.antt =====
-- smtp/client.hpp: connecting, the greeting, EHLO, STARTTLS, and the commands without arguments.
use mailio.Base.{
  ℕ, suc, Bool, true, false, not, ◌&&◌, ◌||◌, none, some, List, [], ◌∷◌, ◌++◌, ltb, ◌==◌,
  if◌then◌else◌,
}
use mailio.Base.Bytes.{Bytes, codes, length, take, drop, is_empty, front_or, find, contains, equal}
use mailio.Base.Result.{ok, err, map_error}
use mailio.Base.Action.{
  Exception, error, invalid_argument, Action, pure, lift, modify, throw_if, gets, ◌>>=◌, ◌>>◌,
}
use mailio.Net.{
  Dialog, make_dialog, async_connect, start_tls, emplace, not_established, default_max_line_length,
}
use mailio.Smtp.{Reply, Entries, normalize_key, message, is_positive_completion}
use mailio.Wire.{ensure_no_crlf_or_nul}
use mailio.SmtpClient.{
  Client, State, disconnected, connected, greeted, ehlo_done, tls, authenticated,
  reset_capabilities, supported, on_link, read_reply_impl, command_impl, require_greeting,
  expect_completion,
}

-- `mailxx::detail::ensure_no_crlf_or_nul`, whose exception is `std::invalid_argument`.
unfoldable pub ensure : Bytes → Bytes → Action Client (Unit {0})
ensure value field = lift (map_error invalid_argument (ensure_no_crlf_or_nul value (some field)))

unfoldable pub resolve_sni : Bytes → Bytes → Action Client Bytes
resolve_sni host sni = do
  let name = if is_empty sni then host else sni
  ensure name (codes "sni")
  pure name

pub is_disconnected : State → Bool
is_disconnected disconnected = true
is_disconnected _ = false

pub is_connected : State → Bool
is_connected connected = true
is_connected _ = false

-- `state_ == state::greeted || state_ == state::tls`
pub awaits_ehlo : State → Bool
awaits_ehlo greeted = true
awaits_ehlo tls = true
awaits_ehlo _ = false

-- `state_ == state::tls || state_ == state::authenticated`
unfoldable pub is_tls_state : State → Bool
is_tls_state tls = true
is_tls_state authenticated = true
is_tls_state _ = false

unfoldable pub read_greeting_impl : Action Client Reply
read_greeting_impl = do
  c ← gets (λ c. c)
  throw_if (not (is_connected c.state))
      (error (codes "Greeting requires an established connection.") [])
  rep ← read_reply_impl
  throw_if (not (rep.status == 220)) (error (codes "Connection rejection.") (message rep))
  modify (λ c. record c { state = greeted })
  pure rep

-- `allows_helo_fallback`
pub allows_helo_fallback : ℕ → Bool
allows_helo_fallback status = status == 500 || status == 502 || status == 504

-- The parameters between spaces; `current` is the one being read.
pub split_parameters : Bytes → Bytes → List Bytes
split_parameters current [] = if is_empty current then [] else current ∷ []
split_parameters current (ch ∷ rest) =
    let params = split_parameters (if ch == b' ' then [] else (current ++ ch ∷ [])) rest in
    if ch == b' ' && not (is_empty current) then current ∷ params else params

-- `auto& slot = entries[key]; slot.insert(slot.end(), …)`
pub add_parameters : Bytes → List Bytes → Entries → Entries
add_parameters key params [] = (key, params) ∷ []
add_parameters key params ((k, old) ∷ entries) =
    let rest = add_parameters key params entries in
    if equal k key then (k, old ++ params) ∷ entries else (k, old) ∷ rest

pub first_word : Bytes → Bytes
first_word line = elim (find b' ' line) [ none ↦ line | some i ↦ take i line ]

-- What follows the first space.
pub parameters_of : Bytes → List Bytes
parameters_of line = elim (find b' ' line) [
  | none ↦ []
  | some i ↦ split_parameters [] (drop (suc i) line)
]

-- One line of the reply to EHLO. `to_upper_ascii` is `normalize_key`.
pub parse_capability : Entries → Bytes → Entries
parse_capability entries line =
    if is_empty line
    then entries
    else add_parameters (normalize_key (first_word line)) (parameters_of line) entries

pub parse_capability_lines : Entries → List Bytes → Entries
parse_capability_lines entries [] = entries
parse_capability_lines entries (line ∷ lines) =
    parse_capability_lines (parse_capability entries line) lines

-- A first line without a space is not a capability when others follow.
pub parse_capabilities : Reply → Entries
parse_capabilities rep =
    let first = front_or rep.lines [] in
    let start = if ltb 1 (length rep.lines) && not (contains b' ' first) then 1 else 0 in
    parse_capability_lines [] (drop start rep.lines)

unfoldable pub default_hostname : Action Client Bytes
default_hostname c =
    (ok (elim c.link.network.host_name [ none ↦ codes "localhost" | some name ↦ name ]), c)

-- The server does not know EHLO.
unfoldable pub helo_fallback : Bytes → Reply → Action Client Reply
helo_fallback helo_name rep = do
  throw_if (not (allows_helo_fallback rep.status)) (error (codes "EHLO rejection.") (message rep))
  helo_rep ← command_impl (codes "HELO " ++ helo_name)
  expect_completion (codes "HELO rejection.") helo_rep
  modify (λ c. record (reset_capabilities c) { helo_only = true; state = ehlo_done })
  pure helo_rep

unfoldable pub ehlo_accepted : Reply → Action Client Reply
ehlo_accepted rep = do
  modify (λ c. record c {
    server_name = first_word (front_or rep.lines []);
    entries = parse_capabilities rep;
    capabilities_known = true;
    helo_only = false;
    state = ehlo_done;
  })
  pure rep

unfoldable pub ehlo_impl : Bytes → Action Client Reply
ehlo_impl domain = do
  c ← gets (λ c. c)
  throw_if (not (awaits_ehlo c.state)) (error (codes "EHLO requires a greeting.") [])
  ensure domain (codes "domain")
  host ← default_hostname
  let helo_name = if is_empty domain then host else domain
  ensure helo_name (codes "helo_name")
  rep ← command_impl (codes "EHLO " ++ helo_name)
  if is_positive_completion rep then ehlo_accepted rep else helo_fallback helo_name rep

unfoldable pub the_dialog : Action Client Dialog
the_dialog c = elim c.link.dialog [ none ↦ (err not_established, c) | some d ↦ (ok d, c) ]

unfoldable pub emplace_dialog : Bool → ℕ → Client → Client
emplace_dialog is_tls limit c = record c { link = emplace (make_dialog is_tls limit) c.link }

-- The stream has TLS now: another dialog, with nothing known of the server.
unfoldable pub secured : Dialog → Client → Client
secured dlg c =
    reset_capabilities (record (emplace_dialog true dlg.max_line_length c) { state = tls })

-- The stream is moved out of the dialog for the handshake. Where that throws, the dialog is left with
-- it: what the operations on such a stream complete with, errors, is given like all outcomes.
unfoldable pub start_tls_impl : Bytes → Action Client (Unit {0})
start_tls_impl sni = do
  require_greeting (codes "STARTTLS requires a greeting.")
  c ← gets (λ c. c)
  throw_if (is_tls_state c.state) (error (codes "STARTTLS is already active.") [])
  throw_if (c.capabilities_known && not (supported (codes "STARTTLS") c))
      (error (codes "STARTTLS not supported.") (codes "Server did not advertise STARTTLS."))
  rep ← command_impl (codes "STARTTLS")
  throw_if (not (rep.status == 220)) (error (codes "STARTTLS failure.") (message rep))
  dlg ← the_dialog
  resolved_sni ← resolve_sni c.remote_host sni
  on_link (start_tls dlg.is_tls resolved_sni)
  modify (secured dlg)

pub data TlsMode : Type 0 where
  no_tls starttls implicit : TlsMode

abbrev pub is_implicit : TlsMode → Bool
is_implicit implicit = true
is_implicit _ = false

abbrev pub is_starttls : TlsMode → Bool
is_starttls starttls = true
is_starttls _ = false

abbrev no_context : Bytes → Exception
no_context details = error (codes "TLS context is required.") details

-- Implicit TLS: the handshake comes before the dialog.
unfoldable pub connect_tls : Bytes → Bool → Bytes → Action Client (Unit {0})
connect_tls host has_context sni = do
  throw_if (not has_context) (no_context (codes "Implicit TLS needs a context."))
  resolved_sni ← resolve_sni host sni
  on_link (start_tls false resolved_sni)

unfoldable pub auto_start_tls : Bool → Bytes → Action Client (Unit {0})
auto_start_tls has_context sni = do
  throw_if (not has_context) (no_context (codes "STARTTLS needs a context."))
  read_greeting_impl
  ehlo_impl []
  start_tls_impl sni
  ehlo_impl []
  pure tt

unfoldable pub established : Bool → Client → Client
established is_tls c =
    reset_capabilities
      (record (emplace_dialog is_tls default_max_line_length c) { state = connected })

unfoldable pub connect_impl : Bytes → Bytes → TlsMode → Bool → Bytes → Action Client (Unit {0})
connect_impl host service mode has_context sni = do
  c ← gets (λ c. c)
  throw_if (not (is_disconnected c.state)) (error (codes "Connection is already established.") [])
  ensure host (codes "host")
  modify (λ c. record c { remote_host = host; saved_host = host; saved_service = service })
  on_link async_connect
  on_link async_connect
  if is_implicit mode then connect_tls host has_context sni else pure tt
  modify (established (is_implicit mode))
  if is_starttls mode && c.options.auto_starttls then auto_start_tls has_context sni else pure tt

-- `NOOP` and `RSET`
unfoldable pub bare_command : Bytes → Action Client Reply
bare_command word = do
  c ← gets (λ c. c)
  throw_if (is_disconnected c.state) not_established
  command_impl word

unfoldable pub noop : Action Client Reply
noop = bare_command (codes "NOOP")

unfoldable pub rset : Action Client Reply
rset = bare_command (codes "RSET")

-- `dialog_.reset(); state_ = state::disconnected; reset_capabilities();`
unfoldable pub hang_up : Client → Client
hang_up c =
    reset_capabilities (record c { link = record c.link { dialog = none }; state = disconnected })

unfoldable pub quit : Action Client Reply
quit = do
  rep ← bare_command (codes "QUIT")
  modify (λ c. record (hang_up c) { remote_host = [] })
  pure rep
