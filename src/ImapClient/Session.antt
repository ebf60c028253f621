-- ===== src/ImapClient/Session.antt =====
-- imap/client.hpp: connecting, the greeting, CAPABILITY, STARTTLS, authentication and IDLE.
use mailio.Base.{
  ℕ, Bool, true, false, not, ◌&&◌, Option, none, some, [], ◌∷◌, ◌++◌, ◌==◌, if◌then◌else◌,
}
use mailio.Base.Bytes.{Bytes, codes, front_or, is_empty}
use mailio.Base.Result.{ok, err, map_error}
use mailio.Base.Action.{
  Exception, error, invalid_argument, out_of_fuel, Action, pure, throw, lift, modify, throw_if,
  gets, ◌>>=◌, ◌>>◌,
}
use mailio.Net.{
  Dialog, make_dialog, async_connect, start_tls, emplace, not_established, read_line, write_line,
}
use mailio.Wire.{append_sv, append_space}
use mailio.Sasl.{encode_plain, encode_xoauth2, ensure_auth_allowed}
use mailio.Imap.Utf7.{invalid_utf7, invalid_utf8, no_fuel}
use mailio.Imap.Astring.{CommandError, invalid_field, invalid_mailbox, to_astring}
use mailio.ImapClient.{
  Client, Response, Status, ok_status, new_response, Capabilities, on_link, ensure, take_line,
  handle_line, is_tagged_line, next_tag, command_impl, command_with_one_continuation, read_lines,
  end_at_tag,
}
use mailio.ImapClient.Capability.{
  no_capabilities, parse_capabilities, has_auth_mechanism, update_literal_plus,
  update_literal_plus_from_line,
}

-- The exceptions of imap/types.hpp and imap/utf7.hpp.
unfoldable pub thrown : CommandError → Exception
thrown (invalid_field text) = invalid_argument text
thrown (invalid_mailbox invalid_utf7) = invalid_argument (codes "Invalid modified UTF-7.")
thrown (invalid_mailbox invalid_utf8) = invalid_argument (codes "Invalid UTF-8.")
thrown (invalid_mailbox no_fuel) = out_of_fuel

unfoldable pub resolve_sni : Bytes → Bytes → Action Client Bytes
resolve_sni host sni = do
  let name = if is_empty sni then host else sni
  ensure name (codes "sni")
  pure name

unfoldable pub reset_capabilities : Client → Client
reset_capabilities c = record c { capabilities = no_capabilities; capabilities_known = false }

unfoldable pub the_dialog : Action Client Dialog
the_dialog c = elim c.link.dialog [ none ↦ (err not_established, c) | some d ↦ (ok d, c) ]

pub is_some : Option Dialog → Bool
is_some none = false
is_some (some d) = true

unfoldable pub emplace_dialog : Bool → ℕ → Client → Client
emplace_dialog is_tls limit c =
    reset_capabilities (record c { link = emplace (make_dialog is_tls limit) c.link })

unfoldable pub established : Bool → Client → Client
established is_tls c = record (emplace_dialog is_tls c.options.max_line_length c) {
  tag_counter = 0;
}

unfoldable pub read_greeting_impl : Action Client Response
read_greeting_impl = do
  line ← on_link read_line
  modify (update_literal_plus_from_line line)
  take_line [] line (new_response [])

unfoldable pub learned : Response → Client → Client
learned resp c = record (update_literal_plus resp c) {
  capabilities = parse_capabilities resp;
  capabilities_known = true;
}

unfoldable pub capability_impl : Action Client Response
capability_impl = do resp ← command_impl (codes "CAPABILITY"); modify (learned resp); pure resp

pub is_ok_status : Status → Bool
is_ok_status ok_status = true
is_ok_status _ = false

-- The stream is moved out of the dialog for the handshake. Where that throws, the dialog is left with
-- it: what the operations on such a stream complete with, errors, is given like all outcomes.
unfoldable pub start_tls_impl : Bytes → Action Client (Unit {0})
start_tls_impl sni = do
  resp ← command_impl (codes "STARTTLS")
  throw_if (not (is_ok_status resp.st)) (error (codes "STARTTLS failure.") resp.text)
  dlg ← the_dialog
  c ← gets (λ c. c)
  resolved_sni ← resolve_sni c.remote_host sni
  on_link (start_tls dlg.is_tls resolved_sni)
  modify (emplace_dialog true dlg.max_line_length)

pub data TlsMode : Type 0 where
  no_tls starttls implicit : TlsMode

abbrev pub is_implicit : TlsMode → Bool
is_implicit implicit = true
is_implicit _ = false

abbrev pub is_starttls : TlsMode → Bool
is_starttls starttls = true
is_starttls _ = false

abbrev no_context : Bytes → Exception
no_context details = error (codes "TLS context is required.") details

-- Implicit TLS: the handshake comes before the dialog.
unfoldable pub connect_tls : Bytes → Bool → Bytes → Action Client (Unit {0})
connect_tls host has_context sni = do
  throw_if (not has_context) (no_context (codes "Implicit TLS needs a context."))
  resolved_sni ← resolve_sni host sni
  on_link (start_tls false resolved_sni)

unfoldable pub auto_start_tls : Bool → Bytes → Action Client (Unit {0})
auto_start_tls has_context sni = do
  throw_if (not has_context) (no_context (codes "STARTTLS needs a context."))
  read_greeting_impl
  start_tls_impl sni
  capability_impl
  pure tt

unfoldable pub note_host : Bytes → Client → Client
note_host host c = record c { remote_host = host }

unfoldable pub connect_impl : Bytes → Bytes → TlsMode → Bool → Bytes → Action Client (Unit {0})
connect_impl host service mode has_context sni = do
  c ← gets (λ c. c)
  throw_if (is_some c.link.dialog) (error (codes "Connection is already established.") [])
  ensure host (codes "host")
  ensure service (codes "service")
  modify (note_host host)
  on_link async_connect
  on_link async_connect
  if is_implicit mode then connect_tls host has_context sni else pure tt
  modify (established (is_implicit mode))
  if is_starttls mode && c.options.auto_starttls then auto_start_tls has_context sni else pure tt

unfoldable pub enforce_auth_tls_policy : Action Client (Unit {0})
enforce_auth_tls_policy = do
  d ← the_dialog
  c ← gets (λ c. c)
  lift (ensure_auth_allowed d.is_tls c.options.require_tls_for_auth c.options.allow_cleartext_auth)

unfoldable pub login_impl : Bytes → Bytes → Action Client Response
login_impl username password = do
  enforce_auth_tls_policy
  ensure username (codes "username")
  ensure password (codes "password")
  user ← lift (map_error thrown (to_astring username))
  pass ← lift (map_error thrown (to_astring password))
  command_impl (codes "LOGIN " ++ (user ++ (b' ' ∷ pass)))

-- AUTHENTICATE with the initial response where the server takes one, or after its continuation.
unfoldable pub authenticate_with : Bytes → Bytes → Bytes → Action Client Response
authenticate_with word encoded field = do
  ensure encoded field
  c ← gets (λ c. c)
  if c.capabilities.sasl_ir
      then command_with_one_continuation (append_sv (append_space word) encoded) []
      else command_with_one_continuation word encoded

unfoldable pub authenticate_plain_impl : Bytes → Bytes → Action Client Response
authenticate_plain_impl username secret = do
  enforce_auth_tls_policy
  authenticate_with (codes "AUTHENTICATE PLAIN") (encode_plain username secret) (codes "sasl_plain")

unfoldable pub authenticate_xoauth2_impl : Bytes → Bytes → Action Client Response
authenticate_xoauth2_impl username secret = do
  enforce_auth_tls_policy
  authenticate_with (codes "AUTHENTICATE XOAUTH2") (encode_xoauth2 username secret)
      (codes "sasl_xoauth2")

pub data AuthMethod : Type 0 where
  login plain xoauth2 auto_detect : AuthMethod

unfoldable pub resolve_auth_method : Capabilities → AuthMethod
resolve_auth_method caps =
    if has_auth_mechanism caps (codes "XOAUTH2")
    then xoauth2
    else if has_auth_mechanism caps (codes "PLAIN")
    then plain
    else login

unfoldable pub authenticate_by : AuthMethod → Bytes → Bytes → Action Client Response
authenticate_by plain username secret = authenticate_plain_impl username secret
authenticate_by xoauth2 username secret = authenticate_xoauth2_impl username secret
authenticate_by login username secret = login_impl username secret
authenticate_by auto_detect username secret = login_impl username secret

abbrev is_login : AuthMethod → Bool
is_login login = true
is_login _ = false

pub resolved : AuthMethod → Capabilities → AuthMethod
resolved auto_detect caps = resolve_auth_method caps
resolved method caps = method

-- The capabilities that a method depends on are asked for where they are unknown.
unfoldable pub learn_first : AuthMethod → Action Client (Unit {0})
learn_first method = do
  c ← gets (λ c. c)
  if not c.capabilities_known && not (is_login method)
      then (do capability_impl; pure tt)
      else pure tt

unfoldable pub authenticate_impl : Bytes → Bytes → AuthMethod → Action Client Response
authenticate_impl username secret method = do
  ensure username (codes "username")
  ensure secret (codes "secret")
  learn_first method
  c ← gets (λ c. c)
  authenticate_by (resolved method c.capabilities) username secret

-- The tag of an IDLE that the server has accepted; the session keeps it.
unfoldable pub idle_start : Action Client Bytes
idle_start = do
  tag ← next_tag
  on_link (write_line (append_sv (append_space tag) (codes "IDLE")))
  reply_line ← on_link read_line
  let resp = handle_line (new_response tag) reply_line tag
  if front_or reply_line 0 == b'+'
      then pure tag
      else if is_tagged_line reply_line tag
      then throw
          (error (codes "IDLE rejection.") (if is_empty resp.text then reply_line else resp.text))
      else throw (error (codes "IDLE failure.") reply_line)

unfoldable pub idle_read : Action Client Bytes
idle_read = on_link read_line

unfoldable pub idle_stop : Bytes → Action Client Response
idle_stop tag = do
  on_link (write_line (codes "DONE"))
  read ← read_lines (end_at_tag tag) tag (new_response tag) tt
  pure (read.0)
