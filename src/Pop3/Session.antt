-- ===== src/Pop3/Session.antt =====
-- pop3/client.hpp: connecting, the greeting, CAPA and STLS.
use mailio.Base.{
  ℕ, suc, Bool, true, false, not, ◌&&◌, Option, none, some, List, [], ◌∷◌, ◌++◌, leb, ◌==◌,
  if◌then◌else◌,
}
use mailio.Base.Bytes.{Bytes, codes, take, drop, is_empty, find, equal}
use mailio.Base.Result.{ok, err}
use mailio.Base.Action.{Exception, error, Action, pure, throw, modify, throw_if, gets, ◌>>=◌, ◌>>◌}
use mailio.Net.{Dialog, make_dialog, async_connect, start_tls, read_line, emplace, not_established}
use mailio.Wire.{parse_uint32}
use mailio.Pop3.{
  Client, disconnected, connected, greeting, Capabilities, TlsMode, starttls, implicit, ensure,
  ensure_state, ensure_state_at_least, on_link, expect_ok, command, read_lines,
}

unfoldable pub resolve_sni : Bytes → Bytes → Action Client Bytes
resolve_sni host sni = do
  let name = if is_empty sni then host else sni
  ensure name (codes "sni")
  pure name

unfoldable pub remember_connection : Bytes → Bytes → Client → Client
remember_connection host service c = record c {
  session_snapshot = record c.session_snapshot { host = host; service = service };
}

unfoldable pub remember_tls : TlsMode → Bool → Bytes → Client → Client
remember_tls mode has_context sni c = record c {
  session_snapshot = record c.session_snapshot {
    tls_mode = mode;
    has_context = has_context;
    sni = sni;
  };
}

-- `std::from_chars` over the whole of the service.
pub port_of : Bytes → ℕ
port_of service = elim (parse_uint32 service) [
  | none ↦ 0
  | some value ↦ if leb value 65535 then value else 0
]

-- What `connect_impl` notes before it resolves the host.
unfoldable pub begin_connect : Bytes → Bytes → TlsMode → Bool → Bytes → Client → Client
begin_connect host service mode has_context sni c =
    record (remember_tls mode has_context sni (remember_connection host service c)) {
      host = host;
      saved_host = host;
      saved_service = service;
      saved_port = port_of service;
      capabilities = none;
    }

-- `dlg_` is there at all times.
unfoldable pub the_dialog : Action Client Dialog
the_dialog c = elim c.link.dialog [ none ↦ (err not_established, c) | some d ↦ (ok d, c) ]

unfoldable pub set_dialog : Bool → ℕ → Client → Client
set_dialog is_tls limit c = record c { link = emplace (make_dialog is_tls limit) c.link }

unfoldable pub established : Bool → Client → Client
established is_tls c = record (set_dialog is_tls c.options.max_line_length c) { state = connected }

unfoldable pub greeted : Client → Client
greeted c = record c { state = greeting }

unfoldable pub note_greeting : Bytes → Client → Client
note_greeting line c = record c { last_greeting_line = line }

unfoldable pub read_greeting_impl : Action Client Bytes
read_greeting_impl = do
  ensure_state connected (codes "READ_GREETING")
  line ← on_link read_line
  modify (note_greeting line)
  msg ← expect_ok (codes "Connection to server failure.") line
  modify greeted
  pure msg

abbrev pub no_capabilities : Capabilities
no_capabilities = record {
  stls = false;
  uidl = false;
  top = false;
  sasl_mechanisms = [];
  raw_lines = [];
}

-- The tokens between spaces; `current` is the one being read.
pub sasl_tokens : Bytes → Bytes → List Bytes
sasl_tokens current [] = if is_empty current then [] else current ∷ []
sasl_tokens current (ch ∷ rest) =
    let tokens = sasl_tokens (if ch == b' ' then [] else (current ++ ch ∷ [])) rest in
    if ch == b' ' && not (is_empty current) then current ∷ tokens else tokens

pub key_of : Bytes → Bytes
key_of line = elim (find b' ' line) [ none ↦ line | some space ↦ take space line ]

pub parse_capability_line : Capabilities → Bytes → Capabilities
parse_capability_line caps line =
    let key = key_of line in
    let tokens : List Bytes = elim (find b' ' line) [
      | none ↦ []
      | some space ↦ sasl_tokens [] (drop (suc space) line)
    ] in
    if equal key (codes "STLS")
    then record caps { stls = true }
    else if equal key (codes "UIDL")
    then record caps { uidl = true }
    else if equal key (codes "TOP")
    then record caps { top = true }
    else if not (equal key (codes "SASL"))
    then caps
    else record caps { sasl_mechanisms = caps.sasl_mechanisms ++ tokens }

-- A line of the response to CAPA.
pub add_capability : Capabilities → Bytes → Capabilities
add_capability caps line =
    parse_capability_line (record caps { raw_lines = caps.raw_lines ++ line ∷ [] }) line

unfoldable pub note_capabilities : Capabilities → Client → Client
note_capabilities caps c = record c { capabilities = some caps }

unfoldable pub capa_impl : Action Client Capabilities
capa_impl = do
  ensure_state_at_least greeting (codes "CAPA")
  command (codes "CAPA") (codes "Capabilities failure.")
  caps ← read_lines add_capability no_capabilities
  modify (note_capabilities caps)
  pure caps

-- STLS only after CAPA has named it.
unfoldable pub require_stls : Option Capabilities → Action Client (Unit {0})
require_stls none = throw (error (codes "STLS capability unknown; call CAPA first.") [])
require_stls (some caps) = throw_if (not caps.stls) (error (codes "STLS not supported.") [])

-- The handshake, and a new dialog over the same stream.
-- The stream is moved out of the dialog for the handshake. Where that throws, the dialog is left with
-- it: what the operations on such a stream complete with, errors, is given like all outcomes.
unfoldable pub upgrade_to_tls : Bytes → Action Client (Unit {0})
upgrade_to_tls sni = do
  dlg ← the_dialog
  on_link (start_tls dlg.is_tls sni)
  modify (set_dialog true dlg.max_line_length)

unfoldable pub start_tls_impl : Bytes → Action Client (Unit {0})
start_tls_impl sni = do
  ensure_state greeting (codes "STLS")
  c ← gets (λ c. c)
  require_stls c.capabilities
  command (codes "STLS") (codes "STARTTLS failure.")
  resolved_sni ← resolve_sni c.host sni
  modify (remember_tls starttls true resolved_sni)
  upgrade_to_tls resolved_sni

abbrev pub is_implicit : TlsMode → Bool
is_implicit implicit = true
is_implicit _ = false

abbrev pub is_starttls : TlsMode → Bool
is_starttls starttls = true
is_starttls _ = false

abbrev no_context : Bytes → Exception
no_context details = error (codes "TLS context is required.") details

-- Implicit TLS: the handshake comes before the dialog.
unfoldable pub connect_tls : Bytes → Bool → Bytes → Action Client (Unit {0})
connect_tls host has_context sni = do
  throw_if (not has_context) (no_context (codes "Implicit TLS needs a context."))
  resolved_sni ← resolve_sni host sni
  modify (remember_tls implicit has_context resolved_sni)
  on_link (start_tls false resolved_sni)

unfoldable pub auto_start_tls : Bool → Bytes → Action Client (Unit {0})
auto_start_tls has_context sni = do
  throw_if (not has_context) (no_context (codes "STLS needs a context."))
  read_greeting_impl
  capa_impl
  start_tls_impl sni
  capa_impl
  pure tt

unfoldable pub connect_impl : Bytes → Bytes → TlsMode → Bool → Bytes → Action Client (Unit {0})
connect_impl host service mode has_context sni = do
  ensure_state disconnected (codes "CONNECT")
  ensure host (codes "host")
  c ← gets (λ c. c)
  modify (begin_connect host service mode has_context sni)
  on_link async_connect
  on_link async_connect
  if is_implicit mode then connect_tls host has_context sni else pure tt
  modify (established (is_implicit mode))
  if is_starttls mode && c.options.auto_starttls then auto_start_tls has_context sni else pure tt
