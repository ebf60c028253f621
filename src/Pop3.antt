-- ===== src/Pop3.antt =====
-- include/mailxx/pop3/client.hpp and pop3/types.hpp: the state of a client, commands, status lines
-- and multi-line responses. The members here run while the mutex of the client is held.
pub mod Session
pub mod Auth
pub mod Mailbox
pub mod Reconnect
pub mod Steps
pub mod Kept
pub mod Calls
pub mod Multiline
mod Tests
pub mod Retries
use mailio.Base.{
  ℕ, zero, suc, ◌+◌, Bool, true, false, not, ◌&&◌, Option, none, some, List, [], ◌∷◌, ◌++◌, ltb,
  ◌==◌, if◌then◌else◌,
}
use mailio.Base.Bytes.{Bytes, codes, take, drop, is_empty, front_or, find, equal}
use mailio.Base.Result.{Result, ok, err, map_error}
use mailio.Base.Action.{
  Exception, error, invalid_argument, out_of_fuel, Action, pure, throw, lift, throw_if, ◌>>=◌, ◌>>◌,
}
use mailio.Net.{Link, write_line, read_line, available}
use mailio.Wire.{ensure_no_crlf_or_nul}

pub data State : Type 0 where
  disconnected connected greeting transaction update : State

-- `static_cast<int>(state)`
pub rank : State → ℕ
rank disconnected = 0
rank connected = 1
rank greeting = 2
rank transaction = 3
rank update = 4

pub state_to_string : State → Bytes
state_to_string disconnected = codes "DISCONNECTED"
state_to_string connected = codes "CONNECTED"
state_to_string greeting = codes "GREETING"
state_to_string transaction = codes "TRANSACTION"
state_to_string update = codes "UPDATE"

-- The fields of `options` that the client reads.
pub record Options : Type 0 where
  pub max_line_length : ℕ
  pub auto_starttls : Bool
  pub allow_cleartext_auth : Bool
  pub require_tls_for_auth : Bool
  pub store_credentials_for_reconnect : Bool

pub record Capabilities : Type 0 where
  pub stls : Bool
  pub uidl : Bool
  pub top : Bool
  pub sasl_mechanisms : List Bytes
  pub raw_lines : List Bytes

pub data TlsMode : Type 0 where
  no_tls starttls implicit : TlsMode

pub data AuthMechanism : Type 0 where
  no_auth user_pass sasl_plain xoauth2 apop : AuthMechanism

-- `tls_ctx` by whether it is there.
pub record SessionSnapshot : Type 0 where
  pub host : Bytes
  pub service : Bytes
  pub tls_mode : TlsMode
  pub has_context : Bool
  pub sni : Bytes
  pub auth : AuthMechanism
  pub username : Bytes
  pub secret : Option Bytes

-- `link` is `dlg_`, which is always there, and the network behind it.
pub record Client : Type 0 where
  pub options : Options
  pub link : Link
  pub host : Bytes
  pub session_snapshot : SessionSnapshot
  pub last_greeting_line : Bytes
  pub saved_host : Bytes
  pub saved_service : Bytes
  pub saved_port : ℕ
  pub capabilities : Option Capabilities
  pub state : State

-- An operation of the dialog, as one of the client.
abbrev pub on_link : {A : Type 0} → Action Link A → Action Client A
on_link op c = ((op c.link).0, record c { link = (op c.link).1 })

-- `mailxx::detail::ensure_no_crlf_or_nul`, whose exception is `std::invalid_argument`.
pub ensure : Bytes → Bytes → Action Client (Unit {0})
ensure value field = lift (map_error invalid_argument (ensure_no_crlf_or_nul value (some field)))

-- `state_details_exact` and `state_details_at_least`, by their first words.
pub state_details : Bytes → State → State → Bytes
state_details words expected actual =
    words ++ (state_to_string expected ++ (codes ", got " ++ state_to_string actual))

pub invalid_state : Bytes → Bytes → Exception
invalid_state operation details = error (operation ++ codes ": invalid state") details

pub ensure_state : State → Bytes → Action Client (Unit {0})
ensure_state required operation c =
    throw_if (not (rank c.state == rank required))
      (invalid_state operation (state_details (codes "expected ") required c.state)) c

pub ensure_state_at_least : State → Bytes → Action Client (Unit {0})
ensure_state_at_least minimum operation c =
    throw_if (ltb (rank c.state) (rank minimum))
      (invalid_state operation (state_details (codes "expected at least ") minimum c.state)) c

abbrev pub ok_response : Bytes
ok_response = codes "+OK"

abbrev pub err_response : Bytes
err_response = codes "-ERR"

abbrev pub end_of_data : Bytes
end_of_data = codes "."

-- What stands before the first space, and what stands behind it.
pub split_status : Bytes → Bytes × Bytes
split_status line = elim (find b' ' line) [
  | none ↦ (line, [])
  | some pos ↦ (take pos line, drop (suc pos) line)
]

pub parse_status : Bytes → Result Exception (Bytes × Bytes)
parse_status line =
    let (status, rest) = split_status line in
    if not (equal status ok_response) && not (equal status err_response)
    then err (error (codes "Unknown response status.") line)
    else ok (status, rest)

pub is_ok : Bytes → Bool
is_ok status = equal status ok_response

-- `parse_status`, and a throw where the status is not `+OK`.
pub expect_ok : Bytes → Bytes → Action Client Bytes
expect_ok error_message line = do
  parsed ← lift (parse_status line)
  throw_if (not (is_ok (parsed.0))) (error error_message (parsed.1))
  pure (parsed.1)

pub send_command : Bytes → Action Client (Unit {0})
send_command command = on_link (write_line command)

pub read_ok_response : Bytes → Action Client Bytes
read_ok_response error_message = do line ← on_link read_line; expect_ok error_message line

-- A dot in front of a line of data is taken off.
pub unstuff : Bytes → Bytes
unstuff line = if front_or line 0 == b'.' then drop 1 line else line

-- The loop over the lines of a multi-line response up to the lone dot; `add` is its body.
module _ {A : Type 0} (add : A → Bytes → A) where
  pub read_lines_loop : ℕ → A → Action Client A
  read_lines_loop zero acc = throw out_of_fuel
  read_lines_loop (suc fuel) acc = do
    line ← on_link read_line
    if equal line end_of_data then pure acc else read_lines_loop fuel (add acc (unstuff line))

  -- Every line takes at least its line end from what is still to be read.
  pub read_lines : A → Action Client A
  read_lines acc c = read_lines_loop (suc (available c.link)) acc c

-- A command whose response is one line.
pub command : Bytes → Bytes → Action Client Bytes
command text failure = do send_command text; read_ok_response failure
