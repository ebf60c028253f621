-- ===== src/SmtpClient.antt =====
-- include/mailxx/smtp/client.hpp: the state of a client, commands and their replies. The mutex that
-- every public member takes is that of AsyncMutex; the members here run while it is held.
pub mod Session
pub mod Addresses
pub mod Auth
pub mod Send
pub mod Extended
pub mod Replies
pub mod Clean
pub mod Reconnect
pub mod Calls
pub mod Gates
pub mod Delivery
pub mod Recipients
mod Tests
use mailio.Base.{
  ℕ, zero, suc, ◌+◌, ◌-◌, ◌*◌, Bool, true, false, not, ◌&&◌, ◌||◌, Option, none, some, List, [],
  ◌∷◌, ◌++◌, ltb, ◌==◌, within, if◌then◌else◌,
}
use mailio.Base.Bytes.{Bytes, codes, length, drop, get_or}
use mailio.Base.Result.{Result, ok, err}
use mailio.Base.Action.{
  Exception, error, out_of_fuel, Action, pure, throw, lift, modify, throw_if, ◌>>=◌, ◌>>◌,
}
use mailio.Net.{Link, Network, write_line, write_raw, read_line, available}
use mailio.Smtp.{Reply, Entries, supports, is_positive_completion}

pub data State : Type 0 where
  disconnected connected greeted ehlo_done tls authenticated : State

-- The fields of `options` that the client reads.
pub record Options : Type 0 where
  pub auto_starttls : Bool
  pub allow_cleartext_auth : Bool
  pub require_tls_for_auth : Bool
  pub use_size_extension : Bool
  pub use_smtputf8 : Bool
  pub use_8bitmime : Bool

-- `link` is `dialog_` and the network behind it.
pub record Client : Type 0 where
  pub options : Options
  pub link : Link
  pub remote_host : Bytes
  pub server_name : Bytes
  pub saved_host : Bytes
  pub saved_service : Bytes
  pub entries : Entries
  pub state : State
  pub helo_only : Bool
  pub capabilities_known : Bool

-- `state_ != state::disconnected && state_ != state::connected`
pub is_past_greeting : State → Bool
is_past_greeting disconnected = false
is_past_greeting connected = false
is_past_greeting _ = true

pub has_greeting : Client → Bool
has_greeting c = is_past_greeting c.state

-- `state_ == state::ehlo_done || state_ == state::authenticated`
pub is_past_ehlo : State → Bool
is_past_ehlo ehlo_done = true
is_past_ehlo authenticated = true
is_past_ehlo _ = false

pub has_helo_or_ehlo : Client → Bool
has_helo_or_ehlo c = is_past_ehlo c.state || c.helo_only

pub reset_capabilities : Client → Client
reset_capabilities c = record c {
  entries = [];
  capabilities_known = false;
  helo_only = false;
  server_name = [];
}

pub supported : Bytes → Client → Bool
supported capability c = c.capabilities_known && supports c.entries capability

abbrev refused : Bytes → Exception
refused text = error text []

-- An operation of the dialog, as one of the client.
abbrev pub on_link : {A : Type 0} → Action Link A → Action Client A
on_link op c = ((op c.link).0, record c { link = (op c.link).1 })

abbrev is_digit : ℕ → Bool
is_digit = within b'0' b'9'

pub reply_code : Bytes → ℕ
reply_code line =
    ((get_or line 0 0 - b'0') * 100 + (get_or line 1 0 - b'0') * 10) + (get_or line 2 0 - b'0')

abbrev pub parsing_failure : Bytes → Exception
parsing_failure line = error (codes "Parsing server failure.") line

-- A line of a reply: its code, its text and whether it is the last.
pub parse_reply_line : Bytes → Result Exception (ℕ × Bytes × Bool)
parse_reply_line line =
    let has_code =
      is_digit (get_or line 0 0) && is_digit (get_or line 1 0) && is_digit (get_or line 2 0) in
    let separator = get_or line 3 b' ' in
    if ltb (length line) 3
    then err (parsing_failure line)
    else if not has_code
    then err (parsing_failure line)
    else if separator == b'-'
    then ok (reply_code line, drop 4 line, false)
    else if separator == b' '
    then ok (reply_code line, drop 4 line, true)
    else err (parsing_failure line)

-- The reply with a line more, unless the line has another code.
pub extend_reply : Bytes → Reply → ℕ → Bytes → Result Exception Reply
extend_reply line rep code text =
    if rep.status == 0
    then ok (record { status = code; lines = rep.lines ++ text ∷ [] })
    else if rep.status == code
    then ok (record { status = rep.status; lines = rep.lines ++ text ∷ [] })
    else err (parsing_failure line)

abbrev with_last : Bool → Result Exception Reply → Result Exception (Reply × Bool)
with_last last (ok rep) = ok (rep, last)
with_last last (err e) = err e

pub take_parsed :
    Bytes → Reply → Result Exception (ℕ × Bytes × Bool) → Result Exception (Reply × Bool)
take_parsed line rep (ok (code, text, last)) = with_last last (extend_reply line rep code text)
take_parsed line rep (err e) = err e

pub take_reply_line : Bytes → Reply → Result Exception (Reply × Bool)
take_reply_line line rep = take_parsed line rep (parse_reply_line line)

pub read_reply_loop : ℕ → Reply → Action Client Reply
read_reply_loop zero rep = throw out_of_fuel
read_reply_loop (suc fuel) rep = do
  line ← on_link read_line
  step ← lift (take_reply_line line rep)
  if step.1 then pure (step.0) else read_reply_loop fuel (step.0)

-- Every line takes at least its line end from what is still to be read.
pub read_reply_impl : Action Client Reply
read_reply_impl c = read_reply_loop (suc (available c.link)) (record { status = 0; lines = [] }) c

pub command_impl : Bytes → Action Client Reply
command_impl line = do on_link (write_line line); read_reply_impl

pub require_greeting : Bytes → Action Client (Unit {0})
require_greeting text c = throw_if (not (has_greeting c)) (refused text) c

pub require_ehlo : Bytes → Action Client (Unit {0})
require_ehlo text c = throw_if (not (has_helo_or_ehlo c)) (refused text) c

-- A reply that has to be a positive completion.
pub expect_completion : Bytes → Reply → Action Client (Unit {0})
expect_completion text rep =
    throw_if (not (is_positive_completion rep)) (error text (mailio.Smtp.message rep))
