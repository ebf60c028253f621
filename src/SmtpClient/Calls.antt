-- ===== src/SmtpClient/Calls.antt =====
-- smtp/client.hpp: the public members that change a client, and the clients that calls of them
-- lead to.
use mailio.Base.{ℕ, ◌<◌, ◌≡◌, Bool, true, false, Option, []}
use mailio.Base.Bytes.{Bytes, All, IsByte}
use mailio.Base.Action.{Action, Safe, is_decided, pure, bind-Safe, pure-Safe, continue-keeps, ◌>>=◌}
use mailio.Net.{Network}
use mailio.SmtpClient.{Client, Options, disconnected}
use mailio.SmtpClient.Session.{
  TlsMode, connect_impl, read_greeting_impl, ehlo_impl, start_tls_impl, noop, rset, quit,
}
use mailio.SmtpClient.Auth.{AuthMethod, authenticate_impl}
use mailio.SmtpClient.Addresses.{Message, Envelope}
use mailio.SmtpClient.Send.{send_impl, send_with_progress_impl, send_pipelined}
use mailio.SmtpClient.Extended.{EnvelopeDsn, EnvelopeExt, send_dsn_impl, send_ext_impl}
use mailio.SmtpClient.Clean.{CleanLog}
use mailio.Pop3.Reconnect.{ReconnectionPolicy}
use mailio.SmtpClient.Reconnect.{Credentials, send_with_reconnection}
use mailio.SmtpClient.Reconnect.Kept.{
  HasBytes, send_with_reconnection-keeps, send_with_reconnection-Safe,
}
use mailio.SmtpClient.Clean.Sessions.{
  connect_impl-Safe, read_greeting_impl-Safe, ehlo_impl-Safe, start_tls_impl-Safe, noop-Safe,
  rset-Safe, quit-Safe,
}
use mailio.SmtpClient.Clean.Logins.{authenticate_impl-Safe}
use mailio.SmtpClient.Clean.Mails.{
  IsFormatted, send_impl-Safe, send_with_progress_impl-Safe, send_pipelined-Safe,
}
use mailio.SmtpClient.Clean.Extensions.{send_dsn_impl-Safe, send_ext_impl-Safe}

-- `reconnecting` is `send_with_reconnection` under a policy, for a number of rounds of its loop.
-- `connect` takes the TLS mode, whether there is a context, and a server name.
pub data Call : Type 0 where
  connect : Bytes → Bytes → TlsMode → Bool → Bytes → Call
  read_greeting : Call
  ehlo : Bytes → Call
  start_tls : Bytes → Call
  authenticate : Bytes → Bytes → AuthMethod → Call
  send : Message → Envelope → Call
  send_dsn : Message → EnvelopeDsn → Call
  send_ext : Message → EnvelopeExt → Call
  send_with_progress : Message → Envelope → Call
  send_pipelining : Message → Envelope → Call
  reconnecting : ReconnectionPolicy → ℕ → Message → Envelope → Credentials → Call
  send_noop send_rset send_quit : Call

abbrev discard : {A : Type 0} → Action Client A → Action Client (Unit {0})
discard call = call >>= λ a. pure tt

-- `std::stoull` reads the limit of SIZE.
module _ (stoull : Bytes → Option ℕ) where
  pub perform : Call → Action Client (Unit {0})
  perform (connect host service mode has_context sni) =
      connect_impl host service mode has_context sni
  perform read_greeting = discard read_greeting_impl
  perform (ehlo domain) = discard (ehlo_impl domain)
  perform (start_tls sni) = start_tls_impl sni
  perform (authenticate username password method) = authenticate_impl username password method
  perform (send msg env) = discard (send_impl msg env)
  perform (send_dsn msg env) = discard (send_dsn_impl msg env)
  perform (send_ext msg env) = discard (send_ext_impl stoull msg env)
  perform (send_with_progress msg env) = discard (send_with_progress_impl msg env)
  perform (send_pipelining msg env) = discard (send_pipelined msg env)
  perform (reconnecting policy rounds msg env credentials) =
      discard (send_with_reconnection policy rounds msg env credentials)
  perform send_noop = discard noop
  perform send_rset = discard rset
  perform send_quit = discard quit

  -- Credentials are strings of bytes, and formatting a message ends.
  unfoldable pub IsCallable : Call → Type 0
  IsCallable (authenticate username password method) = All IsByte username × All IsByte password
  IsCallable (send msg env) = IsFormatted msg
  IsCallable (send_dsn msg env) = IsFormatted msg
  IsCallable (send_ext msg env) = IsFormatted msg
  IsCallable (send_with_progress msg env) = IsFormatted msg
  IsCallable (send_pipelining msg env) = IsFormatted msg
  IsCallable (reconnecting policy rounds msg env credentials) =
      IsFormatted msg × HasBytes credentials
  IsCallable _ = Unit

  -- A policy of reconnections has a limit, and the loop has more rounds than it allows.
  unfoldable pub IsLimited : Call → Type 0
  IsLimited (reconnecting policy rounds msg env credentials) =
      (0 < policy.max_attempts) × (policy.max_attempts < rounds)
  IsLimited _ = Unit

  -- The constructor of the client, over a network to which nothing has been written.
  unfoldable pub initial : Options → Network → Client
  initial options net = record {
    options = options;
    link = record { dialog = Option.none; network = record net { sent = [] } };
    remote_host = [];
    server_name = [];
    saved_host = [];
    saved_service = [];
    entries = [];
    state = disconnected;
    helo_only = false;
    capabilities_known = false;
  }

  -- Calls one after another, whatever each is given and however it ends; the loop of reconnections
  -- is left after any number of rounds, under any policy.
  pub data Reachable : Client → Type 0 where
    begin : (options : Options) (net : Network) → Reachable (initial options net)
    next :
        {c : Client} (call : Call) → IsCallable call → Reachable c → Reachable ((perform call c).1)

  discard-Safe :
      {A : Type 0} (call : Action Client A) → Safe CleanLog call → Safe CleanLog (discard call)
  discard-Safe call h = bind-Safe CleanLog _ _ h (λ a. pure-Safe CleanLog tt)

  perform-Safe : (call : Call) → IsCallable call → IsLimited call → Safe CleanLog (perform call)
  unfolding perform IsCallable IsLimited
  perform-Safe (connect host service mode has_context sni) h l =
      connect_impl-Safe host service mode has_context sni
  perform-Safe read_greeting h l = discard-Safe read_greeting_impl read_greeting_impl-Safe
  perform-Safe (ehlo domain) h l = discard-Safe (ehlo_impl domain) (ehlo_impl-Safe domain)
  perform-Safe (start_tls sni) h l = start_tls_impl-Safe sni
  perform-Safe (authenticate username password method) (h, k) l =
      authenticate_impl-Safe username password h k method
  perform-Safe (send msg env) h l = discard-Safe (send_impl msg env) (send_impl-Safe msg env h)
  perform-Safe (send_dsn msg env) h l =
      discard-Safe (send_dsn_impl msg env) (send_dsn_impl-Safe msg env h)
  perform-Safe (send_ext msg env) h l =
      discard-Safe (send_ext_impl stoull msg env) (send_ext_impl-Safe stoull msg env h)
  perform-Safe (send_with_progress msg env) h l =
      discard-Safe (send_with_progress_impl msg env) (send_with_progress_impl-Safe msg env h)
  perform-Safe (send_pipelining msg env) h l =
      discard-Safe (send_pipelined msg env) (send_pipelined-Safe msg env h)
  perform-Safe send_noop h l = discard-Safe noop noop-Safe
  perform-Safe send_rset h l = discard-Safe rset rset-Safe
  perform-Safe send_quit h l = discard-Safe quit quit-Safe
  perform-Safe (reconnecting policy rounds msg env credentials) (h, given) (limited, k) =
      discard-Safe _
        (send_with_reconnection-Safe policy credentials given msg env h rounds limited k)

  perform-keeps :
      (call : Call) (c : Client) → IsCallable call → CleanLog c → CleanLog ((perform call c).1)
  unfolding perform IsCallable IsLimited
  perform-keeps (reconnecting policy rounds msg env credentials) c (h, given) kept =
      continue-keeps CleanLog (send_with_reconnection policy rounds msg env credentials c) _
        (send_with_reconnection-keeps policy credentials given msg env h rounds c kept)
        (λ a s kept'. kept')
  perform-keeps call c h kept = ((perform-Safe call h tt).ends c kept).1

  -- Whatever calls have been made, reconnections under any policy included, and whatever the server has answered, each line that has
  -- been written is a line without CR, LF and NUL with CRLF behind it, and each handshake has asked
  -- for a server name without them. The data of a message, which is written as it was formatted, is
  -- outside of this; of all else that is given to a call, nothing can add a command.
  pub Reachable-CleanLog : (c : Client) → Reachable c → CleanLog c
  unfolding initial
  Reachable-CleanLog _ (begin options net) = tt
  Reachable-CleanLog _ (next {c} call h before) =
      perform-keeps call c h (Reachable-CleanLog c before)

  -- Every call on a client that calls have led to, but a sending with reconnections that have no
  -- limit, ends, with a result or with an exception of the
  -- code, for every sequence of bytes that the server sends before it closes: no loop runs out of
  -- fuel.
  pub call-decided :
      (call : Call) (c : Client)
      → IsCallable call
      → IsLimited call
      → Reachable c
      → is_decided ((perform call c).0) ≡ true
  call-decided call c h k before = ((perform-Safe call h k).ends c (Reachable-CleanLog c before)).0
