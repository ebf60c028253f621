-- ===== src/Pop3/Calls.antt =====
-- pop3/client.hpp: the public members that change a client, and the clients that calls of them
-- lead to.
use mailio.Base.{◌<◌, ℕ, ◌≡◌, refl, Bool, true, false, none, some, [], Option}
use mailio.Base.Bytes.{Bytes, All, IsByte}
use mailio.Base.Action.{Action, Safe, is_decided, pure, bind-Safe, pure-Safe, continue-keeps, ◌>>=◌}
use mailio.Net.{Network, make_dialog}
use mailio.Pop3.{Client, Options, disconnected, TlsMode, no_tls, no_auth}
use mailio.Pop3.Session.{connect_impl, read_greeting_impl, capa_impl, start_tls_impl}
use mailio.Pop3.Auth.{AuthMethod, authenticate_impl}
use mailio.Pop3.Mailbox.{
  stat_impl, list_all_impl, list_impl, uidl_impl, retr_impl, retr_with_progress_impl, top_impl,
  dele_impl, rset_impl, noop_impl, quit_impl, ended,
}
use mailio.Pop3.Kept.{HasCleanLog, Kept, Step-Kept, logged_in-Kept}
use mailio.Pop3.Retries.{retr_with_reconnection-Safe, retr_with_reconnection-keeps}
use mailio.Pop3.Reconnect.{ReconnectionPolicy, retr_with_reconnection}
use mailio.Pop3.Steps.Sessions.{
  connect_impl-Safe, read_greeting_impl-Safe, capa_impl-Safe, start_tls_impl-Safe,
}
use mailio.Pop3.Steps.Logins.{authenticate_impl-Runs, Runs-Safe}
use mailio.Pop3.Steps.Mailboxes.{
  stat_impl-Safe, list_all_impl-Safe, list_impl-Safe, uidl_impl-Safe, retr_impl-Safe,
  retr_with_progress_impl-Safe, top_impl-Safe, dele_impl-Safe, rset_impl-Safe, noop_impl-Safe,
  quit_impl-Safe,
}

-- `connect` takes the TLS mode, whether there is a context, and a server name; `list_one` and
-- `list_all` are the two of the name `list`.
pub data Call : Type 0 where
  connect : Bytes → Bytes → TlsMode → Bool → Bytes → Call
  read_greeting capa : Call
  start_tls : Bytes → Call
  authenticate : Bytes → Bytes → AuthMethod → Call
  stat list_all : Call
  list_one uidl retr dele : ℕ → Call
  retr_with_progress : ℕ → ℕ → Bool → Call
  top : ℕ → ℕ → Call
  rset noop quit : Call
  reconnecting : ReconnectionPolicy → ℕ → ℕ → Call

abbrev discard : {A : Type 0} → Action Client A → Action Client (Unit {0})
discard call = call >>= λ a. pure tt

-- `md5` is OpenSSL's digest, `reserve` the string's, as in `retr_with_progress_impl`.
module _ (md5 : Bytes → Bytes) (reserve : ℕ → Option Bytes) where
  unfoldable pub perform : Call → Action Client (Unit {0})
  perform (connect host service mode has_context sni) =
      connect_impl host service mode has_context sni
  perform read_greeting = discard read_greeting_impl
  perform capa = discard capa_impl
  perform (start_tls sni) = start_tls_impl sni
  perform (authenticate username credential method) =
      authenticate_impl md5 username credential method
  perform stat = discard stat_impl
  perform list_all = discard list_all_impl
  perform (list_one message_no) = discard (list_impl message_no)
  perform (uidl message_no) = discard (uidl_impl message_no)
  perform (retr message_no) = discard (retr_impl message_no)
  perform (dele message_no) = dele_impl message_no
  perform (retr_with_progress message_no expected_size progress) =
      discard (retr_with_progress_impl reserve message_no expected_size progress)
  perform (top message_no lines) = discard (top_impl message_no lines)
  perform rset = rset_impl
  perform noop = noop_impl
  perform quit = quit_impl
  perform (reconnecting policy rounds message_no) =
      discard (retr_with_reconnection md5 policy rounds message_no)

  -- Credentials are strings of bytes.
  unfoldable pub IsCallable : Call → Type 0
  IsCallable (authenticate username credential method) = All IsByte username × All IsByte credential
  IsCallable _ = Unit

  -- A policy of reconnections has a limit, and the loop has more rounds than it allows.
  unfoldable pub IsLimited : Call → Type 0
  IsLimited (reconnecting policy rounds message_no) =
      (0 < policy.max_attempts) × (policy.max_attempts < rounds)
  IsLimited _ = Unit

  -- The constructor of the client, over a network to which nothing has been written.
  unfoldable pub initial : Options → Network → Client
  initial options net = record {
    options = options;
    link = record {
      dialog = some (make_dialog false options.max_line_length);
      network = record net { sent = [] };
    };
    host = [];
    session_snapshot = record {
      host = [];
      service = [];
      tls_mode = no_tls;
      has_context = false;
      sni = [];
      auth = no_auth;
      username = [];
      secret = none;
    };
    last_greeting_line = [];
    saved_host = [];
    saved_service = [];
    saved_port = 0;
    capabilities = none;
    state = disconnected;
  }

  -- Calls one after another, whatever each is given and however it ends; the loop of reconnections
  -- is left after any number of rounds, under any policy.
  pub data Reachable : Client → Type 0 where
    begin : (options : Options) (net : Network) → Reachable (initial options net)
    next :
        {c : Client} (call : Call) → IsCallable call → Reachable c → Reachable ((perform call c).1)

  discard-Safe : {A : Type 0} (call : Action Client A) → Safe Kept call → Safe Kept (discard call)
  discard-Safe call h = bind-Safe Kept _ _ h (λ a. pure-Safe Kept tt)

  perform-Safe : (call : Call) → IsCallable call → IsLimited call → Safe Kept (perform call)
  unfolding perform IsCallable IsLimited ended
  perform-Safe (connect host service mode has_context sni) h l =
      connect_impl-Safe Kept Step-Kept host service mode has_context sni
  perform-Safe read_greeting h l = discard-Safe _ (read_greeting_impl-Safe Kept Step-Kept)
  perform-Safe capa h l = discard-Safe _ (capa_impl-Safe Kept Step-Kept)
  perform-Safe (start_tls sni) h l = start_tls_impl-Safe Kept Step-Kept sni
  perform-Safe (authenticate username credential method) (h, k) l =
      Runs-Safe Kept _ (
        authenticate_impl-Runs Kept Kept Step-Kept logged_in-Kept md5 username credential method h
          k)
  perform-Safe stat h l = discard-Safe _ (stat_impl-Safe Kept Step-Kept)
  perform-Safe list_all h l = discard-Safe _ (list_all_impl-Safe Kept Step-Kept)
  perform-Safe (list_one message_no) h l = discard-Safe _ (list_impl-Safe Kept Step-Kept message_no)
  perform-Safe (uidl message_no) h l = discard-Safe _ (uidl_impl-Safe Kept Step-Kept message_no)
  perform-Safe (retr message_no) h l = discard-Safe _ (retr_impl-Safe Kept Step-Kept message_no)
  perform-Safe (dele message_no) h l = dele_impl-Safe Kept Step-Kept message_no
  perform-Safe (retr_with_progress message_no expected_size progress) h l =
      discard-Safe _
        (retr_with_progress_impl-Safe Kept Step-Kept reserve message_no expected_size progress)
  perform-Safe (top message_no lines) h l =
      discard-Safe _ (top_impl-Safe Kept Step-Kept message_no lines)
  perform-Safe rset h l = rset_impl-Safe Kept Step-Kept
  perform-Safe noop h l = noop_impl-Safe Kept Step-Kept
  perform-Safe quit h l = quit_impl-Safe Kept Step-Kept (λ c kept. kept)
  perform-Safe (reconnecting policy rounds message_no) h (limited, k) =
      discard-Safe _ (retr_with_reconnection-Safe md5 policy rounds message_no limited k)

  perform-keeps : (call : Call) (c : Client) → IsCallable call → Kept c → Kept ((perform call c).1)
  unfolding perform IsLimited
  perform-keeps (reconnecting policy rounds message_no) c h kept =
      continue-keeps Kept (retr_with_reconnection md5 policy rounds message_no c) _
        (retr_with_reconnection-keeps md5 policy rounds message_no c kept) (λ a s kept'. kept')
  perform-keeps call c h kept = ((perform-Safe call h tt).ends c kept).1

  Reachable-Kept : (c : Client) → Reachable c → Kept c
  unfolding initial
  Reachable-Kept _ (begin options net) = (tt, λ off. refl, (tt, λ secret h. absurd cc))
  Reachable-Kept _ (next {c} call h before) = perform-keeps call c h (Reachable-Kept c before)

  -- Whatever calls have been made, reconnections under any policy included, and whatever the server
  -- has answered, each line that has been written is a line without CR, LF and NUL with CRLF behind
  -- it, and each handshake has asked for a server name without them: nothing that is given to a call
  -- can add a command.
  pub Reachable-HasCleanLog : (c : Client) → Reachable c → HasCleanLog c
  Reachable-HasCleanLog c h = (Reachable-Kept c h).0

  -- A client whose options do not ask for credentials to be kept holds no password and no token,
  -- after any sequence of calls, reconnections under any policy included.
  pub Reachable-secret :
      (c : Client)
      → Reachable c
      → c.options.store_credentials_for_reconnect ≡ false
      → c.session_snapshot.secret ≡ none
  Reachable-secret c h off = (Reachable-Kept c h).1 off

  -- Every call on a client that calls have led to, but a RETR with reconnections that have no limit,
  -- ends, with a result or with an exception of the
  -- code, for every sequence of bytes that the server sends before it closes: no loop over the
  -- lines of a response runs out of fuel.
  pub perform-decided :
      (call : Call) (c : Client)
      → IsCallable call
      → IsLimited call
      → Reachable c
      → is_decided ((perform call c).0) ≡ true
  perform-decided call c h k before = ((perform-Safe call h k).ends c (Reachable-Kept c before)).0
