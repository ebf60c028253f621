-- ===== src/Pop3/Reconnect.antt =====
-- pop3/client.hpp: fetching a message over connections that may be lost.
use mailio.Base.{
  ℕ, zero, suc, Bool, true, false, not, ◌&&◌, ◌||◌, Option, none, some, List, [], ◌∷◌, ltb, ◌==◌,
  if◌then◌else◌,
}
use mailio.Base.Bytes.{Bytes, codes, length, take, any_of, is_empty, equal}
use mailio.Base.Result.{Result, ok, err}
use mailio.Base.Action.{
  Exception, error, invalid_argument, system_error, out_of_fuel, Action, pure, throw, modify,
  throw_if, gets, ◌>>=◌, ◌>>◌,
}
use mailio.Net.{async_connect}
use mailio.Pop3.{
  Client, disconnected, connected, AuthMechanism, no_auth, user_pass, sasl_plain, xoauth2, apop,
  SessionSnapshot, TlsMode, no_tls, on_link, rank,
}
use mailio.Pop3.Session.{connect_impl, read_greeting_impl, capa_impl, start_tls_impl, is_starttls}
use mailio.Pop3.Auth.{login_impl, auth_plain_impl, auth_xoauth2_impl, apop_impl}
use mailio.Pop3.Mailbox.{retr_impl}

-- `e.what()`; the last is none of the code's exceptions.
unfoldable pub what : Exception → Bytes
what (error text details) = text
what (invalid_argument text) = text
what (system_error text) = text
what out_of_fuel = []

-- `msg.find(keyword) != npos`
unfoldable pub has_keyword : Bytes → Bytes → Bool
has_keyword keyword [] = is_empty keyword
has_keyword keyword (c ∷ msg) =
    equal keyword (take (length keyword) (c ∷ msg)) || has_keyword keyword msg

abbrev keywords : List Bytes
keywords =
    codes "connection"
    ∷ codes "disconnected"
    ∷ codes "broken pipe"
    ∷ codes "reset by peer"
    ∷ codes "timed out"
    ∷ codes "timeout"
    ∷ codes "eof"
    ∷ codes "end of file"
    ∷ codes "closed"
    ∷ codes "network"
    ∷ []

unfoldable pub is_connection_error : Exception → Bool
is_connection_error e = any_of (λ keyword. has_keyword keyword (what e)) keywords

abbrev not_stored : Bytes → Exception
not_stored text = error text []

abbrev is_no_auth : AuthMechanism → Bool
is_no_auth no_auth = true
is_no_auth _ = false

abbrev is_no_tls : TlsMode → Bool
is_no_tls no_tls = true
is_no_tls _ = false

abbrev is_some : Option Bytes → Bool
is_some none = false
is_some (some secret) = true

pub has_connection : SessionSnapshot → Bool
has_connection snapshot = not (is_empty snapshot.host) && not (is_empty snapshot.service)

pub has_auth : SessionSnapshot → Bool
has_auth snapshot = not (is_no_auth snapshot.auth) && not (is_empty snapshot.username)

unfoldable pub ensure_reconnect_ready : SessionSnapshot → Action Client (Unit {0})
ensure_reconnect_ready snapshot = do
  throw_if (not (has_connection snapshot))
      (not_stored (codes "Reconnection failure: no session stored."))
  throw_if (not (has_auth snapshot)) (not_stored (codes "Reconnection failure: no auth stored."))
  throw_if (not (is_some snapshot.secret))
      (not_stored (codes "Reconnection failure: no creds stored."))
  throw_if (not (is_no_tls snapshot.tls_mode) && not snapshot.has_context)
      (not_stored (codes "Reconnection failure: no TLS context stored."))

unfoldable pub lost : Client → Client
lost c = record c { state = disconnected }

-- A greeting that the connection has not read yet.
unfoldable pub greet : Action Client (Unit {0})
greet = do
  c ← gets (λ c. c)
  if rank c.state == rank connected then (do read_greeting_impl; pure tt) else pure tt

-- STLS, where it is asked for and connecting does not do it.
unfoldable pub restart_tls : SessionSnapshot → Action Client (Unit {0})
restart_tls snapshot = do
  c ← gets (λ c. c)
  if is_starttls snapshot.tls_mode && not c.options.auto_starttls
      then (do
        throw_if (not snapshot.has_context)
            (error (codes "TLS context is required.") (codes "STLS needs a context."))
        capa_impl
        start_tls_impl snapshot.sni)
      else pure tt

-- `steady_timer::async_wait`: its outcomes stand with those of connecting.
unfoldable pub async_wait : Action Client (Unit {0})
async_wait = on_link async_connect

-- The fields of the policy that the loop reads. The callbacks that only observe are left out.
pub record ReconnectionPolicy : Type 0 where
  pub enabled : Bool
  pub max_attempts : ℕ
  pub calculate_delay : ℕ → ℕ
  pub on_reconnect_attempt : Option (ℕ → ℕ → Bool)

-- The callback is there and says no.
pub is_cancelled : ReconnectionPolicy → ℕ → Bool
is_cancelled policy attempt = elim policy.on_reconnect_attempt [
  | none ↦ false
  | some goes_on ↦ not (goes_on attempt (policy.calculate_delay attempt))
]

module _ (md5 : Bytes → Bytes) where
  -- `secret.value()` has been checked to be there.
  unfoldable pub reauthenticate_by : AuthMechanism → Bytes → Bytes → Action Client (Unit {0})
  reauthenticate_by user_pass username secret = login_impl username secret
  reauthenticate_by sasl_plain username secret = auth_plain_impl username secret
  reauthenticate_by xoauth2 username secret = auth_xoauth2_impl username secret
  reauthenticate_by apop username secret = apop_impl md5 username secret
  reauthenticate_by no_auth username secret =
      throw (not_stored (codes "Reconnection failure: no auth stored."))

  unfoldable pub reauthenticate : SessionSnapshot → Action Client (Unit {0})
  reauthenticate snapshot = elim snapshot.secret [
    | none ↦ throw (system_error (codes "bad optional access"))
    | some secret ↦ reauthenticate_by snapshot.auth snapshot.username secret
  ]

  unfoldable pub reconnect_with_snapshot : SessionSnapshot → Action Client (Unit {0})
  reconnect_with_snapshot snapshot = do
    modify lost
    connect_impl snapshot.host snapshot.service snapshot.tls_mode snapshot.has_context snapshot.sni
    greet
    restart_tls snapshot
    reauthenticate snapshot

  -- The inner `try`: a connection error goes on to the next round, any other one is thrown.
  unfoldable pub caught :
      Result Exception (Unit {0}) × Client → Result Exception (Unit {0}) × Client
  caught (ok u, c) = (ok tt, c)
  caught (err e, c) = if is_connection_error e then (ok tt, c) else (err e, c)

  unfoldable pub try_reconnect : SessionSnapshot → Action Client (Unit {0})
  try_reconnect snapshot c = caught (reconnect_with_snapshot snapshot c)

  -- The checks of an attempt, the wait, and the attempt.
  unfoldable pub attempt_reconnect :
      ReconnectionPolicy → ℕ → Exception → SessionSnapshot → Action Client (Unit {0})
  attempt_reconnect policy attempt e snapshot = do
    ensure_reconnect_ready snapshot
    throw_if (ltb 0 policy.max_attempts && ltb policy.max_attempts attempt) e
    throw_if (is_cancelled policy attempt) e
    async_wait
    try_reconnect snapshot

  -- What the `catch` does about the failure of an attempt, before the next round.
  unfoldable pub recover : ReconnectionPolicy → ℕ → Exception → Action Client (Unit {0})
  recover policy attempt e = do
    throw_if (not (is_connection_error e)) e
    c ← gets (λ c. c)
    attempt_reconnect policy attempt e c.session_snapshot

  abbrev pub or_recover :
      {A : Type 0}
      → Result Exception A × Client
      → (Exception → Action Client A)
      → Result Exception A × Client
  or_recover (ok a, c) handler = (ok a, c)
  or_recover (err e, c) handler = handler e c

  -- The loop; `attempt` is the number of failures so far.
  unfoldable pub retr_loop : ReconnectionPolicy → ℕ → ℕ → ℕ → Action Client Bytes
  retr_loop policy zero attempt message_no = throw out_of_fuel
  retr_loop policy (suc fuel) attempt message_no = λ c.
      or_recover (retr_impl message_no c)
        (λ e. recover policy (suc attempt) e >> retr_loop policy fuel (suc attempt) message_no)

  unfoldable pub retr_with_reconnection : ReconnectionPolicy → ℕ → ℕ → Action Client Bytes
  retr_with_reconnection policy rounds message_no =
      if policy.enabled then retr_loop policy rounds 0 message_no else retr_impl message_no
