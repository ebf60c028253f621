-- ===== src/SmtpClient/Reconnect.antt =====
-- smtp/client.hpp: `send_with_reconnection`, sending over connections that may be lost. The policy is
-- that of detail/reconnection.hpp, as for POP3, and `is_connection_error` is written as there.
pub mod Kept
use mailio.Base.{
  ℕ, zero, suc, Bool, true, false, not, ◌&&◌, Option, none, some, [], ltb, if◌then◌else◌,
}
use mailio.Base.Bytes.{Bytes}
use mailio.Base.Result.{Result, ok, err}
use mailio.Base.Action.{
  Exception, error, invalid_argument, system_error, out_of_fuel, Action, pure, throw, modify,
  throw_if, gets, ◌>>=◌, ◌>>◌,
}
use mailio.Net.{async_connect}
use mailio.Pop3.Reconnect.{ReconnectionPolicy, is_connection_error, is_cancelled}
use mailio.SmtpClient.{Client, Reply, disconnected, reset_capabilities, on_link}
use mailio.SmtpClient.Session.{connect_impl, read_greeting_impl, ehlo_impl, no_tls}
use mailio.SmtpClient.Auth.{AuthMethod, authenticate_impl}
use mailio.SmtpClient.Addresses.{Message, Envelope}
use mailio.SmtpClient.Send.{send_impl}

-- The optional tuple: a name, a password and a method.
abbrev pub Credentials : Type 0
Credentials = Option (Bytes × Bytes × AuthMethod)

unfoldable pub abandoned : Client → Client
abandoned c =
    reset_capabilities (record c { link = record (c.link) { dialog = none }; state = disconnected })

unfoldable pub reauthenticate : Credentials → Action Client (Unit {0})
reauthenticate none = pure tt
reauthenticate (some (username, password, method)) = authenticate_impl username password method

unfoldable pub reconnect : Credentials → Action Client (Unit {0})
reconnect credentials = do
  modify abandoned
  c ← gets (λ c. c)
  connect_impl c.saved_host c.saved_service no_tls false []
  read_greeting_impl
  ehlo_impl []
  reauthenticate credentials

-- The inner `catch`, of any exception of the code.
unfoldable pub swallow : Result Exception (Unit {0}) × Client → Result Exception (Unit {0}) × Client
swallow (ok u, c) = (ok tt, c)
swallow (err (error text details), c) = (ok tt, c)
swallow (err (invalid_argument text), c) = (ok tt, c)
swallow (err (system_error text), c) = (ok tt, c)
swallow (err out_of_fuel, c) = (err out_of_fuel, c)

unfoldable pub try_reconnect : Credentials → Action Client (Unit {0})
try_reconnect credentials c = swallow (reconnect credentials c)

-- `steady_timer::async_wait`: its outcomes stand with those of connecting.
unfoldable pub async_wait : Action Client (Unit {0})
async_wait = on_link async_connect

-- What the `catch` does about the failure of an attempt, before the next round.
unfoldable pub recover : ReconnectionPolicy → Credentials → ℕ → Exception → Action Client (Unit {0})
recover policy credentials attempt e = do
  throw_if (not (is_connection_error e)) e
  throw_if (ltb 0 policy.max_attempts && ltb policy.max_attempts attempt) e
  throw_if (is_cancelled policy attempt) e
  async_wait
  try_reconnect credentials

abbrev pub catching :
    {A : Type 0}
    → Result Exception A × Client
    → (Exception → Action Client A)
    → Result Exception A × Client
catching (ok a, c) handler = (ok a, c)
catching (err e, c) handler = handler e c

-- The loop; `attempt` is the number of failures so far.
unfoldable pub send_loop :
    ReconnectionPolicy → Message → Envelope → Credentials → ℕ → ℕ → Action Client Reply
send_loop policy msg env credentials zero attempt = throw out_of_fuel
send_loop policy msg env credentials (suc fuel) attempt = λ c. catching (send_impl msg env c) (λ e.
    recover policy credentials (suc attempt) e
    >> send_loop policy msg env credentials fuel (suc attempt))

unfoldable pub send_with_reconnection :
    ReconnectionPolicy → ℕ → Message → Envelope → Credentials → Action Client Reply
send_with_reconnection policy rounds msg env credentials =
    if policy.enabled then send_loop policy msg env credentials rounds 0 else send_impl msg env
