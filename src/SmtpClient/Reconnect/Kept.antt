-- ===== src/SmtpClient/Reconnect/Kept.antt =====
-- smtp/client.hpp: sending with reconnections writes clean commands, and ends under a limit.
use mailio.Base.{
  ℕ, zero, suc, ◌+◌, ◌≤◌, ◌<◌, ◌≡◌, refl, Bool, true, false, not, ◌&&◌, none, some, [], ltb, arith,
  if◌then◌else◌,
}
use mailio.Base.Bytes.{All, IsByte}
use mailio.Base.Result.{Result, ok, err}
use mailio.Base.Action.{
  Exception, error, invalid_argument, system_error, out_of_fuel, Action, Safe, Gives, is_decided,
  continue-keeps, continue-value, throw_if, bind-Safe, then-Safe, given-Safe, if-Safe, pure-Safe,
  gets-Safe, modify-Safe,
}
use mailio.Pop3.Reconnect.{ReconnectionPolicy, is_connection_error, is_cancelled}
use mailio.Pop3.Retries.{decided-throw}
use mailio.SmtpClient.{Client, reset_capabilities}
use mailio.SmtpClient.Addresses.{Message, Envelope}
use mailio.SmtpClient.Session.{no_tls}
use mailio.SmtpClient.Send.{send_impl}
use mailio.SmtpClient.Clean.{CleanLog}
use mailio.SmtpClient.Clean.Sessions.{
  connect_impl-Safe, read_greeting_impl-Safe, ehlo_impl-Safe, async_connect-Safe,
}
use mailio.SmtpClient.Clean.Logins.{authenticate_impl-Safe}
use mailio.SmtpClient.Clean.Mails.{IsFormatted, send_impl-Safe}
use mailio.SmtpClient.Reconnect.{
  Credentials, abandoned, reauthenticate, reconnect, swallow, try_reconnect, async_wait, recover,
  catching, send_loop, send_with_reconnection,
}

-- Credentials that are given are strings of bytes.
abbrev pub HasBytes : Credentials → Type 0
HasBytes none = Unit
HasBytes (some (username, password, method)) = All IsByte username × All IsByte password

abbrev IsCodes : Exception → Type 0
IsCodes e = is_decided {A = Unit {0}} (err e) ≡ true

throw_if_any-Safe : (b : Bool) (e : Exception) → IsCodes e → Safe CleanLog (throw_if b e)
throw_if_any-Safe true e h = record { ends = λ c kept. (h, kept) }
throw_if_any-Safe false e h = record { ends = λ c kept. (refl, kept) }

abandoned-CleanLog : (c : Client) → CleanLog c → CleanLog (abandoned c)
unfolding abandoned reset_capabilities
abandoned-CleanLog c kept = kept

reauthenticate-Safe :
    (credentials : Credentials) → HasBytes credentials → Safe CleanLog (reauthenticate credentials)
unfolding reauthenticate
reauthenticate-Safe none h = pure-Safe CleanLog tt
reauthenticate-Safe (some (username, password, method)) (h, k) =
    authenticate_impl-Safe username password h k method

reconnect-Safe :
    (credentials : Credentials) → HasBytes credentials → Safe CleanLog (reconnect credentials)
unfolding reconnect
reconnect-Safe credentials h =
    then-Safe CleanLog _ _ (modify-Safe CleanLog abandoned abandoned-CleanLog) (
      bind-Safe CleanLog _ _ (gets-Safe CleanLog (λ c. c)) λ c.
        then-Safe CleanLog _ _ (connect_impl-Safe c.saved_host c.saved_service no_tls false []) (
          then-Safe CleanLog _ _ read_greeting_impl-Safe
            (then-Safe CleanLog _ _ (ehlo_impl-Safe []) (reauthenticate-Safe credentials h))))

swallow-ends :
    (outcome : Result Exception (Unit {0}) × Client)
    → is_decided (outcome.0) ≡ true
    → CleanLog (outcome.1)
    → (is_decided ((swallow outcome).0) ≡ true) × CleanLog ((swallow outcome).1)
unfolding swallow
swallow-ends (ok u, c) h kept = (refl, kept)
swallow-ends (err (error text details), c) h kept = (refl, kept)
swallow-ends (err (invalid_argument text), c) h kept = (refl, kept)
swallow-ends (err (system_error text), c) h kept = (refl, kept)
swallow-ends (err out_of_fuel, c) h kept = (h, kept)

-- No more attempts are allowed.
abbrev is_spent : ReconnectionPolicy → ℕ → Bool
is_spent policy attempt = ltb 0 policy.max_attempts && ltb policy.max_attempts attempt

unthrown :
    (b : Bool) (e : Exception) (c : Client) {u : Unit {0}} → (throw_if b e c).0 ≡ ok u → b ≡ false
unthrown true e c h = absurd cc
unthrown false e c h = refl

catching-ends :
    {A : Type 0} (outcome : Result Exception A × Client) (handler : Exception → Action Client A)
    → is_decided (outcome.0) ≡ true
    → CleanLog (outcome.1)
    → ((e : Exception) → IsCodes e → Safe CleanLog (handler e))
    → (is_decided ((catching outcome handler).0) ≡ true) × CleanLog ((catching outcome handler).1)
catching-ends (ok a, c) handler h kept k = (refl, kept)
catching-ends {A} (err e, c) handler h kept k = (k e (decided-throw A (Unit {0}) e h)).ends c kept

catching-keeps :
    {A : Type 0} (outcome : Result Exception A × Client) (handler : Exception → Action Client A)
    → is_decided (outcome.0) ≡ true
    → CleanLog (outcome.1)
    → ((e : Exception) → IsCodes e → (c : Client) → CleanLog c → CleanLog ((handler e c).1))
    → CleanLog ((catching outcome handler).1)
catching-keeps (ok a, c) handler h kept k = kept
catching-keeps {A} (err e, c) handler h kept k = k e (decided-throw A (Unit {0}) e h) c kept

module _ (policy : ReconnectionPolicy) (credentials : Credentials)
    (given : HasBytes credentials) where
  try_reconnect-Safe : Safe CleanLog (try_reconnect credentials)
  unfolding try_reconnect
  try_reconnect-Safe = record {
    ends = λ c kept.
        let (decided, kept') = (reconnect-Safe credentials given).ends c kept in
        swallow-ends (reconnect credentials c) decided kept';
  }

  recover-Safe :
      (attempt : ℕ) (e : Exception)
      → IsCodes e
      → Safe CleanLog (recover policy credentials attempt e)
  unfolding recover async_wait
  recover-Safe attempt e h =
      then-Safe CleanLog _ _ (throw_if_any-Safe (not (is_connection_error e)) e h) (
        then-Safe CleanLog _ _ (throw_if_any-Safe (is_spent policy attempt) e h) (
          then-Safe CleanLog _ _ (throw_if_any-Safe (is_cancelled policy attempt) e h)
            (then-Safe CleanLog _ _ async_connect-Safe try_reconnect-Safe)))

  recover-value :
      (attempt : ℕ) (e : Exception) (c : Client) (u : Unit {0})
      → (recover policy credentials attempt e c).0 ≡ ok u
      → is_spent policy attempt ≡ false
  unfolding recover
  recover-value attempt e c u returned =
      let (_, s, _, later) =
        continue-value (throw_if (not (is_connection_error e)) e c) _ returned in
      let (_, _, passed, _) = continue-value (throw_if (is_spent policy attempt) e s) _ later in
      unthrown (is_spent policy attempt) e s passed

  recover-Gives :
      (attempt : ℕ) (e : Exception)
      → IsCodes e
      → Gives CleanLog
          (λ (u : Unit {0}). is_spent policy attempt ≡ false)
          (recover policy credentials attempt e)
  recover-Gives attempt e h = record {
    safe = recover-Safe attempt e h;
    gives = λ c u returned. recover-value attempt e c u returned;
  }

  module _ (msg : Message) (env : Envelope) (formatted : IsFormatted msg) where
    -- However many rounds there are, and whatever the policy allows.
    send_loop-keeps :
        (fuel attempt : ℕ) (c : Client)
        → CleanLog c
        → CleanLog ((send_loop policy msg env credentials fuel attempt c).1)
    unfolding send_loop
    send_loop-keeps zero attempt c kept = kept
    send_loop-keeps (suc fuel) attempt c kept =
        let (decided, kept') = (send_impl-Safe msg env formatted).ends c kept in
        catching-keeps (send_impl msg env c) _ decided kept' λ e is_codes d still.
          continue-keeps CleanLog (recover policy credentials (suc attempt) e d) _
            (((recover-Safe (suc attempt) e is_codes).ends d still).1)
            λ u s kept''. send_loop-keeps fuel (suc attempt) s kept''

    if-keeps :
        {A : Type 0} (b : Bool) (x y : Action Client A) (c : Client)
        → CleanLog ((x c).1)
        → CleanLog ((y c).1)
        → CleanLog (((if b then x else y) c).1)
    if-keeps true x y c h k = h
    if-keeps false x y c h k = k

    pub send_with_reconnection-keeps :
        (rounds : ℕ) (c : Client)
        → CleanLog c
        → CleanLog ((send_with_reconnection policy rounds msg env credentials c).1)
    unfolding send_with_reconnection
    send_with_reconnection-keeps rounds c kept =
        if-keeps policy.enabled _ _ c (send_loop-keeps rounds 0 c kept)
          (((send_impl-Safe msg env formatted).ends c kept).1)

    -- Each failure takes one of the attempts, of which there are fewer than rounds.
    send_loop-Safe :
        (fuel attempt : ℕ)
        → 0 < policy.max_attempts
        → attempt ≤ policy.max_attempts
        → policy.max_attempts < fuel + attempt
        → Safe CleanLog (send_loop policy msg env credentials fuel attempt)
    unfolding send_loop
    send_loop-Safe zero attempt limited h k = absurd (omega (arith, h, k))
    send_loop-Safe (suc fuel) attempt limited h k = record {
      ends = λ c kept.
          let (decided, kept') = (send_impl-Safe msg env formatted).ends c kept in
          catching-ends (send_impl msg env c) _ decided kept' λ e is_codes.
            given-Safe CleanLog _ _ _ (recover-Gives (suc attempt) e is_codes) λ u unspent.
              send_loop-Safe fuel (suc attempt) limited (ground (arith, unspent, limited))
                (omega (arith, k));
    }

    pub send_with_reconnection-Safe :
        (rounds : ℕ)
        → 0 < policy.max_attempts
        → policy.max_attempts < rounds
        → Safe CleanLog (send_with_reconnection policy rounds msg env credentials)
    unfolding send_with_reconnection
    send_with_reconnection-Safe rounds limited h =
        if-Safe CleanLog policy.enabled _ _
          (send_loop-Safe rounds 0 limited (omega arith) (omega (arith, h)))
          (send_impl-Safe msg env formatted)
