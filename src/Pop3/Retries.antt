-- ===== src/Pop3/Retries.antt =====
-- pop3/client.hpp: fetching with reconnections ends, and what a failed reconnection leaves.
use mailio.Base.{
  ℕ, zero, suc, ◌+◌, ◌≤◌, ◌<◌, ◌≡◌, refl, subst, Bool, true, false, not, ◌&&◌, Option, none, some,
  arith, ltb, if◌then◌else◌, ◌==◌, Bool-cases, inl, inr,
}
use mailio.Base.Bytes.{Bytes, codes, equal, All, IsByte}
use mailio.Base.Result.{Result, ok, err}
use mailio.Base.Action.{
  gets, Exception, error, invalid_argument, system_error, out_of_fuel, Action, continue-keeps,
  continue-value, Safe, Gives, is_decided, throw, throw_if, then-Safe, given-Safe, if-Safe,
  throw_if-Safe, ◌>>=◌, ◌>>◌,
}
use mailio.Pop3.{
  Client, SessionSnapshot, AuthMechanism, no_auth, user_pass, sasl_plain, xoauth2, apop,
  transaction, rank, ensure_state, invalid_state, state_details,
}
use mailio.Pop3.Session.{
  begin_connect, remember_connection, remember_tls, set_dialog, established, greeted, note_greeting,
  note_capabilities, connect_impl,
}
use mailio.Pop3.Auth.{by_login, by_plain, by_xoauth2, by_apop, authenticate_impl, logged_in}
use mailio.Pop3.Mailbox.{retr_impl}
use mailio.Pop3.Reconnect.{
  is_connection_error, what, has_keyword, ensure_reconnect_ready, lost, greet, restart_tls,
  ReconnectionPolicy, is_cancelled, reauthenticate_by, reauthenticate, reconnect_with_snapshot,
  caught, try_reconnect, attempt_reconnect, recover, or_recover, retr_loop, retr_with_reconnection,
  async_wait,
}
use mailio.Pop3.Steps.{
  Step, reads, writes, connects, handshakes, begins, remembers, dials, establishes, greets, notes,
  learns, async_connect-Safe,
}
use mailio.Pop3.Steps.Sessions.{connect_impl-Safe, greet-Safe, restart_tls-Safe}
use mailio.Pop3.Steps.Logins.{Ending, Runs, then-Runs, authenticate_impl-Runs, Runs-Safe}
use mailio.Pop3.Steps.Mailboxes.{retr_impl-Safe}
use mailio.Pop3.Kept.{Kept, Step-Kept, logged_in-Kept}

-- `reconnect_with_snapshot` after it has marked the connection as lost.
abbrev resume : (Bytes → Bytes) → SessionSnapshot → Action Client (Unit {0})
resume md5 snapshot = do
  connect_impl snapshot.host snapshot.service snapshot.tls_mode snapshot.has_context snapshot.sni
  greet
  restart_tls snapshot
  reauthenticate md5 snapshot

-- The credentials of a snapshot are strings of bytes.
pub record HasBytes (snapshot : SessionSnapshot) : Type 0 where
  pub username : All IsByte snapshot.username
  pub secret : (secret : Bytes) → snapshot.secret ≡ some secret → All IsByte secret

module _ (P Q : Client → Type 0) (stable : (c d : Client) → Step c d → P c → P d)
    (enters : (mechanism : AuthMechanism) (username secret : Bytes) (c : Client)
      → All IsByte username
      → All IsByte secret
      → P c
      → Q (logged_in mechanism username secret c))
    (md5 : Bytes → Bytes) where
  throw-Runs :
      (e : Exception) → is_decided {A = Unit {0}} (err e) ≡ true → Runs {A = Unit {0}} P Q (throw e)
  throw-Runs e h = record { runs = λ c kept. (h, kept) }

  reauthenticate_by-Runs :
      (mechanism : AuthMechanism) (username secret : Bytes)
      → All IsByte username
      → All IsByte secret
      → Runs P Q (reauthenticate_by md5 mechanism username secret)
  unfolding reauthenticate_by authenticate_impl
  reauthenticate_by-Runs user_pass username secret h k =
      authenticate_impl-Runs P Q stable enters md5 username secret by_login h k
  reauthenticate_by-Runs sasl_plain username secret h k =
      authenticate_impl-Runs P Q stable enters md5 username secret by_plain h k
  reauthenticate_by-Runs xoauth2 username secret h k =
      authenticate_impl-Runs P Q stable enters md5 username secret by_xoauth2 h k
  reauthenticate_by-Runs apop username secret h k =
      authenticate_impl-Runs P Q stable enters md5 username secret by_apop h k
  reauthenticate_by-Runs no_auth username secret h k = throw-Runs _ refl

  secret_of-Runs :
      (found : Option Bytes) (mechanism : AuthMechanism) (username : Bytes)
      → All IsByte username
      → ((secret : Bytes) → found ≡ some secret → All IsByte secret)
      → Runs {A = Unit {0}} P Q (elim found [
        | none ↦ throw (system_error (codes "bad optional access"))
        | some secret ↦ reauthenticate_by md5 mechanism username secret
      ])
  secret_of-Runs none mechanism username h k = throw-Runs _ refl
  secret_of-Runs (some secret) mechanism username h k =
      reauthenticate_by-Runs mechanism username secret h (k secret refl)

  resume-Runs : (snapshot : SessionSnapshot) → HasBytes snapshot → Runs P Q (resume md5 snapshot)
  unfolding reauthenticate
  resume-Runs snapshot h = then-Runs P Q _ _ (connect_impl-Safe P stable _ _ _ _ _) (
      then-Runs P Q _ _ (greet-Safe P stable) (
        then-Runs P Q _ _ (restart_tls-Safe P stable snapshot)
          (secret_of-Runs snapshot.secret snapshot.auth snapshot.username h.username h.secret)))

-- Not logged in.
abbrev IsBefore : Client → Type 0
IsBefore c = (rank c.state == rank transaction) ≡ false

Step-IsBefore : (c d : Client) → Step c d → IsBefore c → IsBefore d
unfolding begin_connect remember_connection remember_tls set_dialog established greeted
    note_greeting note_capabilities rank
Step-IsBefore _ _ (reads c) h = h
Step-IsBefore _ _ (writes payload c clean) h = h
Step-IsBefore _ _ (connects c) h = h
Step-IsBefore _ _ (handshakes name c clean) h = h
Step-IsBefore _ _ (begins host service mode has_context sni c) h = h
Step-IsBefore _ _ (remembers mode has_context sni c) h = h
Step-IsBefore _ _ (dials is_tls limit c) h = h
Step-IsBefore _ _ (establishes is_tls c) h = refl
Step-IsBefore _ _ (greets c) h = refl
Step-IsBefore _ _ (notes line c) h = h
Step-IsBefore _ _ (learns caps c) h = h

lost-IsBefore : (c : Client) → IsBefore (lost c)
unfolding lost rank
lost-IsBefore c = refl

module _ (md5 : Bytes → Bytes) where
  failed-IsBefore :
      (snapshot : SessionSnapshot) (c after : Client) {e : Exception}
      → HasBytes snapshot
      → reconnect_with_snapshot md5 snapshot c ≡ (err e, after)
      → IsBefore after
  unfolding reconnect_with_snapshot
  failed-IsBefore snapshot c after h failed =
      let (_, ending) =
        (resume-Runs IsBefore (λ d. Unit {0}) Step-IsBefore (λ m u s d a b before. tt) md5 snapshot
            h).runs
          (lost c) (lost-IsBefore c) in
      subst (Ending IsBefore (λ d. Unit {0})) failed ending

  outside : Client → Exception
  outside c = invalid_state (codes "RETR") (state_details (codes "expected ") transaction c.state)

  outside-throws : (c : Client) → is_connection_error (outside c) ≡ false
  unfolding is_connection_error outside invalid_state what has_keyword equal
  outside-throws c = refl

  retr-outside :
      (c : Client) (message_no : ℕ) → IsBefore c → retr_impl message_no c ≡ (err (outside c), c)
  unfolding retr_impl ensure_state outside
  retr-outside c message_no h = rw h

  -- When a reconnection has failed, the next round of the loop throws that RETR is in the wrong
  -- state, so there is no further attempt, whatever the policy allows.
  pub retr_loop-gives_up :
      (policy : ReconnectionPolicy) (fuel attempt message_no : ℕ) (snapshot : SessionSnapshot)
      (c after : Client) {e : Exception}
      → HasBytes snapshot
      → reconnect_with_snapshot md5 snapshot c ≡ (err e, after)
      → retr_loop md5 policy (suc fuel) attempt message_no after ≡ (
        err (
            invalid_state
              (codes "RETR")
              (state_details (codes "expected ") transaction after.state)),
        after,
      )
  unfolding retr_loop recover outside
  retr_loop-gives_up policy fuel attempt message_no snapshot c after h failed = rw (
    retr-outside after message_no (failed-IsBefore snapshot c after h failed),
    outside-throws after,
  )

-- An exception of the code is one at every type of result.
pub decided-throw :
    (A B : Type 0) (e : Exception)
    → is_decided {A = A} (err e) ≡ true
    → is_decided {A = B} (err e) ≡ true
decided-throw A B (error text details) h = refl
decided-throw A B (invalid_argument text) h = refl
decided-throw A B (system_error text) h = refl
decided-throw A B out_of_fuel h = cc

abbrev IsCodes : Exception → Type 0
IsCodes e = is_decided {A = Unit {0}} (err e) ≡ true

throw_if_any-Safe :
    (P : Client → Type 0) (b : Bool) (e : Exception) → IsCodes e → Safe P (throw_if b e)
throw_if_any-Safe P true e h = record { ends = λ c kept. (h, kept) }
throw_if_any-Safe P false e h = record { ends = λ c kept. (refl, kept) }

-- What follows is known to start at a client that the property holds of.
current-Safe :
    {B : Type 0} (P : Client → Type 0) (later : Client → Action Client B)
    → ((c : Client) → P c → Safe P (later c))
    → Safe P (gets (λ c. c) >>= later)
current-Safe P later k = record { ends = λ c kept. (k c kept).ends c kept }

ensure_reconnect_ready-Safe :
    (P : Client → Type 0) (snapshot : SessionSnapshot) → Safe P (ensure_reconnect_ready snapshot)
unfolding ensure_reconnect_ready
ensure_reconnect_ready-Safe P snapshot = search (then-Safe, throw_if-Safe) depth 8

-- No more attempts are allowed.
abbrev is_spent : ReconnectionPolicy → ℕ → Bool
is_spent policy attempt = ltb 0 policy.max_attempts && ltb policy.max_attempts attempt

module _ (md5 : Bytes → Bytes) (policy : ReconnectionPolicy) where
  caught-ends :
      (outcome : Result Exception (Unit {0}) × Client)
      → is_decided (outcome.0) ≡ true
      → Kept (outcome.1)
      → (is_decided ((caught md5 outcome).0) ≡ true) × Kept ((caught md5 outcome).1)
  unfolding caught
  caught-ends (ok u, c) h kept = (refl, kept)
  caught-ends (err e, c) h kept = elim (Bool-cases (is_connection_error e)) [
    | inl lost ↦ rw lost (refl, kept)
    | inr other ↦ rw other (h, kept)
  ]

  try_reconnect-Safe :
      (snapshot : SessionSnapshot) → HasBytes snapshot → Safe Kept (try_reconnect md5 snapshot)
  unfolding try_reconnect reconnect_with_snapshot lost
  try_reconnect-Safe snapshot h =
      let call = Runs-Safe Kept _ (resume-Runs Kept Kept Step-Kept logged_in-Kept md5 snapshot h) in
      record {
        ends = λ c kept.
            let (decided, kept') = call.ends (lost c) kept in
            caught-ends (resume md5 snapshot (lost c)) decided kept';
      }

  attempt_reconnect-Safe :
      (attempt : ℕ) (e : Exception) (snapshot : SessionSnapshot)
      → IsCodes e
      → HasBytes snapshot
      → Safe Kept (attempt_reconnect md5 policy attempt e snapshot)
  unfolding attempt_reconnect async_wait
  attempt_reconnect-Safe attempt e snapshot h k =
      then-Safe Kept _ _ (ensure_reconnect_ready-Safe Kept snapshot) (
        then-Safe Kept _ _ (throw_if_any-Safe Kept (is_spent policy attempt) e h) (
          then-Safe Kept _ _ (throw_if_any-Safe Kept (is_cancelled policy attempt) e h) (
            then-Safe Kept _ _ (async_connect-Safe Kept Step-Kept)
              (try_reconnect-Safe snapshot k))))

  recover-Safe :
      (attempt : ℕ) (e : Exception) → IsCodes e → Safe Kept (recover md5 policy attempt e)
  unfolding recover
  recover-Safe attempt e h =
      then-Safe Kept _ _ (throw_if_any-Safe Kept (not (is_connection_error e)) e h) (
        current-Safe Kept (λ c. attempt_reconnect md5 policy attempt e c.session_snapshot)
          λ c kept.
            attempt_reconnect-Safe attempt e c.session_snapshot h
              (record { username = kept.2.0; secret = kept.2.1 }))

  unthrown :
      (b : Bool) (e : Exception) (c : Client) {u : Unit {0}} → (throw_if b e c).0 ≡ ok u → b ≡ false
  unthrown true e c h = absurd cc
  unthrown false e c h = refl

  recover-value :
      (attempt : ℕ) (e : Exception) (c : Client) (u : Unit {0})
      → (recover md5 policy attempt e c).0 ≡ ok u
      → is_spent policy attempt ≡ false
  unfolding recover attempt_reconnect
  recover-value attempt e c u returned =
      let (_, s, _, later) =
        continue-value (throw_if (not (is_connection_error e)) e c) _ returned in
      let (_, t, _, latest) =
        continue-value (ensure_reconnect_ready s.session_snapshot s) _ later in
      let (_, _, passed, _) = continue-value (throw_if (is_spent policy attempt) e t) _ latest in
      unthrown (is_spent policy attempt) e t passed

  recover-Gives :
      (attempt : ℕ) (e : Exception)
      → IsCodes e
      → Gives Kept
          (λ (u : Unit {0}). is_spent policy attempt ≡ false)
          (recover md5 policy attempt e)
  recover-Gives attempt e h = record {
    safe = recover-Safe attempt e h;
    gives = λ c u returned. recover-value attempt e c u returned;
  }

  or_recover-ends :
      {A : Type 0} (outcome : Result Exception A × Client) (handler : Exception → Action Client A)
      → is_decided (outcome.0) ≡ true
      → Kept (outcome.1)
      → ((e : Exception) → IsCodes e → Safe Kept (handler e))
      → (is_decided ((or_recover md5 outcome handler).0) ≡ true)
        × Kept ((or_recover md5 outcome handler).1)
  or_recover-ends (ok a, c) handler h kept k = (refl, kept)
  or_recover-ends {A} (err e, c) handler h kept k =
      (k e (decided-throw A (Unit {0}) e h)).ends c kept

  -- Each failure takes one of the attempts, of which there are fewer than rounds.
  retr_loop-Safe :
      (fuel attempt message_no : ℕ)
      → 0 < policy.max_attempts
      → attempt ≤ policy.max_attempts
      → policy.max_attempts < fuel + attempt
      → Safe Kept (retr_loop md5 policy fuel attempt message_no)
  unfolding retr_loop
  retr_loop-Safe zero attempt message_no limited h k = absurd (omega (arith, h, k))
  retr_loop-Safe (suc fuel) attempt message_no limited h k = record {
    ends = λ c kept.
        let (decided, kept') = (retr_impl-Safe Kept Step-Kept message_no).ends c kept in
        or_recover-ends (retr_impl message_no c) _ decided kept' λ e is_codes.
          given-Safe Kept _ _ _ (recover-Gives (suc attempt) e is_codes) λ u unspent.
            retr_loop-Safe fuel (suc attempt) message_no limited (ground (arith, unspent, limited))
              (omega (arith, k));
  }

  or_recover-keeps :
      {A : Type 0} (outcome : Result Exception A × Client) (handler : Exception → Action Client A)
      → is_decided (outcome.0) ≡ true
      → Kept (outcome.1)
      → ((e : Exception) → IsCodes e → (c : Client) → Kept c → Kept ((handler e c).1))
      → Kept ((or_recover md5 outcome handler).1)
  or_recover-keeps (ok a, c) handler h kept k = kept
  or_recover-keeps {A} (err e, c) handler h kept k = k e (decided-throw A (Unit {0}) e h) c kept

  -- However many rounds there are, and whatever the policy allows.
  retr_loop-keeps :
      (fuel attempt message_no : ℕ) (c : Client)
      → Kept c
      → Kept ((retr_loop md5 policy fuel attempt message_no c).1)
  unfolding retr_loop
  retr_loop-keeps zero attempt message_no c kept = kept
  retr_loop-keeps (suc fuel) attempt message_no c kept =
      let (decided, kept') = (retr_impl-Safe Kept Step-Kept message_no).ends c kept in
      or_recover-keeps (retr_impl message_no c) _ decided kept' λ e is_codes d still.
        continue-keeps Kept (recover md5 policy (suc attempt) e d) _
          (((recover-Safe (suc attempt) e is_codes).ends d still).1)
          λ u s kept''. retr_loop-keeps fuel (suc attempt) message_no s kept''

  if-keeps :
      {A : Type 0} (b : Bool) (x y : Action Client A) (c : Client)
      → Kept ((x c).1)
      → Kept ((y c).1)
      → Kept (((if b then x else y) c).1)
  if-keeps true x y c h k = h
  if-keeps false x y c h k = k

  pub retr_with_reconnection-keeps :
      (rounds message_no : ℕ) (c : Client)
      → Kept c
      → Kept ((retr_with_reconnection md5 policy rounds message_no c).1)
  unfolding retr_with_reconnection
  retr_with_reconnection-keeps rounds message_no c kept =
      if-keeps policy.enabled _ _ c (retr_loop-keeps rounds 0 message_no c kept)
        (((retr_impl-Safe Kept Step-Kept message_no).ends c kept).1)

  pub retr_with_reconnection-Safe :
      (rounds message_no : ℕ)
      → 0 < policy.max_attempts
      → policy.max_attempts < rounds
      → Safe Kept (retr_with_reconnection md5 policy rounds message_no)
  unfolding retr_with_reconnection
  retr_with_reconnection-Safe rounds message_no limited h =
      if-Safe Kept policy.enabled _ _
        (retr_loop-Safe rounds 0 message_no limited (omega arith) (omega (arith, h)))
        (retr_impl-Safe Kept Step-Kept message_no)
