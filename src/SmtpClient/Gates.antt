-- ===== src/SmtpClient/Gates.antt =====
-- smtp/client.hpp: credentials and TLS.
use mailio.Base.{◌≡◌, refl, ap, subst, Bool, true, false, not, some, []}
use mailio.Base.Bytes.{Bytes, codes}
use mailio.Base.Result.{Result, ok, err, map_error}
use mailio.Base.Action.{
  Exception, error, invalid_argument, Action, continue, continue-eq-ok, throw_if, lift, gets,
  modify, ◌>>=◌, ◌>>◌,
}
use mailio.Net.{Dialog, make_dialog, emplace}
use mailio.Wire.{ensure_no_crlf_or_nul}
use mailio.Sasl.{ensure_auth_allowed}
use mailio.SmtpClient.{
  Client, tls, require_greeting, require_ehlo, has_greeting, has_helo_or_ehlo, reset_capabilities,
}
use mailio.SmtpClient.Session.{ensure, the_dialog, start_tls_impl, secured, emplace_dialog}
use mailio.SmtpClient.Auth.{AuthMethod, enforce_auth_tls_policy, authenticate_impl}

-- A call that throws and changes nothing, the network included.
pub record Refuses {A : Type 0} (call : Action Client A) (c : Client) : Type 0 where
  pub reason : Exception
  pub refuses : call c ≡ (err reason, c)

module _ {A : Type 0} (later : Action Client A) (c : Client) (h : Refuses later c) where
  check-Refuses : (b : Bool) (e : Exception) → Refuses (throw_if b e >> later) c
  check-Refuses true e = record { reason = e; refuses = refl }
  check-Refuses false e = record { reason = h.reason; refuses = h.refuses }

  lift-Refuses : (r : Result Exception (Unit {0})) → Refuses (lift r >> later) c
  lift-Refuses (ok u) = record { reason = h.reason; refuses = h.refuses }
  lift-Refuses (err e) = record { reason = e; refuses = refl }

  ensure-Refuses : (value field : Bytes) → Refuses (ensure value field >> later) c
  unfolding ensure
  ensure-Refuses value field =
      lift-Refuses (map_error invalid_argument (ensure_no_crlf_or_nul value (some field)))

  greeting-Refuses : (text : Bytes) → Refuses (require_greeting text >> later) c
  unfolding require_greeting
  greeting-Refuses text =
      let stop = check-Refuses (not (has_greeting c)) (error text []) in
      record { reason = stop.reason; refuses = stop.refuses }

  ehlo-Refuses : (text : Bytes) → Refuses (require_ehlo text >> later) c
  unfolding require_ehlo
  ehlo-Refuses text =
      let stop = check-Refuses (not (has_helo_or_ehlo c)) (error text []) in
      record { reason = stop.reason; refuses = stop.refuses }

gets-Refuses :
    {A : Type 0} (later : Client → Action Client A) (c : Client)
    → Refuses (later c) c
    → Refuses (gets (λ c. c) >>= later) c
gets-Refuses later c h = record { reason = h.reason; refuses = h.refuses }

after-Refuses :
    {A : Type 0} (first : Action Client (Unit {0})) (later : Action Client A) (c : Client)
    → Refuses first c
    → Refuses (first >> later) c
after-Refuses first later c h = record {
  reason = h.reason;
  refuses = ap (λ o. continue o (λ u. later)) h.refuses;
}

enforce-Refuses :
    (c : Client) (d : Dialog)
    → c.link.dialog ≡ some d
    → d.is_tls ≡ false
    → c.options.require_tls_for_auth ≡ true
    → c.options.allow_cleartext_auth ≡ false
    → Refuses enforce_auth_tls_policy c
unfolding enforce_auth_tls_policy the_dialog ensure_auth_allowed
enforce-Refuses c d here clear required forbidden = record {
  reason =
      error (codes "TLS required for authentication; call start_tls() or use tls_mode::implicit")
        [];
  refuses = rw (here, clear, required, forbidden);
}

-- On a connection without TLS, when the options require TLS for authentication and do not allow it
-- in clear, every authentication throws, with every method, and has neither written anything nor
-- changed the client.
pub authenticate-Refuses :
    (username password : Bytes) (method : AuthMethod) (c : Client) (d : Dialog)
    → c.link.dialog ≡ some d
    → d.is_tls ≡ false
    → c.options.require_tls_for_auth ≡ true
    → c.options.allow_cleartext_auth ≡ false
    → Refuses (authenticate_impl username password method) c
unfolding authenticate_impl
authenticate-Refuses username password method c d here clear required forbidden =
    search
      (
        ensure-Refuses, greeting-Refuses, ehlo-Refuses, gets-Refuses, check-Refuses, after-Refuses,
        enforce-Refuses,
      )
      depth 14

-- What a call that returns leaves behind.
record Leaves {A : Type 0} (Q : Client → Type 0) (call : Action Client A) : Type 0 where
  leaves : (c : Client) (a : A) (after : Client) → call c ≡ (ok a, after) → Q after

module _ {A B : Type 0} (Q : Client → Type 0) where
  bind-Leaves :
      (first : Action Client A) (later : A → Action Client B)
      → ((a : A) → Leaves Q (later a))
      → Leaves Q (first >>= later)
  bind-Leaves first later k = record {
    leaves = λ c b after returned.
        let (a, s, begun, rest) = continue-eq-ok (first c) later returned in
        (k a).leaves s b after rest;
  }

  then-Leaves :
      (first : Action Client A) (second : Action Client B)
      → Leaves Q second
      → Leaves Q (first >> second)
  then-Leaves first second k = bind-Leaves first (λ a. second) (λ a. k)

modify-Leaves :
    (Q : Client → Type 0) (f : Client → Client) → ((c : Client) → Q (f c)) → Leaves Q (modify f)
modify-Leaves Q f h = record {
  leaves = λ c u after returned. subst Q (ap (λ o. o.1) returned) (h c);
}

-- A client over TLS that has read nothing yet, not even ahead, and knows nothing of the server.
pub record IsFresh (c : Client) : Type 0 where
  pub dialog : Dialog
  pub here : c.link.dialog ≡ some dialog
  pub over_tls : dialog.is_tls ≡ true
  pub unread : dialog.read_buffer ≡ []
  pub unknown : c.capabilities_known ≡ false
  pub forgotten : c.entries ≡ []
  pub unnamed : c.server_name ≡ []
  pub asked_by_none : c.helo_only ≡ false
  pub in_tls : c.state ≡ tls

secured-IsFresh : (d : Dialog) (c : Client) → IsFresh (secured d c)
unfolding secured reset_capabilities emplace_dialog emplace make_dialog
secured-IsFresh d c = record {
  dialog = _;
  here = refl;
  over_tls = refl;
  unread = refl;
  unknown = refl;
  forgotten = refl;
  unnamed = refl;
  asked_by_none = refl;
  in_tls = refl;
}

start_tls-Leaves : (sni : Bytes) → Leaves IsFresh (start_tls_impl sni)
unfolding start_tls_impl
start_tls-Leaves sni = search (bind-Leaves, then-Leaves, modify-Leaves, secured-IsFresh) depth 16

-- A STARTTLS that returns leaves a connection over TLS on which nothing has been read: whatever the
-- peer sent in clear behind its reply is thrown away, and so are the capabilities it advertised in
-- clear, the name it gave itself, and that it took HELO only.
pub start_tls_impl-IsFresh :
    (sni : Bytes) (c after : Client) → start_tls_impl sni c ≡ (ok tt, after) → IsFresh after
start_tls_impl-IsFresh sni c after returned = (start_tls-Leaves sni).leaves c tt after returned
