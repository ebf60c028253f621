-- ===== src/ImapClient/Steps/Sessions.antt =====
-- imap/client.hpp: connecting, CAPABILITY, STARTTLS, authentication and IDLE go by steps.
use mailio.Base.{
  ◌≡◌, refl, subst, Bool, true, false, ◌&&◌, ◌==◌, Option, none, some, [], arith, if◌then◌else◌,
}
use mailio.Base.Bytes.{Bytes, codes, is_empty, front_or}
use mailio.Base.Result.{Result, ok, err, map_error}
use mailio.Base.Action.{
  Exception, error, is_decided, Safe, Gives, bind-Safe, then-Safe, given-Safe, given-Gives, if-Safe,
  pure, pure-Safe, gets-Safe, throw, throw_if-Safe,
}
use mailio.Net.{Dialog, not_established}
use mailio.Wire.{contains_crlf_or_nul}
use mailio.Wire.Clean.{IsClean, append_sv-IsClean, append_space-IsClean}
use mailio.Sasl.{ensure_auth_allowed}
use mailio.Imap.Astring.{ensure_clean, to_astring}
use mailio.ImapClient.{Client, ensure, new_response}
use mailio.ImapClient.Session.{
  thrown, resolve_sni, the_dialog, read_greeting_impl, capability_impl, start_tls_impl, connect_tls,
  auto_start_tls, connect_impl, TlsMode, is_implicit, is_starttls, enforce_auth_tls_policy,
  login_impl, authenticate_with, authenticate_plain_impl, authenticate_xoauth2_impl,
  authenticate_by, AuthMethod, login, plain, xoauth2, auto_detect, learn_first, resolved,
  authenticate_impl, idle_start, idle_read, idle_stop,
}
use mailio.ImapClient.Steps.{
  Step, names, dials, establishes, learns, notes, read_lines-Safe, take_line-Safe, end_at_tag-Calm,
  end_at_tag-Safe,
}
use mailio.ImapClient.Steps.Commands.{
  heard, change-Safe, read_line-Safe, async_connect-Safe, start_tls-Safe, write_line-Safe,
  ensure-Gives, ensure-Safe, lift-Safe, next_tag-Gives, command_impl-Safe, continuation-Safe,
}

words-IsClean : IsClean (codes "IDLE") × IsClean (codes "DONE")
unfolding contains_crlf_or_nul
words-IsClean = (refl, refl)

dialog_of-Safe :
    (P : Client → Type 0) (dialog : Option Dialog) (c : Client)
    → P c
    → let outcome : Result Exception Dialog × Client = elim dialog [
      | none ↦ (err (error (codes "Connection is not established.") []), c)
      | some d ↦ (ok d, c)
    ] in
      (is_decided (outcome.0) ≡ true) × P (outcome.1)
dialog_of-Safe P none c kept = (refl, kept)
dialog_of-Safe P (some d) c kept = (refl, kept)

the_dialog-Safe : (P : Client → Type 0) → Safe P the_dialog
unfolding the_dialog not_established
the_dialog-Safe P = record { ends = λ c kept. dialog_of-Safe P c.link.dialog c kept }

pure-Gives : (P : Client → Type 0) (value : Bytes) → IsClean value → Gives P IsClean (pure value)
pure-Gives P value h = record {
  safe = pure-Safe P value;
  gives = λ c a returned. let same : value ≡ a = cc in subst IsClean same h;
}

allowed-decided :
    (is_tls required allowed : Bool)
    → is_decided (ensure_auth_allowed is_tls required allowed) ≡ true
unfolding ensure_auth_allowed
allowed-decided true required allowed = refl
allowed-decided false false allowed = refl
allowed-decided false true true = refl
allowed-decided false true false = refl

pub astring-decided : (text : Bytes) → is_decided (map_error thrown (to_astring text)) ≡ true
unfolding thrown to_astring ensure_clean
astring-decided text = ground arith

throw-Safe :
    (P : Client → Type 0) (text details : Bytes)
    → Safe P (throw {S = Client} {A = Bytes} (error text details))
throw-Safe P text details = record { ends = λ c kept. (refl, kept) }

module _ (P : Client → Type 0) (stable : (c d : Client) → Step c d → P c → P d) where
  resolve_sni-Gives : (host sni : Bytes) → Gives P IsClean (resolve_sni host sni)
  unfolding resolve_sni
  resolve_sni-Gives host sni =
      let name = if is_empty sni then host else sni in
      given-Gives P _ IsClean (ensure name (codes "sni")) (λ u. pure name)
        (ensure-Gives P stable name (codes "sni")) (λ u clean. pure-Gives P name clean)

  pub read_greeting_impl-Safe : Safe P read_greeting_impl
  unfolding read_greeting_impl
  read_greeting_impl-Safe = bind-Safe P _ _ (read_line-Safe P stable) λ line.
      then-Safe P _ _ (change-Safe P stable _ (notes line))
        (take_line-Safe P (heard P stable) [] line (new_response []))

  pub capability_impl-Safe : Safe P capability_impl
  unfolding capability_impl
  capability_impl-Safe =
      bind-Safe P _ _ (command_impl-Safe P stable _)
        λ resp. then-Safe P _ _ (change-Safe P stable _ (learns resp)) (pure-Safe P resp)

  pub start_tls_impl-Safe : (sni : Bytes) → Safe P (start_tls_impl sni)
  unfolding start_tls_impl
  start_tls_impl-Safe sni = bind-Safe P _ _ (command_impl-Safe P stable _) λ resp.
      then-Safe P _ _ (throw_if-Safe P _ _ _) (
        bind-Safe P _ _ (the_dialog-Safe P) λ dlg. bind-Safe P _ _ (gets-Safe P (λ c. c)) λ c.
          given-Safe P _ _ _ (resolve_sni-Gives c.remote_host sni) λ name clean.
            then-Safe P _ _ (start_tls-Safe P stable dlg.is_tls name clean)
              (change-Safe P stable _ (dials true dlg.max_line_length)))

  connect_tls-Safe :
      (host : Bytes) (has_context : Bool) (sni : Bytes) → Safe P (connect_tls host has_context sni)
  unfolding connect_tls
  connect_tls-Safe host has_context sni = then-Safe P _ _ (throw_if-Safe P _ _ _) (
      given-Safe P _ _ _ (resolve_sni-Gives host sni)
        λ name clean. start_tls-Safe P stable false name clean)

  auto_start_tls-Safe : (has_context : Bool) (sni : Bytes) → Safe P (auto_start_tls has_context sni)
  unfolding auto_start_tls
  auto_start_tls-Safe has_context sni = then-Safe P _ _ (throw_if-Safe P _ _ _) (
      then-Safe P _ _ read_greeting_impl-Safe (
        then-Safe P _ _ (start_tls_impl-Safe sni)
          (then-Safe P _ _ capability_impl-Safe (pure-Safe P tt))))

  pub connect_impl-Safe :
      (host service : Bytes) (mode : TlsMode) (has_context : Bool) (sni : Bytes)
      → Safe P (connect_impl host service mode has_context sni)
  unfolding connect_impl
  connect_impl-Safe host service mode has_context sni = bind-Safe P _ _ (gets-Safe P (λ c. c)) λ c.
      then-Safe P _ _ (throw_if-Safe P _ _ _) (
        then-Safe P _ _ (ensure-Safe P stable host _) (
          then-Safe P _ _ (ensure-Safe P stable service _) (
            then-Safe P _ _ (change-Safe P stable _ (names host)) (
              then-Safe P _ _ (async_connect-Safe P stable) (
                then-Safe P _ _ (async_connect-Safe P stable) (
                  then-Safe P _ _
                    (if-Safe P (is_implicit mode) _ _ (connect_tls-Safe host has_context sni)
                      (pure-Safe P tt))
                    (then-Safe P _ _ (change-Safe P stable _ (establishes (is_implicit mode))) (
                      if-Safe P (is_starttls mode && c.options.auto_starttls) _ _
                        (auto_start_tls-Safe has_context sni) (pure-Safe P tt)))))))))

  enforce-Safe : Safe P enforce_auth_tls_policy
  unfolding enforce_auth_tls_policy
  enforce-Safe = bind-Safe P _ _ (the_dialog-Safe P) λ d.
      bind-Safe P _ _ (gets-Safe P (λ c. c)) λ c.
        lift-Safe P stable _
          (allowed-decided d.is_tls c.options.require_tls_for_auth c.options.allow_cleartext_auth)

  pub login_impl-Safe : (username password : Bytes) → Safe P (login_impl username password)
  unfolding login_impl
  login_impl-Safe username password = then-Safe P _ _ enforce-Safe (
      then-Safe P _ _ (ensure-Safe P stable username _) (
        then-Safe P _ _ (ensure-Safe P stable password _) (
          bind-Safe P _ _ (lift-Safe P stable _ (astring-decided username)) λ user.
            bind-Safe P _ _ (lift-Safe P stable _ (astring-decided password))
              λ pass. command_impl-Safe P stable _)))

  authenticate_with-Safe :
      (word encoded field : Bytes) → Safe P (authenticate_with word encoded field)
  unfolding authenticate_with
  authenticate_with-Safe word encoded field = then-Safe P _ _ (ensure-Safe P stable encoded field) (
      bind-Safe P _ _ (gets-Safe P (λ c. c)) λ c.
        if-Safe P c.capabilities.sasl_ir _ _ (continuation-Safe P stable _ _)
          (continuation-Safe P stable _ _))

  authenticate_by-Safe :
      (method : AuthMethod) (username secret : Bytes)
      → Safe P (authenticate_by method username secret)
  unfolding authenticate_by authenticate_plain_impl authenticate_xoauth2_impl
  authenticate_by-Safe plain username secret =
      then-Safe P _ _ enforce-Safe (authenticate_with-Safe _ _ _)
  authenticate_by-Safe xoauth2 username secret =
      then-Safe P _ _ enforce-Safe (authenticate_with-Safe _ _ _)
  authenticate_by-Safe login username secret = login_impl-Safe username secret
  authenticate_by-Safe auto_detect username secret = login_impl-Safe username secret

  learn_first-Safe : (method : AuthMethod) → Safe P (learn_first method)
  unfolding learn_first
  learn_first-Safe method =
      bind-Safe P _ _ (gets-Safe P (λ c. c)) λ c.
        if-Safe P _ _ _ (then-Safe P _ _ capability_impl-Safe (pure-Safe P tt)) (pure-Safe P tt)

  pub authenticate_impl-Safe :
      (username secret : Bytes) (method : AuthMethod)
      → Safe P (authenticate_impl username secret method)
  unfolding authenticate_impl
  authenticate_impl-Safe username secret method =
      then-Safe P _ _ (ensure-Safe P stable username _) (
        then-Safe P _ _ (ensure-Safe P stable secret _) (
          then-Safe P _ _ (learn_first-Safe method) (
            bind-Safe P _ _ (gets-Safe P (λ c. c))
              λ c. authenticate_by-Safe (resolved method c.capabilities) username secret)))

  pub idle_start-Safe : Safe P idle_start
  unfolding idle_start
  idle_start-Safe = given-Safe P _ _ _ (next_tag-Gives P stable) λ tag clean.
      then-Safe P _ _
        (write_line-Safe P stable _
          (append_sv-IsClean _ (codes "IDLE") (append_space-IsClean tag clean) (words-IsClean.0)))
        (bind-Safe P _ _ (read_line-Safe P stable) λ reply_line.
          if-Safe P (front_or reply_line 0 == b'+') _ _ (pure-Safe P tag)
            (if-Safe P _ _ _ (throw-Safe P _ _) (throw-Safe P _ _)))

  pub idle_read-Safe : Safe P idle_read
  unfolding idle_read
  idle_read-Safe = read_line-Safe P stable

  pub idle_stop-Safe : (tag : Bytes) → Safe P (idle_stop tag)
  unfolding idle_stop
  idle_stop-Safe tag = then-Safe P _ _ (write_line-Safe P stable _ (words-IsClean.1)) (
      bind-Safe P _ _
        (read_lines-Safe _ tag P (heard P stable) _ tt (end_at_tag-Calm tag)
          (λ line u. end_at_tag-Safe P tag line u))
        λ read. pure-Safe P (read.0))
