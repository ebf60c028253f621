-- ===== src/Pop3/Steps/Sessions.antt =====
-- pop3/client.hpp: connecting, CAPA and STLS go by steps.
use mailio.Base.{◌≡◌, refl, subst, Bool, true, false, ◌&&◌, Option, none, some, [], if◌then◌else◌}
use mailio.Base.Bytes.{Bytes, codes, is_empty}
use mailio.Base.Result.{Result, ok, err}
use mailio.Base.Action.{
  Exception, error, is_decided, Safe, Gives, bind-Safe, then-Safe, given-Safe, given-Gives, if-Safe,
  pure, pure-Safe, gets-Safe, throw_if-Safe,
}
use mailio.Net.{Dialog, not_established}
use mailio.Wire.{contains_crlf_or_nul}
use mailio.Wire.Clean.{IsClean}
use mailio.Pop3.{Client, Capabilities, TlsMode, SessionSnapshot, ensure}
use mailio.Pop3.Session.{
  resolve_sni, the_dialog, read_greeting_impl, capa_impl, require_stls, upgrade_to_tls,
  start_tls_impl, connect_tls, auto_start_tls, connect_impl, is_implicit, is_starttls,
  add_capability, no_capabilities,
}
use mailio.Pop3.Reconnect.{greet, restart_tls}
use mailio.Pop3.Steps.{
  Step, begins, remembers, dials, establishes, greets, notes, learns, change-Safe, read_line-Safe,
  async_connect-Safe, start_tls-Safe, ensure-Gives, ensure-Safe, ensure_state-Safe,
  ensure_state_at_least-Safe, expect_ok-Safe, command-Safe, read_lines-Safe,
}

words-IsClean : IsClean (codes "CAPA") × IsClean (codes "STLS")
unfolding contains_crlf_or_nul
words-IsClean = (refl, refl)

dialog_of-Safe :
    (P : Client → Type 0) (dialog : Option Dialog) (c : Client)
    → P c
    → let outcome : Result Exception Dialog × Client = elim dialog [
      | none ↦ (err (error (codes "Connection is not established.") []), c)
      | some d ↦ (ok d, c)
    ] in
      (is_decided (outcome.0) ≡ true) × P (outcome.1)
dialog_of-Safe P none c kept = (refl, kept)
dialog_of-Safe P (some d) c kept = (refl, kept)

pub the_dialog-Safe : (P : Client → Type 0) → Safe P the_dialog
unfolding the_dialog not_established
the_dialog-Safe P = record { ends = λ c kept. dialog_of-Safe P c.link.dialog c kept }

require_stls-Safe : (P : Client → Type 0) (caps : Option Capabilities) → Safe P (require_stls caps)
unfolding require_stls
require_stls-Safe P none = record { ends = λ c kept. (refl, kept) }
require_stls-Safe P (some caps) = throw_if-Safe P _ _ _

pure-Gives : (P : Client → Type 0) (value : Bytes) → IsClean value → Gives P IsClean (pure value)
pure-Gives P value h = record {
  safe = pure-Safe P value;
  gives = λ c a returned. let same : value ≡ a = cc in subst IsClean same h;
}

module _ (P : Client → Type 0) (stable : (c d : Client) → Step c d → P c → P d) where
  resolve_sni-Gives : (host sni : Bytes) → Gives P IsClean (resolve_sni host sni)
  unfolding resolve_sni
  resolve_sni-Gives host sni =
      let name = if is_empty sni then host else sni in
      given-Gives P _ IsClean (ensure name (codes "sni")) (λ u. pure name)
        (ensure-Gives P stable name (codes "sni")) (λ u clean. pure-Gives P name clean)

  pub read_greeting_impl-Safe : Safe P read_greeting_impl
  unfolding read_greeting_impl
  read_greeting_impl-Safe = then-Safe P _ _ (ensure_state-Safe P stable _ _) (
      bind-Safe P _ _ (read_line-Safe P stable) λ line.
        then-Safe P _ _ (change-Safe P stable _ (notes line)) (
          bind-Safe P _ _ (expect_ok-Safe P stable _ line)
            λ msg. then-Safe P _ _ (change-Safe P stable _ greets) (pure-Safe P msg)))

  pub capa_impl-Safe : Safe P capa_impl
  unfolding capa_impl
  capa_impl-Safe = then-Safe P _ _ (ensure_state_at_least-Safe P stable _ _) (
      then-Safe P _ _ (command-Safe P stable _ _ (words-IsClean.0)) (
        bind-Safe P _ _ (read_lines-Safe P stable add_capability no_capabilities)
          λ caps. then-Safe P _ _ (change-Safe P stable _ (learns caps)) (pure-Safe P caps)))

  upgrade_to_tls-Safe : (sni : Bytes) → IsClean sni → Safe P (upgrade_to_tls sni)
  unfolding upgrade_to_tls
  upgrade_to_tls-Safe sni h = bind-Safe P _ _ (the_dialog-Safe P) λ dlg.
      then-Safe P _ _ (start_tls-Safe P stable dlg.is_tls sni h)
        (change-Safe P stable _ (dials true dlg.max_line_length))

  pub start_tls_impl-Safe : (sni : Bytes) → Safe P (start_tls_impl sni)
  unfolding start_tls_impl
  start_tls_impl-Safe sni = then-Safe P _ _ (ensure_state-Safe P stable _ _) (
      bind-Safe P _ _ (gets-Safe P (λ c. c)) λ c.
        then-Safe P _ _ (require_stls-Safe P c.capabilities) (
          then-Safe P _ _ (command-Safe P stable _ _ (words-IsClean.1)) (
            given-Safe P _ _ _ (resolve_sni-Gives c.host sni) λ name clean.
              then-Safe P _ _ (change-Safe P stable _ (remembers _ _ name))
                (upgrade_to_tls-Safe name clean))))

  connect_tls-Safe :
      (host : Bytes) (has_context : Bool) (sni : Bytes) → Safe P (connect_tls host has_context sni)
  unfolding connect_tls
  connect_tls-Safe host has_context sni = then-Safe P _ _ (throw_if-Safe P _ _ _) (
      given-Safe P _ _ _ (resolve_sni-Gives host sni) λ name clean.
        then-Safe P _ _ (change-Safe P stable _ (remembers _ has_context name))
          (start_tls-Safe P stable false name clean))

  auto_start_tls-Safe : (has_context : Bool) (sni : Bytes) → Safe P (auto_start_tls has_context sni)
  unfolding auto_start_tls
  auto_start_tls-Safe has_context sni = then-Safe P _ _ (throw_if-Safe P _ _ _) (
      then-Safe P _ _ read_greeting_impl-Safe (
        then-Safe P _ _ capa_impl-Safe (
          then-Safe P _ _ (start_tls_impl-Safe sni)
            (then-Safe P _ _ capa_impl-Safe (pure-Safe P tt)))))

  pub connect_impl-Safe :
      (host service : Bytes) (mode : TlsMode) (has_context : Bool) (sni : Bytes)
      → Safe P (connect_impl host service mode has_context sni)
  unfolding connect_impl
  connect_impl-Safe host service mode has_context sni =
      then-Safe P _ _ (ensure_state-Safe P stable _ _) (
        ensure-Safe P stable host _ _ λ host_clean. bind-Safe P _ _ (gets-Safe P (λ c. c)) λ c.
          then-Safe P _ _ (change-Safe P stable _ (begins host service mode has_context sni)) (
            then-Safe P _ _ (async_connect-Safe P stable) (
              then-Safe P _ _ (async_connect-Safe P stable) (
                then-Safe P _ _
                  (if-Safe P (is_implicit mode) _ _ (connect_tls-Safe host has_context sni)
                    (pure-Safe P tt))
                  (then-Safe P _ _ (change-Safe P stable _ (establishes (is_implicit mode))) (
                    if-Safe P (is_starttls mode && c.options.auto_starttls) _ _
                      (auto_start_tls-Safe has_context sni) (pure-Safe P tt)))))))

  pub greet-Safe : Safe P greet
  unfolding greet
  greet-Safe = bind-Safe P _ _ (gets-Safe P (λ c. c)) λ c.
      if-Safe P _ _ _ (then-Safe P _ _ read_greeting_impl-Safe (pure-Safe P tt)) (pure-Safe P tt)

  pub restart_tls-Safe : (snapshot : SessionSnapshot) → Safe P (restart_tls snapshot)
  unfolding restart_tls
  restart_tls-Safe snapshot = bind-Safe P _ _ (gets-Safe P (λ c. c)) λ c.
      if-Safe P _ _ _
        (then-Safe P _ _ (throw_if-Safe P _ _ _)
          (then-Safe P _ _ capa_impl-Safe (start_tls_impl-Safe snapshot.sni)))
        (pure-Safe P tt)
