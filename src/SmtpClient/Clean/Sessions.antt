-- ===== src/SmtpClient/Clean/Sessions.antt =====
-- smtp/client.hpp: what connecting, EHLO and STARTTLS write.
use mailio.Base.{
  ◌≡◌, refl, sym, subst, Bool, true, false, not, ◌&&◌, Option, none, some, [], ◌++◌, ◌==◌,
  if◌then◌else◌,
}
use mailio.Base.Bytes.{Bytes, All, codes, is_empty}
use mailio.Base.Result.{Result, ok, err, map_error, map_error-eq-ok}
use mailio.Base.Action.{
  Exception, error, invalid_argument, Action, is_decided, Safe, pure, Gives, bind-Safe, then-Safe,
  given-Safe, given-Gives, if-Safe, pure-Safe, gets-Safe, modify-Safe, throw_if-Safe, pure-Safe,
  gets-Safe, modify-Safe, ◌>>◌,
}
use mailio.Wire.{ensure_no_crlf_or_nul, contains_crlf_or_nul}
use mailio.Wire.Clean.{IsClean, ensure-IsClean, IsClean-append}
use mailio.Net.{Dialog, async_connect, start_tls, handshake, emplace, not_established}
use mailio.Net.Sent.{
  IsCleanWrite, handshake-decided, handshake-sent, async_connect-decided, async_connect-sent,
}
use mailio.Smtp.{Reply, is_positive_completion}
use mailio.SmtpClient.{Client, supported, on_link, reset_capabilities}
use mailio.SmtpClient.Clean.{
  CleanLog, command_impl-Safe, expect_completion-Safe, require_greeting-Safe, safe,
}
use mailio.SmtpClient.Session.{
  ensure, resolve_sni, read_greeting_impl, helo_fallback, ehlo_accepted, ehlo_impl, the_dialog,
  start_tls_impl, connect_tls, auto_start_tls, connect_impl, bare_command, noop, rset, quit,
  hang_up, is_tls_state, default_hostname, emplace_dialog, secured, established, TlsMode,
  is_implicit, is_starttls,
}

invalid-decided : (r : Result Bytes (Unit {0})) → is_decided (map_error invalid_argument r) ≡ true
invalid-decided (ok u) = refl
invalid-decided (err text) = refl

-- What follows a check may rely on it.
pub ensure-Gives :
    (value field : Bytes) → Gives CleanLog (λ (u : Unit {0}). IsClean value) (ensure value field)
unfolding ensure
ensure-Gives value field = record {
  safe = record {
    ends = λ c kept. (invalid-decided (ensure_no_crlf_or_nul value (some field)), kept);
  };
  gives = λ c u returned.
      ensure-IsClean value (some field)
        (map_error-eq-ok invalid_argument (ensure_no_crlf_or_nul value (some field)) returned);
}

pub ensure-Safe :
    {A : Type 0} (value field : Bytes) (later : Action Client A)
    → (IsClean value → Safe CleanLog later)
    → Safe CleanLog (ensure value field >> later)
ensure-Safe value field later k =
    given-Safe CleanLog _ (ensure value field) (λ u. later) (ensure-Gives value field)
      (λ u clean. k clean)

pub read_greeting_impl-Safe : Safe CleanLog read_greeting_impl
unfolding read_greeting_impl
read_greeting_impl-Safe = search safe depth 10

words-IsClean :
    IsClean (codes "EHLO ")
    × IsClean (codes "HELO ")
    × IsClean (codes "STARTTLS")
    × IsClean (codes "NOOP")
    × IsClean (codes "RSET")
    × IsClean (codes "QUIT")
unfolding contains_crlf_or_nul
words-IsClean = (refl, refl, refl, refl, refl, refl)

ehlo_accepted-Safe : (rep : Reply) → Safe CleanLog (ehlo_accepted rep)
unfolding ehlo_accepted
ehlo_accepted-Safe rep =
    then-Safe CleanLog _ _ (modify-Safe CleanLog _ (λ s kept. kept)) (pure-Safe CleanLog rep)

helo_fallback-Safe :
    (helo_name : Bytes) (rep : Reply)
    → IsClean helo_name
    → Safe CleanLog (helo_fallback helo_name rep)
unfolding helo_fallback reset_capabilities
helo_fallback-Safe helo_name rep h = then-Safe CleanLog _ _ (throw_if-Safe CleanLog _ _ _) (
    bind-Safe CleanLog _ _
      (command_impl-Safe (codes "HELO " ++ helo_name)
        (IsClean-append (codes "HELO ") helo_name (words-IsClean.1) h))
      λ helo_rep. then-Safe CleanLog _ _ (expect_completion-Safe _ helo_rep) (
        then-Safe CleanLog _ _ (modify-Safe CleanLog _ (λ s kept. kept))
          (pure-Safe CleanLog helo_rep)))

default_hostname-Safe : Safe CleanLog default_hostname
unfolding default_hostname
default_hostname-Safe = record { ends = λ c kept. (refl, kept) }

pub ehlo_impl-Safe : (domain : Bytes) → Safe CleanLog (ehlo_impl domain)
unfolding ehlo_impl
ehlo_impl-Safe domain = bind-Safe CleanLog _ _ (gets-Safe CleanLog (λ c. c)) λ c.
    then-Safe CleanLog _ _ (throw_if-Safe CleanLog _ _ _) (
      ensure-Safe domain _ _ λ domain_clean. bind-Safe CleanLog _ _ default_hostname-Safe λ host.
        ensure-Safe (if is_empty domain then host else domain) _ _ λ clean.
          bind-Safe CleanLog _ _
            (command_impl-Safe _ (IsClean-append (codes "EHLO ") _ (words-IsClean.0) clean))
            λ rep.
              if-Safe CleanLog (is_positive_completion rep) _ _ (ehlo_accepted-Safe rep)
                (helo_fallback-Safe _ rep clean))

-- A handshake asks for a clean name.
handshake-Safe : (name : Bytes) → IsClean name → Safe CleanLog (on_link (handshake name))
handshake-Safe name h = record {
  ends = λ c kept. (
    handshake-decided name c.link,
    subst (All IsCleanWrite) (sym (handshake-sent name c.link)) (h, kept),
  );
}

start_tls-Safe :
    (is_tls : Bool) (name : Bytes) → IsClean name → Safe CleanLog (on_link (start_tls is_tls name))
unfolding start_tls
start_tls-Safe true name h = record { ends = λ c kept. (refl, kept) }
start_tls-Safe false name h = handshake-Safe name h

pub pure-IsClean : (value : Bytes) → IsClean value → Gives CleanLog IsClean (pure value)
pure-IsClean value h = record {
  safe = pure-Safe CleanLog value;
  gives = λ c a returned. let same : value ≡ a = cc in subst IsClean same h;
}

-- The name of a handshake is checked before.
resolve_sni-Gives : (host sni : Bytes) → Gives CleanLog IsClean (resolve_sni host sni)
unfolding resolve_sni
resolve_sni-Gives host sni =
    let name = if is_empty sni then host else sni in
    given-Gives CleanLog _ IsClean (ensure name (codes "sni")) (λ u. pure name)
      (ensure-Gives name (codes "sni")) (λ u clean. pure-IsClean name clean)

dialog_of-Safe :
    (dialog : Option Dialog) (c : Client)
    → CleanLog c
    → let outcome : Result Exception Dialog × Client = elim dialog [
      | none ↦ (err (error (codes "Connection is not established.") []), c)
      | some d ↦ (ok d, c)
    ] in
      (is_decided (outcome.0) ≡ true) × CleanLog (outcome.1)
dialog_of-Safe none c kept = (refl, kept)
dialog_of-Safe (some d) c kept = (refl, kept)

pub the_dialog-Safe : Safe CleanLog the_dialog
unfolding the_dialog not_established
the_dialog-Safe = record { ends = λ c kept. dialog_of-Safe c.link.dialog c kept }

secured-CleanLog : (dlg : Dialog) (c : Client) → CleanLog c → CleanLog (secured dlg c)
unfolding secured reset_capabilities emplace_dialog emplace
secured-CleanLog dlg c kept = kept

established-CleanLog : (is_tls : Bool) (c : Client) → CleanLog c → CleanLog (established is_tls c)
unfolding established reset_capabilities emplace_dialog emplace
established-CleanLog is_tls c kept = kept

pub start_tls_impl-Safe : (sni : Bytes) → Safe CleanLog (start_tls_impl sni)
unfolding start_tls_impl
start_tls_impl-Safe sni = then-Safe CleanLog _ _ (require_greeting-Safe _) (
    bind-Safe CleanLog _ _ (gets-Safe CleanLog (λ c. c)) λ c.
      then-Safe CleanLog _ _ (throw_if-Safe CleanLog (is_tls_state c.state) _ _) (
        then-Safe CleanLog _ _
          (throw_if-Safe CleanLog (c.capabilities_known && not (supported (codes "STARTTLS") c)) _
            _)
          (bind-Safe CleanLog _ _ (command_impl-Safe (codes "STARTTLS") (words-IsClean.2)) λ rep.
            then-Safe CleanLog _ _ (throw_if-Safe CleanLog (not (rep.status == 220)) _ _) (
              bind-Safe CleanLog _ _ the_dialog-Safe λ dlg.
                given-Safe CleanLog IsClean _ _ (resolve_sni-Gives c.remote_host sni) λ name clean.
                  then-Safe CleanLog _ _ (start_tls-Safe dlg.is_tls name clean)
                    (modify-Safe CleanLog (secured dlg) (secured-CleanLog dlg))))))

connect_tls-Safe :
    (host : Bytes) (has_context : Bool) (sni : Bytes)
    → Safe CleanLog (connect_tls host has_context sni)
unfolding connect_tls
connect_tls-Safe host has_context sni = then-Safe CleanLog _ _ (throw_if-Safe CleanLog _ _ _) (
    given-Safe CleanLog IsClean _ _ (resolve_sni-Gives host sni)
      λ name clean. start_tls-Safe false name clean)

auto_start_tls-Safe :
    (has_context : Bool) (sni : Bytes) → Safe CleanLog (auto_start_tls has_context sni)
unfolding auto_start_tls
auto_start_tls-Safe has_context sni = then-Safe CleanLog _ _ (throw_if-Safe CleanLog _ _ _) (
    then-Safe CleanLog _ _ read_greeting_impl-Safe (
      then-Safe CleanLog _ _ (ehlo_impl-Safe []) (
        then-Safe CleanLog _ _ (start_tls_impl-Safe sni)
          (then-Safe CleanLog _ _ (ehlo_impl-Safe []) (pure-Safe CleanLog tt)))))

pub async_connect-Safe : Safe CleanLog (on_link async_connect)
async_connect-Safe = record {
  ends = λ c kept. (
    async_connect-decided c.link,
    subst (All IsCleanWrite) (sym (async_connect-sent c.link)) kept,
  );
}

pub connect_impl-Safe :
    (host service : Bytes) (mode : TlsMode) (has_context : Bool) (sni : Bytes)
    → Safe CleanLog (connect_impl host service mode has_context sni)
unfolding connect_impl
connect_impl-Safe host service mode has_context sni =
    bind-Safe CleanLog _ _ (gets-Safe CleanLog (λ c. c)) λ c.
      then-Safe CleanLog _ _ (throw_if-Safe CleanLog _ _ _) (
        ensure-Safe host _ _ λ clean.
          then-Safe CleanLog _ _ (modify-Safe CleanLog _ (λ s kept. kept)) (
            then-Safe CleanLog _ _ async_connect-Safe (
              then-Safe CleanLog _ _ async_connect-Safe (
                then-Safe CleanLog _ _
                  (if-Safe CleanLog (is_implicit mode) _ _ (connect_tls-Safe host has_context sni)
                    (pure-Safe CleanLog tt))
                  (then-Safe CleanLog _ _
                    (modify-Safe CleanLog (established (is_implicit mode))
                      (established-CleanLog (is_implicit mode)))
                    (if-Safe CleanLog (is_starttls mode && c.options.auto_starttls) _ _
                      (auto_start_tls-Safe has_context sni) (pure-Safe CleanLog tt)))))))

bare_command-Safe : (word : Bytes) → IsClean word → Safe CleanLog (bare_command word)
unfolding bare_command not_established
bare_command-Safe word h =
    bind-Safe CleanLog _ _ (gets-Safe CleanLog (λ c. c))
      λ c. then-Safe CleanLog _ _ (throw_if-Safe CleanLog _ _ _) (command_impl-Safe word h)

pub noop-Safe : Safe CleanLog noop
unfolding noop
noop-Safe = bare_command-Safe (codes "NOOP") (words-IsClean.3)

pub rset-Safe : Safe CleanLog rset
unfolding rset
rset-Safe = bare_command-Safe (codes "RSET") (words-IsClean.4)

pub quit-Safe : Safe CleanLog quit
unfolding quit hang_up reset_capabilities
quit-Safe =
    bind-Safe CleanLog _ _ (bare_command-Safe (codes "QUIT") (words-IsClean.5)) λ rep.
      then-Safe CleanLog _ _ (modify-Safe CleanLog _ (λ s kept. kept)) (pure-Safe CleanLog rep)
