-- ===== src/SmtpClient/Clean/Extensions.antt =====
-- smtp/client.hpp: what sending with extensions writes.
use mailio.Base.{ℕ, refl, Bool, true, false, not, ◌&&◌, Option, [], ◌∷◌, ◌++◌, ◌==◌, if◌then◌else◌}
use mailio.Base.Bytes.{Bytes, codes, is_empty}
use mailio.Base.Action.{
  Action, Safe, Gives, pure, bind-Gives, then-Gives, given-Safe, given-Gives, gets-Safe,
  throw_if-Safe, ◌>>=◌,
}
use mailio.Wire.{contains_crlf_or_nul, to_chars}
use mailio.Wire.Clean.{IsClean, IsClean-append, IsClean-digits, append_angle_addr-IsClean}
use mailio.Wire.Decimal.{to_chars_digits}
use mailio.Smtp.{
  DsnRet, none_ret, full, hdrs, DsnOptions, is_requested, ret_name, ret_string, notify_string,
  add_condition, has_flag, notify_success, notify_failure, notify_delay, notify_never,
}
use mailio.Smtp.Clean.{mail_from_IsClean}
use mailio.SmtpClient.{Client}
use mailio.SmtpClient.Session.{ensure}
use mailio.SmtpClient.Clean.{CleanLog}
use mailio.SmtpClient.Clean.Sessions.{ensure-Gives, pure-IsClean}
use mailio.SmtpClient.Clean.Mails.{
  IsFormatted, mail, empty_IsClean, with_sender-Safe, mail_recipients-Safe, prepare_mail_data-Safe,
  require_session-Safe, send_mail-Safe, send_rcpts-Safe, send_data-Safe, lift-Safe,
}
use mailio.SmtpClient.Addresses.{Message}
use mailio.SmtpClient.Extended.{
  EnvelopeDsn, ret_parameter, checked_parameter, add_part, notify_parameter, rcpt_suffix,
  send_dsn_impl, BodyType, bit7, bit8, auto_body, EnvelopeExt, body_parameter, ret_of,
  dsn_parameters, ext_command, check_extensions, send_ext_impl, supports_dsn,
}

if-IsClean : (b : Bool) (s t : Bytes) → IsClean s → IsClean t → IsClean (if b then s else t)
if-IsClean true s t h k = h
if-IsClean false s t h k = k

ret_parameter-IsClean : (ret : DsnRet) → IsClean (ret_parameter ret)
unfolding ret_parameter contains_crlf_or_nul
ret_parameter-IsClean none_ret = refl
ret_parameter-IsClean full = refl
ret_parameter-IsClean hdrs = refl

checked_parameter-Gives :
    (name field value : Bytes)
    → IsClean name
    → Gives CleanLog IsClean (checked_parameter name field value)
unfolding checked_parameter
checked_parameter-Gives name field value h =
    given-Gives CleanLog _ IsClean (ensure value field) _ (ensure-Gives value field) λ u clean.
      pure-IsClean (if is_empty value then [] else (name ++ value)) (
        if-IsClean (is_empty value) [] (name ++ value) empty_IsClean
          (IsClean-append name value h clean))

add_part-IsClean :
    (present : Bool) (name parts : Bytes)
    → IsClean name
    → IsClean parts
    → IsClean (add_part present name parts)
unfolding add_part contains_crlf_or_nul
add_part-IsClean present name parts h k =
    if-IsClean present _ parts
      (if-IsClean (is_empty parts) name (parts ++ b',' ∷ name) h
        (IsClean-append parts (b',' ∷ name) k h))
      k

literal-IsClean :
    IsClean (codes "SUCCESS")
    × IsClean (codes "FAILURE")
    × IsClean (codes "DELAY")
    × IsClean (codes " NOTIFY=NEVER")
    × IsClean (codes " NOTIFY=")
    × IsClean (codes " ORCPT=rfc822;")
    × IsClean (codes " ENVID=")
unfolding contains_crlf_or_nul
literal-IsClean = (refl, refl, refl, refl, refl, refl, refl)

notify_parameter-IsClean : (notify : ℕ) → IsClean (notify_parameter notify)
unfolding notify_parameter
notify_parameter-IsClean notify =
    let (success_clean, failure_clean, delay_clean, never_clean, name_clean, _, _) =
      literal-IsClean in
    let success = add_part-IsClean _ (codes "SUCCESS") [] success_clean empty_IsClean in
    let failure = add_part-IsClean _ (codes "FAILURE") _ failure_clean success in
    let parts = add_part-IsClean _ (codes "DELAY") _ delay_clean failure in
    if-IsClean (notify == 0) _ _ empty_IsClean (
      if-IsClean _ _ _ never_clean
        (if-IsClean _ _ _ empty_IsClean (IsClean-append (codes " NOTIFY=") _ name_clean parts)))

rcpt_suffix-IsClean :
    (active : Bool) (notify : ℕ) (notify_str orcpt_suffix rcpt : Bytes)
    → IsClean notify_str
    → IsClean orcpt_suffix
    → IsClean rcpt
    → IsClean (rcpt_suffix active notify notify_str orcpt_suffix rcpt)
unfolding rcpt_suffix
rcpt_suffix-IsClean active notify notify_str orcpt_suffix rcpt h k clean =
    if-IsClean active _ []
      (IsClean-append notify_str _ h (
        if-IsClean (is_empty orcpt_suffix && not (notify == 0)) _ _
          (IsClean-append (codes " ORCPT=rfc822;") rcpt (literal-IsClean.5) clean) k))
      empty_IsClean

-- A parameter that is there only under a condition.
optional-Gives :
    (b : Bool) (name field value : Bytes)
    → IsClean name
    → Gives CleanLog IsClean (if b then checked_parameter name field value else pure [])
optional-Gives true name field value h = checked_parameter-Gives name field value h
optional-Gives false name field value h = pure-IsClean [] empty_IsClean

with_optional-Safe :
    {A : Type 0} (b : Bool) (name field value : Bytes) (later : Bytes → Action Client A)
    → IsClean name
    → ((text : Bytes) → IsClean text → Safe CleanLog (later text))
    → Safe CleanLog ((if b then checked_parameter name field value else pure []) >>= later)
with_optional-Safe b name field value later h k =
    given-Safe CleanLog IsClean _ later (optional-Gives b name field value h) k

envid_IsClean : IsClean (codes " ENVID=")
envid_IsClean = literal-IsClean.6

orcpt_IsClean : IsClean (codes " ORCPT=rfc822;")
orcpt_IsClean = literal-IsClean.5

size_word_IsClean : IsClean (codes " SIZE=")
unfolding contains_crlf_or_nul
size_word_IsClean = refl

utf8_word_IsClean : IsClean (codes " SMTPUTF8")
unfolding contains_crlf_or_nul
utf8_word_IsClean = refl

digits_IsClean : (n : ℕ) → IsClean (to_chars 20 n)
digits_IsClean n = IsClean-digits (to_chars 20 n) (to_chars_digits 20 n)

ruleset extended = (
  with_sender-Safe, mail_recipients-Safe, prepare_mail_data-Safe, require_session-Safe,
  send_mail-Safe, send_rcpts-Safe, send_data-Safe, lift-Safe, with_optional-Safe, envid_IsClean,
  orcpt_IsClean, if-IsClean, ret_parameter-IsClean, notify_parameter-IsClean, rcpt_suffix-IsClean,
  mail,
)

pub send_dsn_impl-Safe :
    (msg : Message) (env : EnvelopeDsn) → IsFormatted msg → Safe CleanLog (send_dsn_impl msg env)
unfolding send_dsn_impl
send_dsn_impl-Safe msg env h = search extended depth 24

body_parameter-IsClean :
    (body : BodyType) (has_8bit : Bool) → IsClean (body_parameter body has_8bit)
unfolding body_parameter contains_crlf_or_nul
body_parameter-IsClean bit8 has_8bit = refl
body_parameter-IsClean bit7 has_8bit = refl
body_parameter-IsClean auto_body true = refl
body_parameter-IsClean auto_body false = refl

ret_word_IsClean : IsClean (codes " RET=")
unfolding contains_crlf_or_nul
ret_word_IsClean = refl

ret_name-IsClean : (ret : DsnRet) → IsClean (ret_name ret)
unfolding contains_crlf_or_nul
ret_name-IsClean none_ret = refl
ret_name-IsClean full = refl
ret_name-IsClean hdrs = refl

ret_string-IsClean : (dsn : DsnOptions) → IsClean (ret_string dsn)
unfolding ret_string
ret_string-IsClean dsn = ret_name-IsClean dsn.ret

add_condition-IsClean :
    (notify flag : ℕ) (name result : Bytes)
    → IsClean name
    → IsClean result
    → IsClean (add_condition notify flag name result)
unfolding add_condition contains_crlf_or_nul
add_condition-IsClean notify flag name result h k =
    if-IsClean (has_flag notify flag) _ result
      (if-IsClean (is_empty result) name (result ++ b',' ∷ name) h
        (IsClean-append result (b',' ∷ name) k h))
      k

notify_word_IsClean : IsClean (codes " NOTIFY=")
notify_word_IsClean = literal-IsClean.4

never_IsClean : IsClean (codes "NEVER")
unfolding contains_crlf_or_nul
never_IsClean = refl

notify_string-IsClean : (dsn : DsnOptions) → IsClean (notify_string dsn)
unfolding notify_string
notify_string-IsClean dsn =
    let (success_clean, failure_clean, delay_clean, _, _, _, _) = literal-IsClean in
    let success =
      add_condition-IsClean dsn.notify notify_success (codes "SUCCESS") [] success_clean
        empty_IsClean in
    let failure =
      add_condition-IsClean dsn.notify notify_failure (codes "FAILURE") _ failure_clean success in
    if-IsClean (has_flag dsn.notify notify_never) (codes "NEVER") _ never_IsClean
      (add_condition-IsClean dsn.notify notify_delay (codes "DELAY") _ delay_clean failure)

ret_of-IsClean : (dsn : DsnOptions) → IsClean (ret_of dsn)
unfolding ret_of
ret_of-IsClean dsn =
    if-IsClean (is_requested dsn.ret) (codes " RET=" ++ ret_string dsn) []
      (IsClean-append (codes " RET=") (ret_string dsn) ret_word_IsClean (ret_string-IsClean dsn))
      empty_IsClean

ext_command-IsClean :
    (env : EnvelopeExt) (mail_from : Bytes) (size : ℕ) (has_8bit needs_utf8 : Bool) (c : Client)
    → IsClean mail_from
    → IsClean (ext_command env mail_from size has_8bit needs_utf8 c)
unfolding ext_command
ext_command-IsClean env mail_from size has_8bit needs_utf8 c h =
    search
      (
        append_angle_addr-IsClean, mail_from_IsClean, size_word_IsClean, utf8_word_IsClean,
        digits_IsClean, body_parameter-IsClean, if-IsClean, IsClean-append, empty_IsClean,
      )
      depth 16

dsn_parameters-Gives : (dsn : DsnOptions) → Gives CleanLog IsClean (dsn_parameters dsn)
unfolding dsn_parameters
dsn_parameters-Gives dsn = bind-Gives CleanLog IsClean _ _ (gets-Safe CleanLog (λ c. c)) λ c.
    then-Gives CleanLog IsClean _ _ (throw_if-Safe CleanLog (not (supports_dsn c)) _ _) (
      given-Gives CleanLog IsClean IsClean _ _
        (checked_parameter-Gives (codes " ENVID=") (codes "dsn.envid") dsn.envid envid_IsClean)
        λ envid clean.
          pure-IsClean (ret_of dsn ++ envid)
            (IsClean-append (ret_of dsn) envid (ret_of-IsClean dsn) clean))

with_dsn-Safe :
    {A : Type 0} (b : Bool) (dsn : DsnOptions) (later : Bytes → Action Client A)
    → ((text : Bytes) → IsClean text → Safe CleanLog (later text))
    → Safe CleanLog ((if b then dsn_parameters dsn else pure []) >>= later)
with_dsn-Safe true dsn later k = given-Safe CleanLog IsClean _ later (dsn_parameters-Gives dsn) k
with_dsn-Safe false dsn later k =
    given-Safe CleanLog IsClean _ later (pure-IsClean [] empty_IsClean) k

module _ (stoull : Bytes → Option ℕ) where
  check_extensions-Safe :
      (env : EnvelopeExt) (size : ℕ) (has_8bit needs_utf8 : Bool)
      → Safe CleanLog (check_extensions stoull env size has_8bit needs_utf8)
  unfolding check_extensions
  check_extensions-Safe env size has_8bit needs_utf8 = search mail depth 8

  pub send_ext_impl-Safe :
      (msg : Message) (env : EnvelopeExt)
      → IsFormatted msg
      → Safe CleanLog (send_ext_impl stoull msg env)
  unfolding send_ext_impl
  send_ext_impl-Safe msg env h =
      search
        (
          check_extensions-Safe, with_dsn-Safe, ext_command-IsClean, notify_string-IsClean,
          notify_word_IsClean, extended,
        )
        depth 32
