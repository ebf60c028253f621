-- ===== src/SmtpClient/Extended.antt =====
-- smtp/client.hpp: sending with delivery status notifications and with the extensions SIZE,
-- 8BITMIME and SMTPUTF8.
use mailio.Base.{
  ℕ, ◌+◌, Bool, true, false, not, ◌&&◌, ◌||◌, Option, none, some, List, [], ◌∷◌, ◌++◌, ltb, ◌==◌,
  if◌then◌else◌,
}
use mailio.Base.Bytes.{Bytes, codes, length, any_of, is_empty}
use mailio.Base.Action.{Exception, error, Action, pure, lift, throw_if, gets, ◌>>=◌, ◌>>◌}
use mailio.Smtp.{
  Reply, DsnOptions, DsnRet, none_ret, full, hdrs, enabled, is_requested, ret_string, notify_string,
  has_flag, notify_success, notify_failure, notify_delay, notify_never, SizeLimit, exceeds,
  parameters,
}
use mailio.Wire.{append_sv, append_angle_addr, to_chars}
use mailio.SmtpClient.{Client, supported}
use mailio.SmtpClient.Session.{ensure}
use mailio.SmtpClient.Addresses.{
  Message, Envelope, mail_sender, mail_recipients, prepare_mail_data, mail_command,
  append_smtp_data_terminator, contains_8bit, contains_utf8,
}
use mailio.SmtpClient.Send.{require_session, send_mail, send_rcpts, send_data}

pub record EnvelopeDsn : Type 0 where
  pub envelope : Envelope
  pub dsn : DsnOptions

pub supports_dsn : Client → Bool
supports_dsn = supported (codes "DSN")

abbrev dsn_unsupported : Exception
dsn_unsupported = error (codes "DSN requested but not supported by server.") []

unfoldable pub ret_parameter : DsnRet → Bytes
ret_parameter full = codes " RET=FULL"
ret_parameter hdrs = codes " RET=HDRS"
ret_parameter none_ret = []

-- A value that is put behind a name when it is not empty, and checked then.
unfoldable pub checked_parameter : Bytes → Bytes → Bytes → Action Client Bytes
checked_parameter name field value = do
  ensure value field
  pure (if is_empty value then [] else (name ++ value))

unfoldable pub add_part : Bool → Bytes → Bytes → Bytes
add_part present name parts =
    if present then (if is_empty parts then name else (parts ++ b',' ∷ name)) else parts

-- The conditions behind ` NOTIFY=`, joined by commas.
unfoldable pub notify_parameter : ℕ → Bytes
notify_parameter notify =
    let success = add_part (has_flag notify notify_success) (codes "SUCCESS") [] in
    let failure = add_part (has_flag notify notify_failure) (codes "FAILURE") success in
    let parts = add_part (has_flag notify notify_delay) (codes "DELAY") failure in
    if notify == 0
    then []
    else if has_flag notify notify_never
    then codes " NOTIFY=NEVER"
    else if is_empty parts
    then []
    else (codes " NOTIFY=" ++ parts)

-- What follows a recipient: the recipient itself stands in for an original one that is not set.
unfoldable pub rcpt_suffix : Bool → ℕ → Bytes → Bytes → Bytes → Bytes
rcpt_suffix active notify notify_str orcpt_suffix rcpt =
    let original =
      if is_empty orcpt_suffix && not (notify == 0)
      then (codes " ORCPT=rfc822;" ++ rcpt)
      else orcpt_suffix in
    if active then (notify_str ++ original) else []

unfoldable pub send_dsn_impl : Message → EnvelopeDsn → Action Client Reply
send_dsn_impl msg env = do
  require_session
  let dsn_active = enabled env.dsn
  start ← gets (λ c. c)
  throw_if (dsn_active && not (supports_dsn start)) dsn_unsupported
  mail_from ← mail_sender msg env.envelope.mail_from
  recipients ← mail_recipients msg env.envelope.rcpt_to
  info ← prepare_mail_data msg mail_from recipients
  c ← gets (λ c. c)
  envid ←
      if dsn_active
      then checked_parameter (codes " ENVID=") (codes "dsn.envid") env.dsn.envid
      else pure []
  let ret = if dsn_active then ret_parameter env.dsn.ret else []
  send_mail (mail_command mail_from info c ++ (ret ++ envid))
  let notify_str = if dsn_active then notify_parameter env.dsn.notify else []
  orcpt_suffix ←
      if dsn_active
      then checked_parameter (codes " ORCPT=rfc822;") (codes "dsn.orcpt") env.dsn.orcpt
      else pure []
  send_rcpts (rcpt_suffix dsn_active env.dsn.notify notify_str orcpt_suffix) recipients
  send_data (append_smtp_data_terminator info.payload)

pub data BodyType : Type 0 where
  auto_body bit7 bit8 : BodyType

pub record EnvelopeExt : Type 0 where
  pub envelope : Envelope
  pub size : ℕ
  pub body : BodyType
  pub smtputf8 : Bool
  pub dsn : DsnOptions

abbrev is_bit8 : BodyType → Bool
is_bit8 bit8 = true
is_bit8 _ = false

-- ` BODY=…`
unfoldable pub body_parameter : BodyType → Bool → Bytes
body_parameter bit8 has_8bit = codes " BODY=8BITMIME"
body_parameter bit7 has_8bit = codes " BODY=7BIT"
body_parameter auto_body has_8bit = if has_8bit then codes " BODY=8BITMIME" else codes " BODY=7BIT"

-- ` RET=…` by the name of the option.
unfoldable pub ret_of : DsnOptions → Bytes
ret_of dsn = if is_requested dsn.ret then (codes " RET=" ++ ret_string dsn) else []

-- The parameters of MAIL FROM for DSN.
unfoldable pub dsn_parameters : DsnOptions → Action Client Bytes
dsn_parameters dsn = do
  c ← gets (λ c. c)
  throw_if (not (supports_dsn c)) dsn_unsupported
  envid ← checked_parameter (codes " ENVID=") (codes "dsn.envid") dsn.envid
  pure (ret_of dsn ++ envid)

unfoldable pub ext_command : EnvelopeExt → Bytes → ℕ → Bool → Bool → Client → Bytes
ext_command env mail_from msg_size has_8bit needs_utf8 c =
    let declared_size = if ltb 0 env.size then env.size else msg_size in
    let size =
      if supported (codes "SIZE") c then (codes " SIZE=" ++ to_chars 20 declared_size) else [] in
    let body = if supported (codes "8BITMIME") c then body_parameter env.body has_8bit else [] in
    let utf8 = if needs_utf8 && supported (codes "SMTPUTF8") c then codes " SMTPUTF8" else [] in
    append_angle_addr (append_sv [] (codes "MAIL FROM: ")) mail_from ++ (size ++ (body ++ utf8))

abbrev pub too_large : ℕ → ℕ → Exception
too_large msg_size limit =
    error (codes "Message exceeds server size limit.")
      (codes "Size: " ++ (to_chars 20 msg_size ++ (codes ", Limit: " ++ to_chars 20 limit)))

-- `std::stoull` is the C++ library's: the number that a string begins with, or none when it throws.
module _ (stoull : Bytes → Option ℕ) where
  abbrev limit_of : Option ℕ → SizeLimit
  limit_of none = record { max_size = 0 }
  limit_of (some n) = record { max_size = n }

  abbrev first_parameter : Option (List Bytes) → SizeLimit
  first_parameter none = record { max_size = 0 }
  first_parameter (some []) = record { max_size = 0 }
  first_parameter (some (param ∷ params)) = limit_of (stoull param)

  pub get_size_limit : Client → SizeLimit
  get_size_limit c =
      if not c.capabilities_known
      then record { max_size = 0 }
      else first_parameter (parameters c.entries (codes "SIZE"))

  unfoldable pub check_extensions : EnvelopeExt → ℕ → Bool → Bool → Action Client (Unit {0})
  check_extensions env msg_size has_8bit needs_utf8 = do
    c ← gets (λ c. c)
    throw_if (supported (codes "SIZE") c && exceeds (get_size_limit c) msg_size)
        (too_large msg_size (get_size_limit c).max_size)
    throw_if (has_8bit && is_bit8 env.body && not (supported (codes "8BITMIME") c))
        (error (codes "8BITMIME required but not supported by server.") [])
    throw_if (needs_utf8 && not (supported (codes "SMTPUTF8") c))
        (error (codes "SMTPUTF8 required but not supported by server.") [])

  -- The data always gets a line end before its last dot.
  unfoldable pub send_ext_impl : Message → EnvelopeExt → Action Client Reply
  send_ext_impl msg env = do
    require_session
    mail_from ← mail_sender msg env.envelope.mail_from
    recipients ← mail_recipients msg env.envelope.rcpt_to
    text ← lift msg.formatted
    let msg_size = length text + 5
    let has_8bit = contains_8bit text
    let needs_utf8 = env.smtputf8 || contains_utf8 mail_from || any_of contains_utf8 recipients
    check_extensions env msg_size has_8bit needs_utf8
    c ← gets (λ c. c)
    dsn ← if enabled env.dsn then dsn_parameters env.dsn else pure []
    send_mail (ext_command env mail_from msg_size has_8bit needs_utf8 c ++ dsn)
    let notify_str =
        if enabled env.dsn && not (env.dsn.notify == 0)
        then (codes " NOTIFY=" ++ notify_string env.dsn)
        else []
    orcpt_suffix ←
        if enabled env.dsn
        then checked_parameter (codes " ORCPT=rfc822;") (codes "dsn.orcpt") env.dsn.orcpt
        else pure []
    send_rcpts (rcpt_suffix (enabled env.dsn) env.dsn.notify notify_str orcpt_suffix) recipients
    send_data (text ++ codes "\r\n.\r\n")
