-- ===== src/SmtpClient/Addresses.antt =====
-- smtp/client.hpp: the sender and the recipients of a message, and the data that is sent.
use Prim.Native.Nat.{bit_and}
use mailio.Base.{
  ℕ, ◌+◌, ◌-◌, Bool, not, ◌&&◌, ◌||◌, List, [], ◌∷◌, ◌++◌, ltb, ◌==◌, within, if◌then◌else◌,
}
use mailio.Base.Bytes.{Bytes, codes, length, any_of, is_empty, front_or, equal}
use mailio.Base.Result.{Result}
use mailio.Base.Action.{Exception, error, Action, pure, lift, throw_if, ◌>>=◌, ◌>>◌}
use mailio.Net.{ends_with_crlf}
use mailio.Smtp.{MailExtensionFlags}
use mailio.Smtp
use mailio.Wire.{append_sv, append_angle_addr}
use mailio.SmtpClient.{Client, supported}
use mailio.SmtpClient.Session.{ensure}

-- The addresses of `mailboxes`, and those of its groups.
pub record Mailboxes : Type 0 where
  pub addresses : List Bytes
  pub groups : List (List Bytes)

-- What the client asks a message for: the address of the sender, those of the authors, the
-- recipients, and what `format` writes.
pub record Message : Type 0 where
  pub sender : Bytes
  pub from : List Bytes
  pub recipients : Mailboxes
  pub cc_recipients : Mailboxes
  pub bcc_recipients : Mailboxes
  pub formatted : Result Exception Bytes

pub record Envelope : Type 0 where
  pub mail_from : Bytes
  pub rcpt_to : List Bytes

-- The addresses that are not empty.
unfoldable pub append_addresses : List Bytes → List Bytes → List Bytes
append_addresses out [] = out
append_addresses out (addr ∷ rest) =
    append_addresses (if is_empty addr then out else (out ++ addr ∷ [])) rest

unfoldable pub append_groups : List Bytes → List (List Bytes) → List Bytes
append_groups out [] = out
append_groups out (group ∷ groups) = append_groups (append_addresses out group) groups

unfoldable pub append_mailboxes : List Bytes → Mailboxes → List Bytes
append_mailboxes out boxes = append_groups (append_addresses out boxes.addresses) boxes.groups

unfoldable pub collect_recipients : Message → List Bytes
collect_recipients msg =
    append_mailboxes (append_mailboxes (append_mailboxes [] msg.recipients) msg.cc_recipients)
      msg.bcc_recipients

unfoldable pub to_lower_ascii : Bytes → Bytes
to_lower_ascii [] = []
to_lower_ascii (ch ∷ input) =
    (if within b'A' b'Z' ch then ch + (b'a' - b'A') else ch) ∷ to_lower_ascii input

unfoldable pub is_seen : Bytes → List Bytes → Bool
is_seen key seen = any_of (equal key) seen

-- `seen` has the keys met so far.
unfoldable pub dedup_loop : List Bytes → List Bytes → List Bytes
dedup_loop seen [] = []
dedup_loop seen (addr ∷ addresses) =
    let key = to_lower_ascii addr in
    let is_new = not (is_empty addr) && not (is_seen key seen) in
    let rest = dedup_loop (if is_new then key ∷ seen else seen) addresses in
    if is_new then addr ∷ rest else rest

unfoldable pub dedup : List Bytes → List Bytes
dedup addresses = dedup_loop [] addresses

pub contains_8bit : Bytes → Bool
contains_8bit text = any_of (λ ch. ltb 127 ch) text

-- The first byte of a sequence in UTF-8.
pub is_utf8_lead : ℕ → Bool
is_utf8_lead ch = bit_and ch 0xE0 == 0xC0 || bit_and ch 0xF0 == 0xE0 || bit_and ch 0xF8 == 0xF0

pub contains_utf8 : Bytes → Bool
contains_utf8 text = any_of (λ ch. ltb 127 ch && is_utf8_lead ch) text

unfoldable pub append_smtp_data_terminator : Bytes → Bytes
append_smtp_data_terminator text =
    if ends_with_crlf text then (text ++ codes ".\r\n") else (text ++ codes "\r\n.\r\n")

unfoldable pub smtp_data_terminator_size : Bytes → ℕ
smtp_data_terminator_size text = if ends_with_crlf text then 3 else 5

pub record MailDataInfo : Type 0 where
  pub payload : Bytes
  pub size : ℕ
  pub has_8bit : Bool
  pub needs_utf8 : Bool

unfoldable pub mail_data_info : Bytes → Bytes → List Bytes → MailDataInfo
mail_data_info text mail_from recipients = record {
  payload = text;
  size = length text + smtp_data_terminator_size text;
  has_8bit = contains_8bit text;
  needs_utf8 = contains_utf8 mail_from || any_of contains_utf8 recipients;
}

unfoldable pub prepare_mail_data : Message → Bytes → List Bytes → Action Client MailDataInfo
prepare_mail_data msg mail_from recipients = do
  text ← lift msg.formatted
  pure (mail_data_info text mail_from recipients)

pub mail_extension_flags : Client → MailExtensionFlags
mail_extension_flags c = record {
  use_size = c.options.use_size_extension;
  use_smtputf8 = c.options.use_smtputf8;
  use_8bitmime = c.options.use_8bitmime;
  supports_size = supported (codes "SIZE") c;
  supports_smtputf8 = supported (codes "SMTPUTF8") c;
  supports_8bitmime = supported (codes "8BITMIME") c;
}

unfoldable pub append_mail_extensions : Bytes → MailDataInfo → Client → Bytes
append_mail_extensions cmd info c =
    Smtp.append_mail_extensions cmd info.size info.has_8bit info.needs_utf8 (mail_extension_flags c)

-- The sender of the envelope, or of the message.
unfoldable pub resolve_sender : Message → Bytes → Bytes
resolve_sender msg mail_from =
    if not (is_empty mail_from)
    then mail_from
    else if not (is_empty msg.sender)
    then msg.sender
    else front_or msg.from []

unfoldable pub mail_sender : Message → Bytes → Action Client Bytes
mail_sender msg mail_from = do
  let sender = resolve_sender msg mail_from
  throw_if (is_empty sender) (error (codes "Mail sender is missing.") [])
  ensure sender (codes "mail_from")
  pure sender

unfoldable pub resolve_recipients : Message → List Bytes → List Bytes
resolve_recipients msg rcpt_to =
    dedup (if is_empty rcpt_to then collect_recipients msg else rcpt_to)

unfoldable pub mail_recipients : Message → List Bytes → Action Client (List Bytes)
mail_recipients msg rcpt_to = do
  let recipients = resolve_recipients msg rcpt_to
  throw_if (is_empty recipients) (error (codes "No recipients.") [])
  pure recipients

unfoldable pub rcpt_command : Bytes → Bytes
rcpt_command rcpt = append_angle_addr (append_sv [] (codes "RCPT TO: ")) rcpt

unfoldable pub mail_command : Bytes → MailDataInfo → Client → Bytes
mail_command mail_from info c =
    append_mail_extensions (append_angle_addr (append_sv [] (codes "MAIL FROM: ")) mail_from) info c
