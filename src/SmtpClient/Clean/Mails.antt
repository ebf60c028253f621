-- ===== src/SmtpClient/Clean/Mails.antt =====
-- smtp/client.hpp: what sending a message writes.
use mailio.Base.{ℕ, zero, suc, ◌+◌, ◌-◌, ◌≤◌, ◌≡◌, refl, true, List, [], ◌∷◌, arith}
use mailio.Base.Bytes.{Bytes, codes, is_empty, length, drop}
use mailio.Base.Result.{Result}
use mailio.Base.Action.{
  Exception, Action, is_decided, Safe, Gives, lift, pure, pure-Safe, bind-Safe, then-Safe,
  given-Safe, given-Gives, then-Gives, throw_if-Safe, ◌>>=◌,
}
use mailio.Wire.{contains_crlf_or_nul, append_sv}
use mailio.Wire.Clean.{IsClean, IsClean-append, append_angle_addr-IsClean, append_sv-IsClean}
use mailio.Smtp.Clean.{append_mail_extensions-IsClean, mail_from_IsClean}
use mailio.SmtpClient.{Client}
use mailio.SmtpClient.Session.{ensure}
use mailio.Net.{min}
use mailio.SmtpClient.Clean.{CleanLog, safe, write_raw-Safe, read_reply_impl-Safe}
use mailio.SmtpClient.Clean.Sessions.{ensure-Safe, ensure-Gives, pure-IsClean}
use mailio.SmtpClient.Addresses.{
  Message, Envelope, MailDataInfo, mail_sender, mail_recipients, prepare_mail_data, mail_command,
  append_mail_extensions, rcpt_command, resolve_sender,
}
use mailio.SmtpClient.Send.{
  require_session, send_mail, send_rcpt, send_rcpts, begin_data, end_data, send_data, no_suffix,
  send_impl, chunk_size, send_chunks, send_with_progress_impl, write_rcpt, write_rcpts, read_rcpts,
  send_pipelined_impl, send_pipelined,
}

-- The message is formatted without running out of fuel, which no code of a message has.
abbrev pub IsFormatted : Message → Type 0
IsFormatted msg = is_decided msg.formatted ≡ true

rcpt_word_IsClean : IsClean (append_sv [] (codes "RCPT TO: "))
unfolding append_sv contains_crlf_or_nul
rcpt_word_IsClean = refl

pub data_word_IsClean : IsClean (codes "DATA")
unfolding contains_crlf_or_nul
data_word_IsClean = refl

pub empty_IsClean : IsClean []
unfolding contains_crlf_or_nul
empty_IsClean = refl

pub rcpt_command-IsClean : (rcpt : Bytes) → IsClean rcpt → IsClean (rcpt_command rcpt)
unfolding rcpt_command
rcpt_command-IsClean rcpt h = append_angle_addr-IsClean _ rcpt rcpt_word_IsClean h

pub mail_command-IsClean :
    (mail_from : Bytes) (info : MailDataInfo) (c : Client)
    → IsClean mail_from
    → IsClean (mail_command mail_from info c)
unfolding mail_command append_mail_extensions
mail_command-IsClean mail_from info c h =
    append_mail_extensions-IsClean _ _ _ _ _
      (append_angle_addr-IsClean _ mail_from mail_from_IsClean h)

pub ruleset mail = (
  IsClean-append, rcpt_command-IsClean, mail_command-IsClean, data_word_IsClean, empty_IsClean,
  safe, ensure-Safe,
)

pub require_session-Safe : Safe CleanLog require_session
unfolding require_session
require_session-Safe = search mail

pub send_mail-Safe : (cmd : Bytes) → IsClean cmd → Safe CleanLog (send_mail cmd)
unfolding send_mail
send_mail-Safe cmd h = search mail

send_rcpt-Safe :
    (rcpt suffix : Bytes) → (IsClean rcpt → IsClean suffix) → Safe CleanLog (send_rcpt rcpt suffix)
unfolding send_rcpt
send_rcpt-Safe rcpt suffix h = search mail depth 8

pub send_rcpts-Safe :
    (suffix : Bytes → Bytes) (recipients : List Bytes)
    → ((rcpt : Bytes) → IsClean rcpt → IsClean (suffix rcpt))
    → Safe CleanLog (send_rcpts suffix recipients)
unfolding send_rcpts
send_rcpts-Safe suffix [] h = search mail
send_rcpts-Safe suffix (rcpt ∷ recipients) h =
    then-Safe CleanLog _ _ (send_rcpt-Safe rcpt (suffix rcpt) (h rcpt))
      (send_rcpts-Safe suffix recipients h)

begin_data-Safe : Safe CleanLog begin_data
unfolding begin_data
begin_data-Safe = search mail

end_data-Safe : Safe CleanLog end_data
unfolding end_data
end_data-Safe = search mail depth 8

pub send_data-Safe : (payload : Bytes) → Safe CleanLog (send_data payload)
unfolding send_data
send_data-Safe payload = search (begin_data-Safe, end_data-Safe, mail) depth 8

pub mail_sender-Gives :
    (msg : Message) (mail_from : Bytes) → Gives CleanLog IsClean (mail_sender msg mail_from)
unfolding mail_sender
mail_sender-Gives msg mail_from =
    let sender = resolve_sender msg mail_from in
    then-Gives CleanLog IsClean _ _ (throw_if-Safe CleanLog (is_empty sender) _ _) (
      given-Gives CleanLog _ IsClean (ensure sender (codes "mail_from")) (λ u. pure sender)
        (ensure-Gives sender (codes "mail_from")) (λ u clean. pure-IsClean sender clean))

pub with_sender-Safe :
    {A : Type 0} (msg : Message) (mail_from : Bytes) (later : Bytes → Action Client A)
    → ((sender : Bytes) → IsClean sender → Safe CleanLog (later sender))
    → Safe CleanLog (mail_sender msg mail_from >>= later)
with_sender-Safe msg mail_from later k =
    given-Safe CleanLog IsClean (mail_sender msg mail_from) later (mail_sender-Gives msg mail_from)
      k

pub mail_recipients-Safe :
    (msg : Message) (rcpt_to : List Bytes) → Safe CleanLog (mail_recipients msg rcpt_to)
unfolding mail_recipients
mail_recipients-Safe msg rcpt_to = search mail

pub lift-Safe : {A : Type 0} (r : Result Exception A) → is_decided r ≡ true → Safe CleanLog (lift r)
lift-Safe r h = record { ends = λ c kept. (h, kept) }

pub prepare_mail_data-Safe :
    (msg : Message) (mail_from : Bytes) (recipients : List Bytes)
    → IsFormatted msg
    → Safe CleanLog (prepare_mail_data msg mail_from recipients)
unfolding prepare_mail_data
prepare_mail_data-Safe msg mail_from recipients h = search (lift-Safe, mail)

pub empty_suffix_IsClean : (rcpt : Bytes) → IsClean rcpt → IsClean (no_suffix rcpt)
empty_suffix_IsClean rcpt h = empty_IsClean

pub ruleset sending = (
  with_sender-Safe, mail_recipients-Safe, prepare_mail_data-Safe, require_session-Safe,
  send_mail-Safe, send_rcpts-Safe, send_data-Safe, empty_suffix_IsClean, mail,
)

pub send_impl-Safe :
    (msg : Message) (env : Envelope) → IsFormatted msg → Safe CleanLog (send_impl msg env)
unfolding send_impl
send_impl-Safe msg env h = search sending depth 16

length-drop : (n : ℕ) (s : Bytes) → length (drop n s) ≡ length s - n
length-drop zero s = omega arith
length-drop (suc n) [] = omega arith
length-drop (suc n) (c ∷ s) = omega (arith, length-drop n s)

rest-shorter :
    (b : ℕ) (rest : Bytes) (fuel : ℕ)
    → length (b ∷ rest) ≤ suc fuel
    → length (drop (min chunk_size (length (b ∷ rest))) (b ∷ rest)) ≤ fuel
rest-shorter b rest fuel h =
    ground (arith, length-drop (min chunk_size (length (b ∷ rest))) (b ∷ rest))

send_chunks-Safe :
    (fuel bytes_sent total : ℕ) (rest : Bytes)
    → length rest ≤ fuel
    → Safe CleanLog (send_chunks fuel bytes_sent total rest)
unfolding send_chunks
send_chunks-Safe zero bytes_sent total [] h = pure-Safe CleanLog []
send_chunks-Safe zero bytes_sent total (b ∷ rest) h = absurd (omega (arith, h))
send_chunks-Safe (suc fuel) bytes_sent total [] h = pure-Safe CleanLog []
send_chunks-Safe (suc fuel) bytes_sent total (b ∷ rest) h =
    let len = min chunk_size (length (b ∷ rest)) in
    then-Safe CleanLog _ _ (write_raw-Safe _) (
      bind-Safe CleanLog _ _
        (send_chunks-Safe fuel (bytes_sent + len) total (drop len (b ∷ rest))
          (rest-shorter b rest fuel h))
        λ later. pure-Safe CleanLog _)

all_chunks-Safe : (text : Bytes) → Safe CleanLog (send_chunks (length text) 0 (length text) text)
all_chunks-Safe text = send_chunks-Safe (length text) 0 (length text) text (omega arith)

pub send_with_progress_impl-Safe :
    (msg : Message) (env : Envelope)
    → IsFormatted msg
    → Safe CleanLog (send_with_progress_impl msg env)
unfolding send_with_progress_impl
send_with_progress_impl-Safe msg env h =
    search (all_chunks-Safe, begin_data-Safe, end_data-Safe, sending) depth 20

write_rcpt-Safe : (rcpt : Bytes) → Safe CleanLog (write_rcpt rcpt)
unfolding write_rcpt
write_rcpt-Safe rcpt = search mail depth 8

write_rcpts-Safe : (recipients : List Bytes) → Safe CleanLog (write_rcpts recipients)
unfolding write_rcpts
write_rcpts-Safe [] = search mail
write_rcpts-Safe (rcpt ∷ recipients) =
    then-Safe CleanLog _ _ (write_rcpt-Safe rcpt) (write_rcpts-Safe recipients)

read_rcpts-Safe : (recipients : List Bytes) → Safe CleanLog (read_rcpts recipients)
unfolding read_rcpts
read_rcpts-Safe [] = search mail
read_rcpts-Safe (rcpt ∷ recipients) =
    bind-Safe CleanLog _ _ read_reply_impl-Safe
      λ rep. bind-Safe CleanLog _ _ (read_rcpts-Safe recipients) λ later. search mail

send_pipelined_impl-Safe :
    (msg : Message) (env : Envelope) → IsFormatted msg → Safe CleanLog (send_pipelined_impl msg env)
unfolding send_pipelined_impl
send_pipelined_impl-Safe msg env h = search (write_rcpts-Safe, read_rcpts-Safe, sending) depth 20

pub send_pipelined-Safe :
    (msg : Message) (env : Envelope) → IsFormatted msg → Safe CleanLog (send_pipelined msg env)
unfolding send_pipelined
send_pipelined-Safe msg env h = search (send_pipelined_impl-Safe, send_impl-Safe, mail) depth 8
