-- ===== src/SmtpClient/Delivery/Sends.antt =====
-- smtp/client.hpp: sending in sequence, with progress and pipelined writes one and the same
-- transaction.
use mailio.Base.{◌≡◌, refl, sym, ap, ◌∙◌, Bool, List, ◌++◌}
use mailio.Base.Bytes.{Bytes, codes, length, is_empty}
use mailio.Base.Result.{Result, ok}
use mailio.Base.Action.{Exception, error, Action, throw_if, gets, pure, ◌>>=◌, ◌>>◌}
use mailio.Net.{normalize_line, write_line}
use mailio.Smtp.{Reply}
use mailio.SmtpClient.{
  Client, on_link, require_greeting, require_ehlo, read_reply_impl, expect_completion,
}
use mailio.SmtpClient.Session.{ensure}
use mailio.SmtpClient.Addresses.{
  Message, Envelope, MailDataInfo, mail_data_info, mail_sender, resolve_sender, mail_recipients,
  resolve_recipients, prepare_mail_data, mail_command, append_smtp_data_terminator,
}
use mailio.SmtpClient.Send.{
  require_session, send_mail, send_rcpts, send_data, no_suffix, send_impl, begin_data, end_data,
  send_chunks, ProgressInfo, send_with_progress_impl, write_rcpts, read_rcpts, send_pipelined_impl,
  first_message,
}
use mailio.SmtpClient.Delivery.{wire_of, rcpt_lines, transaction, IsKnown, known-rest, then-Writes}
use mailio.SmtpClient.Delivery.Steps.{
  send_mail-Writes, send_rcpts-Writes, send_data-Writes, send_in_chunks-Writes,
  send_pipeline-Writes,
}

check-IsKnown : (b : Bool) (e : Exception) → IsKnown tt (throw_if b e)
check-IsKnown b e = record { known = λ c a after h. (refl, sym (ap (λ o. o.1) h)) }

ensure-IsKnown : (value field : Bytes) → IsKnown tt (ensure value field)
unfolding ensure
ensure-IsKnown value field = record { known = λ c a after h. (refl, sym (ap (λ o. o.1) h)) }

pure-IsKnown : {A : Type 0} (v : A) → IsKnown v (pure v)
pure-IsKnown v = record { known = λ c a after h. (cc, sym (ap (λ o. o.1) h)) }

then-IsKnown :
    {A B : Type 0} (v : A) (w : B) (first : Action Client A) (later : A → Action Client B)
    → IsKnown v first
    → IsKnown w (later v)
    → IsKnown w (first >>= later)
then-IsKnown v w first later h k = record {
  known = λ c b after returned. k.known c b after (known-rest v first later h returned);
}

require_greeting-IsKnown : (text : Bytes) → IsKnown tt (require_greeting text)
unfolding require_greeting
require_greeting-IsKnown text = record { known = λ c a after h. (refl, sym (ap (λ o. o.1) h)) }

require_ehlo-IsKnown : (text : Bytes) → IsKnown tt (require_ehlo text)
unfolding require_ehlo
require_ehlo-IsKnown text = record { known = λ c a after h. (refl, sym (ap (λ o. o.1) h)) }

require_session-IsKnown : IsKnown tt require_session
unfolding require_session
require_session-IsKnown =
    then-IsKnown tt tt _ (λ u. require_ehlo (codes "Send requires EHLO/HELO."))
      (require_greeting-IsKnown _) (require_ehlo-IsKnown _)

mail_sender-IsKnown :
    (msg : Message) (mail_from : Bytes)
    → IsKnown (resolve_sender msg mail_from) (mail_sender msg mail_from)
unfolding mail_sender
mail_sender-IsKnown msg mail_from =
    let sender = resolve_sender msg mail_from in
    then-IsKnown tt sender _ (λ u. ensure sender (codes "mail_from") >> pure sender)
      (check-IsKnown _ _)
      (then-IsKnown tt sender _ (λ u. pure sender) (ensure-IsKnown _ _) (pure-IsKnown sender))

mail_recipients-IsKnown :
    (msg : Message) (rcpt_to : List Bytes)
    → IsKnown (resolve_recipients msg rcpt_to) (mail_recipients msg rcpt_to)
unfolding mail_recipients
mail_recipients-IsKnown msg rcpt_to =
    let recipients = resolve_recipients msg rcpt_to in
    then-IsKnown tt recipients _ (λ u. pure recipients) (check-IsKnown _ _)
      (pure-IsKnown recipients)

prepare-IsKnown :
    (msg : Message) (mail_from : Bytes) (recipients : List Bytes) (text : Bytes)
    → msg.formatted ≡ ok text
    → IsKnown
        (mail_data_info text mail_from recipients)
        (prepare_mail_data msg mail_from recipients)
unfolding prepare_mail_data
prepare-IsKnown msg mail_from recipients text h = record {
  known = λ c a after returned.
      let made : Result Exception MailDataInfo × Client =
        (ok (mail_data_info text mail_from recipients), c) in
      let run : made ≡ (ok a, after) = (rw h at returned) in (cc, sym (ap (λ o. o.1) run));
}

-- A member that sends: checks, the sender, the recipients and the data, and then its own steps.
sequence :
    {A : Type 0} (msg : Message) (env : Envelope) (text : Bytes)
    (steps : List Bytes → MailDataInfo → Bytes → Client → Action Client A) (c after : Client)
    (a : A)
    → msg.formatted ≡ ok text
    → (do
      require_session
      mail_from ← mail_sender msg env.mail_from
      recipients ← mail_recipients msg env.rcpt_to
      info ← prepare_mail_data msg mail_from recipients
      c ← gets (λ c. c)
      steps recipients info mail_from c)
        c
      ≡ (ok a, after)
    → let sender = resolve_sender msg env.mail_from in
      let recipients = resolve_recipients msg env.rcpt_to in
      steps recipients (mail_data_info text sender recipients) sender c c ≡ (ok a, after)
sequence msg env text steps c after a formatted returned =
    let sender = resolve_sender msg env.mail_from in
    let recipients = resolve_recipients msg env.rcpt_to in
    known-rest _ (prepare_mail_data msg sender recipients) _
      (prepare-IsKnown msg sender recipients text formatted)
      (known-rest _ (mail_recipients msg env.rcpt_to) _ (mail_recipients-IsKnown msg env.rcpt_to) (
        known-rest _ (mail_sender msg env.mail_from) _ (mail_sender-IsKnown msg env.mail_from)
          (known-rest tt require_session _ require_session-IsKnown returned)))

-- The transaction of a message and an envelope, by a client.
pub transaction_of : Message → Envelope → Bytes → Client → Bytes
transaction_of msg env text c =
    let sender = resolve_sender msg env.mail_from in
    let recipients = resolve_recipients msg env.rcpt_to in
    transaction (mail_command sender (mail_data_info text sender recipients) c) recipients
      (append_smtp_data_terminator text)

module _ (msg : Message) (env : Envelope) (text : Bytes) (formatted : msg.formatted ≡ ok text)
    (c after : Client) where
  -- A send that returns has written one mail transaction and nothing else: the sender's command, a
  -- command for each recipient, DATA, and the formatted message with its terminator.
  pub send_impl-wire :
      (rep : Reply)
      → send_impl msg env c ≡ (ok rep, after)
      → wire_of after ≡ wire_of c ++ transaction_of msg env text c
  unfolding send_impl transaction_of transaction mail_data_info
  send_impl-wire rep returned =
      let sender = resolve_sender msg env.mail_from in
      let recipients = resolve_recipients msg env.rcpt_to in
      let cmd = mail_command sender (mail_data_info text sender recipients) c in
      let payload = append_smtp_data_terminator text in
      let steps =
        then-Writes (send_mail cmd) _ (normalize_line cmd)
          (rcpt_lines recipients ++ (normalize_line (codes "DATA") ++ payload))
          (send_mail-Writes cmd)
          (then-Writes _ _ (rcpt_lines recipients) (normalize_line (codes "DATA") ++ payload)
            (send_rcpts-Writes recipients) (send_data-Writes payload)) in
      steps.writes c rep after (
        sequence msg env text
          (λ rs info mail_from c.
            send_mail (mail_command mail_from info c)
            >> (send_rcpts no_suffix rs >> send_data (append_smtp_data_terminator info.payload)))
          c after rep formatted returned)

  pub send_with_progress_impl-wire :
      (outcome : List ProgressInfo × Reply)
      → send_with_progress_impl msg env c ≡ (ok outcome, after)
      → wire_of after ≡ wire_of c ++ transaction_of msg env text c
  unfolding send_with_progress_impl transaction_of transaction mail_data_info
  send_with_progress_impl-wire outcome returned =
      let sender = resolve_sender msg env.mail_from in
      let recipients = resolve_recipients msg env.rcpt_to in
      let cmd = mail_command sender (mail_data_info text sender recipients) c in
      let payload = append_smtp_data_terminator text in
      let steps =
        then-Writes (send_mail cmd) _ (normalize_line cmd)
          (rcpt_lines recipients ++ (normalize_line (codes "DATA") ++ payload))
          (send_mail-Writes cmd)
          (then-Writes _ _ (rcpt_lines recipients) (normalize_line (codes "DATA") ++ payload)
            (send_rcpts-Writes recipients) (send_in_chunks-Writes payload)) in
      steps.writes c outcome after (
        sequence msg env text
          (λ rs info mail_from c.
            send_mail (mail_command mail_from info c)
            >> (send_rcpts no_suffix rs
                >> (begin_data
                    >> (send_chunks (length (append_smtp_data_terminator info.payload)) 0
                          (length (append_smtp_data_terminator info.payload))
                          (append_smtp_data_terminator info.payload)
                        >>= λ progress. end_data >>= λ rep. pure (progress, rep)))))
          c after outcome formatted returned)

  pub send_pipelined_impl-wire :
      (rep : Reply)
      → send_pipelined_impl msg env c ≡ (ok rep, after)
      → wire_of after ≡ wire_of c ++ transaction_of msg env text c
  unfolding send_pipelined_impl transaction_of mail_data_info
  send_pipelined_impl-wire rep returned =
      let sender = resolve_sender msg env.mail_from in
      let recipients = resolve_recipients msg env.rcpt_to in
      let cmd = mail_command sender (mail_data_info text sender recipients) c in
      (send_pipeline-Writes cmd recipients (append_smtp_data_terminator text)).writes c rep after (
        sequence msg env text
          (λ rs info mail_from c.
            on_link (write_line (mail_command mail_from info c))
            >> (write_rcpts rs
                >> (read_reply_impl >>= λ rep.
                    expect_completion (codes "Mail sender rejection.") rep
                    >> (read_rcpts rs >>= λ outcomes.
                        throw_if (is_empty (outcomes.0))
                          (error (codes "All recipients rejected.") (first_message (outcomes.1)))
                        >> send_data (append_smtp_data_terminator info.payload)))))
          c after rep formatted returned)

-- Sending with progress, which cuts the data into chunks, and pipelined write the same bytes as
-- sending in sequence, when each of them returns.
pub sends-wire :
    (msg : Message) (env : Envelope) (text : Bytes) (c after after_chunks after_pipeline : Client)
    (rep rep_pipeline : Reply) (outcome : List ProgressInfo × Reply)
    → msg.formatted ≡ ok text
    → send_impl msg env c ≡ (ok rep, after)
    → send_with_progress_impl msg env c ≡ (ok outcome, after_chunks)
    → send_pipelined_impl msg env c ≡ (ok rep_pipeline, after_pipeline)
    → (wire_of after_chunks ≡ wire_of after) × (wire_of after_pipeline ≡ wire_of after)
sends-wire msg env text c after after_chunks after_pipeline rep rep_pipeline outcome formatted first
      second third =
    let sequential = send_impl-wire msg env text formatted c after rep first in
    (
      send_with_progress_impl-wire msg env text formatted c after_chunks outcome second
          ∙ sym sequential,
      send_pipelined_impl-wire msg env text formatted c after_pipeline rep_pipeline third
          ∙ sym sequential,
    )
