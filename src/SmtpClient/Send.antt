-- ===== src/SmtpClient/Send.antt =====
-- smtp/client.hpp: sending a message, with the data in one piece or with progress, and pipelined.
use mailio.Base.{ℕ, zero, suc, ◌+◌, Bool, false, not, List, [], ◌∷◌, ◌++◌, ltb, if◌then◌else◌}
use mailio.Base.Bytes.{Bytes, codes, length, take, drop, is_empty}
use mailio.Base.Action.{error, out_of_fuel, Action, pure, throw, throw_if, gets, ◌>>=◌, ◌>>◌}
use mailio.Net.{write_line, write_raw, min}
use mailio.Smtp.{Reply, message, is_positive_completion, is_positive_intermediate}
use mailio.SmtpClient.{
  Client, on_link, read_reply_impl, command_impl, require_greeting, require_ehlo, expect_completion,
  supported,
}
use mailio.SmtpClient.Session.{ensure}
use mailio.SmtpClient.Addresses.{
  Message, Envelope, mail_sender, mail_recipients, prepare_mail_data, mail_command, rcpt_command,
  append_smtp_data_terminator,
}

-- What the members that send begin with.
unfoldable pub require_session : Action Client (Unit {0})
require_session = do
  require_greeting (codes "Send requires a greeting.")
  require_ehlo (codes "Send requires EHLO/HELO.")

unfoldable pub send_mail : Bytes → Action Client (Unit {0})
send_mail cmd = do rep ← command_impl cmd; expect_completion (codes "Mail sender rejection.") rep

unfoldable pub send_rcpt : Bytes → Bytes → Action Client (Unit {0})
send_rcpt rcpt suffix = do
  ensure rcpt (codes "rcpt_to")
  rep ← command_impl (rcpt_command rcpt ++ suffix)
  expect_completion (codes "Mail recipient rejection.") rep

-- The loop over the recipients; the suffix has the parameters of a recipient.
unfoldable pub send_rcpts : (Bytes → Bytes) → List Bytes → Action Client (Unit {0})
send_rcpts suffix [] = pure tt
send_rcpts suffix (rcpt ∷ recipients) = do
  send_rcpt rcpt (suffix rcpt)
  send_rcpts suffix recipients

unfoldable pub begin_data : Action Client (Unit {0})
begin_data = do
  rep ← command_impl (codes "DATA")
  throw_if (not (is_positive_intermediate rep))
      (error (codes "Mail message rejection.") (message rep))

unfoldable pub end_data : Action Client Reply
end_data = do
  rep ← read_reply_impl
  expect_completion (codes "Mail message rejection.") rep
  pure rep

unfoldable pub send_data : Bytes → Action Client Reply
send_data payload = do begin_data; on_link (write_raw payload); end_data

abbrev pub no_suffix : Bytes → Bytes
no_suffix rcpt = []

unfoldable pub send_impl : Message → Envelope → Action Client Reply
send_impl msg env = do
  require_session
  mail_from ← mail_sender msg env.mail_from
  recipients ← mail_recipients msg env.rcpt_to
  info ← prepare_mail_data msg mail_from recipients
  c ← gets (λ c. c)
  send_mail (mail_command mail_from info c)
  send_rcpts no_suffix recipients
  send_data (append_smtp_data_terminator info.payload)

-- `progress_info_t`, without the constant `is_upload`.
pub record ProgressInfo : Type 0 where
  pub bytes_transferred : ℕ
  pub total_bytes : ℕ

pub is_complete : ProgressInfo → Bool
is_complete p = if ltb 0 p.total_bytes then not (ltb p.bytes_transferred p.total_bytes) else false

abbrev pub chunk_size : ℕ
chunk_size = 8192

-- The loop over the chunks, from the data that is left; it returns what the callback is given.
unfoldable pub send_chunks : ℕ → ℕ → ℕ → Bytes → Action Client (List ProgressInfo)
send_chunks zero bytes_sent total rest = if is_empty rest then pure [] else throw out_of_fuel
send_chunks (suc fuel) bytes_sent total [] = pure []
send_chunks (suc fuel) bytes_sent total (b ∷ rest) = do
  let len = min chunk_size (length (b ∷ rest))
  on_link (write_raw (take len (b ∷ rest)))
  let sent = bytes_sent + len
  later ← send_chunks fuel sent total (drop len (b ∷ rest))
  pure (record { bytes_transferred = sent; total_bytes = total } ∷ later)

unfoldable pub send_with_progress_impl :
    Message → Envelope → Action Client (List ProgressInfo × Reply)
send_with_progress_impl msg env = do
  require_session
  mail_from ← mail_sender msg env.mail_from
  recipients ← mail_recipients msg env.rcpt_to
  info ← prepare_mail_data msg mail_from recipients
  c ← gets (λ c. c)
  send_mail (mail_command mail_from info c)
  send_rcpts no_suffix recipients
  begin_data
  let text = append_smtp_data_terminator info.payload
  progress ← send_chunks (length text) 0 (length text) text
  rep ← end_data
  pure (progress, rep)

unfoldable pub write_rcpt : Bytes → Action Client (Unit {0})
write_rcpt rcpt = do ensure rcpt (codes "rcpt_to"); on_link (write_line (rcpt_command rcpt))

unfoldable pub write_rcpts : List Bytes → Action Client (Unit {0})
write_rcpts [] = pure tt
write_rcpts (rcpt ∷ recipients) = do write_rcpt rcpt; write_rcpts recipients

-- The recipients that the server takes, and those that it does not with its replies.
unfoldable pub read_rcpts : List Bytes → Action Client (List Bytes × List (Bytes × Reply))
read_rcpts [] = pure ([], [])
read_rcpts (rcpt ∷ recipients) = do
  rep ← read_reply_impl
  later ← read_rcpts recipients
  if is_positive_completion rep
      then pure (rcpt ∷ later.0, later.1)
      else pure (later.0, (rcpt, rep) ∷ later.1)

abbrev pub first_message : List (Bytes × Reply) → Bytes
first_message [] = []
first_message ((rcpt, rep) ∷ rejected) = message rep

unfoldable pub send_pipelined_impl : Message → Envelope → Action Client Reply
send_pipelined_impl msg env = do
  require_session
  mail_from ← mail_sender msg env.mail_from
  recipients ← mail_recipients msg env.rcpt_to
  info ← prepare_mail_data msg mail_from recipients
  c ← gets (λ c. c)
  on_link (write_line (mail_command mail_from info c))
  write_rcpts recipients
  rep ← read_reply_impl
  expect_completion (codes "Mail sender rejection.") rep
  outcomes ← read_rcpts recipients
  throw_if (is_empty (outcomes.0))
      (error (codes "All recipients rejected.") (first_message (outcomes.1)))
  send_data (append_smtp_data_terminator info.payload)

unfoldable pub send_pipelined : Message → Envelope → Action Client Reply
send_pipelined msg env = do
  c ← gets (λ c. c)
  if supported (codes "PIPELINING") c then send_pipelined_impl msg env else send_impl msg env
