-- ===== src/SmtpClient/Delivery/Steps.antt =====
-- smtp/client.hpp: the bytes that the steps of a mail transaction write.
use mailio.Base.{
  ℕ, zero, suc, ◌+◌, ◌≡◌, refl, sym, ap, subst, ◌∙◌, Bool, true, false, Option, none, some, List,
  [], ◌∷◌, ◌++◌, if◌then◌else◌,
}
use mailio.Base.Bytes.{Bytes, codes, length, take, drop, is_empty}
use mailio.Base.Result.{ok}
use mailio.Base.Action.{error, Action, throw_if, pure, ◌>>=◌, ◌>>◌}
use mailio.Net.{
  Link, Dialog, Network, Written, line_of, raw, normalize_line, write, write_line, write_raw,
  not_established, min,
}
use mailio.Net.Sent.{write-sent}
use mailio.Smtp.{Reply, is_positive_completion}
use mailio.SmtpClient.{Client, on_link, read_reply_impl, command_impl, expect_completion}
use mailio.SmtpClient.Clean.{read_reply_impl-keeps}
use mailio.SmtpClient.Replies.{on_link-eq-ok}
use mailio.SmtpClient.Session.{ensure}
use mailio.SmtpClient.Addresses.{rcpt_command}
use mailio.SmtpClient.Send.{
  send_mail, send_rcpt, send_rcpts, begin_data, end_data, send_data, no_suffix, ProgressInfo,
  send_chunks, chunk_size, write_rcpt, write_rcpts, read_rcpts, first_message,
}
use mailio.SmtpClient.Delivery.{
  wire, wire_of, written_bytes, transaction, rcpt_lines, Writes, throw_if-Writes, pure-Writes,
  bind-Writes, then-Writes,
}

-- Without a dialog a write throws.
link_write-wire :
    (payload : Written) (dialog : Option Dialog) (net : Network) {u : Unit {0}} {after : Link}
    → write payload (record { dialog = dialog; network = net }) ≡ (ok u, after)
    → after.network.sent ≡ payload ∷ net.sent
unfolding write not_established
link_write-wire payload none net h = absurd cc
link_write-wire payload (some d) net h =
    ap (λ o. o.1.network.sent) (sym h) ∙ (write-sent payload (some d) net).1

write-Writes : (payload : Written) → Writes (written_bytes payload) (on_link (write payload))
unfolding wire_of wire
write-Writes payload = record {
  writes = λ c u after h.
      ap wire
        (link_write-wire payload c.link.dialog c.link.network (on_link-eq-ok (write payload) c h));
}

write_line-Writes : (line : Bytes) → Writes (normalize_line line) (on_link (write_line line))
unfolding write_line
write_line-Writes line = write-Writes (line_of (normalize_line line))

write_raw-Writes : (payload : Bytes) → Writes payload (on_link (write_raw payload))
unfolding write_raw
write_raw-Writes payload = write-Writes (raw payload)

append-nil : (s : Bytes) → s ++ [] ≡ s
append-nil [] = refl
append-nil (c ∷ s) = ap (λ t. c ∷ t) (append-nil s)

read_reply_impl-Writes : Writes [] read_reply_impl
unfolding wire_of
read_reply_impl-Writes = record {
  writes = λ c rep after h.
      let unwritten = read_reply_impl-keeps (λ sent. sent ≡ c.link.network.sent) c refl in
      let same : after.link.network.sent ≡ (read_reply_impl c).1.link.network.sent =
        ap (λ o. o.1.link.network.sent) (sym h) in
      ap wire (same ∙ unwritten) ∙ sym (append-nil (wire_of c));
}

-- Steps whose bytes are an expected string.
exactly :
    {A : Type 0} (call : Action Client A) (bytes expected : Bytes)
    → Writes bytes call
    → bytes ≡ expected
    → Writes expected call
exactly call bytes expected h same = subst (λ b. Writes b call) same h

command_impl-Writes : (line : Bytes) → Writes (normalize_line line) (command_impl line)
unfolding command_impl
command_impl-Writes line =
    exactly _ _ _
      (then-Writes _ _ (normalize_line line) [] (write_line-Writes line) read_reply_impl-Writes)
      (append-nil (normalize_line line))

expect-Writes : (text : Bytes) (rep : Reply) → Writes [] (expect_completion text rep)
unfolding expect_completion
expect-Writes text rep = throw_if-Writes _ _

checked_command-Writes :
    (line : Bytes) (check : Reply → Action Client (Unit {0}))
    → ((rep : Reply) → Writes [] (check rep))
    → Writes (normalize_line line) (command_impl line >>= check)
checked_command-Writes line check h =
    exactly _ _ _ (bind-Writes _ _ (normalize_line line) [] (command_impl-Writes line) h)
      (append-nil (normalize_line line))

pub send_mail-Writes : (cmd : Bytes) → Writes (normalize_line cmd) (send_mail cmd)
unfolding send_mail
send_mail-Writes cmd = checked_command-Writes cmd _ (expect-Writes _)

ensure-Writes : (value field : Bytes) → Writes [] (ensure value field)
unfolding ensure wire_of
ensure-Writes value field = record {
  writes = λ c u after h.
      let same : c ≡ after = ap (λ o. o.1) h in
      ap wire_of (sym same) ∙ sym (append-nil (wire_of c));
}

send_rcpt-Writes : (rcpt : Bytes) → Writes (normalize_line (rcpt_command rcpt)) (send_rcpt rcpt [])
unfolding send_rcpt
send_rcpt-Writes rcpt =
    exactly _ _ _
      (then-Writes _ _ [] (normalize_line (rcpt_command rcpt ++ [])) (ensure-Writes rcpt _)
        (checked_command-Writes (rcpt_command rcpt ++ []) _ (expect-Writes _)))
      (ap normalize_line (append-nil (rcpt_command rcpt)))

pub send_rcpts-Writes :
    (recipients : List Bytes) → Writes (rcpt_lines recipients) (send_rcpts no_suffix recipients)
unfolding send_rcpts rcpt_lines
send_rcpts-Writes [] = pure-Writes tt
send_rcpts-Writes (rcpt ∷ recipients) =
    then-Writes _ _ (normalize_line (rcpt_command rcpt)) (rcpt_lines recipients)
      (send_rcpt-Writes rcpt) (send_rcpts-Writes recipients)

begin_data-Writes : Writes (normalize_line (codes "DATA")) begin_data
unfolding begin_data
begin_data-Writes = checked_command-Writes (codes "DATA") _ (λ rep. throw_if-Writes _ _)

end_data-Writes : Writes [] end_data
unfolding end_data
end_data-Writes =
    bind-Writes _ _ [] [] read_reply_impl-Writes
      λ rep. then-Writes _ _ [] [] (expect-Writes _ rep) (pure-Writes rep)

pub send_data-Writes :
    (payload : Bytes) → Writes (normalize_line (codes "DATA") ++ payload) (send_data payload)
unfolding send_data
send_data-Writes payload =
    then-Writes _ _ (normalize_line (codes "DATA")) payload begin_data-Writes (
      exactly _ _ _ (then-Writes _ _ payload [] (write_raw-Writes payload) end_data-Writes)
        (append-nil payload))

take-drop : (n : ℕ) (s : Bytes) → take n s ++ drop n s ≡ s
take-drop zero s = refl
take-drop (suc n) [] = refl
take-drop (suc n) (c ∷ s) = ap (λ t. c ∷ t) (take-drop n s)

-- The chunks make up the data.
send_chunks-Writes :
    (fuel bytes_sent total : ℕ) (rest : Bytes)
    → Writes rest (send_chunks fuel bytes_sent total rest)
unfolding send_chunks
send_chunks-Writes zero bytes_sent total [] = pure-Writes []
send_chunks-Writes zero bytes_sent total (b ∷ rest) = record { writes = λ c a after h. absurd cc }
send_chunks-Writes (suc fuel) bytes_sent total [] = pure-Writes []
send_chunks-Writes (suc fuel) bytes_sent total (b ∷ rest) =
    let len = min chunk_size (length (b ∷ rest)) in
    exactly _ (take len (b ∷ rest) ++ drop len (b ∷ rest)) _
      (then-Writes _ _ (take len (b ∷ rest)) (drop len (b ∷ rest))
        (write_raw-Writes (take len (b ∷ rest)))
        (exactly _ (drop len (b ∷ rest) ++ []) _
          (bind-Writes _ _ (drop len (b ∷ rest)) []
            (send_chunks-Writes fuel (bytes_sent + len) total (drop len (b ∷ rest)))
            (λ later. pure-Writes _))
          (append-nil (drop len (b ∷ rest)))))
      (take-drop len (b ∷ rest))

pub send_in_chunks-Writes :
    (text : Bytes)
    → Writes {A = List ProgressInfo × Reply} (normalize_line (codes "DATA") ++ text) (do
      begin_data
      progress ← send_chunks (length text) 0 (length text) text
      rep ← end_data
      pure (progress, rep))
send_in_chunks-Writes text =
    then-Writes _ _ (normalize_line (codes "DATA")) text begin_data-Writes (
      exactly _ (text ++ []) _
        (bind-Writes _ _ text [] (send_chunks-Writes (length text) 0 (length text) text)
          λ progress. bind-Writes _ _ [] [] end_data-Writes λ rep. pure-Writes _)
        (append-nil text))

write_rcpt-Writes : (rcpt : Bytes) → Writes (normalize_line (rcpt_command rcpt)) (write_rcpt rcpt)
unfolding write_rcpt
write_rcpt-Writes rcpt =
    then-Writes _ _ [] (normalize_line (rcpt_command rcpt)) (ensure-Writes rcpt _)
      (write_line-Writes _)

write_rcpts-Writes :
    (recipients : List Bytes) → Writes (rcpt_lines recipients) (write_rcpts recipients)
unfolding write_rcpts rcpt_lines
write_rcpts-Writes [] = pure-Writes tt
write_rcpts-Writes (rcpt ∷ recipients) =
    then-Writes _ _ (normalize_line (rcpt_command rcpt)) (rcpt_lines recipients)
      (write_rcpt-Writes rcpt) (write_rcpts-Writes recipients)

if-Writes :
    {A : Type 0} (bytes : Bytes) (b : Bool) (x y : Action Client A)
    → Writes bytes x
    → Writes bytes y
    → Writes bytes (if b then x else y)
if-Writes bytes true x y h k = h
if-Writes bytes false x y h k = k

read_rcpts-Writes : (recipients : List Bytes) → Writes [] (read_rcpts recipients)
unfolding read_rcpts
read_rcpts-Writes [] = pure-Writes _
read_rcpts-Writes (rcpt ∷ recipients) = bind-Writes _ _ [] [] read_reply_impl-Writes λ rep.
    bind-Writes _ _ [] [] (read_rcpts-Writes recipients)
      λ later. if-Writes [] (is_positive_completion rep) _ _ (pure-Writes _) (pure-Writes _)

pub send_pipeline-Writes :
    (cmd : Bytes) (recipients : List Bytes) (payload : Bytes)
    → Writes (transaction cmd recipients payload) (do
      on_link (write_line cmd)
      write_rcpts recipients
      rep ← read_reply_impl
      expect_completion (codes "Mail sender rejection.") rep
      outcomes ← read_rcpts recipients
      throw_if
          (is_empty (outcomes.0))
          (error (codes "All recipients rejected.") (first_message (outcomes.1)))
      send_data payload)
unfolding transaction
send_pipeline-Writes cmd recipients payload =
    let data_bytes = normalize_line (codes "DATA") ++ payload in
    then-Writes _ _ (normalize_line cmd) (rcpt_lines recipients ++ data_bytes)
      (write_line-Writes cmd)
      (then-Writes _ _ (rcpt_lines recipients) data_bytes (write_rcpts-Writes recipients) (
        bind-Writes _ _ [] data_bytes read_reply_impl-Writes λ rep.
          then-Writes _ _ [] data_bytes (expect-Writes _ rep) (
            bind-Writes _ _ [] data_bytes (read_rcpts-Writes recipients) λ outcomes.
              then-Writes _ _ [] data_bytes (throw_if-Writes _ _) (send_data-Writes payload))))
