-- ===== src/SmtpClient/Tests.antt =====
-- Witnesses and runs for the SMTP client.
use mailio.Base.{
  ℕ, ◌≡◌, refl, ap, map, Bool, true, false, Option, none, some, List, [], ◌∷◌, ◌++◌, arith,
}
use mailio.Base.Bytes.{Bytes, codes, All, length, is_empty}
use mailio.Base.Result.{Result, ok}
use mailio.Base.Action.{Exception, is_decided}
use mailio.Net.{Dialog, Network, Link, make_dialog}
use mailio.Smtp.{Reply}
use mailio.SmtpClient.{Client, Options, State, ehlo_done, connected, greeted}
use mailio.SmtpClient.Session.{no_tls, start_tls_impl}
use mailio.SmtpClient.Auth.{plain, authenticate_impl}
use mailio.SmtpClient.Addresses.{
  Message, Envelope, Mailboxes, dedup, to_lower_ascii, mail_data_info, append_smtp_data_terminator,
}
use mailio.SmtpClient.Send.{
  send_impl, send_with_progress_impl, send_pipelined_impl, send_chunks, ProgressInfo,
}
use mailio.SmtpClient.Clean.{CleanLog}
use mailio.SmtpClient.Calls.{
  Call, connect, read_greeting, ehlo, perform, initial, Reachable, begin, next, Reachable-CleanLog,
  call-decided, IsCallable, IsLimited,
}
use mailio.SmtpClient.Gates.{Refuses, authenticate-Refuses, IsFresh, start_tls_impl-IsFresh}
use mailio.SmtpClient.Recipients.{IsDistinct, has_key, dedup_lem}
use mailio.SmtpClient.Delivery.{wire_of}
use mailio.SmtpClient.Delivery.Sends.{transaction_of, send_impl-wire, sends-wire}
use mailio.SmtpClient.Delivery.Progress.{IsRising, send_chunks-IsRising}

abbrev strict : Options
strict = record {
  auto_starttls = false;
  allow_cleartext_auth = false;
  require_tls_for_auth = true;
  use_size_extension = true;
  use_smtputf8 = true;
  use_8bitmime = true;
}

-- A server that sends the lines given.
abbrev serves : List Bytes → Network
serves lines = record {
  reads = map (λ line. (line ++ codes "\r\n", none)) lines;
  writes = none ∷ none ∷ none ∷ none ∷ none ∷ [];
  handshakes = none ∷ [];
  connects = none ∷ none ∷ [];
  host_name = some (codes "here");
  sent = [];
}

abbrev no_limit : Bytes → Option ℕ
no_limit s = none

abbrev started : Client
started = initial no_limit strict (serves (codes "220 mx ready" ∷ codes "250 mx" ∷ []))

abbrev to_server : Call
to_server = connect (codes "mx") (codes "25") no_tls false []

started-Reachable : Reachable no_limit started
started-Reachable = begin strict (serves (codes "220 mx ready" ∷ codes "250 mx" ∷ []))

connected-Reachable : Reachable no_limit ((perform no_limit to_server started).1)
unfolding IsCallable
connected-Reachable = next to_server tt started-Reachable

greeted-Reachable :
    Reachable no_limit ((perform no_limit read_greeting ((perform no_limit to_server started).1)).1)
unfolding IsCallable
greeted-Reachable = next read_greeting tt connected-Reachable

Reachable-CleanLog_example :
    CleanLog ((perform no_limit read_greeting ((perform no_limit to_server started).1)).1)
Reachable-CleanLog_example = Reachable-CleanLog no_limit _ greeted-Reachable

call-decided_example :
    is_decided (
      (perform no_limit
        (ehlo (codes "me"))
        ((perform no_limit read_greeting ((perform no_limit to_server started).1)).1)).0)
    ≡ true
unfolding IsCallable IsLimited
call-decided_example = call-decided no_limit (ehlo (codes "me")) _ tt tt greeted-Reachable

abbrev at : State → Network → Client
at state_ net = record {
  options = strict;
  link = record {
    dialog = some (record { is_tls = false; read_buffer = []; max_line_length = 8192 });
    network = net;
  };
  remote_host = codes "mx";
  server_name = [];
  saved_host = codes "mx";
  saved_service = codes "25";
  entries = [];
  state = state_;
  helo_only = false;
  capabilities_known = true;
}

authenticate-Refuses_example :
    Refuses (authenticate_impl (codes "me") (codes "secret") plain) (at ehlo_done (serves []))
authenticate-Refuses_example =
    authenticate-Refuses (codes "me") (codes "secret") plain (at ehlo_done (serves [])) _ refl refl
      refl refl

dedup_lem_example :
    IsDistinct [] (dedup (codes "a@b" ∷ codes "A@b" ∷ []))
    × All
        (λ x.
          is_empty x ≡ false
          → has_key (to_lower_ascii x) (dedup (codes "a@b" ∷ codes "A@b" ∷ [])) ≡ true)
        (codes "a@b" ∷ codes "A@b" ∷ [])
dedup_lem_example = dedup_lem (codes "a@b" ∷ codes "A@b" ∷ [])

dedup_run :
    dedup (codes "a@b" ∷ codes "A@b" ∷ codes "" ∷ codes "c" ∷ []) ≡ codes "a@b" ∷ codes "c" ∷ []
unfolding dedup mailio.SmtpClient.Addresses.dedup_loop mailio.SmtpClient.Addresses.is_seen
    mailio.SmtpClient.Addresses.to_lower_ascii mailio.Base.Bytes.equal
dedup_run = refl

abbrev nobody : Mailboxes
nobody = record { addresses = []; groups = [] }

abbrev note : Message
note = record {
  sender = codes "me@a";
  from = [];
  recipients = record { addresses = codes "you@b" ∷ []; groups = [] };
  cc_recipients = nobody;
  bcc_recipients = nobody;
  formatted = ok (codes "hi\r\n");
}

abbrev plain_envelope : Envelope
plain_envelope = record { mail_from = []; rcpt_to = [] }

abbrev ready : Client
ready =
    at ehlo_done (serves (codes "250 ok" ∷ codes "250 ok" ∷ codes "354 go" ∷ codes "250 done" ∷ []))

sent_run :
    (send_impl note plain_envelope ready).0
    ≡ ok (record { status = 250; lines = codes "done" ∷ [] })
unfolding send_impl mailio.Net.after_read mailio.Net.ends_with_crlf mailio.Net.extract
    mailio.Net.extract_found mailio.Net.line_length mailio.Net.normalize_line
    mailio.Net.not_established mailio.Net.read_found mailio.Net.read_line mailio.Net.read_more
    mailio.Net.write mailio.Net.write_line mailio.Net.write_raw mailio.Net.available
    mailio.Net.pending mailio.Net.take_outcome mailio.Net.async_write
    mailio.SmtpClient.require_greeting mailio.SmtpClient.has_greeting
    mailio.SmtpClient.is_past_greeting mailio.SmtpClient.require_ehlo
    mailio.SmtpClient.has_helo_or_ehlo mailio.SmtpClient.is_past_ehlo mailio.SmtpClient.command_impl
    mailio.SmtpClient.expect_completion mailio.SmtpClient.extend_reply
    mailio.SmtpClient.parse_reply_line mailio.SmtpClient.read_reply_impl
    mailio.SmtpClient.read_reply_loop mailio.SmtpClient.reply_code mailio.SmtpClient.supported
    mailio.SmtpClient.take_parsed mailio.SmtpClient.take_reply_line
    mailio.SmtpClient.Addresses.mail_sender mailio.SmtpClient.Addresses.resolve_sender
    mailio.SmtpClient.Addresses.mail_recipients mailio.SmtpClient.Addresses.resolve_recipients
    mailio.SmtpClient.Addresses.dedup mailio.SmtpClient.Addresses.dedup_loop
    mailio.SmtpClient.Addresses.append_addresses mailio.SmtpClient.Addresses.append_groups
    mailio.SmtpClient.Addresses.append_mailboxes
    mailio.SmtpClient.Addresses.append_smtp_data_terminator
    mailio.SmtpClient.Addresses.collect_recipients mailio.SmtpClient.Addresses.is_seen
    mailio.SmtpClient.Addresses.mail_data_info mailio.SmtpClient.Addresses.prepare_mail_data
    mailio.SmtpClient.Addresses.rcpt_command mailio.SmtpClient.Addresses.to_lower_ascii
    mailio.SmtpClient.Send.require_session mailio.SmtpClient.Send.begin_data
    mailio.SmtpClient.Send.end_data mailio.SmtpClient.Send.send_data
    mailio.SmtpClient.Send.send_mail mailio.SmtpClient.Send.send_rcpt
    mailio.SmtpClient.Send.send_rcpts mailio.SmtpClient.Session.ensure
    mailio.Wire.ensure_no_crlf_or_nul mailio.Wire.contains_crlf_or_nul mailio.Base.Bytes.equal
    mailio.Base.Bytes.find mailio.Smtp.is_positive_completion mailio.Smtp.is_positive_intermediate
sent_run = refl

chunks_run :
    (send_with_progress_impl note plain_envelope ready).0
    ≡ ok (
      record { bytes_transferred = 7; total_bytes = 7 } ∷ [],
      record { status = 250; lines = codes "done" ∷ [] },
    )
unfolding send_with_progress_impl mailio.SmtpClient.Send.send_chunks mailio.Net.after_read
    mailio.Net.ends_with_crlf mailio.Net.extract mailio.Net.extract_found mailio.Net.line_length
    mailio.Net.normalize_line mailio.Net.not_established mailio.Net.read_found mailio.Net.read_line
    mailio.Net.read_more mailio.Net.write mailio.Net.write_line mailio.Net.write_raw
    mailio.Net.available mailio.Net.pending mailio.Net.take_outcome mailio.Net.async_write
    mailio.SmtpClient.require_greeting mailio.SmtpClient.has_greeting
    mailio.SmtpClient.is_past_greeting mailio.SmtpClient.require_ehlo
    mailio.SmtpClient.has_helo_or_ehlo mailio.SmtpClient.is_past_ehlo mailio.SmtpClient.command_impl
    mailio.SmtpClient.expect_completion mailio.SmtpClient.extend_reply
    mailio.SmtpClient.parse_reply_line mailio.SmtpClient.read_reply_impl
    mailio.SmtpClient.read_reply_loop mailio.SmtpClient.reply_code mailio.SmtpClient.supported
    mailio.SmtpClient.take_parsed mailio.SmtpClient.take_reply_line
    mailio.SmtpClient.Addresses.mail_sender mailio.SmtpClient.Addresses.resolve_sender
    mailio.SmtpClient.Addresses.mail_recipients mailio.SmtpClient.Addresses.resolve_recipients
    mailio.SmtpClient.Addresses.dedup mailio.SmtpClient.Addresses.dedup_loop
    mailio.SmtpClient.Addresses.append_addresses mailio.SmtpClient.Addresses.append_groups
    mailio.SmtpClient.Addresses.append_mailboxes
    mailio.SmtpClient.Addresses.append_smtp_data_terminator
    mailio.SmtpClient.Addresses.collect_recipients mailio.SmtpClient.Addresses.is_seen
    mailio.SmtpClient.Addresses.mail_data_info mailio.SmtpClient.Addresses.prepare_mail_data
    mailio.SmtpClient.Addresses.rcpt_command mailio.SmtpClient.Addresses.to_lower_ascii
    mailio.SmtpClient.Send.require_session mailio.SmtpClient.Send.begin_data
    mailio.SmtpClient.Send.end_data mailio.SmtpClient.Send.send_data
    mailio.SmtpClient.Send.send_mail mailio.SmtpClient.Send.send_rcpt
    mailio.SmtpClient.Send.send_rcpts mailio.SmtpClient.Session.ensure
    mailio.Wire.ensure_no_crlf_or_nul mailio.Wire.contains_crlf_or_nul mailio.Base.Bytes.equal
    mailio.Base.Bytes.find mailio.Smtp.is_positive_completion mailio.Smtp.is_positive_intermediate
chunks_run = refl

pipeline_run :
    (send_pipelined_impl note plain_envelope ready).0
    ≡ ok (record { status = 250; lines = codes "done" ∷ [] })
unfolding send_pipelined_impl mailio.SmtpClient.Send.write_rcpts mailio.SmtpClient.Send.write_rcpt
    mailio.SmtpClient.Send.read_rcpts mailio.Net.after_read mailio.Net.ends_with_crlf
    mailio.Net.extract mailio.Net.extract_found mailio.Net.line_length mailio.Net.normalize_line
    mailio.Net.not_established mailio.Net.read_found mailio.Net.read_line mailio.Net.read_more
    mailio.Net.write mailio.Net.write_line mailio.Net.write_raw mailio.Net.available
    mailio.Net.pending mailio.Net.take_outcome mailio.Net.async_write
    mailio.SmtpClient.require_greeting mailio.SmtpClient.has_greeting
    mailio.SmtpClient.is_past_greeting mailio.SmtpClient.require_ehlo
    mailio.SmtpClient.has_helo_or_ehlo mailio.SmtpClient.is_past_ehlo mailio.SmtpClient.command_impl
    mailio.SmtpClient.expect_completion mailio.SmtpClient.extend_reply
    mailio.SmtpClient.parse_reply_line mailio.SmtpClient.read_reply_impl
    mailio.SmtpClient.read_reply_loop mailio.SmtpClient.reply_code mailio.SmtpClient.supported
    mailio.SmtpClient.take_parsed mailio.SmtpClient.take_reply_line
    mailio.SmtpClient.Addresses.mail_sender mailio.SmtpClient.Addresses.resolve_sender
    mailio.SmtpClient.Addresses.mail_recipients mailio.SmtpClient.Addresses.resolve_recipients
    mailio.SmtpClient.Addresses.dedup mailio.SmtpClient.Addresses.dedup_loop
    mailio.SmtpClient.Addresses.append_addresses mailio.SmtpClient.Addresses.append_groups
    mailio.SmtpClient.Addresses.append_mailboxes
    mailio.SmtpClient.Addresses.append_smtp_data_terminator
    mailio.SmtpClient.Addresses.collect_recipients mailio.SmtpClient.Addresses.is_seen
    mailio.SmtpClient.Addresses.mail_data_info mailio.SmtpClient.Addresses.prepare_mail_data
    mailio.SmtpClient.Addresses.rcpt_command mailio.SmtpClient.Addresses.to_lower_ascii
    mailio.SmtpClient.Send.require_session mailio.SmtpClient.Send.begin_data
    mailio.SmtpClient.Send.end_data mailio.SmtpClient.Send.send_data
    mailio.SmtpClient.Send.send_mail mailio.SmtpClient.Send.send_rcpt
    mailio.SmtpClient.Send.send_rcpts mailio.SmtpClient.Session.ensure
    mailio.Wire.ensure_no_crlf_or_nul mailio.Wire.contains_crlf_or_nul mailio.Base.Bytes.equal
    mailio.Base.Bytes.find mailio.Smtp.is_positive_completion mailio.Smtp.is_positive_intermediate
pipeline_run = refl

-- A call that has returned, by its value and by the state that it leaves.
ends_at :
    {A : Type 0} (outcome : Result Exception A × Client) {a : A}
    → outcome.0 ≡ ok a
    → outcome ≡ (ok a, outcome.1)
ends_at outcome h = ap (λ r. (r, outcome.1)) h

send_impl-wire_example :
    wire_of ((send_impl note plain_envelope ready).1)
    ≡ wire_of ready ++ transaction_of note plain_envelope (codes "hi\r\n") ready
send_impl-wire_example =
    send_impl-wire note plain_envelope (codes "hi\r\n") refl ready
      ((send_impl note plain_envelope ready).1) _
      (ends_at (send_impl note plain_envelope ready) sent_run)

sends-wire_example :
    (wire_of ((send_with_progress_impl note plain_envelope ready).1)
      ≡ wire_of ((send_impl note plain_envelope ready).1))
    × (wire_of ((send_pipelined_impl note plain_envelope ready).1)
        ≡ wire_of ((send_impl note plain_envelope ready).1))
sends-wire_example =
    sends-wire note plain_envelope (codes "hi\r\n") ready ((send_impl note plain_envelope ready).1)
      ((send_with_progress_impl note plain_envelope ready).1)
      ((send_pipelined_impl note plain_envelope ready).1) _ _ _ refl
      (ends_at (send_impl note plain_envelope ready) sent_run)
      (ends_at (send_with_progress_impl note plain_envelope ready) chunks_run)
      (ends_at (send_pipelined_impl note plain_envelope ready) pipeline_run)

abbrev upgrading : Client
upgrading = record (at ehlo_done (serves (codes "220 go" ∷ []))) { capabilities_known = false }

tls_run : (start_tls_impl [] upgrading).0 ≡ ok tt
unfolding start_tls_impl mailio.Net.start_tls mailio.Net.handshake
    mailio.SmtpClient.Session.is_tls_state mailio.SmtpClient.Session.the_dialog
    mailio.SmtpClient.Session.resolve_sni mailio.Net.after_read mailio.Net.ends_with_crlf
    mailio.Net.extract mailio.Net.extract_found mailio.Net.line_length mailio.Net.normalize_line
    mailio.Net.not_established mailio.Net.read_found mailio.Net.read_line mailio.Net.read_more
    mailio.Net.write mailio.Net.write_line mailio.Net.write_raw mailio.Net.available
    mailio.Net.pending mailio.Net.take_outcome mailio.Net.async_write
    mailio.SmtpClient.require_greeting mailio.SmtpClient.has_greeting
    mailio.SmtpClient.is_past_greeting mailio.SmtpClient.require_ehlo
    mailio.SmtpClient.has_helo_or_ehlo mailio.SmtpClient.is_past_ehlo mailio.SmtpClient.command_impl
    mailio.SmtpClient.expect_completion mailio.SmtpClient.extend_reply
    mailio.SmtpClient.parse_reply_line mailio.SmtpClient.read_reply_impl
    mailio.SmtpClient.read_reply_loop mailio.SmtpClient.reply_code mailio.SmtpClient.supported
    mailio.SmtpClient.take_parsed mailio.SmtpClient.take_reply_line
    mailio.SmtpClient.Addresses.mail_sender mailio.SmtpClient.Addresses.resolve_sender
    mailio.SmtpClient.Addresses.mail_recipients mailio.SmtpClient.Addresses.resolve_recipients
    mailio.SmtpClient.Addresses.dedup mailio.SmtpClient.Addresses.dedup_loop
    mailio.SmtpClient.Addresses.append_addresses mailio.SmtpClient.Addresses.append_groups
    mailio.SmtpClient.Addresses.append_mailboxes
    mailio.SmtpClient.Addresses.append_smtp_data_terminator
    mailio.SmtpClient.Addresses.collect_recipients mailio.SmtpClient.Addresses.is_seen
    mailio.SmtpClient.Addresses.mail_data_info mailio.SmtpClient.Addresses.prepare_mail_data
    mailio.SmtpClient.Addresses.rcpt_command mailio.SmtpClient.Addresses.to_lower_ascii
    mailio.SmtpClient.Send.require_session mailio.SmtpClient.Send.begin_data
    mailio.SmtpClient.Send.end_data mailio.SmtpClient.Send.send_data
    mailio.SmtpClient.Send.send_mail mailio.SmtpClient.Send.send_rcpt
    mailio.SmtpClient.Send.send_rcpts mailio.SmtpClient.Session.ensure
    mailio.Wire.ensure_no_crlf_or_nul mailio.Wire.contains_crlf_or_nul mailio.Base.Bytes.equal
    mailio.Base.Bytes.find mailio.Smtp.is_positive_completion mailio.Smtp.is_positive_intermediate
tls_run = refl

start_tls_impl-IsFresh_example : IsFresh ((start_tls_impl [] upgrading).1)
start_tls_impl-IsFresh_example =
    start_tls_impl-IsFresh [] upgrading ((start_tls_impl [] upgrading).1)
      (ends_at (start_tls_impl [] upgrading) tls_run)

three_run :
    (send_chunks 3 0 3 (codes "abc") ready).0
    ≡ ok (record { bytes_transferred = 3; total_bytes = 3 } ∷ [])
unfolding send_chunks mailio.Net.write mailio.Net.write_raw mailio.Net.take_outcome
    mailio.Net.async_write mailio.Net.not_established
three_run = refl

send_chunks-IsRising_example : IsRising 0 3 (record { bytes_transferred = 3; total_bytes = 3 } ∷ [])
send_chunks-IsRising_example =
    send_chunks-IsRising 3 0 3 (codes "abc") ready ((send_chunks 3 0 3 (codes "abc") ready).1) _
      refl (ends_at (send_chunks 3 0 3 (codes "abc") ready) three_run)
