-- ===== src/Lib.antt =====
-- mailxx: a C++ library for SMTP, IMAP and POP3 with MIME messages (include/mailxx).
--
-- The parts modelled here are those that carry decisions of their own: the validators of header
-- fields, the codecs of message bodies, the commands that clients send and the responses that
-- they read, the redaction of what is logged, the lock that serializes a client's operations,
-- the SMTP, POP3 and IMAP clients over the line dialog, and the pool of connections. A client
-- builds its commands from the checks and append functions of detail/, quotes mailbox names
-- through imap/types.hpp and imap/utf7.hpp, logs lines through detail/redact.hpp, and is lent
-- out by pool/connection_pool.hpp.
--
-- Files, by the part of include/mailxx that they model:
--   Ascii       detail/ascii.hpp. `Ascii.Headers` and `Ascii.MessageId` hold what the validators
--               of the same names are compared with.
--   Codec       codec/codec.hpp (`Codec.Text` has `escape_string` and the like),
--               codec/base64.hpp (`Codec.Base64`), codec/percent.hpp (`Codec.Percent`) and
--               codec/bit7.hpp (`Codec.Bit7`).
--   Wire        detail/sanitize.hpp, detail/append.hpp, and `parse_uint32` of imap/types.hpp.
--   Imap        imap/types.hpp (`Imap.Astring`: `to_astring`, `to_mailbox`; `Imap.Append`:
--               `build_append_command`; `Imap.Responses`: the `parse_...` functions) and
--               imap/utf7.hpp (`Imap.Utf7`).
--   Smtp        smtp/types.hpp.
--   Net         net/dialog.hpp: lines over a stream, its buffer and its limit.
--   Sasl        detail/sasl.hpp and detail/auth_policy.hpp.
--   SmtpClient  smtp/client.hpp: replies and commands in the root, `Session` (connecting, EHLO,
--               STARTTLS), `Auth`, `Addresses` (sender, recipients, data), `Send` and
--               `Extended`; `Reconnect` is `send_with_reconnection`; `Calls` has the public
--               members and the clients that they lead to. The others are proofs: `Clean` about
--               what is written, `Replies` about the end of reading, `Delivery` about the bytes
--               of a transaction, `Gates` about TLS.
--   Pop3        pop3/client.hpp and pop3/types.hpp: `Session`, `Auth`, `Mailbox` and
--               `Reconnect`, with the public members in `Calls`. The other modules are proofs:
--               `Steps` and `Kept` about the changes that calls are made of, `Retries` about
--               reconnections, `Multiline` about responses of many lines.
--   ImapClient  imap/client.hpp: responses and commands in the root, `Capability`, `Session`
--               (connecting, STARTTLS, authentication, IDLE) and `Mailbox`, with the public
--               members in `Calls`. `Steps` is proofs about the changes that calls are made of,
--               `Append` about what an APPEND writes, `Answers` about what a command makes of
--               its answer.
--   Redact      detail/redact.hpp.
--   AsyncMutex  detail/async_mutex.hpp, as a step relation.
--   Pool        pool/connection_pool.hpp and pool/pool_config.hpp: the functions on one pool in
--               `Pool`, the steps of the tasks that share it in `Pool.World`.
--   Base        byte strings, exceptions as values, Boolean tests, and bits as arithmetic.
--
-- Conventions. A function keeps the name it has in the source; a loop of the source is a
-- function named after it. A `char` is a number below 256 (`IsByte`, a hypothesis only where it
-- matters), a string a list of them; `std::size_t` counters are numbers without overflow. An
-- exception is an `err`; an out parameter is handed back beside the result. What a factory, a
-- validator, the clock, `boost::to_upper_copy` or `std::string::reserve` of an expected size
-- answers is an argument.
--
-- The network. A method of a client is a function from a client to its outcome and to the client
-- it leaves, also when it throws (`Base.Action`). What the operations of Asio complete with, one
-- outcome for each call, is a list inside the client (`Net.Network`), and so is all that is
-- handed to the stream; a time-out or a lost connection is an outcome with an error, and so is
-- what an operation completes with on a stream that was moved out of the dialog for a handshake
-- that has thrown. A message is what the client asks of it (`SmtpClient.Addresses.Message`),
-- `std::stoull` a parameter.
--
-- Fuel. `Redact.split_loop`, `Imap.Utf7.encode_loop`, `Imap.Utf7.decode_loop` and
-- `Imap.Responses.search_loop` run on the length of their text, since each round takes at least
-- one character. `Pool.Acquire.acquire_rounds` runs for a number of rounds that is an argument,
-- its `poll_loop` on one test for each ten milliseconds of the timeout, and two.
-- `SmtpClient.read_reply_loop` runs on the number of bytes still to be read, since each line
-- takes its line end, as do `Pop3.read_lines_loop` and `ImapClient.lines_loop`, and
-- `SmtpClient.Send.send_chunks` on the length of the data. `Pop3.Reconnect.retr_loop` and
-- `SmtpClient.Reconnect.send_loop` run for a number of rounds that is an argument, and more
-- rounds than the policy allows attempts are enough; a policy without a limit may need any
-- number. The loops of `ImapClient.Capability` over tokens and `attributes_loop` run on the
-- length of their text.
--
-- Concurrency. The mutex is modelled at the granularity of its atomic accesses and of its
-- guarded queue operations, so tasks on several threads interleave between them. The pool is
-- modelled on an executor of one thread, with one step for each stretch of code between two
-- suspension points. `Pool.Acquire` follows one task: what the others do while it sleeps is an
-- argument there, and they do nothing at its other suspension points.
--
-- Not modelled: MIME messages and mailboxes (mime/), the other codecs (bit8, binary,
-- quoted_printable, q_codec), TLS and sockets (OpenSSL and Asio coroutines), the SMTP and IMAP
-- pools, the reconnection helper and its delays, the rate limiter and timeouts (timers and
-- floating point), logging. Log lines inside modelled functions are left out.
pub mod Base
pub mod Ascii
pub mod Codec
pub mod Net
pub mod SmtpClient
pub mod Sasl
pub mod Smtp
pub mod Wire
pub mod Imap
pub mod ImapClient
pub mod Pop3
pub mod Redact
pub mod AsyncMutex
pub mod Pool
