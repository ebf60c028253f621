-- ===== src/Net.antt =====
-- include/mailxx/net/dialog.hpp: lines over a stream. The stream is Asio's: what its operations
-- complete with is part of the state, one outcome for each call, and what is handed to it is
-- written down. The read buffer, the limit on lines and the line ends are the code's.
pub mod Lines
pub mod Sent
pub mod Buffered
pub mod Exact
mod Tests
use mathlib.Core.Option
use mailio.Base.{
  ℕ, zero, suc, ◌+◌, ◌-◌, ◌*◌, Bool, true, false, ◌&&◌, Option, none, some, List, [], ◌∷◌, ◌++◌,
  ltb, leb, ◌==◌, if◌then◌else◌,
}
use mailio.Base.Bytes.{Bytes, codes, length, take, drop, get_or, back_or, is_empty, find, equal}
use mailio.Base.Result.{Result, ok, err}
use mailio.Base.Action.{
  Exception, error, system_error, Action, pure, throw, lift, modify, ◌>>=◌, ◌>>◌,
}

abbrev pub default_max_line_length : ℕ
default_max_line_length = 8192

abbrev pub max_allowed_line_length : ℕ
max_allowed_line_length = 1024 * 1024

abbrev pub min : ℕ → ℕ → ℕ
min a b = if ltb b a then b else a

-- `stream_` by whether TLS is on, `read_buffer_` and `max_line_length_`.
pub record Dialog : Type 0 where
  pub is_tls : Bool
  pub read_buffer : Bytes
  pub max_line_length : ℕ

-- The constructor.
unfoldable pub make_dialog : Bool → ℕ → Dialog
make_dialog is_tls max_line_length = record {
  is_tls = is_tls;
  read_buffer = [];
  max_line_length = min max_line_length max_allowed_line_length;
}

-- What is handed to the stream: the bytes of a line by `write_line`, bytes by `write_raw`, and a TLS
-- handshake with the server name it asks for.
pub data Written : Type 0 where
  line_of : Bytes → Written
  raw : Bytes → Written
  hello : Bytes → Written

-- What lies outside: how the operations of Asio to come complete, the read ones with the bytes that
-- they add to the buffer; `none` is success and `some` has the text of an error. When there are no
-- outcomes left, the peer has closed. `sent` is what has been written, the last first.
pub record Network : Type 0 where
  pub reads : List (Bytes × Option Bytes)
  pub writes : List (Option Bytes)
  pub handshakes : List (Option Bytes)
  pub connects : List (Option Bytes)
  pub host_name : Option Bytes
  pub sent : List Written

-- The member `dialog_` of a client.
pub record Link : Type 0 where
  pub dialog : Option Dialog
  pub network : Network

abbrev pub end_of_file : Exception
end_of_file = system_error (codes "End of file")

unfoldable pub take_outcome : List (Option Bytes) → Option Bytes × List (Option Bytes)
take_outcome [] = (some (codes "End of file"), [])
take_outcome (o ∷ os) = (o, os)

unfoldable pub ends_with_crlf : Bytes → Bool
ends_with_crlf line =
    leb 2 (length line) && equal (drop (length line - 2) line) (b'\r' ∷ b'\n' ∷ [])

unfoldable pub normalize_line : Bytes → Bytes
normalize_line line =
    if ends_with_crlf line
    then line
    else if back_or line 0 == b'\n'
    then (take (length line - 1) line ++ b'\r' ∷ b'\n' ∷ [])
    else if back_or line 0 == b'\r'
    then (line ++ b'\n' ∷ [])
    else (line ++ b'\r' ∷ b'\n' ∷ [])

abbrev pub outcome_of : Option Bytes → Result Exception (Unit {0})
outcome_of none = ok tt
outcome_of (some text) = err (system_error text)

-- `async_write`: the bytes are handed over, and the call completes with the next outcome.
unfoldable pub async_write : Written → Network → Result Exception (Unit {0}) × Network
async_write payload net =
    let (outcome, later) = take_outcome net.writes in
    (outcome_of outcome, record net { writes = later; sent = payload ∷ net.sent })

-- `async_resolve` or `async_connect`.
unfoldable pub async_connect : Action Link (Unit {0})
async_connect link =
    let (outcome, later) = take_outcome link.network.connects in
    (outcome_of outcome, record link { network = record link.network { connects = later } })

unfoldable pub handshake : Bytes → Action Link (Unit {0})
handshake sni link =
    let (outcome, later) = take_outcome link.network.handshakes in
    let sent = hello sni ∷ link.network.sent in
    (
      outcome_of outcome,
      record link { network = record link.network { handshakes = later; sent = sent } },
    )

-- `upgradable_stream::start_tls`, which leaves a stream with TLS as it is.
unfoldable pub start_tls : Bool → Bytes → Action Link (Unit {0})
start_tls is_tls sni = if is_tls then pure tt else handshake sni

-- `dialog_.emplace`: another dialog, with an empty buffer.
unfoldable pub emplace : Dialog → Link → Link
emplace d link = record link { dialog = some d }

-- `dialog().…`, which throws when there is no dialog.
unfoldable pub not_established : Exception
not_established = error (codes "Connection is not established.") []

unfoldable pub write : Written → Action Link (Unit {0})
write payload link = elim link.dialog [
  | none ↦ (err not_established, link)
  | some d ↦
      (let (outcome, net) = async_write payload link.network in
        (outcome, record link { network = net }))
]

unfoldable pub write_line : Bytes → Action Link (Unit {0})
write_line line = write (line_of (normalize_line line))

unfoldable pub write_raw : Bytes → Action Link (Unit {0})
write_raw buffers = write (raw buffers)

-- `(pos > 0 && read_buffer_[pos - 1] == '\r') ? pos - 1 : pos`
unfoldable pub line_length : Dialog → ℕ → ℕ
line_length d zero = zero
line_length d (suc before) = if get_or d.read_buffer before 0 == b'\r' then before else suc before

-- The line that ends at a place of the buffer.
unfoldable pub extract : Dialog → ℕ → Result Exception Bytes × Dialog
extract d pos =
    if ltb d.max_line_length (line_length d pos)
    then (err (system_error (codes "message_size")), d)
    else (
      ok (take (line_length d pos) d.read_buffer),
      record d { read_buffer = drop (suc pos) d.read_buffer },
    )

-- The line that ends at the place found, if any.
unfoldable pub extract_found : Dialog → Option ℕ → Result Exception Bytes × Dialog
extract_found d none = (err (system_error (codes "invalid_argument")), d)
extract_found d (some pos) = extract d pos

-- `async_read_until` has completed: the buffer has grown.
unfoldable pub after_read : Option Bytes → Dialog → Result Exception Bytes × Dialog
after_read (some text) d = (err (system_error text), d)
after_read none d = extract_found d (find b'\n' d.read_buffer)

abbrev pub in_link : Network → Result Exception Bytes × Dialog → Result Exception Bytes × Link
in_link net (outcome, d) = (outcome, record { dialog = some d; network = net })

-- The buffer holds no line: wait for the stream.
unfoldable pub read_more :
    Dialog → Network → List (Bytes × Option Bytes) → Result Exception Bytes × Link
read_more d net [] = (err end_of_file, record { dialog = some d; network = net })
read_more d net ((bytes, outcome) ∷ later) =
    in_link (record net { reads = later })
      (after_read outcome (record d { read_buffer = d.read_buffer ++ bytes }))

unfoldable pub read_found : Dialog → Network → Option ℕ → Result Exception Bytes × Link
read_found d net none = read_more d net net.reads
read_found d net (some pos) = in_link net (extract d pos)

unfoldable pub read_line : Action Link Bytes
read_line link = elim link.dialog [
  | none ↦ (err not_established, link)
  | some d ↦ read_found d link.network (find b'\n' d.read_buffer)
]

-- `async_read` has completed: the buffer has grown.
unfoldable pub after_exact : Option Bytes → ℕ → Dialog → Result Exception Bytes × Dialog
after_exact (some text) n d = (err (system_error text), d)
after_exact none n d =
    if ltb (length d.read_buffer) n
    then (err (system_error (codes "operation_aborted")), d)
    else (ok (take n d.read_buffer), record d { read_buffer = drop n d.read_buffer })

-- The buffer holds too little: wait for the stream.
unfoldable pub read_rest :
    ℕ → Dialog → Network → List (Bytes × Option Bytes) → Result Exception Bytes × Link
read_rest n d net [] = (err end_of_file, record { dialog = some d; network = net })
read_rest n d net ((bytes, outcome) ∷ later) =
    in_link (record net { reads = later })
      (after_exact outcome n (record d { read_buffer = d.read_buffer ++ bytes }))

unfoldable pub read_exactly : ℕ → Action Link Bytes
read_exactly n link = elim link.dialog [
  | none ↦ (err not_established, link)
  | some d ↦
      if n == 0
      then (ok [], link)
      else if leb n (length d.read_buffer)
      then in_link link.network
          (ok (take n d.read_buffer), record d { read_buffer = drop n d.read_buffer })
      else read_rest n d link.network link.network.reads
]

-- The bytes that are still to be read, in the buffer and from the stream.
unfoldable pub pending : List (Bytes × Option Bytes) → ℕ
pending [] = 0
pending ((bytes, outcome) ∷ later) = length bytes + pending later

unfoldable pub available : Link → ℕ
available link =
    elim link.dialog [ none ↦ 0 | some d ↦ length d.read_buffer ] + pending link.network.reads
