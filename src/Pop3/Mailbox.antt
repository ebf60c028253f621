-- ===== src/Pop3/Mailbox.antt =====
-- pop3/client.hpp: the commands on a mailbox. Numbers are read from a response by `operator>>` of
-- the C++ library, and `std::map` is a list in the order of its keys.
use mailio.Base.{
  ℕ, ◌+◌, ◌-◌, ◌%◌, ◌^◌, Bool, not, ◌&&◌, ◌||◌, Option, none, some, List, [], ◌∷◌, ◌++◌, ltb, leb,
  ◌==◌, within, if◌then◌else◌,
}
use mailio.Base.Bytes.{Bytes, codes, length, drop, is_empty, front_or}
use mailio.Base.Action.{error, Action, pure, throw, lift, modify, ◌>>=◌, ◌>>◌}
use mailio.Wire.{append_sv, append_space, append_uint, digits_value}
use mailio.Net.{outcome_of}
use mailio.Pop3.{
  Client, greeting, transaction, update, ensure_state, ensure_state_at_least, command, read_lines,
}

-- `isspace` in the C locale.
unfoldable pub is_space : ℕ → Bool
is_space ch = ch == b' ' || within 9 13 ch

pub skip_space : Bytes → Bytes
skip_space [] = []
skip_space (ch ∷ s) = let rest = skip_space s in if is_space ch then rest else ch ∷ s

-- The longest prefix of characters that pass a test, and the rest.
pub span : (ℕ → Bool) → Bytes → Bytes × Bytes
span p [] = ([], [])
span p (ch ∷ s) = let (taken, rest) = span p s in if p ch then (ch ∷ taken, rest) else ([], ch ∷ s)

-- `iss >> n` for an unsigned type of `modulus` values, which takes a sign and wraps a negative
-- number.
pub extract_unsigned : ℕ → Bytes → Option (ℕ × Bytes)
extract_unsigned modulus s =
    let trimmed = skip_space s in
    let sign = front_or trimmed 0 in
    let unsigned = if sign == b'-' || sign == b'+' then drop 1 trimmed else trimmed in
    let (digits, rest) = span (within b'0' b'9') unsigned in
    let value = digits_value 0 digits in
    if is_empty digits || leb modulus value
    then none
    else some (if sign == b'-' then (modulus - value) % modulus else value, rest)

-- `iss >> s` for a string.
pub extract_word : Bytes → Option (Bytes × Bytes)
extract_word s =
    let (word, rest) = span (λ ch. not (is_space ch)) (skip_space s) in
    if is_empty word then none else some (word, rest)

abbrev pub unsigned_int : ℕ
unsigned_int = 2 ^ 32

abbrev pub unsigned_long : ℕ
unsigned_long = 2 ^ 64

-- `iss >> num >> size`
pub extract_sizes : Bytes → Option (ℕ × ℕ)
extract_sizes msg = elim (extract_unsigned unsigned_int msg) [
  | none ↦ none
  | some (num, rest) ↦ elim (extract_unsigned unsigned_long rest) [
    | none ↦ none
    | some (size, _) ↦ some (num, size)
  ]
]

-- `iss >> num >> uidl`
pub extract_uidl : Bytes → Option (ℕ × Bytes)
extract_uidl msg = elim (extract_unsigned unsigned_int msg) [
  | none ↦ none
  | some (num, rest) ↦ elim (extract_word rest) [ none ↦ none | some (uidl, _) ↦ some (num, uidl) ]
]

-- `map[key] = value`
pub assign : {V : Type 0} → ℕ → V → List (ℕ × V) → List (ℕ × V)
assign key value [] = (key, value) ∷ []
assign key value ((k, v) ∷ entries) =
    let rest = assign key value entries in
    if ltb key k
    then (key, value) ∷ (k, v) ∷ entries
    else if key == k
    then (k, value) ∷ entries
    else (k, v) ∷ rest

-- An entry of a listing is noted where it could be read.
pub note_entry : {V : Type 0} → List (ℕ × V) → Option (ℕ × V) → List (ℕ × V)
note_entry entries none = entries
note_entry entries (some (num, value)) = assign num value entries

pub add_size : List (ℕ × ℕ) → Bytes → List (ℕ × ℕ)
add_size msg_list line = note_entry msg_list (extract_sizes line)

pub add_uidl : List (ℕ × Bytes) → Bytes → List (ℕ × Bytes)
add_uidl uidl_list line = note_entry uidl_list (extract_uidl line)

-- A command with a number.
unfoldable pub numbered : Bytes → ℕ → Bytes
numbered word message_no = append_uint (append_sv [] word) message_no

unfoldable pub stat_impl : Action Client (ℕ × ℕ)
stat_impl = do
  ensure_state transaction (codes "STAT")
  msg ← command (codes "STAT") (codes "Reading statistics failure.")
  elim (extract_sizes msg) [
    | none ↦ throw (error (codes "Parser failure.") msg)
    | some stat ↦ pure stat
  ]

unfoldable pub list_all_impl : Action Client (List (ℕ × ℕ))
list_all_impl = do
  ensure_state transaction (codes "LIST")
  command (codes "LIST") (codes "Listing all messages failure.")
  read_lines add_size []

unfoldable pub list_impl : ℕ → Action Client (List (ℕ × ℕ))
list_impl message_no = do
  ensure_state transaction (codes "LIST")
  msg ← command (numbered (codes "LIST ") message_no) (codes "Listing message failure.")
  pure (add_size [] msg)

unfoldable pub uidl_impl : ℕ → Action Client (List (ℕ × Bytes))
uidl_impl message_no = do
  ensure_state transaction (codes "UIDL")
  let cmd = if message_no == 0 then codes "UIDL" else numbered (codes "UIDL ") message_no
  msg ← command cmd (codes "Unique ID listing failure.")
  if message_no == 0 then read_lines add_uidl [] else pure (add_uidl [] msg)

-- `msg_str += line + "\r\n"`
unfoldable pub add_line : Bytes → Bytes → Bytes
add_line msg_str line = msg_str ++ (line ++ b'\r' ∷ b'\n' ∷ [])

unfoldable pub retr_impl : ℕ → Action Client Bytes
retr_impl message_no = do
  ensure_state transaction (codes "RETR")
  command (numbered (codes "RETR ") message_no) (codes "Fetching message failure.")
  read_lines add_line []

pub record ProgressInfo : Type 0 where
  pub bytes_transferred : ℕ
  pub total_bytes : ℕ

-- The variables of `retr_with_progress_impl`, with the reports made so far, the last first.
pub record Download : Type 0 where
  pub msg_str : Bytes
  pub bytes_received : ℕ
  pub last_callback_bytes : ℕ
  pub reports : List ProgressInfo

abbrev pub callback_interval : ℕ
callback_interval = 8192

-- A line more, and a report where there is a callback and the interval has passed.
unfoldable pub add_download : Bool → ℕ → Download → Bytes → Download
add_download progress expected_size d line =
    let bytes_received = d.bytes_received + (length line + 2) in
    let info : ProgressInfo = record {
      bytes_transferred = bytes_received;
      total_bytes = expected_size;
    } in
    if progress && leb callback_interval (bytes_received - d.last_callback_bytes)
    then record {
      msg_str = add_line d.msg_str line;
      bytes_received = bytes_received;
      last_callback_bytes = bytes_received;
      reports = info ∷ d.reports;
    }
    else record d { msg_str = add_line d.msg_str line; bytes_received = bytes_received }

-- Without the report at the end.
unfoldable pub begin_download : Bool → ℕ → Download
begin_download progress expected_size = record {
  msg_str = [];
  bytes_received = 0;
  last_callback_bytes = 0;
  reports =
      if progress then record { bytes_transferred = 0; total_bytes = expected_size } ∷ [] else [];
}

unfoldable pub end_download : Bool → Download → Bytes × List ProgressInfo
end_download progress d =
    let info : ProgressInfo = record {
      bytes_transferred = d.bytes_received;
      total_bytes = d.bytes_received;
    } in
    (d.msg_str, if progress then info ∷ d.reports else d.reports)

-- The room that is asked for a message.
unfoldable pub reserved : ℕ → ℕ
reserved expected_size = if ltb 0 expected_size then expected_size else 8192

-- `progress` is whether there is a callback. `reserve` is `std::string::reserve` on an empty string:
-- nothing, or what the exception says that it throws, `std::length_error` or `std::bad_alloc`.
unfoldable pub retr_with_progress_impl :
    (ℕ → Option Bytes) → ℕ → ℕ → Bool → Action Client (Bytes × List ProgressInfo)
retr_with_progress_impl reserve message_no expected_size progress = do
  ensure_state transaction (codes "RETR")
  command (numbered (codes "RETR ") message_no) (codes "Fetching message failure.")
  lift (outcome_of (reserve (reserved expected_size)))
  d ← read_lines (add_download progress expected_size) (begin_download progress expected_size)
  pure (end_download progress d)

unfoldable pub top_command : ℕ → ℕ → Bytes
top_command message_no lines = append_uint (append_space (numbered (codes "TOP ") message_no)) lines

unfoldable pub top_impl : ℕ → ℕ → Action Client Bytes
top_impl message_no lines = do
  ensure_state transaction (codes "TOP")
  command (top_command message_no lines) (codes "Fetching top lines failure.")
  read_lines add_line []

unfoldable pub dele_impl : ℕ → Action Client (Unit {0})
dele_impl message_no = do
  ensure_state transaction (codes "DELE")
  command (numbered (codes "DELE ") message_no) (codes "Removing message failure.")
  pure tt

unfoldable pub rset_impl : Action Client (Unit {0})
rset_impl = do
  ensure_state transaction (codes "RSET")
  command (codes "RSET") (codes "Reset failure.")
  pure tt

unfoldable pub noop_impl : Action Client (Unit {0})
noop_impl = do
  ensure_state transaction (codes "NOOP")
  command (codes "NOOP") (codes "Noop failure.")
  pure tt

unfoldable pub ended : Client → Client
ended c = record c { state = update }

unfoldable pub quit_impl : Action Client (Unit {0})
quit_impl = do
  ensure_state_at_least greeting (codes "QUIT")
  command (codes "QUIT") (codes "Quit failure.")
  modify ended
