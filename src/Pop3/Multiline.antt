-- ===== src/Pop3/Multiline.antt =====
-- pop3/client.hpp: what the multi-line commands make of a response.
use mailio.Base.{
  ℕ, zero, suc, ◌+◌, ◌≤◌, ◌<◌, ◌≡◌, refl, sym, ap, ◌∙◌, Bool, true, false, Option, none, List, [],
  ◌∷◌, ◌++◌, arith, ◌==◌, if◌then◌else◌,
}
use mailio.Base.Bytes.{Bytes, All, codes, length, length-append, contains, equal, front_or, find}
use mathlib.Core.List.{append-nil, append_assoc}
use mailio.Base.Result.{Result, ok, err}
use mailio.Base.Action.{Exception, Action, continue, pure, lift, ◌>>=◌}
use mailio.Net.{
  outcome_of, async_write, take_outcome, line_of, normalize_line, Network, available, read_line,
  write, write_line,
}
use mailio.Net.Buffered.{holding, crlf, read_line-crlf}
use mailio.Pop3.{
  Client, transaction, on_link, unstuff, end_of_data, read_lines_loop, read_lines, command,
  ensure_state, rank, read_ok_response, send_command, expect_ok, parse_status, split_status, is_ok,
}
use mailio.Pop3.Mailbox.{
  add_line, retr_impl, retr_with_progress_impl, Download, add_download, begin_download,
  end_download, numbered, reserved,
}

-- RFC 1939: the server puts a dot in front of a line that begins with one.
pub stuff : Bytes → Bytes
stuff line = if front_or line 0 == b'.' then b'.' ∷ line else line

-- The lines of a response as the server writes them, up to the lone dot.
pub on_wire : List Bytes → Bytes → Bytes
on_wire [] rest = b'.' ∷ b'\r' ∷ b'\n' ∷ rest
on_wire (line ∷ lines) rest = stuff line ++ b'\r' ∷ b'\n' ∷ on_wire lines rest

-- A line that fits the limit once it is stuffed.
abbrev pub IsLine : ℕ → Bytes → Type 0
IsLine limit line = (contains b'\n' line ≡ false) × (length line < limit)

pub fold : {A : Type 0} → (A → Bytes → A) → A → List Bytes → A
fold add acc [] = acc
fold add acc (line ∷ lines) = fold add (add acc line) lines

unstuff-stuff : (line : Bytes) → unstuff (stuff line) ≡ line
unfolding unstuff stuff
unstuff-stuff [] = refl
unstuff-stuff (c ∷ line) = ground arith

stuff-ne-end : (line : Bytes) → equal (stuff line) end_of_data ≡ false
unfolding stuff equal
stuff-ne-end [] = refl
stuff-ne-end (c ∷ []) = ground arith
stuff-ne-end (c ∷ d ∷ line) = ground arith

stuff-IsLine :
    (limit : ℕ) (line : Bytes)
    → IsLine limit line
    → (contains b'\n' (stuff line) ≡ false) × (length (stuff line) ≤ limit)
unfolding stuff
stuff-IsLine limit [] h = (refl, omega arith)
stuff-IsLine limit (c ∷ line) (h, k) = (ground (arith, h), ground (arith, k))

-- A client over such a link.
abbrev pub serving : Client → Bool → ℕ → Network → Bytes → Client
serving c is_tls limit net buffer = record c { link = holding is_tls limit net buffer }

length-on_wire : (lines : List Bytes) (rest : Bytes) → length lines < length (on_wire lines rest)
unfolding on_wire
length-on_wire [] rest = omega arith
length-on_wire (line ∷ lines) rest = omega (
  arith,
  length-append (stuff line) (b'\r' ∷ b'\n' ∷ on_wire lines rest),
  length-on_wire lines rest,
)

module _ {A : Type 0} (add : A → Bytes → A) (c : Client) (is_tls : Bool) (limit : ℕ)
    (net : Network) where
  loop-serving :
      (lines : List Bytes) (rest : Bytes) (fuel : ℕ) (acc : A)
      → length lines < fuel
      → 0 < limit
      → All (IsLine limit) lines
      → read_lines_loop add fuel acc (serving c is_tls limit net (on_wire lines rest))
        ≡ (ok (fold add acc lines), serving c is_tls limit net rest)
  unfolding read_lines_loop on_wire fold equal
  loop-serving lines rest zero acc h room k = absurd (omega (arith, h))
  loop-serving [] rest (suc fuel) acc h room k =
      rw (read_line-crlf is_tls limit net end_of_data rest refl (omega (arith, room)))
  loop-serving (line ∷ lines) rest (suc fuel) acc h room (k, ks) =
      let (plain, short) = stuff-IsLine limit line k in
      rw
        (
          read_line-crlf is_tls limit net (stuff line) (on_wire lines rest) plain short,
          stuff-ne-end line,
          unstuff-stuff line,
        )
        (loop-serving lines rest fuel (add acc line) (omega (arith, h)) room ks)

  pub read_lines-serving :
      (lines : List Bytes) (rest : Bytes) (acc : A)
      → 0 < limit
      → All (IsLine limit) lines
      → read_lines add acc (serving c is_tls limit net (on_wire lines rest))
        ≡ (ok (fold add acc lines), serving c is_tls limit net rest)
  unfolding read_lines available
  read_lines-serving lines rest acc room h =
      loop-serving lines rest _ acc (omega (arith, length-on_wire lines rest)) room h

-- The lines of a message, each with its end.
pub joined : List Bytes → Bytes
joined [] = []
joined (line ∷ lines) = (line ++ crlf) ++ joined lines

fold-add_line : (acc : Bytes) (lines : List Bytes) → fold add_line acc lines ≡ acc ++ joined lines
unfolding fold add_line joined
fold-add_line acc [] = sym (append-nil acc)
fold-add_line acc (line ∷ lines) =
    fold-add_line (acc ++ (line ++ crlf)) lines ∙ append_assoc acc (line ++ crlf) (joined lines)

-- A server that takes the next command and has written this behind what it will answer.
abbrev pub ready : Client → Bool → ℕ → Network → List (Option Bytes) → Bytes → Client
ready c is_tls limit net later buffer =
    serving (record c { state = transaction }) is_tls limit (record net { writes = none ∷ later })
      buffer

-- `+OK` and a note.
abbrev pub accepted : Bytes → Bytes → Bytes
accepted note rest = (codes "+OK " ++ note) ++ b'\r' ∷ b'\n' ∷ rest

command-ready :
    (text failure note rest : Bytes) (c : Client) (is_tls : Bool) (limit : ℕ) (net : Network)
    (later : List (Option Bytes))
    → contains b'\n' note ≡ false
    → length note + 4 ≤ limit
    → (after : Network) × (command text failure
          (ready c is_tls limit net later (accepted note rest))
        ≡ (ok note, serving (record c { state = transaction }) is_tls limit after rest))
unfolding command send_command write_line write async_write take_outcome read_ok_response expect_ok
    parse_status split_status is_ok equal find
command-ready text failure note rest c is_tls limit net later h short =
    let after : Network = record net {
      writes = later;
      sent = line_of (normalize_line text) ∷ net.sent;
    } in
    (
      after,
      rw (read_line-crlf is_tls limit after (codes "+OK " ++ note) rest h (omega (arith, short))),
    )

-- A message that the server sends, with dots in front of the lines that begin with one, is
-- retrieved as it was, whatever its lines are: so long as they fit the limit and hold no line feed,
-- and the response is in the buffer.
pub retr_impl-joined :
    (message_no limit : ℕ) (lines : List Bytes) (note rest : Bytes) (c : Client) (is_tls : Bool)
    (net : Network) (later : List (Option Bytes))
    → All (IsLine limit) lines
    → contains b'\n' note ≡ false
    → length note + 4 ≤ limit
    → (retr_impl message_no (ready c is_tls limit net later (accepted note (on_wire lines rest)))).0
      ≡ ok (joined lines)
unfolding retr_impl ensure_state rank
retr_impl-joined message_no limit lines note rest c is_tls net later h k short =
    let (after, answered) =
      command-ready (numbered (codes "RETR ") message_no) (codes "Fetching message failure.") note
        (on_wire lines rest) c is_tls limit net later k short in
    rw
      (
        answered,
        read_lines-serving add_line (record c { state = transaction }) is_tls limit after lines rest
            [] (omega (arith, short)) h,
      )
      (ap ok (fold-add_line [] lines))

-- What a call returns, as another value.
abbrev pub mapped :
    {A B : Type 0} → (A → B) → Result Exception A × Client → Result Exception B × Client
mapped f (ok a, c) = (ok (f a), c)
mapped f (err e, c) = (err e, c)

-- Two calls that go on from the same outcome.
same-mapped :
    {A B C : Type 0} (view : A → B) (outcome : Result Exception C × Client)
    (first : C → Action Client A) (second : C → Action Client B)
    → ((x : C) (c : Client) → mapped view (first x c) ≡ second x c)
    → mapped view (continue outcome first) ≡ continue outcome second
same-mapped view (ok x, c) first second h = h x c
same-mapped view (err e, c) first second h = refl

-- Two loops whose bodies agree through a view of what they collect.
module _ {A B : Type 0} (view : A → B) (add : A → Bytes → A) (add' : B → Bytes → B)
    (agrees : (a : A) (line : Bytes) → view (add a line) ≡ add' (view a) line) where
  if-mapped :
      (b : Bool) (x y : Action Client A) (x' y' : Action Client B) (c : Client)
      → mapped view (x c) ≡ x' c
      → mapped view (y c) ≡ y' c
      → mapped view ((if b then x else y) c) ≡ (if b then x' else y') c
  if-mapped true x y x' y' c h k = h
  if-mapped false x y x' y' c h k = k

  read_lines_loop-mapped :
      (fuel : ℕ) (a : A) (c : Client)
      → mapped view (read_lines_loop add fuel a c) ≡ read_lines_loop add' fuel (view a) c
  unfolding read_lines_loop
  read_lines_loop-mapped zero a c = refl
  read_lines_loop-mapped (suc fuel) a c = same-mapped view (on_link read_line c) _ _ λ line s.
      if-mapped (equal line end_of_data) (pure a) (read_lines_loop add fuel (add a (unstuff line)))
        (pure (view a)) (read_lines_loop add' fuel (add' (view a) (unstuff line))) s refl
        (read_lines_loop-mapped fuel (add a (unstuff line)) s
          ∙ ap (λ b. read_lines_loop add' fuel b s) (agrees a (unstuff line)))

add_download-text :
    (progress : Bool) (expected_size : ℕ) (d : Download) (line : Bytes)
    → (add_download progress expected_size d line).msg_str ≡ add_line d.msg_str line
unfolding add_download
add_download-text progress expected_size d line = ground arith

ending-mapped :
    (progress : Bool) (outcome : Result Exception Download × Client)
    → mapped (λ r. r.0) (continue outcome (λ d. pure (end_download progress d)))
      ≡ mapped (λ (d : Download). d.msg_str) outcome
unfolding end_download
ending-mapped progress (ok d, c) = refl
ending-mapped progress (err e, c) = refl

lift-continue :
    {A B : Type 0} (r : Result Exception A) (a : A) (later : A → Action Client B) (c : Client)
    → r ≡ ok a
    → (lift r >>= later) c ≡ later a c
lift-continue r a later c h = ap (λ o. continue (o, c) later) h

-- Where there is room for a message of the expected size, it is retrieved with and without progress
-- in the same way: the same commands, the same text or exception, and the same client afterwards,
-- with a callback that returns and without one.
pub retr_with_progress_impl-text :
    (reserve : ℕ → Option Bytes) (message_no expected_size : ℕ) (progress : Bool) (c : Client)
    → reserve (reserved expected_size) ≡ none
    → mapped (λ r. r.0) (retr_with_progress_impl reserve message_no expected_size progress c)
      ≡ retr_impl message_no c
unfolding retr_with_progress_impl retr_impl read_lines begin_download
retr_with_progress_impl-text reserve message_no expected_size progress c room =
    same-mapped _ (ensure_state transaction (codes "RETR") c) _ _ λ u s.
      same-mapped _
        (command (numbered (codes "RETR ") message_no) (codes "Fetching message failure.") s) _ _
        λ msg t.
          ap (mapped (λ r. r.0)) (
            lift-continue (outcome_of (reserve (reserved expected_size))) tt _ t
              (ap outcome_of room))
          ∙ ending-mapped progress (read_lines _ _ t)
          ∙ read_lines_loop-mapped (λ (d : Download). d.msg_str) _ add_line
              (add_download-text progress expected_size) _ _ t
