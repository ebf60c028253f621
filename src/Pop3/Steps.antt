-- ===== src/Pop3/Steps.antt =====
-- pop3/client.hpp: the changes that the calls are made of, and what a call keeps when they all do.
pub mod Sessions
pub mod Logins
pub mod Mailboxes
use mailio.Base.{
  ℕ, zero, suc, ◌<◌, ◌≡◌, refl, sym, ap, subst, Bool, true, false, not, ◌&&◌, Option, none, some,
  List, arith, if◌then◌else◌, ◌==◌,
}
use mailio.Base.Bytes.{Bytes, codes, equal}
use mailio.Base.Result.{Result, ok, err, map_error, map_error-eq-ok}
use mailio.Base.Action.{
  Exception, error, invalid_argument, Action, is_decided, Safe, Gives, continue-decided,
  continue-keeps, pure, lift, throw_if, bind-Safe, then-Safe, given-Safe, if-Safe, pure-Safe,
  gets-Safe, modify-Safe, throw_if-Safe, ◌>>◌,
}
use mailio.Net.{
  Link, Dialog, Written, line_of, normalize_line, write, write_line, read_line, handshake,
  start_tls, async_connect, available,
}
use mailio.Net.Lines.{read_line-decided, read_line-available}
use mailio.Net.Sent.{
  IsCleanWrite, line-IsCleanWrite, write-sent, handshake-decided, async_connect-decided,
}
use mailio.Wire.{ensure_no_crlf_or_nul}
use mailio.Wire.Clean.{IsClean, ensure-IsClean}
use mailio.Pop3.{
  Client, State, TlsMode, Capabilities, on_link, ensure, ensure_state, ensure_state_at_least,
  parse_status, expect_ok, send_command, read_ok_response, unstuff, end_of_data, read_lines_loop,
  read_lines, command, rank, invalid_state,
}
use mailio.Pop3.Session.{
  begin_connect, remember_tls, set_dialog, established, greeted, note_greeting, note_capabilities,
}

-- What happens to a client until it is authenticated: what is written is clean.
pub data Step : Client → Client → Type 0 where
  reads : (c : Client) → Step c (record c { link = (read_line c.link).1 })
  writes :
      (payload : Written) (c : Client)
      → IsCleanWrite payload
      → Step c (record c { link = (write payload c.link).1 })
  connects : (c : Client) → Step c (record c { link = (async_connect c.link).1 })
  handshakes :
      (name : Bytes) (c : Client)
      → IsClean name
      → Step c (record c { link = (handshake name c.link).1 })
  begins :
      (host service : Bytes) (mode : TlsMode) (has_context : Bool) (sni : Bytes) (c : Client)
      → Step c (begin_connect host service mode has_context sni c)
  remembers :
      (mode : TlsMode) (has_context : Bool) (sni : Bytes) (c : Client)
      → Step c (remember_tls mode has_context sni c)
  dials : (is_tls : Bool) (limit : ℕ) (c : Client) → Step c (set_dialog is_tls limit c)
  establishes : (is_tls : Bool) (c : Client) → Step c (established is_tls c)
  greets : (c : Client) → Step c (greeted c)
  notes : (line : Bytes) (c : Client) → Step c (note_greeting line c)
  learns : (caps : Capabilities) (c : Client) → Step c (note_capabilities caps c)

write-decided :
    (payload : Written) (dialog : Option Dialog) (link : Link)
    → link.dialog ≡ dialog
    → is_decided ((write payload link).0) ≡ true
write-decided payload dialog link h = (write-sent payload link.dialog link.network).0

invalid-decided : (r : Result Bytes (Unit {0})) → is_decided (map_error invalid_argument r) ≡ true
invalid-decided (ok u) = refl
invalid-decided (err text) = refl

parse_status-decided : (line : Bytes) → is_decided (parse_status line) ≡ true
unfolding parse_status
parse_status-decided line = ground arith

-- An operation of the link that has returned.
on_link-eq-ok :
    {A : Type 0} (op : Action Link A) (c : Client) {a : A} {after : Client}
    → on_link op c ≡ (ok a, after)
    → op c.link ≡ (ok a, after.link)
on_link-eq-ok op c h = ap (λ o. (o.0, o.1.link)) h

if-decided :
    {A : Type 0} (b : Bool) (x y : Action Client A) (c : Client)
    → is_decided ((x c).0) ≡ true
    → is_decided ((y c).0) ≡ true
    → is_decided (((if b then x else y) c).0) ≡ true
if-decided true x y c h k = h
if-decided false x y c h k = k

if-keeps :
    {A : Type 0} (P : Client → Type 0) (b : Bool) (x y : Action Client A) (c : Client)
    → P ((x c).1)
    → P ((y c).1)
    → P (((if b then x else y) c).1)
if-keeps P true x y c h k = h
if-keeps P false x y c h k = k

module _ {A : Type 0} (add : A → Bytes → A) where
  read_lines_loop-decided :
      (fuel : ℕ) (acc : A) (c : Client)
      → available c.link < fuel
      → is_decided ((read_lines_loop add fuel acc c).0) ≡ true
  unfolding read_lines_loop
  read_lines_loop-decided zero acc c h = absurd (omega (arith, h))
  read_lines_loop-decided (suc fuel) acc c h =
      continue-decided (on_link read_line c) _ (read_line-decided c.link) λ line s taken.
        let less = read_line-available c.link (on_link-eq-ok read_line c taken) in
        if-decided (equal line end_of_data) (pure acc)
          (read_lines_loop add fuel (add acc (unstuff line))) s refl
          (read_lines_loop-decided fuel (add acc (unstuff line)) s (omega (arith, less, h)))

-- A property of clients that every step keeps.
module _ (P : Client → Type 0) (stable : (c d : Client) → Step c d → P c → P d) where
  pub step-Safe :
      {A : Type 0} (op : Action Link A)
      → ((link : Link) → is_decided ((op link).0) ≡ true)
      → ((c : Client) → Step c (record c { link = (op c.link).1 }))
      → Safe P (on_link op)
  step-Safe op decided step = record { ends = λ c kept. (decided c.link, stable c _ (step c) kept) }

  pub change-Safe :
      (f : Client → Client) → ((c : Client) → Step c (f c)) → Safe P (λ c. (ok tt, f c))
  change-Safe f step = modify-Safe P f (λ c kept. stable c (f c) (step c) kept)

  pub read_line-Safe : Safe P (on_link read_line)
  read_line-Safe = step-Safe read_line read_line-decided reads

  pub async_connect-Safe : Safe P (on_link async_connect)
  async_connect-Safe = step-Safe async_connect async_connect-decided connects

  pub start_tls-Safe :
      (is_tls : Bool) (name : Bytes) → IsClean name → Safe P (on_link (start_tls is_tls name))
  unfolding start_tls
  start_tls-Safe true name h = record { ends = λ c kept. (refl, kept) }
  start_tls-Safe false name h =
      step-Safe (handshake name) (handshake-decided name) (λ c. handshakes name c h)

  pub send_command-Safe : (line : Bytes) → IsClean line → Safe P (send_command line)
  unfolding send_command write_line
  send_command-Safe line h =
      step-Safe (write (line_of (normalize_line line)))
        (λ link. (write-sent (line_of (normalize_line line)) link.dialog link.network).0)
        (λ c. writes (line_of (normalize_line line)) c (line-IsCleanWrite line h))

  -- What follows a check may rely on it.
  pub ensure-Gives :
      (value field : Bytes) → Gives P (λ (u : Unit {0}). IsClean value) (ensure value field)
  unfolding ensure
  ensure-Gives value field = record {
    safe = record {
      ends = λ c kept. (invalid-decided (ensure_no_crlf_or_nul value (some field)), kept);
    };
    gives = λ c u returned.
        ensure-IsClean value (some field)
          (map_error-eq-ok invalid_argument (ensure_no_crlf_or_nul value (some field)) returned);
  }

  pub ensure-Safe :
      {A : Type 0} (value field : Bytes) (later : Action Client A)
      → (IsClean value → Safe P later)
      → Safe P (ensure value field >> later)
  ensure-Safe value field later k =
      given-Safe P _ (ensure value field) (λ u. later) (ensure-Gives value field)
        (λ u clean. k clean)

  pub last_ensure-Safe : (value field : Bytes) → Safe P (ensure value field)
  last_ensure-Safe value field = (ensure-Gives value field).safe

  pub ensure_state-Safe :
      (required : State) (operation : Bytes) → Safe P (ensure_state required operation)
  unfolding ensure_state invalid_state
  ensure_state-Safe required operation = record { ends = λ c. (throw_if-Safe P _ _ _).ends c }

  pub ensure_state_at_least-Safe :
      (minimum : State) (operation : Bytes) → Safe P (ensure_state_at_least minimum operation)
  unfolding ensure_state_at_least invalid_state
  ensure_state_at_least-Safe minimum operation = record {
    ends = λ c. (throw_if-Safe P _ _ _).ends c;
  }

  pub lift-Safe : {A : Type 0} (r : Result Exception A) → is_decided r ≡ true → Safe P (lift r)
  lift-Safe r h = record { ends = λ c kept. (h, kept) }

  pub expect_ok-Safe : (failure line : Bytes) → Safe P (expect_ok failure line)
  unfolding expect_ok
  expect_ok-Safe failure line =
      bind-Safe P _ _ (lift-Safe (parse_status line) (parse_status-decided line))
        λ parsed. then-Safe P _ _ (throw_if-Safe P _ _ _) (pure-Safe P (parsed.1))

  pub read_ok_response-Safe : (failure : Bytes) → Safe P (read_ok_response failure)
  unfolding read_ok_response
  read_ok_response-Safe failure =
      bind-Safe P _ _ read_line-Safe (λ line. expect_ok-Safe failure line)

  pub command-Safe : (text failure : Bytes) → IsClean text → Safe P (command text failure)
  unfolding command
  command-Safe text failure h =
      then-Safe P _ _ (send_command-Safe text h) (read_ok_response-Safe failure)

  read_lines_loop-keeps :
      {A : Type 0} (add : A → Bytes → A) (fuel : ℕ) (acc : A) (c : Client)
      → P c
      → P ((read_lines_loop add fuel acc c).1)
  unfolding read_lines_loop
  read_lines_loop-keeps add zero acc c kept = kept
  read_lines_loop-keeps add (suc fuel) acc c kept =
      continue-keeps P (on_link read_line c) _ (stable c _ (reads c) kept) λ line s kept'.
        if-keeps P (equal line end_of_data) (pure acc)
          (read_lines_loop add fuel (add acc (unstuff line))) s kept'
          (read_lines_loop-keeps add fuel (add acc (unstuff line)) s kept')

  pub read_lines-Safe : {A : Type 0} (add : A → Bytes → A) (acc : A) → Safe P (read_lines add acc)
  unfolding read_lines
  read_lines-Safe add acc = record {
    ends = λ c kept. (
      read_lines_loop-decided add (suc (available c.link)) acc c (omega arith),
      read_lines_loop-keeps add (suc (available c.link)) acc c kept,
    );
  }
