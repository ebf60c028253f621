-- ===== src/ImapClient/Calls.antt =====
-- imap/client.hpp: the public members that change a client, and the clients that calls of them lead
-- to.
use mailio.Base.{ℕ, ◌≡◌, refl, sym, subst, Bool, true, false, Option, none, some, []}
use mailio.Base.Bytes.{Bytes, All, codes}
use mailio.Base.Action.{Action, Safe, is_decided, pure, bind-Safe, pure-Safe, ◌>>=◌}
use mailio.Net.{Network, emplace}
use mailio.Net.Sent.{
  IsCleanWrite, link_write-Safe, read_line-sent, handshake-sent, async_connect-sent,
}
use mailio.Net.Exact.{read_exactly-sent}
use mailio.ImapClient.{Client, Options, count_tag, command_impl}
use mailio.ImapClient.Capability.{
  no_capabilities, find_literal_plus, line_has_capability, keep_literal_plus, update_literal_plus,
  update_literal_plus_from_line,
}
use mailio.ImapClient.Session.{
  TlsMode, AuthMethod, reset_capabilities, note_host, emplace_dialog, established, learned,
  connect_impl, read_greeting_impl, capability_impl, start_tls_impl, login_impl, authenticate_impl,
}
use mailio.ImapClient.Session
use mailio.ImapClient.Mailbox
use mailio.ImapClient.Steps.{
  Step, reads, takes, hears, writes, connects, handshakes, counts, names, dials, establishes,
  learns, notes,
}
use mailio.ImapClient.Steps.Commands.{command_impl-Safe}
use mailio.ImapClient.Steps.Sessions.{
  connect_impl-Safe, read_greeting_impl-Safe, capability_impl-Safe, start_tls_impl-Safe,
  login_impl-Safe, authenticate_impl-Safe, idle_start-Safe, idle_read-Safe, idle_stop-Safe,
}
use mailio.ImapClient.Steps.Mailboxes.{
  list-Safe, open_mailbox-Safe, search_messages-Safe, uid_search-Safe, uid_fetch_rfc822-Safe,
  uid_fetch_body-Safe, fetch-Safe, store-Safe, append_raw_impl-Safe,
}

-- `connect` takes the TLS mode, whether there is a context, and a server name. A session of IDLE
-- keeps its tag, which `idle_stop` is given.
pub data Call : Type 0 where
  connect : Bytes → Bytes → TlsMode → Bool → Bytes → Call
  read_greeting capability logout noop close : Call
  command start_tls : Bytes → Call
  login : Bytes → Bytes → Call
  authenticate : Bytes → Bytes → AuthMethod → Call
  append_raw : Bytes → Bytes → Bytes → Bytes → Call
  list : Bytes → Bytes → Call
  select examine uid_search : Bytes → Call
  search : Bytes → Bool → Call
  uid_fetch_rfc822 : ℕ → Call
  uid_fetch_body : ℕ → Bytes → Call
  fetch : Bytes → Bytes → Bool → Call
  store : Bytes → Bytes → Bytes → Bytes → Bool → Call
  idle_start idle_read : Call
  idle_stop : Bytes → Call

abbrev discard : {A : Type 0} → Action Client A → Action Client (Unit {0})
discard call = call >>= λ a. pure tt

unfoldable pub perform : Call → Action Client (Unit {0})
perform (connect host service mode has_context sni) = connect_impl host service mode has_context sni
perform read_greeting = discard read_greeting_impl
perform capability = discard capability_impl
perform logout = discard (command_impl (codes "LOGOUT"))
perform noop = discard (command_impl (codes "NOOP"))
perform close = discard (command_impl (codes "CLOSE"))
perform (command cmd) = discard (command_impl cmd)
perform (start_tls sni) = start_tls_impl sni
perform (login username password) = discard (login_impl username password)
perform (authenticate username secret method) = discard (authenticate_impl username secret method)
perform (append_raw mailbox payload flags date_time) =
    discard (Mailbox.append_raw_impl mailbox payload flags date_time)
perform (list reference pattern_) = discard (Mailbox.list reference pattern_)
perform (select mailbox) = discard (Mailbox.select mailbox)
perform (examine mailbox) = discard (Mailbox.examine mailbox)
perform (uid_search criteria) = discard (Mailbox.uid_search criteria)
perform (search criteria uid) = discard (Mailbox.search_messages criteria uid)
perform (uid_fetch_rfc822 uid) = discard (Mailbox.uid_fetch_rfc822 uid)
perform (uid_fetch_body uid section) = discard (Mailbox.uid_fetch_body uid section)
perform (fetch seq_set items uid) = discard (Mailbox.fetch seq_set items uid)
perform (store seq_set item_name value mode uid) =
    discard (Mailbox.store seq_set item_name value mode uid)
perform idle_start = discard Session.idle_start
perform idle_read = discard Session.idle_read
perform (idle_stop tag) = discard (Session.idle_stop tag)

-- The constructor of the client, over a network to which nothing has been written.
unfoldable pub initial : Options → Network → Client
initial options net = record {
  options = options;
  link = record { dialog = none; network = record net { sent = [] } };
  remote_host = [];
  tag_counter = 0;
  capabilities = no_capabilities;
  capabilities_known = false;
  literal_plus = none;
}

-- Calls one after another, whatever each is given and however it ends.
pub data Reachable : Client → Type 0 where
  begin : (options : Options) (net : Network) → Reachable (initial options net)
  next : {c : Client} (call : Call) → Reachable c → Reachable ((perform call c).1)

-- All that has been written so far: the lines of commands hold no line end and no NUL.
abbrev pub WritesClean : Client → Type 0
WritesClean c = All IsCleanWrite c.link.network.sent

pub keep-link : (found : Option Bool) (c : Client) → (keep_literal_plus found c).link ≡ c.link
unfolding keep_literal_plus
keep-link none c = refl
keep-link (some b) c = refl

keep-WritesClean :
    (found : Option Bool) (c : Client) → WritesClean c → WritesClean (keep_literal_plus found c)
unfolding keep_literal_plus
keep-WritesClean none c kept = kept
keep-WritesClean (some b) c kept = kept

Step-WritesClean : (c d : Client) → Step c d → WritesClean c → WritesClean d
unfolding count_tag note_host established emplace_dialog reset_capabilities emplace learned
    update_literal_plus update_literal_plus_from_line
Step-WritesClean _ _ (hears (reads c)) kept =
    subst (All IsCleanWrite) (sym (read_line-sent c.link)) kept
Step-WritesClean _ _ (hears (takes n c)) kept =
    subst (All IsCleanWrite) (sym (read_exactly-sent n c.link)) kept
Step-WritesClean _ _ (writes payload c h) kept =
    (link_write-Safe payload c.link.dialog c.link.network h kept).1
Step-WritesClean _ _ (connects c) kept =
    subst (All IsCleanWrite) (sym (async_connect-sent c.link)) kept
Step-WritesClean _ _ (handshakes name c h) kept =
    subst (All IsCleanWrite) (sym (handshake-sent name c.link)) (h, kept)
Step-WritesClean _ _ (counts c) kept = kept
Step-WritesClean _ _ (names host c) kept = kept
Step-WritesClean _ _ (dials is_tls limit c) kept = kept
Step-WritesClean _ _ (establishes is_tls c) kept = kept
Step-WritesClean _ _ (learns resp c) kept =
    keep-WritesClean
      (find_literal_plus (find_literal_plus none resp.untagged_lines) resp.tagged_lines) c kept
Step-WritesClean _ _ (notes line c) kept = keep-WritesClean (line_has_capability line) c kept

-- A property of clients that every step keeps, every call keeps.
module _ (P : Client → Type 0) (stable : (c d : Client) → Step c d → P c → P d) where
  discard-Safe : {A : Type 0} (call : Action Client A) → Safe P call → Safe P (discard call)
  discard-Safe call h = bind-Safe P _ _ h (λ a. pure-Safe P tt)

  pub perform-Safe : (call : Call) → Safe P (perform call)
  unfolding perform Mailbox.select Mailbox.examine
  perform-Safe (connect host service mode has_context sni) =
      connect_impl-Safe P stable host service mode has_context sni
  perform-Safe read_greeting = discard-Safe _ (read_greeting_impl-Safe P stable)
  perform-Safe capability = discard-Safe _ (capability_impl-Safe P stable)
  perform-Safe logout = discard-Safe _ (command_impl-Safe P stable _)
  perform-Safe noop = discard-Safe _ (command_impl-Safe P stable _)
  perform-Safe close = discard-Safe _ (command_impl-Safe P stable _)
  perform-Safe (command cmd) = discard-Safe _ (command_impl-Safe P stable cmd)
  perform-Safe (start_tls sni) = start_tls_impl-Safe P stable sni
  perform-Safe (login username password) =
      discard-Safe _ (login_impl-Safe P stable username password)
  perform-Safe (authenticate username secret method) =
      discard-Safe _ (authenticate_impl-Safe P stable username secret method)
  perform-Safe (append_raw mailbox payload flags date_time) =
      discard-Safe _ (append_raw_impl-Safe P stable mailbox payload flags date_time)
  perform-Safe (list reference pattern_) = discard-Safe _ (list-Safe P stable reference pattern_)
  perform-Safe (select mailbox) = discard-Safe _ (open_mailbox-Safe P stable _ mailbox)
  perform-Safe (examine mailbox) = discard-Safe _ (open_mailbox-Safe P stable _ mailbox)
  perform-Safe (uid_search criteria) = discard-Safe _ (uid_search-Safe P stable criteria)
  perform-Safe (search criteria uid) = discard-Safe _ (search_messages-Safe P stable criteria uid)
  perform-Safe (uid_fetch_rfc822 uid) = discard-Safe _ (uid_fetch_rfc822-Safe P stable uid)
  perform-Safe (uid_fetch_body uid section) =
      discard-Safe _ (uid_fetch_body-Safe P stable uid section)
  perform-Safe (fetch seq_set items uid) = discard-Safe _ (fetch-Safe P stable seq_set items uid)
  perform-Safe (store seq_set item_name value mode uid) =
      discard-Safe _ (store-Safe P stable seq_set item_name value mode uid)
  perform-Safe idle_start = discard-Safe _ (idle_start-Safe P stable)
  perform-Safe idle_read = discard-Safe _ (idle_read-Safe P stable)
  perform-Safe (idle_stop tag) = discard-Safe _ (idle_stop-Safe P stable tag)

-- Whatever calls have been made, with whatever arguments, and whatever the server has answered, each
-- line that has been written is a line without CR, LF and NUL with CRLF behind it, and each
-- handshake has asked for a server name without them; only the literals of APPEND are written as
-- they are.
pub Reachable-WritesClean : (c : Client) → Reachable c → WritesClean c
unfolding initial
Reachable-WritesClean _ (begin options net) = tt
Reachable-WritesClean _ (next {c} call before) =
    ((perform-Safe WritesClean Step-WritesClean call).ends c (Reachable-WritesClean c before)).1

-- Every call ends on every client, with a result or with an exception of the code, for every
-- sequence of bytes that the server sends before it closes: no loop over the lines of a response or
-- over the characters of a mailbox's name runs out of fuel.
pub perform-is_decided : (call : Call) (c : Client) → is_decided ((perform call c).0) ≡ true
perform-is_decided call c = ((perform-Safe (λ d. Unit) (λ d e step u. tt) call).ends c tt).0
