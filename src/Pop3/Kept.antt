-- ===== src/Pop3/Kept.antt =====
-- pop3/client.hpp: what every call keeps: clean commands, and no secret where none is wanted.
use mailio.Base.{◌≡◌, subst, sym, Bool, true, false, none, some, if◌then◌else◌}
use mailio.Base.Bytes.{Bytes, All, IsByte}
use mailio.Net.{Link, Written, write, emplace}
use mailio.Net.Sent.{
  IsCleanWrite, link_write-Safe, read_line-sent, handshake-sent, async_connect-sent,
}
use mailio.Pop3.{Client, AuthMechanism}
use mailio.Pop3.Session.{
  begin_connect, remember_connection, remember_tls, set_dialog, established, greeted, note_greeting,
  note_capabilities,
}
use mailio.Pop3.Auth.{logged_in, remember_auth}
use mailio.Pop3.Steps.{
  Step, reads, writes, connects, handshakes, begins, remembers, dials, establishes, greets, notes,
  learns,
}

-- All that has been written so far: the lines of commands hold no line end and no NUL.
abbrev pub HasCleanLog : Client → Type 0
HasCleanLog c = All IsCleanWrite c.link.network.sent

-- Where the options do not ask for it, no secret is kept.
abbrev pub KeepsNoSecret : Client → Type 0
KeepsNoSecret c =
    c.options.store_credentials_for_reconnect ≡ false → c.session_snapshot.secret ≡ none

-- What is kept of the credentials is a string of bytes.
abbrev pub KeepsBytes : Client → Type 0
KeepsBytes c =
    All IsByte c.session_snapshot.username
    × ((secret : Bytes) → c.session_snapshot.secret ≡ some secret → All IsByte secret)

abbrev pub Kept : Client → Type 0
Kept c = HasCleanLog c × KeepsNoSecret c × KeepsBytes c

link_write-clean :
    (payload : Written) (link : Link)
    → IsCleanWrite payload
    → All IsCleanWrite link.network.sent
    → All IsCleanWrite (write payload link).1.network.sent
link_write-clean payload link h kept = (link_write-Safe payload link.dialog link.network h kept).1

pub Step-Kept : (c d : Client) → Step c d → Kept c → Kept d
unfolding begin_connect remember_connection remember_tls set_dialog established greeted
    note_greeting note_capabilities emplace
Step-Kept _ _ (reads c) (clean, secret, bytes) =
    (subst (All IsCleanWrite) (sym (read_line-sent c.link)) clean, secret, bytes)
Step-Kept _ _ (writes payload c h) (clean, secret, bytes) =
    (link_write-clean payload c.link h clean, secret, bytes)
Step-Kept _ _ (connects c) (clean, secret, bytes) =
    (subst (All IsCleanWrite) (sym (async_connect-sent c.link)) clean, secret, bytes)
Step-Kept _ _ (handshakes name c h) (clean, secret, bytes) =
    (subst (All IsCleanWrite) (sym (handshake-sent name c.link)) (h, clean), secret, bytes)
Step-Kept _ _ (begins host service mode has_context sni c) kept = kept
Step-Kept _ _ (remembers mode has_context sni c) kept = kept
Step-Kept _ _ (dials is_tls limit c) kept = kept
Step-Kept _ _ (establishes is_tls c) kept = kept
Step-Kept _ _ (greets c) kept = kept
Step-Kept _ _ (notes line c) kept = kept
Step-Kept _ _ (learns caps c) kept = kept

if-none : (b : Bool) (secret : Bytes) → b ≡ false → (if b then some secret else none) ≡ none
if-none b secret h = rw h

if-bytes :
    (b : Bool) (secret : Bytes)
    → All IsByte secret
    → (kept : Bytes) → (if b then some secret else none) ≡ some kept
    → All IsByte kept
if-bytes true secret h kept same = let same' : secret ≡ kept = cc in subst (All IsByte) same' h
if-bytes false secret h kept same = absurd cc

pub logged_in-Kept :
    (mechanism : AuthMechanism) (username secret : Bytes) (c : Client)
    → All IsByte username
    → All IsByte secret
    → Kept c
    → Kept (logged_in mechanism username secret c)
unfolding logged_in remember_auth
logged_in-Kept mechanism username secret c h k (clean, unstored, bytes) = (
  clean,
  λ off. if-none c.options.store_credentials_for_reconnect secret off,
  (h, if-bytes c.options.store_credentials_for_reconnect secret k),
)
