-- ===== src/ImapClient/Answers.antt =====
-- imap/client.hpp: what a command makes of the lines that a server answers it with.
use mailio.Base.{ℕ, ◌≤◌, ◌≡◌, Bool, true, false, Option, none, List, [], ◌∷◌, ◌++◌, ◌==◌}
use mailio.Base.Bytes.{Bytes, length, contains, front_or}
use mailio.Net.{Network, Written}
use mailio.Net.Buffered.{holding}
use mailio.ImapClient.{
  Client, Response, is_tagged_line, extract_literal_size, handle_line, count_tag,
}

-- The lines as a server writes them.
pub written : List Bytes → Bytes → Bytes
written [] rest = rest
written (line ∷ lines) rest = line ++ b'\r' ∷ b'\n' ∷ written lines rest

-- A line within the limit that announces no literal.
pub record IsPlain (limit : ℕ) (line : Bytes) : Type 0 where
  pub one_line : contains b'\n' line ≡ false
  pub short : length line ≤ limit
  pub no_literal : extract_literal_size line ≡ none

-- An untagged line.
pub record IsUntagged (limit : ℕ) (tag line : Bytes) : Type 0 where
  pub plain : IsPlain limit line
  pub starred : (front_or line 0 == b'*') ≡ true
  pub not_tagged : is_tagged_line line tag ≡ false

abbrev pub serving : Client → Bool → ℕ → Network → Bytes → Client
serving c is_tls limit net buffer = record c { link = holding is_tls limit net buffer }

pub heard : Bytes → Response → List Bytes → Response
heard tag resp [] = resp
heard tag resp (line ∷ lines) = heard tag (handle_line resp line tag) lines

-- A server that takes the next command and has written this behind what it answers.
abbrev pub ready : Client → Bool → ℕ → Network → List (Option Bytes) → Bytes → Client
ready c is_tls limit net later = serving c is_tls limit (record net { writes = none ∷ later })

-- The same once it has taken the command, with what it has written behind the answer.
abbrev pub answered : Client → Bool → ℕ → Network → List (Option Bytes) → Written → Bytes → Client
answered c is_tls limit net later line =
    serving (count_tag c) is_tls limit (record net { writes = later; sent = line ∷ net.sent })
