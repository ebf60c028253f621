-- ===== src/SmtpClient/Clean.antt =====
-- smtp/client.hpp: commands and their replies, and what they write.
pub mod Sessions
pub mod Logins
pub mod Mails
pub mod Extensions
use mailio.Base.{
  ℕ, zero, suc, ◌≡◌, refl, sym, subst, Bool, true, false, Option, none, some, List, [], ◌∷◌, ◌++◌,
  if◌then◌else◌,
}
use mailio.Base.Bytes.{Bytes, All}
use mailio.Base.Result.{Result, ok, err}
use mailio.Base.Action.{
  Exception, error, Action, is_decided, Safe, lift, pure, continue-keeps, bind-Safe, then-Safe,
  if-Safe, pure-Safe, gets-Safe, throw_if-Safe,
}
use mailio.Net.{
  Link, Network, Dialog, Written, line_of, raw, normalize_line, write, write_line, write_raw,
  read_line,
}
use mailio.Net.Sent.{IsCleanWrite, line-IsCleanWrite, link_write-Safe, read_line-sent}
use mailio.Wire.Clean.{IsClean}
use mailio.Smtp.{Reply}
use mailio.SmtpClient.{
  Client, on_link, take_reply_line, read_reply_loop, read_reply_impl, command_impl,
  require_greeting, require_ehlo, expect_completion,
}
use mailio.SmtpClient.Replies.{read_reply_impl-decided}

-- All that has been written so far: the lines of commands hold no line end and no NUL.
abbrev pub CleanLog : Client → Type 0
CleanLog c = All IsCleanWrite c.link.network.sent

pub write-Safe :
    (payload : Written) → IsCleanWrite payload → Safe CleanLog (on_link (write payload))
write-Safe payload h = record {
  ends = λ c kept. link_write-Safe payload c.link.dialog c.link.network h kept;
}

pub write_line-Safe : (line : Bytes) → IsClean line → Safe CleanLog (on_link (write_line line))
unfolding write_line
write_line-Safe line h = write-Safe (line_of (normalize_line line)) (line-IsCleanWrite line h)

pub write_raw-Safe : (payload : Bytes) → Safe CleanLog (on_link (write_raw payload))
unfolding write_raw
write_raw-Safe payload = write-Safe (raw payload) tt

if-keeps :
    (P : Client → Type 0) (b : Bool) (x y : Action Client Reply) (c : Client)
    → P ((x c).1)
    → P ((y c).1)
    → P (((if b then x else y) c).1)
if-keeps P true x y c h k = h
if-keeps P false x y c h k = k

-- Reading a reply keeps what holds of the writes, since it writes nothing.
read_reply_loop-keeps :
    (P : List Written → Type 0) (fuel : ℕ) (rep : Reply) (c : Client)
    → P c.link.network.sent
    → P ((read_reply_loop fuel rep c).1.link.network.sent)
unfolding read_reply_loop
read_reply_loop-keeps P zero rep c kept = kept
read_reply_loop-keeps P (suc fuel) rep c kept =
    continue-keeps (λ c. P c.link.network.sent) (on_link read_line c) _
      (subst P (sym (read_line-sent c.link)) kept)
      λ line s kept'.
        continue-keeps (λ c. P c.link.network.sent) (lift (take_reply_line line rep) s) _ kept'
          λ step t kept''.
            if-keeps (λ c. P c.link.network.sent) (step.1) (pure (step.0))
              (read_reply_loop fuel (step.0)) t kept''
              (read_reply_loop-keeps P fuel (step.0) t kept'')

pub read_reply_impl-keeps :
    (P : List Written → Type 0) (c : Client)
    → P c.link.network.sent
    → P ((read_reply_impl c).1.link.network.sent)
unfolding read_reply_impl
read_reply_impl-keeps P c kept =
    read_reply_loop-keeps P _ (record { status = 0; lines = [] }) c kept

pub read_reply_impl-Safe : Safe CleanLog read_reply_impl
read_reply_impl-Safe = record {
  ends = λ c kept. (read_reply_impl-decided c, read_reply_impl-keeps (All IsCleanWrite) c kept);
}

pub command_impl-Safe : (line : Bytes) → IsClean line → Safe CleanLog (command_impl line)
unfolding command_impl
command_impl-Safe line h = then-Safe CleanLog _ _ (write_line-Safe line h) read_reply_impl-Safe

pub require_greeting-Safe : (text : Bytes) → Safe CleanLog (require_greeting text)
unfolding require_greeting
require_greeting-Safe text = record { ends = λ c. (throw_if-Safe CleanLog _ text []).ends c }

pub require_ehlo-Safe : (text : Bytes) → Safe CleanLog (require_ehlo text)
unfolding require_ehlo
require_ehlo-Safe text = record { ends = λ c. (throw_if-Safe CleanLog _ text []).ends c }

pub expect_completion-Safe :
    (text : Bytes) (rep : Reply) → Safe CleanLog (expect_completion text rep)
unfolding expect_completion
expect_completion-Safe text rep = throw_if-Safe CleanLog _ text _

pub ruleset safe = (
  bind-Safe, then-Safe, if-Safe, pure-Safe, gets-Safe, throw_if-Safe, expect_completion-Safe,
  require_greeting-Safe, require_ehlo-Safe, read_reply_impl-Safe, command_impl-Safe,
  write_line-Safe, write_raw-Safe,
)
