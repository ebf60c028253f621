-- ===== src/Pop3/Steps/Mailboxes.antt =====
-- pop3/client.hpp: the commands on a mailbox go by steps.
use mailio.Base.{refl, Bool, true, false, [], Option, none, some, ℕ, ◌==◌, if◌then◌else◌}
use mailio.Base.Bytes.{Bytes, codes}
use mailio.Base.Action.{
  error, Safe, bind-Safe, then-Safe, if-Safe, pure, pure-Safe, throw, modify-Safe, ◌>>◌,
}
use mailio.Wire.{contains_crlf_or_nul}
use mailio.Wire.Clean.{IsClean, append_sv-IsClean, append_space-IsClean, append_uint-IsClean}
use mailio.Pop3.{Client, transaction, ensure_state, command, read_lines}
use mailio.Pop3.Mailbox.{
  numbered, stat_impl, list_all_impl, list_impl, uidl_impl, retr_impl, retr_with_progress_impl,
  top_command, top_impl, dele_impl, rset_impl, noop_impl, ended, quit_impl, extract_sizes, add_size,
  add_uidl, add_line, add_download, begin_download, end_download, reserved,
}
use mailio.Pop3.Steps.{
  Step, ensure_state-Safe, ensure_state_at_least-Safe, command-Safe, read_lines-Safe, lift-Safe,
}
use mailio.Net.Sent.{outcome_of-decided}

words-IsClean :
    IsClean (codes "STAT")
    × IsClean (codes "LIST")
    × IsClean (codes "UIDL")
    × IsClean (codes "RSET")
    × IsClean (codes "NOOP")
    × IsClean (codes "QUIT")
    × IsClean []
unfolding contains_crlf_or_nul
words-IsClean = (refl, refl, refl, refl, refl, refl, refl)

numbered_words-IsClean :
    IsClean (codes "LIST ")
    × IsClean (codes "UIDL ")
    × IsClean (codes "RETR ")
    × IsClean (codes "TOP ")
    × IsClean (codes "DELE ")
unfolding contains_crlf_or_nul
numbered_words-IsClean = (refl, refl, refl, refl, refl)

numbered-IsClean : (word : Bytes) (n : ℕ) → IsClean word → IsClean (numbered word n)
unfolding numbered
numbered-IsClean word n h = append_uint-IsClean _ n (append_sv-IsClean [] word (words-IsClean.6) h)

top_command-IsClean : (message_no lines : ℕ) → IsClean (top_command message_no lines)
unfolding top_command
top_command-IsClean message_no lines =
    append_uint-IsClean _ lines
      (append_space-IsClean _ (numbered-IsClean _ message_no (numbered_words-IsClean.3)))

if-IsClean : (b : Bool) (s t : Bytes) → IsClean s → IsClean t → IsClean (if b then s else t)
if-IsClean true s t h k = h
if-IsClean false s t h k = k

module _ (P : Client → Type 0) (stable : (c d : Client) → Step c d → P c → P d) where
  parsed-Safe :
      (msg : Bytes) (stat : Option (ℕ × ℕ))
      → Safe P (elim stat [
        | none ↦ throw {S = Client} {A = ℕ × ℕ} (error (codes "Parser failure.") msg)
        | some s ↦ pure s
      ])
  parsed-Safe msg none = record { ends = λ c kept. (refl, kept) }
  parsed-Safe msg (some stat) = pure-Safe P stat

  pub stat_impl-Safe : Safe P stat_impl
  unfolding stat_impl
  stat_impl-Safe = then-Safe P _ _ (ensure_state-Safe P stable _ _) (
      bind-Safe P _ _ (command-Safe P stable _ _ (words-IsClean.0))
        λ msg. parsed-Safe msg (extract_sizes msg))

  pub list_all_impl-Safe : Safe P list_all_impl
  unfolding list_all_impl
  list_all_impl-Safe = then-Safe P _ _ (ensure_state-Safe P stable _ _) (
      then-Safe P _ _ (command-Safe P stable _ _ (words-IsClean.1))
        (read_lines-Safe P stable add_size []))

  pub list_impl-Safe : (message_no : ℕ) → Safe P (list_impl message_no)
  unfolding list_impl
  list_impl-Safe message_no = then-Safe P _ _ (ensure_state-Safe P stable _ _) (
      bind-Safe P _ _
        (command-Safe P stable _ _ (numbered-IsClean _ message_no (numbered_words-IsClean.0)))
        λ msg. pure-Safe P (add_size [] msg))

  pub uidl_impl-Safe : (message_no : ℕ) → Safe P (uidl_impl message_no)
  unfolding uidl_impl
  uidl_impl-Safe message_no =
      let clean =
        if-IsClean (message_no == 0) _ _ (words-IsClean.2)
          (numbered-IsClean _ message_no (numbered_words-IsClean.1)) in
      then-Safe P _ _ (ensure_state-Safe P stable _ _) (
        bind-Safe P _ _ (command-Safe P stable _ _ clean) λ msg.
          if-Safe P (message_no == 0) _ _ (read_lines-Safe P stable add_uidl [])
            (pure-Safe P (add_uidl [] msg)))

  -- A command with a number, whose response is of many lines.
  fetch-Safe :
      {A : Type 0} (operation text failure : Bytes) (add : A → Bytes → A) (acc : A)
      → IsClean text
      → Safe P (ensure_state transaction operation >> (command text failure >> read_lines add acc))
  fetch-Safe operation text failure add acc h =
      then-Safe P _ _ (ensure_state-Safe P stable _ _)
        (then-Safe P _ _ (command-Safe P stable _ _ h) (read_lines-Safe P stable add acc))

  pub retr_impl-Safe : (message_no : ℕ) → Safe P (retr_impl message_no)
  unfolding retr_impl
  retr_impl-Safe message_no =
      fetch-Safe _ _ _ add_line [] (numbered-IsClean _ message_no (numbered_words-IsClean.2))

  pub top_impl-Safe : (message_no lines : ℕ) → Safe P (top_impl message_no lines)
  unfolding top_impl
  top_impl-Safe message_no lines =
      fetch-Safe _ _ _ add_line [] (top_command-IsClean message_no lines)

  pub retr_with_progress_impl-Safe :
      (reserve : ℕ → Option Bytes) (message_no expected_size : ℕ) (progress : Bool)
      → Safe P (retr_with_progress_impl reserve message_no expected_size progress)
  unfolding retr_with_progress_impl
  retr_with_progress_impl-Safe reserve message_no expected_size progress =
      then-Safe P _ _ (ensure_state-Safe P stable _ _) (
        then-Safe P _ _
          (command-Safe P stable _ _ (numbered-IsClean _ message_no (numbered_words-IsClean.2)))
          (then-Safe P _ _
            (lift-Safe P stable _ (outcome_of-decided (reserve (reserved expected_size))))
            (bind-Safe P _ _
              (read_lines-Safe P stable (add_download progress expected_size)
                (begin_download progress expected_size))
              λ d. pure-Safe P (end_download progress d))))

  -- A command whose response says nothing more.
  plain-Safe :
      (operation text failure : Bytes)
      → IsClean text
      → Safe P (ensure_state transaction operation >> (command text failure >> pure tt))
  plain-Safe operation text failure h =
      then-Safe P _ _ (ensure_state-Safe P stable _ _)
        (then-Safe P _ _ (command-Safe P stable _ _ h) (pure-Safe P tt))

  pub dele_impl-Safe : (message_no : ℕ) → Safe P (dele_impl message_no)
  unfolding dele_impl
  dele_impl-Safe message_no =
      plain-Safe _ _ _ (numbered-IsClean _ message_no (numbered_words-IsClean.4))

  pub rset_impl-Safe : Safe P rset_impl
  unfolding rset_impl
  rset_impl-Safe = plain-Safe _ _ _ (words-IsClean.3)

  pub noop_impl-Safe : Safe P noop_impl
  unfolding noop_impl
  noop_impl-Safe = plain-Safe _ _ _ (words-IsClean.4)

  pub quit_impl-Safe : ((c : Client) → P c → P (ended c)) → Safe P quit_impl
  unfolding quit_impl
  quit_impl-Safe leaves =
      then-Safe P _ _ (ensure_state_at_least-Safe P stable _ _)
        (then-Safe P _ _ (command-Safe P stable _ _ (words-IsClean.5)) (modify-Safe P ended leaves))
