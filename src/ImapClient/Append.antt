-- ===== src/ImapClient/Append.antt =====
-- imap/client.hpp: what an APPEND has written when it returns.
use mailio.Base.{
  ◌+◌, ◌%◌, ◌^◌, ◌≡◌, refl, ap, sym, subst, ◌∙◌, Bool, true, false, Option, none, some, List, [],
  ◌∷◌, ◌⊎◌, inl, inr, if◌then◌else◌,
}
use mailio.Base.Bytes.{Bytes, length}
use mailio.Base.Result.{Result, ok, err, map_error}
use mailio.Base.Action.{Action, continue-eq-ok, lift, ◌>>=◌, ◌>>◌}
use mailio.Net.{
  Link, Dialog, Network, Written, line_of, raw, write, write_line, write_raw, normalize_line,
  not_established,
}
use mailio.Net.Sent.{write-sent, read_line-sent}
use mailio.Net.Exact.{read_exactly-sent}
use mailio.Wire.{append_space, append_sv, append_uint}
use mailio.Imap.Astring.{CommandError}
use mailio.Imap.Append.{build_append_command}
use mailio.ImapClient.{
  Client, Response, new_response, on_link, count_tag, next_tag, read_lines, read_response_until_tag,
}
use mailio.ImapClient.Session.{thrown}
use mailio.ImapClient.Mailbox.{await_continuation, send_literal, append_answered, append_raw_impl}
use mailio.ImapClient.Steps.{Hear, reads, takes, read_lines-Safe, until_tag-Safe}
use mailio.ImapClient.Steps.Mailboxes.{await-Calm, await-Safe}

abbrev Sent : List Written → Client → Type 0
Sent log c = c.link.network.sent ≡ log

-- Hearing writes nothing.
Hear-Sent : (log : List Written) (c d : Client) → Hear c d → Sent log c → Sent log d
Hear-Sent log _ _ (reads c) h = read_line-sent c.link ∙ h
Hear-Sent log _ _ (takes n c) h = read_exactly-sent n c.link ∙ h

write_from-returned :
    (payload : Written) (dialog : Option Dialog) (net : Network) (u : Unit {0}) (after : Link)
    → write payload (record { dialog = dialog; network = net }) ≡ (ok u, after)
    → after.network.sent ≡ payload ∷ net.sent
unfolding write not_established
write_from-returned payload none net u after h = absurd cc
write_from-returned payload (some d) net u after h =
    sym (ap (λ o. o.1.network.sent) h) ∙ (write-sent payload (some d) net).1

-- A write that returns has handed over what it was given.
write-returned :
    (payload : Written) (log : List Written) (c d : Client) (u : Unit {0})
    → on_link (write payload) c ≡ (ok u, d)
    → Sent log c
    → Sent (payload ∷ log) d
write-returned payload log c d u h before =
    write_from-returned payload c.link.dialog c.link.network u d.link (ap (λ o. (o.0, o.1.link)) h)
    ∙ ap (λ (l : List Written). payload ∷ l) before

until_tag-Sent :
    (log : List Written) (resp read : Response) (tag : Bytes) (c d : Client)
    → read_response_until_tag resp tag c ≡ (ok read, d)
    → Sent log c
    → Sent log d
until_tag-Sent log resp read tag c d h before =
    subst (Sent log) (ap (λ o. o.1) h)
      (((until_tag-Safe (Sent log) (Hear-Sent log) resp tag).ends c before).1)

send_literal-Sent :
    (payload tag : Bytes) (log : List Written) (resp read : Response) (c d : Client)
    → send_literal payload tag resp c ≡ (ok read, d)
    → Sent log c
    → Sent (raw payload ∷ log) d
unfolding send_literal write_raw
send_literal-Sent payload tag log resp read c d h before =
    let (u, s, wrote, rest) = continue-eq-ok (on_link (write_raw payload) c) _ h in
    until_tag-Sent (raw payload ∷ log) resp read tag s d rest
      (write-returned (raw payload) log c s u wrote before)

answered-Sent :
    (payload tag : Bytes) (log : List Written) (resp read : Response) (got : Bool) (c d : Client)
    → append_answered payload tag (resp, got) c ≡ (ok read, d)
    → Sent log c
    → Sent (raw payload ∷ log) d ⊎ Sent log d
unfolding append_answered
answered-Sent payload tag log resp read true c d h before =
    inl (send_literal-Sent payload tag log resp read c d h before)
answered-Sent payload tag log resp read false c d h before =
    inr (subst (Sent log) (ap (λ o. o.1) h) before)

-- The end of `append_raw_impl`, once the command line is written.
abbrev finish_append : Bytes → Bytes → Bool → Action Client Response
finish_append payload tag plus =
    if plus
    then send_literal payload tag (new_response tag)
    else (read_lines (await_continuation tag) tag (new_response tag) false
        >>= append_answered payload tag)

finish_append-Sent :
    (payload tag : Bytes) (log : List Written) (plus : Bool) (read : Response) (c d : Client)
    → finish_append payload tag plus c ≡ (ok read, d)
    → Sent log c
    → Sent (raw payload ∷ log) d ⊎ Sent log d
finish_append-Sent payload tag log true read c d h before =
    inl (send_literal-Sent payload tag log _ read c d h before)
finish_append-Sent payload tag log false read c d h before =
    let awaited = read_lines (await_continuation tag) tag (new_response tag) false in
    let (answered, s, waited, rest) = continue-eq-ok (awaited c) (append_answered payload tag) h in
    let kept =
      ((read_lines-Safe (await_continuation tag) tag (Sent log) (Hear-Sent log) (new_response tag)
          false (await-Calm tag) (await-Safe (Sent log) tag)).ends
        c before).1 in
    answered-Sent payload tag log (answered.0) read (answered.1) s d rest
      (subst (Sent log) (ap (λ o. o.1) waited) kept)

-- The line of a command, and the tag that a client gives its next one.
abbrev pub command_line : Bytes → Bytes → Written
command_line tag cmd = line_of (normalize_line (append_sv (append_space tag) cmd))

abbrev pub tag_after : Client → Bytes
tag_after c = append_uint [] ((c.tag_counter + 1) % 2 ^ 64)

abbrev after_command : Bytes → Bool → Bytes → Action Client Response
after_command payload plus cmd = next_tag >>= λ tag.
    on_link (write_line (append_sv (append_space tag) cmd)) >> finish_append payload tag plus

after_command-Sent :
    (payload : Bytes) (plus : Bool) (cmd : Bytes) (read : Response) (c d : Client)
    → after_command payload plus cmd c ≡ (ok read, d)
    → let log = command_line (tag_after c) cmd ∷ c.link.network.sent in
      Sent (raw payload ∷ log) d ⊎ Sent log d
unfolding next_tag count_tag write_line
after_command-Sent payload plus cmd read c d h =
    let line = append_sv (append_space (tag_after c)) cmd in
    let log = command_line (tag_after c) cmd ∷ c.link.network.sent in
    let (u, s, wrote, rest) = continue-eq-ok (on_link (write_line line) (count_tag c)) _ h in
    finish_append-Sent payload (tag_after c) log plus read s d rest
      (write-returned (line_of (normalize_line line)) _ (count_tag c) s u wrote refl)

built-Sent :
    (payload : Bytes) (plus : Bool) (built : Result CommandError Bytes) (read : Response)
    (c d : Client)
    → (lift (map_error thrown built) >>= after_command payload plus) c ≡ (ok read, d)
    → (cmd : Bytes) × (built ≡ ok cmd)
      × let log = command_line (tag_after c) cmd ∷ c.link.network.sent in
        (Sent (raw payload ∷ log) d ⊎ Sent log d)
built-Sent payload plus (ok cmd) read c d h =
    (cmd, refl, after_command-Sent payload plus cmd read c d h)
built-Sent payload plus (err e) read c d h = absurd cc

-- Whether the client takes the server to accept literals without a continuation.
abbrev pub takes_plus : Client → Bool
takes_plus c = elim c.literal_plus [ none ↦ false | some b ↦ b ]

-- An APPEND that returns a response has written one command line, its tag and the command that
-- `build_append_command` makes of the arguments, and behind it either the literal as it was given
-- or nothing; behind the literal there is no line end.
pub append_raw_impl-sent :
    (mailbox payload flags date_time : Bytes) (resp : Response) (c d : Client)
    → append_raw_impl mailbox payload flags date_time c ≡ (ok resp, d)
    → (cmd : Bytes) × (build_append_command mailbox (length payload) flags date_time (takes_plus c)
        ≡ ok cmd)
      × ((d.link.network.sent ≡ raw payload ∷ command_line (tag_after c) cmd ∷ c.link.network.sent)
          ⊎ (d.link.network.sent ≡ command_line (tag_after c) cmd ∷ c.link.network.sent))
unfolding append_raw_impl
append_raw_impl-sent mailbox payload flags date_time resp c d h =
    built-Sent payload (takes_plus c)
      (build_append_command mailbox (length payload) flags date_time (takes_plus c)) resp c d h
