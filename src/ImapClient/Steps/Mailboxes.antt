-- ===== src/ImapClient/Steps/Mailboxes.antt =====
-- imap/client.hpp: the commands on mailboxes and messages go by steps.
use mailio.Base.{ℕ, ◌≡◌, ◌≢◌, refl, Bool, true, false, none, some, [], ◌∷◌}
use mailio.Base.Bytes.{Bytes, length}
use mailio.Base.Result.{Result, ok, err, map_error, map_error-eq-ok, ◌>>=◌}
use mailio.Base.Action.{
  is_decided, Safe, Gives, bind-Safe, then-Safe, given-Safe, if-Safe, pure-Safe, gets-Safe, lift,
}
use mailio.Wire.{ensure_no_crlf_or_nul}
use mailio.Wire.Clean.{IsClean, append_sv-IsClean, append_space-IsClean}
use mailio.Imap.Utf7.{Utf7Error, invalid_utf7, invalid_utf8, no_fuel, encode_modified_utf7}
use mailio.Imap.Utf7.Fuel.{modified_utf7-IsDecided}
use mailio.Imap.Astring.{
  CommandError, invalid_field, invalid_mailbox, ensure_clean, to_astring, to_mailbox,
}
use mailio.Imap.Append.{build_append_command, append_date_time}
use mailio.Imap.Append.Clean.{build_append_command-IsClean}
use mailio.ImapClient.{Client, Response, new_response}
use mailio.ImapClient.Session.{thrown}
use mailio.ImapClient.Mailbox.{
  list, open_mailbox, search_messages, uid_search, uid_fetch_rfc822, uid_fetch_body, fetch, store,
  await_continuation, send_literal, append_answered, append_raw_impl,
}
use mailio.ImapClient.Steps.{Step, Calm, pure-Calm, read_lines-Safe, until_tag-Safe}
use mailio.ImapClient.Steps.Commands.{
  heard, write_line-Safe, write_raw-Safe, ensure-Safe, lift-Safe, next_tag-Gives, command_impl-Safe,
}
use mailio.ImapClient.Steps.Sessions.{astring-decided}

-- A result whose error, if it is one, is thrown by the code.
record Thrown {A : Type 0} (r : Result CommandError A) : Type 0 where
  decided : is_decided (map_error thrown r) ≡ true

bind-Thrown :
    {A B : Type 0} (r : Result CommandError A) (later : A → Result CommandError B)
    → Thrown r
    → ((a : A) → Thrown (later a))
    → Thrown (r >>= later)
bind-Thrown (ok a) later h k = k a
bind-Thrown (err e) later h k = record { decided = h.decided }

ok-Thrown : {A : Type 0} (a : A) → Thrown (ok a)
ok-Thrown a = record { decided = refl }

astring-Thrown : (text : Bytes) → Thrown (to_astring text)
astring-Thrown text = record { decided = astring-decided text }

field-Thrown : (r : Result Bytes (Unit {0})) → Thrown (map_error invalid_field r)
unfolding thrown
field-Thrown (ok u) = record { decided = refl }
field-Thrown (err text) = record { decided = refl }

clean-Thrown : (value field : Bytes) → Thrown (ensure_clean value field)
unfolding ensure_clean
clean-Thrown value field = field-Thrown (ensure_no_crlf_or_nul value (some field))

encoded-Thrown :
    (r : Result Utf7Error Bytes) → r ≢ err no_fuel → Thrown (map_error invalid_mailbox r)
unfolding thrown
encoded-Thrown (ok text) h = record { decided = refl }
encoded-Thrown (err invalid_utf7) h = record { decided = refl }
encoded-Thrown (err invalid_utf8) h = record { decided = refl }
encoded-Thrown (err no_fuel) h = absurd (h refl)

mailbox-Thrown : (mailbox : Bytes) → Thrown (to_mailbox mailbox)
unfolding to_mailbox
mailbox-Thrown mailbox =
    bind-Thrown _ to_astring
      (encoded-Thrown (encode_modified_utf7 mailbox) ((modified_utf7-IsDecided mailbox).0))
      astring-Thrown

date_time-Thrown : (cmd date_time : Bytes) → Thrown (append_date_time cmd date_time)
unfolding append_date_time
date_time-Thrown cmd [] = ok-Thrown cmd
date_time-Thrown cmd (c ∷ date_time) =
    bind-Thrown _ _ (astring-Thrown (c ∷ date_time)) (λ dt. ok-Thrown _)

append-Thrown :
    (mailbox : Bytes) (size : ℕ) (flags date_time : Bytes) (literal_plus : Bool)
    → Thrown (build_append_command mailbox size flags date_time literal_plus)
unfolding build_append_command
append-Thrown mailbox size flags date_time literal_plus =
    bind-Thrown _ _ (clean-Thrown mailbox _) λ a. bind-Thrown _ _ (clean-Thrown flags _) λ b.
      bind-Thrown _ _ (clean-Thrown date_time _) λ c.
        bind-Thrown _ _ (mailbox-Thrown mailbox)
          λ q. bind-Thrown _ _ (date_time-Thrown _ date_time) λ cmd. ok-Thrown _

pub await-Calm : (tag line : Bytes) (got : Bool) → Calm (await_continuation tag line got)
unfolding await_continuation
await-Calm tag line got = pure-Calm _

pub await-Safe :
    (P : Client → Type 0) (tag line : Bytes) (got : Bool) → Safe P (await_continuation tag line got)
unfolding await_continuation
await-Safe P tag line got = pure-Safe P _

module _ (P : Client → Type 0) (stable : (c d : Client) → Step c d → P c → P d) where
  pub list-Safe : (reference pattern_ : Bytes) → Safe P (list reference pattern_)
  unfolding list
  list-Safe reference pattern_ = then-Safe P _ _ (ensure-Safe P stable reference _) (
      then-Safe P _ _ (ensure-Safe P stable pattern_ _) (
        bind-Safe P _ _ (lift-Safe P stable _ (mailbox-Thrown reference).decided) λ ref.
          bind-Safe P _ _ (lift-Safe P stable _ (mailbox-Thrown pattern_).decided)
            λ pat. bind-Safe P _ _ (command_impl-Safe P stable _) λ resp. pure-Safe P _))

  pub open_mailbox-Safe : (word mailbox : Bytes) → Safe P (open_mailbox word mailbox)
  unfolding open_mailbox
  open_mailbox-Safe word mailbox = then-Safe P _ _ (ensure-Safe P stable mailbox _) (
      bind-Safe P _ _ (lift-Safe P stable _ (mailbox-Thrown mailbox).decided)
        λ box. bind-Safe P _ _ (command_impl-Safe P stable _) λ resp. pure-Safe P _)

  pub search_messages-Safe : (criteria : Bytes) (uid : Bool) → Safe P (search_messages criteria uid)
  unfolding search_messages
  search_messages-Safe criteria uid =
      then-Safe P _ _ (ensure-Safe P stable criteria _)
        (bind-Safe P _ _ (command_impl-Safe P stable _) λ resp. pure-Safe P _)

  pub uid_search-Safe : (criteria : Bytes) → Safe P (uid_search criteria)
  unfolding uid_search
  uid_search-Safe criteria =
      bind-Safe P _ _ (search_messages-Safe criteria true) λ found. pure-Safe P _

  pub uid_fetch_rfc822-Safe : (uid : ℕ) → Safe P (uid_fetch_rfc822 uid)
  unfolding uid_fetch_rfc822
  uid_fetch_rfc822-Safe uid = bind-Safe P _ _ (command_impl-Safe P stable _) λ resp. pure-Safe P _

  pub uid_fetch_body-Safe : (uid : ℕ) (section : Bytes) → Safe P (uid_fetch_body uid section)
  unfolding uid_fetch_body
  uid_fetch_body-Safe uid section =
      then-Safe P _ _ (ensure-Safe P stable section _)
        (bind-Safe P _ _ (command_impl-Safe P stable _) λ resp. pure-Safe P _)

  pub fetch-Safe : (seq_set items : Bytes) (uid : Bool) → Safe P (fetch seq_set items uid)
  unfolding fetch
  fetch-Safe seq_set items uid =
      then-Safe P _ _ (ensure-Safe P stable seq_set _)
        (then-Safe P _ _ (ensure-Safe P stable items _) (command_impl-Safe P stable _))

  pub store-Safe :
      (seq_set item_name value mode : Bytes) (uid : Bool)
      → Safe P (store seq_set item_name value mode uid)
  unfolding store
  store-Safe seq_set item_name value mode uid = then-Safe P _ _ (ensure-Safe P stable seq_set _) (
      then-Safe P _ _ (ensure-Safe P stable item_name _) (
        then-Safe P _ _ (ensure-Safe P stable value _)
          (then-Safe P _ _ (ensure-Safe P stable mode _) (command_impl-Safe P stable _))))

  send_literal-Safe :
      (payload tag : Bytes) (resp : Response) → Safe P (send_literal payload tag resp)
  unfolding send_literal
  send_literal-Safe payload tag resp =
      then-Safe P _ _ (write_raw-Safe P stable payload) (until_tag-Safe P (heard P stable) resp tag)

  append_answered-Safe :
      (payload tag : Bytes) (answered : Response × Bool)
      → Safe P (append_answered payload tag answered)
  unfolding append_answered
  append_answered-Safe payload tag (resp, got) =
      if-Safe P got _ _ (send_literal-Safe payload tag resp) (pure-Safe P resp)

  pub append_raw_impl-Safe :
      (mailbox payload flags date_time : Bytes)
      → Safe P (append_raw_impl mailbox payload flags date_time)
  unfolding append_raw_impl
  append_raw_impl-Safe mailbox payload flags date_time = bind-Safe P _ _ (gets-Safe P (λ c. c)) λ c.
      let plus : Bool = elim c.literal_plus [ none ↦ false | some b ↦ b ] in
      let built = build_append_command mailbox (length payload) flags date_time plus in
      let built-Gives : Gives P IsClean (lift (map_error thrown built)) = record {
        safe =
            lift-Safe P stable _
              (append-Thrown mailbox (length payload) flags date_time plus).decided;
        gives = λ d cmd returned.
            build_append_command-IsClean mailbox (length payload) flags date_time plus cmd
              (map_error-eq-ok thrown built returned);
      } in
      given-Safe P _ _ _ built-Gives λ cmd cmd_clean.
        given-Safe P _ _ _ (next_tag-Gives P stable) λ tag tag_clean.
          then-Safe P _ _
            (write_line-Safe P stable _
              (append_sv-IsClean _ cmd (append_space-IsClean tag tag_clean) cmd_clean))
            (if-Safe P plus _ _ (send_literal-Safe payload tag (new_response tag)) (
              bind-Safe P _ _
                (read_lines-Safe (await_continuation tag) tag P (heard P stable) _ false
                  (await-Calm tag) (await-Safe P tag))
                (append_answered-Safe payload tag)))
