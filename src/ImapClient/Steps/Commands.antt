-- ===== src/ImapClient/Steps/Commands.antt =====
-- imap/client.hpp: commands and their responses go by steps.
use mailio.Base.{
  ◌≡◌, refl, ap, subst, ◌∷◌, Bool, true, false, not, ◌&&◌, Option, none, some, [], arith, ◌==◌,
}
use mailio.Base.Bytes.{Bytes, front_or}
use mailio.Base.Result.{Result, ok, map_error-eq-ok}
use mailio.Base.Action.{
  Exception, Action, is_decided, Safe, Gives, pure, bind-Safe, then-Safe, given-Safe, if-Safe,
  pure-Safe, gets-Safe, modify-Safe, then-Gives, bind-Gives, lift,
}
use mailio.Net.{
  Link, Network, Dialog, Written, line_of, raw, normalize_line, write, write_line, write_raw,
  read_line, handshake, start_tls, async_connect, available, async_write,
}
use mailio.Net.Lines.{read_line-decided}
use mailio.Net.Sent.{
  IsCleanWrite, line-IsCleanWrite, write-sent, handshake-decided, async_connect-decided,
}
use mailio.Wire.{contains_crlf_or_nul, ensure_no_crlf_or_nul, append_uint}
use mailio.Wire.Clean.{
  IsClean, ensure-IsClean, append_sv-IsClean, append_space-IsClean, append_uint-IsClean,
}
use mailio.ImapClient.{
  Client, on_link, ensure, read_response_impl, next_tag, tagged, command_impl, continue_once,
  command_with_one_continuation, new_response,
}
use mailio.ImapClient.Steps.{
  Hear, Step, reads, hears, writes, connects, handshakes, counts, Calm, if-Calm, pure-Calm,
  bind-Calm, read_lines-Safe, until_tag-Safe, invalid-decided,
}

empty_IsClean : IsClean []
unfolding contains_crlf_or_nul
empty_IsClean = refl

tagged-IsClean : (tag cmd : Bytes) → IsClean tag → IsClean cmd → IsClean (tagged tag cmd)
unfolding tagged
tagged-IsClean tag [] h k = h
tagged-IsClean tag (c ∷ cmd) h k = append_sv-IsClean _ (c ∷ cmd) (append_space-IsClean tag h) k

write_from-available :
    (payload : Written) (dialog : Option Dialog) (net : Network)
    → let link : Link = record { dialog = dialog; network = net } in
      available (write payload link).1 ≡ available link
unfolding write available async_write
write_from-available payload none net = refl
write_from-available payload (some d) net = refl

write-available :
    (payload : Written) (link : Link) → available (write payload link).1 ≡ available link
write-available payload link = write_from-available payload link.dialog link.network

write_line-Calm : (line : Bytes) → Calm (on_link (write_line line))
unfolding write_line
write_line-Calm line = record {
  decided = λ c. (write-sent (line_of (normalize_line line)) c.link.dialog c.link.network).0;
  calm = λ c d a same.
      let last = ap (λ o. available (o.1.link)) same in
      omega (arith, last, write-available (line_of (normalize_line line)) c.link);
}

continue_once-Calm :
    (continuation_line tag line : Bytes) (continuation_sent : Bool)
    → Calm (continue_once continuation_line tag line continuation_sent)
unfolding continue_once
continue_once-Calm continuation_line tag line continuation_sent =
    if-Calm (not continuation_sent && front_or line 0 == b'+') _ _
      (bind-Calm (on_link (write_line continuation_line)) _ (write_line-Calm continuation_line)
        (λ u. pure-Calm _))
      (pure-Calm _)

-- A property of clients that every step keeps.
module _ (P : Client → Type 0) (stable : (c d : Client) → Step c d → P c → P d) where
  pub heard : (c d : Client) → Hear c d → P c → P d
  heard c d h kept = stable c d (hears h) kept

  pub step-Safe :
      {A : Type 0} (op : Action Link A)
      → ((link : Link) → is_decided ((op link).0) ≡ true)
      → ((c : Client) → Step c (record c { link = (op c.link).1 }))
      → Safe P (on_link op)
  step-Safe op decided step = record { ends = λ c kept. (decided c.link, stable c _ (step c) kept) }

  pub change-Safe :
      (f : Client → Client) → ((c : Client) → Step c (f c)) → Safe P (λ c. (ok tt, f c))
  change-Safe f step = modify-Safe P f (λ c kept. stable c (f c) (step c) kept)

  pub read_line-Safe : Safe P (on_link read_line)
  read_line-Safe = step-Safe read_line read_line-decided (λ c. hears (reads c))

  pub async_connect-Safe : Safe P (on_link async_connect)
  async_connect-Safe = step-Safe async_connect async_connect-decided connects

  pub start_tls-Safe :
      (is_tls : Bool) (name : Bytes) → IsClean name → Safe P (on_link (start_tls is_tls name))
  unfolding start_tls
  start_tls-Safe true name h = record { ends = λ c kept. (refl, kept) }
  start_tls-Safe false name h =
      step-Safe (handshake name) (handshake-decided name) (λ c. handshakes name c h)

  write-Safe : (payload : Written) → IsCleanWrite payload → Safe P (on_link (write payload))
  write-Safe payload h =
      step-Safe (write payload) (λ link. (write-sent payload link.dialog link.network).0)
        (λ c. writes payload c h)

  pub write_line-Safe : (line : Bytes) → IsClean line → Safe P (on_link (write_line line))
  unfolding write_line
  write_line-Safe line h = write-Safe (line_of (normalize_line line)) (line-IsCleanWrite line h)

  pub write_raw-Safe : (payload : Bytes) → Safe P (on_link (write_raw payload))
  unfolding write_raw
  write_raw-Safe payload = write-Safe (raw payload) tt

  -- What follows a check may rely on it.
  pub ensure-Gives :
      (value field : Bytes) → Gives P (λ (u : Unit {0}). IsClean value) (ensure value field)
  unfolding ensure
  ensure-Gives value field = record {
    safe = record {
      ends = λ c kept. (invalid-decided (ensure_no_crlf_or_nul value (some field)), kept);
    };
    gives = λ c u returned.
        ensure-IsClean value (some field)
          (map_error-eq-ok _ (ensure_no_crlf_or_nul value (some field)) returned);
  }

  pub ensure-Safe : (value field : Bytes) → Safe P (ensure value field)
  ensure-Safe value field = (ensure-Gives value field).safe

  pub lift-Safe : {A : Type 0} (r : Result Exception A) → is_decided r ≡ true → Safe P (lift r)
  lift-Safe r h = record { ends = λ c kept. (h, kept) }

  counted-Gives : (c : Client) → Gives P IsClean (pure (append_uint [] c.tag_counter))
  counted-Gives c = record {
    safe = pure-Safe P _;
    gives = λ d a returned.
        let same : append_uint [] c.tag_counter ≡ a = cc in
        subst IsClean same (append_uint-IsClean [] c.tag_counter empty_IsClean);
  }

  pub next_tag-Gives : Gives P IsClean next_tag
  unfolding next_tag
  next_tag-Gives =
      then-Gives P IsClean _ _ (change-Safe _ counts)
        (bind-Gives P IsClean _ _ (gets-Safe P (λ c. c)) counted-Gives)

  pub read_response_impl-Safe : (tag : Bytes) → Safe P (read_response_impl tag)
  unfolding read_response_impl
  read_response_impl-Safe tag = until_tag-Safe P heard (new_response tag) tag

  pub command_impl-Safe : (cmd : Bytes) → Safe P (command_impl cmd)
  unfolding command_impl
  command_impl-Safe cmd = given-Safe P _ _ _ (ensure-Gives cmd _) λ u clean.
      given-Safe P _ _ _ next_tag-Gives λ tag tag_clean.
        then-Safe P _ _ (write_line-Safe _ (tagged-IsClean tag cmd tag_clean clean))
          (read_response_impl-Safe tag)

  continue_once-Safe :
      (continuation_line tag line : Bytes) (continuation_sent : Bool)
      → IsClean continuation_line
      → Safe P (continue_once continuation_line tag line continuation_sent)
  unfolding continue_once
  continue_once-Safe continuation_line tag line continuation_sent h =
      if-Safe P _ _ _ (then-Safe P _ _ (write_line-Safe continuation_line h) (pure-Safe P _))
        (pure-Safe P _)

  pub continuation-Safe :
      (cmd continuation_line : Bytes) → Safe P (command_with_one_continuation cmd continuation_line)
  unfolding command_with_one_continuation
  continuation-Safe cmd continuation_line = given-Safe P _ _ _ (ensure-Gives cmd _) λ u clean.
      given-Safe P _ _ _ (ensure-Gives continuation_line _) λ v line_clean.
        given-Safe P _ _ _ next_tag-Gives λ tag tag_clean.
          then-Safe P _ _ (write_line-Safe _ (tagged-IsClean tag cmd tag_clean clean)) (
            bind-Safe P _ _
              (read_lines-Safe (continue_once continuation_line tag) tag P heard _ false
                (continue_once-Calm continuation_line tag)
                (λ line sent. continue_once-Safe continuation_line tag line sent line_clean))
              λ read. pure-Safe P (read.0))
