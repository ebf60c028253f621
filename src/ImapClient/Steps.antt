-- ===== src/ImapClient/Steps.antt =====
-- imap/client.hpp: the changes that the calls are made of, and what a call keeps when they all do.
pub mod Commands
pub mod Sessions
pub mod Mailboxes
use mailio.Base.{
  ℕ, zero, suc, ◌≤◌, ◌<◌, ◌≡◌, refl, ap, subst, Bool, true, false, not, ◌&&◌, Option, none, some,
  [], arith, ◌==◌, if◌then◌else◌,
}
use mailio.Base.Bytes.{Bytes, codes, front_or}
use mailio.Base.Result.{Result, ok, err, map_error, map_error-eq-ok}
use mailio.Base.Action.{
  Exception, invalid_argument, Action, is_decided, Safe, Gives, continue-decided, continue-keeps,
  continue-eq-ok, pure, bind-Safe, then-Safe, given-Safe, if-Safe, pure-Safe, gets-Safe,
  modify-Safe, ◌>>=◌, ◌>>◌,
}
use mailio.Net.{
  Link, Written, line_of, raw, normalize_line, write, write_line, write_raw, read_line,
  read_exactly, handshake, start_tls, async_connect, available,
}
use mailio.Net.Lines.{read_line-decided, read_line-available}
use mailio.Net.Exact.{read_exactly-decided, read_exactly-available}
use mailio.Net.Sent.{
  IsCleanWrite, line-IsCleanWrite, write-sent, handshake-decided, async_connect-decided,
}
use mailio.Wire.{ensure_no_crlf_or_nul, append_sv, append_uint}
use mailio.Wire.Clean.{
  IsClean, ensure-IsClean, append_sv-IsClean, append_space-IsClean, append_uint-IsClean,
}
use mailio.ImapClient.{
  Client, Response, on_link, ensure, extract_literal_size, read_literal, take_line, handle_line,
  lines_loop, read_lines, end_at_tag, read_response_until_tag, read_response_impl, is_tagged_line,
  count_tag, next_tag, tagged, command_impl, continue_once, command_with_one_continuation,
  new_response,
}
use mailio.ImapClient.Capability.{update_literal_plus_from_line}
use mailio.ImapClient.Session.{emplace_dialog, established, learned, note_host}

-- What a client hears: it changes nothing but what is to be read.
pub data Hear : Client → Client → Type 0 where
  reads : (c : Client) → Hear c (record c { link = (read_line c.link).1 })
  takes : (n : ℕ) (c : Client) → Hear c (record c { link = (read_exactly n c.link).1 })

-- All that happens to a client: what is written is clean.
pub data Step : Client → Client → Type 0 where
  hears : {c d : Client} → Hear c d → Step c d
  writes :
      (payload : Written) (c : Client)
      → IsCleanWrite payload
      → Step c (record c { link = (write payload c.link).1 })
  connects : (c : Client) → Step c (record c { link = (async_connect c.link).1 })
  handshakes :
      (name : Bytes) (c : Client)
      → IsClean name
      → Step c (record c { link = (handshake name c.link).1 })
  counts : (c : Client) → Step c (count_tag c)
  names : (host : Bytes) (c : Client) → Step c (note_host host c)
  dials : (is_tls : Bool) (limit : ℕ) (c : Client) → Step c (emplace_dialog is_tls limit c)
  establishes : (is_tls : Bool) (c : Client) → Step c (established is_tls c)
  learns : (resp : Response) (c : Client) → Step c (learned resp c)
  notes : (line : Bytes) (c : Client) → Step c (update_literal_plus_from_line line c)

-- A call that ends, and that leaves no more to be read where it returns.
pub record Calm {A : Type 0} (call : Action Client A) : Type 0 where
  pub decided : (c : Client) → is_decided ((call c).0) ≡ true
  pub calm : (c d : Client) (a : A) → call c ≡ (ok a, d) → available d.link ≤ available c.link

pub pure-Calm : {A : Type 0} (a : A) → Calm (pure a)
pure-Calm a = record {
  decided = λ c. refl;
  calm = λ c d b same. let last = ap (λ o. available (o.1.link)) same in omega (arith, last);
}

pub bind-Calm :
    {A B : Type 0} (first : Action Client A) (later : A → Action Client B)
    → Calm first
    → ((a : A) → Calm (later a))
    → Calm (first >>= later)
bind-Calm first later h k = record {
  decided = λ c. continue-decided (first c) later (h.decided c) (λ a s same. (k a).decided s);
  calm = λ c d b same.
      let (a, s, begun, rest) = continue-eq-ok (first c) later same in
      let less = h.calm c s a begun in
      let lesser = (k a).calm s d b rest in omega (arith, less, lesser);
}

pub if-Calm :
    {A : Type 0} (b : Bool) (x y : Action Client A) → Calm x → Calm y → Calm (if b then x else y)
if-Calm true x y h k = h
if-Calm false x y h k = k

-- An operation of the link that has returned.
on_link-eq-ok :
    {A : Type 0} (op : Action Link A) (c : Client) {a : A} {after : Client}
    → on_link op c ≡ (ok a, after)
    → op c.link ≡ (ok a, after.link)
on_link-eq-ok op c h = ap (λ o. (o.0, o.1.link)) h

read_literal-Calm : (size : Option ℕ) (resp : Response) → Calm (read_literal size resp)
unfolding read_literal
read_literal-Calm none resp = pure-Calm resp
read_literal-Calm (some n) resp =
    bind-Calm (on_link (read_exactly n)) _
      (record {
        decided = λ c. read_exactly-decided n c.link;
        calm =
            λ c d a same. read_exactly-available n c.link (on_link-eq-ok (read_exactly n) c same);
      })
      λ literal. pure-Calm _

take_line-Calm : (tag line : Bytes) (resp : Response) → Calm (take_line tag line resp)
unfolding take_line
take_line-Calm tag line resp =
    read_literal-Calm (extract_literal_size line) (handle_line resp line tag)

if-decided :
    {A : Type 0} (b : Bool) (x y : Action Client A) (c : Client)
    → is_decided ((x c).0) ≡ true
    → is_decided ((y c).0) ≡ true
    → is_decided (((if b then x else y) c).0) ≡ true
if-decided true x y c h k = h
if-decided false x y c h k = k

if-keeps :
    {A : Type 0} (P : Client → Type 0) (b : Bool) (x y : Action Client A) (c : Client)
    → P ((x c).1)
    → P ((y c).1)
    → P (((if b then x else y) c).1)
if-keeps P true x y c h k = h
if-keeps P false x y c h k = k

literal-keeps :
    (P : Client → Type 0) (heard : (c d : Client) → Hear c d → P c → P d) (size : Option ℕ)
    (resp : Response) (c : Client)
    → P c
    → P ((read_literal size resp c).1)
unfolding read_literal
literal-keeps P heard none resp c kept = kept
literal-keeps P heard (some n) resp c kept =
    continue-keeps P (on_link (read_exactly n) c) _ (heard c _ (takes n c) kept) λ a s kept'. kept'

module _ {S : Type 0} (after : Bytes → S → Action Client (S × Bool)) (tag : Bytes) where
  lines_loop-decided :
      (fuel : ℕ) (resp : Response) (s : S) (c : Client)
      → ((line : Bytes) (s : S) → Calm (after line s))
      → available c.link < fuel
      → is_decided ((lines_loop after tag fuel resp s c).0) ≡ true
  unfolding lines_loop
  lines_loop-decided zero resp s c h room = absurd (omega (arith, room))
  lines_loop-decided (suc fuel) resp s c h room =
      continue-decided (on_link read_line c) _ (read_line-decided c.link) λ line d heard.
        let less = read_line-available c.link (on_link-eq-ok read_line c heard) in
        let taking = take_line-Calm tag line resp in
        continue-decided (take_line tag line resp d) _ (taking.decided d) λ resp' d' taken.
          let less' = taking.calm d d' resp' taken in
          continue-decided (after line s d') _ ((h line s).decided d') λ next e followed.
            let less'' = (h line s).calm d' e next followed in
            if-decided (next.1) (pure (resp', next.0)) (lines_loop after tag fuel resp' (next.0)) e
              refl
              (lines_loop-decided fuel resp' (next.0) e h
                (omega (arith, less, less', less'', room)))

  module _ (P : Client → Type 0) (heard : (c d : Client) → Hear c d → P c → P d) where
    lines_loop-keeps :
        (fuel : ℕ) (resp : Response) (s : S) (c : Client)
        → ((line : Bytes) (s : S) → Safe P (after line s))
        → P c
        → P ((lines_loop after tag fuel resp s c).1)
    unfolding lines_loop take_line
    lines_loop-keeps zero resp s c h kept = kept
    lines_loop-keeps (suc fuel) resp s c h kept =
        continue-keeps P (on_link read_line c) _ (heard c _ (reads c) kept) λ line d kept1.
          let size = extract_literal_size line in
          let noted = handle_line resp line tag in
          continue-keeps P (read_literal size noted d) _ (literal-keeps P heard size noted d kept1)
            λ resp' d' kept2.
              continue-keeps P (after line s d') _ (((h line s).ends d' kept2).1) λ next e kept3.
                if-keeps P (next.1) (pure (resp', next.0))
                  (lines_loop after tag fuel resp' (next.0)) e kept3
                  (lines_loop-keeps fuel resp' (next.0) e h kept3)

    pub read_lines-Safe :
        (resp : Response) (s : S)
        → ((line : Bytes) (s : S) → Calm (after line s))
        → ((line : Bytes) (s : S) → Safe P (after line s))
        → Safe P (read_lines after tag resp s)
    unfolding read_lines
    read_lines-Safe resp s h k = record {
      ends = λ c kept. (
        lines_loop-decided (suc (available c.link)) resp s c h (omega arith),
        lines_loop-keeps (suc (available c.link)) resp s c k kept,
      );
    }

pub end_at_tag-Calm : (tag line : Bytes) (u : Unit {0}) → Calm (end_at_tag tag line u)
unfolding end_at_tag
end_at_tag-Calm tag line u = pure-Calm _

pub invalid-decided :
    (r : Result Bytes (Unit {0})) → is_decided (map_error invalid_argument r) ≡ true
invalid-decided (ok u) = refl
invalid-decided (err text) = refl

pub end_at_tag-Safe :
    (P : Client → Type 0) (tag line : Bytes) (u : Unit {0}) → Safe P (end_at_tag tag line u)
unfolding end_at_tag
end_at_tag-Safe P tag line u = pure-Safe P _

pub take_line-Safe :
    (P : Client → Type 0) (heard : (c d : Client) → Hear c d → P c → P d) (tag line : Bytes)
    (resp : Response)
    → Safe P (take_line tag line resp)
unfolding take_line
take_line-Safe P heard tag line resp =
    let size = extract_literal_size line in
    let noted = handle_line resp line tag in
    record {
      ends = λ c kept.
          ((read_literal-Calm size noted).decided c, literal-keeps P heard size noted c kept);
    }

-- What hearing keeps, a response keeps.
pub until_tag-Safe :
    (P : Client → Type 0) (heard : (c d : Client) → Hear c d → P c → P d) (resp : Response)
    (tag : Bytes)
    → Safe P (read_response_until_tag resp tag)
unfolding read_response_until_tag end_at_tag
until_tag-Safe P heard resp tag =
    bind-Safe P _ _
      (read_lines-Safe (end_at_tag tag) tag P heard resp tt (end_at_tag-Calm tag)
        (end_at_tag-Safe P tag))
      λ read. pure-Safe P (read.0)
