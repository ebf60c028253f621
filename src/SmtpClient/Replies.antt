-- ===== src/SmtpClient/Replies.antt =====
-- smtp/client.hpp: reading a reply ends.
use mailio.Base.{
  ℕ, zero, suc, ◌<◌, ◌≡◌, refl, ap, subst, Bool, true, false, [], arith, if◌then◌else◌,
}
use mailio.Base.Bytes.{Bytes}
use mailio.Base.Result.{Result, ok, err}
use mailio.Base.Action.{
  Exception, error, invalid_argument, system_error, out_of_fuel, Action, lift, is_decided,
  continue-decided, pure,
}
use mailio.Net.{Link, read_line, available}
use mailio.Net.Lines.{read_line-decided, read_line-available}
use mailio.Smtp.{Reply}
use mailio.SmtpClient.{
  Client, on_link, parse_reply_line, extend_reply, take_parsed, take_reply_line, with_last,
  read_reply_loop, read_reply_impl,
}

parse_reply_line-decided : (line : Bytes) → is_decided (parse_reply_line line) ≡ true
unfolding parse_reply_line
parse_reply_line-decided line = ground arith

extend_reply-decided :
    (line : Bytes) (rep : Reply) (code : ℕ) (text : Bytes)
    → is_decided (extend_reply line rep code text) ≡ true
unfolding extend_reply
extend_reply-decided line rep code text = ground arith

with_last-decided :
    (last : Bool) (r : Result Exception Reply)
    → is_decided r ≡ true
    → is_decided (with_last last r) ≡ true
with_last-decided last (ok rep) h = refl
with_last-decided last (err (error text details)) h = refl
with_last-decided last (err (invalid_argument text)) h = refl
with_last-decided last (err (system_error text)) h = refl
with_last-decided last (err out_of_fuel) h = h

take_parsed-decided :
    (line : Bytes) (rep : Reply) (r : Result Exception (ℕ × Bytes × Bool))
    → is_decided r ≡ true
    → is_decided (take_parsed line rep r) ≡ true
unfolding take_parsed
take_parsed-decided line rep (ok (code, text, last)) h =
    with_last-decided last (extend_reply line rep code text)
      (extend_reply-decided line rep code text)
take_parsed-decided line rep (err (error text details)) h = refl
take_parsed-decided line rep (err (invalid_argument text)) h = refl
take_parsed-decided line rep (err (system_error text)) h = refl
take_parsed-decided line rep (err out_of_fuel) h = h

take_reply_line-decided :
    (line : Bytes) (rep : Reply) → is_decided (take_reply_line line rep) ≡ true
unfolding take_reply_line
take_reply_line-decided line rep =
    take_parsed-decided line rep (parse_reply_line line) (parse_reply_line-decided line)

-- An operation of the link that has returned.
pub on_link-eq-ok :
    {A : Type 0} (op : Action Link A) (c : Client) {a : A} {after : Client}
    → on_link op c ≡ (ok a, after)
    → op c.link ≡ (ok a, after.link)
on_link-eq-ok op c h = ap (λ o. (o.0, o.1.link)) h

if-decided :
    (b : Bool) (x y : Action Client Reply) (c : Client)
    → is_decided ((x c).0) ≡ true
    → is_decided ((y c).0) ≡ true
    → is_decided (((if b then x else y) c).0) ≡ true
if-decided true x y c h k = h
if-decided false x y c h k = k

read_reply_loop-decided :
    (fuel : ℕ) (rep : Reply) (c : Client)
    → available c.link < fuel
    → is_decided ((read_reply_loop fuel rep c).0) ≡ true
unfolding read_reply_loop
read_reply_loop-decided zero rep c h = absurd (omega (arith, h))
read_reply_loop-decided (suc fuel) rep c h =
    continue-decided (on_link read_line c) _ (read_line-decided c.link) λ line s taken.
      let less = read_line-available c.link (on_link-eq-ok read_line c taken) in
      continue-decided (lift (take_reply_line line rep) s) _ (take_reply_line-decided line rep)
        λ step t same.
          let still =
            subst (λ u. available u.link < fuel) (ap (λ o. o.1) same) (omega (arith, less, h)) in
          if-decided (step.1) (pure (step.0)) (read_reply_loop fuel (step.0)) t refl
            (read_reply_loop-decided fuel (step.0) t still)

-- Reading a reply ends, with a reply or with an exception of the code: so many lines as there are
-- bytes still to be read are enough.
pub read_reply_impl-decided : (c : Client) → is_decided ((read_reply_impl c).0) ≡ true
unfolding read_reply_impl
read_reply_impl-decided c =
    read_reply_loop-decided (suc (available c.link)) (record { status = 0; lines = [] }) c
      (omega arith)
