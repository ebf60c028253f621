-- ===== src/Net/Exact.antt =====
-- net/dialog.hpp: `read_exactly` ends, writes nothing, and takes from what is still to be read.
use mailio.Base.{
  ℕ, zero, suc, ◌+◌, ◌≤◌, ◌≡◌, refl, ap, true, Option, none, some, List, [], ◌∷◌, ◌++◌, arith, ltb,
  leb, ◌==◌, Bool-cases, inl, inr,
}
use mailio.Base.Bytes.{Bytes, length, length-append, drop}
use mailio.Base.Result.{Result, ok, err}
use mailio.Base.Action.{Exception, is_decided}
use mailio.Net.{
  Dialog, Network, Link, read_exactly, read_rest, after_exact, in_link, not_established, available,
  pending,
}

length-drop-le : (n : ℕ) (s : Bytes) → length (drop n s) ≤ length s
length-drop-le zero s = omega arith
length-drop-le (suc n) [] = omega arith
length-drop-le (suc n) (c ∷ s) = omega (arith, length-drop-le n s)

-- What is promised of an outcome: it is one of the code's, nothing was written, and what remains
-- after a return is no more than a number.
abbrev IsTaken : ℕ → Network → Result Exception Bytes × Link → Type 0
IsTaken n net (ok text, after) = (after.network.sent ≡ net.sent) × (available after ≤ n)
IsTaken n net (err e, after) =
    (after.network.sent ≡ net.sent) × (is_decided {A = Bytes} (err e) ≡ true)

after_exact-IsTaken :
    (outcome : Option Bytes) (n : ℕ) (d : Dialog) (net : Network)
    → IsTaken (length d.read_buffer + pending net.reads) net (in_link net (after_exact outcome n d))
unfolding after_exact available
after_exact-IsTaken (some text) n d net = (refl, refl)
after_exact-IsTaken none n d net = elim (Bool-cases (ltb (length d.read_buffer) n)) [
  | inl short ↦ rw short (refl, refl)
  | inr long ↦ rw long (refl, omega (arith, length-drop-le n d.read_buffer))
]

read_rest-IsTaken :
    (n : ℕ) (d : Dialog) (net : Network) (reads : List (Bytes × Option Bytes))
    → IsTaken (length d.read_buffer + pending reads) net (read_rest n d net reads)
unfolding read_rest pending
read_rest-IsTaken n d net [] = (refl, refl)
read_rest-IsTaken n d net ((bytes, outcome) ∷ later) =
    let total : length (d.read_buffer ++ bytes) + pending later
        ≡ length d.read_buffer + (length bytes + pending later) =
      omega (arith, length-append d.read_buffer bytes) in
    rw (← total) (
      after_exact-IsTaken outcome n (record d { read_buffer = d.read_buffer ++ bytes })
        (record net { reads = later }))

read_from-IsTaken :
    (n : ℕ) (dialog : Option Dialog) (net : Network)
    → let link : Link = record { dialog = dialog; network = net } in
      IsTaken (available link) net (read_exactly n link)
unfolding read_exactly available not_established
read_from-IsTaken n none net = (refl, refl)
read_from-IsTaken n (some d) net = elim (Bool-cases (n == 0)) [
  | inl nothing ↦ rw nothing (refl, omega arith)
  | inr something ↦ rw something (elim (Bool-cases (leb n (length d.read_buffer))) [
    | inl enough ↦ rw enough (refl, omega (arith, length-drop-le n d.read_buffer))
    | inr little ↦ rw little (read_rest-IsTaken n d net net.reads)
  ])
]

taken-decided :
    (n : ℕ) (net : Network) (outcome : Result Exception Bytes × Link)
    → IsTaken n net outcome
    → is_decided (outcome.0) ≡ true
taken-decided n net (ok text, after) h = refl
taken-decided n net (err e, after) h = h.1

taken-sent :
    (n : ℕ) (net : Network) (outcome : Result Exception Bytes × Link)
    → IsTaken n net outcome
    → outcome.1.network.sent ≡ net.sent
taken-sent n net (ok text, after) h = h.0
taken-sent n net (err e, after) h = h.0

pub read_exactly-decided : (n : ℕ) (link : Link) → is_decided ((read_exactly n link).0) ≡ true
read_exactly-decided n link =
    taken-decided _ link.network (read_exactly n link)
      (read_from-IsTaken n link.dialog link.network)

pub read_exactly-sent :
    (n : ℕ) (link : Link) → (read_exactly n link).1.network.sent ≡ link.network.sent
read_exactly-sent n link =
    taken-sent _ link.network (read_exactly n link) (read_from-IsTaken n link.dialog link.network)

taken-available :
    (n : ℕ) (net : Network) (outcome : Result Exception Bytes × Link) {text : Bytes} {after : Link}
    → IsTaken n net outcome
    → outcome ≡ (ok text, after)
    → available after ≤ n
taken-available n net (ok text, after) h same =
    let last = ap (λ o. available (o.1)) same in omega (arith, last, h.1)
taken-available n net (err e, after) h same = absurd (cc)

pub read_exactly-available :
    (n : ℕ) (link : Link) {text : Bytes} {after : Link}
    → read_exactly n link ≡ (ok text, after)
    → available after ≤ available link
read_exactly-available n link h =
    taken-available _ link.network (read_exactly n link)
      (read_from-IsTaken n link.dialog link.network) h
