-- ===== src/Net/Lines.antt =====
-- net/dialog.hpp: what `read_line` takes from the buffer and the stream.

use mailio.Base.{
  ℕ, zero, suc, ◌≤◌, ◌<◌, ◌≡◌, inl, inr, refl, sym, ap, subst, ◌∙◌, true, false, Option, none, some,
  List, [], ◌∷◌, ◌++◌, arith, ltb, ◌==◌, Bool-cases,
}
use mailio.Base.Bytes.{
  Bytes, length, take, drop, get_or, back_or, find, contains, find-splits, length-append,
}
use mailio.Base.Result.{Result, ok, err}
use mailio.Base.Action.{Exception, is_decided}
use mailio.Net.{
  Dialog, Network, Link, extract, after_read, extract_found, in_link, read_found, read_more,
  read_line, line_length, not_established, pending, available,
}

append_assoc : (s t u : Bytes) → (s ++ t) ++ u ≡ s ++ (t ++ u)
append_assoc [] t u = refl
append_assoc (c ∷ s) t u = rw (append_assoc s t u)

-- The bytes that the stream is still to give.
pub coming : List (Bytes × Option Bytes) → Bytes
coming [] = []
coming ((bytes, outcome) ∷ later) = bytes ++ coming later

buffered : Option Dialog → Bytes
buffered none = []
buffered (some d) = d.read_buffer

-- The bytes ahead of a reader, however they are split between the buffer and the reads to come.
pub ahead : Link → Bytes
ahead link = buffered link.dialog ++ coming link.network.reads

-- The ends that a line may have: an LF alone only behind a line that ends in no CR.
pub data IsEol (line : Bytes) : Bytes → Type 0 where
  lf : (back_or line 0 == b'\r') ≡ false → IsEol line (b'\n' ∷ [])
  crlf : IsEol line (b'\r' ∷ b'\n' ∷ [])

back-take : (i : ℕ) (s : Bytes) (d : ℕ) → i < length s → back_or (take (suc i) s) d ≡ get_or s i 0
back-take i [] d h = absurd (omega (arith, h))
back-take zero (c ∷ s) d h = refl
back-take (suc i) (c ∷ s) d h = back-take i s c (omega (arith, h))

take-snoc : (i : ℕ) (s : Bytes) → i < length s → take (suc i) s ≡ take i s ++ get_or s i 0 ∷ []
take-snoc i [] h = absurd (omega (arith, h))
take-snoc zero (c ∷ s) h = refl
take-snoc (suc i) (c ∷ s) h = ap (λ t. c ∷ t) (take-snoc i s (omega (arith, h)))

contains-prefix : (c : ℕ) (s t : Bytes) → contains c (s ++ t) ≡ false → contains c s ≡ false
contains-prefix c [] t h = refl
contains-prefix c (x ∷ s) t h = ground (arith, contains-prefix c s t)

-- A line that is taken from the bytes: it ends where the rest begins, and fits the limit.
abbrev pub Takes : Dialog → Bytes → Bytes → Bytes → Type 0
Takes d before line after =
    (eol : Bytes) × IsEol line eol
    × (before ≡ line ++ (eol ++ after))
    × (contains b'\n' line ≡ false)
    × (length line ≤ d.max_line_length)

length-take_le : (i : ℕ) (s : Bytes) → length (take i s) ≤ i
length-take_le zero s = omega arith
length-take_le (suc i) [] = omega arith
length-take_le (suc i) (c ∷ s) = omega (arith, length-take_le i s)

extract-plain :
    (d : Dialog) (pos : ℕ)
    → find b'\n' d.read_buffer ≡ some pos
    → (back_or (take pos d.read_buffer) 0 == b'\r') ≡ false
    → ltb d.max_line_length pos ≡ false
    → Takes d d.read_buffer (take pos d.read_buffer) (drop (suc pos) d.read_buffer)
extract-plain d pos h no_cr fits =
    let (splits, no_lf, _) = find-splits b'\n' d.read_buffer pos h in
    (_, lf no_cr, splits, no_lf, ground (arith, length-take_le pos d.read_buffer))

extract-crlf :
    (d : Dialog) (pos : ℕ)
    → find b'\n' d.read_buffer ≡ some (suc pos)
    → get_or d.read_buffer pos 0 ≡ b'\r'
    → ltb d.max_line_length pos ≡ false
    → Takes d d.read_buffer (take pos d.read_buffer) (drop (suc (suc pos)) d.read_buffer)
extract-crlf d pos h cr fits =
    let (splits, no_lf, inside) = find-splits b'\n' d.read_buffer (suc pos) h in
    let shorter = take-snoc pos d.read_buffer (omega (arith, inside)) in
    let text = take pos d.read_buffer in
    let rest = drop (suc (suc pos)) d.read_buffer in
    let joined : take (suc pos) d.read_buffer ≡ text ++ b'\r' ∷ [] = cc in
    (
      _,
      crlf,
      splits ∙ ap (λ t. t ++ b'\n' ∷ rest) joined ∙ append_assoc text (b'\r' ∷ []) (b'\n' ∷ rest),
      contains-prefix b'\n' text (b'\r' ∷ []) (subst (λ t. contains b'\n' t ≡ false) joined no_lf),
      ground (arith, length-take_le pos d.read_buffer),
    )

-- What is taken as the line that ends at a place.
fitting-Takes :
    (d : Dialog) (pos : ℕ)
    → find b'\n' d.read_buffer ≡ some pos
    → ltb d.max_line_length (line_length d pos) ≡ false
    → Takes d d.read_buffer (take (line_length d pos) d.read_buffer) (drop (suc pos) d.read_buffer)
unfolding line_length
fitting-Takes d zero h fits = extract-plain d zero h refl fits
fitting-Takes d (suc before) h fits = elim (Bool-cases (get_or d.read_buffer before 0 == b'\r')) [
  | inl cr ↦ rw cr (extract-crlf d before h (ground (arith, cr)) (rw cr at fits))
  | inr other ↦
      let (_, _, inside) = find-splits b'\n' d.read_buffer (suc before) h in
      let last = back-take before d.read_buffer 0 (omega (arith, inside)) in
      rw other (extract-plain d (suc before) h (rw (last, other)) (rw other at fits))
]

-- How a call on a dialog may end: a line that is returned has been taken from the given bytes.
abbrev TakesLine : ℕ → Bytes → Result Exception Bytes × Dialog → Type 0
TakesLine limit before (err e, after) = Unit
TakesLine limit before (ok line, after) =
    (eol : Bytes) × IsEol line eol
    × (before ≡ line ++ (eol ++ after.read_buffer))
    × (contains b'\n' line ≡ false)
    × (length line ≤ limit)

extract-TakesLine :
    (d : Dialog) (pos : ℕ)
    → find b'\n' d.read_buffer ≡ some pos
    → TakesLine d.max_line_length d.read_buffer (extract d pos)
unfolding extract
extract-TakesLine d pos h = elim (Bool-cases (ltb d.max_line_length (line_length d pos))) [
  | inl long ↦ rw long tt
  | inr fits ↦ rw fits (fitting-Takes d pos h fits)
]

extract_found-TakesLine :
    (d : Dialog) (place : Option ℕ)
    → find b'\n' d.read_buffer ≡ place
    → TakesLine d.max_line_length d.read_buffer (extract_found d place)
unfolding extract_found
extract_found-TakesLine d none h = tt
extract_found-TakesLine d (some pos) h = extract-TakesLine d pos h

after_read-TakesLine :
    (outcome : Option Bytes) (d : Dialog)
    → TakesLine d.max_line_length d.read_buffer (after_read outcome d)
unfolding after_read
after_read-TakesLine (some text) d = tt
after_read-TakesLine none d = extract_found-TakesLine d (find b'\n' d.read_buffer) refl

pub limit_of : Link → ℕ
limit_of link = elim link.dialog [ none ↦ 0 | some d ↦ d.max_line_length ]

-- The same of a call on the link, about all the bytes ahead.
abbrev pub IsLineOf : Link → Result Exception Bytes × Link → Type 0
IsLineOf link (err e, after) = Unit
IsLineOf link (ok line, after) =
    (eol : Bytes) × IsEol line eol
    × (ahead link ≡ line ++ (eol ++ ahead after))
    × (contains b'\n' line ≡ false)
    × (length line ≤ limit_of link)

-- What is taken from the buffer of a dialog is taken from the bytes ahead.
in_link-IsLineOf :
    (link : Link) (net : Network) (before : Bytes) (r : Result Exception Bytes × Dialog)
    → ahead link ≡ before ++ coming net.reads
    → TakesLine (limit_of link) before r
    → IsLineOf link (in_link net r)
unfolding ahead buffered
in_link-IsLineOf link net before (err e, after) h takes = tt
in_link-IsLineOf link net before (ok line, after) h (eol, is_eol, splits, no_lf, fits) = (
  eol,
  is_eol,
  h
      ∙ ap (λ t. t ++ coming net.reads) splits
      ∙ append_assoc line (eol ++ after.read_buffer) (coming net.reads)
      ∙ ap (λ t. line ++ t) (append_assoc eol after.read_buffer (coming net.reads)),
  no_lf,
  fits,
)

read_more-IsLineOf :
    (d : Dialog) (net : Network) (reads : List (Bytes × Option Bytes))
    → net.reads ≡ reads
    → IsLineOf (record { dialog = some d; network = net }) (read_more d net reads)
unfolding read_more ahead buffered coming limit_of
read_more-IsLineOf d net [] h = tt
read_more-IsLineOf d net ((bytes, outcome) ∷ later) h =
    in_link-IsLineOf (record { dialog = some d; network = net }) (record net { reads = later })
      (d.read_buffer ++ bytes)
      (after_read outcome (record d { read_buffer = d.read_buffer ++ bytes }))
      (ap (λ r. d.read_buffer ++ coming r) h
        ∙ sym (append_assoc d.read_buffer bytes (coming later)))
      (after_read-TakesLine outcome (record d { read_buffer = d.read_buffer ++ bytes }))

read_found-IsLineOf :
    (d : Dialog) (net : Network) (place : Option ℕ)
    → find b'\n' d.read_buffer ≡ place
    → IsLineOf (record { dialog = some d; network = net }) (read_found d net place)
unfolding read_found ahead buffered limit_of
read_found-IsLineOf d net none h = read_more-IsLineOf d net net.reads refl
read_found-IsLineOf d net (some pos) h =
    in_link-IsLineOf (record { dialog = some d; network = net }) net d.read_buffer (extract d pos)
      refl (extract-TakesLine d pos h)

read_from-IsLineOf :
    (dialog : Option Dialog) (net : Network)
    → IsLineOf
        (record { dialog = dialog; network = net })
        (read_line (record { dialog = dialog; network = net }))
unfolding read_line
read_from-IsLineOf none net = tt
read_from-IsLineOf (some d) net = read_found-IsLineOf d net (find b'\n' d.read_buffer) refl

-- A line that is returned is what stands before the first LF of the bytes ahead, always less one CR
-- right before it, however these bytes are split between the buffer and the reads; the reader is
-- behind the line end then, and the line is within the limit of the dialog.
pub read_line-IsLineOf : (link : Link) → IsLineOf link (read_line link)
read_line-IsLineOf link = read_from-IsLineOf link.dialog link.network

length-coming : (reads : List (Bytes × Option Bytes)) → length (coming reads) ≡ pending reads
unfolding coming pending
length-coming [] = refl
length-coming ((bytes, outcome) ∷ later) =
    omega (arith, length-append bytes (coming later), length-coming later)

ahead_of-available :
    (dialog : Option Dialog) (net : Network)
    → length (ahead (record { dialog = dialog; network = net }))
      ≡ available (record { dialog = dialog; network = net })
unfolding ahead buffered available
ahead_of-available none net = omega (arith, length-coming net.reads)
ahead_of-available (some d) net =
    omega (arith, length-append d.read_buffer (coming net.reads), length-coming net.reads)

ahead-available : (link : Link) → length (ahead link) ≡ available link
ahead-available link = ahead_of-available link.dialog link.network

eol-length : (line eol : Bytes) → IsEol line eol → 1 ≤ length eol
eol-length line _ (lf no_cr) = omega arith
eol-length line _ crlf = omega arith

-- A line that is returned has taken at least its end.
pub read_line-available :
    (link : Link) {line : Bytes} {after : Link}
    → read_line link ≡ (ok line, after)
    → available after < available link
read_line-available link {line} {after} h =
    let (eol, is_eol, splits, _, _) = subst (λ r. IsLineOf link r) h (read_line-IsLineOf link) in
    let total = ap length splits in
    omega (
      arith,
      total,
      ahead-available link,
      ahead-available after,
      eol-length line eol is_eol,
      length-append line (eol ++ ahead after),
      length-append eol (ahead after),
    )

-- A call that has not run out of fuel.
extract-decided : (d : Dialog) (pos : ℕ) → is_decided ((extract d pos).0) ≡ true
unfolding extract
extract-decided d pos = ground arith

extract_found-decided :
    (d : Dialog) (place : Option ℕ) → is_decided ((extract_found d place).0) ≡ true
unfolding extract_found
extract_found-decided d none = refl
extract_found-decided d (some pos) = extract-decided d pos

after_read-decided :
    (outcome : Option Bytes) (d : Dialog) → is_decided ((after_read outcome d).0) ≡ true
unfolding after_read
after_read-decided (some text) d = refl
after_read-decided none d = extract_found-decided d (find b'\n' d.read_buffer)

in_link-decided :
    (net : Network) (r : Result Exception Bytes × Dialog)
    → is_decided (r.0) ≡ true
    → is_decided ((in_link net r).0) ≡ true
in_link-decided net (r, d) h = h

read_more-decided :
    (d : Dialog) (net : Network) (reads : List (Bytes × Option Bytes))
    → is_decided ((read_more d net reads).0) ≡ true
unfolding read_more
read_more-decided d net [] = refl
read_more-decided d net ((bytes, outcome) ∷ later) =
    in_link-decided (record net { reads = later })
      (after_read outcome (record d { read_buffer = d.read_buffer ++ bytes }))
      (after_read-decided outcome (record d { read_buffer = d.read_buffer ++ bytes }))

read_found-decided :
    (d : Dialog) (net : Network) (place : Option ℕ) → is_decided ((read_found d net place).0) ≡ true
unfolding read_found
read_found-decided d net none = read_more-decided d net net.reads
read_found-decided d net (some pos) = in_link-decided net (extract d pos) (extract-decided d pos)

read_from-decided :
    (dialog : Option Dialog) (net : Network)
    → is_decided ((read_line (record { dialog = dialog; network = net })).0) ≡ true
unfolding read_line not_established
read_from-decided none net = refl
read_from-decided (some d) net = read_found-decided d net (find b'\n' d.read_buffer)

pub read_line-decided : (link : Link) → is_decided ((read_line link).0) ≡ true
read_line-decided link = read_from-decided link.dialog link.network
