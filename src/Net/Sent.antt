-- ===== src/Net/Sent.antt =====
-- net/dialog.hpp: what has been handed to the stream.
use mailio.Base.{
  ℕ, zero, suc, ◌-◌, ◌≡◌, refl, sym, subst, true, false, Option, none, some, List, [], ◌∷◌, ◌++◌,
  arith, ◌==◌,
}
use mailio.Base.Bytes.{Bytes, All, length, drop, back_or, find, equal}
use mailio.Base.Action.{is_decided}
use mailio.Wire.{contains_crlf_or_nul}
use mailio.Wire.Clean.{IsClean}
use mailio.Net.{
  Dialog, Network, Link, Written, line_of, raw, hello, read_found, read_more, read_line,
  ends_with_crlf, normalize_line, outcome_of, take_outcome, async_write, write, not_established,
  async_connect, handshake,
}

read_more-sent :
    (d : Dialog) (net : Network) (reads : List (Bytes × Option Bytes))
    → (read_more d net reads).1.network.sent ≡ net.sent
unfolding read_more
read_more-sent d net [] = refl
read_more-sent d net ((bytes, outcome) ∷ later) = refl

read_found-sent :
    (d : Dialog) (net : Network) (place : Option ℕ)
    → (read_found d net place).1.network.sent ≡ net.sent
unfolding read_found
read_found-sent d net none = read_more-sent d net net.reads
read_found-sent d net (some pos) = refl

read_from-sent :
    (dialog : Option Dialog) (net : Network)
    → (read_line (record { dialog = dialog; network = net })).1.network.sent ≡ net.sent
unfolding read_line
read_from-sent none net = refl
read_from-sent (some d) net = read_found-sent d net (find b'\n' d.read_buffer)

-- Reading writes nothing.
pub read_line-sent : (link : Link) → (read_line link).1.network.sent ≡ link.network.sent
read_line-sent link = read_from-sent link.dialog link.network

IsClean-drop : (n : ℕ) (s : Bytes) → IsClean s → IsClean (drop n s)
unfolding contains_crlf_or_nul
IsClean-drop zero s h = h
IsClean-drop (suc n) [] h = h
IsClean-drop (suc n) (c ∷ s) h = IsClean-drop n s (ground arith)

IsClean-back :
    (s : Bytes) (d : ℕ)
    → IsClean (d ∷ s)
    → ((back_or s d == b'\n') ≡ false) × ((back_or s d == b'\r') ≡ false)
unfolding contains_crlf_or_nul
IsClean-back [] d h = ground arith
IsClean-back (c ∷ s) d h = IsClean-back s c (ground arith)

IsClean-back_or :
    (s : Bytes) → IsClean s → ((back_or s 0 == b'\n') ≡ false) × ((back_or s 0 == b'\r') ≡ false)
IsClean-back_or [] h = (refl, refl)
IsClean-back_or (c ∷ s) h = IsClean-back s c h

crlf-unclean : (s : Bytes) → IsClean s → equal s (b'\r' ∷ b'\n' ∷ []) ≡ false
unfolding contains_crlf_or_nul equal
crlf-unclean [] h = refl
crlf-unclean (c ∷ []) h = ground arith
crlf-unclean (c ∷ d ∷ s) h = ground arith

ends_with_crlf-clean : (s : Bytes) → IsClean s → ends_with_crlf s ≡ false
unfolding ends_with_crlf
ends_with_crlf-clean s h =
    ground (arith, crlf-unclean (drop (length s - 2) s) (IsClean-drop (length s - 2) s h))

-- A line without line ends is written with CRLF behind it.
pub normalize_line-clean :
    (line : Bytes) → IsClean line → normalize_line line ≡ line ++ b'\r' ∷ b'\n' ∷ []
unfolding normalize_line
normalize_line-clean line h =
    rw (ends_with_crlf-clean line h, (IsClean-back_or line h).0, (IsClean-back_or line h).1)

-- What may be written: a clean line with its end, data, or a handshake with a clean name.
abbrev pub IsCleanWrite : Written → Type 0
IsCleanWrite (line_of payload) =
    (line : Bytes) × IsClean line × (payload ≡ line ++ b'\r' ∷ b'\n' ∷ [])
IsCleanWrite (raw payload) = Unit
IsCleanWrite (hello name) = IsClean name

pub line-IsCleanWrite : (line : Bytes) → IsClean line → IsCleanWrite (line_of (normalize_line line))
line-IsCleanWrite line h = (line, h, normalize_line-clean line h)

pub outcome_of-decided : (outcome : Option Bytes) → is_decided (outcome_of outcome) ≡ true
outcome_of-decided none = refl
outcome_of-decided (some text) = refl

-- What is known of a write: it hands the payload over or, without a dialog, nothing.
pub write-sent :
    (payload : Written) (dialog : Option Dialog) (net : Network)
    → let outcome = write payload (record { dialog = dialog; network = net }) in
      (is_decided (outcome.0) ≡ true)
      × (outcome.1.network.sent ≡ elim dialog [ none ↦ net.sent | some d ↦ payload ∷ net.sent ])
unfolding write async_write not_established
write-sent payload none net = (refl, refl)
write-sent payload (some d) net = (outcome_of-decided (take_outcome net.writes).0, refl)

-- A clean write keeps what has been written clean, and ends.
pub link_write-Safe :
    (payload : Written) (dialog : Option Dialog) (net : Network)
    → IsCleanWrite payload
    → All IsCleanWrite net.sent
    → let outcome = write payload (record { dialog = dialog; network = net }) in
      (is_decided (outcome.0) ≡ true) × All IsCleanWrite (outcome.1.network.sent)
link_write-Safe payload none net h kept =
    let (decided, sent) = write-sent payload none net in
    (decided, subst (All IsCleanWrite) (sym sent) kept)
link_write-Safe payload (some d) net h kept =
    let (decided, sent) = write-sent payload (some d) net in
    (decided, subst (All IsCleanWrite) (sym sent) (h, kept))

pub handshake-decided : (name : Bytes) (link : Link) → is_decided ((handshake name link).0) ≡ true
unfolding handshake
handshake-decided name link = outcome_of-decided (take_outcome link.network.handshakes).0

pub async_connect-decided : (link : Link) → is_decided ((async_connect link).0) ≡ true
unfolding async_connect
async_connect-decided link = outcome_of-decided (take_outcome link.network.connects).0

pub handshake-sent :
    (name : Bytes) (link : Link)
    → (handshake name link).1.network.sent ≡ hello name ∷ link.network.sent
unfolding handshake
handshake-sent name link = refl

pub async_connect-sent : (link : Link) → (async_connect link).1.network.sent ≡ link.network.sent
unfolding async_connect
async_connect-sent link = refl
