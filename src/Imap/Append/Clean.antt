-- ===== src/Imap/Append/Clean.antt =====
-- imap/types.hpp: the characters of an APPEND command.
use mailio.Base.{ℕ, ◌≡◌, refl, subst, Bool, true, false, [], ◌∷◌, Bool-cases, inl, inr}
use mailio.Base.Bytes.{Bytes, codes, is_empty}
use mailio.Base.Result.{Result, ok, ◌>>=◌, bind-eq-ok}
use mailio.Wire.{append_sv, append_char, append_space, append_uint, contains_crlf_or_nul}
use mailio.Wire.Clean.{
  IsClean, append_sv-IsClean, append_char-IsClean, append_space-IsClean, append_uint-IsClean,
}
use mailio.Imap.Astring.{ensure_clean, to_astring, to_mailbox}
use mailio.Imap.Astring.Quoted.{to_astring-IsClean, ensure_clean-IsClean, to_mailbox-IsClean}
use mailio.Imap.Append.{append_flags, append_date_time, append_size, build_append_command}

append_flags-IsClean :
    (cmd flags : Bytes) → IsClean cmd → IsClean flags → IsClean (append_flags cmd flags)
unfolding append_flags
append_flags-IsClean cmd flags h k = elim (Bool-cases (is_empty flags)) [
  | inl e ↦ rw e h
  | inr e ↦ rw e (append_sv-IsClean (append_space cmd) flags (append_space-IsClean cmd h) k)
]

ok-IsClean :
    {E : Type 0} (s t : Bytes) → IsClean s → Path (Result E Bytes) (ok s) (ok t) → IsClean t
ok-IsClean s t h e = let same : s ≡ t = (cc) in subst IsClean same h

date_time-IsClean :
    (cmd date_time out : Bytes)
    → IsClean cmd
    → (to_astring date_time >>= λ dt. ok (append_sv (append_space cmd) dt)) ≡ ok out
    → IsClean out
date_time-IsClean cmd date_time out h k =
    let (dt, quoted, e) =
      bind-eq-ok (to_astring date_time) (λ dt. ok (append_sv (append_space cmd) dt)) k in
    ok-IsClean _ out
      (append_sv-IsClean (append_space cmd) dt (append_space-IsClean cmd h)
        (to_astring-IsClean date_time dt quoted))
      e

append_date_time-IsClean :
    (cmd date_time out : Bytes)
    → IsClean cmd
    → append_date_time cmd date_time ≡ ok out
    → IsClean out
unfolding append_date_time
append_date_time-IsClean cmd [] out h k = ok-IsClean cmd out h k
append_date_time-IsClean cmd (c ∷ date_time) out h k = date_time-IsClean cmd (c ∷ date_time) out h k

front-IsClean :
    (cmd : Bytes) (size : ℕ)
    → IsClean cmd
    → IsClean (append_uint (append_char (append_space cmd) b'{') size)
front-IsClean cmd size h =
    append_uint-IsClean _ size (append_char-IsClean _ b'{' (append_space-IsClean cmd h) refl)

append_size-IsClean :
    (cmd : Bytes) (size : ℕ) (plus : Bool) → IsClean cmd → IsClean (append_size cmd size plus)
unfolding append_size
append_size-IsClean cmd size true h =
    append_char-IsClean _ b'}' (append_char-IsClean _ b'+' (front-IsClean cmd size h) refl) refl
append_size-IsClean cmd size false h = append_char-IsClean _ b'}' (front-IsClean cmd size h) refl

nil-IsClean : IsClean []
unfolding contains_crlf_or_nul
nil-IsClean = refl

word-IsClean : IsClean (codes "APPEND")
unfolding contains_crlf_or_nul
word-IsClean = refl

append_word : IsClean (append_space (append_sv [] (codes "APPEND")))
append_word =
    append_space-IsClean _ (append_sv-IsClean [] (codes "APPEND") nil-IsClean word-IsClean)

-- An APPEND command that is returned holds no CR, no LF and no NUL, whatever the arguments were.
pub build_append_command-IsClean :
    (mailbox : Bytes) (size : ℕ) (flags date_time : Bytes) (literal_plus : Bool) (cmd : Bytes)
    → build_append_command mailbox size flags date_time literal_plus ≡ ok cmd
    → IsClean cmd
unfolding build_append_command
build_append_command-IsClean mailbox size flags date_time literal_plus cmd h =
    let (a, mailbox_clean, h1) = bind-eq-ok (ensure_clean mailbox (codes "mailbox")) _ h in
    let (b, flags_ok, h2) = bind-eq-ok (ensure_clean flags (codes "flags")) _ h1 in
    let (c, date_clean, h3) = bind-eq-ok (ensure_clean date_time (codes "date_time")) _ h2 in
    let (q, quoted, h4) = bind-eq-ok (to_mailbox mailbox) _ h3 in
    let (out, dated, h5) =
      bind-eq-ok
        (append_date_time
          (append_flags (append_sv (append_space (append_sv [] (codes "APPEND"))) q) flags)
          date_time)
        _ h4 in
    ok-IsClean _ cmd
      (append_size-IsClean out size literal_plus (
        append_date_time-IsClean _ date_time out
          (append_flags-IsClean _ flags
            (append_sv-IsClean _ q append_word (to_mailbox-IsClean mailbox q quoted))
            (ensure_clean-IsClean flags (codes "flags") flags_ok))
          dated))
      h5
