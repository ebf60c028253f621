-- ===== src/Imap/Tests.antt =====
-- imap/types.hpp and imap/utf7.hpp: quoted strings, names and commands at concrete inputs.
use mailio.Base.{◌≡◌, refl, arith, true, false, some, [], ◌∷◌, ◌++◌}
use mailio.Base.Bytes.{Bytes, codes, All}
use mailio.Base.Result.{ok}
use mailio.Codec.Text.{escape_string, surround_string}
use mailio.Wire.{
  contains_crlf_or_nul, ensure_no_crlf_or_nul, append_sv, append_char, append_space, append_uint,
  to_chars,
}
use mailio.Wire.Clean.{IsClean}
use mailio.Imap.Utf7.Printable.{IsPlain, modified_utf7-plain}
use mailio.Imap.Astring.{to_astring, to_mailbox, ensure_clean}
use mailio.Imap.Astring.Quoted.{unquote, is_text_char, IsTextChar, to_astring-unquote}
use mailio.Imap.Append.{append_flags, append_date_time, append_size, build_append_command}
use mailio.Imap.Append.Clean.{build_append_command-IsClean}

quoting-IsTextChar : All IsTextChar (codes "a\"b\\c")
unfolding is_text_char
quoting-IsTextChar = (refl, (refl, (refl, (refl, (refl, tt)))))

to_astring-unquote_example :
    (q : Bytes) × (to_astring (codes "a\"b\\c") ≡ ok (b'"' ∷ q))
    × (unquote false (q ++ codes " x") ≡ some (codes "a\"b\\c", codes " x"))
to_astring-unquote_example = to_astring-unquote (codes "a\"b\\c") (codes " x") quoting-IsTextChar

IsPlain-i : IsPlain b'I'
IsPlain-i = (omega arith, omega arith, λ e. omega arith)

IsPlain-n : IsPlain b'N'
IsPlain-n = (omega arith, omega arith, λ e. omega arith)

IsPlain-b : IsPlain b'B'
IsPlain-b = (omega arith, omega arith, λ e. omega arith)

IsPlain-o : IsPlain b'O'
IsPlain-o = (omega arith, omega arith, λ e. omega arith)

IsPlain-x : IsPlain b'X'
IsPlain-x = (omega arith, omega arith, λ e. omega arith)

inbox-IsPlain : All IsPlain (codes "INBOX")
inbox-IsPlain = (IsPlain-i, (IsPlain-n, (IsPlain-b, (IsPlain-o, (IsPlain-x, tt)))))

append_run :
    build_append_command (codes "INBOX") 310 (codes "(\\Seen)") [] true
    ≡ ok (codes "APPEND \"INBOX\" (\\Seen) {310+}")
unfolding build_append_command append_flags append_date_time append_size ensure_clean to_mailbox
    to_astring ensure_no_crlf_or_nul contains_crlf_or_nul append_sv append_char append_space
    append_uint to_chars escape_string surround_string
append_run = rw ((modified_utf7-plain (codes "INBOX") inbox-IsPlain).0)

build_append_command-IsClean_example : IsClean (codes "APPEND \"INBOX\" (\\Seen) {310+}")
build_append_command-IsClean_example =
    build_append_command-IsClean (codes "INBOX") 310 (codes "(\\Seen)") [] true _ append_run
