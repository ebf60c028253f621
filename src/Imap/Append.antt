-- ===== src/Imap/Append.antt =====
-- include/mailxx/imap/types.hpp: `build_append_command`. Each `append_…` works on the command as
-- it stands after the one before.
pub mod Clean
use mailio.Base.{ℕ, Bool, Option, none, some, List, [], ◌∷◌, if◌then◌else◌}
use mailio.Base.Bytes.{Bytes, codes, is_empty}
use mailio.Base.Result.{Result, ok, err, ◌>>=◌}
use mailio.Imap.Astring.{CommandError, ensure_clean, to_astring, to_mailbox}
use mailio.Wire.{append_sv, append_char, append_space, append_uint}

unfoldable pub append_flags : Bytes → Bytes → Bytes
append_flags cmd flags = if is_empty flags then cmd else append_sv (append_space cmd) flags

unfoldable pub append_date_time : Bytes → Bytes → Result CommandError Bytes
append_date_time cmd date_time =
    if is_empty date_time
    then ok cmd
    else (to_astring date_time >>= λ dt. ok (append_sv (append_space cmd) dt))

unfoldable pub append_size : Bytes → ℕ → Bool → Bytes
append_size cmd size literal_plus =
    let cmd1 = append_uint (append_char (append_space cmd) b'{') size in
    append_char (if literal_plus then append_char cmd1 b'+' else cmd1) b'}'

unfoldable pub build_append_command : Bytes → ℕ → Bytes → Bytes → Bool → Result CommandError Bytes
build_append_command mailbox size flags date_time literal_plus = do
  a ← ensure_clean mailbox (codes "mailbox")
  b ← ensure_clean flags (codes "flags")
  c ← ensure_clean date_time (codes "date_time")
  mailbox_q ← to_mailbox mailbox
  cmd ←
      append_date_time
        (append_flags (append_sv (append_space (append_sv [] (codes "APPEND"))) mailbox_q) flags)
        date_time
  ok (append_size cmd size literal_plus)
