-- ===== src/Smtp/Tests.antt =====
-- smtp/types.hpp at concrete inputs.
use mailio.Base.{◌≡◌, refl, true, false, [], ◌∷◌, if◌then◌else◌}
use mailio.Base.Bytes.{Bytes, codes}
use mailio.Base.Result.{ok, err}
use mailio.Wire.{contains_crlf_or_nul}
use mailio.Wire.Clean.{IsClean}
use mailio.Smtp.{
  Entries, MailExtensionFlags, build_mail_from_command, on_success_or_failure, has_flag,
  notify_string, notify_success, notify_failure, notify_delay, notify_never, add_condition, message,
  join_lines,
}
use mailio.Smtp.Clean.{build_mail_from_command-IsClean}
use mailio.Smtp.Notify.{comma_separated, conditions, notify_string_lem}

notify_run : notify_string on_success_or_failure ≡ codes "SUCCESS,FAILURE"
unfolding notify_string add_condition has_flag on_success_or_failure
notify_run = refl

message_run :
    message (record { status = 250; lines = codes "ok" ∷ codes "SIZE" ∷ [] }) ≡ codes "ok\nSIZE"
unfolding message join_lines
message_run = refl

abbrev flags : MailExtensionFlags
flags = record {
  use_size = true;
  use_smtputf8 = false;
  use_8bitmime = true;
  supports_size = true;
  supports_smtputf8 = false;
  supports_8bitmime = true;
}

build_mail_from_command-IsClean_example :
    (IsClean (codes "a@b")
      → (cmd : Bytes) × (build_mail_from_command (codes "a@b") 120 true false flags ≡ ok cmd)
        × IsClean cmd)
    × (contains_crlf_or_nul (codes "a@b") ≡ true
        → build_mail_from_command (codes "a@b") 120 true false flags
          ≡ err (codes "Invalid mail_from: CR/LF or NUL not allowed."))
build_mail_from_command-IsClean_example =
    build_mail_from_command-IsClean (codes "a@b") 120 true false flags

notify_string_lem_example : notify_string on_success_or_failure ≡ (
    if has_flag on_success_or_failure.notify notify_never
    then codes "NEVER"
    else comma_separated (
        conditions
          (has_flag on_success_or_failure.notify notify_success)
          (has_flag on_success_or_failure.notify notify_failure)
          (has_flag on_success_or_failure.notify notify_delay)))
notify_string_lem_example = notify_string_lem on_success_or_failure

abbrev server : Entries
server = (codes "SIZE", codes "1000" ∷ []) ∷ []
