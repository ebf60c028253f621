-- ===== src/Smtp/Clean.antt =====
-- smtp/types.hpp: the characters of a MAIL FROM command.
use mailio.Base.{ℕ, ◌≡◌, refl, Bool, true, false, ◌&&◌, some, [], if◌then◌else◌}
use mailio.Base.Bytes.{Bytes, codes}
use mailio.Base.Result.{ok, err}
use mailio.Wire.{contains_crlf_or_nul, append_sv}
use mailio.Wire.Clean.{
  IsClean, append_sv-IsClean, append_uint-IsClean, append_angle_addr-IsClean, IsClean-ensure,
  ensure-refuses,
}
use mailio.Smtp.{MailExtensionFlags, append_mail_extensions, build_mail_from_command}

-- A string of the source, or what was there before.
if-IsClean : (b : Bool) (s t : Bytes) → IsClean s → IsClean t → IsClean (if b then s else t)
if-IsClean true s t h k = h
if-IsClean false s t h k = k

literal-IsClean :
    IsClean (codes " SIZE=") × IsClean (codes " SMTPUTF8") × IsClean (codes " BODY=8BITMIME")
unfolding contains_crlf_or_nul
literal-IsClean = (refl, refl, refl)

pub append_mail_extensions-IsClean :
    (cmd : Bytes) (size : ℕ) (has_8bit needs_utf8 : Bool) (flags : MailExtensionFlags)
    → IsClean cmd
    → IsClean (append_mail_extensions cmd size has_8bit needs_utf8 flags)
unfolding append_mail_extensions
append_mail_extensions-IsClean cmd size has_8bit needs_utf8 flags h =
    let (size_clean, utf8_clean, body_clean) = literal-IsClean in
    let first =
      if-IsClean (flags.use_size && flags.supports_size) _ _
        (append_uint-IsClean _ size (append_sv-IsClean cmd _ h size_clean)) h in
    let second =
      if-IsClean (flags.use_smtputf8 && flags.supports_smtputf8 && needs_utf8) _ _
        (append_sv-IsClean _ _ first utf8_clean) first in
    if-IsClean (flags.use_8bitmime && flags.supports_8bitmime && has_8bit) _ _
      (append_sv-IsClean _ _ second body_clean) second

words-IsClean : IsClean [] × IsClean (codes "MAIL FROM: ")
unfolding contains_crlf_or_nul
words-IsClean = (refl, refl)

pub mail_from_IsClean : IsClean (append_sv [] (codes "MAIL FROM: "))
mail_from_IsClean = append_sv-IsClean [] (codes "MAIL FROM: ") (words-IsClean.0) (words-IsClean.1)

-- For a sender without CR, LF and NUL a MAIL FROM command is built and holds none of them either;
-- any other sender is refused.
pub build_mail_from_command-IsClean :
    (mail_from : Bytes) (size : ℕ) (has_8bit needs_utf8 : Bool) (flags : MailExtensionFlags)
    → (IsClean mail_from
        → (cmd : Bytes) × (build_mail_from_command mail_from size has_8bit needs_utf8 flags
            ≡ ok cmd)
          × IsClean cmd)
      × (contains_crlf_or_nul mail_from ≡ true
          → build_mail_from_command mail_from size has_8bit needs_utf8 flags
            ≡ err (codes "Invalid mail_from: CR/LF or NUL not allowed."))
unfolding build_mail_from_command
build_mail_from_command-IsClean mail_from size has_8bit needs_utf8 flags = (
  λ h. (
    _,
    rw (IsClean-ensure mail_from (some (codes "mail_from")) h),
    append_mail_extensions-IsClean _ size has_8bit needs_utf8 flags
        (append_angle_addr-IsClean _ mail_from mail_from_IsClean h),
  ),
  λ h. rw (ensure-refuses mail_from (codes "mail_from") h),
)
