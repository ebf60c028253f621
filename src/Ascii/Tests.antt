-- ===== src/Ascii/Tests.antt =====
-- detail/ascii.hpp at concrete inputs.
use mailio.Base.{◌≡◌, refl, ◌≢◌, ◌↔◌, true, false, []}
use mailio.Base.Bytes.{codes, find, All}
use mailio.Ascii.{
  is_valid_header_name, is_valid_header_value, is_valid_message_id_strict, is_dot_atom_text,
  message_id_body, trim_view, trim_front, is_space, message_id_char, strict_at, dot_atom_loop,
  is_atext, is_ascii_alnum, is_ascii_alpha, is_ascii_digit, iequals_ascii, iequals_loop,
  ascii_tolower,
}
use mailio.Ascii.Headers.{IsFtext, is_valid_header_name_iff}
use mailio.Ascii.MessageId.{is_valid_message_id_strict_iff, IsMsgId}

runs :
    (is_valid_header_name (codes "X-Mailer") ≡ true)
    × (is_valid_header_name (codes "X:Y") ≡ false)
    × (is_valid_header_value (codes "a\nb") ≡ false)
    × (iequals_ascii (codes "utf-8") (codes "UTF-8") ≡ true)
unfolding is_valid_header_name is_valid_header_value iequals_ascii iequals_loop ascii_tolower
runs = (refl, refl, refl, refl)

is_valid_header_name_iff_example :
    (is_valid_header_name (codes "To") ≡ true) ↔ ((codes "To" ≢ []) × All IsFtext (codes "To"))
is_valid_header_name_iff_example = is_valid_header_name_iff (codes "To")

is_valid_message_id_strict_iff_example :
    (is_valid_message_id_strict (codes "<a.b@c>") ≡ true)
    ↔ IsMsgId (message_id_body (codes "<a.b@c>"))
is_valid_message_id_strict_iff_example = is_valid_message_id_strict_iff (codes "<a.b@c>")

strict_run : is_valid_message_id_strict (codes "<a.b@c>") ≡ true
unfolding is_valid_message_id_strict message_id_body trim_view trim_front is_space message_id_char
    strict_at dot_atom_loop is_dot_atom_text is_atext is_ascii_alnum is_ascii_alpha is_ascii_digit
    find
strict_run = refl
