-- ===== src/Imap/Astring.antt =====
-- include/mailxx/imap/types.hpp: `to_astring` and `to_mailbox`, the quoted strings of a command.
pub mod Quoted
use mailio.Base.{ℕ, Option, none, some, List, [], ◌∷◌}
use mailio.Base.Bytes.{Bytes, codes}
use mailio.Base.Result.{Result, ok, err, ◌>>=◌, map_error}
use mailio.Codec.Text.{escape_string, surround_string}
use mailio.Imap.Utf7.{Utf7Error, encode_modified_utf7}
use mailio.Wire.{ensure_no_crlf_or_nul}

-- The exceptions `std::invalid_argument`: of a string that is checked, and of a mailbox's name.
pub data CommandError : Type 0 where
  invalid_field : Bytes → CommandError
  invalid_mailbox : Utf7Error → CommandError

unfoldable pub ensure_clean : Bytes → Bytes → Result CommandError (Unit {0})
ensure_clean value field_name =
    map_error invalid_field (ensure_no_crlf_or_nul value (some field_name))

unfoldable pub to_astring : Bytes → Result CommandError Bytes
to_astring text = do
  checked ← ensure_clean text (codes "astring")
  ok (surround_string (escape_string text (codes "\"\\")) b'"')

unfoldable pub to_mailbox : Bytes → Result CommandError Bytes
to_mailbox utf8_mailbox =
    map_error invalid_mailbox (encode_modified_utf7 utf8_mailbox) >>= to_astring
