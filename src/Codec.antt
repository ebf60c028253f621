-- ===== src/Codec.antt =====
-- include/mailxx/codec/codec.hpp: the line policies that every codec holds, and the errors that
-- the codecs throw.
pub mod Text
pub mod Base64
pub mod Percent
pub mod Bit7
mod Tests
use mailio.Base.{ℕ}

-- `line1_policy_` and `lines_policy_`
pub record Codec : Type 0 where
  pub line1_policy : ℕ
  pub lines_policy : ℕ

-- The exception `codec_error`, by the text it carries.
pub data CodecError : Type 0 where
  bad_line_policy : CodecError
  bad_character : ℕ → CodecError
  bad_escape : CodecError
  bad_hexadecimal_digit : CodecError
  bad_crlf : CodecError
  line_policy_overflow : CodecError
