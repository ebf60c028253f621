-- ===== src/Codec/Percent.antt =====
-- include/mailxx/codec/percent.hpp. `boost::to_upper_copy` is a parameter.
pub mod RoundTrip
use mailio.Base.{
  ℕ, ◌+◌, ◌*◌, ◌/◌, ◌%◌, ◌^◌, Bool, not, ◌&&◌, ◌||◌, List, [], ◌∷◌, ◌++◌, leb, ◌==◌, if◌then◌else◌,
}
use mailio.Base.Bytes.{Bytes, get_or, length, uchar, sub_size}
use mailio.Base.Result.{Result, ok, err, ◌>>=◌}
use mailio.Codec.{Codec, CodecError, bad_escape}
use mailio.Codec.Text.{is_alnum, is_xdigit, to_upper, hex_digits, hex_digit_to_int}

-- What one character adds to the line.
pub encode_char : ℕ → Bytes
encode_char ch =
    if is_alnum ch
    then ch ∷ []
    else b'%' ∷ get_or hex_digits (ch / 16) 0 ∷ get_or hex_digits (ch % 16) 0 ∷ []

pub record Encoder : Type 0 where
  pub enc_text : List Bytes
  pub enc_line : Bytes
  pub line_len : ℕ
  pub policy : ℕ

pub encode_step : Codec → Encoder → ℕ → Encoder
encode_step c e ch =
    let line = e.enc_line ++ encode_char ch in
    let len = e.line_len + (if is_alnum ch then 1 else 3) in
    if leb (sub_size e.policy 3) len
    then record {
      enc_text = e.enc_text ++ line ∷ [];
      enc_line = [];
      line_len = 0;
      policy = c.lines_policy;
    }
    else record e { enc_line = line; line_len = len }

pub encode_loop : Codec → Encoder → Bytes → Encoder
encode_loop c e [] = e
encode_loop c e (ch ∷ txt) = encode_loop c (encode_step c e ch) txt

module _ (to_upper_copy : Bytes → Bytes) where
  -- The charset and two separators.
  pub prefix : Bytes → Bytes
  prefix charset = to_upper_copy charset ++ b'\'' ∷ b'\'' ∷ []

  pub start : Codec → Bytes → Encoder
  start c charset = record {
    enc_text = [];
    enc_line = prefix charset;
    line_len = 0;
    policy = c.line1_policy;
  }

  pub encode : Codec → Bytes → Bytes → List Bytes
  encode c txt charset =
      let e = encode_loop c (start c charset) txt in e.enc_text ++ e.enc_line ∷ []

-- The byte of two hexadecimal digits, as it is appended to a string.
pub hex_byte : ℕ → ℕ → ℕ
hex_byte h l = uchar (hex_digit_to_int (to_upper h) * 2 ^ 4 + hex_digit_to_int (to_upper l))

abbrev prepend : ℕ → Result CodecError Bytes → Result CodecError Bytes
prepend ch r = r >>= λ t. ok (ch ∷ t)

-- Two characters must follow the `%`, and be hexadecimal digits.
pub decode : Bytes → Result CodecError Bytes
decode [] = ok []
decode (ch ∷ []) = if ch == b'%' then err bad_escape else ok (ch ∷ [])
decode (ch ∷ h ∷ []) =
    let rest = decode (h ∷ []) in if ch == b'%' then err bad_escape else prepend ch rest
decode (ch ∷ h ∷ l ∷ txt) =
    let escaped = prepend (hex_byte h l) (decode txt) in
    let plain = prepend ch (decode (h ∷ l ∷ txt)) in
    if ch == b'%'
    then if not (is_xdigit h) || not (is_xdigit l) then err bad_escape else escaped
    else plain
