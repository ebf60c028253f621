-- ===== src/Codec/Bit7.antt =====
-- include/mailxx/codec/bit7.hpp. The characters are bytes: where `char` is signed those
-- from 128 on are below zero, which is how the strict mode excludes them.
pub mod Lengths
mod Tests
use mailio.Base.{
  ℕ, zero, suc, ◌+◌, ◌-◌, ◌≡◌, refl, Bool, true, false, not, ◌&&◌, ◌||◌, List, [], ◌∷◌, ◌++◌, ltb,
  leb, ◌==◌, if◌then◌else◌,
}
use mailio.Base.Bytes.{Bytes, codes, length, take, drop, is_empty, contains, all_of}
use mailio.Base.Result.{Result, ok, err, ◌>>=◌}
use mailio.Codec.{Codec, CodecError, bad_character, line_policy_overflow}

-- `strict` is `strict_mode_`.
is_allowed : Bool → ℕ → Bool
is_allowed strict ch =
    let plain = not (ch == 0) && not (ch == b'\r') && not (ch == b'\n') in
    if strict then ltb 0 ch && leb ch 126 && not (ch == b'\r') && not (ch == b'\n') else plain

-- The variables of `encode`.
pub record Encoder : Type 0 where
  pub enc_text : List Bytes
  pub line : Bytes
  pub line_len : ℕ
  pub delim_pos : ℕ
  pub policy : ℕ

add_new_line : Codec → Bool → Encoder → Encoder
add_new_line c is_folding e =
    if is_folding && ltb 0 e.delim_pos
    then record {
      enc_text = e.enc_text ++ take e.delim_pos e.line ∷ [];
      line = drop e.delim_pos e.line;
      line_len = e.line_len - e.delim_pos;
      delim_pos = 0;
      policy = c.lines_policy;
    }
    else record e {
      enc_text = e.enc_text ++ e.line ∷ [];
      line = [];
      line_len = 0;
      policy = c.lines_policy;
    }

add_char : Encoder → ℕ → Encoder
add_char e ch = record e {
  line = e.line ++ ch ∷ [];
  line_len = e.line_len + 1;
  delim_pos = if contains ch (codes " ,;") then e.line_len + 1 else e.delim_pos;
}

-- `if (line_len == policy) add_new_line(is_folding, line);`
wrap : Codec → Bool → Encoder → Encoder
wrap c is_folding e = if e.line_len == e.policy then add_new_line c is_folding e else e

-- The loop over the characters, which skips both of CRLF.
encode_chars : Codec → Bool → Bool → Encoder → Bytes → Result CodecError Encoder
encode_chars c strict is_folding e [] = ok e
encode_chars c strict is_folding e (ch ∷ []) =
    if is_allowed strict ch then ok (wrap c is_folding (add_char e ch)) else err (bad_character ch)
encode_chars c strict is_folding e (ch ∷ next ∷ text) = elim (is_allowed strict ch) [
  | true ↦ encode_chars c strict is_folding (wrap c is_folding (add_char e ch)) (next ∷ text)
  | false ↦ elim (ch == b'\r' && next == b'\n') [
    | true ↦ encode_chars c strict is_folding (wrap c is_folding (add_new_line c is_folding e)) text
    | false ↦ err (bad_character ch)
  ]
]

-- `while (!enc_text.empty() && enc_text.back().empty()) enc_text.pop_back();`
drop_empty : List Bytes → List Bytes
drop_empty [] = []
drop_empty (line ∷ lines) =
    let rest = drop_empty lines in if is_empty line && is_empty rest then [] else line ∷ rest

close : Encoder → List Bytes
close e = drop_empty (if is_empty e.line then e.enc_text else (e.enc_text ++ e.line ∷ []))

start : Codec → Encoder
start c = record { enc_text = []; line = []; line_len = 0; delim_pos = 0; policy = c.line1_policy }

pub encode : Codec → Bool → Bytes → Result CodecError (List Bytes)
encode c strict text = do
  let is_folding = not (c.line1_policy == c.lines_policy)
  e ← encode_chars c strict is_folding (start c) text
  ok (close e)

-- The characters of a line, the first that is not allowed thrown.
decode_chars : Bool → Bytes → Result CodecError (Unit {0})
decode_chars strict [] = ok tt
decode_chars strict (ch ∷ line) =
    let rest = decode_chars strict line in
    if is_allowed strict ch then rest else err (bad_character ch)

decode_lines : Codec → Bool → Bytes → List Bytes → Result CodecError Bytes
decode_lines c strict dec_text [] = ok dec_text
decode_lines c strict dec_text (line ∷ text) =
    if ltb c.lines_policy (length line) then err line_policy_overflow else do
      checked ← decode_chars strict line
      decode_lines c strict (dec_text ++ (line ++ b'\r' ∷ b'\n' ∷ [])) text

-- `boost::trim_right` is the library's.
module _ (trim_right : Bytes → Bytes) where
  decode : Codec → Bool → List Bytes → Result CodecError Bytes
  decode c strict text = do dec_text ← decode_lines c strict [] text; ok (trim_right dec_text)
