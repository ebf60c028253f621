-- ===== src/Codec/Base64.antt =====
-- include/mailxx/codec/base64.hpp: the encoder, octet by octet, and the decoder, line by line.
pub mod Sextets
pub mod Encoding
pub mod RoundTrip
pub mod Alphabet
use Prim.Native.Nat.{bit_and}
use mathlib.Core.Option
use mailio.Base.{
  ℕ, suc, ◌+◌, ◌-◌, ◌*◌, ◌/◌, ◌%◌, ◌^◌, Bool, true, false, not, ◌||◌, Option, none, some, List, [],
  ◌∷◌, ◌++◌, map, ltb, leb, ◌==◌, within, if◌then◌else◌,
}
use mailio.Base.Bytes.{
  Bytes, codes, length, take, get_or, is_empty, find, replicate, uchar, sub_size,
}
use mailio.Base.Result.{Result, ok, err, ◌>>=◌}
use mailio.Codec.{Codec, CodecError, bad_line_policy, bad_character}

abbrev pub charset : Bytes
charset = codes "ABCDEFGHIJKLMNOPQRSTUVWXYZabcdefghijklmnopqrstuvwxyz0123456789+/"

abbrev pub sextets_no : ℕ
sextets_no = 4

abbrev pub octets_no : ℕ
octets_no = 3

-- The constructor rounds both policies down to a multiple of four.
pub make : ℕ → ℕ → Codec
make line1_policy lines_policy = record {
  line1_policy = line1_policy - line1_policy % sextets_no;
  lines_policy = lines_policy - lines_policy % sextets_no;
}

-- The four sextets of three octets.
pub sextets : ℕ → ℕ → ℕ → List ℕ
sextets o0 o1 o2 =
    uchar (bit_and o0 0xfc / 2 ^ 2)
    ∷ uchar (bit_and o0 0x03 * 2 ^ 4 + bit_and o1 0xf0 / 2 ^ 4)
    ∷ uchar (bit_and o1 0x0f * 2 ^ 2 + bit_and o2 0xc0 / 2 ^ 6)
    ∷ uchar (bit_and o2 0x3f)
    ∷ []

pub digit : ℕ → ℕ
digit s = get_or charset s 0

-- The characters of the octets filled in; a missing octet is zero.
pub quantum : Bytes → Bytes
quantum octets = map digit (sextets (get_or octets 0 0) (get_or octets 1 0) (get_or octets 2 0))

-- The variables of the loop; `sextets_counter` is the number of octets filled in.
pub record Encoder : Type 0 where
  pub enc_text : List Bytes
  pub octets : Bytes
  pub line : Bytes
  pub line_len : ℕ
  pub policy : ℕ

pub add_new_line : Codec → Encoder → Encoder
add_new_line c e = record e {
  enc_text = e.enc_text ++ e.line ∷ [];
  line = [];
  line_len = 0;
  policy = c.lines_policy;
}

pub take_octet : Encoder → ℕ → Encoder
take_octet e ch =
    let octets = e.octets ++ ch ∷ [] in
    if length octets == octets_no
    then record e {
      octets = [];
      line = e.line ++ quantum octets;
      line_len = e.line_len + sextets_no;
    }
    else record e { octets = octets }

pub encode_char : Codec → Encoder → ℕ → Encoder
encode_char c e ch =
    let next = take_octet e ch in
    if leb next.policy next.line_len then add_new_line c next else next

pub encode_chars : Codec → Encoder → Bytes → Encoder
encode_chars c e [] = e
encode_chars c e (ch ∷ text) = encode_chars c (encode_char c e ch) text

-- One round of the two loops that write the last characters.
pub emit : Codec → Encoder → ℕ → Encoder
emit c e ch =
    let at = if leb e.policy e.line_len then add_new_line c e else e in
    record at { line = at.line ++ ch ∷ []; line_len = at.line_len + 1 }

pub emit_all : Codec → Encoder → Bytes → Encoder
emit_all c e [] = e
emit_all c e (ch ∷ rest) = emit_all c (emit c e ch) rest

-- The remaining characters, if any, and the padding.
pub encode_remaining : Codec → Encoder → Encoder
encode_remaining c e =
    let counter = length e.octets in
    if ltb 0 counter
    then (let at = if leb (sub_size e.policy octets_no) e.line_len then add_new_line c e else e in
        let written = emit_all c at (take (counter + 1) (quantum e.octets)) in
        emit_all c written (replicate (octets_no - counter) b'='))
    else e

pub start : Codec → Encoder
start c = record { enc_text = []; octets = []; line = []; line_len = 0; policy = c.line1_policy }

pub close : Encoder → List Bytes
close e = if not (is_empty e.line) then e.enc_text ++ e.line ∷ [] else e.enc_text

pub encode : Codec → Bytes → List Bytes
encode c text = close (encode_remaining c (encode_chars c (start c) text))

pub is_allowed : ℕ → Bool
is_allowed ch =
    (within b'a' b'z' ch || within b'A' b'Z' ch || within b'0' b'9' ch) || ch == b'+' || ch == b'/'

-- `static_cast<unsigned char>(CHARSET.find(ch))`; `npos` becomes 255.
pub index : ℕ → ℕ
index ch = elim (find ch charset) [ none ↦ 255 | some i ↦ uchar i ]

-- The three octets of four sextets.
pub octets_of : ℕ → ℕ → ℕ → ℕ → Bytes
octets_of s0 s1 s2 s3 =
    uchar (s0 * 2 ^ 2 + bit_and s1 0x30 / 2 ^ 4)
    ∷ uchar (bit_and s1 0xf * 2 ^ 4 + bit_and s2 0x3c / 2 ^ 2)
    ∷ uchar (bit_and s2 0x3 * 2 ^ 6 + s3)
    ∷ []

-- The array `sextets` after the loop that looks its entries up; an entry not filled in is zero.
pub indices : Bytes → List ℕ
indices s =
    index (get_or s 0 0) ∷ index (get_or s 1 0) ∷ index (get_or s 2 0) ∷ index (get_or s 3 0) ∷ []

pub decoded : List ℕ → Bytes
decoded s = octets_of (get_or s 0 0) (get_or s 1 0) (get_or s 2 0) (get_or s 3 0)

-- The variables of `decode`; `count_4_chars` is the number of entries of `sextets` filled in.
pub record Decoder : Type 0 where
  pub sextets : List ℕ
  pub dec_text : Bytes

-- `sextets[count_4_chars++] = ch`, and what follows when four are there.
pub take_sextet : Decoder → ℕ → Decoder
take_sextet d ch =
    let filled = d.sextets ++ ch ∷ [] in
    if length filled == sextets_no
    then record { sextets = []; dec_text = d.dec_text ++ decoded (indices filled) }
    else record d { sextets = filled }

pub decode_char : Decoder → ℕ → Result CodecError Decoder
decode_char d ch = if not (is_allowed ch) then err (bad_character ch) else ok (take_sextet d ch)

-- The loop over a line, which ends at the first `=`.
pub decode_chars : Decoder → Bytes → Result CodecError Decoder
decode_chars d [] = ok d
decode_chars d (ch ∷ line) =
    let rest = decode_char d ch >>= (λ d'. decode_chars d' line) in
    if ch == b'=' then ok d else rest

-- What a line leaves over. The counter is not reset: the looked-up sextets stay in the array.
pub decode_remaining : Decoder → Decoder
decode_remaining d =
    let count = length d.sextets in
    if ltb 0 count
    then record {
      sextets = take count (indices d.sextets);
      dec_text = d.dec_text ++ take (count - 1) (decoded (indices d.sextets));
    }
    else d

pub decode_line : Codec → Decoder → Bytes → Result CodecError Decoder
decode_line c d line =
    if ltb c.lines_policy (length line)
    then err bad_line_policy
    else do d' ← decode_chars d line; ok (decode_remaining d')

pub decode_lines : Codec → Decoder → List Bytes → Result CodecError Decoder
decode_lines c d [] = ok d
decode_lines c d (line ∷ text) = do d' ← decode_line c d line; decode_lines c d' text

pub decode : Codec → List Bytes → Result CodecError Bytes
decode c text = do d ← decode_lines c (record { sextets = []; dec_text = [] }) text; ok d.dec_text
