-- ===== src/Imap/Utf7/Tests.antt =====
-- imap/utf7.hpp at concrete inputs.
use mailio.Base.{◌≡◌, refl, [], ◌∷◌, ◌++◌, arith}
use mailio.Base.Bytes.{codes, find, All, IsByte}
use mailio.Base.Result.{ok, err, ◌>>=◌}
use mailio.Imap.Utf7.{
  encode_modified_utf7, decode_modified_utf7, encode_loop, decode_loop, decode_utf8, decode_two,
  decode_three, decode_four, encode_codepoint, flush_utf16, bytes_of, encode_modified_base64,
  letter, utf16_units, decode_escape, decode_shifted, decode_modified_base64, decode_base64_groups,
  value_or_throw, base64_value, decode_units, append_utf8, prepend, invalid_utf7,
}
use mailio.Imap.Utf7.Base64.{modified_base64-decode-encode}
use mailio.Imap.Utf7.Fuel.{IsDecided, modified_utf7-IsDecided}
use mailio.Imap.Utf7.Utf16.{IsScalar, units_of, utf8_of, decode_units-utf16}
use mailio.Imap.Utf7.Utf8.{utf8-decode-append}

-- "Entwürfe" and a smiley.
runs :
    (encode_modified_utf7 (codes "Entw" ++ 0xC3 ∷ 0xBC ∷ codes "rfe") ≡ ok (codes "Entw&APw-rfe"))
    × (encode_modified_utf7 (0xF0 ∷ 0x9F ∷ 0x98 ∷ 0x80 ∷ codes "&") ≡ ok (codes "&2D3eAA-&-"))
    × (decode_modified_utf7 (codes "&2D3eAA-&-") ≡ ok (0xF0 ∷ 0x9F ∷ 0x98 ∷ 0x80 ∷ codes "&"))
    × (decode_modified_utf7 (codes "Entw&APw-rfe") ≡ ok (codes "Entw" ++ 0xC3 ∷ 0xBC ∷ codes "rfe"))
    × (decode_modified_utf7 (codes "a&b") ≡ err invalid_utf7)
unfolding encode_modified_utf7 decode_modified_utf7 encode_loop decode_loop decode_utf8 decode_two
    decode_three decode_four encode_codepoint flush_utf16 bytes_of encode_modified_base64 letter
    utf16_units decode_escape decode_shifted decode_modified_base64 decode_base64_groups
    value_or_throw base64_value decode_units append_utf8 prepend find
runs = (refl, refl, refl, refl, refl)

smiley_bytes : All IsByte (0xD8 ∷ 0x3D ∷ 0xDE ∷ 0x00 ∷ [])
smiley_bytes = (omega arith, (omega arith, (omega arith, (omega arith, tt))))

modified_base64-decode-encode_example :
    decode_modified_base64 (encode_modified_base64 (0xD8 ∷ 0x3D ∷ 0xDE ∷ 0x00 ∷ []))
    ≡ ok (0xD8 ∷ 0x3D ∷ 0xDE ∷ 0x00 ∷ [])
modified_base64-decode-encode_example =
    modified_base64-decode-encode (0xD8 ∷ 0x3D ∷ 0xDE ∷ 0x00 ∷ []) smiley_bytes

utf8-decode-append_example :
    (append_utf8 0x1F600 >>= λ s. decode_utf8 (s ++ codes "!")) ≡ ok (0x1F600, codes "!")
utf8-decode-append_example = utf8-decode-append 0x1F600 (omega arith) refl (codes "!")

modified_utf7-IsDecided_example :
    IsDecided (encode_modified_utf7 (codes "a&b")) × IsDecided (decode_modified_utf7 (codes "a&b"))
modified_utf7-IsDecided_example = modified_utf7-IsDecided (codes "a&b")

-- An umlaut and a smiley.
scalars : All IsScalar (0xFC ∷ 0x1F600 ∷ [])
scalars = ((omega arith, refl), ((omega arith, refl), tt))

decode_units-utf16_example :
    (units_of (0xFC ∷ 0x1F600 ∷ []) >>= λ units. decode_units (bytes_of units))
    ≡ utf8_of (0xFC ∷ 0x1F600 ∷ [])
decode_units-utf16_example = decode_units-utf16 (0xFC ∷ 0x1F600 ∷ []) scalars
