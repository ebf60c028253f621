-- ===== src/Codec/Bit7/Tests.antt =====
-- codec/bit7.hpp at a concrete input.
use mailio.Base.{◌≡◌, refl, List, [], ◌∷◌, false, arith}
use mailio.Base.Bytes.{Bytes, All, codes}
use mailio.Base.Result.{ok}
use mailio.Codec.{Codec}
use mailio.Codec.Bit7.{
  is_allowed, add_new_line, add_char, wrap, encode_chars, drop_empty, close, start, encode,
}
use mailio.Codec.Bit7.Lengths.{Fits, encode-Fits}

abbrev policies : Codec
policies = record { line1_policy = 6; lines_policy = 8 }

abbrev folded_lines : List Bytes
folded_lines = codes "ab " ∷ codes "cdef" ∷ []

-- The line end after the delimiter is lost when the text is folded.
folds_at_delimiter : encode policies false (codes "ab cd\r\nef") ≡ ok folded_lines
unfolding is_allowed add_new_line add_char wrap encode_chars drop_empty close start encode
folds_at_delimiter = refl

encode-Fits_example : All (Fits policies) folded_lines
encode-Fits_example =
    encode-Fits policies false (codes "ab cd\r\nef") folded_lines (omega arith) (omega arith)
      folds_at_delimiter
