-- ===== src/Codec/Tests.antt =====
-- codec/base64.hpp and codec/percent.hpp at concrete inputs.
use mailio.Base.{◌≡◌, ◌++◌, arith}
use mailio.Base.Bytes.{Bytes, codes, All, IsByte}
use mailio.Base.Result.{ok}
use mailio.Codec.{Codec}
use mailio.Codec.Base64
use mailio.Codec.Base64.RoundTrip.{decode-encode}
use mailio.Codec.Percent
use mailio.Codec.Percent.RoundTrip.{concat, decode-encode_body}

mailio_bytes : All IsByte (codes "Mailio!")
mailio_bytes = (
  omega arith,
  (omega arith, (omega arith, (omega arith, (omega arith, (omega arith, (omega arith, tt)))))),
)

-- Lines of one group of four characters.
decode-encode_example :
    Base64.decode (Base64.make 4 8) (Base64.encode (Base64.make 4 8) (codes "Mailio!"))
    ≡ ok (codes "Mailio!")
decode-encode_example = decode-encode 4 8 (codes "Mailio!") (omega arith) (omega arith) mailio_bytes

abbrev upper_utf8 : Bytes → Bytes
upper_utf8 s = codes "UTF-8"

abbrev policies : Codec
policies = record { line1_policy = 10; lines_policy = 20 }

decode-encode_body_example :
    (body : Bytes) × (concat (Percent.encode upper_utf8 policies (codes "Mailio!") (codes "utf-8"))
      ≡ Percent.prefix upper_utf8 (codes "utf-8") ++ body)
    × (Percent.decode body ≡ ok (codes "Mailio!"))
decode-encode_body_example =
    decode-encode_body upper_utf8 policies (codes "Mailio!") (codes "utf-8") mailio_bytes
