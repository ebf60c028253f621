-- ===== src/Sasl/Encoded.antt =====
-- detail/sasl.hpp: the characters of the encoded strings.
use mailio.Base.{refl, List, [], ◌∷◌, ◌++◌, arith}
use mailio.Base.Bytes.{Bytes, codes, All, All-append, IsByte}
use mailio.Wire.{contains_crlf_or_nul}
use mailio.Wire.Clean.{IsClean, IsClean-append}
use mailio.Codec.Base64
use mailio.Codec.Base64.Alphabet.{encode-IsClean}
use mailio.Sasl.{
  encode_plain, none_policy, join_lines, base64_encode_single_line, plain_text, xoauth2_text,
  encode_xoauth2,
}

join_lines-IsClean : (lines : List Bytes) → All IsClean lines → IsClean (join_lines lines)
unfolding join_lines contains_crlf_or_nul
join_lines-IsClean [] h = refl
join_lines-IsClean (line ∷ lines) h =
    IsClean-append line (join_lines lines) (h.0) (join_lines-IsClean lines (h.1))

pub base64_encode_single_line-IsClean :
    (input : Bytes) → All IsByte input → IsClean (base64_encode_single_line input)
unfolding base64_encode_single_line
base64_encode_single_line-IsClean input h =
    join_lines-IsClean _ (encode-IsClean (Base64.make none_policy none_policy) input h)

-- The characters of the mechanisms are bytes.
pub plain_text-bytes :
    (username password : Bytes)
    → All IsByte username
    → All IsByte password
    → All IsByte (plain_text username password)
unfolding plain_text
plain_text-bytes username password h k =
    (omega arith, All-append IsByte username (0 ∷ password) h (omega arith, k))

literal-bytes : All IsByte (codes "user=") × All IsByte (1 ∷ codes "auth=Bearer ")
literal-bytes = omega arith

xoauth2_text-bytes :
    (username access_token : Bytes)
    → All IsByte username
    → All IsByte access_token
    → All IsByte (xoauth2_text username access_token)
unfolding xoauth2_text
xoauth2_text-bytes username access_token h k =
    All-append IsByte (codes "user=")
      (username ++ ((1 ∷ codes "auth=Bearer ") ++ (access_token ++ 1 ∷ 1 ∷ []))) (literal-bytes.0)
      (All-append IsByte username _ h (
        All-append IsByte (1 ∷ codes "auth=Bearer ") (access_token ++ 1 ∷ 1 ∷ []) (literal-bytes.1)
          (All-append IsByte access_token (1 ∷ 1 ∷ []) k (omega arith))))

pub encode_xoauth2-IsClean :
    (username access_token : Bytes)
    → All IsByte username
    → All IsByte access_token
    → IsClean (encode_xoauth2 username access_token)
unfolding encode_xoauth2
encode_xoauth2-IsClean username access_token h k =
    base64_encode_single_line-IsClean _ (xoauth2_text-bytes username access_token h k)

pub encode_plain-IsClean :
    (username password : Bytes)
    → All IsByte username
    → All IsByte password
    → IsClean (encode_plain username password)
unfolding encode_plain
encode_plain-IsClean username password h k =
    base64_encode_single_line-IsClean _ (plain_text-bytes username password h k)
