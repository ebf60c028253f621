-- ===== src/Sasl.antt =====
-- include/mailxx/detail/sasl.hpp: the strings of the SASL mechanisms, and
-- include/mailxx/detail/auth_policy.hpp: when credentials may be sent.
pub mod Encoded
mod Tests
use mailio.Base.{
  ℕ, ◌-◌, ◌^◌, Bool, true, false, not, ◌&&◌, ◌||◌, List, [], ◌∷◌, ◌++◌, ◌==◌, if◌then◌else◌,
}
use mailio.Base.Bytes.{Bytes, codes}
use mailio.Base.Result.{Result, ok, err}
use mailio.Base.Action.{Exception, error}
use mailio.Codec.Base64

pub strip_newlines : Bytes → Bytes
strip_newlines [] = []
strip_newlines (c ∷ encoded) =
    let rest = strip_newlines encoded in
    if not (c == b'\r') && not (c == b'\n') then c ∷ rest else rest

unfoldable pub join_lines : List Bytes → Bytes
join_lines [] = []
join_lines (line ∷ lines) = line ++ join_lines lines

-- `line_len_policy_t::NONE`
abbrev pub none_policy : ℕ
none_policy = 2 ^ 32 - 1

pub base64_encode_single_line : Bytes → Bytes
base64_encode_single_line input =
    join_lines (Base64.encode (Base64.make none_policy none_policy) input)

-- `\0username\0password`
pub plain_text : Bytes → Bytes → Bytes
plain_text username password = 0 ∷ username ++ 0 ∷ password

pub encode_plain : Bytes → Bytes → Bytes
encode_plain username password = base64_encode_single_line (plain_text username password)

pub encode_login : Bytes → Bytes
encode_login text = base64_encode_single_line text

pub xoauth2_text : Bytes → Bytes → Bytes
xoauth2_text username access_token =
    codes "user=" ++ (username ++ ((1 ∷ codes "auth=Bearer ") ++ (access_token ++ 1 ∷ 1 ∷ [])))

pub encode_xoauth2 : Bytes → Bytes → Bytes
encode_xoauth2 username access_token =
    base64_encode_single_line (xoauth2_text username access_token)

pub oauthbearer_text : Bytes → Bytes → Bytes
oauthbearer_text username access_token =
    codes "n,a="
    ++ (username ++ ((b',' ∷ 1 ∷ codes "auth=Bearer ") ++ (access_token ++ 1 ∷ 1 ∷ [])))

pub encode_oauthbearer : Bytes → Bytes → Bytes
encode_oauthbearer username access_token =
    base64_encode_single_line (oauthbearer_text username access_token)

-- The warning that goes to the log is left out.
unfoldable pub ensure_auth_allowed : Bool → Bool → Bool → Result Exception (Unit {0})
ensure_auth_allowed is_tls require_tls_for_auth allow_cleartext_auth =
    if is_tls || not require_tls_for_auth
    then ok tt
    else if allow_cleartext_auth
    then ok tt
    else err (
        error (codes "TLS required for authentication; call start_tls() or use tls_mode::implicit")
          [])
