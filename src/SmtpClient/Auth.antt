-- ===== src/SmtpClient/Auth.antt =====
-- smtp/client.hpp: authentication.
use mailio.Base.{Bool, true, false, not, ◌&&◌, none, some, List, [], ◌++◌, ◌==◌, if◌then◌else◌}
use mailio.Base.Bytes.{Bytes, codes, any_of, is_empty, equal}
use mailio.Base.Action.{
  Exception, error, Action, pure, throw, lift, modify, throw_if, gets, ◌>>=◌, ◌>>◌,
}
use mailio.Smtp.{Reply, normalize_key, message, parameters}
use mailio.Sasl.{base64_encode_single_line, plain_text, encode_xoauth2, ensure_auth_allowed}
use mailio.SmtpClient.{
  Client, State, authenticated, command_impl, require_greeting, require_ehlo, expect_completion,
}
use mailio.SmtpClient.Session.{ensure, the_dialog}

pub data AuthMethod : Type 0 where
  auto_detect plain login xoauth2 : AuthMethod

-- `to_upper_ascii` is `normalize_key`.
pub auth_mechanism_supported : List Bytes → Bytes → Bool
auth_mechanism_supported params mechanism =
    any_of (λ param. equal (normalize_key param) (normalize_key mechanism)) params

abbrev no_mechanism : Exception
no_mechanism = error (codes "No supported AUTH mechanisms advertised.") []

unfoldable pub detect_method : Bool → Bool → Bool → Bool → Action Client AuthMethod
detect_method has_secret has_xoauth2 has_plain has_login =
    if has_secret && has_xoauth2
    then pure xoauth2
    else if has_plain
    then pure plain
    else if has_login
    then pure login
    else throw no_mechanism

unfoldable pub resolve_auth_method : AuthMethod → List Bytes → Bytes → Action Client AuthMethod
resolve_auth_method method params secret =
    let has_xoauth2 = auth_mechanism_supported params (codes "XOAUTH2") in
    let has_plain = auth_mechanism_supported params (codes "PLAIN") in
    let has_login = auth_mechanism_supported params (codes "LOGIN") in
    elim method [
      | auto_detect ↦ detect_method (not (is_empty secret)) has_xoauth2 has_plain has_login
      | plain ↦ (do
        throw_if (not has_plain) (error (codes "AUTH PLAIN not advertised by the server.") [])
        pure plain)
      | login ↦ (do
        throw_if (not has_login) (error (codes "AUTH LOGIN not advertised by the server.") [])
        pure login)
      | xoauth2 ↦ (do
        throw_if (not has_xoauth2) (error (codes "AUTH XOAUTH2 not advertised by the server.") [])
        pure xoauth2)
    ]

unfoldable pub enforce_auth_tls_policy : Action Client (Unit {0})
enforce_auth_tls_policy = do
  d ← the_dialog
  c ← gets (λ c. c)
  lift (ensure_auth_allowed d.is_tls c.options.require_tls_for_auth c.options.allow_cleartext_auth)

-- `rep.status != 334`
unfoldable pub expect_continue : Bytes → Reply → Action Client (Unit {0})
expect_continue text rep = throw_if (not (rep.status == 334)) (error text (message rep))

unfoldable pub authenticate_plain_impl : Bytes → Bytes → Action Client (Unit {0})
authenticate_plain_impl username password = do
  let encoded = base64_encode_single_line (plain_text username password)
  first ← command_impl (codes "AUTH PLAIN " ++ encoded)
  rep ← if first.status == 334 then command_impl encoded else pure first
  expect_completion (codes "Authentication rejection.") rep

unfoldable pub authenticate_login_impl : Bytes → Bytes → Action Client (Unit {0})
authenticate_login_impl username password = do
  first ← command_impl (codes "AUTH LOGIN")
  expect_continue (codes "Authentication rejection.") first
  second ← command_impl (base64_encode_single_line username)
  expect_continue (codes "Username rejection.") second
  rep ← command_impl (base64_encode_single_line password)
  expect_completion (codes "Password rejection.") rep

-- An empty line asks for the error behind the continuation.
unfoldable pub authenticate_xoauth2_impl : Bytes → Bytes → Action Client (Unit {0})
authenticate_xoauth2_impl username access_token = do
  ensure username (codes "username")
  ensure access_token (codes "access_token")
  first ← command_impl (codes "AUTH XOAUTH2 " ++ encode_xoauth2 username access_token)
  rep ← if first.status == 334 then command_impl [] else pure first
  expect_completion (codes "XOAUTH2 authentication failure.") rep

unfoldable pub authenticate_by : AuthMethod → Bytes → Bytes → Action Client (Unit {0})
authenticate_by auto_detect username password =
    throw (error (codes "AUTH auto-detect resolution failed.") [])
authenticate_by plain username password = authenticate_plain_impl username password
authenticate_by login username password = authenticate_login_impl username password
authenticate_by xoauth2 username password = authenticate_xoauth2_impl username password

pub is_authenticated : State → Bool
is_authenticated authenticated = true
is_authenticated _ = false

-- The parameters of AUTH, which the server has to have advertised.
unfoldable pub auth_parameters : Action Client (List Bytes)
auth_parameters c = elim (parameters c.entries (codes "AUTH")) [
  | none ↦ throw (error (codes "AUTH not supported.") (codes "Server did not advertise AUTH.")) c
  | some params ↦ pure params c
]

unfoldable pub authenticate_impl : Bytes → Bytes → AuthMethod → Action Client (Unit {0})
authenticate_impl username password method = do
  ensure username (codes "username")
  ensure password (codes "password")
  require_greeting (codes "Authentication requires a greeting.")
  require_ehlo (codes "Authentication requires EHLO/HELO.")
  c ← gets (λ c. c)
  throw_if (is_authenticated c.state) (error (codes "Already authenticated.") [])
  throw_if (not c.capabilities_known)
      (error (codes "Server capabilities unknown; call EHLO before AUTH.") [])
  enforce_auth_tls_policy
  auth_params ← auth_parameters
  resolved ← resolve_auth_method method auth_params password
  authenticate_by resolved username password
  modify (λ c. record c { state = authenticated })
