-- ===== src/SmtpClient/Clean/Logins.antt =====
-- smtp/client.hpp: what authentication writes.
use mailio.Base.{◌≡◌, refl, Bool, true, false, Option, none, some, [], List}
use mailio.Base.Bytes.{Bytes, codes, All, IsByte}
use mailio.Base.Result.{Result, ok, err}
use mailio.Base.Action.{Exception, error, is_decided, Safe, throw, lift}
use mailio.Wire.{contains_crlf_or_nul}
use mailio.Wire.Clean.{IsClean, IsClean-append}
use mailio.Sasl.{ensure_auth_allowed}
use mailio.Sasl.Encoded.{
  base64_encode_single_line-IsClean, plain_text-bytes, encode_xoauth2-IsClean,
}
use mailio.Smtp.{Reply, parameters}
use mailio.SmtpClient.{Client}
use mailio.SmtpClient.Clean.{CleanLog, safe}
use mailio.SmtpClient.Clean.Sessions.{ensure-Safe, the_dialog-Safe}
use mailio.SmtpClient.Auth.{
  AuthMethod, auto_detect, plain, login, xoauth2, expect_continue, authenticate_plain_impl,
  authenticate_login_impl, authenticate_xoauth2_impl, authenticate_by, auth_parameters,
  detect_method, resolve_auth_method, enforce_auth_tls_policy, authenticate_impl,
}

throw_error-Safe :
    {A : Type 0} (text details : Bytes) → Safe {A = A} CleanLog (throw (error text details))
throw_error-Safe text details = record { ends = λ c kept. (refl, kept) }

allowed-decided :
    (is_tls required allowed : Bool)
    → is_decided (ensure_auth_allowed is_tls required allowed) ≡ true
unfolding ensure_auth_allowed
allowed-decided true required allowed = refl
allowed-decided false false allowed = refl
allowed-decided false true true = refl
allowed-decided false true false = refl

allowed-Safe :
    (is_tls required allowed : Bool)
    → Safe CleanLog (lift (ensure_auth_allowed is_tls required allowed))
allowed-Safe is_tls required allowed = record {
  ends = λ c kept. (allowed-decided is_tls required allowed, kept);
}

enforce-Safe : Safe CleanLog enforce_auth_tls_policy
unfolding enforce_auth_tls_policy
enforce-Safe = search (allowed-Safe, the_dialog-Safe, safe) depth 8

auth_parameters_of-Safe :
    (found : Option (List Bytes)) (c : Client)
    → CleanLog c
    → let outcome : Result Exception (List Bytes) × Client = elim found [
      | none ↦
          (err (error (codes "AUTH not supported.") (codes "Server did not advertise AUTH.")), c)
      | some params ↦ (ok params, c)
    ] in
      (is_decided (outcome.0) ≡ true) × CleanLog (outcome.1)
auth_parameters_of-Safe none c kept = (refl, kept)
auth_parameters_of-Safe (some params) c kept = (refl, kept)

auth_parameters-Safe : Safe CleanLog auth_parameters
unfolding auth_parameters
auth_parameters-Safe = record {
  ends = λ c kept. auth_parameters_of-Safe (parameters c.entries (codes "AUTH")) c kept;
}

detect-Safe :
    (has_secret has_xoauth2 has_plain has_login : Bool)
    → Safe CleanLog (detect_method has_secret has_xoauth2 has_plain has_login)
unfolding detect_method
detect-Safe has_secret has_xoauth2 has_plain has_login = search (throw_error-Safe, safe) depth 8

resolve-Safe :
    (method : AuthMethod) (params : List Bytes) (secret : Bytes)
    → Safe CleanLog (resolve_auth_method method params secret)
unfolding resolve_auth_method
resolve-Safe auto_detect params secret = search (detect-Safe, throw_error-Safe, safe) depth 8
resolve-Safe plain params secret = search safe depth 8
resolve-Safe login params secret = search safe depth 8
resolve-Safe xoauth2 params secret = search safe depth 8

expect_continue-Safe : (text : Bytes) (rep : Reply) → Safe CleanLog (expect_continue text rep)
unfolding expect_continue
expect_continue-Safe text rep = search safe

plain_word_IsClean : IsClean (codes "AUTH PLAIN ")
unfolding contains_crlf_or_nul
plain_word_IsClean = refl

login_word_IsClean : IsClean (codes "AUTH LOGIN")
unfolding contains_crlf_or_nul
login_word_IsClean = refl

xoauth2_word_IsClean : IsClean (codes "AUTH XOAUTH2 ")
unfolding contains_crlf_or_nul
xoauth2_word_IsClean = refl

empty_IsClean : IsClean []
unfolding contains_crlf_or_nul
empty_IsClean = refl

ruleset clean = (
  IsClean-append, base64_encode_single_line-IsClean, encode_xoauth2-IsClean, plain_text-bytes,
  plain_word_IsClean, login_word_IsClean, xoauth2_word_IsClean, empty_IsClean, expect_continue-Safe,
  safe, ensure-Safe, the_dialog-Safe,
)

module _ (username password : Bytes) (h : All IsByte username) (k : All IsByte password) where
  authenticate_plain_impl-Safe : Safe CleanLog (authenticate_plain_impl username password)
  unfolding authenticate_plain_impl
  authenticate_plain_impl-Safe = search clean depth 12

  authenticate_login_impl-Safe : Safe CleanLog (authenticate_login_impl username password)
  unfolding authenticate_login_impl
  authenticate_login_impl-Safe = search clean depth 12

  authenticate_xoauth2_impl-Safe : Safe CleanLog (authenticate_xoauth2_impl username password)
  unfolding authenticate_xoauth2_impl
  authenticate_xoauth2_impl-Safe = search clean depth 12

  authenticate_by-Safe :
      (method : AuthMethod) → Safe CleanLog (authenticate_by method username password)
  unfolding authenticate_by
  authenticate_by-Safe auto_detect = throw_error-Safe _ _
  authenticate_by-Safe plain = authenticate_plain_impl-Safe
  authenticate_by-Safe login = authenticate_login_impl-Safe
  authenticate_by-Safe xoauth2 = authenticate_xoauth2_impl-Safe

  pub authenticate_impl-Safe :
      (method : AuthMethod) → Safe CleanLog (authenticate_impl username password method)
  unfolding authenticate_impl
  authenticate_impl-Safe method =
      search (authenticate_by-Safe, enforce-Safe, auth_parameters-Safe, resolve-Safe, clean) depth
        20
