-- ===== src/Pop3/Auth.antt =====
-- pop3/client.hpp: authentication, and the credentials kept for a reconnection.
use mailio.Base.{suc, ◌+◌, ◌/◌, ◌%◌, none, some, [], ◌∷◌, ◌++◌, ◌==◌, if◌then◌else◌}
use mailio.Base.Bytes.{Bytes, codes, take, drop, get_or, is_empty, front_or, find}
use mailio.Base.Result.{Result, ok, err}
use mailio.Base.Action.{Exception, error, Action, pure, lift, modify, throw_if, gets, ◌>>=◌, ◌>>◌}
use mailio.Net.{read_line}
use mailio.Wire.{append_sv, append_space}
use mailio.Sasl.{encode_plain, encode_xoauth2, ensure_auth_allowed}
use mailio.Pop3.{
  Client, greeting, transaction, AuthMechanism, user_pass, sasl_plain, xoauth2, apop, ensure,
  ensure_state, on_link, expect_ok, send_command, command,
}
use mailio.Pop3.Session.{the_dialog}

-- The secret is kept only where the options say so.
unfoldable pub remember_auth : AuthMechanism → Bytes → Bytes → Client → Client
remember_auth mechanism username secret c = record c {
  session_snapshot = record c.session_snapshot {
    auth = mechanism;
    username = username;
    secret = if c.options.store_credentials_for_reconnect then some secret else none;
  };
}

-- `state_ = state_t::TRANSACTION; remember_auth(…);`
unfoldable pub logged_in : AuthMechanism → Bytes → Bytes → Client → Client
logged_in mechanism username secret c =
    remember_auth mechanism username secret (record c { state = transaction })

unfoldable pub enforce_auth_tls_policy : Action Client (Unit {0})
enforce_auth_tls_policy = do
  d ← the_dialog
  c ← gets (λ c. c)
  lift (ensure_auth_allowed d.is_tls c.options.require_tls_for_auth c.options.allow_cleartext_auth)

-- What every mechanism but APOP checks first.
unfoldable pub begin_auth : Bytes → Bytes → Bytes → Bytes → Action Client (Unit {0})
begin_auth operation username secret field = do
  ensure_state greeting operation
  enforce_auth_tls_policy
  ensure username (codes "username")
  ensure secret field

unfoldable pub login_impl : Bytes → Bytes → Action Client (Unit {0})
login_impl username password = do
  begin_auth (codes "LOGIN") username password (codes "password")
  command (codes "USER " ++ username) (codes "Username rejection.")
  command (codes "PASS " ++ password) (codes "Password rejection.")
  modify (logged_in user_pass username password)

-- The answer to AUTH: `reply` is sent when the server asks for more, and its response is the end.
unfoldable pub finish_auth : Bytes → Bytes → Bytes → Action Client (Unit {0})
finish_auth reply failure line =
    if front_or line 0 == b'+'
    then (do command reply failure; pure tt)
    else (do expect_ok failure line; pure tt)

unfoldable pub auth_plain_impl : Bytes → Bytes → Action Client (Unit {0})
auth_plain_impl username password = do
  begin_auth (codes "AUTH PLAIN") username password (codes "password")
  let encoded = encode_plain username password
  send_command (codes "AUTH PLAIN")
  line ← on_link read_line
  finish_auth encoded (codes "PLAIN authentication failure.") line
  modify (logged_in sasl_plain username password)

unfoldable pub auth_xoauth2_impl : Bytes → Bytes → Action Client (Unit {0})
auth_xoauth2_impl username access_token = do
  begin_auth (codes "AUTH XOAUTH2") username access_token (codes "access_token")
  let encoded = encode_xoauth2 username access_token
  send_command (codes "AUTH XOAUTH2 " ++ encoded)
  line ← on_link read_line
  finish_auth [] (codes "XOAUTH2 authentication failure.") line
  modify (logged_in xoauth2 username access_token)

abbrev challenge_missing : Bytes → Exception
challenge_missing details = error (codes "APOP challenge missing.") details

-- From the first `<` to the first `>` after it, both included.
unfoldable pub extract_apop_challenge : Bytes → Result Exception Bytes
extract_apop_challenge greeting_line = elim (find b'<' greeting_line) [
  | none ↦ err (challenge_missing greeting_line)
  | some start ↦ elim (find b'>' (drop (suc start) greeting_line)) [
    | none ↦ err (challenge_missing greeting_line)
    | some offset ↦ ok (take (offset + 2) (drop start greeting_line))
  ]
]

abbrev hex : Bytes
hex = codes "0123456789abcdef"

unfoldable pub hex_bytes : Bytes → Bytes
hex_bytes [] = []
hex_bytes (byte ∷ digest) =
    (get_or hex (byte / 16) b'0') ∷ (get_or hex (byte % 16) b'0') ∷ hex_bytes digest

pub data AuthMethod : Type 0 where
  by_login by_plain by_xoauth2 by_apop : AuthMethod

-- `md5` is OpenSSL's digest.
module _ (md5 : Bytes → Bytes) where
  unfoldable pub md5_hex : Bytes → Bytes
  md5_hex input = hex_bytes (md5 input)

  unfoldable pub apop_command : Bytes → Bytes → Bytes
  apop_command username digest =
      append_sv (append_space (append_sv (append_sv [] (codes "APOP ")) username)) digest

  unfoldable pub apop_impl : Bytes → Bytes → Action Client (Unit {0})
  apop_impl username password = do
    ensure_state greeting (codes "APOP")
    ensure username (codes "username")
    ensure password (codes "password")
    c ← gets (λ c. c)
    throw_if (is_empty c.last_greeting_line) (challenge_missing [])
    challenge ← lift (extract_apop_challenge c.last_greeting_line)
    command (apop_command username (md5_hex (challenge ++ password)))
        (codes "APOP authentication failure.")
    modify (logged_in apop username password)

  unfoldable pub authenticate_impl : Bytes → Bytes → AuthMethod → Action Client (Unit {0})
  authenticate_impl username credential by_login = login_impl username credential
  authenticate_impl username credential by_plain = auth_plain_impl username credential
  authenticate_impl username credential by_xoauth2 = auth_xoauth2_impl username credential
  authenticate_impl username credential by_apop = apop_impl username credential
