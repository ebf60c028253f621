-- ===== src/Redact/Tests.antt =====
-- detail/redact.hpp at concrete inputs.
use mailio.Base.{◌≡◌, refl, true, some, [], ◌∷◌, ◌++◌, arith}
use mailio.Base.Bytes.{codes, find, All}
use mailio.Redact.{
  upper, iequals_loop, iequals_ascii, skip_spaces, split_loop, split_token, split_tokens,
  is_base64_char, looks_like_base64, has_base64_markers, cut_at, scan, redact_command,
  redact_single, redact_tokens, join, drop_eol, trim_eol, marker, count_spaces, redact_parts,
  redact_line,
}
use mailio.Redact.Secrets.{is_eol, IsWord, IsSecret, IsTag, redact_line-pass, redact_line-login}

runs :
    (redact_line (codes "PASS secret\r\n") ≡ codes "PASS <redacted>\r\n")
    × (redact_line (codes " a1 login bob pw x") ≡ codes " a1 login bob <redacted>")
    × (redact_line (codes "AUTH PLAIN AGJvYg==") ≡ codes "AUTH PLAIN <redacted>")
    × (redact_line (codes "AGJvYg==") ≡ codes "<redacted>")
    × (redact_line (codes "NOOP") ≡ codes "NOOP")
unfolding upper iequals_loop iequals_ascii skip_spaces split_loop split_token split_tokens
    is_base64_char looks_like_base64 has_base64_markers cut_at scan redact_command redact_single
    redact_tokens join drop_eol trim_eol count_spaces redact_parts redact_line find
runs = (refl, refl, refl, refl, refl)

auth_run :
    redact_tokens (codes "AUTH" ∷ codes "PLAIN" ∷ codes "AGJvYg" ∷ [])
    ≡ some (codes "AUTH" ∷ codes "PLAIN" ∷ marker ∷ [])
unfolding redact_tokens redact_command cut_at iequals_ascii iequals_loop upper
auth_run = refl

pass-IsWord : IsWord (codes "pass")
pass-IsWord = record { some_char = λ e. cc; no_space = refl }

pass_matches : iequals_ascii (codes "pass") (codes "PASS") ≡ true
unfolding iequals_ascii iequals_loop upper
pass_matches = refl

secret : IsSecret (codes "open sesame")
unfolding is_eol
secret = record { front = λ e. omega arith; back = refl }

line_end : All (λ c. is_eol c ≡ true) (codes "\r\n")
unfolding is_eol
line_end = (refl, (refl, tt))

redact_line-pass_example :
    redact_line ((codes "pass" ++ b' ' ∷ codes "open sesame") ++ codes "\r\n")
    ≡ (codes "pass" ++ b' ' ∷ marker) ++ codes "\r\n"
redact_line-pass_example =
    redact_line-pass (codes "pass") (codes "open sesame") (codes "\r\n") pass-IsWord pass_matches
      secret line_end

tag : IsTag (codes "a1")
unfolding iequals_ascii iequals_loop upper
tag = record {
  word = record { some_char = λ e. cc; no_space = refl };
  no_pass = refl;
  no_auth = refl;
  no_login = refl;
  no_authenticate = refl;
}

login-IsWord : IsWord (codes "LOGIN")
login-IsWord = record { some_char = λ e. cc; no_space = refl }

login_matches : iequals_ascii (codes "LOGIN") (codes "LOGIN") ≡ true
unfolding iequals_ascii iequals_loop upper
login_matches = refl

user-IsWord : IsWord (codes "bob")
user-IsWord = record { some_char = λ e. cc; no_space = refl }

redact_line-login_example :
    redact_line (
      (codes "a1" ++ b' ' ∷ (codes "LOGIN" ++ b' ' ∷ (codes "bob" ++ b' ' ∷ codes "open sesame")))
      ++ codes "\r\n")
    ≡ (codes "a1" ++ b' ' ∷ (codes "LOGIN" ++ b' ' ∷ (codes "bob" ++ b' ' ∷ marker)))
      ++ codes "\r\n"
redact_line-login_example =
    redact_line-login (codes "a1") (codes "LOGIN") (codes "bob") (codes "open sesame")
      (codes "\r\n") tag login-IsWord login_matches user-IsWord secret line_end
