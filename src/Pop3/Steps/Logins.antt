-- ===== src/Pop3/Steps/Logins.antt =====
-- pop3/client.hpp: authentication goes by steps, the last of which logs in.
use mailio.Base.{◌||◌, zero, suc, ◌≡◌, refl, Bool, true, false, [], ◌∷◌, ◌/◌, ◌%◌, ℕ, arith, ◌==◌}
use mailio.Base.Bytes.{Bytes, codes, All, IsByte, get_or}
use mailio.Base.Result.{Result, ok, err}
use mailio.Base.Action.{
  Exception, error, invalid_argument, system_error, out_of_fuel, Action, is_decided, Safe, Gives,
  continue, then-Gives, given-Gives, bind-Safe, then-Safe, gets-Safe, throw_if-Safe, pure-Safe,
  if-Safe, modify, ◌>>=◌, ◌>>◌,
}
use mailio.Wire.{contains_crlf_or_nul}
use mailio.Wire.Clean.{
  IsClean, IsClean-append, IsClean-cons, append_sv-IsClean, append_space-IsClean,
}
use mailio.Sasl.{ensure_auth_allowed}
use mailio.Sasl.Encoded.{encode_plain-IsClean, encode_xoauth2-IsClean}
use mailio.Pop3.{Client, AuthMechanism, user_pass, sasl_plain, xoauth2, apop, ensure}
use mailio.Pop3.Auth.{
  enforce_auth_tls_policy, begin_auth, login_impl, finish_auth, auth_plain_impl, auth_xoauth2_impl,
  logged_in, extract_apop_challenge, hex_bytes, md5_hex, apop_command, apop_impl, authenticate_impl,
  AuthMethod, by_login, by_plain, by_xoauth2, by_apop,
}
use mailio.Pop3.Steps.{
  Step, ensure-Gives, ensure_state-Safe, command-Safe, send_command-Safe, read_line-Safe, lift-Safe,
  expect_ok-Safe,
}
use mailio.Pop3.Steps.Sessions.{the_dialog-Safe}

-- How a call ends: as before where it throws, and otherwise as a return promises.
abbrev pub Ending :
    {A : Type 0} → (Client → Type 0) → (Client → Type 0) → Result Exception A × Client → Type 0
Ending P Q (ok a, c) = Q c
Ending P Q (err e, c) = P c

pub record Runs {A : Type 0} (P Q : Client → Type 0) (call : Action Client A) : Type 0 where
  pub runs : (c : Client) → P c → (is_decided ((call c).0) ≡ true) × Ending P Q (call c)

module _ {A B : Type 0} (P Q : Client → Type 0) where
  continue-Runs :
      (outcome : Result Exception A × Client) (later : A → Action Client B)
      → is_decided (outcome.0) ≡ true
      → P (outcome.1)
      → ((a : A) → Runs P Q (later a))
      → (is_decided ((continue outcome later).0) ≡ true) × Ending P Q (continue outcome later)
  continue-Runs (ok a, c) later h kept k = (k a).runs c kept
  continue-Runs (err (error text details), c) later h kept k = (refl, kept)
  continue-Runs (err (invalid_argument text), c) later h kept k = (refl, kept)
  continue-Runs (err (system_error text), c) later h kept k = (refl, kept)
  continue-Runs (err out_of_fuel, c) later h kept k = absurd cc

  pub bind-Runs :
      (first : Action Client A) (later : A → Action Client B)
      → Safe P first
      → ((a : A) → Runs P Q (later a))
      → Runs P Q (first >>= later)
  bind-Runs first later h k = record {
    runs = λ c kept. continue-Runs (first c) later ((h.ends c kept).0) ((h.ends c kept).1) k;
  }

  pub then-Runs :
      (first : Action Client A) (second : Action Client B)
      → Safe P first
      → Runs P Q second
      → Runs P Q (first >> second)
  then-Runs first second h k = record {
    runs = λ c kept.
        continue-Runs (first c) (λ a. second) ((h.ends c kept).0) ((h.ends c kept).1) (λ a. k);
  }

  continue-given :
      (R : A → Type 0) (outcome : Result Exception A × Client) (later : A → Action Client B)
      → is_decided (outcome.0) ≡ true
      → P (outcome.1)
      → ((a : A) → outcome.0 ≡ ok a → R a)
      → ((a : A) → R a → Runs P Q (later a))
      → (is_decided ((continue outcome later).0) ≡ true) × Ending P Q (continue outcome later)
  continue-given R (ok a, c) later h kept gives k = (k a (gives a refl)).runs c kept
  continue-given R (err (error text details), c) later h kept gives k = (refl, kept)
  continue-given R (err (invalid_argument text), c) later h kept gives k = (refl, kept)
  continue-given R (err (system_error text), c) later h kept gives k = (refl, kept)
  continue-given R (err out_of_fuel, c) later h kept gives k = absurd cc

  pub given-Runs :
      (R : A → Type 0) (first : Action Client A) (later : A → Action Client B)
      → Gives P R first
      → ((a : A) → R a → Runs P Q (later a))
      → Runs P Q (first >>= later)
  given-Runs R first later h k = record {
    runs = λ c kept.
        let (decided, kept') = h.safe.ends c kept in
        continue-given R (first c) later decided kept' (λ a returned. h.gives c a returned) k;
  }

modify-Runs :
    (P Q : Client → Type 0) (f : Client → Client)
    → ((c : Client) → P c → Q (f c))
    → Runs P Q (modify f)
modify-Runs P Q f h = record { runs = λ c kept. (refl, h c kept) }

Ending-same :
    {A : Type 0} (P : Client → Type 0) (outcome : Result Exception A × Client)
    → Ending P P outcome
    → P (outcome.1)
Ending-same P (ok a, c) h = h
Ending-same P (err e, c) h = h

pub Runs-Safe :
    {A : Type 0} (P : Client → Type 0) (call : Action Client A) → Runs P P call → Safe P call
Runs-Safe P call h = record {
  ends = λ c kept. ((h.runs c kept).0, Ending-same P (call c) ((h.runs c kept).1));
}

words-IsClean :
    IsClean (codes "USER ")
    × IsClean (codes "PASS ")
    × IsClean (codes "AUTH PLAIN")
    × IsClean (codes "AUTH XOAUTH2 ")
    × IsClean []
    × IsClean (codes "APOP ")
unfolding contains_crlf_or_nul
words-IsClean = (refl, refl, refl, refl, refl, refl)

allowed-decided :
    (is_tls required allowed : Bool)
    → is_decided (ensure_auth_allowed is_tls required allowed) ≡ true
unfolding ensure_auth_allowed
allowed-decided true required allowed = refl
allowed-decided false false allowed = refl
allowed-decided false true true = refl
allowed-decided false true false = refl

challenge-decided : (line : Bytes) → is_decided (extract_apop_challenge line) ≡ true
unfolding extract_apop_challenge
challenge-decided line = ground arith

abbrev IsHarmless : ℕ → Type 0
IsHarmless c = (c == b'\r' || c == b'\n' || c == 0) ≡ false

get_or-IsHarmless :
    (s : Bytes) (n d : ℕ) → All IsHarmless s → IsHarmless d → IsHarmless (get_or s n d)
get_or-IsHarmless [] n d h k = k
get_or-IsHarmless (c ∷ s) zero d h k = h.0
get_or-IsHarmless (c ∷ s) (suc n) d h k = get_or-IsHarmless s n d (h.1) k

hex_digit-IsHarmless : (n : ℕ) → IsHarmless (get_or (codes "0123456789abcdef") n b'0')
hex_digit-IsHarmless n =
    get_or-IsHarmless (codes "0123456789abcdef") n b'0'
      (
        refl,
        (
          refl,
          (
            refl,
            (
              refl,
              (
                refl,
                (
                  refl,
                  (
                    refl,
                    (refl, (refl, (refl, (refl, (refl, (refl, (refl, (refl, (refl, tt))))))))),
                  ),
                ),
              ),
            ),
          ),
        ),
      )
      refl

hex_bytes-IsClean : (digest : Bytes) → IsClean (hex_bytes digest)
unfolding hex_bytes
hex_bytes-IsClean [] = words-IsClean.4
hex_bytes-IsClean (byte ∷ digest) =
    IsClean-cons _ _ (hex_digit-IsHarmless (byte / 16))
      (IsClean-cons _ _ (hex_digit-IsHarmless (byte % 16)) (hex_bytes-IsClean digest))

apop_command-IsClean :
    (md5 : Bytes → Bytes) (username text : Bytes)
    → IsClean username
    → IsClean (apop_command md5 username (md5_hex md5 text))
unfolding apop_command md5_hex
apop_command-IsClean md5 username text h =
    append_sv-IsClean _ _
      (append_space-IsClean _
        (append_sv-IsClean _ _ (append_sv-IsClean _ _ (words-IsClean.4) (words-IsClean.5)) h))
      (hex_bytes-IsClean (md5 text))

-- A property that every step keeps, and what logging in makes of it.
module _ (P Q : Client → Type 0) (stable : (c d : Client) → Step c d → P c → P d)
    (enters : (mechanism : AuthMechanism) (username secret : Bytes) (c : Client)
      → All IsByte username
      → All IsByte secret
      → P c
      → Q (logged_in mechanism username secret c)) where
  enforce-Safe : Safe P enforce_auth_tls_policy
  unfolding enforce_auth_tls_policy
  enforce-Safe =
      bind-Safe P _ _ (the_dialog-Safe P) λ d.
        bind-Safe P _ _ (gets-Safe P (λ c. c)) λ c. lift-Safe P stable _ (allowed-decided _ _ _)

  abbrev BothClean : Bytes → Bytes → Unit {0} → Type 0
  BothClean username secret u = IsClean username × IsClean secret

  both-Gives :
      (username secret field : Bytes)
      → IsClean username
      → Gives P (BothClean username secret) (ensure secret field)
  both-Gives username secret field h = record {
    safe = (ensure-Gives P stable secret field).safe;
    gives = λ c u returned. (h, (ensure-Gives P stable secret field).gives c u returned);
  }

  begin_auth-Gives :
      (operation username secret field : Bytes)
      → Gives P (BothClean username secret) (begin_auth operation username secret field)
  unfolding begin_auth
  begin_auth-Gives operation username secret field =
      let R = BothClean username secret in
      then-Gives P R _ _ (ensure_state-Safe P stable _ operation) (
        then-Gives P R _ _ enforce-Safe (
          given-Gives P _ R _ _ (ensure-Gives P stable username (codes "username"))
            λ u h. both-Gives username secret field h))

  login_impl-Runs :
      (username password : Bytes)
      → All IsByte username
      → All IsByte password
      → Runs P Q (login_impl username password)
  unfolding login_impl
  login_impl-Runs username password h k =
      given-Runs P Q (BothClean username password) _ _ (begin_auth-Gives _ username password _)
        λ u clean.
          then-Runs P Q _ _
            (command-Safe P stable _ _ (IsClean-append _ _ (words-IsClean.0) (clean.0)))
            (then-Runs P Q _ _
              (command-Safe P stable _ _ (IsClean-append _ _ (words-IsClean.1) (clean.1)))
              (modify-Runs P Q _ (λ c. enters user_pass username password c h k)))

  finish_auth-Safe :
      (reply failure line : Bytes) → IsClean reply → Safe P (finish_auth reply failure line)
  unfolding finish_auth
  finish_auth-Safe reply failure line h =
      if-Safe P _ _ _ (then-Safe P _ _ (command-Safe P stable reply failure h) (pure-Safe P tt))
        (then-Safe P _ _ (expect_ok-Safe P stable failure line) (pure-Safe P tt))

  auth_plain_impl-Runs :
      (username password : Bytes)
      → All IsByte username
      → All IsByte password
      → Runs P Q (auth_plain_impl username password)
  unfolding auth_plain_impl
  auth_plain_impl-Runs username password h k =
      given-Runs P Q (BothClean username password) _ _ (begin_auth-Gives _ username password _)
        λ u clean. then-Runs P Q _ _ (send_command-Safe P stable _ (words-IsClean.2)) (
          bind-Runs P Q _ _ (read_line-Safe P stable) λ line.
            then-Runs P Q _ _
              (finish_auth-Safe _ _ line (encode_plain-IsClean username password h k))
              (modify-Runs P Q _ (λ c. enters sasl_plain username password c h k)))

  auth_xoauth2_impl-Runs :
      (username access_token : Bytes)
      → All IsByte username
      → All IsByte access_token
      → Runs P Q (auth_xoauth2_impl username access_token)
  unfolding auth_xoauth2_impl
  auth_xoauth2_impl-Runs username access_token h k =
      given-Runs P Q (BothClean username access_token) _ _
        (begin_auth-Gives _ username access_token _)
        λ u clean.
          then-Runs P Q _ _
            (send_command-Safe P stable _ (
              IsClean-append _ _ (words-IsClean.3)
                (encode_xoauth2-IsClean username access_token h k)))
            (bind-Runs P Q _ _ (read_line-Safe P stable) λ line.
              then-Runs P Q _ _ (finish_auth-Safe _ _ line (words-IsClean.4))
                (modify-Runs P Q _ (λ c. enters xoauth2 username access_token c h k)))

  module _ (md5 : Bytes → Bytes) where
    apop_impl-Runs :
        (username password : Bytes)
        → All IsByte username
        → All IsByte password
        → Runs P Q (apop_impl md5 username password)
    unfolding apop_impl
    apop_impl-Runs username password h k = then-Runs P Q _ _ (ensure_state-Safe P stable _ _) (
        given-Runs P Q _ _ _ (ensure-Gives P stable username _) λ u clean.
          then-Runs P Q _ _ (ensure-Gives P stable password _).safe (
            bind-Runs P Q _ _ (gets-Safe P (λ c. c)) λ c.
              then-Runs P Q _ _ (throw_if-Safe P _ _ _) (
                bind-Runs P Q _ _ (lift-Safe P stable _ (challenge-decided c.last_greeting_line))
                  λ challenge.
                    then-Runs P Q _ _
                      (command-Safe P stable _ _ (apop_command-IsClean md5 username _ clean))
                      (modify-Runs P Q _ (λ c. enters apop username password c h k)))))

    pub authenticate_impl-Runs :
        (username credential : Bytes) (method : AuthMethod)
        → All IsByte username
        → All IsByte credential
        → Runs P Q (authenticate_impl md5 username credential method)
    unfolding authenticate_impl
    authenticate_impl-Runs username credential by_login h k =
        login_impl-Runs username credential h k
    authenticate_impl-Runs username credential by_plain h k =
        auth_plain_impl-Runs username credential h k
    authenticate_impl-Runs username credential by_xoauth2 h k =
        auth_xoauth2_impl-Runs username credential h k
    authenticate_impl-Runs username credential by_apop h k = apop_impl-Runs username credential h k
