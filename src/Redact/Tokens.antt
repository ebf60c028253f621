-- ===== src/Redact/Tokens.antt =====
-- detail/redact.hpp: the fuel of `split_tokens`, and what becomes of the tokens of a line.
use mailio.Base.{
  ℕ, zero, suc, ◌+◌, ◌≤◌, ◌<◌, ◌≡◌, refl, ap, false, Option, none, some, List, [], ◌∷◌, ◌++◌, arith,
  inl, inr, Bool-cases, Option-cases,
}
use mailio.Base.Bytes.{Bytes, codes, length, is_empty, take, drop, get_or, find}
use native.Mathlib.Numerals.{add-one}
use mailio.Redact.{
  iequals_ascii, skip_spaces, split_token, split_loop, marker, cut_at, scan, redact_command,
  redact_single, redact_tokens,
}

length-skip_spaces : (s : Bytes) → length (skip_spaces s) ≤ length s
unfolding skip_spaces
length-skip_spaces [] = omega arith
length-skip_spaces (c ∷ s) = ground (arith, length-skip_spaces s)

length-drop : (n : ℕ) (s : Bytes) → length (drop n s) ≤ length s
length-drop zero s = omega arith
length-drop (suc n) [] = omega arith
length-drop (suc n) (c ∷ s) = omega (arith, length-drop n s)

length_rest : (n : ℕ) (s : Bytes) → is_empty s ≡ false → length (drop (n + 1) s) < length s
length_rest n [] h = absurd (cc)
length_rest n (c ∷ s) h = rw add-one (omega (arith, length-drop n s))

split_token_fuel :
    (f g : Bytes → List Bytes) (t : Bytes) (at : Option ℕ)
    → ((n : ℕ) → f (drop (n + 1) t) ≡ g (drop (n + 1) t))
    → split_token f t at ≡ split_token g t at
unfolding split_token
split_token_fuel f g t none h = refl
split_token_fuel f g t (some n) h = ap (◌∷◌ (take n t)) (h n)

-- With more fuel than characters the loop ends by its own tests: more fuel changes nothing.
pub split_loop_fuel :
    (fuel more : ℕ) (text : Bytes)
    → length text < fuel
    → length text < more
    → split_loop fuel text ≡ split_loop more text
unfolding split_loop
split_loop_fuel zero more text h k = absurd (omega arith)
split_loop_fuel (suc fuel) zero text h k = absurd (omega arith)
split_loop_fuel (suc fuel) (suc more) text h k =
    let t = skip_spaces text in
    elim (Bool-cases (is_empty t)) [
      | inl e ↦ rw e
      | inr e ↦ rw e (
          split_token_fuel (split_loop fuel) (split_loop more) t (find b' ' t) (λ n.
            split_loop_fuel fuel more (drop (n + 1) t)
              (omega (arith, length_rest n t e, length-skip_spaces text))
              (omega (arith, length_rest n t e, length-skip_spaces text))))
    ]

-- The first tokens are kept; one, and all that follow it, give way to the marker.
pub record IsCut (tokens r : List Bytes) : Type 0 where
  pub kept : ℕ
  pub kept_lt : kept < length tokens
  pub result : r ≡ take kept tokens ++ marker ∷ []

IsCut-cut_at :
    (i : ℕ) (tokens : List Bytes) {r : List Bytes}
    → i < length tokens
    → some (cut_at i tokens) ≡ some r
    → IsCut tokens r
unfolding cut_at
IsCut-cut_at i tokens h e = record { kept = i; kept_lt = h; result = cc }

scan-IsCut :
    (tokens : List Bytes) (i : ℕ) (rest : List Bytes) {r : List Bytes}
    → scan tokens i rest ≡ some r
    → IsCut tokens r
unfolding scan
scan-IsCut tokens i [] h = absurd (cc)
scan-IsCut tokens i (t ∷ rest) {r} h = elim (Bool-cases (iequals_ascii t (codes "LOGIN"))) [
  | inl login ↦ IsCut-cut_at (i + 2) tokens (ground arith) (ground arith)
  | inr not_first ↦ elim (Bool-cases (iequals_ascii t (codes "AUTHENTICATE"))) [
    | inl auth ↦ IsCut-cut_at (i + 2) tokens (ground arith) (ground arith)
    | inr not_second ↦ scan-IsCut tokens (i + 1) rest (ground arith)
  ]
]

redact_command-IsCut :
    (tokens : List Bytes) {r : List Bytes} → redact_command tokens ≡ some r → IsCut tokens r
unfolding redact_command
redact_command-IsCut tokens {r} h =
    elim (Bool-cases (iequals_ascii (get_or tokens 0 []) (codes "PASS"))) [
      | inl pass ↦ IsCut-cut_at 1 tokens (ground arith) (ground arith)
      | inr not_first ↦ elim (Bool-cases (iequals_ascii (get_or tokens 0 []) (codes "AUTH"))) [
        | inl auth ↦ IsCut-cut_at 2 tokens (ground arith) (ground arith)
        | inr not_second ↦ scan-IsCut tokens 0 tokens (ground arith)
      ]
    ]

redact_single-IsCut :
    (tokens : List Bytes) {r : List Bytes} → redact_single tokens ≡ some r → IsCut tokens r
unfolding redact_single
redact_single-IsCut tokens h = IsCut-cut_at 0 tokens (ground arith) (ground arith)

-- Whatever the command, a redaction keeps the first tokens of the line and replaces one of its
-- tokens, with all that follow it, by the marker.
pub redact_tokens-IsCut : (tokens r : List Bytes) → redact_tokens tokens ≡ some r → IsCut tokens r
unfolding redact_tokens
redact_tokens-IsCut tokens r h = elim (Option-cases (redact_command tokens)) [
  | inl e ↦ redact_single-IsCut tokens (ground arith)
  | inr (q, e) ↦ redact_command-IsCut tokens (ground arith)
]
