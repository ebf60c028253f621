-- ===== src/Imap/Utf7/Fuel.antt =====
-- imap/utf7.hpp: the fuel of both loops.
use Prim.Native.Nat.{bit_or}
use mailio.Base.{
  ℕ, zero, suc, ◌+◌, ◌-◌, ◌*◌, ◌^◌, ◌==◌, ◌≤◌, ◌≡◌, ◌≢◌, refl, List, [], ◌∷◌, ◌++◌, arith,
  Bool-cases, Option-cases, inl, inr,
}
use mailio.Base.Bytes.{Bytes, length, drop, take, find}
use mailio.Base.Result.{Result, ok, err, ◌>>=◌}
use mailio.Imap.Utf7.{
  Utf7Error, no_fuel, value_or_throw, decode_base64_groups, decode_modified_base64, decode_two,
  decode_three, decode_four, decode_utf8, utf16_units, append_utf8, encode_codepoint, encode_loop,
  encode_modified_utf7, decode_units, decode_shifted, prepend, decode_escape, decode_loop,
  decode_modified_utf7,
}

-- The fuel was enough.
abbrev pub IsDecided : {A : Type 0} → Result Utf7Error A → Type 0
IsDecided r = r ≢ err no_fuel

bind-IsDecided :
    {A B : Type 0} (r : Result Utf7Error A) (f : A → Result Utf7Error B)
    → IsDecided r
    → ((a : A) → r ≡ ok a → IsDecided (f a))
    → IsDecided (r >>= f)
bind-IsDecided (ok a) f h k = k a refl
bind-IsDecided (err e) f h k = λ eq. h cc

ok-IsDecided : {A : Type 0} (a : A) → IsDecided (ok a)
ok-IsDecided a e = cc

value_or_throw-IsDecided : (ch : ℕ) → IsDecided (value_or_throw ch)
unfolding value_or_throw
value_or_throw-IsDecided ch e = ground arith

append_utf8-IsDecided : (cp : ℕ) → IsDecided (append_utf8 cp)
unfolding append_utf8
append_utf8-IsDecided cp e = ground arith

utf16_units-IsDecided : (cp : ℕ) → IsDecided (utf16_units cp)
unfolding utf16_units
utf16_units-IsDecided cp e = ground arith

decode_two-IsDecided : (b : ℕ) (s : Bytes) → IsDecided (decode_two b s)
unfolding decode_two
decode_two-IsDecided b [] e = cc
decode_two-IsDecided b (c ∷ s) e = ground arith

decode_three-IsDecided : (b : ℕ) (s : Bytes) → IsDecided (decode_three b s)
unfolding decode_three
decode_three-IsDecided b [] e = cc
decode_three-IsDecided b (c ∷ []) e = cc
decode_three-IsDecided b (c ∷ d ∷ s) e = ground arith

decode_four-IsDecided : (b : ℕ) (s : Bytes) → IsDecided (decode_four b s)
unfolding decode_four
decode_four-IsDecided b [] e = cc
decode_four-IsDecided b (c ∷ []) e = cc
decode_four-IsDecided b (c ∷ d ∷ []) e = cc
decode_four-IsDecided b (c ∷ d ∷ f ∷ s) e = ground arith

decode_utf8-IsDecided : (s : Bytes) → IsDecided (decode_utf8 s)
unfolding decode_utf8
decode_utf8-IsDecided [] e = cc
decode_utf8-IsDecided (b ∷ s) e =
    ground (arith, decode_two-IsDecided b s, decode_three-IsDecided b s, decode_four-IsDecided b s)

-- What is left is no longer than what stood behind the first byte.
decode_two-rest :
    (b cp : ℕ) (s rest : Bytes) → decode_two b s ≡ ok (cp, rest) → length rest ≤ length s
unfolding decode_two
decode_two-rest b cp [] rest h = absurd (cc)
decode_two-rest b cp (c ∷ s) rest h = ground arith

decode_three-rest :
    (b cp : ℕ) (s rest : Bytes) → decode_three b s ≡ ok (cp, rest) → length rest ≤ length s
unfolding decode_three
decode_three-rest b cp [] rest h = absurd (cc)
decode_three-rest b cp (c ∷ []) rest h = absurd (cc)
decode_three-rest b cp (c ∷ d ∷ s) rest h = ground arith

decode_four-rest :
    (b cp : ℕ) (s rest : Bytes) → decode_four b s ≡ ok (cp, rest) → length rest ≤ length s
unfolding decode_four
decode_four-rest b cp [] rest h = absurd (cc)
decode_four-rest b cp (c ∷ []) rest h = absurd (cc)
decode_four-rest b cp (c ∷ d ∷ []) rest h = absurd (cc)
decode_four-rest b cp (c ∷ d ∷ f ∷ s) rest h = ground arith

decode_utf8-rest :
    (b cp : ℕ) (s rest : Bytes) → decode_utf8 (b ∷ s) ≡ ok (cp, rest) → length rest ≤ length s
unfolding decode_utf8
decode_utf8-rest b cp s rest h = ground (
  arith,
  decode_two-rest b cp s rest,
  decode_three-rest b cp s rest,
  decode_four-rest b cp s rest,
)

encode_codepoint-IsDecided :
    (cp : ℕ) (state : Bytes × List ℕ) → IsDecided (encode_codepoint cp state)
unfolding encode_codepoint
encode_codepoint-IsDecided cp (out, units) e = ground (
  arith,
  bind-IsDecided {B = Bytes × List ℕ} (utf16_units cp) (λ more. ok (out, units ++ more))
      (utf16_units-IsDecided cp) (λ a h. ok-IsDecided _),
)

encode_loop-IsDecided :
    (fuel : ℕ) (s : Bytes) (state : Bytes × List ℕ)
    → length s ≤ fuel
    → IsDecided (encode_loop fuel s state)
unfolding encode_loop
encode_loop-IsDecided fuel [] (out, units) h = ok-IsDecided _
encode_loop-IsDecided zero (b ∷ s) state h = absurd (omega arith)
encode_loop-IsDecided (suc fuel) (b ∷ s) state h =
    bind-IsDecided (decode_utf8 (b ∷ s)) _ (decode_utf8-IsDecided (b ∷ s)) (λ (cp, rest) e.
      bind-IsDecided (encode_codepoint cp state) (encode_loop fuel rest)
        (encode_codepoint-IsDecided cp state)
        (λ next e2.
          encode_loop-IsDecided fuel rest next (omega (arith, decode_utf8-rest b cp s rest e))))

value-then :
    {B : Type 0} (ch : ℕ) (f : ℕ → Result Utf7Error B)
    → ((v : ℕ) → IsDecided (f v))
    → IsDecided (value_or_throw ch >>= f)
value-then ch f h = bind-IsDecided (value_or_throw ch) f (value_or_throw-IsDecided ch) (λ v _. h v)

decode_base64_groups-IsDecided : (text : Bytes) → IsDecided (decode_base64_groups text)
unfolding decode_base64_groups
decode_base64_groups-IsDecided [] = ok-IsDecided _
decode_base64_groups-IsDecided (a ∷ []) = λ e. cc
decode_base64_groups-IsDecided (a ∷ b ∷ []) =
    value-then a _ (λ p. value-then b _ (λ q. ok-IsDecided _))
decode_base64_groups-IsDecided (a ∷ b ∷ c ∷ []) =
    value-then a _ (λ p. value-then b _ (λ q. value-then c _ (λ r. ok-IsDecided _)))
decode_base64_groups-IsDecided (a ∷ b ∷ c ∷ d ∷ text) = value-then a _ (λ p. value-then b _ (λ q.
    value-then c _ (λ r. value-then d _ (λ s.
      bind-IsDecided (decode_base64_groups text) _ (decode_base64_groups-IsDecided text)
        (λ rest _. ok-IsDecided _)))))

decode_modified_base64-IsDecided : (text : Bytes) → IsDecided (decode_modified_base64 text)
unfolding decode_modified_base64
decode_modified_base64-IsDecided text e = ground (arith, decode_base64_groups-IsDecided text)

append-then :
    (cp : ℕ) (r : Result Utf7Error Bytes)
    → IsDecided r
    → IsDecided (append_utf8 cp >>= λ s. r >>= λ t. ok (s ++ t))
append-then cp r h =
    bind-IsDecided (append_utf8 cp) _ (append_utf8-IsDecided cp)
      (λ s _. bind-IsDecided r _ h (λ t _. ok-IsDecided _))

decode_units-IsDecided : (bytes : Bytes) → IsDecided (decode_units bytes)
unfolding decode_units
decode_units-IsDecided [] = ok-IsDecided _
decode_units-IsDecided (h ∷ []) = λ e. cc
decode_units-IsDecided (h ∷ l ∷ []) =
    λ e. ground (arith, append_utf8-IsDecided (bit_or (h * 2 ^ 8) l))
decode_units-IsDecided (h ∷ l ∷ h2 ∷ []) = λ e. cc
decode_units-IsDecided (h ∷ l ∷ h2 ∷ l2 ∷ bytes) =
    let unit = bit_or (h * 2 ^ 8) l in
    let low = bit_or (h2 * 2 ^ 8) l2 in
    let cp = 0x10000 + bit_or ((unit - 0xD800) * 2 ^ 10) (low - 0xDC00) in
    let pair = append-then cp (decode_units bytes) (decode_units-IsDecided bytes) in
    let single =
      append-then unit (decode_units (h2 ∷ l2 ∷ bytes))
        (decode_units-IsDecided (h2 ∷ l2 ∷ bytes)) in
    λ e. ground (arith, pair, single)

decode_shifted-IsDecided : (text : Bytes) → IsDecided (decode_shifted text)
unfolding decode_shifted
decode_shifted-IsDecided text =
    bind-IsDecided (decode_modified_base64 text) _ (decode_modified_base64-IsDecided text)
      (λ bytes _ e. ground (arith, decode_units-IsDecided bytes))

prepend-IsDecided : (s : Bytes) (r : Result Utf7Error Bytes) → IsDecided r → IsDecided (prepend s r)
unfolding prepend
prepend-IsDecided s r h = bind-IsDecided r _ h (λ t _. ok-IsDecided _)

length-drop : (n : ℕ) (s : Bytes) → length (drop n s) ≤ length s
length-drop zero s = omega arith
length-drop (suc n) [] = omega arith
length-drop (suc n) (c ∷ s) = omega (arith, length-drop n s)

-- The decoder of what follows is asked about shorter texts alone.
decode_escape-IsDecided :
    (later : Bytes → Result Utf7Error Bytes) (text : Bytes)
    → ((t : Bytes) → length t ≤ length text → IsDecided (later t))
    → IsDecided (decode_escape later text)
unfolding decode_escape
decode_escape-IsDecided later [] h = λ e. cc
decode_escape-IsDecided later (c ∷ text) h = elim (Bool-cases (c == b'-')) [
  | inl dash ↦ rw dash (prepend-IsDecided _ _ (h text (omega arith)))
  | inr other ↦ elim (Option-cases (find b'-' (c ∷ text))) [
    | inl e ↦ rw (other, e) (λ e. cc)
    | inr (at, e) ↦
        rw (other, e)
          (bind-IsDecided (decode_shifted (take at (c ∷ text))) _ (decode_shifted-IsDecided _)
            (λ s _.
              prepend-IsDecided s _
                (h (drop (at + 1) (c ∷ text)) (length-drop (at + 1) (c ∷ text)))))
  ]
]

decode_loop-IsDecided : (fuel : ℕ) (s : Bytes) → length s ≤ fuel → IsDecided (decode_loop fuel s)
unfolding decode_loop
decode_loop-IsDecided fuel [] h = ok-IsDecided _
decode_loop-IsDecided zero (c ∷ s) h = absurd (omega arith)
decode_loop-IsDecided (suc fuel) (c ∷ s) h =
    let plain =
      prepend-IsDecided (c ∷ []) (decode_loop fuel s)
        (decode_loop-IsDecided fuel s (omega arith)) in
    let escape =
      decode_escape-IsDecided (decode_loop fuel) s
        (λ t k. decode_loop-IsDecided fuel t (omega arith)) in
    λ e. ground (arith, plain, escape)

-- Whatever the text is, the fuel that both directions of modified UTF-7 start with, its length, is
-- enough: encoding and decoding return, or throw one of the errors of the code.
pub modified_utf7-IsDecided :
    (text : Bytes) → IsDecided (encode_modified_utf7 text) × IsDecided (decode_modified_utf7 text)
unfolding encode_modified_utf7 decode_modified_utf7
modified_utf7-IsDecided text = (
  encode_loop-IsDecided (length text) text ([], []) (omega arith),
  decode_loop-IsDecided (length text) text (omega arith),
)
