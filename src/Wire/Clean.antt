-- ===== src/Wire/Clean.antt =====
-- detail/sanitize.hpp and detail/append.hpp: strings without line ends and NUL.
use mailio.Base.{ℕ, ◌≡◌, refl, true, false, ◌||◌, Option, some, [], ◌∷◌, ◌++◌, arith, ◌==◌, within}
use mailio.Base.Bytes.{Bytes, codes, all_of}
use mailio.Base.Result.{ok, err}
use mailio.Wire.{
  contains_crlf_or_nul, ensure_no_crlf_or_nul, append_sv, append_char, append_space, append_uint,
  append_angle_addr, to_chars,
}
use mailio.Wire.Decimal.{to_chars_digits}

-- `contains_crlf_or_nul` finds nothing.
abbrev pub IsClean : Bytes → Type 0
IsClean s = contains_crlf_or_nul s ≡ false

pub IsClean-append : (s t : Bytes) → IsClean s → IsClean t → IsClean (s ++ t)
unfolding contains_crlf_or_nul
IsClean-append [] t h k = k
IsClean-append (c ∷ s) t h k = ground (arith, IsClean-append s t)

pub IsClean-cons :
    (c : ℕ) (s : Bytes) → (c == b'\r' || c == b'\n' || c == 0) ≡ false → IsClean s → IsClean (c ∷ s)
unfolding contains_crlf_or_nul
IsClean-cons c s h k = ground arith

pub ensure-IsClean :
    (value : Bytes) (field : Option Bytes) {u : Unit {0}}
    → ensure_no_crlf_or_nul value field ≡ ok u
    → IsClean value
unfolding ensure_no_crlf_or_nul
ensure-IsClean value field h = ground arith

pub IsClean-ensure :
    (value : Bytes) (field : Option Bytes)
    → IsClean value
    → ensure_no_crlf_or_nul value field ≡ ok tt
unfolding ensure_no_crlf_or_nul
IsClean-ensure value field h = rw h

pub IsClean-digits : (s : Bytes) → all_of (within b'0' b'9') s ≡ true → IsClean s
unfolding contains_crlf_or_nul
IsClean-digits [] h = refl
IsClean-digits (c ∷ s) h = ground (arith, IsClean-digits s)

pub append_uint-IsClean : (out : Bytes) (n : ℕ) → IsClean out → IsClean (append_uint out n)
unfolding append_uint
append_uint-IsClean out n h =
    IsClean-append out (to_chars 20 n) h (IsClean-digits (to_chars 20 n) (to_chars_digits 20 n))

pub append_char-IsClean :
    (out : Bytes) (c : ℕ)
    → IsClean out
    → (c == b'\r' || c == b'\n' || c == 0) ≡ false
    → IsClean (append_char out c)
unfolding append_char
append_char-IsClean out c h k =
    IsClean-append out (c ∷ []) h (IsClean-cons c [] k (unfold contains_crlf_or_nul in refl))

pub append_space-IsClean : (out : Bytes) → IsClean out → IsClean (append_space out)
unfolding append_space
append_space-IsClean out h = append_char-IsClean out b' ' h refl

pub append_sv-IsClean : (out sv : Bytes) → IsClean out → IsClean sv → IsClean (append_sv out sv)
unfolding append_sv
append_sv-IsClean = IsClean-append

pub append_angle_addr-IsClean :
    (out addr : Bytes) → IsClean out → IsClean addr → IsClean (append_angle_addr out addr)
unfolding append_angle_addr
append_angle_addr-IsClean out addr h k =
    IsClean-append (out ++ b'<' ∷ []) (addr ++ b'>' ∷ [])
      (IsClean-append out (b'<' ∷ []) h (unfold contains_crlf_or_nul in refl))
      (IsClean-append addr (b'>' ∷ []) k (unfold contains_crlf_or_nul in refl))

pub ensure-refuses :
    (value field : Bytes)
    → contains_crlf_or_nul value ≡ true
    → ensure_no_crlf_or_nul value (some field)
      ≡ err (codes "Invalid " ++ (field ++ codes ": CR/LF or NUL not allowed."))
unfolding ensure_no_crlf_or_nul
ensure-refuses value field h = rw h
