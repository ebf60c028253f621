-- ===== src/Net/Buffered.antt =====
-- net/dialog.hpp: reading a line that is in the buffer.
use mailio.Base.{ℕ, suc, ◌≤◌, ◌≡◌, refl, ap, Bool, false, some, [], ◌∷◌, ◌++◌, arith, ltb, ◌∙◌}
use mailio.Base.Bytes.{
  Bytes, length, length-append, drop, get_or, find, find-append, contains, take-length,
}
use mailio.Base.Result.{ok}
use mailio.Net.{Network, Link, read_line, read_found, extract, line_length}

-- A link whose buffer holds these bytes.
abbrev pub holding : Bool → ℕ → Network → Bytes → Link
holding is_tls limit net buffer = record {
  dialog = some (record { is_tls = is_tls; read_buffer = buffer; max_line_length = limit });
  network = net;
}

abbrev pub crlf : Bytes
crlf = b'\r' ∷ b'\n' ∷ []

contains-snoc :
    (line : Bytes) → contains b'\n' line ≡ false → contains b'\n' (line ++ b'\r' ∷ []) ≡ false
contains-snoc [] h = refl
contains-snoc (c ∷ line) h = ground (arith, contains-snoc line)

append-snoc : (line : Bytes) (c : ℕ) (rest : Bytes) → (line ++ c ∷ []) ++ rest ≡ line ++ c ∷ rest
append-snoc [] c rest = refl
append-snoc (x ∷ line) c rest = ap (λ t. x ∷ t) (append-snoc line c rest)

find-crlf :
    (line rest : Bytes)
    → contains b'\n' line ≡ false
    → find b'\n' (line ++ b'\r' ∷ b'\n' ∷ rest) ≡ some (suc (length line))
find-crlf line rest h = rw (← append-snoc line b'\r' (b'\n' ∷ rest)) (
    find-append b'\n' (line ++ b'\r' ∷ []) rest (contains-snoc line h)
    ∙ ap some (omega (arith, length-append line (b'\r' ∷ []))))

get_or-middle :
    (line : Bytes) (c : ℕ) (rest : Bytes) → get_or (line ++ c ∷ rest) (length line) 0 ≡ c
get_or-middle [] c rest = refl
get_or-middle (x ∷ line) c rest = get_or-middle line c rest

drop-crlf :
    (line rest : Bytes) → drop (suc (suc (length line))) (line ++ b'\r' ∷ b'\n' ∷ rest) ≡ rest
drop-crlf [] rest = refl
drop-crlf (x ∷ line) rest = drop-crlf line rest

-- A line with CRLF in the buffer, no longer than the limit, is read without the end, and what is
-- behind it stays.
pub read_line-crlf :
    (is_tls : Bool) (limit : ℕ) (net : Network) (line rest : Bytes)
    → contains b'\n' line ≡ false
    → length line ≤ limit
    → read_line (holding is_tls limit net (line ++ b'\r' ∷ b'\n' ∷ rest))
      ≡ (ok line, holding is_tls limit net rest)
unfolding read_line read_found extract line_length
read_line-crlf is_tls limit net line rest h short =
    let within : ltb limit (length line) ≡ false = ground (arith, short) in
    rw (
      find-crlf line rest h,
      get_or-middle line b'\r' (b'\n' ∷ rest),
      within,
      take-length line (b'\r' ∷ b'\n' ∷ rest),
      drop-crlf line rest,
    )
