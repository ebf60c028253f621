-- ===== src/SmtpClient/Delivery/Progress.antt =====
-- smtp/client.hpp: the progress that is reported while the data is sent.
use mailio.Base.{ℕ, zero, suc, ◌+◌, ◌-◌, ◌≤◌, ◌<◌, ◌≡◌, refl, subst, List, [], ◌∷◌, arith}
use mailio.Base.Bytes.{Bytes, length, take, drop}
use mailio.Base.Result.{ok}
use mailio.Base.Action.{continue-eq-ok}
use mailio.Net.{write_raw, min}
use mailio.SmtpClient.{Client, on_link}
use mailio.SmtpClient.Send.{ProgressInfo, chunk_size, send_chunks}

-- Each report is beyond the one before, by a chunk at most, and the last one is the total.
pub IsRising : ℕ → ℕ → List ProgressInfo → Type 0
IsRising sent total [] = sent ≡ total
IsRising sent total (p ∷ later) =
    (sent < p.bytes_transferred)
    × (p.bytes_transferred ≤ sent + chunk_size)
    × (p.bytes_transferred ≤ total)
    × (p.total_bytes ≡ total)
    × IsRising p.bytes_transferred total later

length-drop : (n : ℕ) (s : Bytes) → length (drop n s) ≡ length s - n
length-drop zero s = omega arith
length-drop (suc n) [] = omega arith
length-drop (suc n) (c ∷ s) = omega (arith, length-drop n s)

-- A chunk is not empty, and no longer than the limit or what is left.
chunk_lem :
    (left : ℕ)
    → (0 < min chunk_size (suc left))
      × (min chunk_size (suc left) ≤ chunk_size)
      × (min chunk_size (suc left) ≤ suc left)
chunk_lem left = (ground arith, ground arith, ground arith)

-- While the data goes out in chunks, every report of progress is beyond the one before, by 8192
-- bytes at most, and within the total; when sending returns, the last report is the total.
pub send_chunks-IsRising :
    (fuel bytes_sent total : ℕ) (rest : Bytes) (c after : Client) (reports : List ProgressInfo)
    → bytes_sent + length rest ≡ total
    → send_chunks fuel bytes_sent total rest c ≡ (ok reports, after)
    → IsRising bytes_sent total reports
unfolding send_chunks IsRising
send_chunks-IsRising zero bytes_sent total [] c after reports h returned =
    let none_left : [] ≡ reports = cc in
    subst (IsRising bytes_sent total) none_left (omega (arith, h))
send_chunks-IsRising zero bytes_sent total (b ∷ rest) c after reports h returned = absurd cc
send_chunks-IsRising (suc fuel) bytes_sent total [] c after reports h returned =
    let none_left : [] ≡ reports = cc in
    subst (IsRising bytes_sent total) none_left (omega (arith, h))
send_chunks-IsRising (suc fuel) bytes_sent total (b ∷ rest) c after reports h returned =
    let len = min chunk_size (length (b ∷ rest)) in
    let left = drop len (b ∷ rest) in
    let (u, s, written, more) =
      continue-eq-ok (on_link (write_raw (take len (b ∷ rest))) c) _ returned in
    let (later, t, sent_later, made) =
      continue-eq-ok (send_chunks fuel (bytes_sent + len) total left s) _ more in
    let (some_left, few, enough) = chunk_lem (length rest) in
    let shorter = length-drop len (b ∷ rest) in
    let rising =
      send_chunks-IsRising fuel (bytes_sent + len) total left s t later
        (omega (arith, h, shorter, enough)) sent_later in
    let report : ProgressInfo = record {
      bytes_transferred = bytes_sent + len;
      total_bytes = total;
    } in
    let all : report ∷ later ≡ reports = cc in
    subst (IsRising bytes_sent total) all
      (omega (arith, some_left), omega (arith, few), omega (arith, h, enough), refl, rising)
