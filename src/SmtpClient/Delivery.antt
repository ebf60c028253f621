-- ===== src/SmtpClient/Delivery.antt =====
-- smtp/client.hpp: the bytes that sending a message writes.
pub mod Steps
pub mod Sends
pub mod Progress
use mathlib.Core.List.{append_assoc}
use mailio.Base.{◌≡◌, refl, sym, ap, ap₂, ◌∙◌, Bool, true, false, List, [], ◌∷◌, ◌++◌}
use mailio.Base.Bytes.{Bytes, codes}
use mailio.Base.Result.{Result, ok, err}
use mailio.Base.Action.{
  Exception, error, Action, continue, continue-eq-ok, throw_if, gets, pure, ◌>>=◌, ◌>>◌,
}
use mailio.Net.{Written, line_of, raw, hello, normalize_line}
use mailio.SmtpClient.{Client}
use mailio.SmtpClient.Addresses.{rcpt_command}

-- The bytes of a write. What a handshake exchanges is not among them.
abbrev written_bytes : Written → Bytes
written_bytes (line_of payload) = payload
written_bytes (raw payload) = payload
written_bytes (hello name) = []

pub wire : List Written → Bytes
wire [] = []
wire (w ∷ earlier) = wire earlier ++ written_bytes w

-- All that a client has written to its peers.
pub wire_of : Client → Bytes
wire_of c = wire c.link.network.sent

pub rcpt_lines : List Bytes → Bytes
rcpt_lines [] = []
rcpt_lines (rcpt ∷ recipients) = normalize_line (rcpt_command rcpt) ++ rcpt_lines recipients

-- A mail transaction on the wire: the sender's command, a command for each recipient, DATA and the
-- data.
pub transaction : Bytes → List Bytes → Bytes → Bytes
transaction mail recipients payload =
    normalize_line mail ++ (rcpt_lines recipients ++ (normalize_line (codes "DATA") ++ payload))

-- A call that returns has written the bytes, whatever it was started on.
pub record Writes {A : Type 0} (bytes : Bytes) (call : Action Client A) : Type 0 where
  pub writes :
      (c : Client) (a : A) (after : Client)
      → call c ≡ (ok a, after)
      → wire_of after ≡ wire_of c ++ bytes

-- A call that, when it returns, returns a known value and has done nothing else.
pub record IsKnown {A : Type 0} (v : A) (call : Action Client A) : Type 0 where
  pub known : (c : Client) (a : A) (after : Client) → call c ≡ (ok a, after) → (a ≡ v) × (after ≡ c)

append-nil : (s : Bytes) → s ++ [] ≡ s
append-nil [] = refl
append-nil (c ∷ s) = ap (λ t. c ∷ t) (append-nil s)

pub throw_if-Writes : (b : Bool) (e : Exception) → Writes [] (throw_if b e)
throw_if-Writes b e = record {
  writes = λ c a after h.
      let same : c ≡ after = ap (λ o. o.1) h in
      ap wire_of (sym same) ∙ sym (append-nil (wire_of c));
}

pub pure-Writes : {A : Type 0} (a : A) → Writes [] (pure a)
pure-Writes v = record {
  writes = λ c a after h.
      let same : c ≡ after = ap (λ o. o.1) h in
      ap wire_of (sym same) ∙ sym (append-nil (wire_of c));
}

module _ {A B : Type 0} where
  pub bind-Writes :
      (first : Action Client A) (later : A → Action Client B) (bytes more : Bytes)
      → Writes bytes first
      → ((a : A) → Writes more (later a))
      → Writes (bytes ++ more) (first >>= later)
  bind-Writes first later bytes more h k = record {
    writes = λ c b after returned.
        let (a, s, begun, rest) = continue-eq-ok (first c) later returned in
        (k a).writes s b after rest
        ∙ ap (λ t. t ++ more) (h.writes c a s begun)
        ∙ append_assoc (wire_of c) bytes more;
  }

  pub then-Writes :
      (first : Action Client A) (second : Action Client B) (bytes more : Bytes)
      → Writes bytes first
      → Writes more second
      → Writes (bytes ++ more) (first >> second)
  then-Writes first second bytes more h k = bind-Writes first (λ a. second) bytes more h (λ a. k)

  -- After a known value the rest is run where the whole was.
  pub known-rest :
      (v : A) (first : Action Client A) (later : A → Action Client B) {c after : Client} {b : B}
      → IsKnown v first
      → (first >>= later) c ≡ (ok b, after)
      → later v c ≡ (ok b, after)
  known-rest v first later {c} {after} {b} h returned =
      let (a, s, begun, rest) = continue-eq-ok (first c) later returned in
      let (value, unmoved) = h.known c a s begun in
      ap₂ (λ x t. later x t) (sym value) (sym unmoved) ∙ rest
