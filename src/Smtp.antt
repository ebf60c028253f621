-- ===== src/Smtp.antt =====
-- include/mailxx/smtp/types.hpp: replies, capabilities, the options of delivery status
-- notifications and the MAIL FROM command.
pub mod Clean
pub mod Notify
pub mod Capabilities
mod Tests
use Prim.Native.Nat.{bit_and, bit_or}
use mailio.Base.{
  ℕ, zero, suc, ◌+◌, ◌-◌, ◌/◌, Bool, true, false, not, ◌&&◌, ◌||◌, Option, none, some, List, [],
  ◌∷◌, ◌++◌, ◌==◌, ltb, within, if◌then◌else◌,
}
use mailio.Base.Bytes.{Bytes, codes, is_empty, equal}
use mailio.Base.Result.{Result, ok, err, ◌>>=◌}
use mailio.Wire.{ensure_no_crlf_or_nul, append_sv, append_uint, append_angle_addr}

-- Status codes are not negative.
pub record Reply : Type 0 where
  pub status : ℕ
  pub lines : List Bytes

unfoldable pub is_positive_completion : Reply → Bool
is_positive_completion r = r.status / 100 == 2

unfoldable pub is_positive_intermediate : Reply → Bool
is_positive_intermediate r = r.status / 100 == 3

pub is_transient_negative : Reply → Bool
is_transient_negative r = r.status / 100 == 4

pub is_permanent_negative : Reply → Bool
is_permanent_negative r = r.status / 100 == 5

pub join_lines : Bytes → List Bytes → Bytes
join_lines out [] = out
join_lines out (line ∷ lines) = join_lines ((out ++ b'\n' ∷ []) ++ line) lines

pub message : Reply → Bytes
message r = elim r.lines [ [] ↦ [] | line ∷ lines ↦ join_lines line lines ]

-- The map from a capability to its parameters, as a list of pairs.
abbrev pub Entries : Type 0
Entries = List (Bytes × List Bytes)

pub normalize_key : Bytes → Bytes
normalize_key [] = []
normalize_key (ch ∷ key) =
    (if within b'a' b'z' ch then ch - (b'a' - b'A') else ch) ∷ normalize_key key

pub find_entry : Bytes → Entries → Option (List Bytes)
find_entry key [] = none
find_entry key ((k, parameters) ∷ entries) =
    let rest = find_entry key entries in if equal k key then some parameters else rest

pub parameters : Entries → Bytes → Option (List Bytes)
parameters entries capability = find_entry (normalize_key capability) entries

pub supports : Entries → Bytes → Bool
supports entries capability = elim (find_entry (normalize_key capability) entries) [
  | none ↦ false
  | some p ↦ true
]

pub data DsnRet : Type 0 where
  none_ret full hdrs : DsnRet

-- `dsn_notify`, by the number that an enumerator has.
abbrev pub notify_none : ℕ
notify_none = 0

abbrev pub notify_success : ℕ
notify_success = 1

abbrev pub notify_failure : ℕ
notify_failure = 2

abbrev pub notify_delay : ℕ
notify_delay = 4

abbrev pub notify_never : ℕ
notify_never = 8

pub has_flag : ℕ → ℕ → Bool
has_flag flags flag = not (bit_and flags flag == 0)

pub record DsnOptions : Type 0 where
  pub ret : DsnRet
  pub notify : ℕ
  pub envid : Bytes
  pub orcpt : Bytes

abbrev pub is_requested : DsnRet → Bool
is_requested none_ret = false
is_requested full = true
is_requested hdrs = true

pub enabled : DsnOptions → Bool
enabled dsn = is_requested dsn.ret || not (dsn.notify == 0) || not (is_empty dsn.envid)

abbrev pub ret_name : DsnRet → Bytes
ret_name full = codes "FULL"
ret_name hdrs = codes "HDRS"
ret_name none_ret = []

unfoldable pub ret_string : DsnOptions → Bytes
ret_string dsn = ret_name dsn.ret

-- `if (has_flag(notify, flag)) { if (!result.empty()) result += ","; result += name; }`
unfoldable pub add_condition : ℕ → ℕ → Bytes → Bytes → Bytes
add_condition notify flag name result =
    if has_flag notify flag
    then (if is_empty result then name else (result ++ b',' ∷ name))
    else result

unfoldable pub notify_string : DsnOptions → Bytes
notify_string dsn =
    let success = add_condition dsn.notify notify_success (codes "SUCCESS") [] in
    let failure = add_condition dsn.notify notify_failure (codes "FAILURE") success in
    if has_flag dsn.notify notify_never
    then codes "NEVER"
    else add_condition dsn.notify notify_delay (codes "DELAY") failure

pub on_failure : DsnOptions
on_failure = record { ret = hdrs; notify = notify_failure; envid = []; orcpt = [] }

pub on_success_or_failure : DsnOptions
on_success_or_failure = record {
  ret = hdrs;
  notify = bit_or notify_success notify_failure;
  envid = [];
  orcpt = [];
}

pub all : DsnOptions
all = record {
  ret = full;
  notify = bit_or (bit_or notify_success notify_failure) notify_delay;
  envid = [];
  orcpt = [];
}

pub disabled : DsnOptions
disabled = record { ret = none_ret; notify = notify_never; envid = []; orcpt = [] }

pub record SizeLimit : Type 0 where
  pub max_size : ℕ

pub has_limit : SizeLimit → Bool
has_limit limit = ltb 0 limit.max_size

pub exceeds : SizeLimit → ℕ → Bool
exceeds limit msg_size = has_limit limit && ltb limit.max_size msg_size

pub record MailExtensionFlags : Type 0 where
  pub use_size : Bool
  pub use_smtputf8 : Bool
  pub use_8bitmime : Bool
  pub supports_size : Bool
  pub supports_smtputf8 : Bool
  pub supports_8bitmime : Bool

pub append_mail_extensions : Bytes → ℕ → Bool → Bool → MailExtensionFlags → Bytes
append_mail_extensions cmd msg_size has_8bit needs_utf8 flags =
    let cmd1 =
      if flags.use_size && flags.supports_size
      then append_uint (append_sv cmd (codes " SIZE=")) msg_size
      else cmd in
    let cmd2 =
      if flags.use_smtputf8 && flags.supports_smtputf8 && needs_utf8
      then append_sv cmd1 (codes " SMTPUTF8")
      else cmd1 in
    if flags.use_8bitmime && flags.supports_8bitmime && has_8bit
    then append_sv cmd2 (codes " BODY=8BITMIME")
    else cmd2

pub build_mail_from_command : Bytes → ℕ → Bool → Bool → MailExtensionFlags → Result Bytes Bytes
build_mail_from_command mail_from msg_size has_8bit needs_utf8 flags = do
  checked ← ensure_no_crlf_or_nul mail_from (some (codes "mail_from"))
  ok (
      append_mail_extensions (append_angle_addr (append_sv [] (codes "MAIL FROM: ")) mail_from)
        msg_size has_8bit needs_utf8 flags)
