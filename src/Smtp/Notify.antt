-- ===== src/Smtp/Notify.antt =====
-- smtp/types.hpp: the NOTIFY parameter of a recipient.
use mailio.Base.{◌≡◌, Bool, List, [], ◌∷◌, ◌++◌, Bool-cases, inl, inr, if◌then◌else◌}
use mailio.Base.Bytes.{Bytes, codes}
use mailio.Smtp.{
  DsnOptions, notify_success, notify_failure, notify_delay, notify_never, has_flag, add_condition,
  notify_string,
}

-- Words between commas.
pub comma_separated : List Bytes → Bytes
comma_separated [] = []
comma_separated (w ∷ []) = w
comma_separated (w ∷ v ∷ ws) = w ++ b',' ∷ comma_separated (v ∷ ws)

-- The words of the conditions that are set, in the order of RFC 3461's list.
pub conditions : Bool → Bool → Bool → List Bytes
conditions success failure delay =
    (if success then codes "SUCCESS" ∷ [] else [])
    ++ ((if failure then codes "FAILURE" ∷ [] else [])
        ++ (if delay then codes "DELAY" ∷ [] else []))

-- NEVER is written alone, whatever else is set. Without it, the conditions that are set are written
-- in the order SUCCESS, FAILURE, DELAY, with a comma between two.
pub notify_string_lem :
    (dsn : DsnOptions)
    → notify_string dsn ≡ (
        if has_flag dsn.notify notify_never
        then codes "NEVER"
        else comma_separated (
            conditions
              (has_flag dsn.notify notify_success)
              (has_flag dsn.notify notify_failure)
              (has_flag dsn.notify notify_delay)))
unfolding notify_string add_condition comma_separated conditions
notify_string_lem dsn = elim (Bool-cases (has_flag dsn.notify notify_success)) [
  | inl s ↦ elim (Bool-cases (has_flag dsn.notify notify_failure)) [
    | inl f ↦ elim (Bool-cases (has_flag dsn.notify notify_delay)) [
      | inl d ↦ rw (s, f, d)
      | inr d ↦ rw (s, f, d)
    ]
    | inr f ↦ elim (Bool-cases (has_flag dsn.notify notify_delay)) [
      | inl d ↦ rw (s, f, d)
      | inr d ↦ rw (s, f, d)
    ]
  ]
  | inr s ↦ elim (Bool-cases (has_flag dsn.notify notify_failure)) [
    | inl f ↦ elim (Bool-cases (has_flag dsn.notify notify_delay)) [
      | inl d ↦ rw (s, f, d)
      | inr d ↦ rw (s, f, d)
    ]
    | inr f ↦ elim (Bool-cases (has_flag dsn.notify notify_delay)) [
      | inl d ↦ rw (s, f, d)
      | inr d ↦ rw (s, f, d)
    ]
  ]
]
