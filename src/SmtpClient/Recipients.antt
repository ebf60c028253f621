-- ===== src/SmtpClient/Recipients.antt =====
-- smtp/client.hpp: the recipients without duplicates, and the size of the data.
use mailio.Base.{
  ◌≡◌, ◌⊎◌, inl, inr, refl, sym, subst, Bool, true, false, not, ◌&&◌, List, [], ◌∷◌, arith,
  Bool-cases,
}
use mailio.Base.Bytes.{Bytes, codes, length, length-append, is_empty, any_of, equal, equal_iff, All}
use mailio.SmtpClient.Addresses.{
  to_lower_ascii, is_seen, dedup_loop, dedup, append_smtp_data_terminator,
  smtp_data_terminator_size, mail_data_info,
}

-- No address of the list is another one in letters of another case, or among those seen.
pub IsDistinct : List Bytes → List Bytes → Type 0
IsDistinct seen [] = Unit
IsDistinct seen (addr ∷ addresses) =
    (is_empty addr ≡ false)
    × (is_seen (to_lower_ascii addr) seen ≡ false)
    × IsDistinct (to_lower_ascii addr ∷ seen) addresses

dedup_loop-IsDistinct : (seen addresses : List Bytes) → IsDistinct seen (dedup_loop seen addresses)
unfolding dedup_loop IsDistinct
dedup_loop-IsDistinct seen [] = tt
dedup_loop-IsDistinct seen (addr ∷ addresses) =
    elim (Bool-cases (not (is_empty addr) && not (is_seen (to_lower_ascii addr) seen))) [
      | inl new ↦
          rw new (
            ground arith,
            ground arith,
            dedup_loop-IsDistinct (to_lower_ascii addr ∷ seen) addresses,
          )
      | inr old ↦ rw old (dedup_loop-IsDistinct seen addresses)
    ]

-- The keys of a list of addresses.
pub has_key : Bytes → List Bytes → Bool
has_key key addresses = any_of (λ addr. equal (to_lower_ascii addr) key) addresses

equal_swap : (s t : Bytes) → s ≡ t → equal t s ≡ true
equal_swap s t h = (equal_iff t s).1 (sym h)

equal_refl : (s : Bytes) → equal s s ≡ true
equal_refl s = (equal_iff s s).1 refl

-- A key that has been met stays met.
IsMet : Bytes → List Bytes → List Bytes → Type 0
IsMet key seen out = (is_seen key seen ≡ true) ⊎ (has_key key out ≡ true)

IsMet-cons :
    (key : Bytes) (seen : List Bytes) (addr : Bytes) (out : List Bytes)
    → IsMet key (to_lower_ascii addr ∷ seen) out
    → IsMet key seen (addr ∷ out)
unfolding IsMet is_seen has_key
IsMet-cons key seen addr out (inr met) = inr (ground (arith, met))
IsMet-cons key seen addr out (inl met) = elim (Bool-cases (equal key (to_lower_ascii addr))) [
  | inl same ↦
      (let at = (equal_iff key (to_lower_ascii addr)).0 same in
        inr (rw (equal_swap key (to_lower_ascii addr) at)))
  | inr other ↦ inl (ground (arith, met, other))
]

All-map : (P Q : Bytes → Type 0) (xs : List Bytes) → ((x : Bytes) → P x → Q x) → All P xs → All Q xs
All-map P Q [] f h = tt
All-map P Q (x ∷ xs) f h = (f x (h.0), All-map P Q xs f (h.1))

-- An address that is not empty has its key among those seen or in the list.
IsCovered : List Bytes → List Bytes → Bytes → Type 0
IsCovered seen out addr = is_empty addr ≡ false → IsMet (to_lower_ascii addr) seen out

abbrev is_new : Bytes → List Bytes → Bool
is_new addr seen = not (is_empty addr) && not (is_seen (to_lower_ascii addr) seen)

module _ (seen : List Bytes) (addr : Bytes) (addresses : List Bytes) where
  dedup_loop-new :
      is_new addr seen ≡ true
      → dedup_loop seen (addr ∷ addresses)
        ≡ addr ∷ dedup_loop (to_lower_ascii addr ∷ seen) addresses
  unfolding dedup_loop
  dedup_loop-new h = rw h

  dedup_loop-old :
      is_new addr seen ≡ false → dedup_loop seen (addr ∷ addresses) ≡ dedup_loop seen addresses
  unfolding dedup_loop
  dedup_loop-old h = rw h

  first_IsCovered : (out : List Bytes) → IsCovered seen (addr ∷ out) addr
  unfolding IsCovered IsMet has_key
  first_IsCovered out h = inr (rw (equal_refl (to_lower_ascii addr)))

  seen_IsCovered : (out : List Bytes) → is_new addr seen ≡ false → IsCovered seen out addr
  unfolding IsCovered IsMet
  seen_IsCovered out old h = inl (ground (arith, old, h))

  IsCovered-cons :
      (out : List Bytes) (x : Bytes)
      → IsCovered (to_lower_ascii addr ∷ seen) out x
      → IsCovered seen (addr ∷ out) x
  unfolding IsCovered
  IsCovered-cons out x met h = IsMet-cons (to_lower_ascii x) seen addr out (met h)

dedup_loop-IsCovered :
    (seen addresses : List Bytes) → All (IsCovered seen (dedup_loop seen addresses)) addresses
dedup_loop-IsCovered seen [] = tt
dedup_loop-IsCovered seen (addr ∷ addresses) = elim (Bool-cases (is_new addr seen)) [
  | inl new ↦
      (let out = dedup_loop (to_lower_ascii addr ∷ seen) addresses in
        subst (λ o. All (IsCovered seen o) (addr ∷ addresses))
          (sym (dedup_loop-new seen addr addresses new))
          (
            first_IsCovered seen addr addresses out,
            All-map (IsCovered (to_lower_ascii addr ∷ seen) out) (IsCovered seen (addr ∷ out))
                addresses (IsCovered-cons seen addr addresses out)
                (dedup_loop-IsCovered (to_lower_ascii addr ∷ seen) addresses),
          ))
  | inr old ↦
      (let out = dedup_loop seen addresses in
        subst (λ o. All (IsCovered seen o) (addr ∷ addresses))
          (sym (dedup_loop-old seen addr addresses old))
          (seen_IsCovered seen addr addresses out old, dedup_loop-IsCovered seen addresses))
]

-- No address has been seen before the first.
IsMet-key : (key : Bytes) (out : List Bytes) → IsMet key [] out → has_key key out ≡ true
unfolding IsMet is_seen
IsMet-key key out (inl met) = absurd (cc)
IsMet-key key out (inr met) = met

IsCovered-has_key :
    (out : List Bytes) (x : Bytes)
    → IsCovered [] out x
    → is_empty x ≡ false
    → has_key (to_lower_ascii x) out ≡ true
unfolding IsCovered
IsCovered-has_key out x met h = IsMet-key (to_lower_ascii x) out (met h)

-- The recipients without duplicates are addresses that are not empty, no two of which differ in the
-- case of letters only, and every address given that is not empty is among them in some case.
pub dedup_lem :
    (addresses : List Bytes)
    → IsDistinct [] (dedup addresses)
      × All
          (λ x. is_empty x ≡ false → has_key (to_lower_ascii x) (dedup addresses) ≡ true)
          addresses
unfolding dedup
dedup_lem addresses = (
  dedup_loop-IsDistinct [] addresses,
  All-map (IsCovered [] (dedup_loop [] addresses))
      (λ x. is_empty x ≡ false → has_key (to_lower_ascii x) (dedup_loop [] addresses) ≡ true)
      addresses (λ x met h. IsCovered-has_key (dedup_loop [] addresses) x met h)
      (dedup_loop-IsCovered [] addresses),
)

-- The size that is declared is the length of the data with its terminator.
pub mail_data_info-size :
    (text mail_from : Bytes) (recipients : List Bytes)
    → (mail_data_info text mail_from recipients).size ≡ length (append_smtp_data_terminator text)
unfolding mail_data_info append_smtp_data_terminator smtp_data_terminator_size
mail_data_info-size text mail_from recipients =
    ground (arith, length-append text (codes ".\r\n"), length-append text (codes "\r\n.\r\n"))
