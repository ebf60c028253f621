-- ===== src/AsyncMutex/Exclusion.antt =====
-- detail/async_mutex.hpp: the owners of the lock and the flag.
use mailio.Base.{ℕ, suc, ◌+◌, ◌≤◌, ◌≡◌, ap, Bool, true, false, List, ◌∷◌, ◌++◌, arith}
use mailio.Base.Bytes.{length, length-append}
use mailio.AsyncMutex.{
  Mutex, initial, Step, acquire, miss, enqueue, unlock_free, unlock_pass, store_ready, resume,
  cancel_queued, cancel_granted, Reach, here, next,
}

-- The tasks that own the lock, or to which it is on its way.
abbrev pub owners : Mutex → ℕ
owners s = length s.holders + length s.granted + length s.ready

abbrev allowed : Bool → ℕ
allowed true = 1
allowed false = 0

pub record IsExclusive (s : Mutex) : Type 0 where
  pub within : owners s ≤ allowed s.locked

length_without :
    (before : List ℕ) (t : ℕ) (after : List ℕ) {all : List ℕ}
    → all ≡ before ++ t ∷ after
    → length all ≡ suc (length (before ++ after))
length_without before t after e =
    omega (arith, ap length e, length-append before (t ∷ after), length-append before after)

-- Every step keeps the number of owners within what the flag says: one if set, none if clear.
pub Step-IsExclusive : {s u : Mutex} → Step s u → IsExclusive s → IsExclusive u
Step-IsExclusive (acquire t e) v = record { within = ground (arith, v.within) }
Step-IsExclusive (miss t e) v = record { within = v.within }
Step-IsExclusive (enqueue t before after e) v = record { within = v.within }
Step-IsExclusive {s} (unlock_free t before after e w) v = record {
  within = ground (arith, v.within, length_without before t after e);
}
Step-IsExclusive (unlock_pass t w before after rest e q) v = record {
  within = omega (arith, v.within, length_without before t after e);
}
Step-IsExclusive (store_ready w before after e) v = record {
  within = omega (arith, v.within, length_without before w after e);
}
Step-IsExclusive (resume w before after e) v = record {
  within = ground (arith, v.within, length_without before w after e);
}
Step-IsExclusive (cancel_queued w before after e) v = record { within = v.within }
Step-IsExclusive (cancel_granted w before after e) v = record {
  within = omega (arith, v.within, length_without before w after e);
}

Reach-IsExclusive : {s u : Mutex} → Reach s u → IsExclusive s → IsExclusive u
Reach-IsExclusive here v = v
Reach-IsExclusive (next r st) v = Step-IsExclusive st (Reach-IsExclusive r v)

-- In every state that the tasks can reach, at most one task holds the lock, and while one does the
-- flag is set and nobody else is being handed the lock.
pub at_most_one_holder :
    {s : Mutex}
    → Reach initial s
    → (length s.holders ≤ 1)
      × (1 ≤ length s.holders → (s.locked ≡ true) × (length s.granted + length s.ready ≡ 0))
unfolding initial
at_most_one_holder {s} r =
    let v = Reach-IsExclusive r (record { within = omega arith }) in
    (ground (arith, v.within), λ h. (ground (arith, v.within), ground (arith, v.within)))
