-- ===== src/AsyncMutex/Starvation.antt =====
-- detail/async_mutex.hpp: cancelled waits.
use mailio.Base.{ℕ, ◌≡◌, refl, sym, ap, ◌∙◌, true, List, [], ◌∷◌, ◌++◌, arith}
use mailio.Base.Bytes.{length, length-append}
use mailio.AsyncMutex.{
  Mutex, Step, acquire, miss, enqueue, unlock_free, unlock_pass, store_ready, resume, cancel_queued,
  cancel_granted, Reach, here, next,
}

-- The flag is set, and no task owns the lock or will get it.
pub record IsLeaked (s : Mutex) : Type 0 where
  pub locked : s.locked ≡ true
  pub no_holder : s.holders ≡ []
  pub no_granted : s.granted ≡ []
  pub no_ready : s.ready ≡ []

not_nil :
    {xs : List ℕ} (before : List ℕ) (t : ℕ) (after : List ℕ)
    → xs ≡ []
    → xs ≡ before ++ t ∷ after
    → ⊥
not_nil before t after e q =
    absurd (omega (arith, ap length e, ap length q, length-append before (t ∷ after)))

Step-IsLeaked : {s u : Mutex} → Step s u → IsLeaked s → IsLeaked u
Step-IsLeaked (acquire t e) v = absurd (cc (sym e ∙ v.locked))
Step-IsLeaked (miss t e) v = record {
  locked = v.locked;
  no_holder = v.no_holder;
  no_granted = v.no_granted;
  no_ready = v.no_ready;
}
Step-IsLeaked (enqueue t before after e) v = record {
  locked = v.locked;
  no_holder = v.no_holder;
  no_granted = v.no_granted;
  no_ready = v.no_ready;
}
Step-IsLeaked (unlock_free t before after e w) v = absurd (not_nil before t after v.no_holder e)
Step-IsLeaked (unlock_pass t w before after rest e q) v =
    absurd (not_nil before t after v.no_holder e)
Step-IsLeaked (store_ready w before after e) v = absurd (not_nil before w after v.no_granted e)
Step-IsLeaked (resume w before after e) v = absurd (not_nil before w after v.no_ready e)
Step-IsLeaked (cancel_queued w before after e) v = record {
  locked = v.locked;
  no_holder = v.no_holder;
  no_granted = v.no_granted;
  no_ready = v.no_ready;
}
Step-IsLeaked (cancel_granted w before after e) v = absurd (not_nil before w after v.no_granted e)

Reach-IsLeaked : {s u : Mutex} → Reach s u → IsLeaked s → IsLeaked u
Reach-IsLeaked here v = v
Reach-IsLeaked (next r st) v = Step-IsLeaked st (Reach-IsLeaked r v)

-- With the flag set, no holder and one waiter taken from the queue whose `ready` is not stored, the
-- waiter can be cancelled; from then on, after any steps, no task holds the lock and the flag is set.
pub cancel_granted-leaks :
    (s : Mutex) (w : ℕ)
    → s.locked ≡ true
    → s.holders ≡ []
    → s.granted ≡ w ∷ []
    → s.ready ≡ []
    → {u : Mutex} → Reach (record s { granted = [] }) u
    → (Step s (record s { granted = [] })) × (u.locked ≡ true) × (u.holders ≡ [])
cancel_granted-leaks s w l h g r reach =
    let v =
      Reach-IsLeaked reach
        (record { locked = l; no_holder = h; no_granted = refl; no_ready = r }) in
    (cancel_granted w [] [] g, v.locked, v.no_holder)
