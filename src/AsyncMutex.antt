-- ===== src/AsyncMutex.antt =====
-- include/mailxx/detail/async_mutex.hpp. Tasks are numbers; each step of the relation is one
-- atomic access of the code, so that tasks on several threads interleave between them.
pub mod Exclusion
pub mod Starvation
mod Tests
use mailio.Base.{ℕ, ◌≡◌, Bool, true, false, List, [], ◌∷◌, ◌++◌}

pub record Mutex : Type 0 where
  -- `locked_`
  pub locked : Bool
  -- `waiters_`, oldest first
  pub waiters : List ℕ
  -- Tasks whose `compare_exchange_strong` failed and that are not in the queue yet.
  pub missed : List ℕ
  -- Waiters that `unlock` took from the queue, before their `ready` is stored.
  pub granted : List ℕ
  -- Waiters with `ready` stored that have not resumed.
  pub ready : List ℕ
  -- Tasks that own a `scoped_lock`.
  pub holders : List ℕ

pub initial : Mutex
initial = record {
  locked = false;
  waiters = [];
  missed = [];
  granted = [];
  ready = [];
  holders = [];
}

pub data Step (s : Mutex) : Mutex → Type 0 where
  -- `lock`: the exchange succeeds, and the lock is returned.
  acquire :
      (t : ℕ) → s.locked ≡ false → Step s (record s { locked = true; holders = t ∷ s.holders })
  -- `lock`: the exchange fails.
  miss : (t : ℕ) → s.locked ≡ true → Step s (record s { missed = t ∷ s.missed })
  -- `lock`: the waiter is pushed to the back of the queue.
  enqueue :
      (t : ℕ) (before after : List ℕ)
      → s.missed ≡ before ++ t ∷ after
      → Step s (record s { missed = before ++ after; waiters = s.waiters ++ t ∷ [] })
  -- `unlock` with nobody waiting.
  unlock_free :
      (t : ℕ) (before after : List ℕ)
      → s.holders ≡ before ++ t ∷ after
      → s.waiters ≡ []
      → Step s (record s { locked = false; holders = before ++ after })
  -- `unlock` takes the oldest waiter from the queue; the flag stays set.
  unlock_pass :
      (t w : ℕ) (before after rest : List ℕ)
      → s.holders ≡ before ++ t ∷ after
      → s.waiters ≡ w ∷ rest
      → Step s (record s { holders = before ++ after; waiters = rest; granted = w ∷ s.granted })
  -- `unlock` stores `ready` of the waiter that it took, and cancels its timer.
  store_ready :
      (w : ℕ) (before after : List ℕ)
      → s.granted ≡ before ++ w ∷ after
      → Step s (record s { granted = before ++ after; ready = w ∷ s.ready })
  -- `lock` resumes with `ready` set, stores the flag and returns the lock.
  resume :
      (w : ℕ) (before after : List ℕ)
      → s.ready ≡ before ++ w ∷ after
      → Step s (record s { locked = true; ready = before ++ after; holders = w ∷ s.holders })
  -- The wait is cancelled from outside while the waiter is queued: it is erased, and `lock` throws.
  cancel_queued :
      (w : ℕ) (before after : List ℕ)
      → s.waiters ≡ before ++ w ∷ after
      → Step s (record s { waiters = before ++ after })
  -- The same after `unlock` took the waiter and before it stored `ready`: there is nothing to
  -- erase, and `lock` throws.
  cancel_granted :
      (w : ℕ) (before after : List ℕ)
      → s.granted ≡ before ++ w ∷ after
      → Step s (record s { granted = before ++ after })

pub data Reach (s : Mutex) : Mutex → Type 0 where
  here : Reach s s
  next : {t u : Mutex} → Reach s t → Step t u → Reach s u
