-- ===== src/AsyncMutex/Tests.antt =====
-- detail/async_mutex.hpp: histories of the lock.
use mailio.Base.{◌≡◌, refl, ◌+◌, ◌≤◌, true, [], ◌∷◌}
use mailio.Base.Bytes.{length}
use mailio.AsyncMutex.{Mutex, initial, Step, acquire, miss, enqueue, unlock_pass, Reach, here, next}
use mailio.AsyncMutex.Exclusion.{at_most_one_holder}
use mailio.AsyncMutex.Starvation.{cancel_granted-leaks}

-- Task 1 has the lock; task 2 waits, and is being handed it.
abbrev handing_over : Mutex
handing_over = record {
  locked = true;
  waiters = [];
  missed = [];
  granted = 2 ∷ [];
  ready = [];
  holders = [];
}

history : Reach initial handing_over
unfolding initial
history =
    next (next (next (next here (acquire 1 refl)) (miss 2 refl)) (enqueue 2 [] [] refl))
      (unlock_pass 1 2 [] [] [] refl refl)

at_most_one_holder_example :
    (length handing_over.holders ≤ 1)
    × (1 ≤ length handing_over.holders
        → (handing_over.locked ≡ true)
          × (length handing_over.granted + length handing_over.ready ≡ 0))
at_most_one_holder_example = at_most_one_holder history

abbrev leaked : Mutex
leaked = record handing_over { granted = [] }

cancel_granted-leaks_example :
    (Step handing_over leaked) × (leaked.locked ≡ true) × (leaked.holders ≡ [])
cancel_granted-leaks_example = cancel_granted-leaks handing_over 2 refl refl refl refl here
