-- ===== src/Pool/Tests.antt =====
-- pool/connection_pool.hpp: histories of a pool.
use mailio.Base.{
  ℕ, zero, suc, ◌*◌, ◌<◌, ◌≡◌, refl, true, false, Bool, Option, none, some, [], ◌∷◌, arith,
}
use mailio.Base.Bytes.{length}
use mailio.Pool.{
  Pool, PoolConfig, Entry, make_pool, hand_out_new, can_create, begin_drain, finish_drain,
  add_connection, created, failed, create_connection, create_loop,
}
use mailio.Pool.World.{
  World, Reach, here, next, start, warm_up, drain, end_drain, begin_creation, end_creation,
}
use mailio.Pool.Counters.{IsCounted, counters_true}
use mailio.Pool.Acquire.{
  Wait, pause, Finishes, failures, acquire_rounds, again, acquire_never_times_out, acquire_ends,
}

abbrev config : PoolConfig
config = record {
  min_connections = 0;
  max_connections = 1;
  max_lifetime = 0;
  acquire_timeout = 100;
  validate_on_acquire = false;
  max_pending_requests = 0;
  creation_retry_count = 3;
}

abbrev lent : Entry
lent = record { client = 7; metadata = record { created_at = 0; last_used_at = 0; times_used = 0 } }

abbrev new_pool : Pool
new_pool = make_pool config false

one_connection : World
one_connection = record {
  pool = hand_out_new new_pool;
  checking = [];
  creating = 0;
  leased = lent ∷ [];
  dropped = 0;
}

lending : Reach (start config false) one_connection
unfolding start make_pool can_create one_connection
lending = next (next here (begin_creation refl refl)) (end_creation lent 0 refl)

-- A pool that was warmed up by one connection.
warm_pool : Pool
warm_pool = add_connection 7 0 new_pool

abbrev warm : World
warm = record { pool = warm_pool; checking = []; creating = 0; leased = []; dropped = 0 }

warming : Reach (start config false) warm
unfolding start make_pool warm_pool add_connection
warming = next here (warm_up 7 0)

-- The same once it is drained: one connection is counted that is no more.
abbrev drained_world : World
drained_world = record {
  pool = record (begin_drain warm_pool) { idle = [] };
  checking = [];
  creating = 0;
  leased = [];
  dropped = 1;
}

draining : Reach (start config false) drained_world
unfolding finish_drain begin_drain warm_pool add_connection make_pool
draining = next (next warming drain) (end_drain (drained_world.pool) refl refl)

counters_true_example : IsCounted drained_world
counters_true_example = counters_true config false draining

drained : finish_drain warm_pool ≡ some (record warm_pool { idle = [] })
unfolding finish_drain warm_pool add_connection make_pool
drained = refl

-- The second answer is a connection.
answers_late : ℕ → Option ℕ
answers_late zero = none
answers_late (suc i) = some 5

created_late : create_connection new_pool answers_late ≡ created 5
unfolding create_connection create_loop answers_late make_pool
created_late = refl

answers_nothing : ℕ → Option ℕ
answers_nothing i = none

nothing_created : create_connection new_pool answers_nothing ≡ failed
unfolding create_connection create_loop answers_nothing make_pool
nothing_created = refl

abbrev idle_world : World
idle_world = record { pool = new_pool; checking = []; creating = 0; leased = []; dropped = 0 }

abbrev always_valid : ℕ → Bool
always_valid i = true

abbrev noon : ℕ → ℕ
noon i = 12

-- Waits on an exact clock, during which nobody else does anything.
abbrev lonely : ℕ → Wait
lonely i = record { clock = λ j. j * pause; others = λ j p. p }

new_idle : new_pool.idle ≡ []
unfolding make_pool
new_idle = refl

new_room : can_create new_pool ≡ true
unfolding make_pool can_create
new_room = refl

new_timeout : 0 < new_pool.config.acquire_timeout
unfolding make_pool
new_timeout = omega arith

acquire_never_times_out_example :
    acquire_rounds noon always_valid (λ _. failed) lonely 5 new_pool ≡ again (failures 5 new_pool)
acquire_never_times_out_example =
    acquire_never_times_out noon always_valid lonely 5 new_pool new_idle new_room new_timeout

new_short : length new_pool.idle < 1
unfolding make_pool
new_short = omega arith

acquire_ends_example :
    Finishes (acquire_rounds noon always_valid (λ i. created (noon i)) lonely 1 new_pool)
acquire_ends_example =
    acquire_ends noon always_valid noon lonely 1 new_pool (λ i j. omega arith) (λ i j p h. h)
      new_short
