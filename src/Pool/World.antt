-- ===== src/Pool/World.antt =====
-- pool/connection_pool.hpp: the pool among the tasks that use it, one step for each stretch of code
-- between two suspension points. `checking` holds the connections taken out and being validated,
-- `creating` counts the tasks inside `create_connection`, `leased` holds the connections handed out.
-- `dropped` counts the idle connections that the ends of drains have cleared: the code keeps no
-- such number.
use mailio.Base.{ℕ, suc, ◌+◌, ◌≡◌, Bool, true, false, some, List, [], ◌∷◌, ◌++◌}
use mailio.Base.Bytes.{length}
use mailio.Base.Result.{ok}
use mailio.Pool.{
  Pool, PoolConfig, Entry, make_pool, enter_acquire, leave_acquire, fail_acquire, take_idle,
  should_recycle, recycle, hand_out, can_create, hand_out_new, creation_failed, acquire_timed_out,
  add_connection, release, begin_drain, finish_drain, resize,
}

pub record World : Type 0 where
  pub pool : Pool
  pub checking : List Entry
  pub creating : ℕ
  pub leased : List Entry
  pub dropped : ℕ

pub data Step (w : World) : World → Type 0 where
  enter : (p : Pool) → enter_acquire w.pool ≡ ok p → Step w (record w { pool = p })
  take_out :
      (e : Entry) (p : Pool)
      → take_idle w.pool.idle w.pool ≡ some (e, p)
      → Step w (record w { pool = p; checking = e ∷ w.checking })
  discard :
      (now : ℕ) (valid : Bool) (e : Entry) (before after : List Entry)
      → w.checking ≡ before ++ e ∷ after
      → should_recycle w.pool now e valid ≡ true
      → Step w (record w { pool = recycle w.pool; checking = before ++ after })
  lend :
      (now : ℕ) (valid : Bool) (e : Entry) (before after : List Entry)
      → w.checking ≡ before ++ e ∷ after
      → should_recycle w.pool now e valid ≡ false
      → Step w
          (record w { pool = hand_out w.pool; checking = before ++ after; leased = e ∷ w.leased })
  begin_creation :
      w.pool.idle ≡ [] → can_create w.pool ≡ true → Step w (record w { creating = suc w.creating })
  end_creation :
      (e : Entry) (n : ℕ)
      → w.creating ≡ suc n
      → Step w (record w { pool = hand_out_new w.pool; creating = n; leased = e ∷ w.leased })
  fail_creation :
      (n : ℕ)
      → w.creating ≡ suc n
      → Step w (record w { pool = creation_failed w.pool; creating = n })
  time_out : Step w (record w { pool = acquire_timed_out w.pool })
  leave : (wait : ℕ) → Step w (record w { pool = leave_acquire wait w.pool })
  fail : Step w (record w { pool = fail_acquire w.pool })
  warm_up : (client now : ℕ) → Step w (record w { pool = add_connection client now w.pool })
  give_back :
      (now : ℕ) (valid : Bool) (e : Entry) (before after : List Entry)
      → w.leased ≡ before ++ e ∷ after
      → Step w (record w { pool = release now e valid w.pool; leased = before ++ after })
  drain : Step w (record w { pool = begin_drain w.pool })
  end_drain :
      (p : Pool)
      → w.pool.shutdown ≡ true
      → finish_drain w.pool ≡ some p
      → Step w (record w { pool = p; dropped = w.dropped + length w.pool.idle })
  resized : (new_max : ℕ) → Step w (record w { pool = resize new_max w.pool })

pub data Reach (w : World) : World → Type 0 where
  here : Reach w w
  next : {v u : World} → Reach w v → Step v u → Reach w u

unfoldable pub start : PoolConfig → Bool → World
start config has_validator = record {
  pool = make_pool config has_validator;
  checking = [];
  creating = 0;
  leased = [];
  dropped = 0;
}
