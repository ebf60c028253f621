-- ===== src/Pool/Counters.antt =====
-- pool/connection_pool.hpp: the counters of connections, and the end of a drain.
use mailio.Base.{
  ℕ, suc, ◌+◌, ◌-◌, ◌≤◌, ◌≡◌, refl, ap, sym, ◌∙◌, Bool, true, false, some, List, [], ◌∷◌, ◌++◌,
  arith, inl, inr, ltb, ◌^◌, Bool-cases,
}
use mailio.Base.Bytes.{length, length-append}
use mailio.Base.Result.{ok}
use mailio.Pool.{
  Pool, PoolConfig, PoolStats, Entry, make_pool, enter_acquire, leave_acquire, fail_acquire,
  take_idle, should_recycle, recycle, hand_out, can_create, hand_out_new, creation_failed,
  acquire_timed_out, add_connection, is_expired, close_connection, keep_connection,
  return_connection, release, mark_used, begin_drain, finish_drain, resize,
}
use mailio.Pool.World.{
  World, Step, enter, take_out, discard, lend, begin_creation, end_creation, fail_creation,
  time_out, leave, fail, warm_up, give_back, drain, end_drain, resized, Reach, here, next, start,
}

-- Each counter is the number of connections that it stands for; only those that the end of a drain
-- has cleared are counted on, and there are none of them before a drain.
pub record IsCounted (w : World) : Type 0 where
  pub idle : w.pool.stats.idle_connections ≡ length w.pool.idle + w.dropped
  pub in_use : w.pool.stats.in_use_connections ≡ length w.leased
  pub total :
      w.pool.stats.total_connections
      ≡ length w.pool.idle + length w.checking + length w.leased + w.dropped
  pub before_drain : w.pool.shutdown ≡ false → w.dropped ≡ 0

length_without :
    (before : List Entry) (e : Entry) (after : List Entry) {all : List Entry}
    → all ≡ before ++ e ∷ after
    → length all ≡ suc (length (before ++ after))
length_without before e after q =
    omega (arith, ap length q, length-append before (e ∷ after), length-append before after)

nil_of_length : (xs : List Entry) → length xs ≡ 0 → xs ≡ []
nil_of_length [] h = refl
nil_of_length (x ∷ xs) h = absurd (omega arith)

-- The connections and their counters are those of the other pool.
record IsSame (p q : Pool) : Type 0 where
  idle_list : q.idle ≡ p.idle
  idle : q.stats.idle_connections ≡ p.stats.idle_connections
  in_use : q.stats.in_use_connections ≡ p.stats.in_use_connections
  total : q.stats.total_connections ≡ p.stats.total_connections
  shutdown : q.shutdown ≡ p.shutdown

enter_acquire-IsSame : (p q : Pool) → enter_acquire p ≡ ok q → IsSame p q
unfolding enter_acquire
enter_acquire-IsSame p q h = record {
  idle_list = ground arith;
  idle = ground arith;
  in_use = ground arith;
  total = ground arith;
  shutdown = ground arith;
}

leave_acquire-IsSame : (wait : ℕ) (p : Pool) → IsSame p (leave_acquire wait p)
unfolding leave_acquire
leave_acquire-IsSame wait p = elim (Bool-cases (ltb (10 ^ 6) wait)) [
  | inl e ↦
      rw e (record { idle_list = refl; idle = refl; in_use = refl; total = refl; shutdown = refl })
  | inr e ↦
      rw e (record { idle_list = refl; idle = refl; in_use = refl; total = refl; shutdown = refl })
]

IsSame-IsCounted :
    (w : World) (q : Pool) → IsSame w.pool q → IsCounted w → IsCounted (record w { pool = q })
IsSame-IsCounted w q s v =
    let n = ap length s.idle_list in
    record {
      idle = omega (arith, v.idle, s.idle);
      in_use = omega (arith, v.in_use, s.in_use);
      total = omega (arith, v.total, s.total);
      before_drain = λ h. v.before_drain (sym s.shutdown ∙ h);
    }

take_idle-IsCounted :
    (w : World) (xs : List Entry) (e : Entry) (p : Pool)
    → w.pool.idle ≡ xs
    → take_idle xs w.pool ≡ some (e, p)
    → IsCounted w
    → IsCounted (record w { pool = p; checking = e ∷ w.checking })
unfolding take_idle
take_idle-IsCounted w [] e p q h v = absurd (cc)
take_idle-IsCounted w (x ∷ xs) e p q h v =
    let n = ap length q in
    record {
      idle = ground (arith, v.idle);
      in_use = ground (arith, v.in_use);
      total = ground (arith, v.total);
      before_drain = λ no. v.before_drain (ground (arith, h, no));
    }

-- What `return_connection` does to the counters, on each of its branches.
return_connection-counts :
    (p : Pool) (now : ℕ) (e : Entry) (valid : Bool)
    → let q = return_connection now e valid p in
      (q.stats.in_use_connections ≡ p.stats.in_use_connections - 1)
      × (q.stats.idle_connections + length p.idle ≡ p.stats.idle_connections + length q.idle)
      × (1 ≤ p.stats.total_connections
          → q.stats.total_connections + length p.idle + 1
            ≡ p.stats.total_connections + length q.idle)
      × (q.shutdown ≡ p.shutdown)
unfolding return_connection close_connection recycle keep_connection
return_connection-counts p now e valid =
    let n = length-append p.idle (e ∷ []) in
    (ground arith, ground (arith, n), λ h. ground (arith, n), ground arith)

release-counts :
    (p : Pool) (now : ℕ) (e : Entry) (valid : Bool)
    → let q = release now e valid p in
      (q.stats.in_use_connections ≡ p.stats.in_use_connections - 1)
      × (q.stats.idle_connections + length p.idle ≡ p.stats.idle_connections + length q.idle)
      × (1 ≤ p.stats.total_connections
          → q.stats.total_connections + length p.idle + 1
            ≡ p.stats.total_connections + length q.idle)
      × (q.shutdown ≡ p.shutdown)
unfolding release
release-counts p now e valid =
    return_connection-counts p now (record e { metadata = mark_used now e.metadata }) valid

end_drain-IsCounted :
    (w : World) (p : Pool)
    → w.pool.shutdown ≡ true
    → finish_drain w.pool ≡ some p
    → IsCounted w
    → IsCounted (record w { pool = p; dropped = w.dropped + length w.pool.idle })
unfolding finish_drain
end_drain-IsCounted w p off h v = record {
  idle = ground (arith, v.idle, h);
  in_use = ground (arith, v.in_use, h);
  total = ground (arith, v.total, h);
  before_drain = λ no. ground (arith, off, h, no);
}

-- Every step of any task keeps the counters true.
pub Step-IsCounted : {w u : World} → Step w u → IsCounted w → IsCounted u
unfolding hand_out hand_out_new recycle creation_failed acquire_timed_out fail_acquire
    add_connection begin_drain resize
Step-IsCounted {w} (enter p h) v = IsSame-IsCounted w p (enter_acquire-IsSame w.pool p h) v
Step-IsCounted {w} (take_out e p h) v = take_idle-IsCounted w w.pool.idle e p refl h v
Step-IsCounted (discard now valid e before after q h) v =
    let n = length_without before e after q in
    record {
      idle = v.idle;
      in_use = v.in_use;
      total = omega (arith, v.total);
      before_drain = v.before_drain;
    }
Step-IsCounted (lend now valid e before after q h) v =
    let n = length_without before e after q in
    record {
      idle = v.idle;
      in_use = omega (arith, v.in_use);
      total = omega (arith, v.total);
      before_drain = v.before_drain;
    }
Step-IsCounted (begin_creation e h) v = record {
  idle = v.idle;
  in_use = v.in_use;
  total = v.total;
  before_drain = v.before_drain;
}
Step-IsCounted (end_creation e n h) v = record {
  idle = v.idle;
  in_use = omega (arith, v.in_use);
  total = omega (arith, v.total);
  before_drain = v.before_drain;
}
Step-IsCounted (fail_creation n h) v = record {
  idle = v.idle;
  in_use = v.in_use;
  total = v.total;
  before_drain = v.before_drain;
}
Step-IsCounted time_out v = record {
  idle = v.idle;
  in_use = v.in_use;
  total = v.total;
  before_drain = v.before_drain;
}
Step-IsCounted {w} (leave wait) v =
    IsSame-IsCounted w (leave_acquire wait w.pool) (leave_acquire-IsSame wait w.pool) v
Step-IsCounted fail v = record {
  idle = v.idle;
  in_use = v.in_use;
  total = v.total;
  before_drain = v.before_drain;
}
Step-IsCounted {w} (warm_up client now) v =
    let n =
      length-append w.pool.idle
        (record { client = client; metadata = mailio.Pool.new_metadata now } ∷ []) in
    record {
      idle = omega (arith, v.idle);
      in_use = v.in_use;
      total = omega (arith, v.total);
      before_drain = v.before_drain;
    }
Step-IsCounted {w} (give_back now valid e before after q) v =
    let n = length_without before e after q in
    let r = release-counts w.pool now e valid in
    record {
      idle = omega (arith, v.idle, r.1);
      in_use = omega (arith, v.in_use, r.0);
      total = omega (arith, v.total, r.2 (omega (arith, v.total)));
      before_drain = λ h. v.before_drain (sym (r.3) ∙ h);
    }
Step-IsCounted drain v = record {
  idle = v.idle;
  in_use = v.in_use;
  total = v.total;
  before_drain = λ h. absurd (cc);
}
Step-IsCounted {w} (end_drain p off h) v = end_drain-IsCounted w p off h v
Step-IsCounted (resized new_max) v = record {
  idle = v.idle;
  in_use = v.in_use;
  total = v.total;
  before_drain = v.before_drain;
}

Reach-IsCounted : {w u : World} → Reach w u → IsCounted w → IsCounted u
Reach-IsCounted here v = v
Reach-IsCounted (next r st) v = Step-IsCounted st (Reach-IsCounted r v)

-- From a new pool, after any steps of the tasks, the in-use counter is the number of the connections
-- handed out, the idle counter that of the idle connections, and the total counter that of both and
-- of the connections being validated; the last two count on the connections that the ends of drains
-- have cleared, of which there are none before a drain.
pub counters_true :
    (config : PoolConfig) (has_validator : Bool) {w : World}
    → Reach (start config has_validator) w
    → IsCounted w
unfolding start make_pool
counters_true config has_validator r =
    Reach-IsCounted r
      (record { idle = refl; in_use = refl; total = omega arith; before_drain = λ h. refl })

-- When the drain ends in a state whose counters are true, with no connection being validated, no
-- connection is idle or handed out, yet both the total and the idle counter still count the idle
-- connections that there were.
pub drained_total :
    {w : World} {p : Pool}
    → IsCounted w
    → w.checking ≡ []
    → finish_drain w.pool ≡ some p
    → (p.idle ≡ [])
      × (w.leased ≡ [])
      × (p.stats.total_connections ≡ length w.pool.idle + w.dropped)
      × (p.stats.idle_connections ≡ length w.pool.idle + w.dropped)
unfolding finish_drain
drained_total {w} {p} v c h =
    let n = ap length c in
    (
      ground arith,
      nil_of_length w.leased (ground (arith, v.in_use)),
      ground (arith, v.in_use, v.total),
      ground (arith, v.idle),
    )
