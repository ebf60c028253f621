-- ===== src/Pool/Limits.antt =====
-- pool/connection_pool.hpp: the limit on connections.
use mailio.Base.{suc, ◌+◌, ◌≡◌, refl, true, [], ◌∷◌, arith}
use mailio.Pool.{Pool, Entry, can_create, hand_out_new}
use mailio.Pool.World.{World, begin_creation, end_creation, Reach, here, next}

-- Without idle connections and with room for one more, two tasks may both find the room and both
-- create a connection: the total then passes the limit by one.
pub two_creations_exceed :
    (w : World) (e f : Entry)
    → w.pool.idle ≡ []
    → w.pool.stats.total_connections + 1 ≡ w.pool.config.max_connections
    → (u : World) × Reach w u
      × (u.pool.stats.total_connections ≡ w.pool.config.max_connections + 1)
      × (u.creating ≡ w.creating)
two_creations_exceed w e f i h = (
  record w { pool = hand_out_new (hand_out_new w.pool); leased = f ∷ e ∷ w.leased },
  next
      (next (next (next here (begin_creation i (room w.pool h))) (begin_creation i (room w.pool h)))
        (end_creation e (suc w.creating) refl))
      (end_creation f w.creating refl),
  total w.pool h,
  refl,
)
  where
    room :
        (p : Pool) → p.stats.total_connections + 1 ≡ p.config.max_connections → can_create p ≡ true
    room p h = unfold can_create in ground arith

    total :
        (p : Pool)
        → p.stats.total_connections + 1 ≡ p.config.max_connections
        → (hand_out_new (hand_out_new p)).stats.total_connections ≡ p.config.max_connections + 1
    total p h = unfold hand_out_new in omega arith
