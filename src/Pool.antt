-- ===== src/Pool.antt =====
-- include/mailxx/pool/connection_pool.hpp and pool_config.hpp. A connection is a number; times are
-- nanoseconds of the steady clock, passed to each call. The code between two suspension points
-- runs as one step, as on an executor of one thread; what the factory and the validator answer is
-- an argument. Log lines are left out.
pub mod World
pub mod Counters
pub mod Retries
pub mod Limits
pub mod Acquire
mod Tests
use mailio.Base.{
  ℕ, zero, suc, ◌+◌, ◌-◌, ◌*◌, ◌/◌, ◌^◌, Bool, true, false, not, ◌&&◌, ◌||◌, Option, none, some,
  List, [], ◌∷◌, ◌++◌, ltb, leb, ◌==◌, if◌then◌else◌,
}
use mailio.Base.Bytes.{length}
use mailio.Base.Result.{Result, ok, err}

pub record PoolConfig : Type 0 where
  pub min_connections : ℕ
  pub max_connections : ℕ
  -- In seconds; 0 is never.
  pub max_lifetime : ℕ
  -- In nanoseconds.
  pub acquire_timeout : ℕ
  pub validate_on_acquire : Bool
  pub max_pending_requests : ℕ
  pub creation_retry_count : ℕ

pub record PoolStats : Type 0 where
  pub total_connections : ℕ
  pub idle_connections : ℕ
  pub in_use_connections : ℕ
  pub pending_requests : ℕ
  pub connections_created : ℕ
  pub connections_closed : ℕ
  pub connections_recycled : ℕ
  pub connections_failed : ℕ
  pub acquisitions_total : ℕ
  pub acquisitions_immediate : ℕ
  pub acquisitions_waited : ℕ
  pub acquisitions_timeout : ℕ
  -- In microseconds.
  pub avg_wait_time : ℕ

pub record ConnectionMetadata : Type 0 where
  pub created_at : ℕ
  pub last_used_at : ℕ
  pub times_used : ℕ

pub new_metadata : ℕ → ConnectionMetadata
new_metadata now = record { created_at = now; last_used_at = now; times_used = 0 }

pub mark_used : ℕ → ConnectionMetadata → ConnectionMetadata
mark_used now m = record m { last_used_at = now; times_used = m.times_used + 1 }

-- In whole seconds.
pub age : ℕ → ConnectionMetadata → ℕ
age now m = (now - m.created_at) / 10 ^ 9

pub record Entry : Type 0 where
  pub client : ℕ
  pub metadata : ConnectionMetadata

pub record Pool : Type 0 where
  pub config : PoolConfig
  pub has_validator : Bool
  pub idle : List Entry
  pub stats : PoolStats
  pub shutdown : Bool

pub data PoolError : Type 0 where
  shutting_down exhausted timeout : PoolError

abbrev no_stats : PoolStats
no_stats = record {
  total_connections = 0;
  idle_connections = 0;
  in_use_connections = 0;
  pending_requests = 0;
  connections_created = 0;
  connections_closed = 0;
  connections_recycled = 0;
  connections_failed = 0;
  acquisitions_total = 0;
  acquisitions_immediate = 0;
  acquisitions_waited = 0;
  acquisitions_timeout = 0;
  avg_wait_time = 0;
}

pub make_pool : PoolConfig → Bool → Pool
make_pool config has_validator = record {
  config = config;
  has_validator = has_validator;
  idle = [];
  stats = no_stats;
  shutdown = false;
}

-- The start of `acquire`: the shutdown check, the counters and the limit on pending requests.
pub enter_acquire : Pool → Result PoolError Pool
enter_acquire p =
    let s = p.stats in
    let pending = s.pending_requests + 1 in
    if p.shutdown
    then err shutting_down
    else if ltb 0 p.config.max_pending_requests && ltb p.config.max_pending_requests pending
    then err exhausted
    else ok (record p {
      stats = record s {
        acquisitions_total = s.acquisitions_total + 1;
        pending_requests = pending;
      };
    })

-- The counters when `acquire_impl` returns after a wait, in nanoseconds.
pub leave_acquire : ℕ → Pool → Pool
leave_acquire wait p =
    let s = p.stats in
    let waited = s.acquisitions_waited + 1 in
    let average = (s.avg_wait_time * (waited - 1) + wait / 10 ^ 3) / waited in
    if ltb (10 ^ 6) wait
    then record p {
      stats = record s {
        pending_requests = s.pending_requests - 1;
        acquisitions_waited = waited;
        avg_wait_time = average;
      };
    }
    else record p {
      stats = record s {
        pending_requests = s.pending_requests - 1;
        acquisitions_immediate = s.acquisitions_immediate + 1;
      };
    }

-- The handler that counts the request off when `acquire_impl` throws.
pub fail_acquire : Pool → Pool
fail_acquire p = record p {
  stats = record (p.stats) { pending_requests = p.stats.pending_requests - 1 };
}

-- `acquire_impl`: the oldest idle connection is taken out.
pub take_idle : List Entry → Pool → Option (Entry × Pool)
take_idle [] p = none
take_idle (e ∷ rest) p = some (
  e,
  record p {
    idle = rest;
    stats = record (p.stats) { idle_connections = p.stats.idle_connections - 1 };
  },
)

pub is_expired : Pool → ℕ → ConnectionMetadata → Bool
is_expired p now m = ltb 0 p.config.max_lifetime && leb p.config.max_lifetime (age now m)

-- Whether the connection taken out is discarded; `valid` is what the validator answers, false when
-- it throws, and is not asked unless the other conditions hold.
pub should_recycle : Pool → ℕ → Entry → Bool → Bool
should_recycle p now e valid =
    if is_expired p now e.metadata
    then true
    else if p.config.validate_on_acquire && p.has_validator
    then not valid
    else false

pub recycle : Pool → Pool
recycle p = record p {
  stats = record (p.stats) {
    total_connections = p.stats.total_connections - 1;
    connections_recycled = p.stats.connections_recycled + 1;
  };
}

pub hand_out : Pool → Pool
hand_out p = record p {
  stats = record (p.stats) { in_use_connections = p.stats.in_use_connections + 1 };
}

pub can_create : Pool → Bool
can_create p = ltb p.stats.total_connections p.config.max_connections

-- After `create_connection` returned.
pub hand_out_new : Pool → Pool
hand_out_new p = record p {
  stats = record (p.stats) {
    total_connections = p.stats.total_connections + 1;
    connections_created = p.stats.connections_created + 1;
    in_use_connections = p.stats.in_use_connections + 1;
  };
}

-- After `create_connection` threw.
pub creation_failed : Pool → Pool
creation_failed p = record p {
  stats = record (p.stats) { connections_failed = p.stats.connections_failed + 1 };
}

-- The test that ends the polling loop before the deadline.
pub got_signal : Pool → Bool
got_signal p = ltb 0 (length p.idle) || can_create p

pub acquire_timed_out : Pool → Pool
acquire_timed_out p = record p {
  stats = record (p.stats) { acquisitions_timeout = p.stats.acquisitions_timeout + 1 };
}

pub data Attempt : Type 0 where
  created : ℕ → Attempt
  failed : Attempt
  -- `std::rethrow_exception` of a null pointer.
  undefined : Attempt

-- The loop of `create_connection`, over the attempts left; the factory is asked at each attempt.
pub create_loop : (ℕ → Option ℕ) → ℕ → ℕ → Attempt
create_loop factory attempts zero = failed
create_loop factory attempts (suc left) = elim (factory attempts) [
  | some client ↦ created client
  | none ↦ create_loop factory (attempts + 1) left
]

pub create_connection : Pool → (ℕ → Option ℕ) → Attempt
create_connection p factory =
    if p.config.creation_retry_count == 0
    then undefined
    else create_loop factory 0 p.config.creation_retry_count

-- `create_and_add_connection`, which `warmup` calls, when a connection was created.
pub add_connection : ℕ → ℕ → Pool → Pool
add_connection client now p = record p {
  idle = p.idle ++ record { client = client; metadata = new_metadata now } ∷ [];
  stats = record (p.stats) {
    total_connections = p.stats.total_connections + 1;
    idle_connections = p.stats.idle_connections + 1;
    connections_created = p.stats.connections_created + 1;
  };
}

pub close_connection : Pool → Pool
close_connection p = record p {
  stats = record (p.stats) {
    total_connections = p.stats.total_connections - 1;
    connections_closed = p.stats.connections_closed + 1;
  };
}

pub keep_connection : Entry → Pool → Pool
keep_connection e p = record p {
  idle = p.idle ++ e ∷ [];
  stats = record (p.stats) { idle_connections = p.stats.idle_connections + 1 };
}

pub return_connection : ℕ → Entry → Bool → Pool → Pool
return_connection now e valid p =
    let q = record p {
      stats = record (p.stats) { in_use_connections = p.stats.in_use_connections - 1 };
    } in
    if q.shutdown
    then close_connection q
    else if not valid
    then close_connection q
    else if is_expired q now e.metadata
    then recycle q
    else if ltb q.config.max_connections (length q.idle + 1)
    then close_connection q
    else keep_connection e q

-- `release` of a pooled connection that still has its client.
pub release : ℕ → Entry → Bool → Pool → Pool
release now e valid p =
    return_connection now (record e { metadata = mark_used now e.metadata }) valid p

-- `drain`: the flag; then, once no connection is in use, the idle connections go.
pub begin_drain : Pool → Pool
begin_drain p = record p { shutdown = true }

pub finish_drain : Pool → Option Pool
finish_drain p = if p.stats.in_use_connections == 0 then some (record p { idle = [] }) else none

pub resize : ℕ → Pool → Pool
resize new_max p = record p { config = record (p.config) { max_connections = new_max } }
