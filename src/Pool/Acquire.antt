-- ===== src/Pool/Acquire.antt =====
-- pool/connection_pool.hpp: `acquire_impl`. What the other tasks do to the pool while a task sleeps
-- between two tests of the polling loop is a function; what they do while a connection is validated
-- or created is left out here (`Pool.World` has it).
use mailio.Base.{
  ℕ, zero, suc, ◌+◌, ◌-◌, ◌<◌, ◌≡◌, refl, ap, ◌∙◌, Bool, true, false, Option, none, some, List, [],
  ◌∷◌, arith, ltb, ◌*◌, ◌/◌, ◌^◌, ◌≤◌, if◌then◌else◌, inl, inr, ◌⊎◌, Bool-cases,
}
use mailio.Base.Bytes.{length}
use mailio.Pool.{
  Pool, Entry, Attempt, created, failed, undefined, new_metadata, take_idle, should_recycle,
  recycle, hand_out, hand_out_new, can_create, creation_failed, got_signal, acquire_timed_out,
}

pub data Round : Type 0 where
  -- A connection is handed out.
  got : Entry → Pool → Round
  -- `continue`, or the end of the loop's body.
  again : Pool → Round
  -- `pool_timeout_error`
  times_out : Pool → Round
  -- The polling loop has made the tests that it is given.
  sleeps : Pool → Round
  crashes : Round

-- A wait: the time at each test of the loop, the first of which follows upon the deadline being
-- set, and what the other tasks make of the pool during each sleep.
pub record Wait : Type 0 where
  pub clock : ℕ → ℕ
  pub others : ℕ → Pool → Pool

-- The polling loop, from a test on.
pub poll_loop : Wait → ℕ → ℕ → ℕ → Pool → Round
poll_loop wait deadline zero i p = sleeps p
poll_loop wait deadline (suc fuel) i p =
    let later = poll_loop wait deadline fuel (suc i) (wait.others i p) in
    if ltb (wait.clock i) deadline
    then if got_signal p then again p else later
    else times_out (acquire_timed_out p)

-- It sleeps for ten milliseconds between two tests.
abbrev pub pause : ℕ
pause = 10 ^ 7

pub poll : Wait → Pool → Round
poll wait p =
    poll_loop wait (wait.clock 0 + p.config.acquire_timeout) (p.config.acquire_timeout / pause + 2)
      0 p

pub create_round : ℕ → Attempt → Wait → Pool → Round
create_round now (created client) wait p =
    got (record { client = client; metadata = new_metadata now }) (hand_out_new p)
create_round now failed wait p = poll wait (creation_failed p)
create_round now undefined wait p = crashes

-- On what was taken out of the idle connections.
pub round_with : ℕ → Bool → Attempt → Wait → Pool → Option (Entry × Pool) → Round
round_with now valid creation wait p (some (e, q)) =
    if should_recycle q now e valid then again (recycle q) else got e (hand_out q)
round_with now valid creation wait p none =
    if can_create p then create_round now creation wait p else poll wait p

-- One round of the loop, at a time, with the answers of the validator and of `create_connection`.
pub acquire_round : ℕ → Bool → Attempt → Wait → Pool → Round
acquire_round now valid creation wait p = round_with now valid creation wait p (take_idle p.idle p)

pub after : (Pool → Round) → Round → Round
after continue (got e q) = got e q
after continue (again q) = continue q
after continue (times_out q) = times_out q
after continue (sleeps q) = sleeps q
after continue crashes = crashes

-- The loop, for a number of rounds; what each round meets is a function of the rounds left.
pub acquire_rounds : (ℕ → ℕ) → (ℕ → Bool) → (ℕ → Attempt) → (ℕ → Wait) → ℕ → Pool → Round
acquire_rounds now valid creation waits zero p = again p
acquire_rounds now valid creation waits (suc n) p =
    after (acquire_rounds now valid creation waits n)
      (acquire_round (now n) (valid n) (creation n) (waits n) p)

abbrev pub failures : ℕ → Pool → Pool
failures n p = record p {
  stats = record (p.stats) { connections_failed = p.stats.connections_failed + n };
}

-- A signal that is there at the first test ends the wait.
poll-signalled :
    (wait : Wait) (p : Pool)
    → got_signal p ≡ true
    → 0 < p.config.acquire_timeout
    → poll wait p ≡ again p
unfolding poll
poll-signalled wait p h k =
    let timeout = p.config.acquire_timeout in
    let more : timeout / pause + 2 ≡ suc (timeout / pause + 1) = omega arith in
    rw more (first wait (wait.clock 0 + timeout) (timeout / pause + 1) p h (ground (arith, k)))
  where
    first :
        (wait : Wait) (deadline fuel : ℕ) (p : Pool)
        → got_signal p ≡ true
        → ltb (wait.clock 0) deadline ≡ true
        → poll_loop wait deadline (suc fuel) 0 p ≡ again p
    first wait deadline fuel p h k = unfold poll_loop in rw (k, h)

failed_round :
    (now : ℕ) (valid : Bool) (wait : Wait) (p : Pool)
    → p.idle ≡ []
    → can_create p ≡ true
    → 0 < p.config.acquire_timeout
    → acquire_round now valid failed wait p ≡ again (creation_failed p)
unfolding acquire_round round_with create_round take_idle
failed_round now valid wait p i c t =
    let room = signal_of_room (creation_failed p) (kept p c) in
    ap (λ (xs : List Entry). round_with now valid failed wait p (take_idle xs p)) i
    ∙ rw c (poll-signalled wait (creation_failed p) room (timeout p t))
  where
    signal_of_room : (p : Pool) → can_create p ≡ true → got_signal p ≡ true
    signal_of_room p h = unfold got_signal in ground (arith, h)

    kept : (p : Pool) → can_create p ≡ true → can_create (creation_failed p) ≡ true
    kept p h = unfold can_create creation_failed in h

    timeout :
        (p : Pool) → 0 < p.config.acquire_timeout → 0 < (creation_failed p).config.acquire_timeout
    timeout p h = unfold creation_failed in h

-- While the pool has room and no idle connection, and creating one fails each time, `acquire`
-- neither returns nor times out, however many rounds it makes, whatever positive timeout is set, and
-- whatever other tasks would do while it sleeps.
pub acquire_never_times_out :
    (now : ℕ → ℕ) (valid : ℕ → Bool) (waits : ℕ → Wait) (n : ℕ) (p : Pool)
    → p.idle ≡ []
    → can_create p ≡ true
    → 0 < p.config.acquire_timeout
    → acquire_rounds now valid (λ _. failed) waits n p ≡ again (failures n p)
unfolding acquire_rounds after creation_failed can_create
acquire_never_times_out now valid waits zero p i c t =
    let e : p.stats.connections_failed ≡ p.stats.connections_failed + 0 = omega arith in
    λ k. again (record p { stats = record (p.stats) { connections_failed = e k } })
acquire_never_times_out now valid waits (suc n) p i c t =
    let e : p.stats.connections_failed + 1 + n ≡ p.stats.connections_failed + suc n = omega arith in
    rw (failed_round (now n) (valid n) (waits n) p i c t, acquire_rounds)
      (acquire_never_times_out now valid waits n (creation_failed p) i c t
        ∙ (λ k. again (record p { stats = record (p.stats) { connections_failed = e k } })))

-- How a round ends, where creating a connection succeeds and there are `k` idle connections.
data Ends (k : ℕ) : Round → Type 0 where
  gives : (e : Entry) (q : Pool) → Ends k (got e q)
  shrinks : (q : Pool) → length q.idle < k → Ends k (again q)
  stops : (q : Pool) → can_create q ≡ false → Ends k (times_out q)

-- A clock on which each sleep takes at least its ten milliseconds.
abbrev pub IsPaced : Wait → Type 0
IsPaced wait = (i : ℕ) → wait.clock 0 + i * pause ≤ wait.clock i

-- Other tasks that make no room in the pool and give no connection back while a task sleeps.
abbrev pub IsQuiet : Wait → Type 0
IsQuiet wait = (i : ℕ) (p : Pool) → got_signal p ≡ false → got_signal (wait.others i p) ≡ false

no_signal : (p : Pool) → p.idle ≡ [] → can_create p ≡ false → got_signal p ≡ false
unfolding got_signal
no_signal p i c = ground arith

no_room : (p : Pool) → got_signal p ≡ false → can_create (acquire_timed_out p) ≡ false
unfolding got_signal can_create acquire_timed_out
no_room p h = ground (arith, h)

-- A wait without a signal times out, with tests enough to pass the deadline.
poll_loop-Ends :
    (k : ℕ) (wait : Wait) (deadline fuel i : ℕ) (p : Pool)
    → IsPaced wait
    → IsQuiet wait
    → deadline ≤ wait.clock 0 + (i + fuel) * pause
    → got_signal p ≡ false
    → Ends k (poll_loop wait deadline (suc fuel) i p)
unfolding poll_loop
poll_loop-Ends k wait deadline zero i p paced quiet h s =
    let late : ltb (wait.clock i) deadline ≡ false = ground (arith, paced i, h) in
    rw late (stops (acquire_timed_out p) (no_room p s))
poll_loop-Ends k wait deadline (suc fuel) i p paced quiet h s =
    elim (Bool-cases (ltb (wait.clock i) deadline)) [
      | inl early ↦
          rw (early, s)
            (poll_loop-Ends k wait deadline fuel (suc i) (wait.others i p) paced quiet
              (omega (arith, h)) (quiet i p s))
      | inr late ↦ rw late (stops (acquire_timed_out p) (no_room p s))
    ]

poll-Ends :
    (k : ℕ) (wait : Wait) (p : Pool)
    → IsPaced wait
    → IsQuiet wait
    → p.idle ≡ []
    → can_create p ≡ false
    → Ends k (poll wait p)
unfolding poll
poll-Ends k wait p paced quiet i c =
    let timeout = p.config.acquire_timeout in
    let more : timeout / pause + 2 ≡ suc (timeout / pause + 1) = omega arith in
    rw more (
      poll_loop-Ends k wait (wait.clock 0 + timeout) (timeout / pause + 1) 0 p paced quiet
        (omega arith) (no_signal p i c))

round_with-Ends :
    (now : ℕ) (valid : Bool) (c : ℕ) (wait : Wait) (p : Pool) (xs : List Entry)
    → IsPaced wait
    → IsQuiet wait
    → p.idle ≡ xs
    → Ends (length xs) (round_with now valid (created c) wait p (take_idle xs p))
unfolding round_with take_idle create_round recycle
round_with-Ends now valid c wait p [] paced quiet i = elim (Bool-cases (can_create p)) [
  | inl e ↦ rw e (gives _ _)
  | inr e ↦ rw e (poll-Ends 0 wait p paced quiet i e)
]
round_with-Ends now valid c wait p (x ∷ xs) paced quiet i =
    let q : Pool = record p {
      idle = xs;
      stats = record (p.stats) { idle_connections = p.stats.idle_connections - 1 };
    } in
    elim (Bool-cases (should_recycle q now x valid)) [
      | inl e ↦ rw e (shrinks (recycle q) (omega arith))
      | inr e ↦ rw e (gives x (hand_out q))
    ]

abbrev pub Finishes : Round → Type 0
Finishes r =
    ((e : Entry) × (q : Pool) × (r ≡ got e q))
    ⊎ ((q : Pool) × (r ≡ times_out q) × (can_create q ≡ false))

after-Finishes :
    (k : ℕ) (continue : Pool → Round)
    → ((q : Pool) → length q.idle < k → Finishes (continue q))
    → {r : Round} → Ends k r
    → Finishes (after continue r)
unfolding after
after-Finishes k continue h (gives e q) = inl (e, q, refl)
after-Finishes k continue h (shrinks q lt) = h q lt
after-Finishes k continue h (stops q c) = inr (q, refl, c)

-- Where creating a connection succeeds, and while the task sleeps the others make no room and give
-- no connection back, more rounds than there are idle connections end the loop: a connection is
-- handed out, or the wait times out and the pool has no room; the polling loop itself ends, on a
-- clock that each sleep moves on by ten milliseconds at least. Other tasks are at work in no other
-- place.
pub acquire_ends :
    (now : ℕ → ℕ) (valid : ℕ → Bool) (client : ℕ → ℕ) (waits : ℕ → Wait) (n : ℕ) (p : Pool)
    → ((i : ℕ) → IsPaced (waits i))
    → ((i : ℕ) → IsQuiet (waits i))
    → length p.idle < n
    → Finishes (acquire_rounds now valid (λ i. created (client i)) waits n p)
unfolding acquire_rounds acquire_round
acquire_ends now valid client waits zero p paced quiet h = absurd (omega (arith, h))
acquire_ends now valid client waits (suc n) p paced quiet h =
    after-Finishes (length p.idle) (acquire_rounds now valid (λ i. created (client i)) waits n)
      (λ q lt. acquire_ends now valid client waits n q paced quiet (omega (arith, lt, h)))
      (round_with-Ends (now n) (valid n) (client n) (waits n) p p.idle (paced n) (quiet n) refl)
