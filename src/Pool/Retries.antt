-- ===== src/Pool/Retries.antt =====
-- pool/connection_pool.hpp: the attempts of `create_connection`.
use mailio.Base.{
  ℕ, zero, suc, ◌+◌, ◌≤◌, ◌<◌, ◌≡◌, inl, inr, sym, ◌∙◌, subst, ==_iff, Bool-cases, Option, none,
  some, arith, Option-cases, ◌==◌,
}
use mailio.Pool.{Pool, created, failed, create_loop, create_connection}

-- The first attempt that gives a connection, and those before it that give none.
pub record IsFirst (factory : ℕ → Option ℕ) (from count client : ℕ) : Type 0 where
  pub at : ℕ
  pub at_ge : from ≤ at
  pub at_lt : at < from + count
  pub answer : factory at ≡ some client
  pub before : (i : ℕ) → from ≤ i → i < at → factory i ≡ none

create_loop-created :
    (factory : ℕ → Option ℕ) (count from client : ℕ)
    → create_loop factory from count ≡ created client
    → IsFirst factory from count client
unfolding create_loop
create_loop-created factory zero from client h = absurd (cc)
create_loop-created factory (suc count) from client h = elim (Option-cases (factory from)) [
  | inl e ↦
      let later = create_loop-created factory count (from + 1) client (rw (e, create_loop) at h) in
      record {
        at = later.at;
        at_ge = omega (arith, later.at_ge);
        at_lt = omega (arith, later.at_lt);
        answer = later.answer;
        before = λ i lo hi. elim (Bool-cases (i == from)) [
          | inl same ↦ subst (λ k. factory k ≡ none) (sym ((==_iff i from).0 same)) e
          | inr other ↦ later.before i (ground arith) hi
        ];
      }
  | inr (c, e) ↦ record {
    at = from;
    at_ge = omega arith;
    at_lt = omega arith;
    answer = e ∙ cc (rw (e, create_loop) at h);
    before = λ i lo hi. absurd (omega arith);
  }
]

create_loop-failed :
    (factory : ℕ → Option ℕ) (count from : ℕ)
    → create_loop factory from count ≡ failed
    → (i : ℕ) → from ≤ i
    → i < from + count
    → factory i ≡ none
unfolding create_loop
create_loop-failed factory zero from h i lo hi = absurd (omega arith)
create_loop-failed factory (suc count) from h i lo hi = elim (Option-cases (factory from)) [
  | inl e ↦ elim (Bool-cases (i == from)) [
    | inl same ↦ subst (λ k. factory k ≡ none) (sym ((==_iff i from).0 same)) e
    | inr other ↦
        create_loop-failed factory count (from + 1) (rw (e, create_loop) at h) i (ground arith)
          (omega arith)
  ]
  | inr (c, e) ↦ absurd (cc (rw (e, create_loop) at h))
]

-- A connection that `create_connection` returns is the factory's first answer, and came within the
-- attempts allowed.
pub create_connection-created :
    (p : Pool) (factory : ℕ → Option ℕ) (client : ℕ)
    → create_connection p factory ≡ created client
    → IsFirst factory 0 p.config.creation_retry_count client
unfolding create_connection
create_connection-created p factory client h =
    create_loop-created factory p.config.creation_retry_count 0 client (ground arith)

-- `create_connection` fails only after every attempt allowed, and at least one, gave nothing.
pub create_connection-failed :
    (p : Pool) (factory : ℕ → Option ℕ)
    → create_connection p factory ≡ failed
    → (0 < p.config.creation_retry_count)
      × ((i : ℕ) → i < p.config.creation_retry_count → factory i ≡ none)
unfolding create_connection
create_connection-failed p factory h = (
  ground arith,
  λ i lt.
      create_loop-failed factory p.config.creation_retry_count 0 (ground arith) i (omega arith)
        (omega arith),
)
