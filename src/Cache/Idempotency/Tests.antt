-- ===== src/Cache/Idempotency/Tests.antt =====
-- Runs of the idempotency store over the cache in memory.
use server_kit.Base.{
  ℕ, ◌≤◌, Text, codes, Result, ok, err, List, [], ◌∷◌, some, none, ◌≡◌, refl, arith,
}
use server_kit.Cache.Memory.{memory_cache}
use server_kit.Cache.Idempotency.{
  Stored, processed, duplicate, dropped, IdempotencyOptions, max_of, state_key, attempts_key,
  next_attempt, record_failure, settle, deduplicate,
}
use server_kit.Cache.Idempotency.Machine.{run_count, processed_count}
use server_kit.Cache.Idempotency.Refinement.{redeliver, redeliver-bounds}

-- Two failures, a success and a redelivery.
abbrev deliveries : List (ℕ × ℕ × Result ℕ ℕ)
deliveries =
    (1000, 1010, err 7) ∷ (2000, 2010, err 7) ∷ (3000, 3500, ok 42) ∷ (9000, 9001, ok 43) ∷ []

abbrev failing : List (ℕ × ℕ × Result ℕ ℕ)
failing = (1000, 1010, err 7) ∷ (2000, 2010, err 7) ∷ (3000, 3500, ok 42) ∷ []

abbrev options : IdempotencyOptions
options = record { in_flight_ttl = none; retention_ttl = some 60000; max_attempts = some 3 }

abbrev strict : IdempotencyOptions
strict = record { in_flight_ttl = none; retention_ttl = some 60000; max_attempts = some 2 }

abbrev event : Text
event = codes "slack:1"

recovers :
    redeliver (memory_cache Stored) event options (λ s. s) deliveries []
    ≡ err 7 ∷ err 7 ∷ ok (processed 42) ∷ ok duplicate ∷ []
unfolding state_key attempts_key next_attempt record_failure settle deduplicate
recovers = refl

dead_letter :
    redeliver (memory_cache Stored) event strict (λ s. s) failing []
    ≡ err 7 ∷ ok (dropped 2) ∷ ok duplicate ∷ []
unfolding state_key attempts_key next_attempt record_failure settle deduplicate
dead_letter = refl

-- One key with the suffix of the counter is the counter of another.
shared_key : state_key (codes "a:attempts") ≡ attempts_key (codes "a")
unfolding state_key attempts_key
shared_key = refl

redeliver-bounds_example :
    (run_count (redeliver (memory_cache Stored) event strict (λ s. s) failing []) ≤ max_of strict)
    × (processed_count (redeliver (memory_cache Stored) event strict (λ s. s) failing []) ≤ 1)
redeliver-bounds_example =
    redeliver-bounds (memory_cache Stored) event 60000 1000 strict (λ s. s) failing [] (omega arith)
      (omega arith)
      (
        omega arith,
        omega arith,
        omega arith,
        (omega arith, omega arith, omega arith, (omega arith, omega arith, omega arith, tt)),
      )
      (λ t s. refl) refl refl
