-- ===== src/Cache/Idempotency.antt =====
-- packages/cache/src/idempotency.store.ts. Times are in milliseconds.
pub mod Machine
pub mod Refinement
mod Tests
use server_kit.Base.{
  ℕ, suc, ◌+◌, Text, codes, Result, ok, err, leb, Bool, true, false, if◌then◌else◌, List, [], ◌∷◌,
  ◌++◌, Option, some, none,
}
use server_kit.Cache.Provider.{CacheProvider}

-- The texts that the store writes, `String(n)` among them.
pub data Stored : Type 0 where
  in_flight completed dead : Stored
  attempts : ℕ → Stored

pub data IdempotencyOutcome (T : Type 0) : Type 0 where
  processed : T → IdempotencyOutcome T
  duplicate : IdempotencyOutcome T
  dropped : ℕ → IdempotencyOutcome T

pub record IdempotencyOptions : Type 0 where
  pub in_flight_ttl : Option ℕ
  pub retention_ttl : Option ℕ
  pub max_attempts : Option ℕ

abbrev or_else : Option ℕ → ℕ → ℕ
or_else none n = n
or_else (some m) n = m

abbrev pub in_flight_of : IdempotencyOptions → ℕ
in_flight_of options = or_else (options.in_flight_ttl) 300000

abbrev pub retention_of : IdempotencyOptions → ℕ
retention_of options = or_else (options.retention_ttl) 86400000

abbrev pub max_of : IdempotencyOptions → ℕ
max_of options = or_else (options.max_attempts) 5

pub state_key : Text → Text
state_key key = codes "idempotency:" ++ key

pub attempts_key : Text → Text
attempts_key key = codes "idempotency:" ++ (key ++ codes ":attempts")

-- `Number(text ?? '0')`, plus one, or one if that is no number.
pub next_attempt : Option Stored → ℕ
next_attempt none = 1
next_attempt (some (attempts n)) = n + 1
next_attempt (some other) = 1

module _ (cache : CacheProvider Stored) where
  record_failure : ℕ → Text → ℕ → cache.State → cache.State × ℕ
  record_failure now key ttl s =
      let next = next_attempt (cache.get now (attempts_key key) s) in
      (cache.set now (attempts_key key) (attempts next) ttl s, next)

module _ (cache : CacheProvider Stored) {T E : Type 0} where
  -- What follows a claim, at the time at which the work ends.
  settle :
      ℕ
      → Text
      → IdempotencyOptions
      → Result E T
      → cache.State
      → cache.State × Result E (IdempotencyOutcome T)
  settle later key options (ok result) s =
      let s₁ = cache.set later (state_key key) completed (retention_of options) s in
      ((cache.delete later (attempts_key key) s₁).0, ok (processed result))
  settle later key options (err e) s =
      let (s₁, n) = record_failure cache later key (retention_of options) s in
      if leb (max_of options) n
      then (cache.set later (state_key key) dead (retention_of options) s₁, ok (dropped n))
      else ((cache.delete later (state_key key) s₁).0, err e)

  -- The work runs from `now` to `later` and gives the outcome; `during` is what happens to the cache
  -- meanwhile.
  pub deduplicate :
      ℕ
      → ℕ
      → Text
      → IdempotencyOptions
      → (cache.State → cache.State)
      → Result E T
      → cache.State
      → cache.State × Result E (IdempotencyOutcome T)
  deduplicate now later key options during outcome s =
      let (s₁, claimed) = cache.add now (state_key key) in_flight (some (in_flight_of options)) s in
      if claimed then settle later key options outcome (during s₁) else (s₁, ok duplicate)
