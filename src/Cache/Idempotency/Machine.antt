-- ===== src/Cache/Idempotency/Machine.antt =====
-- What the store promises of the deliveries of one key: a machine with one status.
use server_kit.Base.{
  ℕ, ◌+◌, ◌≤◌, ◌<◌, Result, ok, err, leb, if◌then◌else◌, Bool-cases, List, [], ◌∷◌, ◌≡◌, refl, inl,
  inr, arith,
}
use server_kit.Cache.Idempotency.{IdempotencyOutcome, processed, duplicate, dropped}

-- A key is open, after a number of failures, or closed.
pub data Status : Type 0 where
  open_after : ℕ → Status
  closed : Status

module _ {T E : Type 0} (max : ℕ) where
  -- One delivery: the outcome for its caller, and the new status.
  abbrev pub deliver : Status → Result E T → Status × Result E (IdempotencyOutcome T)
  deliver closed outcome = (closed, ok duplicate)
  deliver (open_after n) (ok result) = (closed, ok (processed result))
  deliver (open_after n) (err e) =
      if leb max (n + 1) then (closed, ok (dropped (n + 1))) else (open_after (n + 1), err e)

module _ {T E : Type 0} (max : ℕ) where
  abbrev pub deliver_all :
      Status → List (ℕ × ℕ × Result E T) → List (Result E (IdempotencyOutcome T))
  deliver_all status [] = []
  deliver_all status ((now, later, outcome) ∷ rest) =
      let (next, reported) = deliver max status outcome in reported ∷ deliver_all next rest

module _ {T E : Type 0} where
  abbrev pub processed_count : List (Result E (IdempotencyOutcome T)) → ℕ
  processed_count [] = 0
  processed_count (ok (processed result) ∷ rest) = 1 + processed_count rest
  processed_count (_ ∷ rest) = processed_count rest

  -- How often the work ran.
  abbrev pub run_count : List (Result E (IdempotencyOutcome T)) → ℕ
  run_count [] = 0
  run_count (ok duplicate ∷ rest) = run_count rest
  run_count (_ ∷ rest) = 1 + run_count rest

-- Each delivery begins and ends between the end of the one before and the horizon.
abbrev pub InOrder : {A : Type 0} → ℕ → ℕ → List (ℕ × ℕ × A) → Type 0
InOrder start horizon [] = Unit
InOrder start horizon ((now, later, outcome) ∷ rest) =
    (start ≤ now) × (now ≤ later) × (later < horizon) × InOrder later horizon rest

module _ {T E : Type 0} (max : ℕ) where
  closed_runs :
      (deliveries : List (ℕ × ℕ × Result E T))
      → (run_count (deliver_all max closed deliveries) ≡ 0)
        × (processed_count (deliver_all max closed deliveries) ≡ 0)
  closed_runs [] = (refl, refl)
  closed_runs ((now, later, outcome) ∷ rest) = closed_runs rest

  -- From a status with n failures, work runs at most until the limit is reached.
  pub open_runs :
      (n : ℕ) (deliveries : List (ℕ × ℕ × Result E T))
      → n < max
      → (n + run_count (deliver_all max (open_after n) deliveries) ≤ max)
        × (processed_count (deliver_all max (open_after n) deliveries) ≤ 1)
  open_runs n [] h = (ground arith, ground arith)
  open_runs n ((now, later, ok result) ∷ rest) h =
      let (a, b) = closed_runs rest in (ground arith, ground arith)
  open_runs n ((now, later, err e) ∷ rest) h = elim (Bool-cases (leb max (n + 1))) [
    | inl enough ↦ rw enough (let (a, b) = closed_runs rest in (ground arith, ground arith))
    | inr few ↦ rw few (let (a, b) = open_runs (n + 1) rest (ground arith) in (ground arith, b))
  ]
