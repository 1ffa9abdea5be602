-- ===== src/Cache/Idempotency/Refinement.antt =====
-- The store refines a machine with one status for a key.
use server_kit.Base.{
  ℕ, ◌+◌, ◌≤◌, ◌<◌, Text, codes, text_eq, text_eq_refl, text_eq_sound, is_some, length,
  length-append, Result, ok, err, leb, true, false, Bool-cases, List, [], ◌∷◌, ◌++◌, Option, some,
  none, ◌≡◌, refl, ap, ap₂, inl, inr, arith,
}
use server_kit.Cache.Provider.{CacheProvider}
use server_kit.Cache.Idempotency.{
  Stored, in_flight, completed, dead, attempts, IdempotencyOutcome, IdempotencyOptions,
  in_flight_of, retention_of, max_of, state_key, attempts_key, next_attempt, record_failure, settle,
  deduplicate,
}
use server_kit.Cache.Idempotency.Machine.{
  Status, open_after, closed, deliver, deliver_all, processed_count, run_count, InOrder, open_runs,
}

keys_differ : (key : Text) → text_eq (state_key key) (attempts_key key) ≡ false
unfolding state_key attempts_key
keys_differ key = elim (Bool-cases (text_eq key (key ++ codes ":attempts"))) [
  | inr other ↦ other
  | inl same ↦ absurd (
      omega (
        arith,
        length-append key (codes ":attempts"),
        ap (length {A = ℕ}) (text_eq_sound key (key ++ codes ":attempts") same),
      ))
]

differ_keys : (key : Text) → text_eq (attempts_key key) (state_key key) ≡ false
differ_keys key = elim (Bool-cases (text_eq (attempts_key key) (state_key key))) [
  | inr other ↦ other
  | inl same ↦
      let e = text_eq_sound (attempts_key key) (state_key key) same in
      cc (keys_differ key, text_eq_refl (state_key key), ap (text_eq (state_key key)) e)
]

module _ (cache : CacheProvider Stored) where
  -- From a time on and until the horizon, the cache shows the status of a key.
  abbrev pub Represents : Text → ℕ → ℕ → cache.State → Status → Type 0
  Represents key horizon now s (open_after n) =
      (t : ℕ)
      → now ≤ t
      → t < horizon
      → (cache.get t (state_key key) s ≡ none)
        × (next_attempt (cache.get t (attempts_key key) s) ≡ n + 1)
  Represents key horizon now s closed =
      (t : ℕ) → now ≤ t → t < horizon → is_some (cache.get t (state_key key) s) ≡ true

  -- What happens to the cache leaves a key alone.
  abbrev pub Keeps : (cache.State → cache.State) → Text → Type 0
  Keeps during j = (t : ℕ) (s : cache.State) → cache.get t j (during s) ≡ cache.get t j s

  -- A value that is set lasts until the horizon.
  get_lasting :
      (now t horizon : ℕ) (k : Text) (v : Stored) (ttl : ℕ) (s : cache.State)
      → now ≤ t
      → t < horizon
      → horizon ≤ now + ttl
      → cache.get t k (cache.set now k v ttl s) ≡ some v
  get_lasting now t horizon k v ttl s h₁ h₂ h₃ =
      rw (cache.get_set now t k k v ttl s h₁, text_eq_refl k)
        (ground (arith, cache.ttl_le_life ttl))

  get_set_other :
      (now t : ℕ) (k j : Text) (v : Stored) (ttl : ℕ) (s : cache.State)
      → now ≤ t
      → text_eq k j ≡ false
      → cache.get t j (cache.set now k v ttl s) ≡ cache.get t j s
  get_set_other now t k j v ttl s h ne = rw (cache.get_set now t k j v ttl s h, ne) refl

  get_delete_other :
      (now t : ℕ) (k j : Text) (s : cache.State)
      → now ≤ t
      → text_eq k j ≡ false
      → cache.get t j (cache.delete now k s).0 ≡ cache.get t j s
  get_delete_other now t k j s h ne = rw (cache.get_delete now t k j s h, ne) refl

  get_add_other :
      (now t : ℕ) (k j : Text) (v : Stored) (ttl : Option ℕ) (s : cache.State)
      → now ≤ t
      → text_eq k j ≡ false
      → cache.get t j (cache.add now k v ttl s).0 ≡ cache.get t j s
  get_add_other now t k j v ttl s h ne = rw (cache.get_add now t k j v ttl s h, ne) refl

  get_add_held :
      (now t : ℕ) (k : Text) (v : Stored) (ttl : Option ℕ) (s : cache.State)
      → now ≤ t
      → is_some (cache.get now k s) ≡ true
      → cache.get t k (cache.add now k v ttl s).0 ≡ cache.get t k s
  get_add_held now t k v ttl s h held =
      rw (cache.get_add now t k k v ttl s h, text_eq_refl k, held) refl

  -- What one delivery reports and leaves behind, from the time at which it ends.
  abbrev pub Delivered :
      {T E : Type 0}
      → Text
      → ℕ
      → ℕ
      → Status × Result E (IdempotencyOutcome T)
      → cache.State × Result E (IdempotencyOutcome T)
      → Type 0
  Delivered key horizon later (next, reported) (s, result) =
      (result ≡ reported) × Represents key horizon later s next

  settle-Delivered :
      {T E : Type 0} (key : Text) (horizon later : ℕ) (options : IdempotencyOptions) (n : ℕ)
      (outcome : Result E T) (s : cache.State)
      → later < horizon
      → horizon ≤ later + retention_of options
      → ((t : ℕ)
          → later ≤ t
          → t < horizon
          → next_attempt (cache.get t (attempts_key key) s) ≡ n + 1)
      → Delivered key horizon later
          (deliver (max_of options) (open_after n) outcome)
          (settle cache later key options outcome s)
  unfolding settle record_failure next_attempt
  settle-Delivered key horizon later options n (ok result) s h₁ h₂ failures = (
    refl,
    λ t a b.
        rw
          (
            get_delete_other later t (attempts_key key) (state_key key)
                (cache.set later (state_key key) completed (retention_of options) s) a
                (differ_keys key),
            get_lasting later t horizon (state_key key) completed (retention_of options) s a b h₂,
          )
          refl,
  )
  settle-Delivered key horizon later options n (err e) s h₁ h₂ failures =
      let now : next_attempt (cache.get later (attempts_key key) s) ≡ n + 1 =
        failures later (ground arith) h₁ in
      elim (Bool-cases (leb (max_of options) (n + 1))) [
        | inl enough ↦
            rw (now, enough)
              (
                refl,
                λ t a b.
                    rw
                      (get_lasting later t horizon (state_key key) dead (retention_of options)
                        (cache.set later (attempts_key key) (attempts (n + 1))
                          (retention_of options) s)
                        a b h₂)
                      refl,
              )
        | inr few ↦
            rw (now, few)
              (
                refl,
                λ t a b.
                    let s₁ =
                      cache.set later (attempts_key key) (attempts (n + 1)) (retention_of options)
                        s in
                    (
                      rw
                          (
                            cache.get_delete later t (state_key key) (state_key key) s₁ a,
                            text_eq_refl (state_key key),
                          )
                          refl,
                      rw
                          (
                            get_delete_other later t (state_key key) (attempts_key key) s₁ a
                                (keys_differ key),
                            get_lasting later t horizon (attempts_key key) (attempts (n + 1))
                                (retention_of options) s a b h₂,
                          )
                          refl,
                    ),
              )
      ]

  deduplicate-Delivered :
      {T E : Type 0} (key : Text) (horizon now later : ℕ) (options : IdempotencyOptions)
      (during : cache.State → cache.State) (outcome : Result E T) (status : Status)
      (s : cache.State)
      → now ≤ later
      → later < horizon
      → horizon ≤ later + retention_of options
      → Keeps during (attempts_key key)
      → Represents key horizon now s status
      → Delivered key horizon later
          (deliver (max_of options) status outcome)
          (deduplicate cache now later key options during outcome s)
  unfolding deduplicate
  deduplicate-Delivered key horizon now later options during outcome (open_after n) s h₁ h₂ h₃ keeps
        shown =
      let free : cache.get now (state_key key) s ≡ none =
        (shown now (ground arith) (ground arith)).0 in
      let s₁ = (cache.add now (state_key key) in_flight (some (in_flight_of options)) s).0 in
      rw (cache.add_claimed now (state_key key) in_flight (some (in_flight_of options)) s, free)
        (settle-Delivered key horizon later options n outcome (during s₁) h₂ h₃ (λ t a b.
          rw
            (
              keeps t s₁,
              get_add_other now t (state_key key) (attempts_key key) in_flight
                  (some (in_flight_of options)) s (ground arith) (keys_differ key),
            )
            (shown t (ground arith) b).1))
  deduplicate-Delivered key horizon now later options during outcome closed s h₁ h₂ h₃ keeps shown =
      let held : is_some (cache.get now (state_key key) s) ≡ true =
        shown now (ground arith) (ground arith) in
      rw (cache.add_claimed now (state_key key) in_flight (some (in_flight_of options)) s, held)
        (
          refl,
          λ t a b.
              rw
                (get_add_held now t (state_key key) in_flight (some (in_flight_of options)) s
                  (ground arith) held)
                (shown t (ground arith) b),
        )

  -- Deliveries of one key: when each begins and ends, and how its work ends.
  abbrev pub redeliver :
      {T E : Type 0}
      → Text
      → IdempotencyOptions
      → (cache.State → cache.State)
      → List (ℕ × ℕ × Result E T)
      → cache.State
      → List (Result E (IdempotencyOutcome T))
  redeliver key options during [] s = []
  redeliver key options during ((now, later, outcome) ∷ rest) s =
      let (s₁, reported) = deduplicate cache now later key options during outcome s in
      reported ∷ redeliver key options during rest s₁

  Represents-later :
      (key : Text) (horizon now later : ℕ) (s : cache.State) (status : Status)
      → now ≤ later
      → Represents key horizon now s status
      → Represents key horizon later s status
  Represents-later key horizon now later s (open_after n) h shown =
      λ t a b. shown t (ground arith) b
  Represents-later key horizon now later s closed h shown = λ t a b. shown t (ground arith) b

  pub redeliver-deliver_all :
      {T E : Type 0} (key : Text) (horizon start : ℕ) (options : IdempotencyOptions)
      (during : cache.State → cache.State) (deliveries : List (ℕ × ℕ × Result E T))
      (status : Status) (s : cache.State)
      → horizon ≤ start + retention_of options
      → InOrder start horizon deliveries
      → Keeps during (attempts_key key)
      → Represents key horizon start s status
      → redeliver key options during deliveries s ≡ deliver_all (max_of options) status deliveries
  redeliver-deliver_all key horizon start options during [] status s h order keeps shown = refl
  redeliver-deliver_all key horizon start options during ((now, later, outcome) ∷ rest) status s h
        order keeps shown =
      let (a, b, c, others) = order in
      let (same, next) =
        deduplicate-Delivered key horizon now later options during outcome status s b c
          (ground arith) keeps (Represents-later key horizon start now s status a shown) in
      let s₁ = (deduplicate cache now later key options during outcome s).0 in
      let induction =
        redeliver-deliver_all key horizon later options during rest
          (deliver (max_of options) status outcome).0 s₁ (ground arith) others keeps next in
      ap₂ ◌∷◌ same induction

  -- From a key that the cache does not hold, deliveries in order and within the retention time of
  -- the first run the work at most as often as the attempt limit allows, which is at least one,
  -- and process the event at most once, if nothing else touches the count of failures while work
  -- runs.
  pub redeliver-bounds :
      {T E : Type 0} (key : Text) (horizon start : ℕ) (options : IdempotencyOptions)
      (during : cache.State → cache.State) (deliveries : List (ℕ × ℕ × Result E T))
      (s : cache.State)
      → 0 < max_of options
      → horizon ≤ start + retention_of options
      → InOrder start horizon deliveries
      → Keeps during (attempts_key key)
      → cache.get start (state_key key) s ≡ none
      → cache.get start (attempts_key key) s ≡ none
      → (run_count (redeliver key options during deliveries s) ≤ max_of options)
        × (processed_count (redeliver key options during deliveries s) ≤ 1)
  unfolding next_attempt
  redeliver-bounds key horizon start options during deliveries s positive h order keeps no_state
        no_attempts =
      let shown : Represents key horizon start s (open_after 0) = λ t a b. (
        cache.get_expired start t (state_key key) s a no_state,
        rw (cache.get_expired start t (attempts_key key) s a no_attempts) refl,
      ) in
      rw
        (redeliver-deliver_all key horizon start options during deliveries (open_after 0) s h order
          keeps shown)
        (let (a, b) = open_runs (max_of options) 0 deliveries positive in (ground arith, b))
