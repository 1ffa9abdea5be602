-- ===== src/Serverfeed/Feed/Snapshot.antt =====
-- The snapshot against the history of the published events.
use server_kit.Base.{
  ℕ, ◌+◌, ◌≤◌, ◌<◌, sym, ◌⊎◌, Text, text_eq, text_eq_iff, length, length-append, lookup, erase,
  lookup-erase, ltb, Bool, true, false, if◌then◌else◌, Bool-cases, Option-cases, List, [], ◌∷◌,
  ◌++◌, Option, some, none, ◌≡◌, refl, ◌∙◌, inl, inr, arith,
}
use server_kit.Serverfeed.Event.{Event, Kind, progress, status, log, failure, heartbeat}
use server_kit.Serverfeed.Feed.{
  ServerFeed, construct, shift, buffer, is_state, snapshot_key, seed_snapshot, update_snapshot,
  number, publish, on_event, unsubscribe, Action, published, subscribed, unsubscribed, run,
}

-- The operation that an event reports on: with a correlation id, an event of the kinds progress,
-- status and error does; logs and heartbeats report on none.
abbrev pub operation : Kind → Text → Option Text → Option Text
operation progress source (some c) = some (source ++ b':' ∷ c)
operation status source (some c) = some (source ++ b':' ∷ c)
operation failure source (some c) = some (source ++ b':' ∷ c)
operation kind source c = none

module _ {Payload : Type 0} where
  abbrev pub operation_of : Event Payload → Option Text
  operation_of e = operation e.kind e.source e.correlation_id

  snapshot_key-operation : (e : Event Payload) → snapshot_key e ≡ operation_of e
  unfolding snapshot_key is_state
  snapshot_key-operation e = go e.kind e.correlation_id
    where
      go :
          (kind : Kind) (c : Option Text)
          → elim c [
            | none ↦ none
            | some c ↦ if is_state kind then some (e.source ++ b':' ∷ c) else none
          ]
            ≡ operation kind e.source c
      go progress none = refl
      go status none = refl
      go failure none = refl
      go log none = refl
      go heartbeat none = refl
      go progress (some c) = refl
      go status (some c) = refl
      go failure (some c) = refl
      go log (some c) = refl
      go heartbeat (some c) = refl

  -- The last event of a history that reports on the operation.
  abbrev pub seeds : Text → Event Payload → Bool
  seeds k e = elim (operation_of e) [ none ↦ false | some j ↦ text_eq j k ]

  abbrev pub latest : Text → List (Event Payload) → Option (Event Payload)
  latest k [] = none
  latest k (e ∷ es) = elim (latest k es) [
    | some later ↦ some later
    | none ↦ if seeds k e then some e else none
  ]

  latest-snoc :
      (k : Text) (es : List (Event Payload)) (e : Event Payload)
      → latest k (es ++ e ∷ []) ≡ (if seeds k e then some e else latest k es)
  latest-snoc k [] e = refl
  latest-snoc k (x ∷ xs) e = elim (Bool-cases (seeds k e)) [
    | inl seeding ↦ rw (latest-snoc k xs e, seeding) refl
    | inr other ↦ rw (latest-snoc k xs e, other) refl
  ]

  -- No key stands twice.
  abbrev pub HasKeys : List (Text × Event Payload) → Type 0
  HasKeys [] = Unit
  HasKeys ((k, e) ∷ m) = (lookup k m ≡ none) × HasKeys m

  erase-HasKeys : (k : Text) (m : List (Text × Event Payload)) → HasKeys m → HasKeys (erase k m)
  erase-HasKeys k [] h = tt
  erase-HasKeys k ((j, e) ∷ m) (new, h) = elim (Bool-cases (text_eq j k)) [
    | inl same ↦ rw same (erase-HasKeys k m h)
    | inr other ↦ rw other (ground (arith, lookup-erase k j m), erase-HasKeys k m h)
  ]

  lookup-snoc :
      (j k : Text) (e : Event Payload) (m : List (Text × Event Payload))
      → lookup j (m ++ (k, e) ∷ [])
        ≡ elim (lookup j m) [ some v ↦ some v | none ↦ if text_eq k j then some e else none ]
  lookup-snoc j k e [] = refl
  lookup-snoc j k e ((i, w) ∷ m) = elim (Bool-cases (text_eq i j)) [
    | inl here ↦ rw here refl
    | inr there ↦ rw there (lookup-snoc j k e m)
  ]

  snoc-HasKeys :
      (k : Text) (e : Event Payload) (m : List (Text × Event Payload))
      → HasKeys m
      → lookup k m ≡ none
      → HasKeys (m ++ (k, e) ∷ [])
  snoc-HasKeys k e [] h new = (refl, tt)
  snoc-HasKeys k e ((j, w) ∷ m) (h, hs) new =
      let apart : text_eq j k ≡ false = ground arith in
      let later : lookup k m ≡ none = ground arith in
      (
        ground (arith, lookup-snoc j k e m, text_eq_iff k j, text_eq_iff j k),
        snoc-HasKeys k e m hs later,
      )

  -- What is found is the latest event of its key.
  abbrev IsLatest : List (Text × Event Payload) → List (Event Payload) → Type 0
  IsLatest m history =
      (k : Text) (e : Event Payload) → lookup k m ≡ some e → latest k history ≡ some e

  -- The latest event of every key is found.
  abbrev IsComplete : List (Text × Event Payload) → List (Event Payload) → Type 0
  IsComplete m history = (k : Text) → lookup k m ≡ latest k history

  shift-IsLatest :
      (m : List (Text × Event Payload)) (history : List (Event Payload))
      → HasKeys m
      → IsLatest m history
      → IsLatest (shift m) history
  unfolding shift
  shift-IsLatest [] history h l k e f = l k e f
  shift-IsLatest ((j, w) ∷ m) history (new, h) l k e f = l k e (ground (arith, text_eq_iff j k))

  shift-HasKeys : (m : List (Text × Event Payload)) → HasKeys m → HasKeys (shift m)
  unfolding shift
  shift-HasKeys [] h = tt
  shift-HasKeys (x ∷ m) h = h.1

  length-erase : (k : Text) (m : List (Text × Event Payload)) → length (erase k m) ≤ length m
  length-erase k [] = omega arith
  length-erase k ((j, w) ∷ m) = ground (arith, length-erase k m)

  -- Without a double key, at most one entry is erased.
  erase-none : (k : Text) (m : List (Text × Event Payload)) → lookup k m ≡ none → erase k m ≡ m
  erase-none k [] h = refl
  erase-none k ((j, w) ∷ m) h = elim (Bool-cases (text_eq j k)) [
    | inl same ↦ absurd (ground arith)
    | inr other ↦
        let later : lookup k m ≡ none = ground arith in rw (other, erase-none k m later) refl
  ]

  length-erase_one :
      (k : Text) (m : List (Text × Event Payload)) → HasKeys m → length m ≤ length (erase k m) + 1
  length-erase_one k [] h = omega arith
  length-erase_one k ((j, w) ∷ m) (new, h) = elim (Bool-cases (text_eq j k)) [
    | inl same ↦
        let key : j ≡ k = (text_eq_iff j k).0 same in
        let absent : lookup k m ≡ none = rw (← key) new in
        rw (same, erase-none k m absent) (omega arith)
    | inr other ↦ rw other (let rest = length-erase_one k m h in omega arith)
  ]

  shift-full : (cap : ℕ) (m : List (Text × Event Payload)) → cap < length m → cap ≤ length (shift m)
  unfolding shift
  shift-full cap [] h = omega arith
  shift-full cap (x ∷ m) h = omega arith

  shift-bounded :
      (cap : ℕ) (m : List (Text × Event Payload)) → length m ≤ cap + 1 → length (shift m) ≤ cap
  unfolding shift
  shift-bounded cap [] h = omega arith
  shift-bounded cap (x ∷ m) h = omega arith

  pub record IsCurrent (cap : ℕ) (m : List (Text × Event Payload)) (history : List (Event Payload))
      : Type 0 where
    pub keyed : HasKeys m
    pub bounded : length m ≤ cap
    pub latest_of : IsLatest m history
    pub complete : (cap ≤ length m) ⊎ IsComplete m history

  seeded-IsComplete :
      (key : Text) (event : Event Payload) (m : List (Text × Event Payload))
      (history : List (Event Payload))
      → operation_of event ≡ some key
      → IsComplete m history
      → IsComplete (erase key m ++ (key, event) ∷ []) (history ++ event ∷ [])
  seeded-IsComplete key event m history keyed l k = elim (Bool-cases (text_eq key k)) [
    | inl same ↦
        let here : seeds k event ≡ true = rw (keyed, seeds) same in
        let found : lookup k (erase key m ++ (key, event) ∷ []) ≡ some event =
          ground (arith, lookup-snoc k key event (erase key m), lookup-erase key k m) in
        found ∙ sym (latest-snoc k history event ∙ rw here refl)
    | inr other ↦
        let there : seeds k event ≡ false = rw (keyed, seeds) other in
        let found : lookup k (erase key m ++ (key, event) ∷ []) ≡ lookup k m =
          ground (arith, lookup-snoc k key event (erase key m), lookup-erase key k m) in
        found ∙ l k ∙ sym (latest-snoc k history event ∙ rw there refl)
  ]

  seeded-IsLatest :
      (key : Text) (event : Event Payload) (m : List (Text × Event Payload))
      (history : List (Event Payload))
      → operation_of event ≡ some key
      → IsLatest m history
      → IsLatest (erase key m ++ (key, event) ∷ []) (history ++ event ∷ [])
  seeded-IsLatest key event m history keyed l k e f = elim (Bool-cases (text_eq key k)) [
    | inl same ↦
        let here : seeds k event ≡ true = rw (keyed, seeds) same in
        let found : lookup k (erase key m ++ (key, event) ∷ []) ≡ some event =
          ground (arith, lookup-snoc k key event (erase key m), lookup-erase key k m) in
        let one : event ≡ e = cc in latest-snoc k history event ∙ rw (here, one) refl
    | inr other ↦
        let there : seeds k event ≡ false = rw (keyed, seeds) other in
        let found : lookup k m ≡ some e =
          ground (arith, lookup-snoc k key event (erase key m), lookup-erase key k m, f) in
        latest-snoc k history event ∙ rw there (l k e found)
  ]

  seed_snapshot-IsCurrent :
      (cap : ℕ) (key : Text) (event : Event Payload) (m : List (Text × Event Payload))
      (history : List (Event Payload))
      → operation_of event ≡ some key
      → IsCurrent cap m history
      → IsCurrent cap (seed_snapshot cap key event m) (history ++ event ∷ [])
  unfolding seed_snapshot
  seed_snapshot-IsCurrent cap key event m history keyed c =
      let seeded = erase key m ++ (key, event) ∷ [] in
      let gone : lookup key (erase key m) ≡ none =
        ground (arith, lookup-erase key key m, text_eq_iff key key) in
      let keys = snoc-HasKeys key event (erase key m) (erase-HasKeys key m c.keyed) gone in
      let latest_of = seeded-IsLatest key event m history keyed c.latest_of in
      let longer = length-append (erase key m) ((key, event) ∷ []) in
      let shorter = length-erase key m in
      let bound = c.bounded in
      elim (Bool-cases (ltb cap (length seeded))) [
        | inr fits ↦ rw fits (record {
          keyed = keys;
          bounded = ground arith;
          latest_of = latest_of;
          complete = elim (c.complete) [
            | inl full ↦ let one = length-erase_one key m c.keyed in inl (omega arith)
            | inr all ↦ inr (seeded-IsComplete key event m history keyed all)
          ];
        })
        | inl full ↦ rw full (record {
          keyed = shift-HasKeys seeded keys;
          bounded = shift-bounded cap seeded (omega arith);
          latest_of = shift-IsLatest seeded (history ++ event ∷ []) keys latest_of;
          complete = inl (shift-full cap seeded (ground arith));
        })
      ]

  other-IsLatest :
      (event : Event Payload) (m : List (Text × Event Payload)) (history : List (Event Payload))
      → operation_of event ≡ none
      → IsLatest m history
      → IsLatest m (history ++ event ∷ [])
  other-IsLatest event m history unkeyed l k e f =
      let there : seeds k event ≡ false = rw (unkeyed, seeds) refl in
      latest-snoc k history event ∙ rw there (l k e f)

  other-IsComplete :
      (event : Event Payload) (m : List (Text × Event Payload)) (history : List (Event Payload))
      → operation_of event ≡ none
      → IsComplete m history
      → IsComplete m (history ++ event ∷ [])
  other-IsComplete event m history unkeyed l k =
      let there : seeds k event ≡ false = rw (unkeyed, seeds) refl in
      l k ∙ sym (latest-snoc k history event ∙ rw there refl)

  abbrev Current : ServerFeed Payload → List (Event Payload) → Type 0
  Current feed history = IsCurrent feed.snapshot_cap feed.snapshots history

  update_snapshot-Current :
      (event : Event Payload) (feed : ServerFeed Payload) (history : List (Event Payload))
      → Current feed history
      → Current (update_snapshot event feed) (history ++ event ∷ [])
  unfolding update_snapshot
  update_snapshot-Current event feed history c = elim (Option-cases (operation_of event)) [
    | inl unkeyed ↦
        rw (snapshot_key-operation event ∙ unkeyed, update_snapshot)
          (record {
            keyed = c.keyed;
            bounded = c.bounded;
            latest_of = other-IsLatest event feed.snapshots history unkeyed c.latest_of;
            complete = elim (c.complete) [
              | inl full ↦ inl full
              | inr all ↦ inr (other-IsComplete event feed.snapshots history unkeyed all)
            ];
          })
    | inr (key, keyed) ↦
        rw (snapshot_key-operation event ∙ keyed, update_snapshot)
          (seed_snapshot-IsCurrent feed.snapshot_cap key event feed.snapshots history keyed c)
  ]

  run-Current :
      (actions : List (Action Payload)) (feed : ServerFeed Payload) (history : List (Event Payload))
      → Current feed history
      → Current (run actions feed history).0 (run actions feed history).1
  unfolding run publish on_event unsubscribe buffer
  run-Current [] feed history c = c
  run-Current (published now input ∷ rest) feed history c =
      let event = number (feed.seq + 1) now input in
      run-Current rest (publish now input feed).0 (history ++ event ∷ []) (
        update_snapshot-Current event (buffer event (record feed { seq = feed.seq + 1 })) history c)
  run-Current (subscribed filter listener ∷ rest) feed history c =
      run-Current rest (on_event filter listener feed) history c
  run-Current (unsubscribed listener ∷ rest) feed history c =
      run-Current rest (unsubscribe listener feed) history c

  -- After any run, the snapshot has no key twice and no more entries than its cap, and the event under
  -- a key is the last published event of the kind progress, status or error whose source and
  -- correlation id make the key, joined by a colon. As long as the entries are fewer than the cap, every
  -- key that such an event made is there.
  pub run-IsCurrent :
      (buffer_size cap : Option ℕ) (actions : List (Action Payload))
      → let (feed, history) = run actions (construct buffer_size cap) [] in
        IsCurrent feed.snapshot_cap feed.snapshots history
  unfolding construct
  run-IsCurrent buffer_size cap actions =
      run-Current actions (construct buffer_size cap) [] (record {
        keyed = tt;
        bounded = omega arith;
        latest_of = λ k e f. absurd (cc);
        complete = inr (λ k. refl);
      })
