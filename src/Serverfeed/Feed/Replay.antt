-- ===== src/Serverfeed/Feed/Replay.antt =====
-- The ring buffer against the history of the published events.
use server_kit.Base.{
  ℕ, zero, suc, ◌+◌, ◌-◌, ◌≤◌, ◌<◌, Text, length, length-append, append_assoc, append-nil, ltb,
  false, ◌&&◌, if◌then◌else◌, Bool-cases, Option-cases, List, [], ◌∷◌, ◌++◌, Option, some, none,
  ◌≡◌, refl, sym, ap, ◌∙◌, inl, inr, arith,
}
use server_kit.Serverfeed.Event.{Event, EventInput, Filter}
use server_kit.Serverfeed.Feed.{
  ServerFeed, size_or, construct, shift, buffer, snapshot_key, update_snapshot, number, publish,
  on_event, unsubscribe, floor, newer, replay_since, Action, published, subscribed, unsubscribed,
  run,
}

-- A buffer of the given size keeps as much of a history.
abbrev pub kept : ℕ → ℕ → ℕ
kept size total = if ltb total size then total else size

size_or_pos : (preset : ℕ) (given : Option ℕ) → 0 < preset → 0 < size_or preset given
unfolding size_or
size_or_pos preset none h = h
size_or_pos preset (some n) h = ground arith

abbrev pub drop : {A : Type 0} → ℕ → List A → List A
drop zero vs = vs
drop (suc n) [] = []
drop (suc n) (v ∷ vs) = drop n vs

module _ {Payload : Type 0} where
  -- The numbers count up from `n`.
  abbrev pub IsNumbered : ℕ → List (Event Payload) → Type 0
  IsNumbered n [] = Unit
  IsNumbered n (e ∷ es) = (e.id ≡ n) × IsNumbered (suc n) es

  IsNumbered-snoc :
      (n : ℕ) (es : List (Event Payload)) (e : Event Payload)
      → IsNumbered n es
      → e.id ≡ n + length es
      → IsNumbered n (es ++ e ∷ [])
  IsNumbered-snoc n [] e h k = (omega arith, tt)
  IsNumbered-snoc n (x ∷ xs) e (h, hs) k = (h, IsNumbered-snoc (suc n) xs e hs (omega arith))

  IsNumbered-drop :
      (n : ℕ) (es rest : List (Event Payload))
      → IsNumbered n (es ++ rest)
      → IsNumbered (n + length es) rest
  IsNumbered-drop n [] rest h = let e : n + 0 ≡ n = omega arith in rw e h
  IsNumbered-drop n (x ∷ xs) rest (h, hs) =
      let e : n + suc (length xs) ≡ suc n + length xs = omega arith in
      rw e (IsNumbered-drop (suc n) xs rest hs)

  -- The feed holds the end of the history, behind the evicted events.
  pub record IsTrace (feed : ServerFeed Payload) (history evicted : List (Event Payload))
      : Type 0 where
    pub split : history ≡ evicted ++ feed.ring
    pub numbered : IsNumbered 1 history
    pub counted : feed.seq ≡ length history
    pub filled : length feed.ring ≡ kept feed.buffer_size (length history)
    pub nonzero : 0 < feed.buffer_size

  abbrev Traced : ServerFeed Payload → List (Event Payload) → Type 0
  Traced feed history = (evicted : List (Event Payload)) × IsTrace feed history evicted

  construct-Traced : (b c : Option ℕ) → Traced (construct b c) []
  unfolding construct
  construct-Traced b c =
      let pos = size_or_pos 1000 b (omega arith) in
      (
        [],
        record {
          split = refl;
          numbered = tt;
          counted = refl;
          filled = ground arith;
          nonzero = pos;
        },
      )

  -- Snapshots do not touch the ring.
  update_snapshot-Traced :
      (e : Event Payload) (feed : ServerFeed Payload) (history : List (Event Payload))
      → Traced feed history
      → Traced (update_snapshot e feed) history
  unfolding update_snapshot
  update_snapshot-Traced e feed history (evicted, t) = elim (Option-cases (snapshot_key e)) [
    | inl unkeyed ↦ rw (unkeyed, update_snapshot) (evicted, t)
    | inr (key, keyed) ↦
        rw (keyed, update_snapshot)
          (
            evicted,
            record {
              split = t.split;
              numbered = t.numbered;
              counted = t.counted;
              filled = t.filled;
              nonzero = t.nonzero;
            },
          )
  ]

  -- The ring with one more event, and what it evicts.
  ring-snoc :
      (size : ℕ) (ring evicted : List (Event Payload)) (e : Event Payload)
      → 0 < size
      → length ring ≡ kept size (length (evicted ++ ring))
      → let ring' =
          if ltb size (length (ring ++ e ∷ [])) then shift (ring ++ e ∷ []) else ring ++ e ∷ [] in
        (evicted' : List (Event Payload)) × (evicted ++ ring ++ e ∷ [] ≡ evicted' ++ ring')
        × (length ring' ≡ kept size (length (evicted ++ ring ++ e ∷ [])))
  unfolding shift
  ring-snoc size [] evicted e h k =
      let stays : ltb size 1 ≡ false = ground arith in
      rw stays (
        evicted,
        ap (λ t. t ++ e ∷ []) (append-nil evicted),
        ground (arith, length-append evicted [], length-append (evicted ++ []) (e ∷ [])),
      )
  ring-snoc size (x ∷ xs) evicted e h k =
      let l = length-append xs (e ∷ []) in
      let m = length-append evicted (x ∷ xs) in
      let n = length-append (evicted ++ x ∷ xs) (e ∷ []) in
      elim (Bool-cases (ltb size (suc (length (xs ++ e ∷ []))))) [
        | inr stays ↦ rw stays (evicted, append_assoc evicted (x ∷ xs) (e ∷ []), ground arith)
        | inl full ↦ rw full (
          evicted ++ x ∷ [],
          append_assoc evicted (x ∷ xs) (e ∷ [])
              ∙ sym (append_assoc evicted (x ∷ []) (xs ++ e ∷ [])),
          ground arith,
        )
      ]

  publish-Traced :
      (now : Text) (input : EventInput Payload) (feed : ServerFeed Payload)
      (history : List (Event Payload))
      → Traced feed history
      → Traced (publish now input feed).0 (history ++ (publish now input feed).1 ∷ [])
  unfolding publish buffer number
  publish-Traced now input feed history (evicted, t) =
      let e = number (feed.seq + 1) now input in
      let same = t.split in
      let fill : length feed.ring ≡ kept feed.buffer_size (length (evicted ++ feed.ring)) =
        rw same at (t.filled) in
      let (evicted', split, filled) =
        ring-snoc feed.buffer_size feed.ring evicted e t.nonzero fill in
      let more = length-append history (e ∷ []) in
      update_snapshot-Traced e (buffer e (record feed { seq = feed.seq + 1 })) (history ++ e ∷ []) (
        evicted',
        record {
          split = ap (λ h. h ++ e ∷ []) same ∙ split;
          numbered = IsNumbered-snoc 1 history e t.numbered (omega (arith, t.counted));
          counted = omega (arith, t.counted, more);
          filled = rw same filled;
          nonzero = t.nonzero;
        },
      )

  on_event-Traced :
      (filter : Filter) (listener : ℕ) (feed : ServerFeed Payload) (history : List (Event Payload))
      → Traced feed history
      → Traced (on_event filter listener feed) history
  unfolding on_event
  on_event-Traced filter listener feed history (evicted, t) = (
    evicted,
    record {
      split = t.split;
      numbered = t.numbered;
      counted = t.counted;
      filled = t.filled;
      nonzero = t.nonzero;
    },
  )

  unsubscribe-Traced :
      (listener : ℕ) (feed : ServerFeed Payload) (history : List (Event Payload))
      → Traced feed history
      → Traced (unsubscribe listener feed) history
  unfolding unsubscribe
  unsubscribe-Traced listener feed history (evicted, t) = (
    evicted,
    record {
      split = t.split;
      numbered = t.numbered;
      counted = t.counted;
      filled = t.filled;
      nonzero = t.nonzero;
    },
  )

  run-Traced :
      (actions : List (Action Payload)) (feed : ServerFeed Payload) (history : List (Event Payload))
      → Traced feed history
      → Traced (run actions feed history).0 (run actions feed history).1
  unfolding run
  run-Traced [] feed history t = t
  run-Traced (published now input ∷ rest) feed history t =
      run-Traced rest (publish now input feed).0 (history ++ (publish now input feed).1 ∷ [])
        (publish-Traced now input feed history t)
  run-Traced (subscribed filter listener ∷ rest) feed history t =
      run-Traced rest (on_event filter listener feed) history
        (on_event-Traced filter listener feed history t)
  run-Traced (unsubscribed listener ∷ rest) feed history t =
      run-Traced rest (unsubscribe listener feed) history
        (unsubscribe-Traced listener feed history t)

  newer-old :
      (last n : ℕ) (filter : Option Filter) (es rest : List (Event Payload))
      → IsNumbered n (es ++ rest)
      → n + length es ≤ last + 1
      → newer last filter (es ++ rest) ≡ newer last filter rest
  newer-old last n filter [] rest h k = refl
  newer-old last n filter (x ∷ xs) rest (h, hs) k =
      let old : ltb last x.id ≡ false = ground arith in
      rw old (newer-old last (suc n) filter xs rest hs (omega arith))

  floor-numbered :
      (n seq : ℕ) (evicted ring : List (Event Payload))
      → IsNumbered n (evicted ++ ring)
      → seq + 1 ≡ n + length (evicted ++ ring)
      → floor ring seq ≡ n + length evicted
  unfolding floor
  floor-numbered n seq evicted [] h k = omega (arith, length-append evicted [])
  floor-numbered n seq evicted (e ∷ es) h k = (IsNumbered-drop n evicted (e ∷ es) h).0

  -- After any run, the buffer holds as many events as there were, up to its size, numbered in a row up
  -- to the last one. A replay from a number above 0 reports a gap exactly if an event above that number
  -- is no longer held; a replay from 0 never reports one.
  pub run-gap :
      (buffer_size cap : Option ℕ) (actions : List (Action Payload)) (last : ℕ)
      (filter : Option Filter)
      → let (feed, history) = run actions (construct buffer_size cap) [] in
        (length feed.ring ≡ kept feed.buffer_size (length history))
        × IsNumbered (length history - length feed.ring + 1) feed.ring
        × ((replay_since last filter feed).1
            ≡ (ltb 0 last && ltb last (length history - length feed.ring)))
  unfolding replay_since
  run-gap buffer_size cap actions last filter =
      let (feed, history) = run actions (construct buffer_size cap) [] in
      let (evicted, t) =
        run-Traced actions (construct buffer_size cap) [] (construct-Traced buffer_size cap) in
      let split = t.split in
      let numbered : IsNumbered 1 (evicted ++ feed.ring) = rw split at (t.numbered) in
      let total = length-append evicted feed.ring in
      let size : length history ≡ length (evicted ++ feed.ring) = ap length split in
      let low = floor-numbered 1 feed.seq evicted feed.ring numbered (omega (arith, t.counted)) in
      let first : length history - length feed.ring + 1 ≡ 1 + length evicted = omega arith in
      let bound : floor feed.ring feed.seq - 1 ≡ length history - length feed.ring = omega arith in
      (t.filled, rw first (IsNumbered-drop 1 evicted feed.ring numbered), rw bound refl)

  -- After any run, a replay from a number above 0 that reports no gap misses nothing: it returns, in
  -- order, exactly the events ever published that are newer and match.
  pub run-replay_complete :
      (buffer_size cap : Option ℕ) (actions : List (Action Payload)) (last : ℕ)
      (filter : Option Filter)
      → 0 < last
      → (replay_since last filter (run actions (construct buffer_size cap) []).0).1 ≡ false
      → (replay_since last filter (run actions (construct buffer_size cap) []).0).0
        ≡ newer last filter (run actions (construct buffer_size cap) []).1
  unfolding replay_since
  run-replay_complete buffer_size cap actions last filter p no_gap =
      let (feed, history) = run actions (construct buffer_size cap) [] in
      let (evicted, t) =
        run-Traced actions (construct buffer_size cap) [] (construct-Traced buffer_size cap) in
      let split = t.split in
      let numbered : IsNumbered 1 (evicted ++ feed.ring) = rw split at (t.numbered) in
      let size : length history ≡ length (evicted ++ feed.ring) = ap length split in
      let low = floor-numbered 1 feed.seq evicted feed.ring numbered (omega (arith, t.counted)) in
      let enough : 1 + length evicted ≤ last + 1 = ground arith in
      rw split (sym (newer-old last 1 filter evicted feed.ring numbered enough))
