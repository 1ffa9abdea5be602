-- ===== src/Serverfeed/Feed/Tests.antt =====
-- A feed on concrete events.
use server_kit.Base.{
  ℕ, Text, codes, length, ◌-◌, ◌+◌, ltb, ◌&&◌, false, List, [], ◌∷◌, map, some, none, ◌≡◌, refl,
  arith,
}
use server_kit.Serverfeed.Event.{info, status, Event, matches}
use server_kit.Serverfeed.Feed.{
  ServerFeed, size_or, construct, shift, is_state, buffer, snapshot_key, seed_snapshot,
  update_snapshot, fan_out, number, publish, status_input, log_input, on_event, drop_listener,
  unsubscribe, floor, newer, replay_since, matching, snapshot, Action, published, run,
}
use server_kit.Serverfeed.Feed.Replay.{IsNumbered, kept, run-gap, run-replay_complete}
use server_kit.Serverfeed.Feed.Snapshot.{IsCurrent, run-IsCurrent}

opened : Unit {0}
unfolding matches size_or construct shift is_state buffer snapshot_key seed_snapshot update_snapshot
    fan_out number publish status_input log_input on_event drop_listener unsubscribe floor
    replay_since matching snapshot run
opened = tt

abbrev tick : Text → Text → Action ℕ
tick source correlation = published [] (record {
  ts = none;
  source = source;
  level = info;
  kind = status;
  message = none;
  correlation_id = some correlation;
  steps = none;
  payload = none;
})

abbrev ticks : List (Action ℕ)
ticks =
    tick (codes "jobs") (codes "1")
    ∷ tick (codes "jobs") (codes "2")
    ∷ tick (codes "jobs") (codes "1")
    ∷ []

abbrev small : ServerFeed ℕ
small = (run ticks (construct (some 2) (some 1)) []).0

retained : map (λ (e : Event ℕ). e.id) small.ring ≡ 2 ∷ 3 ∷ []
unfolding opened
retained = refl

resumed :
    (map (λ (e : Event ℕ). e.id) (replay_since 1 none small).0 ≡ 2 ∷ 3 ∷ [])
    × ((replay_since 1 none small).1 ≡ false)
unfolding opened
resumed = (refl, refl)

evicting : map (λ (e : Event ℕ). e.id) (snapshot none small) ≡ 3 ∷ []
unfolding opened
evicting = refl

-- A colon in a source or a correlation id makes two operations share an entry of the snapshot.
shared_entry :
    map
      (λ (e : Event ℕ). e.id)
      (snapshot none
        (run
          (tick (codes "a:b") (codes "c") ∷ tick (codes "a") (codes "b:c") ∷ [])
          (construct none none)
          []).0)
    ≡ 2 ∷ []
unfolding opened
shared_entry = refl

run-gap_example :
    let (feed, history) = run ticks (construct (some 2) (some 1)) [] in
    (length feed.ring ≡ kept feed.buffer_size (length history))
    × IsNumbered (length history - length feed.ring + 1) feed.ring
    × ((replay_since 1 none feed).1 ≡ (ltb 0 1 && ltb 1 (length history - length feed.ring)))
run-gap_example = run-gap (some 2) (some 1) ticks 1 none

nothing_missed :
    (replay_since 1 none (run ticks (construct (some 2) (some 1)) []).0).0
    ≡ newer 1 none (run ticks (construct (some 2) (some 1)) []).1
unfolding opened
nothing_missed = run-replay_complete (some 2) (some 1) ticks 1 none (omega arith) refl

run-IsCurrent_example :
    let (feed, history) = run ticks (construct (some 2) (some 1)) [] in
    IsCurrent feed.snapshot_cap feed.snapshots history
run-IsCurrent_example = run-IsCurrent (some 2) (some 1) ticks
