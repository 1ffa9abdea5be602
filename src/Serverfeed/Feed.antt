-- ===== src/Serverfeed/Feed.antt =====
-- packages/serverfeed/src/server.feed.ts. A listener is known by its number, and what it does with an
-- event, a throw included, has no effect on the feed. The text of the clock's time is an argument.
pub mod Replay
pub mod Snapshot
mod Tests
use server_kit.Base.{
  ℕ, suc, ◌+◌, ◌-◌, Text, length, lookup, insert, erase, ltb, ◌==◌, Bool, true, false, not, ◌&&◌,
  if◌then◌else◌, List, [], ◌∷◌, ◌++◌, map, Option, some, none,
}
use server_kit.Serverfeed.Event.{
  Level, debug, info, warn, error, Kind, progress, status, log, failure, heartbeat, ProgressStatus,
  failed, Progress, Event, EventInput, Filter, matches,
}

pub record Subscription : Type 0 where
  pub listener : ℕ
  pub filter : Filter

pub record ServerFeed (Payload : Type 0) : Type 0 where
  pub seq : ℕ
  pub buffer_size : ℕ
  pub snapshot_cap : ℕ
  pub ring : List (Event Payload)
  pub listeners : List Subscription
  pub snapshots : List (Text × Event Payload)

-- `Math.max(1, given ?? preset)`.
size_or : ℕ → Option ℕ → ℕ
size_or preset none = preset
size_or preset (some n) = if ltb n 1 then 1 else n

abbrev pub default_buffer : ℕ
default_buffer = 1000

abbrev pub default_snapshot_cap : ℕ
default_snapshot_cap = 500

abbrev or_else : {A : Type 0} → Option A → A → A
or_else none a = a
or_else (some b) a = b

-- `ring.shift()`.
shift : {A : Type 0} → List A → List A
shift [] = []
shift (x ∷ xs) = xs

-- The kinds that report a current state.
is_state : Kind → Bool
is_state progress = true
is_state status = true
is_state failure = true
is_state _ = false

drop_listener : ℕ → List Subscription → List Subscription
drop_listener listener [] = []
drop_listener listener (sub ∷ subs) =
    if sub.listener == listener then subs else sub ∷ drop_listener listener subs

module _ {Payload : Type 0} where
  pub construct : Option ℕ → Option ℕ → ServerFeed Payload
  construct buffer_size snapshot_cap = record {
    seq = 0;
    buffer_size = size_or default_buffer buffer_size;
    snapshot_cap = size_or default_snapshot_cap snapshot_cap;
    ring = [];
    listeners = [];
    snapshots = [];
  }

  buffer : Event Payload → ServerFeed Payload → ServerFeed Payload
  buffer event feed =
      let ring = feed.ring ++ event ∷ [] in
      record feed { ring = if ltb feed.buffer_size (length ring) then shift ring else ring }

  -- The key of the snapshot that the event seeds.
  pub snapshot_key : Event Payload → Option Text
  snapshot_key event = elim (event.correlation_id) [
    | none ↦ none
    | some c ↦ if is_state event.kind then some (event.source ++ b':' ∷ c) else none
  ]

  -- At the end, and without the oldest entry if there are too many.
  seed_snapshot :
      ℕ → Text → Event Payload → List (Text × Event Payload) → List (Text × Event Payload)
  seed_snapshot cap key event snapshots =
      let seeded = erase key snapshots ++ (key, event) ∷ [] in
      if ltb cap (length seeded) then shift seeded else seeded

  update_snapshot : Event Payload → ServerFeed Payload → ServerFeed Payload
  update_snapshot event feed = elim (snapshot_key event) [
    | none ↦ feed
    | some key ↦ record feed {
      snapshots = seed_snapshot feed.snapshot_cap key event feed.snapshots;
    }
  ]

  -- The listeners that are called, in the order of their subscriptions.
  pub fan_out : Event Payload → List Subscription → List ℕ
  fan_out event [] = []
  fan_out event (sub ∷ subs) =
      if matches event (some sub.filter)
      then sub.listener ∷ fan_out event subs
      else fan_out event subs

  number : ℕ → Text → EventInput Payload → Event Payload
  number id now input = record {
    id = id;
    ts = or_else (input.ts) now;
    source = input.source;
    level = input.level;
    kind = input.kind;
    message = input.message;
    correlation_id = input.correlation_id;
    steps = input.steps;
    payload = input.payload;
  }

  -- The event, and the listeners that are called with it.
  pub publish :
      Text → EventInput Payload → ServerFeed Payload → ServerFeed Payload × Event Payload × List ℕ
  publish now input feed =
      let event = number (feed.seq + 1) now input in
      let feed' = update_snapshot event (buffer event (record feed { seq = feed.seq + 1 })) in
      (feed', event, fan_out event feed'.listeners)

  -- The inputs that the helpers publish.
  progress_input : Text → Text → Progress → Option Text → EventInput Payload
  progress_input source correlation_id p message = record {
    ts = none;
    source = source;
    level = elim (p.state) [ failed ↦ error | _ ↦ info ];
    kind = progress;
    message = message;
    correlation_id = some correlation_id;
    steps = some p;
    payload = none;
  }

  status_input : Text → Text → Text → Option Payload → EventInput Payload
  status_input source correlation_id message payload = record {
    ts = none;
    source = source;
    level = info;
    kind = status;
    message = some message;
    correlation_id = some correlation_id;
    steps = none;
    payload = payload;
  }

  log_input : Level → Text → Text → Option Payload → EventInput Payload
  log_input level source message payload = record {
    ts = none;
    source = source;
    level = level;
    kind = log;
    message = some message;
    correlation_id = none;
    steps = none;
    payload = payload;
  }

  -- The message and the stack of the error are its texts.
  error_input : Text → Text → Option Payload → Option Text → EventInput Payload
  error_input source message stack correlation_id = record {
    ts = none;
    source = source;
    level = error;
    kind = failure;
    message = some message;
    correlation_id = correlation_id;
    steps = none;
    payload = stack;
  }

  heartbeat_input : Text → Option Text → Option Payload → EventInput Payload
  heartbeat_input source correlation_id payload = record {
    ts = none;
    source = source;
    level = debug;
    kind = heartbeat;
    message = none;
    correlation_id = correlation_id;
    steps = none;
    payload = payload;
  }

  pub on_event : Filter → ℕ → ServerFeed Payload → ServerFeed Payload
  on_event filter listener feed = record feed {
    listeners = feed.listeners ++ record { listener = listener; filter = filter } ∷ [];
  }

  pub unsubscribe : ℕ → ServerFeed Payload → ServerFeed Payload
  unsubscribe listener feed = record feed { listeners = drop_listener listener feed.listeners }

  -- `ring[0].id`, or the next number.
  floor : List (Event Payload) → ℕ → ℕ
  floor [] seq = seq + 1
  floor (e ∷ es) seq = e.id

  -- The events newer than `last` that match.
  abbrev pub newer : ℕ → Option Filter → List (Event Payload) → List (Event Payload)
  newer last filter [] = []
  newer last filter (e ∷ es) =
      let rest = newer last filter es in
      if ltb last e.id && matches e filter then e ∷ rest else rest

  pub replay_since : ℕ → Option Filter → ServerFeed Payload → List (Event Payload) × Bool
  replay_since last filter feed =
      (newer last filter feed.ring, ltb 0 last && ltb last (floor feed.ring feed.seq - 1))

  matching : Option Filter → List (Text × Event Payload) → List (Event Payload)
  matching filter [] = []
  matching filter ((k, e) ∷ es) =
      let rest = matching filter es in if matches e filter then e ∷ rest else rest

  pub snapshot : Option Filter → ServerFeed Payload → List (Event Payload)
  snapshot filter feed = matching filter feed.snapshots

-- What happens to a feed; a listener has a new number at each subscription.
pub data Action (Payload : Type 0) : Type 0 where
  published : Text → EventInput Payload → Action Payload
  subscribed : Filter → ℕ → Action Payload
  unsubscribed : ℕ → Action Payload

-- A feed under a list of actions, with the events published so far.
pub run :
    {Payload : Type 0}
    → List (Action Payload)
    → ServerFeed Payload
    → List (Event Payload)
    → ServerFeed Payload × List (Event Payload)
run [] feed history = (feed, history)
run (published now input ∷ rest) feed history =
    let (feed', event, called) = publish now input feed in run rest feed' (history ++ event ∷ [])
run (subscribed filter listener ∷ rest) feed history =
    run rest (on_event filter listener feed) history
run (unsubscribed listener ∷ rest) feed history = run rest (unsubscribe listener feed) history
