-- ===== src/Serverfeed/Event.antt =====
-- packages/serverfeed/src/server.feed.event.ts. `Payload` stands for the structured data of an event.
use server_kit.Base.{
  ℕ, Text, text_eq, contains, ltb, Bool, true, false, not, ◌&&◌, List, [], ◌∷◌, Option, some, none,
  some_of,
}

pub data Level : Type 0 where
  debug info warn error : Level

pub data Kind : Type 0 where
  progress status log failure heartbeat : Kind

pub data ProgressStatus : Type 0 where
  running done failed : ProgressStatus

pub record Progress : Type 0 where
  pub phase : Text
  pub index : ℕ
  pub total : ℕ
  pub state : ProgressStatus

pub record Event (Payload : Type 0) : Type 0 where
  pub id : ℕ
  pub ts : Text
  pub source : Text
  pub level : Level
  pub kind : Kind
  pub message : Option Text
  pub correlation_id : Option Text
  pub steps : Option Progress
  pub payload : Option Payload

-- An event without its number, and with a time only if the publisher gives one.
pub record EventInput (Payload : Type 0) : Type 0 where
  pub ts : Option Text
  pub source : Text
  pub level : Level
  pub kind : Kind
  pub message : Option Text
  pub correlation_id : Option Text
  pub steps : Option Progress
  pub payload : Option Payload

-- A single source or kind is the list of it.
pub record Filter : Type 0 where
  pub source : Option (List Text)
  pub correlation_id : Option Text
  pub level : Option Level
  pub kind : Option (List Kind)

abbrev pub level_rank : Level → ℕ
level_rank debug = 0
level_rank info = 1
level_rank warn = 2
level_rank error = 3

abbrev pub kind_eq : Kind → Kind → Bool
kind_eq progress progress = true
kind_eq status status = true
kind_eq log log = true
kind_eq failure failure = true
kind_eq heartbeat heartbeat = true
kind_eq _ _ = false

-- An empty list of choices admits all.
source_ok : Option (List Text) → Text → Bool
source_ok none s = true
source_ok (some []) s = true
source_ok (some (t ∷ ts)) s = contains s (t ∷ ts)

correlation_ok : Option Text → Option Text → Bool
correlation_ok none c = true
correlation_ok (some wanted) none = false
correlation_ok (some wanted) (some c) = text_eq c wanted

level_ok : Option Level → Level → Bool
level_ok none l = true
level_ok (some least) l = not (ltb (level_rank l) (level_rank least))

kind_ok : Option (List Kind) → Kind → Bool
kind_ok none k = true
kind_ok (some []) k = true
kind_ok (some (j ∷ js)) k = some_of (kind_eq k) (j ∷ js)

unfoldable pub matches : {Payload : Type 0} → Event Payload → Option Filter → Bool
unfolding source_ok correlation_ok level_ok kind_ok
matches event none = true
matches event (some filter) =
    source_ok (filter.source) (event.source)
    && correlation_ok (filter.correlation_id) (event.correlation_id)
    && level_ok (filter.level) (event.level)
    && kind_ok (filter.kind) (event.kind)
