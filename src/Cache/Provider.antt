-- ===== src/Cache/Provider.antt =====
-- packages/cache/src/cache.provider.ts: what a cache promises. A time is its number of milliseconds,
-- and an operation takes the time at which it runs. `V` stands for the stored texts.
use server_kit.Base.{
  ℕ, ◌+◌, ◌≤◌, ◌<◌, Text, text_eq, is_some, ltb, Bool, true, false, not, ◌&&◌, if◌then◌else◌,
  Option, some, none, ◌≡◌,
}
use mathlib.Core.Option

-- What a read at the time `t` finds of a value that lives until the deadline, if there is one.
abbrev pub until : {V : Type 0} → Option ℕ → ℕ → V → Option V
until none t v = some v
until (some deadline) t v = if ltb t deadline then some v else none

-- `life` is how long an entry with a given time to live is kept: at least that long.
pub record CacheProvider (V : Type 0) : Type 1 where
  pub State : Type 0
  pub life : ℕ → ℕ
  pub get : ℕ → Text → State → Option V
  pub set : ℕ → Text → V → ℕ → State → State
  pub add : ℕ → Text → V → Option ℕ → State → State × Bool
  pub update : ℕ → Text → V → Option ℕ → State → State
  pub delete : ℕ → Text → State → State × Option Text
  pub ttl_le_life : (ttl : ℕ) → ttl ≤ life ttl
  pub life_pos : (ttl : ℕ) → 0 < life ttl
  pub get_expired :
      (now t : ℕ) (k : Text) (s : State) → now ≤ t → get now k s ≡ none → get t k s ≡ none
  pub get_set :
      (now t : ℕ) (k j : Text) (v : V) (ttl : ℕ) (s : State)
      → now ≤ t
      → get t j (set now k v ttl s)
        ≡ (if text_eq k j then until (some (now + life ttl)) t v else get t j s)
  pub add_claimed :
      (now : ℕ) (k : Text) (v : V) (ttl : Option ℕ) (s : State)
      → (add now k v ttl s).1 ≡ not (is_some (get now k s))
  pub get_add :
      (now t : ℕ) (k j : Text) (v : V) (ttl : Option ℕ) (s : State)
      → now ≤ t
      → get t j (add now k v ttl s).0 ≡ (
          if text_eq k j && not (is_some (get now k s))
          then until (Option.map (λ d. now + life d) ttl) t v
          else get t j s)
  pub get_update_other :
      (now t : ℕ) (k j : Text) (v : V) (ttl : Option ℕ) (s : State)
      → text_eq k j ≡ false
      → now ≤ t
      → get t j (update now k v ttl s) ≡ get t j s
  -- On an entry that is there, with a new life time or the old one.
  pub get_update_ttl :
      (now t : ℕ) (k : Text) (v : V) (ttl : ℕ) (s : State)
      → is_some (get now k s) ≡ true
      → now ≤ t
      → get t k (update now k v (some ttl) s) ≡ until (some (now + life ttl)) t v
  pub get_update_keep :
      (now t : ℕ) (k : Text) (v : V) (s : State)
      → is_some (get now k s) ≡ true
      → now ≤ t
      → get t k (update now k v none s) ≡ Option.map (λ _. v) (get t k s)
  pub get_delete :
      (now t : ℕ) (k j : Text) (s : State)
      → now ≤ t
      → get t j (delete now k s).0 ≡ (if text_eq k j then none else get t j s)
  pub delete_existed :
      (now : ℕ) (k : Text) (s : State)
      → (delete now k s).1 ≡ (if is_some (get now k s) then some k else none)
