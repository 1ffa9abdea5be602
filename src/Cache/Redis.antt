-- ===== src/Cache/Redis.antt =====
-- packages/cache/src/ioredis.cache.provider.ts over a Redis client.
use server_kit.Base.{
  ℕ, ◌+◌, ◌*◌, ◌/◌, ◌≤◌, ◌<◌, Text, text_eq, text_eq_refl, is_some, ltb, ◌==◌, Bool, true, false,
  not, ◌&&◌, if◌then◌else◌, Bool-cases, Option, some, none, ◌≡◌, refl, inl, inr, arith,
}
use mathlib.Core.Option
use server_kit.Cache.Provider.{CacheProvider, until}

-- The commands of Redis that the provider sends, at a time in milliseconds, as Redis documents them:
-- EX n sets the expiry to n seconds, NX applies only to a missing key, XX only to an existing one, and
-- KEEPTTL keeps the expiry. The flag tells whether a SET was applied; DEL counts the removed keys.
pub record RedisClient (V : Type 0) : Type 1 where
  pub State : Type 0
  pub get : ℕ → Text → State → Option V
  pub set_ex : ℕ → Text → V → ℕ → State → State
  pub set_ex_nx : ℕ → Text → V → ℕ → State → State × Bool
  pub set_nx : ℕ → Text → V → State → State × Bool
  pub set_keepttl_xx : ℕ → Text → V → State → State
  pub del : ℕ → Text → State → State × ℕ
  pub get_expired :
      (now t : ℕ) (k : Text) (s : State) → now ≤ t → get now k s ≡ none → get t k s ≡ none
  pub get_set_ex :
      (now t : ℕ) (k j : Text) (v : V) (n : ℕ) (s : State)
      → now ≤ t
      → get t j (set_ex now k v n s)
        ≡ (if text_eq k j then until (some (now + n * 1000)) t v else get t j s)
  pub set_ex_nx_applied :
      (now : ℕ) (k : Text) (v : V) (n : ℕ) (s : State)
      → (set_ex_nx now k v n s).1 ≡ not (is_some (get now k s))
  pub get_set_ex_nx :
      (now t : ℕ) (k j : Text) (v : V) (n : ℕ) (s : State)
      → now ≤ t
      → get t j (set_ex_nx now k v n s).0 ≡ (
          if text_eq k j && not (is_some (get now k s))
          then until (some (now + n * 1000)) t v
          else get t j s)
  pub set_nx_applied :
      (now : ℕ) (k : Text) (v : V) (s : State) → (set_nx now k v s).1 ≡ not (is_some (get now k s))
  pub get_set_nx :
      (now t : ℕ) (k j : Text) (v : V) (s : State)
      → now ≤ t
      → get t j (set_nx now k v s).0
        ≡ (if text_eq k j && not (is_some (get now k s)) then some v else get t j s)
  pub get_set_keepttl_xx :
      (now t : ℕ) (k j : Text) (v : V) (s : State)
      → now ≤ t
      → get t j (set_keepttl_xx now k v s) ≡ (
          if text_eq k j && is_some (get now k s)
          then Option.map (λ _. v) (get t j s)
          else get t j s)
  pub get_del :
      (now t : ℕ) (k j : Text) (s : State)
      → now ≤ t
      → get t j (del now k s).0 ≡ (if text_eq k j then none else get t j s)
  pub del_count :
      (now : ℕ) (k : Text) (s : State) → (del now k s).1 ≡ (if is_some (get now k s) then 1 else 0)

-- Seconds, rounded up, and at least one.
abbrev pub to_expiry_seconds : ℕ → ℕ
to_expiry_seconds ttl = let n = (ttl + 999) / 1000 in if ltb n 1 then 1 else n

module _ {V : Type 0} (redis : RedisClient V) where
  abbrev pub State : Type 0
  State = redis.State

  abbrev pub set : ℕ → Text → V → ℕ → State → State
  set now key value ttl s = redis.set_ex now key value (to_expiry_seconds ttl) s

  abbrev pub add : ℕ → Text → V → Option ℕ → State → State × Bool
  add now key value none s = redis.set_nx now key value s
  add now key value (some ttl) s = redis.set_ex_nx now key value (to_expiry_seconds ttl) s

  abbrev pub delete : ℕ → Text → State → State × Option Text
  delete now key s =
      let (s', result) = redis.del now key s in (s', if result == 0 then none else some key)

  abbrev pub update : ℕ → Text → V → Option ℕ → State → State
  update now key value (some ttl) s = redis.set_ex now key value (to_expiry_seconds ttl) s
  update now key value none s = redis.set_keepttl_xx now key value s

  abbrev pub life : ℕ → ℕ
  life ttl = to_expiry_seconds ttl * 1000

  pub ttl-le-life : (ttl : ℕ) → ttl ≤ life ttl
  ttl-le-life ttl = ground arith

  pub life_positive : (ttl : ℕ) → 0 < life ttl
  life_positive ttl = ground arith

  pub add-claimed :
      (now : ℕ) (k : Text) (v : V) (ttl : Option ℕ) (s : State)
      → (add now k v ttl s).1 ≡ not (is_some (redis.get now k s))
  add-claimed now k v none s = redis.set_nx_applied now k v s
  add-claimed now k v (some ttl) s = redis.set_ex_nx_applied now k v (to_expiry_seconds ttl) s

  pub get-add :
      (now t : ℕ) (k j : Text) (v : V) (ttl : Option ℕ) (s : State)
      → now ≤ t
      → redis.get t j (add now k v ttl s).0 ≡ (
          if text_eq k j && not (is_some (redis.get now k s))
          then until (Option.map (λ d. now + life d) ttl) t v
          else redis.get t j s)
  get-add now t k j v none s h = redis.get_set_nx now t k j v s h
  get-add now t k j v (some ttl) s h = redis.get_set_ex_nx now t k j v (to_expiry_seconds ttl) s h

  pub get-update_other :
      (now t : ℕ) (k j : Text) (v : V) (ttl : Option ℕ) (s : State)
      → text_eq k j ≡ false
      → now ≤ t
      → redis.get t j (update now k v ttl s) ≡ redis.get t j s
  get-update_other now t k j v (some ttl) s ne h =
      rw (redis.get_set_ex now t k j v (to_expiry_seconds ttl) s h, ne) refl
  get-update_other now t k j v none s ne h = rw (redis.get_set_keepttl_xx now t k j v s h, ne) refl

  pub get-update_ttl :
      (now t : ℕ) (k : Text) (v : V) (ttl : ℕ) (s : State)
      → now ≤ t
      → redis.get t k (update now k v (some ttl) s) ≡ until (some (now + life ttl)) t v
  get-update_ttl now t k v ttl s h =
      rw (redis.get_set_ex now t k k v (to_expiry_seconds ttl) s h, text_eq_refl k) refl

  pub get-update_keep :
      (now t : ℕ) (k : Text) (v : V) (s : State)
      → is_some (redis.get now k s) ≡ true
      → now ≤ t
      → redis.get t k (update now k v none s) ≡ Option.map (λ _. v) (redis.get t k s)
  get-update_keep now t k v s e h =
      rw (redis.get_set_keepttl_xx now t k k v s h, text_eq_refl k, e) refl

  pub delete-existed :
      (now : ℕ) (k : Text) (s : State)
      → (delete now k s).1 ≡ (if is_some (redis.get now k s) then some k else none)
  delete-existed now k s = elim (Bool-cases (is_some (redis.get now k s))) [
    | inl there ↦ rw (redis.del_count now k s, there) refl
    | inr missing ↦ rw (redis.del_count now k s, missing) refl
  ]

  pub get-delete :
      (now t : ℕ) (k j : Text) (s : State)
      → now ≤ t
      → redis.get t j (delete now k s).0 ≡ (if text_eq k j then none else redis.get t j s)
  get-delete now t k j s h = redis.get_del now t k j s h

  -- The provider over Redis is a cache, in which a value lives for its time to live, rounded up to
  -- whole seconds and at least one second.
  abbrev pub io_redis_cache_provider : CacheProvider V
  io_redis_cache_provider = record {
    State = State;
    life = life;
    get = redis.get;
    set = set;
    add = add;
    update = update;
    delete = delete;
    ttl_le_life = ttl-le-life;
    life_pos = life_positive;
    get_expired = redis.get_expired;
    get_set = λ now t k j v ttl s h. redis.get_set_ex now t k j v (to_expiry_seconds ttl) s h;
    add_claimed = add-claimed;
    get_add = get-add;
    get_update_other = get-update_other;
    get_update_ttl = λ now t k v ttl s e h. get-update_ttl now t k v ttl s h;
    get_update_keep = get-update_keep;
    get_delete = get-delete;
    delete_existed = delete-existed;
  }
