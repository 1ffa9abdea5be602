-- ===== src/Cache/Memory.antt =====
-- A Redis client in memory: the values under their keys, each with the time at which it expires.
use server_kit.Base.{
  ℕ, ◌+◌, ◌*◌, ◌≤◌, Text, text_eq, text_eq_sound, is_some, ltb, lookup, insert, erase,
  lookup-insert, lookup-erase, Bool, true, false, not, ◌&&◌, if◌then◌else◌, Bool-cases, List,
  Option, some, none, ◌≡◌, refl, ap, ◌∙◌, inl, inr, arith,
}
use mathlib.Core.Option
use server_kit.Cache.Provider.{CacheProvider, until}
use server_kit.Cache.Redis.{RedisClient, io_redis_cache_provider}

abbrev pub Entries : Type 0 → Type 0
Entries V = List (Text × (V × Option ℕ))

module _ {V : Type 0} where
  abbrev pub alive : ℕ → Option (V × Option ℕ) → Option V
  alive now none = none
  alive now (some (v, deadline)) = until deadline now v

  abbrev pub read : ℕ → Text → Entries V → Option V
  read now k s = alive now (lookup k s)

  abbrev pub write : ℕ → Text → V → Option ℕ → Entries V → Entries V
  write now k v seconds s = insert k (v, Option.map (λ n. now + n * 1000) seconds) s

  abbrev pub deadline_of : Option (V × Option ℕ) → Option ℕ
  deadline_of none = none
  deadline_of (some (v, deadline)) = deadline

  abbrev pub write_new : ℕ → Text → V → Option ℕ → Entries V → Entries V × Bool
  write_new now k v seconds s =
      if is_some (read now k s) then (s, false) else (write now k v seconds s, true)

  abbrev pub rewrite : ℕ → Text → V → Entries V → Entries V
  rewrite now k v s = if is_some (read now k s) then insert k (v, deadline_of (lookup k s)) s else s

  alive-expired :
      (now t : ℕ) (o : Option (V × Option ℕ)) → now ≤ t → alive now o ≡ none → alive t o ≡ none
  alive-expired now t none h e = refl
  alive-expired now t (some (v, none)) h e = cc
  alive-expired now t (some (v, some d)) h e = ground arith

  pub read_expired :
      (now t : ℕ) (k : Text) (s : Entries V) → now ≤ t → read now k s ≡ none → read t k s ≡ none
  read_expired now t k s h e = alive-expired now t (lookup k s) h e

  pub read-insert :
      (t : ℕ) (k j : Text) (v : V) (d : Option ℕ) (s : Entries V)
      → read t j (insert k (v, d) s) ≡ (if text_eq k j then until d t v else read t j s)
  read-insert t k j v d s = elim (Bool-cases (text_eq k j)) [
    | inl same ↦ rw (lookup-insert k j (v, d) s, same) refl
    | inr other ↦ rw (lookup-insert k j (v, d) s, other) refl
  ]

  pub write_new-applied :
      (now : ℕ) (k : Text) (v : V) (n : Option ℕ) (s : Entries V)
      → (write_new now k v n s).1 ≡ not (is_some (read now k s))
  write_new-applied now k v n s = elim (Bool-cases (is_some (read now k s))) [
    | inl there ↦ rw there refl
    | inr missing ↦ rw missing refl
  ]

  pub read-write_new :
      (now t : ℕ) (k j : Text) (v : V) (n : Option ℕ) (s : Entries V)
      → read t j (write_new now k v n s).0 ≡ (
          if text_eq k j && not (is_some (read now k s))
          then until (Option.map (λ d. now + d * 1000) n) t v
          else read t j s)
  read-write_new now t k j v n s = elim (Bool-cases (is_some (read now k s))) [
    | inl there ↦
        rw there
          (elim (Bool-cases (text_eq k j)) [ inl same ↦ rw same refl | inr other ↦ rw other refl ])
    | inr missing ↦ rw missing (elim (Bool-cases (text_eq k j)) [
      | inl same ↦ rw (read-insert t k j v (Option.map (λ d. now + d * 1000) n) s, same) refl
      | inr other ↦ rw (read-insert t k j v (Option.map (λ d. now + d * 1000) n) s, other) refl
    ])
  ]

  until-map : (d : Option ℕ) (t : ℕ) (v w : V) → until d t v ≡ Option.map (λ _. v) (until d t w)
  until-map none t v w = refl
  until-map (some d) t v w = elim (Bool-cases (ltb t d)) [
    | inl early ↦ rw early refl
    | inr late ↦ rw late refl
  ]

  alive-rewrite :
      (now t : ℕ) (v : V) (o : Option (V × Option ℕ))
      → is_some (alive now o) ≡ true
      → until (deadline_of o) t v ≡ Option.map (λ _. v) (alive t o)
  alive-rewrite now t v none h = cc
  alive-rewrite now t v (some (w, d)) h = until-map d t v w

  pub read-rewrite :
      (now t : ℕ) (k j : Text) (v : V) (s : Entries V)
      → read t j (rewrite now k v s) ≡ (
          if text_eq k j && is_some (read now k s)
          then Option.map (λ _. v) (read t j s)
          else read t j s)
  read-rewrite now t k j v s = elim (Bool-cases (is_some (read now k s))) [
    | inr missing ↦
        rw missing
          (elim (Bool-cases (text_eq k j)) [ inl same ↦ rw same refl | inr other ↦ rw other refl ])
    | inl there ↦ rw there (elim (Bool-cases (text_eq k j)) [
      | inr other ↦ rw (read-insert t k j v (deadline_of (lookup k s)) s, other) refl
      | inl same ↦
          let e = text_eq_sound k j same in
          rw (read-insert t k j v (deadline_of (lookup k s)) s, same)
            (alive-rewrite now t v (lookup k s) there
              ∙ ap (λ i. Option.map (λ _. v) (read t i s)) e)
    ])
  ]

  pub read-erase :
      (t : ℕ) (k j : Text) (s : Entries V)
      → read t j (erase k s) ≡ (if text_eq k j then none else read t j s)
  read-erase t k j s = elim (Bool-cases (text_eq k j)) [
    | inl same ↦ rw (lookup-erase k j s, same) refl
    | inr other ↦ rw (lookup-erase k j s, other) refl
  ]

-- A Redis client: every command has the documented effect.
abbrev pub memory_redis : (V : Type 0) → RedisClient V
memory_redis V = record {
  State = Entries V;
  get = read;
  set_ex = λ now k v n s. write now k v (some n) s;
  set_ex_nx = λ now k v n s. write_new now k v (some n) s;
  set_nx = λ now k v s. write_new now k v none s;
  set_keepttl_xx = rewrite;
  del = λ now k s. (erase k s, if is_some (read now k s) then 1 else 0);
  get_expired = read_expired;
  get_set_ex = λ now t k j v n s h. read-insert t k j v (some (now + n * 1000)) s;
  set_ex_nx_applied = λ now k v n s. write_new-applied now k v (some n) s;
  get_set_ex_nx = λ now t k j v n s h. read-write_new now t k j v (some n) s;
  set_nx_applied = λ now k v s. write_new-applied now k v none s;
  get_set_nx = λ now t k j v s h. read-write_new now t k j v none s;
  get_set_keepttl_xx = λ now t k j v s h. read-rewrite now t k j v s;
  get_del = λ now t k j s h. read-erase t k j s;
  del_count = λ now k s. refl;
}

-- The provider over it.
abbrev pub memory_cache : (V : Type 0) → CacheProvider V
memory_cache V = io_redis_cache_provider (memory_redis V)
