-- ===== src/Authentication/Challenges.antt =====
-- packages/authentication/src: what is issued under a fresh id, looked up, and redeemed once.
pub mod Mfa
pub mod RecoveryChallenge
pub mod RecoverySession
mod Tests
use server_kit.Base.{
  ℕ, zero, suc, ◌+◌, ◌≤◌, ◌<◌, Text, text_eq, is_some, if◌then◌else◌, Bool, true, false, ◌&&◌, List,
  [], ◌∷◌, ◌++◌, Option, some, none, ◌≡◌, refl, arith, ==_refl, sym, ap, ◌∙◌, inl, inr, Bool-cases,
  Option-cases, text_eq_sound,
}
use mathlib.Core.Option
use server_kit.Cache.Provider.{CacheProvider, until}

-- The promise of such a service: what can be looked up, and what issuing and redeeming change of it.
pub record SingleUse (Payload : Type 0) : Type 1 where
  pub State : Type 0
  pub peek : ℕ → Text → State → Option Payload
  pub redeem : ℕ → Text → State → State × Option Payload
  pub redeem_finds : (now : ℕ) (id : Text) (s : State) → (redeem now id s).1 ≡ peek now id s
  pub peek_redeem :
      (now t : ℕ) (id other : Text) (s : State)
      → now ≤ t
      → peek t other (redeem now id s).0 ≡ (if text_eq id other then none else peek t other s)

text_eq-append : (p a b : Text) → text_eq (p ++ a) (p ++ b) ≡ text_eq a b
text_eq-append [] a b = refl
text_eq-append (x ∷ p) a b = rw (==_refl x) (text_eq-append p a b)

-- Texts kept in a cache under a prefix and the id.
module _ {V P : Type 0} (cache : CacheProvider V) (prefix : Text) (read : V → P) where
  -- A text that is looked up, and deleted if it is there.
  abbrev pub taken : ℕ → Text → cache.State → cache.State × Option P
  taken now id s = elim (cache.get now (prefix ++ id) s) [
    | none ↦ (s, none)
    | some data' ↦ ((cache.delete now (prefix ++ id) s).0, some (read data'))
  ]

  pub taken-finds :
      (now : ℕ) (id : Text) (s : cache.State)
      → (taken now id s).1 ≡ Option.map read (cache.get now (prefix ++ id) s)
  taken-finds now id s = elim (Option-cases (cache.get now (prefix ++ id) s)) [
    | inl missing ↦ rw (missing, taken) refl
    | inr (v, found) ↦ rw (found, taken) refl
  ]

  pub get-taken :
      (now t : ℕ) (id other : Text) (s : cache.State)
      → now ≤ t
      → Option.map read (cache.get t (prefix ++ other) (taken now id s).0)
        ≡ (if text_eq id other then none else Option.map read (cache.get t (prefix ++ other) s))
  get-taken now t id other s h = elim (Option-cases (cache.get now (prefix ++ id) s)) [
    | inl missing ↦ elim (Bool-cases (text_eq id other)) [
      | inr differ ↦ rw (missing, differ, taken) refl
      | inl same ↦
          let gone = cache.get_expired now t (prefix ++ id) s h missing in
          let e = text_eq_sound id other same in
          rw (missing, same, taken)
            (ap (λ i. Option.map read (cache.get t (prefix ++ i) s)) (sym e)
              ∙ ap (Option.map read) gone)
    ]
    | inr (v, found) ↦
        rw
          (
            found,
            taken,
            cache.get_delete now t (prefix ++ id) (prefix ++ other) s h,
            text_eq-append prefix id other,
          )
          (elim (Bool-cases (text_eq id other)) [
            | inl same ↦ rw same refl
            | inr differ ↦ rw differ refl
          ])
  ]

  pub get-stored :
      (ttl now t : ℕ) (id other : Text) (v : V) (s : cache.State)
      → now ≤ t
      → t < now + ttl
      → Option.map read (cache.get t (prefix ++ other) (cache.set now (prefix ++ id) v ttl s)) ≡ (
          if text_eq id other
          then some (read v)
          else Option.map read (cache.get t (prefix ++ other) s))
  get-stored ttl now t id other v s h₁ h₂ =
      rw
        (
          cache.get_set now t (prefix ++ id) (prefix ++ other) v ttl s h₁,
          text_eq-append prefix id other,
        )
        (elim (Bool-cases (text_eq id other)) [
          | inl same ↦ rw same (ground (arith, cache.ttl_le_life ttl))
          | inr differ ↦ rw differ refl
        ])

-- However often an id is redeemed, and whatever else is redeemed between.
module _ {P : Type 0} (service : SingleUse P) where
  abbrev pub redeem_all : List (ℕ × Text) → service.State → List (Text × Option P)
  redeem_all [] s = []
  redeem_all ((now, id) ∷ rest) s =
      let (s₁, found) = service.redeem now id s in (id, found) ∷ redeem_all rest s₁

  abbrev pub success_count : Text → List (Text × Option P) → ℕ
  success_count id [] = 0
  success_count id ((other, found) ∷ rest) =
      let n = success_count id rest in if text_eq other id && is_some found then 1 + n else n

  abbrev pub Ascending : ℕ → List (ℕ × Text) → Type 0
  Ascending start [] = Unit
  Ascending start ((now, id) ∷ rest) = (start ≤ now) × Ascending now rest

  still_none :
      (now t : ℕ) (other id : Text) (s : service.State)
      → now ≤ t
      → service.peek t id s ≡ none
      → service.peek t id (service.redeem now other s).0 ≡ none
  still_none now t other id s h gone =
      rw (service.peek_redeem now t other id s h, gone)
        (elim (Bool-cases (text_eq other id)) [
          | inl same ↦ rw same refl
          | inr differ ↦ rw differ refl
        ])

  no_success :
      (id : Text) (start : ℕ) (attempts : List (ℕ × Text)) (s : service.State)
      → Ascending start attempts
      → ((t : ℕ) → start ≤ t → service.peek t id s ≡ none)
      → success_count id (redeem_all attempts s) ≡ 0
  no_success id start [] s order gone = refl
  no_success id start ((now, other) ∷ rest) s order gone =
      let (a, b) = order in
      let s₁ = (service.redeem now other s).0 in
      let rest_fails : success_count id (redeem_all rest s₁) ≡ 0 =
        no_success id now rest s₁ b
          (λ t h. still_none now t other id s h (gone t (ground arith))) in
      rw (service.redeem_finds now other s, rest_fails)
        (elim (Bool-cases (text_eq other id)) [
          | inr differ ↦ rw differ refl
          | inl same ↦
              let e = text_eq_sound other id same in
              let none_left : service.peek now other s ≡ none =
                ap (λ i. service.peek now i s) e ∙ gone now a in
              rw (same, none_left) refl
        ])

  -- In any sequence of redemptions, an id is redeemed with success at most once.
  pub redeem_all-once :
      (id : Text) (start : ℕ) (attempts : List (ℕ × Text)) (s : service.State)
      → Ascending start attempts
      → success_count id (redeem_all attempts s) ≤ 1
  redeem_all-once id start [] s order = ground arith
  redeem_all-once id start ((now, other) ∷ rest) s order =
      let (a, b) = order in
      let s₁ = (service.redeem now other s).0 in
      elim (Bool-cases (text_eq other id)) [
        | inr differ ↦ rw differ (redeem_all-once id now rest s₁ b)
        | inl same ↦
            let rest_fails : success_count id (redeem_all rest s₁) ≡ 0 =
              no_success id now rest s₁ b
                (λ t h. rw (service.peek_redeem now t other id s h, same) refl) in
            rw (same, rest_fails)
              (elim (Bool-cases (is_some (service.redeem now other s).1)) [
                | inl found ↦ rw found (ground arith)
                | inr missing ↦ rw missing (ground arith)
              ])
      ]
