-- ===== src/Authentication/Challenges/Mfa.antt =====
-- packages/authentication/src/mfa/mfa.challenge.service.ts
use server_kit.Base.{
  ℕ, ◌+◌, ◌≤◌, ◌<◌, Text, codes, text_eq, if◌then◌else◌, List, [], ◌∷◌, ◌++◌, map, Option, some,
  none, ◌≡◌, refl, ap, ◌∙◌,
}
use mathlib.Core.Option
use server_kit.Cache.Provider.{CacheProvider}
use server_kit.Authentication.Types.{
  AuthenticationFactorKind, possession, AuthenticationFactorMethod, AuthenticationSessionFactor,
  TargetActor, Json, SerializedFactor, serialize_factor, deserialize_factor, to_unix_integer,
  from_seconds, whole_second, whole_factor,
}
use server_kit.Authentication.Challenges.{
  SingleUse, taken-finds, get-taken, get-stored, redeem_all, success_count, Ascending,
  redeem_all-once,
}

pub record MfaEligibleFactor : Type 0 where
  pub method : AuthenticationFactorMethod
  pub method_id : Text
  pub kind : AuthenticationFactorKind
  pub label : Option Text

pub record MfaChallengePayload : Type 0 where
  pub challenge_id : Text
  pub actor : TargetActor
  pub primary_factor : AuthenticationSessionFactor
  pub eligible_factors : List MfaEligibleFactor
  pub issued_at : ℕ
  pub expires_at : ℕ

pub record SerializedEligibleFactor : Type 0 where
  pub method : AuthenticationFactorMethod
  pub method_id : Text
  pub kind : Option AuthenticationFactorKind
  pub label : Option Text

pub record MfaChallengePayloadShape : Type 0 where
  pub challenge_id : Text
  pub actor : TargetActor
  pub primary_factor : SerializedFactor
  pub eligible_factors : List SerializedEligibleFactor
  pub issued_at : ℕ
  pub expires_at : ℕ

abbrev pub serialize_eligible : MfaEligibleFactor → SerializedEligibleFactor
serialize_eligible factor = record {
  method = factor.method;
  method_id = factor.method_id;
  kind = some factor.kind;
  label = factor.label;
}

abbrev default_kind : Option AuthenticationFactorKind → AuthenticationFactorKind
default_kind none = possession
default_kind (some kind) = kind

abbrev pub deserialize_eligible : SerializedEligibleFactor → MfaEligibleFactor
deserialize_eligible factor = record {
  method = factor.method;
  method_id = factor.method_id;
  kind = default_kind factor.kind;
  label = factor.label;
}

unfoldable pub get_key : Text → Text
get_key challenge_id = codes "mfa_challenge_" ++ challenge_id

abbrev pub shape_of : MfaChallengePayload → MfaChallengePayloadShape
shape_of payload = record {
  challenge_id = payload.challenge_id;
  actor = payload.actor;
  primary_factor = serialize_factor payload.primary_factor;
  eligible_factors = map serialize_eligible payload.eligible_factors;
  issued_at = to_unix_integer payload.issued_at;
  expires_at = to_unix_integer payload.expires_at;
}

abbrev pub payload_of : MfaChallengePayloadShape → MfaChallengePayload
payload_of shape = record {
  challenge_id = shape.challenge_id;
  actor = shape.actor;
  primary_factor = deserialize_factor shape.primary_factor;
  eligible_factors = map deserialize_eligible shape.eligible_factors;
  issued_at = from_seconds shape.issued_at;
  expires_at = from_seconds shape.expires_at;
}

module _ {V : Type 0} (json : Json V MfaChallengePayloadShape) where
  pub serialize : MfaChallengePayload → V
  serialize payload = json.stringify (shape_of payload)

  unfoldable pub deserialize : V → MfaChallengePayload
  deserialize data' = payload_of (json.parse data')

module _ {V : Type 0} (cache : CacheProvider V) (json : Json V MfaChallengePayloadShape) where
  -- `ttl` is the service's option, and the challenge id is 32 random bytes in base64url.
  pub issue :
      ℕ
      → ℕ
      → Text
      → TargetActor
      → AuthenticationSessionFactor
      → List MfaEligibleFactor
      → cache.State
      → cache.State × MfaChallengePayload
  issue ttl now challenge_id actor primary_factor eligible_factors s =
      let payload : MfaChallengePayload = record {
        challenge_id = challenge_id;
        actor = actor;
        primary_factor = primary_factor;
        eligible_factors = eligible_factors;
        issued_at = now;
        expires_at = now + ttl;
      } in
      (cache.set now (get_key challenge_id) (serialize json payload) ttl s, payload)

  pub peek : ℕ → Text → cache.State → Option MfaChallengePayload
  peek now challenge_id s = Option.map (deserialize json) (cache.get now (get_key challenge_id) s)

  unfoldable pub redeem : ℕ → Text → cache.State → cache.State × Option MfaChallengePayload
  redeem now challenge_id s = elim (cache.get now (get_key challenge_id) s) [
    | none ↦ (s, none)
    | some data' ↦ ((cache.delete now (get_key challenge_id) s).0, some (deserialize json data'))
  ]

-- What a stored challenge is read back as: its times in whole seconds.
abbrev pub whole_payload : MfaChallengePayload → MfaChallengePayload
whole_payload payload = record payload {
  primary_factor = whole_factor payload.primary_factor;
  issued_at = whole_second payload.issued_at;
  expires_at = whole_second payload.expires_at;
}

eligible_round_trip :
    (factors : List MfaEligibleFactor)
    → map deserialize_eligible (map serialize_eligible factors) ≡ factors
eligible_round_trip [] = refl
eligible_round_trip (factor ∷ factors) = ap (◌∷◌ factor) (eligible_round_trip factors)

module _ {V : Type 0} (cache : CacheProvider V) (json : Json V MfaChallengePayloadShape) where
  deserialize-serialize :
      (payload : MfaChallengePayload)
      → deserialize json (serialize json payload) ≡ whole_payload payload
  unfolding serialize deserialize
  deserialize-serialize payload =
      rw (json.parse_stringify (shape_of payload), eligible_round_trip payload.eligible_factors)
        refl

  pub redeem-finds :
      (now : ℕ) (id : Text) (s : cache.State)
      → (redeem cache json now id s).1 ≡ peek cache json now id s
  unfolding redeem peek get_key
  redeem-finds now id s = taken-finds cache (codes "mfa_challenge_") (deserialize json) now id s

  pub peek-redeem :
      (now t : ℕ) (id other : Text) (s : cache.State)
      → now ≤ t
      → peek cache json t other (redeem cache json now id s).0
        ≡ (if text_eq id other then none else peek cache json t other s)
  unfolding redeem peek get_key
  peek-redeem now t id other s h =
      get-taken cache (codes "mfa_challenge_") (deserialize json) now t id other s h

  abbrev pub mfa_single_use : SingleUse MfaChallengePayload
  mfa_single_use = record {
    State = cache.State;
    peek = peek cache json;
    redeem = redeem cache json;
    redeem_finds = redeem-finds;
    peek_redeem = peek-redeem;
  }

  -- Until its time is over, a challenge that was issued is looked up as what was issued, its times in
  -- whole seconds; every other challenge is looked up as before.
  pub peek-issue :
      (ttl now t : ℕ) (id other : Text) (actor : TargetActor)
      (primary_factor : AuthenticationSessionFactor) (eligible_factors : List MfaEligibleFactor)
      (s : cache.State)
      → now ≤ t
      → t < now + ttl
      → let (s₁, payload) = issue cache json ttl now id actor primary_factor eligible_factors s in
        peek cache json t other s₁
        ≡ (if text_eq id other then some (whole_payload payload) else peek cache json t other s)
  unfolding issue peek get_key
  peek-issue ttl now t id other actor primary_factor eligible_factors s h₁ h₂ =
      let payload = (issue cache json ttl now id actor primary_factor eligible_factors s).1 in
      get-stored cache (codes "mfa_challenge_") (deserialize json) ttl now t id other
        (serialize json payload) s h₁ h₂
      ∙ ap (λ p. if text_eq id other then some p else peek cache json t other s)
          (deserialize-serialize payload)

  -- In any sequence of redemptions in the order of time, a challenge is redeemed with success at
  -- most once.
  pub mfa_single_use-once :
      (id : Text) (start : ℕ) (attempts : List (ℕ × Text)) (s : cache.State)
      → Ascending mfa_single_use start attempts
      → success_count mfa_single_use id (redeem_all mfa_single_use attempts s) ≤ 1
  mfa_single_use-once = redeem_all-once mfa_single_use
