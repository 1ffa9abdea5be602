-- ===== src/Authentication/Challenges/RecoverySession.antt =====
-- packages/authentication/src/recovery/recovery.session.service.ts
use server_kit.Base.{
  ℕ, ◌+◌, ◌≤◌, ◌<◌, Text, codes, text_eq, text_eq_refl, if◌then◌else◌, List, ◌++◌, Option, some,
  none, ◌≡◌, refl, ◌∙◌,
}
use mathlib.Core.Option
use server_kit.Cache.Provider.{CacheProvider}
use server_kit.Authentication.Types.{
  TargetActor, Json, to_unix_integer, from_seconds, whole_second, RecoveryReason, RecoveryChannel,
  RecoveryActionKind,
}
use server_kit.Authentication.Challenges.{
  SingleUse, taken-finds, get-taken, get-stored, redeem_all, success_count, Ascending,
  redeem_all-once,
}

pub record VerifiedVia : Type 0 where
  pub channel : RecoveryChannel
  pub method_id : Option Text

pub record RecoverySessionPayload : Type 0 where
  pub recovery_session_token : Text
  pub actor : TargetActor
  pub reason : RecoveryReason
  pub verified_via : VerifiedVia
  pub granted_actions : List RecoveryActionKind
  pub issued_at : ℕ
  pub expires_at : ℕ

pub record RecoverySessionPayloadShape : Type 0 where
  pub recovery_session_token : Text
  pub actor : TargetActor
  pub reason : RecoveryReason
  pub verified_via : VerifiedVia
  pub granted_actions : List RecoveryActionKind
  pub issued_at : ℕ
  pub expires_at : ℕ

pub get_key : Text → Text
get_key recovery_session_token = codes "recovery_session_" ++ recovery_session_token

abbrev pub shape_of : RecoverySessionPayload → RecoverySessionPayloadShape
shape_of payload = record {
  recovery_session_token = payload.recovery_session_token;
  actor = payload.actor;
  reason = payload.reason;
  verified_via = payload.verified_via;
  granted_actions = payload.granted_actions;
  issued_at = to_unix_integer payload.issued_at;
  expires_at = to_unix_integer payload.expires_at;
}

abbrev pub payload_of : RecoverySessionPayloadShape → RecoverySessionPayload
payload_of shape = record {
  recovery_session_token = shape.recovery_session_token;
  actor = shape.actor;
  reason = shape.reason;
  verified_via = shape.verified_via;
  granted_actions = shape.granted_actions;
  issued_at = from_seconds shape.issued_at;
  expires_at = from_seconds shape.expires_at;
}

module _ {V : Type 0} (json : Json V RecoverySessionPayloadShape) where
  pub serialize : RecoverySessionPayload → V
  serialize payload = json.stringify (shape_of payload)

  pub deserialize : V → RecoverySessionPayload
  deserialize data' = payload_of (json.parse data')

module _ {V : Type 0} (cache : CacheProvider V) (json : Json V RecoverySessionPayloadShape) where
  -- `ttl` is the service's option, and the id is 32 random bytes in base64url.
  pub issue :
      ℕ
      → ℕ
      → Text
      → TargetActor
      → RecoveryReason
      → VerifiedVia
      → List RecoveryActionKind
      → cache.State
      → cache.State × RecoverySessionPayload
  issue ttl now recovery_session_token actor reason verified_via granted_actions s =
      let payload : RecoverySessionPayload = record {
        recovery_session_token = recovery_session_token;
        actor = actor;
        reason = reason;
        verified_via = verified_via;
        granted_actions = granted_actions;
        issued_at = now;
        expires_at = now + ttl;
      } in
      (cache.set now (get_key recovery_session_token) (serialize json payload) ttl s, payload)

  pub peek : ℕ → Text → cache.State → Option RecoverySessionPayload
  peek now recovery_session_token s =
      Option.map (deserialize json) (cache.get now (get_key recovery_session_token) s)

  pub redeem : ℕ → Text → cache.State → cache.State × Option RecoverySessionPayload
  redeem now recovery_session_token s = elim (cache.get now (get_key recovery_session_token) s) [
    | none ↦ (s, none)
    | some data' ↦
        ((cache.delete now (get_key recovery_session_token) s).0, some (deserialize json data'))
  ]

-- What is stored is read back with its times in whole seconds.
abbrev pub whole_payload : RecoverySessionPayload → RecoverySessionPayload
whole_payload payload = record payload {
  issued_at = whole_second payload.issued_at;
  expires_at = whole_second payload.expires_at;
}

module _ {V : Type 0} (cache : CacheProvider V) (json : Json V RecoverySessionPayloadShape) where
  deserialize-serialize :
      (payload : RecoverySessionPayload)
      → deserialize json (serialize json payload) ≡ whole_payload payload
  unfolding serialize deserialize
  deserialize-serialize payload = rw (json.parse_stringify (shape_of payload)) refl

  pub redeem-finds :
      (now : ℕ) (id : Text) (s : cache.State)
      → (redeem cache json now id s).1 ≡ peek cache json now id s
  unfolding redeem peek get_key
  redeem-finds now id s = taken-finds cache (codes "recovery_session_") (deserialize json) now id s

  pub peek-redeem :
      (now t : ℕ) (id other : Text) (s : cache.State)
      → now ≤ t
      → peek cache json t other (redeem cache json now id s).0
        ≡ (if text_eq id other then none else peek cache json t other s)
  unfolding redeem peek get_key
  peek-redeem now t id other s h =
      get-taken cache (codes "recovery_session_") (deserialize json) now t id other s h

  abbrev pub recovery_session_single_use : SingleUse RecoverySessionPayload
  recovery_session_single_use = record {
    State = cache.State;
    peek = peek cache json;
    redeem = redeem cache json;
    redeem_finds = redeem-finds;
    peek_redeem = peek-redeem;
  }

  -- Redeeming a recovery session that was issued earlier and is not over gives what was issued,
  -- its times in whole seconds.
  pub redeem-issue :
      (ttl now t : ℕ) (id : Text) (actor : TargetActor) (reason : RecoveryReason)
      (verified_via : VerifiedVia) (granted_actions : List RecoveryActionKind) (s : cache.State)
      → now ≤ t
      → t < now + ttl
      → let (s₁, payload) =
          issue cache json ttl now id actor reason verified_via granted_actions s in
        (redeem cache json t id s₁).1 ≡ some (whole_payload payload)
  unfolding issue peek get_key
  redeem-issue ttl now t id actor reason verified_via granted_actions s h₁ h₂ =
      let (s₁, payload) = issue cache json ttl now id actor reason verified_via granted_actions s in
      redeem-finds t id s₁
      ∙ get-stored cache (codes "recovery_session_") (deserialize json) ttl now t id id
          (serialize json payload) s h₁ h₂
      ∙ rw (text_eq_refl id, deserialize-serialize payload) refl

  -- In any sequence of redemptions in the order of time, a recovery session is redeemed with
  -- success at most once.
  pub recovery_session_single_use-once :
      (id : Text) (start : ℕ) (attempts : List (ℕ × Text)) (s : cache.State)
      → Ascending recovery_session_single_use start attempts
      → success_count recovery_session_single_use id
          (redeem_all recovery_session_single_use attempts s)
        ≤ 1
  recovery_session_single_use-once = redeem_all-once recovery_session_single_use
