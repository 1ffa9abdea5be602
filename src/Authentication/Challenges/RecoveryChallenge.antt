-- ===== src/Authentication/Challenges/RecoveryChallenge.antt =====
-- packages/authentication/src/recovery/recovery.challenge.service.ts
use server_kit.Base.{
  ℕ, ◌+◌, ◌≤◌, ◌<◌, Text, codes, text_eq, text_eq_sound, if◌then◌else◌, Bool-cases, Option-cases,
  List, ◌++◌, Option, some, none, ◌≡◌, refl, sym, ap, ◌∙◌, inl, inr,
}
use mathlib.Core.Option
use server_kit.Cache.Provider.{CacheProvider}
use server_kit.Authentication.Types.{
  TargetActor, Json, to_unix_integer, from_seconds, whole_second, RecoveryReason, RecoveryChannel,
}
use server_kit.Authentication.Challenges.{SingleUse, taken-finds, get-taken, get-stored}

pub record RecoveryEligibleChannel : Type 0 where
  pub channel : RecoveryChannel
  pub method_id : Option Text
  pub label : Option Text

pub record RecoveryChallengePayload : Type 0 where
  pub challenge_id : Text
  pub actor : Option TargetActor
  pub reason : RecoveryReason
  pub eligible_channels : List RecoveryEligibleChannel
  pub selected_channel : Option RecoveryChannel
  pub channel_challenge_id : Option Text
  pub issued_at : ℕ
  pub expires_at : ℕ

pub record RecoveryChallengePayloadShape : Type 0 where
  pub challenge_id : Text
  pub actor : Option TargetActor
  pub reason : RecoveryReason
  pub eligible_channels : List RecoveryEligibleChannel
  pub selected_channel : Option RecoveryChannel
  pub channel_challenge_id : Option Text
  pub issued_at : ℕ
  pub expires_at : ℕ

pub get_key : Text → Text
get_key challenge_id = codes "recovery_challenge_" ++ challenge_id

abbrev pub shape_of : RecoveryChallengePayload → RecoveryChallengePayloadShape
shape_of payload = record {
  challenge_id = payload.challenge_id;
  actor = payload.actor;
  reason = payload.reason;
  eligible_channels = payload.eligible_channels;
  selected_channel = payload.selected_channel;
  channel_challenge_id = payload.channel_challenge_id;
  issued_at = to_unix_integer payload.issued_at;
  expires_at = to_unix_integer payload.expires_at;
}

abbrev pub payload_of : RecoveryChallengePayloadShape → RecoveryChallengePayload
payload_of shape = record {
  challenge_id = shape.challenge_id;
  actor = shape.actor;
  reason = shape.reason;
  eligible_channels = shape.eligible_channels;
  selected_channel = shape.selected_channel;
  channel_challenge_id = shape.channel_challenge_id;
  issued_at = from_seconds shape.issued_at;
  expires_at = from_seconds shape.expires_at;
}

module _ {V : Type 0} (json : Json V RecoveryChallengePayloadShape) where
  pub serialize : RecoveryChallengePayload → V
  serialize payload = json.stringify (shape_of payload)

  pub deserialize : V → RecoveryChallengePayload
  deserialize data' = payload_of (json.parse data')

module _ {V : Type 0} (cache : CacheProvider V) (json : Json V RecoveryChallengePayloadShape) where
  -- `ttl` is the service's option, and the id is 32 random bytes in base64url.
  pub issue :
      ℕ
      → ℕ
      → Text
      → Option TargetActor
      → RecoveryReason
      → List RecoveryEligibleChannel
      → cache.State
      → cache.State × RecoveryChallengePayload
  issue ttl now challenge_id actor reason eligible_channels s =
      let payload : RecoveryChallengePayload = record {
        challenge_id = challenge_id;
        actor = actor;
        reason = reason;
        eligible_channels = eligible_channels;
        selected_channel = none;
        channel_challenge_id = none;
        issued_at = now;
        expires_at = now + ttl;
      } in
      (cache.set now (get_key challenge_id) (serialize json payload) ttl s, payload)

  pub peek : ℕ → Text → cache.State → Option RecoveryChallengePayload
  peek now challenge_id s = Option.map (deserialize json) (cache.get now (get_key challenge_id) s)

  pub redeem : ℕ → Text → cache.State → cache.State × Option RecoveryChallengePayload
  redeem now challenge_id s = elim (cache.get now (get_key challenge_id) s) [
    | none ↦ (s, none)
    | some data' ↦ ((cache.delete now (get_key challenge_id) s).0, some (deserialize json data'))
  ]

  pub attach_channel_selection :
      ℕ
      → ℕ
      → Text
      → RecoveryChannel
      → Option Text
      → cache.State
      → cache.State × Option RecoveryChallengePayload
  attach_channel_selection ttl now challenge_id selected_channel channel_challenge_id s =
      elim (peek now challenge_id s) [
        | none ↦ (s, none)
        | some existing ↦
            let updated : RecoveryChallengePayload = record existing {
              selected_channel = some selected_channel;
              channel_challenge_id = channel_challenge_id;
            } in
            (cache.set now (get_key challenge_id) (serialize json updated) ttl s, some updated)
      ]

-- What is stored is read back with its times in whole seconds.
abbrev pub whole_payload : RecoveryChallengePayload → RecoveryChallengePayload
whole_payload payload = record payload {
  issued_at = whole_second payload.issued_at;
  expires_at = whole_second payload.expires_at;
}

module _ {V : Type 0} (cache : CacheProvider V) (json : Json V RecoveryChallengePayloadShape) where
  deserialize-serialize :
      (payload : RecoveryChallengePayload)
      → deserialize json (serialize json payload) ≡ whole_payload payload
  unfolding serialize deserialize
  deserialize-serialize payload = rw (json.parse_stringify (shape_of payload)) refl

  pub redeem-finds :
      (now : ℕ) (id : Text) (s : cache.State)
      → (redeem cache json now id s).1 ≡ peek cache json now id s
  unfolding redeem peek get_key
  redeem-finds now id s =
      taken-finds cache (codes "recovery_challenge_") (deserialize json) now id s

  pub peek-redeem :
      (now t : ℕ) (id other : Text) (s : cache.State)
      → now ≤ t
      → peek cache json t other (redeem cache json now id s).0
        ≡ (if text_eq id other then none else peek cache json t other s)
  unfolding redeem peek get_key
  peek-redeem now t id other s h =
      get-taken cache (codes "recovery_challenge_") (deserialize json) now t id other s h

  abbrev pub recovery_challenge_single_use : SingleUse RecoveryChallengePayload
  recovery_challenge_single_use = record {
    State = cache.State;
    peek = peek cache json;
    redeem = redeem cache json;
    redeem_finds = redeem-finds;
    peek_redeem = peek-redeem;
  }

  -- A selection that is attached to a challenge lives for the time to live from then on, with whatever
  -- else the challenge held; an unknown challenge stays unknown.
  pub attach_channel_selection-peek :
      (ttl now t : ℕ) (id other : Text) (channel : RecoveryChannel) (sub_challenge : Option Text)
      (s : cache.State)
      → now ≤ t
      → t < now + ttl
      → peek cache json t other
          (attach_channel_selection cache json ttl now id channel sub_challenge s).0
        ≡ (if text_eq id other
            then Option.map
                (λ found. whole_payload (record found {
                  selected_channel = some channel;
                  channel_challenge_id = sub_challenge;
                }))
                (peek cache json now id s)
            else peek cache json t other s)
  unfolding attach_channel_selection peek get_key
  attach_channel_selection-peek ttl now t id other channel sub_challenge s h₁ h₂ =
      elim (Option-cases (cache.get now (get_key id) s)) [
        | inr (v, found) ↦
            let updated : RecoveryChallengePayload = record (deserialize json v) {
              selected_channel = some channel;
              channel_challenge_id = sub_challenge;
            } in
            rw (found, attach_channel_selection)
              (get-stored cache (codes "recovery_challenge_") (deserialize json) ttl now t id other
                  (serialize json updated) s h₁ h₂
                ∙ ap (λ p. if text_eq id other then some p else peek cache json t other s)
                    (deserialize-serialize updated))
        | inl missing ↦ elim (Bool-cases (text_eq id other)) [
          | inr differ ↦ rw (missing, differ, attach_channel_selection) refl
          | inl same ↦
              let gone = cache.get_expired now t (get_key id) s h₁ missing in
              rw (missing, same, attach_channel_selection)
                (ap (λ i. Option.map (deserialize json) (cache.get t (get_key i) s))
                    (sym (text_eq_sound id other same))
                  ∙ ap (Option.map (deserialize json)) gone)
        ]
      ]
