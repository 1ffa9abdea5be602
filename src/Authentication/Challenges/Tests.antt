-- ===== src/Authentication/Challenges/Tests.antt =====
-- The challenge services over the cache in memory, with the shapes themselves for texts.
use server_kit.Base.{
  ℕ, ◌≤◌, Text, codes, text_eq, if◌then◌else◌, List, [], ◌∷◌, Option, some, none, ◌≡◌, refl, arith,
}
use mathlib.Core.Option
use server_kit.Cache.Provider.{CacheProvider}
use server_kit.Cache.Memory.{memory_cache}
use server_kit.Authentication.Types.{
  possession, knowledge, AuthenticationSessionFactor, TargetActor, Json, password_reset,
  reset_password,
}
use server_kit.Authentication.Types
use server_kit.Authentication.Challenges.{redeem_all, success_count}
use server_kit.Authentication.Challenges.Mfa
use server_kit.Authentication.Challenges.RecoveryChallenge
use server_kit.Authentication.Challenges.RecoverySession

abbrev same_text : (S : Type 0) → Json S S
same_text S = record { stringify = λ s. s; parse = λ s. s; parse_stringify = λ s. refl }

abbrev actor : TargetActor
actor = record { kind = codes "user"; actor_id = codes "u1"; organization_id = none }

abbrev password_factor : AuthenticationSessionFactor
password_factor = record {
  issued_at = 5250;
  authenticated_at = 5999;
  method = Types.password;
  method_id = codes "p";
  kind = knowledge;
}

abbrev phone_factor : Mfa.MfaEligibleFactor
phone_factor = record {
  method = Types.AuthenticationFactorMethod.phone;
  method_id = codes "t";
  kind = possession;
  label = none;
}

abbrev mfa_json : Json Mfa.MfaChallengePayloadShape Mfa.MfaChallengePayloadShape
mfa_json = same_text Mfa.MfaChallengePayloadShape

abbrev mfa_cache : CacheProvider Mfa.MfaChallengePayloadShape
mfa_cache = memory_cache Mfa.MfaChallengePayloadShape

peek-issue_example :
    let (s₁, payload) =
      Mfa.issue mfa_cache mfa_json 300000 6100
        (codes "a")
        actor
        password_factor
        (phone_factor ∷ [])
        [] in
    Mfa.peek mfa_cache mfa_json 9000 (codes "a") s₁ ≡ (
      if text_eq (codes "a") (codes "a")
      then some (Mfa.whole_payload payload)
      else Mfa.peek mfa_cache mfa_json 9000 (codes "a") [])
peek-issue_example =
    Mfa.peek-issue mfa_cache mfa_json 300000 6100 9000 (codes "a") (codes "a") actor password_factor
      (phone_factor ∷ []) [] (omega arith) (omega arith)

abbrev attempts : List (ℕ × Text)
attempts = (7000, codes "a") ∷ (7000, codes "b") ∷ (8000, codes "a") ∷ []

abbrev issued : List (Text × (Mfa.MfaChallengePayloadShape × Option ℕ))
issued =
    (
      codes "mfa_challenge_a",
      (
        Mfa.shape_of (record {
          challenge_id = codes "a";
          actor = actor;
          primary_factor = password_factor;
          eligible_factors = [];
          issued_at = 6100;
          expires_at = 306100;
        }),
        some 307000,
      ),
    )
    ∷ []

one_success :
    success_count
      (Mfa.mfa_single_use mfa_cache mfa_json)
      (codes "a")
      (redeem_all (Mfa.mfa_single_use mfa_cache mfa_json) attempts issued)
    ≡ 1
unfolding Mfa.redeem Mfa.get_key Mfa.deserialize
one_success = refl

mfa_single_use-once_example :
    success_count
      (Mfa.mfa_single_use mfa_cache mfa_json)
      (codes "a")
      (redeem_all (Mfa.mfa_single_use mfa_cache mfa_json) attempts issued)
    ≤ 1
mfa_single_use-once_example =
    Mfa.mfa_single_use-once mfa_cache mfa_json (codes "a") 6500 attempts issued
      (omega arith, (omega arith, (omega arith, tt)))

abbrev recovery_json :
    Json RecoverySession.RecoverySessionPayloadShape RecoverySession.RecoverySessionPayloadShape
recovery_json = same_text RecoverySession.RecoverySessionPayloadShape

abbrev recovery_cache : CacheProvider RecoverySession.RecoverySessionPayloadShape
recovery_cache = memory_cache RecoverySession.RecoverySessionPayloadShape

abbrev verified : RecoverySession.VerifiedVia
verified = record { channel = Types.recovery_code; method_id = none }

redeem-issue_example :
    let (s₁, payload) =
      RecoverySession.issue recovery_cache recovery_json 600000 6100
        (codes "r")
        actor
        password_reset
        verified
        (reset_password ∷ [])
        [] in
    (RecoverySession.redeem recovery_cache recovery_json 9000 (codes "r") s₁).1
    ≡ some (RecoverySession.whole_payload payload)
redeem-issue_example =
    RecoverySession.redeem-issue recovery_cache recovery_json 600000 6100 9000 (codes "r") actor
      password_reset verified (reset_password ∷ []) [] (omega arith) (omega arith)

abbrev session_cache_with : List (Text × (RecoverySession.RecoverySessionPayloadShape × Option ℕ))
session_cache_with =
    (
      codes "recovery_session_a",
      (
        RecoverySession.shape_of (record {
          recovery_session_token = codes "a";
          actor = actor;
          reason = password_reset;
          verified_via = verified;
          granted_actions = [];
          issued_at = 6100;
          expires_at = 306100;
        }),
        some 307000,
      ),
    )
    ∷ []

recovery_session_single_use-once_example :
    success_count
      (RecoverySession.recovery_session_single_use recovery_cache recovery_json)
      (codes "a")
      (redeem_all
        (RecoverySession.recovery_session_single_use recovery_cache recovery_json)
        attempts
        session_cache_with)
    ≤ 1
recovery_session_single_use-once_example =
    RecoverySession.recovery_session_single_use-once recovery_cache recovery_json (codes "a") 6500
      attempts session_cache_with (omega arith, (omega arith, (omega arith, tt)))

abbrev challenge_cache : CacheProvider RecoveryChallenge.RecoveryChallengePayloadShape
challenge_cache = memory_cache RecoveryChallenge.RecoveryChallengePayloadShape

abbrev challenge_json :
    Json RecoveryChallenge.RecoveryChallengePayloadShape
      RecoveryChallenge.RecoveryChallengePayloadShape
challenge_json = same_text RecoveryChallenge.RecoveryChallengePayloadShape

-- The challenge is over at 606100 and lives until 1200000 after a selection.
abbrev challenges : List (Text × (RecoveryChallenge.RecoveryChallengePayloadShape × Option ℕ))
challenges =
    (
      codes "recovery_challenge_a",
      (
        RecoveryChallenge.shape_of (record {
          challenge_id = codes "a";
          actor = none;
          reason = password_reset;
          eligible_channels = [];
          selected_channel = none;
          channel_challenge_id = none;
          issued_at = 6100;
          expires_at = 606100;
        }),
        some 606100,
      ),
    )
    ∷ []

attach_channel_selection-peek_example :
    RecoveryChallenge.peek challenge_cache challenge_json 900000
      (codes "a")
      (RecoveryChallenge.attach_channel_selection challenge_cache challenge_json 600000 600000
        (codes "a")
        Types.recovery_code
        none
        challenges).0
    ≡ (if text_eq (codes "a") (codes "a")
        then Option.map
            (λ found. RecoveryChallenge.whole_payload (record found {
              selected_channel = some Types.recovery_code;
              channel_challenge_id = none;
            }))
            (RecoveryChallenge.peek challenge_cache challenge_json 600000 (codes "a") challenges)
        else RecoveryChallenge.peek challenge_cache challenge_json 900000 (codes "a") challenges)
attach_channel_selection-peek_example =
    RecoveryChallenge.attach_channel_selection-peek challenge_cache challenge_json 600000 600000
      900000 (codes "a") (codes "a") Types.recovery_code none challenges (omega arith) (omega arith)
