-- ===== src/Authentication/Sessions/Operations.antt =====
-- packages/authentication/src/authentication.session.service.ts: the creation, update, lookup and deletion
-- of sessions. An operation gives the new state of the cache, its calls of the hooks, and its result or the
-- error that it throws.
pub mod Sessions
use server_kit.Base.{
  ℕ, ◌+◌, ◌-◌, ◌/◌, ◌*◌, Text, codes, text_eq, ltb, Result, ok, err, Bool, true, false, not, ◌&&◌,
  if◌then◌else◌, List, [], ◌∷◌, ◌++◌, map, Option, some, none,
}
use mathlib.Core.Option
use server_kit.Authentication.Types.{AuthenticationSessionFactor}
use server_kit.Cache.Provider.{CacheProvider}
use server_kit.Authentication.Sessions.{
  AuthenticationSession, SessionRevocationReason, rotate, HookCall, on_session_created,
  on_session_refreshed, on_session_revoked, on_validation_failed, on_refresh_reuse_detected,
  AuthenticationToken, Unauthorized, invalid_token, JwtPayload, SessionService, get_session_key,
  get_consumed_key,
}
use server_kit.Authentication.Sessions.Store.{
  State, serialize_session, get_session, get_subject_sessions, ensure_subject_session,
  remove_subject_session, add_jti_to_family, remove_session_from_family, revoke_family,
}

-- A text that JavaScript takes for true.
abbrev pub filled : Option Text → Option Text
filled (some (c ∷ cs)) = some (c ∷ cs)
filled _ = none

abbrev pub or_else : {A : Type 0} → Option A → A → A
or_else none a = a
or_else (some b) a = b

abbrev pub is_subject : Text → Option Text → Bool
is_subject subject none = false
is_subject subject (some sub) = text_eq subject sub

-- The factor of the same id is verified again; a new one is added.
abbrev pub upsert_factor :
    AuthenticationSessionFactor
    → List AuthenticationSessionFactor
    → List AuthenticationSessionFactor
upsert_factor factor [] = factor ∷ []
upsert_factor factor (x ∷ xs) =
    let rest = upsert_factor factor xs in
    if text_eq x.method_id factor.method_id
    then record x { authenticated_at = factor.authenticated_at } ∷ xs
    else x ∷ rest

module _ {Claims : Type 0} where
  abbrev pub upsert :
      Option AuthenticationSessionFactor
      → AuthenticationSession Claims
      → AuthenticationSession Claims
  upsert none session = session
  upsert (some factor) session = record session { factors = upsert_factor factor session.factors }

  -- The sessions that were found.
  abbrev pub present :
      List (Option (AuthenticationSession Claims)) → List (AuthenticationSession Claims)
  present [] = []
  present (none ∷ sessions) = present sessions
  present (some session ∷ sessions) = session ∷ present sessions

module _ {Claims V : Type 0} (service : SessionService Claims V) where
  abbrev pub merge : Option Claims → AuthenticationSession Claims → AuthenticationSession Claims
  merge none session = session
  merge (some claims) session = record session { claims = service.deep_merge session.claims claims }

  unfoldable pub create_session :
      ℕ
      → Text
      → Text
      → Text
      → Claims
      → List AuthenticationSessionFactor
      → Option ℕ
      → State service
      → State service × List (HookCall Claims) × AuthenticationSession Claims
  create_session now session_token family_id subject claims factors expiration s =
      let lifetime = or_else expiration service.default_expires_in in
      let session : AuthenticationSession Claims = record {
        session_token = session_token;
        subject = subject;
        issued_at = now;
        expires_at = now + lifetime;
        last_accessed_at = now;
        factors = factors;
        claims = claims;
        family_id = some family_id;
      } in
      let s₁ =
        service.cache.set now (get_session_key session_token) (serialize_session service session)
          lifetime s in
      let s₂ = ensure_subject_session service now subject session_token lifetime s₁ in
      (s₂, on_session_created session ∷ [], session)

  pub update_session :
      ℕ
      → Text
      → Text
      → Option ℕ
      → Option Claims
      → Option AuthenticationSessionFactor
      → State service
      → State service × Result Unauthorized (AuthenticationSession Claims)
  update_session now session_token subject expiration claims factor s =
      elim (get_session service now session_token s) [
        | none ↦ (s, err invalid_token)
        | some session ↦
            let lifetime = or_else expiration service.default_expires_in in
            let updated : AuthenticationSession Claims =
              record (upsert factor (merge claims session)) {
                expires_at = now + lifetime;
                last_accessed_at = now;
              } in
            let s₁ =
              service.cache.update now (get_session_key session_token)
                (serialize_session service updated) (some lifetime) s in
            let s₂ = ensure_subject_session service now session.subject session_token lifetime s₁ in
            if text_eq session.subject subject then (s₂, ok updated) else (s, err invalid_token)
      ]

  -- `fresh_token` and `family_id` are the ids of a new session.
  pub create_or_update_session :
      ℕ
      → Text
      → Text
      → Option Text
      → Text
      → Claims
      → AuthenticationSessionFactor
      → Option ℕ
      → State service
      → State service × List (HookCall Claims) × Result Unauthorized (AuthenticationSession Claims)
  create_or_update_session now fresh_token family_id session_token subject claims factor expiration
        s =
      let (s₁, calls, session) =
        create_session now fresh_token family_id subject claims (factor ∷ []) expiration s in
      elim (filled session_token) [
        | none ↦ (s₁, calls, ok session)
        | some token ↦ elim (get_session service now token s) [
          | none ↦ (s₁, calls, ok session)
          | some found ↦
              let (s₂, updated) =
                update_session now token subject expiration (some claims) (some factor) s in
              (s₂, [], updated)
        ]
      ]

  unfoldable pub lookup_session_from_jwt :
      ℕ
      → Text
      → Bool
      → State service
      → List (HookCall Claims)
        × Result Unauthorized (AuthenticationSession Claims × JwtPayload Claims)
  lookup_session_from_jwt now jwt ignore_jwt_expiration s =
      elim (service.decode now jwt service.issuer ignore_jwt_expiration service.audience) [
        | none ↦ (on_validation_failed [] (codes "jwt_decode_failed") ∷ [], err invalid_token)
        | some payload ↦
            let session_token = or_else payload.session_token [] in
            elim (get_session service now session_token s) [
              | none ↦ (
                on_validation_failed session_token (codes "session_not_found") ∷ [],
                err invalid_token,
              )
              | some session ↦
                  if is_subject session.subject payload.sub then ([], ok (session, payload)) else (
                    on_validation_failed session_token (codes "subject_mismatch") ∷ [],
                    err invalid_token,
                  )
            ]
      ]

  abbrev pub leave_family : ℕ → Option Text → Text → State service → State service
  leave_family now none session_token s = s
  leave_family now (some family_id) session_token s =
      remove_session_from_family service now family_id session_token s

  pub delete_session :
      ℕ → Text → SessionRevocationReason → State service → State service × List (HookCall Claims)
  delete_session now session_token reason s = elim (get_session service now session_token s) [
    | none ↦ (s, [])
    | some session ↦
        let s₁ = (service.cache.delete now (get_session_key session_token) s).0 in
        let s₂ = remove_subject_session service now session.subject session_token s₁ in
        let s₃ = leave_family now (filled session.family_id) session_token s₂ in
        (s₃, on_session_revoked session reason ∷ [])
  ]

  unfoldable pub get_sessions_for_subject :
      ℕ → Text → State service → List (AuthenticationSession Claims)
  get_sessions_for_subject now subject s =
      present (map (λ x. get_session service now x s) (get_subject_sessions service now subject s))
