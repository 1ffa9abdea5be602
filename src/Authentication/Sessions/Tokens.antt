-- ===== src/Authentication/Sessions/Tokens.antt =====
-- packages/authentication/src/authentication.session.service.ts: the tokens of a session, its rotation and
-- the exchange of refresh tokens. An operation gives the new state of the cache, its calls of the hooks, and
-- its result or the error that it throws.
mod Rotation
mod Claim
mod Refresh
mod Tests
use server_kit.Base.{
  ℕ, ◌+◌, ◌-◌, ◌/◌, ◌*◌, Text, codes, text_eq, ltb, Result, ok, err, Bool, true, false, not, ◌&&◌,
  if◌then◌else◌, List, [], ◌∷◌, ◌++◌, map, Option, some, none,
}
use mathlib.Core.Option
use server_kit.Authentication.Types.{AuthenticationSessionFactor}
use server_kit.Cache.Provider.{CacheProvider}
use server_kit.Authentication.Sessions.{
  AuthenticationSession, SessionRevocationReason, rotate, HookCall, on_session_created,
  on_session_refreshed, on_session_revoked, on_validation_failed, on_refresh_reuse_detected,
  AuthenticationToken, Unauthorized, invalid_token, JwtPayload, SessionService, get_session_key,
  get_consumed_key,
}
use server_kit.Authentication.Sessions.Operations.{filled, or_else}
use server_kit.Authentication.Sessions.Store.{
  State, serialize_session, get_session, get_subject_sessions, ensure_subject_session,
  remove_subject_session, add_jti_to_family, remove_session_from_family, revoke_family,
}

-- `texts.join(' ')`
abbrev pub join : List Text → Text
join [] = []
join (x ∷ []) = x
join (x ∷ y ∷ xs) = x ++ (32 ∷ join (y ∷ xs))

abbrev pub seconds_left : ℕ → Option ℕ → ℕ
seconds_left now none = 0
seconds_left now (some exp) = exp - now / 1000

abbrev pub consumed_ttl_seconds : ℕ → Option ℕ → ℕ
consumed_ttl_seconds now exp = let n = seconds_left now exp in if ltb n 60 then 60 else n

abbrev pub ids_of : Text → Option Text → Option Text → Option Text → Option (Text × Text × Text)
ids_of kind (some jti) (some family_id) (some session_token) =
    if text_eq kind (codes "refresh") then some (jti, family_id, session_token) else none
ids_of kind _ _ _ = none

module _ {Claims : Type 0} where
  -- The ids of a refresh token: its own, the family's and the session's.
  abbrev pub refresh_ids : Option (JwtPayload Claims) → Option (Text × Text × Text)
  refresh_ids none = none
  refresh_ids (some decoded) =
      ids_of (or_else decoded.kind []) (filled decoded.jti) (filled decoded.family_id)
        (filled decoded.session_token)

  abbrev pub exp_of : Option (JwtPayload Claims) → Option ℕ
  exp_of none = none
  exp_of (some payload) = payload.exp

module _ {Claims V : Type 0} (service : SessionService Claims V) where
  -- The refresh token and its family.
  pub mint_refresh_token :
      ℕ → Text → AuthenticationSession Claims → Result Unauthorized (Text × Text)
  mint_refresh_token now jti session = elim (filled session.family_id) [
    | none ↦ err invalid_token
    | some family_id ↦
        let payload : JwtPayload Claims = record {
          sub = none;
          session_token = some session.session_token;
          factors = [];
          claims = none;
          kind = some (codes "refresh");
          jti = some jti;
          family_id = some family_id;
          exp = none;
          scope = none;
        } in
        ok (
          (service.create now payload session.subject service.issuer service.audience
              service.refresh_expires_in).0,
          family_id,
        )
  ]

  pub issue_tokens_for_loaded_session :
      ℕ
      → Text
      → AuthenticationSession Claims
      → State service
      → State service × Result Unauthorized AuthenticationToken
  issue_tokens_for_loaded_session now jti session s =
      let payload : JwtPayload Claims = record {
        sub = none;
        session_token = some session.session_token;
        factors = session.factors;
        claims = some session.claims;
        kind = none;
        jti = none;
        family_id = none;
        exp = none;
        scope = none;
      } in
      let (token, decoded) =
        service.create now payload session.subject service.issuer service.audience
          service.default_expires_in in
      elim (mint_refresh_token now jti session) [
        | err e ↦ (s, err e)
        | ok (refresh, family_id) ↦ (
          add_jti_to_family service now family_id jti session.session_token s,
          ok (record {
            access_token = token;
            token_type = codes "Bearer";
            expires_in = seconds_left now decoded.exp;
            refresh_token = refresh;
            scope = join (or_else decoded.scope []);
          }),
        )
      ]

  pub issue_token_for_session :
      ℕ → Text → Text → State service → State service × Result Unauthorized AuthenticationToken
  issue_token_for_session now jti session_token s = elim (get_session service now session_token s) [
    | none ↦ (s, err invalid_token)
    | some session ↦ issue_tokens_for_loaded_session now jti session s
  ]

  -- The session that takes the place of another.
  pub rotated :
      ℕ
      → Text
      → Text
      → Claims
      → Option ℕ
      → AuthenticationSession Claims
      → AuthenticationSession Claims
  rotated now new_session_token family_id claim_overrides expiration old_session = record {
    session_token = new_session_token;
    subject = old_session.subject;
    issued_at = now;
    expires_at = now + or_else expiration service.default_expires_in;
    last_accessed_at = now;
    factors = old_session.factors;
    claims = service.deep_merge old_session.claims claim_overrides;
    family_id = some (or_else old_session.family_id family_id);
  }

  -- The cache after the new session is stored and the old one deleted.
  pub replace_session :
      ℕ
      → Text
      → AuthenticationSession Claims
      → AuthenticationSession Claims
      → ℕ
      → State service
      → State service
  replace_session now session_token old_session new_session lifetime s =
      let s₁ =
        service.cache.set now (get_session_key new_session.session_token)
          (serialize_session service new_session) lifetime s in
      let s₂ =
        ensure_subject_session service now old_session.subject new_session.session_token lifetime
          s₁ in
      let s₃ = (service.cache.delete now (get_session_key session_token) s₂).0 in
      let s₄ = remove_subject_session service now old_session.subject session_token s₃ in
      remove_session_from_family service now (or_else new_session.family_id []) session_token s₄

  -- `family_id` is the id of a new family, for a session that has none.
  pub rotate_session :
      ℕ
      → Text
      → Text
      → Text
      → Text
      → Claims
      → Option ℕ
      → State service
      → State service
        × List (HookCall Claims)
        × Result Unauthorized (AuthenticationSession Claims × AuthenticationToken)
  rotate_session now new_session_token family_id jti session_token claim_overrides expiration s =
      elim (get_session service now session_token s) [
        | none ↦ (s, [], err invalid_token)
        | some old_session ↦
            let new_session =
              rotated now new_session_token family_id claim_overrides expiration old_session in
            let s₁ =
              replace_session now session_token old_session new_session
                (or_else expiration service.default_expires_in) s in
            let (s₂, tokens) = issue_tokens_for_loaded_session now jti new_session s₁ in
            elim tokens [
              | err e ↦ (s₂, [], err e)
              | ok issued ↦ (
                s₂,
                on_session_created new_session ∷ on_session_revoked old_session rotate ∷ [],
                ok (new_session, issued),
              )
            ]
      ]

  -- The exchange of a refresh token whose id is claimed.
  pub exchange :
      ℕ
      → Text
      → Text
      → Text
      → State service
      → State service × List (HookCall Claims) × Result Unauthorized AuthenticationToken
  exchange now new_jti jti session_token s = elim (get_session service now session_token s) [
    | none ↦
        (s, on_validation_failed session_token (codes "session_not_found") ∷ [], err invalid_token)
    | some session ↦
        let (s₁, tokens) = issue_tokens_for_loaded_session now new_jti session s in
        elim tokens [
          | err e ↦ (s₁, [], err e)
          | ok issued ↦ (s₁, on_session_refreshed session jti ∷ [], ok issued)
        ]
  ]

  -- `new_jti` is the id of the next refresh token.
  pub refresh_session :
      ℕ
      → Text
      → Text
      → State service
      → State service × List (HookCall Claims) × Result Unauthorized AuthenticationToken
  refresh_session now new_jti refresh_token s =
      let decoded = service.decode now refresh_token service.issuer false service.audience in
      elim (refresh_ids decoded) [
        | none ↦
            (s, on_validation_failed [] (codes "refresh_token_invalid") ∷ [], err invalid_token)
        | some (jti, family_id, session_token) ↦
            let ttl = consumed_ttl_seconds now (exp_of decoded) * 1000 in
            let (s₁, claimed) =
              service.cache.add now (get_consumed_key jti) service.consumed_text (some ttl) s in
            let (s₂, calls) = revoke_family service now family_id s₁ in
            if claimed then exchange now new_jti jti session_token s₁ else (
              s₂,
              calls ++ (on_refresh_reuse_detected family_id jti session_token ∷ []),
              err invalid_token,
            )
      ]
