-- ===== src/Authentication/Sessions/Tokens/Rotation.antt =====
-- A session that takes the place of another.
use server_kit.Base.{
  ℕ, ◌+◌, ◌≤◌, ◌<◌, Text, text_eq, Result, ok, err, if◌then◌else◌, Option-cases, [], Option, some,
  none, ◌≡◌, ◌⊎◌, refl, ap, ◌∙◌, inl, inr,
}
use server_kit.Authentication.Sessions.{
  AuthenticationSession, SessionService, get_session_key, whole_session,
}
use server_kit.Authentication.Sessions.Store.{
  State, serialize_session, get_session, ensure_subject_session, remove_subject_session,
}
use server_kit.Authentication.Sessions.Store.Frame.{IsToken}
use server_kit.Authentication.Sessions.Store.Reads.{
  get_session-set, get_session-delete, get_session-ensure, get_session-remove, get_session-leave,
  get_session-join,
}
use server_kit.Authentication.Sessions.Operations.{or_else, filled}
use server_kit.Authentication.Sessions.Tokens.{
  issue_tokens_for_loaded_session, mint_refresh_token, rotated, replace_session, rotate_session,
}

pub Result-cases :
    {E A : Type 0} (r : Result E A) → ((e : E) × (r ≡ err e)) ⊎ ((a : A) × (r ≡ ok a))
Result-cases (ok a) = inr (a, refl)
Result-cases (err e) = inl (e, refl)

module _ {Claims V : Type 0} (service : SessionService Claims V) where
  get_session-replace :
      (now t lifetime : ℕ) (token other : Text) (old new : AuthenticationSession Claims)
      (s : State service)
      → now ≤ t
      → t < now + lifetime
      → IsToken other
      → get_session service t other (replace_session service now token old new lifetime s) ≡ (
          if text_eq token other
          then none
          else (if text_eq new.session_token other
              then some (whole_session new)
              else get_session service t other s))
  unfolding replace_session
  get_session-replace now t lifetime token other old new s h₁ h₂ fresh =
      let s₁ =
        service.cache.set now (get_session_key new.session_token) (serialize_session service new)
          lifetime s in
      let s₂ = ensure_subject_session service now old.subject new.session_token lifetime s₁ in
      let s₃ = (service.cache.delete now (get_session_key token) s₂).0 in
      let s₄ = remove_subject_session service now old.subject token s₃ in
      get_session-leave service now t (or_else new.family_id []) token other s₄ h₁
      ∙ get_session-remove service now t old.subject token other s₃ h₁ fresh
      ∙ get_session-delete service now t token other s₂ h₁
      ∙ ap (λ o. if text_eq token other then none else o)
          (get_session-ensure service now t old.subject new.session_token other lifetime s₁ h₁ fresh
            ∙ get_session-set service now t lifetime new.session_token other new s h₁ h₂)

  pub get_session-issue :
      (now t : ℕ) (jti other : Text) (session : AuthenticationSession Claims) (s : State service)
      → now ≤ t
      → get_session service t other (issue_tokens_for_loaded_session service now jti session s).0
        ≡ get_session service t other s
  unfolding issue_tokens_for_loaded_session mint_refresh_token
  get_session-issue now t jti other session s h = elim (Option-cases (filled session.family_id)) [
    | inl missing ↦ rw (missing, issue_tokens_for_loaded_session, mint_refresh_token) refl
    | inr (family_id, found) ↦
        rw (found, issue_tokens_for_loaded_session, mint_refresh_token)
          (get_session-join service now t family_id jti session.session_token other s h)
  ]

  rotate_session-state :
      (now : ℕ) (new_token family_id jti token : Text) (overrides : Claims) (expiration : Option ℕ)
      (s : State service) (old : AuthenticationSession Claims)
      → get_session service now token s ≡ some old
      → let new = rotated service now new_token family_id overrides expiration old in
        (rotate_session service now new_token family_id jti token overrides expiration s).0
        ≡ (issue_tokens_for_loaded_session service now jti new (
            replace_session service now token old new
              (or_else expiration service.default_expires_in)
              s)).0
  unfolding rotate_session
  rotate_session-state now new_token family_id jti token overrides expiration s old found =
      rw (found, rotate_session)
        (elim (Result-cases
          (issue_tokens_for_loaded_session service now jti
            (rotated service now new_token family_id overrides expiration old)
            (replace_session service now token old
              (rotated service now new_token family_id overrides expiration old)
              (or_else expiration service.default_expires_in) s)).1) [
                | inl (e, failed) ↦ rw failed refl
                | inr (tokens, issued) ↦ rw issued refl
              ])

  -- The family that a session goes on in: its own, or a fresh one if it has none.
  abbrev pub family_kept : Option Text → Text → Option Text
  family_kept none fresh = some fresh
  family_kept (some own) fresh = some own

  kept_family :
      (own : Option Text) (fresh : Text) → some (or_else own fresh) ≡ family_kept own fresh
  kept_family none fresh = refl
  kept_family (some own) fresh = refl

  -- The rotation of a session that is held: from then on the old token finds nothing; until its
  -- lifetime is over, the new one finds a session issued now with the subject and the factors of the
  -- old one, its claims merged with the overrides, and its family, or a fresh one if it had none, all
  -- times in whole seconds; and every other session is found as before. The tokens are such that no
  -- subject has its index under their keys.
  pub get_session-rotate_session :
      (now t : ℕ) (new_token family_id jti token other : Text) (overrides : Claims)
      (expiration : Option ℕ) (s : State service) (old : AuthenticationSession Claims)
      → now ≤ t
      → t < now + or_else expiration service.default_expires_in
      → IsToken other
      → get_session service now token s ≡ some old
      → get_session service t other
          (rotate_session service now new_token family_id jti token overrides expiration s).0
        ≡ (if text_eq token other
            then none
            else (if text_eq new_token other
                then some (
                    whole_session (record {
                      session_token = new_token;
                      subject = old.subject;
                      issued_at = now;
                      expires_at = now + or_else expiration service.default_expires_in;
                      last_accessed_at = now;
                      factors = old.factors;
                      claims = service.deep_merge old.claims overrides;
                      family_id = family_kept old.family_id family_id;
                    }))
                else get_session service t other s))
  unfolding rotated
  get_session-rotate_session now t new_token family_id jti token other overrides expiration s old h₁
        h₂ fresh found =
      let new = rotated service now new_token family_id overrides expiration old in
      let lifetime = or_else expiration service.default_expires_in in
      rw
        (
          rotate_session-state now new_token family_id jti token overrides expiration s old found,
          ← kept_family old.family_id family_id,
        )
        (get_session-issue now t jti other new
            (replace_session service now token old new lifetime s) h₁
          ∙ get_session-replace now t lifetime token other old new s h₁ h₂ fresh)
