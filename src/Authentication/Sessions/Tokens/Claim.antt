-- ===== src/Authentication/Sessions/Tokens/Claim.antt =====
-- The claim of the id of a refresh token, and what the exchange that follows leaves alone.
use server_kit.Base.{
  ℕ, ◌+◌, ◌*◌, ◌≤◌, ◌<◌, Text, text_eq, text_eq_refl, Bool, true, false, Option-cases, Option, some,
  is_some, ◌≡◌, refl, inl, inr, arith,
}
use server_kit.Authentication.Sessions.{
  AuthenticationSession, SessionService, get_session_key, get_family_key, get_consumed_key,
}
use server_kit.Authentication.Sessions.Store.{State, get_session, read_family, add_jti_to_family}
use server_kit.Authentication.Sessions.Store.Frame.{add_jti_to_family-frame}
use server_kit.Authentication.Sessions.Operations.{filled}
use server_kit.Authentication.Sessions.Tokens.{
  consumed_ttl_seconds, issue_tokens_for_loaded_session, mint_refresh_token, exchange,
}
use server_kit.Authentication.Sessions.Tokens.Rotation.{Result-cases}

pub consumed_family_keys :
    (jti f : Text) → text_eq (get_consumed_key jti) (get_family_key f) ≡ false
unfolding get_consumed_key get_family_key
consumed_family_keys jti f = refl

pub family_consumed_keys :
    (f jti : Text) → text_eq (get_family_key f) (get_consumed_key jti) ≡ false
unfolding get_consumed_key get_family_key
family_consumed_keys f jti = refl

pub consumed_session_keys :
    (jti token : Text) → text_eq (get_consumed_key jti) (get_session_key token) ≡ false
unfolding get_consumed_key get_session_key
consumed_session_keys jti token = refl

module _ {Claims V : Type 0} (service : SessionService Claims V) where
  -- The claim of a refresh token's id, and the time that it is kept for.
  abbrev pub claim : ℕ → Text → Option ℕ → State service → State service × Bool
  claim now jti exp s =
      service.cache.add now (get_consumed_key jti) service.consumed_text
        (some (consumed_ttl_seconds now exp * 1000)) s

  pub get-claim_other :
      (now t : ℕ) (jti j : Text) (exp : Option ℕ) (s : State service)
      → now ≤ t
      → text_eq (get_consumed_key jti) j ≡ false
      → service.cache.get t j (claim now jti exp s).0 ≡ service.cache.get t j s
  get-claim_other now t jti j exp s h ne =
      rw
        (
          service.cache.get_add now t (get_consumed_key jti) j service.consumed_text
              (some (consumed_ttl_seconds now exp * 1000)) s h,
          ne,
        )
        refl

  -- A claim, old or new, stands while the time of a new one lasts if it was new, and as long as before if
  -- it was old.
  pub get-claim :
      (now t : ℕ) (jti : Text) (exp : Option ℕ) (s : State service)
      → now ≤ t
      → t < now + consumed_ttl_seconds now exp * 1000
      → is_some (service.cache.get now (get_consumed_key jti) s) ≡ false
      → is_some (service.cache.get t (get_consumed_key jti) (claim now jti exp s).0) ≡ true
  get-claim now t jti exp s h₁ h₂ free =
      rw
        (
          service.cache.get_add now t (get_consumed_key jti) (get_consumed_key jti)
              service.consumed_text (some (consumed_ttl_seconds now exp * 1000)) s h₁,
          text_eq_refl (get_consumed_key jti),
          free,
        )
        (ground (arith, service.cache.ttl_le_life (consumed_ttl_seconds now exp * 1000)))

  pub get-issue_consumed :
      (now t : ℕ) (jti other : Text) (session : AuthenticationSession Claims) (s : State service)
      → now ≤ t
      → service.cache.get t
          (get_consumed_key other)
          (issue_tokens_for_loaded_session service now jti session s).0
        ≡ service.cache.get t (get_consumed_key other) s
  unfolding issue_tokens_for_loaded_session mint_refresh_token
  get-issue_consumed now t jti other session s h = elim (Option-cases (filled session.family_id)) [
    | inl missing ↦ rw (missing, issue_tokens_for_loaded_session, mint_refresh_token) refl
    | inr (family_id, found) ↦
        rw (found, issue_tokens_for_loaded_session, mint_refresh_token)
          (add_jti_to_family-frame service now t family_id jti session.session_token
            (get_consumed_key other) s h (family_consumed_keys family_id other))
  ]

  pub exchange-state :
      (now : ℕ) (new_jti jti token : Text) (session : AuthenticationSession Claims)
      (s : State service)
      → get_session service now token s ≡ some session
      → (exchange service now new_jti jti token s).0
        ≡ (issue_tokens_for_loaded_session service now new_jti session s).0
  unfolding exchange
  exchange-state now new_jti jti token session s found =
      rw (found, exchange)
        (elim (Result-cases (issue_tokens_for_loaded_session service now new_jti session s).1) [
          | inl (e, failed) ↦ rw failed refl
          | inr (tokens, issued) ↦ rw issued refl
        ])

  pub issue-state :
      (now : ℕ) (jti family_id : Text) (session : AuthenticationSession Claims) (s : State service)
      → filled session.family_id ≡ some family_id
      → (issue_tokens_for_loaded_session service now jti session s).0
        ≡ add_jti_to_family service now family_id jti session.session_token s
  unfolding issue_tokens_for_loaded_session mint_refresh_token
  issue-state now jti family_id session s family =
      rw (family, issue_tokens_for_loaded_session, mint_refresh_token) refl

  pub get-exchange :
      (now t : ℕ) (new_jti jti token other : Text) (s : State service)
      → now ≤ t
      → service.cache.get t (get_consumed_key other) (exchange service now new_jti jti token s).0
        ≡ service.cache.get t (get_consumed_key other) s
  unfolding exchange
  get-exchange now t new_jti jti token other s h =
      elim (Option-cases (get_session service now token s)) [
        | inl missing ↦ rw (missing, exchange) refl
        | inr (session, found) ↦
            rw (exchange-state now new_jti jti token session s found)
              (get-issue_consumed now t new_jti other session s h)
      ]

  pub read_family-claim :
      (now : ℕ) (jti family_id : Text) (exp : Option ℕ) (s : State service)
      → read_family service now family_id (claim now jti exp s).0
        ≡ read_family service now family_id s
  unfolding read_family
  read_family-claim now jti family_id exp s =
      rw
        (
          get-claim_other now now jti (get_family_key family_id) exp s (omega arith)
              (consumed_family_keys jti family_id),
          read_family,
        )
        refl

  pub get_session-claim :
      (now t : ℕ) (jti token : Text) (exp : Option ℕ) (s : State service)
      → now ≤ t
      → get_session service t token (claim now jti exp s).0 ≡ get_session service t token s
  unfolding get_session
  get_session-claim now t jti token exp s h =
      rw
        (get-claim_other now t jti (get_session_key token) exp s h
          (consumed_session_keys jti token))
        refl
