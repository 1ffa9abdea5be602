-- ===== src/Authentication/Sessions/Store/Reads.antt =====
-- What of the sessions each operation of the store leaves to be found.
use server_kit.Base.{
  ℕ, ◌+◌, ◌≤◌, ◌<◌, Text, text_eq, text_eq_sound, contains, true, false, if◌then◌else◌, Bool-cases,
  Option-cases, List, [], ◌∷◌, map, some, none, is_some, ◌≡◌, refl, sym, ap, ◌∙◌, inl, inr, arith,
}
use server_kit.Cache.Provider.{until}
use server_kit.Authentication.Types.{
  AuthenticationSessionFactor, serialize_factor, deserialize_factor, whole_factor,
}
use server_kit.Authentication.Sessions.{
  AuthenticationSession, SessionService, get_session_key, whole_session, shape_of,
}
use server_kit.Authentication.Sessions.Store.{
  State, serialize_session, deserialize_session, get_session, ensure_subject_session,
  remove_subject_session, read_family, add_jti_to_family, remove_session_from_family, revoke_family,
}
use server_kit.Authentication.Sessions.Store.Frame.{
  IsToken, session_keys, family_session_keys, ensure_subject_session-frame,
  remove_subject_session-frame, add_jti_to_family-frame, remove_session_from_family-frame,
  get-revoke_family,
}

factors_round_trip :
    (factors : List AuthenticationSessionFactor)
    → map deserialize_factor (map serialize_factor factors) ≡ map whole_factor factors
factors_round_trip [] = refl
factors_round_trip (factor ∷ factors) = ap (◌∷◌ (whole_factor factor)) (factors_round_trip factors)

module _ {Claims V : Type 0} (service : SessionService Claims V) where
  deserialize-serialize :
      (session : AuthenticationSession Claims)
      → deserialize_session service (serialize_session service session) ≡ whole_session session
  unfolding deserialize_session serialize_session
  deserialize-serialize session =
      rw
        (
          service.json_session.parse_stringify (shape_of session),
          factors_round_trip session.factors,
        )
        refl

  -- A stored session, and every other one.
  pub get_session-set :
      (now t lifetime : ℕ) (token other : Text) (session : AuthenticationSession Claims)
      (s : State service)
      → now ≤ t
      → t < now + lifetime
      → get_session service t other (
          service.cache.set now
            (get_session_key token)
            (serialize_session service session)
            lifetime
            s)
        ≡ (if text_eq token other
            then some (whole_session session)
            else get_session service t other s)
  unfolding get_session
  get_session-set now t lifetime token other session s h₁ h₂ =
      rw
        (
          service.cache.get_set now t (get_session_key token) (get_session_key other)
              (serialize_session service session) lifetime s h₁,
          session_keys token other,
        )
        (elim (Bool-cases (text_eq token other)) [
          | inr differ ↦ rw differ refl
          | inl same ↦
              let live : until (some (now + service.cache.life lifetime)) t
                    (serialize_session service session)
                  ≡ some (serialize_session service session) =
                ground (arith, service.cache.ttl_le_life lifetime) in
              rw (same, live) (ap some (deserialize-serialize session))
        ])

  pub get_session-delete :
      (now t : ℕ) (token other : Text) (s : State service)
      → now ≤ t
      → get_session service t other (service.cache.delete now (get_session_key token) s).0
        ≡ (if text_eq token other then none else get_session service t other s)
  unfolding get_session
  get_session-delete now t token other s h =
      rw
        (
          service.cache.get_delete now t (get_session_key token) (get_session_key other) s h,
          session_keys token other,
        )
        (elim (Bool-cases (text_eq token other)) [
          | inr differ ↦ rw differ refl
          | inl same ↦ rw same refl
        ])

  pub get_session-ensure :
      (now t : ℕ) (subject token other : Text) (lifetime : ℕ) (s : State service)
      → now ≤ t
      → IsToken other
      → get_session service t other (ensure_subject_session service now subject token lifetime s)
        ≡ get_session service t other s
  unfolding get_session
  get_session-ensure now t subject token other lifetime s h fresh =
      rw
        (ensure_subject_session-frame service now t subject token (get_session_key other) lifetime s
          h (fresh subject))
        refl

  pub get_session-remove :
      (now t : ℕ) (subject token other : Text) (s : State service)
      → now ≤ t
      → IsToken other
      → get_session service t other (remove_subject_session service now subject token s)
        ≡ get_session service t other s
  unfolding get_session
  get_session-remove now t subject token other s h fresh =
      rw
        (remove_subject_session-frame service now t subject token (get_session_key other) s h
          (fresh subject))
        refl

  pub get_session-leave :
      (now t : ℕ) (family_id : Text) (token other : Text) (s : State service)
      → now ≤ t
      → get_session service t other (remove_session_from_family service now family_id token s)
        ≡ get_session service t other s
  unfolding get_session
  get_session-leave now t family_id token other s h =
      rw
        (remove_session_from_family-frame service now t family_id token (get_session_key other) s h
          (family_session_keys family_id other))
        refl

  -- An existing session that is written again.
  pub get_session-update :
      (now t lifetime : ℕ) (token other : Text) (session : AuthenticationSession Claims)
      (s : State service)
      → now ≤ t
      → t < now + lifetime
      → is_some (get_session service now token s) ≡ true
      → get_session service t other (
          service.cache.update now
            (get_session_key token)
            (serialize_session service session)
            (some lifetime)
            s)
        ≡ (if text_eq token other
            then some (whole_session session)
            else get_session service t other s)
  unfolding get_session
  get_session-update now t lifetime token other session s h₁ h₂ there =
      elim (Bool-cases (text_eq token other)) [
        | inr differ ↦
            let ne : text_eq (get_session_key token) (get_session_key other) ≡ false =
              session_keys token other ∙ differ in
            rw
              (
                differ,
                service.cache.get_update_other now t (get_session_key token) (get_session_key other)
                    (serialize_session service session) (some lifetime) s ne h₁,
              )
              refl
        | inl same ↦
            let live : until (some (now + service.cache.life lifetime)) t
                  (serialize_session service session)
                ≡ some (serialize_session service session) =
              ground (arith, service.cache.ttl_le_life lifetime) in
            let held : is_some (service.cache.get now (get_session_key token) s) ≡ true =
              elim (Option-cases (service.cache.get now (get_session_key token) s)) [
                | inl gone ↦ cc
                | inr (v, found) ↦ rw found refl
              ] in
            rw
              (
                same,
                sym (text_eq_sound token other same),
                service.cache.get_update_ttl now t (get_session_key token)
                    (serialize_session service session) lifetime s held h₁,
                live,
              )
              (ap some (deserialize-serialize session))
      ]

  pub get_session-join :
      (now t : ℕ) (family_id jti token other : Text) (s : State service)
      → now ≤ t
      → get_session service t other (add_jti_to_family service now family_id jti token s)
        ≡ get_session service t other s
  unfolding get_session
  get_session-join now t family_id jti token other s h =
      rw
        (add_jti_to_family-frame service now t family_id jti token (get_session_key other) s h
          (family_session_keys family_id other))
        refl

  pub get_session-expired :
      (now t : ℕ) (token : Text) (s : State service)
      → now ≤ t
      → get_session service now token s ≡ none
      → get_session service t token s ≡ none
  unfolding get_session
  get_session-expired now t token s h missing =
      elim (Option-cases (service.cache.get now (get_session_key token) s)) [
        | inl gone ↦ rw (service.cache.get_expired now t (get_session_key token) s h gone) refl
        | inr (v, found) ↦ cc
      ]

  pub get_session-revoke_family :
      (now t : ℕ) (family_id token : Text) (s : State service)
      → now ≤ t
      → IsToken token
      → get_session service t token (revoke_family service now family_id s).0 ≡ (
          if contains token (read_family service now family_id s).0.session_tokens
          then none
          else get_session service t token s)
  unfolding get_session
  get_session-revoke_family now t family_id token s h fresh =
      rw (get-revoke_family service now t family_id token s h fresh)
        (elim (Bool-cases (contains token (read_family service now family_id s).0.session_tokens)) [
          | inl listed ↦ rw listed refl
          | inr other ↦ rw other refl
        ])
