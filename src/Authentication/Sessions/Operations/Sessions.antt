-- ===== src/Authentication/Sessions/Operations/Sessions.antt =====
-- A session from its creation to its deletion.
use server_kit.Base.{
  ℕ, ◌+◌, ◌≤◌, ◌<◌, Text, text_eq, text_eq_sound, Result, ok, err, Bool, true, false, if◌then◌else◌,
  Bool-cases, Option-cases, List, [], Option, some, none, is_some, ◌≡◌, refl, sym, ap, ◌∙◌, inl,
  inr, All, ◌⊎◌, ◌∷◌, ◌++◌,
}
use server_kit.Authentication.Types.{AuthenticationSessionFactor}
use server_kit.Authentication.Sessions.{
  AuthenticationSession, SessionRevocationReason, Unauthorized, invalid_token, JwtPayload,
  SessionService, get_session_key, whole_session,
}
use server_kit.Authentication.Sessions.Store.{
  State, serialize_session, get_session, ensure_subject_session, remove_subject_session,
}
use server_kit.Authentication.Sessions.Store.Frame.{IsToken}
use server_kit.Authentication.Sessions.Store.Reads.{
  get_session-set, get_session-update, get_session-delete, get_session-ensure, get_session-remove,
  get_session-leave, get_session-expired,
}
use server_kit.Authentication.Sessions.Operations.{
  or_else, filled, is_subject, create_session, update_session, lookup_session_from_jwt,
  delete_session, leave_family, upsert_factor, upsert, merge,
}

-- A factor among those of a session: renewed in its place, the first of its id, or new at the end.
pub data Upserted (factor : AuthenticationSessionFactor)
    (old new : List AuthenticationSessionFactor) : Type 0 where
  renewed :
      (before after : List AuthenticationSessionFactor) (x : AuthenticationSessionFactor)
      → All (λ y. text_eq y.method_id factor.method_id ≡ false) before
      → x.method_id ≡ factor.method_id
      → old ≡ before ++ x ∷ after
      → new ≡ before ++ record x { authenticated_at = factor.authenticated_at } ∷ after
      → Upserted factor old new
  appended :
      All (λ y. text_eq y.method_id factor.method_id ≡ false) old
      → new ≡ old ++ factor ∷ []
      → Upserted factor old new

abbrev pub Verified :
    Option AuthenticationSessionFactor
    → List AuthenticationSessionFactor
    → List AuthenticationSessionFactor
    → Type 0
Verified none old new = new ≡ old
Verified (some factor) old new = Upserted factor old new

Upserted-cons :
    (factor x : AuthenticationSessionFactor) (old new : List AuthenticationSessionFactor)
    → text_eq x.method_id factor.method_id ≡ false
    → Upserted factor old new
    → Upserted factor (x ∷ old) (x ∷ new)
Upserted-cons factor x old new other (renewed before after y none_before same o n) =
    renewed (x ∷ before) after y (other, none_before) same (ap (◌∷◌ x) o) (ap (◌∷◌ x) n)
Upserted-cons factor x old new other (appended none_there n) =
    appended (other, none_there) (ap (◌∷◌ x) n)

upsert_factor-Upserted :
    (factor : AuthenticationSessionFactor) (old : List AuthenticationSessionFactor)
    → Upserted factor old (upsert_factor factor old)
upsert_factor-Upserted factor [] = appended tt refl
upsert_factor-Upserted factor (x ∷ xs) = elim (Bool-cases (text_eq x.method_id factor.method_id)) [
  | inl same ↦
      rw (same, upsert_factor)
        (renewed [] xs x tt (text_eq_sound x.method_id factor.method_id same) refl refl)
  | inr other ↦
      rw (other, upsert_factor)
        (Upserted-cons factor x xs (upsert_factor factor xs) other
          (upsert_factor-Upserted factor xs))
]

module _ {Claims V : Type 0} (service : SessionService Claims V) where
  get_session-leave_family :
      (now t : ℕ) (family_id : Option Text) (token other : Text) (s : State service)
      → now ≤ t
      → get_session service t other (leave_family service now family_id token s)
        ≡ get_session service t other s
  get_session-leave_family now t none token other s h = refl
  get_session-leave_family now t (some family_id) token other s h =
      get_session-leave service now t family_id token other s h

  -- Until its lifetime is over, a created session is found as what was created, its times in whole
  -- seconds; every other session is found as before. The tokens are such that no subject has its
  -- index under their keys.
  pub get_session-create_session :
      (now t : ℕ) (token other family_id subject : Text) (claims : Claims)
      (factors : List AuthenticationSessionFactor) (expiration : Option ℕ) (s : State service)
      → now ≤ t
      → t < now + or_else expiration service.default_expires_in
      → IsToken other
      → let (s₁, calls, session) =
          create_session service now token family_id subject claims factors expiration s in
        get_session service t other s₁ ≡ (
          if text_eq token other
          then some (whole_session session)
          else get_session service t other s)
  unfolding create_session
  get_session-create_session now t token other family_id subject claims factors expiration s h₁ h₂
        fresh =
      let lifetime = or_else expiration service.default_expires_in in
      let session =
        (create_session service now token family_id subject claims factors expiration s).2 in
      let s₁ =
        service.cache.set now (get_session_key token) (serialize_session service session) lifetime
          s in
      get_session-ensure service now t subject token other lifetime s₁ h₁ fresh
      ∙ get_session-set service now t lifetime token other session s h₁ h₂

  -- A deleted session is not found from then on; every other session is found as before. The
  -- tokens are such that no subject has its index under their keys.
  pub get_session-delete_session :
      (now t : ℕ) (token other : Text) (reason : SessionRevocationReason) (s : State service)
      → now ≤ t
      → IsToken other
      → get_session service t other (delete_session service now token reason s).0
        ≡ (if text_eq token other then none else get_session service t other s)
  unfolding delete_session
  get_session-delete_session now t token other reason s h fresh =
      elim (Option-cases (get_session service now token s)) [
        | inl missing ↦
            rw (missing, delete_session)
              (elim (Bool-cases (text_eq token other)) [
                | inr differ ↦ rw differ refl
                | inl same ↦ rw same (
                    ap (λ i. get_session service t i s) (sym (text_eq_sound token other same))
                    ∙ get_session-expired service now t token s h missing)
              ])
        | inr (session, found) ↦
            let s₁ = (service.cache.delete now (get_session_key token) s).0 in
            let s₂ = remove_subject_session service now session.subject token s₁ in
            rw (found, delete_session)
              (get_session-leave_family now t (filled session.family_id) token other s₂ h
                ∙ get_session-remove service now t session.subject token other s₁ h fresh
                ∙ get_session-delete service now t token other s h)
      ]

  -- A token is good only for the session that it names, of its own subject, that the cache still holds.
  pub lookup_session_from_jwt-ok :
      (now : ℕ) (jwt : Text) (ignore_expiration : Bool) (s : State service)
      (session : AuthenticationSession Claims) (payload : JwtPayload Claims)
      → (lookup_session_from_jwt service now jwt ignore_expiration s).1 ≡ ok (session, payload)
      → (service.decode now jwt service.issuer ignore_expiration service.audience ≡ some payload)
        × (get_session service now (or_else payload.session_token []) s ≡ some session)
        × (is_subject session.subject payload.sub ≡ true)
  unfolding lookup_session_from_jwt
  lookup_session_from_jwt-ok now jwt ignore_expiration s session payload done =
      elim (Option-cases
        (service.decode now jwt service.issuer ignore_expiration service.audience)) [
          | inl undecoded ↦
              let run : (lookup_session_from_jwt service now jwt ignore_expiration s).1
                  ≡ err invalid_token =
                rw (undecoded, lookup_session_from_jwt) refl in
              cc
          | inr (found, decoded) ↦
              elim (Option-cases (get_session service now (or_else found.session_token []) s)) [
                | inl missing ↦
                    let run : (lookup_session_from_jwt service now jwt ignore_expiration s).1
                        ≡ err invalid_token =
                      rw (decoded, missing, lookup_session_from_jwt) refl in
                    cc
                | inr (stored, there) ↦ elim (Bool-cases (is_subject stored.subject found.sub)) [
                  | inr differ ↦
                      let run : (lookup_session_from_jwt service now jwt ignore_expiration s).1
                          ≡ err invalid_token =
                        rw (decoded, there, differ, lookup_session_from_jwt) refl in
                      cc
                  | inl same ↦
                      let run : (lookup_session_from_jwt service now jwt ignore_expiration s).1
                          ≡ ok (stored, found) =
                        rw (decoded, there, same, lookup_session_from_jwt) refl in
                      let one : stored ≡ session = cc in
                      let two : found ≡ payload = cc in
                      (cc, rw (sym two, sym one) there, rw (sym two, sym one) same)
                ]
              ]
        ]

  -- The session that the body of an update stores.
  abbrev updated :
      ℕ
      → Option ℕ
      → Option Claims
      → Option AuthenticationSessionFactor
      → AuthenticationSession Claims
      → AuthenticationSession Claims
  updated now expiration claims factor session =
      record (upsert factor (merge service claims session)) {
        expires_at = now + or_else expiration service.default_expires_in;
        last_accessed_at = now;
      }

  -- The claims after an update, merged only if it has any.
  abbrev pub claims_after : Option Claims → Claims → Claims
  claims_after none old = old
  claims_after (some new) old = service.deep_merge old new

  -- What an update may do: fail without an effect, for a session that is not held or has another
  -- subject, or update a session of the subject.
  abbrev pub Updated :
      ℕ
      → ℕ
      → Text
      → Text
      → Text
      → Option ℕ
      → Option Claims
      → Option AuthenticationSessionFactor
      → State service
      → State service × Result Unauthorized (AuthenticationSession Claims)
      → Type 0
  Updated now t token other subject expiration claims factor s (s₁, err e) =
      (s₁ ≡ s)
      × ((get_session service now token s ≡ none)
          ⊎ ((session : AuthenticationSession Claims) × (get_session service now token s
                ≡ some session)
              × (text_eq session.subject subject ≡ false)))
  Updated now t token other subject expiration claims factor s (s₁, ok new) =
      (session : AuthenticationSession Claims) × (get_session service now token s ≡ some session)
      × (session.subject ≡ subject)
      × Verified factor session.factors new.factors
      × (new ≡ record session {
        expires_at = now + or_else expiration service.default_expires_in;
        last_accessed_at = now;
        factors = new.factors;
        claims = claims_after claims session.claims;
      })
      × (get_session service t other s₁ ≡ (
          if text_eq token other then some (whole_session new) else get_session service t other s))

  updated-Verified :
      (now : ℕ) (expiration : Option ℕ) (claims : Option Claims)
      (factor : Option AuthenticationSessionFactor) (session : AuthenticationSession Claims)
      → Verified factor session.factors (updated now expiration claims factor session).factors
  updated-Verified now expiration none none session = refl
  updated-Verified now expiration (some c) none session = refl
  updated-Verified now expiration none (some f) session = upsert_factor-Upserted f session.factors
  updated-Verified now expiration (some c) (some f) session =
      upsert_factor-Upserted f session.factors

  updated-fields :
      (now : ℕ) (expiration : Option ℕ) (claims : Option Claims)
      (factor : Option AuthenticationSessionFactor) (session : AuthenticationSession Claims)
      → updated now expiration claims factor session ≡ record session {
        expires_at = now + or_else expiration service.default_expires_in;
        last_accessed_at = now;
        factors = (updated now expiration claims factor session).factors;
        claims = claims_after claims session.claims;
      }
  updated-fields now expiration none none session = refl
  updated-fields now expiration (some c) none session = refl
  updated-fields now expiration none (some f) session = refl
  updated-fields now expiration (some c) (some f) session = refl

  update_session-missing :
      (now : ℕ) (token subject : Text) (expiration : Option ℕ) (claims : Option Claims)
      (factor : Option AuthenticationSessionFactor) (s : State service)
      → get_session service now token s ≡ none
      → update_session service now token subject expiration claims factor s ≡ (s, err invalid_token)
  unfolding update_session
  update_session-missing now token subject expiration claims factor s missing =
      rw (missing, update_session) refl

  update_session-mismatch :
      (now : ℕ) (token subject : Text) (expiration : Option ℕ) (claims : Option Claims)
      (factor : Option AuthenticationSessionFactor) (s : State service)
      (session : AuthenticationSession Claims)
      → get_session service now token s ≡ some session
      → text_eq session.subject subject ≡ false
      → update_session service now token subject expiration claims factor s ≡ (s, err invalid_token)
  unfolding update_session
  update_session-mismatch now token subject expiration claims factor s session found differ =
      rw (found, differ, update_session) refl

  -- An update of a session that is held and has the given subject.
  update_session-ok :
      (now : ℕ) (token subject : Text) (expiration : Option ℕ) (claims : Option Claims)
      (factor : Option AuthenticationSessionFactor) (s : State service)
      (session : AuthenticationSession Claims)
      → get_session service now token s ≡ some session
      → text_eq session.subject subject ≡ true
      → update_session service now token subject expiration claims factor s ≡ (
        ensure_subject_session service now session.subject token
            (or_else expiration service.default_expires_in)
            (service.cache.update now
              (get_session_key token)
              (serialize_session service (updated now expiration claims factor session))
              (some (or_else expiration service.default_expires_in))
              s),
        ok (updated now expiration claims factor session),
      )
  unfolding update_session
  update_session-ok now token subject expiration claims factor s session found same =
      rw (found, same, update_session) refl

  -- An update fails, and changes nothing, exactly for a session that is not held or has another
  -- subject. Otherwise the session is then found, until the new lifetime is over, with the new claims
  -- merged into its claims, if there are any, and with the factor, if there is one: the first of its
  -- factors with that id has the new time of authentication, or the factor stands at the end if no other
  -- has its id. Its subject, token, family and time of issue stay, its expiry and last access are those
  -- of the update, and every other session is found as before, all times in whole seconds. The tokens
  -- are such that no subject has its index under their keys.
  pub update_session-outcome :
      (now t : ℕ) (token other subject : Text) (expiration : Option ℕ) (claims : Option Claims)
      (factor : Option AuthenticationSessionFactor) (s : State service)
      → now ≤ t
      → t < now + or_else expiration service.default_expires_in
      → IsToken other
      → Updated now t token other subject expiration claims factor s
          (update_session service now token subject expiration claims factor s)
  update_session-outcome now t token other subject expiration claims factor s h₁ h₂ fresh =
      elim (Option-cases (get_session service now token s)) [
        | inl missing ↦
            let run : update_session service now token subject expiration claims factor s
                ≡ (s, err invalid_token) =
              update_session-missing now token subject expiration claims factor s missing in
            rw run (refl, inl missing)
        | inr (session, found) ↦ elim (Bool-cases (text_eq session.subject subject)) [
          | inr differ ↦
              rw
                (update_session-mismatch now token subject expiration claims factor s session found
                  differ)
                (refl, inr (session, found, differ))
          | inl same ↦
              let lifetime = or_else expiration service.default_expires_in in
              let new = updated now expiration claims factor session in
              let s₁ =
                service.cache.update now (get_session_key token) (serialize_session service new)
                  (some lifetime) s in
              let held : is_some (get_session service now token s) ≡ true = rw found refl in
              rw (update_session-ok now token subject expiration claims factor s session found same)
                (
                  session,
                  found,
                  text_eq_sound session.subject subject same,
                  updated-Verified now expiration claims factor session,
                  updated-fields now expiration claims factor session,
                  get_session-ensure service now t session.subject token other lifetime s₁ h₁ fresh
                      ∙ get_session-update service now t lifetime token other new s h₁ h₂ held,
                )
        ]
      ]
