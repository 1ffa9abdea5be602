-- ===== src/Authentication/Sessions/Store/Frame.antt =====
-- What the operations of the store leave alone.
use server_kit.Base.{
  ℕ, ◌≤◌, Text, text_eq, contains, remove, ◌||◌, Bool, true, false, if◌then◌else◌, Bool-cases,
  Option-cases, List, [], ◌∷◌, ◌++◌, Option, some, none, ◌≡◌, refl, ◌∙◌, inl, inr,
}
use server_kit.Authentication.Sessions.{
  SessionService, RefreshFamilyBlob, get_session_key, get_subject_key, get_family_key,
}
use server_kit.Authentication.Sessions.Store.{
  get_session, get_subject_sessions, ensure_subject_session, remove_subject_session, read_family,
  write_family, add_jti_to_family, remove_session_from_family, put_back, push_new, revoke_sessions,
  revoke_family,
}

-- No subject has its index under the key of the session. A random UUID begins with a hexadecimal digit,
-- so it is such a token; `subject_` followed by a subject is none.
abbrev pub IsToken : Text → Type 0
IsToken token = (subject : Text) → text_eq (get_subject_key subject) (get_session_key token) ≡ false

pub session_keys : (a b : Text) → text_eq (get_session_key a) (get_session_key b) ≡ text_eq a b
unfolding get_session_key
session_keys a b = refl

pub family_session_keys :
    (f token : Text) → text_eq (get_family_key f) (get_session_key token) ≡ false
unfolding get_session_key get_family_key
family_session_keys f token = refl

none_either :
    {A : Type 0} (a b : Bool) (x : Option A)
    → (if b then none else (if a then none else x)) ≡ (if a || b then none else x)
none_either true true x = refl
none_either true false x = refl
none_either false true x = refl
none_either false false x = refl

module _ {Claims V : Type 0} (service : SessionService Claims V) where
  abbrev pub S : Type 0
  S = service.cache.State

  get_set_other :
      (now t : ℕ) (k j : Text) (v : V) (ttl : ℕ) (s : S)
      → now ≤ t
      → text_eq k j ≡ false
      → service.cache.get t j (service.cache.set now k v ttl s) ≡ service.cache.get t j s
  get_set_other now t k j v ttl s h ne = rw (service.cache.get_set now t k j v ttl s h, ne) refl

  pub get_delete_other :
      (now t : ℕ) (k j : Text) (s : S)
      → now ≤ t
      → text_eq k j ≡ false
      → service.cache.get t j (service.cache.delete now k s).0 ≡ service.cache.get t j s
  get_delete_other now t k j s h ne = rw (service.cache.get_delete now t k j s h, ne) refl

  pub ensure_subject_session-frame :
      (now t : ℕ) (subject token j : Text) (expiration : ℕ) (s : S)
      → now ≤ t
      → text_eq (get_subject_key subject) j ≡ false
      → service.cache.get t j (ensure_subject_session service now subject token expiration s)
        ≡ service.cache.get t j s
  unfolding ensure_subject_session
  ensure_subject_session-frame now t subject token j expiration s h ne =
      let tokens = get_subject_sessions service now subject s in
      elim (Bool-cases (contains token tokens)) [
        | inl there ↦ rw there refl
        | inr new ↦ rw new (
            get_set_other now t (get_subject_key subject) j
              (service.json_tokens.stringify (tokens ++ (token ∷ []))) expiration s h ne)
      ]

  pub remove_subject_session-frame :
      (now t : ℕ) (subject token j : Text) (s : S)
      → now ≤ t
      → text_eq (get_subject_key subject) j ≡ false
      → service.cache.get t j (remove_subject_session service now subject token s)
        ≡ service.cache.get t j s
  unfolding remove_subject_session
  remove_subject_session-frame now t subject token j s h ne =
      let tokens = get_subject_sessions service now subject s in
      elim (Bool-cases (contains token tokens)) [
        | inr missing ↦ rw missing refl
        | inl there ↦ rw there (
            service.cache.get_update_other now t (get_subject_key subject) j
              (service.json_tokens.stringify (remove token tokens)) none s ne h)
      ]

  write_family-frame :
      (now t : ℕ) (family_id j : Text) (blob : RefreshFamilyBlob) (exists : Bool) (s : S)
      → now ≤ t
      → text_eq (get_family_key family_id) j ≡ false
      → service.cache.get t j (write_family service now family_id blob exists s)
        ≡ service.cache.get t j s
  unfolding write_family
  write_family-frame now t family_id j blob true s h ne =
      service.cache.get_update_other now t (get_family_key family_id) j
        (service.stringify_family blob) (some service.refresh_expires_in) s ne h
  write_family-frame now t family_id j blob false s h ne =
      get_set_other now t (get_family_key family_id) j (service.stringify_family blob)
        service.refresh_expires_in s h ne

  pub add_jti_to_family-frame :
      (now t : ℕ) (family_id jti token j : Text) (s : S)
      → now ≤ t
      → text_eq (get_family_key family_id) j ≡ false
      → service.cache.get t j (add_jti_to_family service now family_id jti token s)
        ≡ service.cache.get t j s
  unfolding add_jti_to_family
  add_jti_to_family-frame now t family_id jti token j s h ne =
      let (blob, existed) = read_family service now family_id s in
      write_family-frame now t family_id j
        (record {
          jtis = push_new jti blob.jtis;
          session_tokens = push_new token blob.session_tokens;
        })
        existed s h ne

  put_back-frame :
      (now t : ℕ) (family_id j : Text) (blob : RefreshFamilyBlob) (tokens : List Text) (s : S)
      → now ≤ t
      → text_eq (get_family_key family_id) j ≡ false
      → service.cache.get t j (put_back service now family_id blob tokens s)
        ≡ service.cache.get t j s
  put_back-frame now t family_id j blob [] s h ne =
      get_delete_other now t (get_family_key family_id) j s h ne
  put_back-frame now t family_id j blob (token ∷ tokens) s h ne =
      service.cache.get_update_other now t (get_family_key family_id) j
        (service.stringify_family (record { jtis = blob.jtis; session_tokens = token ∷ tokens }))
        (some service.refresh_expires_in) s ne h

  pub remove_session_from_family-frame :
      (now t : ℕ) (family_id token j : Text) (s : S)
      → now ≤ t
      → text_eq (get_family_key family_id) j ≡ false
      → service.cache.get t j (remove_session_from_family service now family_id token s)
        ≡ service.cache.get t j s
  unfolding remove_session_from_family
  remove_session_from_family-frame now t family_id token j s h ne =
      let blob = (read_family service now family_id s).0 in
      elim (Bool-cases (read_family service now family_id s).1) [
        | inl there ↦
            rw there
              (put_back-frame now t family_id j blob (remove token blob.session_tokens) s h ne)
        | inr missing ↦ rw missing refl
      ]

  -- Of the sessions, the loop deletes exactly those that it is given.
  pub get-revoke_sessions :
      (now t : ℕ) (token : Text) (tokens : List Text) (s : S)
      → now ≤ t
      → IsToken token
      → service.cache.get t (get_session_key token) (revoke_sessions service now tokens s).0
        ≡ (if contains token tokens then none else service.cache.get t (get_session_key token) s)
  unfolding revoke_sessions
  get-revoke_sessions now t token [] s h fresh = refl
  get-revoke_sessions now t token (head ∷ tokens) s h fresh =
      let s₁ = (service.cache.delete now (get_session_key head) s).0 in
      let gone : service.cache.get t (get_session_key token) s₁
          ≡ (if text_eq head token then none else service.cache.get t (get_session_key token) s) =
        rw
          (
            service.cache.get_delete now t (get_session_key head) (get_session_key token) s h,
            session_keys head token,
          )
          refl in
      let step =
        none_either (text_eq head token) (contains token tokens)
          (service.cache.get t (get_session_key token) s) in
      elim (Option-cases (get_session service now head s)) [
        | inl missing ↦
            rw (missing, revoke_sessions)
              (rw (get-revoke_sessions now t token tokens s₁ h fresh, gone) step)
        | inr (session, found) ↦
            let s₂ = remove_subject_session service now session.subject head s₁ in
            rw (found, revoke_sessions)
              (rw
                (
                  get-revoke_sessions now t token tokens s₂ h fresh,
                  remove_subject_session-frame now t session.subject head (get_session_key token) s₁
                      h (fresh session.subject),
                  gone,
                )
                step)
      ]

  no_family :
      (now : ℕ) (family_id : Text) (s : S)
      → (read_family service now family_id s).1 ≡ false
      → (read_family service now family_id s).0.session_tokens ≡ []
  unfolding read_family
  no_family now family_id s missing =
      elim (Option-cases (service.cache.get now (get_family_key family_id) s)) [
        | inl gone ↦ rw (gone, read_family) refl
        | inr (v, found) ↦
            let there : (read_family service now family_id s).1 ≡ true =
              rw (found, read_family) refl in
            cc
      ]

  -- The revocation of a family deletes exactly the sessions that its entry lists.
  pub get-revoke_family :
      (now t : ℕ) (family_id token : Text) (s : S)
      → now ≤ t
      → IsToken token
      → service.cache.get t (get_session_key token) (revoke_family service now family_id s).0 ≡ (
          if contains token (read_family service now family_id s).0.session_tokens
          then none
          else service.cache.get t (get_session_key token) s)
  unfolding revoke_family
  get-revoke_family now t family_id token s h fresh =
      let tokens = (read_family service now family_id s).0.session_tokens in
      elim (Bool-cases (read_family service now family_id s).1) [
        | inl existed ↦ rw existed (
            get_delete_other now t (get_family_key family_id) (get_session_key token)
              (revoke_sessions service now tokens s).0 h (family_session_keys family_id token)
            ∙ get-revoke_sessions now t token tokens s h fresh)
        | inr missing ↦ rw (missing, no_family now family_id s missing) refl
      ]
