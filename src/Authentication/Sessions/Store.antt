-- ===== src/Authentication/Sessions/Store.antt =====
-- packages/authentication/src/authentication.session.service.ts: sessions, the index of a subject's
-- sessions, and the families of refresh tokens in the cache.
pub mod Frame
pub mod Reads
pub mod Families
use server_kit.Base.{
  ℕ, Text, text_eq, contains, remove, Bool, true, false, not, if◌then◌else◌, List, [], ◌∷◌, ◌++◌,
  Option, some, none, is_some,
}
use mathlib.Core.Option
use server_kit.Authentication.Types.{Json}
use server_kit.Cache.Provider.{CacheProvider}
use server_kit.Authentication.Sessions.{
  AuthenticationSession, SessionService, RefreshFamilyBlob, PartialFamilyBlob, HookCall,
  on_session_revoked, theft, get_session_key, get_subject_key, get_family_key, shape_of, session_of,
}

abbrev or_empty : Option (List Text) → List Text
or_empty none = []
or_empty (some texts) = texts

-- `if (!texts.includes(id)) texts.push(id)`
abbrev pub push_new : Text → List Text → List Text
push_new id texts = if contains id texts then texts else texts ++ (id ∷ [])

module _ {Claims V : Type 0} (service : SessionService Claims V) where
  abbrev pub State : Type 0
  State = service.cache.State

  unfoldable pub serialize_session : AuthenticationSession Claims → V
  serialize_session session = service.json_session.stringify (shape_of session)

  unfoldable pub deserialize_session : V → AuthenticationSession Claims
  deserialize_session data' = session_of (service.json_session.parse data')

  unfoldable pub get_session : ℕ → Text → State → Option (AuthenticationSession Claims)
  get_session now session_token s =
      Option.map deserialize_session (service.cache.get now (get_session_key session_token) s)

  unfoldable pub get_subject_sessions : ℕ → Text → State → List Text
  get_subject_sessions now subject s =
      or_empty
        (Option.map (service.json_tokens.parse) (service.cache.get now (get_subject_key subject) s))

  unfoldable pub ensure_subject_session : ℕ → Text → Text → ℕ → State → State
  ensure_subject_session now subject session_token expiration s =
      let subject_sessions = get_subject_sessions now subject s in
      if contains session_token subject_sessions
      then s
      else service.cache.set now (get_subject_key subject)
          (service.json_tokens.stringify (subject_sessions ++ (session_token ∷ []))) expiration s

  pub remove_subject_session : ℕ → Text → Text → State → State
  remove_subject_session now subject session_token s =
      let subject_sessions = get_subject_sessions now subject s in
      if contains session_token subject_sessions
      then service.cache.update now (get_subject_key subject)
          (service.json_tokens.stringify (remove session_token subject_sessions)) none s
      else s

  -- A family, or an empty one, and whether there was an entry.
  unfoldable pub family_of : Option PartialFamilyBlob → RefreshFamilyBlob
  family_of none = record { jtis = []; session_tokens = [] }
  family_of (some parsed) = record {
    jtis = or_empty parsed.jtis;
    session_tokens = or_empty parsed.session_tokens;
  }

  unfoldable pub read_family : ℕ → Text → State → RefreshFamilyBlob × Bool
  read_family now family_id s = elim (service.cache.get now (get_family_key family_id) s) [
    | none ↦ (record { jtis = []; session_tokens = [] }, false)
    | some raw ↦ (family_of (service.parse_family raw), true)
  ]

  unfoldable pub write_family : ℕ → Text → RefreshFamilyBlob → Bool → State → State
  write_family now family_id blob exists s =
      let serialized = service.stringify_family blob in
      if exists
      then service.cache.update now (get_family_key family_id) serialized
          (some service.refresh_expires_in) s
      else service.cache.set now (get_family_key family_id) serialized service.refresh_expires_in s

  unfoldable pub add_jti_to_family : ℕ → Text → Text → Text → State → State
  add_jti_to_family now family_id jti session_token s =
      let (blob, existed) = read_family now family_id s in
      let added : RefreshFamilyBlob = record {
        jtis = push_new jti blob.jtis;
        session_tokens = push_new session_token blob.session_tokens;
      } in
      write_family now family_id added existed s

  abbrev pub put_back : ℕ → Text → RefreshFamilyBlob → List Text → State → State
  put_back now family_id blob [] s = (service.cache.delete now (get_family_key family_id) s).0
  put_back now family_id blob (token ∷ tokens) s =
      service.cache.update now (get_family_key family_id)
        (service.stringify_family (record { jtis = blob.jtis; session_tokens = token ∷ tokens }))
        (some service.refresh_expires_in) s

  pub remove_session_from_family : ℕ → Text → Text → State → State
  remove_session_from_family now family_id session_token s =
      let (blob, existed) = read_family now family_id s in
      if existed
      then put_back now family_id blob (remove session_token blob.session_tokens) s
      else s

  -- The loop of revokeFamily: the sessions are deleted one by one, each with a call of the hook if it was
  -- still there.
  pub revoke_sessions : ℕ → List Text → State → State × List (HookCall Claims)
  revoke_sessions now [] s = (s, [])
  revoke_sessions now (token ∷ tokens) s =
      let session = get_session now token s in
      let s₁ = (service.cache.delete now (get_session_key token) s).0 in
      elim session [
        | none ↦ revoke_sessions now tokens s₁
        | some session ↦
            let (s₂, calls) =
              revoke_sessions now tokens (remove_subject_session now session.subject token s₁) in
            (s₂, on_session_revoked session theft ∷ calls)
      ]

  pub revoke_family : ℕ → Text → State → State × List (HookCall Claims)
  revoke_family now family_id s =
      let (blob, existed) = read_family now family_id s in
      let (s₁, calls) = revoke_sessions now blob.session_tokens s in
      if existed
      then ((service.cache.delete now (get_family_key family_id) s₁).0, calls)
      else (s, [])
