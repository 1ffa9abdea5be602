-- ===== src/Authentication/Sessions/Store/Families.antt =====
-- What is read of a family after it is written.
use server_kit.Base.{
  ℕ, ◌+◌, ◌≤◌, ◌<◌, Text, text_eq_refl, contains, true, false, Bool-cases, Option-cases, List, [],
  ◌∷◌, ◌++◌, some, is_some, ◌≡◌, refl, ◌∙◌, inl, inr, arith,
}
use server_kit.Cache.Provider.{until}
use server_kit.Authentication.Sessions.{SessionService, RefreshFamilyBlob, get_family_key}
use server_kit.Authentication.Sessions.Store.{
  State, read_family, add_jti_to_family, push_new, write_family, family_of,
}

contains-append : (id : Text) (texts : List Text) → contains id (texts ++ (id ∷ [])) ≡ true
contains-append id [] = rw (text_eq_refl id) refl
contains-append id (x ∷ xs) = ground (arith, contains-append id xs)

module _ {Claims V : Type 0} (service : SessionService Claims V) where
  contains-push_new : (id : Text) (texts : List Text) → contains id (push_new id texts) ≡ true
  contains-push_new id texts = elim (Bool-cases (contains id texts)) [
    | inl there ↦ rw there there
    | inr new ↦ rw new (contains-append id texts)
  ]

  read_family-stored :
      (t : ℕ) (family_id : Text) (blob : RefreshFamilyBlob) (s : State service)
      → service.cache.get t (get_family_key family_id) s ≡ some (service.stringify_family blob)
      → read_family service t family_id s ≡ (blob, true)
  unfolding read_family family_of
  read_family-stored t family_id blob s stored =
      rw (stored, read_family, service.parse_stringify_family blob) refl

  family_there :
      (now : ℕ) (family_id : Text) (s : State service)
      → (read_family service now family_id s).1 ≡ true
      → is_some (service.cache.get now (get_family_key family_id) s) ≡ true
  unfolding read_family
  family_there now family_id s existed =
      elim (Option-cases (service.cache.get now (get_family_key family_id) s)) [
        | inr (v, found) ↦ rw found refl
        | inl gone ↦
            let missing : (read_family service now family_id s).1 ≡ false =
              rw (gone, read_family) refl in
            cc
      ]

  -- What is written of a family is read, until the lifetime of refresh tokens is over.
  read_family-write_family :
      (now t : ℕ) (family_id : Text) (blob : RefreshFamilyBlob) (s : State service)
      → now ≤ t
      → t < now + service.refresh_expires_in
      → read_family service t family_id
          (write_family service now family_id blob (read_family service now family_id s).1 s)
        ≡ (blob, true)
  unfolding write_family
  read_family-write_family now t family_id blob s h₁ h₂ =
      let key = get_family_key family_id in
      let text = service.stringify_family blob in
      let live : until (some (now + service.cache.life service.refresh_expires_in)) t text
          ≡ some text =
        ground (arith, service.cache.ttl_le_life service.refresh_expires_in) in
      elim (Bool-cases (read_family service now family_id s).1) [
        | inl existed ↦ rw existed (
            read_family-stored t family_id blob
              (service.cache.update now key text (some service.refresh_expires_in) s)
              (service.cache.get_update_ttl now t key text service.refresh_expires_in s
                  (family_there now family_id s existed) h₁
                ∙ live))
        | inr new ↦ rw new (
            read_family-stored t family_id blob
              (service.cache.set now key text service.refresh_expires_in s)
              (rw
                (
                  service.cache.get_set now t key key text service.refresh_expires_in s h₁,
                  text_eq_refl key,
                )
                live))
      ]

  -- A family lists a session from the time at which a token is added for it.
  pub read_family-add_jti :
      (now t : ℕ) (family_id jti token : Text) (s : State service)
      → now ≤ t
      → t < now + service.refresh_expires_in
      → contains token
          (read_family service t family_id
            (add_jti_to_family service now family_id jti token s)).0.session_tokens
        ≡ true
  unfolding add_jti_to_family
  read_family-add_jti now t family_id jti token s h₁ h₂ =
      let blob = (read_family service now family_id s).0 in
      let added : RefreshFamilyBlob = record {
        jtis = push_new jti blob.jtis;
        session_tokens = push_new token blob.session_tokens;
      } in
      rw (read_family-write_family now t family_id added s h₁ h₂)
        (contains-push_new token blob.session_tokens)
