-- ===== src/Authentication/Sessions/Tokens/Refresh.antt =====
-- The exchange of refresh tokens, and their replay.
use server_kit.Base.{
  codes, [], ◌∷◌, none, Option, ℕ, ◌+◌, ◌*◌, ◌≤◌, ◌<◌, Text, contains, ok, err, true, false,
  if◌then◌else◌, Bool-cases, some, is_some, ◌≡◌, refl, sym, ap, ◌∙◌, inl, inr, arith,
}
use server_kit.Authentication.Sessions.{
  JwtPayload, AuthenticationSession, AuthenticationToken, invalid_token, SessionService,
  get_family_key, get_consumed_key,
}
use server_kit.Authentication.Sessions.Store.{State, get_session, read_family}
use server_kit.Authentication.Sessions.Store.Frame.{IsToken}
use server_kit.Authentication.Sessions.Store.Families.{read_family-add_jti}
use server_kit.Authentication.Sessions.Store.Reads.{get_session-revoke_family}
use server_kit.Authentication.Sessions.Operations.{filled}
use server_kit.Authentication.Sessions.Tokens.{
  refresh_ids, exp_of, consumed_ttl_seconds, issue_tokens_for_loaded_session, mint_refresh_token,
  exchange, refresh_session,
}
use server_kit.Authentication.Sessions.Tokens.Claim.{
  claim, get-claim, exchange-state, issue-state, get-exchange, read_family-claim, get_session-claim,
}

filled-idempotent : (o : Option Text) (x : Text) → filled o ≡ some x → filled (some x) ≡ some x
filled-idempotent none x h = cc
filled-idempotent (some []) x h = cc
filled-idempotent (some (c ∷ cs)) [] h = cc
filled-idempotent (some (c ∷ cs)) (d ∷ ds) h = refl

module _ {Claims V : Type 0} (service : SessionService Claims V) where
  -- A refresh token whose id is not consumed is claimed: it is consumed until it ends, and for a minute
  -- at least.
  refresh_session-claims :
      (now t : ℕ) (new_jti refresh_token jti family_id token : Text) (s : State service)
      → refresh_ids (service.decode now refresh_token service.issuer false service.audience)
        ≡ some (jti, family_id, token)
      → is_some (service.cache.get now (get_consumed_key jti) s) ≡ false
      → now ≤ t
      → t
        < now
          + consumed_ttl_seconds now
              (exp_of (service.decode now refresh_token service.issuer false service.audience))
            * 1000
      → is_some (
          service.cache.get t
            (get_consumed_key jti)
            (refresh_session service now new_jti refresh_token s).0)
        ≡ true
  unfolding refresh_session
  refresh_session-claims now t new_jti refresh_token jti family_id token s ids free h₁ h₂ =
      let exp = exp_of (service.decode now refresh_token service.issuer false service.audience) in
      rw
        (
          ids,
          refresh_session,
          service.cache.add_claimed now (get_consumed_key jti) service.consumed_text
              (some (consumed_ttl_seconds now exp * 1000)) s,
          free,
        )
        (rw (get-exchange service now t new_jti jti token jti (claim service now jti exp s).0 h₁)
          (get-claim service now t jti exp s h₁ h₂ free))

  -- The replay of a consumed refresh token.
  refresh_session-replayed :
      (now t : ℕ) (new_jti refresh_token jti family_id token other : Text) (s : State service)
      → refresh_ids (service.decode now refresh_token service.issuer false service.audience)
        ≡ some (jti, family_id, token)
      → is_some (service.cache.get now (get_consumed_key jti) s) ≡ true
      → now ≤ t
      → IsToken other
      → ((refresh_session service now new_jti refresh_token s).2 ≡ err invalid_token)
        × (get_session service t other (refresh_session service now new_jti refresh_token s).0 ≡ (
            if contains other (read_family service now family_id s).0.session_tokens
            then none
            else get_session service t other s))
  unfolding refresh_session
  refresh_session-replayed now t new_jti refresh_token jti family_id token other s ids consumed h
        fresh =
      let exp = exp_of (service.decode now refresh_token service.issuer false service.audience) in
      let s₁ = (claim service now jti exp s).0 in
      rw
        (
          ids,
          refresh_session,
          service.cache.add_claimed now (get_consumed_key jti) service.consumed_text
              (some (consumed_ttl_seconds now exp * 1000)) s,
          consumed,
        )
        (
          refl,
          get_session-revoke_family service now t family_id other s₁ h fresh
              ∙ rw
                  (
                    read_family-claim service now jti family_id exp s,
                    get_session-claim service now t jti other exp s h,
                  )
                  refl,
        )

  not_consumed :
      (now : ℕ) (new_jti refresh_token jti family_id token : Text) (s : State service)
      (tokens : AuthenticationToken)
      → refresh_ids (service.decode now refresh_token service.issuer false service.audience)
        ≡ some (jti, family_id, token)
      → (refresh_session service now new_jti refresh_token s).2 ≡ ok tokens
      → is_some (service.cache.get now (get_consumed_key jti) s) ≡ false
  unfolding refresh_session
  not_consumed now new_jti refresh_token jti family_id token s tokens ids done =
      elim (Bool-cases (is_some (service.cache.get now (get_consumed_key jti) s))) [
        | inr free ↦ free
        | inl consumed ↦
            let failed : (refresh_session service now new_jti refresh_token s).2
                ≡ err invalid_token =
              let exp =
                exp_of (service.decode now refresh_token service.issuer false service.audience) in
              rw
                (
                  ids,
                  refresh_session,
                  service.cache.add_claimed now (get_consumed_key jti) service.consumed_text
                      (some (consumed_ttl_seconds now exp * 1000)) s,
                  consumed,
                )
                refl in
            cc
      ]

  -- A refresh token that was exchanged once is consumed: presented again, while its id is kept and
  -- it decodes to the same ids, it fails, and every session that its family then lists is deleted
  -- and no other. Between the two anything may happen that leaves the id's entry alone. The tokens
  -- are such that no subject has its index under their keys.
  pub refresh_session-reuse :
      (now later t : ℕ) (new_jti next_jti refresh_token jti family_id token other : Text)
      (s s₁ : State service) (tokens : AuthenticationToken)
      → refresh_ids (service.decode now refresh_token service.issuer false service.audience)
        ≡ some (jti, family_id, token)
      → refresh_ids (service.decode later refresh_token service.issuer false service.audience)
        ≡ some (jti, family_id, token)
      → (refresh_session service now new_jti refresh_token s).2 ≡ ok tokens
      → now ≤ later
      → later
        < now
          + consumed_ttl_seconds now
              (exp_of (service.decode now refresh_token service.issuer false service.audience))
            * 1000
      → service.cache.get later (get_consumed_key jti) s₁
        ≡ service.cache.get later
            (get_consumed_key jti)
            (refresh_session service now new_jti refresh_token s).0
      → later ≤ t
      → IsToken other
      → ((refresh_session service later next_jti refresh_token s₁).2 ≡ err invalid_token)
        × (get_session service t other (refresh_session service later next_jti refresh_token s₁).0
            ≡ (if contains other (read_family service later family_id s₁).0.session_tokens
                then none
                else get_session service t other s₁))
  refresh_session-reuse now later t new_jti next_jti refresh_token jti family_id token other s s₁
        tokens ids ids₁ done h₁ h₂ kept h₃ fresh =
      let free = not_consumed now new_jti refresh_token jti family_id token s tokens ids done in
      let claimed =
        refresh_session-claims now later new_jti refresh_token jti family_id token s ids free h₁
          h₂ in
      let consumed : is_some (service.cache.get later (get_consumed_key jti) s₁) ≡ true =
        ap (is_some) kept ∙ claimed in
      refresh_session-replayed later t next_jti refresh_token jti family_id token other s₁ ids₁
        consumed h₃ fresh

  -- The exchange of an id that is not consumed puts the session into its family.
  refresh_session-joins :
      (now t : ℕ) (new_jti refresh_token jti family_id token : Text) (s : State service)
      (session : AuthenticationSession Claims)
      → refresh_ids (service.decode now refresh_token service.issuer false service.audience)
        ≡ some (jti, family_id, token)
      → is_some (service.cache.get now (get_consumed_key jti) s) ≡ false
      → get_session service now token s ≡ some session
      → filled session.family_id ≡ some family_id
      → now ≤ t
      → t < now + service.refresh_expires_in
      → contains session.session_token
          (read_family service t family_id
            (refresh_session service now new_jti refresh_token s).0).0.session_tokens
        ≡ true
  unfolding refresh_session
  refresh_session-joins now t new_jti refresh_token jti family_id token s session ids free found
        family h₁ h₂ =
      let exp = exp_of (service.decode now refresh_token service.issuer false service.audience) in
      let s₁ = (claim service now jti exp s).0 in
      let there : get_session service now token s₁ ≡ some session =
        get_session-claim service now now jti token exp s (omega arith) ∙ found in
      rw
        (
          ids,
          refresh_session,
          service.cache.add_claimed now (get_consumed_key jti) service.consumed_text
              (some (consumed_ttl_seconds now exp * 1000)) s,
          free,
        )
        (rw
          (
            exchange-state service now new_jti jti token session s₁ there,
            issue-state service now new_jti family_id session s₁ family,
          )
          (read_family-add_jti service now t family_id new_jti session.session_token s₁ h₁ h₂))

  read_family-same :
      (t : ℕ) (family_id : Text) (s s₁ : State service)
      → service.cache.get t (get_family_key family_id) s₁
        ≡ service.cache.get t (get_family_key family_id) s
      → read_family service t family_id s₁ ≡ read_family service t family_id s
  unfolding read_family
  read_family-same t family_id s s₁ e = rw (e, read_family) refl

  -- A refresh token used twice ends its session: if it is presented again and decodes to the same
  -- ids, while its id is kept, the lifetime of refresh tokens is not over and the entries of its
  -- id and its family are as the first exchange left them, the session is not found from then on.
  -- The session is stored under its own token, with the family of the refresh token, and no
  -- subject has its index under the key of that token.
  pub refresh_session-theft :
      (now later t : ℕ) (new_jti next_jti refresh_token jti family_id token : Text)
      (s s₁ : State service) (session : AuthenticationSession Claims) (tokens : AuthenticationToken)
      → refresh_ids (service.decode now refresh_token service.issuer false service.audience)
        ≡ some (jti, family_id, token)
      → refresh_ids (service.decode later refresh_token service.issuer false service.audience)
        ≡ some (jti, family_id, token)
      → get_session service now token s ≡ some session
      → session.session_token ≡ token
      → filled session.family_id ≡ some family_id
      → (refresh_session service now new_jti refresh_token s).2 ≡ ok tokens
      → now ≤ later
      → later
        < now
          + consumed_ttl_seconds now
              (exp_of (service.decode now refresh_token service.issuer false service.audience))
            * 1000
      → later < now + service.refresh_expires_in
      → service.cache.get later (get_consumed_key jti) s₁
        ≡ service.cache.get later
            (get_consumed_key jti)
            (refresh_session service now new_jti refresh_token s).0
      → service.cache.get later (get_family_key family_id) s₁
        ≡ service.cache.get later
            (get_family_key family_id)
            (refresh_session service now new_jti refresh_token s).0
      → later ≤ t
      → IsToken token
      → get_session service t token (refresh_session service later next_jti refresh_token s₁).0
        ≡ none
  refresh_session-theft now later t new_jti next_jti refresh_token jti family_id token s s₁ session
        tokens ids ids₁ found named family done h₁ h₂ h₃ kept family_kept h₄ fresh =
      let free = not_consumed now new_jti refresh_token jti family_id token s tokens ids done in
      let joined =
        refresh_session-joins now later new_jti refresh_token jti family_id token s session ids free
          found family h₁ h₃ in
      let listed : contains token (read_family service later family_id s₁).0.session_tokens ≡ true =
        rw
          (
            sym named,
            read_family-same later family_id (refresh_session service now new_jti refresh_token s).0
                s₁ family_kept,
          )
          joined in
      (refresh_session-reuse now later t new_jti next_jti refresh_token jti family_id token token s
        s₁ tokens ids ids₁ done h₁ h₂ kept h₄ fresh).1
      ∙ rw listed refl

  -- The claims of a refresh token, and its text.
  abbrev pub refresh_claims : Text → Text → Text → JwtPayload Claims
  refresh_claims jti family_id token = record {
    sub = none;
    session_token = some token;
    factors = [];
    claims = none;
    kind = some (codes "refresh");
    jti = some jti;
    family_id = some family_id;
    exp = none;
    scope = none;
  }

  abbrev pub minted : ℕ → Text → Text → AuthenticationSession Claims → Text
  minted now jti family_id session =
      (service.create now (refresh_claims jti family_id session.session_token) session.subject
        service.issuer service.audience service.refresh_expires_in).0

  issue-ok :
      (now : ℕ) (jti family_id : Text) (session : AuthenticationSession Claims) (s : State service)
      → filled session.family_id ≡ some family_id
      → (tokens : AuthenticationToken) × ((issue_tokens_for_loaded_session service now jti session
            s).1
          ≡ ok tokens)
        × (tokens.refresh_token ≡ minted now jti family_id session)
  unfolding issue_tokens_for_loaded_session mint_refresh_token
  issue-ok now jti family_id session s family =
      rw (family, issue_tokens_for_loaded_session, mint_refresh_token) (_, refl, refl)

  exchange-ok :
      (now : ℕ) (new_jti jti token : Text) (session : AuthenticationSession Claims)
      (tokens : AuthenticationToken) (s : State service)
      → get_session service now token s ≡ some session
      → (issue_tokens_for_loaded_session service now new_jti session s).1 ≡ ok tokens
      → (exchange service now new_jti jti token s).2 ≡ ok tokens
  unfolding exchange
  exchange-ok now new_jti jti token session tokens s found issued =
      rw (found, exchange) (rw issued refl)

  exchange_unclaimed :
      (now : ℕ) (new_jti refresh_token jti family_id own_family token : Text) (s : State service)
      (session : AuthenticationSession Claims)
      → refresh_ids (service.decode now refresh_token service.issuer false service.audience)
        ≡ some (jti, family_id, token)
      → is_some (service.cache.get now (get_consumed_key jti) s) ≡ false
      → get_session service now token s ≡ some session
      → filled session.family_id ≡ some own_family
      → (tokens : AuthenticationToken) × ((refresh_session service now new_jti refresh_token s).2
          ≡ ok tokens)
        × (tokens.refresh_token ≡ minted now new_jti own_family session)
  unfolding refresh_session
  exchange_unclaimed now new_jti refresh_token jti family_id own_family token s session ids free
        found family =
      let exp = exp_of (service.decode now refresh_token service.issuer false service.audience) in
      let s₁ = (claim service now jti exp s).0 in
      let there : get_session service now token s₁ ≡ some session =
        get_session-claim service now now jti token exp s (omega arith) ∙ found in
      let (tokens, issued, own) = issue-ok now new_jti own_family session s₁ family in
      (
        tokens,
        rw
            (
              ids,
              refresh_session,
              service.cache.add_claimed now (get_consumed_key jti) service.consumed_text
                  (some (consumed_ttl_seconds now exp * 1000)) s,
              free,
            )
            (exchange-ok now new_jti jti token session tokens s₁ there issued),
        own,
      )

  -- A live session can be refreshed, and with what it gets, once more: a refresh token whose id is not
  -- consumed is exchanged, if its session is held and has a family; and the refresh token that is
  -- returned can be exchanged in turn at a later time, if the session is then held unchanged, the new id
  -- is not consumed, and the new token decodes to the ids of the claims that it was made of. The new id
  -- and the session's own token are not empty.
  pub refresh_session-live :
      (now later : ℕ) (new_jti next_jti refresh_token jti family_id own_family token : Text)
      (s s₁ : State service) (session : AuthenticationSession Claims)
      → refresh_ids (service.decode now refresh_token service.issuer false service.audience)
        ≡ some (jti, family_id, token)
      → is_some (service.cache.get now (get_consumed_key jti) s) ≡ false
      → get_session service now token s ≡ some session
      → filled session.family_id ≡ some own_family
      → filled (some new_jti) ≡ some new_jti
      → filled (some session.session_token) ≡ some session.session_token
      → refresh_ids (
          service.decode later
            (minted now new_jti own_family session)
            service.issuer
            false
            service.audience)
        ≡ refresh_ids (some (refresh_claims new_jti own_family session.session_token))
      → is_some (service.cache.get later (get_consumed_key new_jti) s₁) ≡ false
      → get_session service later session.session_token s₁ ≡ some session
      → (tokens : AuthenticationToken) × ((refresh_session service now new_jti refresh_token s).2
          ≡ ok tokens)
        × ((next : AuthenticationToken) × ((refresh_session service later next_jti
                tokens.refresh_token s₁).2
              ≡ ok next))
  refresh_session-live now later new_jti next_jti refresh_token jti family_id own_family token s s₁
        session ids free found family filled_jti filled_token honest new still =
      let (tokens, exchanged, own) =
        exchange_unclaimed now new_jti refresh_token jti family_id own_family token s session ids
          free found family in
      let claims_ids : refresh_ids (some (refresh_claims new_jti own_family session.session_token))
          ≡ some (new_jti, own_family, session.session_token) =
        rw (filled_jti, filled-idempotent session.family_id own_family family, filled_token) refl in
      let (next, again, _) =
        exchange_unclaimed later next_jti tokens.refresh_token new_jti own_family own_family
          session.session_token s₁ session (rw own (honest ∙ claims_ids)) new still family in
      (tokens, exchanged, (next, again))
