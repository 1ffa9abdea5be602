-- ===== src/Authentication/Sessions/Tokens/Tests.antt =====
-- The service over the cache in memory: its texts are the values themselves, a token is its own id, and
-- decoding gives the refresh token of one session.
use server_kit.Authentication.Sessions.Store.{add_jti_to_family, write_family}
use server_kit.Base.{
  ℕ, Text, codes, text_eq, contains, is_some, ok, err, true, false, if◌then◌else◌, List, [], ◌∷◌,
  Option, some, none, ◌≡◌, refl, arith,
}
use server_kit.Cache.Memory.{memory_cache}
use server_kit.Authentication.Types.{AuthenticationSessionFactor, knowledge, password}
use server_kit.Authentication.Sessions.{
  AuthenticationSession, logout, AuthenticationToken, JwtPayload, SessionService, SessionShape,
  RefreshFamilyBlob, PartialFamilyBlob, invalid_token, get_session_key, get_subject_key,
  get_family_key, get_consumed_key, whole_session,
}
use server_kit.Authentication.Sessions.Store.{
  State, get_session, serialize_session, deserialize_session, get_subject_sessions,
  ensure_subject_session, read_family, family_of,
}
use server_kit.Authentication.Sessions.Operations.{
  or_else, is_subject, create_session, update_session, lookup_session_from_jwt, delete_session,
  get_sessions_for_subject,
}
use server_kit.Authentication.Sessions.Tokens.{
  rotate_session, refresh_session, exchange, mint_refresh_token, issue_tokens_for_loaded_session,
}
use server_kit.Authentication.Sessions.Operations.Sessions.{
  get_session-create_session, get_session-delete_session, lookup_session_from_jwt-ok, Updated,
  update_session-outcome,
}
use server_kit.Authentication.Sessions.Tokens.Rotation.{get_session-rotate_session}
use server_kit.Authentication.Sessions.Tokens.Refresh.{
  refresh_session-reuse, refresh_session-theft, refresh_session-live,
}

data Stored : Type 0 where
  of_session : SessionShape ℕ → Stored
  of_tokens : List Text → Stored
  of_family : RefreshFamilyBlob → Stored
  one : Stored

abbrev blank : SessionShape ℕ
blank = record {
  session_token = [];
  subject = [];
  issued_at = 0;
  expires_at = 0;
  last_accessed_at = 0;
  factors = [];
  claims = 0;
  family_id = none;
}

abbrev session_in : Stored → SessionShape ℕ
session_in (of_session s) = s
session_in other = blank

abbrev tokens_in : Stored → List Text
tokens_in (of_tokens tokens) = tokens
tokens_in other = []

abbrev family_in : Stored → Option PartialFamilyBlob
family_in (of_family blob) =
    some (record { jtis = some blob.jtis; session_tokens = some blob.session_tokens })
family_in other = none

abbrev refresh_payload : Text → JwtPayload ℕ
refresh_payload jti = record {
  sub = some (codes "ann");
  session_token = some (codes "a1");
  factors = [];
  claims = none;
  kind = some (codes "refresh");
  jti = some jti;
  family_id = some (codes "f1");
  exp = some 100000;
  scope = none;
}

abbrev service : SessionService ℕ Stored
service = record {
  cache = memory_cache Stored;
  json_session = record { stringify = of_session; parse = session_in; parse_stringify = λ s. refl };
  json_tokens = record { stringify = of_tokens; parse = tokens_in; parse_stringify = λ s. refl };
  stringify_family = of_family;
  parse_family = family_in;
  parse_stringify_family = λ blob. refl;
  consumed_text = one;
  create = λ now payload subject issuer audience lifetime. (or_else payload.jti [], payload);
  decode = λ now jwt issuer ignored audience. some (refresh_payload jwt);
  deep_merge = λ old new. new;
  issuer = codes "issuer";
  audience = codes "audience";
  default_expires_in = 600000;
  refresh_expires_in = 86400000;
}

abbrev password_factor : AuthenticationSessionFactor
password_factor = record {
  issued_at = 5250;
  authenticated_at = 5999;
  method = password;
  method_id = codes "p";
  kind = knowledge;
}

abbrev empty : State service
empty = []

-- A session a1 of ann, in the family f1.
abbrev started : State service
started =
    (create_session service 7250 (codes "a1") (codes "f1") (codes "ann") 3 (password_factor ∷ [])
      none empty).0

opened : Unit {0}
unfolding get_session_key get_subject_key get_family_key get_consumed_key get_session
    serialize_session deserialize_session get_subject_sessions ensure_subject_session read_family
    family_of create_session
opened = tt

get_session-create_session_example :
    let (s₁, calls, session) =
      create_session service 7250
        (codes "a1")
        (codes "f1")
        (codes "ann")
        3
        (password_factor ∷ [])
        none
        empty in
    get_session service 9000 (codes "a1") s₁ ≡ (
      if text_eq (codes "a1") (codes "a1")
      then some (whole_session session)
      else get_session service 9000 (codes "a1") empty)
unfolding get_subject_key get_session_key
get_session-create_session_example =
    get_session-create_session service 7250 9000 (codes "a1") (codes "a1") (codes "f1")
      (codes "ann") 3 (password_factor ∷ []) none empty (omega arith) (omega arith)
      (λ subject. refl)

get_session-delete_session_example :
    get_session service 9000
      (codes "a1")
      (delete_session service 8000 (codes "a1") logout started).0
    ≡ (if text_eq (codes "a1") (codes "a1")
        then none
        else get_session service 9000 (codes "a1") started)
unfolding get_subject_key get_session_key
get_session-delete_session_example =
    get_session-delete_session service 8000 9000 (codes "a1") (codes "a1") logout started
      (omega arith) (λ subject. refl)

abbrev stored_session : AuthenticationSession ℕ
stored_session = record {
  session_token = codes "a1";
  subject = codes "ann";
  issued_at = 7000;
  expires_at = 607000;
  last_accessed_at = 7000;
  factors =
      record {
        issued_at = 5000;
        authenticated_at = 5000;
        method = password;
        method_id = codes "p";
        kind = knowledge;
      }
      ∷ [];
  claims = 3;
  family_id = some (codes "f1");
}

stored : get_session service 8000 (codes "a1") started ≡ some stored_session
unfolding opened
stored = refl

lookup_session_from_jwt-ok_example :
    (service.decode 8000 (codes "j") service.issuer false service.audience
      ≡ some (refresh_payload (codes "j")))
    × (get_session service 8000 (or_else (some (codes "a1")) []) started ≡ some stored_session)
    × (is_subject (codes "ann") (some (codes "ann")) ≡ true)
unfolding opened lookup_session_from_jwt
lookup_session_from_jwt-ok_example =
    lookup_session_from_jwt-ok service 8000 (codes "j") false started stored_session
      (refresh_payload (codes "j")) refl

update_session-outcome_example :
    Updated service 8000 9000
      (codes "a1")
      (codes "a1")
      (codes "ann")
      none
      (some 4)
      (some password_factor)
      started
      (update_session service 8000
        (codes "a1")
        (codes "ann")
        none
        (some 4)
        (some password_factor)
        started)
unfolding get_subject_key get_session_key
update_session-outcome_example =
    update_session-outcome service 8000 9000 (codes "a1") (codes "a1") (codes "ann") none (some 4)
      (some password_factor) started (omega arith) (omega arith) (λ subject. refl)

abbrev rotated_session : AuthenticationSession ℕ
rotated_session = record {
  session_token = codes "b2";
  subject = codes "ann";
  issued_at = 8000;
  expires_at = 608000;
  last_accessed_at = 8000;
  factors = stored_session.factors;
  claims = 4;
  family_id = some (codes "f1");
}

get_session-rotate_session_example :
    get_session service 9000
      (codes "b2")
      (rotate_session service 8000
        (codes "b2")
        (codes "f2")
        (codes "j1")
        (codes "a1")
        4
        none
        started).0
    ≡ (if text_eq (codes "a1") (codes "b2")
        then none
        else (if text_eq (codes "b2") (codes "b2")
            then some (whole_session rotated_session)
            else get_session service 9000 (codes "b2") started))
unfolding get_subject_key get_session_key
get_session-rotate_session_example =
    get_session-rotate_session service 8000 9000 (codes "b2") (codes "f2") (codes "j1") (codes "a1")
      (codes "b2") 4 none started stored_session (omega arith) (omega arith) (λ subject. refl)
      stored

abbrev refreshed : State service
refreshed = (refresh_session service 8000 (codes "j2") (codes "j1") started).0

abbrev tokens : AuthenticationToken
tokens = record {
  access_token = [];
  token_type = codes "Bearer";
  expires_in = 0;
  refresh_token = codes "j2";
  scope = [];
}

exchanged : (refresh_session service 8000 (codes "j2") (codes "j1") started).2 ≡ ok tokens
unfolding opened refresh_session exchange issue_tokens_for_loaded_session mint_refresh_token
exchanged = refl

refresh_session-reuse_example :
    ((refresh_session service 9000 (codes "j3") (codes "j1") refreshed).2 ≡ err invalid_token)
    × (get_session service 9500
          (codes "a1")
          (refresh_session service 9000 (codes "j3") (codes "j1") refreshed).0
        ≡ (if contains
              (codes "a1")
              (read_family service 9000 (codes "f1") refreshed).0.session_tokens
            then none
            else get_session service 9500 (codes "a1") refreshed))
unfolding get_subject_key get_session_key
refresh_session-reuse_example =
    refresh_session-reuse service 8000 9000 9500 (codes "j2") (codes "j3") (codes "j1") (codes "j1")
      (codes "f1") (codes "a1") (codes "a1") started refreshed tokens refl refl exchanged
      (omega arith) (omega arith) refl (omega arith) (λ subject. refl)

refresh_session-theft_example :
    get_session service 9500
      (codes "a1")
      (refresh_session service 9000 (codes "j3") (codes "j1") refreshed).0
    ≡ none
unfolding get_subject_key get_session_key
refresh_session-theft_example =
    refresh_session-theft service 8000 9000 9500 (codes "j2") (codes "j3") (codes "j1") (codes "j1")
      (codes "f1") (codes "a1") started refreshed stored_session tokens refl refl stored refl refl
      exchanged (omega arith) (omega arith) (omega arith) refl refl (omega arith) (λ subject. refl)

refresh_session-live_example :
    (issued : AuthenticationToken) × ((refresh_session service 8000
        (codes "j2")
        (codes "j1")
        started).2
      ≡ ok issued)
    × ((next : AuthenticationToken) × ((refresh_session service 9000
            (codes "j3")
            issued.refresh_token
            refreshed).2
          ≡ ok next))
unfolding opened refresh_session exchange issue_tokens_for_loaded_session mint_refresh_token
    add_jti_to_family write_family
refresh_session-live_example =
    refresh_session-live service 8000 9000 (codes "j2") (codes "j3") (codes "j1") (codes "j1")
      (codes "f1") (codes "f1") (codes "a1") started refreshed stored_session refl refl stored refl
      refl refl refl refl refl

-- The index of a subject lives as long as the session that was created last: a longer one is no longer
-- listed when a shorter one is over.
abbrev short_after_long : State service
short_after_long =
    (create_session service 8000 (codes "b2") (codes "f2") (codes "ann") 3 [] (some 1000) started).0

not_listed :
    (is_some (get_session service 20000 (codes "a1") short_after_long) ≡ true)
    × (get_sessions_for_subject service 20000 (codes "ann") short_after_long ≡ [])
unfolding opened get_sessions_for_subject
not_listed = (refl, refl)
