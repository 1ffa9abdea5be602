-- ===== src/Authentication/Sessions.antt =====
-- packages/authentication/src/authentication.session.service.ts: what the service keeps and uses. An
-- operation runs at one time, in milliseconds, and takes the random ids that it would make.
pub mod Store
pub mod Operations
pub mod Tokens
use server_kit.Base.{ℕ, ◌/◌, Text, codes, Option, some, none, List, map, ◌++◌, Bool, ◌≡◌}
use server_kit.Cache.Provider.{CacheProvider}
use server_kit.Authentication.Types.{
  AuthenticationSessionFactor, Json, SerializedFactor, serialize_factor, deserialize_factor,
  to_unix_integer, from_seconds, whole_second, whole_factor,
}

pub record AuthenticationSession (Claims : Type 0) : Type 0 where
  pub session_token : Text
  pub subject : Text
  pub issued_at : ℕ
  pub expires_at : ℕ
  pub last_accessed_at : ℕ
  pub factors : List AuthenticationSessionFactor
  pub claims : Claims
  pub family_id : Option Text

pub data SessionRevocationReason : Type 0 where
  logout rotate theft expiry : SessionRevocationReason

-- The calls of the lifecycle hooks.
pub data HookCall (Claims : Type 0) : Type 0 where
  on_session_created : AuthenticationSession Claims → HookCall Claims
  on_session_refreshed : AuthenticationSession Claims → Text → HookCall Claims
  on_session_revoked : AuthenticationSession Claims → SessionRevocationReason → HookCall Claims
  on_validation_failed : Text → Text → HookCall Claims
  on_refresh_reuse_detected : Text → Text → Text → HookCall Claims

pub record AuthenticationToken : Type 0 where
  pub access_token : Text
  pub token_type : Text
  pub expires_in : ℕ
  pub refresh_token : Text
  pub scope : Text

pub data Unauthorized : Type 0 where
  invalid_token : Unauthorized

pub record SessionShape (Claims : Type 0) : Type 0 where
  pub session_token : Text
  pub subject : Text
  pub issued_at : ℕ
  pub expires_at : ℕ
  pub last_accessed_at : ℕ
  pub factors : List SerializedFactor
  pub claims : Claims
  pub family_id : Option Text

pub record RefreshFamilyBlob : Type 0 where
  pub jtis : List Text
  pub session_tokens : List Text

-- What JSON.parse finds of a family: the fields that are arrays.
pub record PartialFamilyBlob : Type 0 where
  pub jtis : Option (List Text)
  pub session_tokens : Option (List Text)

-- The claims of a token that the service reads or writes.
pub record JwtPayload (Claims : Type 0) : Type 0 where
  pub sub : Option Text
  pub session_token : Option Text
  pub factors : List AuthenticationSessionFactor
  pub claims : Option Claims
  pub kind : Option Text
  pub jti : Option Text
  pub family_id : Option Text
  pub exp : Option ℕ
  pub scope : Option (List Text)

-- The service and what it is made with: a cache of the texts `V`, the signing of tokens, and the merging
-- of claims. A text that does not parse as a family is one without a value of `parse_family`.
pub record SessionService (Claims V : Type 0) : Type 1 where
  pub cache : CacheProvider V
  pub json_session : Json V (SessionShape Claims)
  pub json_tokens : Json V (List Text)
  pub stringify_family : RefreshFamilyBlob → V
  pub parse_family : V → Option PartialFamilyBlob
  pub parse_stringify_family :
      (blob : RefreshFamilyBlob)
      → parse_family (stringify_family blob)
        ≡ some (record { jtis = some blob.jtis; session_tokens = some blob.session_tokens })
  pub consumed_text : V
  pub create : ℕ → JwtPayload Claims → Text → Text → Text → ℕ → Text × JwtPayload Claims
  pub decode : ℕ → Text → Text → Bool → Text → Option (JwtPayload Claims)
  pub deep_merge : Claims → Claims → Claims
  pub issuer : Text
  pub audience : Text
  pub default_expires_in : ℕ
  pub refresh_expires_in : ℕ

unfoldable pub get_session_key : Text → Text
get_session_key id = codes "auth_session_" ++ id

unfoldable pub get_subject_key : Text → Text
get_subject_key id = codes "auth_session_subject_" ++ id

unfoldable pub get_family_key : Text → Text
get_family_key family_id = codes "auth_refresh_family_" ++ family_id

unfoldable pub get_consumed_key : Text → Text
get_consumed_key jti = codes "auth_refresh_consumed_" ++ jti

module _ {Claims : Type 0} where
  abbrev pub shape_of : AuthenticationSession Claims → SessionShape Claims
  shape_of session = record {
    session_token = session.session_token;
    subject = session.subject;
    issued_at = to_unix_integer session.issued_at;
    expires_at = to_unix_integer session.expires_at;
    last_accessed_at = to_unix_integer session.last_accessed_at;
    factors = map serialize_factor session.factors;
    claims = session.claims;
    family_id = session.family_id;
  }

  abbrev pub session_of : SessionShape Claims → AuthenticationSession Claims
  session_of session = record {
    session_token = session.session_token;
    subject = session.subject;
    issued_at = from_seconds session.issued_at;
    expires_at = from_seconds session.expires_at;
    last_accessed_at = from_seconds session.last_accessed_at;
    factors = map deserialize_factor session.factors;
    claims = session.claims;
    family_id = session.family_id;
  }

  -- What a stored session is read back as: its times in whole seconds.
  abbrev pub whole_session : AuthenticationSession Claims → AuthenticationSession Claims
  whole_session session = record session {
    issued_at = whole_second session.issued_at;
    expires_at = whole_second session.expires_at;
    last_accessed_at = whole_second session.last_accessed_at;
    factors = map whole_factor session.factors;
  }
