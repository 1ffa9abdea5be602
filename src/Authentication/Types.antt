-- ===== src/Authentication/Types.antt =====
-- packages/authentication/src: the types that the services share. A DateTime is its number of
-- milliseconds since the epoch.
use server_kit.Base.{ℕ, ◌*◌, ◌/◌, Text, Option, ◌≡◌}

pub data AuthenticationFactorKind : Type 0 where
  knowledge possession biometric : AuthenticationFactorKind

pub data AuthenticationFactorMethod : Type 0 where
  phone password authenticator email fido oidc : AuthenticationFactorMethod

pub record AuthenticationSessionFactor : Type 0 where
  pub issued_at : ℕ
  pub authenticated_at : ℕ
  pub method : AuthenticationFactorMethod
  pub method_id : Text
  pub kind : AuthenticationFactorKind

pub record TargetActor : Type 0 where
  pub kind : Text
  pub actor_id : Text
  pub organization_id : Option Text

pub data RecoveryReason : Type 0 where
  password_reset mfa_recovery unlock full_recovery : RecoveryReason

pub data RecoveryChannel : Type 0 where
  email phone recovery_code : RecoveryChannel

pub data RecoveryActionKind : Type 0 where
  reset_password unlock_account rebind_mfa_factor full_recovery : RecoveryActionKind

-- DateTime.toUnixInteger and DateTime.fromSeconds.
abbrev pub to_unix_integer : ℕ → ℕ
to_unix_integer time = time / 1000

abbrev pub from_seconds : ℕ → ℕ
from_seconds seconds = seconds * 1000

-- JSON.stringify and JSON.parse on the values of a type: what is written is read back.
pub record Json (V S : Type 0) : Type 0 where
  pub stringify : S → V
  pub parse : V → S
  pub parse_stringify : (s : S) → parse (stringify s) ≡ s

-- A factor as it is written, its times in seconds.
pub record SerializedFactor : Type 0 where
  pub method : AuthenticationFactorMethod
  pub method_id : Text
  pub kind : AuthenticationFactorKind
  pub issued_at : ℕ
  pub authenticated_at : ℕ

abbrev pub serialize_factor : AuthenticationSessionFactor → SerializedFactor
serialize_factor factor = record {
  method = factor.method;
  method_id = factor.method_id;
  kind = factor.kind;
  issued_at = to_unix_integer factor.issued_at;
  authenticated_at = to_unix_integer factor.authenticated_at;
}

abbrev pub deserialize_factor : SerializedFactor → AuthenticationSessionFactor
deserialize_factor factor = record {
  method = factor.method;
  method_id = factor.method_id;
  kind = factor.kind;
  issued_at = from_seconds factor.issued_at;
  authenticated_at = from_seconds factor.authenticated_at;
}

-- A time without its milliseconds.
abbrev pub whole_second : ℕ → ℕ
whole_second time = time / 1000 * 1000

-- What a stored factor is read back as.
abbrev pub whole_factor : AuthenticationSessionFactor → AuthenticationSessionFactor
whole_factor factor = record factor {
  issued_at = whole_second factor.issued_at;
  authenticated_at = whole_second factor.authenticated_at;
}
