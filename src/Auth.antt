-- ===== src/Auth.antt =====
-- The authorization layer of nauti-fabric/src/rpc_auth.rs. A duration is in nanoseconds. How the
-- standard library prints a duration and a quoted text (`{:?}`) is the parameter `Format`.
use Prim.Native.String.{◌++◌}
use nauti_virtualizer.Prelude.{ℕ, String, Option, none, some, ltb, if◌then◌else◌}
use nauti_virtualizer.Rpc.{RpcRequest, from_secs}

pub record RequestContext : Type 0 where
  pub remote_endpoint_id : String
  pub local_endpoint_id : String

pub data AuthRejection : Type 0 where
  policy_violation : String → AuthRejection
  not_configured : String → String → AuthRejection
  invalid_credential : String → AuthRejection

pub record Format : Type 0 where
  pub duration : ℕ → String
  pub quoted : String → String

pub record TtlBound : Type 0 where
  pub min : ℕ
  pub max : ℕ

pub record OAuth2Bearer : Type 0 where
  pub jwks_url : Option String
  pub audience : Option String

pub record SharedSecret : Type 0 where
  pub token : Option String

-- The implementations of `AuthProvider`.
pub data AuthProvider : Type 0 where
  no_auth : AuthProvider
  ttl_bound : TtlBound → AuthProvider
  oauth2_bearer : OAuth2Bearer → AuthProvider
  shared_secret : SharedSecret → AuthProvider

pub data Verdict : Type 0 where
  granted : Verdict
  rejected : AuthRejection → Verdict

abbrev pub default_ttl_bound : TtlBound
default_ttl_bound = record { min = from_secs 1; max = from_secs 3600 }

unfoldable pub name : AuthProvider → String
name no_auth = "none"
name (ttl_bound b) = "ttl-bound"
name (oauth2_bearer o) = "oauth2-bearer"
name (shared_secret s) = "shared-secret"

unfoldable pub check_ttl : Format → TtlBound → ℕ → String → Verdict
check_ttl fmt b ttl owner =
    if ltb ttl b.min
    then rejected (
        policy_violation (
          "lease ttl "
          ++ fmt.duration ttl
          ++ " for owner "
          ++ fmt.quoted owner
          ++ " is below minimum "
          ++ fmt.duration b.min))
    else if ltb b.max ttl
    then rejected (
        policy_violation (
          "lease ttl "
          ++ fmt.duration ttl
          ++ " for owner "
          ++ fmt.quoted owner
          ++ " exceeds maximum "
          ++ fmt.duration b.max))
    else granted

unfoldable pub authorize_ttl : Format → TtlBound → RpcRequest → Verdict
unfolding check_ttl
authorize_ttl fmt b (RpcRequest.lease_exclusive id owner ttl_secs) =
    check_ttl fmt b (from_secs ttl_secs) owner
authorize_ttl fmt b _ = granted

unfoldable pub oauth_hint : Option String → Option String → String
oauth_hint none audience = "set [auth] jwks_url in nauti-agent.toml"
oauth_hint (some url) none = "set [auth] oauth.audience in nauti-agent.toml"
oauth_hint (some url) (some aud) = "token validation not yet implemented; this is a documented stub"

unfoldable pub secret_hint : Option String → String
secret_hint none = "set [auth] shared_secret.file in nauti-agent.toml"
secret_hint (some token) = "header check not yet implemented; needs X-Nauti-Token on RpcRequest"

unfoldable pub authorize : Format → AuthProvider → RequestContext → RpcRequest → Verdict
unfolding authorize_ttl oauth_hint secret_hint
authorize fmt no_auth ctx request = granted
authorize fmt (ttl_bound b) ctx request = authorize_ttl fmt b request
authorize fmt (oauth2_bearer o) ctx request =
    rejected (not_configured "oauth2-bearer" (oauth_hint o.jwks_url o.audience))
authorize fmt (shared_secret s) ctx request =
    rejected (not_configured "shared-secret" (secret_hint s.token))

-- `AuthRejection::fmt`, as `RpcError::from` uses it
unfoldable pub to_string : AuthRejection → String
to_string (policy_violation reason) = "policy violation: " ++ reason
to_string (not_configured adapter hint) = adapter ++ " not configured: " ++ hint
to_string (invalid_credential reason) = "invalid credential: " ++ reason
