-- ===== src/Config.antt =====
-- The configuration of the agent: nauti-fabric/src/config.rs. The features of the crate are the record
-- `Features`; the environment, the files and the TOML parser are the parameter `Files`.
use nauti_virtualizer.Prelude.{
  ℕ, String, Bool, true, false, not, ◌&&◌, ◌||◌, Option, none, some, List, [], ◌∷◌, ◌++◌, ◌⊎◌, inl,
  inr, ltb, str_eq, if◌then◌else◌,
}
use nauti_virtualizer.Rpc.{from_secs}
use nauti_virtualizer.Auth.{AuthProvider, no_auth, ttl_bound, oauth2_bearer, shared_secret}
use nauti_virtualizer.Http.Text.{trim}
use nauti_virtualizer.Vmm.Texts.{is_empty}
pub mod Selection

pub record Features : Type 0 where
  pub auth_ttl : Bool
  pub auth_oauth : Bool
  pub auth_shared_secret : Bool
  pub vfio : Bool
  pub cloud_hypervisor : Bool

pub record FabricConfig : Type 0 where
  pub auto_refresh_interval : ℕ

pub record TtlConfig : Type 0 where
  pub min_secs : ℕ
  pub max_secs : ℕ

pub record OAuth2Config : Type 0 where
  pub jwks_url : Option String
  pub audience : Option String
  pub client_secrets_file : Option String

pub record SharedSecretConfig : Type 0 where
  pub file : Option String

pub record AuthConfig : Type 0 where
  pub method : String
  pub ttl : TtlConfig
  pub oauth2 : OAuth2Config
  pub shared_secret : SharedSecretConfig

pub record VfioConfig : Type 0 where
  pub exclude_vendors : Option String
  pub exclude_iommu_groups : Option String
  pub auto_bind : Bool

pub record CloudHypervisorConfig : Type 0 where
  pub binary : String
  pub socket_dir : String
  pub kernel : Option String
  pub rootfs : Option String
  pub vcpus : ℕ
  pub memory_mib : ℕ

-- The fields of a feature that is off are there, and nothing reads them.
pub record AgentConfig : Type 0 where
  pub node : String
  pub fabric : FabricConfig
  pub auth : AuthConfig
  pub vfio : VfioConfig
  pub cloud_hypervisor : CloudHypervisorConfig

-- The derived `Default`s: zeros and empty texts, not the functions that serde's attributes name.
abbrev pub default_ttl : TtlConfig
default_ttl = record { min_secs = 0; max_secs = 0 }

abbrev pub default_auth : AuthConfig
default_auth = record {
  method = "none";
  ttl = default_ttl;
  oauth2 = record { jwks_url = none; audience = none; client_secrets_file = none };
  shared_secret = record { file = none };
}

abbrev pub default_config : AgentConfig
default_config = record {
  node = "";
  fabric = record { auto_refresh_interval = 0 };
  auth = default_auth;
  vfio = record { exclude_vendors = none; exclude_iommu_groups = none; auto_bind = false };
  cloud_hypervisor = record {
    binary = "";
    socket_dir = "";
    kernel = none;
    rootfs = none;
    vcpus = 0;
    memory_mib = 0;
  };
}

pub data ConfigError : Type 0 where
  not_found : String → ConfigError
  unreadable : String → String → ConfigError
  invalid_toml : String → ConfigError
  invalid_value : String → ConfigError
  feature_not_enabled : String → ConfigError

pub record Files : Type 0 where
  pub env : Option String
  pub exists : String → Bool
  pub read_to_string : String → String ⊎ String
  pub from_str : String → String ⊎ AgentConfig

unfoldable pub parsed_config : String ⊎ AgentConfig → ConfigError ⊎ AgentConfig
parsed_config (inl e) = inl (invalid_toml e)
parsed_config (inr c) = inr c

unfoldable pub config_of_text : Files → String → String ⊎ String → ConfigError ⊎ AgentConfig
config_of_text files path (inl e) = inl (unreadable path e)
config_of_text files path (inr text) = parsed_config (files.from_str text)

unfoldable pub from_file : Files → String → ConfigError ⊎ AgentConfig
from_file files path =
    if not (files.exists path)
    then inr default_config
    else config_of_text files path (files.read_to_string path)

unfoldable pub config_path : Option String → String
config_path none = "/etc/nauti/agent.toml"
config_path (some path) = path

unfoldable pub load : Files → ConfigError ⊎ AgentConfig
load files = from_file files (config_path files.env)

unfoldable pub warn_if : Bool → String → List String
warn_if b warning = if b then warning ∷ [] else []

unfoldable pub is_unset : Option String → Bool
is_unset none = true
is_unset (some path) = false

-- `AgentConfig::validate`
unfoldable pub validate_config : Features → AgentConfig → List String
validate_config ft c =
    warn_if (str_eq c.auth.method "ttl" && not ft.auth_ttl)
      "auth method 'ttl' selected but --features auth-ttl is not enabled; falling back to 'none'"
    ++ (warn_if (str_eq c.auth.method "oauth2" && not ft.auth_oauth)
          "auth method 'oauth2' selected but --features auth-oauth is not enabled; falling back to 'none'"
        ++ (warn_if (str_eq c.auth.method "shared-secret" && not ft.auth_shared_secret)
              "auth method 'shared-secret' selected but --features auth-shared-secret is not enabled; falling back to 'none'"
            ++ (warn_if (ltb 0 c.fabric.auto_refresh_interval)
                  "fabric.auto_refresh_interval is set but not yet implemented in agent loop"
                ++ (warn_if (ft.vfio && c.vfio.auto_bind)
                      "vfio.auto_bind is experimental; requires root and driverctl installed"
                    ++ warn_if
                        (ft.cloud_hypervisor
                          && (is_unset c.cloud_hypervisor.kernel
                              || is_unset c.cloud_hypervisor.rootfs))
                        "cloud_hypervisor.kernel and rootfs should be set for VM launch to work"))))

unfoldable pub unwrap_or_default : String ⊎ String → String
unwrap_or_default (inl e) = ""
unwrap_or_default (inr text) = text

unfoldable pub secret_token : Files → Option String → Option String
secret_token files none = none
secret_token files (some path) = some (trim (unwrap_or_default (files.read_to_string path)))

unfoldable pub build_auth_provider : Features → Files → AgentConfig → AuthProvider
build_auth_provider ft files c =
    if str_eq c.auth.method "ttl"
    then (if ft.auth_ttl
        then ttl_bound
            (record { min = from_secs c.auth.ttl.min_secs; max = from_secs c.auth.ttl.max_secs })
        else no_auth)
    else if str_eq c.auth.method "oauth2"
    then (if ft.auth_oauth
        then oauth2_bearer
            (record { jwks_url = c.auth.oauth2.jwks_url; audience = c.auth.oauth2.audience })
        else no_auth)
    else if str_eq c.auth.method "shared-secret"
    then (if ft.auth_shared_secret
        then shared_secret (record { token = secret_token files c.auth.shared_secret.file })
        else no_auth)
    else no_auth
