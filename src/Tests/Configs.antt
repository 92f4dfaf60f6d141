-- ===== src/Tests/Configs.antt =====
-- The theorem on nauti-fabric/src/config.rs at a configuration without a table of bounds.
use nauti_virtualizer.Prelude.{true, false, none, inl, ◌≢◌, refl}
use nauti_virtualizer.Rpc.{RpcRequest}
use nauti_virtualizer.Auth.{authorize, granted}
use nauti_virtualizer.Config.{
  Features, Files, AgentConfig, default_config, default_auth, build_auth_provider,
}
use nauti_virtualizer.Config.Selection.{default_ttl_blocks_leases}
use nauti_virtualizer.Tests.Requests.{words, caller}

abbrev every : Features
every = record {
  auth_ttl = true;
  auth_oauth = true;
  auth_shared_secret = true;
  vfio = true;
  cloud_hypervisor = true;
}

abbrev no_files : Files
no_files = record {
  env = none;
  exists = λ path. false;
  read_to_string = λ path. inl "not found";
  from_str = λ text. inl "not a table";
}

abbrev timed : AgentConfig
timed = record default_config { auth = record default_auth { method = "ttl" } }

default_ttl_blocks_leases_example :
    authorize words
      (build_auth_provider every no_files timed)
      caller
      (RpcRequest.lease_exclusive "gpu.0" "eve" 60)
    ≢ granted
default_ttl_blocks_leases_example =
    default_ttl_blocks_leases every no_files timed words caller "gpu.0" "eve" 59 refl refl refl
