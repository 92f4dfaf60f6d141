-- ===== src/Config/Selection.antt =====
-- Which authorization an agent gets from its configuration: nauti-fabric/src/config.rs with the
-- providers of nauti-fabric/src/rpc_auth.rs.
use nauti_virtualizer.Prelude.{ℕ, suc, String, true, ◌≡◌, ◌≢◌, arith, subst}
use nauti_virtualizer.Rpc.{RpcRequest, from_secs}
use nauti_virtualizer.Auth.{
  RequestContext, Format, authorize, authorize_ttl, check_ttl, granted, TtlBound, ttl_bound,
}
use nauti_virtualizer.Config.{Features, Files, AgentConfig, default_ttl, build_auth_provider}

abbrev no_second : TtlBound
no_second = record { min = 0; max = 0 }

check_ttl-no_second :
    (fmt : Format) (owner : String) (secs : ℕ)
    → check_ttl fmt no_second (from_secs (suc secs)) owner ≢ granted
unfolding check_ttl
check_ttl-no_second fmt owner secs h = ground (arith, h)

default_ttl_bounds :
    (ft : Features) (files : Files) (c : AgentConfig)
    → ft.auth_ttl ≡ true
    → c.auth.method ≡ "ttl"
    → c.auth.ttl ≡ default_ttl
    → build_auth_provider ft files c ≡ ttl_bound no_second
unfolding build_auth_provider
default_ttl_bounds ft files c on method bounds = simp (on, method, bounds)

-- With the feature, the method "ttl" and the bounds that stand where the file has no table of them,
-- no lease of a second or more is granted.
pub default_ttl_blocks_leases :
    (ft : Features) (files : Files) (c : AgentConfig) (fmt : Format) (ctx : RequestContext)
    (id owner : String) (secs : ℕ)
    → ft.auth_ttl ≡ true
    → c.auth.method ≡ "ttl"
    → c.auth.ttl ≡ default_ttl
    → authorize fmt
        (build_auth_provider ft files c)
        ctx
        (RpcRequest.lease_exclusive id owner (suc secs))
      ≢ granted
unfolding authorize authorize_ttl
default_ttl_blocks_leases ft files c fmt ctx id owner secs on method bounds h =
    check_ttl-no_second fmt owner secs (
      subst (λ p. authorize fmt p ctx (RpcRequest.lease_exclusive id owner (suc secs)) ≡ granted)
        (default_ttl_bounds ft files c on method bounds) h)
