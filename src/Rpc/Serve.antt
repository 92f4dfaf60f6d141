-- ===== src/Rpc/Serve.antt =====
-- The loop of `FabricAgent::accept` in nauti-fabric/src/rpc.rs: each request is authorized, then
-- dispatched. The requests that a connection delivers are a list, each with its clock readings; the
-- connection ends at the first panic.
use nauti_virtualizer.Prelude.{ℕ, List, [], ◌∷◌}
use nauti_virtualizer.Fabric.{Fabric, Outcome, ok, err, panic}
use nauti_virtualizer.Rpc.{RpcRequest, RpcResponse, dispatch}
use nauti_virtualizer.Auth
use nauti_virtualizer.Auth.{
  AuthProvider, RequestContext, Format, Verdict, granted, rejected, ttl_bound, TtlBound, authorize,
  check_ttl, authorize_ttl,
}

pub record Timed : Type 0 where
  pub request : RpcRequest
  pub first : ℕ
  pub second : ℕ

module _ {W : Type 0} (horizon : ℕ) where
  unfoldable pub judge : Verdict → Timed → Fabric W → Outcome RpcResponse × Fabric W
  judge granted r f = dispatch horizon r.request r.first r.second f
  judge (rejected why) r f = (ok (RpcResponse.error (record { message = Auth.to_string why })), f)

  unfoldable pub handle :
      Format → AuthProvider → RequestContext → Timed → Fabric W → Outcome RpcResponse × Fabric W
  unfolding judge
  handle fmt auth ctx r f = judge (authorize fmt auth ctx r.request) r f

  -- Whether the connection goes on after an answer.
  abbrev pub follow :
      Outcome RpcResponse × Fabric W
      → (Fabric W → List RpcResponse × Fabric W)
      → List RpcResponse × Fabric W
  follow (ok response, f) next = (response ∷ (next f).0, (next f).1)
  follow (err e, f) next = ([], f)
  follow (panic, f) next = ([], f)

  -- The answers, as far as the connection's task lives, and the fabric that it leaves.
  unfoldable pub serve :
      Format → AuthProvider → RequestContext → List Timed → Fabric W → List RpcResponse × Fabric W
  serve fmt auth ctx [] f = ([], f)
  serve fmt auth ctx (r ∷ rs) f = follow (handle fmt auth ctx r f) (serve fmt auth ctx rs)
