-- ===== src/Rpc/Policy.antt =====
-- What the authorization layer guarantees of the fabric behind it, and where it does not look.
use nauti_virtualizer.Prelude.{
  ℕ, suc, ◌+◌, ◌≤◌, ◌<◌, String, ◌≡◌, ◌≢◌, refl, ap, Bool, true, false, some, List, [], ◌∷◌, length,
  arith, eq_refl,
}
use nauti_virtualizer.Dict.{get, retain, get-retain, get-insert}
use nauti_virtualizer.Resource.{Lease, ResourceRequest}
use nauti_virtualizer.Fabric
use nauti_virtualizer.Fabric.{Fabric, ActiveLease, Outcome, ok, err, panic, unexpired}
use nauti_virtualizer.Rpc.{RpcRequest, RpcResponse, dispatch, respond_with, from_secs}
use nauti_virtualizer.Auth
use nauti_virtualizer.Auth.{
  AuthProvider, RequestContext, Format, Verdict, granted, rejected, AuthRejection, ttl_bound,
  TtlBound, authorize, check_ttl, authorize_ttl, oauth2_bearer, shared_secret, OAuth2Bearer,
  SharedSecret,
}
use nauti_virtualizer.Rpc.Serve.{Timed, judge, handle, serve}

-- The two stubs.
pub data IsStub : AuthProvider → Type 0 where
  oauth : (o : OAuth2Bearer) → IsStub (oauth2_bearer o)
  secret : (s : SharedSecret) → IsStub (shared_secret s)

abbrev pub AllErrors : List RpcResponse → Type 0
AllErrors [] = Unit {0}
AllErrors (RpcResponse.error e ∷ rs) = AllErrors rs
AllErrors (_ ∷ rs) = ⊥

stub_rejects :
    (fmt : Format) {auth : AuthProvider} (ctx : RequestContext)
    → IsStub auth
    → (r : RpcRequest) → (why : AuthRejection) × (authorize fmt auth ctx r ≡ rejected why)
unfolding authorize
stub_rejects fmt ctx (oauth o) r = (_, refl)
stub_rejects fmt ctx (secret s) r = (_, refl)

abbrev pub is_renewal : RpcRequest → Bool
is_renewal (RpcRequest.lease_renew l ttl_secs) = true
is_renewal _ = false

respond_with_safe :
    {A : Type 0} (k : A → RpcResponse) (o : Outcome A) → o ≢ panic → respond_with k o ≢ panic
unfolding respond_with
respond_with_safe k (ok a) h = ground arith
respond_with_safe k (err e) h = ground arith
respond_with_safe k panic h = absurd (h refl)

module _ {W : Type 0} (horizon : ℕ) where
  rejected_answer :
      (fmt : Format) (auth : AuthProvider) (ctx : RequestContext) (r : Timed) (f : Fabric W)
      (why : AuthRejection)
      → authorize fmt auth ctx r.request ≡ rejected why
      → handle horizon fmt auth ctx r f
        ≡ (ok (RpcResponse.error (record { message = Auth.to_string why })), f)
  unfolding handle
  rejected_answer fmt auth ctx r f why e = rw e

  rejected_all :
      (fmt : Format) (auth : AuthProvider) (ctx : RequestContext) (rs : List Timed) (f : Fabric W)
      → ((r : RpcRequest) → (why : AuthRejection) × (authorize fmt auth ctx r ≡ rejected why))
      → ((serve horizon fmt auth ctx rs f).1 ≡ f)
        × AllErrors (serve horizon fmt auth ctx rs f).0
        × (length (serve horizon fmt auth ctx rs f).0 ≡ length rs)
  unfolding serve
  rejected_all fmt auth ctx [] f closed = (refl, tt, refl)
  rejected_all fmt auth ctx (r ∷ rs) f closed =
      let ih = rejected_all fmt auth ctx rs f closed in
      rw (rejected_answer fmt auth ctx r f (closed r.request).0 (closed r.request).1)
        (ih.0, ih.1, ap suc ih.2)

  -- The two unfinished providers fail closed: whatever the requests on a connection and however the
  -- provider is configured, every answer is an error and the fabric stays as it was.
  pub stub_fails_closed :
      (fmt : Format) {auth : AuthProvider} (ctx : RequestContext) (rs : List Timed) (f : Fabric W)
      → IsStub auth
      → ((serve horizon fmt auth ctx rs f).1 ≡ f)
        × AllErrors (serve horizon fmt auth ctx rs f).0
        × (length (serve horizon fmt auth ctx rs f).0 ≡ length rs)
  stub_fails_closed fmt {auth} ctx rs f s = rejected_all fmt auth ctx rs f (stub_rejects fmt ctx s)

  lease_safe :
      (id owner : String) (ttl t0 t1 : ℕ) (f : Fabric W)
      → f.leases_poisoned ≡ false
      → t1 + ttl ≤ horizon
      → ((Fabric.lease_exclusive horizon id owner ttl t0 t1 f).0 ≢ panic)
        × ((Fabric.lease_exclusive horizon id owner ttl t0 t1 f).1.leases_poisoned ≡ false)
  unfolding Fabric.lease_exclusive
  lease_safe id owner ttl t0 t1 f sound fits = (ground arith, ground arith)

  attach_safe :
      (name : String) (l : Lease) (now : ℕ) (f : Fabric W)
      → f.leases_poisoned ≡ false
      → ((Fabric.attach name l now f).0 ≢ panic)
        × ((Fabric.attach name l now f).1.leases_poisoned ≡ false)
  unfolding Fabric.attach
  attach_safe name l now f sound = (ground arith, ground arith)

  release_safe :
      (l : Lease) (f : Fabric W)
      → f.leases_poisoned ≡ false
      → ((Fabric.release l f).0 ≢ panic) × ((Fabric.release l f).1.leases_poisoned ≡ false)
  unfolding Fabric.release
  release_safe l f sound = (ground arith, ground arith)

  find_safe :
      (q : ResourceRequest) (f : Fabric W)
      → f.leases_poisoned ≡ false
      → ((Fabric.find_available q f).0 ≢ panic)
        × ((Fabric.find_available q f).1.leases_poisoned ≡ false)
  unfolding Fabric.find_available
  find_safe q f sound = (ground arith, ground arith)

  judged_lease :
      (fmt : Format) (b : TtlBound) (id owner : String) (ttl_secs t0 t1 : ℕ) (f : Fabric W)
      → f.leases_poisoned ≡ false
      → t1 + b.max ≤ horizon
      → let g =
          judge horizon
            (check_ttl fmt b (from_secs ttl_secs) owner)
            (record {
              request = RpcRequest.lease_exclusive id owner ttl_secs;
              first = t0;
              second = t1;
            })
            f in
        (g.0 ≢ panic) × (g.1.leases_poisoned ≡ false)
  unfolding judge check_ttl dispatch
  judged_lease fmt b id owner ttl_secs t0 t1 f sound fits =
      let s = lease_safe id owner (from_secs ttl_secs) t0 t1 f sound in
      (
        ground (
          arith,
          s,
          respond_with_safe RpcResponse.leased
              (Fabric.lease_exclusive horizon id owner (from_secs ttl_secs) t0 t1 f).0,
        ),
        ground (arith, s),
      )

  judged :
      (fmt : Format) (b : TtlBound) (r : RpcRequest) (t0 t1 : ℕ) (f : Fabric W)
      → f.leases_poisoned ≡ false
      → is_renewal r ≡ false
      → t1 + b.max ≤ horizon
      → let g =
          judge horizon
            (authorize_ttl fmt b r)
            (record { request = r; first = t0; second = t1 })
            f in
        (g.0 ≢ panic) × (g.1.leases_poisoned ≡ false)
  unfolding judge authorize_ttl dispatch Fabric.heartbeat
  judged fmt b RpcRequest.ping t0 t1 f sound other fits = (ground arith, sound)
  judged fmt b RpcRequest.inventory t0 t1 f sound other fits = (ground arith, sound)
  judged fmt b (RpcRequest.find_available q) t0 t1 f sound other fits =
      let s = find_safe q f sound in (respond_with_safe _ _ s.0, s.1)
  judged fmt b (RpcRequest.lease_exclusive id owner ttl_secs) t0 t1 f sound other fits =
      judged_lease fmt b id owner ttl_secs t0 t1 f sound fits
  judged fmt b (RpcRequest.attach name l) t0 t1 f sound other fits =
      let s = attach_safe name l t0 f sound in (respond_with_safe _ _ s.0, s.1)
  judged fmt b (RpcRequest.release l) t0 t1 f sound other fits =
      let s = release_safe l f sound in (respond_with_safe _ _ s.0, s.1)
  judged fmt b (RpcRequest.lease_renew l ttl_secs) t0 t1 f sound other fits = absurd (ground arith)
  judged fmt b (RpcRequest.heartbeat node) t0 t1 f sound other fits = (ground arith, sound)

  -- Behind `TtlBound` on a sound lock, while the deadline `max` from now can be represented, no
  -- request but a renewal makes the agent panic or poisons the lock, accepted or not.
  pub ttl_bound_keeps_lock_sound :
      (fmt : Format) (b : TtlBound) (ctx : RequestContext) (r : Timed) (f : Fabric W)
      → f.leases_poisoned ≡ false
      → is_renewal r.request ≡ false
      → r.second + b.max ≤ horizon
      → ((handle horizon fmt (ttl_bound b) ctx r f).0 ≢ panic)
        × ((handle horizon fmt (ttl_bound b) ctx r f).1.leases_poisoned ≡ false)
  unfolding handle judge authorize authorize_ttl
  ttl_bound_keeps_lock_sound fmt b ctx r f sound other fits =
      judged fmt b r.request r.first r.second f sound other fits

  -- `TtlBound` does not look at renewals: whatever its bounds, on a sound lock the owner of a live
  -- lease moves the deadline to any time that can be represented.
  pub ttl_bound_ignores_renewal :
      (fmt : Format) (b : TtlBound) (ctx : RequestContext) (l : Lease) (ttl_secs t0 t1 : ℕ)
      (f : Fabric W) (a : ActiveLease)
      → f.leases_poisoned ≡ false
      → get l.resource_id f.leases ≡ some a
      → a.lease.id ≡ l.id
      → t0 < a.expires_at
      → t1 + from_secs ttl_secs ≤ horizon
      → let r : Timed = record {
        request = RpcRequest.lease_renew l ttl_secs;
        first = t0;
        second = t1;
      } in
        get l.resource_id (handle horizon fmt (ttl_bound b) ctx r f).1.leases
        ≡ some (record a { expires_at = t1 + from_secs ttl_secs })
  unfolding handle authorize dispatch Fabric.renew_lease
  ttl_bound_ignores_renewal fmt b ctx l ttl_secs t0 t1 f a sound found same live fits = ground (
    arith,
    get-retain (unexpired t0) l.resource_id f.leases,
    eq_refl l.resource_id,
    get-insert l.resource_id l.resource_id (record a { expires_at = t1 + from_secs ttl_secs })
        (retain (unexpired t0) f.leases),
  )

  -- Behind `TtlBound` with any bounds, a renewal of a live lease on a sound lock, by its owner, whose
  -- deadline passes the last instant panics the agent and poisons the lock.
  pub ttl_bound_renewal_panics :
      (fmt : Format) (b : TtlBound) (ctx : RequestContext) (l : Lease) (ttl_secs t0 t1 : ℕ)
      (f : Fabric W) (a : ActiveLease)
      → f.leases_poisoned ≡ false
      → get l.resource_id f.leases ≡ some a
      → a.lease.id ≡ l.id
      → t0 < a.expires_at
      → horizon < t1 + from_secs ttl_secs
      → let r : Timed = record {
        request = RpcRequest.lease_renew l ttl_secs;
        first = t0;
        second = t1;
      } in
        ((handle horizon fmt (ttl_bound b) ctx r f).0 ≡ panic)
        × ((handle horizon fmt (ttl_bound b) ctx r f).1.leases_poisoned ≡ true)
  unfolding handle authorize dispatch Fabric.renew_lease
  ttl_bound_renewal_panics fmt b ctx l ttl_secs t0 t1 f a sound found same live late = (
    ground (arith, get-retain (unexpired t0) l.resource_id f.leases),
    ground (arith, get-retain (unexpired t0) l.resource_id f.leases),
  )
