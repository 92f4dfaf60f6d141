-- ===== src/Tests/Requests.antt =====
-- The theorems on the frames and the agent of nauti-fabric/src/rpc.rs and on the authorization of
-- nauti-fabric/src/rpc_auth.rs, at a codec of unary numbers and at one GPU.
use nauti_virtualizer.Prelude.{
  ℕ, zero, suc, ◌≡◌, ◌≢◌, refl, ap, false, none, some, List, [], ◌∷◌, ◌++◌, arith, length,
}
use nauti_virtualizer.Fabric.{panic}
use nauti_virtualizer.Rpc.{RpcRequest}
use nauti_virtualizer.Auth.{
  RequestContext, Format, ttl_bound, shared_secret, SharedSecret, default_ttl_bound,
}
use nauti_virtualizer.Rpc.Frame.{Codec, Read, write_frame, read_frame, read_frame-write_frame}
use nauti_virtualizer.Rpc.Serve.{Timed, handle, serve}
use nauti_virtualizer.Rpc.Policy.{secret, AllErrors, stub_fails_closed, ttl_bound_keeps_lock_sound}
use nauti_virtualizer.Tests.Samples.{held, idle, busy}

unfoldable zeros : ℕ → List ℕ
zeros zero = []
zeros (suc n) = 0 ∷ zeros n

length-zeros : (n : ℕ) → length (zeros n) ≡ n
unfolding zeros
length-zeros zero = refl
length-zeros (suc n) = ap suc (length-zeros n)

-- A number as that many zero bytes.
abbrev unary : Codec ℕ
unary = record {
  encode = zeros;
  decode = λ bs. some (length bs);
  decode-encode = λ n. ap some (length-zeros n);
}

read_frame-write_frame_example :
    read_frame unary ((2 ∷ 0 ∷ 0 ∷ 0 ∷ 0 ∷ 0 ∷ []) ++ 9 ∷ []) ≡ Read.ok 2 (9 ∷ [])
unfolding zeros write_frame
read_frame-write_frame_example =
    read_frame-write_frame unary 2 (2 ∷ 0 ∷ 0 ∷ 0 ∷ 0 ∷ 0 ∷ []) (9 ∷ []) (omega arith) refl

abbrev pub words : Format
words = record { duration = λ d. "some time"; quoted = λ s. s }

abbrev pub caller : RequestContext
caller = record { remote_endpoint_id = "a"; local_endpoint_id = "b" }

abbrev no_secret : SharedSecret
no_secret = record { token = none }

abbrev asked : List Timed
asked =
    record { request = RpcRequest.lease_exclusive "gpu.0" "eve" 60; first = 1; second = 2 }
    ∷ record { request = RpcRequest.release held; first = 3; second = 4 }
    ∷ []

stub_fails_closed_example :
    ((serve 1000 words (shared_secret no_secret) caller asked busy).1 ≡ busy)
    × AllErrors (serve 1000 words (shared_secret no_secret) caller asked busy).0
    × (length (serve 1000 words (shared_secret no_secret) caller asked busy).0 ≡ 2)
stub_fails_closed_example = stub_fails_closed 1000 words caller asked busy (secret no_secret)

abbrev far : ℕ
far = 10_000_000_000_000

abbrev forever : Timed
forever = record {
  request = RpcRequest.lease_exclusive "gpu.0" "eve" 99_999;
  first = 1;
  second = 2;
}

ttl_bound_keeps_lock_sound_example :
    ((handle far words (ttl_bound default_ttl_bound) caller forever idle).0 ≢ panic)
    × ((handle far words (ttl_bound default_ttl_bound) caller forever idle).1.leases_poisoned
        ≡ false)
ttl_bound_keeps_lock_sound_example =
    ttl_bound_keeps_lock_sound far words default_ttl_bound caller forever idle refl refl
      (omega arith)
