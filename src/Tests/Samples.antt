-- ===== src/Tests/Samples.antt =====
-- One node with one GPU, before and after a lease of it, for the tests of nauti-fabric/src/lib.rs.
use nauti_virtualizer.Prelude.{ℕ, true, false, none, some, [], ◌∷◌}
use nauti_virtualizer.Resource.{
  Resource, Lease, Attachment, Result, ResourceRequest, gpu, available, lease_not_found,
}
use nauti_virtualizer.Fabric.{Fabric, Adapter, ActiveLease}

abbrev pub card : Resource
card = record {
  id = "gpu.0";
  kind = gpu;
  capacity = 24;
  unit = "GiB";
  node = "local";
  state = available;
  exclusive = true;
  attributes = ("gpu.uuid", "GPU-1") ∷ [];
}

abbrev pub held : Lease
held = record { id = 1; resource_id = "gpu.0"; owner = "alice" }

abbrev pub entry : ActiveLease
entry = record { lease = held; expires_at = 50 }

abbrev pub plug : Attachment
plug = record { resource_id = "gpu.0"; lease_id = 1; adapter = "plain"; details = [] }

-- An adapter that counts its attachments, and one that never lets go.
abbrev pub plain : Adapter ℕ
plain = record {
  name = "plain";
  attach = λ r l w. (Result.ok plug, 1);
  detach = λ r l w. (Result.ok tt, 0);
  capability_report = λ w. record { name = "plain"; scope = "test"; healthy = true; detail = [] };
}

abbrev pub stuck : Adapter ℕ
stuck = record {
  name = "stuck";
  attach = λ r l w. (Result.ok plug, 1);
  detach = λ r l w. (Result.err lease_not_found, w);
  capability_report = λ w. record { name = "stuck"; scope = "test"; healthy = true; detail = [] };
}

abbrev pub idle : Fabric ℕ
idle = record {
  resources = ("gpu.0", card) ∷ [];
  leases = [];
  leases_poisoned = false;
  adapters = ("plain", plain) ∷ ("stuck", stuck) ∷ [];
  attachments = [];
  heartbeats = ("local", 3) ∷ [];
  next_lease_id = 0;
  world = 0;
}

abbrev pub busy : Fabric ℕ
busy = record {
  resources = ("gpu.0", card) ∷ [];
  leases = ("gpu.0", entry) ∷ [];
  leases_poisoned = false;
  adapters = ("plain", plain) ∷ ("stuck", stuck) ∷ [];
  attachments = [];
  heartbeats = ("local", 3) ∷ [];
  next_lease_id = 1;
  world = 0;
}

abbrev pub plugged : Fabric ℕ
plugged = record busy { attachments = ("gpu.0", "stuck") ∷ [] }

abbrev pub any_gpu : ResourceRequest
any_gpu = record {
  kind = some gpu;
  minimum_capacity = none;
  node = none;
  required_attributes = [];
  exclusive = true;
}
