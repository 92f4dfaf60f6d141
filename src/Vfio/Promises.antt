-- ===== src/Vfio/Promises.antt =====
-- What `VfioGpuAdapter` of nauti-fabric/src/vmm/vfio.rs promises: which requests it attaches, and
-- what the host then offers.
use nauti_virtualizer.Prelude.{
  ℕ, String, true, Option, none, some, List, In, ◌⊎◌, inl, inr, ◌≡◌, ◌↔◌, refl, subst, arith,
  Bool-cases,
}
use nauti_virtualizer.Resource.{Resource, Lease, Attachment, ok, same_kind, gpu}
use nauti_virtualizer.Adapters.{attachment}
use nauti_virtualizer.Vfio.Address.{normalize_bdf}
use nauti_virtualizer.Vfio.Host.{
  PciDevice, Host, VfioState, available, not_bound, no_iommu, not_present, discover_vfio_state,
}
use nauti_virtualizer.Vfio.Passthrough.{
  Launcher, open_real, state_at, details, opened_at, open_state, attach_at, address, attach,
}
use nauti_virtualizer.Vfio.Found.{IsReady, Sound, listed, discover_from-Sound, state_at-In}

module _ (open_passthrough : Launcher) (host : Host) (r : Resource) (lease : Lease) where
  -- What an attachment needs: a GPU with an address where discovery finds an open device that the
  -- launcher opens.
  pub record CanPass : Type 0 where
    pub is_gpu_kind : same_kind r.kind gpu ≡ true
    pub raw : String
    pub addressed : address open_passthrough host r ≡ some raw
    pub at : String
    pub group : ℕ
    pub path : String
    pub state :
        state_at (normalize_bdf raw) (discover_vfio_state host).gpus ≡ available at group path
    pub opened : String
    pub opens : open_passthrough host (normalize_bdf raw) group ≡ inr opened

  opened_at-ok :
      (bdf discovered : String) (group : ℕ) (o : String ⊎ String) (a : Attachment)
      → opened_at open_passthrough host r lease bdf group discovered o ≡ ok a
      → (opened : String) × (o ≡ inr opened)
  unfolding opened_at
  opened_at-ok bdf discovered group (inl reason) a h = ground (arith, h)
  opened_at-ok bdf discovered group (inr opened) a h = (opened, refl)

  open_state-ok :
      (bdf : String) (s : VfioState) (a : Attachment)
      → open_state open_passthrough host r lease bdf s ≡ ok a
      → (at : String) × (group : ℕ) × (path : String) × (opened : String) × (s
          ≡ available at group path)
        × (open_passthrough host bdf group ≡ inr opened)
  unfolding open_state
  open_state-ok bdf (available at group path) a h =
      let (opened, e) = opened_at-ok bdf path group (open_passthrough host bdf group) a h in
      (at, group, path, opened, refl, e)
  open_state-ok bdf (not_bound at) a h = ground (arith, h)
  open_state-ok bdf (no_iommu at) a h = ground (arith, h)
  open_state-ok bdf (not_present at) a h = ground (arith, h)

  attach_at-ok :
      (o : Option String) (a : Attachment)
      → same_kind r.kind gpu ≡ true
      → address open_passthrough host r ≡ o
      → attach_at open_passthrough host r lease o ≡ ok a
      → CanPass
  unfolding attach_at
  attach_at-ok none a kind e h = ground (arith, h)
  attach_at-ok (some raw) a kind e h =
      let (at, group, path, opened, state, opens) =
        open_state-ok (normalize_bdf raw)
          (state_at (normalize_bdf raw) (discover_vfio_state host).gpus) a h in
      record {
        is_gpu_kind = kind;
        raw = raw;
        addressed = e;
        at = at;
        group = group;
        path = path;
        state = state;
        opened = opened;
        opens = opens;
      }

  attach-ok : (a : Attachment) → attach open_passthrough host r lease ≡ ok a → CanPass
  unfolding attach
  attach-ok a h = elim (Bool-cases (same_kind r.kind gpu)) [
    | inl kind ↦
        attach_at-ok (address open_passthrough host r) a kind refl (ground (arith, h, kind))
    | inr other ↦ absurd (ground (arith, h, other))
  ]

  CanPass-attach :
      (p : CanPass)
      → attach open_passthrough host r lease
        ≡ ok (
            attachment r lease "gpu-vfio"
              (details host r (normalize_bdf p.raw) p.group p.opened p.path))
  unfolding attach attach_at open_state opened_at
  CanPass-attach p = simp (p.is_gpu_kind, p.addressed, p.state, p.opens)

  -- The adapter attaches exactly the GPUs with an address at which discovery finds a device that is
  -- open for passthrough and that the launcher opens.
  pub attach_vfio_iff : ((a : Attachment) × (attach open_passthrough host r lease ≡ ok a)) ↔ CanPass
  attach_vfio_iff = (
    (λ (a, h). attach-ok a h),
    (λ p. (
      attachment r lease "gpu-vfio" (details host r (normalize_bdf p.raw) p.group p.opened p.path),
      CanPass-attach p,
    )),
  )

-- With the launcher of the program, a resource that the adapter attaches has an address at which the
-- host has a device that is ready: a display device in an IOMMU group whose device file exists, bound
-- to vfio-pci.
pub attach_vfio-IsReady :
    (host : Host) (entries : List (Option String × PciDevice)) (r : Resource) (lease : Lease)
    (a : Attachment)
    → host.devices ≡ some entries
    → attach open_real host r lease ≡ ok a
    → (raw : String) × (d : PciDevice) × (group : ℕ) × (address open_real host r ≡ some raw)
      × In (some (normalize_bdf raw), d) entries
      × IsReady host d group
unfolding Sound discover_vfio_state listed
attach_vfio-IsReady host entries r lease a e h =
    let p = attach-ok open_real host r lease a h in
    let (m, same) =
      state_at-In (normalize_bdf p.raw) p.at p.group p.path (discover_vfio_state host).gpus
        p.state in
    let (d, listed_d, ready, path) =
      discover_from-Sound host host.devices (available p.at p.group p.path) m in
    (
      p.raw,
      d,
      p.group,
      p.addressed,
      subst (λ b. In (some b, d) entries) same
          (subst (λ o. In (some p.at, d) (listed host o)) e listed_d),
      ready,
    )
