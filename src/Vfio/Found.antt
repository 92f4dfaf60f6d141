-- ===== src/Vfio/Found.antt =====
-- What the discovery of nauti-fabric/src/vmm/vfio.rs finds: every open state is of a device that is
-- ready.
use nauti_virtualizer.Prelude.{
  ℕ, String, true, false, Option, none, some, List, [], ◌∷◌, In, inl, inr, ◌≡◌, refl, sym, ap,
  subst, ◌∙◌, arith, str_eq, eq_iff, Bool-cases,
}
use nauti_virtualizer.Vfio.Host.{
  PciDevice, Host, VfioDiscovery, VfioState, available, not_bound, no_iommu, not_present, bdf_of,
  read_hex, is_gpu, is_all_ones, is_vfio_pci, read_group, group_path, in_group, classify_gpu, found,
  walk, discover_from,
}
use nauti_virtualizer.Vfio.Passthrough.{state_at}

module _ (host : Host) where
  -- A device that is ready for passthrough: a display device on the bus, in an IOMMU group whose
  -- device file exists, with vfio-pci as its driver.
  pub record IsReady (d : PciDevice) (group : ℕ) : Type 0 where
    pub display : is_gpu d ≡ true
    pub on_bus : is_all_ones (read_hex d.vendor) ≡ false
    pub grouped : read_group d.iommu_group ≡ some group
    pub bound : is_vfio_pci d.driver ≡ true
    pub exposed : host.path_exists (group_path host group) ≡ true

  -- The state says no more than what was found.
  unfoldable pub Sound : List (Option String × PciDevice) → VfioState → Type 0
  Sound entries (available bdf group path) =
      (d : PciDevice) × In (some bdf, d) entries × IsReady d group × (path ≡ group_path host group)
  Sound entries s = Unit

  in_group-Sound :
      (bdf : String) (d : PciDevice) (o : Option ℕ) (entries : List (Option String × PciDevice))
      → is_gpu d ≡ true
      → is_all_ones (read_hex d.vendor) ≡ false
      → read_group d.iommu_group ≡ o
      → In (some bdf, d) entries
      → Sound entries (in_group host bdf d o)
  unfolding Sound in_group
  in_group-Sound bdf d none entries display on_bus e m = tt
  in_group-Sound bdf d (some group) entries display on_bus e m =
      elim (Bool-cases (is_vfio_pci d.driver)) [
        | inr unbound ↦ rw unbound tt
        | inl bound ↦ rw bound (elim (Bool-cases (host.path_exists (group_path host group))) [
          | inr hidden ↦ rw hidden tt
          | inl exposed ↦ rw exposed (
            d,
            m,
            record {
              display = display;
              on_bus = on_bus;
              grouped = e;
              bound = bound;
              exposed = exposed;
            },
            refl,
          )
        ])
      ]

  classify_gpu-Sound :
      (bdf : String) (d : PciDevice) (entries : List (Option String × PciDevice))
      → is_gpu d ≡ true
      → In (some bdf, d) entries
      → Sound entries (classify_gpu host bdf d)
  unfolding Sound classify_gpu
  classify_gpu-Sound bdf d entries display m = elim (Bool-cases (is_all_ones (read_hex d.vendor))) [
    | inl off ↦ rw off tt
    | inr on ↦ rw on (in_group-Sound bdf d (read_group d.iommu_group) entries display on refl m)
  ]

  further :
      (s : VfioState) (e : Option String × PciDevice) (entries : List (Option String × PciDevice))
      → Sound entries s
      → Sound (e ∷ entries) s
  unfolding Sound
  further (available bdf group path) e entries (d, m, ready, same) = (d, inr m, ready, same)
  further (not_bound bdf) e entries h = tt
  further (no_iommu bdf) e entries h = tt
  further (not_present bdf) e entries h = tt

  found_gpu :
      (bdf : String) (d : PciDevice) (rest : VfioDiscovery)
      → is_gpu d ≡ true
      → (found host bdf d rest).gpus ≡ classify_gpu host bdf d ∷ rest.gpus
  unfolding found
  found_gpu bdf d rest e = rw e

  found_other :
      (bdf : String) (d : PciDevice) (rest : VfioDiscovery)
      → is_gpu d ≡ false
      → (found host bdf d rest).gpus ≡ rest.gpus
  unfolding found
  found_other bdf d rest e = rw e

  first_or_rest :
      (bdf : String) (d : PciDevice) (entries : List (Option String × PciDevice)) (s : VfioState)
      (gpus : List VfioState)
      → is_gpu d ≡ true
      → (In s gpus → Sound entries s)
      → In s (classify_gpu host bdf d ∷ gpus)
      → Sound ((some bdf, d) ∷ entries) s
  first_or_rest bdf d entries s gpus display ih (inl same) =
      subst (Sound ((some bdf, d) ∷ entries)) same
        (classify_gpu-Sound bdf d ((some bdf, d) ∷ entries) display (inl refl))
  first_or_rest bdf d entries s gpus display ih (inr m) = further s (some bdf, d) entries (ih m)

  walk-Sound :
      (entries : List (Option String × PciDevice)) (s : VfioState)
      → In s (walk host entries).gpus
      → Sound entries s
  unfolding walk
  walk-Sound [] s m = absurd m
  walk-Sound ((none, d) ∷ entries) s m = further s (none, d) entries (walk-Sound entries s m)
  walk-Sound ((some bdf, d) ∷ entries) s m = elim (Bool-cases (is_gpu d)) [
    | inl display ↦
        first_or_rest bdf d entries s (walk host entries).gpus display (walk-Sound entries s)
          (subst (λ gs. In s gs) (found_gpu bdf d (walk host entries) display) m)
    | inr other ↦
        further s (some bdf, d) entries
          (walk-Sound entries s
            (subst (λ gs. In s gs) (found_other bdf d (walk host entries) other) m))
  ]

  -- The entries of the device directory, none if it cannot be read.
  unfoldable pub listed :
      Option (List (Option String × PciDevice)) → List (Option String × PciDevice)
  listed none = []
  listed (some entries) = entries

  pub discover_from-Sound :
      (o : Option (List (Option String × PciDevice))) (s : VfioState)
      → In s (discover_from host o).gpus
      → Sound (listed o) s
  unfolding discover_from listed
  discover_from-Sound none s m = absurd m
  discover_from-Sound (some entries) s m = walk-Sound entries s m

-- The state at an address, if it is open, is one of the states and has that address.
pub state_at-In :
    (bdf at : String) (group : ℕ) (path : String) (gpus : List VfioState)
    → state_at bdf gpus ≡ available at group path
    → In (available at group path) gpus × (at ≡ bdf)
unfolding state_at bdf_of
state_at-In bdf at group path [] h = ground (arith, h)
state_at-In bdf at group path (s ∷ gpus) h = elim (Bool-cases (str_eq (bdf_of s) bdf)) [
  | inl same ↦
      let here : s ≡ available at group path = ground (arith, h) in
      (inl here, sym (ap bdf_of here) ∙ (eq_iff (bdf_of s) bdf).0 same)
  | inr other ↦ let (m, e) = state_at-In bdf at group path gpus (ground (arith, h)) in (inr m, e)
]
