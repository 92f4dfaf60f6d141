-- ===== src/Topology/Devices.antt =====
-- The distribution of the PCI devices in nauti-fabric/src/topology.rs: each device of the host stands
-- under one node.
use Prim.Native.Nat.{compare, Ordering}
use nauti_virtualizer.Prelude.{
  ℕ, ◌+◌, Option, none, some, List, [], ◌∷◌, ◌++◌, ◌≡◌, arith, ◌==◌, Bool-cases, inl, inr,
}
use nauti_virtualizer.Topology.{
  PciDeviceReport, NumaNodeReport, PciObject, NumaObject, Hardware, Index, unwrap_or, report_of,
  push_at, push, Sorted, sort_device, sort_devices, take_out, node_report, make_nodes, leftovers,
  attach_rest, finish, discover,
}

-- The devices in the map, and the devices under the nodes, counted by a test on the devices.
module _ (p : PciDeviceReport → ℕ) where
  pub tally : List PciDeviceReport → ℕ
  tally [] = 0
  tally (d ∷ ds) = p d + tally ds

  pub indexed : Index → ℕ
  indexed [] = 0
  indexed ((j, ds) ∷ m) = tally ds + indexed m

  pub under : List NumaNodeReport → ℕ
  under [] = 0
  under (n ∷ ns) = tally n.pci_devices + under ns

  pub present : List PciObject → ℕ
  present [] = 0
  present (o ∷ os) = p (report_of o) + present os

  tally-append : (xs ys : List PciDeviceReport) → tally (xs ++ ys) ≡ tally xs + tally ys
  unfolding tally
  tally-append [] ys = omega arith
  tally-append (x ∷ xs) ys = omega (arith, tally-append xs ys)

  indexed-push_at :
      (o : Ordering) (k j : ℕ) (r : PciDeviceReport) (ds : List PciDeviceReport) (m rest : Index)
      → indexed rest ≡ p r + indexed m
      → indexed (push_at o k r j ds m rest) ≡ p r + (tally ds + indexed m)
  unfolding indexed push_at tally
  indexed-push_at Ordering.lt k j r ds m rest h = omega arith
  indexed-push_at Ordering.eq k j r ds m rest h = omega (arith, tally-append ds (r ∷ []))
  indexed-push_at Ordering.gt k j r ds m rest h = omega arith

  indexed-push : (k : ℕ) (r : PciDeviceReport) (m : Index) → indexed (push k r m) ≡ p r + indexed m
  unfolding indexed push tally
  indexed-push k r [] = omega arith
  indexed-push k r ((j, ds) ∷ m) =
      indexed-push_at (compare k j) k j r ds m (push k r m) (indexed-push k r m)

  held : Sorted → ℕ
  held s = indexed s.by_node + tally s.unassigned

  held-sort_device :
      (r : PciDeviceReport) (o : Option ℕ) (s : Sorted) → held (sort_device r o s) ≡ p r + held s
  unfolding held sort_device tally
  held-sort_device r none s = omega (arith, tally-append s.unassigned (r ∷ []))
  held-sort_device r (some k) s = omega (arith, indexed-push k r s.by_node)

  held-sort_devices :
      (os : List PciObject) (s : Sorted) → held (sort_devices os s) ≡ present os + held s
  unfolding sort_devices present
  held-sort_devices [] s = omega arith
  held-sort_devices (o ∷ os) s = omega (
    arith,
    held-sort_devices os (sort_device (report_of o) o.local_node s),
    held-sort_device (report_of o) o.local_node s,
  )

  found_tally : Option (List PciDeviceReport) → ℕ
  found_tally o = tally (unwrap_or [] o)

  indexed-take_out :
      (k : ℕ) (m : Index)
      → tally (unwrap_or [] (take_out k m).0) + indexed (take_out k m).1 ≡ indexed m
  unfolding take_out indexed tally unwrap_or
  indexed-take_out k [] = omega arith
  indexed-take_out k ((j, ds) ∷ m) = elim (Bool-cases (j == k)) [
    | inl e ↦ ground (arith, e)
    | inr e ↦ ground (arith, e, indexed-take_out k m)
  ]

  under-make_nodes :
      (os : List NumaObject) (m : Index)
      → under (make_nodes os m).0 + indexed (make_nodes os m).1 ≡ indexed m
  unfolding make_nodes under node_report
  under-make_nodes [] m = omega arith
  under-make_nodes (o ∷ os) m =
      let k = unwrap_or 0 o.os_index in
      omega (arith, indexed-take_out k m, under-make_nodes os (take_out k m).1)

  tally-leftovers :
      (m : Index) (ds : List PciDeviceReport) → tally (leftovers m ds) ≡ indexed m + tally ds
  unfolding leftovers indexed
  tally-leftovers [] ds = omega arith
  tally-leftovers ((j, es) ∷ m) ds = omega (arith, tally-leftovers m (ds ++ es), tally-append ds es)

  under-attach_rest :
      (ns : List NumaNodeReport) (ds : List PciDeviceReport)
      → under (attach_rest ns ds) ≡ under ns + tally ds
  unfolding attach_rest under tally
  under-attach_rest ns [] = omega arith
  under-attach_rest [] (d ∷ ds) = omega arith
  under-attach_rest (n ∷ ns) (d ∷ ds) = omega (arith, tally-append n.pci_devices (d ∷ ds))

  -- No PCI device is lost or doubled: however the devices are counted, the reports of the nodes hold
  -- what `hwloc` listed.
  pub discover-present : (hw : Hardware) → under (discover hw) ≡ present hw.pci_objects
  unfolding discover finish held indexed tally
  discover-present hw =
      let sorted = sort_devices hw.pci_objects (record { by_node = []; unassigned = [] }) in
      let nodes = make_nodes hw.numa_objects sorted.by_node in
      omega (
        arith,
        held-sort_devices hw.pci_objects (record { by_node = []; unassigned = [] }),
        under-make_nodes hw.numa_objects sorted.by_node,
        tally-leftovers (nodes.1) sorted.unassigned,
        under-attach_rest (nodes.0) (leftovers (nodes.1) sorted.unassigned),
      )
