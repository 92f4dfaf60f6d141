-- ===== src/Memory/Refusal.antt =====
-- The research memory of nauti-fabric/src/memory.rs in a fabric: it is never live.
use nauti_virtualizer.Prelude.{
  ℕ, String, false, some, ◌≡◌, ◌≢◌, refl, sym, ap, ◌∙◌, arith, subst, false≢true,
}
use nauti_virtualizer.Dict.{get}
use nauti_virtualizer.Resource.{Resource, Lease, Attachment, Result, is_available}
use nauti_virtualizer.Fabric.{Fabric, Adapter, Outcome, lease_exclusive, attach}
use nauti_virtualizer.Fabric.Leasing.{Leasable-of_lease, attach_iff}
use nauti_virtualizer.Memory.{
  Found, ResearchMemoryReport, as_resource, research_memory, attach as refuse,
}

module _ (decimal : ℕ → String) where
  some-resource : (r s : Resource) → some r ≡ some s → r ≡ s
  some-resource r s h = ground (arith, h)

  some-adapter : (a b : Adapter Found) → some a ≡ some b → a ≡ b
  some-adapter a b h = ground (arith, h)

  research_unavailable :
      (report : ResearchMemoryReport) (node : String)
      → is_available (as_resource decimal report node).state ≡ false
  unfolding as_resource
  research_unavailable report node = refl

  refuses :
      (r : Resource) (l : Lease) (w : Found) (a : Attachment)
      → ((research_memory decimal).attach r l w).0 ≢ Result.ok a
  unfolding research_memory refuse
  refuses r l w a h = ground (arith, h)

  -- While the research resource is registered as discovery reports it, whatever it found, no lease of
  -- it is granted; and while the adapter that refuses is the one under its name, no attach by that
  -- name succeeds, of any resource.
  pub research_never_live :
      (report : ResearchMemoryReport) (node : String) (f : Fabric Found)
      → get "local.memory.research" f.resources ≡ some (as_resource decimal report node)
      → get "memory-research" f.adapters ≡ some (research_memory decimal)
      → (horizon : ℕ) (owner : String) (ttl pruned granted : ℕ) (granted_lease lease : Lease)
        (now : ℕ) (a : Attachment)
      → ((lease_exclusive horizon "local.memory.research" owner ttl pruned granted f).0
          ≢ Outcome.ok granted_lease)
        × ((attach "memory-research" lease now f).0 ≢ Outcome.ok a)
  research_never_live report node f registered known horizon owner ttl pruned granted granted_lease
        lease now a =
      (
        (λ h.
            let c =
              Leasable-of_lease horizon "local.memory.research" owner ttl pruned granted f
                granted_lease h in
            let same =
              some-resource c.resource (as_resource decimal report node)
                (sym c.registered ∙ registered) in
            false≢true (
              sym (research_unavailable report node)
              ∙ ap (λ r. is_available r.state) (sym same)
              ∙ c.available)),
        (λ h.
            let c = (attach_iff "memory-research" lease now f).0 (a, h) in
            let same = some-adapter c.adapter (research_memory decimal) (sym c.known ∙ known) in
            refuses c.resource lease f.world c.attachment (
              subst
                (λ (b : Adapter Found).
                  (b.attach c.resource lease f.world).0 ≡ Result.ok c.attachment)
                same c.accepted)),
      )
