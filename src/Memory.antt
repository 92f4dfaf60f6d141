-- ===== src/Memory.antt =====
-- The research memory plane: nauti-fabric/src/memory.rs. `ResearchMemoryReport::discover` reads the
-- host anew at each call; what it reads is the state `Found`. The texts of numbers and of the
-- refusal are parameters of the standard library's formatting.
use Prim.Native.String.{◌++◌ as cat}
use nauti_virtualizer.Prelude.{
  ℕ, String, Bool, true, false, ◌||◌, List, [], ◌∷◌, length, keep, map, if◌then◌else◌,
}
use text.Mathlib.Text.{starts_with}
use nauti_virtualizer.Resource.{
  Resource, Lease, Attachment, AdapterReport, Result, err, memory, unavailable,
  adapter_backend_unavailable,
}
use nauti_virtualizer.Fabric.{Adapter}
use nauti_virtualizer.Adapters.{default_detach}
use nauti_virtualizer.Http.Text.{contains_text}
use nauti_virtualizer.Http.Lines.{lines}
pub mod Refusal

-- The directories and files that discovery reads, empty where they cannot be read.
pub record Found : Type 0 where
  pub cxl_bus : Bool
  pub cxl_entries : List String
  pub dev_entries : List String
  pub mounts : String
  pub opt_drust : Bool
  pub libdrust : Bool
  pub drust_home : Bool

pub record ResearchMemoryReport : Type 0 where
  pub cxl_bus : Bool
  pub cxl_devices : List String
  pub dax_nodes : List String
  pub famfs_mounts : List String
  pub drust_present : Bool
  pub claimed_as_live_ram : Bool
  pub notes : String

unfoldable pub discover : Found → ResearchMemoryReport
discover f = record {
  cxl_bus = f.cxl_bus;
  cxl_devices = if f.cxl_bus then f.cxl_entries else [];
  dax_nodes = map (λ name. cat "/dev/" name) (keep (λ name. starts_with name "dax") f.dev_entries);
  famfs_mounts = keep (λ line. contains_text line "famfs") (lines f.mounts);
  drust_present = f.opt_drust || f.libdrust || f.drust_home;
  claimed_as_live_ram = false;
  notes = "Research only. Fabric will not attach these as coherent live memory.";
}

-- `bool::to_string`
unfoldable pub bool_text : Bool → String
bool_text true = "true"
bool_text false = "false"

module _ (decimal : ℕ → String) where
  unfoldable pub as_resource : ResearchMemoryReport → String → Resource
  as_resource report node = record {
    id = "local.memory.research";
    kind = memory;
    capacity = 0;
    unit = "research";
    node = node;
    state = unavailable;
    exclusive = true;
    attributes =
        ("memory.claimed", "false")
        ∷ ("memory.cxl", bool_text report.cxl_bus)
        ∷ ("memory.dax_count", decimal (length report.dax_nodes))
        ∷ ("memory.drust", bool_text report.drust_present)
        ∷ ("memory.famfs_count", decimal (length report.famfs_mounts))
        ∷ ("memory.kind", "research")
        ∷ [];
  }

  unfoldable pub refusal : Resource → ResearchMemoryReport → String
  refusal r report = cat "refusing live attach of " (
      cat r.id (
        cat " (cxl=" (
          cat (bool_text report.cxl_bus) (
            cat " dax=" (
              cat (decimal (length report.dax_nodes)) (
                cat " famfs=" (
                  cat (decimal (length report.famfs_mounts)) (
                    cat " drust=" (
                      cat (bool_text report.drust_present)
                        "); research bucket is typed, never claimed")))))))))

  unfoldable pub attach : Resource → Lease → Found → Result Attachment
  attach r lease f = err (adapter_backend_unavailable "memory-research" (refusal r (discover f)))

  unfoldable pub capability_report : Found → AdapterReport
  capability_report f =
      let report = discover f in
      record {
        name = "memory-research";
        scope = "cxl-dax-famfs-drust-research";
        healthy = true;
        detail =
            ("claimed_as_live_ram", "false")
            ∷ ("cxl_bus", bool_text report.cxl_bus)
            ∷ ("dax_nodes", decimal (length report.dax_nodes))
            ∷ ("drust_present", bool_text report.drust_present)
            ∷ ("famfs_mounts", decimal (length report.famfs_mounts))
            ∷ [];
      }

  unfoldable pub research_memory : Adapter Found
  research_memory = record {
    name = "memory-research";
    attach = λ r lease f. (attach r lease f, f);
    detach = default_detach;
    capability_report = capability_report;
  }
