-- ===== src/Lib.antt =====
-- Verification of nauti-fabric, the resource fabric of Nauti-Virtualizer.
--
-- The program keeps a registry of host resources, leases them exclusively for a time, attaches
-- leased resources through adapters, serves these calls to controllers over framed JSON behind an
-- authorization layer, and plans where in a fleet a role is to run.
--
-- Prelude, Dict, SortedSet: shared notation; `HashMap` and `BTreeMap` over texts as association
--   lists, `BTreeSet<String>` and `sort_by` as sorted lists.
-- Resource: the data of nauti-fabric/src/lib.rs (Resource, Lease, FabricError, ResourceRequest).
-- Fabric: the methods of `Fabric` of nauti-fabric/src/lib.rs as actions on its state, under their
--   own names, and in Sweep refresh_local and evict_stale_nodes. Step gathers all of them into one
--   step function. Valid, Keeps, Invariant and Numbers carry the well-formedness, Exclusion the
--   exclusiveness of leases, Leasing, Expiry and Refresh the single methods, Poison the overflow of
--   deadlines, and Race the two critical sections of unregister.
-- Rpc: the requests, `dispatch`, and in Frame write_frame and read_frame, in Serve the loop of
--   `FabricAgent::accept`, all of nauti-fabric/src/rpc.rs; Policy is about the loop behind Auth.
-- Auth: the providers of nauti-fabric/src/rpc_auth.rs.
-- The module Plan has nauti-fabric/src/plan.rs. Number is the arithmetic of f64 that the planners
--   use, View the data, Planner the two planners, Head the validation and the order of decisions;
--   Best, Loop, Fleet and Decision are about them. Snapshot reads fleet views, latencies and role
--   catalogues from JSON values (`from_snapshot_json` and the two `from_json`); Intake and Slots are about
--   it.
-- Json: the values of serde_json and the accessors that the code uses.
-- Http: the client `ask_head` of plan.rs with `parse_head_url` in Url, `parse_http_response` in
--   Response, `dechunk` in Bytes, and in Ask the request and the reading of the answer; Text, Lines
--   and Utf8 are the texts of std that it uses. Reading and Encoded are about UTF-8, Slices,
--   Sizes and Chunks about the decoding of chunks, Named about the URL, Request about the message
--   that is written, Promises about the client.
-- Store: nauti-fabric/src/store.rs, with the live map of its adapter in Live.
-- Config: nauti-fabric/src/config.rs; Selection is about the authorization that it selects.
-- Adapters: nauti-fabric/src/adapters.rs and nauti-fabric/src/gpu/adapter.rs.
-- Vmm: nauti-fabric/src/vmm/cloud_hypervisor.rs, build_argv in Vmm, attach and reconcile in
--   Launches, VmResourceSpec in Spec; Arguments is about the command lines, Promises about attach.
-- Vfio: nauti-fabric/src/vmm/vfio.rs: `normalize_bdf` and the parsers in Address, the discovery of
--   passthrough states in Host, the launcher and the adapter in Passthrough; Found is about the
--   discovery, Promises about the adapter.
-- Memory, Topology, Lemonade: nauti-fabric/src/memory.rs, nauti-fabric/src/topology.rs, and
--   LemonadeAdapter of nauti-fabric/src/adapters.rs, each with one module of theorems.
-- Hardware: nauti-fabric/src/hwinfo.rs, its readers in Sysfs, enrichment in Enrich, ports and their
--   adapter in Rdma; Ports is about the adapter.
-- Entropy: nauti-fabric/src/vhost/entropy.rs; Rounds, Exchange and Pump are about its server, its
--   client and its pump. A failed write may leave a part of its bytes behind.
-- Dataset: tools/dataset-validate; Answer and Valid are about it.
-- Rng: process_requests and its timer of nauti-fabric/src/vhost/rng.rs; Limit is its rate limit.
-- Tests: concrete states, and the theorems at them.
--
-- Time. An instant is a number of nanoseconds from the earliest instant; `horizon` is the latest
-- one that the platform represents. A call takes the readings of the clock that it makes. Lease
-- numbers wrap at 2 ^ 64. `Instant + Duration` past the horizon panics, and under the guard of
-- the leases it poisons that mutex. Loops are recursions over finite
-- lists, but for three that run on fuel: `dechunk` with one round more than its body has bytes,
-- `serve_conn` with one round more than its stream has bytes, and the reading of UTF-8 with as many
-- rounds as there are bytes. Each round consumes a byte, so that the fuel is enough, which is proved.
--
-- Parameters. Adapters are a record of functions over a state `W` that all of them share; JSON is
-- a codec with its round trip; f64 is a record with a rank for what is not NaN; the printing of
-- durations, quoted texts and floats, create_dir_all, the launcher of VMs, and what a host
-- discovers are parameters. So are the socket of `ask_head` (Tcp), serde's encoder and parser
-- (Serde) and its derived decoding of slots (Derived), sysfs and the `ip` command (Sys), hwloc
-- (Hardware), the `lemonade` command and its HTTP answers (Machine), /dev/urandom, and the regular
-- expressions and files of the validator (Host). The configuration has the compiled features
-- (Features) and the files with their TOML parser (Files).
--
-- Not modelled: the Iroh transport, the host inventory, GPU discovery and compute
-- (nauti-fabric/src/gpu/ but for adapter.rs), the process launcher of the VMs and of their taps, the
-- vhost-user daemon, the envelopes of peers, the threads of `entropy_serve`, and the command line
-- (nauti-fabric/src/bin/nauti.rs): they are I/O around this core, or print what it answers.
pub mod Prelude
pub mod Dict
pub mod Resource
pub mod Fabric
pub mod Json
pub mod Http
pub mod SortedSet
pub mod Rpc
pub mod Auth
pub mod Config
pub mod Plan
pub mod Store
pub mod Vmm
pub mod Rng
pub mod Vfio
pub mod Hardware
pub mod Lemonade
pub mod Topology
pub mod Dataset
pub mod Memory
pub mod Entropy
pub mod Adapters
pub mod Tests
