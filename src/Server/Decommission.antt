-- ===== src/Server/Decommission.antt =====
-- What `removeNode` of internal/api/server.go leaves.
use smith.Prelude.Assoc.{lookup, lookup-delete_self}
use smith.Prelude.Text.{◌==◌}
use smith.Prelude.{String, ◌≡◌, inl, inr, none, arith, Bool-cases, Option-cases, if◌then◌else◌}
use smith.Registry
use smith.Registry.{remove, Registry}
use smith.Scheduler.Consistency.{IsConsistent}
use smith.Scheduler.Eviction.{reassign_node_exact, is_at}
use smith.Scheduler.{Scheduler}
use smith.Server.Invariant.{IfWired}
use smith.Server.{evict_removed, Server, remove_node}
use smith.Stores.Subnets.{release, SubnetAllocator}
use smith.Stores.{Faults}

-- The node has left the registry and the subnets, its replicas have no node, and the others keep theirs.
pub record IsDecommissioned (id : String) (before : Scheduler) (after : Server) : Type 0 where
  pub unregistered : Registry.get id after.registry ≡ none
  pub released : IfWired (λ a. lookup id a.rows ≡ none) after.allocator
  pub replicas :
      (rid : String)
      → lookup rid after.scheduler.assignments
        ≡ (if is_at id (lookup rid before.assignments) then none else lookup rid before.assignments)

evict_removed-IsDecommissioned :
    (id : String) (s : Server)
    → IsConsistent s.scheduler
    → Registry.get id s.registry ≡ none
    → IfWired (λ a. lookup id a.rows ≡ none) s.allocator
    → IsDecommissioned id s.scheduler (evict_removed id s).0
unfolding evict_removed
evict_removed-IsDecommissioned id s h gone free = record {
  unregistered = gone;
  released = free;
  replicas = λ rid. (reassign_node_exact id s.scheduler rid h).1;
}

release_frees :
    (faults : Faults) (id : String) (a : SubnetAllocator)
    → (release faults id a).1 ≡ none
    → lookup id (release faults id a).0.rows ≡ none
release_frees faults id a h = elim (Bool-cases faults.write) [
  | inl failed ↦ absurd (unfold release in ground (arith, failed))
  | inr written ↦ unfold release in rw written (lookup-delete_self id a.rows)
]

-- When `removeNode` answers 204 the node has left the registry and the subnet pool, exactly its own
-- replicas have lost their node, and every other replica has kept its own.
pub remove_node-IsDecommissioned :
    (faults : Faults) (id : String) (s : Server)
    → IsConsistent s.scheduler
    → (remove_node faults id s).1.code ≡ 204
    → IsDecommissioned id s.scheduler (remove_node faults id s).0
unfolding remove_node Registry.get remove
remove_node-IsDecommissioned faults id s h answer = elim (Bool-cases (id == "")) [
  | inl missing ↦ absurd (unfold remove_node in ground (arith, missing))
  | inr named ↦ elim (Option-cases s.allocator) [
    | inl unwired ↦
        unfold remove_node in
        rw named (
          rw unwired (
            evict_removed-IsDecommissioned id _ h (lookup-delete_self id s.registry.nodes)
              (rw unwired tt)))
    | inr (a, wired) ↦ elim (Option-cases (release faults id a).1) [
      | inl freed ↦
          unfold remove_node in
          rw named (
            rw wired (
              rw freed (
                evict_removed-IsDecommissioned id _ h (lookup-delete_self id s.registry.nodes)
                  (release_frees faults id a freed))))
      | inr (e, failed) ↦ absurd (unfold remove_node in ground (arith, named, wired, failed))
    ]
  ]
]
