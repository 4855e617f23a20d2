-- ===== src/Reconciler/Pass/Whole.antt =====
-- A whole pass of internal/reconciler/reconciler.go overcommits no node.
use smith.Desired.Expand.{expand-IsReplica}
use smith.Desired.{
  sorted_replica_ids, request_of_workload, Canonical, expand, Instance, instance_of,
}
use smith.Floats.{Floats}
use smith.Prelude.Assoc.{lookup}
use smith.Prelude.{ℕ, String, ◌≡◌, inl, inr, some, List, [], ◌∷◌, Elem, Option-cases}
use smith.Reconciler.Pass.Safety.{
  ensure-IsSafe, stop_undesired-IsSafe, cluster_running-IsSafe, IsSafeWorld, evict_nodes-IsSafe,
}
use smith.Reconciler.Pass.{reconcile, Pass, repush, ensure_all, ensure}
use smith.Reconciler.{evict_nodes, unavailable_in, cluster_running, Network, World}
use smith.Registry
use smith.Registry.{Registry}
use smith.Scheduler.Machine.{IsSmall, AllFit-NoWrap, NoWrap}
use smith.Scheduler.{list_assignments}
use smith.Types.{Workload}

-- Every stored workload asks for amounts from 0 to below 2 ^ 62.
abbrev pub AllSmall : List (String × Workload) → Type 0
AllSmall stored =
    (id : String) (w : Workload) → Elem (id, w) stored → IsSmall (request_of_workload w)

instance-IsSmall :
    (stored : List (String × Workload)) (rid : String) (inst : Instance)
    → AllSmall stored
    → lookup rid (expand stored) ≡ some inst
    → IsSmall (request_of_workload inst.wl)
unfolding instance_of
instance-IsSmall stored rid inst small found =
    let r = (expand-IsReplica stored).0 rid inst found in
    rw r.built (small r.parent r.workload r.stored_at)

module _ (net : Network) (digest : Canonical → String) (fl : Floats) where
  ensure_all-IsSafe :
      (running : List String) (stored : List (String × Workload)) (ids : List String) (p : Pass)
      → AllSmall stored
      → IsSafeWorld p.world
      → IsSafeWorld (ensure_all net digest fl running stored (expand stored) ids p).world
  unfolding ensure_all
  ensure_all-IsSafe running stored [] p small h = h
  ensure_all-IsSafe running stored (id ∷ ids) p small h =
      elim (Option-cases (lookup id (expand stored))) [
        | inl missing ↦ rw (missing, ensure_all) (ensure_all-IsSafe running stored ids p small h)
        | inr (inst, found) ↦
            rw (found, ensure_all)
              (ensure_all-IsSafe running stored ids (ensure net digest fl running stored inst p)
                small
                (ensure-IsSafe fl net digest running stored inst p
                  (instance-IsSmall stored id inst small found) h))
      ]

  pass-IsSafe :
      (interval : ℕ) (stored : List (String × Workload)) (w : World)
      → AllSmall stored
      → IsSafeWorld w
      → IsSafeWorld (reconcile net digest fl interval (some stored) w).0
  unfolding reconcile repush
  pass-IsSafe interval stored w small h =
      let evicted = evict_nodes (Registry.dead (net.clock w.calls) w.registry) w in
      let (seen, running) = cluster_running net evicted in
      let p : Pass = record {
        world = seen;
        unavailable = unavailable_in running (expand stored);
      } in
      let driven =
        ensure_all net digest fl running stored (expand stored) (sorted_replica_ids (expand stored))
          p in
      let pushed_again = repush net interval running driven.world in
      let safe_seen =
        cluster_running-IsSafe fl net evicted
          (evict_nodes-IsSafe fl (Registry.dead (net.clock w.calls) w.registry) w h) in
      stop_undesired-IsSafe fl net (expand stored) (list_assignments pushed_again.scheduler)
        pushed_again
        (ensure_all-IsSafe running stored (sorted_replica_ids (expand stored)) p small safe_seen)

  -- A pass that starts with no node beyond what can be scheduled on it, with nodes of less than 2 ^ 40 millicores
  -- and megabytes, and whose workloads ask for amounts from 0 to below 2 ^ 62, ends so, with the nodes under their IDs and the scheduler's
  -- maps in step, whatever the agents answer and whichever nodes have died; and no sum that the code makes then
  -- of a node's load and of a request as small wraps around in 64 bits.
  pub reconcile-IsSafe :
      (interval : ℕ) (stored : List (String × Workload)) (w : World)
      → AllSmall stored
      → IsSafeWorld w
      → IsSafeWorld (reconcile net digest fl interval (some stored) w).0
        × NoWrap
            (reconcile net digest fl interval (some stored) w).0.registry
            (reconcile net digest fl interval (some stored) w).0.scheduler
  reconcile-IsSafe interval stored w small h =
      let after = (reconcile net digest fl interval (some stored) w).0 in
      let safe : IsSafeWorld after = pass-IsSafe interval stored w small h in
      (safe, AllFit-NoWrap after.registry after.scheduler safe.0.1 safe.1.clean safe.1.all)
