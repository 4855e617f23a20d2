-- ===== src/Reconciler/Pass.antt =====
-- internal/reconciler/reconciler.go: `reconcile`.
pub mod Calls
pub mod Rolling
pub mod Undesired
pub mod Safety
pub mod Whole
use smith.Apply.Run.{started}
use smith.Desired.{
  request_of_workload, rollout_budget, Canonical, sorted_replica_ids, expand, spec_hash, Instance,
}
use smith.Floats.{Floats}
use smith.Prelude.Assoc
use smith.Prelude.Names.{contains}
use smith.Prelude.Text.{◌==◌}
use smith.Prelude.{
  ℕ, suc, ◌+◌, ◌*◌, String, Bool, true, false, not, ◌&&◌, ◌||◌, Option, none, some, List, [], ◌∷◌,
  keep_if, ok, ltb, if◌then◌else◌, err,
}
use smith.Reconciler.{
  push_assignment, cluster_running, relocate, record_push, World, Network, PushRecord,
  push_unassign, evict_nodes, unavailable_in,
}
use smith.Registry
use smith.Registry.{Registry}
use smith.Scheduler.{list_assignments, assign, unassign}
use smith.Types.{Node, no_workload, Workload, Assignment}

-- the state of the loop over the replicas
pub record Pass : Type 0 where
  pub world : World
  pub unavailable : String → ℕ

module _ (net : Network) (digest : Canonical → String) where
  -- `recordPush` after a call that succeeded
  unfoldable pub recorded : Workload → String → World × Bool → World
  unfolding record_push spec_hash
  recorded wl node_id (w, true) = record_push net wl.id node_id (spec_hash digest wl) w
  recorded wl node_id (w, false) = w

  -- the roll of a stale replica: stop, start, record, and count it as unavailable
  unfoldable pub roll : Node → String → Instance → Pass → Pass
  unfolding push_unassign push_assignment record_push spec_hash
  roll node node_id inst p =
      let (stopped, was_stopped) = push_unassign net node inst.wl.id p.world in
      let (started, was_started) = push_assignment net node inst.wl stopped in
      if not was_stopped
      then record p { world = stopped }
      else if not was_started
      then record p { world = started }
      else record {
        world = record_push net inst.wl.id node_id (spec_hash digest inst.wl) started;
        unavailable = λ q. if inst.parent == q then suc (p.unavailable q) else p.unavailable q;
      }

  -- `running[id] && unavailable[parent] < maxUnavailable(stored[parent])`
  unfoldable pub may_roll : List String → List (String × Workload) → Instance → Pass → Bool
  unfolding rollout_budget
  may_roll running stored inst p =
      contains running inst.wl.id
      && ltb (p.unavailable inst.parent)
          (rollout_budget (Assoc.lookup_or no_workload inst.parent stored))

  -- the `switch` on the push record
  unfoldable pub drive :
      List String → List (String × Workload) → Node → String → Instance → Pass → Pass
  unfolding recorded relocate roll may_roll push_assignment
  drive running stored node node_id inst p = elim (Assoc.lookup inst.wl.id p.world.pushed) [
    | none ↦ record p {
      world = recorded inst.wl node_id (push_assignment net node inst.wl p.world);
    }
    | some last ↦
        if not (last.node_id == node_id)
        then record p {
          world = recorded inst.wl node_id (relocate net last.node_id node inst.wl p.world);
        }
        else if not (last.hash == spec_hash digest inst.wl)
        then (if may_roll running stored inst p then roll node node_id inst p else p)
        else p
  ]

  -- one round of the loop: assign, look the node up, drive the node
  unfoldable pub ensure : Floats → List String → List (String × Workload) → Instance → Pass → Pass
  unfolding drive
  ensure fl running stored inst p =
      let w = p.world in
      let (after, answer) =
        assign fl (net.clock w.calls) w.registry inst.wl.id inst.parent
          (request_of_workload inst.wl) w.scheduler in
      let assigned = record p { world = record w { scheduler = after } } in
      elim answer [
        | err e ↦ assigned
        | ok a ↦ elim (Registry.get a.node_id w.registry) [
          | none ↦ record p { world = record w { scheduler = unassign inst.wl.id after } }
          | some node ↦ drive running stored node a.node_id inst assigned
        ]
      ]

  -- the loop, over the IDs in their order
  unfoldable pub ensure_all :
      Floats
      → List String
      → List (String × Workload)
      → List (String × Instance)
      → List String
      → Pass
      → Pass
  unfolding ensure
  ensure_all fl running stored desired [] p = p
  ensure_all fl running stored desired (id ∷ ids) p = elim (Assoc.lookup id desired) [
    | none ↦ ensure_all fl running stored desired ids p
    | some inst ↦ ensure_all fl running stored desired ids (ensure fl running stored inst p)
  ]

module _ (net : Network) where
  -- a replica that is not Running is pushed again, after the grace period of two intervals
  unfoldable pub keeps_push : ℕ → List String → World → String × PushRecord → Bool
  keeps_push interval running w entry =
      ltb (net.clock w.calls) (entry.1.pushed_at + 2 * interval) || contains running entry.0

  unfoldable pub repush : ℕ → List String → World → World
  unfolding keeps_push
  repush interval running w = record w { pushed = keep_if (keeps_push interval running w) w.pushed }

  -- the call that stops a replica, if its node is registered; an error is only logged
  unfoldable pub tell_to_stop : Assignment → World → World
  unfolding push_unassign
  tell_to_stop a w = elim (Registry.get a.node_id w.registry) [
    | none ↦ w
    | some node ↦ (push_unassign net node a.workload_id w).0
  ]

  unfoldable pub stop_replica : Assignment → World → World
  unfolding tell_to_stop
  stop_replica a w =
      let told = tell_to_stop a w in
      record told {
        scheduler = unassign a.workload_id told.scheduler;
        pushed = Assoc.delete a.workload_id told.pushed;
      }

  unfoldable pub stop_undesired : List (String × Instance) → List Assignment → World → World
  unfolding stop_replica
  stop_undesired desired [] w = w
  stop_undesired desired (a ∷ rest) w =
      stop_undesired desired rest (if Assoc.has a.workload_id desired then w else stop_replica a w)

  -- `reconcile`; the answer of the store is an argument
  unfoldable pub reconcile :
      (Canonical → String) → Floats → ℕ → Option (List (String × Workload)) → World → World × Bool
  unfolding evict_nodes cluster_running unavailable_in ensure_all repush stop_undesired expand
  reconcile digest fl interval none w = (w, false)
  reconcile digest fl interval (some stored) w =
      let desired = expand stored in
      let evicted = evict_nodes (Registry.dead (net.clock w.calls) w.registry) w in
      let (seen, running) = cluster_running net evicted in
      let driven =
        ensure_all net digest fl running stored desired (sorted_replica_ids desired)
          (record { world = seen; unavailable = unavailable_in running desired }) in
      let pushed_again = repush interval running driven.world in
      (stop_undesired desired (list_assignments pushed_again.scheduler) pushed_again, true)
