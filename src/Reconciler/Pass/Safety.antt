-- ===== src/Reconciler/Pass/Safety.antt =====
-- The rounds of internal/reconciler/reconciler.go overcommit no node.
use smith.Agent.Pulling.{fetched}
use smith.Desired.{spec_hash, request_of_workload, Canonical, Instance}
use smith.Floats.{Floats}
use smith.Prelude.Assoc.{has, lookup, delete_cases}
use smith.Prelude.Text.{◌==◌}
use smith.Prelude.{
  String, refl, inl, inr, Bool, true, false, List, [], ◌∷◌, Option-cases, Result-cases, Bool-cases,
}
use smith.Reconciler.Pass.{
  drive, Pass, recorded, stop_replica, tell_to_stop, stop_undesired, ensure, may_roll, roll,
}
use smith.Reconciler.{
  record_push, send, evict_node, fetch_agent_status, relocate, evict_nodes, running_on,
  push_assignment, cluster_running, push_unassign, Network, World,
}
use smith.Registry
use smith.Registry.Liveness.{remove-IsKeyed, IsKeyed}
use smith.Registry.{Registry, remove}
use smith.Scheduler.Machine.{IsSmall, HasSmallNodes}
use smith.Scheduler.Reach.{reassigns, unassigns, IsSafe, Step-IsSafe, assigns}
use smith.Scheduler.{Scheduler, unassign, assign}
use smith.Types.{Node, Workload, Assignment}

-- The nodes stand under their IDs, each has less than 2 ^ 40 millicores and megabytes, and what is committed
-- on each is within what can be scheduled.
abbrev pub IsSafeWorld : World → Type 0
IsSafeWorld w = (IsKeyed w.registry × HasSmallNodes w.registry) × IsSafe w.registry w.scheduler

module _ (fl : Floats) where
  -- Fewer nodes stay within their capacities.
  remove-IsSafe :
      (id : String) (reg : Registry) (s : Scheduler)
      → IsSafe reg s
      → IsSafe (Registry.remove id reg) s
  unfolding Registry.get remove
  remove-IsSafe id reg s h = record {
    consistent = h.consistent;
    clean = h.clean;
    all = record { at_node = λ j n found. h.all.at_node j n (delete_cases id j reg.nodes found) };
  }

  remove-HasSmallNodes :
      (id : String) (reg : Registry) → HasSmallNodes reg → HasSmallNodes (Registry.remove id reg)
  unfolding Registry.get remove
  remove-HasSmallNodes id reg h j n found = h j n (delete_cases id j reg.nodes found)

  evict_node-IsSafe : (n : Node) (w : World) → IsSafeWorld w → IsSafeWorld (evict_node n w)
  unfolding evict_node
  evict_node-IsSafe n w h = (
    (remove-IsKeyed n.id w.registry h.0.0, remove-HasSmallNodes n.id w.registry h.0.1),
    remove-IsSafe n.id w.registry _ (Step-IsSafe {fl = fl} h.0.0 (reassigns n.id refl) h.1),
  )

  pub evict_nodes-IsSafe :
      (nodes : List Node) (w : World) → IsSafeWorld w → IsSafeWorld (evict_nodes nodes w)
  unfolding evict_nodes
  evict_nodes-IsSafe [] w h = h
  evict_nodes-IsSafe (n ∷ nodes) w h =
      evict_nodes-IsSafe nodes (evict_node n w) (evict_node-IsSafe n w h)

  module _ (net : Network) where
    running_on-IsSafe :
        (nodes : List Node) (w : World) → IsSafeWorld w → IsSafeWorld (running_on net nodes w).0
    unfolding running_on fetch_agent_status
    running_on-IsSafe [] w h = h
    running_on-IsSafe (n ∷ nodes) w h =
        let rest = running_on-IsSafe nodes (fetch_agent_status net n w).0 h in
        elim (Option-cases (fetch_agent_status net n w).1) [
          | inl failed ↦ rw (failed, running_on) rest
          | inr (status, fetched) ↦ rw (fetched, running_on) rest
        ]

    pub cluster_running-IsSafe : (w : World) → IsSafeWorld w → IsSafeWorld (cluster_running net w).0
    unfolding cluster_running
    cluster_running-IsSafe w h =
        running_on-IsSafe (Registry.alive (net.clock w.calls) w.registry) w h

    stop_replica-IsSafe :
        (a : Assignment) (w : World) → IsSafeWorld w → IsSafeWorld (stop_replica net a w)
    unfolding stop_replica tell_to_stop push_unassign send
    stop_replica-IsSafe a w h =
        let kept : IsSafeWorld (record w { scheduler = unassign a.workload_id w.scheduler }) =
          (h.0, Step-IsSafe {fl = fl} h.0.0 (unassigns a.workload_id refl) h.1) in
        elim (Option-cases (Registry.get a.node_id w.registry)) [
          | inl gone ↦ rw (gone, tell_to_stop) kept
          | inr (node, there) ↦ rw (there, tell_to_stop) kept
        ]

    pub stop_undesired-IsSafe :
        (desired : List (String × Instance)) (rest : List Assignment) (w : World)
        → IsSafeWorld w
        → IsSafeWorld (stop_undesired net desired rest w)
    unfolding stop_undesired
    stop_undesired-IsSafe desired [] w h = h
    stop_undesired-IsSafe desired (a ∷ rest) w h = elim (Bool-cases (has a.workload_id desired)) [
      | inl wanted ↦ rw (wanted, stop_undesired) (stop_undesired-IsSafe desired rest w h)
      | inr unwanted ↦
          rw (unwanted, stop_undesired)
            (stop_undesired-IsSafe desired rest (stop_replica net a w) (stop_replica-IsSafe a w h))
    ]

    module _ (digest : Canonical → String) (running : List String)
        (stored : List (String × Workload)) where
      recorded-IsSafe :
          (wl : Workload) (node_id : String) (r : World × Bool)
          → IsSafeWorld r.0
          → IsSafeWorld (recorded net digest wl node_id r)
      unfolding recorded record_push
      recorded-IsSafe wl node_id (w, true) h = h
      recorded-IsSafe wl node_id (w, false) h = h

      roll-IsSafe :
          (node : Node) (node_id : String) (inst : Instance) (p : Pass)
          → IsSafeWorld p.world
          → IsSafeWorld (roll net digest node node_id inst p).world
      unfolding roll push_unassign push_assignment record_push send
      roll-IsSafe node node_id inst p h =
          elim (Bool-cases (push_unassign net node inst.wl.id p.world).1) [
            | inr refused ↦ unfold roll in rw refused h
            | inl stopped ↦
                elim (Bool-cases
                  (push_assignment net node inst.wl
                    (push_unassign net node inst.wl.id p.world).0).1) [
                      | inr failed ↦ unfold roll in rw stopped (rw failed h)
                      | inl fine ↦ unfold roll in rw stopped (rw fine h)
                    ]
          ]

      relocate-IsSafe :
          (old_id : String) (node : Node) (wl : Workload) (w : World)
          → IsSafeWorld w
          → IsSafeWorld (relocate net old_id node wl w).0
      unfolding relocate push_unassign push_assignment send
      relocate-IsSafe old_id node wl w h = elim (Option-cases (Registry.get old_id w.registry)) [
        | inl gone ↦ rw (gone, relocate) h
        | inr (old, there) ↦ rw (there, relocate) h
      ]

      drive-IsSafe :
          (node : Node) (node_id : String) (inst : Instance) (p : Pass)
          → IsSafeWorld p.world
          → IsSafeWorld (drive net digest running stored node node_id inst p).world
      unfolding drive push_assignment send
      drive-IsSafe node node_id inst p h = elim (Option-cases (lookup inst.wl.id p.world.pushed)) [
        | inl new ↦
            rw (new, drive)
              (recorded-IsSafe inst.wl node_id (push_assignment net node inst.wl p.world) h)
        | inr (last, known) ↦ elim (Bool-cases (last.node_id == node_id)) [
          | inr elsewhere ↦
              rw (known, drive)
                (rw elsewhere (
                  recorded-IsSafe inst.wl node_id _
                    (relocate-IsSafe last.node_id node inst.wl p.world h)))
          | inl same ↦ elim (Bool-cases (last.hash == spec_hash digest inst.wl)) [
            | inl fresh ↦ rw (known, drive) (rw same (rw fresh h))
            | inr stale ↦ elim (Bool-cases (may_roll net digest running stored inst p)) [
              | inr wait ↦ rw (known, drive) (rw same (rw stale (rw wait h)))
              | inl may ↦
                  rw (known, drive)
                    (rw same (rw stale (rw may (roll-IsSafe node node_id inst p h))))
            ]
          ]
        ]
      ]

      pub ensure-IsSafe :
          (inst : Instance) (p : Pass)
          → IsSmall (request_of_workload inst.wl)
          → IsSafeWorld p.world
          → IsSafeWorld (ensure net digest fl running stored inst p).world
      unfolding ensure
      ensure-IsSafe inst p small h =
          let call =
            assign fl (net.clock p.world.calls) p.world.registry inst.wl.id inst.parent
              (request_of_workload inst.wl) p.world.scheduler in
          let assigned : IsSafeWorld (record p.world { scheduler = call.0 }) = (
            h.0,
            Step-IsSafe {fl = fl} h.0.0
                (assigns (net.clock p.world.calls) inst.wl.id inst.parent
                  (request_of_workload inst.wl) small refl)
                h.1,
          ) in
          elim (Result-cases call.1) [
            | inl (e, refused) ↦ rw (refused, ensure) assigned
            | inr (a, answer) ↦ elim (Option-cases (Registry.get a.node_id p.world.registry)) [
              | inl gone ↦
                  rw (answer, ensure)
                    (rw gone
                      (h.0, Step-IsSafe {fl = fl} h.0.0 (unassigns inst.wl.id refl) assigned.1))
              | inr (node, there) ↦
                  rw (answer, ensure)
                    (rw there (
                      drive-IsSafe node a.node_id inst
                        (record p { world = record p.world { scheduler = call.0 } }) assigned))
            ]
          ]
