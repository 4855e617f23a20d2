-- ===== src/Reconciler/Pass/Undesired.antt =====
-- The replicas that internal/reconciler/reconciler.go stops because nothing wants them.
use smith.Desired.{Instance}
use smith.Prelude.Assoc.{lookup_entry, lookup, has, delete, lookup-delete, delete_cases}
use smith.Prelude.Text.{eq_iff}
use smith.Prelude.{
  String, ◌≡◌, refl, inl, inr, true, false, some, List, [], ◌∷◌, arith, Elem-map, Elem,
  if◌then◌else◌, Option-cases, Bool-cases,
}
use smith.Reconciler.Pass.{stop_undesired, tell_to_stop, stop_replica}
use smith.Reconciler.{Call, World, push_unassign, send, delete_assign, Network}
use smith.Registry
use smith.Registry.{Registry}
use smith.Scheduler.{unassign, list_assignments}
use smith.Types.{Assignment, Node}

module _ (net : Network) (desired : List (String × Instance)) where
  scheduler-stop_replica :
      (a : Assignment) (w : World)
      → (stop_replica net a w).scheduler ≡ unassign a.workload_id w.scheduler
  unfolding stop_replica tell_to_stop push_unassign send
  scheduler-stop_replica a w = elim (Option-cases (Registry.get a.node_id w.registry)) [
    | inl gone ↦ rw (gone, tell_to_stop) refl
    | inr (node, there) ↦ rw (there, tell_to_stop) refl
  ]

  abbrev round : Assignment → World → World
  round a w = if has a.workload_id desired then w else stop_replica net a w

  kept_by_round :
      (a : Assignment) (w : World) (id node : String)
      → lookup id (round a w).scheduler.assignments ≡ some node
      → (lookup id w.scheduler.assignments ≡ some node)
        × (a.workload_id ≡ id → has id desired ≡ true)
  unfolding unassign
  kept_by_round a w id node h = elim (Bool-cases (has a.workload_id desired)) [
    | inl wanted ↦ (rw wanted at h, λ e. rw (← e) wanted)
    | inr unwanted ↦
        let left : lookup id (delete a.workload_id w.scheduler.assignments) ≡ some node =
          rw scheduler-stop_replica at (rw unwanted at h) in
        (
          delete_cases a.workload_id id w.scheduler.assignments left,
          λ e. ground (
            arith,
            lookup-delete a.workload_id id w.scheduler.assignments,
            eq_iff a.workload_id id,
          ),
        )
  ]

  -- What is still assigned was assigned before, and is desired if the loop has met it.
  stop_undesired_lem :
      (rest : List Assignment) (w : World) (id node : String)
      → lookup id (stop_undesired net desired rest w).scheduler.assignments ≡ some node
      → (lookup id w.scheduler.assignments ≡ some node)
        × ((a : Assignment) → Elem a rest → a.workload_id ≡ id → has id desired ≡ true)
  unfolding stop_undesired
  stop_undesired_lem [] w id node h = (h, λ a i e. absurd i)
  stop_undesired_lem (b ∷ rest) w id node h =
      let (later, met) = stop_undesired_lem rest (round b w) id node h in
      let (before, wanted) = kept_by_round b w id node later in
      (before, λ a i e. elim i [ inl here ↦ wanted (rw here at e) | inr there ↦ met a there e ])

  -- After the last loop of a pass every replica that still has a node is a desired one, and has the
  -- node that it had before the loop.
  pub stop_undesired-list_assignments :
      (w : World) (id node : String)
      → lookup id
          (stop_undesired net desired (list_assignments w.scheduler) w).scheduler.assignments
        ≡ some node
      → (lookup id w.scheduler.assignments ≡ some node) × (has id desired ≡ true)
  unfolding list_assignments
  stop_undesired-list_assignments w id node h =
      let (before, met) = stop_undesired_lem (list_assignments w.scheduler) w id node h in
      (
        before,
        met _
            (Elem-map _ (id, node) w.scheduler.assignments
              (lookup_entry id node w.scheduler.assignments before))
            refl,
      )

  -- the stop of a replica at the agent of its node, if the node is registered
  abbrev pub IsStop : Registry → Assignment → Call → Type 0
  IsStop reg a c =
      (has a.workload_id desired ≡ false)
      × (node : Node) × (Registry.get a.node_id reg ≡ some node)
      × (c ≡ delete_assign node.addr a.workload_id)
