-- ===== src/Scheduler/Eviction.antt =====
-- What `ReassignNode` (internal/scheduler/scheduler.go) takes off a node.
use smith.Prelude.Assoc.{Distinct, lookup-delete, lookup}
use smith.Prelude.Names.{contains}
use smith.Prelude.Text.{◌==◌, eq_iff}
use smith.Prelude.{
  String, ◌≡◌, refl, ap, ◌∙◌, Bool, false, Option, none, some, List, [], ◌∷◌, arith, if◌then◌else◌,
}
use smith.Scheduler.Consistency.{IsConsistent}
use smith.Scheduler.{reassign_node, unassign, unassign_all, Scheduler, replicas_on}

abbrev pub is_at : String → Option String → Bool
is_at node none = false
is_at node (some at) = at == node

lookup-unassign_all :
    (id : String) (ids : List String) (s : Scheduler)
    → lookup id (unassign_all ids s).assignments
      ≡ (if contains ids id then none else lookup id s.assignments)
unfolding unassign_all unassign contains
lookup-unassign_all id [] s = refl
lookup-unassign_all id (j ∷ ids) s =
    lookup-unassign_all id ids (unassign j s) ∙ ground (arith, lookup-delete j id s.assignments)

contains-replicas_on :
    (node id : String) (m : List (String × String))
    → Distinct m
    → contains (replicas_on node m) id ≡ is_at node (lookup id m)
unfolding contains replicas_on lookup
contains-replicas_on node id [] d = refl
contains-replicas_on node id ((j, at) ∷ m) d =
    ground (arith, d.0, eq_iff j id, contains-replicas_on node id m d.1)

-- `ReassignNode` names exactly the replicas that had the node, and exactly these have no node
-- afterwards; every other replica keeps its own.
pub reassign_node_exact :
    (node : String) (s : Scheduler) (id : String)
    → IsConsistent s
    → (contains (reassign_node node s).1 id ≡ is_at node (lookup id s.assignments))
      × (lookup id (reassign_node node s).0.assignments
          ≡ (if is_at node (lookup id s.assignments) then none else lookup id s.assignments))
unfolding reassign_node
reassign_node_exact node s id h =
    let named = contains-replicas_on node id s.assignments h.distinct in
    (
      named,
      lookup-unassign_all id (replicas_on node s.assignments) s
          ∙ ap (λ b. if b then none else lookup id s.assignments) named,
    )
