-- ===== src/Reconciler/Eviction.antt =====
-- What a pass of internal/reconciler/reconciler.go does to the replicas of dead nodes.
use smith.Prelude.Assoc.{lookup, lookup-delete}
use smith.Prelude.Text.{◌==◌, eq_iff, eq_refl}
use smith.Prelude.{
  String, ◌≡◌, refl, ◌≢◌, inl, inr, none, some, List, [], ◌∷◌, arith, Elem, if◌then◌else◌,
}
use smith.Reconciler.{evict_nodes, evict_node, World}
use smith.Registry
use smith.Registry.{Registry, remove}
use smith.Scheduler.Consistency.{IsConsistent, unassign_all-IsConsistent}
use smith.Scheduler.Eviction.{is_at, reassign_node_exact}
use smith.Scheduler.{reassign_node, replicas_on}
use smith.Types.{Node}

-- The nodes have left the registry with all that was on them, and nothing else has changed its node.
pub record AreEvicted (nodes : List Node) (before after : World) : Type 0 where
  pub unregistered : (n : Node) → Elem n nodes → Registry.get n.id after.registry ≡ none
  pub cleared :
      (id node : String)
      → lookup id after.scheduler.assignments ≡ some node
      → (lookup id before.scheduler.assignments ≡ some node)
        × ((n : Node) → Elem n nodes → n.id ≢ node)
  pub others :
      (id node : String)
      → lookup id before.scheduler.assignments ≡ some node
      → ((n : Node) → Elem n nodes → n.id ≢ node)
      → lookup id after.scheduler.assignments ≡ some node

module _ (n : Node) (w : World) (h : IsConsistent w.scheduler) where
  lookup-evict_node :
      (id : String)
      → lookup id (evict_node n w).scheduler.assignments ≡ (
          if is_at n.id (lookup id w.scheduler.assignments)
          then none
          else lookup id w.scheduler.assignments)
  unfolding evict_node
  lookup-evict_node id = (reassign_node_exact n.id w.scheduler id h).1

  evicted_cleared :
      (id node : String)
      → lookup id (evict_node n w).scheduler.assignments ≡ some node
      → (lookup id w.scheduler.assignments ≡ some node) × (n.id ≢ node)
  evicted_cleared id node k = ground (arith, lookup-evict_node id, eq_iff node n.id)

  evicted_others :
      (id node : String)
      → lookup id w.scheduler.assignments ≡ some node
      → n.id ≢ node
      → lookup id (evict_node n w).scheduler.assignments ≡ some node
  evicted_others id node k ne = ground (arith, lookup-evict_node id, eq_iff node n.id)

  evicted-IsConsistent : IsConsistent (evict_node n w).scheduler
  unfolding evict_node reassign_node
  evicted-IsConsistent =
      unassign_all-IsConsistent (replicas_on n.id w.scheduler.assignments) w.scheduler h

  get-evict_node :
      (id : String)
      → Registry.get id (evict_node n w).registry
        ≡ (if n.id == id then none else Registry.get id w.registry)
  unfolding evict_node Registry.get remove
  get-evict_node id = lookup-delete n.id id w.registry.nodes

stays_unregistered :
    (nodes : List Node) (w : World) (id : String)
    → IsConsistent w.scheduler
    → Registry.get id w.registry ≡ none
    → Registry.get id (evict_nodes nodes w).registry ≡ none
unfolding evict_nodes
stays_unregistered [] w id h e = e
stays_unregistered (n ∷ nodes) w id h e =
    stays_unregistered nodes (evict_node n w) id (evicted-IsConsistent n w h)
      (ground (arith, get-evict_node n w h id))

-- Evicting nodes takes them out of the registry, takes every replica off them, and leaves each
-- replica of another node where it is.
pub evict_nodes-AreEvicted :
    (nodes : List Node) (w : World)
    → IsConsistent w.scheduler
    → AreEvicted nodes w (evict_nodes nodes w)
unfolding evict_nodes
evict_nodes-AreEvicted [] w h = record {
  unregistered = λ n i. absurd i;
  cleared = λ id node e. (e, λ n i. absurd i);
  others = λ id node e other. e;
}
evict_nodes-AreEvicted (n ∷ nodes) w h =
    let rest = evict_nodes-AreEvicted nodes (evict_node n w) (evicted-IsConsistent n w h) in
    record {
      unregistered = λ m i. elim i [
        | inl here ↦
            stays_unregistered nodes (evict_node n w) m.id (evicted-IsConsistent n w h)
              (rw here (ground (arith, get-evict_node n w h n.id, eq_refl n.id)))
        | inr there ↦ rest.unregistered m there
      ];
      cleared = λ id node e.
          let (later, off) = rest.cleared id node e in
          let (held, ne) = evicted_cleared n w h id node later in
          (held, λ m i. elim i [ inl here ↦ rw here ne | inr there ↦ off m there ]);
      others = λ id node e off.
          rest.others id node (evicted_others n w h id node e (off n (inl refl)))
            (λ m i. off m (inr i));
    }
