-- ===== src/Scheduler/Capacity.antt =====
-- Placement never fills a node beyond what it can hold (internal/scheduler/scheduler.go: `Assign`).
use smith.Floats.{Floats}
use smith.Prelude.Assoc.{delete, insert, lookup-insert_self, lookup-delete_self, lookup}
use smith.Prelude.Text.{eq_refl}
use smith.Prelude.{ℕ, String, ◌≡◌, ap, ◌∙◌, true, some, arith, ok}
use smith.Registry
use smith.Registry.Liveness.{alive-get, IsKeyed}
use smith.Registry.{Registry}
use smith.Scheduler.Consistency.{IsConsistent}
use smith.Scheduler.Load.{committed-insert_new, committed-refresh}
use smith.Scheduler.Outcome.{relocated, assign-Outcome, placed, sticky, Outcome, rejected}
use smith.Scheduler.Placement.{fits}
use smith.Scheduler.{
  Assigned, schedulable, committed_except, add_resources, committed, assign, within, unassign,
  Scheduler,
}
use smith.Types.{Node, Assignment, Resources}

module _ (reg : Registry) (replica parent : String) (req : Resources) (s : Scheduler) where
  -- The replica has the node, which is registered and holds all its load.
  pub record Holds (after : Scheduler) (node : String) : Type 0 where
    pub host : Node
    pub registered : Registry.get node reg ≡ some host
    pub held : lookup replica after.assignments ≡ some node
    pub fit : within (committed after.requests after.assignments node) (schedulable host) ≡ true

  pub sticky-Holds :
      (node : String) (n : Node)
      → IsConsistent s
      → lookup replica s.assignments ≡ some node
      → Registry.get node reg ≡ some n
      → within
          (add_resources (committed_except s.requests replica s.assignments node) req)
          (schedulable n)
        ≡ true
      → Holds (record s { requests = insert replica req s.requests }) node
  sticky-Holds node n h held found room = record {
    host = n;
    registered = found;
    held = held;
    fit =
        ap (λ x. within x (schedulable n))
          (committed-refresh s.requests replica req node s.assignments h.distinct held)
        ∙ room;
  }

  pub relocated-Holds :
      (node : String) (n : Node)
      → Registry.get node reg ≡ some n
      → within
          (add_resources
            (committed (unassign replica s).requests (unassign replica s).assignments node)
            req)
          (schedulable n)
        ≡ true
      → Holds (placed replica parent req (unassign replica s) node).0 node
  unfolding unassign
  relocated-Holds node n found room = record {
    host = n;
    registered = found;
    held = lookup-insert_self replica node _;
    fit = ap (λ x. within x (schedulable n)) (placed_load node) ∙ room;
  }
    where
      placed_load :
          (m : String)
          → committed
              (insert replica req (delete replica s.requests))
              (insert replica m (delete replica s.assignments))
              m
            ≡ add_resources
                (committed (delete replica s.requests) (delete replica s.assignments) m)
                req
      placed_load m =
          committed-insert_new (delete replica s.requests) replica req m
            (delete replica s.assignments) m (lookup-delete_self replica s.assignments)
          ∙ rw eq_refl

  Outcome-Holds :
      (now : ℕ) {r : Assigned} {a : Assignment}
      → IsConsistent s
      → IsKeyed reg
      → Outcome (Registry.alive now reg) reg replica parent req s r
      → r.1 ≡ ok a
      → Holds r.0 a.node_id
  unfolding fits
  Outcome-Holds now {r} {a} h k (sticky node n held found room e) p =
      let same : a.node_id ≡ node = ground (arith, e) in
      rw (e, same) (sticky-Holds node n h held found room)
  Outcome-Holds now {r} {a} h k (relocated n unfit member room e) p =
      let same : a.node_id ≡ n.id = ground (arith, e) in
      rw (e, same) (relocated-Holds n.id n (alive-get now reg n k member) room)
  Outcome-Holds now {r} {a} h k (rejected x unfit why e) p = absurd (ground arith)

  -- When `Assign` answers with a node, the replica has that node, the node is registered, and all
  -- that is committed there, the new request included, is within what can be scheduled on it.
  pub assign-Holds :
      (fl : Floats) (now : ℕ) {a : Assignment}
      → IsConsistent s
      → IsKeyed reg
      → (assign fl now reg replica parent req s).1 ≡ ok a
      → Holds (assign fl now reg replica parent req s).0 a.node_id
  assign-Holds fl now h k = Outcome-Holds now h k (assign-Outcome fl reg replica parent req s now h)
