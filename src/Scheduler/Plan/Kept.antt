-- ===== src/Scheduler/Plan/Kept.antt =====
-- A rebalance (internal/scheduler/scheduler.go) keeps the maps of the scheduler in step.
use smith.Floats.{Floats}
use smith.Prelude.Assoc.{has, has-insert, insert-Distinct, insert}
use smith.Prelude.Text.{eq_iff}
use smith.Prelude.{ℕ, String, ◌≡◌, sym, ◌∙◌, true, List, [], ◌∷◌, arith, All-Elem, All-intro, All}
use smith.Registry.{Registry}
use smith.Scheduler.Consistency.{IsConsistent}
use smith.Scheduler.Plan.Idempotence.{rebalance_plan-moves}
use smith.Scheduler.Plan.{rebalance_plan, commit_moves, rebalance}
use smith.Scheduler.{Scheduler}
use smith.Types.{Move}

has-insert_held :
    (k id v : String) (m : List (String × String))
    → has k m ≡ true
    → has id (insert k v m) ≡ has id m
has-insert_held k id v m held = rw has-insert (ground (arith, held, eq_iff k id))

commit_moves-IsConsistent :
    (ms : List Move) (s : Scheduler)
    → IsConsistent s
    → All (λ m. has m.replica_id s.assignments ≡ true) ms
    → IsConsistent (record s { assignments = commit_moves ms s.assignments })
unfolding commit_moves
commit_moves-IsConsistent [] s h held = h
commit_moves-IsConsistent (m ∷ ms) s h held =
    let same = λ (id : String). has-insert_held m.replica_id id m.to_node s.assignments held.0 in
    commit_moves-IsConsistent ms
      (record s { assignments = insert m.replica_id m.to_node s.assignments })
      (record {
        distinct = insert-Distinct m.replica_id m.to_node s.assignments h.distinct;
        parented = λ id. h.parented id ∙ sym (same id);
        requested = λ id. h.requested id ∙ sym (same id);
      })
      (All-intro ms (λ x i.
        same x.replica_id ∙ All-Elem (λ y. has y.replica_id s.assignments ≡ true) x ms held.1 i))

pub rebalance-IsConsistent :
    (fl : Floats) (now : ℕ) (reg : Registry) (s : Scheduler)
    → IsConsistent s
    → IsConsistent (rebalance fl now reg s).0
unfolding rebalance
rebalance-IsConsistent fl now reg s h =
    commit_moves-IsConsistent (rebalance_plan fl now reg s) s h (
      All-intro (rebalance_plan fl now reg s)
        (λ m i. ground (arith, (rebalance_plan-moves fl now reg s m i).0)))
