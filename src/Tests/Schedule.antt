-- ===== src/Tests/Schedule.antt =====
-- internal/scheduler and internal/registry on two nodes.
use smith.Prelude.Assoc.{lookup_or, lookup}
use smith.Prelude.Int.{◌+ℤ◌, pos}
use smith.Prelude.{String, ◌≡◌, refl, ◌≢◌, ◌⊎◌, inl, inr, some, [], ◌∷◌, arith, Elem, All}
use smith.Registry
use smith.Registry.{Registry}
use smith.Scheduler
use smith.Scheduler.Consistency.{empty-IsConsistent}
use smith.Scheduler.Machine.{IsSmall, HasSmallNodes, NoWrap}
use smith.Scheduler.Outcome.{Outcome}
use smith.Scheduler.Overcommit.{overcommitted}
use smith.Scheduler.Plan.Idempotence.{rebalance-idempotent}
use smith.Scheduler.Plan.{rebalance, rebalance_plan, plan_for}
use smith.Scheduler.Reach.{reassigns, IsSafe, start, Reach-overcommitted, next, assigns}
use smith.Scheduler.{Scheduler, times_1000, share, committed, schedulable, reassign_node, assign}
use smith.Tests.Data.{
  two_nodes, node_of, thousandths, node_b, differs, two_nodes-IsKeyed, half_cpu, node_a,
  one_replica_on_a,
}
use smith.Types.{Node, Resources}

a_or_b : (id : String) (n : Node) → Registry.get id two_nodes ≡ some n → (n ≡ node_a) ⊎ (n ≡ node_b)
unfolding Registry.get lookup
a_or_b id n found = ground (arith)

pub empty-IsSafe : IsSafe two_nodes Scheduler.empty
unfolding committed lookup lookup_or schedulable share times_1000
empty-IsSafe = record {
  consistent = empty-IsConsistent;
  clean = record { cpu = λ id. ground arith; memory = λ id. ground arith };
  all = record {
    at_node = λ id n found. elim (a_or_b id n found) [ inl e ↦ rw e refl | inr e ↦ rw e refl ];
  };
}

pub half_cpu-IsSmall : IsSmall half_cpu
half_cpu-IsSmall = ((ground arith, ground arith), (ground arith, ground arith))

pub two_nodes-HasSmallNodes : HasSmallNodes two_nodes
unfolding times_1000
two_nodes-HasSmallNodes id n found = elim (a_or_b id n found) [
  | inl e ↦ rw e (ground arith, ground arith)
  | inr e ↦ rw e (ground arith, ground arith)
]

-- one replica assigned, then "a" taken down
abbrev after_assign : Scheduler
after_assign = (assign thousandths 5 two_nodes "web-0" "web" half_cpu Scheduler.empty).0

Reach-overcommitted_example :
    (overcommitted two_nodes (reassign_node "a" after_assign).0 ≡ [])
    × NoWrap two_nodes (reassign_node "a" after_assign).0
Reach-overcommitted_example =
    Reach-overcommitted {fl = thousandths} two_nodes-IsKeyed two_nodes-HasSmallNodes empty-IsSafe (
      next (next start (assigns 5 "web-0" "web" half_cpu half_cpu-IsSmall refl))
        (reassigns "a" refl))

named_nodes : All (λ n. n.id ≢ "") (node_b ∷ node_a ∷ [])
named_nodes = (differs "b" "" refl, (differs "a" "" refl, tt))

abbrev large : Resources
large = record { cpu_millicores = pos 9000; memory_mb = pos 256 }

-- "a" has shrunk to one core, and the replica asks for more
abbrev shrunk : Registry
shrunk = record { nodes = ("a", node_of "a" (pos 0)) ∷ ("b", node_b) ∷ [] }

rebalance-idempotent_example :
    rebalance_plan thousandths 5 shrunk (rebalance thousandths 5 shrunk one_replica_on_a).0 ≡ []
rebalance-idempotent_example = rebalance-idempotent thousandths 5 shrunk one_replica_on_a

move_to_b :
    Elem
      (record { replica_id = "web-0"; from_node = "a"; to_node = "b" })
      (rebalance_plan thousandths 5 shrunk one_replica_on_a)
unfolding rebalance_plan plan_for Registry.alive lookup schedulable ◌+ℤ◌ lookup_or
    smith.Prelude.Assoc.insert
move_to_b = inl refl
