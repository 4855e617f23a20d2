-- ===== src/Scheduler/Plan.antt =====
-- internal/scheduler/scheduler.go: `planLocked`, `RebalancePlan` and `Rebalance`.
pub mod Rebalance
pub mod Idempotence
pub mod Kept
use smith.Floats.{Floats}
use smith.Prelude.Assoc
use smith.Prelude.Int.{eqb_ℤ, ltb_ℤ}
use smith.Prelude.Sort.{sort}
use smith.Prelude.Text.{str_lt, ◌==◌}
use smith.Prelude.{ℕ, String, Bool, not, none, some, List, [], ◌∷◌, map, if◌then◌else◌}
use smith.Registry
use smith.Registry.{Registry}
use smith.Scheduler.{request_of, siblings_on, place, Scheduler, add_resources}
use smith.Types.{Resources, no_resources, Move, Node}

-- a replica of the plan
pub record Replica : Type 0 where
  pub id : String
  pub parent : String
  pub req : Resources

unfoldable pub replicas_of : Scheduler → List String → List Replica
replicas_of s = map (λ id. record {
  id = id;
  parent = Assoc.lookup_or "" id s.parents;
  req = request_of s.requests id;
})

-- largest request first: memory, then CPU, then by ID
unfoldable pub larger : Replica → Replica → Bool
larger a b =
    if not (eqb_ℤ a.req.memory_mb b.req.memory_mb)
    then ltb_ℤ b.req.memory_mb a.req.memory_mb
    else if not (eqb_ℤ a.req.cpu_millicores b.req.cpu_millicores)
    then ltb_ℤ b.req.cpu_millicores a.req.cpu_millicores
    else str_lt a.id b.id

-- the scratch state of the simulation
pub record Layout : Type 0 where
  pub alloc : String → Resources
  pub target : List (String × String)

abbrev pub no_layout : Layout
no_layout = record { alloc = λ _. no_resources; target = [] }

-- one round of the simulation: a replica that fits nowhere is left out of the target
unfoldable pub put : String → Replica → Layout → Layout
put best r l = if best == "" then l else record {
  alloc = λ n. if n == best then add_resources (l.alloc n) r.req else l.alloc n;
  target = Assoc.insert r.id best l.target;
}

module _ (fl : Floats) (nodes : List Node) (parents : List (String × String)) where
  unfoldable pub simulate : List Replica → Layout → Layout
  unfolding place put siblings_on
  simulate [] l = l
  simulate (r ∷ rs) l =
      simulate rs (put (place fl nodes l.alloc (siblings_on parents r.parent l.target) r.req) r l)

-- the last loop: one move for each replica whose target is another node
unfoldable pub moves_to : List (String × String) → List (String × String) → List Replica → List Move
moves_to target assignments [] = []
moves_to target assignments (r ∷ rs) =
    let rest = moves_to target assignments rs in
    let from = Assoc.lookup_or "" r.id assignments in
    elim (Assoc.lookup r.id target) [
      | none ↦ rest
      | some to ↦
          if to == from
          then rest
          else (record { replica_id = r.id; from_node = from; to_node = to } ∷ rest)
    ]

-- the target of the simulation, with the replicas in the order in which it takes them
unfoldable pub sorted_replicas : Scheduler → List Replica
unfolding replicas_of larger sort
sorted_replicas s = sort larger (replicas_of s (Assoc.keys s.assignments))

unfoldable pub plan_for : Floats → List Node → Scheduler → List Move
unfolding simulate moves_to sort sorted_replicas
plan_for fl [] s = []
plan_for fl (n ∷ nodes) s =
    let replicas = sorted_replicas s in
    let target = (simulate fl (n ∷ nodes) s.parents replicas no_layout).target in
    sort (λ a b. str_lt a.replica_id b.replica_id) (moves_to target s.assignments replicas)

-- `RebalancePlan`; the state is only read
unfoldable pub rebalance_plan : Floats → ℕ → Registry → Scheduler → List Move
unfolding plan_for
rebalance_plan fl now reg s = plan_for fl (Registry.alive now reg) s

unfoldable pub commit_moves : List Move → List (String × String) → List (String × String)
commit_moves [] assignments = assignments
commit_moves (m ∷ ms) assignments =
    commit_moves ms (Assoc.insert m.replica_id m.to_node assignments)

unfoldable pub rebalance : Floats → ℕ → Registry → Scheduler → Scheduler × List Move
unfolding rebalance_plan commit_moves
rebalance fl now reg s =
    let moves = rebalance_plan fl now reg s in
    (record s { assignments = commit_moves moves s.assignments }, moves)
