-- ===== src/Scheduler.antt =====
-- internal/scheduler/scheduler.go: the state of the scheduler, its placement rule and its methods
-- but the rebalance, which Scheduler/Plan.antt models, and the overcommitted nodes, which
-- Scheduler/Overcommit.antt models. The registry that the scheduler points to, and
-- the time, are arguments; the mutex makes each method one step.
pub mod Placement
pub mod Overcommit
pub mod Plan
pub mod Load
pub mod Eviction
pub mod Machine
pub mod Reach
pub mod Invariant
pub mod Capacity
pub mod Outcome
pub mod Consistency
use smith.Floats.{Floats}
use smith.Prelude.Assoc
use smith.Prelude.Int.{sub_ℕ, negsuc, ltb_ℤ, ◌+ℤ◌, ℤ, ◌-ℤ◌, leb_ℤ, pos}
use smith.Prelude.Sort.{sort}
use smith.Prelude.Text.{str_lt, ◌==◌}
use smith.Prelude.{
  ℕ, zero, suc, ◌+◌, ◌*◌, ◌/◌, String, Bool, false, not, ◌&&◌, ◌||◌, Option, none, some, List, [],
  ◌∷◌, map, ok, eqb, ltb, Result, err, if◌then◌else◌,
}
use smith.Registry
use smith.Registry.{Registry}
use smith.Types.{Node, Assignment, no_resources, Resources}

pub record Scheduler : Type 0 where
  pub assignments : List (String × String)  -- replicaID -> nodeID
  pub parents : List (String × String)  -- replicaID -> parent workloadID
  pub requests : List (String × Resources)  -- replicaID -> resource request

-- `New`
abbrev pub empty : Scheduler
empty = record { assignments = []; parents = []; requests = [] }

unfoldable pub times_1000 : ℤ → ℤ
times_1000 (pos n) = pos (n * 1000)
times_1000 (negsuc n) = negsuc (n * 1000 + 999)

-- `int(float64(x) * (1 - schedulableReserveFraction))`. The product of a whole number below 2 ^ 40
-- with the double next to 0.85 rounds to a double whose whole part is that of the exact product.
unfoldable pub share : ℤ → ℤ
share (pos n) = pos (n * 85 / 100)
share (negsuc n) = sub_ℕ 0 ((n + 1) * 85 / 100)

unfoldable pub schedulable : Node → ℤ × ℤ
unfolding share times_1000
schedulable n = (share (times_1000 n.cpu), share n.memory_mb)

abbrev pub request_of : List (String × Resources) → String → Resources
request_of requests id = Assoc.lookup_or no_resources id requests

abbrev pub add_resources : Resources → Resources → Resources
add_resources a b = record {
  cpu_millicores = a.cpu_millicores +ℤ b.cpu_millicores;
  memory_mb = a.memory_mb +ℤ b.memory_mb;
}

-- `allocCPU[nodeID]` and `allocMem[nodeID]` after the loop over the assignments
unfoldable pub committed : List (String × Resources) → List (String × String) → String → Resources
committed requests [] node = no_resources
committed requests ((id, at) ∷ rest) node =
    let more = committed requests rest node in
    if at == node then add_resources (request_of requests id) more else more

-- `siblings[nodeID]` after the loop over the assignments
unfoldable pub siblings_on : List (String × String) → String → List (String × String) → String → ℕ
siblings_on parents parent [] node = 0
siblings_on parents parent ((id, at) ∷ rest) node =
    let more = siblings_on parents parent rest node in
    if Assoc.lookup_or "" id parents == parent && at == node then suc more else more

-- what `fitsOnNode` counts on a node: all but the replica itself
unfoldable pub committed_except :
    List (String × Resources) → String → List (String × String) → String → Resources
committed_except requests replica [] node = no_resources
committed_except requests replica ((id, at) ∷ rest) node =
    let more = committed_except requests replica rest node in
    if not (at == node) || id == replica then more else add_resources (request_of requests id) more

abbrev pub within : Resources → ℤ × ℤ → Bool
within r cap = leb_ℤ r.cpu_millicores cap.0 && leb_ℤ r.memory_mb cap.1

unfoldable pub fits_on_node : Registry → Scheduler → String → String → Resources → Bool
fits_on_node reg s node_id replica req = elim (Registry.get node_id reg) [
  | none ↦ false
  | some node ↦
      within (add_resources (committed_except s.requests replica s.assignments node_id) req)
        (schedulable node)
]

module _ (fl : Floats) where
  -- a node that fits, as `place` ranks it
  pub record Candidate : Type 0 where
    pub id : String
    pub siblings : ℕ
    pub remaining : fl.Num

  -- `float64(cap-alloc-req) / float64(cap)`, or 0 without capacity
  unfoldable pub free_fraction : ℤ → ℤ → ℤ → fl.Num
  free_fraction cap alloc req =
      if ltb_ℤ (pos 0) cap then fl.ratio (cap -ℤ alloc -ℤ req) cap else fl.zero

  unfoldable pub candidate : (String → Resources) → (String → ℕ) → Resources → Node → Candidate
  unfolding free_fraction
  candidate alloc siblings req n =
      let (cap_cpu, cap_mem) = schedulable n in
      record {
        id = n.id;
        siblings = siblings n.id;
        remaining =
            fl.add (free_fraction cap_cpu (alloc n.id).cpu_millicores req.cpu_millicores)
              (free_fraction cap_mem (alloc n.id).memory_mb req.memory_mb);
      }

  -- the loop of `place` over the nodes
  unfoldable pub fitting :
      (String → Resources) → (String → ℕ) → Resources → List Node → List Candidate
  fitting alloc siblings req [] = []
  fitting alloc siblings req (n ∷ nodes) =
      let rest = fitting alloc siblings req nodes in
      let (cap_cpu, cap_mem) = schedulable n in
      if ltb_ℤ cap_cpu ((alloc n.id).cpu_millicores +ℤ req.cpu_millicores)
        || ltb_ℤ cap_mem ((alloc n.id).memory_mb +ℤ req.memory_mb)
      then rest
      else candidate alloc siblings req n ∷ rest

  -- the order of the candidates: fewest siblings, least remaining capacity, node ID
  unfoldable pub better : Candidate → Candidate → Bool
  better a b =
      if not (eqb a.siblings b.siblings)
      then ltb a.siblings b.siblings
      else if not (fl.eq a.remaining b.remaining)
      then fl.lt a.remaining b.remaining
      else str_lt a.id b.id

  abbrev pub first_id : List Candidate → String
  first_id [] = ""
  first_id (c ∷ _) = c.id

  unfoldable pub place : List Node → (String → Resources) → (String → ℕ) → Resources → String
  unfolding fitting candidate better sort
  place nodes alloc siblings req = first_id (sort better (fitting alloc siblings req nodes))

-- The two errors of `Assign`: there is no alive node, or none fits.
pub data AssignError : Type 0 where
  no_alive_nodes : AssignError
  insufficient_capacity : String → Resources → AssignError

unfoldable pub unassign : String → Scheduler → Scheduler
unassign id s = record {
  assignments = Assoc.delete id s.assignments;
  parents = Assoc.delete id s.parents;
  requests = Assoc.delete id s.requests;
}

abbrev pub Assigned : Type 0
Assigned = Scheduler × Result AssignError Assignment

-- the end of `Assign`: nothing is recorded when no node was found
unfoldable pub record_placement : String → String → Resources → Scheduler → String → Assigned
record_placement replica parent req s best =
    if best == "" then (s, err (insufficient_capacity replica req)) else (
      record {
        assignments = Assoc.insert replica best s.assignments;
        parents = Assoc.insert replica parent s.parents;
        requests = Assoc.insert replica req s.requests;
      },
      ok (record { workload_id = replica; node_id = best; parent_id = parent }),
    )

-- `Assign` of a replica that holds no node, given the alive nodes
unfoldable pub assign_new : Floats → List Node → String → String → Resources → Scheduler → Assigned
unfolding place record_placement committed siblings_on
assign_new fl [] replica parent req s = (s, err no_alive_nodes)
assign_new fl (n ∷ nodes) replica parent req s = record_placement replica parent req s (
    place fl (n ∷ nodes) (committed s.requests s.assignments)
      (siblings_on s.parents parent s.assignments) req)

unfoldable pub assign : Floats → ℕ → Registry → String → String → Resources → Scheduler → Assigned
unfolding assign_new fits_on_node unassign
assign fl now reg replica parent req s = elim (Assoc.lookup replica s.assignments) [
  | none ↦ assign_new fl (Registry.alive now reg) replica parent req s
  | some node ↦
      if fits_on_node reg s node replica req
      then (
        record s { requests = Assoc.insert replica req s.requests },
        ok (record {
          workload_id = replica;
          node_id = node;
          parent_id = Assoc.lookup_or "" replica s.parents;
        }),
      )
      else assign_new fl (Registry.alive now reg) replica parent req (unassign replica s)
]

unfoldable pub get_assignment : String → Scheduler → Option Assignment
get_assignment id s = elim (Assoc.lookup id s.assignments) [
  | none ↦ none
  | some node ↦
      some
        (record { workload_id = id; node_id = node; parent_id = Assoc.lookup_or "" id s.parents })
]

unfoldable pub list_assignments : Scheduler → List Assignment
list_assignments s =
    map
      (λ e. record {
        workload_id = e.0;
        node_id = e.1;
        parent_id = Assoc.lookup_or "" e.0 s.parents;
      })
      s.assignments

-- the replicas that the loop of `ReassignNode` meets on the node
unfoldable pub replicas_on : String → List (String × String) → List String
replicas_on node [] = []
replicas_on node ((id, at) ∷ rest) =
    let more = replicas_on node rest in if at == node then id ∷ more else more

unfoldable pub unassign_all : List String → Scheduler → Scheduler
unfolding unassign
unassign_all [] s = s
unassign_all (id ∷ ids) s = unassign_all ids (unassign id s)

unfoldable pub reassign_node : String → Scheduler → Scheduler × List String
unfolding replicas_on unassign_all
reassign_node node s =
    let evicted = replicas_on node s.assignments in (unassign_all evicted s, evicted)
