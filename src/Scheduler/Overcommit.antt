-- ===== src/Scheduler/Overcommit.antt =====
-- internal/scheduler/scheduler.go: `Overcommitted`, the nodes that hold more than can be scheduled.
use smith.Prelude.Int.{ltb_ℤ, ℤ}
use smith.Prelude.Names.{contains}
use smith.Prelude.Sort.{sort}
use smith.Prelude.Text.{str_lt}
use smith.Prelude.{String, ◌||◌, Option, none, some, List, [], ◌∷◌, if◌then◌else◌}
use smith.Registry
use smith.Registry.{Registry}
use smith.Scheduler.{committed, Scheduler, schedulable}
use smith.Types.{Node, Resources}

pub record NodeLoad : Type 0 where
  pub node_id : String
  pub cpu_millicores : ℤ
  pub memory_mb : ℤ
  pub cap_cpu : ℤ
  pub cap_memory_mb : ℤ

-- the keys of `usedCPU`: each node that holds a replica, once
unfoldable pub used_nodes : List (String × String) → List String
unfolding contains
used_nodes [] = []
used_nodes ((id, at) ∷ rest) =
    let more = used_nodes rest in if contains more at then more else at ∷ more

unfoldable pub over_capacity : String → Resources → Node → Option NodeLoad
over_capacity id used node =
    let (cap_cpu, cap_mem) = schedulable node in
    if ltb_ℤ cap_cpu used.cpu_millicores || ltb_ℤ cap_mem used.memory_mb
    then some (record {
      node_id = id;
      cpu_millicores = used.cpu_millicores;
      memory_mb = used.memory_mb;
      cap_cpu = cap_cpu;
      cap_memory_mb = cap_mem;
    })
    else none

-- the loop of `Overcommitted` over the nodes in use; an unregistered node is skipped
unfoldable pub overloads : Registry → Scheduler → List String → List NodeLoad
unfolding over_capacity committed
overloads reg s [] = []
overloads reg s (id ∷ ids) =
    let rest = overloads reg s ids in
    elim (Registry.get id reg) [
      | none ↦ rest
      | some node ↦ elim (over_capacity id (committed s.requests s.assignments id) node) [
        | none ↦ rest
        | some load ↦ load ∷ rest
      ]
    ]

unfoldable pub overcommitted : Registry → Scheduler → List NodeLoad
unfolding overloads used_nodes sort
overcommitted reg s =
    sort (λ a b. str_lt a.node_id b.node_id) (overloads reg s (used_nodes s.assignments))
