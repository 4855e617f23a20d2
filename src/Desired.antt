-- ===== src/Desired.antt =====
-- The desired state: internal/reconciler/store.go, and the functions of
-- internal/reconciler/reconciler.go that read a workload.
pub mod Expand
pub mod Stored
use smith.Prelude.Assoc
use smith.Prelude.Decimal.{decimal}
use smith.Prelude.Int.{pos, negsuc}
use smith.Prelude.Sort.{sort_strings, sort}
use smith.Prelude.Text.{str_lt, append, ◌==◌}
use smith.Prelude.{ℕ, zero, suc, ◌+◌, String, Option, none, some, List, [], ◌∷◌, if◌then◌else◌}
use smith.Types.{Workload, PortMapping, no_resources, Resources, Volume}

pub record Store : Type 0 where
  pub workloads : List (String × Workload)

-- `NewStore`
abbrev pub empty_store : Store
empty_store = record { workloads = [] }

pub data StoreError : Type 0 where
  empty_id : StoreError
  empty_image : String → StoreError

-- `Add`
unfoldable pub store_add : Workload → Store → Store × Option StoreError
store_add w s =
    if w.id == ""
    then (s, some empty_id)
    else if w.image == ""
    then (s, some (empty_image w.id))
    else (record s { workloads = Assoc.insert w.id w s.workloads }, none)

-- `Remove`
unfoldable pub store_remove : String → Store → Store
store_remove id s = record s { workloads = Assoc.delete id s.workloads }

-- `List`
abbrev pub store_list : Store → List (String × Workload)
store_list s = s.workloads

-- `replicaInstance`
pub record Instance : Type 0 where
  pub wl : Workload
  pub parent : String

-- `fmt.Sprintf("%s-%d", id, i)`
unfoldable pub replica_id_of : String → ℕ → String
unfolding decimal
replica_id_of id i = append id (append "-" (decimal i))

-- the instance of a workload with the index `i`
unfoldable pub instance_of : String → Workload → ℕ → Instance
unfolding replica_id_of
instance_of id w i = record {
  wl = record w { id = replica_id_of id i; replicas = pos 0 };
  parent = id;
}

-- fewer than one replica stand for one
unfoldable pub replica_count : Workload → ℕ
replica_count w = elim w.replicas [ pos zero ↦ 1 | pos (suc n) ↦ suc n | negsuc n ↦ 1 ]

-- `for i := 0; i < n; i++`, the last `rounds` rounds of it
unfoldable pub expand_workload :
    String → Workload → ℕ → ℕ → List (String × Instance) → List (String × Instance)
unfolding instance_of
expand_workload id w zero i out = out
expand_workload id w (suc rounds) i out =
    expand_workload id w rounds (i + 1) (Assoc.insert (replica_id_of id i) (instance_of id w i) out)

unfoldable pub expand_from :
    List (String × Workload) → List (String × Instance) → List (String × Instance)
unfolding expand_workload replica_count
expand_from [] out = out
expand_from ((id, w) ∷ rest) out = expand_from rest (expand_workload id w (replica_count w) 0 out)

unfoldable pub expand : List (String × Workload) → List (String × Instance)
unfolding expand_from
expand desired = expand_from desired []

unfoldable pub sorted_replica_ids : List (String × Instance) → List String
sorted_replica_ids desired = sort_strings (Assoc.keys desired)

-- `requestOf`
abbrev pub request_of_workload : Workload → Resources
request_of_workload w = elim w.resources [ none ↦ no_resources | some r ↦ r ]

-- `maxUnavailable`
unfoldable pub rollout_budget : Workload → ℕ
rollout_budget w = elim w.max_unavailable [ pos zero ↦ 1 | pos (suc n) ↦ suc n | negsuc n ↦ 1 ]

-- the fields that `specHash` encodes
pub record Canonical : Type 0 where
  pub image : String
  pub args : List String
  pub env : List (String × String)
  pub ports : List PortMapping
  pub resources : Option Resources
  pub volumes : List Volume

-- encoding/json sorts the keys of a map
unfoldable pub canonical_of : Workload → Canonical
canonical_of w = record {
  image = w.image;
  args = w.args;
  env = sort (λ a b. str_lt a.0 b.0) w.env;
  ports = w.ports;
  resources = w.resources;
  volumes = w.volumes;
}

-- `specHash`: `digest` is the SHA-256 of the JSON text
unfoldable pub spec_hash : (Canonical → String) → Workload → String
unfolding canonical_of
spec_hash digest w = digest (canonical_of w)
