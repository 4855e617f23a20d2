-- ===== src/Server.antt =====
-- internal/api/server.go: the handlers of the control plane. A handler takes the path value, or the
-- decoded JSON body, `none` when it does not decode, and gives the reply with the new state. A store
-- that is not wired is `none`. The certificates, the user interface, the log stream and the routing of
-- the requests are not modelled.
pub mod Tables
pub mod Checks
pub mod Invariant
pub mod Requests
pub mod Decommission
pub mod Auth
use text.Mathlib.Text.{starts_with}
use smith.Desired.{StoreError, Store, store_remove, store_add, store_list}
use smith.Floats.{Floats}
use smith.Manifest.{is_empty}
use smith.Prelude.Int.{ℤ, pos, ltb_ℤ}
use smith.Prelude.Names.{contains, is_absolute, matches_name}
use smith.Prelude.Text.{◌==◌}
use smith.Prelude.{
  ℕ, String, not, Option, none, some, List, [], ◌∷◌, map, ok, err, refuse_if, if◌then◌else◌, ◌>>◌,
  Result,
}
use smith.Registry
use smith.Registry.{register, HeartbeatError, heartbeat, Registry}
use smith.Scheduler.Plan.{rebalance_plan, rebalance}
use smith.Scheduler.{list_assignments, reassign_node, Scheduler}
use smith.Stores.Ingresses.{IngressError, IngressStore}
use smith.Stores.Services.{ServiceError, ServiceStore}
use smith.Stores.Subnets
use smith.Stores.Subnets.{SubnetError, release, SubnetAllocator}
use smith.Stores.{Faults}
use smith.Types.{NetworkConfig, Node, Assignment, Service, Move, Volume, Ingress, Workload}

pub record Server : Type 0 where
  pub token : String
  pub store : Store
  pub registry : Registry
  pub scheduler : Scheduler
  pub allocator : Option SubnetAllocator
  pub services : Option ServiceStore
  pub ingresses : Option IngressStore

pub data ApiError : Type 0 where
  bad_header : ApiError
  bad_token : ApiError
  bad_body : ApiError
  missing_value : ApiError
  not_configured : ApiError
  replicas_with_volumes : String → ℤ → ApiError
  workload_volume_name : String → String → ApiError
  workload_volume_twice : String → String → ApiError
  workload_volume_path : String → String → String → ApiError
  store_refused : StoreError → ApiError
  store_failed : ApiError
  node_unknown : HeartbeatError → ApiError
  subnet_refused : SubnetError → ApiError
  service_refused : ServiceError → ApiError
  ingress_refused : IngressError → ApiError

pub data Body : Type 0 where
  no_body : Body
  error_body : ApiError → Body
  workload_body : Workload → Body
  workloads_body : List Workload → Body
  network_body : NetworkConfig → Body
  nodes_body : List Node → Body
  assignments_body : List Assignment → Body
  moves_body : List Move → Body
  service_body : Service → Body
  services_body : List Service → Body
  ingress_body : Ingress → Body
  ingresses_body : List Ingress → Body

pub record Reply : Type 0 where
  pub code : ℕ
  pub body : Body

abbrev pub http_error : ApiError → ℕ → Reply
http_error e code = record { code = code; body = error_body e }

abbrev pub write_json : ℕ → Body → Reply
write_json code body = record { code = code; body = body }

abbrev pub Handled : Type 0
Handled = Server × Reply

-- `strings.TrimPrefix`, of a text that has the prefix
unfoldable pub trim_prefix : String → String → String
trim_prefix String.[] s = s
trim_prefix (String.◌∷◌ c p) String.[] = String.[]
trim_prefix (String.◌∷◌ c p) (String.◌∷◌ d s) = trim_prefix p s

-- the checks of `requireAuth`
unfoldable pub require_auth : String → String → Result ApiError (Unit {0})
unfolding trim_prefix
require_auth token auth =
    refuse_if (not (starts_with auth "Bearer ")) bad_header
    >> refuse_if (not (trim_prefix "Bearer " auth == token)) bad_token

-- the loop of `validateWorkload`
unfoldable pub validate_workload_volumes :
    String → List String → List Volume → Result ApiError (Unit {0})
unfolding contains matches_name
validate_workload_volumes id seen [] = ok tt
validate_workload_volumes id seen (v ∷ vols) =
    refuse_if (not (matches_name v.name)) (workload_volume_name id v.name)
    >> (refuse_if (contains seen v.name) (workload_volume_twice id v.name)
        >> (refuse_if (not (is_absolute v.path)) (workload_volume_path id v.name v.path)
            >> validate_workload_volumes id (v.name ∷ seen) vols))

unfoldable pub validate_workload : Workload → Result ApiError (Unit {0})
unfolding validate_workload_volumes
validate_workload w =
    if is_empty w.volumes
    then ok tt
    else (refuse_if (ltb_ℤ (pos 1) w.replicas) (replicas_with_volumes w.id w.replicas)
        >> validate_workload_volumes w.id [] w.volumes)

-- a list that the store cannot read is answered with an error
unfoldable pub list_workloads : Faults → Server → Reply
list_workloads faults s =
    if faults.scan
    then http_error store_failed 500
    else write_json 200 (workloads_body (map (λ e. e.1) (store_list s.store)))

unfoldable pub add_workload : Option Workload → Server → Handled
unfolding validate_workload store_add
add_workload none s = (s, http_error bad_body 400)
add_workload (some wl) s = elim (validate_workload wl) [
  | err e ↦ (s, http_error e 400)
  | ok u ↦
      let (after, answer) = store_add wl s.store in
      elim answer [
        | some e ↦ (record s { store = after }, http_error (store_refused e) 400)
        | none ↦ (record s { store = after }, write_json 201 (workload_body wl))
      ]
]

unfoldable pub remove_workload : Faults → String → Server → Handled
unfolding store_remove
remove_workload faults id s =
    if id == ""
    then (s, http_error missing_value 400)
    else if faults.write
    then (s, http_error store_failed 500)
    else (record s { store = store_remove id s.store }, write_json 204 no_body)

-- `registerNode`: the node is registered before its subnet is allocated
unfoldable pub register_node : Faults → ℕ → Option Node → Server → Handled
register_node faults now none s = (s, http_error bad_body 400)
register_node faults now (some node) s =
    let seen = record s { registry = register now node s.registry } in
    elim s.allocator [
      | none ↦ (seen, write_json 200 no_body)
      | some a ↦
          let (after, answer) = Subnets.allocate faults node.id a in
          elim answer [
            | err e ↦ (record seen { allocator = some after }, http_error (subnet_refused e) 500)
            | ok cfg ↦ (record seen { allocator = some after }, write_json 200 (network_body cfg))
          ]
    ]

unfoldable pub node_heartbeat : ℕ → String → Server → Handled
node_heartbeat now id s =
    if id == ""
    then (s, http_error missing_value 400)
    else let (after, answer) = heartbeat now id s.registry in
      elim answer [
        | some e ↦ (record s { registry = after }, http_error (node_unknown e) 404)
        | none ↦ (record s { registry = after }, write_json 200 no_body)
      ]

unfoldable pub list_nodes : Server → Reply
list_nodes s = write_json 200 (nodes_body (Registry.list s.registry))

unfoldable pub assignments_of : Server → Reply
assignments_of s = write_json 200 (assignments_body (list_assignments s.scheduler))

unfoldable pub plan_of : Floats → ℕ → Server → Reply
plan_of fl now s = write_json 200 (moves_body (rebalance_plan fl now s.registry s.scheduler))

unfoldable pub enact_rebalance : Floats → ℕ → Server → Handled
enact_rebalance fl now s =
    let (after, moves) = rebalance fl now s.registry s.scheduler in
    (record s { scheduler = after }, write_json 200 (moves_body moves))

-- the end of `removeNode`
unfoldable pub evict_removed : String → Server → Handled
evict_removed id s =
    (record s { scheduler = (reassign_node id s.scheduler).0 }, write_json 204 no_body)

unfoldable pub remove_node : Faults → String → Server → Handled
unfolding evict_removed
remove_node faults id s =
    if id == ""
    then (s, http_error missing_value 400)
    else (let gone = record s { registry = Registry.remove id s.registry } in
        elim s.allocator [
          | none ↦ evict_removed id gone
          | some a ↦
              let (after, answer) = release faults id a in
              elim answer [
                | some e ↦
                    (record gone { allocator = some after }, http_error (subnet_refused e) 500)
                | none ↦ evict_removed id (record gone { allocator = some after })
              ]
        ])
