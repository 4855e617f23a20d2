-- ===== src/Server/Tables.antt =====
-- internal/api/server.go: the handlers of services and ingresses, and the tables that the nodes pull:
-- routes, endpoints and ingress rules.
pub mod Routes
use smith.Prelude.Text.{◌==◌}
use smith.Prelude.{
  String, not, ◌&&◌, Option, none, some, List, [], ◌∷◌, map, collect, Result, ok, err,
  if◌then◌else◌,
}
use smith.Registry
use smith.Registry.{Registry}
use smith.Scheduler.{list_assignments}
use smith.Server.{
  bad_body, service_refused, no_body, Server, Handled, not_configured, ingress_refused, ApiError,
  write_json, subnet_refused, http_error, service_body, Reply, ingress_body, services_body,
  missing_value, ingresses_body,
}
use smith.Stores.Ingresses.{list_ingresses, add_ingress, remove_ingress}
use smith.Stores.Services.{remove_service, list_services, add_service}
use smith.Stores.Subnets.{all_subnets}
use smith.Stores.{Faults}
use smith.Types.{Route, Ingress, Service, Assignment, IngressRule, ServiceEndpoints}

unfoldable pub handle_add_service : Faults → Option Service → Server → Handled
handle_add_service faults body s = elim s.services [
  | none ↦ (s, http_error not_configured 500)
  | some table ↦ elim body [
    | none ↦ (s, http_error bad_body 400)
    | some svc ↦
        let (after, answer) = add_service faults svc table in
        elim answer [
          | err e ↦ (record s { services = some after }, http_error (service_refused e) 400)
          | ok stored ↦ (record s { services = some after }, write_json 201 (service_body stored))
        ]
  ]
]

unfoldable pub handle_list_services : Faults → Server → Reply
handle_list_services faults s = elim s.services [
  | none ↦ write_json 200 (services_body [])
  | some table ↦ elim (list_services faults table) [
    | err e ↦ http_error (service_refused e) 500
    | ok svcs ↦ write_json 200 (services_body svcs)
  ]
]

unfoldable pub handle_remove_service : Faults → String → Server → Handled
handle_remove_service faults name s = elim s.services [
  | none ↦ (s, http_error not_configured 500)
  | some table ↦
      if name == ""
      then (s, http_error missing_value 400)
      else let (after, answer) = remove_service faults name table in
        elim answer [
          | some e ↦ (record s { services = some after }, http_error (service_refused e) 500)
          | none ↦ (record s { services = some after }, write_json 204 no_body)
        ]
]

unfoldable pub handle_add_ingress : Faults → Option Ingress → Server → Handled
handle_add_ingress faults body s = elim s.ingresses [
  | none ↦ (s, http_error not_configured 500)
  | some table ↦ elim body [
    | none ↦ (s, http_error bad_body 400)
    | some ing ↦
        let (after, answer) = add_ingress faults ing table in
        elim answer [
          | some e ↦ (record s { ingresses = some after }, http_error (ingress_refused e) 400)
          | none ↦ (record s { ingresses = some after }, write_json 201 (ingress_body ing))
        ]
  ]
]

unfoldable pub handle_list_ingresses : Faults → Server → Reply
handle_list_ingresses faults s = elim s.ingresses [
  | none ↦ write_json 200 (ingresses_body [])
  | some table ↦ elim (list_ingresses faults table) [
    | err e ↦ http_error (ingress_refused e) 500
    | ok ings ↦ write_json 200 (ingresses_body ings)
  ]
]

unfoldable pub handle_remove_ingress : Faults → String → Server → Handled
handle_remove_ingress faults host s = elim s.ingresses [
  | none ↦ (s, http_error not_configured 500)
  | some table ↦
      if host == ""
      then (s, http_error missing_value 400)
      else let (after, answer) = remove_ingress faults host table in
        elim answer [
          | some e ↦ (record s { ingresses = some after }, http_error (ingress_refused e) 500)
          | none ↦ (record s { ingresses = some after }, write_json 204 no_body)
        ]
]

-- one round of the loop of `nodeRoutes`
unfoldable pub route_to : Registry → String → String × String → Option Route
route_to reg id entry = if entry.0 == id then none else elim (Registry.get entry.0 reg) [
  | none ↦ none
  | some peer ↦
      if peer.host_ip == "" then none else some (record { subnet = entry.1; via = peer.host_ip })
]

unfoldable pub node_routes : Faults → String → Server → Result ApiError (List Route)
unfolding route_to
node_routes faults id s = if id == "" then err missing_value else elim s.allocator [
  | none ↦ ok []
  | some a ↦ elim (all_subnets faults a) [
    | err e ↦ err (subnet_refused e)
    | ok subnets ↦ ok (collect (route_to s.registry id) subnets)
  ]
]

-- what the status function reports of a replica
pub record ContainerStatus : Type 0 where
  pub status : String
  pub ip : String

-- one round of the inner loop of `computeEndpoints`; `statuses` is the status function's answer
unfoldable pub endpoint_at :
    (String → String → Option ContainerStatus) → String → Assignment → Option String
endpoint_at statuses workload a =
    if not (a.parent_id == workload) then none else elim (statuses a.node_id a.workload_id) [
      | none ↦ none
      | some cs ↦ if cs.status == "running" && not (cs.ip == "") then some cs.ip else none
    ]

unfoldable pub endpoints_entry :
    (String → String → Option ContainerStatus) → List Assignment → Service → ServiceEndpoints
unfolding endpoint_at
endpoints_entry statuses assignments svc = record {
  name = svc.name;
  cluster_ip = svc.cluster_ip;
  port = svc.port;
  node_port = svc.node_port;
  target_port = svc.target_port;
  protocol = svc.protocol;
  endpoints = collect (endpoint_at statuses svc.workload_id) assignments;
}

unfoldable pub compute_endpoints :
    (String → String → Option ContainerStatus) → Faults → Server → List ServiceEndpoints
unfolding endpoints_entry
compute_endpoints statuses faults s = elim s.services [
  | none ↦ []
  | some table ↦ elim (list_services faults table) [
    | err e ↦ []
    | ok svcs ↦ map (endpoints_entry statuses (list_assignments s.scheduler)) svcs
  ]
]

-- `byName[name]`, the last service of the name
unfoldable pub service_by_name : List Service → String → Option Service
service_by_name [] name = none
service_by_name (sv ∷ svcs) name = elim (service_by_name svcs name) [
  | some later ↦ some later
  | none ↦ if sv.name == name then some sv else none
]

-- one round of the loop of `computeIngressRules`
unfoldable pub rule_for : List Service → Ingress → Option IngressRule
unfolding service_by_name
rule_for svcs ing = elim (service_by_name svcs ing.service) [
  | none ↦ none
  | some sv ↦
      if sv.cluster_ip == ""
      then none
      else some (record { host = ing.host; cluster_ip = sv.cluster_ip; port = sv.port })
]

unfoldable pub compute_ingress_rules : Faults → Faults → Server → Result ApiError (List IngressRule)
unfolding rule_for
compute_ingress_rules of_ingresses of_services s = elim s.ingresses [
  | none ↦ ok []
  | some ing_table ↦ elim s.services [
    | none ↦ ok []
    | some svc_table ↦ elim (list_ingresses of_ingresses ing_table) [
      | err e ↦ err (ingress_refused e)
      | ok ings ↦ elim (list_services of_services svc_table) [
        | err e ↦ err (service_refused e)
        | ok svcs ↦ ok (collect (rule_for svcs) ings)
      ]
    ]
  ]
]
