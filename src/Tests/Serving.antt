-- ===== src/Tests/Serving.antt =====
-- internal/api/server.go with two nodes, and stores that are wired and empty.
use smith.Desired.{empty_store}
use smith.Prelude.Int.{pos}
use smith.Prelude.{◌+◌, String, ◌≡◌, refl, ◌↔◌, Option, none, some, [], ◌∷◌, map, Elem, ok}
use smith.Server.Checks.{resolve_workload-validate_workload}
use smith.Server.Decommission.{remove_node-IsDecommissioned, IsDecommissioned}
use smith.Server.Invariant.{IsSound, adds_service}
use smith.Server.Requests.{Request-IsSound}
use smith.Server.Tables.Routes.{IsRoute, node_routes-IsRoute}
use smith.Server.Tables.{node_routes, ContainerStatus, handle_add_service}
use smith.Server.{Server, validate_workload, remove_node}
use smith.Stores.Services.{service_base, ip_text}
use smith.Stores.Subnets.{release, SubnetAllocator}
use smith.Stores.{no_faults}
use smith.Tests.Bundle.{web_workload, resolve_web_workload, web_app}
use smith.Tests.Data.{
  two_nodes, one_replica_on_a-IsConsistent, one_replica_on_a, two_nodes-IsKeyed, thousandths,
}
use smith.Tests.Tables.{
  no_subnets, no_services-IsAddressed, no_services, web_stored, no_subnets-IsAllocated, web_service,
}
use smith.Types.{Route, ServiceEndpoints}

abbrev wired : Server
wired = record {
  token = "t0ken";
  store = empty_store;
  registry = two_nodes;
  scheduler = one_replica_on_a;
  allocator = some no_subnets;
  services = some no_services;
  ingresses = none;
}

wired-IsSound : IsSound wired
wired-IsSound = record {
  nodes = two_nodes-IsKeyed;
  replicas = one_replica_on_a-IsConsistent;
  subnets = no_subnets-IsAllocated;
  addresses = no_services-IsAddressed;
}

Request-IsSound_example : IsSound (handle_add_service no_faults (some web_service) wired).0
Request-IsSound_example =
    Request-IsSound {fl = thousandths} (adds_service no_faults (some web_service)) wired-IsSound

gone : (remove_node no_faults "a" wired).1.code ≡ 204
unfolding remove_node release
gone = refl

remove_node-IsDecommissioned_example :
    IsDecommissioned "a" wired.scheduler (remove_node no_faults "a" wired).0
remove_node-IsDecommissioned_example =
    remove_node-IsDecommissioned no_faults "a" wired one_replica_on_a-IsConsistent gone

resolve_workload-validate_workload_example : validate_workload web_workload ≡ ok tt
resolve_workload-validate_workload_example =
    resolve_workload-validate_workload web_app resolve_web_workload

-- "a" and "b" have their subnets
abbrev subnets_ab : SubnetAllocator
subnets_ab = record {
  base = (10, 22);
  rows =
      ("a", record { idx = 0; subnet = "10.22.0.0/24" })
      ∷ ("b", record { idx = 1; subnet = "10.22.1.0/24" })
      ∷ [];
}

abbrev pub routed : Server
routed = record wired { allocator = some subnets_ab; services = some web_stored }

abbrev route_b : Route
route_b = record { subnet = "10.22.1.0/24"; via = "10.0.0.1" }

routes_of_a : node_routes no_faults "a" routed ≡ ok (route_b ∷ [])
unfolding node_routes smith.Stores.Subnets.all_subnets smith.Prelude.collect smith.Registry.get
    smith.Prelude.Assoc.lookup
routes_of_a = refl

node_routes-IsRoute_example :
    Elem route_b (route_b ∷ [])
    ↔ IsRoute two_nodes "a" (map (λ e. (e.0, e.1.subnet)) subnets_ab.rows) route_b
node_routes-IsRoute_example =
    node_routes-IsRoute no_faults "a" routed subnets_ab refl routes_of_a route_b

abbrev pub all_running : String → String → Option ContainerStatus
all_running node replica = some (record { status = "running"; ip = "10.22.0.5" })

abbrev web_entry : ServiceEndpoints
web_entry = record {
  name = "web";
  cluster_ip = ip_text (service_base + 7);
  port = pos 80;
  node_port = pos 30005;
  target_port = pos 8080;
  protocol = "tcp";
  endpoints = "10.22.0.5" ∷ [];
}
