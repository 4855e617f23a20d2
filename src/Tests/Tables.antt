-- ===== src/Tests/Tables.antt =====
-- The tables of internal/reconciler: subnets and services.
use smith.Prelude.Assoc.{lookup}
use smith.Prelude.Int.{pos}
use smith.Prelude.{◌+◌, ◌≡◌, refl, [], ◌∷◌, ok}
use smith.Stores.Services.Addresses.{add_service-IsAddressed}
use smith.Stores.Services.Allocation.{IsAddressed}
use smith.Stores.Services.Stability.{add_service_stable, Keeps}
use smith.Stores.Services.{ServiceRow, ServiceStore, ip_text, service_base, add_service}
use smith.Stores.Subnets
use smith.Stores.Subnets.Unique.{IsAllocated, allocate-IsAllocated}
use smith.Stores.Subnets.{config, Row}
use smith.Stores.{no_faults}
use smith.Types.{Service}

abbrev pub no_subnets : Subnets.SubnetAllocator
no_subnets = record { base = (10, 22); rows = [] }

pub no_subnets-IsAllocated : IsAllocated no_subnets
unfolding lookup
no_subnets-IsAllocated = record {
  distinct = tt;
  in_pool = λ id row h. cc;
  block_of = λ id row h. cc;
  unique = λ id other row row' h k e. cc;
}

allocate-IsAllocated_example : IsAllocated (Subnets.allocate no_faults "node-a" no_subnets).0
allocate-IsAllocated_example =
    allocate-IsAllocated no_faults "node-a" no_subnets no_subnets-IsAllocated

abbrev pub first_row : Row
first_row = record { idx = 0; subnet = "10.22.0.0/24" }

abbrev pub one_subnet : Subnets.SubnetAllocator
one_subnet = record { base = (10, 22); rows = ("node-a", first_row) ∷ [] }

allocate_a : Subnets.allocate no_faults "node-a" no_subnets ≡ (one_subnet, ok (config no_subnets 0))
unfolding Subnets.allocate config lookup smith.Prelude.Assoc.insert
allocate_a = refl

-- svcBase of 10.23.0.0/16
abbrev pub no_services : ServiceStore
no_services = record { svc_base = service_base; rows = [] }

pub no_services-IsAddressed : IsAddressed no_services
unfolding lookup
no_services-IsAddressed = record {
  base = refl;
  distinct = tt;
  ip_range = λ name row h. cc;
  port_range = λ name row h. cc;
  unique = λ name other row row' h k e. cc;
}

abbrev pub web_service : Service
web_service = record {
  name = "web";
  workload_id = "web";
  port = pos 80;
  target_port = pos 8080;
  protocol = "tcp";
  cluster_ip = "";
  node_port = pos 0;
}

add_service-IsAddressed_example : IsAddressed (add_service no_faults web_service no_services).0
add_service-IsAddressed_example =
    add_service-IsAddressed no_faults web_service no_services no_services-IsAddressed

abbrev pub web_row : ServiceRow
web_row = record {
  workload_id = "web";
  port = pos 80;
  target_port = pos 8080;
  protocol = "tcp";
  cluster_ip = service_base + 7;
  node_port = 30005;
}

abbrev pub web_stored : ServiceStore
web_stored = record { svc_base = service_base; rows = ("web", web_row) ∷ [] }

-- an update that asks for another port of the node
abbrev web_update : Service
web_update = record web_service { port = pos 81; node_port = pos 31000 }

abbrev web_answer : Service
web_answer = record web_update { cluster_ip = ip_text (service_base + 7); node_port = pos 30005 }

updated : (add_service no_faults web_update web_stored).1 ≡ ok web_answer
unfolding add_service lookup
updated = refl

add_service_stable_example :
    Keeps web_row "web" (add_service no_faults web_update web_stored).0 web_answer
unfolding lookup
add_service_stable_example = add_service_stable no_faults web_update web_stored web_row refl updated
