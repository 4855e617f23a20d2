-- ===== src/Stores/Services.antt =====
-- internal/reconciler/services_sqlite.go: the services, each with a ClusterIP and a NodePort. A row
-- keeps the ClusterIP as the 32-bit number that `net.ParseIP` reads from its text and `net.IP.String`
-- prints to it.
pub mod Allocation
pub mod Addresses
pub mod Stability
use smith.Pool.{lowest_free}
use smith.Prelude.Assoc
use smith.Prelude.Assoc.{lookup}
use smith.Prelude.Decimal.{decimal}
use smith.Prelude.Int.{ℤ, leb_ℤ, pos}
use smith.Prelude.Text.{append, ◌==◌}
use smith.Prelude.{
  ℕ, ◌+◌, ◌-◌, ◌*◌, ◌/◌, ◌%◌, ◌^◌, String, Bool, false, ◌||◌, Option, none, some, List, [], ◌∷◌,
  map, ok, eqb, Result, refuse_if, err, if◌then◌else◌, ◌>>◌,
}
use smith.Stores.{Faults}
use smith.Types.{Service}

-- ServiceCIDR = "10.23.0.0/16"; nodePortMin, nodePortMax
abbrev pub service_base : ℕ
service_base = 10 * 16777216 + 23 * 65536

abbrev pub node_port_min : ℕ
node_port_min = 30000

abbrev pub node_port_max : ℕ
node_port_max = 32767

-- `net.IP.String` of a 32-bit address
unfoldable pub ip_text : ℕ → String
unfolding decimal
ip_text n = append (decimal (n / 16777216)) (
    append "." (
      append (decimal (n / 65536 % 256))
        (append "." (append (decimal (n / 256 % 256)) (append "." (decimal (n % 256)))))))

pub record ServiceRow : Type 0 where
  pub workload_id : String
  pub port : ℤ
  pub target_port : ℤ
  pub protocol : String
  pub cluster_ip : ℕ
  pub node_port : ℕ

-- the table, by service name, and `svcBase`
pub record ServiceStore : Type 0 where
  pub svc_base : ℕ
  pub rows : List (String × ServiceRow)

pub data ServiceError : Type 0 where
  empty_service_name : ServiceError
  empty_workload_id : String → ServiceError
  ports_not_positive : String → ServiceError
  service_lookup_failed : String → ServiceError
  allocations_failed : ServiceError
  cluster_ip_exhausted : ServiceError
  node_port_exhausted : ServiceError
  upsert_failed : String → ServiceError
  list_services_failed : ServiceError
  remove_failed : String → ServiceError

unfoldable pub uses_ip : List (String × ServiceRow) → ℕ → Bool
uses_ip [] n = false
uses_ip ((name, row) ∷ rows) n = eqb row.cluster_ip n || uses_ip rows n

unfoldable pub uses_port : List (String × ServiceRow) → ℕ → Bool
uses_port [] n = false
uses_port ((name, row) ∷ rows) n = eqb row.node_port n || uses_port rows n

-- `allocate` of a service: the offset of the lowest free ClusterIP, then the lowest free NodePort
unfoldable pub allocate_endpoint : Faults → ServiceStore → Result ServiceError (ℕ × ℕ)
unfolding lowest_free uses_ip uses_port
allocate_endpoint faults s =
    if faults.scan
    then err allocations_failed
    else elim (lowest_free (λ i. uses_ip s.rows ((s.svc_base + i) % 2 ^ 32)) 65534 1) [
      | none ↦ err cluster_ip_exhausted
      | some i ↦
          elim (lowest_free (uses_port s.rows) (node_port_max + 1 - node_port_min) node_port_min) [
            | none ↦ err node_port_exhausted
            | some p ↦ ok ((s.svc_base + i) % 2 ^ 32, p)
          ]
    ]

-- the address and the port of a name: those of its row, or fresh ones
unfoldable pub allocation : Faults → String → ServiceStore → Result ServiceError (ℕ × ℕ)
unfolding allocate_endpoint
allocation faults name s =
    if faults.lookup then err (service_lookup_failed name) else elim (Assoc.lookup name s.rows) [
      | none ↦ allocate_endpoint faults s
      | some row ↦ ok (row.cluster_ip, row.node_port)
    ]

abbrev pub default_protocol : String → String
default_protocol p = if p == "" then "tcp" else p

-- the upsert: an existing row keeps its address and its port
unfoldable pub upsert :
    String → ServiceRow → List (String × ServiceRow) → List (String × ServiceRow)
upsert name new rows = elim (Assoc.lookup name rows) [
  | none ↦ Assoc.insert name new rows
  | some old ↦
      Assoc.insert name (record new { cluster_ip = old.cluster_ip; node_port = old.node_port }) rows
]

-- the checks of `Add`, in their order
unfoldable pub check : Service → Result ServiceError (Unit {0})
check svc =
    refuse_if (svc.name == "") empty_service_name
    >> (refuse_if (svc.workload_id == "") (empty_workload_id svc.name)
        >> refuse_if (leb_ℤ svc.port (pos 0) || leb_ℤ svc.target_port (pos 0))
            (ports_not_positive svc.name))

-- the write of `Add`, with the address and the port of the service
unfoldable pub store_service :
    Faults → Service → ServiceStore → ℕ × ℕ → ServiceStore × Result ServiceError Service
unfolding upsert ip_text
store_service faults svc s alloc = if faults.write then (s, err (upsert_failed svc.name)) else (
  record s {
    rows =
        upsert svc.name
          (record {
            workload_id = svc.workload_id;
            port = svc.port;
            target_port = svc.target_port;
            protocol = default_protocol svc.protocol;
            cluster_ip = alloc.0;
            node_port = alloc.1;
          })
          s.rows;
  },
  ok (record svc {
    protocol = default_protocol svc.protocol;
    cluster_ip = ip_text alloc.0;
    node_port = pos alloc.1;
  }),
)

unfoldable pub add_service :
    Faults → Service → ServiceStore → ServiceStore × Result ServiceError Service
unfolding check allocation store_service
add_service faults svc s = elim (check svc >> allocation faults svc.name s) [
  | err e ↦ (s, err e)
  | ok alloc ↦ store_service faults svc s alloc
]

unfoldable pub service_of : String → ServiceRow → Service
unfolding ip_text
service_of name row = record {
  name = name;
  workload_id = row.workload_id;
  port = row.port;
  target_port = row.target_port;
  protocol = row.protocol;
  cluster_ip = ip_text row.cluster_ip;
  node_port = pos row.node_port;
}

-- `List`
unfoldable pub list_services : Faults → ServiceStore → Result ServiceError (List Service)
unfolding service_of
list_services faults s =
    if faults.scan then err list_services_failed else ok (map (λ e. service_of e.0 e.1) s.rows)

-- `Remove`
unfoldable pub remove_service : Faults → String → ServiceStore → ServiceStore × Option ServiceError
remove_service faults name s =
    if faults.write
    then (s, some (remove_failed name))
    else (record s { rows = Assoc.delete name s.rows }, none)
