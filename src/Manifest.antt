-- ===== src/Manifest.antt =====
-- internal/manifest/manifest.go and internal/manifest/resolve.go: the app bundle, and `Resolve`, which
-- validates a bundle and lowers it. `Parse` calls a YAML library and is not modelled.
pub mod Workloads
pub mod Services
pub mod Bundles
use smith.Prelude.Assoc.{is_some}
use smith.Prelude.Int.{ltb_ℤ, pos, leb_ℤ, ℤ, eqb_ℤ}
use smith.Prelude.Names.{contains, is_absolute, matches_name}
use smith.Prelude.Text.{◌==◌}
use smith.Prelude.{
  ℕ, ◌+◌, String, Bool, true, false, not, ◌&&◌, Option, none, some, List, [], ◌∷◌, map, length,
  ◌>>◌, err, refuse_if, ok, ◌>>=◌, Result, if◌then◌else◌,
}
use smith.Types.{Workload, Ingress, HealthCheck, PortMapping, Service, Volume, Resources}

pub record WorkloadSpec : Type 0 where
  pub image : String
  pub args : List String
  pub replicas : ℤ
  pub max_unavailable : ℤ
  pub env : List (String × String)
  pub resources : Option Resources
  pub volumes : List Volume
  pub ports : List PortMapping
  pub health_check : Option HealthCheck

pub record ServiceSpec : Type 0 where
  pub name : String
  pub port : ℤ
  pub target_port : ℤ
  pub protocol : String
  pub node_port : ℤ

pub record IngressSpec : Type 0 where
  pub host : String
  pub service : String

pub record App : Type 0 where
  pub name : String
  pub workload : WorkloadSpec
  pub service : Option ServiceSpec
  pub services : List ServiceSpec
  pub ingress : Option IngressSpec
  pub ingresses : List IngressSpec

pub record Resolved : Type 0 where
  pub workload : Workload
  pub services : List Service
  pub ingresses : List Ingress

-- One constructor for each message of resolve.go, with what it quotes.
pub data ResolveError : Type 0 where
  name_required : ResolveError
  bad_name : String → ResolveError
  service_and_services : ResolveError
  ingress_and_ingresses : ResolveError
  image_required : ResolveError
  negative_replicas : ℤ → ResolveError
  negative_max_unavailable : ℤ → ResolveError
  volumes_need_one_replica : ResolveError
  bad_volume_name : String → ResolveError
  duplicate_volume : String → ResolveError
  relative_volume_path : String → String → ResolveError
  service_name_required : ℕ → ResolveError
  bad_service_name : String → ResolveError
  duplicate_service : String → ResolveError
  port_required : String → ResolveError
  bad_protocol : String → String → ResolveError
  host_required : ℕ → ResolveError
  service_required : String → ℕ → ResolveError
  undeclared_service : String → String → ResolveError

abbrev pub is_empty {ℓ} : {A : Type ℓ} → List A → Bool
is_empty [] = true
is_empty (x ∷ xs) = false

-- the loop of `validateVolumes`; `seen` holds the names so far
unfoldable pub validate_volumes_from : List String → List Volume → Result ResolveError (Unit {0})
unfolding contains matches_name
validate_volumes_from seen [] = ok tt
validate_volumes_from seen (v ∷ vols) =
    refuse_if (not (matches_name v.name)) (bad_volume_name v.name)
    >> (refuse_if (contains seen v.name) (duplicate_volume v.name)
        >> (refuse_if (not (is_absolute v.path)) (relative_volume_path v.name v.path)
            >> validate_volumes_from (v.name ∷ seen) vols))

unfoldable pub validate_volumes : List Volume → Result ResolveError (Unit {0})
unfolding validate_volumes_from
validate_volumes vols = validate_volumes_from [] vols

-- 0 stands for 1
abbrev pub or_one : ℤ → ℤ
or_one n = if eqb_ℤ n (pos 0) then pos 1 else n

unfoldable pub resolve_workload : App → Result ResolveError Workload
unfolding validate_volumes
resolve_workload a = do
  let w = a.workload
  refuse_if (w.image == "") image_required
  refuse_if (ltb_ℤ w.replicas (pos 0)) (negative_replicas w.replicas)
  refuse_if (ltb_ℤ w.max_unavailable (pos 0)) (negative_max_unavailable w.max_unavailable)
  refuse_if (not (is_empty w.volumes) && ltb_ℤ (pos 1) (or_one w.replicas)) volumes_need_one_replica
  validate_volumes w.volumes
  ok (record {
    id = a.name;
    image = w.image;
    args = w.args;
    health_check = w.health_check;
    ports = w.ports;
    env = w.env;
    resources = w.resources;
    replicas = or_one w.replicas;
    max_unavailable = or_one w.max_unavailable;
    volumes = w.volumes;
  })

-- the name of a service: in singular mode an empty one is the app's
unfoldable pub service_name : String → Bool → ℕ → ServiceSpec → Result ResolveError String
service_name app singular i s =
    if s.name == "" then (if singular then ok app else err (service_name_required i)) else ok s.name

-- one round of `resolveServices`; `seen` holds the names so far
unfoldable pub resolve_service :
    String → Bool → ℕ → List String → ServiceSpec → Result ResolveError Service
unfolding service_name contains matches_name
resolve_service app singular i seen s = do
  name ← service_name app singular i s
  refuse_if (not (matches_name name)) (bad_service_name name)
  refuse_if (contains seen name) (duplicate_service name)
  refuse_if (leb_ℤ s.port (pos 0)) (port_required name)
  let target = if eqb_ℤ s.target_port (pos 0) then s.port else s.target_port
  let protocol = if s.protocol == "" then "tcp" else s.protocol
  refuse_if (not (protocol == "tcp") && not (protocol == "udp")) (bad_protocol name protocol)
  ok (record {
    name = name;
    workload_id = app;
    port = s.port;
    target_port = target;
    protocol = protocol;
    cluster_ip = "";
    node_port = s.node_port;
  })

unfoldable pub resolve_services_from :
    String → Bool → ℕ → List String → List ServiceSpec → Result ResolveError (List Service)
unfolding resolve_service
resolve_services_from app singular i seen [] = ok []
resolve_services_from app singular i seen (s ∷ specs) =
    resolve_service app singular i seen s >>= λ svc.
    resolve_services_from app singular (i + 1) (svc.name ∷ seen) specs >>= λ rest. ok (svc ∷ rest)

unfoldable pub resolve_services : App → Result ResolveError (List Service)
unfolding resolve_services_from
resolve_services a = elim a.service [
  | none ↦ resolve_services_from a.name false 0 [] a.services
  | some s ↦ resolve_services_from a.name true 0 [] (s ∷ [])
]

abbrev pub service_names : List Service → List String
service_names = map (λ s. s.name)

-- the only service's name, if there is exactly one
unfoldable pub sole_service : String → List Service → Result ResolveError String
sole_service host [] = err (service_required host 0)
sole_service host (s ∷ []) = ok s.name
sole_service host (s ∷ t ∷ rest) = err (service_required host (length (s ∷ t ∷ rest)))

-- the service of an ingress: the one that it names, or the only one
unfoldable pub chosen_service : List Service → IngressSpec → Result ResolveError String
unfolding sole_service contains
chosen_service svcs spec =
    if spec.service == ""
    then sole_service spec.host svcs
    else if contains (service_names svcs) spec.service
    then ok spec.service
    else err (undeclared_service spec.host spec.service)

unfoldable pub resolve_ingress : List Service → ℕ → IngressSpec → Result ResolveError Ingress
unfolding chosen_service
resolve_ingress svcs i spec = do
  refuse_if (spec.host == "") (host_required i)
  svc ← chosen_service svcs spec
  ok (record { host = spec.host; service = svc })

unfoldable pub resolve_ingresses_from :
    List Service → ℕ → List IngressSpec → Result ResolveError (List Ingress)
unfolding resolve_ingress
resolve_ingresses_from svcs i [] = ok []
resolve_ingresses_from svcs i (spec ∷ specs) = resolve_ingress svcs i spec >>= λ ing.
    resolve_ingresses_from svcs (i + 1) specs >>= λ rest. ok (ing ∷ rest)

unfoldable pub resolve_ingresses : App → List Service → Result ResolveError (List Ingress)
unfolding resolve_ingresses_from
resolve_ingresses a svcs = elim a.ingress [
  | none ↦ resolve_ingresses_from svcs 0 a.ingresses
  | some i ↦ resolve_ingresses_from svcs 0 (i ∷ [])
]

unfoldable pub resolve : App → Result ResolveError Resolved
unfolding resolve_workload resolve_services resolve_ingresses matches_name
resolve a = do
  refuse_if (a.name == "") name_required
  refuse_if (not (matches_name a.name)) (bad_name a.name)
  refuse_if (is_some a.service && not (is_empty a.services)) service_and_services
  refuse_if (is_some a.ingress && not (is_empty a.ingresses)) ingress_and_ingresses
  wl ← resolve_workload a
  svcs ← resolve_services a
  ings ← resolve_ingresses a svcs
  ok (record { workload = wl; services = svcs; ingresses = ings })
