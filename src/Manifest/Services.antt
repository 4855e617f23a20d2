-- ===== src/Manifest/Services.antt =====
-- What `Resolve` of internal/manifest/resolve.go guarantees of the services and the ingresses.
use smith.Manifest.{
  resolve_ingresses_from, chosen_service, service_name, sole_service, service_names, ServiceSpec,
  resolve_ingress, resolve_ingresses, resolve_services, resolve_service, App, resolve_services_from,
  IngressSpec,
}
use smith.Prelude.Int.{pos, ◌<ℤ◌, leb_ℤ, ℤ}
use smith.Prelude.Names.{contains, matches_name}
use smith.Prelude.Text.{◌==◌, eq_iff, eq_refl}
use smith.Prelude.{
  ℕ, ◌+◌, String, ◌≡◌, refl, ◌≢◌, ◌⊎◌, inl, inr, Bool, true, false, not, ◌&&◌, List, [], ◌∷◌, arith,
  All, Bool-cases, bind_passed, refuse_if_passed, Option-cases, ok, ok_injective, if◌then◌else◌,
}
use smith.Types.{Ingress, Service}

pub record GoodService (app : String) (s : Service) : Type 0 where
  pub named : matches_name s.name ≡ true
  pub workload : s.workload_id ≡ app
  pub port : pos 0 <ℤ s.port
  pub protocol : (s.protocol ≡ "tcp") ⊎ (s.protocol ≡ "udp")

-- No name stands twice, nor among those seen before.
abbrev pub FreshServices : List String → List Service → Type 0
FreshServices seen [] = Unit
FreshServices seen (s ∷ svcs) = (contains seen s.name ≡ false) × FreshServices (s.name ∷ seen) svcs

positive_port : (n : ℤ) → leb_ℤ n (pos 0) ≡ false → pos 0 <ℤ n
positive_port n h = ground arith

tcp_or_udp : (p : String) → not (p == "tcp") && not (p == "udp") ≡ false → (p ≡ "tcp") ⊎ (p ≡ "udp")
tcp_or_udp p h = elim (Bool-cases (p == "tcp")) [
  | inl e ↦ inl ((eq_iff p "tcp").0 e)
  | inr e ↦ inr ((eq_iff p "udp").0 (ground arith))
]

-- An accepted service is good, and its name is new.
resolve_service-ok :
    (app : String) (singular : Bool) (i : ℕ) (seen : List String) (spec : ServiceSpec) {s : Service}
    → resolve_service app singular i seen spec ≡ ok s
    → GoodService app s × (contains seen s.name ≡ false)
unfolding resolve_service
resolve_service-ok app singular i seen spec {s} h =
    let (name, named, h1) = bind_passed (service_name app singular i spec) _ h in
    let (matches, h2) = refuse_if_passed (not (matches_name name)) _ _ h1 in
    let (fresh, h3) = refuse_if_passed (contains seen name) _ _ h2 in
    let (port, h4) = refuse_if_passed (leb_ℤ spec.port (pos 0)) _ _ h3 in
    let (protocol, built) =
      refuse_if_passed
        (not ((if spec.protocol == "" then "tcp" else spec.protocol) == "tcp")
          && not ((if spec.protocol == "" then "tcp" else spec.protocol) == "udp"))
        _ _ h4 in
    rw (← ok_injective built) (
      record {
        named = ground arith;
        workload = refl;
        port = positive_port spec.port port;
        protocol = tcp_or_udp _ protocol;
      },
      fresh,
    )

resolve_services_from-ok :
    (app : String) (singular : Bool) (i : ℕ) (seen : List String) (specs : List ServiceSpec)
    {svcs : List Service}
    → resolve_services_from app singular i seen specs ≡ ok svcs
    → All (GoodService app) svcs × FreshServices seen svcs
unfolding resolve_services_from
resolve_services_from-ok app singular i seen [] h = rw (← ok_injective h) (tt, tt)
resolve_services_from-ok app singular i seen (spec ∷ specs) h =
    let (s, first, h1) = bind_passed (resolve_service app singular i seen spec) _ h in
    let (rest, others, built) =
      bind_passed (resolve_services_from app singular (i + 1) (s.name ∷ seen) specs) _ h1 in
    let (good, fresh) = resolve_service-ok app singular i seen spec first in
    let (all_good, all_fresh) =
      resolve_services_from-ok app singular (i + 1) (s.name ∷ seen) specs others in
    rw (← ok_injective built) ((good, all_good), (fresh, all_fresh))

pub resolve_services-ok :
    (a : App) {svcs : List Service}
    → resolve_services a ≡ ok svcs
    → All (GoodService a.name) svcs × FreshServices [] svcs
unfolding resolve_services
resolve_services-ok a h = elim (Option-cases a.service) [
  | inl many ↦
      resolve_services_from-ok a.name false 0 [] a.services (rw (many, resolve_services) at h)
  | inr (s, one) ↦
      resolve_services_from-ok a.name true 0 [] (s ∷ []) (rw (one, resolve_services) at h)
]

-- An ingress has a host, and a service that the app declares.
pub record GoodIngress (svcs : List Service) (ing : Ingress) : Type 0 where
  pub host : ing.host ≢ ""
  pub declared : contains (service_names svcs) ing.service ≡ true

sole_service-declared :
    (host : String) (svcs : List Service) {svc : String}
    → sole_service host svcs ≡ ok svc
    → contains (service_names svcs) svc ≡ true
unfolding sole_service contains
sole_service-declared host [] h = cc
sole_service-declared host (s ∷ []) h = ground (arith, eq_refl s.name)
sole_service-declared host (s ∷ t ∷ rest) h = cc

chosen_service-declared :
    (svcs : List Service) (spec : IngressSpec) {svc : String}
    → chosen_service svcs spec ≡ ok svc
    → contains (service_names svcs) svc ≡ true
unfolding chosen_service
chosen_service-declared svcs spec h = elim (Bool-cases (spec.service == "")) [
  | inl unnamed ↦ sole_service-declared spec.host svcs (rw unnamed at h)
  | inr named ↦ elim (Bool-cases (contains (service_names svcs) spec.service)) [
    | inl found ↦ ground (arith, named, found)
    | inr missing ↦ ground (arith, named, missing)
  ]
]

resolve_ingress-ok :
    (svcs : List Service) (i : ℕ) (spec : IngressSpec) {ing : Ingress}
    → resolve_ingress svcs i spec ≡ ok ing
    → GoodIngress svcs ing
unfolding resolve_ingress
resolve_ingress-ok svcs i spec h =
    let (host, h1) = refuse_if_passed (spec.host == "") _ _ h in
    let (svc, found, made) = bind_passed (chosen_service svcs spec) _ h1 in
    rw (← ok_injective made) (record {
      host = λ e. ground (arith, host, eq_iff spec.host "");
      declared = chosen_service-declared svcs spec found;
    })

resolve_ingresses_from-ok :
    (svcs : List Service) (i : ℕ) (specs : List IngressSpec) {ings : List Ingress}
    → resolve_ingresses_from svcs i specs ≡ ok ings
    → All (GoodIngress svcs) ings
unfolding resolve_ingresses_from
resolve_ingresses_from-ok svcs i [] h = rw (← ok_injective h) tt
resolve_ingresses_from-ok svcs i (spec ∷ specs) h =
    let (ing, first, h1) = bind_passed (resolve_ingress svcs i spec) _ h in
    let (rest, others, built) = bind_passed (resolve_ingresses_from svcs (i + 1) specs) _ h1 in
    rw (← ok_injective built)
      (resolve_ingress-ok svcs i spec first, resolve_ingresses_from-ok svcs (i + 1) specs others)

pub resolve_ingresses-ok :
    (a : App) (svcs : List Service) {ings : List Ingress}
    → resolve_ingresses a svcs ≡ ok ings
    → All (GoodIngress svcs) ings
unfolding resolve_ingresses
resolve_ingresses-ok a svcs h = elim (Option-cases a.ingress) [
  | inl many ↦ resolve_ingresses_from-ok svcs 0 a.ingresses (rw (many, resolve_ingresses) at h)
  | inr (i, one) ↦ resolve_ingresses_from-ok svcs 0 (i ∷ []) (rw (one, resolve_ingresses) at h)
]
