-- ===== src/Apply/Output.antt =====
-- internal/apply/apply.go: the writes to the control plane, and what the commands print. A line is a
-- constructor for each of the formats of the code.
use smith.Apply.Delta.{delta}
use smith.Apply.{Bundle}
use smith.Manifest.{is_empty}
use smith.Prelude.Assoc
use smith.Prelude.Int.{ℤ}
use smith.Prelude.Names.{contains}
use smith.Prelude.Sort.{sort_strings}
use smith.Prelude.{String, List, [], ◌∷◌, ◌++◌, map, if◌then◌else◌}
use smith.Types.{Service, Workload, Ingress}

-- a write to the control plane
pub data Op : Type 0 where
  apply_workload : Workload → Op
  apply_service : Service → Op
  apply_ingress : Ingress → Op
  delete_workload : String → Op
  delete_service : String → Op
  delete_ingress : String → Op

pub data Line : Type 0 where
  did : Op → Line
  plan_header : Line
  plan_workload : String → String → ℤ → Line
  env_redacted : String → Line
  env_shown : String → String → Line
  plan_service : String → ℤ → ℤ → Line
  plan_ingress : String → String → Line
  prune_header : Line
  would_delete : Op → Line
  diff_header : String → Line
  diff_create : String → Line
  diff_delete : String → Line
  diff_in_sync : List String → Line

-- `printPlan`: the value of a key of the overlay is not printed
unfoldable pub env_lines : List (String × String) → List String → List String → List Line
env_lines env overlay_keys [] = []
env_lines env overlay_keys (k ∷ ks) =
    let rest = env_lines env overlay_keys ks in
    if contains overlay_keys k
    then env_redacted k ∷ rest
    else env_shown k (Assoc.lookup_or "" k env) ∷ rest

unfoldable pub workload_lines : List Bundle → List Line
unfolding env_lines
workload_lines [] = []
workload_lines (b ∷ bundles) =
    let w = b.res.workload in
    (plan_workload w.id w.image w.replicas
      ∷ env_lines w.env b.overlay_keys (sort_strings (Assoc.keys w.env)))
    ++ workload_lines bundles

unfoldable pub service_lines : List Bundle → List Line
service_lines [] = []
service_lines (b ∷ bundles) =
    map (λ s. plan_service s.name s.port s.node_port) b.res.services ++ service_lines bundles

unfoldable pub ingress_lines : List Bundle → List Line
ingress_lines [] = []
ingress_lines (b ∷ bundles) =
    map (λ i. plan_ingress i.host i.service) b.res.ingresses ++ ingress_lines bundles

unfoldable pub plan_lines : List Bundle → List Line
unfolding workload_lines service_lines ingress_lines
plan_lines bundles =
    (plan_header ∷ workload_lines bundles) ++ service_lines bundles ++ ingress_lines bundles

-- `printDiff`
unfoldable pub diff_lines : String → List String → List String → List Line
unfolding delta
diff_lines kind desired live =
    let (create, del, same) = delta desired live in
    (diff_header kind ∷ map diff_create create)
    ++ map diff_delete del
    ++ (if is_empty same then [] else diff_in_sync same ∷ [])
