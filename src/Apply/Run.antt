-- ===== src/Apply/Run.antt =====
-- internal/apply/apply.go: `Apply`, `Diff` and the pruning, against the
-- control plane. The control plane is a parameter: what it answers depends on the writes so far.
pub mod Order
pub mod Preview
use smith.Apply.Delta.{delta}
use smith.Apply.Output.{
  did, would_delete, Line, apply_workload, delete_service, delete_ingress, prune_header, Op,
  apply_ingress, apply_service, delete_workload, diff_lines, plan_lines,
}
use smith.Apply.{Files, Bundle, merge_overlays, LoadError, load_bundles}
use smith.Prelude.{
  String, Bool, Option, none, some, List, [], ◌∷◌, ◌++◌, map, if◌then◌else◌, Result, ok, err, ◌>>=◌,
}
use smith.Types.{Ingress, Workload, Service}

pub record Cluster : Type 0 where
  pub accepts : List Op → Op → Bool
  pub workloads : List Op → Option (List Workload)
  pub services : List Op → Option (List Service)
  pub ingresses : List Op → Option (List Ingress)

pub data ApplyError : Type 0 where
  load_failed : LoadError → ApplyError
  op_failed : Op → ApplyError
  live_workloads_failed : ApplyError
  live_services_failed : ApplyError
  live_ingresses_failed : ApplyError

-- the writes and the output of a run, the oldest first
pub record Run : Type 0 where
  pub ops : List Op
  pub out : List Line

abbrev pub started : Run
started = record { ops = []; out = [] }

abbrev pub print : List Line → Run → Run
print lines r = record r { out = r.out ++ lines }

abbrev pub Ended : Type 0
Ended = Run × Option ApplyError

-- `if err != nil { return err }` between two parts of a function
unfoldable pub and_then : Ended → (Run → Ended) → Ended
and_then (r, some e) rest = (r, some e)
and_then (r, none) rest = rest r

-- the workloads, the services and the ingresses of the bundles, as writes
abbrev pub workload_ops : List Bundle → List Op
workload_ops = map (λ b. apply_workload b.res.workload)

unfoldable pub service_ops : List Bundle → List Op
service_ops [] = []
service_ops (b ∷ bundles) = map apply_service b.res.services ++ service_ops bundles

unfoldable pub ingress_ops : List Bundle → List Op
ingress_ops [] = []
ingress_ops (b ∷ bundles) = map apply_ingress b.res.ingresses ++ ingress_ops bundles

unfoldable pub desired_services : List Bundle → List String
desired_services [] = []
desired_services (b ∷ bundles) = map (λ s. s.name) b.res.services ++ desired_services bundles

unfoldable pub desired_ingresses : List Bundle → List String
desired_ingresses [] = []
desired_ingresses (b ∷ bundles) = map (λ i. i.host) b.res.ingresses ++ desired_ingresses bundles

unfoldable pub desired_keys : List Bundle → List String × List String × List String
unfolding desired_services desired_ingresses
desired_keys bundles =
    (map (λ b. b.res.workload.id) bundles, desired_services bundles, desired_ingresses bundles)

module _ (c : Cluster) where
  unfoldable pub perform : Op → Run → Ended
  perform op r =
      let tried = record r { ops = r.ops ++ (op ∷ []) } in
      if c.accepts r.ops op then (print (did op ∷ []) tried, none) else (tried, some (op_failed op))

  -- a loop of writes, up to the first that fails
  unfoldable pub perform_all : List Op → Run → Ended
  unfolding perform and_then
  perform_all [] r = (r, none)
  perform_all (op ∷ ops) r = and_then (perform op r) (perform_all ops)

  unfoldable pub live_keys : Run → Result ApplyError (List String × List String × List String)
  live_keys r = elim (c.workloads r.ops) [
    | none ↦ err live_workloads_failed
    | some ws ↦ elim (c.services r.ops) [
      | none ↦ err live_services_failed
      | some ss ↦ elim (c.ingresses r.ops) [
        | none ↦ err live_ingresses_failed
        | some is ↦ ok (map (λ w. w.id) ws, map (λ s. s.name) ss, map (λ i. i.host) is)
      ]
    ]
  ]

  -- `prunePlan`: the ingresses, the services and the workloads to delete
  unfoldable pub prune_plan :
      List Bundle → Run → Result ApplyError (List String × List String × List String)
  unfolding desired_keys live_keys delta
  prune_plan bundles r = live_keys r >>= λ live.
      let (dw, ds, di) = desired_keys bundles in
      let (lw, ls, li) = live in ok ((delta di li).1, (delta ds ls).1, (delta dw lw).1)

  unfoldable pub prune_drift : List Bundle → Run → Ended
  unfolding prune_plan perform_all and_then
  prune_drift bundles r = elim (prune_plan bundles r) [
    | err e ↦ (r, some e)
    | ok (ings, svcs, wls) ↦ and_then (perform_all (map delete_ingress ings) r) (λ r'.
        and_then (perform_all (map delete_service svcs) r')
          (λ r''. perform_all (map delete_workload wls) r''))
  ]

  unfoldable pub print_prune_plan : List Bundle → Run → Ended
  unfolding prune_plan
  print_prune_plan bundles r = elim (prune_plan bundles r) [
    | err e ↦ (r, some e)
    | ok (ings, svcs, wls) ↦
        let headed = print (prune_header ∷ []) r in
        let with_ings = print (map (λ h. would_delete (delete_ingress h)) ings) headed in
        let with_svcs = print (map (λ n. would_delete (delete_service n)) svcs) with_ings in
        (print (map (λ id. would_delete (delete_workload id)) wls) with_svcs, none)
  ]

  -- `Apply` once the bundles are loaded and merged
  unfoldable pub apply_bundles : Bool → Bool → List Bundle → Ended
  unfolding plan_lines print_prune_plan perform_all service_ops ingress_ops prune_drift and_then
  apply_bundles dry_run prune bundles =
      if dry_run
      then (let planned = print (plan_lines bundles) started in
          if prune then print_prune_plan bundles planned else (planned, none))
      else and_then (perform_all (workload_ops bundles) started) (λ r.
        and_then (perform_all (service_ops bundles) r) (λ r'.
          and_then (perform_all (ingress_ops bundles) r')
            (λ r''. if prune then prune_drift bundles r'' else (r'', none))))

  unfoldable pub apply : Files → String → Bool → Bool → Ended
  unfolding load_bundles merge_overlays apply_bundles
  apply fs dir dry_run prune = elim (load_bundles fs dir >>= merge_overlays fs) [
    | err e ↦ (started, some (load_failed e))
    | ok bundles ↦ apply_bundles dry_run prune bundles
  ]

  unfoldable pub diff : Files → String → Ended
  unfolding load_bundles desired_keys live_keys diff_lines
  diff fs dir = elim (load_bundles fs dir) [
    | err e ↦ (started, some (load_failed e))
    | ok bundles ↦ elim (live_keys started) [
      | err e ↦ (started, some e)
      | ok (lw, ls, li) ↦
          let (dw, ds, di) = desired_keys bundles in
          (
            print
                (diff_lines "workloads" dw lw
                  ++ diff_lines "services" ds ls
                  ++ diff_lines "ingresses" di li)
                started,
            none,
          )
    ]
  ]
