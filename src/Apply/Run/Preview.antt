-- ===== src/Apply/Run/Preview.antt =====
-- What the dry runs of internal/apply/apply.go print and do.
use mathlib.Core.List.{append_assoc}
use smith.Apply.Output.{
  env_shown, Line, would_delete, plan_header, ingress_lines, env_redacted, workload_lines,
  service_lines, env_lines, delete_ingress, delete_service, prune_header, plan_workload, plan_lines,
  delete_workload,
}
use smith.Apply.Run.Order.{HasDone, prune_drift-HasDone}
use smith.Apply.Run.{
  Cluster, started, print_prune_plan, apply_bundles, prune_plan, prune_drift, Run, print, apply,
}
use smith.Apply.{merge_overlays, Files, Bundle, load_bundles, LoadError}
use smith.Prelude.Assoc
use smith.Prelude.Names.{contains}
use smith.Prelude.Sort.{sort_strings}
use smith.Prelude.{
  String, ◌≡◌, refl, ap, ◌∙◌, ◌⊎◌, inl, inr, Bool, true, false, List, [], ◌∷◌, ◌++◌, map, Elem,
  Elem-map_inv, Elem-append, All, Bool-cases, ok, err, true-false, Result-cases, ◌>>=◌,
}

module _ (c : Cluster) where
  ops-print_prune_plan :
      (bundles : List Bundle) (r : Run) → (print_prune_plan c bundles r).0.ops ≡ r.ops
  unfolding print_prune_plan
  ops-print_prune_plan bundles r = elim (Result-cases (prune_plan c bundles r)) [
    | inl (e, failed) ↦ rw (failed, print_prune_plan) refl
    | inr (dels, planned) ↦ rw (planned, print_prune_plan) refl
  ]

  ops-dry_run :
      (prune : Bool) (bundles : List Bundle) → (apply_bundles c true prune bundles).0.ops ≡ []
  unfolding apply_bundles
  ops-dry_run true bundles = ops-print_prune_plan bundles (print (plan_lines bundles) started)
  ops-dry_run false bundles = refl

  -- A run that is dry, or whose directory does not load or whose overlays do not merge, writes nothing.
  pub apply_writes_nothing :
      (fs : Files) (dir : String) (dry_run prune : Bool)
      → (dry_run ≡ true) ⊎ ((e : LoadError) × ((load_bundles fs dir >>= merge_overlays fs) ≡ err e))
      → (apply c fs dir dry_run prune).0.ops ≡ []
  unfolding apply apply_bundles
  apply_writes_nothing fs dir dry_run prune (inr (e, failed)) = rw (failed, apply) refl
  apply_writes_nothing fs dir dry_run prune (inl dry) =
      elim (Result-cases (load_bundles fs dir >>= merge_overlays fs)) [
        | inl (e, failed) ↦ rw (failed, apply) refl
        | inr (bundles, loaded) ↦ rw (loaded, apply) (rw dry (ops-dry_run prune bundles))
      ]

  -- The lines that a dry prune prints are, in their order, the deletions that a prune of the same state
  -- makes, up to the first that is refused: ingresses, then services, then workloads.
  pub preview_same :
      (bundles : List Bundle) (r : Run) {ings svcs wls : List String}
      → prune_plan c bundles r ≡ ok (ings, svcs, wls)
      → ((print_prune_plan c bundles r).0.out
          ≡ r.out
            ++ (prune_header ∷ map (λ h. would_delete (delete_ingress h)) ings
                ++ (map (λ n. would_delete (delete_service n)) svcs
                    ++ map (λ id. would_delete (delete_workload id)) wls)))
        × ((print_prune_plan c bundles r).0.ops ≡ r.ops)
        × HasDone c
            (map delete_ingress ings ++ (map delete_service svcs ++ map delete_workload wls))
            r
            (prune_drift c bundles r)
  unfolding print_prune_plan
  preview_same bundles r {ings} {svcs} {wls} e = (
    rw (e, print_prune_plan)
        (append_assoc
            ((r.out ++ (prune_header ∷ [])) ++ map (λ h. would_delete (delete_ingress h)) ings)
            (map (λ n. would_delete (delete_service n)) svcs)
            (map (λ id. would_delete (delete_workload id)) wls)
          ∙ append_assoc (r.out ++ (prune_header ∷ []))
              (map (λ h. would_delete (delete_ingress h)) ings) _
          ∙ append_assoc r.out (prune_header ∷ []) _),
    ops-print_prune_plan bundles r,
    prune_drift-HasDone c bundles r e,
  )

abbrev is_shown : Line → Bool
is_shown l = elim l [ env_shown k v ↦ true | _ ↦ false ]

abbrev key_of : Line → String
key_of l = elim l [ env_shown k v ↦ k | _ ↦ "" ]

not_shown : {k v : String} {l : Line} → env_shown k v ≡ l → is_shown l ≡ false → ⊥
not_shown e f = absurd (true-false (ap is_shown e ∙ f))

env_lines-shown :
    (env : List (String × String)) (keys ks : List String) (k v : String)
    → Elem (env_shown k v) (env_lines env keys ks)
    → contains keys k ≡ false
unfolding env_lines
env_lines-shown env keys [] k v m = absurd m
env_lines-shown env keys (j ∷ ks) k v m = elim (Bool-cases (contains keys j)) [
  | inl secret ↦ elim (rw secret at m) [
    | inl here ↦ absurd (not_shown here refl)
    | inr there ↦ env_lines-shown env keys ks k v there
  ]
  | inr open_key ↦ elim (rw open_key at m) [
    | inl here ↦ rw (ap key_of here) open_key
    | inr there ↦ env_lines-shown env keys ks k v there
  ]
]

-- no line of a mapped list shows a variable
map_shown :
    {A : Type 0} (f : A → Line) (xs : List A) (k v : String)
    → ((a : A) → is_shown (f a) ≡ false)
    → Elem (env_shown k v) (map f xs)
    → ⊥
map_shown f xs k v plain m =
    let (a, member, e) = Elem-map_inv f (env_shown k v) xs m in not_shown e (plain a)

abbrev is_env : Line → Bool
is_env l = elim l [ env_shown k v ↦ true | env_redacted k ↦ true | _ ↦ false ]

env_lines-is_env :
    (env : List (String × String)) (keys ks : List String)
    → All (λ l. is_env l ≡ true) (env_lines env keys ks)
unfolding env_lines
env_lines-is_env env keys [] = tt
env_lines-is_env env keys (k ∷ ks) = elim (Bool-cases (contains keys k)) [
  | inl secret ↦ rw secret (refl, env_lines-is_env env keys ks)
  | inr free ↦ rw free (refl, env_lines-is_env env keys ks)
]

-- The lines of a plan, bundle by bundle: the line of the workload, then those of its variables, of which
-- none that is shown is a key of the bundle's own overlay; and at the end no line of a variable.
abbrev pub Blocks : List Bundle → List Line → Type 0
Blocks [] ls = (k v : String) → Elem (env_shown k v) ls → ⊥
Blocks (b ∷ bundles) ls =
    (own rest : List Line) × (ls
      ≡ plan_workload b.res.workload.id b.res.workload.image b.res.workload.replicas ∷ own ++ rest)
    × All (λ l. is_env l ≡ true) own
    × ((k v : String) → Elem (env_shown k v) own → contains b.overlay_keys k ≡ false)
    × Blocks bundles rest

workload_lines-Blocks :
    (bundles : List Bundle) (more : List Line)
    → ((k v : String) → Elem (env_shown k v) more → ⊥)
    → Blocks bundles (workload_lines bundles ++ more)
unfolding workload_lines
workload_lines-Blocks [] more plain = plain
workload_lines-Blocks (b ∷ bundles) more plain =
    let w = b.res.workload in
    let own = env_lines w.env b.overlay_keys (sort_strings (Assoc.keys w.env)) in
    (
      own,
      workload_lines bundles ++ more,
      ap (λ l. plan_workload w.id w.image w.replicas ∷ l)
          (append_assoc own (workload_lines bundles) more),
      env_lines-is_env w.env b.overlay_keys (sort_strings (Assoc.keys w.env)),
      env_lines-shown w.env b.overlay_keys (sort_strings (Assoc.keys w.env)),
      workload_lines-Blocks bundles more plain,
    )

service_lines-plain :
    (bundles : List Bundle) (k v : String) → Elem (env_shown k v) (service_lines bundles) → ⊥
unfolding service_lines
service_lines-plain [] k v m = m
service_lines-plain (b ∷ bundles) k v m =
    elim (Elem-append (env_shown k v) (map _ b.res.services) (service_lines bundles) m) [
      | inl own ↦ map_shown _ b.res.services k v (λ s. refl) own
      | inr rest ↦ service_lines-plain bundles k v rest
    ]

ingress_lines-plain :
    (bundles : List Bundle) (k v : String) → Elem (env_shown k v) (ingress_lines bundles) → ⊥
unfolding ingress_lines
ingress_lines-plain [] k v m = m
ingress_lines-plain (b ∷ bundles) k v m =
    elim (Elem-append (env_shown k v) (map _ b.res.ingresses) (ingress_lines bundles) m) [
      | inl own ↦ map_shown _ b.res.ingresses k v (λ s. refl) own
      | inr rest ↦ ingress_lines-plain bundles k v rest
    ]

-- The printed plan is its header and then, for each bundle in order, the line of its workload and the lines
-- of its variables, which show no value of a key of that bundle's own overlay; no other line shows a value.
pub plan_lines-Blocks :
    (bundles : List Bundle)
    → (ls : List Line) × (plan_lines bundles ≡ plan_header ∷ ls) × Blocks bundles ls
unfolding plan_lines
plan_lines-Blocks bundles =
    let more = service_lines bundles ++ ingress_lines bundles in
    (
      workload_lines bundles ++ more,
      append_assoc (plan_header ∷ workload_lines bundles) (service_lines bundles)
          (ingress_lines bundles),
      workload_lines-Blocks bundles more (λ k v m.
          elim (Elem-append (env_shown k v) (service_lines bundles) (ingress_lines bundles) m) [
            | inl svcs ↦ service_lines-plain bundles k v svcs
            | inr ings ↦ ingress_lines-plain bundles k v ings
          ]),
    )
