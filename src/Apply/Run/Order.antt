-- ===== src/Apply/Run/Order.antt =====
-- The order in which `Apply` (internal/apply/apply.go) writes.
use mathlib.Core.List.{append_assoc, append-nil}
use mathlib.Core.Path.{subst}
use smith.Apply.Output.{delete_service, delete_ingress, Op, delete_workload}
use smith.Apply.Run.{
  service_ops, started, op_failed, perform, ingress_ops, prune_drift, Cluster, Run, prune_plan,
  apply_bundles, and_then, Ended, perform_all, workload_ops,
}
use smith.Apply.{Bundle}
use smith.Prelude.{
  String, ◌≡◌, refl, sym, ap, ◌∙◌, inl, inr, true, false, none, some, List, [], ◌∷◌, ◌++◌, map, ok,
  Bool-cases,
}

module _ (c : Cluster) where
  -- each of the writes is accepted, after those before it
  abbrev pub Accepted : List Op → List Op → Type 0
  Accepted done [] = Unit
  Accepted done (op ∷ ops) = (c.accepts done op ≡ true) × Accepted (done ++ (op ∷ [])) ops

  -- All the planned writes are accepted; or those before one are, and that one is refused, is the last
  -- and is the error.
  pub data HasDone (planned : List Op) (before : Run) (after : Ended) : Type 0 where
    finished :
        after.1 ≡ none
        → after.0.ops ≡ before.ops ++ planned
        → Accepted before.ops planned
        → HasDone planned before after
    stopped :
        (made : List Op) (op : Op) (left : List Op)
        → planned ≡ made ++ (op ∷ left)
        → Accepted before.ops made
        → c.accepts (before.ops ++ made) op ≡ false
        → after.0.ops ≡ before.ops ++ (made ++ (op ∷ []))
        → after.1 ≡ some (op_failed op)
        → HasDone planned before after

  Accepted-append :
      (done xs ys : List Op)
      → Accepted done xs
      → Accepted (done ++ xs) ys
      → Accepted done (xs ++ ys)
  Accepted-append done [] ys h k = subst (λ l. Accepted l ys) (append-nil done) k
  Accepted-append done (x ∷ xs) ys h k = (
    h.0,
    Accepted-append (done ++ (x ∷ [])) xs ys h.1
        (subst (λ l. Accepted l ys) (sym (append_assoc done (x ∷ []) xs)) k),
  )

  HasDone-and_then :
      {first_part second_part : List Op} {before : Run} (a : Ended) (k : Run → Ended)
      → HasDone first_part before a
      → ((r : Run) → HasDone second_part r (k r))
      → HasDone (first_part ++ second_part) before (and_then a k)
  unfolding and_then
  HasDone-and_then {second_part = second} {before} (r, some e) k (finished fine ops ok_all) g = cc
  HasDone-and_then {second_part = second} (r, some e) k
        (stopped made op left whole good bad ops failed) g =
      stopped made op (left ++ second)
        (ap (λ l. l ++ second) whole ∙ append_assoc made (op ∷ left) second) good bad ops failed
  HasDone-and_then (r, none) k (stopped made op left whole good bad ops failed) g = cc
  HasDone-and_then {first_part} {second_part} {before} (r, none) k (finished fine ops good) g =
      elim (g r) [
        | finished fine' ops' good' ↦
            finished fine'
              (ops'
                ∙ ap (λ l. l ++ second_part) ops
                ∙ append_assoc before.ops first_part second_part)
              (Accepted-append before.ops first_part second_part good
                (subst (λ l. Accepted l second_part) ops good'))
        | stopped made op left whole good' bad ops' failed ↦
            stopped (first_part ++ made) op left
              (ap (λ l. first_part ++ l) whole ∙ sym (append_assoc first_part made (op ∷ left)))
              (Accepted-append before.ops first_part made good
                (subst (λ l. Accepted l made) ops good'))
              (ap (λ l. c.accepts l op)
                  (sym (append_assoc before.ops first_part made) ∙ ap (λ l. l ++ made) (sym ops))
                ∙ bad)
              (ops'
                ∙ ap (λ l. l ++ (made ++ (op ∷ []))) ops
                ∙ append_assoc before.ops first_part (made ++ (op ∷ []))
                ∙ ap (λ l. before.ops ++ l) (sym (append_assoc first_part made (op ∷ []))))
              failed
      ]

  HasDone-end :
      {planned : List Op} {before : Run} (a : Ended)
      → HasDone planned before a
      → HasDone planned before (and_then a (λ r. (r, none)))
  unfolding and_then
  HasDone-end (r, some e) h = h
  HasDone-end (r, none) h = h

  perform-HasDone : (op : Op) (r : Run) → HasDone (op ∷ []) r (perform c op r)
  unfolding perform
  perform-HasDone op r = elim (Bool-cases (c.accepts r.ops op)) [
    | inl fine ↦ unfold perform in rw fine (finished refl refl (fine, tt))
    | inr refused ↦
        unfold perform in
        rw refused (
          stopped [] op [] refl tt (ap (λ l. c.accepts l op) (append-nil r.ops) ∙ refused) refl
            refl)
  ]

  perform_all-HasDone : (ops : List Op) (r : Run) → HasDone ops r (perform_all c ops r)
  unfolding perform_all
  perform_all-HasDone [] r = finished refl (sym (append-nil r.ops)) tt
  perform_all-HasDone (op ∷ ops) r =
      HasDone-and_then (perform c op r) (perform_all c ops) (perform-HasDone op r)
        (perform_all-HasDone ops)

  -- An apply without pruning writes all workloads, then all services, then all ingresses of the bundles, each
  -- of which is accepted, and ends without an error; or up to the first write that is refused, which is the
  -- last it makes, and its error is that of the apply.
  pub apply_bundles-HasDone :
      (bundles : List Bundle)
      → HasDone
          (workload_ops bundles ++ (service_ops bundles ++ ingress_ops bundles))
          started
          (apply_bundles c false false bundles)
  unfolding apply_bundles
  apply_bundles-HasDone bundles =
      HasDone-and_then (perform_all c (workload_ops bundles) started) _
        (perform_all-HasDone (workload_ops bundles) started)
        (λ r.
          HasDone-and_then (perform_all c (service_ops bundles) r) _
            (perform_all-HasDone (service_ops bundles) r)
            (λ r'.
              HasDone-end (perform_all c (ingress_ops bundles) r')
                (perform_all-HasDone (ingress_ops bundles) r')))

  -- A prune makes the deletions of its plan, the ingresses, then the services, then the workloads.
  pub prune_drift-HasDone :
      (bundles : List Bundle) (r : Run) {ings svcs wls : List String}
      → prune_plan c bundles r ≡ ok (ings, svcs, wls)
      → HasDone
          (map delete_ingress ings ++ (map delete_service svcs ++ map delete_workload wls))
          r
          (prune_drift c bundles r)
  unfolding prune_drift
  prune_drift-HasDone bundles r {ings} {svcs} {wls} e =
      rw (e, prune_drift)
        (HasDone-and_then (perform_all c (map delete_ingress ings) r) _
          (perform_all-HasDone (map delete_ingress ings) r)
          (λ r'.
            HasDone-and_then (perform_all c (map delete_service svcs) r') _
              (perform_all-HasDone (map delete_service svcs) r')
              (λ r''. perform_all-HasDone (map delete_workload wls) r'')))
