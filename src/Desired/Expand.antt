-- ===== src/Desired/Expand.antt =====
-- The replicas that `expand` of internal/reconciler/reconciler.go makes.
use native.Mathlib.Decide.{ℕ_discrete}
use text.Mathlib.TextLemmas.{append_cancel_left}
use smith.Desired.{
  replica_count, instance_of, replica_id_of, Instance, expand_from, expand, expand_workload,
}
use smith.Prelude.Assoc.{has-insert, insert, has, lookup, insert_cases}
use smith.Prelude.Decimal.{decimal, decimal-injective}
use smith.Prelude.Int.{pos, pos_part, ℤ, leb_ℤ}
use smith.Prelude.Text.{append, eq_refl}
use smith.Prelude.{
  ℕ, zero, suc, ◌+◌, ◌≤◌, ◌<◌, String, ◌≡◌, refl, sym, ap, ◌∙◌, ◌⊎◌, inl, inr, true, some, List, [],
  ◌∷◌, arith, Elem, if◌then◌else◌,
}
use smith.Types.{Workload}

-- Fewer than one replica stand for one.
abbrev pub at_least_one : ℤ → ℕ
at_least_one n = if leb_ℤ n (pos 0) then 1 else pos_part n

at_least_one-replica_count : (w : Workload) → replica_count w ≡ at_least_one w.replicas
unfolding replica_count
at_least_one-replica_count w = ground arith

-- An instance with its ID is the one of a stored workload with an index below its replica count.
pub record IsReplica (stored : List (String × Workload)) (rid : String) (inst : Instance)
    : Type 0 where
  pub parent : String
  pub workload : Workload
  pub index : ℕ
  pub stored_at : Elem (parent, workload) stored
  pub below : index < at_least_one workload.replicas
  pub named : rid ≡ append parent (append "-" (decimal index))
  pub of_parent : inst.parent ≡ parent
  pub built : inst.wl ≡ record workload { id = rid; replicas = pos 0 }

record IsRound (id : String) (w : Workload) (from to : ℕ) (rid : String) (inst : Instance)
    : Type 0 where
  index : ℕ
  lower : from ≤ index
  upper : index < to
  named : rid ≡ replica_id_of id index
  built : inst ≡ instance_of id w index

module _ (id : String) (w : Workload) where
  expand_workload-IsRound :
      (rounds i : ℕ) (out : List (String × Instance)) (rid : String) {inst : Instance}
      → lookup rid (expand_workload id w rounds i out) ≡ some inst
      → (lookup rid out ≡ some inst) ⊎ IsRound id w i (i + rounds) rid inst
  unfolding expand_workload
  expand_workload-IsRound zero i out rid h = inl h
  expand_workload-IsRound (suc rounds) i out rid {inst} h =
      elim (expand_workload-IsRound rounds (i + 1)
        (insert (replica_id_of id i) (instance_of id w i) out) rid h) [
          | inr later ↦ inr (record {
            index = later.index;
            lower = omega (arith, later.lower);
            upper = omega (arith, later.upper);
            named = later.named;
            built = later.built;
          })
          | inl stored ↦
              elim (insert_cases (replica_id_of id i) rid (instance_of id w i) out stored) [
                | inl (here, e) ↦ inr (record {
                  index = i;
                  lower = omega arith;
                  upper = omega arith;
                  named = sym here;
                  built = sym e;
                })
                | inr (there, old) ↦ inl old
              ]
        ]

  has-expand_workload :
      (rounds i : ℕ) (out : List (String × Instance)) (rid : String)
      → has rid out ≡ true
      → has rid (expand_workload id w rounds i out) ≡ true
  unfolding expand_workload
  has-expand_workload zero i out rid h = h
  has-expand_workload (suc rounds) i out rid h =
      has-expand_workload rounds (i + 1) _ rid (rw has-insert (ground (arith, h)))

  expand_workload_index :
      (rounds i : ℕ) (out : List (String × Instance)) (j : ℕ)
      → i ≤ j
      → j < i + rounds
      → has (replica_id_of id j) (expand_workload id w rounds i out) ≡ true
  unfolding expand_workload
  expand_workload_index zero i out j lower upper = absurd (omega arith)
  expand_workload_index (suc rounds) i out j lower upper = elim (ℕ_discrete i j) [
    | yes e ↦
        has-expand_workload rounds (i + 1) _ (replica_id_of id j)
          (rw e (rw has-insert (ground (arith, eq_refl (replica_id_of id j)))))
    | no ne ↦ expand_workload_index rounds (i + 1) _ j (omega (arith, ne)) (omega arith)
  ]

IsRound-IsReplica :
    (id : String) (w : Workload) (rest : List (String × Workload)) (rid : String) {inst : Instance}
    → IsRound id w 0 (0 + replica_count w) rid inst
    → IsReplica ((id, w) ∷ rest) rid inst
unfolding replica_id_of instance_of
IsRound-IsReplica id w rest rid r = record {
  parent = id;
  workload = w;
  index = r.index;
  stored_at = inl refl;
  below = omega (arith, r.upper, at_least_one-replica_count w);
  named = r.named;
  of_parent = ap (λ (i : Instance). i.parent) r.built;
  built =
      ap (λ (i : Instance). i.wl) r.built
      ∙ ap (λ x. record w { id = x; replicas = pos 0 }) (sym r.named);
}

expand_from-IsReplica :
    (stored : List (String × Workload)) (out : List (String × Instance)) (rid : String)
    {inst : Instance}
    → lookup rid (expand_from stored out) ≡ some inst
    → (lookup rid out ≡ some inst) ⊎ IsReplica stored rid inst
unfolding expand_from
expand_from-IsReplica [] out rid h = inl h
expand_from-IsReplica ((id, w) ∷ rest) out rid h = elim (expand_from-IsReplica rest _ rid h) [
  | inr later ↦ inr (record {
    parent = later.parent;
    workload = later.workload;
    index = later.index;
    stored_at = inr later.stored_at;
    below = later.below;
    named = later.named;
    of_parent = later.of_parent;
    built = later.built;
  })
  | inl now ↦ elim (expand_workload-IsRound id w (replica_count w) 0 out rid now) [
    | inl old ↦ inl old
    | inr made ↦ inr (IsRound-IsReplica id w rest rid made)
  ]
]

has-expand_from :
    (stored : List (String × Workload)) (out : List (String × Instance)) (rid : String)
    → has rid out ≡ true
    → has rid (expand_from stored out) ≡ true
unfolding expand_from
has-expand_from [] out rid h = h
has-expand_from ((id, w) ∷ rest) out rid h =
    has-expand_from rest _ rid (has-expand_workload id w (replica_count w) 0 out rid h)

expand_from_index :
    (stored : List (String × Workload)) (out : List (String × Instance)) (id : String)
    (w : Workload) (i : ℕ)
    → Elem (id, w) stored
    → i < replica_count w
    → has (replica_id_of id i) (expand_from stored out) ≡ true
unfolding expand_from
expand_from_index [] out id w i member small = absurd member
expand_from_index ((j, v) ∷ rest) out id w i (inl here) small =
    has-expand_from rest _ (replica_id_of id i) (
      rw (← ap (λ (e : String × Workload). e.0) here) (
        rw (← ap (λ (e : String × Workload). e.1) here) (
          expand_workload_index id w (replica_count w) 0 out i (omega arith)
            (omega (arith, small)))))
expand_from_index ((j, v) ∷ rest) out id w i (inr there) small =
    expand_from_index rest _ id w i there small

-- The desired replicas are exactly those of the stored workloads: for each index below a workload's number
-- of replicas, where fewer than one stand for one, one instance named by the workload's ID, a dash and the
-- index. It has the workload's fields, that name for its ID, no replicas of its own, and the workload as
-- its parent.
pub expand-IsReplica :
    (stored : List (String × Workload))
    → ((rid : String) (inst : Instance)
        → lookup rid (expand stored) ≡ some inst
        → IsReplica stored rid inst)
      × ((id : String) (w : Workload) (i : ℕ)
          → Elem (id, w) stored
          → i < at_least_one w.replicas
          → has (append id (append "-" (decimal i))) (expand stored) ≡ true)
      × ((id : String) (i j : ℕ)
          → append id (append "-" (decimal i)) ≡ append id (append "-" (decimal j))
          → i ≡ j)
unfolding expand lookup replica_id_of
expand-IsReplica stored = (
  (λ rid inst h. elim (expand_from-IsReplica stored [] rid h) [ inl e ↦ cc | inr r ↦ r ]),
  (λ id w i member small.
      expand_from_index stored [] id w i member (rw (at_least_one-replica_count w) small)),
  (λ id i j e. decimal-injective i j (append_cancel_left "-" _ _ (append_cancel_left id _ _ e))),
)
