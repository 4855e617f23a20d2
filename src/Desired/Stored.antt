-- ===== src/Desired/Stored.antt =====
-- The in-memory store of internal/reconciler/store.go.
use smith.Desired.{store_list, empty_id, StoreError, store_add, empty_image, Store}
use smith.Prelude.Assoc.{lookup, lookup-insert}
use smith.Prelude.Text.{◌==◌, eq_iff}
use smith.Prelude.{
  String, ◌≡◌, refl, ◌≢◌, ◌⊎◌, inl, inr, none, some, arith, Bool-cases, if◌then◌else◌,
}
use smith.Types.{Workload}

-- `Add` refuses a workload without an ID or an image and changes nothing then; otherwise the next `List`
-- has the workload under its ID, and every other ID as before.
pub store_add_lem :
    (w : Workload) (s : Store)
    → (((w.id ≡ "") ⊎ (w.image ≡ "")) × (e : StoreError) × (store_add w s ≡ (s, some e)))
      ⊎ ((w.id ≢ "")
          × (w.image ≢ "")
          × ((store_add w s).1 ≡ none)
          × ((id : String)
              → lookup id (store_list (store_add w s).0)
                ≡ (if w.id == id then some w else lookup id (store_list s))))
unfolding store_add
store_add_lem w s = elim (Bool-cases (w.id == "")) [
  | inl nameless ↦ inl (inl ((eq_iff w.id "").0 nameless), empty_id, rw nameless refl)
  | inr named ↦ elim (Bool-cases (w.image == "")) [
    | inl bare ↦ inl (inr ((eq_iff w.image "").0 bare), empty_image w.id, rw named (rw bare refl))
    | inr imaged ↦ inr (
      (λ e. ground (arith, named, eq_iff w.id "")),
      (λ e. ground (arith, imaged, eq_iff w.image "")),
      rw named (rw imaged refl),
      (λ id. rw named (rw imaged (lookup-insert w.id id w s.workloads))),
    )
  ]
]
