-- ===== src/Stores/Workloads/Refinement.antt =====
-- internal/reconciler/store_sqlite.go against the store of store.go.
-- That encoding/json reads back a value as it wrote it is a hypothesis on the values of each workload.
use smith.Desired.{StoreError, store_add, store_remove, store_list, Store}
use smith.Prelude.Assoc.{delete, insert}
use smith.Prelude.Text.{◌==◌}
use smith.Prelude.{
  String, ◌≡◌, refl, sym, ap, inl, inr, false, Option, none, some, List, [], ◌∷◌, All, ok,
  Bool-cases,
}
use smith.Stores.Workloads.{
  list_of, sqlite_list, workload_of, sqlite_add, is_blank, list_text, sqlite_remove, workloads_of,
  SqliteError, SqliteStore, Codecs, WorkloadRow, row_of, invalid_workload, Codec, optional_of,
  optional_text,
}
use smith.Stores.{no_faults}
use smith.Types.{Workload}

-- The text of a value is read as the value, and is not the text of no value.
abbrev pub IsReadable : {A : Type 0} → Codec A → A → Type 0
IsReadable c a = (c.decode (c.encode a) ≡ some a) × (is_blank (c.encode a) ≡ false)

abbrev pub IsOptionReadable : {A : Type 0} → Codec A → Option A → Type 0
IsOptionReadable c none = Unit
IsOptionReadable c (some a) = IsReadable c a

abbrev pub IsListReadable : {A : Type 0} → Codec (List A) → List A → Type 0
IsListReadable c [] = Unit
IsListReadable c (x ∷ xs) = IsReadable c (x ∷ xs)

-- each nested value of a workload is read as it was written
pub record IsWritable (cs : Codecs) (w : Workload) : Type 0 where
  pub args : cs.args.decode (cs.args.encode w.args) ≡ some w.args
  pub health_check : IsOptionReadable cs.health_check w.health_check
  pub ports : IsListReadable cs.ports w.ports
  pub env : IsListReadable cs.env w.env
  pub resources : IsOptionReadable cs.resources w.resources
  pub volumes : IsListReadable cs.volumes w.volumes

optional_round :
    {A : Type 0} (c : Codec A) (column : String) (id : String) (o : Option A)
    → IsOptionReadable c o
    → optional_of c column id (optional_text c o) ≡ ok o
optional_round c column id none h = refl
optional_round c column id (some a) h = rw h.1 (rw h.0 refl)

list_round :
    {A : Type 0} (c : Codec (List A)) (column : String) (id : String) (l : List A)
    → IsListReadable c l
    → list_of c column id (list_text c l) ≡ ok l
list_round c column id [] h = refl
list_round c column id (x ∷ xs) h = rw h.1 (rw h.0 refl)

-- the same refusal of a workload
abbrev pub refused : Option StoreError → Option SqliteError
refused none = none
refused (some e) = some (invalid_workload e)

module _ (cs : Codecs) where
  -- The row of a workload is read as the workload.
  workload_of-row_of :
      (id : String) (w : Workload)
      → IsWritable cs w
      → w.id ≡ id
      → workload_of cs id (row_of cs w) ≡ ok w
  unfolding workload_of row_of
  workload_of-row_of id w h same =
      unfold workload_of in
      rw h.args (
        rw (optional_round cs.health_check "health check" id w.health_check h.health_check) (
          rw (list_round cs.ports "ports" id w.ports h.ports) (
            rw (list_round cs.env "env" id w.env h.env) (
              rw (optional_round cs.resources "resources" id w.resources h.resources) (
                rw (list_round cs.volumes "volumes" id w.volumes h.volumes)
                  (ap (λ key. ok (record w { id = key })) (sym same)))))))

  -- what holds of each entry that the table stands for
  abbrev pub IsStored : String × Workload → Type 0
  IsStored e = (e.1.id ≡ e.0) × IsWritable cs e.1

  -- the rows of a desired state
  abbrev pub rows_of : List (String × Workload) → List (String × WorkloadRow)
  rows_of [] = []
  rows_of ((id, w) ∷ rest) = (id, row_of cs w) ∷ rows_of rest

  -- The table has the row of each workload of the store, in its order, each under its own ID and each one that can be read back.
  pub record Represents (s : Store) (t : SqliteStore) : Type 0 where
    pub rows : t.rows ≡ rows_of s.workloads
    pub stored : All IsStored s.workloads

  workloads_of-rows_of :
      (stored : List (String × Workload))
      → All IsStored stored
      → workloads_of cs (rows_of stored) ≡ ok stored
  unfolding workloads_of
  workloads_of-rows_of [] h = refl
  workloads_of-rows_of ((id, w) ∷ rest) h =
      rw (workload_of-row_of id w h.0.1 h.0.0) (rw (workloads_of-rows_of rest h.1) refl)

  rows_of-insert :
      (id : String) (w : Workload) (stored : List (String × Workload))
      → insert id (row_of cs w) (rows_of stored) ≡ rows_of (insert id w stored)
  unfolding insert
  rows_of-insert id w [] = refl
  rows_of-insert id w ((j, v) ∷ rest) = elim (Bool-cases (j == id)) [
    | inl here ↦ rw here refl
    | inr there ↦ rw there (ap (λ l. (j, row_of cs v) ∷ l) (rows_of-insert id w rest))
  ]

  rows_of-delete :
      (id : String) (stored : List (String × Workload))
      → delete id (rows_of stored) ≡ rows_of (delete id stored)
  unfolding delete
  rows_of-delete id [] = refl
  rows_of-delete id ((j, v) ∷ rest) = elim (Bool-cases (j == id)) [
    | inl here ↦ rw here (rows_of-delete id rest)
    | inr there ↦ rw there (ap (λ l. (j, row_of cs v) ∷ l) (rows_of-delete id rest))
  ]

  All-insert :
      (w : Workload) (stored : List (String × Workload))
      → IsWritable cs w
      → All IsStored stored
      → All IsStored (insert w.id w stored)
  unfolding insert
  All-insert w [] good h = ((refl, good), tt)
  All-insert w ((j, v) ∷ rest) good h = elim (Bool-cases (j == w.id)) [
    | inl here ↦ rw here ((refl, good), h.1)
    | inr there ↦ rw there (h.0, All-insert w rest good h.1)
  ]

  All-delete :
      (id : String) (stored : List (String × Workload))
      → All IsStored stored
      → All IsStored (delete id stored)
  unfolding delete
  All-delete id [] h = tt
  All-delete id ((j, v) ∷ rest) h = elim (Bool-cases (j == id)) [
    | inl here ↦ rw here (All-delete id rest h.1)
    | inr there ↦ rw there (h.0, All-delete id rest h.1)
  ]

  sqlite_add-Represents :
      (s : Store) (t : SqliteStore) (w : Workload)
      → IsWritable cs w
      → Represents s t
      → Represents (store_add w s).0 (sqlite_add cs no_faults w t).0
        × ((sqlite_add cs no_faults w t).1 ≡ refused (store_add w s).1)
  unfolding sqlite_add store_add
  sqlite_add-Represents s t w good h = elim (Bool-cases (w.id == "")) [
    | inl nameless ↦ rw nameless (h, refl)
    | inr named ↦ elim (Bool-cases (w.image == "")) [
      | inl bare ↦ rw named (rw bare (h, refl))
      | inr imaged ↦ rw named (
          rw imaged (
            record {
              rows = rw h.rows (rows_of-insert w.id w s.workloads);
              stored = All-insert w s.workloads good h.stored;
            },
            refl,
          ))
    ]
  ]

  -- While every statement works, a table that stands for the in-memory store lists the same workloads,
  -- refuses the same ones, and still stands for the store after the same add of a workload whose nested
  -- values are read as they are written, and after the same remove.
  pub sqlite-Represents :
      (s : Store) (t : SqliteStore)
      → Represents s t
      → (sqlite_list cs no_faults t ≡ ok (store_list s))
        × ((w : Workload)
            → IsWritable cs w
            → Represents (store_add w s).0 (sqlite_add cs no_faults w t).0
              × ((sqlite_add cs no_faults w t).1 ≡ refused (store_add w s).1))
        × ((id : String) → Represents (store_remove id s) (sqlite_remove cs no_faults id t).0)
  unfolding sqlite_list sqlite_remove store_remove
  sqlite-Represents s t h = (
    rw h.rows (workloads_of-rows_of s.workloads h.stored),
    (λ w good. sqlite_add-Represents s t w good h),
    (λ id. record {
      rows = rw h.rows (rows_of-delete id s.workloads);
      stored = All-delete id s.workloads h.stored;
    }),
  )
