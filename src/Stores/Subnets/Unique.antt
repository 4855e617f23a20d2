-- ===== src/Stores/Subnets/Unique.antt =====
-- The subnets of internal/reconciler/subnets_sqlite.go are unique and stay with their nodes.
use text.Mathlib.TextLemmas.{append_cancel_left}
use smith.Pool.{lowest_free, lowest_free-some}
use smith.Prelude.Assoc.{
  delete_cases, Distinct, insert, insert_cases, lookup, delete-Distinct, insert-Distinct,
}
use smith.Prelude.Decimal.{decimal_point-injective, decimal}
use smith.Prelude.Text.{◌==◌}
use smith.Prelude.{
  ℕ, ◌<◌, String, ◌≡◌, sym, ap, ◌∙◌, ◌≢◌, inl, inr, false, some, List, [], ◌∷◌, arith, Option-cases,
  Bool-cases,
}
use smith.Stores.Subnets.{
  allocate_new, config, Row, SubnetAllocator, block, uses_idx, persist, allocate, release,
}
use smith.Stores.{Faults}

-- Each row has an index of the pool, its subnet is the index's block, and no index stands twice.
pub record IsAllocated (a : SubnetAllocator) : Type 0 where
  pub distinct : Distinct a.rows
  pub in_pool : (id : String) (row : Row) → lookup id a.rows ≡ some row → row.idx < 256
  pub block_of :
      (id : String) (row : Row)
      → lookup id a.rows ≡ some row
      → row.subnet ≡ (config a row.idx).subnet
  pub unique :
      (id other : String) (row row' : Row)
      → lookup id a.rows ≡ some row
      → lookup other a.rows ≡ some row'
      → row.idx ≡ row'.idx
      → id ≡ other

-- The text of a block tells its index.
block-injective : (base : ℕ × ℕ) (i j : ℕ) → block base i "0/24" ≡ block base j "0/24" → i ≡ j
unfolding block
block-injective base i j e = decimal_point-injective i j "0/24" "0/24" (
    append_cancel_left "." _ _ (
      append_cancel_left (decimal base.1) _ _
        (append_cancel_left "." _ _ (append_cancel_left (decimal base.0) _ _ e))))

-- An index that no row uses is not that of a stored row.
unused_idx :
    (rows : List (String × Row)) (i : ℕ) (id : String) (row : Row)
    → uses_idx rows i ≡ false
    → lookup id rows ≡ some row
    → row.idx ≢ i
unfolding uses_idx lookup
unused_idx [] i id row free h e = cc
unused_idx ((j, r) ∷ rows) i id row free h e = elim (Bool-cases (j == id)) [
  | inl here ↦ ground arith
  | inr there ↦ unused_idx rows i id row (ground arith) (ground arith) e
]

module _ (id : String) (idx : ℕ) (a : SubnetAllocator) (small : idx < 256)
    (free : uses_idx a.rows idx ≡ false) (h : IsAllocated a) where
  abbrev new_row : Row
  new_row = record { idx = idx; subnet = (config a idx).subnet }

  new_unique :
      (j k : String) (row row' : Row)
      → lookup j (insert id new_row a.rows) ≡ some row
      → lookup k (insert id new_row a.rows) ≡ some row'
      → row.idx ≡ row'.idx
      → j ≡ k
  new_unique j k row row' f g same = elim (insert_cases id j new_row a.rows f) [
    | inl (e, p) ↦ elim (insert_cases id k new_row a.rows g) [
      | inl (e', p') ↦ sym e ∙ e'
      | inr (ne, old) ↦
          absurd
            (unused_idx a.rows idx k row' free old (sym same ∙ ap (λ (r : Row). r.idx) (sym p)))
    ]
    | inr (ne, old) ↦ elim (insert_cases id k new_row a.rows g) [
      | inl (e', p') ↦
          absurd (unused_idx a.rows idx j row free old (same ∙ ap (λ (r : Row). r.idx) (sym p')))
      | inr (ne', old') ↦ h.unique j k row row' old old' same
    ]
  ]

  insert_row-IsAllocated : IsAllocated (record a { rows = insert id new_row a.rows })
  unfolding config
  insert_row-IsAllocated = record {
    distinct = insert-Distinct id new_row a.rows h.distinct;
    in_pool = λ j row found. elim (insert_cases id j new_row a.rows found) [
      | inl (e, p) ↦ rw (← p) small
      | inr (ne, old) ↦ h.in_pool j row old
    ];
    block_of = λ j row found. elim (insert_cases id j new_row a.rows found) [
      | inl (e, p) ↦ rw (← p)
      | inr (ne, old) ↦ h.block_of j row old
    ];
    unique = new_unique;
  }

  persist-IsAllocated : (faults : Faults) → IsAllocated (persist faults id idx a).0
  persist-IsAllocated faults = elim (Bool-cases faults.write) [
    | inl failed ↦ unfold persist in rw failed h
    | inr written ↦ unfold persist in rw written insert_row-IsAllocated
  ]

allocate_new-IsAllocated :
    (faults : Faults) (id : String) (a : SubnetAllocator)
    → IsAllocated a
    → IsAllocated (allocate_new faults id a).0
unfolding allocate_new
allocate_new-IsAllocated faults id a h = elim (Bool-cases faults.scan) [
  | inl failed ↦ unfold allocate_new in rw failed h
  | inr listed ↦ elim (Option-cases (lowest_free (uses_idx a.rows) 256 0)) [
    | inl full ↦ rw (listed, full, allocate_new) h
    | inr (idx, found) ↦
        let low = lowest_free-some (uses_idx a.rows) 256 0 found in
        rw (listed, found, allocate_new)
          (persist-IsAllocated id idx a (omega (arith, low.below)) low.free h faults)
  ]
]

-- `Allocate`, whatever it answers and whichever statement fails, keeps the subnets unique and in the pool.
pub allocate-IsAllocated :
    (faults : Faults) (id : String) (a : SubnetAllocator)
    → IsAllocated a
    → IsAllocated (allocate faults id a).0
unfolding allocate
allocate-IsAllocated faults id a h = elim (Bool-cases (id == "")) [
  | inl nameless ↦ unfold allocate in rw nameless h
  | inr named ↦ elim (Bool-cases faults.lookup) [
    | inl failed ↦ unfold allocate in rw named (rw failed h)
    | inr read ↦ elim (Option-cases (lookup id a.rows)) [
      | inl new ↦
          unfold allocate in
          rw named (rw read (rw (new, allocate) (allocate_new-IsAllocated faults id a h)))
      | inr (row, old) ↦ unfold allocate in rw named (rw read (rw (old, allocate) h))
    ]
  ]
]

pub release-IsAllocated :
    (faults : Faults) (id : String) (a : SubnetAllocator)
    → IsAllocated a
    → IsAllocated (release faults id a).0
unfolding config
release-IsAllocated faults id a h = elim (Bool-cases faults.write) [
  | inl failed ↦ unfold release in rw failed h
  | inr written ↦
      unfold release in
      rw written (record {
        distinct = delete-Distinct id a.rows h.distinct;
        in_pool = λ j row f. h.in_pool j row (delete_cases id j a.rows f);
        block_of = λ j row f. h.block_of j row (delete_cases id j a.rows f);
        unique = λ j k row row' f g same.
            h.unique j k row row' (delete_cases id j a.rows f) (delete_cases id k a.rows g) same;
      })
]

-- Two nodes never have the same subnet, as text.
pub subnet_unique :
    (a : SubnetAllocator) (id other : String) (row row' : Row)
    → IsAllocated a
    → lookup id a.rows ≡ some row
    → lookup other a.rows ≡ some row'
    → row.subnet ≡ row'.subnet
    → id ≡ other
unfolding block config
subnet_unique a id other row row' h f g same = h.unique id other row row' f g (
    block-injective a.base row.idx row'.idx
      (sym (h.block_of id row f) ∙ same ∙ h.block_of other row' g))
