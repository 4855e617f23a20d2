-- ===== src/Stores/Subnets/Persistence.antt =====
-- When `Allocate` of internal/reconciler/subnets_sqlite.go answers, and that its answers last.
use smith.Pool.{lowest_free-some, lowest_free, IsLowestFree, lowest_free-none}
use smith.Prelude.Assoc.{lookup, lookup-insert_self}
use smith.Prelude.Text.{◌==◌, eq_iff}
use smith.Prelude.{
  ℕ, ◌<◌, String, ◌≡◌, ◌≢◌, ◌⊎◌, inl, inr, true, false, none, some, arith, ok, Option-cases,
  Bool-cases, err,
}
use smith.Stores.Subnets.{
  allocate_new, persist, Row, uses_idx, pool_exhausted, SubnetAllocator, allocate, config,
}
use smith.Stores.{no_faults, Faults}
use smith.Types.{NetworkConfig}

-- A node with a row is given its subnet again, and nothing changes, whatever else fails.
allocate_again :
    (faults : Faults) (id : String) (a : SubnetAllocator) (row : Row)
    → id ≢ ""
    → faults.lookup ≡ false
    → lookup id a.rows ≡ some row
    → allocate faults id a ≡ (a, ok (config a row.idx))
unfolding allocate
allocate_again faults id a row named read found = ground (arith, eq_iff id "", found)

persist_ok :
    (faults : Faults) (id : String) (idx : ℕ) (a : SubnetAllocator) {cfg : NetworkConfig}
    → (persist faults id idx a).1 ≡ ok cfg
    → (cfg ≡ config a idx)
      × (lookup id (persist faults id idx a).0.rows
          ≡ some (record { idx = idx; subnet = (config a idx).subnet }))
      × ((persist faults id idx a).0.base ≡ a.base)
persist_ok faults id idx a h = elim (Bool-cases faults.write) [
  | inl failed ↦ absurd (unfold persist in ground (arith, failed))
  | inr written ↦
      unfold persist in
      (ground (arith, written), rw written (lookup-insert_self id _ a.rows), rw written)
]

-- A fresh allocation stores the lowest free block.
allocate_fresh :
    (faults : Faults) (id : String) (a : SubnetAllocator) (cfg : NetworkConfig)
    → (allocate_new faults id a).1 ≡ ok cfg
    → (idx : ℕ) × IsLowestFree (uses_idx a.rows) 256 0 idx
      × (cfg ≡ config a idx)
      × (lookup id (allocate_new faults id a).0.rows
          ≡ some (record { idx = idx; subnet = (config a idx).subnet }))
      × ((allocate_new faults id a).0.base ≡ a.base)
unfolding allocate_new
allocate_fresh faults id a cfg h = elim (Bool-cases faults.scan) [
  | inl failed ↦ absurd (ground (arith, failed))
  | inr listed ↦ elim (Option-cases (lowest_free (uses_idx a.rows) 256 0)) [
    | inl full ↦ absurd (ground (arith, listed, full))
    | inr (idx, found) ↦
        let (same, stored, base) =
          persist_ok faults id idx a (rw (listed, found, allocate_new) at h) in
        (
          idx,
          lowest_free-some (uses_idx a.rows) 256 0 found,
          same,
          rw (listed, found, allocate_new) stored,
          rw (listed, found, allocate_new) base,
        )
  ]
]

-- the answer and the state of a successful `Allocate`
pub record IsHeld (id : String) (after : SubnetAllocator) (cfg : NetworkConfig) : Type 0 where
  pub row : Row
  pub stored : lookup id after.rows ≡ some row
  pub answer : cfg ≡ config after row.idx

allocate-IsHeld :
    (faults : Faults) (id : String) (a : SubnetAllocator) (cfg : NetworkConfig)
    → (allocate faults id a).1 ≡ ok cfg
    → IsHeld id (allocate faults id a).0 cfg
unfolding allocate config
allocate-IsHeld faults id a cfg h = elim (Bool-cases (id == "")) [
  | inl nameless ↦ absurd (ground (arith, nameless))
  | inr named ↦ elim (Bool-cases faults.lookup) [
    | inl failed ↦ absurd (ground (arith, named, failed))
    | inr read ↦ elim (Option-cases (lookup id a.rows)) [
      | inl new ↦
          let (idx, low, same, stored, base) =
            allocate_fresh faults id a cfg (rw (named, read, new, allocate) at h) in
          rw (named, read, new, allocate)
            (record {
              row = record { idx = idx; subnet = (config a idx).subnet };
              stored = stored;
              answer = rw base same;
            })
      | inr (row, old) ↦
          rw (named, read, old, allocate)
            (record { row = row; stored = old; answer = ground (arith, named, read, old) })
    ]
  ]
]

-- Once `Allocate` has answered a node with a subnet, every later call for that node that can read its
-- row gives the same subnet and changes nothing, whether or not the other statements fail.
pub allocate_lasts :
    (faults later : Faults) (id : String) (a : SubnetAllocator) (cfg : NetworkConfig)
    → (allocate faults id a).1 ≡ ok cfg
    → later.lookup ≡ false
    → allocate later id (allocate faults id a).0 ≡ ((allocate faults id a).0, ok cfg)
allocate_lasts faults later id a cfg h read =
    let held = allocate-IsHeld faults id a cfg h in
    rw held.answer (
      allocate_again later id (allocate faults id a).0 held.row (named (Bool-cases (id == ""))) read
        held.stored)
  where
    named : (id == "" ≡ true) ⊎ (id == "" ≡ false) → id ≢ ""
    named (inl nameless) = absurd (refused nameless h)
      where
        refused : id == "" ≡ true → (allocate faults id a).1 ≡ ok cfg → ⊥
        refused e k = unfold allocate in ground (arith, e)
    named (inr e) = λ p. ground (arith, e, eq_iff id "")

-- With every statement working, a node without a row is refused exactly when all 256 blocks are in
-- use; otherwise it gets the lowest free block.
pub allocate_pool :
    (id : String) (a : SubnetAllocator)
    → id ≢ ""
    → lookup id a.rows ≡ none
    → (((i : ℕ) → i < 256 → uses_idx a.rows i ≡ true)
        × (allocate no_faults id a ≡ (a, err pool_exhausted)))
      ⊎ ((idx : ℕ) × IsLowestFree (uses_idx a.rows) 256 0 idx
          × ((allocate no_faults id a).1 ≡ ok (config a idx)))
unfolding allocate allocate_new persist
allocate_pool id a named new = elim (Option-cases (lowest_free (uses_idx a.rows) 256 0)) [
  | inl full ↦ inl (
    (λ i small. lowest_free-none (uses_idx a.rows) 256 0 full i (omega arith) (omega arith)),
    ground (arith, eq_iff id "", new, full),
  )
  | inr (idx, found) ↦ inr (
    idx,
    lowest_free-some (uses_idx a.rows) 256 0 found,
    ground (arith, eq_iff id "", new, found),
  )
]
