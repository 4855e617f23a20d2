-- ===== src/Pool.antt =====
-- The loops of internal/reconciler that pick the lowest free number of a range: the /24 index in
-- subnets_sqlite.go, the ClusterIP and the NodePort in services_sqlite.go.
-- `for i := start; i < start + rounds; i++ { if !used[i] { … break } }`
use native.Mathlib.Decide.{ℕ_discrete}
use smith.Prelude.{
  ℕ, zero, suc, ◌+◌, ◌≤◌, ◌<◌, ◌≡◌, inl, inr, Bool, true, false, Option, none, some, arith,
  Bool-cases,
}

unfoldable pub lowest_free : (ℕ → Bool) → ℕ → ℕ → Option ℕ
lowest_free used zero i = none
lowest_free used (suc rounds) i = elim (used i) [
  | true ↦ lowest_free used rounds (i + 1)
  | false ↦ some i
]

-- The lowest free number of the range from `i`.
pub record IsLowestFree (used : ℕ → Bool) (rounds i j : ℕ) : Type 0 where
  pub from : i ≤ j
  pub below : j < i + rounds
  pub free : used j ≡ false
  pub lowest : (m : ℕ) → i ≤ m → m < j → used m ≡ true

module _ (used : ℕ → Bool) where
  -- a used number at the front of the range
  IsLowestFree-next :
      (rounds i j : ℕ)
      → used i ≡ true
      → IsLowestFree used rounds (i + 1) j
      → IsLowestFree used (suc rounds) i j
  IsLowestFree-next rounds i j taken h = record {
    from = omega (arith, h.from);
    below = omega (arith, h.below);
    free = h.free;
    lowest = λ m from before. elim (ℕ_discrete m i) [
      | yes e ↦ rw e taken
      | no ne ↦ h.lowest m (omega (arith, ne)) before
    ];
  }

  pub lowest_free-some :
      (rounds i : ℕ) {j : ℕ} → lowest_free used rounds i ≡ some j → IsLowestFree used rounds i j
  unfolding lowest_free
  lowest_free-some zero i h = cc
  lowest_free-some (suc rounds) i {j} h = elim (Bool-cases (used i)) [
    | inl taken ↦
        IsLowestFree-next rounds i j taken
          (lowest_free-some rounds (i + 1) (rw (taken, lowest_free) at h))
    | inr open_slot ↦
        let here : i ≡ j = ground (arith, open_slot) in
        record {
          from = omega (arith, here);
          below = omega (arith, here);
          free = rw (← here) open_slot;
          lowest = λ m from before. absurd (omega (arith, here));
        }
  ]

  pub lowest_free-none :
      (rounds i : ℕ)
      → lowest_free used rounds i ≡ none
      → (m : ℕ) → i ≤ m
      → m < i + rounds
      → used m ≡ true
  unfolding lowest_free
  lowest_free-none zero i h m from below = absurd (omega arith)
  lowest_free-none (suc rounds) i h m from below = elim (Bool-cases (used i)) [
    | inl taken ↦ elim (ℕ_discrete m i) [
      | yes e ↦ rw e taken
      | no ne ↦
          lowest_free-none rounds (i + 1) (rw (taken, lowest_free) at h) m (omega (arith, ne))
            (omega arith)
    ]
    | inr open_slot ↦ ground (arith, open_slot)
  ]
