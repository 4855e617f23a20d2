-- ===== src/Floats.antt =====
-- The `float64` numbers by which internal/scheduler/scheduler.go ranks the nodes: sums of two
-- quotients of an amount by a positive capacity, never NaN. The laws are those of the IEEE order on
-- such numbers.
use smith.Prelude.Int.{ℤ}
use smith.Prelude.Sort.{LinearOrder}
use smith.Prelude.{◌≡◌, ◌↔◌, Bool, true}

pub record Floats : Type 1 where
  pub Num : Type 0
  pub zero : Num
  pub ratio : ℤ → ℤ → Num
  pub add : Num → Num → Num
  pub lt : Num → Num → Bool
  pub eq : Num → Num → Bool
  pub eq_true : (a b : Num) → (eq a b ≡ true) ↔ (a ≡ b)
  pub lt_linear : LinearOrder lt
