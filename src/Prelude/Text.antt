-- ===== src/Prelude/Text.antt =====
-- The order and the equality of Go's strings: `<` on strings goes by bytes, which in UTF-8 is the
-- order of the code points.
use Prim.Native.Nat.{Ordering}
use Prim.Native.String.compare
use Prim.Native.String.{String, [], ◌∷◌, compare}
use mathlib.Core.Bool.{Bool, true, false}
use mathlib.Core.Path.{◌≡◌, ap}
use native.Mathlib.Omega.{arith}
use text.Mathlib.Text.{is_lt}
use text.Mathlib.TextEquality.{path_by_compare}
use text.Mathlib.TextPositions.{compare_refl}
pub use text.Mathlib.Text.{◌==◌}
pub use text.Mathlib.TextEquality.{eq_iff}
pub use text.Mathlib.TextPositions.{eq_refl}

abbrev pub str_lt : String → String → Bool
str_lt s t = is_lt (compare s t)

pub str_lt_irrefl : (s : String) → str_lt s s ≡ false
str_lt_irrefl s = ap is_lt (compare_refl s)

lt_trans :
    (s t u : String)
    → compare s t ≡ Ordering.lt
    → compare t u ≡ Ordering.lt
    → compare s u ≡ Ordering.lt
lt_trans [] [] u p q = q
lt_trans [] (d ∷ t) [] p q = cc (compare.cons-nil d t)
lt_trans [] (d ∷ t) (e ∷ u) p q = compare.nil-cons e u
lt_trans (c ∷ s) [] u p q = cc (compare.cons-nil c s)
lt_trans (c ∷ s) (d ∷ t) [] p q = cc (compare.cons-nil d t)
lt_trans (c ∷ s) (d ∷ t) (e ∷ u) p q = ground (
  arith,
  compare.cons-cons c d s t,
  compare.cons-cons d e t u,
  compare.cons-cons c e s u,
  lt_trans s t u,
)

gt→lt : (s t : String) → compare s t ≡ Ordering.gt → compare t s ≡ Ordering.lt
gt→lt [] [] p = cc (compare_refl [])
gt→lt [] (d ∷ t) p = cc (compare.nil-cons d t)
gt→lt (c ∷ s) [] p = compare.nil-cons c s
gt→lt (c ∷ s) (d ∷ t) p =
    ground (arith, compare.cons-cons c d s t, compare.cons-cons d c t s, gt→lt s t)

pub str_lt_trans : (s t u : String) → str_lt s t ≡ true → str_lt t u ≡ true → str_lt s u ≡ true
str_lt_trans s t u p q = ground (arith, lt_trans s t u)

pub str_lt_total : (s t : String) → str_lt s t ≡ false → str_lt t s ≡ false → s ≡ t
str_lt_total s t p q = ground (arith, gt→lt s t, path_by_compare s t)

-- `+` on Go's strings
abbrev pub append : String → String → String
append s t = Prim.Native.String.◌++◌ s t
