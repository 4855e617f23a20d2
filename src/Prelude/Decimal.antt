-- ===== src/Prelude/Decimal.antt =====
-- Go's `%d` of a number that is not negative, and the number that a text begins with.
use Prim.Native.Char.{Char, code}
use Prim.Native.Nat.{ℕ, zero, suc, ◌+◌, ◌-◌, ◌*◌, ◌/◌, ◌%◌, ◌<◌}
use Prim.Native.String.compare
use Prim.Native.String.{String}
use mathlib.Core.Bool.{Bool, true, false, ◌&&◌}
use mathlib.Core.Logic.{inl, inr}
use mathlib.Core.Path.{◌≡◌, refl, sym, ap, ◌∙◌}
use native.Mathlib.Omega.{arith}
use text.Mathlib.Text.{is_eq}
use text.Mathlib.TextLemmas.{nil-append, cons-append, append_assoc as text_assoc}
use smith.Prelude.Tests.{Bool-cases, ltb→lt, leb, if◌then◌else◌, ltb}
use smith.Prelude.Text.{append, ◌==◌}

abbrev digit : ℕ → String
digit zero = "0"
digit (suc zero) = "1"
digit (suc (suc zero)) = "2"
digit (suc (suc (suc zero))) = "3"
digit (suc (suc (suc (suc zero)))) = "4"
digit (suc (suc (suc (suc (suc zero))))) = "5"
digit (suc (suc (suc (suc (suc (suc zero)))))) = "6"
digit (suc (suc (suc (suc (suc (suc (suc zero))))))) = "7"
digit (suc (suc (suc (suc (suc (suc (suc (suc zero)))))))) = "8"
digit _ = "9"

-- A number below 10 ^ fuel has its digits printed.
decimal_from : ℕ → ℕ → String
decimal_from zero n = ""
decimal_from (suc fuel) n = elim (ltb n 10) [
  | true ↦ digit n
  | false ↦ append (decimal_from fuel (n / 10)) (digit (n % 10))
]

-- More rounds than the number itself are enough.
unfoldable pub decimal : ℕ → String
unfolding decimal_from
decimal n = decimal_from (suc n) n

-- only digits
unfoldable pub all_digits : String → Bool
all_digits String.[] = true
all_digits (String.◌∷◌ c s) = leb b'0' (code c) && (leb (code c) b'9' && all_digits s)

pub all_digits-append : (s t : String) → all_digits (append s t) ≡ (all_digits s && all_digits t)
unfolding all_digits
all_digits-append String.[] t = ap all_digits (nil-append t)
all_digits-append (String.◌∷◌ c s) t =
    ap all_digits (cons-append c s t) ∙ ground (arith, all_digits-append s t)

all_digits-digit : (d : ℕ) → all_digits (digit d) ≡ true
unfolding all_digits
all_digits-digit zero = refl
all_digits-digit (suc zero) = refl
all_digits-digit (suc (suc zero)) = refl
all_digits-digit (suc (suc (suc zero))) = refl
all_digits-digit (suc (suc (suc (suc zero)))) = refl
all_digits-digit (suc (suc (suc (suc (suc zero))))) = refl
all_digits-digit (suc (suc (suc (suc (suc (suc zero)))))) = refl
all_digits-digit (suc (suc (suc (suc (suc (suc (suc zero))))))) = refl
all_digits-digit (suc (suc (suc (suc (suc (suc (suc (suc zero)))))))) = refl
all_digits-digit (suc (suc (suc (suc (suc (suc (suc (suc (suc d))))))))) = refl

all_digits-decimal_from : (fuel n : ℕ) → all_digits (decimal_from fuel n) ≡ true
unfolding decimal_from all_digits
all_digits-decimal_from zero n = refl
all_digits-decimal_from (suc fuel) n = elim (Bool-cases (ltb n 10)) [
  | inl small ↦ rw (small, decimal_from) (all_digits-digit n)
  | inr large ↦
      rw (large, decimal_from)
        (all_digits-append (decimal_from fuel (n / 10)) (digit (n % 10))
          ∙ ground (arith, all_digits-decimal_from fuel (n / 10), all_digits-digit (n % 10)))
]

pub all_digits-decimal : (n : ℕ) → all_digits (decimal n) ≡ true
unfolding decimal
all_digits-decimal n = all_digits-decimal_from (suc n) n

pub cons-ne-nil : (c : Char) (s : String) → (String.◌∷◌ c s == "") ≡ false
cons-ne-nil c s = ap is_eq (compare.cons-nil c s)

append-digit_ne : (s : String) (d : ℕ) → (append s (digit d) == "") ≡ false
append-digit_ne String.[] d = ap (λ t. t == "") (nil-append (digit d)) ∙ digit_ne d
  where
    digit_ne : (k : ℕ) → (digit k == "") ≡ false
    digit_ne zero = refl
    digit_ne (suc zero) = refl
    digit_ne (suc (suc zero)) = refl
    digit_ne (suc (suc (suc zero))) = refl
    digit_ne (suc (suc (suc (suc zero)))) = refl
    digit_ne (suc (suc (suc (suc (suc zero))))) = refl
    digit_ne (suc (suc (suc (suc (suc (suc zero)))))) = refl
    digit_ne (suc (suc (suc (suc (suc (suc (suc zero))))))) = refl
    digit_ne (suc (suc (suc (suc (suc (suc (suc (suc zero)))))))) = refl
    digit_ne (suc (suc (suc (suc (suc (suc (suc (suc (suc k))))))))) = refl
append-digit_ne (String.◌∷◌ c s) d =
    ap (λ t. t == "") (cons-append c s (digit d)) ∙ cons-ne-nil c (append s (digit d))

pub decimal-ne-nil : (n : ℕ) → (decimal n == "") ≡ false
unfolding decimal decimal_from
decimal-ne-nil n = elim (Bool-cases (ltb n 10)) [
  | inl small ↦
      rw (small, decimal_from)
        (ap (λ t. t == "") (sym (nil-append (digit n))) ∙ append-digit_ne "" n)
  | inr large ↦ rw (large, decimal_from) (append-digit_ne (decimal_from n (n / 10)) (n % 10))
]

-- The digits at the front of a text, read as a number after `acc`.
unfoldable pub number_prefix : ℕ → String → ℕ
number_prefix acc String.[] = acc
number_prefix acc (String.◌∷◌ c s) =
    if leb 48 (code c) && leb (code c) 57 then number_prefix (acc * 10 + (code c - 48)) s else acc

pub single-append : (c : Char) (t : String) → append (String.◌∷◌ c String.[]) t ≡ String.◌∷◌ c t
single-append c t = cons-append c String.[] t ∙ ap (String.◌∷◌ c) (nil-append t)

number_prefix-digit :
    (acc d : ℕ) (t : String)
    → d < 10
    → number_prefix acc (append (digit d) t) ≡ number_prefix (acc * 10 + d) t
unfolding number_prefix
number_prefix-digit acc zero t h = ap (number_prefix acc) (single-append "0" t)
number_prefix-digit acc (suc zero) t h = ap (number_prefix acc) (single-append "1" t)
number_prefix-digit acc (suc (suc zero)) t h = ap (number_prefix acc) (single-append "2" t)
number_prefix-digit acc (suc (suc (suc zero))) t h = ap (number_prefix acc) (single-append "3" t)
number_prefix-digit acc (suc (suc (suc (suc zero)))) t h =
    ap (number_prefix acc) (single-append "4" t)
number_prefix-digit acc (suc (suc (suc (suc (suc zero))))) t h =
    ap (number_prefix acc) (single-append "5" t)
number_prefix-digit acc (suc (suc (suc (suc (suc (suc zero)))))) t h =
    ap (number_prefix acc) (single-append "6" t)
number_prefix-digit acc (suc (suc (suc (suc (suc (suc (suc zero))))))) t h =
    ap (number_prefix acc) (single-append "7" t)
number_prefix-digit acc (suc (suc (suc (suc (suc (suc (suc (suc zero)))))))) t h =
    ap (number_prefix acc) (single-append "8" t)
number_prefix-digit acc (suc (suc (suc (suc (suc (suc (suc (suc (suc zero))))))))) t h =
    ap (number_prefix acc) (single-append "9" t)
number_prefix-digit acc (suc (suc (suc (suc (suc (suc (suc (suc (suc (suc d)))))))))) t h =
    absurd (omega arith)

-- Reading back what was printed.
number_prefix-decimal_from :
    (fuel n : ℕ) (t : String)
    → n < fuel
    → number_prefix 0 (append (decimal_from fuel n) t) ≡ number_prefix n t
unfolding decimal_from
number_prefix-decimal_from zero n t h = absurd (omega arith)
number_prefix-decimal_from (suc fuel) n t h = elim (Bool-cases (ltb n 10)) [
  | inl small ↦
      rw (small, decimal_from)
        (number_prefix-digit 0 n t (ltb→lt n 10 small) ∙ ap (λ k. number_prefix k t) (omega arith))
  | inr large ↦
      rw (large, decimal_from)
        (ap (number_prefix 0) (text_assoc (decimal_from fuel (n / 10)) (digit (n % 10)) t)
          ∙ number_prefix-decimal_from fuel (n / 10) (append (digit (n % 10)) t) (ground arith)
          ∙ number_prefix-digit (n / 10) (n % 10) t (omega arith)
          ∙ ap (λ k. number_prefix k t) (omega arith))
]

pub number_prefix-decimal :
    (n : ℕ) (t : String) → number_prefix 0 (append (decimal n) t) ≡ number_prefix n t
unfolding decimal
number_prefix-decimal n t = number_prefix-decimal_from (suc n) n t (omega arith)

-- A number that is followed by a point can be read off the text.
pub decimal_point-injective :
    (m n : ℕ) (s t : String)
    → append (decimal m) (append "." s) ≡ append (decimal n) (append "." t)
    → m ≡ n
unfolding number_prefix
decimal_point-injective m n s t e = sym (ends m s) ∙ ap (number_prefix 0) e ∙ ends n t
  where
    ends : (k : ℕ) (u : String) → number_prefix 0 (append (decimal k) (append "." u)) ≡ k
    ends k u = number_prefix-decimal k (append "." u) ∙ ap (number_prefix k) (single-append "." u)

-- Two numbers with the same text are the same.
pub decimal-injective : (m n : ℕ) → decimal m ≡ decimal n → m ≡ n
unfolding number_prefix
decimal-injective m n e =
    sym (number_prefix-decimal m "")
    ∙ ap (λ s. number_prefix 0 (append s "")) e
    ∙ number_prefix-decimal n ""
