-- ===== src/Prelude/Lists.antt =====
-- Lists measured by native numbers, and a predicate on all items of a list.
use Prim.Native.Nat.{ℕ, suc, ◌+◌}
use mathlib.Core.Bool.{Bool, true}
use mathlib.Core.List.{List, [], ◌∷◌, ◌++◌, map}
use mathlib.Core.Logic.{◌↔◌, ◌⊎◌, inl, inr}
use mathlib.Core.Option.{Option, none, some}
use mathlib.Core.Path.{◌≡◌, refl, sym, ap, ◌∙◌, subst}
use native.Mathlib.Omega.{arith}
use smith.Prelude.Tests.{if◌then◌else◌, Bool-cases, true-false, Option-cases}

module _ {ℓ} {A : Type ℓ} where
  abbrev pub length : List A → ℕ
  length [] = 0
  length (x ∷ xs) = suc (length xs)

  pub length-append : (xs ys : List A) → length (xs ++ ys) ≡ length xs + length ys
  length-append [] ys = omega arith
  length-append (x ∷ xs) ys = omega (arith, length-append xs ys)

-- The items that pass a test.
unfoldable pub keep_if {ℓ} : {A : Type ℓ} → (A → Bool) → List A → List A
keep_if p [] = []
keep_if p (x ∷ xs) = let rest = keep_if p xs in if p x then x ∷ rest else rest

abbrev pub All {ℓ κ} : {A : Type ℓ} → (A → Type κ) → List A → Type κ
All P [] = Unit
All P (x ∷ xs) = P x × All P xs

-- Membership, by recursion, so that the tactics read it.
abbrev pub Elem : {A : Type 0} → A → List A → Type 0
Elem a [] = ⊥
Elem a (x ∷ xs) = (a ≡ x) ⊎ Elem a xs

module _ {A : Type 0} (p : A → Bool) where
  pub Elem-keep_if : (a : A) (xs : List A) → Elem a (keep_if p xs) ↔ (Elem a xs × (p a ≡ true))
  unfolding keep_if
  Elem-keep_if a [] = (λ h. absurd h, λ h. h.0)
  Elem-keep_if a (x ∷ xs) = elim (Bool-cases (p x)) [
    | inl e ↦ rw e (
      λ h. elim h [
        | inl q ↦ (inl q, rw q e)
        | inr m ↦ (inr ((Elem-keep_if a xs).0 m).0, ((Elem-keep_if a xs).0 m).1)
      ],
      λ h. elim h.0 [ inl q ↦ inl q | inr m ↦ inr ((Elem-keep_if a xs).1 (m, h.1)) ],
    )
    | inr e ↦ rw e (
      λ h. (inr ((Elem-keep_if a xs).0 h).0, ((Elem-keep_if a xs).0 h).1),
      λ h. elim h.0 [
        | inl q ↦ absurd (true-false (sym h.1 ∙ ap p q ∙ e))
        | inr m ↦ (Elem-keep_if a xs).1 (m, h.1)
      ],
    )
  ]

  pub All-keep_if : (xs : List A) → All (λ a. p a ≡ true) (keep_if p xs)
  unfolding keep_if
  All-keep_if [] = tt
  All-keep_if (x ∷ xs) = elim (Bool-cases (p x)) [
    | inl e ↦ rw e (e, All-keep_if xs)
    | inr e ↦ rw e (All-keep_if xs)
  ]

pub Elem-map : {A B : Type 0} (f : A → B) (a : A) (xs : List A) → Elem a xs → Elem (f a) (map f xs)
Elem-map f a [] h = absurd h
Elem-map f a (x ∷ xs) (inl e) = inl (ap f e)
Elem-map f a (x ∷ xs) (inr m) = inr (Elem-map f a xs m)

pub All-Elem {ℓ} : {A : Type 0} (P : A → Type ℓ) (a : A) (xs : List A) → All P xs → Elem a xs → P a
All-Elem P a [] h m = absurd m
All-Elem P a (x ∷ xs) h (inl e) = subst P (sym e) h.0
All-Elem P a (x ∷ xs) h (inr m) = All-Elem P a xs h.1 m

-- What stands in the image of a list.
pub Elem-map_inv :
    {A B : Type 0} (f : A → B) (b : B) (xs : List A)
    → Elem b (map f xs)
    → (a : A) × Elem a xs × (b ≡ f a)
Elem-map_inv f b [] h = absurd h
Elem-map_inv f b (x ∷ xs) (inl e) = (x, inl refl, e)
Elem-map_inv f b (x ∷ xs) (inr m) = let (a, i, e) = Elem-map_inv f b xs m in (a, inr i, e)

pub All-intro {ℓ} :
    {A : Type 0} {P : A → Type ℓ} (xs : List A) → ((a : A) → Elem a xs → P a) → All P xs
All-intro [] h = tt
All-intro (x ∷ xs) h = (h x (inl refl), All-intro xs (λ a i. h a (inr i)))

pub Elem-append : {A : Type 0} (a : A) (xs ys : List A) → Elem a (xs ++ ys) → Elem a xs ⊎ Elem a ys
Elem-append a [] ys m = inr m
Elem-append a (x ∷ xs) ys (inl here) = inl (inl here)
Elem-append a (x ∷ xs) ys (inr there) = elim (Elem-append a xs ys there) [
  | inl front ↦ inl (inr front)
  | inr back ↦ inr back
]

-- A loop that appends at most one item for each item.
unfoldable pub collect {ℓ κ} : {A : Type ℓ} {B : Type κ} → (A → Option B) → List A → List B
collect f [] = []
collect f (x ∷ xs) = let rest = collect f xs in elim (f x) [ none ↦ rest | some y ↦ y ∷ rest ]

module _ {A B : Type 0} (f : A → Option B) (b : B) where
  pub Elem-collect : (xs : List A) → Elem b (collect f xs) ↔ ((a : A) × Elem a xs × (f a ≡ some b))
  unfolding collect
  Elem-collect [] = ((λ m. absurd m), (λ h. absurd h.1))
  Elem-collect (x ∷ xs) = elim (Option-cases (f x)) [
    | inl skipped ↦ (
      (λ m.
          let (a, member, e) = (Elem-collect xs).0 (rw (skipped, collect) at m) in
          (a, inr member, e)),
      (λ h. elim h.1 [
        | inl here ↦ let kept : f x ≡ some b = rw here at h.2 in ground (arith, skipped, kept)
        | inr there ↦ rw (skipped, collect) ((Elem-collect xs).1 (h.0, there, h.2))
      ]),
    )
    | inr (y, kept) ↦ (
      (λ m. elim (rw (kept, collect) at m) [
        | inl here ↦ (x, inl refl, rw here kept)
        | inr there ↦ let (a, member, e) = (Elem-collect xs).0 there in (a, inr member, e)
      ]),
      (λ h. elim h.1 [
        | inl here ↦
            let same : f x ≡ some b = rw here at h.2 in
            rw (kept, collect) (inl (ground (arith, kept, same)))
        | inr there ↦ rw (kept, collect) (inr ((Elem-collect xs).1 (h.0, there, h.2)))
      ]),
    )
  ]
