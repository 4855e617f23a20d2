-- ===== src/Prelude/Sort.antt =====
-- `sort.Slice` and `sort.Strings`: the sorted order of a list under a strict linear order, in which
-- the result does not depend on the algorithm nor on the order of the input.
use Prim.Native.String.{String}
use mathlib.Core.Bool.{Bool, true, false}
use mathlib.Core.List.{List, [], ◌∷◌, map}
use mathlib.Core.Logic.{◌↔◌, ◌⊎◌, inl, inr}
use mathlib.Core.Path.{◌≡◌, refl, ap, ◌∙◌}
use native.Mathlib.Omega.{arith}
use smith.Prelude.Lists.{keep_if, Elem}
use smith.Prelude.Tests.{if◌then◌else◌, Bool-cases}
use smith.Prelude.Text.{str_lt_total, str_lt_trans, str_lt, str_lt_irrefl}

pub record LinearOrder {ℓ} {A : Type ℓ} (less : A → A → Bool) : Type ℓ where
  pub irrefl : (a : A) → less a a ≡ false
  pub trans : (a b c : A) → less a b ≡ true → less b c ≡ true → less a c ≡ true
  pub total : (a b : A) → less a b ≡ false → less b a ≡ false → a ≡ b

-- The same items, in another order.
pub data Rearranged {ℓ} {A : Type ℓ} : List A → List A → Type ℓ where
  unmoved : (xs : List A) → Rearranged xs xs
  keep_first : (x : A) {xs ys : List A} → Rearranged xs ys → Rearranged (x ∷ xs) (x ∷ ys)
  swap_two : (x y : A) (xs : List A) → Rearranged (x ∷ y ∷ xs) (y ∷ x ∷ xs)
  chain : {xs ys zs : List A} → Rearranged xs ys → Rearranged ys zs → Rearranged xs zs

module _ {ℓ} {A : Type ℓ} (less : A → A → Bool) where
  pub insert_sorted : A → List A → List A
  insert_sorted a [] = a ∷ []
  insert_sorted a (x ∷ xs) = if less x a then x ∷ insert_sorted a xs else a ∷ x ∷ xs

  unfoldable pub sort : List A → List A
  unfolding insert_sorted
  sort [] = []
  sort (x ∷ xs) = insert_sorted x (sort xs)

abbrev pub AllFalse {ℓ} : {A : Type ℓ} → (A → Bool) → List A → Type 0
AllFalse p [] = Unit
AllFalse p (x ∷ xs) = (p x ≡ false) × AllFalse p xs

-- Every item is below none of those behind it.
abbrev pub IsSorted {ℓ} : {A : Type ℓ} → (A → A → Bool) → List A → Type 0
IsSorted less [] = Unit
IsSorted less (x ∷ xs) = AllFalse (λ y. less y x) xs × IsSorted less xs

abbrev pub sort_strings : List String → List String
sort_strings = sort str_lt

pub str_lt-linear : LinearOrder str_lt
str_lt-linear = record { irrefl = str_lt_irrefl; trans = str_lt_trans; total = str_lt_total }

module _ {A : Type 0} (less : A → A → Bool) where
  Elem-insert_sorted :
      (a b : A) (xs : List A) → Elem a (insert_sorted less b xs) ↔ ((a ≡ b) ⊎ Elem a xs)
  unfolding insert_sorted
  Elem-insert_sorted a b [] = (λ h. h, λ h. h)
  Elem-insert_sorted a b (x ∷ xs) = elim (Bool-cases (less x b)) [
    | inl e ↦
        let ih = Elem-insert_sorted a b xs in
        rw e (
          λ h. elim h [
            | inl p ↦ inr (inl p)
            | inr q ↦ elim (ih.0 q) [ inl p ↦ inl p | inr r ↦ inr (inr r) ]
          ],
          λ h. elim h [
            | inl p ↦ inr (ih.1 (inl p))
            | inr q ↦ elim q [ inl p ↦ inl p | inr r ↦ inr (ih.1 (inr r)) ]
          ],
        )
    | inr e ↦ rw e (λ h. h, λ h. h)
  ]

  -- Sorting keeps the items.
  pub Elem-sort : (a : A) (xs : List A) → Elem a (sort less xs) ↔ Elem a xs
  unfolding sort
  Elem-sort a [] = (λ h. h, λ h. h)
  Elem-sort a (x ∷ xs) =
      let ih = Elem-sort a xs in
      let e = Elem-insert_sorted a x (sort less xs) in
      (
        λ h. elim (e.0 h) [ inl p ↦ inl p | inr q ↦ inr (ih.0 q) ],
        λ h. elim h [ inl p ↦ e.1 (inl p) | inr q ↦ e.1 (inr (ih.1 q)) ],
      )

  module _ (order : LinearOrder less) where
    insert_sorted_comm :
        (a b : A) (xs : List A)
        → insert_sorted less a (insert_sorted less b xs)
          ≡ insert_sorted less b (insert_sorted less a xs)
    unfolding insert_sorted
    insert_sorted_comm a b [] = ground (arith, order.total a b, order.trans a b a, order.irrefl a)
    insert_sorted_comm a b (x ∷ xs) = ground (
      arith,
      order.total a b,
      order.total a x,
      order.total b x,
      order.trans a b a,
      order.irrefl a,
      order.trans x a b,
      order.trans x b a,
      insert_sorted_comm a b xs,
    )

    pub sort-Rearranged : {xs ys : List A} → Rearranged xs ys → sort less xs ≡ sort less ys
    unfolding sort
    sort-Rearranged (unmoved xs) = refl
    sort-Rearranged (keep_first x r) = ap (insert_sorted less x) (sort-Rearranged r)
    sort-Rearranged (swap_two x y xs) = insert_sorted_comm x y (sort less xs)
    sort-Rearranged (chain r s) = sort-Rearranged r ∙ sort-Rearranged s

pub Elem-AllFalse :
    {A : Type 0} (p : A → Bool) (a : A) (xs : List A) → AllFalse p xs → Elem a xs → p a ≡ false
Elem-AllFalse p a [] h m = absurd m
Elem-AllFalse p a (x ∷ xs) h (inl e) = rw e h.0
Elem-AllFalse p a (x ∷ xs) h (inr m) = Elem-AllFalse p a xs h.1 m

module _ {ℓ} {A : Type ℓ} (less : A → A → Bool) (order : LinearOrder less) where
  -- What is not below `x` is not below what stands before `x`.
  less_weaken : (y x a : A) → less x a ≡ false → less y x ≡ false → less y a ≡ false
  less_weaken y x a p q = ground (arith, order.trans y a x, order.total x a)

  AllFalse-weaken :
      (x a : A) (xs : List A)
      → less x a ≡ false
      → AllFalse (λ y. less y x) xs
      → AllFalse (λ y. less y a) xs
  AllFalse-weaken x a [] p h = tt
  AllFalse-weaken x a (y ∷ xs) p h = (less_weaken y x a p h.0, AllFalse-weaken x a xs p h.1)

  AllFalse-insert_sorted :
      (p : A → Bool) (b : A) (xs : List A)
      → p b ≡ false
      → AllFalse p xs
      → AllFalse p (insert_sorted less b xs)
  unfolding insert_sorted
  AllFalse-insert_sorted p b [] e h = (e, tt)
  AllFalse-insert_sorted p b (x ∷ xs) e h = elim (Bool-cases (less x b)) [
    | inl lt ↦ rw lt (h.0, AllFalse-insert_sorted p b xs e h.1)
    | inr ge ↦ rw ge (e, h)
  ]

  insert_sorted-IsSorted :
      (b : A) (xs : List A) → IsSorted less xs → IsSorted less (insert_sorted less b xs)
  unfolding insert_sorted
  insert_sorted-IsSorted b [] h = (tt, tt)
  insert_sorted-IsSorted b (x ∷ xs) h = elim (Bool-cases (less x b)) [
    | inl lt ↦ rw lt (
      AllFalse-insert_sorted (λ y. less y x) b xs
          (ground (arith, order.trans x b x, order.irrefl x)) h.0,
      insert_sorted-IsSorted b xs h.1,
    )
    | inr ge ↦ rw ge ((ge, AllFalse-weaken x b xs ge h.0), h)
  ]

  pub sort-IsSorted : (xs : List A) → IsSorted less (sort less xs)
  unfolding sort
  sort-IsSorted [] = tt
  sort-IsSorted (x ∷ xs) = insert_sorted-IsSorted x (sort less xs) (sort-IsSorted xs)

module _ {A : Type 0} (less : A → A → Bool) (order : LinearOrder less) where
  -- The first of the sorted items is one of the items, and none is below it.
  pub sort_first :
      (xs : List A) {h : A} {t : List A}
      → sort less xs ≡ h ∷ t
      → Elem h xs × ((a : A) → Elem a xs → less a h ≡ false)
  sort_first xs {h} {t} e = (
    (Elem-sort less h xs).0 (rw e (inl refl)),
    λ a m. first_min a (rw e at (Elem-sort less a xs).1 m) (rw e at (sort-IsSorted less order xs)),
  )
    where
      first_min : (a : A) → Elem a (h ∷ t) → IsSorted less (h ∷ t) → less a h ≡ false
      first_min a (inl p) s = rw p (order.irrefl h)
      first_min a (inr m) s = Elem-AllFalse (λ y. less y h) a t s.0 m

  pub sort-eq-nil : (xs : List A) → sort less xs ≡ [] → xs ≡ []
  unfolding sort insert_sorted
  sort-eq-nil [] e = refl
  sort-eq-nil (x ∷ xs) e = absurd (rw e at (Elem-sort less x (x ∷ xs)).1 (inl refl))

module _ {ℓ κ} {A : Type ℓ} {B : Type κ} where
  pub map-Rearranged :
      (f : A → B) {xs ys : List A} → Rearranged xs ys → Rearranged (map f xs) (map f ys)
  map-Rearranged f (unmoved xs) = unmoved (map f xs)
  map-Rearranged f (keep_first x r) = keep_first (f x) (map-Rearranged f r)
  map-Rearranged f (swap_two x y xs) = swap_two (f x) (f y) (map f xs)
  map-Rearranged f (chain r s) = chain (map-Rearranged f r) (map-Rearranged f s)

module _ {ℓ} {A : Type ℓ} (p : A → Bool) where
  pub keep_if-Rearranged :
      {xs ys : List A} → Rearranged xs ys → Rearranged (keep_if p xs) (keep_if p ys)
  unfolding keep_if
  keep_if-Rearranged (unmoved xs) = unmoved (keep_if p xs)
  keep_if-Rearranged (keep_first x {xs} {ys} r) = keep_skip (p x) (keep_if-Rearranged r)
    where
      keep_skip :
          (b : Bool)
          → Rearranged (keep_if p xs) (keep_if p ys)
          → Rearranged
              (if b then x ∷ keep_if p xs else keep_if p xs)
              (if b then x ∷ keep_if p ys else keep_if p ys)
      keep_skip true s = keep_first x s
      keep_skip false s = s
  keep_if-Rearranged (swap_two x y xs) = keep_swap (p x) (p y)
    where
      keep_swap :
          (b c : Bool)
          → Rearranged
              (if b
                then x ∷ (if c then y ∷ keep_if p xs else keep_if p xs)
                else (if c then y ∷ keep_if p xs else keep_if p xs))
              (if c
                then y ∷ (if b then x ∷ keep_if p xs else keep_if p xs)
                else (if b then x ∷ keep_if p xs else keep_if p xs))
      keep_swap true true = swap_two x y (keep_if p xs)
      keep_swap true false = unmoved _
      keep_swap false c = unmoved _
  keep_if-Rearranged (chain r s) = chain (keep_if-Rearranged r) (keep_if-Rearranged s)
