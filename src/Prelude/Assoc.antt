-- ===== src/Prelude/Assoc.antt =====
-- A Go map with string keys, as an association list. Its order stands for the order in which a
-- `range` over the map visits the entries: what is proved for every list holds for every order.
use Prim.Native.String.{String}
use mathlib.Core.Bool.{Bool, true, false}
use mathlib.Core.List.{List, [], ◌∷◌, ◌++◌, map}
use mathlib.Core.Logic.{◌≢◌, ◌⊎◌, inl, inr}
use mathlib.Core.Option.{Option, none, some}
use mathlib.Core.Path.{◌≡◌, refl, sym, ap, ◌∙◌}
use native.Mathlib.Omega.{arith}
use smith.Prelude.Lists.{Elem}
use smith.Prelude.Tests.{if◌then◌else◌, Bool-cases, true-false, Option-cases}
use smith.Prelude.Text.{◌==◌, eq_iff, eq_refl}

module _ {ℓ} {V : Type ℓ} where
  -- `m[key] = value`
  unfoldable pub insert : String → V → List (String × V) → List (String × V)
  insert key value [] = (key, value) ∷ []
  insert key value ((name, old) ∷ entries) =
      if name == key then (key, value) ∷ entries else (name, old) ∷ insert key value entries

  -- `m[key]`
  unfoldable pub lookup : String → List (String × V) → Option V
  lookup key [] = none
  lookup key ((name, value) ∷ entries) = if name == key then some value else lookup key entries

  -- `delete(m, k)`
  unfoldable pub delete : String → List (String × V) → List (String × V)
  delete k [] = []
  delete k ((j, w) ∷ m) = let rest = delete k m in if j == k then rest else (j, w) ∷ rest

  -- `m[k]` where the zero value stands for a missing key
  unfoldable pub lookup_or : V → String → List (String × V) → V
  unfolding lookup
  lookup_or d k m = elim (lookup k m) [ none ↦ d | some v ↦ v ]

  pub lookup-insert :
      (key asked : String) (value : V) (entries : List (String × V))
      → lookup asked (insert key value entries)
        ≡ (if key == asked then some value else lookup asked entries)
  unfolding insert lookup
  lookup-insert key asked value [] = refl
  lookup-insert key asked value ((name, old) ∷ entries) = ground (
    arith,
    lookup-insert key asked value entries,
    eq_iff name asked,
    eq_iff name key,
    eq_iff key asked,
  )

  pub lookup-delete :
      (k j : String) (m : List (String × V))
      → lookup j (delete k m) ≡ (if k == j then none else lookup j m)
  unfolding lookup delete
  lookup-delete k j [] = ground arith
  lookup-delete k j ((i, w) ∷ m) =
      ground (arith, eq_iff k j, eq_iff i k, eq_iff i j, lookup-delete k j m)

  pub lookup-insert_self :
      (k : String) (v : V) (m : List (String × V)) → lookup k (insert k v m) ≡ some v
  lookup-insert_self k v m = simp (lookup-insert, eq_refl)

  pub lookup-delete_self : (k : String) (m : List (String × V)) → lookup k (delete k m) ≡ none
  lookup-delete_self k m = simp (lookup-delete, eq_refl)

  pub delete_absent : (k : String) (m : List (String × V)) → lookup k m ≡ none → delete k m ≡ m
  unfolding lookup delete
  delete_absent k [] h = refl
  delete_absent k ((i, w) ∷ m) h = ground (arith, delete_absent k m)

  -- A new key is added at the end.
  pub insert_absent :
      (k : String) (v : V) (m : List (String × V))
      → lookup k m ≡ none
      → insert k v m ≡ m ++ ((k, v) ∷ [])
  unfolding lookup insert
  insert_absent k v [] h = refl
  insert_absent k v ((i, w) ∷ m) h = ground (arith, insert_absent k v m)

abbrev pub keys {ℓ} : {V : Type ℓ} → List (String × V) → List String
keys [] = []
keys ((k, v) ∷ m) = k ∷ keys m

-- What is found is one of the values.
pub Elem-lookup :
    {V : Type 0} (k : String) (v : V) (m : List (String × V))
    → lookup k m ≡ some v
    → Elem v (map (λ e. e.1) m)
unfolding lookup
Elem-lookup k v [] h = cc
Elem-lookup k v ((j, w) ∷ m) h = elim (Bool-cases (j == k)) [
  | inl e ↦ inl (ground arith)
  | inr e ↦ inr (Elem-lookup k v m (ground arith))
]

-- Whether a key has an entry: `_, ok := m[k]`.
abbrev pub is_some {ℓ} : {A : Type ℓ} → Option A → Bool
is_some none = false
is_some (some _) = true

abbrev pub has {ℓ} : {V : Type ℓ} → String → List (String × V) → Bool
has k m = is_some (lookup k m)

-- No key has two entries, as in a map.
abbrev pub Distinct {ℓ} : {V : Type ℓ} → List (String × V) → Type ℓ
Distinct [] = Unit
Distinct ((k, v) ∷ m) = (lookup k m ≡ none) × Distinct m

module _ {ℓ} {V : Type ℓ} where
  pub has-insert :
      (k j : String) (v : V) (m : List (String × V))
      → has j (insert k v m) ≡ (if k == j then true else has j m)
  has-insert k j v m = rw lookup-insert (ground arith)

  pub has-delete :
      (k j : String) (m : List (String × V))
      → has j (delete k m) ≡ (if k == j then false else has j m)
  has-delete k j m = rw lookup-delete (ground arith)

  pub insert-Distinct :
      (k : String) (v : V) (m : List (String × V)) → Distinct m → Distinct (insert k v m)
  unfolding insert lookup
  insert-Distinct k v [] h = (refl, tt)
  insert-Distinct k v ((j, w) ∷ m) h = elim (Bool-cases (j == k)) [
    | inl e ↦ rw e (rw ((eq_iff j k).0 e) at h.0, h.1)
    | inr e ↦ rw e (
      ground (arith, lookup-insert k j v m, eq_iff k j, eq_iff j k, h.0),
      insert-Distinct k v m h.1,
    )
  ]

  pub delete-Distinct : (k : String) (m : List (String × V)) → Distinct m → Distinct (delete k m)
  unfolding delete lookup
  delete-Distinct k [] h = tt
  delete-Distinct k ((j, w) ∷ m) h = elim (Bool-cases (j == k)) [
    | inl e ↦ rw e (delete-Distinct k m h.1)
    | inr e ↦ rw e (ground (arith, lookup-delete k j m, h.0), delete-Distinct k m h.1)
  ]

-- In a map each entry is what its key finds.
pub lookup_entry :
    {V : Type 0} (k : String) (v : V) (m : List (String × V)) → lookup k m ≡ some v → Elem (k, v) m
unfolding lookup
lookup_entry k v [] h = cc
lookup_entry k v ((j, w) ∷ m) h = elim (Bool-cases (j == k)) [
  | inl here ↦ inl (ground (arith, here, eq_iff j k))
  | inr there ↦ inr (lookup_entry k v m (rw (there, lookup) at h))
]

pub lookup-Elem :
    {V : Type 0} (k : String) (v : V) (m : List (String × V))
    → Distinct m
    → Elem (k, v) m
    → lookup k m ≡ some v
unfolding lookup
lookup-Elem k v [] d h = absurd h
lookup-Elem k v ((j, w) ∷ m) d (inl e) =
    ground (arith, eq_iff j k, ap (λ x. x.0) e, ap (λ x. x.1) e)
lookup-Elem k v ((j, w) ∷ m) d (inr i) = ground (arith, eq_iff j k, lookup-Elem k v m d.1 i, d.0)

module _ {ℓ} {V : Type ℓ} where
  pub lookup_or-insert :
      (d : V) (k j : String) (v : V) (m : List (String × V))
      → lookup_or d j (insert k v m) ≡ (if k == j then v else lookup_or d j m)
  unfolding lookup_or
  lookup_or-insert d k j v m = ground (arith, lookup-insert k j v m)

  pub lookup_or-insert_self :
      (d : V) (k : String) (v : V) (m : List (String × V)) → lookup_or d k (insert k v m) ≡ v
  lookup_or-insert_self d k v m = simp (lookup_or-insert, eq_refl)

pub none_of_has {ℓ} :
    {V : Type ℓ} (k : String) (m : List (String × V)) → has k m ≡ false → lookup k m ≡ none
none_of_has k m h = elim (Option-cases (lookup k m)) [
  | inl e ↦ e
  | inr (v, e) ↦ absurd (true-false (ap is_some (sym e) ∙ h))
]

pub lookup_or-delete {ℓ} :
    {V : Type ℓ} (d : V) (k j : String) (m : List (String × V))
    → lookup_or d j (delete k m) ≡ (if k == j then d else lookup_or d j m)
unfolding lookup_or
lookup_or-delete d k j m = ground (arith, lookup-delete k j m)

module _ {ℓ} {V : Type ℓ} where
  pub keys-insert_held :
      (k : String) (v : V) (m : List (String × V)) → has k m ≡ true → keys (insert k v m) ≡ keys m
  unfolding insert lookup
  keys-insert_held k v [] h = absurd (false_true h)
    where
      false_true : false ≡ true → ⊥
      false_true e = cc
  keys-insert_held k v ((j, w) ∷ m) h = ground (arith, keys-insert_held k v m, eq_iff j k)

  pub has_of_key : (k : String) (m : List (String × V)) → Elem k (keys m) → has k m ≡ true
  unfolding lookup
  has_of_key k [] h = absurd h
  has_of_key k ((j, w) ∷ m) (inl e) = ground (arith, eq_iff j k)
  has_of_key k ((j, w) ∷ m) (inr i) = ground (arith, has_of_key k m i)

pub lookup_or_found {ℓ} :
    {V : Type ℓ} (d : V) (k : String) (v : V) (m : List (String × V))
    → lookup k m ≡ some v
    → lookup_or d k m ≡ v
unfolding lookup_or
lookup_or_found d k v m e = ground arith

-- What is found after a write is the new entry or an old one.
pub insert_cases {ℓ} :
    {V : Type ℓ} (k j : String) (v : V) (m : List (String × V)) {w : V}
    → lookup j (insert k v m) ≡ some w
    → ((k ≡ j) × (v ≡ w)) ⊎ ((k ≢ j) × (lookup j m ≡ some w))
insert_cases k j v m h = elim (Bool-cases (k == j)) [
  | inl here ↦ inl ((eq_iff k j).0 here, ground (arith, here, lookup-insert k j v m))
  | inr there ↦
      inr ((λ e. ground (arith, there, eq_iff k j)), ground (arith, there, lookup-insert k j v m))
]

pub delete_cases {ℓ} :
    {V : Type ℓ} (k j : String) (m : List (String × V)) {w : V}
    → lookup j (delete k m) ≡ some w
    → lookup j m ≡ some w
delete_cases k j m h = ground (arith, lookup-delete k j m)
