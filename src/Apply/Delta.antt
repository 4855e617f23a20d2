-- ===== src/Apply/Delta.antt =====
-- internal/apply/apply.go: `delta`, what to create, to delete, and what is in sync.
use smith.Prelude.Names.{Elem-contains, contains, contains-Elem}
use smith.Prelude.Sort.{Elem-sort, IsSorted, sort-IsSorted, str_lt-linear, sort_strings}
use smith.Prelude.Text.{str_lt}
use smith.Prelude.{
  String, ◌≡◌, refl, ◌↔◌, inl, inr, Bool, true, not, List, arith, Elem, Elem-keep_if, keep_if,
  Bool-cases,
}

-- the loops over the desired and over the live keys
unfoldable pub delta : List String → List String → List String × List String × List String
unfolding keep_if
delta desired live = (
  sort_strings (keep_if (λ k. not (contains live k)) desired),
  sort_strings (keep_if (λ k. not (contains desired k)) live),
  sort_strings (keep_if (contains live) desired),
)

module _ (desired live : List String) where
  abbrev pub to_create : List String
  to_create = (delta desired live).0

  abbrev pub to_delete : List String
  to_delete = (delta desired live).1

  abbrev pub in_sync : List String
  in_sync = (delta desired live).2

  absent_key : (ks : List String) (k : String) → (not (contains ks k) ≡ true) ↔ ¬ Elem k ks
  absent_key ks k = (
    (λ h m. ground (arith, Elem-contains ks k m)),
    (λ h. elim (Bool-cases (contains ks k)) [
      | inl held ↦ absurd (h (contains-Elem ks k held))
      | inr free ↦ rw free refl
    ]),
  )

  Elem-sorted_keys :
      (test : String → Bool) (ks : List String) (k : String)
      → Elem k (sort_strings (keep_if test ks)) ↔ (Elem k ks × (test k ≡ true))
  Elem-sorted_keys test ks k = (
    (λ m. (Elem-keep_if test k ks).0 ((Elem-sort str_lt k (keep_if test ks)).0 m)),
    (λ h. (Elem-sort str_lt k (keep_if test ks)).1 ((Elem-keep_if test k ks).1 h)),
  )

  Elem-absent :
      (others ks : List String) (k : String)
      → Elem k (sort_strings (keep_if (λ j. not (contains others j)) ks))
        ↔ (Elem k ks × ¬ Elem k others)
  Elem-absent others ks k = (
    (λ m.
        let (held, free) = (Elem-sorted_keys (λ j. not (contains others j)) ks k).0 m in
        (held, (absent_key others k).0 free)),
    (λ h.
        (Elem-sorted_keys (λ j. not (contains others j)) ks k).1
          (h.0, (absent_key others k).1 h.1)),
  )

  -- What is to be created is exactly what is desired and not live, what is to be deleted is exactly
  -- what is live and not desired, what is in sync is exactly what is both, and each of the three is sorted.
  pub delta_lem :
      (k : String)
      → (Elem k to_create ↔ (Elem k desired × ¬ Elem k live))
        × (Elem k to_delete ↔ (Elem k live × ¬ Elem k desired))
        × (Elem k in_sync ↔ (Elem k desired × Elem k live))
        × IsSorted str_lt to_create
        × IsSorted str_lt to_delete
        × IsSorted str_lt in_sync
  unfolding delta
  delta_lem k = (
    Elem-absent live desired k,
    Elem-absent desired live k,
    (
      (λ m.
          let (held, both) = (Elem-sorted_keys (contains live) desired k).0 m in
          (held, contains-Elem live k both)),
      (λ h. (Elem-sorted_keys (contains live) desired k).1 (h.0, Elem-contains live k h.1)),
    ),
    sort-IsSorted str_lt str_lt-linear _,
    sort-IsSorted str_lt str_lt-linear _,
    sort-IsSorted str_lt str_lt-linear _,
  )
