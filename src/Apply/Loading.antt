-- ===== src/Apply/Loading.antt =====
-- What the loading of internal/apply/apply.go guarantees.
use text.Mathlib.TextBridge.{IsSuffix}
use text.Mathlib.TextLemmas.{nil-append, cons-append}
use smith.Apply.{
  manifest_files, Files, Bundle, merge_env, is_manifest, has_suffix, load_files, manifests_in,
  load_bundle, load_bundles,
}
use smith.Manifest.{resolve, App, is_empty}
use smith.Prelude.Assoc.{lookup-insert, insert, Distinct, lookup}
use smith.Prelude.Sort.{IsSorted, Elem-sort, str_lt-linear, sort-IsSorted, sort_strings}
use smith.Prelude.Text.{str_lt, append, ◌==◌, eq_iff, eq_refl}
use smith.Prelude.{
  String, ◌≡◌, refl, sym, ap, ◌∙◌, ◌≢◌, ◌↔◌, inl, inr, Bool, true, false, Option, none, some, List,
  [], ◌∷◌, map, arith, All, Elem, ok_injective, bind_passed, true-false, Result-cases, Bool-cases,
  refuse_if_passed, ok, Option-cases,
}

abbrev pub or_else {ℓ} : {A : Type ℓ} → Option A → Option A → Option A
or_else none b = b
or_else (some a) b = some a

-- Merging an overlay gives each variable of the overlay its value there, and leaves every other one.
pub merge_env_lem :
    (overlay env : List (String × String)) (k : String)
    → Distinct overlay
    → lookup k (merge_env overlay env) ≡ or_else (lookup k overlay) (lookup k env)
unfolding merge_env lookup
merge_env_lem [] env k d = refl
merge_env_lem ((j, v) ∷ overlay) env k d =
    merge_env_lem overlay (insert j v env) k d.1
    ∙ ground (arith, d.0, eq_iff j k, lookup-insert j k v env)

has_suffix_sound : (end s : String) → has_suffix end s ≡ true → IsSuffix end s
unfolding has_suffix
has_suffix_sound end String.[] h = ("", nil-append end ∙ sym ((eq_iff "" end).0 h))
has_suffix_sound end (String.◌∷◌ c s) h = elim (Bool-cases (String.◌∷◌ c s == end)) [
  | inl whole ↦ ("", nil-append end ∙ sym ((eq_iff (String.◌∷◌ c s) end).0 whole))
  | inr longer ↦
      let (u, same) = has_suffix_sound end s (rw longer at h) in
      (String.◌∷◌ c u, cons-append c u end ∙ ap (λ t. String.◌∷◌ c t) same)
]

has_suffix_whole : (end : String) → has_suffix end end ≡ true
unfolding has_suffix
has_suffix_whole String.[] = refl
has_suffix_whole (String.◌∷◌ c s) = rw (eq_refl (String.◌∷◌ c s)) refl

has_suffix_complete : (end u : String) → has_suffix end (append u end) ≡ true
unfolding has_suffix
has_suffix_complete end String.[] = rw (nil-append end) (has_suffix_whole end)
has_suffix_complete end (String.◌∷◌ c u) =
    rw (cons-append c u end) (elim (Bool-cases (String.◌∷◌ c (append u end) == end)) [
      | inl whole ↦ rw whole refl
      | inr longer ↦ rw longer (has_suffix_complete end u)
    ])

has_suffix_iff : (end s : String) → (has_suffix end s ≡ true) ↔ IsSuffix end s
has_suffix_iff end s =
    (has_suffix_sound end s, (λ (u, same). rw (← same) (has_suffix_complete end u)))

-- a file of the directory that ends in .yaml and not in .sops.yaml, by its path
abbrev pub IsManifest : String → List (String × Bool) → String → Type 0
IsManifest dir entries path =
    (name : String) × Elem (name, false) entries
    × IsSuffix ".yaml" name
    × (IsSuffix ".sops.yaml" name → ⊥)
    × (path ≡ append dir (append "/" name))

is_manifest_iff :
    (name : String)
    → (is_manifest name ≡ true) ↔ (IsSuffix ".yaml" name × (IsSuffix ".sops.yaml" name → ⊥))
unfolding is_manifest
is_manifest_iff name =
    let (yaml, yaml') = has_suffix_iff ".yaml" name in
    let (sops, sops') = has_suffix_iff ".sops.yaml" name in
    (
      (λ h. (
        yaml (ground (arith, h)),
        (λ s. absurd (true-false (sym (sops' s) ∙ ground (arith, h)))),
      )),
      (λ (a, b). elim (Bool-cases (has_suffix ".sops.yaml" name)) [
        | inl bad ↦ absurd (b (sops bad))
        | inr fine ↦ rw (yaml' a) (rw fine refl)
      ]),
    )

manifests_in-IsManifest :
    (dir : String) (entries : List (String × Bool)) (path : String)
    → Elem path (manifests_in dir entries) ↔ IsManifest dir entries path
unfolding manifests_in
manifests_in-IsManifest dir [] path = ((λ m. absurd m), (λ (n, m, a, b, e). absurd m))
manifests_in-IsManifest dir ((name, true) ∷ rest) path =
    let (to, from) = manifests_in-IsManifest dir rest path in
    (
      (λ m. let (n, there, a, b, e) = to m in (n, inr there, a, b, e)),
      (λ (n, m, a, b, e). elim m [
        | inl here ↦ absurd (true-false (sym (ap (λ x. x.1) here)))
        | inr there ↦ from (n, there, a, b, e)
      ]),
    )
manifests_in-IsManifest dir ((name, false) ∷ rest) path =
    let (to, from) = manifests_in-IsManifest dir rest path in
    elim (Bool-cases (is_manifest name)) [
      | inl good ↦
          let (a0, b0) = (is_manifest_iff name).0 good in
          rw good (
            (λ m. elim m [
              | inl here ↦ (name, inl refl, a0, b0, here)
              | inr later ↦ let (n, there, a, b, e) = to later in (n, inr there, a, b, e)
            ]),
            (λ (n, m, a, b, e). elim m [
              | inl here ↦ inl (e ∙ ap (λ (x : String × Bool). append dir (append "/" x.0)) here)
              | inr there ↦ inr (from (n, there, a, b, e))
            ]),
          )
      | inr bad ↦ rw bad (
        (λ m. let (n, there, a, b, e) = to m in (n, inr there, a, b, e)),
        (λ (n, m, a, b, e). elim m [
          | inl here ↦ absurd (
              true-false (
                sym ((is_manifest_iff n).1 (a, b))
                ∙ ap (λ (x : String × Bool). is_manifest x.0) here
                ∙ bad))
          | inr there ↦ from (n, there, a, b, e)
        ]),
      )
    ]

-- where a bundle comes from
pub record IsLoaded (fs : Files) (b : Bundle) : Type 0 where
  pub text : String
  pub app : App
  pub read : fs.contents b.file ≡ some text
  pub parsed : fs.parse text ≡ some app
  pub resolved : resolve app ≡ ok b.res

module _ (fs : Files) where
  load_bundle-IsLoaded :
      (file : String) {b : Bundle} → load_bundle fs file ≡ ok b → (b.file ≡ file) × IsLoaded fs b
  unfolding load_bundle
  load_bundle-IsLoaded file {b} h = elim (Option-cases (fs.contents file)) [
    | inl unread ↦ ground (arith, unread)
    | inr (text, read) ↦ elim (Option-cases (fs.parse text)) [
      | inl broken ↦ ground (arith, read, broken)
      | inr (app, parsed) ↦ elim (Result-cases (resolve app)) [
        | inl (e, invalid) ↦ ground (arith, read, parsed, invalid)
        | inr (res, resolved) ↦
            let built : ◌≡◌ {A = Bundle} (record { file = file; res = res; overlay_keys = [] }) b =
              ok_injective (rw (read, parsed, resolved, load_bundle) at h) in
            rw (← built) (
              refl,
              record { text = text; app = app; read = read; parsed = parsed; resolved = resolved },
            )
      ]
    ]
  ]

  load_files-IsLoaded :
      (files : List String) {bundles : List Bundle}
      → load_files fs files ≡ ok bundles
      → (map (λ b. b.file) bundles ≡ files) × All (IsLoaded fs) bundles
  unfolding load_files
  load_files-IsLoaded [] {bundles} h = rw (← ok_injective h) (refl, tt)
  load_files-IsLoaded (file ∷ files) {bundles} h =
      let (b, loaded, h1) = bind_passed (load_bundle fs file) _ h in
      let (rest, others, built) = bind_passed (load_files fs files) _ h1 in
      let (same, good) = load_bundle-IsLoaded file loaded in
      let (names, all_good) = load_files-IsLoaded files others in
      rw (← ok_injective built) (
        ap (λ n. n ∷ map (λ (c : Bundle). c.file) rest) same ∙ ap (λ l. file ∷ l) names,
        (good, all_good),
      )

  manifest_files-listed :
      (dir : String) {files : List String}
      → manifest_files fs dir ≡ ok files
      → (entries : List (String × Bool)) × (fs.entries dir ≡ some entries)
        × (files ≡ sort_strings (manifests_in dir entries))
  unfolding manifest_files
  manifest_files-listed dir {files} h = elim (Option-cases (fs.entries dir)) [
    | inl failed ↦ ground (arith, failed)
    | inr (entries, found) ↦ (entries, found, sym (ok_injective (rw (found, manifest_files) at h)))
  ]

  -- A directory that loads has a bundle for each of its files that end in .yaml and not in .sops.yaml, and for
  -- nothing else, in the order of their paths, at least one, and each bundle is what its file resolves to.
  pub load_bundles-IsLoaded :
      (dir : String) {bundles : List Bundle}
      → load_bundles fs dir ≡ ok bundles
      → (entries : List (String × Bool)) × (fs.entries dir ≡ some entries)
        × ((path : String) → Elem path (map (λ b. b.file) bundles) ↔ IsManifest dir entries path)
        × IsSorted str_lt (map (λ b. b.file) bundles)
        × (bundles ≢ [])
        × All (IsLoaded fs) bundles
  unfolding load_bundles manifest_files
  load_bundles-IsLoaded dir {bundles} h =
      let (files, listed, h1) = bind_passed (manifest_files fs dir) _ h in
      let (some_file, h2) = refuse_if_passed (is_empty files) _ _ h1 in
      let (names, good) = load_files-IsLoaded files h2 in
      let (entries, found, sorted) = manifest_files-listed dir listed in
      let same = names ∙ sorted in
      (
        entries,
        found,
        (λ path.
            let (to, from) = manifests_in-IsManifest dir entries path in
            let (kept, back) = Elem-sort str_lt path (manifests_in dir entries) in
            rw same ((λ m. to (kept m)), (λ m. back (from m)))),
        rw same (sort-IsSorted str_lt str_lt-linear (manifests_in dir entries)),
        (λ e.
            ground
              (arith, ap is_empty (sym names ∙ ap (map (λ (b : Bundle). b.file)) e), some_file)),
        good,
      )
