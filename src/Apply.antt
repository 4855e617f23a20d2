-- ===== src/Apply.antt =====
-- internal/apply/apply.go: the manifests of a directory, loaded and merged with their secret overlays.
-- The file system, the YAML parser and the decryptor are parameters. A path is the directory, which is
-- a clean path, a slash and the name.
pub mod Delta
pub mod Output
pub mod Moves
pub mod Run
pub mod Loading
use smith.Manifest.{resolve, App, Resolved, is_empty, ResolveError}
use smith.Prelude.Assoc
use smith.Prelude.Sort.{sort_strings}
use smith.Prelude.Text.{append, ◌==◌}
use smith.Prelude.{
  String, Bool, not, ◌&&◌, ◌||◌, Option, none, some, List, [], ◌∷◌, ◌>>=◌, refuse_if, ok,
  if◌then◌else◌, err, ◌>>◌, Result,
}

-- what `os.Stat` says of an overlay
pub data Stat : Type 0 where
  present : Stat
  absent : Stat
  stat_failed : Stat

pub record Files : Type 0 where
  -- the names in the directory, with whether each is a directory
  pub entries : String → Option (List (String × Bool))
  pub contents : String → Option String
  pub parse : String → Option App
  pub stat : String → Stat
  pub decrypt : String → Option (List (String × String))

pub record Bundle : Type 0 where
  pub file : String
  pub res : Resolved
  pub overlay_keys : List String

pub data LoadError : Type 0 where
  dir_failed : String → LoadError
  no_manifests : String → LoadError
  read_failed : String → LoadError
  parse_failed : String → LoadError
  resolve_failed : String → ResolveError → LoadError
  overlay_stat_failed : String → LoadError
  decrypt_failed : String → String → LoadError

-- `strings.HasSuffix`
unfoldable pub has_suffix : String → String → Bool
has_suffix end String.[] = String.[] == end
has_suffix end (String.◌∷◌ c s) = String.◌∷◌ c s == end || has_suffix end s

-- `strings.TrimSuffix`, of a suffix that is not empty
unfoldable pub trim_suffix : String → String → String
trim_suffix end String.[] = String.[]
trim_suffix end (String.◌∷◌ c s) =
    if String.◌∷◌ c s == end then String.[] else String.◌∷◌ c (trim_suffix end s)

-- `filepath.Join`
abbrev pub join_path : String → String → String
join_path dir name = append dir (append "/" name)

-- the condition of `manifestFiles` on a name
unfoldable pub is_manifest : String → Bool
unfolding has_suffix
is_manifest name = has_suffix ".yaml" name && not (has_suffix ".sops.yaml" name)

-- the loop of `manifestFiles`
unfoldable pub manifests_in : String → List (String × Bool) → List String
unfolding is_manifest
manifests_in dir [] = []
manifests_in dir ((name, is_dir) ∷ rest) =
    let more = manifests_in dir rest in
    if is_dir || not (is_manifest name) then more else join_path dir name ∷ more

unfoldable pub overlay_path : String → String
unfolding trim_suffix
overlay_path file = append (trim_suffix ".yaml" file) ".sops.yaml"

-- the loop of `mergeOverlay`: the overlay wins
unfoldable pub merge_env : List (String × String) → List (String × String) → List (String × String)
merge_env [] env = env
merge_env ((k, v) ∷ overlay) env = merge_env overlay (Assoc.insert k v env)

module _ (fs : Files) where
  unfoldable pub manifest_files : String → Result LoadError (List String)
  unfolding manifests_in
  manifest_files dir = elim (fs.entries dir) [
    | none ↦ err (dir_failed dir)
    | some entries ↦ ok (sort_strings (manifests_in dir entries))
  ]

  -- one round of `loadBundles`
  unfoldable pub load_bundle : String → Result LoadError Bundle
  load_bundle file = elim (fs.contents file) [
    | none ↦ err (read_failed file)
    | some data_read ↦ elim (fs.parse data_read) [
      | none ↦ err (parse_failed file)
      | some app ↦ elim (resolve app) [
        | err e ↦ err (resolve_failed file e)
        | ok res ↦ ok (record { file = file; res = res; overlay_keys = [] })
      ]
    ]
  ]

  unfoldable pub load_files : List String → Result LoadError (List Bundle)
  unfolding load_bundle
  load_files [] = ok []
  load_files (file ∷ files) = load_bundle file >>= λ b. load_files files >>= λ rest. ok (b ∷ rest)

  unfoldable pub load_bundles : String → Result LoadError (List Bundle)
  unfolding manifest_files load_files
  load_bundles dir = manifest_files dir >>= λ files.
      refuse_if (is_empty files) (no_manifests dir) >> load_files files

  -- `mergeOverlay`, and the keys of the overlay in the bundle
  unfoldable pub merge_overlay : Bundle → Result LoadError Bundle
  unfolding merge_env overlay_path
  merge_overlay b =
      let path = overlay_path b.file in
      elim (fs.stat path) [
        | absent ↦ ok b
        | stat_failed ↦ err (overlay_stat_failed b.res.workload.id)
        | present ↦ elim (fs.decrypt path) [
          | none ↦ err (decrypt_failed b.res.workload.id path)
          | some env ↦ ok (record b {
            res = record b.res {
              workload = record b.res.workload { env = merge_env env b.res.workload.env };
            };
            overlay_keys = Assoc.keys env;
          })
        ]
      ]

  unfoldable pub merge_overlays : List Bundle → Result LoadError (List Bundle)
  unfolding merge_overlay
  merge_overlays [] = ok []
  merge_overlays (b ∷ bundles) =
      merge_overlay b >>= λ merged. merge_overlays bundles >>= λ rest. ok (merged ∷ rest)
