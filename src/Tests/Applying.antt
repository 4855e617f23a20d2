-- ===== src/Tests/Applying.antt =====
-- internal/apply on a directory with one manifest and a secret overlay.
use smith.Apply.Delta.{delta_lem, in_sync, to_create, to_delete}
use smith.Apply.Loading.{IsManifest, load_bundles-IsLoaded, IsLoaded}
use smith.Apply.Output.{prune_header, would_delete, Line, delete_ingress, plan_lines, plan_header}
use smith.Apply.Run.Order.{HasDone, apply_bundles-HasDone}
use smith.Apply.Run.Preview.{plan_lines-Blocks, Blocks, preview_same}
use smith.Apply.Run.{
  prune_plan, started, apply_bundles, ingress_ops, service_ops, prune_drift, Cluster, workload_ops,
  print_prune_plan,
}
use smith.Apply.{Files, Bundle, load_bundles, present}
use smith.Manifest.{resolve}
use smith.Prelude.Sort.{IsSorted}
use smith.Prelude.Text.{str_lt}
use smith.Prelude.{
  String, ◌≡◌, refl, ◌≢◌, ◌↔◌, Bool, true, false, some, List, [], ◌∷◌, ◌++◌, map, All, Elem, ok,
}
use smith.Tests.Bundle.{web_workload, web_app, web_bundle}

abbrev one_manifest : Files
one_manifest = record {
  entries = λ dir. some (("web.yaml", false) ∷ ("web.sops.yaml", false) ∷ ("old", true) ∷ []);
  contents = λ file. some "name: web";
  parse = λ text. some web_app;
  stat = λ path. present;
  decrypt = λ path. some (("TOKEN", "s3cret") ∷ []);
}

abbrev web_loaded : Bundle
web_loaded = record { file = "apps/web.yaml"; res = web_bundle; overlay_keys = [] }

-- with a variable of its own, and one from the overlay
abbrev web_merged : Bundle
web_merged = record {
  file = "apps/web.yaml";
  res = record web_bundle {
    workload = record web_workload { env = ("MODE", "fast") ∷ ("TOKEN", "s3cret") ∷ [] };
  };
  overlay_keys = "TOKEN" ∷ [];
}

-- a control plane that accepts all, and has one ingress that no bundle declares
abbrev drifted : Cluster
drifted = record {
  accepts = λ ops op. true;
  workloads = λ ops. some (web_workload ∷ []);
  services = λ ops. some [];
  ingresses = λ ops. some (record { host = "old.example.org"; service = "web" } ∷ []);
}

load_web : load_bundles one_manifest "apps" ≡ ok (web_loaded ∷ [])
unfolding load_bundles resolve smith.Prelude.Sort.sort
load_web = refl

load_bundles-IsLoaded_example :
    (entries : List (String × Bool)) × (one_manifest.entries "apps" ≡ some entries)
    × ((path : String)
        → Elem path (map (λ b. b.file) (web_loaded ∷ [])) ↔ IsManifest "apps" entries path)
    × IsSorted str_lt (map (λ b. b.file) (web_loaded ∷ []))
    × ((web_loaded ∷ []) ≢ [])
    × All (IsLoaded one_manifest) (web_loaded ∷ [])
load_bundles-IsLoaded_example = load_bundles-IsLoaded one_manifest "apps" load_web

apply_bundles-HasDone_example :
    HasDone drifted
      (workload_ops (web_merged ∷ [])
        ++ (service_ops (web_merged ∷ []) ++ ingress_ops (web_merged ∷ [])))
      started
      (apply_bundles drifted false false (web_merged ∷ []))
apply_bundles-HasDone_example = apply_bundles-HasDone drifted (web_merged ∷ [])

prune_web : prune_plan drifted (web_merged ∷ []) started ≡ ok ("old.example.org" ∷ [], [], [])
unfolding prune_plan smith.Prelude.Sort.sort smith.Prelude.Names.contains
prune_web = refl

preview_same_example :
    ((print_prune_plan drifted (web_merged ∷ []) started).0.out
      ≡ prune_header ∷ would_delete (delete_ingress "old.example.org") ∷ [])
    × ((print_prune_plan drifted (web_merged ∷ []) started).0.ops ≡ [])
    × HasDone drifted
        (delete_ingress "old.example.org" ∷ [])
        started
        (prune_drift drifted (web_merged ∷ []) started)
preview_same_example = preview_same drifted (web_merged ∷ []) started prune_web

plan_lines-Blocks_example :
    (ls : List Line) × (plan_lines (web_merged ∷ []) ≡ plan_header ∷ ls)
    × Blocks (web_merged ∷ []) ls
plan_lines-Blocks_example = plan_lines-Blocks (web_merged ∷ [])

abbrev wanted : List String
wanted = "a" ∷ "b" ∷ []

abbrev found : List String
found = "b" ∷ []

abbrev key_a : String
key_a = "a"

delta_lem_example :
    (Elem key_a (to_create wanted found) ↔ (Elem key_a wanted × ¬ Elem key_a found))
    × (Elem key_a (to_delete wanted found) ↔ (Elem key_a found × ¬ Elem key_a wanted))
    × (Elem key_a (in_sync wanted found) ↔ (Elem key_a wanted × Elem key_a found))
    × IsSorted str_lt (to_create wanted found)
    × IsSorted str_lt (to_delete wanted found)
    × IsSorted str_lt (in_sync wanted found)
delta_lem_example = delta_lem wanted found key_a
