-- ===== src/Manifest/Workloads.antt =====
-- What `resolveWorkload` of internal/manifest/resolve.go guarantees.
use smith.Manifest.{
  App, validate_volumes, or_one, is_empty, resolve_workload, validate_volumes_from,
}
use smith.Prelude.Int.{ltb_ℤ, ℤ, ◌≤ℤ◌, pos}
use smith.Prelude.Names.{matches_name, is_absolute, contains}
use smith.Prelude.Text.{◌==◌, eq_iff}
use smith.Prelude.{
  String, ◌≡◌, refl, ◌≢◌, true, false, not, ◌&&◌, List, [], ◌∷◌, arith, All, ok_injective,
  refuse_if_passed, ok, bind_passed,
}
use smith.Types.{Workload, Volume}

-- A volume as the control plane wants it: a good name and an absolute path.
pub record GoodVolume (v : Volume) : Type 0 where
  pub named : matches_name v.name ≡ true
  pub absolute : is_absolute v.path ≡ true

abbrev pub FreshNames : List String → List Volume → Type 0
FreshNames seen [] = Unit
FreshNames seen (v ∷ vols) = (contains seen v.name ≡ false) × FreshNames (v.name ∷ seen) vols

-- The check passes exactly the good lists.
validate_volumes_from-ok :
    (seen : List String) (vols : List Volume)
    → validate_volumes_from seen vols ≡ ok tt
    → All GoodVolume vols × FreshNames seen vols
unfolding validate_volumes_from
validate_volumes_from-ok seen [] h = (tt, tt)
validate_volumes_from-ok seen (v ∷ vols) h =
    let (named, h1) = refuse_if_passed (not (matches_name v.name)) _ _ h in
    let (fresh, h2) = refuse_if_passed (contains seen v.name) _ _ h1 in
    let (absolute, h3) = refuse_if_passed (not (is_absolute v.path)) _ _ h2 in
    let (good, names) = validate_volumes_from-ok (v.name ∷ seen) vols h3 in
    ((record { named = ground arith; absolute = ground arith }, good), (fresh, names))

pub record GoodWorkload (a : App) (w : Workload) : Type 0 where
  pub id : w.id ≡ a.name
  pub image : w.image ≢ ""
  pub replicas : pos 1 ≤ℤ w.replicas
  pub max_unavailable : pos 1 ≤ℤ w.max_unavailable
  pub single_writer : w.volumes ≢ [] → w.replicas ≡ pos 1
  pub volumes : All GoodVolume w.volumes × FreshNames [] w.volumes

at_least_one : (n : ℤ) → ltb_ℤ n (pos 0) ≡ false → pos 1 ≤ℤ or_one n
at_least_one n h = ground arith

one_replica :
    (vols : List Volume) (n : ℤ)
    → vols ≢ []
    → ltb_ℤ n (pos 0) ≡ false
    → not (is_empty vols) && ltb_ℤ (pos 1) (or_one n) ≡ false
    → or_one n ≡ pos 1
one_replica [] n ne h k = absurd (ne refl)
one_replica (v ∷ vols) n ne h k = ground arith

-- A resolved workload has the app's name, an image, at least one replica and a budget of at least
-- one, one replica only if it has volumes, and good volumes.
pub resolve_workload-GoodWorkload :
    (a : App) {w : Workload} → resolve_workload a ≡ ok w → GoodWorkload a w
unfolding resolve_workload validate_volumes
resolve_workload-GoodWorkload a {w} h =
    let (image, h1) = refuse_if_passed (a.workload.image == "") _ _ h in
    let (reps, h2) = refuse_if_passed (ltb_ℤ a.workload.replicas (pos 0)) _ _ h1 in
    let (unav, h3) = refuse_if_passed (ltb_ℤ a.workload.max_unavailable (pos 0)) _ _ h2 in
    let (single, h4) =
      refuse_if_passed
        (not (is_empty a.workload.volumes) && ltb_ℤ (pos 1) (or_one a.workload.replicas)) _ _ h3 in
    let (unit, checked, built) = bind_passed (validate_volumes_from [] a.workload.volumes) _ h4 in
    rw (← ok_injective built) (record {
      id = refl;
      image = λ e. ground (arith, image, eq_iff a.workload.image "");
      replicas = at_least_one a.workload.replicas reps;
      max_unavailable = at_least_one a.workload.max_unavailable unav;
      single_writer = λ ne. one_replica a.workload.volumes a.workload.replicas ne reps single;
      volumes = validate_volumes_from-ok [] a.workload.volumes checked;
    })
