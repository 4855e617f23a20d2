-- ===== src/Server/Checks.antt =====
-- The check of a workload in internal/api/server.go, and the bundles of internal/manifest/resolve.go.
-- A workload with volumes has at most one replica, and its volumes have good names, each once, and
-- absolute paths.
use smith.Manifest.Workloads.{FreshNames, GoodVolume, resolve_workload-GoodWorkload}
use smith.Manifest.{resolve_workload, App, is_empty}
use smith.Prelude.Int.{◌≤ℤ◌, ℤ, pos, ltb_ℤ}
use smith.Prelude.Names.{is_absolute, matches_name, contains}
use smith.Prelude.{
  String, ◌≡◌, refl, ap, ◌≢◌, ◌↔◌, inl, inr, true, false, not, List, [], ◌∷◌, arith, All,
  Bool-cases, refuse_if_passed, refuse_if, ok, ◌>>◌,
}
use smith.Server.{validate_workload, validate_workload_volumes, replicas_with_volumes}
use smith.Types.{Workload, Volume}

pub record IsMountable (w : Workload) : Type 0 where
  pub one_writer : w.volumes ≢ [] → w.replicas ≤ℤ pos 1
  pub volumes : All GoodVolume w.volumes × FreshNames [] w.volumes

volumes_pass :
    (id : String) (seen : List String) (vols : List Volume)
    → All GoodVolume vols
    → FreshNames seen vols
    → validate_workload_volumes id seen vols ≡ ok tt
unfolding validate_workload_volumes
volumes_pass id seen [] good fresh = refl
volumes_pass id seen (v ∷ vols) good fresh =
    rw good.0.named
      (rw fresh.0 (rw good.0.absolute (volumes_pass id (v.name ∷ seen) vols good.1 fresh.1)))

passed_volumes :
    (id : String) (seen : List String) (vols : List Volume)
    → validate_workload_volumes id seen vols ≡ ok tt
    → All GoodVolume vols × FreshNames seen vols
unfolding validate_workload_volumes
passed_volumes id seen [] h = (tt, tt)
passed_volumes id seen (v ∷ vols) h =
    let (named, h1) = refuse_if_passed (not (matches_name v.name)) _ _ h in
    let (fresh, h2) = refuse_if_passed (contains seen v.name) _ _ h1 in
    let (absolute, h3) = refuse_if_passed (not (is_absolute v.path)) _ _ h2 in
    let (good, names) = passed_volumes id (v.name ∷ seen) vols h3 in
    ((record { named = ground arith; absolute = ground arith }, good), (fresh, names))

no_volumes : (vols : List Volume) → is_empty vols ≡ true → vols ≡ []
no_volumes [] h = refl
no_volumes (v ∷ vols) h = cc

some_volumes : (vols : List Volume) → is_empty vols ≡ false → vols ≢ []
some_volumes vols h e = ground (arith, h, ap is_empty e)

few_replicas : (n : ℤ) → ltb_ℤ (pos 1) n ≡ false → n ≤ℤ pos 1
few_replicas n h = ground arith

not_many : (n : ℤ) → n ≤ℤ pos 1 → ltb_ℤ (pos 1) n ≡ false
not_many n h = ground arith

-- `validateWorkload` lets exactly the workloads through that can be mounted: with volumes, at most one
-- replica, good volume names, each once, and absolute paths.
pub validate_workload-IsMountable : (w : Workload) → (validate_workload w ≡ ok tt) ↔ IsMountable w
unfolding validate_workload
validate_workload-IsMountable w = elim (Bool-cases (is_empty w.volumes)) [
  | inl none_used ↦
      let none_there = no_volumes w.volumes none_used in
      (
        (λ h. record {
          one_writer = λ ne. absurd (ne none_there);
          volumes = rw none_there (tt, tt);
        }),
        (λ h. unfold validate_workload in rw none_used refl),
      )
  | inr used ↦ (
    (λ h.
        let passed : (refuse_if (ltb_ℤ (pos 1) w.replicas) (replicas_with_volumes w.id w.replicas)
              >> validate_workload_volumes w.id [] w.volumes)
            ≡ ok tt =
          unfold validate_workload in rw used at h in
        let (few, h1) = refuse_if_passed (ltb_ℤ (pos 1) w.replicas) _ _ passed in
        record {
          one_writer = λ ne. few_replicas w.replicas few;
          volumes = passed_volumes w.id [] w.volumes h1;
        }),
    (λ h.
        unfold validate_workload in
        rw used (
          rw (not_many w.replicas (h.one_writer (some_volumes w.volumes used)))
            (volumes_pass w.id [] w.volumes h.volumes.0 h.volumes.1))),
  )
]

-- The control plane accepts the volumes of every workload that a bundle resolves to.
pub resolve_workload-validate_workload :
    (a : App) {w : Workload} → resolve_workload a ≡ ok w → validate_workload w ≡ ok tt
resolve_workload-validate_workload a {w} h =
    let good = resolve_workload-GoodWorkload a h in
    (validate_workload-IsMountable w).1 (record {
      one_writer = λ ne. rw (good.single_writer ne) (ground arith);
      volumes = good.volumes;
    })
