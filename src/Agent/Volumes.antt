-- ===== src/Agent/Volumes.antt =====
-- The directories that internal/agent/agent.go mounts.
use mathlib.Core.Path.{subst}
use text.Mathlib.TextLemmas.{nil-append, cons-append}
use smith.Agent.{
  trim_replica_suffix, Agent, record_ports, mounts_of, resolve_mounts, handle_assign, assigned,
  VolumeError,
}
use smith.Containers.{Mount}
use smith.Desired.{replica_id_of, instance_of}
use smith.Prelude.Assoc
use smith.Prelude.Decimal.{
  all_digits, decimal-ne-nil, all_digits-append, decimal, single-append, all_digits-decimal,
}
use smith.Prelude.Names.{ne_false}
use smith.Prelude.Text.{append, ◌==◌}
use smith.Prelude.{
  ℕ, String, ◌≡◌, refl, sym, ap, ◌∙◌, ◌≢◌, true, false, Option, some, List, [], ◌∷◌, ◌++◌, arith,
  All, ◌>>=◌, Result, ok,
}
use smith.Types.{Volume, Workload}

-- A dash is no digit, so only the last one starts a suffix.
dash_no_digits : (s t : String) → all_digits (append s (String.◌∷◌ "-" t)) ≡ false
unfolding all_digits
dash_no_digits s t = all_digits-append s (String.◌∷◌ "-" t) ∙ ground arith

-- An ID with a dash and digits behind it gives back the ID.
trim_suffix :
    (id digits : String)
    → (digits == "") ≡ false
    → all_digits digits ≡ true
    → trim_replica_suffix (append id (String.◌∷◌ "-" digits)) ≡ id
unfolding trim_replica_suffix
trim_suffix String.[] digits some_digits only_digits =
    ap trim_replica_suffix (nil-append (String.◌∷◌ "-" digits))
    ∙ rw some_digits (rw only_digits refl)
trim_suffix (String.◌∷◌ c id) digits some_digits only_digits =
    ap trim_replica_suffix (cons-append c id (String.◌∷◌ "-" digits))
    ∙ ground (arith, dash_no_digits id digits, trim_suffix id digits some_digits only_digits)

-- The ID of a replica, as the reconciler forms it, gives back the ID of its workload.
pub trim_replica_suffix-replica_id_of :
    (id : String) (i : ℕ) → trim_replica_suffix (replica_id_of id i) ≡ id
unfolding replica_id_of
trim_replica_suffix-replica_id_of id i =
    ap (λ t. trim_replica_suffix (append id t)) (single-append "-" (decimal i))
    ∙ trim_suffix id (decimal i) (decimal-ne-nil i) (all_digits-decimal i)

-- the mounts of volumes whose directories are there
abbrev pub mounts_at : (Volume → String) → List Volume → List Mount
mounts_at path [] = []
mounts_at path (v ∷ volumes) = record { source = path v; dest = v.path } ∷ mounts_at path volumes

mounts_of-mounts_at :
    (ensure_dir : String → String → Option String) (base : String) (path : Volume → String)
    (volumes : List Volume)
    → All (λ v. ensure_dir base v.name ≡ some (path v)) volumes
    → mounts_of ensure_dir base volumes ≡ ok (mounts_at path volumes)
unfolding mounts_of
mounts_of-mounts_at ensure_dir base path [] h = refl
mounts_of-mounts_at ensure_dir base path (v ∷ volumes) h =
    rw (h.0, mounts_of)
      (ap
        (λ (m : Result VolumeError (List Mount)).
          m >>= λ mounts. ok (record { source = path v; dest = v.path } ∷ mounts))
        (mounts_of-mounts_at ensure_dir base path volumes h.1))

resolve_mounts-mounts_at :
    (ensure_dir : String → String → Option String) (nfs_source id : String) (i : ℕ)
    (path : Volume → String) (volumes : List Volume)
    → (nfs_source == "") ≡ false
    → All (λ v. ensure_dir id v.name ≡ some (path v)) volumes
    → resolve_mounts ensure_dir nfs_source (replica_id_of id i) volumes
      ≡ ok (mounts_at path volumes)
unfolding resolve_mounts
resolve_mounts-mounts_at ensure_dir nfs_source id i path [] shared h = refl
resolve_mounts-mounts_at ensure_dir nfs_source id i path (v ∷ volumes) shared h = rw shared (
    ap (λ base. mounts_of ensure_dir base (v ∷ volumes)) (trim_replica_suffix-replica_id_of id i)
    ∙ mounts_of-mounts_at ensure_dir id path (v ∷ volumes) h)

-- An agent with an NFS share that is assigned a replica of a workload, as the reconciler makes it, mounts
-- the directories of the workload itself, the same for every index, in the order of its volumes, and starts
-- the replica with them; and the replica's ports are recorded for its removal.
pub handle_assign-replica :
    (ensure_dir : String → String → Option String) (path : Volume → String) (id : String)
    (w : Workload) (i : ℕ) (a : Agent)
    → a.nfs_source ≢ ""
    → All (λ v. ensure_dir id v.name ≡ some (path v)) w.volumes
    → ((handle_assign ensure_dir (some (instance_of id w i).wl) a).1 ≡ 200)
      × ((handle_assign ensure_dir (some (instance_of id w i).wl) a).0.spawned
          ≡ a.spawned ++ (((instance_of id w i).wl, mounts_at path w.volumes) ∷ []))
      × (Assoc.lookup
            (replica_id_of id i)
            (handle_assign ensure_dir (some (instance_of id w i).wl) a).0.ports
          ≡ some w.ports)
unfolding handle_assign instance_of
handle_assign-replica ensure_dir path id w i a shared dirs =
    let mounted =
      resolve_mounts-mounts_at ensure_dir a.nfs_source id i path w.volumes
        (ne_false a.nfs_source "" shared) dirs in
    let wl = (instance_of id w i).wl in
    subst
      (λ m.
        ((assigned m wl (record_ports wl a)).1 ≡ 200)
        × ((assigned m wl (record_ports wl a)).0.spawned
            ≡ a.spawned ++ ((wl, mounts_at path w.volumes) ∷ []))
        × (Assoc.lookup (replica_id_of id i) (assigned m wl (record_ports wl a)).0.ports
            ≡ some w.ports))
      (sym mounted) (refl, refl, Assoc.lookup-insert_self (replica_id_of id i) w.ports a.ports)
