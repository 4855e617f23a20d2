-- ===== src/Stores/Services/Stability.antt =====
-- What `Add` of internal/reconciler/services_sqlite.go does to a service that exists.
use smith.Prelude.Assoc.{lookup-insert_self, lookup}
use smith.Prelude.Int.{pos}
use smith.Prelude.{
  ℕ, String, ◌≡◌, refl, sym, inl, inr, some, arith, ok, Result-cases, ok_injective, ◌>>◌,
  bind_passed, Bool-cases,
}
use smith.Stores.Services.{
  ServiceRow, ServiceStore, store_service, ip_text, ServiceError, check, allocation, upsert,
  add_service,
}
use smith.Stores.{Faults}
use smith.Types.{Service}

-- The table and the answer after an update have the address and the port of an old row.
pub record Keeps (old : ServiceRow) (name : String) (after : ServiceStore) (out : Service)
    : Type 0 where
  pub answer_ip : out.cluster_ip ≡ ip_text old.cluster_ip
  pub answer_port : out.node_port ≡ pos old.node_port
  pub row : ServiceRow
  pub stored : lookup name after.rows ≡ some row
  pub ip : row.cluster_ip ≡ old.cluster_ip
  pub port : row.node_port ≡ old.node_port

store_service-Keeps :
    (faults : Faults) (svc : Service) (s : ServiceStore) (old : ServiceRow) {out : Service}
    → lookup svc.name s.rows ≡ some old
    → (store_service faults svc s (old.cluster_ip, old.node_port)).1 ≡ ok out
    → Keeps old svc.name (store_service faults svc s (old.cluster_ip, old.node_port)).0 out
unfolding store_service upsert
store_service-Keeps faults svc s old {out} held h = elim (Bool-cases faults.write) [
  | inl failed ↦ absurd (unfold store_service in ground (arith, failed))
  | inr written ↦
      let built = ok_injective {E = ServiceError} (unfold store_service in rw written at h) in
      unfold store_service in
      rw written (
        rw (held, upsert)
          (record {
            answer_ip = rw (← built);
            answer_port = rw (← built);
            row = _;
            stored = lookup-insert_self svc.name _ s.rows;
            ip = refl;
            port = refl;
          }))
]

allocation_held :
    (faults : Faults) (name : String) (s : ServiceStore) (old : ServiceRow) {alloc : ℕ × ℕ}
    → lookup name s.rows ≡ some old
    → allocation faults name s ≡ ok alloc
    → alloc ≡ (old.cluster_ip, old.node_port)
unfolding allocation
allocation_held faults name s old held h = elim (Bool-cases faults.lookup) [
  | inl failed ↦ ground (arith, failed)
  | inr read ↦ sym (ok_injective (rw (read, held, allocation) at h))
]

-- An update of a service that `Add` accepts keeps the address and the port of its row, in the table
-- and in the answer, whatever ClusterIP and NodePort the request holds.
pub add_service_stable :
    (faults : Faults) (svc : Service) (s : ServiceStore) (old : ServiceRow) {out : Service}
    → lookup svc.name s.rows ≡ some old
    → (add_service faults svc s).1 ≡ ok out
    → Keeps old svc.name (add_service faults svc s).0 out
unfolding add_service
add_service_stable faults svc s old {out} held h =
    elim (Result-cases (check svc >> allocation faults svc.name s)) [
      | inl (e, failed) ↦ absurd (ground (arith, failed))
      | inr (alloc, got) ↦
          let same =
            allocation_held faults svc.name s old held
              (bind_passed (check svc) (λ _. allocation faults svc.name s) got).2 in
          rw (got, add_service)
            (rw same
              (store_service-Keeps faults svc s old held (rw same at (rw (got, add_service) at h))))
    ]
