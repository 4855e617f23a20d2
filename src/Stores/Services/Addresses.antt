-- ===== src/Stores/Services/Addresses.antt =====
-- The addresses and the ports in the table of internal/reconciler/services_sqlite.go stay unique.
use smith.Prelude.Assoc.{
  insert-Distinct, insert, delete_cases, lookup, insert_cases, delete-Distinct,
}
use smith.Prelude.{
  ℕ, ◌+◌, ◌≤◌, ◌<◌, String, ◌≡◌, refl, sym, ap, ◌∙◌, ◌⊎◌, inl, inr, some, arith, Bool-cases, ok,
  Result-cases, bind_passed, ok_injective, Option-cases, ◌>>◌,
}
use smith.Stores.Services.Allocation.{
  IsFresh, unused_ip, unused_port, allocate_endpoint-IsFresh, IsAddressed,
}
use smith.Stores.Services.{
  allocation, node_port_max, add_service, store_service, ServiceStore, node_port_min, upsert, check,
  ServiceRow, service_base, remove_service,
}
use smith.Stores.{Faults}
use smith.Types.{Service}

-- A row that may stand under a name: in range, with an address and a port no other name has.
record Fits (s : ServiceStore) (name : String) (row : ServiceRow) : Type 0 where
  ip_in : (service_base < row.cluster_ip) × (row.cluster_ip < service_base + 65535)
  port_in : (node_port_min ≤ row.node_port) × (row.node_port ≤ node_port_max)
  apart :
      (other : String) (row' : ServiceRow)
      → lookup other s.rows ≡ some row'
      → (row.cluster_ip ≡ row'.cluster_ip) ⊎ (row.node_port ≡ row'.node_port)
      → other ≡ name

swap_sides : {A B : Type 0} {a a' : A} {b b' : B} → (a ≡ a') ⊎ (b ≡ b') → (a' ≡ a) ⊎ (b' ≡ b)
swap_sides (inl e) = inl (sym e)
swap_sides (inr e) = inr (sym e)

module _ (s : ServiceStore) (name : String) (h : IsAddressed s) where
  insert_row-IsAddressed :
      (row : ServiceRow)
      → Fits s name row
      → IsAddressed (record s { rows = insert name row s.rows })
  insert_row-IsAddressed row fit = record {
    base = h.base;
    distinct = insert-Distinct name row s.rows h.distinct;
    ip_range = λ j r found. elim (insert_cases name j row s.rows found) [
      | inl (e, p) ↦ rw (← p) fit.ip_in
      | inr (ne, old) ↦ h.ip_range j r old
    ];
    port_range = λ j r found. elim (insert_cases name j row s.rows found) [
      | inl (e, p) ↦ rw (← p) fit.port_in
      | inr (ne, old) ↦ h.port_range j r old
    ];
    unique = λ j k r r' f g same. elim (insert_cases name j row s.rows f) [
      | inl (e, p) ↦ elim (insert_cases name k row s.rows g) [
        | inl (e', p') ↦ sym e ∙ e'
        | inr (ne, old) ↦ sym (fit.apart k r' old (rw p same) ∙ e)
      ]
      | inr (ne, old) ↦ elim (insert_cases name k row s.rows g) [
        | inl (e', p') ↦ fit.apart j r old (swap_sides (rw p' same)) ∙ e'
        | inr (ne', old') ↦ h.unique j k r r' old old' same
      ]
    ];
  }

  held-Fits :
      (row old : ServiceRow)
      → lookup name s.rows ≡ some old
      → row.cluster_ip ≡ old.cluster_ip
      → row.node_port ≡ old.node_port
      → Fits s name row
  held-Fits row old found ip port = record {
    ip_in = rw ip (h.ip_range name old found);
    port_in = rw port (h.port_range name old found);
    apart = λ other row' there same.
        h.unique other name row' old there found (swap_sides (rw (← ip) (rw (← port) same)));
  }

  fresh-Fits : (row : ServiceRow) → IsFresh s (row.cluster_ip, row.node_port) → Fits s name row
  fresh-Fits row fresh = record {
    ip_in = fresh.ip_range;
    port_in = fresh.port_range;
    apart = λ other row' there same. elim same [
      | inl e ↦ absurd (unused_ip s.rows row.cluster_ip other row' fresh.ip_free there (sym e))
      | inr e ↦ absurd (unused_port s.rows row.node_port other row' fresh.port_free there (sym e))
    ];
  }

  store_row :
      (faults : Faults) (svc : Service) (alloc : ℕ × ℕ)
      → svc.name ≡ name
      → ((row : ServiceRow) → row.cluster_ip ≡ alloc.0 → row.node_port ≡ alloc.1 → Fits s name row)
      → IsAddressed (store_service faults svc s alloc).0
  unfolding store_service upsert
  store_row faults svc alloc named fit = elim (Bool-cases faults.write) [
    | inl failed ↦ unfold store_service in rw failed h
    | inr written ↦ elim (Option-cases (lookup svc.name s.rows)) [
      | inl new ↦
          unfold store_service in
          rw written (rw (new, upsert) (rw named (insert_row-IsAddressed _ (fit _ refl refl))))
      | inr (old, held) ↦
          unfold store_service in
          rw written (
            rw (held, upsert)
              (rw named (insert_row-IsAddressed _ (held-Fits _ old (rw named at held) refl refl))))
    ]
  ]

allocation-Fits :
    (faults : Faults) (name : String) (s : ServiceStore) {alloc : ℕ × ℕ}
    → IsAddressed s
    → allocation faults name s ≡ ok alloc
    → (row : ServiceRow) → row.cluster_ip ≡ alloc.0
    → row.node_port ≡ alloc.1
    → Fits s name row
unfolding allocation
allocation-Fits faults name s {alloc} h got row ip port = elim (Bool-cases faults.lookup) [
  | inl failed ↦ ground (arith, failed)
  | inr read ↦ elim (Option-cases (lookup name s.rows)) [
    | inl new ↦ fresh-Fits s name h row (
        rw ip
          (rw port (allocate_endpoint-IsFresh faults s h.base (rw (read, new, allocation) at got))))
    | inr (old, held) ↦
        let built : (old.cluster_ip, old.node_port) ≡ alloc =
          ok_injective (rw (read, held, allocation) at got) in
        held-Fits s name h row old held (ip ∙ ap (λ (a : ℕ × ℕ). a.0) (sym built))
          (port ∙ ap (λ (a : ℕ × ℕ). a.1) (sym built))
  ]
]

-- `Add` and the rows: whatever it answers and whichever statement fails, every ClusterIP stays inside
-- the service range and every NodePort inside its window, and no two services share either.
pub add_service-IsAddressed :
    (faults : Faults) (svc : Service) (s : ServiceStore)
    → IsAddressed s
    → IsAddressed (add_service faults svc s).0
unfolding add_service
add_service-IsAddressed faults svc s h =
    elim (Result-cases (check svc >> allocation faults svc.name s)) [
      | inl (e, failed) ↦ rw (failed, add_service) h
      | inr (alloc, got) ↦
          rw (got, add_service)
            (store_row s svc.name h faults svc alloc refl (
              allocation-Fits faults svc.name s h
                (bind_passed (check svc) (λ _. allocation faults svc.name s) got).2))
    ]

pub remove_service-IsAddressed :
    (faults : Faults) (name : String) (s : ServiceStore)
    → IsAddressed s
    → IsAddressed (remove_service faults name s).0
remove_service-IsAddressed faults name s h = elim (Bool-cases faults.write) [
  | inl failed ↦ unfold remove_service in rw failed h
  | inr written ↦
      unfold remove_service in
      rw written (record {
        base = h.base;
        distinct = delete-Distinct name s.rows h.distinct;
        ip_range = λ j row f. h.ip_range j row (delete_cases name j s.rows f);
        port_range = λ j row f. h.port_range j row (delete_cases name j s.rows f);
        unique = λ j k row row' f g same.
            h.unique j k row row' (delete_cases name j s.rows f) (delete_cases name k s.rows g)
              same;
      })
]
