-- ===== src/Stores/Services/Allocation.antt =====
-- The addresses and ports that internal/reconciler/services_sqlite.go gives out.
use smith.Pool.{lowest_free, lowest_free-some, IsLowestFree}
use smith.Prelude.Assoc.{lookup, Distinct}
use smith.Prelude.Text.{◌==◌}
use smith.Prelude.{
  ℕ, ◌+◌, ◌-◌, ◌%◌, ◌^◌, ◌≤◌, ◌<◌, String, ◌≡◌, ◌≢◌, ◌⊎◌, inl, inr, false, some, List, [], ◌∷◌,
  arith, Bool-cases, ok, ok_injective, Option-cases,
}
use smith.Stores.Services.{
  node_port_max, ServiceStore, node_port_min, uses_ip, allocate_endpoint, ServiceRow, uses_port,
  service_base,
}
use smith.Stores.{Faults}

pub record IsAddressed (s : ServiceStore) : Type 0 where
  pub base : s.svc_base ≡ service_base
  pub distinct : Distinct s.rows
  pub ip_range :
      (name : String) (row : ServiceRow)
      → lookup name s.rows ≡ some row
      → (service_base < row.cluster_ip) × (row.cluster_ip < service_base + 65535)
  pub port_range :
      (name : String) (row : ServiceRow)
      → lookup name s.rows ≡ some row
      → (node_port_min ≤ row.node_port) × (row.node_port ≤ node_port_max)
  pub unique :
      (name other : String) (row row' : ServiceRow)
      → lookup name s.rows ≡ some row
      → lookup other s.rows ≡ some row'
      → (row.cluster_ip ≡ row'.cluster_ip) ⊎ (row.node_port ≡ row'.node_port)
      → name ≡ other

pub unused_ip :
    (rows : List (String × ServiceRow)) (n : ℕ) (name : String) (row : ServiceRow)
    → uses_ip rows n ≡ false
    → lookup name rows ≡ some row
    → row.cluster_ip ≢ n
unfolding uses_ip lookup
unused_ip [] n name row free h e = cc
unused_ip ((j, r) ∷ rows) n name row free h e = elim (Bool-cases (j == name)) [
  | inl here ↦ ground arith
  | inr there ↦ unused_ip rows n name row (ground arith) (ground arith) e
]

pub unused_port :
    (rows : List (String × ServiceRow)) (n : ℕ) (name : String) (row : ServiceRow)
    → uses_port rows n ≡ false
    → lookup name rows ≡ some row
    → row.node_port ≢ n
unfolding uses_port lookup
unused_port [] n name row free h e = cc
unused_port ((j, r) ∷ rows) n name row free h e = elim (Bool-cases (j == name)) [
  | inl here ↦ ground arith
  | inr there ↦ unused_port rows n name row (ground arith) (ground arith) e
]

-- A pair that `allocate` gives out: both in range, and no row uses either.
pub record IsFresh (s : ServiceStore) (alloc : ℕ × ℕ) : Type 0 where
  pub ip_range : (service_base < alloc.0) × (alloc.0 < service_base + 65535)
  pub ip_free : uses_ip s.rows alloc.0 ≡ false
  pub port_range : (node_port_min ≤ alloc.1) × (alloc.1 ≤ node_port_max)
  pub port_free : uses_port s.rows alloc.1 ≡ false

-- An offset into the pool leaves no carry out of 32 bits.
no_wrap : (base i : ℕ) → base ≡ service_base → i < 65535 → (base + i) % 2 ^ 32 ≡ base + i
no_wrap base i e small = omega arith

pair-IsFresh :
    (s : ServiceStore) {i p : ℕ}
    → s.svc_base ≡ service_base
    → IsLowestFree (λ i. uses_ip s.rows ((s.svc_base + i) % 2 ^ 32)) 65534 1 i
    → IsLowestFree (uses_port s.rows) (node_port_max + 1 - node_port_min) node_port_min p
    → IsFresh s ((s.svc_base + i) % 2 ^ 32, p)
pair-IsFresh s {i} {p} base low_ip low_port =
    let plain = no_wrap s.svc_base i base (omega (arith, low_ip.below)) in
    record {
      ip_range =
          (omega (arith, plain, base, low_ip.from), omega (arith, plain, base, low_ip.below));
      ip_free = low_ip.free;
      port_range = (omega (arith, low_port.from), omega (arith, low_port.below));
      port_free = low_port.free;
    }

pub allocate_endpoint-IsFresh :
    (faults : Faults) (s : ServiceStore) {alloc : ℕ × ℕ}
    → s.svc_base ≡ service_base
    → allocate_endpoint faults s ≡ ok alloc
    → IsFresh s alloc
unfolding allocate_endpoint
allocate_endpoint-IsFresh faults s {alloc} base h = elim (Bool-cases faults.scan) [
  | inl failed ↦ ground arith
  | inr listed ↦
      elim (Option-cases (lowest_free (λ i. uses_ip s.rows ((s.svc_base + i) % 2 ^ 32)) 65534 1)) [
        | inl full ↦ ground (arith, full)
        | inr (i, found) ↦
            elim (Option-cases
              (lowest_free (uses_port s.rows) (node_port_max + 1 - node_port_min) node_port_min)) [
                | inl full ↦ ground (arith, found, full)
                | inr (p, port) ↦
                    let built : ((s.svc_base + i) % 2 ^ 32, p) ≡ alloc =
                      ok_injective (rw (listed, found, port, allocate_endpoint) at h) in
                    rw (← built) (
                      pair-IsFresh s base (lowest_free-some _ 65534 1 found)
                        (lowest_free-some _ _ node_port_min port))
              ]
      ]
]
