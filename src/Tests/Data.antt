-- ===== src/Tests/Data.antt =====
-- Nodes, workloads and tables as in the repository's own tests, and numbers in place of `float64`.
use smith.Floats.{Floats}
use smith.Prelude.Assoc.{insert, lookup}
use smith.Prelude.Int.{negsuc, ℤ, pos}
use smith.Prelude.Sort.{LinearOrder}
use smith.Prelude.Text.{◌==◌, eq_iff}
use smith.Prelude.{
  ℕ, ◌+◌, ◌*◌, ◌/◌, String, ◌≡◌, refl, ◌≢◌, ◌↔◌, true, false, [], ◌∷◌, arith, eqb, ltb,
}
use smith.Registry
use smith.Registry.Liveness.{IsKeyed, register-IsKeyed, empty-IsKeyed}
use smith.Registry.{register, Registry}
use smith.Scheduler.Consistency.{IsConsistent}
use smith.Scheduler.{Scheduler}
use smith.Types.{Node, Resources}

abbrev pub to_ℕ : ℤ → ℕ
to_ℕ (pos n) = n
to_ℕ (negsuc n) = 0

pub ltb_linear : LinearOrder ltb
ltb_linear = record {
  irrefl = λ a. ground arith;
  trans = λ a b c h k. ground arith;
  total = λ a b h k. ground arith;
}

pub eqb_iff : (a b : ℕ) → (eqb a b ≡ true) ↔ (a ≡ b)
eqb_iff a b = ((λ h. ground arith), (λ h. ground arith))

-- fractions in thousandths
abbrev pub thousandths : Floats
thousandths = record {
  Num = ℕ;
  zero = 0;
  ratio = λ a b. to_ℕ a * 1000 / to_ℕ b;
  add = λ a b. a + b;
  lt = ltb;
  eq = eqb;
  eq_true = eqb_iff;
  lt_linear = ltb_linear;
}

abbrev pub node_of : String → ℤ → Node
node_of id cpu = record {
  id = id;
  addr = "10.0.0.1:7000";
  host_ip = "10.0.0.1";
  last_heartbeat = 100;
  cpu = cpu;
  memory_mb = pos 4096;
}

abbrev pub node_a : Node
node_a = node_of "a" (pos 2)

abbrev pub node_b : Node
node_b = node_of "b" (pos 4)

abbrev pub two_nodes : Registry
two_nodes = record { nodes = ("a", node_a) ∷ ("b", node_b) ∷ [] }

abbrev pub half_cpu : Resources
half_cpu = record { cpu_millicores = pos 500; memory_mb = pos 256 }

-- one replica of "web", on "a"
abbrev pub one_replica_on_a : Scheduler
one_replica_on_a = record {
  assignments = ("web-0", "a") ∷ [];
  parents = ("web-0", "web") ∷ [];
  requests = ("web-0", half_cpu) ∷ [];
}

pub two_nodes-IsKeyed : IsKeyed two_nodes
unfolding register insert
two_nodes-IsKeyed =
    register-IsKeyed 100 node_b _ (register-IsKeyed 100 node_a Registry.empty empty-IsKeyed)

pub differs : (a b : String) → a == b ≡ false → a ≢ b
differs a b h e = ground (arith, h, eq_iff a b)

pub one_replica_on_a-IsConsistent : IsConsistent one_replica_on_a
unfolding lookup
one_replica_on_a-IsConsistent = record {
  distinct = (refl, tt);
  parented = λ id. ground arith;
  requested = λ id. ground arith;
}
