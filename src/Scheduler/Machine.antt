-- ===== src/Scheduler/Machine.antt =====
-- The sums of internal/scheduler/scheduler.go in Go's 64-bit `int`, which wraps around.
use smith.Prelude.Int.{ℤ, ◌+ℤ◌, pos, negsuc, int_laws, ◌≤ℤ◌}
use smith.Prelude.Text.{◌==◌}
use smith.Prelude.{
  ℕ, ◌-◌, ◌%◌, ◌^◌, String, ◌≡◌, refl, inl, inr, true, not, ◌||◌, some, List, [], ◌∷◌, arith,
  Bool-cases, if◌then◌else◌, leb,
}
use smith.Registry
use smith.Registry.{Registry}
use smith.Scheduler.Invariant.{LessLoad, AllFit, NonNegative, committed_except-LessLoad}
use smith.Scheduler.{
  Scheduler, times_1000, request_of, share, within, committed, schedulable, committed_except,
  add_resources,
}
use smith.Types.{Node, Resources, no_resources}

-- the largest `int`, and the bound of a request and of what can be scheduled on a node
abbrev pub max_int : ℕ
max_int = 9223372036854775807

abbrev pub half_int : ℕ
half_int = 4611686018427387903

-- the `int` of the 64 bits of a number
unfoldable pub int_of_word : ℕ → ℤ
int_of_word m = if leb m max_int then pos m else negsuc (2 ^ 64 - 1 - m)

-- the `int` that stands for an integer
unfoldable pub wrap : ℤ → ℤ
unfolding int_of_word
wrap (pos n) = int_of_word (n % 2 ^ 64)
wrap (negsuc n) = int_of_word (2 ^ 64 - 1 - n % 2 ^ 64)

unfoldable pub add_int : Resources → Resources → Resources
unfolding wrap
add_int a b = record {
  cpu_millicores = wrap (a.cpu_millicores +ℤ b.cpu_millicores);
  memory_mb = wrap (a.memory_mb +ℤ b.memory_mb);
}

-- `allocCPU[nodeID]` and `allocMem[nodeID]`, and `usedCPU[nodeID]` and `usedMem[nodeID]`
unfoldable pub committed_int :
    List (String × Resources) → List (String × String) → String → Resources
unfolding add_int
committed_int requests [] node = no_resources
committed_int requests ((id, at) ∷ rest) node =
    let more = committed_int requests rest node in
    if at == node then add_int (request_of requests id) more else more

-- what `fitsOnNode` adds up
unfoldable pub committed_except_int :
    List (String × Resources) → String → List (String × String) → String → Resources
unfolding add_int
committed_except_int requests replica [] node = no_resources
committed_except_int requests replica ((id, at) ∷ rest) node =
    let more = committed_except_int requests replica rest node in
    if not (at == node) || id == replica then more else add_int (request_of requests id) more

abbrev pub IsNonNegative : Resources → Type 0
IsNonNegative r = (pos 0 ≤ℤ r.cpu_millicores) × (pos 0 ≤ℤ r.memory_mb)

abbrev pub IsBelow : ℕ → Resources → Type 0
IsBelow bound r = (r.cpu_millicores ≤ℤ pos bound) × (r.memory_mb ≤ℤ pos bound)

-- a request from 0 to below 2 ^ 62
abbrev pub IsSmall : Resources → Type 0
IsSmall r = IsNonNegative r × IsBelow half_int r

-- the amounts of a node for which `share` is what the code computes: below 2 ^ 40
abbrev pub node_bound : ℕ
node_bound = 1099511627775

-- each registered node has less than 2 ^ 40 millicores and megabytes
abbrev pub HasSmallNodes : Registry → Type 0
HasSmallNodes reg =
    (id : String) (n : Node)
    → Registry.get id reg ≡ some n
    → (times_1000 n.cpu ≤ℤ pos node_bound) × (n.memory_mb ≤ℤ pos node_bound)

share_small : (z : ℤ) → z ≤ℤ pos node_bound → share z ≤ℤ pos half_int
unfolding share
share_small z h = ground arith

schedulable_small :
    (n : Node)
    → (times_1000 n.cpu ≤ℤ pos node_bound) × (n.memory_mb ≤ℤ pos node_bound)
    → ((schedulable n).0 ≤ℤ pos half_int) × ((schedulable n).1 ≤ℤ pos half_int)
unfolding schedulable
schedulable_small n h = (share_small (times_1000 n.cpu) h.0, share_small n.memory_mb h.1)

wrap_small : (z : ℤ) → pos 0 ≤ℤ z → z ≤ℤ pos max_int → wrap z ≡ z
unfolding wrap int_of_word
wrap_small (pos n) h k = ground arith
wrap_small (negsuc n) h k = absurd (ground arith)

add_int_exact :
    (a b : Resources)
    → IsNonNegative a
    → IsNonNegative b
    → IsBelow max_int (add_resources a b)
    → add_int a b ≡ add_resources a b
unfolding add_int
add_int_exact a b h k m =
    rw (wrap_small (a.cpu_millicores +ℤ b.cpu_millicores) (omega int_laws) m.0)
      (rw (wrap_small (a.memory_mb +ℤ b.memory_mb) (omega int_laws) m.1) refl)

add-IsNonNegative :
    (a b : Resources) → IsNonNegative a → IsNonNegative b → IsNonNegative (add_resources a b)
add-IsNonNegative a b h k = (omega int_laws, omega int_laws)

-- a part of a sum of what is not negative is within its bound
part-IsBelow :
    (bound : ℕ) (a b : Resources)
    → IsNonNegative a
    → IsBelow bound (add_resources a b)
    → IsBelow bound b
part-IsBelow bound a b h m = (omega int_laws, omega int_laws)

module _ (reqs : List (String × Resources)) (clean : NonNegative reqs) where
  request-IsNonNegative : (id : String) → IsNonNegative (request_of reqs id)
  request-IsNonNegative id = (clean.cpu id, clean.memory id)

  committed-IsNonNegative :
      (m : List (String × String)) (n : String) → IsNonNegative (committed reqs m n)
  unfolding committed
  committed-IsNonNegative [] n = (ground arith, ground arith)
  committed-IsNonNegative ((id, at) ∷ m) n = elim (Bool-cases (at == n)) [
    | inl here ↦ rw here (
        add-IsNonNegative (request_of reqs id) (committed reqs m n) (request-IsNonNegative id)
          (committed-IsNonNegative m n))
    | inr there ↦ rw there (committed-IsNonNegative m n)
  ]

  committed_int_exact :
      (m : List (String × String)) (n : String)
      → IsBelow max_int (committed reqs m n)
      → committed_int reqs m n ≡ committed reqs m n
  unfolding committed committed_int
  committed_int_exact [] n b = refl
  committed_int_exact ((id, at) ∷ m) n b = elim (Bool-cases (at == n)) [
    | inl here ↦
        let below = rw here at b in
        let own = request-IsNonNegative id in
        rw here (
          rw
            (committed_int_exact m n
              (part-IsBelow max_int (request_of reqs id) (committed reqs m n) own below))
            (add_int_exact (request_of reqs id) (committed reqs m n) own
              (committed-IsNonNegative m n) below))
    | inr there ↦ rw there (committed_int_exact m n (rw there at b))
  ]

  committed_except-IsNonNegative :
      (replica : String) (m : List (String × String)) (n : String)
      → IsNonNegative (committed_except reqs replica m n)
  unfolding committed_except
  committed_except-IsNonNegative replica [] n = (ground arith, ground arith)
  committed_except-IsNonNegative replica ((id, at) ∷ m) n =
      elim (Bool-cases (not (at == n) || id == replica)) [
        | inl skipped ↦ rw skipped (committed_except-IsNonNegative replica m n)
        | inr counted ↦ rw counted (
            add-IsNonNegative (request_of reqs id) (committed_except reqs replica m n)
              (request-IsNonNegative id) (committed_except-IsNonNegative replica m n))
      ]

  committed_except_int_exact :
      (replica : String) (m : List (String × String)) (n : String)
      → IsBelow max_int (committed_except reqs replica m n)
      → committed_except_int reqs replica m n ≡ committed_except reqs replica m n
  unfolding committed_except committed_except_int
  committed_except_int_exact replica [] n b = refl
  committed_except_int_exact replica ((id, at) ∷ m) n b =
      elim (Bool-cases (not (at == n) || id == replica)) [
        | inl skipped ↦ rw skipped (committed_except_int_exact replica m n (rw skipped at b))
        | inr counted ↦
            let below = rw counted at b in
            let own = request-IsNonNegative id in
            rw counted (
              rw
                (committed_except_int_exact replica m n (
                  part-IsBelow max_int (request_of reqs id) (committed_except reqs replica m n) own
                    below))
                (add_int_exact (request_of reqs id) (committed_except reqs replica m n) own
                  (committed_except-IsNonNegative replica m n) below))
      ]

-- On a registered node the sums that the code makes are the exact ones: of what is committed, and of what
-- is committed, with or without a replica, and a small request.
abbrev pub NoWrap : Registry → Scheduler → Type 0
NoWrap reg s =
    (id : String) (n : Node) (req : Resources)
    → Registry.get id reg ≡ some n
    → IsSmall req
    → (committed_int s.requests s.assignments id ≡ committed s.requests s.assignments id)
      × (add_int (committed_int s.requests s.assignments id) req
          ≡ add_resources (committed s.requests s.assignments id) req)
      × ((replica : String)
          → add_int (committed_except_int s.requests replica s.assignments id) req
            ≡ add_resources (committed_except s.requests replica s.assignments id) req)

within-IsBelow :
    (a b : Resources) (cap : ℤ × ℤ)
    → LessLoad a b
    → within b cap ≡ true
    → (cap.0 ≤ℤ pos half_int) × (cap.1 ≤ℤ pos half_int)
    → IsBelow half_int a
within-IsBelow a b cap l w k = ground arith

sum-IsBelow :
    (a b : Resources)
    → IsBelow half_int a
    → IsBelow half_int b
    → IsBelow max_int (add_resources a b)
sum-IsBelow a b h k = (omega int_laws, omega int_laws)

half-IsBelow : (a : Resources) → IsBelow half_int a → IsBelow max_int a
half-IsBelow a h = (omega arith, omega arith)

pub AllFit-NoWrap :
    (reg : Registry) (s : Scheduler)
    → HasSmallNodes reg
    → NonNegative s.requests
    → AllFit reg s
    → NoWrap reg s
AllFit-NoWrap reg s nodes clean all id n req found small =
    let used = committed s.requests s.assignments id in
    let cap = schedulable n in
    let fit = all.at_node id n found in
    let below =
      within-IsBelow used used cap (omega arith, omega arith) fit
        (schedulable_small n (nodes id n found)) in
    let exact = committed_int_exact s.requests clean s.assignments id (half-IsBelow used below) in
    (
      exact,
      rw exact (
          add_int_exact used req (committed-IsNonNegative s.requests clean s.assignments id) small.0
            (sum-IsBelow used req below small.1)),
      λ replica.
          let others = committed_except s.requests replica s.assignments id in
          let less = committed_except-LessLoad s.requests replica s.assignments id clean in
          let fewer =
            within-IsBelow others used cap less fit (schedulable_small n (nodes id n found)) in
          rw
            (committed_except_int_exact s.requests clean replica s.assignments id
              (half-IsBelow others fewer))
            (add_int_exact others req
              (committed_except-IsNonNegative s.requests clean replica s.assignments id) small.0
              (sum-IsBelow others req fewer small.1)),
    )
