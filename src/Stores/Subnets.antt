-- ===== src/Stores/Subnets.antt =====
-- internal/reconciler/subnets_sqlite.go: the container subnet of each node, a /24 block of the /16
-- pool. `base` holds the first two bytes of the pool. Parsing the pool's CIDR and opening the database
-- are not modelled.
pub mod Unique
pub mod Persistence
use smith.Pool.{lowest_free}
use smith.Prelude.Assoc
use smith.Prelude.Assoc.{lookup}
use smith.Prelude.Decimal.{decimal}
use smith.Prelude.Text.{append, ◌==◌}
use smith.Prelude.{
  ℕ, String, Bool, false, ◌||◌, Option, none, some, List, [], ◌∷◌, map, if◌then◌else◌, ok, Result,
  eqb, err,
}
use smith.Stores.{Faults}
use smith.Types.{NetworkConfig}

pub record Row : Type 0 where
  pub idx : ℕ
  pub subnet : String

pub record SubnetAllocator : Type 0 where
  pub base : ℕ × ℕ
  pub rows : List (String × Row)

-- `fmt.Sprintf("%d.%d.%d", base[0], base[1], idx)` and the end of the text
unfoldable pub block : ℕ × ℕ → ℕ → String → String
unfolding decimal
block base idx end =
    append (decimal base.0)
      (append "." (append (decimal base.1) (append "." (append (decimal idx) (append "." end)))))

unfoldable pub config : SubnetAllocator → ℕ → NetworkConfig
unfolding block
config a idx = record { subnet = block a.base idx "0/24"; gateway = block a.base idx "1" }

pub data SubnetError : Type 0 where
  empty_node_id : SubnetError
  lookup_failed : String → SubnetError
  list_failed : SubnetError
  pool_exhausted : SubnetError
  persist_failed : String → SubnetError
  release_failed : String → SubnetError

-- `used[i]`
unfoldable pub uses_idx : List (String × Row) → ℕ → Bool
uses_idx [] i = false
uses_idx ((id, row) ∷ rows) i = eqb row.idx i || uses_idx rows i

-- the INSERT of a fresh index
unfoldable pub persist :
    Faults → String → ℕ → SubnetAllocator → SubnetAllocator × Result SubnetError NetworkConfig
unfolding config
persist faults id idx a = if faults.write then (a, err (persist_failed id)) else (
  record a { rows = Assoc.insert id (record { idx = idx; subnet = (config a idx).subnet }) a.rows },
  ok (config a idx),
)

unfoldable pub allocate_new :
    Faults → String → SubnetAllocator → SubnetAllocator × Result SubnetError NetworkConfig
unfolding persist lowest_free uses_idx
allocate_new faults id a =
    if faults.scan then (a, err list_failed) else elim (lowest_free (uses_idx a.rows) 256 0) [
      | none ↦ (a, err pool_exhausted)
      | some idx ↦ persist faults id idx a
    ]

unfoldable pub allocate :
    Faults → String → SubnetAllocator → SubnetAllocator × Result SubnetError NetworkConfig
unfolding allocate_new
allocate faults id a =
    if id == ""
    then (a, err empty_node_id)
    else if faults.lookup
    then (a, err (lookup_failed id))
    else elim (Assoc.lookup id a.rows) [
      | some row ↦ (a, ok (config a row.idx))
      | none ↦ allocate_new faults id a
    ]

unfoldable pub release : Faults → String → SubnetAllocator → SubnetAllocator × Option SubnetError
release faults id a =
    if faults.write
    then (a, some (release_failed id))
    else (record a { rows = Assoc.delete id a.rows }, none)

-- `All`: node ID -> subnet
unfoldable pub all_subnets : Faults → SubnetAllocator → Result SubnetError (List (String × String))
all_subnets faults a =
    if faults.scan then err list_failed else ok (map (λ e. (e.0, e.1.subnet)) a.rows)
