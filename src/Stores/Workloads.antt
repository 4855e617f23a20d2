-- ===== src/Stores/Workloads.antt =====
-- internal/reconciler/store_sqlite.go: the desired workloads in a table, with the nested values as JSON
-- text. encoding/json is a parameter, and encoding does not fail. A column that an older version has
-- left NULL reads as the empty text, or as 0. Opening the database and the migration are not modelled.
pub mod Refinement
use smith.Desired.{empty_id, StoreError, empty_image}
use smith.Prelude.Assoc
use smith.Prelude.Int.{ℤ}
use smith.Prelude.Text.{◌==◌}
use smith.Prelude.{
  String, Bool, ◌||◌, Option, none, some, List, [], ◌∷◌, ◌>>=◌, if◌then◌else◌, err, ok, Result,
}
use smith.Stores.{Faults}
use smith.Types.{PortMapping, Workload, HealthCheck, Volume, Resources}

pub record Codec (A : Type 0) : Type 0 where
  pub encode : A → String
  pub decode : String → Option A

pub record Codecs : Type 0 where
  pub args : Codec (List String)
  pub health_check : Codec HealthCheck
  pub ports : Codec (List PortMapping)
  pub env : Codec (List (String × String))
  pub resources : Codec Resources
  pub volumes : Codec (List Volume)

pub record WorkloadRow : Type 0 where
  pub image : String
  pub args : String
  pub health_check : String
  pub ports : String
  pub env : String
  pub resources : String
  pub replicas : ℤ
  pub max_unavailable : ℤ
  pub volumes : String

pub record SqliteStore : Type 0 where
  pub rows : List (String × WorkloadRow)

pub data SqliteError : Type 0 where
  invalid_workload : StoreError → SqliteError
  upsert_workload_failed : String → SqliteError
  remove_workload_failed : String → SqliteError
  query_workloads_failed : SqliteError
  unmarshal_failed : String → String → SqliteError

-- a nil pointer, or an empty list, is the empty text
abbrev pub optional_text : {A : Type 0} → Codec A → Option A → String
optional_text c none = ""
optional_text c (some a) = c.encode a

abbrev pub list_text : {A : Type 0} → Codec (List A) → List A → String
list_text c [] = ""
list_text c (x ∷ xs) = c.encode (x ∷ xs)

abbrev pub is_blank : String → Bool
is_blank text = text == "" || text == "null"

-- a column that must decode, by its name and the ID of its workload
abbrev pub decoded : {A : Type 0} → String → String → Option A → Result SqliteError A
decoded column id none = err (unmarshal_failed column id)
decoded column id (some a) = ok a

abbrev pub optional_of :
    {A : Type 0} → Codec A → String → String → String → Result SqliteError (Option A)
optional_of c column id text =
    if is_blank text then ok none else (decoded column id (c.decode text) >>= λ a. ok (some a))

abbrev pub list_of :
    {A : Type 0} → Codec (List A) → String → String → String → Result SqliteError (List A)
list_of c column id text = if is_blank text then ok [] else decoded column id (c.decode text)

module _ (cs : Codecs) where
  unfoldable pub row_of : Workload → WorkloadRow
  row_of w = record {
    image = w.image;
    args = cs.args.encode w.args;
    health_check = optional_text cs.health_check w.health_check;
    ports = list_text cs.ports w.ports;
    env = list_text cs.env w.env;
    resources = optional_text cs.resources w.resources;
    replicas = w.replicas;
    max_unavailable = w.max_unavailable;
    volumes = list_text cs.volumes w.volumes;
  }

  -- the scan of one row
  unfoldable pub workload_of : String → WorkloadRow → Result SqliteError Workload
  workload_of id row = do
    args ← decoded "args" id (cs.args.decode row.args)
    health_check ← optional_of cs.health_check "health check" id row.health_check
    ports ← list_of cs.ports "ports" id row.ports
    env ← list_of cs.env "env" id row.env
    resources ← optional_of cs.resources "resources" id row.resources
    volumes ← list_of cs.volumes "volumes" id row.volumes
    ok (record {
      id = id;
      image = row.image;
      args = args;
      health_check = health_check;
      ports = ports;
      env = env;
      resources = resources;
      replicas = row.replicas;
      max_unavailable = row.max_unavailable;
      volumes = volumes;
    })

  unfoldable pub sqlite_add : Faults → Workload → SqliteStore → SqliteStore × Option SqliteError
  unfolding row_of
  sqlite_add faults w t =
      if w.id == ""
      then (t, some (invalid_workload empty_id))
      else if w.image == ""
      then (t, some (invalid_workload (empty_image w.id)))
      else if faults.write
      then (t, some (upsert_workload_failed w.id))
      else (record t { rows = Assoc.insert w.id (row_of w) t.rows }, none)

  unfoldable pub sqlite_remove : Faults → String → SqliteStore → SqliteStore × Option SqliteError
  sqlite_remove faults id t =
      if faults.write
      then (t, some (remove_workload_failed id))
      else (record t { rows = Assoc.delete id t.rows }, none)

  -- the loop of `List`, which ends at the first row that does not decode
  unfoldable pub workloads_of :
      List (String × WorkloadRow) → Result SqliteError (List (String × Workload))
  unfolding workload_of
  workloads_of [] = ok []
  workloads_of ((id, row) ∷ rest) =
      workload_of id row >>= λ w. workloads_of rest >>= λ others. ok ((id, w) ∷ others)

  unfoldable pub sqlite_list : Faults → SqliteStore → Result SqliteError (List (String × Workload))
  unfolding workloads_of
  sqlite_list faults t = if faults.scan then err query_workloads_failed else workloads_of t.rows
