-- ===== src/Stores.antt =====
-- The SQLite stores of internal/reconciler. A table is a list of rows under their primary key, in the
-- order in which a query returns them; a statement that fails changes nothing. The database itself is
-- a library outside this repository: which of a call's statements fail is an argument.
pub mod Subnets
pub mod Services
pub mod Ingresses
pub mod Workloads
use smith.Prelude.{Bool, false}

pub record Faults : Type 0 where
  pub lookup : Bool
  pub scan : Bool
  pub write : Bool

abbrev pub no_faults : Faults
no_faults = record { lookup = false; scan = false; write = false }
