-- ===== src/Stores/Ingresses.antt =====
-- internal/reconciler/ingresses_sqlite.go: host -> service.
use smith.Prelude.Assoc
use smith.Prelude.Text.{◌==◌}
use smith.Prelude.{String, Option, none, some, List, map, if◌then◌else◌, ok, Result, err}
use smith.Stores.{Faults}
use smith.Types.{Ingress}

pub record IngressStore : Type 0 where
  pub rows : List (String × String)

pub data IngressError : Type 0 where
  empty_host : IngressError
  empty_service : String → IngressError
  list_ingresses_failed : IngressError
  ingress_write_failed : String → IngressError

unfoldable pub add_ingress : Faults → Ingress → IngressStore → IngressStore × Option IngressError
add_ingress faults ing s =
    if ing.host == ""
    then (s, some empty_host)
    else if ing.service == ""
    then (s, some (empty_service ing.host))
    else if faults.write
    then (s, some (ingress_write_failed ing.host))
    else (record s { rows = Assoc.insert ing.host ing.service s.rows }, none)

unfoldable pub list_ingresses : Faults → IngressStore → Result IngressError (List Ingress)
list_ingresses faults s =
    if faults.scan
    then err list_ingresses_failed
    else ok (map (λ e. record { host = e.0; service = e.1 }) s.rows)

unfoldable pub remove_ingress : Faults → String → IngressStore → IngressStore × Option IngressError
remove_ingress faults host s =
    if faults.write
    then (s, some (ingress_write_failed host))
    else (record s { rows = Assoc.delete host s.rows }, none)
