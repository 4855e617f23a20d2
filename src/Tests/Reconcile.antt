-- ===== src/Tests/Reconcile.antt =====
-- internal/reconciler/reconciler.go on two nodes whose agents accept every call.
use smith.Desired.Expand.{IsReplica, expand-IsReplica, at_least_one}
use smith.Desired.{store_add, Instance, store_remove, Store, Canonical, expand}
use smith.Prelude.Assoc.{lookup, has}
use smith.Prelude.Decimal.{decimal}
use smith.Prelude.Int.{pos}
use smith.Prelude.Text.{append}
use smith.Prelude.{
  ℕ, ◌<◌, String, ◌≡◌, refl, ap, inl, inr, true, none, some, List, [], ◌∷◌, Elem, ok,
}
use smith.Reconciler.Eviction.{AreEvicted, evict_nodes-AreEvicted}
use smith.Reconciler.Pass.Calls.{Calls}
use smith.Reconciler.Pass.Safety.{IsSafeWorld}
use smith.Reconciler.Pass.Whole.{AllSmall, reconcile-IsSafe}
use smith.Reconciler.Pass.{reconcile, Pass}
use smith.Reconciler.{Network, evict_nodes, World}
use smith.Scheduler
use smith.Scheduler.Machine.{NoWrap}
use smith.Scheduler.{Scheduler}
use smith.Stores.Workloads.Refinement.{sqlite-Represents, rows_of, Represents, refused, IsWritable}
use smith.Stores.Workloads.{SqliteStore, sqlite_remove, Codec, sqlite_list, Codecs, sqlite_add}
use smith.Stores.{no_faults}
use smith.Tests.Data.{
  two_nodes, two_nodes-IsKeyed, one_replica_on_a, one_replica_on_a-IsConsistent, half_cpu, node_a,
  thousandths,
}
use smith.Tests.Schedule.{half_cpu-IsSmall, two_nodes-HasSmallNodes, empty-IsSafe}
use smith.Types.{Workload, no_workload}

abbrev willing : Network
willing = record { accepts = λ calls c. true; statuses = λ calls addr. none; clock = λ calls. 200 }

abbrev image_digest : Canonical → String
image_digest c = c.image

abbrev web : Workload
web = record no_workload {
  id = "web";
  image = "nginx:1.27";
  replicas = pos 2;
  resources = some half_cpu;
}

abbrev web_0 : Instance
web_0 = record { wl = record web { id = "web-0"; replicas = pos 0 }; parent = "web" }

abbrev stored_web : List (String × Workload)
stored_web = ("web", web) ∷ []

-- "web-0" was pushed to "a"
abbrev after_push : World
after_push = record {
  scheduler = one_replica_on_a;
  registry = two_nodes;
  pushed = ("web-0", record { node_id = "a"; pushed_at = 150; hash = "nginx:1.26" }) ∷ [];
  calls = [];
}

abbrev pass_of : World → Pass
pass_of w = record { world = w; unavailable = λ q. 0 }

evict_nodes-AreEvicted_example :
    AreEvicted (node_a ∷ []) after_push (evict_nodes (node_a ∷ []) after_push)
evict_nodes-AreEvicted_example =
    evict_nodes-AreEvicted (node_a ∷ []) after_push one_replica_on_a-IsConsistent

expand-IsReplica_example :
    ((rid : String) (inst : Instance)
      → lookup rid (expand stored_web) ≡ some inst
      → IsReplica stored_web rid inst)
    × ((id : String) (w : Workload) (i : ℕ)
        → Elem (id, w) stored_web
        → i < at_least_one w.replicas
        → has (append id (append "-" (decimal i))) (expand stored_web) ≡ true)
    × ((id : String) (i j : ℕ)
        → append id (append "-" (decimal i)) ≡ append id (append "-" (decimal j))
        → i ≡ j)
expand-IsReplica_example = expand-IsReplica stored_web

-- the first pass of a control plane that has seen two nodes
abbrev fresh_world : World
fresh_world = record { scheduler = Scheduler.empty; registry = two_nodes; pushed = []; calls = [] }

web_small : AllSmall stored_web
web_small id w (inl e) = rw (ap (λ (x : String × Workload). x.1) e) half_cpu-IsSmall
web_small id w (inr none_left) = absurd none_left

reconcile-IsSafe_example :
    IsSafeWorld (reconcile willing image_digest thousandths 1000 (some stored_web) fresh_world).0
    × NoWrap
        (reconcile willing image_digest thousandths 1000 (some stored_web) fresh_world).0.registry
        (reconcile willing image_digest thousandths 1000 (some stored_web) fresh_world).0.scheduler
reconcile-IsSafe_example =
    reconcile-IsSafe willing image_digest thousandths 1000 stored_web fresh_world web_small
      ((two_nodes-IsKeyed, two_nodes-HasSmallNodes), empty-IsSafe)

-- the texts that the workload "web" is written as and read from
abbrev unused_codec : {A : Type 0} → Codec A
unused_codec = record { encode = λ a. "{}"; decode = λ text. none }

abbrev web_codecs : Codecs
web_codecs = record {
  args = record { encode = λ l. "[]"; decode = λ text. some [] };
  health_check = unused_codec;
  ports = unused_codec;
  env = unused_codec;
  resources = record { encode = λ r. "{cpus:0.5}"; decode = λ text. some half_cpu };
  volumes = unused_codec;
}

web-IsWritable : IsWritable web_codecs web
web-IsWritable = record {
  args = refl;
  health_check = tt;
  ports = tt;
  env = tt;
  resources = (refl, refl);
  volumes = tt;
}

abbrev web_store : Store
web_store = record { workloads = stored_web }

abbrev web_table : SqliteStore
web_table = record { rows = rows_of web_codecs stored_web }

sqlite-Represents_example :
    (sqlite_list web_codecs no_faults web_table ≡ ok stored_web)
    × ((w : Workload)
        → IsWritable web_codecs w
        → Represents web_codecs
            (store_add w web_store).0
            (sqlite_add web_codecs no_faults w web_table).0
          × ((sqlite_add web_codecs no_faults w web_table).1 ≡ refused (store_add w web_store).1))
    × ((id : String)
        → Represents web_codecs
            (store_remove id web_store)
            (sqlite_remove web_codecs no_faults id web_table).0)
sqlite-Represents_example =
    sqlite-Represents web_codecs web_store web_table
      (record { rows = refl; stored = ((refl, web-IsWritable), tt) })
