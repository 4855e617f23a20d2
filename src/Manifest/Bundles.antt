-- ===== src/Manifest/Bundles.antt =====
-- What `Resolve` of internal/manifest/resolve.go guarantees of a whole bundle.
use smith.Manifest.Services.{
  GoodIngress, resolve_services-ok, FreshServices, GoodService, resolve_ingresses-ok,
}
use smith.Manifest.Workloads.{resolve_workload-GoodWorkload, GoodWorkload}
use smith.Manifest.{
  resolve_workload, is_empty, resolve, resolve_ingresses, resolve_services, Resolved, App,
}
use smith.Prelude.Assoc.{is_some}
use smith.Prelude.Names.{matches_name}
use smith.Prelude.Text.{◌==◌}
use smith.Prelude.{
  ◌≡◌, true, not, ◌&&◌, [], arith, All, bind_passed, refuse_if_passed, ok, ok_injective,
}

pub record GoodBundle (a : App) (r : Resolved) : Type 0 where
  pub named : matches_name a.name ≡ true
  pub workload : GoodWorkload a r.workload
  pub services : All (GoodService a.name) r.services
  pub fresh : FreshServices [] r.services
  pub ingresses : All (GoodIngress r.services) r.ingresses

-- A bundle that resolves has a good name and a good workload under it; its services are for this
-- workload, with good names, each once, a positive port and a known protocol; and its ingresses have a
-- host and one of these services.
pub resolve-GoodBundle : (a : App) {r : Resolved} → resolve a ≡ ok r → GoodBundle a r
unfolding resolve
resolve-GoodBundle a {r} h =
    let (x1, h1) = refuse_if_passed (a.name == "") _ _ h in
    let (named, h2) = refuse_if_passed (not (matches_name a.name)) _ _ h1 in
    let (x2, h3) = refuse_if_passed (is_some a.service && not (is_empty a.services)) _ _ h2 in
    let (x3, h4) = refuse_if_passed (is_some a.ingress && not (is_empty a.ingresses)) _ _ h3 in
    let (wl, workload, h5) = bind_passed (resolve_workload a) _ h4 in
    let (svcs, services, h6) = bind_passed (resolve_services a) _ h5 in
    let (ings, ingresses, built) = bind_passed (resolve_ingresses a svcs) _ h6 in
    let good = resolve_services-ok a services in
    rw (← ok_injective built) (record {
      named = ground arith;
      workload = resolve_workload-GoodWorkload a workload;
      services = good.0;
      fresh = good.1;
      ingresses = resolve_ingresses-ok a svcs ingresses;
    })
