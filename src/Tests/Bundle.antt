-- ===== src/Tests/Bundle.antt =====
-- internal/manifest on an app with one service and one ingress.
use smith.Manifest.Bundles.{GoodBundle, resolve-GoodBundle}
use smith.Manifest.{App, resolve, resolve_workload, resolve_services, Resolved}
use smith.Prelude.Int.{pos}
use smith.Prelude.Names.{matches_name}
use smith.Prelude.{◌≡◌, refl, none, some, [], ◌∷◌, ok}
use smith.Tests.Data.{half_cpu}
use smith.Types.{Workload}

abbrev pub web_app : App
web_app = record {
  name = "web";
  workload = record {
    image = "nginx:1.27";
    args = [];
    replicas = pos 2;
    max_unavailable = pos 0;
    env = [];
    resources = some half_cpu;
    volumes = [];
    ports = [];
    health_check = none;
  };
  service = some (record {
    name = "";
    port = pos 80;
    target_port = pos 8080;
    protocol = "";
    node_port = pos 0;
  });
  services = [];
  ingress = some (record { host = "web.example.org"; service = "" });
  ingresses = [];
}

abbrev pub web_workload : Workload
web_workload = record {
  id = "web";
  image = "nginx:1.27";
  args = [];
  health_check = none;
  ports = [];
  env = [];
  resources = some half_cpu;
  replicas = pos 2;
  max_unavailable = pos 1;
  volumes = [];
}

abbrev pub web_bundle : Resolved
web_bundle = record {
  workload = web_workload;
  services =
      record {
        name = "web";
        workload_id = "web";
        port = pos 80;
        target_port = pos 8080;
        protocol = "tcp";
        cluster_ip = "";
        node_port = pos 0;
      }
      ∷ [];
  ingresses = record { host = "web.example.org"; service = "web" } ∷ [];
}

resolve_web : resolve web_app ≡ ok web_bundle
unfolding resolve resolve_workload resolve_services matches_name
resolve_web = refl

pub resolve_web_workload : resolve_workload web_app ≡ ok web_workload
unfolding resolve_workload
resolve_web_workload = refl

resolve-GoodBundle_example : GoodBundle web_app web_bundle
resolve-GoodBundle_example = resolve-GoodBundle web_app resolve_web
