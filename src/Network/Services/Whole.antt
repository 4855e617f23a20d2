-- ===== src/Network/Services/Whole.antt =====
-- `Sync` of internal/runtime/service_proxy.go as a whole: its last step leaves the nat table alone.
use smith.Network.Services.Chains.{chain_rules, DistinctChains}
use smith.Network.Services.Dispatch.{dispatch_rules}
use smith.Network.Services.Ports.{
  set_port, is_open, on_rules, open_port, unset_port, wanted_ports, close_port, sync_node_ports,
  Proxy, open_ports, accept_rule, close_ports, sync_proxy,
}
use smith.Network.Services.Synced.{each_item, sync_chains-synced}
use smith.Network.Services.{
  sync_chains, services_chain, Texts, filter_table, is_stale, nat_table, service_chain,
}
use smith.Network.{OnlyChanges, Iptables, then_done, IsIptables}
use smith.Prelude.Assoc
use smith.Prelude.Int.{ℤ}
use smith.Prelude.{
  String, ◌≡◌, refl, sym, ap, ◌∙◌, Bool, true, false, ◌&&◌, some, List, [], ◌∷◌, All, true-false,
  if◌then◌else◌,
}
use smith.Types.{ServiceEndpoints}

module _ (ipt : Iptables) (laws : IsIptables ipt) where
  -- no rule has changed but those of the chain INPUT of the table filter
  abbrev Kept : ipt.State → ipt.State → Type 0
  Kept = OnlyChanges ipt filter_table "INPUT"

  Kept-visited :
      (skip failed : Bool) (s s' : ipt.State) (ports new : List (ℤ × String))
      → (failed ≡ false → Kept s s')
      → (if◌then◌else◌ {A = Proxy ipt × Bool} skip
          ((s, ports), false)
          (if failed then ((s', ports), true) else ((s', new), false))).1
        ≡ false
      → Kept s
          (if◌then◌else◌ {A = Proxy ipt × Bool} skip
            ((s, ports), false)
            (if failed then ((s', ports), true) else ((s', new), false))).0.0
  Kept-visited true failed s s' ports new f h = λ t c out. refl
  Kept-visited false true s s' ports new f h = absurd (true-false h)
  Kept-visited false false s s' ports new f h = f refl

  open_ports-Kept :
      (want : List (ℤ × String)) (p : Proxy ipt)
      → (open_ports ipt want p).1 ≡ false
      → Kept p.0 (open_ports ipt want p).0.0
  unfolding open_ports open_port
  open_ports-Kept [] p h t c out = refl
  open_ports-Kept ((port, protocol) ∷ want) (s, ports) h t c out =
      let rule = accept_rule port protocol in
      let m = ipt.append_unique filter_table "INPUT" rule in
      let (first, second, same) =
        then_done (open_port ipt port protocol) (open_ports ipt want) (s, ports) h in
      ap (λ (q : Proxy ipt). ipt.rules q.0 t c) same
      ∙ open_ports-Kept want (open_port ipt port protocol (s, ports)).0 second t c out
      ∙ Kept-visited (is_open port ports) (m s).1 s (m s).0 ports (set_port port protocol ports)
          (laws.append_unique_law filter_table "INPUT" rule s) first t c out

  close_ports-Kept :
      (want entries : List (ℤ × String)) (p : Proxy ipt)
      → (close_ports ipt want entries p).1 ≡ false
      → Kept p.0 (close_ports ipt want entries p).0.0
  unfolding close_ports close_port
  close_ports-Kept want [] p h t c out = refl
  close_ports-Kept want ((port, protocol) ∷ entries) (s, ports) h t c out =
      let rule = accept_rule port protocol in
      let m = ipt.delete_if_exists filter_table "INPUT" rule in
      let (first, second, same) =
        then_done (close_port ipt want port protocol) (close_ports ipt want entries) (s, ports) h in
      ap (λ (q : Proxy ipt). ipt.rules q.0 t c) same
      ∙ close_ports-Kept want entries (close_port ipt want port protocol (s, ports)).0 second t c
          out
      ∙ Kept-visited (is_open port want) (m s).1 s (m s).0 ports (unset_port port ports)
          (laws.delete_if_exists_law filter_table "INPUT" rule s) first t c out

  sync_node_ports-Kept :
      (services : List ServiceEndpoints) (p : Proxy ipt)
      → (sync_node_ports ipt services p).1 ≡ false
      → Kept p.0 (sync_node_ports ipt services p).0.0
  unfolding sync_node_ports
  sync_node_ports-Kept services p h t c out =
      let want = wanted_ports services [] in
      let close : Proxy ipt → Proxy ipt × Bool = λ q. close_ports ipt want q.1 q in
      let (first, second, same) = then_done (open_ports ipt want) close p h in
      let q = (open_ports ipt want p).0 in
      ap (λ (x : Proxy ipt). ipt.rules x.0 t c) same
      ∙ close_ports-Kept want q.1 q second t c out
      ∙ open_ports-Kept want p first t c out

  module _ (tx : Texts) (services : List ServiceEndpoints) where
    abbrev chains : Proxy ipt → Proxy ipt × Bool
    chains = on_rules ipt (sync_chains ipt tx services) (λ ports. ports)

    chains_state :
        (failed : Bool) (s : ipt.State) (ports : List (ℤ × String))
        → (if◌then◌else◌ {A = Proxy ipt × Bool} failed ((s, ports), true) ((s, ports), false)).1
          ≡ failed
    chains_state true s ports = refl
    chains_state false s ports = refl

    chains_rules :
        (failed : Bool) (s : ipt.State) (ports : List (ℤ × String))
        → (if◌then◌else◌ {A = Proxy ipt × Bool} failed ((s, ports), true) ((s, ports), false)).0.0
          ≡ s
    chains_rules true s ports = refl
    chains_rules false s ports = refl

    -- the nat table after a `Sync` is the one that its first steps leave
    sync_proxy-rules :
        (s : ipt.State) (ports : List (ℤ × String))
        → (sync_proxy ipt tx services (s, ports)).1 ≡ false
        → ((sync_chains ipt tx services s).1 ≡ false)
          × ((c : String)
              → ipt.rules (sync_proxy ipt tx services (s, ports)).0.0 nat_table c
                ≡ ipt.rules (sync_chains ipt tx services s).0 nat_table c)
    unfolding sync_proxy
    sync_proxy-rules s ports h =
        let (first, second, same) = then_done chains (sync_node_ports ipt services) (s, ports) h in
        let (s', failed) = sync_chains ipt tx services s in
        (
          sym (chains_state failed s' ports) ∙ first,
          (λ c.
              ap (λ (x : Proxy ipt). ipt.rules x.0 nat_table c) same
              ∙ sync_node_ports-Kept services (chains (s, ports)).0 second nat_table c refl
              ∙ ap (λ x. ipt.rules x nat_table c) (chains_rules failed s' ports)),
        )

    -- After a Sync in which no command of iptables fails, and if no two services have the same name of
    -- a chain, each service's chain marks a packet and balances it over the service's endpoints in
    -- their order: in equal shares, to the target port, with the service's protocol or tcp. SMITH-SERVICES dispatches to the services in their order, and no other chain is
    -- called by a name that starts with SMITH-SVC-.
    pub sync_proxy-synced :
        (s : ipt.State) (ports : List (ℤ × String)) (c : String)
        → DistinctChains tx services
        → (sync_proxy ipt tx services (s, ports)).1 ≡ false
        → All
            (λ svc.
              ipt.rules
                (sync_proxy ipt tx services (s, ports)).0.0
                nat_table
                (service_chain tx svc.name)
              ≡ some (chain_rules tx svc.protocol svc.target_port svc.endpoints))
            services
          × (ipt.rules (sync_proxy ipt tx services (s, ports)).0.0 nat_table services_chain
              ≡ some (dispatch_rules tx services))
          × (is_stale ipt tx services c
                && Assoc.is_some (ipt.rules (sync_proxy ipt tx services (s, ports)).0.0 nat_table c)
              ≡ false)
    sync_proxy-synced s ports c distinct h =
        let (begun, same) = sync_proxy-rules s ports h in
        let (filled, dispatched, removed) =
          sync_chains-synced ipt laws tx services s c distinct begun in
        (
          each_item services (λ v m e. same (service_chain tx v.name) ∙ e) filled,
          same services_chain ∙ dispatched,
          ap (λ x. is_stale ipt tx services c && Assoc.is_some x) (same c) ∙ removed,
        )
