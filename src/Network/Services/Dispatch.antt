-- ===== src/Network/Services/Dispatch.antt =====
-- What the last two commands of internal/runtime/service_proxy.go leave: the chain that dispatches to
-- the services, and no chain of a service that is gone.
use mathlib.Core.List.{append_assoc, append-nil}
use smith.Network.Services.{
  cluster_ip_rule, services_chain, Texts, nat_table, node_port_rule, populate_services_chain,
  int_text, service_chain, append_dispatch, append_when,
}
use smith.Network.{OnlyChanges, Iptables, then_done, ◌>=>◌, IsIptables}
use smith.Prelude.Int.{ltb_ℤ, pos}
use smith.Prelude.Text.{append, ◌==◌}
use smith.Prelude.{
  String, ◌≡◌, refl, sym, ap, ◌∙◌, Bool, true, false, not, ◌&&◌, some, List, [], ◌∷◌, ◌++◌,
  if◌then◌else◌,
}
use smith.Types.{ServiceEndpoints}

abbrev pub rule_when : Bool → List String → List (List String)
rule_when true r = r ∷ []
rule_when false r = []

-- the rules of the chain of the services
abbrev pub dispatch_rules : Texts → List ServiceEndpoints → List (List String)
dispatch_rules tx [] = []
dispatch_rules tx (svc ∷ services) =
    (rule_when (not (svc.cluster_ip == "") && ltb_ℤ (pos 0) svc.port) (
        "-d"
        ∷ append svc.cluster_ip "/32"
        ∷ "-p"
        ∷ (if svc.protocol == "" then "tcp" else svc.protocol)
        ∷ "--dport"
        ∷ int_text svc.port
        ∷ "-j"
        ∷ service_chain tx svc.name
        ∷ [])
      ++ rule_when (ltb_ℤ (pos 0) svc.node_port) (
          "-p"
          ∷ (if svc.protocol == "" then "tcp" else svc.protocol)
          ∷ "-m"
          ∷ "addrtype"
          ∷ "--dst-type"
          ∷ "LOCAL"
          ∷ "--dport"
          ∷ int_text svc.node_port
          ∷ "-j"
          ∷ service_chain tx svc.name
          ∷ []))
    ++ dispatch_rules tx services

module _ (ipt : Iptables) (laws : IsIptables ipt) (tx : Texts) where
  -- a command that adds rules to the chain of the services, and changes no other chain
  abbrev Adds : List (List String) → (ipt.State → ipt.State × Bool) → Type 0
  Adds added m =
      (s : ipt.State) (before : List (List String))
      → ipt.rules s nat_table services_chain ≡ some before
      → (m s).1 ≡ false
      → (ipt.rules (m s).0 nat_table services_chain ≡ some (before ++ added))
        × OnlyChanges ipt nat_table services_chain s (m s).0

  Adds-then :
      (a b : List (List String)) (m k : ipt.State → ipt.State × Bool)
      → Adds a m
      → Adds b k
      → Adds (a ++ b) (m >=> k)
  Adds-then a b m k f g s before e h =
      let (first, second, same) = then_done m k s h in
      let (added, others) = f s before e first in
      let (added', others') = g (m s).0 (before ++ a) added second in
      (
        ap (λ x. ipt.rules x nat_table services_chain) same
            ∙ added'
            ∙ ap some (append_assoc before a b),
        (λ t c out. ap (λ x. ipt.rules x t c) same ∙ others' t c out ∙ others t c out),
      )

  append_when-Adds : (b : Bool) (r : List String) → Adds (rule_when b r) (append_when ipt tx b r)
  append_when-Adds true r =
      λ s before e h. laws.append_rule_law nat_table services_chain r s before e h
  append_when-Adds false r =
      λ s before e h. (e ∙ ap some (sym (append-nil before)), (λ t c out. refl))

  append_dispatch-Adds :
      (services : List ServiceEndpoints)
      → Adds (dispatch_rules tx services) (append_dispatch ipt tx services)
  unfolding append_dispatch
  append_dispatch-Adds [] =
      λ s before e h. (e ∙ ap some (sym (append-nil before)), (λ t c out. refl))
  append_dispatch-Adds (svc ∷ services) =
      let has_ip = not (svc.cluster_ip == "") && ltb_ℤ (pos 0) svc.port in
      let has_port = ltb_ℤ (pos 0) svc.node_port in
      let by_ip = cluster_ip_rule tx svc in
      let by_port = node_port_rule tx svc in
      Adds-then (rule_when has_ip by_ip ++ rule_when has_port by_port) (dispatch_rules tx services)
        (append_when ipt tx has_ip by_ip >=> append_when ipt tx has_port by_port)
        (append_dispatch ipt tx services)
        (Adds-then (rule_when has_ip by_ip) (rule_when has_port by_port)
          (append_when ipt tx has_ip by_ip) (append_when ipt tx has_port by_port)
          (append_when-Adds has_ip by_ip) (append_when-Adds has_port by_port))
        (append_dispatch-Adds services)

  pub populate_services_chain-rules :
      (services : List ServiceEndpoints) (s : ipt.State)
      → (populate_services_chain ipt tx services s).1 ≡ false
      → (ipt.rules (populate_services_chain ipt tx services s).0 nat_table services_chain
          ≡ some (dispatch_rules tx services))
        × OnlyChanges ipt nat_table services_chain s (populate_services_chain ipt tx services s).0
  unfolding populate_services_chain
  populate_services_chain-rules services s h =
      let clear = ipt.clear_chain nat_table services_chain in
      let (first, second, same) = then_done clear (append_dispatch ipt tx services) s h in
      let (bare, others) = laws.clear_chain_law nat_table services_chain s first in
      let (filled, others') = append_dispatch-Adds services (clear s).0 [] bare second in
      (
        ap (λ x. ipt.rules x nat_table services_chain) same ∙ filled,
        (λ t c out. ap (λ x. ipt.rules x t c) same ∙ others' t c out ∙ others t c out),
      )
