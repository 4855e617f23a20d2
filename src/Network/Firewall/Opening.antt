-- ===== src/Network/Firewall/Opening.antt =====
-- The rules that internal/runtime/firewall.go leaves in the chain INPUT.
use smith.Network.Firewall.{
  open_host_port, port_rule, close_host_port, unless_there, ensure_rule, if_there,
}
use smith.Network.{rule_in, same_rule, Iptables, IsIptables, remove_rule}
use smith.Prelude.Int.{ℤ}
use smith.Prelude.Text.{eq_refl}
use smith.Prelude.{
  String, ◌≡◌, refl, sym, ap, ◌∙◌, Bool, true, false, Option, none, some, List, [], ◌∷◌, All,
  if◌then◌else◌, true-false,
}
use smith.Types.{PortMapping}

same_rule_refl : (r : List String) → same_rule r r ≡ true
same_rule_refl [] = refl
same_rule_refl (a ∷ r) = rw (eq_refl a) (same_rule_refl r)

abbrev pub with_rule : List String → List (List String) → List (List String)
with_rule r rules = if rule_in r rules then rules else r ∷ rules

-- the rules of INPUT with those of published ports
abbrev pub with_ports : List PortMapping → List (List String) → List (List String)
with_ports [] rules = rules
with_ports (p ∷ ports) rules = with_ports ports (with_rule (port_rule p.host_port p.protocol) rules)

abbrev pub Accepts : List PortMapping → List (List String) → Type 0
Accepts ports rules = All (λ p. rule_in (port_rule p.host_port p.protocol) rules ≡ true) ports

module _ (ipt : Iptables) (laws : IsIptables ipt) where
  ensure_rule-rules :
      (t c : String) (r : List String) (s : ipt.State) (before : List (List String))
      → ipt.rules s t c ≡ some before
      → (ensure_rule ipt t c r s).1 ≡ false
      → ipt.rules (ensure_rule ipt t c r s).0 t c ≡ some (with_rule r before)
  unfolding ensure_rule
  ensure_rule-rules t c r s before e h = asked (ipt.has_rule t c r s) refl h
    where
      asked :
          (o : Option Bool)
          → ipt.has_rule t c r s ≡ o
          → (unless_there ipt o (ipt.insert_rule t c r) s).1 ≡ false
          → ipt.rules (unless_there ipt o (ipt.insert_rule t c r) s).0 t c
            ≡ some (with_rule r before)
      asked none q h = absurd (true-false h)
      asked (some true) q h = rw (sym (laws.has_rule_law t c r s true before e q)) e
      asked (some false) q h =
          rw (sym (laws.has_rule_law t c r s false before e q))
            (laws.insert_rule_law t c r s before e h).0

  close_host_port-rules :
      (port : ℤ) (protocol : String) (s : ipt.State) (before : List (List String))
      → ipt.rules s "filter" "INPUT" ≡ some before
      → (close_host_port ipt port protocol s).1 ≡ false
      → ipt.rules (close_host_port ipt port protocol s).0 "filter" "INPUT"
        ≡ some (
            if rule_in (port_rule port protocol) before
            then remove_rule (port_rule port protocol) before
            else before)
  unfolding close_host_port
  close_host_port-rules port protocol s before e h =
      asked (ipt.has_rule "filter" "INPUT" rule s) refl h
    where
      rule : List String
      rule = port_rule port protocol

      asked :
          (o : Option Bool)
          → ipt.has_rule "filter" "INPUT" rule s ≡ o
          → (if_there ipt o (ipt.delete_rule "filter" "INPUT" rule) s).1 ≡ false
          → ipt.rules (if_there ipt o (ipt.delete_rule "filter" "INPUT" rule) s).0 "filter" "INPUT"
            ≡ some (if rule_in rule before then remove_rule rule before else before)
      asked none q h = absurd (true-false h)
      asked (some true) q h =
          rw (sym (laws.has_rule_law "filter" "INPUT" rule s true before e q))
            (laws.delete_rule_law "filter" "INPUT" rule s before e h).0
      asked (some false) q h =
          rw (sym (laws.has_rule_law "filter" "INPUT" rule s false before e q)) e

  -- If INPUT has no rule for a port, and no command of iptables fails, ClosePort after OpenPort leaves
  -- INPUT as it was.
  pub close_host_port-open_host_port :
      (port : ℤ) (protocol : String) (s : ipt.State) (before : List (List String))
      → ipt.rules s "filter" "INPUT" ≡ some before
      → rule_in (port_rule port protocol) before ≡ false
      → (open_host_port ipt port protocol s).1 ≡ false
      → (close_host_port ipt port protocol (open_host_port ipt port protocol s).0).1 ≡ false
      → ipt.rules
          (close_host_port ipt port protocol (open_host_port ipt port protocol s).0).0
          "filter"
          "INPUT"
        ≡ some before
  unfolding open_host_port
  close_host_port-open_host_port port protocol s before e fresh h closed =
      let r = port_rule port protocol in
      close_host_port-rules port protocol (open_host_port ipt port protocol s).0
        (with_rule r before) (ensure_rule-rules "filter" "INPUT" r s before e h) closed
      ∙ ap some (removed r fresh)
    where
      removed :
          (r : List String)
          → rule_in r before ≡ false
          → (if rule_in r (with_rule r before)
              then remove_rule r (with_rule r before)
              else with_rule r before)
            ≡ before
      removed r fresh = rw fresh (rw (same_rule_refl r) refl)
