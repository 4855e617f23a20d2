-- ===== src/Network/Services/Chains.antt =====
-- What the commands of internal/runtime/service_proxy.go leave in the chains of the services.
use mathlib.Core.List.{append_assoc, append-nil}
use mathlib.Core.Path.{subst}
use smith.Network.Services.{
  build_chains, is_desired_chain, backend_rule, Texts, or_tcp, nat_table, populate_service_chain,
  mark_rule, ensure_chain, when_missing, int_text, append_backends, service_chain,
}
use smith.Network.{same_chain, OnlyChanges, Iptables, then_done, ◌>=>◌, IsIptables}
use smith.Prelude.Int.{ℤ}
use smith.Prelude.Text.{append, ◌==◌}
use smith.Prelude.{
  ℕ, suc, String, ◌≡◌, refl, sym, ap, ◌∙◌, Bool, true, false, ◌&&◌, ◌||◌, Option, none, some, List,
  [], ◌∷◌, ◌++◌, arith, length, All, true-false, if◌then◌else◌, ltb,
}
use smith.Types.{ServiceEndpoints}

-- the words that send a packet on to an endpoint
abbrev pub sends_to : ℤ → String → List String
sends_to target_port ep =
    "-j" ∷ "DNAT" ∷ "--to-destination" ∷ append ep (append ":" (int_text target_port)) ∷ []

-- An equal share for each endpoint: the first of n takes one packet in n, the others share what is left,
-- and the last takes what reaches it.
abbrev pub shared_among : Texts → String → ℤ → List String → List (List String)
shared_among tx protocol target_port [] = []
shared_among tx protocol target_port (ep ∷ []) = ("-p" ∷ protocol ∷ sends_to target_port ep) ∷ []
shared_among tx protocol target_port (ep ∷ other ∷ others) =
    ("-p"
      ∷ protocol
      ∷ "-m"
      ∷ "statistic"
      ∷ "--mode"
      ∷ "random"
      ∷ "--probability"
      ∷ tx.probability (length (ep ∷ other ∷ others))
      ∷ sends_to target_port ep)
    ∷ shared_among tx protocol target_port (other ∷ others)

-- the rules of a service's chain, by its protocol, its target port and its endpoints
abbrev pub chain_rules : Texts → String → ℤ → List String → List (List String)
chain_rules tx protocol target_port endpoints =
    ("-j" ∷ "SMITH-MARK-MASQ" ∷ [])
    ∷ shared_among tx (if protocol == "" then "tcp" else protocol) target_port endpoints

abbrev pub rules_of : Texts → ServiceEndpoints → List (List String)
rules_of tx svc = chain_rules tx svc.protocol svc.target_port svc.endpoints

two_or_more : (n : ℕ) → ltb 1 (suc (suc n)) ≡ true
two_or_more n = ground arith

-- the rule that the code appends for an endpoint is the first of the shares
backend_rule-shared_among :
    (tx : Texts) (svc : ServiceEndpoints) (ep : String) (others : List String)
    → backend_rule tx svc (length (ep ∷ others)) ep
        ∷ shared_among tx (or_tcp svc.protocol) svc.target_port others
      ≡ shared_among tx (or_tcp svc.protocol) svc.target_port (ep ∷ others)
backend_rule-shared_among tx svc ep [] = refl
backend_rule-shared_among tx svc ep (other ∷ others) =
    rw (two_or_more (length others), backend_rule) refl

-- no two services have the same chain
abbrev pub DistinctChains : Texts → List ServiceEndpoints → Type 0
DistinctChains tx [] = Unit
DistinctChains tx (svc ∷ services) =
    (is_desired_chain tx services (service_chain tx svc.name) ≡ false) × DistinctChains tx services

both_false : (a b c : Bool) → a && (b || c) ≡ false → (a && b ≡ false) × (a && c ≡ false)
both_false true true c e = (e, absurd (true-false e))
both_false true false c e = (refl, e)
both_false false b c e = (refl, refl)

-- a command that does not fail changes no chain but those of a test
abbrev pub Frame :
    (ipt : Iptables) → (String → String → Bool) → (ipt.State → ipt.State × Bool) → Type 0
Frame ipt touched m =
    (s : ipt.State)
    → (m s).1 ≡ false
    → (t c : String) → touched t c ≡ false
    → ipt.rules (m s).0 t c ≡ ipt.rules s t c

pub Frame-then :
    (ipt : Iptables) (touched : String → String → Bool) (m k : ipt.State → ipt.State × Bool)
    → Frame ipt touched m
    → Frame ipt touched k
    → Frame ipt touched (m >=> k)
Frame-then ipt touched m k f g s h t c out =
    let (first, second, same) = then_done m k s h in
    ap (λ x. ipt.rules x t c) same ∙ g (m s).0 second t c out ∙ f s first t c out

module _ (ipt : Iptables) (laws : IsIptables ipt) (tx : Texts) where
  when_missing-Frame :
      (o : Option Bool) (name : String)
      → Frame ipt (same_chain nat_table name) (when_missing ipt tx o name)
  when_missing-Frame none name s h t c out = absurd (true-false h)
  when_missing-Frame (some true) name s h t c out = refl
  when_missing-Frame (some false) name s h t c out =
      (laws.new_chain_law nat_table name s h).1 t c out

  pub ensure_chain-Frame :
      (name : String) → Frame ipt (same_chain nat_table name) (ensure_chain ipt tx name)
  unfolding ensure_chain
  ensure_chain-Frame name s = when_missing-Frame (ipt.has_chain nat_table name s) name s

  append_backends-rules :
      (name : String) (svc : ServiceEndpoints) (endpoints : List String)
      (before : List (List String)) (s : ipt.State)
      → ipt.rules s nat_table name ≡ some before
      → (append_backends ipt tx name svc endpoints s).1 ≡ false
      → (ipt.rules (append_backends ipt tx name svc endpoints s).0 nat_table name
          ≡ some (before ++ shared_among tx (or_tcp svc.protocol) svc.target_port endpoints))
        × OnlyChanges ipt nat_table name s (append_backends ipt tx name svc endpoints s).0
  unfolding append_backends
  append_backends-rules name svc [] before s e h =
      (e ∙ ap some (sym (append-nil before)), (λ t c out. refl))
  append_backends-rules name svc (ep ∷ endpoints) before s e h =
      let r = backend_rule tx svc (length (ep ∷ endpoints)) ep in
      let m = ipt.append_rule nat_table name r in
      let k = append_backends ipt tx name svc endpoints in
      let (first, second, same) = then_done m k s h in
      let (added, others) = laws.append_rule_law nat_table name r s before e first in
      let (rest, rest_others) =
        append_backends-rules name svc endpoints (before ++ (r ∷ [])) (m s).0 added second in
      (
        ap (λ x. ipt.rules x nat_table name) same
            ∙ rest
            ∙ ap some (
                append_assoc before (r ∷ [])
                  (shared_among tx (or_tcp svc.protocol) svc.target_port endpoints))
            ∙ ap (λ x. some (before ++ x)) (backend_rule-shared_among tx svc ep endpoints),
        (λ t c out. ap (λ x. ipt.rules x t c) same ∙ rest_others t c out ∙ others t c out),
      )

  pub populate_service_chain-rules :
      (name : String) (svc : ServiceEndpoints) (s : ipt.State)
      → (populate_service_chain ipt tx name svc s).1 ≡ false
      → (ipt.rules (populate_service_chain ipt tx name svc s).0 nat_table name
          ≡ some (rules_of tx svc))
        × OnlyChanges ipt nat_table name s (populate_service_chain ipt tx name svc s).0
  unfolding populate_service_chain
  populate_service_chain-rules name svc s h =
      let clear = ipt.clear_chain nat_table name in
      let mark = ipt.append_rule nat_table name mark_rule in
      let (begun, last, same) =
        then_done (clear >=> mark) (append_backends ipt tx name svc svc.endpoints) s h in
      let (first, second, same') = then_done clear mark s begun in
      let (bare, others) = laws.clear_chain_law nat_table name s first in
      let (marked, others') =
        laws.append_rule_law nat_table name mark_rule (clear s).0 [] bare second in
      let start : ipt.rules ((clear >=> mark) s).0 nat_table name ≡ some (mark_rule ∷ []) =
        ap (λ x. ipt.rules x nat_table name) same' ∙ marked in
      let (filled, others'') =
        append_backends-rules name svc svc.endpoints (mark_rule ∷ []) ((clear >=> mark) s).0 start
          last in
      (
        ap (λ x. ipt.rules x nat_table name) same ∙ filled,
        (λ t c out.
            ap (λ x. ipt.rules x t c) same
            ∙ others'' t c out
            ∙ ap (λ x. ipt.rules x t c) same'
            ∙ others' t c out
            ∙ others t c out),
      )

  abbrev pub is_service_chain : List ServiceEndpoints → String → String → Bool
  is_service_chain services t c = nat_table == t && is_desired_chain tx services c

  build_chains-Frame :
      (services : List ServiceEndpoints)
      → Frame ipt (is_service_chain services) (build_chains ipt tx services)
  unfolding build_chains
  build_chains-Frame [] s h t c out = refl
  build_chains-Frame (svc ∷ services) s h t c out =
      let name = service_chain tx svc.name in
      let (begun, last, same) =
        then_done (ensure_chain ipt tx name >=> populate_service_chain ipt tx name svc)
          (build_chains ipt tx services) s h in
      let (first, second, same') =
        then_done (ensure_chain ipt tx name) (populate_service_chain ipt tx name svc) s begun in
      let (own, later) =
        both_false (nat_table == t) (name == c) (is_desired_chain tx services c) out in
      ap (λ x. ipt.rules x t c) same
      ∙ build_chains-Frame services _ last t c later
      ∙ ap (λ x. ipt.rules x t c) same'
      ∙ (populate_service_chain-rules name svc _ second).1 t c own
      ∙ ensure_chain-Frame name s first t c own

  -- Each chain has the rules of its service.
  pub build_chains-rules :
      (services : List ServiceEndpoints) (s : ipt.State)
      → DistinctChains tx services
      → (build_chains ipt tx services s).1 ≡ false
      → All
          (λ svc.
            ipt.rules (build_chains ipt tx services s).0 nat_table (service_chain tx svc.name)
            ≡ some (rules_of tx svc))
          services
  unfolding build_chains
  build_chains-rules [] s d h = tt
  build_chains-rules (svc ∷ services) s d h =
      let name = service_chain tx svc.name in
      let begin = ensure_chain ipt tx name >=> populate_service_chain ipt tx name svc in
      let (begun, last, same) = then_done begin (build_chains ipt tx services) s h in
      let (first, second, same') =
        then_done (ensure_chain ipt tx name) (populate_service_chain ipt tx name svc) s begun in
      (
        ap (λ x. ipt.rules x nat_table name) same
            ∙ build_chains-Frame services (begin s).0 last nat_table name d.0
            ∙ ap (λ x. ipt.rules x nat_table name) same'
            ∙ (populate_service_chain-rules name svc (ensure_chain ipt tx name s).0 second).0,
        subst
            (λ x.
              All
                (λ (v : ServiceEndpoints).
                  ipt.rules x nat_table (service_chain tx v.name) ≡ some (rules_of tx v))
                services)
            (sym same) (build_chains-rules services (begin s).0 d.1 last),
      )
