-- ===== src/Network/Services/Synced.antt =====
-- What `Sync` of internal/runtime/service_proxy.go leaves in the nat table.
use text.Mathlib.Text.{starts_with}
use text.Mathlib.TextPositions.{starts_with-append}
use smith.Network.Services.Chains.{build_chains-rules, rules_of, DistinctChains}
use smith.Network.Services.Dispatch.{dispatch_rules, populate_services_chain-rules}
use smith.Network.Services.Stale.{
  cleanup_stale_chains-none, cleanup_stale_chains-Frame, stale_chain,
}
use smith.Network.Services.{
  build_chains, is_desired_chain, sync_chains, services_chain, Texts, is_stale, nat_table,
  ensure_base_chains, populate_services_chain, service_chain, cleanup_stale_chains,
}
use smith.Network.{Iptables, then_done, ◌>=>◌, IsIptables, then_assoc}
use smith.Prelude.Assoc
use smith.Prelude.Text.{◌==◌, eq_iff, eq_refl}
use smith.Prelude.{
  String, ◌≡◌, refl, sym, ap, ◌∙◌, inl, inr, Bool, true, false, not, ◌&&◌, ◌||◌, some, List, [],
  ◌∷◌, All, Elem, true-false, or_true, Bool-cases,
}
use smith.Types.{ServiceEndpoints}

pub each_item :
    {A : Type 0} {P Q : A → Type 0} (xs : List A)
    → ((a : A) → Elem a xs → P a → Q a)
    → All P xs
    → All Q xs
each_item [] f p = tt
each_item (x ∷ xs) f p = (f x (inl refl) p.0, each_item xs (λ a m. f a (inr m)) p.1)

is_desired-Elem :
    (tx : Texts) (svc : ServiceEndpoints) (services : List ServiceEndpoints)
    → Elem svc services
    → is_desired_chain tx services (service_chain tx svc.name) ≡ true
is_desired-Elem tx svc [] m = absurd m
is_desired-Elem tx svc (v ∷ services) m = elim m [
  | inl e ↦
      ap (λ (b : Bool). b || is_desired_chain tx services (service_chain tx svc.name))
        (ap (λ (x : ServiceEndpoints). service_chain tx x.name == service_chain tx svc.name) (sym e)
          ∙ eq_refl (service_chain tx svc.name))
  | inr later ↦
      or_true (service_chain tx v.name == service_chain tx svc.name) _
        (is_desired-Elem tx svc services later)
]

module _ (ipt : Iptables) (laws : IsIptables ipt) (tx : Texts)
    (services : List ServiceEndpoints) where
  -- the chain of a service is not the one that dispatches to the services
  services_chain-other : (name : String) → services_chain == service_chain tx name ≡ false
  services_chain-other name = elim (Bool-cases (services_chain == service_chain tx name)) [
    | inl same ↦ absurd (
        true-false (
          sym (starts_with-append "SMITH-SVC-" (tx.digest name))
          ∙ ap (λ c. starts_with c "SMITH-SVC-")
              (sym ((eq_iff services_chain (service_chain tx name)).0 same))))
    | inr other ↦ other
  ]

  -- nor one that is removed
  stale_chain-desired :
      (c : String)
      → is_desired_chain tx services c ≡ true
      → stale_chain ipt laws tx services nat_table c ≡ false
  stale_chain-desired c d =
      ap (λ b. starts_with c "SMITH-SVC-" && not b) d ∙ and_false (starts_with c "SMITH-SVC-")
    where
      and_false : (b : Bool) → b && false ≡ false
      and_false true = refl
      and_false false = refl

  -- the last two commands, from a state in which each service has its chain
  abbrev publish : ipt.State → ipt.State × Bool
  publish = populate_services_chain ipt tx services >=> cleanup_stale_chains ipt tx services

  publish-keeps :
      (s : ipt.State) (svc : ServiceEndpoints)
      → Elem svc services
      → (publish s).1 ≡ false
      → ipt.rules (publish s).0 nat_table (service_chain tx svc.name)
        ≡ ipt.rules s nat_table (service_chain tx svc.name)
  publish-keeps s svc m h =
      let c = service_chain tx svc.name in
      let dispatch = populate_services_chain ipt tx services in
      let (first, second, same) = then_done dispatch (cleanup_stale_chains ipt tx services) s h in
      ap (λ x. ipt.rules x nat_table c) same
      ∙ cleanup_stale_chains-Frame ipt laws tx services (dispatch s).0 second nat_table c
          (stale_chain-desired c (is_desired-Elem tx svc services m))
      ∙ (populate_services_chain-rules ipt laws tx services s first).1 nat_table c
          (services_chain-other svc.name)

  publish-dispatches :
      (s : ipt.State)
      → (publish s).1 ≡ false
      → ipt.rules (publish s).0 nat_table services_chain ≡ some (dispatch_rules tx services)
  publish-dispatches s h =
      let dispatch = populate_services_chain ipt tx services in
      let (first, second, same) = then_done dispatch (cleanup_stale_chains ipt tx services) s h in
      ap (λ x. ipt.rules x nat_table services_chain) same
      ∙ cleanup_stale_chains-Frame ipt laws tx services (dispatch s).0 second nat_table
          services_chain refl
      ∙ (populate_services_chain-rules ipt laws tx services s first).0

  publish-removes :
      (s : ipt.State) (c : String)
      → (publish s).1 ≡ false
      → is_stale ipt tx services c && Assoc.is_some (ipt.rules (publish s).0 nat_table c) ≡ false
  publish-removes s c h = elim (Bool-cases (is_stale ipt tx services c)) [
    | inl stale ↦
        let dispatch = populate_services_chain ipt tx services in
        let clean = cleanup_stale_chains ipt tx services in
        let (first, second, same) = then_done dispatch clean s h in
        rw stale (
          ap (λ x. Assoc.is_some (ipt.rules x nat_table c)) same
          ∙ ap Assoc.is_some
              (cleanup_stale_chains-none ipt laws tx services c (dispatch s).0 stale second))
    | inr fresh ↦ rw fresh refl
  ]

  sync_chains-publish :
      (s : ipt.State)
      → sync_chains ipt tx services s
        ≡ ((ensure_base_chains ipt tx >=> build_chains ipt tx services) >=> publish) s
  unfolding sync_chains
  sync_chains-publish s =
      then_assoc (ensure_base_chains ipt tx >=> build_chains ipt tx services)
        (populate_services_chain ipt tx services) (cleanup_stale_chains ipt tx services) s

  -- the nat table after the first four steps of `Sync`
  pub sync_chains-synced :
      (s : ipt.State) (c : String)
      → DistinctChains tx services
      → (sync_chains ipt tx services s).1 ≡ false
      → All
          (λ svc.
            ipt.rules (sync_chains ipt tx services s).0 nat_table (service_chain tx svc.name)
            ≡ some (rules_of tx svc))
          services
        × (ipt.rules (sync_chains ipt tx services s).0 nat_table services_chain
            ≡ some (dispatch_rules tx services))
        × (is_stale ipt tx services c
              && Assoc.is_some (ipt.rules (sync_chains ipt tx services s).0 nat_table c)
            ≡ false)
  sync_chains-synced s c distinct h =
      let base = ensure_base_chains ipt tx in
      let build = build_chains ipt tx services in
      let whole = sync_chains-publish s in
      let (begun, last, same) =
        then_done (base >=> build) publish s (sym (ap (λ x. x.1) whole) ∙ h) in
      let (first, second, same') = then_done base build s begun in
      let built = build_chains-rules ipt laws tx services (base s).0 distinct second in
      let start = ((base >=> build) s).0 in
      let end = ap (λ x. x.0) whole ∙ same in
      (
        each_item services
            (λ v m e.
              ap (λ x. ipt.rules x nat_table (service_chain tx v.name)) end
              ∙ publish-keeps start v m last
              ∙ ap (λ x. ipt.rules x nat_table (service_chain tx v.name)) same'
              ∙ e)
            built,
        ap (λ x. ipt.rules x nat_table services_chain) end ∙ publish-dispatches start last,
        ap (λ x. is_stale ipt tx services c && Assoc.is_some (ipt.rules x nat_table c)) end
            ∙ publish-removes start c last,
      )
