-- ===== src/Network/Services/Stale.antt =====
-- The chains of services that are gone, which internal/runtime/service_proxy.go removes.
use mathlib.Core.Path.{subst}
use smith.Network.Services.Chains.{Frame-then, Frame}
use smith.Network.Services.{
  Texts, is_stale, done, remove_stale, cleanup_stale_chains, nat_table, remove_listed,
}
use smith.Network.{then_done, same_chain, ◌>=>◌, Iptables, IsIptables}
use smith.Prelude.Assoc
use smith.Prelude.Text.{◌==◌, eq_iff}
use smith.Prelude.{
  String, ◌≡◌, refl, sym, ap, ◌∙◌, inl, inr, Bool, true, false, ◌&&◌, Option, none, some, List, [],
  ◌∷◌, Elem, if◌then◌else◌, Bool-cases, true-false, Option-cases,
}
use smith.Types.{ServiceEndpoints}

both_true : (a b : Bool) → a && b ≡ true → (a ≡ true) × (b ≡ true)
both_true true b e = (refl, e)
both_true false b e = absurd (true-false (sym e))

module _ (ipt : Iptables) (laws : IsIptables ipt) (tx : Texts)
    (services : List ServiceEndpoints) where
  abbrev removed : String → ipt.State → ipt.State × Bool
  removed h = ipt.clear_chain nat_table h >=> ipt.delete_chain nat_table h

  removed-Frame : (h : String) → Frame ipt (same_chain nat_table h) (removed h)
  removed-Frame h =
      Frame-then ipt (same_chain nat_table h) (ipt.clear_chain nat_table h)
        (ipt.delete_chain nat_table h) (λ s e. (laws.clear_chain_law nat_table h s e).1)
        (λ s e. (laws.delete_chain_law nat_table h s e).1)

  removed-none :
      (h : String) (s : ipt.State)
      → (removed h s).1 ≡ false
      → ipt.rules (removed h s).0 nat_table h ≡ none
  removed-none h s e =
      let clear = ipt.clear_chain nat_table h in
      let (first, second, same) = then_done clear (ipt.delete_chain nat_table h) s e in
      ap (λ x. ipt.rules x nat_table h) same
      ∙ (laws.delete_chain_law nat_table h (clear s).0 second).0

  -- one turn of the loop
  abbrev turn : Bool → String → ipt.State → ipt.State × Bool
  turn stale h = if stale then removed h else done ipt tx

  abbrev pub stale_chain : String → String → Bool
  stale_chain t c = nat_table == t && is_stale ipt tx services c

  other_chain :
      (h t c : String)
      → is_stale ipt tx services h ≡ true
      → stale_chain t c ≡ false
      → same_chain nat_table h t c ≡ false
  other_chain h t c stale out = elim (Bool-cases (same_chain nat_table h t c)) [
    | inl same ↦ absurd (
        let (table, name) = both_true (nat_table == t) (h == c) same in
        true-false (
          sym (
            ap (λ b. b && is_stale ipt tx services c) table
            ∙ ap (is_stale ipt tx services) (sym ((eq_iff h c).0 name))
            ∙ stale)
          ∙ out))
    | inr other ↦ other
  ]

  turn-Frame :
      (b : Bool) (h : String) → is_stale ipt tx services h ≡ b → Frame ipt stale_chain (turn b h)
  turn-Frame true h e s done t c out = removed-Frame h s done t c (other_chain h t c e out)
  turn-Frame false h e s done t c out = refl

  remove_stale-Frame :
      (chains : List String) → Frame ipt stale_chain (remove_stale ipt tx services chains)
  unfolding remove_stale
  remove_stale-Frame [] s e t c out = refl
  remove_stale-Frame (h ∷ chains) s e t c out =
      Frame-then ipt stale_chain (turn (is_stale ipt tx services h) h)
        (remove_stale ipt tx services chains) (turn-Frame (is_stale ipt tx services h) h refl)
        (remove_stale-Frame chains) s e t c out

  turn-none :
      (b : Bool) (h : String) (s : ipt.State)
      → b ≡ true
      → (turn b h s).1 ≡ false
      → ipt.rules (turn b h s).0 nat_table h ≡ none
  turn-none true h s stale e = removed-none h s e
  turn-none false h s stale e = absurd (true-false (sym stale))

  -- a chain that is gone stays so
  turn-stays :
      (b : Bool) (h c : String) (s : ipt.State)
      → (turn b h s).1 ≡ false
      → ipt.rules s nat_table c ≡ none
      → ipt.rules (turn b h s).0 nat_table c ≡ none
  turn-stays false h c s e gone = gone
  turn-stays true h c s e gone = elim (Bool-cases (h == c)) [
    | inl same ↦
        subst (λ x. ipt.rules (removed h s).0 nat_table x ≡ none) ((eq_iff h c).0 same)
          (removed-none h s e)
    | inr other ↦ removed-Frame h s e nat_table c other ∙ gone
  ]

  remove_stale-stays :
      (chains : List String) (c : String) (s : ipt.State)
      → (remove_stale ipt tx services chains s).1 ≡ false
      → ipt.rules s nat_table c ≡ none
      → ipt.rules (remove_stale ipt tx services chains s).0 nat_table c ≡ none
  unfolding remove_stale
  remove_stale-stays [] c s e gone = gone
  remove_stale-stays (h ∷ chains) c s e gone =
      let now = turn (is_stale ipt tx services h) h in
      let (first, second, same) = then_done now (remove_stale ipt tx services chains) s e in
      ap (λ x. ipt.rules x nat_table c) same
      ∙ remove_stale-stays chains c (now s).0 second
          (turn-stays (is_stale ipt tx services h) h c s first gone)

  remove_stale-none :
      (chains : List String) (c : String) (s : ipt.State)
      → is_stale ipt tx services c ≡ true
      → Elem c chains
      → (remove_stale ipt tx services chains s).1 ≡ false
      → ipt.rules (remove_stale ipt tx services chains s).0 nat_table c ≡ none
  unfolding remove_stale
  remove_stale-none [] c s stale m e = absurd m
  remove_stale-none (h ∷ chains) c s stale m e =
      let now = turn (is_stale ipt tx services h) h in
      let (first, second, same) = then_done now (remove_stale ipt tx services chains) s e in
      ap (λ x. ipt.rules x nat_table c) same ∙ elim m [
        | inl q ↦ remove_stale-stays chains c (now s).0 second (
            subst (λ x. ipt.rules (now s).0 nat_table x ≡ none) (sym q)
              (turn-none (is_stale ipt tx services h) h s
                (ap (is_stale ipt tx services) (sym q) ∙ stale) first))
        | inr later ↦ remove_stale-none chains c (now s).0 stale later second
      ]

  pub cleanup_stale_chains-none :
      (c : String) (s : ipt.State)
      → is_stale ipt tx services c ≡ true
      → (cleanup_stale_chains ipt tx services s).1 ≡ false
      → ipt.rules (cleanup_stale_chains ipt tx services s).0 nat_table c ≡ none
  unfolding cleanup_stale_chains
  cleanup_stale_chains-none c s stale e = listed_none (ipt.list_chains nat_table s) refl e
    where
      listed_none :
          (o : Option (List String))
          → ipt.list_chains nat_table s ≡ o
          → (remove_listed ipt tx services o s).1 ≡ false
          → ipt.rules (remove_listed ipt tx services o s).0 nat_table c ≡ none
      listed_none none l e = absurd (true-false e)
      listed_none (some chains) l e = elim (Option-cases (ipt.rules s nat_table c)) [
        | inl gone ↦ remove_stale-stays chains c s e gone
        | inr (r, there) ↦
            remove_stale-none chains c s stale
              (laws.list_chains_law nat_table s chains l c (ap Assoc.is_some there)) e
      ]

  pub cleanup_stale_chains-Frame : Frame ipt stale_chain (cleanup_stale_chains ipt tx services)
  unfolding cleanup_stale_chains
  cleanup_stale_chains-Frame s = listed_frame (ipt.list_chains nat_table s) s
    where
      listed_frame :
          (o : Option (List String)) → Frame ipt stale_chain (remove_listed ipt tx services o)
      listed_frame none s e t c out = absurd (true-false e)
      listed_frame (some chains) s e t c out = remove_stale-Frame chains s e t c out
