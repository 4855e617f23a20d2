-- ===== src/Tests/Iptables.antt =====
-- A node with one table of iptables, which holds its chains in a list: go-iptables on that table.
use mathlib.Core.Path.{subst}
use smith.Network.{same_chain, remove_rule, Iptables, IsIptables, rule_in}
use smith.Prelude.Assoc
use smith.Prelude.Text.{◌==◌, eq_iff, eq_refl}
use smith.Prelude.{
  String, ◌≡◌, refl, sym, ap, ◌∙◌, inl, inr, Bool, true, false, ◌&&◌, Option, none, some, List, [],
  ◌∷◌, ◌++◌, arith, Elem, if◌then◌else◌, Bool-cases, true-false,
}

abbrev pub Table : Type 0
Table = List (String × List (List String))

module _ (kept : String) where
  abbrev pub table_rules : Table → String → String → Option (List (List String))
  table_rules s t c = if t == kept then Assoc.lookup c s else none

  -- a command on a table that is there
  abbrev on_table : String → Table → Table → Table × Bool
  on_table t x s = if t == kept then (x, false) else (s, true)

  abbrev Unchanged : String → String → Table → Table → Type 0
  Unchanged t c s s' =
      (t' c' : String) → same_chain t c t' c' ≡ false → table_rules s' t' c' ≡ table_rules s t' c'

  on_table_other :
      (c t' c' : String) (x s : Table)
      → ((k : String) → c == k ≡ false → Assoc.lookup k x ≡ Assoc.lookup k s)
      → kept == t' && c == c' ≡ false
      → table_rules x t' c' ≡ table_rules s t' c'
  on_table_other c t' c' x s f out = elim (Bool-cases (t' == kept)) [
    | inl there ↦ rw there (f c' (ground (arith, out, eq_iff t' kept, eq_refl kept)))
    | inr other ↦ rw other refl
  ]

  on_table-changes :
      (t c : String) (x s : Table) (r : Option (List (List String)))
      → Assoc.lookup c x ≡ r
      → ((k : String) → c == k ≡ false → Assoc.lookup k x ≡ Assoc.lookup k s)
      → (on_table t x s).1 ≡ false
      → (table_rules (on_table t x s).0 t c ≡ r) × Unchanged t c s (on_table t x s).0
  on_table-changes t c x s r e f h = elim (Bool-cases (t == kept)) [
    | inl there ↦
        subst (λ v. (table_rules (on_table v x s).0 v c ≡ r) × Unchanged v c s (on_table v x s).0)
          (sym ((eq_iff t kept).0 there))
          (rw (eq_refl kept) (e, (λ t' c' out. on_table_other c t' c' x s f out)))
    | inr other ↦ absurd (
        true-false (
          sym (ap (λ (b : Bool). (if◌then◌else◌ {A = Table × Bool} b (x, false) (s, true)).1) other)
          ∙ h))
  ]

  abbrev put_rules : String → String → List (List String) → Table → Table × Bool
  put_rules t c r s = on_table t (Assoc.insert c r s) s

  put_rules-changes :
      (t c : String) (r : List (List String)) (s : Table)
      → (put_rules t c r s).1 ≡ false
      → (table_rules (put_rules t c r s).0 t c ≡ some r) × Unchanged t c s (put_rules t c r s).0
  put_rules-changes t c r s =
      on_table-changes t c (Assoc.insert c r s) s (some r) (Assoc.lookup-insert_self c r s)
        (λ k other.
          Assoc.lookup-insert c k r s ∙ ap (λ b. if b then some r else Assoc.lookup k s) other)

  drop-changes :
      (t c : String) (s : Table)
      → (on_table t (Assoc.delete c s) s).1 ≡ false
      → (table_rules (on_table t (Assoc.delete c s) s).0 t c ≡ none)
        × Unchanged t c s (on_table t (Assoc.delete c s) s).0
  drop-changes t c s =
      on_table-changes t c (Assoc.delete c s) s none (Assoc.lookup-delete_self c s) (λ k other.
        Assoc.lookup-delete c k s ∙ ap (λ b. if b then none else Assoc.lookup k s) other)

  abbrev old_rules : String → Table → List (List String)
  old_rules c s = Assoc.lookup_or [] c s

  abbrev added : String → String → List String → Table → Table × Bool
  added t c r s = put_rules t c (old_rules c s ++ (r ∷ [])) s

  -- commands that say nothing of a table other than nat
  abbrev loose : String → Table → Table → Table × Bool
  loose t x s = (if t == kept then x else s, false)

  loose-Unchanged :
      (t c : String) (r : List (List String)) (s : Table)
      → Unchanged t c s (loose t (Assoc.insert c r s) s).0
  loose-Unchanged t c r s = elim (Bool-cases (t == kept)) [
    | inl there ↦
        subst (λ v. Unchanged v c s (loose v (Assoc.insert c r s) s).0)
          (sym ((eq_iff t kept).0 there))
          (rw (eq_refl kept) (λ t' c' out.
            on_table_other c t' c' (Assoc.insert c r s) s
              (λ k other.
                Assoc.lookup-insert c k r s
                ∙ ap (λ b. if b then some r else Assoc.lookup k s) other)
              out))
    | inr other ↦ λ t' c' out. rw other refl
  ]

  abbrev pub table_ipt : Iptables
  table_ipt = record {
    State = Table;
    rules = table_rules;
    has_chain = λ t c s. some (Assoc.is_some (table_rules s t c));
    new_chain = λ t c s. put_rules t c [] s;
    clear_chain = λ t c s. put_rules t c [] s;
    delete_chain = λ t c s. on_table t (Assoc.delete c s) s;
    list_chains = λ t s. some (Assoc.keys s);
    has_rule = λ t c r s. some (rule_in r (old_rules c s));
    insert_rule = λ t c r s. put_rules t c (r ∷ old_rules c s) s;
    append_rule = added;
    append_unique = λ t c r s. loose t (Assoc.insert c (old_rules c s ++ (r ∷ [])) s) s;
    delete_rule = λ t c r s. put_rules t c (remove_rule r (old_rules c s)) s;
    delete_if_exists = λ t c r s. loose t (Assoc.insert c [] s) s;
  }

  some_same : {A : Type 0} {a b : A} → some a ≡ some b → a ≡ b
  some_same e = cc

  chain_there :
      (t c : String) (s : Table) → Assoc.is_some (table_rules s t c) ≡ true → Assoc.has c s ≡ true
  chain_there t c s h = elim (Bool-cases (t == kept)) [
    | inl there ↦ rw there at h
    | inr other ↦ absurd (clash (rw other at h))
  ]
    where
      clash : false ≡ true → ⊥
      clash e = cc

  chain-keys : (c : String) (s : Table) → Assoc.has c s ≡ true → Elem c (Assoc.keys s)
  unfolding Assoc.lookup
  chain-keys c [] h = cc
  chain-keys c ((name, r) ∷ s) h = elim (Bool-cases (name == c)) [
    | inl same ↦ inl (sym ((eq_iff name c).0 same))
    | inr other ↦ inr (chain-keys c s (rw (other, Assoc.lookup) at h))
  ]

  old_rules-before :
      (t c : String) (s : Table) (before : List (List String))
      → table_rules s t c ≡ some before
      → old_rules c s ≡ before
  unfolding Assoc.lookup_or
  old_rules-before t c s before h = elim (Bool-cases (t == kept)) [
    | inl there ↦
        ap (λ (o : Option (List (List String))). elim o [ none ↦ [] | some v ↦ v ]) (rw there at h)
    | inr other ↦ absurd (clash (rw other at h))
  ]
    where
      clash : none ≡ some before → ⊥
      clash e = cc

  -- a command that makes new rules of those of a chain
  at_before :
      (t c : String) (s : Table) (before : List (List String))
      (f : List (List String) → List (List String))
      → table_rules s t c ≡ some before
      → (put_rules t c (f (old_rules c s)) s).1 ≡ false
      → (table_rules (put_rules t c (f (old_rules c s)) s).0 t c ≡ some (f before))
        × Unchanged t c s (put_rules t c (f (old_rules c s)) s).0
  at_before t c s before f e h =
      let (first, others) = put_rules-changes t c (f (old_rules c s)) s h in
      (first ∙ ap (λ x. some (f x)) (old_rules-before t c s before e), others)

  pub table_ipt-IsIptables : IsIptables table_ipt
  table_ipt-IsIptables = record {
    has_chain_law = λ t c s b e. sym (some_same e);
    new_chain_law = λ t c s. put_rules-changes t c [] s;
    clear_chain_law = λ t c s. put_rules-changes t c [] s;
    delete_chain_law = drop-changes;
    list_chains_law = λ t s chains e c there.
        subst (Elem c) (some_same e) (chain-keys c s (chain_there t c s there));
    append_rule_law = λ t c r s before e h. at_before t c s before (λ rules. rules ++ (r ∷ [])) e h;
    has_rule_law = λ t c r s b before e h.
        sym (some_same h) ∙ ap (rule_in r) (old_rules-before t c s before e);
    insert_rule_law = λ t c r s before e h. at_before t c s before (λ rules. r ∷ rules) e h;
    delete_rule_law = λ t c r s before e h. at_before t c s before (remove_rule r) e h;
    append_unique_law = λ t c r s h. loose-Unchanged t c (old_rules c s ++ (r ∷ [])) s;
    delete_if_exists_law = λ t c r s h. loose-Unchanged t c [] s;
  }
