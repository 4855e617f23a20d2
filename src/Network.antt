-- ===== src/Network.antt =====
-- internal/runtime/firewall.go, service_proxy.go and cni.go: the rules of iptables on one node. iptables
-- is a parameter: its state can be read as the rules of each chain, and a command changes it and may fail.
pub mod Cni
pub mod Firewall
pub mod Services
use mathlib.Core.Path.{subst}
use smith.Prelude.Assoc
use smith.Prelude.Text.{◌==◌}
use smith.Prelude.{
  String, ◌≡◌, refl, sym, ap, ◌∙◌, inl, inr, Bool, true, false, ◌&&◌, ◌||◌, Option, none, some,
  List, [], ◌∷◌, ◌++◌, Elem, Bool-cases, if◌then◌else◌, true-false,
}

pub record Iptables : Type 1 where
  pub State : Type 0
  -- the rules of a chain of a table, if there is one
  pub rules : State → String → String → Option (List (List String))
  pub has_chain : String → String → State → Option Bool
  pub new_chain : String → String → State → State × Bool
  pub clear_chain : String → String → State → State × Bool
  pub delete_chain : String → String → State → State × Bool
  pub list_chains : String → State → Option (List String)
  pub has_rule : String → String → List String → State → Option Bool
  pub insert_rule : String → String → List String → State → State × Bool
  pub append_rule : String → String → List String → State → State × Bool
  pub append_unique : String → String → List String → State → State × Bool
  pub delete_rule : String → String → List String → State → State × Bool
  pub delete_if_exists : String → String → List String → State → State × Bool

-- the same chain of the same table
abbrev pub same_chain : String → String → String → String → Bool
same_chain table name t c = table == t && name == c

abbrev pub same_rule : List String → List String → Bool
same_rule [] [] = true
same_rule [] (b ∷ r') = false
same_rule (a ∷ r) [] = false
same_rule (a ∷ r) (b ∷ r') = a == b && same_rule r r'

abbrev pub rule_in : List String → List (List String) → Bool
rule_in r [] = false
rule_in r (r' ∷ rules) = same_rule r' r || rule_in r rules

-- the rules without the first that is the same
abbrev pub remove_rule : List String → List (List String) → List (List String)
remove_rule r [] = []
remove_rule r (r' ∷ rules) =
    let rest = remove_rule r rules in if same_rule r' r then rules else r' ∷ rest

-- no chain has changed but one
abbrev pub OnlyChanges : (ipt : Iptables) → String → String → ipt.State → ipt.State → Type 0
OnlyChanges ipt table name s s' =
    (t c : String) → same_chain table name t c ≡ false → ipt.rules s' t c ≡ ipt.rules s t c

-- What the manual of iptables, and the documentation of go-iptables, say of a command that does not fail.
pub record IsIptables (ipt : Iptables) : Type 0 where
  pub has_chain_law :
      (t c : String) (s : ipt.State) (b : Bool)
      → ipt.has_chain t c s ≡ some b
      → b ≡ Assoc.is_some (ipt.rules s t c)
  pub new_chain_law :
      (t c : String) (s : ipt.State)
      → (ipt.new_chain t c s).1 ≡ false
      → (ipt.rules (ipt.new_chain t c s).0 t c ≡ some [])
        × OnlyChanges ipt t c s (ipt.new_chain t c s).0
  pub clear_chain_law :
      (t c : String) (s : ipt.State)
      → (ipt.clear_chain t c s).1 ≡ false
      → (ipt.rules (ipt.clear_chain t c s).0 t c ≡ some [])
        × OnlyChanges ipt t c s (ipt.clear_chain t c s).0
  pub delete_chain_law :
      (t c : String) (s : ipt.State)
      → (ipt.delete_chain t c s).1 ≡ false
      → (ipt.rules (ipt.delete_chain t c s).0 t c ≡ none)
        × OnlyChanges ipt t c s (ipt.delete_chain t c s).0
  pub list_chains_law :
      (t : String) (s : ipt.State) (chains : List String)
      → ipt.list_chains t s ≡ some chains
      → (c : String) → Assoc.is_some (ipt.rules s t c) ≡ true
      → Elem c chains
  pub append_rule_law :
      (t c : String) (r : List String) (s : ipt.State) (before : List (List String))
      → ipt.rules s t c ≡ some before
      → (ipt.append_rule t c r s).1 ≡ false
      → (ipt.rules (ipt.append_rule t c r s).0 t c ≡ some (before ++ (r ∷ [])))
        × OnlyChanges ipt t c s (ipt.append_rule t c r s).0
  pub has_rule_law :
      (t c : String) (r : List String) (s : ipt.State) (b : Bool) (before : List (List String))
      → ipt.rules s t c ≡ some before
      → ipt.has_rule t c r s ≡ some b
      → b ≡ rule_in r before
  pub insert_rule_law :
      (t c : String) (r : List String) (s : ipt.State) (before : List (List String))
      → ipt.rules s t c ≡ some before
      → (ipt.insert_rule t c r s).1 ≡ false
      → (ipt.rules (ipt.insert_rule t c r s).0 t c ≡ some (r ∷ before))
        × OnlyChanges ipt t c s (ipt.insert_rule t c r s).0
  pub delete_rule_law :
      (t c : String) (r : List String) (s : ipt.State) (before : List (List String))
      → ipt.rules s t c ≡ some before
      → (ipt.delete_rule t c r s).1 ≡ false
      → (ipt.rules (ipt.delete_rule t c r s).0 t c ≡ some (remove_rule r before))
        × OnlyChanges ipt t c s (ipt.delete_rule t c r s).0
  pub append_unique_law :
      (t c : String) (r : List String) (s : ipt.State)
      → (ipt.append_unique t c r s).1 ≡ false
      → OnlyChanges ipt t c s (ipt.append_unique t c r s).0
  pub delete_if_exists_law :
      (t c : String) (r : List String) (s : ipt.State)
      → (ipt.delete_if_exists t c r s).1 ≡ false
      → OnlyChanges ipt t c s (ipt.delete_if_exists t c r s).0

-- commands one after the other, up to the first that fails
infixl 5 ◌>=>◌
abbrev pub ◌>=>◌ : {S : Type 0} → (S → S × Bool) → (S → S × Bool) → S → S × Bool
◌>=>◌ m k s = if (m s).1 then m s else k (m s).0

-- a chain of commands that has not failed
pub then_done :
    {S : Type 0} (m k : S → S × Bool) (s : S)
    → ((m >=> k) s).1 ≡ false
    → ((m s).1 ≡ false) × (k (m s).0).1 ≡ false × (((m >=> k) s).0 ≡ (k (m s).0).0)
then_done m k s h = elim (Bool-cases (m s).1) [
  | inl failed ↦ absurd (true-false (sym failed ∙ stop failed h))
  | inr done ↦ (
    done,
    (subst (λ b. (if b then m s else k (m s).0).1 ≡ false) done h),
    ap (λ b. (if b then m s else k (m s).0).0) done,
  )
]
  where
    stop : (m s).1 ≡ true → ((m >=> k) s).1 ≡ false → (m s).1 ≡ false
    stop e g = subst (λ b. (if b then m s else k (m s).0).1 ≡ false) e g

pub then_assoc :
    {S : Type 0} (m k n : S → S × Bool) (s : S) → ((m >=> k) >=> n) s ≡ (m >=> (k >=> n)) s
then_assoc m k n s = elim (Bool-cases (m s).1) [
  | inl failed ↦ rw failed refl
  | inr done ↦ rw done refl
]
