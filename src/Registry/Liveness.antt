-- ===== src/Registry/Liveness.antt =====
-- Which nodes of internal/registry/registry.go are alive, and for how long.
use smith.Prelude.Assoc.{
  insert, lookup-insert, delete-Distinct, lookup-insert_self, Elem-lookup, lookup-Elem,
  insert-Distinct, Distinct, lookup, lookup-delete,
}
use smith.Prelude.Text.{eq_iff}
use smith.Prelude.{
  ℕ, ◌+◌, ◌<◌, String, ◌≡◌, refl, ap, ◌≢◌, ◌↔◌, ◌⊎◌, inl, inr, Bool, true, false, not, none, some,
  map, arith, Elem-map_inv, Elem, Elem-keep_if, Bool-cases, Option-cases,
}
use smith.Registry
use smith.Registry.{
  is_alive, alive, register, dead, not_registered, list, heartbeat_timeout, heartbeat, remove, get,
  Registry,
}
use smith.Types.{Node}

-- Each node is stored once, under its own ID.
pub record IsKeyed (r : Registry) : Type 0 where
  pub distinct : Distinct r.nodes
  pub at_id : (id : String) (n : Node) → get id r ≡ some n → n.id ≡ id

pub empty-IsKeyed : IsKeyed Registry.empty
unfolding get lookup
empty-IsKeyed = record { distinct = tt; at_id = λ id n h. cc }

pub register-IsKeyed : (now : ℕ) (n : Node) (r : Registry) → IsKeyed r → IsKeyed (register now n r)
unfolding get register
register-IsKeyed now n r h = record {
  distinct = insert-Distinct n.id (record n { last_heartbeat = now }) r.nodes h.distinct;
  at_id = λ id m. rw lookup-insert (ground (arith, eq_iff n.id id, h.at_id id m));
}

pub heartbeat-IsKeyed :
    (now : ℕ) (id : String) (r : Registry) → IsKeyed r → IsKeyed (heartbeat now id r).0
unfolding get heartbeat
heartbeat-IsKeyed now id r h = elim (Option-cases (lookup id r.nodes)) [
  | inl missing ↦ rw (missing, heartbeat) h
  | inr (n, found) ↦
      rw (found, heartbeat)
        (record {
          distinct = insert-Distinct id (record n { last_heartbeat = now }) r.nodes h.distinct;
          at_id = λ j m. rw lookup-insert (ground (arith, eq_iff id j, h.at_id id n, h.at_id j m));
        })
]

pub remove-IsKeyed : (id : String) (r : Registry) → IsKeyed r → IsKeyed (remove id r)
unfolding get remove
remove-IsKeyed id r h = record {
  distinct = delete-Distinct id r.nodes h.distinct;
  at_id = λ j m. rw lookup-delete (ground (arith, eq_iff id j, h.at_id j m));
}

-- An alive node is the one that its ID finds.
pub alive-get :
    (now : ℕ) (r : Registry) (n : Node) → IsKeyed r → Elem n (alive now r) → get n.id r ≡ some n
unfolding alive list get
alive-get now r n h i =
    let (e, member, same_node) =
      Elem-map_inv (λ (e : String × Node). e.1) n r.nodes
        ((Elem-keep_if (is_alive now) n (list r)).0 i).0 in
    let found = lookup-Elem e.0 e.1 r.nodes h.distinct member in
    rw (same_node, h.at_id e.0 e.1 found) found

-- At every moment a registered node is alive or dead, and never both.
pub alive_or_dead :
    (now : ℕ) (n : Node) (r : Registry)
    → (Elem n (list r) → Elem n (alive now r) ⊎ Elem n (dead now r))
      × ¬ (Elem n (alive now r) × Elem n (dead now r))
unfolding alive dead
alive_or_dead now n r =
    let live = Elem-keep_if (is_alive now) n (list r) in
    let gone = Elem-keep_if (λ m. not (is_alive now m)) n (list r) in
    (
      λ h. elim (Bool-cases (is_alive now n)) [
        | inl e ↦ inl (live.1 (h, e))
        | inr e ↦ inr (gone.1 (h, ap not e))
      ],
      λ h. not_both (is_alive now n) (live.0 h.0).1 (gone.0 h.1).1,
    )
  where
    not_both : (b : Bool) → b ≡ true → not b ≡ true → ⊥
    not_both true p q = cc
    not_both false p q = cc

-- A node just stored with the time `t` is alive exactly until the timeout has passed.
alive_window :
    (t now : ℕ) (id : String) (n : Node) (r : Registry)
    → n.last_heartbeat ≡ t
    → Elem n (alive now (record r { nodes = insert id n r.nodes })) ↔ (now < t + heartbeat_timeout)
unfolding alive list is_alive
alive_window t now id n r e =
    let members = Elem-keep_if (is_alive now) n (map (λ p. p.1) (insert id n r.nodes)) in
    (
      λ m. ground (arith, (members.0 m).1),
      λ early.
          members.1 (
            Elem-lookup id n (insert id n r.nodes) (lookup-insert_self id n r.nodes),
            ground arith,
          ),
    )

-- After an accepted heartbeat at time `t` the node is among the alive ones at every time before
-- `t` plus the timeout, and at no later time; no other entry of the registry has changed. A heartbeat
-- for an unregistered ID reports that ID and changes nothing.
pub heartbeat_window :
    (t : ℕ) (id : String) (r : Registry)
    → ((n : Node)
        → get id r ≡ some n
        → (n' : Node) × (get id (heartbeat t id r).0 ≡ some n')
          × ((now : ℕ) → Elem n' (alive now (heartbeat t id r).0) ↔ (now < t + heartbeat_timeout))
          × ((heartbeat t id r).1 ≡ none)
          × ((j : String) → j ≢ id → get j (heartbeat t id r).0 ≡ get j r))
      × (get id r ≡ none → heartbeat t id r ≡ (r, some (not_registered id)))
unfolding get heartbeat
heartbeat_window t id r = (
  λ n found.
      let n' : Node = record n { last_heartbeat = t } in
      (
        n',
        rw (found, heartbeat) (lookup-insert_self _ _ _),
        λ now. rw (found, heartbeat) (alive_window t now id n' r refl),
        rw (found, heartbeat),
        λ j ne. rw (found, heartbeat) (rw lookup-insert (ground (arith, eq_iff id j))),
      ),
  λ missing. rw (missing, heartbeat),
)
