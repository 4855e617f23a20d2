-- ===== src/Scheduler/Placement.antt =====
-- What `place` of internal/scheduler/scheduler.go answers: a node that fits, the best one, and the
-- same one whatever the order in which the registry lists the nodes.
use smith.Floats.{Floats}
use smith.Prelude.Int.{◌-ℤ◌, ℤ, ltb_ℤ, pos}
use smith.Prelude.Sort.{
  sort-Rearranged, sort-eq-nil, map-Rearranged, sort, LinearOrder, keep_if-Rearranged, Rearranged,
  sort_first,
}
use smith.Prelude.Text.{str_lt, str_lt_irrefl, str_lt_trans, str_lt_total}
use smith.Prelude.{
  ℕ, ◌<◌, String, ◌≡◌, refl, sym, ap, ◌∙◌, ◌≢◌, ◌⊎◌, inl, inr, Bool, true, false, List, [], ◌∷◌,
  map, arith, Elem-map, keep_if, Elem-map_inv, Elem-keep_if, Elem, Bool-cases, eqb, if◌then◌else◌,
}
use smith.Scheduler.{
  schedulable, Candidate, add_resources, place, better, within, first_id, fitting, candidate,
  free_fraction,
}
use smith.Types.{Node, Resources}

-- Whether a request fits on a node beside what is committed there.
unfoldable pub fits : (String → Resources) → Resources → Node → Bool
fits alloc req n = within (add_resources (alloc n.id) req) (schedulable n)

module _ (fl : Floats) where
  better_irrefl : (a : Candidate fl) → better fl a a ≡ false
  unfolding better
  better_irrefl a = ground (arith, (fl.eq_true a.remaining a.remaining).1 refl, str_lt_irrefl a.id)

  better_trans :
      (a b c : Candidate fl) → better fl a b ≡ true → better fl b c ≡ true → better fl a c ≡ true
  unfolding better
  better_trans a b c p q = ground (
    arith,
    fl.eq_true a.remaining b.remaining,
    fl.eq_true b.remaining c.remaining,
    fl.eq_true a.remaining c.remaining,
    fl.lt_linear.trans a.remaining b.remaining c.remaining,
    fl.lt_linear.irrefl a.remaining,
    fl.lt_linear.trans a.remaining b.remaining a.remaining,
    str_lt_trans a.id b.id c.id,
  )

  better_total : (a b : Candidate fl) → better fl a b ≡ false → better fl b a ≡ false → a ≡ b
  unfolding better
  better_total a b p q = ground (
    arith,
    fl.eq_true a.remaining b.remaining,
    fl.eq_true b.remaining a.remaining,
    fl.lt_linear.total a.remaining b.remaining,
    str_lt_total a.id b.id,
  )

  not_better :
      (a b : Candidate fl)
      → better fl a b ≡ false
      → (b.siblings < a.siblings)
        ⊎ (b.siblings ≡ a.siblings) × (fl.lt b.remaining a.remaining ≡ true)
        ⊎ (b.siblings ≡ a.siblings) × (b.remaining ≡ a.remaining) × (str_lt a.id b.id ≡ false)
  unfolding better
  not_better a b h = elim (Bool-cases (eqb a.siblings b.siblings)) [
    | inr differ ↦ inl (ground (arith, differ))
    | inl level ↦ elim (Bool-cases (fl.eq a.remaining b.remaining)) [
      | inl even ↦ inr (
          inr (
            ground (arith, level),
            sym ((fl.eq_true a.remaining b.remaining).0 even),
            ground (arith, level, even),
          ))
      | inr uneven ↦ inr (
          inl (
            ground (arith, level),
            ground (
              arith,
              level,
              uneven,
              fl.eq_true a.remaining b.remaining,
              fl.lt_linear.total a.remaining b.remaining,
            ),
          ))
    ]
  ]

  pub better-linear : LinearOrder (better fl)
  better-linear = record { irrefl = better_irrefl; trans = better_trans; total = better_total }

  module _ (alloc : String → Resources) (siblings : String → ℕ) (req : Resources) where
    fitting-keep_if :
        (nodes : List Node)
        → fitting fl alloc siblings req nodes
          ≡ map (candidate fl alloc siblings req) (keep_if (fits alloc req) nodes)
    unfolding fitting keep_if fits
    fitting-keep_if [] = refl
    fitting-keep_if (n ∷ nodes) = ground (arith, fitting-keep_if nodes)

    -- what is left of an amount beside what is committed and asked for, as a part of it
    abbrev left_of : ℤ → ℤ → ℤ → fl.Num
    left_of cap used asked =
        if ltb_ℤ (pos 0) cap then fl.ratio (cap -ℤ used -ℤ asked) cap else fl.zero

    -- the parts of the CPU and the memory that stay free
    abbrev pub left_over : Node → fl.Num
    left_over n =
        fl.add (left_of (schedulable n).0 (alloc n.id).cpu_millicores req.cpu_millicores)
          (left_of (schedulable n).1 (alloc n.id).memory_mb req.memory_mb)

    -- A node comes before another: by fewer siblings, or as many and less left over, or as much and an ID
    -- that is not greater.
    abbrev pub Precedes : Node → Node → Type 0
    Precedes n m =
        (siblings n.id < siblings m.id)
        ⊎ (siblings n.id ≡ siblings m.id) × (fl.lt (left_over n) (left_over m) ≡ true)
        ⊎ (siblings n.id ≡ siblings m.id) × (left_over n ≡ left_over m) × (str_lt m.id n.id ≡ false)

    Precedes-better :
        (n m : Node)
        → better fl (candidate fl alloc siblings req m) (candidate fl alloc siblings req n) ≡ false
        → Precedes n m
    unfolding better candidate free_fraction
    Precedes-better n m h =
        not_better (candidate fl alloc siblings req m) (candidate fl alloc siblings req n) h

    -- The best candidate first: a node of the list that fits, and it precedes every node that fits.
    pub record IsBest (nodes : List Node) (n : Node) : Type 0 where
      pub member : Elem n nodes
      pub room : fits alloc req n ≡ true
      pub best : (m : Node) → Elem m nodes → fits alloc req m ≡ true → Precedes n m

    -- the first of the sorted candidates stands for a best node
    first-IsBest :
        (nodes : List Node) {c : Candidate fl} {cs : List (Candidate fl)}
        → sort (better fl) (fitting fl alloc siblings req nodes) ≡ c ∷ cs
        → (n : Node) × (c.id ≡ n.id) × IsBest nodes n
    unfolding candidate
    first-IsBest nodes {c} e =
        let found =
          sort_first (better fl) better-linear
            (map (candidate fl alloc siblings req) (keep_if (fits alloc req) nodes))
            (rw (fitting-keep_if nodes) at e) in
        let (n, member, same_candidate) =
          Elem-map_inv (candidate fl alloc siblings req) c (keep_if (fits alloc req) nodes)
            found.0 in
        let kept = (Elem-keep_if (fits alloc req) n nodes).0 member in
        (
          n,
          ap (λ x. x.id) same_candidate,
          record {
            member = kept.0;
            room = kept.1;
            best = λ m i h. Precedes-better n m (
                rw same_candidate at (
                  found.1 (candidate fl alloc siblings req m) (
                    Elem-map (candidate fl alloc siblings req) m (keep_if (fits alloc req) nodes)
                      ((Elem-keep_if (fits alloc req) m nodes).1 (i, h)))));
          },
        )

    pub place-IsBest :
        (nodes : List Node)
        → place fl nodes alloc siblings req ≢ ""
        → (n : Node) × (place fl nodes alloc siblings req ≡ n.id) × IsBest nodes n
    unfolding place
    place-IsBest nodes = by_first (sort (better fl) (fitting fl alloc siblings req nodes)) refl
      where
        by_first :
            (l : List (Candidate fl))
            → sort (better fl) (fitting fl alloc siblings req nodes) ≡ l
            → first_id fl l ≢ ""
            → (n : Node) × (first_id fl l ≡ n.id) × IsBest nodes n
        by_first [] e named = absurd (named refl)
        by_first (c ∷ cs) e named = first-IsBest nodes e

    -- `place` names no node only if none has room, or if a node has no ID.
    pub place_unnamed :
        (nodes : List Node)
        → place fl nodes alloc siblings req ≡ ""
        → ((n : Node) → Elem n nodes → fits alloc req n ≡ false)
          ⊎ ((n : Node) × Elem n nodes × (n.id ≡ ""))
    unfolding place
    place_unnamed nodes = by_first (sort (better fl) (fitting fl alloc siblings req nodes)) refl
      where
        by_first :
            (l : List (Candidate fl))
            → sort (better fl) (fitting fl alloc siblings req nodes) ≡ l
            → first_id fl l ≡ ""
            → ((n : Node) → Elem n nodes → fits alloc req n ≡ false)
              ⊎ ((n : Node) × Elem n nodes × (n.id ≡ ""))
        by_first [] e nowhere = inl (λ n m. elim (Bool-cases (fits alloc req n)) [
          | inl room ↦ absurd (
              rw
                (sym (fitting-keep_if nodes)
                  ∙ sort-eq-nil (better fl) (better-linear) (fitting fl alloc siblings req nodes) e)
                at
                (Elem-map (candidate fl alloc siblings req) n (keep_if (fits alloc req) nodes)
                  ((Elem-keep_if (fits alloc req) n nodes).1 (m, room))))
          | inr full ↦ full
        ])
        by_first (c ∷ cs) e nowhere =
            let (best, same_id, is_best) = first-IsBest nodes e in
            inr (best, is_best.member, sym same_id ∙ nowhere)

    -- The order in which the registry lists the nodes does not matter.
    pub place-Rearranged :
        {nodes others : List Node}
        → Rearranged nodes others
        → place fl nodes alloc siblings req ≡ place fl others alloc siblings req
    unfolding place
    place-Rearranged {nodes} {others} r = ap (first_id fl) (
        ap (sort (better fl)) (fitting-keep_if nodes)
        ∙ sort-Rearranged (better fl) better-linear (
            map-Rearranged (candidate fl alloc siblings req)
              (keep_if-Rearranged (fits alloc req) r))
        ∙ ap (sort (better fl)) (sym (fitting-keep_if others)))
