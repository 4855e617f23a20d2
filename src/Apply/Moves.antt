-- ===== src/Apply/Moves.antt =====
-- internal/apply/rebalance.go: the command that previews or enacts a rebalance.
use smith.Manifest.{is_empty}
use smith.Prelude.{
  ℕ, Bool, Option, none, some, List, [], ◌∷◌, ◌++◌, map, length, ok, if◌then◌else◌, err, Result,
}
use smith.Types.{Move}

pub record Rebalancer : Type 0 where
  pub planned : Option (List Move)
  pub enacted : Option (List Move)

pub data MoveLine : Type 0 where
  balanced : MoveLine
  enacted_header : ℕ → MoveLine
  preview_header : ℕ → MoveLine
  move_line : Move → MoveLine
  enact_hint : MoveLine

pub data RebalanceError : Type 0 where
  rebalancer_failed : RebalanceError

unfoldable pub move_lines : Bool → List Move → List MoveLine
move_lines do_apply moves =
    if is_empty moves
    then balanced ∷ []
    else ((if do_apply then enacted_header (length moves) else preview_header (length moves))
        ∷ map move_line moves)
      ++ (if do_apply then [] else enact_hint ∷ [])

-- `Rebalance`: one call of the control plane, and the lines that are printed
unfoldable pub rebalance_command : Rebalancer → Bool → Result RebalanceError (List MoveLine)
unfolding move_lines
rebalance_command r do_apply = elim (if do_apply then r.enacted else r.planned) [
  | none ↦ err rebalancer_failed
  | some moves ↦ ok (move_lines do_apply moves)
]
