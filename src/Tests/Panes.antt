-- ===== src/Tests/Panes.antt =====
-- The pane tree of client/pane on concrete trees.
use gridwell.Base.{
  ◌≡◌, refl, ℕ, ◌+◌, ◌-◌, true, false, some, bytes, Bytes, bytes_eq, List, [], ◌∷◌, inr,
}
use Prim.Native.Nat.{min}
use gridwell.Codec.Decimal.{itoa}
use gridwell.Client.Pane.{
  Tree, Pane, Ratios, bottom, left, vertical, new_tree, tree_split, find_pane, panes,
  split_on_side_at, replace_pane, copy_pane, pane_id,
}
use gridwell.Client.Pane.Panes.{number}
use gridwell.Client.Pane.Sound.{IsSound}
use gridwell.Client.Pane.Sound.Run.{
  TreeOp, splits, splits_on, opens, swaps, focuses, zooms, removes, run_tree, run_tree-IsSound,
}
use gridwell.Client.Pane.Grow.{beside, split_on_side_at-replace_pane}

-- A ratio in percent.
abbrev percent : Ratios ℕ
percent = record { half = 50; clamp01 = λ r. min r 100; one_minus = λ r. 100 - r }

-- The grid that a pane shows stands for its place.
abbrev start : Tree Bytes ℕ
start = new_tree (bytes "a/1")

abbrev some_edits : List (TreeOp ℕ)
some_edits =
    splits_on bottom 30
    ∷ zooms (bytes "p1")
    ∷ splits_on left 120
    ∷ swaps (bytes "p1") (bytes "p3")
    ∷ removes (false ∷ [])
    ∷ focuses (bytes "p1")
    ∷ opens true
    ∷ []

run_tree-IsSound_example : IsSound (run_tree percent (λ s. s) start some_edits)
run_tree-IsSound_example = run_tree-IsSound percent (λ s. s) (bytes "a/1") some_edits

abbrev two_panes : Tree Bytes ℕ
two_panes = run_tree percent (λ s. s) start (splits vertical ∷ [])

two_panes-IsSound : IsSound two_panes
two_panes-IsSound = run_tree-IsSound percent (λ s. s) (bytes "a/1") (splits vertical ∷ [])

abbrev first_pane : Pane Bytes
first_pane = record { id = bytes "p1"; stack = bytes "a/1" }

two_panes_focused : find_pane two_panes.root two_panes.focus ≡ some first_pane
unfolding find_pane tree_split new_tree panes replace_pane bytes_eq itoa
two_panes_focused = refl

split_on_side_at-replace_pane_example :
    let new_pane = copy_pane first_pane (pane_id two_panes.id_prefix (two_panes.next_id + 1)) in
    let (t', answer) = split_on_side_at percent two_panes left 30 in
    (t'.root
      ≡ (replace_pane two_panes.root two_panes.focus
          (beside percent left 30 first_pane new_pane)).0)
    × (t'.focus ≡ new_pane.id)
    × (t'.zoomed ≡ [])
    × (answer ≡ inr new_pane)
    × (number two_panes.root new_pane.id ≡ 0)
split_on_side_at-replace_pane_example =
    split_on_side_at-replace_pane percent two_panes left 30 first_pane two_panes-IsSound
      two_panes_focused
