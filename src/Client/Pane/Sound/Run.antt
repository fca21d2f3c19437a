-- ===== src/Client/Pane/Sound/Run.antt =====
-- client/pane/pane.go: runs of edits of a pane tree.
use gridwell.Base.{
  ℕ, ◌≤◌, ◌<◌, ◌≡◌, refl, ap, ◌∙◌, Bool, true, false, List, [], ◌∷◌, Bytes, bytes, bytes_eq,
  bytes_eq_refl, bytes_eq→eq, contains, bytes-Eq, one_if, arith,
}
use gridwell.Client.Pane.{
  Tree, Ratios, Side, Direction, pane_id, toggle_zoom, new_tree, tree_split, set_focus,
  split_on_side_at, split_below_for_open, swap, remove_segment,
}
use gridwell.Client.Pane.Sound.{
  IsSound, pane_id_inj, first_pane_id, set_focus-IsSound, toggle_zoom-IsSound, swap-IsSound,
  remove_segment-IsSound,
}
use gridwell.Client.Pane.Sound.Splits.{
  tree_split-IsSound, split_on_side_at-IsSound, split_below_for_open-IsSound,
}

module _ {ℓ κ} {S : Type ℓ} {F : Type κ} where
  new_tree-IsSound : (stack : S) → IsSound {F = F} (new_tree stack)
  unfolding new_tree contains
  new_tree-IsSound stack = record {
    once = λ j. at_most (bytes_eq (bytes "p1") j);
    focused = omega (arith, ap one_if (bytes_eq_refl (bytes "p1")));
    minted = λ n h. first n (bytes_eq (bytes "p1") (pane_id [] n)) refl h;
    zoom = refl;
    recent = refl;
  }
    where
      at_most : (b : Bool) → one_if b ≤ 1
      at_most true = omega arith
      at_most false = omega arith

      first : (n : ℕ) (b : Bool) → bytes_eq (bytes "p1") (pane_id [] n) ≡ b → 0 < one_if b → n ≤ 1
      first n true e h = omega (
        arith,
        pane_id_inj [] 1 n (
            bytes_eq→eq (pane_id [] 1) (pane_id [] n)
              (ap (λ (s : Bytes). bytes_eq s (pane_id [] n)) first_pane_id ∙ e)),
      )
      first n false e h = absurd (omega (arith, h))

-- What a client may do to a pane tree.
pub data TreeOp {κ} (F : Type κ) : Type κ where
  splits : Direction → TreeOp F
  splits_on : Side → F → TreeOp F
  opens : Bool → TreeOp F
  swaps : Bytes → Bytes → TreeOp F
  focuses zooms : Bytes → TreeOp F
  removes : List Bool → TreeOp F

module _ {ℓ κ} {S : Type ℓ} {F : Type κ} (r : Ratios F) (content_id : S → Bytes) where
  abbrev tree_step : Tree S F → TreeOp F → Tree S F
  tree_step t (splits dir) = (tree_split r t dir).0
  tree_step t (splits_on side ratio) = (split_on_side_at r t side ratio).0
  tree_step t (opens can_split) = (split_below_for_open r content_id t can_split).0
  tree_step t (swaps id_a id_b) = (swap t id_a id_b).0
  tree_step t (focuses id) = (set_focus t id).0
  tree_step t (zooms id) = toggle_zoom t id
  tree_step t (removes path) = (remove_segment t path).0

  abbrev pub run_tree : Tree S F → List (TreeOp F) → Tree S F
  run_tree t [] = t
  run_tree t (op ∷ ops) = run_tree (tree_step t op) ops

  tree_step-IsSound : (t : Tree S F) (op : TreeOp F) → IsSound t → IsSound (tree_step t op)
  tree_step-IsSound t (splits dir) v = tree_split-IsSound r t dir v
  tree_step-IsSound t (splits_on side ratio) v = split_on_side_at-IsSound r t side ratio v
  tree_step-IsSound t (opens can_split) v = split_below_for_open-IsSound r content_id t can_split v
  tree_step-IsSound t (swaps id_a id_b) v = swap-IsSound t id_a id_b v
  tree_step-IsSound t (focuses id) v = set_focus-IsSound t id v
  tree_step-IsSound t (zooms id) v = toggle_zoom-IsSound t id v
  tree_step-IsSound t (removes path) v = remove_segment-IsSound t path v

  run_tree-IsSound_from :
      (t : Tree S F) (ops : List (TreeOp F)) → IsSound t → IsSound (run_tree t ops)
  run_tree-IsSound_from t [] v = v
  run_tree-IsSound_from t (op ∷ ops) v =
      run_tree-IsSound_from (tree_step t op) ops (tree_step-IsSound t op v)

  -- After any splits, opens, swaps, focus moves, zooms and removals from a new tree, no id stands
  -- twice in it, its focus is one of its panes, its zoom is one or none, no id past the mint's
  -- counter stands in it, and the focus is not recorded as its own predecessor.
  pub run_tree-IsSound :
      (stack : S) (ops : List (TreeOp F)) → IsSound (run_tree (new_tree stack) ops)
  run_tree-IsSound stack ops = run_tree-IsSound_from (new_tree stack) ops (new_tree-IsSound stack)
