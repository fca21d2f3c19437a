-- ===== src/Client/Pane/Grow.antt =====
-- client/pane/pane.go: SplitOnSideAt as a replacement of the focused leaf.
use gridwell.Base.{
  ◌+◌, ◌≡◌, refl, ap, sym, ◌∙◌, ◌⊎◌, inl, inr, Bool, true, false, [], Option, none, some,
  if◌then◌else◌, Bytes, bytes_eq, bytes_eq_refl, bytes_eq→eq, one_if, arith, Bool-cases,
}
use mathlib.Core.Bool.{false≢true}
use gridwell.Client.Pane.{
  Pane, TreeNode, leaf, split, Tree, Ratios, Side, top, bottom, left, right, Direction, horizontal,
  vertical, side_direction, PaneError, pane_id, copy_pane, find_pane, replace_pane, split_result,
  split_focused, tree_split, edit_parent_split, is_leaf_of, place_new, focus_on, with_edit,
  place_split, split_on_side_at,
}
use gridwell.Client.Pane.Panes.{number, find_pane_id, replace_pane-found}
use gridwell.Client.Pane.Sound.{IsSound}
use gridwell.Client.Pane.Sound.Splits.{halves, split_replaced, fresh_id}

module _ {ℓ κ} {S : Type ℓ} {F : Type κ} where
  -- A tree where no leaf has the id has no split to edit for it.
  is_leaf_of-absent : (n : TreeNode S F) (id : Bytes) → number n id ≡ 0 → is_leaf_of n id ≡ false
  is_leaf_of-absent (leaf p) id h = one (bytes_eq p.id id) h
    where
      one : (b : Bool) → one_if b ≡ 0 → b ≡ false
      one true h = absurd (omega arith)
      one false h = refl
  is_leaf_of-absent (split dir ratio a b) id h = refl

  edit_parent_split-absent :
      (edit : TreeNode S F → TreeNode S F) (n : TreeNode S F) (id : Bytes)
      → number n id ≡ 0
      → edit_parent_split edit n id ≡ none
  unfolding edit_parent_split
  edit_parent_split-absent edit (leaf p) id h = refl
  edit_parent_split-absent edit (split dir ratio a b) id h =
      rw
        (
          is_leaf_of-absent a id (omega arith),
          is_leaf_of-absent b id (omega arith),
          edit_parent_split-absent edit a id (omega arith),
          edit_parent_split-absent edit b id (omega arith),
        )
        refl

  -- What replaces a leaf by a split is a split, or leaves the tree as it was.
  replaced_is_leaf :
      (n : TreeNode S F) (id j : Bytes) (dir : Direction) (ratio : F) (a b : TreeNode S F)
      → number n j ≡ 0
      → is_leaf_of (replace_pane n id (split dir ratio a b)).0 j ≡ false
  unfolding replace_pane
  replaced_is_leaf (leaf p) id j dir ratio a b h = one (bytes_eq p.id id)
    where
      one :
          (c : Bool)
          → is_leaf_of
              (if◌then◌else◌ {A = TreeNode S F × Bool} c
                (split dir ratio a b, true)
                (leaf p, false)).0
              j
            ≡ false
      one true = refl
      one false = is_leaf_of-absent (leaf p) j h
  replaced_is_leaf (split d f x y) id j dir ratio a b h =
      either (replace_pane x id (split dir ratio a b)) (replace_pane y id (split dir ratio a b))
    where
      either :
          (u v : TreeNode S F × Bool)
          → is_leaf_of
              (if◌then◌else◌ {A = TreeNode S F × Bool} u.1
                (split d f u.0 y, true)
                (if v.1 then (split d f x v.0, true) else (split d f x y, false))).0
              j
            ≡ false
      either (u, true) v = refl
      either (u, false) (v, true) = refl
      either (u, false) (v, false) = refl

  -- Where one leaf gave way to a split with a fresh leaf in it, that split is the fresh leaf's parent.
  edit_parent_split-replace_pane :
      (edit : TreeNode S F → TreeNode S F) (n : TreeNode S F) (id : Bytes) (dir : Direction)
      (ratio : F) (p q : Pane S)
      → number n q.id ≡ 0
      → (replace_pane n id (split dir ratio (leaf p) (leaf q))).1 ≡ true
      → edit_parent_split edit (replace_pane n id (split dir ratio (leaf p) (leaf q))).0 q.id
        ≡ some (replace_pane n id (edit (split dir ratio (leaf p) (leaf q)))).0
  unfolding edit_parent_split replace_pane
  edit_parent_split-replace_pane edit (leaf x) id dir ratio p q h e = one (bytes_eq x.id id) e
    where
      one :
          (c : Bool)
          → (if◌then◌else◌ {A = TreeNode S F × Bool} c
              (split dir ratio (leaf p) (leaf q), true)
              (leaf x, false)).1
            ≡ true
          → edit_parent_split edit
              (if◌then◌else◌ {A = TreeNode S F × Bool} c
                (split dir ratio (leaf p) (leaf q), true)
                (leaf x, false)).0
              q.id
            ≡ some
                (if◌then◌else◌ {A = TreeNode S F × Bool} c
                  (edit (split dir ratio (leaf p) (leaf q)), true)
                  (leaf x, false)).0
      one true g = rw (bytes_eq_refl q.id) (ground arith)
      one false g = absurd (false≢true g)
  edit_parent_split-replace_pane edit (split d f a b) id dir ratio p q h e =
      either (replace_pane a id m) (replace_pane b id m) (replace_pane a id (edit m))
        (replace_pane b id (edit m))
        (replace_pane-found a id m ∙ sym (replace_pane-found a id (edit m)))
        (replace_pane-found b id m ∙ sym (replace_pane-found b id (edit m)))
        (edit_parent_split-replace_pane edit a id dir ratio p q (omega arith))
        (edit_parent_split-replace_pane edit b id dir ratio p q (omega arith))
        (replaced_is_leaf a id q.id dir ratio (leaf p) (leaf q) (omega arith))
        (replaced_is_leaf b id q.id dir ratio (leaf p) (leaf q) (omega arith)) e
    where
      m : TreeNode S F
      m = split dir ratio (leaf p) (leaf q)

      either :
          (u v u' v' : TreeNode S F × Bool)
          → u.1 ≡ u'.1
          → v.1 ≡ v'.1
          → (u.1 ≡ true → edit_parent_split edit u.0 q.id ≡ some u'.0)
          → (v.1 ≡ true → edit_parent_split edit v.0 q.id ≡ some v'.0)
          → is_leaf_of u.0 q.id ≡ false
          → is_leaf_of v.0 q.id ≡ false
          → (if◌then◌else◌ {A = TreeNode S F × Bool} u.1
              (split d f u.0 b, true)
              (if v.1 then (split d f a v.0, true) else (split d f a b, false))).1
            ≡ true
          → edit_parent_split edit
              (if◌then◌else◌ {A = TreeNode S F × Bool} u.1
                (split d f u.0 b, true)
                (if v.1 then (split d f a v.0, true) else (split d f a b, false))).0
              q.id
            ≡ some
                (if◌then◌else◌ {A = TreeNode S F × Bool} u'.1
                  (split d f u'.0 b, true)
                  (if v'.1 then (split d f a v'.0, true) else (split d f a b, false))).0
      either (u, true) v (u', true) v' eu ev iu iv lu lv g =
          rw (lu, is_leaf_of-absent b q.id (omega arith), iu refl) refl
      either (u, true) v (u', false) v' eu ev iu iv lu lv g = absurd (false≢true (sym eu))
      either (u, false) v (u', true) v' eu ev iu iv lu lv g = absurd (false≢true eu)
      either (u, false) (v, true) (u', false) (v', true) eu ev iu iv lu lv g =
          rw
            (
              lv,
              is_leaf_of-absent a q.id (omega arith),
              edit_parent_split-absent edit a q.id (omega arith),
              iv refl,
            )
            refl
      either (u, false) (v, true) (u', false) (v', false) eu ev iu iv lu lv g =
          absurd (false≢true (sym ev))
      either (u, false) (v, false) (u', false) v' eu ev iu iv lu lv g = absurd (false≢true g)

  -- A split of two panes with the second on the side.
  abbrev pub beside : Ratios F → Side → F → Pane S → Pane S → TreeNode S F
  beside r top ratio p q = split horizontal (r.clamp01 ratio) (leaf q) (leaf p)
  beside r left ratio p q = split vertical (r.clamp01 ratio) (leaf q) (leaf p)
  beside r bottom ratio p q = split horizontal (r.one_minus (r.clamp01 ratio)) (leaf p) (leaf q)
  beside r right ratio p q = split vertical (r.one_minus (r.clamp01 ratio)) (leaf p) (leaf q)

  place_new-halves :
      (r : Ratios F) (t : Tree S F) (side : Side) (ratio : F) (p : Pane S)
      → place_new r side ratio (halves r t (side_direction side) p)
        ≡ beside r side ratio p (copy_pane p (pane_id t.id_prefix (t.next_id + 1)))
  place_new-halves r t top ratio p = refl
  place_new-halves r t left ratio p = refl
  place_new-halves r t bottom ratio p = refl
  place_new-halves r t right ratio p = refl

  -- Moving the focus moves nothing else that is drawn.
  focus_on_kept :
      (t : Tree S F) (id : Bytes)
      → ((focus_on t id).root ≡ t.root)
        × ((focus_on t id).focus ≡ id)
        × ((focus_on t id).zoomed ≡ t.zoomed)
  unfolding focus_on
  focus_on_kept t id = elim (Bool-cases (bytes_eq id t.focus)) [
    | inl e ↦ rw e (refl, sym (bytes_eq→eq id t.focus e), refl)
    | inr e ↦ rw e (refl, refl, refl)
  ]

  -- The tree with the focused leaf given way, before the focus moves.
  abbrev grown : Tree S F → TreeNode S F → Tree S F
  grown t root = record t { root = root; zoomed = []; next_id = t.next_id + 1 }

  split_on_side_at-grown :
      (r : Ratios F) (t : Tree S F) (side : Side) (ratio : F) (p : Pane S)
      → IsSound t
      → find_pane t.root t.focus ≡ some p
      → let new_pane = copy_pane p (pane_id t.id_prefix (t.next_id + 1)) in
        split_on_side_at r t side ratio ≡ (
          focus_on
              (grown t
                (replace_pane t.root p.id
                  (place_new r side ratio (halves r t (side_direction side) p))).0)
              new_pane.id,
          inr new_pane,
        )
  unfolding split_on_side_at tree_split
  split_on_side_at-grown r t side ratio p v e =
      let dir = side_direction side in
      let new_pane : Pane S = copy_pane p (pane_id t.id_prefix (t.next_id + 1)) in
      let x = replace_pane t.root p.id (halves r t dir p) in
      let replaced = split_replaced r t dir p v (find_pane_id t.root t.focus p e) in
      ap
        (λ (o : Option (Pane S)).
          place_split r side ratio (split_focused r (record t { zoomed = [] }) dir o))
        e
      ∙ ap (λ (b : Bool). place_split r side ratio (grown t x.0, split_result b new_pane)) replaced
      ∙ ap
          (λ (o : Option (TreeNode S F)).
            (focus_on (with_edit (grown t x.0) o) new_pane.id, inr new_pane))
          (edit_parent_split-replace_pane (place_new r side ratio) t.root p.id dir r.half p new_pane
            (fresh_id t v) replaced)

  -- SplitOnSideAt from a sound tree whose focused pane is p: the tree is the one in which p's leaf gives
  -- way to a split along the side's direction, with p's copy under a fresh id on that side, the
  -- ratio being the copy's share; the copy is answered and has the focus, and nothing is zoomed.
  pub split_on_side_at-replace_pane :
      (r : Ratios F) (t : Tree S F) (side : Side) (ratio : F) (p : Pane S)
      → IsSound t
      → find_pane t.root t.focus ≡ some p
      → let new_pane = copy_pane p (pane_id t.id_prefix (t.next_id + 1)) in
        let (t', answer) = split_on_side_at r t side ratio in
        (t'.root ≡ (replace_pane t.root t.focus (beside r side ratio p new_pane)).0)
        × (t'.focus ≡ new_pane.id)
        × (t'.zoomed ≡ [])
        × (answer ≡ inr new_pane)
        × (number t.root new_pane.id ≡ 0)
  split_on_side_at-replace_pane r t side ratio p v e =
      let new_pane : Pane S = copy_pane p (pane_id t.id_prefix (t.next_id + 1)) in
      let root : TreeNode S F =
        (replace_pane t.root p.id
          (place_new r side ratio (halves r t (side_direction side) p))).0 in
      let g = split_on_side_at-grown r t side ratio p v e in
      let k = focus_on_kept (grown t root) new_pane.id in
      (
        ap (λ (x : Tree S F × (PaneError ⊎ Pane S)). x.0.root) g
            ∙ k.0
            ∙ ap (λ (n : TreeNode S F). (replace_pane t.root p.id n).0)
                (place_new-halves r t side ratio p)
            ∙ ap (λ (j : Bytes). (replace_pane t.root j (beside r side ratio p new_pane)).0)
                (find_pane_id t.root t.focus p e),
        ap (λ (x : Tree S F × (PaneError ⊎ Pane S)). x.0.focus) g ∙ k.1,
        ap (λ (x : Tree S F × (PaneError ⊎ Pane S)). x.0.zoomed) g ∙ k.2,
        ap (λ (x : Tree S F × (PaneError ⊎ Pane S)). x.1) g,
        fresh_id t v,
      )
