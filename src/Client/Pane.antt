-- ===== src/Client/Pane.antt =====
-- client/pane/pane.go and RemoveSegment of resize.go: the pane tree. A pane's Stack is an element of
-- S, whose Copy is the same value; a ratio is an element of F, with the float64 operations that
-- the tree uses. The tree shares no node, so a pointer to a node is the path to it.
pub mod Panes
pub mod Grow
pub mod Sound
use gridwell.Base.{
  ℕ, suc, ◌+◌, ◌≡◌, ◌⊎◌, inl, inr, Bool, true, false, not, ◌&&◌, ◌||◌, List, [], ◌∷◌, ◌++◌, map,
  Option, none, some, if◌then◌else◌, Bytes, bytes, bytes_eq, is_empty, contains, bytes-Eq, is_some,
}
use gridwell.Codec.Decimal.{itoa}

pub data Direction : Type 0 where
  horizontal vertical : Direction

pub data Side : Type 0 where
  top bottom left right : Side

-- Side.Direction
abbrev pub side_direction : Side → Direction
side_direction top = horizontal
side_direction bottom = horizontal
side_direction left = vertical
side_direction right = vertical

-- The float64 operations on a ratio: 0.5, clamp01 and 1 - r.
pub record Ratios {ℓ} (F : Type ℓ) : Type ℓ where
  pub half : F
  pub clamp01 : F → F
  pub one_minus : F → F

pub record Pane {ℓ} (S : Type ℓ) : Type ℓ where
  pub id : Bytes
  pub stack : S

-- Pane.Copy
abbrev pub copy_pane {ℓ} : {S : Type ℓ} → Pane S → Bytes → Pane S
copy_pane p new_id = record p { id = new_id }

pub data TreeNode {ℓ κ} (S : Type ℓ) (F : Type κ) : Type (ℓ ⊔ κ) where
  leaf : Pane S → TreeNode S F
  split : Direction → F → TreeNode S F → TreeNode S F → TreeNode S F

pub record Tree {ℓ κ} (S : Type ℓ) (F : Type κ) : Type (ℓ ⊔ κ) where
  pub root : TreeNode S F
  pub focus : Bytes
  pub prior : List Bytes
  pub zoomed : Bytes
  pub next_id : ℕ
  pub id_prefix : Bytes

pub data PaneError : Type 0 where
  no_focused_pane focused_not_in_tree : PaneError

-- fmt.Sprintf("%sp%d", prefix, n)
abbrev pub pane_id : Bytes → ℕ → Bytes
pane_id prefix n = prefix ++ (bytes "p" ++ itoa n)

abbrev pub last_with {ℓ} : {S : Type ℓ} → Bytes → List (Pane S) → Option (Pane S) → Option (Pane S)
last_with id [] found = found
last_with id (p ∷ ps) found = last_with id ps (if bytes_eq p.id id then some p else found)

abbrev pub split_result {ℓ} : {S : Type ℓ} → Bool → Pane S → PaneError ⊎ Pane S
split_result true p = inr p
split_result false p = inl focused_not_in_tree

abbrev pub is_near : Side → Bool
is_near top = true
is_near left = true
is_near _ = false

-- A path to a node: true goes to A.
abbrev pub turned : Bool → Option (List Bool) → Option (List Bool)
turned b none = none
turned b (some path) = some (b ∷ path)

abbrev pub first_path : Option (List Bool) → Option (List Bool) → Option (List Bool)
first_path (some p) q = some p
first_path none q = q

module _ {ℓ κ} {S : Type ℓ} {F : Type κ} where
  -- The leaf panes that walk visits, in its order.
  unfoldable pub panes : TreeNode S F → List (Pane S)
  panes (leaf p) = p ∷ []
  panes (split dir ratio a b) = panes a ++ panes b

  unfoldable pub find_pane : TreeNode S F → Bytes → Option (Pane S)
  find_pane n id = last_with id (panes n) none

  abbrev pub has_pane : TreeNode S F → Bytes → Bool
  has_pane n id = is_some (find_pane n id)

  pub toggle_zoom : Tree S F → Bytes → Tree S F
  toggle_zoom t id =
      if bytes_eq t.zoomed id
      then record t { zoomed = [] }
      else (if has_pane t.root id then record t { zoomed = id } else t)

  unfoldable pub new_tree : S → Tree S F
  new_tree new_stack = record {
    root = leaf (record { id = bytes "p1"; stack = new_stack });
    focus = bytes "p1";
    prior = [];
    zoomed = [];
    next_id = 1;
    id_prefix = [];
  }

  unfoldable pub replace_pane : TreeNode S F → Bytes → TreeNode S F → TreeNode S F × Bool
  replace_pane (leaf p) id replacement =
      if bytes_eq p.id id then (replacement, true) else (leaf p, false)
  replace_pane (split dir ratio a b) id replacement =
      let (a', in_a) = replace_pane a id replacement in
      let (b', in_b) = replace_pane b id replacement in
      if in_a
      then (split dir ratio a' b, true)
      else (if in_b then (split dir ratio a b', true) else (split dir ratio a b, false))

  -- Tree.Split past the search for the focused pane.
  abbrev pub split_focused :
      Ratios F → Tree S F → Direction → Option (Pane S) → Tree S F × (PaneError ⊎ Pane S)
  split_focused r t dir none = (t, inl no_focused_pane)
  split_focused r t dir (some focused) =
      let new_pane = copy_pane focused (pane_id t.id_prefix (t.next_id + 1)) in
      let (root, replaced) =
        replace_pane t.root focused.id (split dir r.half (leaf focused) (leaf new_pane)) in
      (record t { next_id = t.next_id + 1; root = root }, split_result replaced new_pane)

  unfoldable pub tree_split : Ratios F → Tree S F → Direction → Tree S F × (PaneError ⊎ Pane S)
  tree_split r t dir = split_focused r (record t { zoomed = [] }) dir (find_pane t.root t.focus)

  abbrev pub is_leaf_of : TreeNode S F → Bytes → Bool
  is_leaf_of (leaf p) id = bytes_eq p.id id
  is_leaf_of (split dir ratio a b) id = false

  abbrev pub first_edit : Option (TreeNode S F) → Option (TreeNode S F) → Option (TreeNode S F)
  first_edit (some n) m = some n
  first_edit none m = m

  abbrev pub under {ι} : {A : Type ι} → (A → TreeNode S F) → Option A → Option (TreeNode S F)
  under f none = none
  under f (some n) = some (f n)

  -- An edit of the split that findParentSplit finds.
  pub edit_parent_split :
      (TreeNode S F → TreeNode S F) → TreeNode S F → Bytes → Option (TreeNode S F)
  edit_parent_split edit (leaf p) id = none
  edit_parent_split edit (split dir ratio a b) id =
      let in_a = edit_parent_split edit a id in
      let in_b = edit_parent_split edit b id in
      if is_leaf_of a id || is_leaf_of b id
      then some (edit (split dir ratio a b))
      else first_edit (under (λ n. split dir ratio n b) in_a)
          (under (λ n. split dir ratio a n) in_b)

  -- What SplitOnSideAt does to the split of the new pane.
  abbrev pub place_new : Ratios F → Side → F → TreeNode S F → TreeNode S F
  place_new r side ratio (leaf p) = leaf p
  place_new r side ratio (split dir old a b) =
      if is_near side
      then split dir (r.clamp01 ratio) b a
      else split dir (r.one_minus (r.clamp01 ratio)) a b

  -- The part of prior that stays when the focus moves to id.
  pub kept_prior : TreeNode S F → Bytes → List Bytes → List Bytes
  kept_prior n id [] = []
  kept_prior n id (p ∷ ps) =
      let rest = kept_prior n id ps in
      if not (bytes_eq p id) && has_pane n p then p ∷ rest else rest

  -- Tree.focus
  pub focus_on : Tree S F → Bytes → Tree S F
  focus_on t id =
      let kept = kept_prior t.root id t.prior in
      if bytes_eq id t.focus
      then t
      else record t { focus = id; prior = if has_pane t.root t.focus then t.focus ∷ kept else kept }

  -- SetFocus: false is its error.
  pub set_focus : Tree S F → Bytes → Tree S F × Bool
  set_focus t id = if has_pane t.root id then (focus_on t id, true) else (t, false)

  abbrev pub with_edit : Tree S F → Option (TreeNode S F) → Tree S F
  with_edit t none = t
  with_edit t (some root) = record t { root = root }

  abbrev pub place_split :
      Ratios F → Side → F → Tree S F × (PaneError ⊎ Pane S) → Tree S F × (PaneError ⊎ Pane S)
  place_split r side ratio (t, inl e) = (t, inl e)
  place_split r side ratio (t, inr new_pane) = (
    focus_on (with_edit t (edit_parent_split (place_new r side ratio) t.root new_pane.id))
        new_pane.id,
    inr new_pane,
  )

  pub split_on_side_at : Ratios F → Tree S F → Side → F → Tree S F × (PaneError ⊎ Pane S)
  split_on_side_at r t side ratio = place_split r side ratio (tree_split r t (side_direction side))

  abbrev pub opened :
      (S → Bytes)
      → Option (Pane S)
      → Tree S F × (PaneError ⊎ Pane S)
      → Tree S F × Option (Pane S) × Bool × Bool
  opened content_id focused (t, inl e) = (t, focused, false, false)
  opened content_id focused (t, inr p) = (t, some p, true, not (is_empty (content_id p.stack)))

  -- SplitBelowForOpen, where CanSplit of the rectangle is given.
  pub split_below_for_open :
      Ratios F → (S → Bytes) → Tree S F → Bool → Tree S F × Option (Pane S) × Bool × Bool
  split_below_for_open r content_id t can_split =
      let focused = find_pane t.root t.focus in
      if can_split
      then opened content_id focused (split_on_side_at r t bottom r.half)
      else (t, focused, false, false)

  pub any_leaf_id : TreeNode S F → Bytes
  any_leaf_id (leaf p) = p.id
  any_leaf_id (split dir ratio a b) =
      let in_a = any_leaf_id a in let in_b = any_leaf_id b in if is_empty in_a then in_b else in_a

  pub find_pane_node : TreeNode S F → Bytes → Option (List Bool)
  find_pane_node (leaf p) id = if bytes_eq p.id id then some [] else none
  find_pane_node (split dir ratio a b) id =
      first_path (turned true (find_pane_node a id)) (turned false (find_pane_node b id))

  abbrev pub node_at : TreeNode S F → List Bool → TreeNode S F
  node_at n [] = n
  node_at (leaf p) (b ∷ path) = leaf p
  node_at (split dir ratio a b) (true ∷ path) = node_at a path
  node_at (split dir ratio a b) (false ∷ path) = node_at b path

  abbrev pub put_at : TreeNode S F → List Bool → TreeNode S F → TreeNode S F
  put_at n [] m = m
  put_at (leaf p) (b ∷ path) m = leaf p
  put_at (split dir ratio a b) (true ∷ path) m = split dir ratio (put_at a path m) b
  put_at (split dir ratio a b) (false ∷ path) m = split dir ratio a (put_at b path m)

  abbrev pub swap_nodes : TreeNode S F → List Bool → List Bool → TreeNode S F
  swap_nodes n pa pb = put_at (put_at n pa (node_at n pb)) pb (node_at n pa)

  abbrev pub swap_held : Tree S F → Option (List Bool) → Option (List Bool) → Tree S F × Bool
  swap_held t (some pa) (some pb) = (record t { root = swap_nodes t.root pa pb }, true)
  swap_held t _ _ = (t, false)

  -- Swap: false is its error.
  pub swap : Tree S F → Bytes → Bytes → Tree S F × Bool
  swap t id_a id_b =
      if bytes_eq id_a id_b
      then (t, true)
      else swap_held (record t { zoomed = [] }) (find_pane_node t.root id_a)
          (find_pane_node t.root id_b)

  -- Recency
  unfoldable recency : Tree S F → List Bytes
  recency t = t.focus ∷ t.prior

  -- The recursion of RemoveSegment: the sibling of the node at the path takes their split's place.
  pub hoist_sibling : TreeNode S F → List Bool → Option (TreeNode S F)
  hoist_sibling n [] = none
  hoist_sibling (leaf p) (b ∷ path) = none
  hoist_sibling (split dir ratio a b) (true ∷ []) = some b
  hoist_sibling (split dir ratio a b) (false ∷ []) = some a
  hoist_sibling (split dir ratio a b) (true ∷ c ∷ path) =
      under (λ n. split dir ratio n b) (hoist_sibling a (c ∷ path))
  hoist_sibling (split dir ratio a b) (false ∷ c ∷ path) =
      under (λ n. split dir ratio a n) (hoist_sibling b (c ∷ path))

  abbrev refocused : Tree S F → Tree S F
  refocused t = if has_pane t.root t.focus then t else focus_on t (any_leaf_id t.root)

  abbrev pub removed : Tree S F → Option (TreeNode S F) → Tree S F × Bool
  removed t none = (t, false)
  removed t (some root) = (refocused (record t { root = root; zoomed = [] }), true)

  pub remove_segment : Tree S F → List Bool → Tree S F × Bool
  remove_segment t path = removed t (hoist_sibling t.root path)
