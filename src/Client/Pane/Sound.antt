-- ===== src/Client/Pane/Sound.antt =====
-- client/pane/pane.go and RemoveSegment of resize.go: sound pane trees, and the edits of one.
pub mod Splits
pub mod Run
use gridwell.Base.{
  ℕ, zero, suc, ◌+◌, ◌≤◌, ◌<◌, ◌≡◌, refl, ap, subst, ◌∙◌, ◌⊎◌, inl, inr, Bool, true, false, ◌||◌,
  List, [], ◌∷◌, Option, none, some, if◌then◌else◌, Bytes, bytes, bytes_eq, bytes_eq_refl,
  bytes_eq→eq, bytes_eq_comm, is_empty, ltb, contains, bytes-Eq, append_cancel, one_if, arith,
  Bool-cases,
}
use mathlib.Core.Bool.{false≢true}
use gridwell.Codec.Decimal.{itoa, itoa_inj}
use gridwell.Client.Pane.{
  Pane, TreeNode, leaf, split, Tree, Ratios, Side, Direction, side_direction, PaneError, pane_id,
  copy_pane, find_pane, has_pane, toggle_zoom, new_tree, replace_pane, split_result, split_focused,
  tree_split, edit_parent_split, place_new, kept_prior, focus_on, set_focus, with_edit, place_split,
  split_on_side_at, split_below_for_open, opened, any_leaf_id, find_pane_node, node_at, swap_nodes,
  swap_held, swap, hoist_sibling, removed, remove_segment,
}
use gridwell.Client.Pane.Panes.{
  number, has_pane-number, find_pane_id, replace_pane-found, Traded, number-replace_pane, Counts,
  number-edit_parent_split, number-place_new, any_leaf_id-number, Leaves, number-hoist_sibling,
  number-swap_nodes, Ends, find_pane_node-Ends,
}

-- Each id stands once, the focus and the zoom name panes of the tree, every minted id is old, and the
-- focus is not its own predecessor.
pub record IsSound {ℓ κ} {S : Type ℓ} {F : Type κ} (t : Tree S F) : Type 0 where
  pub once : (j : Bytes) → number t.root j ≤ 1
  pub focused : 0 < number t.root t.focus
  pub minted : (n : ℕ) → 0 < number t.root (pane_id t.id_prefix n) → n ≤ t.next_id
  pub zoom : (is_empty t.zoomed || ltb 0 (number t.root t.zoomed)) ≡ true
  recent : contains t.focus t.prior ≡ false

pane_id_inj : (prefix : Bytes) (m n : ℕ) → pane_id prefix m ≡ pane_id prefix n → m ≡ n
pane_id_inj prefix m n e = itoa_inj m n (append_cancel (bytes "p") (append_cancel prefix e))

first_pane_id : pane_id [] 1 ≡ bytes "p1"
unfolding itoa
first_pane_id = refl

module _ {ℓ κ} {S : Type ℓ} {F : Type κ} where
  kept_prior_absent :
      (n : TreeNode S F) (id : Bytes) (ps : List Bytes) → contains id (kept_prior n id ps) ≡ false
  unfolding contains kept_prior
  kept_prior_absent n id [] = refl
  kept_prior_absent n id (p ∷ ps) = ground (arith, kept_prior_absent n id ps)

  -- The focus put on a pane of a tree whose old focus may be gone.
  refocus-IsSound :
      (t : Tree S F) (id : Bytes)
      → ((j : Bytes) → number t.root j ≤ 1)
      → ((n : ℕ) → 0 < number t.root (pane_id t.id_prefix n) → n ≤ t.next_id)
      → (is_empty t.zoomed || ltb 0 (number t.root t.zoomed)) ≡ true
      → contains t.focus t.prior ≡ false
      → 0 < number t.root id
      → IsSound (focus_on t id)
  unfolding focus_on contains
  refocus-IsSound t id once minted zoom recent h = moved (bytes_eq id t.focus) refl
    where
      moved :
          (b : Bool)
          → bytes_eq id t.focus ≡ b
          → IsSound (
              if b then t else record t {
                focus = id;
                prior =
                    if has_pane t.root t.focus
                    then t.focus ∷ kept_prior t.root id t.prior
                    else kept_prior t.root id t.prior;
              })
      moved true e = record {
        once = once;
        focused = subst (λ (j : Bytes). 0 < number t.root j) (bytes_eq→eq id t.focus e) h;
        minted = minted;
        zoom = zoom;
        recent = recent;
      }
      moved false e = record {
        once = once;
        focused = h;
        minted = minted;
        zoom = zoom;
        recent = ground (arith, kept_prior_absent t.root id t.prior, bytes_eq_comm id t.focus);
      }

  focus_on-IsSound :
      (t : Tree S F) (id : Bytes) → IsSound t → 0 < number t.root id → IsSound (focus_on t id)
  focus_on-IsSound t id v h = refocus-IsSound t id v.once v.minted v.zoom v.recent h

  set_focus-IsSound : (t : Tree S F) (id : Bytes) → IsSound t → IsSound (set_focus t id).0
  unfolding set_focus
  set_focus-IsSound t id v = moved (has_pane t.root id) (has_pane-number t.root id)
    where
      moved :
          (b : Bool)
          → b ≡ ltb 0 (number t.root id)
          → IsSound (if◌then◌else◌ {A = Tree S F × Bool} b (focus_on t id, true) (t, false)).0
      moved true e = focus_on-IsSound t id v (ground arith)
      moved false e = v

  toggle_zoom-IsSound : (t : Tree S F) (id : Bytes) → IsSound t → IsSound (toggle_zoom t id)
  unfolding toggle_zoom
  toggle_zoom-IsSound t id v =
      toggled (bytes_eq t.zoomed id) (has_pane t.root id) (has_pane-number t.root id)
    where
      toggled :
          (b c : Bool)
          → c ≡ ltb 0 (number t.root id)
          → IsSound
              (if b then record t { zoomed = [] } else (if c then record t { zoomed = id } else t))
      toggled true c e = record {
        once = v.once;
        focused = v.focused;
        minted = v.minted;
        zoom = refl;
        recent = v.recent;
      }
      toggled false true e = record {
        once = v.once;
        focused = v.focused;
        minted = v.minted;
        zoom = ground arith;
        recent = v.recent;
      }
      toggled false false e = v

  -- The same tree, not zoomed, on another root with each id as often.
  rooted_IsSound :
      (t : Tree S F) (root : TreeNode S F)
      → ((j : Bytes) → number root j ≡ number t.root j)
      → IsSound t
      → IsSound (record t { root = root; zoomed = [] })
  rooted_IsSound t root e v = record {
    once = λ j. omega (arith, e j, v.once j);
    focused = omega (arith, e t.focus, v.focused);
    minted = λ n h. v.minted n (omega (arith, e (pane_id t.id_prefix n)));
    zoom = refl;
    recent = v.recent;
  }

  unzoomed_IsSound : (t : Tree S F) → IsSound t → IsSound (record t { zoomed = [] })
  unzoomed_IsSound t v = rooted_IsSound t t.root (λ j. refl) v

  swap-IsSound : (t : Tree S F) (id_a id_b : Bytes) → IsSound t → IsSound (swap t id_a id_b).0
  unfolding swap
  swap-IsSound t id_a id_b v = swapped (bytes_eq id_a id_b)
    where
      held :
          (x y : Option (List Bool))
          → Ends t.root x
          → Ends t.root y
          → IsSound (swap_held (record t { zoomed = [] }) x y).0
      held (some pa) (some pb) h g =
          rooted_IsSound t (swap_nodes t.root pa pb)
            (λ j. number-swap_nodes t.root pa pb h.0 g.0 j h.1 g.1) v
      held none y h g = unzoomed_IsSound t v
      held (some pa) none h g = unzoomed_IsSound t v

      swapped :
          (b : Bool)
          → IsSound
              (if◌then◌else◌ {A = Tree S F × Bool} b
                (t, true)
                (swap_held
                  (record t { zoomed = [] })
                  (find_pane_node t.root id_a)
                  (find_pane_node t.root id_b))).0
      swapped true = v
      swapped false =
          held (find_pane_node t.root id_a) (find_pane_node t.root id_b)
            (find_pane_node-Ends t.root id_a) (find_pane_node-Ends t.root id_b)

  remove_segment-IsSound :
      (t : Tree S F) (path : List Bool) → IsSound t → IsSound (remove_segment t path).0
  unfolding remove_segment
  remove_segment-IsSound t path v =
      left (hoist_sibling t.root path) (λ j. number-hoist_sibling t.root path j)
    where
      left :
          (o : Option (TreeNode S F))
          → ((j : Bytes) → Leaves o (number (node_at t.root path) j) (number t.root j) j)
          → IsSound (removed t o).0
      left none h = v
      left (some root) h = kept (has_pane root t.focus) (has_pane-number root t.focus)
        where
          fewer : (j : Bytes) → number root j ≤ number t.root j
          fewer j = omega (arith, h j)

          kept :
              (b : Bool)
              → b ≡ ltb 0 (number root t.focus)
              → IsSound (
                  if b
                  then record t { root = root; zoomed = [] }
                  else focus_on (record t { root = root; zoomed = [] }) (any_leaf_id root))
          kept true e = record {
            once = λ j. omega (arith, fewer j, v.once j);
            focused = ground arith;
            minted = λ n g. v.minted n (omega (arith, fewer (pane_id t.id_prefix n)));
            zoom = refl;
            recent = v.recent;
          }
          kept false e =
              refocus-IsSound (record t { root = root; zoomed = [] }) (any_leaf_id root)
                (λ j. omega (arith, fewer j, v.once j))
                (λ n g. v.minted n (omega (arith, fewer (pane_id t.id_prefix n)))) refl v.recent
                (any_leaf_id-number root)
