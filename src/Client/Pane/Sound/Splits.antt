-- ===== src/Client/Pane/Sound/Splits.antt =====
-- client/pane/pane.go: the splits, as edits of a sound pane tree.
use gridwell.Base.{
  ℕ, zero, suc, ◌+◌, ◌≤◌, ◌<◌, ◌≡◌, refl, ap, ◌∙◌, ◌⊎◌, inl, inr, Bool, true, false, ◌||◌, [],
  Option, none, some, Bytes, bytes_eq, bytes_eq_refl, bytes_eq→eq, is_empty, ltb, bytes-Eq, one_if,
  arith, Bool-cases,
}
use mathlib.Core.Bool.{false≢true}
use gridwell.Client.Pane.{
  Pane, TreeNode, leaf, split, Tree, Ratios, Side, Direction, side_direction, PaneError, pane_id,
  copy_pane, find_pane, replace_pane, split_result, split_focused, tree_split, edit_parent_split,
  place_new, focus_on, with_edit, place_split, split_on_side_at, split_below_for_open, opened,
}
use gridwell.Client.Pane.Panes.{
  number, find_pane_id, replace_pane-found, Traded, number-replace_pane, Counts,
  number-edit_parent_split, number-place_new,
}
use gridwell.Client.Pane.Sound.{IsSound, pane_id_inj, focus_on-IsSound, unzoomed_IsSound}

module _ {ℓ κ} {S : Type ℓ} {F : Type κ} where
  Traded-true :
      (n : TreeNode S F) (id : Bytes) (m : TreeNode S F) (x : TreeNode S F × Bool) (j : Bytes)
      → x.1 ≡ true
      → Traded n id m x j
      → number x.0 j + one_if (bytes_eq id j) ≡ number n j + number m j
  Traded-true n id m (y, true) j e h = h
  Traded-true n id m (y, false) j e h = absurd (false≢true e)

  -- What a split puts in the focused pane's place.
  abbrev pub halves : Ratios F → Tree S F → Direction → Pane S → TreeNode S F
  halves r t dir p =
      split dir r.half (leaf p) (leaf (copy_pane p (pane_id t.id_prefix (t.next_id + 1))))

  pub split_replaced :
      (r : Ratios F) (t : Tree S F) (dir : Direction) (p : Pane S)
      → IsSound t
      → p.id ≡ t.focus
      → (replace_pane t.root p.id (halves r t dir p)).1 ≡ true
  split_replaced r t dir p v e =
      replace_pane-found t.root p.id (halves r t dir p)
      ∙ ap (λ (j : Bytes). ltb 0 (number t.root j)) e
      ∙ positive (number t.root t.focus) v.focused
    where
      positive : (n : ℕ) → 0 < n → ltb 0 n ≡ true
      positive n h = ground arith

  -- One pane more, of the next id.
  number-split :
      (r : Ratios F) (t : Tree S F) (dir : Direction) (p : Pane S) (j : Bytes)
      → IsSound t
      → p.id ≡ t.focus
      → number (replace_pane t.root p.id (halves r t dir p)).0 j
        ≡ number t.root j + one_if (bytes_eq (pane_id t.id_prefix (t.next_id + 1)) j)
  number-split r t dir p j v e = omega (
    arith,
    Traded-true t.root p.id (halves r t dir p) (replace_pane t.root p.id (halves r t dir p)) j
        (split_replaced r t dir p v e) (number-replace_pane t.root p.id (halves r t dir p) j),
  )

  pub fresh_id :
      (t : Tree S F) → IsSound t → number t.root (pane_id t.id_prefix (t.next_id + 1)) ≡ 0
  fresh_id t v =
      none_of (number t.root (pane_id t.id_prefix (t.next_id + 1))) (v.minted (t.next_id + 1))
    where
      none_of : (n : ℕ) → (0 < n → t.next_id + 1 ≤ t.next_id) → n ≡ 0
      none_of zero h = refl
      none_of (suc n) h = absurd (omega (arith, h (omega arith)))

  grown_IsSound :
      (t : Tree S F) (root : TreeNode S F)
      → ((j : Bytes)
          → number root j
            ≡ number t.root j + one_if (bytes_eq (pane_id t.id_prefix (t.next_id + 1)) j))
      → IsSound t
      → IsSound (record t { root = root; zoomed = []; next_id = t.next_id + 1 })
  grown_IsSound t root e v = record {
    once = λ j. elim (Bool-cases (bytes_eq new_id j)) [
      | inl q ↦
          omega (arith, e j, ap one_if q, fresh_id t v, ap (number t.root) (bytes_eq→eq new_id j q))
      | inr q ↦ omega (arith, e j, ap one_if q, v.once j)
    ];
    focused = omega (arith, e t.focus, v.focused);
    minted = λ n h. elim (Bool-cases (bytes_eq new_id (pane_id t.id_prefix n))) [
      | inl q ↦ omega (
        arith,
        pane_id_inj t.id_prefix (t.next_id + 1) n (bytes_eq→eq new_id (pane_id t.id_prefix n) q),
      )
      | inr q ↦ omega (arith, v.minted n (omega (arith, e (pane_id t.id_prefix n), ap one_if q)))
    ];
    zoom = refl;
    recent = v.recent;
  }
    where
      new_id : Bytes
      new_id = pane_id t.id_prefix (t.next_id + 1)

  pub tree_split-IsSound :
      (r : Ratios F) (t : Tree S F) (dir : Direction) → IsSound t → IsSound (tree_split r t dir).0
  unfolding tree_split
  tree_split-IsSound r t dir v = found (find_pane t.root t.focus) (find_pane_id t.root t.focus)
    where
      found :
          (o : Option (Pane S))
          → ((p : Pane S) → o ≡ some p → p.id ≡ t.focus)
          → IsSound (split_focused r (record t { zoomed = [] }) dir o).0
      found none h = unzoomed_IsSound t v
      found (some p) h =
          grown_IsSound t (replace_pane t.root p.id (halves r t dir p)).0
            (λ j. number-split r t dir p j v (h p refl)) v

  pub split_on_side_at-IsSound :
      (r : Ratios F) (t : Tree S F) (side : Side) (ratio : F)
      → IsSound t
      → IsSound (split_on_side_at r t side ratio).0
  unfolding split_on_side_at tree_split
  split_on_side_at-IsSound r t side ratio v =
      found (find_pane t.root t.focus) (find_pane_id t.root t.focus)
    where
      edited :
          (t' : Tree S F) (o : Option (TreeNode S F)) (id : Bytes)
          → IsSound t'
          → t'.zoomed ≡ []
          → 0 < number t'.root id
          → ((j : Bytes) → Counts o (number t'.root j) j)
          → IsSound (focus_on (with_edit t' o) id)
      edited t' none id v' z h c = focus_on-IsSound t' id v' h
      edited t' (some root) id v' z h c =
          focus_on-IsSound _ id
            (record {
              once = λ j. omega (arith, c j, v'.once j);
              focused = omega (arith, c t'.focus, v'.focused);
              minted = λ n g. v'.minted n (omega (arith, c (pane_id t'.id_prefix n)));
              zoom = ap (λ (z : Bytes). is_empty z || ltb 0 (number root z)) z;
              recent = v'.recent;
            })
            (omega (arith, c id))

      placed :
          (p : Pane S) (x : TreeNode S F × Bool)
          → x.1 ≡ true
          → ((j : Bytes)
              → number x.0 j
                ≡ number t.root j + one_if (bytes_eq (pane_id t.id_prefix (t.next_id + 1)) j))
          → IsSound
              (place_split r side ratio (
                record t { root = x.0; zoomed = []; next_id = t.next_id + 1 },
                split_result x.1 (copy_pane p (pane_id t.id_prefix (t.next_id + 1))),
              )).0
      placed p (root, true) e h =
          edited _
            (edit_parent_split (place_new r side ratio) root (pane_id t.id_prefix (t.next_id + 1)))
            (pane_id t.id_prefix (t.next_id + 1)) (grown_IsSound t root h v) refl
            (omega (
              arith,
              h (pane_id t.id_prefix (t.next_id + 1)),
              ap one_if (bytes_eq_refl (pane_id t.id_prefix (t.next_id + 1))),
            ))
            (λ j.
              number-edit_parent_split (place_new r side ratio) (number-place_new r side ratio) root
                (pane_id t.id_prefix (t.next_id + 1)) j)
      placed p (root, false) e h = absurd (false≢true e)

      found :
          (o : Option (Pane S))
          → ((p : Pane S) → o ≡ some p → p.id ≡ t.focus)
          → IsSound
              (place_split r side ratio
                (split_focused r (record t { zoomed = [] }) (side_direction side) o)).0
      found none h = unzoomed_IsSound t v
      found (some p) h =
          placed p (replace_pane t.root p.id (halves r t (side_direction side) p))
            (split_replaced r t (side_direction side) p v (h p refl))
            (λ j. number-split r t (side_direction side) p j v (h p refl))

  pub split_below_for_open-IsSound :
      (r : Ratios F) (content_id : S → Bytes) (t : Tree S F) (can_split : Bool)
      → IsSound t
      → IsSound (split_below_for_open r content_id t can_split).0
  unfolding split_below_for_open
  split_below_for_open-IsSound r content_id t true v =
      either (split_on_side_at r t Side.bottom r.half)
        (split_on_side_at-IsSound r t Side.bottom r.half v)
    where
      either :
          (x : Tree S F × (PaneError ⊎ Pane S))
          → IsSound x.0
          → IsSound (opened content_id (find_pane t.root t.focus) x).0
      either (t', inl e) h = h
      either (t', inr p) h = h
  split_below_for_open-IsSound r content_id t false v = v
