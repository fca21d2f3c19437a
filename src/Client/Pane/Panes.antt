-- ===== src/Client/Pane/Panes.antt =====
-- client/pane/pane.go: how often a pane's id stands in a tree, through every edit of it.
use gridwell.Base.{
  ℕ, ◌+◌, ◌<◌, ◌≡◌, refl, ap, sym, subst, ◌∙◌, inl, inr, Bool, true, false, ◌||◌, List, [], ◌∷◌,
  ◌++◌, Option, none, some, if◌then◌else◌, Bytes, bytes_eq, bytes_eq_refl, bytes_eq→eq, is_empty,
  is_some, ltb, one_if, arith, Bool-cases,
}
use gridwell.Client.Pane.{
  Pane, TreeNode, leaf, split, panes, last_with, find_pane, has_pane, replace_pane,
  edit_parent_split, is_leaf_of, first_edit, under, place_new, Side, is_near, Ratios, any_leaf_id,
  find_pane_node, first_path, turned, node_at, put_at, swap_nodes, hoist_sibling,
}

last_with-append {ℓ} :
    {S : Type ℓ} (id : Bytes) (ps qs : List (Pane S)) (found : Option (Pane S))
    → last_with id (ps ++ qs) found ≡ last_with id qs (last_with id ps found)
last_with-append id [] qs found = refl
last_with-append id (p ∷ ps) qs found = last_with-append id ps qs _

some_id {ℓ} : {S : Type ℓ} {p q : Pane S} → some q ≡ some p → p.id ≡ q.id
some_id {S = S} {q = q} e = sym (ap id_or e)
  where
    id_or : Option (Pane S) → Bytes
    id_or none = q.id
    id_or (some r) = r.id

-- What FindPane finds has the id asked for.
found_id {ℓ} :
    {S : Type ℓ} (id : Bytes) (ps : List (Pane S)) (found : Option (Pane S))
    → ((p : Pane S) → found ≡ some p → p.id ≡ id)
    → (p : Pane S) → last_with id ps found ≡ some p
    → p.id ≡ id
found_id id [] found h p e = h p e
found_id id (q ∷ ps) found h p e = elim (Bool-cases (bytes_eq q.id id)) [
  | inl t ↦
      found_id id ps (some q) (λ r g. some_id g ∙ bytes_eq→eq q.id id t) p
        (ap (λ (b : Bool). last_with id ps (if b then some q else found)) (sym t) ∙ e)
  | inr t ↦
      found_id id ps found h p
        (ap (λ (b : Bool). last_with id ps (if b then some q else found)) (sym t) ∙ e)
]

module _ {ℓ κ} {S : Type ℓ} {F : Type κ} where
  -- How many leaves of a tree have the id.
  abbrev pub number : TreeNode S F → Bytes → ℕ
  number (leaf p) id = one_if (bytes_eq p.id id)
  number (split dir ratio a b) id = number a id + number b id

  -- A pane is found behind one already found, or where its id stands in the tree.
  find_pane_from :
      (n : TreeNode S F) (id : Bytes) (found : Option (Pane S))
      → is_some (last_with id (panes n) found) ≡ (ltb 0 (number n id) || is_some found)
  unfolding panes
  find_pane_from (leaf p) id found = one (bytes_eq p.id id)
    where
      one : (b : Bool) → is_some (if b then some p else found) ≡ (ltb 0 (one_if b) || is_some found)
      one true = refl
      one false = refl
  find_pane_from (split dir ratio a b) id found =
      ap is_some (last_with-append id (panes a) (panes b) found)
      ∙ find_pane_from b id (last_with id (panes a) found)
      ∙ ground (arith, find_pane_from a id found)

  pub has_pane-number : (n : TreeNode S F) (id : Bytes) → has_pane n id ≡ ltb 0 (number n id)
  unfolding find_pane
  has_pane-number n id = find_pane_from n id none ∙ ground arith

  pub find_pane_id :
      (n : TreeNode S F) (id : Bytes) (p : Pane S) → find_pane n id ≡ some p → p.id ≡ id
  unfolding find_pane
  find_pane_id n id p e = found_id id (panes n) none (λ q g. cc) p e

  pub replace_pane-found :
      (n : TreeNode S F) (id : Bytes) (m : TreeNode S F)
      → (replace_pane n id m).1 ≡ ltb 0 (number n id)
  unfolding replace_pane
  replace_pane-found (leaf p) id m = one (bytes_eq p.id id)
    where
      one :
          (b : Bool)
          → (if◌then◌else◌ {A = TreeNode S F × Bool} b (m, true) (leaf p, false)).1
            ≡ ltb 0 (one_if b)
      one true = refl
      one false = refl
  replace_pane-found (split dir ratio a b) id m =
      either (replace_pane a id m).1 (replace_pane b id m).1
      ∙ ground (arith, replace_pane-found a id m, replace_pane-found b id m)
    where
      either :
          (p q : Bool)
          → (if◌then◌else◌ {A = TreeNode S F × Bool} p
              (split dir ratio (replace_pane a id m).0 b, true)
              (if◌then◌else◌ {A = TreeNode S F × Bool} q
                (split dir ratio a (replace_pane b id m).0, true)
                (split dir ratio a b, false))).1
            ≡ (p || q)
      either true q = refl
      either false true = refl
      either false false = refl

  -- Ids before and after a replacement: one leaf of the id gives way to the replacement's.
  abbrev pub Traded : TreeNode S F → Bytes → TreeNode S F → TreeNode S F × Bool → Bytes → Type 0
  Traded n id m r j =
      number r.0 j + (if r.1 then one_if (bytes_eq id j) else 0)
      ≡ number n j + (if r.1 then number m j else 0)

  pub number-replace_pane :
      (n : TreeNode S F) (id : Bytes) (m : TreeNode S F) (j : Bytes)
      → Traded n id m (replace_pane n id m) j
  unfolding replace_pane
  number-replace_pane (leaf p) id m j = elim (Bool-cases (bytes_eq p.id id)) [
    | inl e ↦ rw e (rw (bytes_eq→eq p.id id e) (omega arith))
    | inr e ↦ rw e refl
  ]
  number-replace_pane (split dir ratio a b) id m j =
      either (replace_pane a id m).1 (replace_pane b id m).1 (number-replace_pane a id m j)
        (number-replace_pane b id m j)
    where
      either :
          (p q : Bool)
          → Traded a id m ((replace_pane a id m).0, p) j
          → Traded b id m ((replace_pane b id m).0, q) j
          → Traded
              (split dir ratio a b)
              id
              m
              (if p
                then (split dir ratio (replace_pane a id m).0 b, true)
                else (if q
                    then (split dir ratio a (replace_pane b id m).0, true)
                    else (split dir ratio a b, false)))
              j
      either true q ha hb = omega arith
      either false true ha hb = omega arith
      either false false ha hb = refl

  -- The tree, if there is one, has c leaves of the id j.
  abbrev pub Counts : Option (TreeNode S F) → ℕ → Bytes → Type 0
  Counts none c j = Unit
  Counts (some m) c j = number m j ≡ c

  Counts-at :
      (o : Option (TreeNode S F)) (m : TreeNode S F) (c : ℕ) (j : Bytes)
      → Counts o c j
      → o ≡ some m
      → number m j ≡ c
  Counts-at o m c j h e = subst (λ (x : Option (TreeNode S F)). Counts x c j) e h

  -- An edit of a split that keeps its panes keeps those of the tree.
  pub number-edit_parent_split :
      (edit : TreeNode S F → TreeNode S F)
      → ((n : TreeNode S F) (j : Bytes) → number (edit n) j ≡ number n j)
      → (n : TreeNode S F) (id : Bytes) (j : Bytes)
      → Counts (edit_parent_split edit n id) (number n j) j
  unfolding edit_parent_split
  number-edit_parent_split edit h (leaf p) id j = tt
  number-edit_parent_split edit h (split dir ratio a b) id j =
      here (is_leaf_of a id || is_leaf_of b id) (edit_parent_split edit a id)
        (edit_parent_split edit b id) (number-edit_parent_split edit h a id j)
        (number-edit_parent_split edit h b id j)
    where
      here :
          (p : Bool) (x y : Option (TreeNode S F))
          → Counts x (number a j) j
          → Counts y (number b j) j
          → Counts
              (if p
                then some (edit (split dir ratio a b))
                else first_edit
                    (under (λ n. split dir ratio n b) x)
                    (under (λ n. split dir ratio a n) y))
              (number a j + number b j)
              j
      here true x y hx hy = h (split dir ratio a b) j
      here false (some x) y hx hy = omega arith
      here false none (some y) hx hy = omega arith
      here false none none hx hy = tt

  pub number-place_new :
      (r : Ratios F) (side : Side) (ratio : F) (n : TreeNode S F) (j : Bytes)
      → number (place_new r side ratio n) j ≡ number n j
  number-place_new r side ratio (leaf p) j = refl
  number-place_new r side ratio (split dir old a b) j = one (is_near side)
    where
      one :
          (near : Bool)
          → number
              (if near
                then split dir (r.clamp01 ratio) b a
                else split dir (r.one_minus (r.clamp01 ratio)) a b)
              j
            ≡ number a j + number b j
      one true = omega arith
      one false = refl

  pub any_leaf_id-number : (n : TreeNode S F) → 0 < number n (any_leaf_id n)
  unfolding any_leaf_id
  any_leaf_id-number (leaf p) = rw (bytes_eq_refl p.id) (omega arith)
  any_leaf_id-number (split dir ratio a b) =
      one (is_empty (any_leaf_id a)) (any_leaf_id-number a) (any_leaf_id-number b)
    where
      one :
          (e : Bool)
          → 0 < number a (any_leaf_id a)
          → 0 < number b (any_leaf_id b)
          → 0 < number (split dir ratio a b) (if e then any_leaf_id b else any_leaf_id a)
      one true ha hb = omega arith
      one false ha hb = omega arith

  -- The tree, if there is one, and c leaves more are n's.
  abbrev pub Leaves : Option (TreeNode S F) → ℕ → ℕ → Bytes → Type 0
  Leaves none c n j = Unit
  Leaves (some m) c n j = number m j + c ≡ n

  -- The panes of a tree are those of a segment in it and those left when it is removed.
  pub number-hoist_sibling :
      (n : TreeNode S F) (path : List Bool) (j : Bytes)
      → Leaves (hoist_sibling n path) (number (node_at n path) j) (number n j) j
  unfolding hoist_sibling
  number-hoist_sibling n [] j = tt
  number-hoist_sibling (leaf p) (b ∷ path) j = tt
  number-hoist_sibling (split dir ratio a b) (true ∷ []) j = omega arith
  number-hoist_sibling (split dir ratio a b) (false ∷ []) j = omega arith
  number-hoist_sibling (split dir ratio a b) (true ∷ c ∷ path) j =
      left (hoist_sibling a (c ∷ path)) (number-hoist_sibling a (c ∷ path) j)
    where
      left :
          (x : Option (TreeNode S F))
          → Leaves x (number (node_at a (c ∷ path)) j) (number a j) j
          → Leaves
              (under (λ n. split dir ratio n b) x)
              (number (node_at a (c ∷ path)) j)
              (number a j + number b j)
              j
      left none h = tt
      left (some x) h = omega arith
  number-hoist_sibling (split dir ratio a b) (false ∷ c ∷ path) j =
      right (hoist_sibling b (c ∷ path)) (number-hoist_sibling b (c ∷ path) j)
    where
      right :
          (x : Option (TreeNode S F))
          → Leaves x (number (node_at b (c ∷ path)) j) (number b j) j
          → Leaves
              (under (λ n. split dir ratio a n) x)
              (number (node_at b (c ∷ path)) j)
              (number a j + number b j)
              j
      right none h = tt
      right (some x) h = omega arith

  -- The pane whose leaf stands at the end of the path.
  abbrev pane_at : TreeNode S F → List Bool → Option (Pane S)
  pane_at (leaf p) [] = some p
  pane_at (leaf p) (b ∷ path) = none
  pane_at (split dir ratio a b) [] = none
  pane_at (split dir ratio a b) (true ∷ path) = pane_at a path
  pane_at (split dir ratio a b) (false ∷ path) = pane_at b path

  node_at-pane_at :
      (n : TreeNode S F) (path : List Bool) (p : Pane S)
      → pane_at n path ≡ some p
      → node_at n path ≡ leaf p
  node_at-pane_at (leaf q) [] p e = cc
  node_at-pane_at (leaf q) (b ∷ path) p e = cc
  node_at-pane_at (split dir ratio a b) [] p e = cc
  node_at-pane_at (split dir ratio a b) (true ∷ path) p e = node_at-pane_at a path p e
  node_at-pane_at (split dir ratio a b) (false ∷ path) p e = node_at-pane_at b path p e

  -- A node written over a leaf.
  number-put_at :
      (n : TreeNode S F) (path : List Bool) (p : Pane S) (m : TreeNode S F) (j : Bytes)
      → pane_at n path ≡ some p
      → number (put_at n path m) j + one_if (bytes_eq p.id j) ≡ number n j + number m j
  number-put_at (leaf q) [] p m j e =
      ap (λ (i : Bytes). number m j + one_if (bytes_eq i j)) (some_id e) ∙ omega arith
  number-put_at (leaf q) (b ∷ path) p m j e = cc
  number-put_at (split dir ratio a b) [] p m j e = cc
  number-put_at (split dir ratio a b) (true ∷ path) p m j e =
      omega (arith, number-put_at a path p m j e)
  number-put_at (split dir ratio a b) (false ∷ path) p m j e =
      omega (arith, number-put_at b path p m j e)

  pane_at-put_at :
      (n : TreeNode S F) (pa pb : List Bool) (p q : Pane S)
      → pane_at n pa ≡ some p
      → pane_at n pb ≡ some q
      → pane_at (put_at n pa (leaf q)) pb ≡ some q
  pane_at-put_at (leaf r) [] [] p q e f = refl
  pane_at-put_at (leaf r) [] (c ∷ pb) p q e f = cc
  pane_at-put_at (leaf r) (b ∷ pa) pb p q e f = cc
  pane_at-put_at (split dir ratio a b) [] pb p q e f = cc
  pane_at-put_at (split dir ratio a b) (c ∷ pa) [] p q e f = cc
  pane_at-put_at (split dir ratio a b) (true ∷ pa) (true ∷ pb) p q e f =
      pane_at-put_at a pa pb p q e f
  pane_at-put_at (split dir ratio a b) (true ∷ pa) (false ∷ pb) p q e f = f
  pane_at-put_at (split dir ratio a b) (false ∷ pa) (true ∷ pb) p q e f = f
  pane_at-put_at (split dir ratio a b) (false ∷ pa) (false ∷ pb) p q e f =
      pane_at-put_at b pa pb p q e f

  -- Two leaves exchanged.
  pub number-swap_nodes :
      (n : TreeNode S F) (pa pb : List Bool) (p q : Pane S) (j : Bytes)
      → pane_at n pa ≡ some p
      → pane_at n pb ≡ some q
      → number (swap_nodes n pa pb) j ≡ number n j
  number-swap_nodes n pa pb p q j e f =
      ap (λ (m : TreeNode S F). number (put_at (put_at n pa m) pb (node_at n pa)) j)
        (node_at-pane_at n pb q f)
      ∙ ap (λ (m : TreeNode S F). number (put_at (put_at n pa (leaf q)) pb m) j)
          (node_at-pane_at n pa p e)
      ∙ omega (
        arith,
        number-put_at (put_at n pa (leaf q)) pb q (leaf p) j (pane_at-put_at n pa pb p q e f),
        number-put_at n pa p (leaf q) j e,
      )

  -- The path that findPaneNode gives, if any, ends in a leaf.
  abbrev pub Ends : TreeNode S F → Option (List Bool) → Type ℓ
  Ends n none = Unit
  Ends n (some path) = (p : Pane S) × (pane_at n path ≡ some p)

  pub find_pane_node-Ends : (n : TreeNode S F) (id : Bytes) → Ends n (find_pane_node n id)
  unfolding find_pane_node
  find_pane_node-Ends (leaf p) id = one (bytes_eq p.id id)
    where
      one : (b : Bool) → Ends (leaf p) (if b then some [] else none)
      one true = (p, refl)
      one false = tt
  find_pane_node-Ends (split dir ratio a b) id =
      first (find_pane_node a id) (find_pane_node b id) (find_pane_node-Ends a id)
        (find_pane_node-Ends b id)
    where
      first :
          (x y : Option (List Bool))
          → Ends a x
          → Ends b y
          → Ends (split dir ratio a b) (first_path (turned true x) (turned false y))
      first (some x) y h g = h
      first none (some y) h g = g
      first none none h g = tt
