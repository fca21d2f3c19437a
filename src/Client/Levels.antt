-- ===== src/Client/Levels.antt =====
-- client/pane/levels.go: the window's stack of workspace levels, each over the pane tree that it parked. A
-- float64 is an element of F, and LayoutHash, which is a hash of a library, is a parameter.
pub mod Claims
use gridwell.Base.{
  ℕ, zero, suc, ◌+◌, ◌-◌, Bool, true, false, not, ◌&&◌, ◌||◌, List, [], ◌∷◌, ◌++◌, map, Option,
  none, some, is_some, if◌then◌else◌, Bytes, bytes, bytes_eq, is_empty, ℤ, pos, negsuc, ltb, leb,
  ◌==◌, length, get_elem?,
}
use gridwell.Rpc.Framing.{Float64, Framing, View}
use gridwell.Client.Pane.{Pane, TreeNode, leaf, split, Tree, new_tree, find_pane}
use gridwell.Client.Place.{Stack, split_last, settle_view, pop, new_stack, stack_at}
use gridwell.Client.Place.Crumbs.{Crumb, content_id, crumbs}

pub record Level {ℓ} (F : Type ℓ) : Type ℓ where
  pub outer_tree : Option (Tree (Stack F) F)
  pub origin_pane : Bytes
  pub tile_id : Bytes
  pub grid_id : Bytes
  pub name : Bytes
  pub read_only : Bool
  pub basis : ℤ
  pub saved_hash : Bytes

pub record NavCrumb : Type 0 where
  pub workspace : Bool
  ws_level : ℕ
  pub tile_id : Bytes
  pub crumb : Crumb
  close_only : Bool

abbrev pub int_eq : ℤ → ℤ → Bool
int_eq (pos m) (pos n) = m == n
int_eq (negsuc m) (negsuc n) = m == n
int_eq (pos m) (negsuc n) = false
int_eq (negsuc m) (pos n) = false

abbrev no_crumb : Crumb
no_crumb = record {
  level = 0;
  anchor = [];
  tile_id = [];
  text = false;
  parent_anchor = [];
  parent_path = [];
}

abbrev pub basis_or : Option ℤ → ℤ → ℤ
basis_or none fallback = fallback
basis_or (some b) fallback = b

abbrev first_crumb : List Crumb → Crumb
first_crumb [] = no_crumb
first_crumb (c ∷ cs) = c

abbrev plain_crumb : Crumb → NavCrumb
plain_crumb c = record {
  workspace = false;
  ws_level = 0;
  tile_id = [];
  crumb = c;
  close_only = false;
}

module _ {ℓ} {F : Type ℓ} where
  abbrev map_leaves :
      (Pane (Stack F) → Pane (Stack F)) → TreeNode (Stack F) F → TreeNode (Stack F) F
  map_leaves f (leaf p) = leaf (f p)
  map_leaves f (split dir ratio a b) = split dir ratio (map_leaves f a) (map_leaves f b)

  -- The visit of PopEphemeralContent to one leaf.
  abbrev pop_if_ephemeral : (Pane (Stack F) → Bytes → Bool) → Pane (Stack F) → Pane (Stack F)
  pop_if_ephemeral ephemeral p =
      let id = content_id p.stack in
      if is_empty id
      then p
      else (if ephemeral p id then record p { stack = (pop p.stack).0 } else p)

  unfoldable pop_ephemeral_content :
      Tree (Stack F) F → (Pane (Stack F) → Bytes → Bool) → Tree (Stack F) F
  pop_ephemeral_content t ephemeral = record t {
    root = map_leaves (pop_if_ephemeral ephemeral) t.root;
  }

  abbrev push_level : List (Level F) → Level F → List (Level F)
  push_level levels f = levels ++ f ∷ []

  -- Levels.Pop.
  abbrev pop_level : List (Level F) → List (Level F) × Option (Level F)
  pop_level [] = ([], none)
  pop_level (f ∷ fs) = let (rest, last) = split_last f fs in (rest, some last)

  -- The loop of Claim from the innermost level out.
  abbrev pub innermost_basis : List (Level F) → Bytes → Option ℤ
  innermost_basis [] tile_id = none
  innermost_basis (f ∷ fs) tile_id =
      let inner = innermost_basis fs tile_id in
      elim inner [
        | some b ↦ some b
        | none ↦ if bytes_eq f.tile_id tile_id then some f.basis else none
      ]

  pub claim_of : List (Level F) → Bytes → ℤ → ℤ
  claim_of levels tile_id fallback = basis_or (innermost_basis levels tile_id) fallback

  abbrev landed_on : Bytes → ℤ → ℤ → Level F → Level F
  landed_on tile_id claimed now f =
      if bytes_eq f.tile_id tile_id && int_eq f.basis claimed then record f { basis = now } else f

  pub landed : List (Level F) → Bytes → ℤ → ℤ → List (Level F)
  landed [] tile_id claimed now = []
  landed (f ∷ fs) tile_id claimed now =
      landed_on tile_id claimed now f ∷ landed fs tile_id claimed now

  -- At, for a level that is no negative number.
  abbrev level_at : List (Level F) → ℕ → Option (Level F)
  level_at levels zero = none
  level_at levels (suc k) = get_elem? levels k

  -- PopCountTo, for a level that is no negative number.
  abbrev pop_count_to : List (Level F) → ℕ → ℕ
  pop_count_to levels k = if leb (length levels) k then 0 else length levels - k

  pub should_persist : (Bytes → Bytes) → Option (Level F) → Bytes → Bool
  should_persist hash none encoded = false
  should_persist hash (some top) encoded =
      if top.read_only || is_empty encoded
      then false
      else not (bytes_eq (hash encoded) top.saved_hash)

  abbrev pub mark_saved : (Bytes → Bytes) → Level F → Bytes → Level F
  mark_saved hash top encoded = record top { saved_hash = hash encoded }

  pub forget_saved : (Bytes → Bytes) → Level F → Bytes → Level F
  forget_saved hash top encoded =
      if bytes_eq top.saved_hash (hash encoded) then record top { saved_hash = [] } else top

  abbrev origin_crumb : Option (Pane (Stack F)) → Crumb
  origin_crumb none = no_crumb
  origin_crumb (some p) = first_crumb (crumbs p.stack)

  abbrev parked_crumb : Option (Tree (Stack F) F) → Bytes → Crumb
  parked_crumb none origin = no_crumb
  parked_crumb (some t) origin =
      if is_empty origin then no_crumb else origin_crumb (find_pane t.root origin)

  abbrev root_crumb : Level F → Crumb
  root_crumb f =
      let c = parked_crumb f.outer_tree f.origin_pane in
      if is_empty c.anchor && is_empty c.tile_id && not (is_empty f.grid_id)
      then record no_crumb { anchor = f.grid_id; parent_anchor = f.grid_id }
      else c

  abbrev level_crumbs : ℕ → List (Level F) → List NavCrumb
  level_crumbs k [] = []
  level_crumbs k (f ∷ fs) =
      record {
        workspace = true;
        ws_level = k;
        tile_id = f.tile_id;
        crumb = no_crumb;
        close_only = false;
      }
      ∷ level_crumbs (k + 1) fs

  abbrev boundary_crumbs : List (Level F) → List NavCrumb
  boundary_crumbs [] = []
  boundary_crumbs (f ∷ fs) =
      record (plain_crumb (root_crumb f)) { close_only = true } ∷ level_crumbs 1 (f ∷ fs)

  abbrev pane_crumbs : Option (Pane (Stack F)) → List NavCrumb
  pane_crumbs none = []
  pane_crumbs (some p) = map plain_crumb (crumbs p.stack)

  unfoldable nav_chain : List (Level F) → Option (Pane (Stack F)) → List NavCrumb
  nav_chain levels p = boundary_crumbs levels ++ pane_crumbs p

module _ {ℓ} {F : Type ℓ} ⦃fl : Float64 F⦄ where
  abbrev with_view : Stack F → View F → View F → Stack F
  with_view s none origin = record s { top = settle_view (record s.top { view = origin }) }
  with_view s (some v) origin = record s { top = settle_view (record s.top { view = some v }) }

  unfoldable tree_at_place : Framing F → Bytes → Bytes → List Bytes → View F → Tree (Stack F) F
  tree_at_place origin id_prefix anchor path view =
      let t : Tree (Stack F) F = new_tree (new_stack origin []) in
      let id = id_prefix ++ t.focus in
      record t {
        root =
            leaf
              (record { id = id; stack = with_view (stack_at anchor path []) view (some origin) });
        focus = id;
        id_prefix = id_prefix;
      }
