-- ===== src/Client/Place/Crumbs.antt =====
-- client/pane/place.go and chain.go: what names a level of a place, and the crumbs that a place shows. Of
-- a frame they read its grid, its door and whether it is a content frame.
use gridwell.Base.{
  ℕ, zero, suc, ◌+◌, ◌-◌, Bool, true, false, not, ◌&&◌, List, [], ◌∷◌, map, if◌then◌else◌, Bytes,
  bytes_eq, is_empty, ℤ, pos, negsuc, ltb, ◌==◌, length, take, drop,
}
use gridwell.Rpc.Framing.{Float64}
use gridwell.Client.Place.{Frame, Stack, frames, depth, stack_at}

pub record Spot : Type 0 where
  pub grid_id : Bytes
  pub door : Bytes
  pub content : Bool

-- frames[k].GridID, where k is in range.
abbrev grid_at : List Spot → ℕ → Bytes
grid_at [] k = []
grid_at (f ∷ fs) zero = f.grid_id
grid_at (f ∷ fs) (suc k) = grid_at fs k

-- Whether frames[k] begins a level.
abbrev pub anchors_at : List Spot → ℕ → Bool
anchors_at [] k = false
anchors_at (f ∷ fs) zero = not f.content && not (is_empty f.grid_id)
anchors_at (f ∷ fs) (suc k) = anchors_at fs k

-- The first loop of AnchorPathAt, from k down.
abbrev pub anchor_level : List Spot → ℕ → ℕ
anchor_level fs zero = 0
anchor_level fs (suc k) =
    let rest = anchor_level fs k in if anchors_at fs (suc k) then suc k else rest

-- The second loop.
abbrev pub doors : List Spot → List Bytes
doors [] = []
doors (f ∷ fs) = let rest = doors fs in if f.content then rest else f.door ∷ rest

abbrev pub anchor_path : List Spot → ℕ → Bytes × List Bytes
anchor_path fs i =
    let start = anchor_level fs i in
    (grid_at fs start, doors (take (i - start) (drop (start + 1) fs)))

abbrev pub at_most_last : ℕ → ℕ → ℕ
at_most_last i n = if ltb (n - 1) i then n - 1 else i

abbrev pub same_spot : Spot → Spot → Bool
same_spot a b =
    bytes_eq a.grid_id b.grid_id
    && bytes_eq a.door b.door
    && (if a.content then b.content else not b.content)

abbrev pub same_spots : List Spot → List Spot → Bool
same_spots [] [] = true
same_spots (a ∷ fs) (b ∷ gs) = same_spot a b && same_spots fs gs
same_spots [] (b ∷ gs) = false
same_spots (a ∷ fs) [] = false

pub record Crumb : Type 0 where
  pub level : ℕ
  pub anchor : Bytes
  pub tile_id : Bytes
  pub text : Bool
  pub parent_anchor : Bytes
  pub parent_path : List Bytes

module _ {ℓ} {F : Type ℓ} where
  abbrev pub spot : Frame F → Spot
  spot f = record { grid_id = f.grid_id; door = f.door; content = f.content }

  abbrev pub spots : Stack F → List Spot
  spots s = map spot (frames s)

  unfoldable pub anchor_path_at : Stack F → ℤ → Bytes × List Bytes
  anchor_path_at s (negsuc n) = ([], [])
  anchor_path_at s (pos i) = anchor_path (spots s) (at_most_last i (length (spots s)))

  unfoldable anchor : Stack F → Bytes
  anchor s = (anchor_path_at s (pos (length s.below))).0

  unfoldable path : Stack F → List Bytes
  path s = (anchor_path_at s (pos (length s.below))).1

  abbrev pub content_id : Stack F → Bytes
  content_id s = if s.top.content then s.top.door else []

  -- The crumb of the i-th frame; a bottom frame without a grid has nothing below it.
  abbrev pub crumb_of : Stack F → ℕ → Frame F → Crumb
  crumb_of s i f =
      if is_empty f.grid_id
      then (let (parent_anchor, parent_path) =
            anchor_path_at s (if i == 0 then negsuc 0 else pos (i - 1)) in
          record {
            level = i;
            anchor = [];
            tile_id = f.door;
            text = f.content;
            parent_anchor = parent_anchor;
            parent_path = parent_path;
          })
      else record {
        level = i;
        anchor = f.grid_id;
        tile_id = [];
        text = false;
        parent_anchor = f.grid_id;
        parent_path = [];
      }

  abbrev pub crumbs_from : Stack F → ℕ → List (Frame F) → List Crumb
  crumbs_from s i [] = []
  crumbs_from s i (f ∷ fs) = crumb_of s i f ∷ crumbs_from s (i + 1) fs

  unfoldable pub crumbs : Stack F → List Crumb
  crumbs s =
      if depth s == 1 && is_empty s.top.grid_id && is_empty s.top.door
      then []
      else crumbs_from s 0 (frames s)

  unfoldable pub ascents_to : Stack F → Crumb → ℕ
  ascents_to s c = depth s - 1 - c.level

module _ {ℓ} {F : Type ℓ} ⦃fl : Float64 F⦄ where
  unfoldable pub projection_holds : Stack F → Bool
  projection_holds s =
      let (anchor, path) = anchor_path_at s (pos (length s.below)) in
      same_spots (spots {F = F} s) (spots {F = F} (stack_at anchor path (content_id s)))
