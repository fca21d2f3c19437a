-- ===== src/Tests/Places.antt =====
-- Framings, places and workspace levels of api/rpc and client/pane on concrete data, where a number
-- stands for a float64.
use gridwell.Base.{
  ℕ, ◌≡◌, refl, ◌↔◌, true, false, ◌&&◌, List, [], ◌∷◌, none, Bytes, bytes, bytes_eq, is_some, ltb,
  ◌==◌, ==_refl, take, All, pos, if◌then◌else◌,
}
use gridwell.Rpc.Framing.{
  Float64, Framing, RootView, PluginDoors, new_framing, framing_same, reframe, reframe_door,
}
use gridwell.Rpc.Framing.Doors.{Shows, all_doors, reframe-settles}
use gridwell.Client.Place.{Stack, push, popped, stack_at, bare_frame, frames}
use gridwell.Client.Place.Crumbs.{
  Crumb, spots, crumbs, ascents_to, anchor_path_at, projection_holds,
}
use gridwell.Client.Place.Stacks.{crumb-ascent}
use gridwell.Client.Place.Projection.{projection_holds_iff}
use gridwell.Client.Levels.{Level, innermost_basis, int_eq, claim_of, landed}
use gridwell.Client.Levels.Claims.{claim_of-landed}

instance abbrev numbers : Float64 ℕ
numbers = record {
  zero = 0;
  is_finite = λ n. true;
  above_zero = λ n. ltb 0 n;
  near = λ m n. m == n;
  same = λ m n. m == n;
  max0 = λ n. n;
  near_refl = λ n f. ==_refl n;
}

abbrev a_framing : Framing ℕ
a_framing = record { cx = 3; cy = 4; zoom = 1 }

abbrev door_to : Bytes → RootView ℕ
door_to grid = record { grid = grid; view_cx = 0; view_cy = 0; view_zoom = 0 }

abbrev two_plugins : List (PluginDoors ℕ)
two_plugins =
    record { root = door_to (bytes "a/1"); entries = door_to (bytes "a/2") ∷ [] }
    ∷ record { root = door_to (bytes "b/1"); entries = door_to (bytes "a/1") ∷ [] }
    ∷ []

reframe-settles_example :
    let r = reframe (bytes "a/1") a_framing two_plugins in
    All (Shows (bytes "a/1") a_framing) (all_doors r.0)
    × (reframe (bytes "a/1") a_framing r.0 ≡ (r.0, false))
unfolding new_framing
reframe-settles_example = reframe-settles (bytes "a/1") 3 4 1 a_framing two_plugins refl refl

reframe_tells : (reframe (bytes "a/1") a_framing two_plugins).1 ≡ true
unfolding reframe reframe_door framing_same new_framing bytes_eq
reframe_tells = refl

-- A crossing into b, a door below it and a text tile.
abbrev a_place : Stack ℕ
a_place =
    push
      (push
        (push (record { top = bare_frame (bytes "a/1") [] false; below = [] })
          (bare_frame (bytes "b/1") (bytes "a/2") false))
        (bare_frame [] (bytes "b/3") false))
      (bare_frame [] (bytes "b/4") true)

third_crumb : Crumb
third_crumb = record {
  level = 2;
  anchor = [];
  tile_id = bytes "b/3";
  text = false;
  parent_anchor = bytes "b/1";
  parent_path = [];
}

crumb-ascent_example :
    (third_crumb.level ≡ 2)
    × (frames (popped a_place (ascents_to a_place third_crumb)) ≡ take 3 (frames a_place))
unfolding crumbs anchor_path_at third_crumb
crumb-ascent_example = crumb-ascent a_place 2 third_crumb refl

projection_holds_iff_example : (projection_holds a_place ≡ true) ↔ (
    (g : Bytes) × (path : List Bytes) × (c : Bytes) × (spots a_place
      ≡ spots {F = ℕ} (stack_at g path c)))
projection_holds_iff_example = projection_holds_iff ℕ a_place

-- The crossing is lost, so the place is not named.
crossing_is_lost : projection_holds a_place ≡ false
unfolding projection_holds anchor_path_at stack_at bytes_eq
crossing_is_lost = refl

abbrev level_on : Bytes → ℕ → Level ℕ
level_on id basis = record {
  outer_tree = none;
  origin_pane = [];
  tile_id = id;
  grid_id = [];
  name = [];
  read_only = false;
  basis = pos basis;
  saved_hash = [];
}

abbrev two_levels : List (Level ℕ)
two_levels = level_on (bytes "a/7") 4 ∷ level_on (bytes "a/9") 5 ∷ []

claim_of-landed_example :
    claim_of (landed two_levels (bytes "a/7") (pos 4) (pos 6)) (bytes "a/7") (pos 0) ≡ (
      if bytes_eq (bytes "a/7") (bytes "a/7")
        && is_some (innermost_basis two_levels (bytes "a/7"))
        && int_eq (claim_of two_levels (bytes "a/7") (pos 0)) (pos 4)
      then pos 6
      else claim_of two_levels (bytes "a/7") (pos 0))
claim_of-landed_example =
    claim_of-landed two_levels (bytes "a/7") (bytes "a/7") (pos 4) (pos 6) (pos 0)
