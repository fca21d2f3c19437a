-- ===== src/Client/Place.antt =====
-- client/pane/place.go: a pane's place, one stack of frames. A float64 is an element of F.
pub mod Crumbs
pub mod Stacks
pub mod Projection
use gridwell.Base.{
  ℕ, zero, suc, ◌+◌, Bool, true, false, not, ◌&&◌, ◌||◌, List, [], ◌∷◌, ◌++◌, Option, none, some,
  is_some, if◌then◌else◌, Bytes, is_empty, length,
}
use gridwell.Rpc.Framing.{Float64, Framing, View, new_framing}

pub record Frame {ℓ} (F : Type ℓ) : Type ℓ where
  pub grid_id : Bytes
  pub door : Bytes
  pub content : Bool
  pub view : View F
  pub text_mode : Bytes
  pub scroll_x : F
  pub scroll_y : F
  pub text_zoom : F
  pub menu_open : Bool
  pub view_pending : Bool
  pub settled : View F
  pub adopted : View F
  pub own_scroll : Bool

-- The top frame and those below it, bottom first.
pub record Stack {ℓ} (F : Type ℓ) : Type ℓ where
  pub top : Frame F
  pub below : List (Frame F)

-- The last of a list and those before it.
abbrev pub split_last {ℓ} : {A : Type ℓ} → A → List A → List A × A
split_last x [] = ([], x)
split_last x (y ∷ ys) = let (init, last) = split_last y ys in (x ∷ init, last)

module _ {ℓ} {F : Type ℓ} where
  abbrev steered : Frame F → View F → Frame F × Bool
  steered f none = (f, false)
  steered f (some v) = (record f { view = some v }, true)

  abbrev pub settle_view : Frame F → Frame F
  settle_view f = record f { settled = f.view }

  -- Live: the view itself, none for false.
  abbrev has_view : Frame F → Bool
  has_view f = is_some f.view && not f.view_pending

  adopt : Stack F → Frame F → Stack F × Bool
  adopt s v = if not s.top.view_pending || not (is_some v.view) then (s, false) else (
    record s {
      top = record s.top {
        view = v.view;
        adopted = v.view;
        settled = v.view;
        text_mode = v.text_mode;
        scroll_x = if s.top.own_scroll then s.top.scroll_x else v.scroll_x;
        scroll_y = if s.top.own_scroll then s.top.scroll_y else v.scroll_y;
        view_pending = false;
      };
    },
    true,
  )

  abbrev pub push : Stack F → Frame F → Stack F
  push s f = record { top = f; below = s.below ++ s.top ∷ [] }

  abbrev pub pop_from : Stack F → List (Frame F) → Stack F × Bool
  pop_from s [] = (s, false)
  pop_from s (f ∷ fs) =
      let (below, top) = split_last f fs in (record { top = top; below = below }, true)

  pub pop : Stack F → Stack F × Bool
  pop s = pop_from s s.below

  -- The loop of Popped, on a copy.
  pub popped : Stack F → ℕ → Stack F
  popped s zero = s
  popped s (suc n) = let (s', more) = pop s in let rest = popped s' n in if more then rest else s'

  abbrev reset_stack : Stack F → Frame F → Stack F
  reset_stack s f = record { top = f; below = [] }

  abbrev pub push_frames : Stack F → List (Frame F) → Stack F
  push_frames s [] = s
  push_frames s (f ∷ fs) = push_frames (push s f) fs

  abbrev pub frames : Stack F → List (Frame F)
  frames s = s.below ++ s.top ∷ []

  abbrev pub depth : Stack F → ℕ
  depth s = length s.below + 1

module _ {ℓ} {F : Type ℓ} ⦃fl : Float64 F⦄ where
  -- A Frame literal that gives the grid, the door and whether it is a content frame.
  abbrev pub bare_frame : Bytes → Bytes → Bool → Frame F
  bare_frame grid_id door content = record {
    grid_id = grid_id;
    door = door;
    content = content;
    view = none;
    text_mode = [];
    scroll_x = fl.zero;
    scroll_y = fl.zero;
    text_zoom = fl.zero;
    menu_open = false;
    view_pending = false;
    settled = none;
    adopted = none;
    own_scroll = false;
  }

  scroll_text : Frame F → F → F → Frame F × Bool
  scroll_text f x y =
      if fl.same (fl.max0 x) f.scroll_x && fl.same (fl.max0 y) f.scroll_y
      then (f, false)
      else (record f { scroll_x = fl.max0 x; scroll_y = fl.max0 y; own_scroll = true }, true)

  unfoldable steer : Frame F → F → F → F → Frame F × Bool
  steer f cx cy zoom = steered f (new_framing cx cy zoom)

  unfoldable set_view : Frame F → F → F → F → Frame F × Bool
  set_view f cx cy zoom =
      let (f', ok) = steer f cx cy zoom in if ok then (settle_view f', true) else (f, false)

  pub new_stack : Framing F → Bytes → Stack F
  new_stack origin grid_id = record {
    top = record (bare_frame grid_id [] false) { view = some origin; settled = some origin };
    below = [];
  }

  abbrev pub push_doors : Stack F → List Bytes → Stack F
  push_doors s [] = s
  push_doors s (id ∷ path) = push_doors (push s (bare_frame [] id false)) path

  unfoldable pub stack_at : Bytes → List Bytes → Bytes → Stack F
  stack_at grid_id path content_id =
      let s = push_doors (record { top = bare_frame grid_id [] false; below = [] }) path in
      if is_empty content_id then s else push s (bare_frame [] content_id true)

  unfoldable stack_of : List (Frame F) → Stack F
  stack_of [] = record { top = bare_frame [] [] false; below = [] }
  stack_of (f ∷ fs) = push_frames (record { top = f; below = [] }) fs
