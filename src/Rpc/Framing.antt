-- ===== src/Rpc/Framing.antt =====
-- api/rpc/framing.go: a view of a grid, and the doors that a new framing is written to.
pub mod Doors
use gridwell.Base.{
  ◌≡◌, Bool, true, false, not, ◌&&◌, ◌||◌, List, [], ◌∷◌, Option, none, some, if◌then◌else◌, Bytes,
  bytes_eq, is_empty,
}

-- What the code uses of a float64. A finite number less itself is zero, so it is near itself.
pub record Float64 {ℓ} (F : Type ℓ) : Type ℓ where
  pub zero : F
  pub is_finite : F → Bool
  pub above_zero : F → Bool
  pub near : F → F → Bool
  pub same : F → F → Bool
  pub max0 : F → F
  pub near_refl : (x : F) → is_finite x ≡ true → near x x ≡ true

pub record Framing {ℓ} (F : Type ℓ) : Type ℓ where
  pub cx : F
  pub cy : F
  pub zoom : F

-- A View: Saved is some.
abbrev pub View {ℓ} : Type ℓ → Type ℓ
View F = Option (Framing F)

-- A door's saved framing on a plugin's row or on an entry that the plugin declares.
pub record RootView {ℓ} (F : Type ℓ) : Type ℓ where
  pub grid : Bytes
  pub view_cx : F
  pub view_cy : F
  pub view_zoom : F

-- A plugin's row of a handshake: its own door and those of the grids it declares.
pub record PluginDoors {ℓ} (F : Type ℓ) : Type ℓ where
  pub root : RootView F
  pub entries : List (RootView F)

module _ {ℓ} {F : Type ℓ} ⦃fl : Float64 F⦄ where
  -- NewFraming, none for an error.
  unfoldable pub new_framing : F → F → F → Option (Framing F)
  new_framing cx cy zoom =
      if not (fl.is_finite cx) || not (fl.is_finite cy)
      then none
      else (if not (fl.is_finite zoom) || not (fl.above_zero zoom)
          then none
          else some (record { cx = cx; cy = cy; zoom = zoom }))

  unfoldable pub framing_same : Framing F → Framing F → Bool
  framing_same f g = fl.near f.cx g.cx && fl.near f.cy g.cy && fl.near f.zoom g.zoom

  abbrev pub view_of : F → F → F → View F
  view_of cx cy zoom = new_framing cx cy zoom

  -- View.Wire
  unfoldable wire : View F → F × F × F
  wire none = (fl.zero, fl.zero, fl.zero)
  wire (some f) = (f.cx, f.cy, f.zoom)

  -- View.SameAs
  abbrev pub view_same : View F → View F → Bool
  view_same none none = true
  view_same (some f) (some g) = framing_same f g
  view_same none (some g) = false
  view_same (some f) none = false

  -- The body of Reframe's loops for one door.
  unfoldable pub reframe_door : Bytes → Framing F → RootView F → RootView F × Bool
  reframe_door grid_id f r =
      if bytes_eq r.grid grid_id
        && not (view_same (some f) (view_of r.view_cx r.view_cy r.view_zoom))
      then (record r { view_cx = f.cx; view_cy = f.cy; view_zoom = f.zoom }, true)
      else (r, false)

  abbrev pub reframe_entries : Bytes → Framing F → List (RootView F) → List (RootView F) × Bool
  reframe_entries grid_id f [] = ([], false)
  reframe_entries grid_id f (e ∷ es) =
      let (e', moved) = reframe_door grid_id f e in
      let (es', more) = reframe_entries grid_id f es in (e' ∷ es', moved || more)

  abbrev pub reframe_plugins :
      Bytes → Framing F → List (PluginDoors F) → List (PluginDoors F) × Bool
  reframe_plugins grid_id f [] = ([], false)
  reframe_plugins grid_id f (pl ∷ pls) =
      let (root, moved) = reframe_door grid_id f pl.root in
      let (entries, more) = reframe_entries grid_id f pl.entries in
      let (pls', rest) = reframe_plugins grid_id f pls in
      (record { root = root; entries = entries } ∷ pls', moved || (more || rest))

  unfoldable pub reframe : Bytes → Framing F → List (PluginDoors F) → List (PluginDoors F) × Bool
  reframe grid_id f plugins =
      if is_empty grid_id then (plugins, false) else reframe_plugins grid_id f plugins
