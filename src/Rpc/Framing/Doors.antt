-- ===== src/Rpc/Framing/Doors.antt =====
-- api/rpc/framing.go: the doors of a grid, before and after Reframe.
use gridwell.Base.{
  ◌≡◌, refl, sym, ◌∙◌, Bool, true, false, not, ◌&&◌, List, [], ◌∷◌, ◌++◌, some, if◌then◌else◌,
  Bytes, bytes_eq, is_empty, Bool-cases, inl, inr, arith, All, All-append, All-split,
}
use mathlib.Core.Bool.{false≢true}
use gridwell.Rpc.Framing.{
  Float64, Framing, RootView, PluginDoors, new_framing, framing_same, view_of, view_same,
  reframe_door, reframe_entries, reframe_plugins, reframe,
}

module _ {ℓ} {F : Type ℓ} ⦃fl : Float64 F⦄ where
  -- What NewFraming gives.
  IsFraming : Framing F → Type 0
  IsFraming f =
      (fl.is_finite f.cx ≡ true)
      × (fl.is_finite f.cy ≡ true)
      × (fl.is_finite f.zoom ≡ true)
      × (fl.above_zero f.zoom ≡ true)

  abbrev pub Shows : Bytes → Framing F → RootView F → Type 0
  Shows grid_id f r =
      bytes_eq r.grid grid_id ≡ true
      → view_same (some f) (view_of r.view_cx r.view_cy r.view_zoom) ≡ true

  abbrev pub all_doors : List (PluginDoors F) → List (RootView F)
  all_doors [] = []
  all_doors (pl ∷ pls) = pl.root ∷ (pl.entries ++ all_doors pls)

  new_framing-IsFraming :
      (cx cy zoom : F) (f : Framing F) → new_framing cx cy zoom ≡ some f → IsFraming f
  unfolding new_framing IsFraming
  new_framing-IsFraming cx cy zoom f e = ground arith

  shown : (f : Framing F) → IsFraming f → view_same (some f) (view_of f.cx f.cy f.zoom) ≡ true
  unfolding new_framing framing_same IsFraming
  shown f (x, y, z, p) =
      rw (x, y, z, p, fl.near_refl f.cx x, fl.near_refl f.cy y, fl.near_refl f.zoom z) refl

  door-Shows :
      (g : Bytes) (f : Framing F) (r : RootView F) → IsFraming f → Shows g f (reframe_door g f r).0
  unfolding reframe_door
  door-Shows g f r h =
      one (bytes_eq r.grid g) refl (view_same (some f) (view_of r.view_cx r.view_cy r.view_zoom))
        refl
    where
      one :
          (here : Bool)
          → bytes_eq r.grid g ≡ here
          → (same : Bool) → view_same (some f) (view_of r.view_cx r.view_cy r.view_zoom) ≡ same
          → Shows g f
              (if◌then◌else◌ {A = RootView F × Bool}
                (here && not same)
                (record r { view_cx = f.cx; view_cy = f.cy; view_zoom = f.zoom }, true)
                (r, false)).0
      one true e true s = λ k. s
      one true e false s = λ k. shown f h
      one false e b s = λ k. absurd (false≢true (sym e ∙ k))

  shown-door :
      (g : Bytes) (f : Framing F) (r : RootView F) → Shows g f r → reframe_door g f r ≡ (r, false)
  unfolding reframe_door
  shown-door g f r h = elim (Bool-cases (bytes_eq r.grid g)) [
    | inl e ↦ rw (e, h e) refl
    | inr e ↦ rw e refl
  ]

  entries-Shows :
      (g : Bytes) (f : Framing F) (es : List (RootView F))
      → IsFraming f
      → All (Shows g f) (reframe_entries g f es).0
  entries-Shows g f [] h = tt
  entries-Shows g f (e ∷ es) h = (door-Shows g f e h, entries-Shows g f es h)

  plugins-Shows :
      (g : Bytes) (f : Framing F) (pls : List (PluginDoors F))
      → IsFraming f
      → All (Shows g f) (all_doors (reframe_plugins g f pls).0)
  plugins-Shows g f [] h = tt
  plugins-Shows g f (pl ∷ pls) h = (
    door-Shows g f pl.root h,
    All-append (Shows g f) (reframe_entries g f pl.entries).0 _ (entries-Shows g f pl.entries h)
        (plugins-Shows g f pls h),
  )

  entries_again :
      (g : Bytes) (f : Framing F) (es : List (RootView F))
      → All (Shows g f) es
      → reframe_entries g f es ≡ (es, false)
  entries_again g f [] h = refl
  entries_again g f (e ∷ es) h = rw (shown-door g f e h.0, entries_again g f es h.1) refl

  plugins_again :
      (g : Bytes) (f : Framing F) (pls : List (PluginDoors F))
      → All (Shows g f) (all_doors pls)
      → reframe_plugins g f pls ≡ (pls, false)
  plugins_again g f [] h = refl
  plugins_again g f (pl ∷ pls) h =
      let (es, rest) = All-split (Shows g f) pl.entries (all_doors pls) h.1 in
      rw (shown-door g f pl.root h.0, entries_again g f pl.entries es, plugins_again g f pls rest)
        refl

  -- A framing that NewFraming gave, written to a grid with an id: every door rooted at the grid then shows
  -- it, so that the same write again moves nothing and says so.
  pub reframe-settles :
      (g : Bytes) (cx cy zoom : F) (f : Framing F) (pls : List (PluginDoors F))
      → is_empty g ≡ false
      → new_framing cx cy zoom ≡ some f
      → All (Shows g f) (all_doors (reframe g f pls).0)
        × (reframe g f (reframe g f pls).0 ≡ ((reframe g f pls).0, false))
  unfolding reframe
  reframe-settles g cx cy zoom f pls n e =
      let h = new_framing-IsFraming cx cy zoom f e in
      let all = plugins-Shows g f pls h in
      rw n (all, plugins_again g f (reframe_plugins g f pls).0 all)
