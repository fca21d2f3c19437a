-- ===== src/Client/Place/Projection.antt =====
-- client/pane/place.go: which places an anchor, a path and a content tile name whole.
use gridwell.Base.{
  ℕ, zero, suc, ◌+◌, ◌-◌, ◌≡◌, refl, ap, sym, ◌∙◌, ◌↔◌, Bool, true, false, not, ◌&&◌, List, [], ◌∷◌,
  ◌++◌, map, if◌then◌else◌, Bytes, bytes_eq, bytes_eq_iff, &&_left, &&_right, is_empty, pos, length,
  length-append, length-map, arith, append-nil, append_assoc, Bool-cases, inl, inr,
}
use gridwell.Rpc.Framing.{Float64}
use gridwell.Client.Place.{Frame, Stack, bare_frame, push, push_doors, stack_at}
use gridwell.Client.Place.Stacks.{take-all}
use gridwell.Client.Place.Crumbs.{
  Spot, anchors_at, anchor_level, doors, anchor_path, at_most_last, same_spot, same_spots, spot,
  spots, anchor_path_at, content_id, projection_holds,
}

abbrev same_bool : Bool → Bool → Bool
same_bool a b = if a then b else not b

same_bool_iff : (a b : Bool) → (same_bool a b ≡ true) ↔ (a ≡ b)
same_bool_iff true b = (λ h. sym h, λ e. sym e)
same_bool_iff false true = (λ h. h, λ e. e)
same_bool_iff false false = (λ h. refl, λ e. refl)

same_spot_iff : (a b : Spot) → (same_spot a b ≡ true) ↔ (a ≡ b)
same_spot_iff a b =
    let g = bytes_eq a.grid_id b.grid_id in
    let d = bytes_eq a.door b.door in
    let c = same_bool a.content b.content in
    (
      λ h.
          let p = (bytes_eq_iff a.grid_id b.grid_id).0 (&&_left g d (&&_left (g && d) c h)) in
          let q = (bytes_eq_iff a.door b.door).0 (&&_right g d (&&_left (g && d) c h)) in
          let r = (same_bool_iff a.content b.content).0 (&&_right (g && d) c h) in
          λ i. record { grid_id = p i; door = q i; content = r i },
      λ e.
          let p = (bytes_eq_iff a.grid_id b.grid_id).1 (ap Spot.grid_id e) in
          let q = (bytes_eq_iff a.door b.door).1 (ap Spot.door e) in
          let r = (same_bool_iff a.content b.content).1 (ap Spot.content e) in rw (p, q, r) refl,
    )

same_spots_sound : (fs gs : List Spot) → same_spots fs gs ≡ true → fs ≡ gs
same_spots_sound [] [] h = refl
same_spots_sound [] (b ∷ gs) h = cc
same_spots_sound (a ∷ fs) [] h = cc
same_spots_sound (a ∷ fs) (b ∷ gs) h =
    let p = (same_spot_iff a b).0 (&&_left (same_spot a b) (same_spots fs gs) h) in
    let q = same_spots_sound fs gs (&&_right (same_spot a b) (same_spots fs gs) h) in λ i. p i ∷ q i

same_spots_refl : (fs : List Spot) → same_spots fs fs ≡ true
same_spots_refl [] = refl
same_spots_refl (a ∷ fs) = rw ((same_spot_iff a a).1 refl) (same_spots_refl fs)

abbrev door_spots : List Bytes → List Spot
door_spots [] = []
door_spots (id ∷ path) = record { grid_id = []; door = id; content = false } ∷ door_spots path

abbrev content_spots : Bytes → List Spot
content_spots c = if is_empty c then [] else record { grid_id = []; door = c; content = true } ∷ []

abbrev root_spot : Bytes → Spot
root_spot g = record { grid_id = g; door = []; content = false }

-- The levels that an anchor, a path and a content tile name.
abbrev named_spots : Bytes → List Bytes → Bytes → List Spot
named_spots g path c = root_spot g ∷ (door_spots path ++ content_spots c)

module _ {ℓ} {F : Type ℓ} where
  map-snoc :
      (fs : List (Frame F)) (f : Frame F) → map spot (fs ++ f ∷ []) ≡ map spot fs ++ spot f ∷ []
  map-snoc [] f = refl
  map-snoc (g ∷ fs) f = ap (λ (l : List Spot). spot g ∷ l) (map-snoc fs f)

  spots-push : (s : Stack F) (f : Frame F) → spots (push s f) ≡ spots s ++ spot f ∷ []
  spots-push s f = map-snoc (s.below ++ s.top ∷ []) f

module _ {ℓ} {F : Type ℓ} ⦃fl : Float64 F⦄ where
  spots-push_doors :
      (s : Stack F) (path : List Bytes) → spots (push_doors s path) ≡ spots s ++ door_spots path
  spots-push_doors s [] = sym (append-nil (spots s))
  spots-push_doors s (id ∷ path) =
      spots-push_doors (push s (bare_frame [] id false)) path
      ∙ ap (λ (l : List Spot). l ++ door_spots path) (spots-push s (bare_frame [] id false))
      ∙ append_assoc (spots s) (spot (bare_frame {F = F} [] id false) ∷ []) (door_spots path)

spots-stack_at {ℓ} :
    (F : Type ℓ) ⦃fl : Float64 F⦄ (g : Bytes) (path : List Bytes) (c : Bytes)
    → spots (stack_at {F = F} g path c) ≡ named_spots g path c
unfolding stack_at
spots-stack_at F g path c =
    let s : Stack F = record { top = bare_frame g [] false; below = [] } in
    elim (Bool-cases (is_empty c)) [
      | inl e ↦ rw e (
          spots-push_doors s path
          ∙ ap (λ (l : List Spot). root_spot g ∷ l) (sym (append-nil (door_spots path))))
      | inr e ↦ rw e (
          spots-push (push_doors s path) (bare_frame [] c true)
          ∙ ap (λ (l : List Spot). l ++ record { grid_id = []; door = c; content = true } ∷ [])
              (spots-push_doors s path))
    ]

no_anchor :
    (path : List Bytes) (c : Bytes) (k : ℕ)
    → anchors_at (door_spots path ++ content_spots c) k ≡ false
no_anchor [] c k = elim (Bool-cases (is_empty c)) [ inl e ↦ rw e refl | inr e ↦ rw e (here k) ]
  where
    here : (k : ℕ) → anchors_at (record { grid_id = []; door = c; content = true } ∷ []) k ≡ false
    here zero = refl
    here (suc k) = refl
no_anchor (id ∷ path) c zero = refl
no_anchor (id ∷ path) c (suc k) = no_anchor path c k

anchor_level-named :
    (g : Bytes) (path : List Bytes) (c : Bytes) (k : ℕ) → anchor_level (named_spots g path c) k ≡ 0
anchor_level-named g path c zero = refl
anchor_level-named g path c (suc k) = rw (no_anchor path c k) (anchor_level-named g path c k)

doors-named : (path : List Bytes) (c : Bytes) → doors (door_spots path ++ content_spots c) ≡ path
doors-named [] c = elim (Bool-cases (is_empty c)) [ inl e ↦ rw e refl | inr e ↦ rw e refl ]
doors-named (id ∷ path) c = ap (λ (l : List Bytes). id ∷ l) (doors-named path c)

anchor_path-named :
    (g : Bytes) (path : List Bytes) (c : Bytes) (i : ℕ)
    → i + 1 ≡ length (named_spots g path c)
    → anchor_path (named_spots g path c) i ≡ (g, path)
anchor_path-named g path c i e = rw (anchor_level-named g path c i) (
    ap (λ (l : List Bytes). (g, l))
      (ap doors (take-all (i - 0) (door_spots path ++ content_spots c) (omega arith))
        ∙ doors-named path c))

-- The content tile of the last level.
abbrev last_content : Spot → List Spot → Bytes
last_content f [] = if f.content then f.door else []
last_content f (g ∷ gs) = last_content g gs

last_content-named :
    (f : Spot) (path : List Bytes) (c : Bytes)
    → f.content ≡ false
    → last_content f (door_spots path ++ content_spots c) ≡ c
last_content-named f [] [] n = rw n refl
last_content-named f [] (b ∷ bs) n = refl
last_content-named f (id ∷ path) c n =
    last_content-named (record { grid_id = []; door = id; content = false }) path c refl

last_content-snoc :
    (f : Spot) (fs : List Spot) (g : Spot)
    → last_content f (fs ++ g ∷ []) ≡ (if g.content then g.door else [])
last_content-snoc f [] g = refl
last_content-snoc f (h ∷ fs) g = last_content-snoc h fs g

abbrev content_of_all : List Spot → Bytes
content_of_all [] = []
content_of_all (f ∷ fs) = last_content f fs

module _ {ℓ} {F : Type ℓ} where
  content_of_all-spots :
      (s : Stack F) (bs : List (Frame F))
      → content_of_all (map spot (bs ++ s.top ∷ [])) ≡ content_id s
  content_of_all-spots s [] = refl
  content_of_all-spots s (b ∷ bs) =
      ap (last_content (spot b)) (map-snoc bs s.top)
      ∙ last_content-snoc (spot b) (map spot bs) (spot s.top)

  length-spots : (s : Stack F) → length (spots s) ≡ length s.below + 1
  length-spots s =
      omega (
        arith,
        length-map (spot {F = F}) (s.below ++ s.top ∷ []),
        length-append s.below (s.top ∷ []),
      )

  anchor_path_at-named :
      (s : Stack F) (g : Bytes) (path : List Bytes) (c : Bytes)
      → spots s ≡ named_spots g path c
      → anchor_path_at s (pos (length s.below)) ≡ (g, path)
  unfolding anchor_path_at
  anchor_path_at-named s g path c named =
      let n = length s.below in
      let last : at_most_last n (length (spots s)) ≡ n = ground (arith, length-spots s) in
      ap (anchor_path (spots s)) last
      ∙ ap (λ (l : List Spot). anchor_path l n) named
      ∙ anchor_path-named g path c n (omega (arith, length-spots s, ap (length {A = Spot}) named))

-- ProjectionHolds answers true exactly for a stack whose frames have the grids, doors and content marks of
-- the stack that some anchor, some path and some content tile give.
pub projection_holds_iff {ℓ} :
    (F : Type ℓ) ⦃fl : Float64 F⦄ (s : Stack F)
    → (projection_holds s ≡ true) ↔ (
        (g : Bytes) × (path : List Bytes) × (c : Bytes) × (spots s
          ≡ spots {F = F} (stack_at g path c)))
unfolding projection_holds anchor_path_at
projection_holds_iff F s = (
  λ h.
      let (g, path) = anchor_path_at s (pos (length s.below)) in
      (g, path, content_id s, same_spots_sound (spots s) _ h),
  λ (g, path, c, e).
      let named = e ∙ spots-stack_at F g path c in
      let at = anchor_path_at-named s g path c named in
      let content : content_id s ≡ c =
        sym (content_of_all-spots s s.below)
        ∙ ap content_of_all named
        ∙ last_content-named (root_spot g) path c refl in
      let whole = λ (x : Bytes × List Bytes) (k : Bytes).
        same_spots (spots {F = F} s) (spots {F = F} (stack_at x.0 x.1 k)) in
      ap (λ (x : Bytes × List Bytes). whole x (content_id s)) at
      ∙ ap (whole (g, path)) content
      ∙ ap (same_spots (spots s)) (sym e)
      ∙ same_spots_refl (spots s),
)
