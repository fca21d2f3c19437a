-- ===== src/Client/Place/Stacks.antt =====
-- client/pane/place.go and chain.go: the stack as the list of its frames, and where a crumb's ascent lands.
use gridwell.Base.{
  ℕ, zero, suc, ◌+◌, ◌-◌, ◌≤◌, ◌<◌, ◌≡◌, refl, ap, sym, ◌∙◌, Bool, true, false, ◌&&◌, List, [], ◌∷◌,
  ◌++◌, Option, none, some, if◌then◌else◌, is_empty, ◌==◌, length, length-append, take, get_elem?,
  arith, append_assoc, append-nil, Bool-cases, inl, inr,
}
use gridwell.Client.Place.{
  Frame, Stack, split_last, push, pop_from, pop, popped, push_frames, frames, depth,
}
use gridwell.Client.Place.Crumbs.{Crumb, crumb_of, crumbs_from, crumbs, ascents_to}

split_last-append {ℓ} :
    {A : Type ℓ} (x : A) (xs : List A) → (split_last x xs).0 ++ (split_last x xs).1 ∷ [] ≡ x ∷ xs
split_last-append x [] = refl
split_last-append x (y ∷ ys) = ap (λ l. x ∷ l) (split_last-append y ys)

split_last-snoc {ℓ} :
    {A : Type ℓ} (x y : A) (xs : List A) → split_last x (xs ++ y ∷ []) ≡ (x ∷ xs, y)
split_last-snoc x y [] = refl
split_last-snoc x y (z ∷ zs) = ap (λ p. (x ∷ p.0, p.1)) (split_last-snoc z y zs)

length-split_last {ℓ} : {A : Type ℓ} (x : A) (xs : List A) → length (split_last x xs).0 ≡ length xs
length-split_last x [] = refl
length-split_last x (y ∷ ys) = ap suc (length-split_last y ys)

take-append {ℓ} :
    {A : Type ℓ} (n : ℕ) (xs ys : List A) → n ≤ length xs → take n (xs ++ ys) ≡ take n xs
take-append zero xs ys h = refl
take-append (suc n) [] ys h = absurd (omega arith)
take-append (suc n) (x ∷ xs) ys h = ap (λ l. x ∷ l) (take-append n xs ys (omega arith))

pub take-all {ℓ} : {A : Type ℓ} (n : ℕ) (xs : List A) → length xs ≤ n → take n xs ≡ xs
take-all zero [] h = refl
take-all zero (x ∷ xs) h = absurd (omega arith)
take-all (suc n) [] h = refl
take-all (suc n) (x ∷ xs) h = ap (λ l. x ∷ l) (take-all n xs (omega arith))

abbrev level_or : Option Crumb → ℕ
level_or none = 0
level_or (some c) = c.level

module _ {ℓ} {F : Type ℓ} where
  frames-push_frames :
      (s : Stack F) (fs : List (Frame F)) → frames (push_frames s fs) ≡ frames s ++ fs
  frames-push_frames s [] = sym (append-nil (frames s))
  frames-push_frames s (f ∷ fs) =
      frames-push_frames (push s f) fs ∙ append_assoc (s.below ++ s.top ∷ []) (f ∷ []) fs

  -- The frames below a top are the ones that a pop looks at.
  frames-pop_from :
      (s : Stack F) (bs : List (Frame F))
      → s.below ≡ bs
      → (frames (pop_from s bs).0 ≡ (if (pop_from s bs).1 then bs else frames s))
        × ((pop_from s bs).1 ≡ false → bs ≡ [])
  frames-pop_from s [] e = (refl, λ h. refl)
  frames-pop_from s (f ∷ fs) e = (split_last-append f fs, λ h. cc)

  popped-take_below :
      (s : Stack F) (bs : List (Frame F)) (n : ℕ)
      → s.below ≡ bs
      → n ≤ length bs
      → frames (popped s n) ≡ take (length bs + 1 - n) (bs ++ s.top ∷ [])
  unfolding popped pop
  popped-take_below s bs zero e h =
      ap (λ (b : List (Frame F)). b ++ s.top ∷ []) e
      ∙ sym (
          take-all (length bs + 1 - 0) (bs ++ s.top ∷ [])
            (omega (arith, length-append bs (s.top ∷ []))))
  popped-take_below s [] (suc n) e h = absurd (omega arith)
  popped-take_below s (f ∷ fs) (suc n) e h =
      let s' = (pop_from s (f ∷ fs)).0 in
      ap
        (λ (b : List (Frame F)).
          frames (if (pop_from s b).1 then popped (pop_from s b).0 n else (pop_from s b).0))
        e
      ∙ popped-take_below s' s'.below n refl (omega (arith, length-split_last f fs, h))
      ∙ ap (take (length s'.below + 1 - n)) (split_last-append f fs)
      ∙ ap (λ k. take k (f ∷ fs)) (omega (arith, length-split_last f fs))
      ∙ sym (take-append (length (f ∷ fs) + 1 - suc n) (f ∷ fs) (s.top ∷ []) (omega arith))

  -- n ascents leave the frames below the n outermost of them.
  popped-take :
      (s : Stack F) (n : ℕ)
      → n ≤ length s.below
      → frames (popped s n) ≡ take (depth s - n) (frames s)
  popped-take s n h = popped-take_below s s.below n refl h

  crumb_of-level : (s : Stack F) (i : ℕ) (f : Frame F) → (crumb_of s i f).level ≡ i
  crumb_of-level s i f = elim (Bool-cases (is_empty f.grid_id)) [
    | inl e ↦ rw e refl
    | inr e ↦ rw e refl
  ]

  crumbs_from-level :
      (s : Stack F) (i : ℕ) (fs : List (Frame F)) (k : ℕ) (c : Crumb)
      → get_elem? (crumbs_from s i fs) k ≡ some c
      → (c.level ≡ i + k) × (k < length fs)
  crumbs_from-level s i [] k c e = cc
  crumbs_from-level s i (f ∷ fs) zero c e =
      (omega (arith, ap level_or e, crumb_of-level s i f), omega arith)
  crumbs_from-level s i (f ∷ fs) (suc k) c e =
      let (l, b) = crumbs_from-level s (i + 1) fs k c e in (omega (arith, l), omega (arith, b))

  -- A place shows one crumb for each of its frames, or none; the ascent to the k-th lands in the stack of
  -- the frames up to the k-th.
  pub crumb-ascent :
      (s : Stack F) (k : ℕ) (c : Crumb)
      → get_elem? (crumbs s) k ≡ some c
      → (c.level ≡ k) × (frames (popped s (ascents_to s c)) ≡ take (k + 1) (frames s))
  unfolding crumbs ascents_to
  crumb-ascent s k c e =
      let (l, b) = one (depth s == 1 && is_empty s.top.grid_id && is_empty s.top.door) e in
      let n = length-append s.below (s.top ∷ []) in
      (
        l,
        popped-take s (depth s - 1 - c.level) (omega arith)
            ∙ ap (λ j. take j (frames s)) (omega (arith, l, b, n)),
      )
    where
      one :
          (blank : Bool)
          → get_elem? (if blank then [] else crumbs_from s 0 (frames s)) k ≡ some c
          → (c.level ≡ k) × (k < length (frames s))
      one true h = cc
      one false h = let (l, b) = crumbs_from-level s 0 (frames s) k c h in (omega (arith, l), b)
