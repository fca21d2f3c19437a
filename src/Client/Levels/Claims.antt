-- ===== src/Client/Levels/Claims.antt =====
-- client/pane/levels.go: the version that a layout write claims, after a write that landed.
use gridwell.Base.{
  ◌≡◌, refl, ap, ◌∙◌, ◌↔◌, Bool, true, false, not, ◌&&◌, List, [], ◌∷◌, Option, none, some, is_some,
  if◌then◌else◌, Bytes, bytes_eq, bytes_eq_iff, is_empty, ℤ, pos, negsuc, arith,
}
use gridwell.Client.Levels.{
  Level, int_eq, innermost_basis, basis_or, claim_of, landed, should_persist, mark_saved,
  forget_saved,
}

int_eq_iff : (a b : ℤ) → (int_eq a b ≡ true) ↔ (a ≡ b)
int_eq_iff (pos m) (pos n) = (λ h. ap pos (ground arith), λ e. ground arith)
int_eq_iff (negsuc m) (negsuc n) = (λ h. ap negsuc (ground arith), λ e. ground arith)
int_eq_iff (pos m) (negsuc n) = (λ h. cc, λ e. cc)
int_eq_iff (negsuc m) (pos n) = (λ h. cc, λ e. cc)

-- What becomes of the version under a tile.
abbrev moved : Bool → Option ℤ → ℤ → ℤ → Option ℤ
moved same none claimed now = none
moved same (some b) claimed now = if same && int_eq b claimed then some now else some b

empty_ne : (h : Bytes) → is_empty h ≡ false → bytes_eq h [] ≡ false
unfolding bytes_eq
empty_ne [] e = cc
empty_ne (b ∷ bs) e = refl

module _ {ℓ} {F : Type ℓ} where
  innermost_basis-landed :
      (levels : List (Level F)) (t u : Bytes) (claimed now : ℤ)
      → innermost_basis (landed levels t claimed now) u
        ≡ moved (bytes_eq t u) (innermost_basis levels u) claimed now
  unfolding landed
  innermost_basis-landed [] t u claimed now = refl
  innermost_basis-landed (f ∷ fs) t u claimed now = ground (
    arith,
    innermost_basis-landed fs t u claimed now,
    bytes_eq_iff t u,
    bytes_eq_iff f.tile_id t,
    bytes_eq_iff f.tile_id u,
  )

  -- After a write to a tile that claimed a version and landed at a later one, the next claim for a tile is
  -- the later one exactly if it is that tile, a level is open on it, and its claim was the one written;
  -- every other claim is what it was.
  pub claim_of-landed :
      (levels : List (Level F)) (t u : Bytes) (claimed now fallback : ℤ)
      → claim_of (landed levels t claimed now) u fallback ≡ (
          if bytes_eq t u
            && is_some (innermost_basis levels u)
            && int_eq (claim_of levels u fallback) claimed
          then now
          else claim_of levels u fallback)
  unfolding claim_of
  claim_of-landed levels t u claimed now fallback =
      ap (λ (b : Option ℤ). basis_or b fallback) (innermost_basis-landed levels t u claimed now)
      ∙ of_basis (bytes_eq t u) (innermost_basis levels u)
    where
      of_basis :
          (same : Bool) (b : Option ℤ)
          → basis_or (moved same b claimed now) fallback ≡ (
              if same && is_some b && int_eq (basis_or b fallback) claimed
              then now
              else basis_or b fallback)
      of_basis true none = refl
      of_basis false none = refl
      of_basis false (some b) = refl
      of_basis true (some b) = one (int_eq b claimed)
        where
          one :
              (t : Bool)
              → basis_or (if t then some now else some b) fallback ≡ (if t then now else b)
          one true = refl
          one false = refl

  -- A layout that was marked as sent is not sent again; once its write is forgotten it is, at a level that
  -- may write, when it is not empty and its hash is not; and a forgotten write of another hash changes nothing.
  mark-forget :
      (hash : Bytes → Bytes) (top : Level F) (encoded older : Bytes)
      → top.read_only ≡ false
      → is_empty encoded ≡ false
      → is_empty (hash encoded) ≡ false
      → bytes_eq (hash encoded) (hash older) ≡ false
      → let marked = mark_saved hash top encoded in
        (should_persist hash (some marked) encoded ≡ false)
        × (should_persist hash (some (forget_saved hash marked encoded)) encoded ≡ true)
        × (forget_saved hash marked older ≡ marked)
  unfolding should_persist forget_saved
  mark-forget hash top encoded older r n m o =
      let same = (bytes_eq_iff (hash encoded) (hash encoded)).1 refl in
      (rw (r, n, same) refl, rw (r, n, same) (ap not (empty_ne (hash encoded) m)), rw o refl)
