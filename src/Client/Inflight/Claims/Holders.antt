-- ===== src/Client/Inflight/Claims/Holders.antt =====
-- client/inflight/inflight.go: who holds a key, and what a late release leaves alone.
use gridwell.Base.{
  ℕ, zero, suc, ◌<◌, ◌≡◌, refl, ap, sym, subst, ◌∙◌, ◌≢◌, inl, inr, Bool, true, false, ◌==◌, List,
  [], ◌∷◌, ◌++◌, Option, none, some, if◌then◌else◌, Bytes, bytes-Eq, bytes_eq_refl, ==_refl,
  bytes_eq_iff, lookup, delete, lookup-insert, lookup-delete, length, length-append, arith,
  Option-cases,
}
use mathlib.Core.Bool.{false≢true}
use gridwell.Client.Inflight.Claims.{
  Claim, ClaimSet, new_claim, claim_at, write_at, Joined, join, join_held, owe, owe_held, release,
  holds, cancel_all, cancel_claim, empty_claims,
}

-- Every claim held is in the heap, and no two keys hold one claim.
pub record IsSound (s : ClaimSet) : Type 0 where
  pub placed : (k : Bytes) (c : ℕ) → lookup k s.held ≡ some c → c < length s.heap
  pub apart : (j k : Bytes) (c : ℕ) → lookup j s.held ≡ some c → lookup k s.held ≡ some c → j ≡ k

pub length-write_at : (xs : List Claim) (c : ℕ) (x : Claim) → length (write_at xs c x) ≡ length xs
length-write_at [] c x = refl
length-write_at (y ∷ ys) zero x = refl
length-write_at (y ∷ ys) (suc c) x = ap suc (length-write_at ys c x)

pub claim_at-write_at_self :
    (xs : List Claim) (c : ℕ) (x : Claim) → c < length xs → claim_at (write_at xs c x) c ≡ x
claim_at-write_at_self [] c x h = absurd (omega arith)
claim_at-write_at_self (y ∷ ys) zero x h = refl
claim_at-write_at_self (y ∷ ys) (suc c) x h = claim_at-write_at_self ys c x (omega arith)

pub claim_at-write_at_ne :
    (xs : List Claim) (c d : ℕ) (x : Claim) → c ≢ d → claim_at (write_at xs c x) d ≡ claim_at xs d
claim_at-write_at_ne [] c d x h = refl
claim_at-write_at_ne (y ∷ ys) zero zero x h = absurd (h refl)
claim_at-write_at_ne (y ∷ ys) zero (suc d) x h = refl
claim_at-write_at_ne (y ∷ ys) (suc c) zero x h = refl
claim_at-write_at_ne (y ∷ ys) (suc c) (suc d) x h =
    claim_at-write_at_ne ys c d x (λ e. h (ap suc e))

pub join-IsSound : (s : ClaimSet) (key : Bytes) → IsSound s → IsSound (join s key).claims
unfolding join
join-IsSound s key v = elim (Option-cases (lookup key s.held)) [
  | inr (c, e) ↦ subst (λ (o : Option ℕ). IsSound (join_held s key o).claims) (sym e) v
  | inl e ↦
      subst (λ (o : Option ℕ). IsSound (join_held s key o).claims) (sym e)
        (record {
          placed = λ k c h. ground (
            arith,
            lookup-insert key k (length s.heap) s.held,
            length-append s.heap (new_claim ∷ []),
            v.placed k c,
          );
          apart = λ j k c h g. ground (
            arith,
            lookup-insert key j (length s.heap) s.held,
            lookup-insert key k (length s.heap) s.held,
            v.placed j c,
            v.placed k c,
            v.apart j k c,
            bytes_eq_iff key j,
            bytes_eq_iff key k,
          );
        })
]

owe_held-IsSound : (s : ClaimSet) (o : Option ℕ) → IsSound s → IsSound (owe_held s o)
owe_held-IsSound s none v = v
owe_held-IsSound s (some c) v = record {
  placed = λ k d h. omega (
    arith,
    v.placed k d h,
    length-write_at s.heap c (record (claim_at s.heap c) { owed = true }),
  );
  apart = v.apart;
}

pub owe-IsSound : (s : ClaimSet) (key : Bytes) → IsSound s → IsSound (owe s key)
unfolding owe
owe-IsSound s key v = owe_held-IsSound s (lookup key s.held) v

-- A set with fewer keys held and the heap written over.
IsSound-fewer :
    (s : ClaimSet) (held : List (Bytes × ℕ)) (c : ℕ) (x : Claim)
    → ((k : Bytes) (d : ℕ) → lookup k held ≡ some d → lookup k s.held ≡ some d)
    → IsSound s
    → IsSound (record { held = held; heap = write_at s.heap c x })
IsSound-fewer s held c x sub v = record {
  placed = λ k d h. omega (arith, v.placed k d (sub k d h), length-write_at s.heap c x);
  apart = λ j k d h g. v.apart j k d (sub j d h) (sub k d g);
}

lookup-delete_sub :
    (key k : Bytes) (d : ℕ) (m : List (Bytes × ℕ))
    → lookup k (delete key m) ≡ some d
    → lookup k m ≡ some d
lookup-delete_sub key k d m h = ground (arith, lookup-delete key k m)

pub release-IsSound : (s : ClaimSet) (key : Bytes) (c : ℕ) → IsSound s → IsSound (release s key c).0
unfolding release
release-IsSound s key c v =
    IsSound-fewer s _ c _ (λ k d h. sub (holds (lookup key s.held) c) k d h) v
  where
    sub :
        (b : Bool) (k : Bytes) (d : ℕ)
        → lookup k (if b then delete key s.held else s.held) ≡ some d
        → lookup k s.held ≡ some d
    sub true k d h = lookup-delete_sub key k d s.held h
    sub false k d h = h

pub cancel_all-IsSound :
    (match : Bytes → Bool) (ks : List (Bytes × ℕ)) (s : ClaimSet)
    → IsSound s
    → IsSound (cancel_all match ks s)
unfolding cancel_all
cancel_all-IsSound match [] s v = v
cancel_all-IsSound match ((k, c) ∷ ks) s v = cancel_all-IsSound match ks _ (one (match k))
  where
    one :
        (b : Bool)
        → IsSound (if b then record { held = delete k s.held; heap = cancel_claim s.heap c } else s)
    one true =
        IsSound-fewer s (delete k s.held) c (record (claim_at s.heap c) { cancelled = true })
          (λ j d h. lookup-delete_sub k j d s.held h) v
    one false = v

pub empty_claims-IsSound : IsSound empty_claims
unfolding lookup
empty_claims-IsSound = record { placed = λ k c h. cc; apart = λ j k c h g. cc }

-- A release by a claim that no longer holds its key leaves the key to the claim that does, with what
-- that claim is owed, and it is the late claim's own debt that it reports.
pub release_stale :
    (s : ClaimSet) (key : Bytes) (c d : ℕ)
    → lookup key s.held ≡ some d
    → d ≢ c
    → let s' = (release s key c).0 in
      (lookup key s'.held ≡ some d)
      × (claim_at s'.heap d ≡ claim_at s.heap d)
      × ((release s key c).1 ≡ (claim_at s.heap c).owed)
unfolding release
release_stale s key c d e ne = (
  rw (e, holds) (rw (ne_test d c ne) e),
  claim_at-write_at_ne s.heap c d _ (λ q. ne (sym q)),
  refl,
)
  where
    ne_test : (a b : ℕ) → a ≢ b → (a == b) ≡ false
    ne_test a b h = ground arith

pub claim_at-append : (xs : List Claim) (x : Claim) → claim_at (xs ++ x ∷ []) (length xs) ≡ x
claim_at-append [] x = refl
claim_at-append (y ∷ ys) x = claim_at-append ys x

join_of_held :
    (s : ClaimSet) (key : Bytes) {o : Option ℕ}
    → lookup key s.held ≡ o
    → join s key ≡ join_held s key o
unfolding join
join_of_held s key e = ap (join_held s key) e

owe_of_held :
    (s : ClaimSet) (key : Bytes) {o : Option ℕ} → lookup key s.held ≡ o → owe s key ≡ owe_held s o
unfolding owe
owe_of_held s key e = ap (owe_held s) e

-- The claim that holds a key frees it.
release_own :
    (s : ClaimSet) (key : Bytes) (c : ℕ)
    → lookup key s.held ≡ some c
    → lookup key (release s key c).0.held ≡ none
unfolding release
release_own s key c e =
    freed (holds (lookup key s.held) c) (ap (λ (o : Option ℕ). holds o c) e ∙ ==_refl c)
  where
    freed : (b : Bool) → b ≡ true → lookup key (if b then delete key s.held else s.held) ≡ none
    freed true q = lookup-delete key key s.held ∙ rw (bytes_eq_refl key)
    freed false q = absurd (false≢true q)

release_owed : (s : ClaimSet) (key : Bytes) (c : ℕ) → (release s key c).1 ≡ (claim_at s.heap c).owed
unfolding release
release_owed s key c = refl

-- The facts about a set in which the claim at c holds the key and is owed nothing.
held_life :
    (s : ClaimSet) (key : Bytes) (c : ℕ)
    → lookup key s.held ≡ some c
    → c < length s.heap
    → (join s key ≡ record { claims = s; claim = c; ok = false })
      × ((release s key c).1 ≡ (claim_at s.heap c).owed)
      × ((release (owe s key) key c).1 ≡ true)
      × (lookup key (release (owe s key) key c).0.held ≡ none)
held_life s key c e placed =
    let owed = owe_of_held s key {o = some c} e in
    (
      join_of_held s key {o = some c} e,
      release_owed s key c,
      release_owed (owe s key) key c
          ∙ ap (λ (t : ClaimSet). (claim_at t.heap c).owed) owed
          ∙ ap Claim.owed
              (claim_at-write_at_self s.heap c (record (claim_at s.heap c) { owed = true }) placed),
      release_own (owe s key) key c (ap (λ (t : ClaimSet). lookup key t.held) owed ∙ e),
    )

-- A free key is taken by the caller that joins it, under a fresh claim. Until that claim's release
-- every join is refused, told of it, and changes nothing. Its release reports a re-ask owed exactly
-- when the key changed meanwhile, and leaves the key free.
join-owe-release :
    (s : ClaimSet) (key : Bytes)
    → lookup key s.held ≡ none
    → let j = join s key in
      (j.ok ≡ true)
      × (join j.claims key ≡ record { claims = j.claims; claim = j.claim; ok = false })
      × ((release j.claims key j.claim).1 ≡ false)
      × ((release (owe j.claims key) key j.claim).1 ≡ true)
      × (lookup key (release (owe j.claims key) key j.claim).0.held ≡ none)
join-owe-release s key e =
    subst Life (sym (join_of_held s key {o = none} e))
      (refl, life.0, life.1 ∙ ap Claim.owed (claim_at-append s.heap new_claim), life.2, life.3)
  where
    Life : Joined → Type 0
    Life j =
        (j.ok ≡ true)
        × (join j.claims key ≡ record { claims = j.claims; claim = j.claim; ok = false })
        × ((release j.claims key j.claim).1 ≡ false)
        × ((release (owe j.claims key) key j.claim).1 ≡ true)
        × (lookup key (release (owe j.claims key) key j.claim).0.held ≡ none)

    taken : ClaimSet
    taken = (join_held s key none).claims

    life :
        (join taken key ≡ record { claims = taken; claim = length s.heap; ok = false })
        × ((release taken key (length s.heap)).1 ≡ (claim_at taken.heap (length s.heap)).owed)
        × ((release (owe taken key) key (length s.heap)).1 ≡ true)
        × (lookup key (release (owe taken key) key (length s.heap)).0.held ≡ none)
    life =
        held_life taken key (length s.heap)
          (lookup-insert key key (length s.heap) s.held ∙ rw (bytes_eq_refl key))
          (omega (arith, length-append s.heap (new_claim ∷ [])))
