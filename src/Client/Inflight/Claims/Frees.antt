-- ===== src/Client/Inflight/Claims/Frees.antt =====
-- client/inflight/inflight.go: a claim set and its account through a release and a cancel.
use gridwell.Base.{
  ℕ, zero, suc, ◌≡◌, refl, ap, sym, subst, ◌∙◌, inl, inr, Bool, true, false, ◌==◌, ◌&&◌, List, [],
  ◌∷◌, Option, none, some, is_some, if◌then◌else◌, Bytes, bytes_eq, bytes-Eq, bytes_eq_refl,
  bytes_eq→eq, lookup, delete, lookup-delete, length, arith, Bool-cases, has_key,
}
use gridwell.Client.Inflight.Claims.{
  Claim, ClaimSet, claim_at, write_at, release, end_claim, holds, cancel_all, cancel_claim,
  cancel_if,
}
use gridwell.Client.Inflight.Claims.Holders.{length-write_at, release-IsSound, cancel_all-IsSound}
use gridwell.Client.Inflight.Claims.Account.{
  freed, put_fetch, Fetch, free, fetching, Account, Holds, Agrees, Holds-heap, by_key,
}

-- A write that keeps what is owed.
write_at-owed :
    (heap : List Claim) (c d : ℕ) (x : Claim)
    → x.owed ≡ (claim_at heap c).owed
    → (claim_at (write_at heap c x) d).owed ≡ (claim_at heap d).owed
write_at-owed [] c d x e = refl
write_at-owed (y ∷ heap) zero zero x e = e
write_at-owed (y ∷ heap) zero (suc d) x e = refl
write_at-owed (y ∷ heap) (suc c) zero x e = refl
write_at-owed (y ∷ heap) (suc c) (suc d) x e = write_at-owed heap c d x e

abbrev left_held : Bytes → Bool → List (Bytes × ℕ) → List (Bytes × ℕ)
left_held key b held = if b then delete key held else held

left_held-other :
    (key k : Bytes) (b : Bool) (held : List (Bytes × ℕ))
    → bytes_eq key k ≡ false
    → lookup k (left_held key b held) ≡ lookup k held
left_held-other key k true held q = lookup-delete key k held ∙ rw q refl
left_held-other key k false held q = refl

left_held-own :
    (key : Bytes) (c : ℕ) (heap : List Claim) (held : List (Bytes × ℕ)) (f : Fetch)
    → Holds heap (lookup key held) f
    → Holds heap (lookup key (left_held key (holds (lookup key held) c) held)) (freed c f)
left_held-own key c heap held free o =
    ap (λ (u : Option ℕ). lookup key (left_held key (holds u c) held)) o ∙ o
left_held-own key c heap held (fetching d b) (o, h) =
    subst
      (λ (u : Option ℕ).
        Holds heap (lookup key (left_held key (holds u c) held)) (freed c (fetching d b)))
      (sym o) (by_test (d == c))
  where
    by_test :
        (t : Bool)
        → Holds heap (lookup key (left_held key t held)) (if t then free else fetching d b)
    by_test true = lookup-delete key key held ∙ rw (bytes_eq_refl key) refl
    by_test false = (o, h)

pub release-Agrees :
    (s : ClaimSet) (a : Account) (key : Bytes) (c : ℕ)
    → Agrees s a
    → Agrees
        (release s key c).0
        (record a { fetch = put_fetch a.fetch key (freed c (a.fetch key)) })
unfolding release
release-Agrees s a key c g =
    let held = left_held key (holds (lookup key s.held) c) s.held in
    record {
      sound = release-IsSound s key c g.sound;
      given = length-write_at s.heap c _ ∙ g.given;
      each = λ k.
          by_key key k (end_claim s.heap c) held (freed c (a.fetch key)) a.fetch
            (λ q.
              Holds-heap s.heap (end_claim s.heap c) _ (freed c (a.fetch key))
                (λ d l. write_at-owed s.heap c d _ refl)
                (subst (λ (i : Bytes). Holds s.heap (lookup i held) (freed c (a.fetch key))) q
                  (left_held-own key c s.heap s.held (a.fetch key) (g.each key))))
            (λ q.
              Holds-heap s.heap (end_claim s.heap c) _ (a.fetch k)
                (λ d l. write_at-owed s.heap c d _ refl)
                (subst (λ (u : Option ℕ). Holds s.heap u (a.fetch k))
                  (sym (left_held-other key k (holds (lookup key s.held) c) s.held q)) (g.each k)));
    }

abbrev cancelled_one : Bytes → ℕ → Bool → ClaimSet → ClaimSet
cancelled_one k c b s =
    if b then record { held = delete k s.held; heap = cancel_claim s.heap c } else s

-- What cancelIf leaves of the set.
cancel_all-held :
    (match : Bytes → Bool) (ks : List (Bytes × ℕ)) (s : ClaimSet) (k : Bytes)
    → lookup k (cancel_all match ks s).held
      ≡ (if match k && has_key k ks then none else lookup k s.held)
unfolding cancel_all lookup
cancel_all-held match [] s k = ground arith
cancel_all-held match ((j, c) ∷ ks) s k =
    one (match j) refl (cancel_all-held match ks (cancelled_one j c (match j) s) k)
  where
    same : bytes_eq j k ≡ true → match j ≡ match k
    same q = ap match (bytes_eq→eq j k q)

    one :
        (b : Bool)
        → match j ≡ b
        → lookup k (cancel_all match ks (cancelled_one j c b s)).held
          ≡ (if match k && has_key k ks then none else lookup k (cancelled_one j c b s).held)
        → lookup k (cancel_all match ks (cancelled_one j c b s)).held
          ≡ (if match k && has_key k ((j, c) ∷ ks) then none else lookup k s.held)
    one true e more = more ∙ elim (Bool-cases (bytes_eq j k)) [
      | inl q ↦ ground (arith, lookup-delete j k s.held, same q, e)
      | inr q ↦ ground (arith, lookup-delete j k s.held, e)
    ]
    one false e more = more ∙ elim (Bool-cases (bytes_eq j k)) [
      | inl q ↦ ground (arith, same q, e)
      | inr q ↦ ground (arith, e)
    ]

abbrev KeepsHeap : ClaimSet → ClaimSet → Type 0
KeepsHeap s t =
    (length t.heap ≡ length s.heap)
    × ((d : ℕ) → (claim_at t.heap d).owed ≡ (claim_at s.heap d).owed)

cancel_all-heap :
    (match : Bytes → Bool) (ks : List (Bytes × ℕ)) (s : ClaimSet)
    → KeepsHeap s (cancel_all match ks s)
unfolding cancel_all
cancel_all-heap match [] s = (refl, λ d. refl)
cancel_all-heap match ((j, c) ∷ ks) s =
    one (match j) (cancel_all-heap match ks (cancelled_one j c (match j) s))
  where
    one :
        (b : Bool)
        → KeepsHeap (cancelled_one j c b s) (cancel_all match ks (cancelled_one j c b s))
        → KeepsHeap s (cancel_all match ks (cancelled_one j c b s))
    one true rest = (
      rest.0 ∙ length-write_at s.heap c _,
      λ d.
          rest.1 d
          ∙ write_at-owed s.heap c d (record (claim_at s.heap c) { cancelled = true }) refl,
    )
    one false rest = rest

pub cancel_if-Agrees :
    (s : ClaimSet) (a : Account) (match : Bytes → Bool)
    → Agrees s a
    → Agrees (cancel_if s match).0 (record a { fetch = λ k. if match k then free else a.fetch k })
unfolding cancel_if
cancel_if-Agrees s a match g =
    let heap = cancel_all-heap match s.held s in
    record {
      sound = cancel_all-IsSound match s.held s g.sound;
      given = heap.0 ∙ g.given;
      each = λ k.
          Holds-heap s.heap (cancel_all match s.held s).heap _ _ (λ d l. heap.1 d)
            (subst (λ (u : Option ℕ). Holds s.heap u (if match k then free else a.fetch k))
              (sym (cancel_all-held match s.held s k))
              (left (match k) (lookup k s.held) (a.fetch k) (g.each k)));
    }
  where
    left :
        (b : Bool) (o : Option ℕ) (f : Fetch)
        → Holds s.heap o f
        → Holds s.heap (if b && is_some o then none else o) (if b then free else f)
    left true none f h = refl
    left true (some c) f h = refl
    left false o f h = h
