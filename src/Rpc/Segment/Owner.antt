-- ===== src/Rpc/Segment/Owner.antt =====
-- api/rpc/segment.go: OwnerNamespaceOf, SharedOwner and ChainedThrough.
use gridwell.Base.{
  subst, &&_right, &&_left, ◌≢◌, ℕ, ◌≡◌, refl, ap, sym, ◌∙◌, ◌↔◌, ◌⊎◌, inl, inr, Bool, true, false,
  not, ◌||◌, Option, none, some, is_some, [], ◌∷◌, ◌++◌, arith, Bytes, is_empty, cut_byte,
  cut_byte-eq_some, cut_byte-append, cut_prefix, cut_prefix-append, cut_prefix-eq_some,
  if◌then◌else◌, Bool-cases, bytes_eq, bytes_eq_refl, bytes_eq→eq, append_assoc,
}
use mathlib.Core.Bool.{false≢true}
use gridwell.Rpc.Id.{slash, split_id, qualify_id, split_id-eq_some, split-qualify, IsSegment}
use gridwell.Rpc.Segment.{
  owner_namespace_of, owner_of_split, head_of_cut, head_segment, is_tile_segment, chained_through,
  shared_owner,
}

is_some-cases {ℓ} : {A : Type ℓ} (o : Option A) → is_some o ≡ true → (a : A) × (o ≡ some a)
is_some-cases none h = cc
is_some-cases (some a) h = (a, refl)

not-eq_false : (b : Bool) → not b ≡ true → b ≡ false
not-eq_false true h = cc
not-eq_false false h = refl

-- An id is chained through exactly the namespaces that it qualifies.
pub chained_through_iff :
    (id ns : Bytes)
    → (chained_through id ns ≡ true)
      ↔ ((is_empty ns ≡ false) × ((rest : Bytes) × (id ≡ qualify_id ns rest)))
unfolding chained_through qualify_id
chained_through_iff id ns = (
  λ h.
      let (rest, e) = is_some-cases (cut_prefix (ns ++ slash ∷ []) id) (&&_right _ _ h) in
      (
        not-eq_false _ (&&_left _ _ h),
        (rest, cut_prefix-eq_some (ns ++ slash ∷ []) id e ∙ append_assoc ns (slash ∷ []) rest),
      ),
  λ (filled, (rest, e)). rw (
    filled,
    e ∙ sym (append_assoc ns (slash ∷ []) rest),
    cut_prefix-append (ns ++ slash ∷ []) rest,
  ),
)

-- A qualified id reads, under the node that asks, as a hop and what follows it.
abbrev Routes : Bytes → Bytes → Type 0
Routes id ns = (is_empty ns ≡ false) × ((id ≡ ns) ⊎ (chained_through id ns ≡ true))

Routes-first : (first rest : Bytes) → is_empty first ≡ false → Routes (qualify_id first rest) first
Routes-first first rest h =
    (h, inr ((chained_through_iff (qualify_id first rest) first).1 (h, (rest, refl))))

is_empty-append : (s t : Bytes) (c : ℕ) → is_empty (s ++ c ∷ t) ≡ false
is_empty-append [] t c = refl
is_empty-append (x ∷ s) t c = refl

-- The rest of an id is its head segment, alone or before a slash.
head_segment-cases :
    (rest : Bytes)
    → (rest ≡ head_segment rest) ⊎ ((more : Bytes) × (rest ≡ head_segment rest ++ slash ∷ more))
unfolding head_segment
head_segment-cases rest = cases (cut_byte slash rest) refl
  where
    cases :
        (o : Option (Bytes × Bytes))
        → cut_byte slash rest ≡ o
        → (rest ≡ head_of_cut rest o)
          ⊎ ((more : Bytes) × (rest ≡ head_of_cut rest o ++ slash ∷ more))
    cases none e = inl refl
    cases (some (a, b)) e = inr (b, (cut_byte-eq_some slash rest e).0)

Routes-second :
    (first rest : Bytes) → Routes (qualify_id first rest) (first ++ slash ∷ head_segment rest)
unfolding qualify_id
Routes-second first rest = elim (head_segment-cases rest) [
  | inl e ↦ (
    is_empty-append first (head_segment rest) slash,
    inl (ap (λ (r : Bytes). first ++ slash ∷ r) e),
  )
  | inr (more, e) ↦ (
    is_empty-append first (head_segment rest) slash,
    inr (
        (chained_through_iff (first ++ slash ∷ rest) (first ++ slash ∷ head_segment rest)).1 (
          is_empty-append first (head_segment rest) slash,
          (
            more,
            ap (λ (r : Bytes). first ++ slash ∷ r) e
                ∙ sym (append_assoc first (slash ∷ head_segment rest) (slash ∷ more)),
          ),
        )),
  )
]

Routes-owner_of_split :
    (first rest node_id : Bytes)
    → is_empty first ≡ false
    → Routes (qualify_id first rest) (owner_of_split (some (first, rest)) node_id)
Routes-owner_of_split first rest node_id h =
    elim (Bool-cases (not (bytes_eq first node_id) || is_empty node_id)) [
      | inl other ↦ rw other (Routes-first first rest h)
      | inr own ↦
          rw own
            (elim (Bool-cases
              (is_empty (head_segment rest) || is_tile_segment (head_segment rest))) [
                | inl tile ↦ rw tile (Routes-first first rest h)
                | inr hop ↦ rw hop (Routes-second first rest)
              ])
    ]

-- The namespace that a node routes a qualified id to is not empty, and the id is chained through it
-- or is it.
owner_namespace_of-routes :
    (id node_id : Bytes) {first rest : Bytes}
    → split_id id ≡ some (first, rest)
    → let ns = owner_namespace_of id node_id in
      (is_empty ns ≡ false) × ((id ≡ ns) ⊎ (chained_through id ns ≡ true))
unfolding owner_namespace_of
owner_namespace_of-routes id node_id {first} {rest} e =
    let (k, seg) = split_id-eq_some id e in
    rw e (
      subst (λ (i : Bytes). Routes i (owner_of_split (some (first, rest)) node_id)) (sym k)
        (Routes-owner_of_split first rest node_id seg.filled))

bytes_eq_of_ne : (s t : Bytes) → s ≢ t → bytes_eq s t ≡ false
bytes_eq_of_ne s t ne = elim (Bool-cases (bytes_eq s t)) [
  | inl e ↦ absurd (ne (bytes_eq→eq s t e))
  | inr e ↦ e
]

head_segment-append : (c more : Bytes) → IsSegment c → head_segment (c ++ slash ∷ more) ≡ c
unfolding head_segment
head_segment-append c more h = rw (cut_byte-append slash c more h.whole)

-- Under the node's own id a tile segment stays the node's and a namespace segment joins it as a
-- connection; any other first segment is the namespace alone.
owner_namespace_of_table :
    (node_id second more : Bytes)
    → IsSegment node_id
    → IsSegment second
    → (is_tile_segment second ≡ true
        → owner_namespace_of (qualify_id node_id (qualify_id second more)) node_id ≡ node_id)
      × (is_tile_segment second ≡ false
          → owner_namespace_of (qualify_id node_id (qualify_id second more)) node_id
            ≡ qualify_id node_id second)
      × ((first : Bytes)
          → IsSegment first
          → first ≢ node_id
          → owner_namespace_of (qualify_id first (qualify_id second more)) node_id ≡ first)
unfolding owner_namespace_of
owner_namespace_of_table node_id second more hn hs = (
  λ tile.
      rw (split-qualify node_id (qualify_id second more) hn)
        (rw (bytes_eq_refl node_id, hn.filled) (rw (head) (rw (hs.filled, tile)))),
  λ hop. rw (split-qualify node_id (qualify_id second more) hn) (
      rw (bytes_eq_refl node_id, hn.filled)
        (rw (head) (rw (hs.filled, hop) (unfold qualify_id in refl)))),
  λ first hf ne.
      rw (split-qualify first (qualify_id second more) hf) (rw (bytes_eq_of_ne first node_id ne)),
)
  where
    head : head_segment (qualify_id second more) ≡ second
    head = unfold qualify_id in head_segment-append second more hs

bytes_eq-false_comm : (s t : Bytes) → bytes_eq s t ≡ false → bytes_eq t s ≡ false
bytes_eq-false_comm s t h =
    bytes_eq_of_ne t s (λ e. absurd (false≢true (sym h ∙ ap (bytes_eq s) e ∙ bytes_eq_refl s)))

-- SharedOwner over the two owners.
shared_of : (a b : Bytes) → Bytes
shared_of a b = if is_empty a || not (bytes_eq a b) then [] else a

shared_of_comm : (a b : Bytes) → shared_of a b ≡ shared_of b a
unfolding shared_of
shared_of_comm a b = elim (Bool-cases (bytes_eq a b)) [
  | inl e ↦
      ap (λ (x : Bytes). shared_of x b) (bytes_eq→eq a b e)
      ∙ ap (shared_of b) (sym (bytes_eq→eq a b e))
  | inr e ↦ ground (arith, bytes_eq-false_comm a b e)
]

-- The shared owner does not depend on which id is asked first.
pub shared_owner_comm : (a b node_id : Bytes) → shared_owner a b node_id ≡ shared_owner b a node_id
unfolding shared_owner shared_of
shared_owner_comm a b node_id =
    shared_of_comm (owner_namespace_of a node_id) (owner_namespace_of b node_id)
