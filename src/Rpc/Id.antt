-- ===== src/Rpc/Id.antt =====
-- api/rpc/types.go, the id codec: "<uuid>/<local>", where local may itself be a chain.
use gridwell.Base.{
  ℕ, ◌≡◌, refl, false, List, [], ◌∷◌, ◌++◌, map, Option, none, some, if◌then◌else◌, Bytes, is_empty,
  cut_byte, has_byte, ap, Bool-cases, inl, inr, ==_iff, arith, cut_byte-eq_some, cut_byte-append,
  ◌⊎◌, ◌==◌,
}

-- '/'
abbrev pub slash : ℕ
slash = b'/'

unfoldable pub qualify_id : Bytes → Bytes → Bytes
qualify_id uuid local = uuid ++ slash ∷ local

unfoldable pub qualify_optional_id : Bytes → Bytes → Bytes
unfolding qualify_id
qualify_optional_id uuid local = if is_empty local then [] else qualify_id uuid local

unfoldable pub qualify_ids : Bytes → List Bytes → List Bytes
unfolding qualify_id
qualify_ids uuid locals = map (qualify_id uuid) locals

unfoldable pub qualify_ns : Bytes → Bytes → Bytes
qualify_ns hop ns = if is_empty ns then hop else hop ++ slash ∷ ns

-- The first slash only counts past the first byte: a leading one makes the id bare.
abbrev peel_cut : Option (Bytes × Bytes) → Option (Bytes × Bytes)
peel_cut none = none
peel_cut (some ([], rest)) = none
peel_cut (some (c ∷ cs, rest)) = some (c ∷ cs, rest)

-- SplitID: none is ok = false.
unfoldable pub split_id : Bytes → Option (Bytes × Bytes)
unfolding cut_byte
split_id id = peel_cut (cut_byte slash id)

abbrev pub first_of_split : Option (Bytes × Bytes) → Bytes
first_of_split none = []
first_of_split (some (uuid, rest)) = uuid

unfoldable pub uuid_of : Bytes → Bytes
unfolding split_id
uuid_of id = first_of_split (split_id id)

-- The bytes before the last slash and after it: strings.LastIndexByte with the slices around it.
abbrev last_cut : ℕ → Bytes → Option (Bytes × Bytes) → Option (Bytes × Bytes)
last_cut x xs none = if x == slash then some ([], xs) else none
last_cut x xs (some (a, b)) = some (x ∷ a, b)

cut_last : Bytes → Option (Bytes × Bytes)
cut_last [] = none
cut_last (c ∷ cs) = last_cut c cs (cut_last cs)

abbrev before_cut : Option (Bytes × Bytes) → Bytes
before_cut none = []
before_cut (some (a, b)) = a

abbrev after_cut : Bytes → Option (Bytes × Bytes) → Bytes
after_cut id none = id
after_cut id (some (a, b)) = b

pub namespace_of : Bytes → Bytes
unfolding cut_last
namespace_of id = before_cut (cut_last id)

unfoldable pub local_of : Bytes → Bytes
unfolding cut_last
local_of id = after_cut id (cut_last id)

-- One segment of a chain: not empty, and no slash in it.
pub record IsSegment (s : Bytes) : Type 0 where
  pub filled : is_empty s ≡ false
  pub whole : has_byte slash s ≡ false

peel_cut-eq_some :
    (o : Option (Bytes × Bytes)) {uuid rest : Bytes}
    → peel_cut o ≡ some (uuid, rest)
    → (o ≡ some (uuid, rest)) × (is_empty uuid ≡ false)
peel_cut-eq_some none h = cc
peel_cut-eq_some (some ([], r)) h = cc
peel_cut-eq_some (some (c ∷ cs, r)) h = ground arith

peel_cut_filled :
    (uuid rest : Bytes) → is_empty uuid ≡ false → peel_cut (some (uuid, rest)) ≡ some (uuid, rest)
peel_cut_filled [] rest h = cc
peel_cut_filled (c ∷ cs) rest h = refl

-- A qualified id splits back into its hop and the rest.
pub split-qualify :
    (uuid local : Bytes) → IsSegment uuid → split_id (qualify_id uuid local) ≡ some (uuid, local)
unfolding split_id qualify_id
split-qualify uuid local h =
    rw (cut_byte-append slash uuid local h.whole) (peel_cut_filled uuid local h.filled)

-- What splits is the qualification of its parts, and its first part is one segment.
pub split_id-eq_some :
    (id : Bytes) {uuid rest : Bytes}
    → split_id id ≡ some (uuid, rest)
    → (id ≡ qualify_id uuid rest) × IsSegment uuid
unfolding split_id qualify_id
split_id-eq_some id h =
    let (cut, filled) = peel_cut-eq_some (cut_byte slash id) h in
    let (eq, whole) = cut_byte-eq_some slash id cut in
    (eq, record { filled = filled; whole = whole })

uuid_of-qualify : (uuid local : Bytes) → IsSegment uuid → uuid_of (qualify_id uuid local) ≡ uuid
unfolding uuid_of
uuid_of-qualify uuid local h = ap first_of_split (split-qualify uuid local h)

-- What a cut at the last slash says of an id.
abbrev LastCut : Bytes → Option (Bytes × Bytes) → Type 0
LastCut id none = has_byte slash id ≡ false
LastCut id (some (a, b)) = (id ≡ a ++ slash ∷ b) × (has_byte slash b ≡ false)

LastCut-last_cut :
    (c : ℕ) (cs : Bytes) (o : Option (Bytes × Bytes))
    → LastCut cs o
    → LastCut (c ∷ cs) (last_cut c cs o)
unfolding has_byte
LastCut-last_cut c cs none h = elim (Bool-cases (c == slash)) [
  | inl e ↦ rw e (ap (λ (x : ℕ). x ∷ cs) ((==_iff c slash).0 e), h)
  | inr e ↦ rw e (ground arith)
]
LastCut-last_cut c cs (some (a, b)) h = (ap (◌∷◌ c) h.0, h.1)

cut_last-LastCut : (id : Bytes) → LastCut id (cut_last id)
unfolding cut_last has_byte
cut_last-LastCut [] = refl
cut_last-LastCut (c ∷ cs) = LastCut-last_cut c cs (cut_last cs) (cut_last-LastCut cs)

parts_of_LastCut :
    (id : Bytes) (o : Option (Bytes × Bytes))
    → LastCut id o
    → (has_byte slash (after_cut id o) ≡ false)
      × ((id ≡ qualify_id (before_cut o) (after_cut id o))
          ⊎ ((before_cut o ≡ []) × (id ≡ after_cut id o)))
unfolding qualify_id
parts_of_LastCut id none h = (h, inr (refl, refl))
parts_of_LastCut id (some (a, b)) h = (h.1, inl h.0)

-- The last segment has no slash, and the namespace before it makes up the rest: an id is its
-- namespace and its last segment with a slash between, or is one segment with no namespace.
namespace-local :
    (id : Bytes)
    → (has_byte slash (local_of id) ≡ false)
      × ((id ≡ qualify_id (namespace_of id) (local_of id))
          ⊎ ((namespace_of id ≡ []) × (id ≡ local_of id)))
unfolding namespace_of local_of
namespace-local id = parts_of_LastCut id (cut_last id) (cut_last-LastCut id)

cut_last-of_lacks : (s : Bytes) → has_byte slash s ≡ false → cut_last s ≡ none
unfolding cut_last has_byte
cut_last-of_lacks [] h = refl
cut_last-of_lacks (c ∷ cs) h = ground (arith, cut_last-of_lacks cs)

cut_last-append :
    (ns local : Bytes)
    → has_byte slash local ≡ false
    → cut_last (ns ++ slash ∷ local) ≡ some (ns, local)
unfolding cut_last
cut_last-append [] local h = rw (cut_last-of_lacks local h)
cut_last-append (c ∷ ns) local h = rw (cut_last-append ns local h)

-- A chain qualified by a namespace of any depth has that namespace and that last segment.
pub namespace-local-qualify :
    (ns local : Bytes)
    → has_byte slash local ≡ false
    → (namespace_of (qualify_id ns local) ≡ ns) × (local_of (qualify_id ns local) ≡ local)
unfolding namespace_of local_of qualify_id
namespace-local-qualify ns local h = rw (cut_last-append ns local h) (refl, refl)
