-- ===== src/Rpc/Address/Glob.antt =====
-- api/rpc/address.go: MatchAddress against the matching relation of its patterns.
use mathlib.Core.Bool.{false≢true}
use gridwell.Base.{
  ◌≤◌, length, length-append, ℕ, ◌≡◌, refl, ap, sym, subst, ◌∙◌, ◌↔◌, ◌⊎◌, inl, inr, ◌≢◌, true,
  false, List, [], ◌∷◌, ◌++◌, Option, none, some, Bytes, cut_prefix, cut_prefix-append,
  cut_prefix-eq_some, split, split-ne_nil, bytes_eq, bytes_eq_refl, bytes_eq→eq, ◌==◌, ==_iff,
  Bool-cases, append_assoc, push_head, arith, Option-cases,
}
use gridwell.Rpc.Address.{
  star, first_some, cut_after, has_suffix, match_parts, match_split, match_address,
}

-- A star matches any run of bytes, and every other byte itself.
pub data Matches : Bytes → Bytes → Type 0 where
  done : Matches [] []
  same : {c : ℕ} {p a : Bytes} → c ≢ star → Matches p a → Matches (c ∷ p) (c ∷ a)
  run : {p a b : Bytes} (any : Bytes) → b ≡ any ++ a → Matches p a → Matches (star ∷ p) b

-- The same by the parts of the pattern: an address of the parts after a star.
abbrev PartsMatch : List Bytes → Bytes → Type 0
PartsMatch [] a = ⊥
PartsMatch (last ∷ []) a = (any : Bytes) × (a ≡ any ++ last)
PartsMatch (p ∷ q ∷ ps) a =
    (any : Bytes) × (rest : Bytes) × (a ≡ any ++ (p ++ rest)) × PartsMatch (q ∷ ps) rest

abbrev SplitMatch : List Bytes → Bytes → Type 0
SplitMatch [] a = ⊥
SplitMatch (whole ∷ []) a = whole ≡ a
SplitMatch (p ∷ q ∷ ps) a = (rest : Bytes) × (a ≡ p ++ rest) × PartsMatch (q ∷ ps) rest

has_suffix-append : (any p : Bytes) → has_suffix p (any ++ p) ≡ true
unfolding has_suffix
has_suffix-append [] [] = bytes_eq_refl []
has_suffix-append [] (x ∷ p) = rw (bytes_eq_refl (x ∷ p))
has_suffix-append (y ∷ any) p = elim (Bool-cases (bytes_eq p (y ∷ any ++ p))) [
  | inl e ↦ rw e
  | inr e ↦ rw e (has_suffix-append any p)
]

has_suffix-eq_true : (p s : Bytes) → has_suffix p s ≡ true → (any : Bytes) × (s ≡ any ++ p)
unfolding has_suffix
has_suffix-eq_true p [] h = ([], sym (bytes_eq→eq p [] h))
has_suffix-eq_true p (x ∷ s) h = elim (Bool-cases (bytes_eq p (x ∷ s))) [
  | inl e ↦ ([], sym (bytes_eq→eq p (x ∷ s) e))
  | inr e ↦ let (any, k) = has_suffix-eq_true p s (rw e at h) in (x ∷ any, ap (◌∷◌ x) k)
]

first_some-eq_some :
    (o later : Option Bytes) {r : Bytes}
    → first_some o later ≡ some r
    → (o ≡ some r) ⊎ (later ≡ some r)
first_some-eq_some none later h = inr h
first_some-eq_some (some a) later h = inl h

-- What a search leaves is past an occurrence of p.
cut_after-eq_some :
    (p s : Bytes) {r : Bytes} → cut_after p s ≡ some r → (any : Bytes) × (s ≡ any ++ (p ++ r))
unfolding cut_after
cut_after-eq_some p [] h = ([], cut_prefix-eq_some p [] h)
cut_after-eq_some p (x ∷ s) {r} h =
    elim (first_some-eq_some (cut_prefix p (x ∷ s)) (cut_after p s) h) [
      | inl e ↦ ([], cut_prefix-eq_some p (x ∷ s) e)
      | inr e ↦ let (any, k) = cut_after-eq_some p s {r = r} e in (x ∷ any, ap (◌∷◌ x) k)
    ]

-- The end of a text past p is no shorter than its end past a longer beginning.
suffix_of_longer :
    (p z r rest : Bytes)
    → length p ≤ length z
    → p ++ r ≡ z ++ rest
    → (pre : Bytes) × (r ≡ pre ++ rest)
suffix_of_longer [] z r rest le e = (z, e)
suffix_of_longer (c ∷ p) [] r rest le e = absurd (omega arith)
suffix_of_longer (c ∷ p) (d ∷ z) r rest le e = suffix_of_longer p z r rest (omega arith) (cc)

LeavesAll : Bytes → Option Bytes → Type 0
LeavesAll rest none = ⊥
LeavesAll rest (some r) = (pre : Bytes) × (r ≡ pre ++ rest)

LeavesAll-of_prefix :
    (x : ℕ) (any p rest : Bytes) (o : Option Bytes)
    → cut_prefix p (x ∷ any ++ (p ++ rest)) ≡ o
    → (later : Option Bytes) → LeavesAll rest later
    → LeavesAll rest (first_some o later)
unfolding LeavesAll
LeavesAll-of_prefix x any p rest none e later h = h
LeavesAll-of_prefix x any p rest (some r) e later h =
    suffix_of_longer p ((x ∷ any) ++ p) r rest (omega (arith, length-append (x ∷ any) p))
      (sym (cut_prefix-eq_some p (x ∷ any ++ (p ++ rest)) e) ∙ sym (append_assoc (x ∷ any) p rest))

LeavesAll-cut_after : (p any rest : Bytes) → LeavesAll rest (cut_after p (any ++ (p ++ rest)))
unfolding cut_after LeavesAll
LeavesAll-cut_after p (x ∷ any) rest =
    LeavesAll-of_prefix x any p rest (cut_prefix p (x ∷ any ++ (p ++ rest))) refl
      (cut_after p (any ++ (p ++ rest))) (LeavesAll-cut_after p any rest)
LeavesAll-cut_after [] [] [] = ([], refl)
LeavesAll-cut_after [] [] (y ∷ rest) = ([], refl)
LeavesAll-cut_after (c ∷ p) [] rest = rw (cut_prefix-append (c ∷ p) rest) ([], refl)

found_of_LeavesAll :
    (rest : Bytes) (o : Option Bytes)
    → LeavesAll rest o
    → (r : Bytes) × (o ≡ some r) × ((pre : Bytes) × (r ≡ pre ++ rest))
unfolding LeavesAll
found_of_LeavesAll rest none h = absurd h
found_of_LeavesAll rest (some r) h = (r, refl, h)

-- A match of parts may begin later.
PartsMatch-append : (ps : List Bytes) (pre a : Bytes) → PartsMatch ps a → PartsMatch ps (pre ++ a)
PartsMatch-append [] pre a h = h
PartsMatch-append (l ∷ []) pre a (any, e) =
    (pre ++ any, ap (◌++◌ pre) e ∙ sym (append_assoc pre any l))
PartsMatch-append (p ∷ q ∷ ps) pre a (any, rest, e, h) =
    (pre ++ any, rest, ap (◌++◌ pre) e ∙ sym (append_assoc pre any (p ++ rest)), h)

match_parts_sound : (ps : List Bytes) (a : Bytes) → match_parts ps a ≡ true → PartsMatch ps a
unfolding match_parts
match_parts_sound [] a h = absurd (false≢true h)
match_parts_sound (l ∷ []) a h = has_suffix-eq_true l a h
match_parts_sound (p ∷ q ∷ ps) a h = elim (Option-cases (cut_after p a)) [
  | inl e ↦ absurd (false≢true (rw (e, match_parts) at h))
  | inr (r, e) ↦
      let (any, k) = cut_after-eq_some p a e in
      (any, r, k, match_parts_sound (q ∷ ps) r (rw (e, match_parts) at h))
]

match_parts_complete : (ps : List Bytes) (a : Bytes) → PartsMatch ps a → match_parts ps a ≡ true
unfolding match_parts
match_parts_complete [] a h = absurd h
match_parts_complete (l ∷ []) a (any, e) = ap (has_suffix l) e ∙ has_suffix-append any l
match_parts_complete (p ∷ q ∷ ps) a (any, rest, e, h) =
    let (r, k, (pre, k')) =
      found_of_LeavesAll rest (cut_after p (any ++ (p ++ rest))) (LeavesAll-cut_after p any rest) in
    rw (ap (cut_after p) e ∙ k, match_parts)
      (match_parts_complete (q ∷ ps) r
        (subst (PartsMatch (q ∷ ps)) (sym k') (PartsMatch-append (q ∷ ps) pre rest h)))

match_split_iff : (ps : List Bytes) (a : Bytes) → (match_split ps a ≡ true) ↔ SplitMatch ps a
unfolding match_split
match_split_iff [] a = (λ h. absurd (false≢true h), λ h. absurd h)
match_split_iff (w ∷ []) a = (bytes_eq→eq w a, λ e. ap (bytes_eq w) (sym e) ∙ bytes_eq_refl w)
match_split_iff (p ∷ q ∷ ps) a = (forth, back)
  where
    forth : match_split (p ∷ q ∷ ps) a ≡ true → SplitMatch (p ∷ q ∷ ps) a
    forth h = elim (Option-cases (cut_prefix p a)) [
      | inl e ↦ absurd (false≢true (rw (e, match_split) at h))
      | inr (r, e) ↦
          (r, cut_prefix-eq_some p a e, match_parts_sound (q ∷ ps) r (rw (e, match_split) at h))
    ]

    back : SplitMatch (p ∷ q ∷ ps) a → match_split (p ∷ q ∷ ps) a ≡ true
    back (rest, e, h) =
        rw (ap (cut_prefix p) e ∙ cut_prefix-append p rest, match_split)
          (match_parts_complete (q ∷ ps) rest h)

-- A byte in front of the first part.
SplitMatch-push_head :
    (c : ℕ) (h : Bytes) (t : List Bytes) (a : Bytes)
    → SplitMatch ((c ∷ h) ∷ t) a
    → (b : Bytes) × (a ≡ c ∷ b) × SplitMatch (h ∷ t) b
SplitMatch-push_head c h [] a e = (h, sym e, refl)
SplitMatch-push_head c h (q ∷ t) a (rest, e, m) = (h ++ rest, e, (rest, refl, m))

SplitMatch-cons :
    (c : ℕ) (h : Bytes) (t : List Bytes) (b : Bytes)
    → SplitMatch (h ∷ t) b
    → SplitMatch ((c ∷ h) ∷ t) (c ∷ b)
SplitMatch-cons c h [] b e = ap (◌∷◌ c) e
SplitMatch-cons c h (q ∷ t) b (rest, e, m) = (rest, ap (◌∷◌ c) e, m)

-- A star in front: any run, and then the parts.
PartsMatch-run :
    (h : Bytes) (t : List Bytes) (b : Bytes)
    → PartsMatch (h ∷ t) b
    → (any : Bytes) × (a : Bytes) × (b ≡ any ++ a) × SplitMatch (h ∷ t) a
PartsMatch-run h [] b (any, e) = (any, h, e, refl)
PartsMatch-run h (q ∷ t) b (any, rest, e, m) = (any, h ++ rest, e, (rest, refl, m))

PartsMatch-of_run :
    (h : Bytes) (t : List Bytes) (any a : Bytes)
    → SplitMatch (h ∷ t) a
    → PartsMatch (h ∷ t) (any ++ a)
PartsMatch-of_run h [] any a e = (any, ap (◌++◌ any) (sym e))
PartsMatch-of_run h (q ∷ t) any a (rest, e, m) = (any, rest, ap (◌++◌ any) e, m)

split-star : (p : Bytes) → split star (star ∷ p) ≡ [] ∷ split star p
unfolding split
split-star p = refl

split_other :
    (c : ℕ) (p : Bytes) → (c == star) ≡ false → split star (c ∷ p) ≡ push_head c (split star p)
unfolding split
split_other c p h = rw h

same_part :
    (c : ℕ) (p a : Bytes)
    → (c == star) ≡ false
    → SplitMatch (split star p) a
    → SplitMatch (split star (c ∷ p)) (c ∷ a)
same_part c p a ne m =
    let (h, t, e) = split-ne_nil star p in
    subst (λ (ps : List Bytes). SplitMatch ps (c ∷ a))
      (sym (split_other c p ne ∙ ap (push_head c) e))
      (SplitMatch-cons c h t a (subst (λ (ps : List Bytes). SplitMatch ps a) e m))

star_part :
    (p any a : Bytes) → SplitMatch (split star p) a → SplitMatch (split star (star ∷ p)) (any ++ a)
star_part p any a m =
    let (h, t, e) = split-ne_nil star p in
    subst (λ (ps : List Bytes). SplitMatch ps (any ++ a)) (sym (split-star p ∙ (λ i. [] ∷ e i)))
      (
        any ++ a,
        refl,
        PartsMatch-of_run h t any a (subst (λ (ps : List Bytes). SplitMatch ps a) e m),
      )

ne_star : (c : ℕ) → c ≢ star → (c == star) ≡ false
ne_star c h = ground arith

Matches→SplitMatch : {p a : Bytes} → Matches p a → SplitMatch (split star p) a
Matches→SplitMatch done = unfold split in refl
Matches→SplitMatch (same {c} {p} {a} ne m) = same_part c p a (ne_star c ne) (Matches→SplitMatch m)
Matches→SplitMatch (run {p} {a} {b} any e m) =
    subst (SplitMatch (split star (star ∷ p))) (sym e) (star_part p any a (Matches→SplitMatch m))

whole_empty : (a : Bytes) → SplitMatch (split star []) a → [] ≡ a
unfolding split
whole_empty a m = m

-- The parts of a pattern give its derivation.
SplitMatch→Matches : (p a : Bytes) → SplitMatch (split star p) a → Matches p a
SplitMatch→Matches [] a m = subst (Matches []) (whole_empty a m) done
SplitMatch→Matches (c ∷ p) a m = elim (Bool-cases (c == star)) [
  | inl e ↦
      let is_star = (==_iff c star).0 e in
      let m' =
        subst (λ (ps : List Bytes). SplitMatch ps a)
          (ap (λ (x : ℕ). split star (x ∷ p)) is_star ∙ split-star p ∙ (λ i. [] ∷ k i)) m in
      let (any, a', e', s) = PartsMatch-run h t a (past_empty a m') in
      subst (λ (x : ℕ). Matches (x ∷ p) a) (sym is_star)
        (run any e'
          (SplitMatch→Matches p a' (subst (λ (ps : List Bytes). SplitMatch ps a') (sym k) s)))
  | inr ne ↦
      let m' =
        subst (λ (ps : List Bytes). SplitMatch ps a) (split_other c p ne ∙ ap (push_head c) k) m in
      let (b, e', s) = SplitMatch-push_head c h t a m' in
      subst (Matches (c ∷ p)) (sym e') (
        same (λ q. absurd (false≢true (sym ne ∙ (==_iff c star).1 q)))
          (SplitMatch→Matches p b (subst (λ (ps : List Bytes). SplitMatch ps b) (sym k) s)))
]
  where
    h : Bytes
    h = (split-ne_nil star p).0

    t : List Bytes
    t = (split-ne_nil star p).1

    k : split star p ≡ h ∷ t
    k = (split-ne_nil star p).2

    past_empty : (b : Bytes) → SplitMatch ([] ∷ h ∷ t) b → PartsMatch (h ∷ t) b
    past_empty b (rest, e, n) = subst (PartsMatch (h ∷ t)) (sym e) n

-- MatchAddress is true exactly when the pattern matches the whole address, with every star free to
-- match any run of bytes: searching for each part at its first occurrence misses no match.
pub match_address_iff :
    (pattern address : Bytes) → (match_address pattern address ≡ true) ↔ Matches pattern address
unfolding match_address
match_address_iff pattern address = (
  λ h. SplitMatch→Matches pattern address ((match_split_iff (split star pattern) address).0 h),
  λ m. (match_split_iff (split star pattern) address).1 (Matches→SplitMatch m),
)
