-- ===== src/Rpc/Route/First.antt =====
-- api/rpc/route.go: Decide and Routing against the order of the routes.
use gridwell.Base.{
  ||_cases, ◌≡◌, refl, sym, subst, ◌∙◌, ◌⊎◌, inl, inr, ◌≢◌, Bool, true, false, not, ◌&&◌, ◌||◌,
  List, [], ◌∷◌, Option, none, some, if◌then◌else◌, Bytes, is_empty, bytes_eq, bytes_eq_refl,
  bytes_eq→eq, Bool-cases, arith,
}
use mathlib.Core.Bool.{false≢true}
use gridwell.Rpc.Address.{match_address}
use gridwell.Rpc.Address.Glob.{Matches, match_address_iff}
use gridwell.Rpc.Route.{
  Route, Verdict, sent_outside, sent_broken, sent_to, Declared, presents_any, decide_route, decide,
  plain, or_verdict, PluginRow, declared_by, says_something, routing_from, routing, zero_declared,
  file_row,
}

-- One of the patterns matches the address.
pub data SomePresents (address : Bytes) : List Bytes → Type 0 where
  here : {p : Bytes} {ps : List Bytes} → Matches p address → SomePresents address (p ∷ ps)
  there : {p : Bytes} {ps : List Bytes} → SomePresents address ps → SomePresents address (p ∷ ps)

-- What a route makes of an address: outside, a plugin whose declaration is unknown, or a plugin that
-- presents it.
pub data Takes (address : Bytes) (r : Route) (d : Declared) : Verdict → Type 0 where
  goes_outside :
      {v : Verdict}
      → Matches r.glob address
      → r.outside ≡ true
      → v ≡ sent_outside
      → Takes address r d v
  goes_broken :
      {v : Verdict}
      → Matches r.glob address
      → r.outside ≡ false
      → is_empty d.unknown ≡ false
      → v ≡ sent_broken r d
      → Takes address r d v
  presented :
      {v : Verdict}
      → Matches r.glob address
      → r.outside ≡ false
      → is_empty d.unknown ≡ true
      → SomePresents address d.presents
      → v ≡ sent_to r
      → Takes address r d v

-- The first route that takes the address gives the verdict; where none does the address is plain.
pub data Decides (address : Bytes) (declared : Bytes → Declared)
    : List Route → Verdict → Type 0 where
  first :
      {r : Route} {rs : List Route} {v : Verdict}
      → Takes address r (declared r.plugin) v
      → Decides address declared (r ∷ rs) v
  later :
      {r : Route} {rs : List Route} {v : Verdict}
      → ((u : Verdict) → ¬ Takes address r (declared r.plugin) u)
      → Decides address declared rs v
      → Decides address declared (r ∷ rs) v
  nowhere : {v : Verdict} → v ≡ plain → Decides address declared [] v

presents_any→SomePresents :
    (ps : List Bytes) (a : Bytes) → presents_any ps a ≡ true → SomePresents a ps
unfolding presents_any
presents_any→SomePresents [] a h = absurd (false≢true h)
presents_any→SomePresents (p ∷ ps) a h = elim (||_cases (match_address p a) (presents_any ps a) h) [
  | inl e ↦ here ((match_address_iff p a).0 e)
  | inr e ↦ there (presents_any→SomePresents ps a e)
]

SomePresents→presents_any :
    {a : Bytes} {ps : List Bytes} → SomePresents a ps → presents_any ps a ≡ true
unfolding presents_any
SomePresents→presents_any (here {p} {ps} m) = rw ((match_address_iff p _).1 m)
SomePresents→presents_any (there {p} {ps} s) =
    or_true (match_address p _) (SomePresents→presents_any s)
  where
    or_true : (b : Bool) {c : Bool} → c ≡ true → (b || c) ≡ true
    or_true true e = refl
    or_true false e = e

no_match : (p a : Bytes) → match_address p a ≡ false → ¬ Matches p a
no_match p a e m = false≢true (sym e ∙ (match_address_iff p a).1 m)

-- The verdict on one route against what the route takes.
abbrev Answers : Bytes → Route → Declared → Option Verdict → Type 0
Answers a r d none = (u : Verdict) → ¬ Takes a r d u
Answers a r d (some v) = Takes a r d v

Takes-Matches :
    {a : Bytes} {r : Route} {d : Declared} {v : Verdict} → Takes a r d v → Matches r.glob a
Takes-Matches (goes_outside m o e) = m
Takes-Matches (goes_broken m o u e) = m
Takes-Matches (presented m o u s e) = m

Takes-inside :
    {a : Bytes} {r : Route} {d : Declared} {v : Verdict}
    → Takes a r d v
    → r.outside ≡ false
    → is_empty d.unknown ≡ true
    → SomePresents a d.presents
Takes-inside (goes_outside m o e) i k = absurd (false≢true (sym i ∙ o))
Takes-inside (goes_broken m o u e) i k = absurd (false≢true (sym u ∙ k))
Takes-inside (presented m o u s e) i k = s

answered :
    (a : Bytes) (r : Route) (d : Declared) {o : Option Verdict}
    → decide_route a r d ≡ o
    → Answers a r d o
    → Answers a r d (decide_route a r d)
answered a r d e h = subst (Answers a r d) (sym e) h

decide_route-Answers : (a : Bytes) (r : Route) (d : Declared) → Answers a r d (decide_route a r d)
unfolding decide_route
decide_route-Answers a r d = elim (Bool-cases (match_address r.glob a)) [
  | inr e ↦ answered a r d {o = none} (simp e) (λ u t. no_match r.glob a e (Takes-Matches t))
  | inl e ↦ elim (Bool-cases r.outside) [
    | inl o ↦
        answered a r d {o = some sent_outside} (simp (e, o))
          (goes_outside ((match_address_iff r.glob a).0 e) o refl)
    | inr o ↦ elim (Bool-cases (is_empty d.unknown)) [
      | inr k ↦
          answered a r d {o = some (sent_broken r d)} (simp (e, o, k))
            (goes_broken ((match_address_iff r.glob a).0 e) o k refl)
      | inl k ↦ elim (Bool-cases (presents_any d.presents a)) [
        | inl p ↦ answered a r d {o = some (sent_to r)} (simp (e, o, k, p)) (
            presented ((match_address_iff r.glob a).0 e) o k
              (presents_any→SomePresents d.presents a p) refl)
        | inr p ↦
            answered a r d {o = none} (simp (e, o, k, p))
              (λ u t. false≢true (sym p ∙ SomePresents→presents_any (Takes-inside t o k)))
      ]
    ]
  ]
]

Decides-or_verdict :
    (a : Bytes) (declared : Bytes → Declared) (r : Route) (rs : List Route) (o : Option Verdict)
    (v : Verdict)
    → Answers a r (declared r.plugin) o
    → Decides a declared rs v
    → Decides a declared (r ∷ rs) (or_verdict o v)
Decides-or_verdict a declared r rs none v h k = later h k
Decides-or_verdict a declared r rs (some u) v h k = first h

-- Decide gives what the first route that takes the address makes of it, passing over every route
-- that does not take it, and a plain tile when none takes it.
pub decide-Decides :
    (address : Bytes) (routes : List Route) (declared : Bytes → Declared)
    → Decides address declared routes (decide address routes declared)
unfolding decide
decide-Decides a [] declared = nowhere refl
decide-Decides a (r ∷ rs) declared =
    Decides-or_verdict a declared r rs (decide_route a r (declared r.plugin)) (decide a rs declared)
      (decide_route-Answers a r (declared r.plugin)) (decide-Decides a rs declared)

-- The uuids of the rows are apart.
abbrev Apart : Bytes → List PluginRow → Type 0
Apart uuid [] = Unit
Apart uuid (p ∷ ps) = (p.uuid ≢ uuid) × Apart uuid ps

abbrev Distinct : List PluginRow → Type 0
Distinct [] = Unit
Distinct (p ∷ ps) = Apart p.uuid ps × Distinct ps

routing_from-Apart :
    (m : Bytes → Declared) (ps : List PluginRow) (uuid : Bytes)
    → Apart uuid ps
    → routing_from m ps uuid ≡ m uuid
unfolding routing_from
routing_from-Apart m [] uuid h = refl
routing_from-Apart m (p ∷ ps) uuid h =
    routing_from-Apart (file_row p m) ps uuid h.1
    ∙ skipped (says_something (declared_by p)) (Bool-cases (bytes_eq p.uuid uuid))
  where
    skipped :
        (b : Bool)
        → (bytes_eq p.uuid uuid ≡ true) ⊎ (bytes_eq p.uuid uuid ≡ false)
        → (if b && bytes_eq p.uuid uuid then declared_by p else m uuid) ≡ m uuid
    skipped b (inl e) = absurd (h.0 (bytes_eq→eq p.uuid uuid e))
    skipped true (inr e) = rw e
    skipped false (inr e) = refl

nil_of {ℓ} : {A : Type ℓ} (xs : List A) → not (is_empty xs) ≡ false → [] ≡ xs
nil_of [] e = refl
nil_of (x ∷ xs) e = absurd (false≢true (sym e))

||_false : (a b : Bool) → (a || b) ≡ false → (a ≡ false) × (b ≡ false)
||_false a b h = ground arith

says_nothing : (d : Declared) → says_something d ≡ false → zero_declared ≡ d
says_nothing d h =
    let (p, u) = ||_false (not (is_empty d.presents)) (not (is_empty d.unknown)) h in
    λ i. record { presents = nil_of d.presents p i; unknown = nil_of d.unknown u i }

filed :
    (p : PluginRow) (m : Bytes → Declared)
    → m p.uuid ≡ zero_declared
    → file_row p m p.uuid ≡ declared_by p
filed p m z = elim (Bool-cases (says_something (declared_by p))) [
  | inl e ↦ rw (e, bytes_eq_refl p.uuid)
  | inr e ↦ rw e (z ∙ says_nothing (declared_by p) e)
]

file_row_apart :
    (q : PluginRow) (m : Bytes → Declared) (uuid : Bytes)
    → q.uuid ≢ uuid
    → file_row q m uuid ≡ m uuid
unfolding routing_from
file_row_apart q m uuid ne = routing_from-Apart m (q ∷ []) uuid (ne, tt)

-- A row in the list, by its place.
pub data RowAt (p : PluginRow) : List PluginRow → Type 0 where
  at_head : {ps : List PluginRow} → RowAt p (p ∷ ps)
  at_tail : {q : PluginRow} {ps : List PluginRow} → RowAt p ps → RowAt p (q ∷ ps)

Apart-of_row :
    {p : PluginRow} {ps : List PluginRow} (uuid : Bytes)
    → RowAt p ps
    → Apart uuid ps
    → p.uuid ≢ uuid
Apart-of_row uuid at_head h = h.0
Apart-of_row uuid (at_tail r) h = Apart-of_row uuid r h.1

routing_from-own :
    (p : PluginRow) {ps : List PluginRow} (m : Bytes → Declared)
    → RowAt p ps
    → Distinct ps
    → m p.uuid ≡ zero_declared
    → routing_from m ps p.uuid ≡ declared_by p
unfolding routing_from
routing_from-own p m (at_head {ps}) h z =
    routing_from-Apart (file_row p m) ps p.uuid h.0 ∙ filed p m z
routing_from-own p m (at_tail {q} {ps} r) h z =
    routing_from-own p (file_row q m) r h.1
      (file_row_apart q m p.uuid (λ e. Apart-of_row q.uuid r h.0 (sym e)) ∙ z)

-- Where the rows have distinct uuids, the routing that a handshake gives reads back, for each row,
-- just what the row declares, the declarations that say nothing left out of the map included.
routing-own :
    (p : PluginRow) {ps : List PluginRow}
    → RowAt p ps
    → Distinct ps
    → routing ps p.uuid ≡ declared_by p
unfolding routing
routing-own p r h = routing_from-own p (λ u. zero_declared) r h refl
