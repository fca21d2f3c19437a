-- ===== src/Client/Selections/Grids.antt =====
-- client/cache/selection.go: what an operation does to the state of one grid.
use gridwell.Base.{
  ◌≡◌, refl, ap, sym, ◌∙◌, inl, inr, Bool, true, false, ◌&&◌, List, [], Option, none, some, is_some,
  if◌then◌else◌, Bytes, bytes_eq, bytes_eq→eq, bytes-Eq, lookup, insert, lookup-insert,
  lookup-delete, has_key, is_empty, Bool-cases,
}
use gridwell.Client.Selections.{
  SelHold, SelectSent, SelectCache, tap_each, hold_or_new, select, selection_up, sent_found,
  keep_hold, answered, cleared, retold, select_locked, same_set,
}
use gridwell.Client.Selections.Owed.{
  SelectOp, selects, sends, lands, refuses, fails, tells, Selecting, select_step, answer_flight,
  grid_of_op,
}
use gridwell.Client.Selections.Answered.{answer_all}

-- What the state has of one grid.
abbrev pub GridState : Type 0
GridState = Option SelHold × Option SelectSent × Option (List Bytes)

abbrev pub grid_state : Selecting → Bytes → GridState
grid_state w g = (lookup g w.cache.sel, lookup g w.flight, lookup g w.cache.told)

abbrev pub unless_over : SelHold → Bool → Option SelHold
unless_over h over = if over then none else some h

abbrev pub grid_answer : Bool → GridState → GridState
grid_answer acc (ho, none, set) = (ho, none, set)
grid_answer acc (none, some s, set) = (none, none, set)
grid_answer acc (some h, some s, set) =
    let h' = answer_all s acc h in
    (unless_over h' (is_empty h'.up && is_empty h'.landed), none, set)

abbrev pub told_hold : Option SelHold → Option SelHold
told_hold none = none
told_hold (some h) = unless_over (record h { landed = [] }) (is_empty h.up)

abbrev pub told_set : List Bytes → Option (List Bytes) → Option (List Bytes)
told_set ids none = none
told_set ids (some set) = if same_set set ids then some set else some ids

abbrev pub grid_step : GridState → SelectOp → GridState
grid_step (ho, fl, set) (selects g add remove) =
    (some (tap_each false remove (tap_each true add (hold_or_new ho))), fl, set)
grid_step (ho, fl, set) (sends g) = (ho, (if is_some fl then fl else some (sent_found ho)), set)
grid_step x (lands g) = grid_answer true x
grid_step x (refuses g) = grid_answer false x
grid_step (ho, fl, set) (fails g) = (ho, none, set)
grid_step (ho, fl, set) (tells g ids) = (told_hold ho, fl, told_set ids set)

lookup-keep_hold :
    (k g : Bytes) (h : SelHold) (over : Bool) (sel : List (Bytes × SelHold))
    → lookup g (keep_hold k h over sel)
      ≡ (if bytes_eq k g then unless_over h over else lookup g sel)
lookup-keep_hold k g h true sel = lookup-delete k g sel
lookup-keep_hold k g h false sel = lookup-insert k g h sel

lookup-same {ℓ} :
    {V : Type ℓ} (k g : Bytes) (m : List (Bytes × V))
    → lookup g m ≡ (if bytes_eq k g then lookup k m else lookup g m)
lookup-same k g m = elim (Bool-cases (bytes_eq k g)) [
  | inl q ↦ rw q (ap (λ i. lookup i m) (sym (bytes_eq→eq k g q)))
  | inr q ↦ rw q refl
]

merge :
    (b : Bool) {ho : Option SelHold} {fl : Option SelectSent} {set : Option (List Bytes)}
    (p q : GridState)
    → ho ≡ (if b then p.0 else q.0)
    → fl ≡ (if b then p.1 else q.1)
    → set ≡ (if b then p.2 else q.2)
    → Path GridState (ho, fl, set) (if b then p else q)
merge true p q e d c = rw (e, d, c) refl
merge false p q e d c = rw (e, d, c) refl

-- An operation on one grid steps that grid's state and leaves every other's.
answer_flight-grid_state :
    (w : Selecting) (k g : Bytes) (acc : Bool)
    → grid_state (answer_flight w k acc (lookup k w.flight)) g
      ≡ (if bytes_eq k g then grid_answer acc (grid_state w k) else grid_state w g)
unfolding answered
answer_flight-grid_state w k g acc = by_flight (lookup k w.flight) (lookup k w.cache.sel) refl refl
  where
    by_flight :
        (fl : Option SelectSent) (ho : Option SelHold)
        → lookup k w.flight ≡ fl
        → lookup k w.cache.sel ≡ ho
        → grid_state (answer_flight w k acc fl) g ≡ (
            if bytes_eq k g
            then grid_answer acc (ho, fl, lookup k w.cache.told)
            else grid_state w g)
    by_flight none ho e d =
        merge (bytes_eq k g) _ _
          (lookup-same k g w.cache.sel
            ∙ ap (λ o. if bytes_eq k g then o else lookup g w.cache.sel) d)
          (lookup-same k g w.flight ∙ ap (λ o. if bytes_eq k g then o else lookup g w.flight) e)
          (lookup-same k g w.cache.told)
    by_flight (some s) none e d = rw d (
        merge (bytes_eq k g) _ _
          (lookup-same k g w.cache.sel
            ∙ ap (λ o. if bytes_eq k g then o else lookup g w.cache.sel) d)
          (lookup-delete k g w.flight) (lookup-same k g w.cache.told))
    by_flight (some s) (some h) e d = rw d (
        merge (bytes_eq k g) _ _ (lookup-keep_hold k g (answer_all s acc h) _ w.cache.sel)
          (lookup-delete k g w.flight) (lookup-same k g w.cache.told))

retold-sel :
    (r : SelectCache × Bool) (k : Bytes) (ids : List Bytes) (set : Option (List Bytes))
    → (retold r k ids set).0.sel ≡ r.0.sel
retold-sel (c, changed) k ids none = refl
retold-sel (c, changed) k ids (some set) = elim (Bool-cases (same_set set ids)) [
  | inl e ↦ rw e refl
  | inr e ↦ rw e refl
]

cleared-told :
    (c : SelectCache) (k : Bytes) (ho : Option SelHold) → (cleared c k ho).0.told ≡ c.told
cleared-told c k none = refl
cleared-told c k (some h) = refl

lookup-cleared_hold :
    (c : SelectCache) (k g : Bytes) (ho : Option SelHold)
    → lookup k c.sel ≡ ho
    → lookup g (cleared c k ho).0.sel ≡ (if bytes_eq k g then told_hold ho else lookup g c.sel)
lookup-cleared_hold c k g none e =
    lookup-same k g c.sel ∙ ap (λ o. if bytes_eq k g then o else lookup g c.sel) e
lookup-cleared_hold c k g (some h) e = lookup-keep_hold k g _ (is_empty h.up) c.sel

lookup-retold_set :
    (r : SelectCache × Bool) (k g : Bytes) (ids : List Bytes) (set : Option (List Bytes))
    → lookup k r.0.told ≡ set
    → lookup g (retold r k ids set).0.told
      ≡ (if bytes_eq k g then told_set ids set else lookup g r.0.told)
lookup-retold_set (c, changed) k g ids none e =
    lookup-same k g c.told ∙ ap (λ o. if bytes_eq k g then o else lookup g c.told) e
lookup-retold_set (c, changed) k g ids (some set) e = elim (Bool-cases (same_set set ids)) [
  | inl q ↦ rw q (lookup-same k g c.told ∙ ap (λ o. if bytes_eq k g then o else lookup g c.told) e)
  | inr q ↦ rw q (lookup-insert k g ids c.told)
]

lookup-cleared :
    (c : SelectCache) (k g : Bytes) (ids : List Bytes)
    → lookup g (select_locked c k ids).0.sel
      ≡ (if bytes_eq k g then told_hold (lookup k c.sel) else lookup g c.sel)
unfolding select_locked
lookup-cleared c k g ids =
    ap (lookup g) (retold-sel (cleared c k (lookup k c.sel)) k ids (lookup k c.told))
    ∙ lookup-cleared_hold c k g (lookup k c.sel) refl

lookup-retold :
    (c : SelectCache) (k g : Bytes) (ids : List Bytes)
    → lookup g (select_locked c k ids).0.told
      ≡ (if bytes_eq k g then told_set ids (lookup k c.told) else lookup g c.told)
unfolding select_locked
lookup-retold c k g ids =
    let same = cleared-told c k (lookup k c.sel) in
    lookup-retold_set (cleared c k (lookup k c.sel)) k g ids (lookup k c.told) (ap (lookup k) same)
    ∙ ap (λ m. if bytes_eq k g then told_set ids (lookup k c.told) else lookup g m) same

sends-grid_state :
    (w : Selecting) (k g : Bytes) (b : Bool)
    → grid_state
        (if b then w else record w { flight = insert k (selection_up w.cache k) w.flight })
        g
      ≡ (if bytes_eq k g
          then (
            lookup k w.cache.sel,
            (if b then lookup k w.flight else some (sent_found (lookup k w.cache.sel))),
            lookup k w.cache.told,
          )
          else grid_state w g)
sends-grid_state w k g true =
    merge (bytes_eq k g) _ _ (lookup-same k g w.cache.sel) (lookup-same k g w.flight)
      (lookup-same k g w.cache.told)
sends-grid_state w k g false =
    merge (bytes_eq k g) _ _ (lookup-same k g w.cache.sel) (lookup-insert k g _ w.flight)
      (lookup-same k g w.cache.told)

pub select_step-grid_state :
    (w : Selecting) (op : SelectOp) (g : Bytes)
    → grid_state (select_step w op) g ≡ (
        if bytes_eq (grid_of_op op) g
        then grid_step (grid_state w (grid_of_op op)) op
        else grid_state w g)
unfolding select select_locked
select_step-grid_state w (selects k add remove) g =
    merge (bytes_eq k g) _ _ (lookup-insert k g _ w.cache.sel) (lookup-same k g w.flight)
      (lookup-same k g w.cache.told)
select_step-grid_state w (sends k) g = sends-grid_state w k g (has_key k w.flight)
select_step-grid_state w (lands k) g = answer_flight-grid_state w k g true
select_step-grid_state w (refuses k) g = answer_flight-grid_state w k g false
select_step-grid_state w (fails k) g =
    merge (bytes_eq k g) _ _ (lookup-same k g w.cache.sel) (lookup-delete k g w.flight)
      (lookup-same k g w.cache.told)
select_step-grid_state w (tells k ids) g =
    merge (bytes_eq k g) _ _ (lookup-cleared w.cache k g ids) (lookup-same k g w.flight)
      (lookup-retold w.cache k g ids)
