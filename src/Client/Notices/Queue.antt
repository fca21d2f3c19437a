-- ===== src/Client/Notices/Queue.antt =====
-- client/errsurface/errsurface.go: what stays true of the queue of notices.
use gridwell.Base.{
  ℕ, suc, ◌+◌, ◌-◌, ◌≤◌, ◌≡◌, refl, ap, sym, subst, ◌⊎◌, inl, inr, ◌==◌, Bool, true, false, not,
  ◌&&◌, List, [], ◌∷◌, Option, none, some, if◌then◌else◌, Bytes, bytes_eq, bytes_eq→eq, length, All,
  one_if, arith, Bool-cases,
}
use mathlib.Core.Bool.{false≢true}
use gridwell.Client.Notices.{
  Severity, Action, is_no_action, max_notices, Notice, Surface, new_surface, sticky, action_of,
  take_source, found_behind, shed, deadline_of, new_notice, offer_found, offer, report, outlives,
  expire_loop, expire, remove, dismiss, resolve,
}

-- How many notices have a source, and how many an id.
abbrev from_source : Bytes → List Notice → ℕ
from_source source [] = 0
from_source source (n ∷ ns) = one_if (bytes_eq n.source source) + from_source source ns

abbrev with_id : ℕ → List Notice → ℕ
with_id id [] = 0
with_id id (n ∷ ns) = one_if (n.id == id) + with_id id ns

-- A notice has no deadline exactly when its source is sticky.
abbrev IsTimed : Notice → Type 0
IsTimed n =
    (n.deadline ≡ none → sticky n.source ≡ true) × (sticky n.source ≡ true → n.deadline ≡ none)

-- One notice for each source, one for each id, and no id that is still to be given.
pub record IsQueue (s : Surface) : Type 0 where
  pub once : (source : Bytes) → from_source source s.notices ≤ 1
  pub apart : (id : ℕ) → with_id id s.notices ≤ 1
  pub old : (id : ℕ) → s.next_id ≤ id → with_id id s.notices ≡ 0
  timed : All IsTimed s.notices

-- A list with no more of any source or id, all of it timed.
pub record IsPart (ns ms : List Notice) : Type 0 where
  fewer_source : (source : Bytes) → from_source source ns ≤ from_source source ms
  fewer_id : (id : ℕ) → with_id id ns ≤ with_id id ms
  still_timed : All IsTimed ms → All IsTimed ns

whole_IsPart : (ns : List Notice) → IsPart ns ns
whole_IsPart ns = record {
  fewer_source = λ s. omega arith;
  fewer_id = λ i. omega arith;
  still_timed = λ a. a;
}

dropped_IsPart : (n : Notice) (ns ms : List Notice) → IsPart ns ms → IsPart ns (n ∷ ms)
dropped_IsPart n ns ms p = record {
  fewer_source = λ s. omega (arith, p.fewer_source s);
  fewer_id = λ i. omega (arith, p.fewer_id i);
  still_timed = λ a. p.still_timed a.1;
}

kept_IsPart : (n : Notice) (ns ms : List Notice) → IsPart ns ms → IsPart (n ∷ ns) (n ∷ ms)
kept_IsPart n ns ms p = record {
  fewer_source = λ s. omega (arith, p.fewer_source s);
  fewer_id = λ i. omega (arith, p.fewer_id i);
  still_timed = λ a. (a.0, p.still_timed a.1);
}

shed-IsPart : (ns : List Notice) (excess : ℕ) → IsPart (shed ns excess).0 ns
unfolding shed
shed-IsPart [] excess = whole_IsPart []
shed-IsPart (n ∷ ns) excess =
    one (not ((shed ns excess).1 == 0) && is_no_action n.action) (shed-IsPart ns excess)
  where
    one :
        (b : Bool)
        → IsPart (shed ns excess).0 ns
        → IsPart
            (if◌then◌else◌ {A = List Notice × ℕ} b
              ((shed ns excess).0, (shed ns excess).1 - 1)
              (n ∷ (shed ns excess).0, (shed ns excess).1)).0
            (n ∷ ns)
    one true p = dropped_IsPart n _ ns p
    one false p = kept_IsPart n _ ns p

expire_loop-IsPart : (ns : List Notice) (now : ℕ) → IsPart (expire_loop ns now).0 ns
unfolding expire_loop
expire_loop-IsPart [] now = whole_IsPart []
expire_loop-IsPart (n ∷ ns) now = one (outlives n.deadline now) (expire_loop-IsPart ns now)
  where
    one :
        (b : Bool)
        → IsPart (expire_loop ns now).0 ns
        → IsPart
            (if◌then◌else◌ {A = List Notice × List Bytes} b
              (n ∷ (expire_loop ns now).0, (expire_loop ns now).1)
              ((expire_loop ns now).0, n.source ∷ (expire_loop ns now).1)).0
            (n ∷ ns)
    one true p = kept_IsPart n _ ns p
    one false p = dropped_IsPart n _ ns p

remove-IsPart : (ns : List Notice) (match : Notice → Bool) → IsPart (remove ns match).0 ns
unfolding remove
remove-IsPart [] match = whole_IsPart []
remove-IsPart (n ∷ ns) match = one (match n) (remove-IsPart ns match)
  where
    one :
        (b : Bool)
        → IsPart (remove ns match).0 ns
        → IsPart
            (if◌then◌else◌ {A = List Notice × Bool} b
              (ns, true)
              (n ∷ (remove ns match).0, (remove ns match).1)).0
            (n ∷ ns)
    one true p = dropped_IsPart n ns ns (whole_IsPart ns)
    one false p = kept_IsPart n _ ns p

part_IsQueue :
    (s : Surface) (ns : List Notice)
    → IsPart ns s.notices
    → IsQueue s
    → IsQueue (record s { notices = ns })
part_IsQueue s ns p v = record {
  once = λ x. omega (arith, p.fewer_source x, v.once x);
  apart = λ i. omega (arith, p.fewer_id i, v.apart i);
  old = λ i h. omega (arith, p.fewer_id i, v.old i h);
  timed = p.still_timed v.timed;
}

-- What taking a source's notice out leaves: the notice and the others are all there are.
abbrev Taken : Bytes → List Notice → Option (Notice × List Notice) → Type 0
Taken source ns none = from_source source ns ≡ 0
Taken source ns (some (m, rest)) =
    (m.source ≡ source)
    × ((x : Bytes) → from_source x ns ≡ one_if (bytes_eq m.source x) + from_source x rest)
    × ((i : ℕ) → with_id i ns ≡ one_if (m.id == i) + with_id i rest)
    × (All IsTimed ns → All IsTimed rest)

take_source-Taken : (source : Bytes) (ns : List Notice) → Taken source ns (take_source source ns)
unfolding take_source
take_source-Taken source [] = refl
take_source-Taken source (n ∷ ns) =
    one (bytes_eq n.source source) refl (take_source source ns) (take_source-Taken source ns)
  where
    one :
        (b : Bool)
        → bytes_eq n.source source ≡ b
        → (o : Option (Notice × List Notice)) → Taken source ns o
        → Taken source (n ∷ ns) (if b then some (n, ns) else found_behind n o)
    one true e o h = (bytes_eq→eq n.source source e, (λ x. refl), (λ i. refl), λ a. a.1)
    one false e none h = omega (arith, ap one_if e, h)
    one false e (some (m, rest)) h =
        (h.0, (λ x. omega (arith, h.1 x)), (λ i. omega (arith, h.2 i)), λ a. (a.0, h.3 a.1))

deadline_of_timed :
    (source : Bytes) (now : ℕ)
    → (deadline_of source now ≡ none → sticky source ≡ true)
      × (sticky source ≡ true → deadline_of source now ≡ none)
deadline_of_timed source now = one (sticky source)
  where
    one :
        (b : Bool)
        → ((if b then none else some (now + 10000000000)) ≡ none → b ≡ true)
          × (b ≡ true → (if b then none else some (now + 10000000000)) ≡ none)
    one true = (λ h. refl, λ h. refl)
    one false = (λ h. cc, λ h. absurd (false≢true h))

offer-IsQueue :
    (s : Surface) (sev : Severity) (source message : Bytes) (act : Action) (now : ℕ)
    → IsQueue s
    → IsQueue (offer s sev source message act now)
unfolding offer
offer-IsQueue s sev source message act now v =
    found (take_source source s.notices) (take_source-Taken source s.notices)
  where
    fresh : Notice
    fresh = new_notice s.next_id sev source message act (deadline_of source now)

    found :
        (o : Option (Notice × List Notice))
        → Taken source s.notices o
        → IsQueue (offer_found s sev source message act now o)
    found (some (n, rest)) h = record {
      once = λ x. omega (arith, h.1 x, v.once x);
      apart = λ i. omega (arith, h.2 i, v.apart i);
      old = λ i g. omega (arith, h.2 i, v.old i g);
      timed = (
        subst
            (λ (x : Bytes).
              (deadline_of source now ≡ none → sticky x ≡ true)
              × (sticky x ≡ true → deadline_of source now ≡ none))
            (sym h.0) (deadline_of_timed source now),
        h.3 v.timed,
      );
    }
    found none h =
        part_IsQueue (record { notices = fresh ∷ s.notices; next_id = s.next_id + 1 }) _
          (shed-IsPart (fresh ∷ s.notices) (length (fresh ∷ s.notices) - max_notices))
          (record {
            once = λ x. elim (Bool-cases (bytes_eq source x)) [
              | inl e ↦ omega (
                arith,
                ap one_if e,
                h,
                ap (λ (y : Bytes). from_source y s.notices) (bytes_eq→eq source x e),
              )
              | inr e ↦ omega (arith, ap one_if e, v.once x)
            ];
            apart = λ i. elim (Bool-cases (s.next_id == i)) [
              | inl e ↦ omega (arith, ap one_if e, v.old i (ground arith))
              | inr e ↦ omega (arith, ap one_if e, v.apart i)
            ];
            old = λ i g. elim (Bool-cases (s.next_id == i)) [
              | inl e ↦ absurd (ground arith)
              | inr e ↦ omega (arith, ap one_if e, v.old i (omega arith))
            ];
            timed = (deadline_of_timed source now, v.timed);
          })

-- What a client may do to the queue.
pub data SurfaceOp : Type 0 where
  offers : Severity → Bytes → Bytes → Action → ℕ → SurfaceOp
  reports : Severity → Bytes → Bytes → ℕ → SurfaceOp
  expires dismisses : ℕ → SurfaceOp
  resolves : Bytes → SurfaceOp

abbrev surface_step : Surface → SurfaceOp → Surface
surface_step s (offers sev source message act now) = offer s sev source message act now
surface_step s (reports sev source message now) = report s sev source message now
surface_step s (expires now) = (expire s now).0
surface_step s (dismisses id) = (dismiss s id).0
surface_step s (resolves source) = (resolve s source).0

abbrev pub run_surface : Surface → List SurfaceOp → Surface
run_surface s [] = s
run_surface s (op ∷ ops) = run_surface (surface_step s op) ops

surface_step-IsQueue : (s : Surface) (op : SurfaceOp) → IsQueue s → IsQueue (surface_step s op)
unfolding report expire dismiss resolve
surface_step-IsQueue s (offers sev source message act now) v =
    offer-IsQueue s sev source message act now v
surface_step-IsQueue s (reports sev source message now) v =
    offer-IsQueue s sev source message (action_of source) now v
surface_step-IsQueue s (expires now) v = part_IsQueue s _ (expire_loop-IsPart s.notices now) v
surface_step-IsQueue s (dismisses id) v =
    part_IsQueue s _ (remove-IsPart s.notices (λ n. n.id == id)) v
surface_step-IsQueue s (resolves source) v =
    part_IsQueue s _ (remove-IsPart s.notices (λ n. bytes_eq n.source source)) v

run_surface-IsQueue_from :
    (s : Surface) (ops : List SurfaceOp) → IsQueue s → IsQueue (run_surface s ops)
run_surface-IsQueue_from s [] v = v
run_surface-IsQueue_from s (op ∷ ops) v =
    run_surface-IsQueue_from (surface_step s op) ops (surface_step-IsQueue s op v)

new_surface-IsQueue : IsQueue new_surface
unfolding new_surface
new_surface-IsQueue = record {
  once = λ x. omega arith;
  apart = λ i. omega arith;
  old = λ i h. refl;
  timed = tt;
}

-- After any offers, reports, expiries, dismissals and resolutions of an empty queue there is at most one
-- notice for each source and for each id, no id that is still to be given is in use, and a notice
-- has no deadline exactly when its source is sticky.
pub run_surface-IsQueue : (ops : List SurfaceOp) → IsQueue (run_surface new_surface ops)
run_surface-IsQueue ops = run_surface-IsQueue_from new_surface ops new_surface-IsQueue

-- How many notices have no button.
abbrev pub plain : List Notice → ℕ
plain [] = 0
plain (n ∷ ns) = one_if (is_no_action n.action) + plain ns

-- What is shed is counted, and while there are still too many none without a button is left.
shed_counts :
    (ns : List Notice) (excess : ℕ)
    → (length (shed ns excess).0 + excess ≡ length ns + (shed ns excess).1)
      × (((shed ns excess).1 ≡ 0) ⊎ (plain (shed ns excess).0 ≡ 0))
unfolding shed
shed_counts [] excess = (refl, inr refl)
shed_counts (n ∷ ns) excess =
    one ((shed ns excess).1 == 0) (is_no_action n.action) refl refl (shed_counts ns excess)
  where
    one :
        (b c : Bool)
        → ((shed ns excess).1 == 0) ≡ b
        → is_no_action n.action ≡ c
        → (length (shed ns excess).0 + excess ≡ length ns + (shed ns excess).1)
          × (((shed ns excess).1 ≡ 0) ⊎ (plain (shed ns excess).0 ≡ 0))
        → let r : List Notice × ℕ =
            if not b && c
            then ((shed ns excess).0, (shed ns excess).1 - 1)
            else (n ∷ (shed ns excess).0, (shed ns excess).1) in
          (length r.0 + excess ≡ suc (length ns) + r.1) × ((r.1 ≡ 0) ⊎ (plain r.0 ≡ 0))
    one true c e f (h, g) = (omega (arith, h), inl (ground arith))
    one false true e f (h, inl g) = absurd (ground arith)
    one false true e f (h, inr g) = (ground (arith, h), inr g)
    one false false e f (h, inl g) = (omega (arith, h), inl g)
    one false false e f (h, inr g) = (omega (arith, h), inr (omega (arith, ap one_if f, g)))

-- A report from a source that has no notice leaves at most fifty, unless each that is left has a button.
pub offer-bounded :
    (s : Surface) (sev : Severity) (source message : Bytes) (act : Action) (now : ℕ)
    → take_source source s.notices ≡ none
    → let ns = (offer s sev source message act now).notices in
      (length ns ≤ max_notices) ⊎ (plain ns ≡ 0)
unfolding offer
offer-bounded s sev source message act now e =
    rw e (bounded (shed_counts ns (length ns - max_notices)))
  where
    ns : List Notice
    ns = new_notice s.next_id sev source message act (deadline_of source now) ∷ s.notices

    bounded :
        (length (shed ns (length ns - max_notices)).0 + (length ns - max_notices)
            ≡ length ns + (shed ns (length ns - max_notices)).1)
          × (((shed ns (length ns - max_notices)).1 ≡ 0)
              ⊎ (plain (shed ns (length ns - max_notices)).0 ≡ 0))
        → (length (shed ns (length ns - max_notices)).0 ≤ max_notices)
          ⊎ (plain (shed ns (length ns - max_notices)).0 ≡ 0)
    bounded (h, inl g) = inl (omega (arith, h, g))
    bounded (h, inr g) = inr g
