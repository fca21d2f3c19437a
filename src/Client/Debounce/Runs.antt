-- ===== src/Client/Debounce/Runs.antt =====
-- client/debounce: the run that is pending, under a scheduler of any lateness.
use gridwell.Base.{
  ℕ, ◌+◌, ◌*◌, ◌-◌, ◌/◌, ◌≤◌, ◌<◌, ◌≡◌, refl, ap, sym, subst, ◌∙◌, Bool, true, false, ◌&&◌, List,
  [], ◌∷◌, leb, arith, length, length-append, one_if, Bool-cases, inl, inr, ◌⊎◌,
}
use gridwell.Client.Debounce.{Mode, fire, is_settle}
use gridwell.Client.Debounce.Windows.{
  World, WorldOp, fired, fire_first, run_world, new_world, run_world-IsPaced,
}

abbrev wait_for : List ℕ → ℕ → ℕ
wait_for [] now = 0
wait_for (t ∷ ts) now = t - now

-- The clock at the first deferred call, or past it, and the call made.
abbrev soon : ℕ → World → List ℕ → World
soon late w ts = fire_first (record w { now = w.now + (wait_for ts w.now + late) }) ts

-- The scheduler comes to what is deferred, however late, with no request meanwhile.
abbrev pub fire_soon : ℕ → World → World
fire_soon late w = soon late w w.timers

-- A world whose run is over, with one run more than n.
abbrev HasRun : ℕ → World → Type 0
HasRun n w = (w.d.pending ≡ false) × (w.timers ≡ []) × (length w.runs ≡ n + 1)

-- A world whose deferred call will run the body whenever it fires.
abbrev WillRun : ℕ → World → Type 0
WillRun n w = (t : ℕ) × (w.timers ≡ t ∷ []) × (w.d.due < t + 1000) × (length w.runs ≡ n)

fired-HasRun :
    (w : World)
    → (is_settle w.d.mode && leb 1000 (w.d.due - w.now)) ≡ false
    → HasRun (length w.runs) (fired w [] (fire w.d w.now))
unfolding fire
fired-HasRun w l =
    rw l
      (refl, refl, length-append w.runs (record { at = w.now; from = w.from; last = w.last } ∷ []))

not_late :
    (b : Bool) (due t now : ℕ) → due < t + 1000 → t ≤ now → (b && leb 1000 (due - now)) ≡ false
not_late true due t now h le = ground arith
not_late false due t now h le = refl

WillRun-fire_soon :
    (late : ℕ) (w : World) (t : ℕ)
    → w.d.due < t + 1000
    → HasRun (length w.runs) (soon late w (t ∷ []))
WillRun-fire_soon late w t b =
    let v = record w { now = w.now + (t - w.now + late) } in
    let le : leb t v.now ≡ true = ground arith in
    rw le (fired-HasRun v (not_late _ w.d.due t v.now b (omega arith)))

fire_soon-either :
    (late : ℕ) (w : World) (t : ℕ)
    → let e = soon late w (t ∷ []) in HasRun (length w.runs) e ⊎ WillRun (length w.runs) e
unfolding fire
fire_soon-either late w t =
    let v = record w { now = w.now + (t - w.now + late) } in
    let le : leb t v.now ≡ true = ground arith in
    rw le (elim (Bool-cases (is_settle w.d.mode && leb 1000 (w.d.due - v.now))) [
      | inl l ↦ inr (rw l (v.now + (w.d.due - v.now) / 1000 * 1000, refl, ground arith, refl))
      | inr l ↦ inl (fired-HasRun v l)
    ])

fire_again :
    (late n : ℕ) (w : World) (ts : List ℕ)
    → w.timers ≡ ts
    → HasRun n w ⊎ WillRun n w
    → HasRun n (soon late w ts)
fire_again late n w [] e (inl h) = h
fire_again late n w [] e (inr (t, f, b, m)) =
    absurd (omega (arith, ap (length {A = ℕ}) (sym e ∙ f)))
fire_again late n w (t ∷ ts) e (inl h) = absurd (omega (arith, ap (length {A = ℕ}) (sym e ∙ h.1)))
fire_again late n w (t ∷ ts) e (inr (u, f, b, m)) =
    subst (λ (xs : List ℕ). HasRun n (soon late w xs)) (sym f ∙ e)
      (subst (λ k. HasRun k (soon late w (u ∷ []))) m (WillRun-fire_soon late w u b))

fire_twice :
    (late1 late2 : ℕ) (w : World) (ts : List ℕ)
    → length ts ≡ 1
    → let v = soon late1 w ts in HasRun (length w.runs) (soon late2 v v.timers)
fire_twice late1 late2 w [] o = absurd (omega arith)
fire_twice late1 late2 w (t ∷ u ∷ ts) o = absurd (omega arith)
fire_twice late1 late2 w (t ∷ []) o =
    let v = soon late1 w (t ∷ []) in
    fire_again late2 (length w.runs) v v.timers refl (fire_soon-either late1 w t)

-- While a run is pending and no request comes, the body has run once more by the second time that the
-- scheduler fires, however late it does so, and then nothing is deferred.
pub fire_soon-runs :
    (ms late1 late2 : ℕ) (mode : Mode) (ops : List WorldOp)
    → (run_world ms (new_world mode) ops).d.pending ≡ true
    → let w = run_world ms (new_world mode) ops in
      let e = fire_soon late2 (fire_soon late1 w) in
      (e.d.pending ≡ false) × (e.timers ≡ []) × (length e.runs ≡ length w.runs + 1)
fire_soon-runs ms late1 late2 mode ops p =
    let w = run_world ms (new_world mode) ops in
    fire_twice late1 late2 w w.timers ((run_world-IsPaced ms mode ops).one_timer ∙ ap one_if p)
