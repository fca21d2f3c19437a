-- ===== src/Client/Debounce/Windows.antt =====
-- client/debounce: when a debounce runs, under a scheduler that fires a run no earlier than asked.
use gridwell.Base.{
  ℕ, ◌+◌, ◌*◌, ◌-◌, ◌≤◌, ◌<◌, ◌≡◌, refl, ap, sym, ◌∙◌, Bool, true, false, ◌&&◌, List, [], ◌∷◌, ◌++◌,
  Option, none, some, if◌then◌else◌, leb, ◌==◌, arith, length, All, All-append, All-mono, one_if,
  Bool-cases, inl, inr, &&_right,
}
use gridwell.Client.Debounce.{
  Mode, throttle, settle, Debounce, new_debounce, arm, arm_on_change, Fired, deferred, ran, fire,
  is_settle,
}

-- A run, with the first and the last request that it answers.
pub record Ran : Type 0 where
  pub at : ℕ
  pub from : ℕ
  pub last : ℕ

pub record World : Type 0 where
  pub d : Debounce
  pub now : ℕ
  pub timers : List ℕ
  pub from : ℕ
  pub last : ℕ
  pub runs : List Ran

pub data WorldOp : Type 0 where
  passes : ℕ → WorldOp
  arms : WorldOp
  arms_on_change : ℕ → WorldOp
  fires : WorldOp

-- Schedule for a request: it begins a burst.
abbrev requested : World → Debounce × Option ℕ → World
requested w (d, none) = record w { d = d; last = w.now }
requested w (d, some ms) = record w {
  d = d;
  timers = w.timers ++ (w.now + ms * 1000) ∷ [];
  from = w.now;
  last = w.now;
}

abbrev changed : World → ℕ → ℕ → World
changed w ms sig =
    if w.d.has_sig && w.d.sig == sig then w else requested w (arm_on_change w.d w.now ms sig)

abbrev pub fired : World → List ℕ → Debounce × Fired → World
fired w rest (d, deferred ms) = record w { d = d; timers = rest ++ (w.now + ms * 1000) ∷ [] }
fired w rest (d, ran) = record w {
  d = d;
  timers = rest;
  runs = w.runs ++ record { at = w.now; from = w.from; last = w.last } ∷ [];
}

-- The first deferred call, once its time has come.
abbrev pub fire_first : World → List ℕ → World
fire_first w [] = w
fire_first w (t ∷ rest) = if leb t w.now then fired w rest (fire w.d w.now) else w

abbrev world_step : ℕ → World → WorldOp → World
world_step ms w (passes t) = record w { now = w.now + t }
world_step ms w arms = requested w (arm w.d w.now ms)
world_step ms w (arms_on_change sig) = changed w ms sig
world_step ms w fires = fire_first w w.timers

abbrev pub run_world : ℕ → World → List WorldOp → World
run_world ms w [] = w
run_world ms w (op ∷ ops) = run_world ms (world_step ms w op) ops

abbrev pub new_world : Mode → World
new_world mode = record {
  d = new_debounce mode;
  now = 0;
  timers = [];
  from = 0;
  last = 0;
  runs = [];
}

-- A settle runs a window after the last request, less what is under a millisecond; a throttle a window
-- after the first.
abbrev IsTimely : ℕ → Mode → Ran → Type 0
IsTimely ms settle r = r.last + ms * 1000 < r.at + 1000
IsTimely ms throttle r = r.from + ms * 1000 ≤ r.at

abbrev InWindow : ℕ → ℕ → ℕ → ℕ → ℕ → Type 0
InWindow ms due from last t = (due ≡ last + ms * 1000) × (t ≤ due) × (from + ms * 1000 ≤ t)

-- One deferred call while a run is pending and none else, each early enough for its window.
pub record IsPaced (ms : ℕ) (mode : Mode) (w : World) : Type 0 where
  moded : w.d.mode ≡ mode
  pub one_timer : length w.timers ≡ one_if w.d.pending
  in_window : All (InWindow ms w.d.due w.from w.last) w.timers
  pub past : w.last ≤ w.now
  timely : All (IsTimely ms mode) w.runs

no_timers : (ts : List ℕ) → length ts ≡ 0 → ts ≡ []
no_timers [] z = refl
no_timers (t ∷ ts) z = absurd (omega arith)

module _ (ms : ℕ) (mode : Mode) where
  arm-IsPaced :
      (w : World) (d : Debounce) (pending : Bool)
      → d.pending ≡ pending
      → d.pending ≡ w.d.pending
      → d.mode ≡ mode
      → IsPaced ms mode w
      → IsPaced ms mode (requested w (arm d w.now ms))
  unfolding arm
  arm-IsPaced w d true p q m h = rw p (record {
    moded = m;
    one_timer = h.one_timer ∙ ap one_if (sym q ∙ p);
    in_window = All-mono _ _ (λ t x. (refl, omega (arith, x, h.past), x.2)) w.timers h.in_window;
    past = omega arith;
    timely = h.timely;
  })
  arm-IsPaced w d false p q m h =
      let e = no_timers w.timers (h.one_timer ∙ ap one_if (sym q ∙ p)) in
      rw p (
        rw e (record {
          moded = m;
          one_timer = refl;
          in_window = ((refl, omega arith, omega arith), tt);
          past = omega arith;
          timely = h.timely;
        }))

  changed-IsPaced : (w : World) (sig : ℕ) → IsPaced ms mode w → IsPaced ms mode (changed w ms sig)
  unfolding arm_on_change
  changed-IsPaced w sig h = elim (Bool-cases (w.d.has_sig && w.d.sig == sig)) [
    | inl e ↦ rw e h
    | inr e ↦
        rw e
          (arm-IsPaced w (record w.d { sig = sig; has_sig = true }) w.d.pending refl refl h.moded h)
  ]

  one_if_bound : (b : Bool) → ¬ (2 ≤ one_if b)
  one_if_bound true h = omega arith
  one_if_bound false h = omega arith

  ran-IsTimely :
      (w : World) (t : ℕ) (m : Mode)
      → InWindow ms w.d.due w.from w.last t
      → t ≤ w.now
      → (is_settle m && leb 1000 (w.d.due - w.now)) ≡ false
      → IsTimely ms m (record { at = w.now; from = w.from; last = w.last })
  ran-IsTimely w t throttle x le l = omega (arith, x, le)
  ran-IsTimely w t settle x le l = ground arith

  -- A settle that defers stays within its window, and what runs is timely.
  fired-IsPaced :
      (w : World) (t : ℕ) (rest : List ℕ) (late : Bool)
      → w.timers ≡ t ∷ rest
      → t ≤ w.now
      → (is_settle w.d.mode && leb 1000 (w.d.due - w.now)) ≡ late
      → IsPaced ms mode w
      → IsPaced ms mode (fired w rest (fire w.d w.now))
  unfolding fire
  fired-IsPaced w t [] true e le l h =
      let x : InWindow ms w.d.due w.from w.last t = (rw e at h.in_window).0 in
      rw l (record {
        moded = h.moded;
        one_timer = sym (ap length e) ∙ h.one_timer;
        in_window = (
          (
            x.0,
            ground (arith, &&_right (is_settle w.d.mode) (leb 1000 (w.d.due - w.now)) l),
            omega (arith, x, le),
          ),
          tt,
        );
        past = h.past;
        timely = h.timely;
      })
  fired-IsPaced w t [] false e le l h =
      let x : InWindow ms w.d.due w.from w.last t = (rw e at h.in_window).0 in
      let late = λ (m : Mode). is_settle m && leb 1000 (w.d.due - w.now) in
      let this : Ran = record { at = w.now; from = w.from; last = w.last } in
      let ok : IsTimely ms mode this = ran-IsTimely w t mode x le (ap late (sym h.moded) ∙ l) in
      rw l (record {
        moded = h.moded;
        one_timer = refl;
        in_window = tt;
        past = h.past;
        timely = All-append (IsTimely ms mode) w.runs (this ∷ []) h.timely (ok, tt);
      })
  fired-IsPaced w t (u ∷ rest) late e le l h =
      absurd (one_if_bound w.d.pending (omega (arith, ap length e, h.one_timer)))

  first-IsPaced :
      (w : World) (ts : List ℕ)
      → w.timers ≡ ts
      → IsPaced ms mode w
      → IsPaced ms mode (fire_first w ts)
  first-IsPaced w [] e h = h
  first-IsPaced w (t ∷ rest) e h = elim (Bool-cases (leb t w.now)) [
    | inl le ↦ rw le (fired-IsPaced w t rest _ e (ground arith) refl h)
    | inr le ↦ rw le h
  ]

  step-IsPaced :
      (w : World) (op : WorldOp) → IsPaced ms mode w → IsPaced ms mode (world_step ms w op)
  step-IsPaced w (passes t) h = record {
    moded = h.moded;
    one_timer = h.one_timer;
    in_window = h.in_window;
    past = omega (arith, h.past);
    timely = h.timely;
  }
  step-IsPaced w arms h = arm-IsPaced w w.d w.d.pending refl refl h.moded h
  step-IsPaced w (arms_on_change sig) h = changed-IsPaced w sig h
  step-IsPaced w fires h = first-IsPaced w w.timers refl h

  steps-IsPaced :
      (w : World) (ops : List WorldOp) → IsPaced ms mode w → IsPaced ms mode (run_world ms w ops)
  steps-IsPaced w [] h = h
  steps-IsPaced w (op ∷ ops) h = steps-IsPaced (world_step ms w op) ops (step-IsPaced w op h)

-- After any requests with one window, passing of time and firing of what is due, one call is deferred
-- while a run is pending and none else, and each run came no earlier than it may: a settle's a window,
-- less what is under a millisecond, after the last request before it, a throttle's a window after the
-- first of its burst.
pub run_world-IsPaced :
    (ms : ℕ) (mode : Mode) (ops : List WorldOp)
    → IsPaced ms mode (run_world ms (new_world mode) ops)
run_world-IsPaced ms mode ops =
    steps-IsPaced ms mode (new_world mode) ops
      (record { moded = refl; one_timer = refl; in_window = tt; past = omega arith; timely = tt })
