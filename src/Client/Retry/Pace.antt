-- ===== src/Client/Retry/Pace.antt =====
-- client/retry: the waits of the backoff in closed form, and the streams that Run opens.
use gridwell.Base.{
  ℕ, zero, suc, ◌+◌, map, ◌*◌, ◌^◌, ◌≤◌, ◌<◌, ◌≡◌, refl, ap, ◌∙◌, Bool, true, false, ◌||◌, List, [],
  ◌∷◌, ◌++◌, if◌then◌else◌, ltb, ◌==◌, arith,
}
use native.Mathlib.Numerals.{unary_clauses}
use gridwell.Client.Retry.{
  Backoff, next_wait, is_negative, Attempt, refused, streamed, Call, broken, opens, closes, sleeps,
  event, ended, StreamEnd, clean, broke, subscribe_retry, stream_end_pause,
}

-- The wait of the n-th attempt.
abbrev pub nth_wait : Backoff → ℕ → ℕ
nth_wait b zero = (next_wait b).1
nth_wait b (suc n) = nth_wait (next_wait b).0 n

abbrev pub at_most : ℕ → ℕ → ℕ
at_most m d = if ltb m d then m else d

abbrev pub fresh_backoff : ℕ → ℕ → Backoff
fresh_backoff first max = record { first = first; max = max; cur = 0 }

next_wait_running :
    (first max cur : ℕ)
    → 0 < cur
    → cur < 9223372036854775808
    → max < 4611686018427387904
    → next_wait (record { first = first; max = max; cur = cur })
      ≡ (record { first = first; max = max; cur = at_most max cur * 2 }, at_most max cur)
unfolding next_wait
next_wait_running first max cur p c m = ground arith

power_pos : (n : ℕ) → 1 ≤ 2 ^ n
power_pos zero = omega arith
power_pos (suc n) = omega (arith, power_pos n)

le_times : (a k : ℕ) → 1 ≤ k → a ≤ a * k
le_times a zero h = absurd (omega arith)
le_times a (suc k) h = simp unary_clauses (omega arith)

times_assoc : (a g : ℕ) → a * 2 * g ≡ a * (2 * g)
times_assoc a g = omega arith

at_most-doubled :
    (max c g : ℕ) → 1 ≤ g → at_most max (at_most max c * 2 * g) ≡ at_most max (c * (2 * g))
at_most-doubled max c g h =
    ground (arith, le_times max (2 * g), le_times c (2 * g), times_assoc max g, times_assoc c g)

nth_wait-running :
    (first max cur n : ℕ)
    → 0 < cur
    → cur < 9223372036854775808
    → 0 < max
    → max < 4611686018427387904
    → nth_wait (record { first = first; max = max; cur = cur }) n ≡ at_most max (cur * 2 ^ n)
nth_wait-running first max cur zero p c q m =
    ap (λ r. r.1) (next_wait_running first max cur p c m) ∙ ap (at_most max) (omega arith)
nth_wait-running first max cur (suc n) p c q m =
    ap (λ (r : Backoff × ℕ). nth_wait r.0 n) (next_wait_running first max cur p c m)
    ∙ nth_wait-running first max (at_most max cur * 2) n (ground arith) (ground arith) q m
    ∙ at_most-doubled max cur (2 ^ n) (power_pos n)
    ∙ ap (λ k. at_most max (cur * k)) (omega arith)

same_either_way : (b : Bool) (d : ℕ) → (if b then d else d) ≡ d
same_either_way true d = refl
same_either_way false d = refl

fresh-next_wait :
    (first max : ℕ)
    → next_wait (fresh_backoff first max)
      ≡ next_wait (record { first = first; max = max; cur = first })
unfolding next_wait
fresh-next_wait first max = rw (same_either_way ((first == 0) || is_negative first) first) refl

-- A backoff from first, not past max, waits first doubled for each attempt before it, and max once that
-- is past it, when first is positive and the two are short of 2^62 nanoseconds.
pub nth_wait-doubled :
    (first max n : ℕ)
    → 0 < first
    → first < 4611686018427387904
    → 0 < max
    → max < 4611686018427387904
    → nth_wait (fresh_backoff first max) n ≡ at_most max (first * 2 ^ n)
nth_wait-doubled first max zero p c q m =
    ap (λ (r : Backoff × ℕ). r.1) (fresh-next_wait first max)
    ∙ nth_wait-running first max first zero p (omega arith) q m
nth_wait-doubled first max (suc n) p c q m =
    ap (λ (r : Backoff × ℕ). nth_wait r.0 n) (fresh-next_wait first max)
    ∙ nth_wait-running first max first (suc n) p (omega arith) q m

-- What a listener has been told, read off the calls alone: that a stream is open, that it broke, that it
-- is over, and that an attempt is over and its pause is to come.
pub data Told : Type 0 where
  shut open_told broke_told over_told resting bad : Told

module _ {ℓ κ} {Ev : Type ℓ} {Err : Type κ} where
  abbrev tell : Told → Call Ev Err → Told
  tell shut broken = resting
  tell shut (opens kick) = open_told
  tell open_told (event ev) = open_told
  tell open_told (ended clean) = over_told
  tell open_told (ended (broke err)) = broke_told
  tell broke_told broken = over_told
  tell over_told closes = resting
  tell resting (sleeps d) = shut
  tell _ _ = bad

  abbrev tell_all : Told → List (Call Ev Err) → Told
  tell_all s [] = s
  tell_all s (c ∷ cs) = tell_all (tell s c) cs

  -- The parts of a run of calls that are of one kind.
  abbrev events_of : List (Call Ev Err) → List Ev
  events_of [] = []
  events_of (event ev ∷ cs) = ev ∷ events_of cs
  events_of (_ ∷ cs) = events_of cs

  abbrev resyncs_of : List (Call Ev Err) → List Bool
  resyncs_of [] = []
  resyncs_of (opens kick ∷ cs) = kick ∷ resyncs_of cs
  resyncs_of (_ ∷ cs) = resyncs_of cs

  abbrev ends_of : List (Call Ev Err) → List (StreamEnd Err)
  ends_of [] = []
  ends_of (ended end ∷ cs) = end ∷ ends_of cs
  ends_of (_ ∷ cs) = ends_of cs

  abbrev pauses_of : List (Call Ev Err) → List ℕ
  pauses_of [] = []
  pauses_of (sleeps d ∷ cs) = d ∷ pauses_of cs
  pauses_of (_ ∷ cs) = pauses_of cs

  abbrev breaks_of : List (Call Ev Err) → ℕ
  breaks_of [] = 0
  breaks_of (broken ∷ cs) = suc (breaks_of cs)
  breaks_of (_ ∷ cs) = breaks_of cs

  -- The same of what the subscribes gave.
  abbrev events_given : List (Attempt Ev Err) → List Ev
  events_given [] = []
  events_given (refused ∷ rest) = events_given rest
  events_given (streamed evs end ∷ rest) = evs ++ events_given rest

  abbrev ends_given : List (Attempt Ev Err) → List (StreamEnd Err)
  ends_given [] = []
  ends_given (refused ∷ rest) = ends_given rest
  ends_given (streamed evs end ∷ rest) = end ∷ ends_given rest

  abbrev streams_given : List (Attempt Ev Err) → List Bool
  streams_given [] = []
  streams_given (refused ∷ rest) = streams_given rest
  streams_given (streamed evs end ∷ rest) = true ∷ streams_given rest

  -- Every stream owes a resync but one that is the first attempt of all.
  abbrev pub resyncs_given : List (Attempt Ev Err) → List Bool
  resyncs_given (streamed evs end ∷ rest) = false ∷ streams_given rest
  resyncs_given script = streams_given script

  abbrev pause_for : Attempt Ev Err → ℕ
  pause_for refused = subscribe_retry
  pause_for (streamed evs end) = stream_end_pause

  abbrev is_break : Attempt Ev Err → ℕ
  is_break refused = 1
  is_break (streamed evs clean) = 0
  is_break (streamed evs (broke err)) = 1

  abbrev breaks_given : List (Attempt Ev Err) → ℕ
  breaks_given [] = 0
  breaks_given (a ∷ rest) = is_break a + breaks_given rest

  -- What the calls of Run say of what the subscribes gave.
  pub record Tells (owed : List Bool) (script : List (Attempt Ev Err)) (calls : List (Call Ev Err))
      : Type (ℓ ⊔ κ) where
    orderly : tell_all shut calls ≡ shut
    pub events : events_of calls ≡ events_given script
    pub ends : ends_of calls ≡ ends_given script
    resyncs : resyncs_of calls ≡ owed
    pauses : pauses_of calls ≡ map pause_for script
    pub breaks : breaks_of calls ≡ breaks_given script
