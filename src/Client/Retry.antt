-- ===== src/Client/Retry.antt =====
-- client/retry: the handshake's backoff, and the event stream kept open over failures. A duration is a
-- whole number of nanoseconds kept in 64 bits, which from 2^63 on stands for a negative one.
pub mod Pace
use gridwell.Base.{
  ℕ, ◌+◌, ◌*◌, ◌%◌, Bool, true, false, ◌||◌, List, [], ◌∷◌, ◌++◌, if◌then◌else◌, ltb, leb, ◌==◌,
}

abbrev pub second : ℕ
second = 1000000000

abbrev pub subscribe_retry : ℕ
subscribe_retry = second

abbrev pub stream_end_pause : ℕ
stream_end_pause = 500000000

abbrev pub handshake_first : ℕ
handshake_first = second

abbrev pub handshake_max : ℕ
handshake_max = 15 * second

-- d < 0 of an int64.
abbrev pub is_negative : ℕ → Bool
is_negative d = leb 9223372036854775808 d

-- c > m of two int64.
abbrev is_longer : ℕ → ℕ → Bool
is_longer c m =
    if is_negative c
    then (if is_negative m then ltb m c else false)
    else (if is_negative m then true else ltb m c)

pub record Backoff : Type 0 where
  pub first : ℕ
  pub max : ℕ
  pub cur : ℕ

-- Next
pub next_wait : Backoff → Backoff × ℕ
next_wait b =
    let started = if (b.cur == 0) || is_negative b.cur then b.first else b.cur in
    let d = if is_longer started b.max then b.max else started in
    (record b { cur = (d * 2) % 18446744073709551616 }, d)

pub record Reconnect : Type 0 where
  pub gap : Bool

abbrev subscribe_failed : Reconnect → Reconnect × ℕ
subscribe_failed r = (record { gap = true }, subscribe_retry)

abbrev subscribed : Reconnect → Reconnect × Bool
subscribed r = (record { gap = false }, r.gap)

abbrev stream_ended : Reconnect → Reconnect × ℕ
stream_ended r = (record { gap = true }, stream_end_pause)

-- What an open stream does in the end: a clean end, or an error of Recv.
pub data StreamEnd {ℓ} (Err : Type ℓ) : Type ℓ where
  clean : StreamEnd Err
  broke : Err → StreamEnd Err

-- What one Subscribe gives while the context stands: an error, or a stream with the events of its Recvs.
pub data Attempt {ℓ κ} (Ev : Type ℓ) (Err : Type κ) : Type (ℓ ⊔ κ) where
  refused : Attempt Ev Err
  streamed : List Ev → StreamEnd Err → Attempt Ev Err

-- What Run calls.
pub data Call {ℓ κ} (Ev : Type ℓ) (Err : Type κ) : Type (ℓ ⊔ κ) where
  broken : Call Ev Err
  opens : Bool → Call Ev Err
  event : Ev → Call Ev Err
  ended : StreamEnd Err → Call Ev Err
  closes : Call Ev Err
  sleeps : ℕ → Call Ev Err

module _ {ℓ κ} {Ev : Type ℓ} {Err : Type κ} where
  -- The inner loop: each event is handed on, and the end is told.
  abbrev pub follow : List Ev → StreamEnd Err → List (Call Ev Err)
  follow [] clean = ended clean ∷ []
  follow [] (broke err) = ended (broke err) ∷ broken ∷ []
  follow (ev ∷ evs) end = event ev ∷ follow evs end

  -- One round of Run.
  abbrev pub attempt : Reconnect → Attempt Ev Err → Reconnect × List (Call Ev Err)
  attempt pace refused = let (pace', d) = subscribe_failed pace in (pace', broken ∷ sleeps d ∷ [])
  attempt pace (streamed evs end) =
      let (pace', kick) = subscribed pace in
      let (pace'', d) = stream_ended pace' in
      (pace'', (opens kick ∷ follow evs end) ++ closes ∷ sleeps d ∷ [])

  pub run_rounds : Reconnect → List (Attempt Ev Err) → List (Call Ev Err)
  run_rounds pace [] = []
  run_rounds pace (a ∷ rest) = let (pace', calls) = attempt pace a in calls ++ run_rounds pace' rest

  -- Run, with what each Subscribe gives until the context ends.
  pub run_events : List (Attempt Ev Err) → List (Call Ev Err)
  run_events script = run_rounds (record { gap = false }) script
