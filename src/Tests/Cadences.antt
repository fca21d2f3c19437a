-- ===== src/Tests/Cadences.antt =====
-- The client's waits of client/retry and client/debounce on concrete runs.
use gridwell.Base.{ℕ, ◌+◌, ◌*◌, ◌^◌, ◌<◌, ◌≡◌, refl, false, List, [], ◌∷◌, arith, length}
use gridwell.Client.Retry.{handshake_first, handshake_max, Attempt, refused, streamed, clean, broke}
use gridwell.Client.Retry.Pace.{nth_wait, fresh_backoff, at_most, nth_wait-doubled}
use gridwell.Client.Debounce.{
  settle, throttle, arm, arm_on_change, fire, framing_save_ms, url_update_ms,
}
use gridwell.Client.Debounce.Windows.{
  WorldOp, passes, arms, arms_on_change, fires, run_world, new_world, IsPaced, run_world-IsPaced,
}
use gridwell.Client.Debounce.Runs.{fire_soon, fire_soon-runs}

nth_wait-doubled_example :
    nth_wait (fresh_backoff handshake_first handshake_max) 5
    ≡ at_most handshake_max (handshake_first * 2 ^ 5)
nth_wait-doubled_example =
    nth_wait-doubled handshake_first handshake_max 5 (omega arith) (omega arith) (omega arith)
      (omega arith)

abbrev a_bad_day : List (Attempt ℕ ℕ)
a_bad_day = streamed (1 ∷ 2 ∷ []) (broke 9) ∷ refused ∷ streamed (3 ∷ []) clean ∷ []

-- A pan: two requests half a window apart, then rest.
abbrev a_pan : List WorldOp
a_pan = arms ∷ passes 300000 ∷ arms_on_change 5 ∷ passes 350000 ∷ fires ∷ arms_on_change 5 ∷ []

run_world-IsPaced_example :
    IsPaced framing_save_ms settle (run_world framing_save_ms (new_world settle) a_pan)
run_world-IsPaced_example = run_world-IsPaced framing_save_ms settle a_pan

fire_soon-runs_example :
    let w = run_world framing_save_ms (new_world settle) a_pan in
    let e = fire_soon 0 (fire_soon 40 w) in
    (e.d.pending ≡ false) × (e.timers ≡ []) × (length e.runs ≡ length w.runs + 1)
unfolding arm arm_on_change fire
fire_soon-runs_example = fire_soon-runs framing_save_ms 40 0 settle a_pan refl

-- A throttle under the same requests has run by then.
throttled : length (run_world framing_save_ms (new_world throttle) a_pan).runs ≡ 1
unfolding arm arm_on_change fire
throttled = refl

-- The url has settled before a pan's framing is written.
framing_after_url : url_update_ms < framing_save_ms
framing_after_url = omega arith
