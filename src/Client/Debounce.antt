-- ===== src/Client/Debounce.antt =====
-- client/debounce: requests gathered into one deferred run, and client/cadence's waits. A time is a whole
-- number of microseconds, for the clock's float64 of milliseconds; what Schedule has deferred is a list
-- of the times from which it may fire.
pub mod Windows
pub mod Runs
use gridwell.Base.{
  ℕ, ◌+◌, ◌*◌, ◌-◌, ◌/◌, Bool, true, false, ◌&&◌, List, [], ◌∷◌, ◌++◌, Option, none, some,
  if◌then◌else◌, leb, ◌==◌,
}

pub data Mode : Type 0 where
  throttle settle : Mode

-- The body is what a run does; a run is recorded by who calls fire.
pub record Debounce : Type 0 where
  pub mode : Mode
  pub pending : Bool
  pub due : ℕ
  pub sig : ℕ
  pub has_sig : Bool

abbrev pub new_debounce : Mode → Debounce
new_debounce mode = record { mode = mode; pending = false; due = 0; sig = 0; has_sig = false }

-- The milliseconds that Schedule is called with, if it is: Arm answers whether it is.
unfoldable pub arm : Debounce → ℕ → ℕ → Debounce × Option ℕ
arm d now ms =
    let d' = record d { due = now + ms * 1000 } in
    if d.pending then (d', none) else (record d' { pending = true }, some ms)

unfoldable pub arm_on_change : Debounce → ℕ → ℕ → ℕ → Debounce × Option ℕ
arm_on_change d now ms sig =
    if d.has_sig && d.sig == sig
    then (d, none)
    else arm (record d { sig = sig; has_sig = true }) now ms

pub data Fired : Type 0 where
  deferred : ℕ → Fired
  ran : Fired

abbrev pub is_settle : Mode → Bool
is_settle throttle = false
is_settle settle = true

unfoldable pub fire : Debounce → ℕ → Debounce × Fired
fire d now =
    let rest = d.due - now in
    if is_settle d.mode && leb 1000 rest
    then (d, deferred (rest / 1000))
    else (record d { pending = false }, ran)

abbrev pub url_update_ms : ℕ
url_update_ms = 150

abbrev pub framing_save_ms : ℕ
framing_save_ms = 600
