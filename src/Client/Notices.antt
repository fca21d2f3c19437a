-- ===== src/Client/Notices.antt =====
-- client/errsurface/errsurface.go: the queue of failure notices, newest first. A time is a count of
-- nanoseconds, and the zero time of a sticky notice's deadline is none.
pub mod Queue
use gridwell.Base.{
  ℕ, zero, suc, ◌+◌, ◌-◌, ◌≤◌, ◌==◌, Bool, true, false, not, ◌&&◌, ◌||◌, List, [], ◌∷◌, ◌++◌,
  Option, none, some, if◌then◌else◌, Bytes, bytes, bytes_eq, has_prefix, length, ltb,
}

pub data Severity : Type 0 where
  info error : Severity

pub data Action : Type 0 where
  no_action reload disable : Action

pub record Notice : Type 0 where
  pub id : ℕ
  pub source : Bytes
  pub message : Bytes
  severity : Severity
  count : ℕ
  pub action : Action
  pub deadline : Option ℕ

-- ExpireAfter, 10 seconds
abbrev expire_after : ℕ
expire_after = 10000000000

abbrev plugin_health_prefix : Bytes
plugin_health_prefix = bytes "plugin:"

abbrev live_updates_prefix : Bytes
live_updates_prefix = bytes "live:"

abbrev build_source : Bytes
build_source = bytes "build"

abbrev build_stuck_source : Bytes
build_stuck_source = bytes "build:stuck"

abbrev events_source : Bytes
events_source = bytes "events"

pub sticky : Bytes → Bool
sticky source =
    bytes_eq source (bytes "electron:backend")
    || bytes_eq source build_source
    || bytes_eq source build_stuck_source
    || bytes_eq source events_source
    || has_prefix plugin_health_prefix source
    || has_prefix live_updates_prefix source

pub action_of : Bytes → Action
action_of source = if bytes_eq source build_source then reload else no_action

-- a == NoAction
abbrev pub is_no_action : Action → Bool
is_no_action no_action = true
is_no_action _ = false

abbrev pub max_notices : ℕ
max_notices = 50

pub record Surface : Type 0 where
  pub notices : List Notice
  pub next_id : ℕ

-- New
unfoldable pub new_surface : Surface
new_surface = record { notices = []; next_id = 1 }

-- The notice of a source, and the others in their order.
abbrev pub found_behind : Notice → Option (Notice × List Notice) → Option (Notice × List Notice)
found_behind n none = none
found_behind n (some (m, rest)) = some (m, n ∷ rest)

unfoldable pub take_source : Bytes → List Notice → Option (Notice × List Notice)
take_source source [] = none
take_source source (n ∷ ns) =
    let later = found_behind n (take_source source ns) in
    if bytes_eq n.source source then some (n, ns) else later

-- The loop past a new notice: from the oldest, notices without a button go while there are more than
-- there may be; the number is how many are still too many.
pub shed : List Notice → ℕ → List Notice × ℕ
shed [] excess = ([], excess)
shed (n ∷ ns) excess =
    let (rest, left) = shed ns excess in
    if not (left == 0) && is_no_action n.action then (rest, left - 1) else (n ∷ rest, left)

abbrev pub deadline_of : Bytes → ℕ → Option ℕ
deadline_of source now = if sticky source then none else some (now + expire_after)

abbrev refreshed : Notice → Severity → Bytes → Action → Option ℕ → Notice
refreshed n sev message act deadline = record n {
  message = message;
  severity = sev;
  action = act;
  count = n.count + 1;
  deadline = deadline;
}

abbrev pub new_notice : ℕ → Severity → Bytes → Bytes → Action → Option ℕ → Notice
new_notice id sev source message act deadline = record {
  id = id;
  source = source;
  message = message;
  severity = sev;
  count = 1;
  action = act;
  deadline = deadline;
}

abbrev pub offer_found :
    Surface → Severity → Bytes → Bytes → Action → ℕ → Option (Notice × List Notice) → Surface
offer_found s sev source message act now (some (n, rest)) = record s {
  notices = refreshed n sev message act (deadline_of source now) ∷ rest;
}
offer_found s sev source message act now none =
    let ns = new_notice s.next_id sev source message act (deadline_of source now) ∷ s.notices in
    record { notices = (shed ns (length ns - max_notices)).0; next_id = s.next_id + 1 }

pub offer : Surface → Severity → Bytes → Bytes → Action → ℕ → Surface
offer s sev source message act now =
    offer_found s sev source message act now (take_source source s.notices)

pub report : Surface → Severity → Bytes → Bytes → ℕ → Surface
report s sev source message now = offer s sev source message (action_of source) now

-- deadline.IsZero() || deadline.After(now)
abbrev pub outlives : Option ℕ → ℕ → Bool
outlives none now = true
outlives (some d) now = ltb now d

-- Expire: the notices kept, and the sources of the others.
pub expire_loop : List Notice → ℕ → List Notice × List Bytes
expire_loop [] now = ([], [])
expire_loop (n ∷ ns) now =
    let (kept, gone) = expire_loop ns now in
    if outlives n.deadline now then (n ∷ kept, gone) else (kept, n.source ∷ gone)

pub expire : Surface → ℕ → Surface × List Bytes
expire s now = let (kept, gone) = expire_loop s.notices now in (record s { notices = kept }, gone)

-- The earlier of a deadline and the soonest so far.
abbrev sooner : Option ℕ → Option ℕ → Option ℕ
sooner soonest none = soonest
sooner none (some d) = some d
sooner (some e) (some d) = if ltb d e then some d else some e

-- NextDeadline as the time itself; its distance from now is the caller's arithmetic.
unfoldable next_deadline : List Notice → Option ℕ → Option ℕ
next_deadline [] soonest = soonest
next_deadline (n ∷ ns) soonest = next_deadline ns (sooner soonest n.deadline)

-- remove: the first notice that matches goes.
pub remove : List Notice → (Notice → Bool) → List Notice × Bool
remove [] match = ([], false)
remove (n ∷ ns) match =
    let (rest, hit) = remove ns match in if match n then (ns, true) else (n ∷ rest, hit)

pub dismiss : Surface → ℕ → Surface × Bool
dismiss s id =
    let (ns, hit) = remove s.notices (λ n. n.id == id) in (record s { notices = ns }, hit)

pub resolve : Surface → Bytes → Surface × Bool
resolve s source =
    let (ns, hit) = remove s.notices (λ n. bytes_eq n.source source) in
    (record s { notices = ns }, hit)
