-- ===== src/Client/Sync.antt =====
-- client/clientsync/clientsync.go: what an RPC's result meant, and what to do about it.
pub mod Verdicts
use gridwell.Base.{
  ℕ, Bool, true, false, not, ◌&&◌, ◌||◌, Option, none, some, if◌then◌else◌, Bytes, bytes_eq,
}
use gridwell.Client.Inflight.Reads.{Verdict, answered, refused, unreachable, dead, abandoned}

pub data Outcome : Type 0 where
  ok conflict rejected transport dead_link abandoned_call disabled : Outcome

-- connect.Code
pub data Code : Type 0 where
  canceled unknown invalid_argument deadline_exceeded : Code
  not_found already_exists permission_denied resource_exhausted : Code
  failed_precondition aborted out_of_range unimplemented : Code
  internal unavailable data_loss unauthenticated : Code

-- A *connect.Error as Of reads it: its code, and what gwerr reads from its details.
pub record ConnectError : Type 0 where
  pub code : Code
  pub other_build : Bool
  pub source_disabled : Bool
  pub dead : Bool

-- An error that is not nil: what errors.Is and errors.As find in it.
pub record CallError : Type 0 where
  pub is_canceled : Bool
  pub is_deadline : Bool
  pub connect : Option ConnectError

-- The switch over the code, and past it.
abbrev pub outcome_of_code : Code → Bool → Outcome
outcome_of_code failed_precondition is_dead = conflict
outcome_of_code unavailable is_dead = transport
outcome_of_code deadline_exceeded is_dead = transport
outcome_of_code canceled is_dead = transport
outcome_of_code _ is_dead = if is_dead then dead_link else rejected

abbrev pub outcome_of_connect : Option ConnectError → Outcome
outcome_of_connect none = transport
outcome_of_connect (some e) =
    if e.other_build
    then transport
    else (if e.source_disabled then disabled else outcome_of_code e.code e.dead)

-- Of
pub outcome_of : Option CallError → Outcome
outcome_of none = ok
outcome_of (some e) =
    if e.is_canceled
    then abandoned_call
    else (if e.is_deadline then transport else outcome_of_connect e.connect)

pub unheard : Outcome → Bool
unheard transport = true
unheard abandoned_call = true
unheard _ = false

read_surfaces : Outcome → Bool
read_surfaces ok = false
read_surfaces dead_link = false
read_surfaces abandoned_call = false
read_surfaces _ = true

unfoldable place_read_surfaces : Verdict → Bool
place_read_surfaces refused = true
place_read_surfaces dead = true
place_read_surfaces _ = false

unfoldable target_read_surfaces : Verdict → Bool
target_read_surfaces refused = true
target_read_surfaces _ = false

pub record Reaction : Type 0 where
  pub refetch : Bool
  pub log : Bool
  drop_local : Bool
  pub retry : Bool

abbrev no_reaction : Reaction
no_reaction = record { refetch = false; log = false; drop_local = false; retry = false }

react : Outcome → Reaction
react conflict = record no_reaction { refetch = true }
react rejected = record no_reaction { log = true }
react dead_link = record no_reaction { log = true }
react transport = record no_reaction { log = true }
react abandoned_call = record no_reaction { log = true }
react disabled = record no_reaction { log = true }
react ok = no_reaction

react_optimistic : Outcome → Reaction
react_optimistic disabled = record no_reaction { drop_local = true }
react_optimistic conflict = record no_reaction { refetch = true; drop_local = true }
react_optimistic rejected = record no_reaction { refetch = true; log = true; drop_local = true }
react_optimistic dead_link = record no_reaction { refetch = true; log = true; drop_local = true }
react_optimistic transport = record no_reaction { log = true; retry = true }
react_optimistic abandoned_call = record no_reaction { log = true; retry = true }
react_optimistic ok = no_reaction

react_save : Outcome → Reaction
react_save conflict = record no_reaction { refetch = true; log = true; drop_local = true }
react_save rejected = record no_reaction { refetch = true; log = true; drop_local = true }
react_save dead_link = record no_reaction { refetch = true; log = true; drop_local = true }
react_save disabled = record no_reaction { refetch = true; log = true; drop_local = true }
react_save transport = record no_reaction { log = true; retry = true }
react_save abandoned_call = record no_reaction { log = true; retry = true }
react_save ok = no_reaction

pub data OwnNotice : Type 0 where
  own_none own_retry own_failed : OwnNotice

pub record Notices : Type 0 where
  pub generic : Bool
  pub own : OwnNotice
  pub reloaded : Bool

abbrev pub is_conflict : Outcome → Bool
is_conflict conflict = true
is_conflict _ = false

-- The switch of NoticesFor, for a write that has words of its own.
abbrev own_words_notices : Reaction → Outcome → Notices → Notices
own_words_notices r ok n = n
own_words_notices r transport n = record n { generic = false; own = own_retry }
own_words_notices r abandoned_call n = record n { generic = false; own = own_retry }
own_words_notices r disabled n = if r.log then record n { own = own_failed } else n
own_words_notices r _ n = record n { own = own_failed }

pub notices_for : Reaction → Outcome → Bool → Notices
notices_for r o own_words =
    let n : Notices = record {
      generic = r.log;
      own = own_none;
      reloaded = r.refetch && is_conflict o;
    } in
    if own_words then own_words_notices r o n else n

pub react_read : Outcome → Verdict
react_read ok = answered
react_read transport = unreachable
react_read dead_link = dead
react_read abandoned_call = abandoned
react_read _ = refused

pub record GridRead : Type 0 where
  pub latch : Verdict
  pub store : Bool
  pub renamed : Bool
  pub surface : Bool
  pub resolve : Bool

abbrev pub is_ok : Outcome → Bool
is_ok ok = true
is_ok _ = false

abbrev pub is_dead_link : Outcome → Bool
is_dead_link dead_link = true
is_dead_link _ = false

abbrev pub is_abandoned : Outcome → Bool
is_abandoned abandoned_call = true
is_abandoned _ = false

pub react_grid_read : Bytes → Bytes → Outcome → GridRead
unfolding react_read read_surfaces
react_grid_read asked answered_id o =
    let renamed = is_ok o && not (bytes_eq answered_id asked) in
    record {
      latch = if renamed then refused else react_read o;
      store = is_ok o;
      renamed = renamed;
      surface = read_surfaces o;
      resolve = not (read_surfaces o) && not renamed && not (is_abandoned o);
    }

pub record PreviewReaction : Type 0 where
  pub store : Bool
  pub settle : Bool
  pub surface : Bool
  pub latch : Verdict

abbrev is_unimplemented : Option ConnectError → Bool
is_unimplemented none = false
is_unimplemented (some e) = elim e.code [ unimplemented ↦ true | _ ↦ false ]

abbrev preview_settled : PreviewReaction
preview_settled = record { store = false; settle = true; surface = false; latch = answered }

unfoldable react_preview : Option CallError → Bool → PreviewReaction
unfolding outcome_of react_read read_surfaces
react_preview none empty =
    if empty
    then preview_settled
    else record { store = true; settle = false; surface = false; latch = answered }
react_preview (some e) empty =
    if is_unimplemented e.connect
    then preview_settled
    else (let o = outcome_of (some e) in
        record { store = false; settle = false; surface = read_surfaces o; latch = react_read o })
