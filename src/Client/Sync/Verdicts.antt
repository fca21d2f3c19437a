-- ===== src/Client/Sync/Verdicts.antt =====
-- client/clientsync/clientsync.go: who is heard, and what a failed read stops.
use gridwell.Base.{
  ◌≡◌, refl, ap, ◌∙◌, Bool, true, false, not, ◌&&◌, ◌||◌, Option, none, some, Bytes, bytes_eq,
  if◌then◌else◌, arith, not-eq_false, sym, ◌↔◌, bytes_eq_refl, bytes_eq→eq,
}
use gridwell.Client.Inflight.Claims.{Joined, join}
use mathlib.Core.Bool.{false≢true}
use gridwell.Client.Inflight.Reads.{
  Reads, Verdict, answered, refused, joined_ok, failed, ask, join_reads, settle, is_dead,
  is_refused,
}
use gridwell.Client.Inflight.Reads.Latches.{settle-latches, verdict_marks}
use gridwell.Client.Sync.{
  Outcome, ok, conflict, rejected, transport, dead_link, abandoned_call, disabled, Code, canceled,
  unknown, invalid_argument, deadline_exceeded, not_found, already_exists, permission_denied,
  resource_exhausted, failed_precondition, aborted, out_of_range, unimplemented, internal,
  unavailable, data_loss, unauthenticated, ConnectError, CallError, outcome_of, outcome_of_code,
  outcome_of_connect, unheard, react_read, is_ok, is_abandoned, is_dead_link, react_grid_read,
  notices_for, Notices, Reaction, own_none, own_retry, own_failed, is_conflict,
}

-- What an outcome that no server spoke has no part in.
abbrev pub is_verdict : Outcome → Bool
is_verdict conflict = true
is_verdict rejected = true
is_verdict dead_link = true
is_verdict disabled = true
is_verdict _ = false

-- The codes that say the link failed.
abbrev is_link_code : Code → Bool
is_link_code unavailable = true
is_link_code deadline_exceeded = true
is_link_code canceled = true
is_link_code _ = false

-- A coded error of a server of this build, about a source that is switched off or of a code that does
-- not say the link failed.
abbrev has_answered : Option ConnectError → Bool
has_answered none = false
has_answered (some c) = not c.other_build && (c.source_disabled || not (is_link_code c.code))

-- The same past the client's own cancel and timer.
abbrev has_spoken : CallError → Bool
has_spoken e = not e.is_canceled && not e.is_deadline && has_answered e.connect

outcome_of_code-unheard : (c : Code) (b : Bool) → unheard (outcome_of_code c b) ≡ is_link_code c
unfolding unheard
outcome_of_code-unheard failed_precondition b = refl
outcome_of_code-unheard unavailable b = refl
outcome_of_code-unheard deadline_exceeded b = refl
outcome_of_code-unheard canceled b = refl
outcome_of_code-unheard unknown b = ground arith
outcome_of_code-unheard invalid_argument b = ground arith
outcome_of_code-unheard not_found b = ground arith
outcome_of_code-unheard already_exists b = ground arith
outcome_of_code-unheard permission_denied b = ground arith
outcome_of_code-unheard resource_exhausted b = ground arith
outcome_of_code-unheard aborted b = ground arith
outcome_of_code-unheard out_of_range b = ground arith
outcome_of_code-unheard unimplemented b = ground arith
outcome_of_code-unheard internal b = ground arith
outcome_of_code-unheard data_loss b = ground arith
outcome_of_code-unheard unauthenticated b = ground arith

outcome_of_connect-unheard :
    (o : Option ConnectError) → unheard (outcome_of_connect o) ≡ not (has_answered o)
unfolding unheard
outcome_of_connect-unheard none = refl
outcome_of_connect-unheard (some e) = ladder e.other_build e.source_disabled
  where
    ladder :
        (b d : Bool)
        → unheard (if b then transport else (if d then disabled else outcome_of_code e.code e.dead))
          ≡ not (not b && (d || not (is_link_code e.code)))
    ladder true d = refl
    ladder false true = refl
    ladder false false = outcome_of_code-unheard e.code e.dead ∙ ground arith

-- A failed call counts as unheard exactly unless a server of this build answered it, with a code that
-- does not say the link failed or about a source that is switched off; so a verdict, which drops local
-- state, is always a server's.
outcome_of-unheard : (e : CallError) → unheard (outcome_of (some e)) ≡ not (has_spoken e)
unfolding outcome_of
outcome_of-unheard e = ladder e.is_canceled e.is_deadline
  where
    ladder :
        (b d : Bool)
        → unheard
            (if b then abandoned_call else (if d then transport else outcome_of_connect e.connect))
          ≡ not (not b && not d && has_answered e.connect)
    ladder true d = unfold unheard in refl
    ladder false true = unfold unheard in refl
    ladder false false = outcome_of_connect-unheard e.connect

-- A read is asked only under a key that is not failed.
ask-failed : (r : Reads) (key : Bytes) → (ask r key).1 ≡ true → failed r key ≡ false
unfolding ask join_reads
ask-failed r key = ladder (failed r key)
  where
    ladder :
        (b : Bool)
        → joined_ok
            (if◌then◌else◌ {A = Reads × Option Joined} b
              (r, none)
              (record r { claims = (join r.claims key).claims }, some (join r.claims key))).1
          ≡ true
        → b ≡ false
    ladder true h = absurd (false≢true h)
    ladder false h = refl

settle-failed :
    (r : Reads) (key : Bytes) (v : Verdict)
    → failed (settle r key v) key ≡ ((verdict_marks r key v).0 || (verdict_marks r key v).1)
unfolding failed is_dead
settle-failed r key v = ap (λ (m : Bool × Bool × Bool). m.0 || m.1) (settle-latches r key v).0

settle-is_refused :
    (r : Reads) (key : Bytes) (v : Verdict)
    → is_refused (settle r key v) key ≡ (verdict_marks r key v).0
unfolding is_refused
settle-is_refused r key v = ap (λ (m : Bool × Bool × Bool). m.0) (settle-latches r key v).0

settle-is_dead :
    (r : Reads) (key : Bytes) (v : Verdict)
    → is_dead (settle r key v) key ≡ (verdict_marks r key v).2
settle-is_dead r key v = ap (λ (m : Bool × Bool × Bool). m.2) (settle-latches r key v).0

-- What the outcome's verdict marks, for a read that was not cancelled.
react_read-marks :
    (r : Reads) (key : Bytes) (o : Outcome)
    → is_abandoned o ≡ false
    → let m = verdict_marks r key (react_read o) in
      ((m.0 || m.1) ≡ not (is_ok o)) × (m.0 ≡ is_verdict o) × (m.2 ≡ is_dead_link o)
unfolding react_read
react_read-marks r key ok h = (refl, refl, refl)
react_read-marks r key conflict h = (refl, refl, refl)
react_read-marks r key rejected h = (refl, refl, refl)
react_read-marks r key transport h = (refl, refl, refl)
react_read-marks r key dead_link h = (refl, refl, refl)
react_read-marks r key abandoned_call h = absurd (false≢true (sym h))
react_read-marks r key disabled h = (refl, refl, refl)

-- A read's outcome carried to its key's latch: unless the client cancelled the read, the key then is
-- failed exactly when the read failed, refused exactly on a verdict and dead exactly on a dead link,
-- and a next read of it can start only after an answer.
pub react_read-settle :
    (r : Reads) (key : Bytes) (o : Outcome)
    → is_abandoned o ≡ false
    → let r' = settle r key (react_read o) in
      (failed r' key ≡ not (is_ok o))
      × (is_refused r' key ≡ is_verdict o)
      × (is_dead r' key ≡ is_dead_link o)
      × ((ask r' key).1 ≡ true → is_ok o ≡ true)
react_read-settle r key o h =
    let m = react_read-marks r key o h in
    let f = settle-failed r key (react_read o) ∙ m.0 in
    (
      f,
      settle-is_refused r key (react_read o) ∙ m.1,
      settle-is_dead r key (react_read o) ∙ m.2,
      λ g. not-eq_false (is_ok o) (sym f ∙ ask-failed (settle r key (react_read o)) key g),
    )

kept_id : (given asked : Bytes) → (not (bytes_eq given asked) ≡ false) ↔ (given ≡ asked)
kept_id given asked = (
  λ h. bytes_eq→eq given asked (not-eq_false (bytes_eq given asked) h),
  λ e. ap not (ap (bytes_eq given) (sym e) ∙ bytes_eq_refl given),
)

answered_if : (b : Bool) → ((if b then refused else answered) ≡ answered) ↔ (b ≡ false)
answered_if true = (λ h. cc, λ h. absurd (false≢true (sym h)))
answered_if false = (λ h. refl, λ h. refl)

-- What a grid read's answer calls for: its rows are stored exactly on an answer, its latch is
-- cleared exactly when they came under the id asked for, and of showing a failure, naming another
-- id and taking the grid's notice down it calls for exactly one, and for none on a read that the
-- client cancelled.
react_grid_read-cases :
    (asked given : Bytes) (o : Outcome)
    → let g = react_grid_read asked given o in
      (g.store ≡ is_ok o)
      × ((g.latch ≡ answered) ↔ ((is_ok o ≡ true) × (given ≡ asked)))
      × ((g.surface && g.resolve) ≡ false)
      × ((g.surface && g.renamed) ≡ false)
      × ((g.renamed && g.resolve) ≡ false)
      × ((g.surface || g.renamed || g.resolve) ≡ not (is_abandoned o))
unfolding react_grid_read
react_grid_read-cases asked given ok = (
  refl,
  (
    λ h. (refl, (kept_id given asked).0 ((answered_if (not (bytes_eq given asked))).0 h)),
    λ p. (answered_if (not (bytes_eq given asked))).1 ((kept_id given asked).1 p.1),
  ),
  refl,
  refl,
  ground arith,
  ground arith,
)
react_grid_read-cases asked given conflict = (refl, (λ h. cc, λ h. cc), refl, refl, refl, refl)
react_grid_read-cases asked given rejected = (refl, (λ h. cc, λ h. cc), refl, refl, refl, refl)
react_grid_read-cases asked given transport = (refl, (λ h. cc, λ h. cc), refl, refl, refl, refl)
react_grid_read-cases asked given dead_link = (refl, (λ h. cc, λ h. cc), refl, refl, refl, refl)
react_grid_read-cases asked given abandoned_call =
    (refl, (λ h. cc, λ h. cc), refl, refl, refl, refl)
react_grid_read-cases asked given disabled = (refl, (λ h. cc, λ h. cc), refl, refl, refl, refl)

-- Of a finished write's notices, the line that its outcome was a conflict is posted exactly when a
-- reload was called for; a write with words of its own says that it will retry exactly when it was
-- not heard, and then not the general line too; one without says nothing of its own.
notices_for-cases :
    (r : Reaction) (o : Outcome)
    → ((notices_for r o true).reloaded ≡ (r.refetch && is_conflict o))
      × (((notices_for r o true).own ≡ own_retry) ↔ (unheard o ≡ true))
      × ((notices_for r o true).generic ≡ (r.log && not (unheard o)))
      × ((notices_for r o false).own ≡ own_none)
      × ((notices_for r o false).generic ≡ r.log)
unfolding notices_for unheard
notices_for-cases r ok = (refl, (λ h. cc, λ h. absurd (false≢true h)), ground arith, refl, refl)
notices_for-cases r conflict =
    (refl, (λ h. cc, λ h. absurd (false≢true h)), ground arith, refl, refl)
notices_for-cases r rejected =
    (refl, (λ h. cc, λ h. absurd (false≢true h)), ground arith, refl, refl)
notices_for-cases r transport = (refl, (λ h. refl, λ h. refl), ground arith, refl, refl)
notices_for-cases r dead_link =
    (refl, (λ h. cc, λ h. absurd (false≢true h)), ground arith, refl, refl)
notices_for-cases r abandoned_call = (refl, (λ h. refl, λ h. refl), ground arith, refl, refl)
notices_for-cases r disabled = ladder r.log
  where
    n : Bool → Notices
    n b = record { generic = b; own = own_none; reloaded = r.refetch && false }

    ladder :
        (b : Bool)
        → ((if b then record (n b) { own = own_failed } else n b).reloaded ≡ (r.refetch && false))
          × (((if b then record (n b) { own = own_failed } else n b).own ≡ own_retry)
              ↔ (false ≡ true))
          × ((if b then record (n b) { own = own_failed } else n b).generic ≡ (b && true))
          × (own_none ≡ own_none)
          × (b ≡ b)
    ladder true = (refl, (λ h. cc, λ h. absurd (false≢true h)), refl, refl, refl)
    ladder false = (refl, (λ h. cc, λ h. absurd (false≢true h)), refl, refl, refl)
