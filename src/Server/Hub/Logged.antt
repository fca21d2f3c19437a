-- ===== src/Server/Hub/Logged.antt =====
-- internal/eventhub/eventhub.go: runs of one subscriber, with what was put into its queue, taken from it
-- and received from its stream written down beside it.
use gridwell.Base.{
  ℕ, ◌≤◌, ◌≡◌, Bool, true, false, List, [], ◌∷◌, ◌++◌, Option, none, some, if◌then◌else◌, length,
  Bytes, bytes-Eq, is_empty, arith, lookup, IsOrdered, map, bytes_eq,
}
use gridwell.Server.Hub.{
  stream_buffer, Pump, looping, waiting, sending, closed, Subscriber, read_or, new_subscriber,
  EnqueueAction, locks, sends_wake, act, enqueue_actions, pump_step, receive, cancel_subscriber,
  next_seq, fallback_key,
}
use gridwell.Server.Hub.Enqueues.{next_action, any_unwoken, all_calls}

-- calls begins an enqueue, and acts is the next action of the i-th that was begun.
pub data SubscriberOp {ℓ} (T : Type ℓ) : Type ℓ where
  calls : Bytes → T → SubscriberOp T
  acts : ℕ → SubscriberOp T
  pumps : Bool → SubscriberOp T
  receives : SubscriberOp T
  cancels : SubscriberOp T

-- The subscriber, what each enqueue that was begun has yet to do, and what was put, taken and received.
pub record Logged {ℓ} (T : Type ℓ) : Type ℓ where
  pub sub : Subscriber T
  pub enqueues : List (List (EnqueueAction T))
  pub put : List (Bytes × T)
  pub taken : List (Bytes × T)
  pub got : List T

module _ {ℓ} {T : Type ℓ} where
  -- What is put into the queue, under the key that enqueue_event gives it.
  abbrev key_used : Subscriber T → Bytes → Bytes
  key_used sub key = if is_empty key then fallback_key (next_seq sub.seq) else key

  -- What a pump step takes from the queue.
  abbrev pub first_of : T → List (Bytes × T) → List Bytes → List (Bytes × T)
  first_of zr pending [] = []
  first_of zr pending (k ∷ ks) = (k, read_or zr (lookup k pending)) ∷ []

  abbrev pub took_at : T → Subscriber T → Pump T → List (Bytes × T)
  took_at zr sub looping = first_of zr sub.pending sub.keys
  took_at zr sub _ = []

  abbrev pub took : T → Subscriber T → List (Bytes × T)
  took zr sub = took_at zr sub sub.pump

  abbrev pub listed : Option T → List T
  listed none = []
  listed (some ev) = ev ∷ []

  abbrev put_by : Subscriber T → EnqueueAction T → List (Bytes × T)
  put_by sub (locks key ev) = (key_used sub key, ev) ∷ []
  put_by sub sends_wake = []

  abbrev pub acted : Logged T → Option (EnqueueAction T × List (List (EnqueueAction T))) → Logged T
  acted l none = l
  acted l (some (a, cs)) = record l {
    sub = act l.sub a;
    enqueues = cs;
    put = l.put ++ put_by l.sub a;
  }

  abbrev pub logged_step : T → Logged T → SubscriberOp T → Logged T
  logged_step zr l (calls key ev) = record l {
    enqueues = l.enqueues ++ enqueue_actions key ev ∷ [];
  }
  logged_step zr l (acts i) = acted l (next_action i l.enqueues)
  logged_step zr l (pumps prefer) = record l {
    sub = pump_step zr prefer l.sub;
    taken = l.taken ++ took zr l.sub;
  }
  logged_step zr l receives = record l {
    sub = (receive l.sub).0;
    got = l.got ++ listed (receive l.sub).1;
  }
  logged_step zr l cancels = record l { sub = cancel_subscriber l.sub }

  abbrev pub run_logged : T → Logged T → List (SubscriberOp T) → Logged T
  run_logged zr l [] = l
  run_logged zr l (op ∷ ops) = run_logged zr (logged_step zr l op) ops

  abbrev pub fresh_log : Logged T
  fresh_log = record { sub = new_subscriber; enqueues = []; put = []; taken = []; got = [] }

  abbrev pub else_from : Option T → Option T → Option T
  else_from none o = o
  else_from (some v) o = some v

  -- The last value under a key.
  abbrev pub last_of : Bytes → List (Bytes × T) → Option T
  last_of k [] = none
  last_of k ((j, v) ∷ log) = else_from (last_of k log) (if bytes_eq j k then some v else none)

  pub last_of-append :
      (k j : Bytes) (v : T) (log : List (Bytes × T))
      → last_of k (log ++ (j, v) ∷ []) ≡ (if bytes_eq j k then some v else last_of k log)
  last_of-append k j v [] = ground arith
  last_of-append k j v ((i, w) ∷ log) = ground (arith, last_of-append k j v log)

  abbrev pub is_closed : Pump T → Bool
  is_closed closed = true
  is_closed _ = false

  abbrev pub is_waiting : Pump T → Bool
  is_waiting waiting = true
  is_waiting _ = false

  -- What the pump has taken and not sent.
  abbrev pub in_hand : Pump T → List T
  in_hand (sending ev) = ev ∷ []
  in_hand _ = []

  pub record IsFaithful (l : Logged T) : Type ℓ where
    pub ordered : IsOrdered l.sub.pending l.sub.keys
    pub latest :
        (k : Bytes) → last_of k l.put ≡ else_from (lookup k l.sub.pending) (last_of k l.taken)
    pub stream :
        is_closed l.sub.pump ≡ false
        → map (λ (e : Bytes × T). e.1) l.taken ≡ l.got ++ (l.sub.out ++ in_hand l.sub.pump)
    pub roomy : length l.sub.out ≤ stream_buffer
    pub awake :
        is_waiting l.sub.pump ≡ true
        → l.sub.wake ≡ false
        → any_unwoken l.enqueues ≡ false
        → l.sub.keys ≡ []
    pub calls_right : all_calls l.enqueues ≡ true
    pub ended : is_closed l.sub.pump ≡ true → l.sub.done ≡ true
