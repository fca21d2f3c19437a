-- ===== src/Server/Hub.antt =====
-- internal/eventhub/eventhub.go: the event fan-out. What a subscriber does under its mutex is one
-- function; its pump is where the goroutine stands, and a pump step is what it does up to the next
-- place where it can wait. A channel is its contents.
pub mod Enqueues
pub mod Logged
pub mod Queue
pub mod Delivery
use gridwell.Base.{
  ℕ, ◌+◌, ◌-◌, ◌%◌, Bool, true, false, ◌&&◌, List, [], ◌∷◌, ◌++◌, Option, none, some, map,
  if◌then◌else◌, ltb, ◌==◌, length, Bytes, bytes, bytes-Eq, is_empty, insert, delete, lookup,
  has_key,
}
use gridwell.Codec.Decimal.{itoa}

abbrev pub stream_buffer : ℕ
stream_buffer = 16

-- An int counter of 64 bits, one up.
abbrev pub next_seq : ℕ → ℕ
next_seq n = (n + 1) % 18446744073709551616

-- "u/" and the counter in decimal; from 2^63 on it stands for a negative int.
abbrev pub fallback_key : ℕ → Bytes
fallback_key n =
    if ltb n 9223372036854775808
    then bytes "u/" ++ itoa n
    else bytes "u/-" ++ itoa (18446744073709551616 - n)

-- Where the pump stands: before it takes a key, in the select on wake, in the select that sends an
-- event, or past its end, with the stream closed.
pub data Pump {ℓ} (T : Type ℓ) : Type ℓ where
  looping waiting : Pump T
  sending : T → Pump T
  closed : Pump T

pub record Subscriber {ℓ} (T : Type ℓ) : Type ℓ where
  pub keys : List Bytes
  pub pending : List (Bytes × T)
  pub seq : ℕ
  pub wake : Bool
  pub done : Bool
  pub out : List T
  pub pump : Pump T

-- What an enqueue does between the places where another goroutine may come in.
pub data EnqueueAction {ℓ} (T : Type ℓ) : Type ℓ where
  locks : Bytes → T → EnqueueAction T
  sends_wake : EnqueueAction T

-- A read of a map of T, which is T's zero value where the key is missing.
abbrev pub read_or {ℓ} : {T : Type ℓ} → T → Option T → T
read_or zero none = zero
read_or zero (some ev) = ev

module _ {ℓ} {T : Type ℓ} where
  abbrev pub new_subscriber : Subscriber T
  new_subscriber = record {
    keys = [];
    pending = [];
    seq = 0;
    wake = false;
    done = false;
    out = [];
    pump = looping;
  }

  -- The part of enqueue under the mutex, past the choice of the key.
  unfoldable pub enqueue_keyed : Subscriber T → Bytes → T → Subscriber T
  enqueue_keyed sub key ev = record sub {
    keys = if has_key key sub.pending then sub.keys else sub.keys ++ key ∷ [];
    pending = insert key ev sub.pending;
  }

  -- The part of enqueue under the mutex.
  unfoldable pub enqueue_locked : Subscriber T → Bytes → T → Subscriber T
  enqueue_locked sub key ev =
      if is_empty key
      then enqueue_keyed (record sub { seq = next_seq sub.seq }) (fallback_key (next_seq sub.seq))
          ev
      else enqueue_keyed sub key ev

  -- One action of an enqueue. A send on wake leaves one signal, whether or not there was one.
  abbrev pub act : Subscriber T → EnqueueAction T → Subscriber T
  act sub (locks key ev) = enqueue_locked sub key ev
  act sub sends_wake = record sub { wake = true }

  -- enqueue: what it does under the mutex, then the send past it.
  abbrev pub enqueue_actions : Bytes → T → List (EnqueueAction T)
  enqueue_actions key ev = locks key ev ∷ sends_wake ∷ []

  abbrev act_all : Subscriber T → List (EnqueueAction T) → Subscriber T
  act_all sub [] = sub
  act_all sub (a ∷ rest) = act_all (act sub a) rest

  -- An enqueue that nothing else comes between.
  unfoldable pub enqueue_event : Subscriber T → Bytes → T → Subscriber T
  enqueue_event sub key ev = act_all sub (enqueue_actions key ev)

  -- The pump under the mutex: the first key with its event, or the wait for a wake.
  abbrev pub take_first : T → Subscriber T → List Bytes → Subscriber T
  take_first zero sub [] = record sub { pump = waiting }
  take_first zero sub (delivered ∷ keys) = record sub {
    keys = keys;
    pending = delete delivered sub.pending;
    pump = sending (read_or zero (lookup delivered sub.pending));
  }

  abbrev close_out : Subscriber T → Subscriber T
  close_out sub = record sub { pump = closed }

  abbrev pub woken : Subscriber T → Subscriber T
  woken sub = record sub { wake = false; pump = looping }

  abbrev pub put_out : Subscriber T → T → Subscriber T
  put_out sub ev = record sub { out = sub.out ++ ev ∷ []; pump = looping }

  -- A select between one case and the done channel: of two that are ready either may run, and with none
  -- ready the goroutine stays.
  abbrev pub select_done : Bool → Bool → Bool → Subscriber T → Subscriber T → Subscriber T
  select_done ready done prefer sub next =
      if ready && (if done then prefer else true)
      then next
      else (if done then close_out sub else sub)

  abbrev pub pump_at : T → Bool → Subscriber T → Pump T → Subscriber T
  pump_at zero prefer sub looping = take_first zero sub sub.keys
  pump_at zero prefer sub waiting = select_done sub.wake sub.done prefer sub (woken sub)
  pump_at zero prefer sub (sending ev) =
      select_done (ltb (length sub.out) stream_buffer) sub.done prefer sub (put_out sub ev)
  pump_at zero prefer sub closed = sub

  unfoldable pub pump_step : T → Bool → Subscriber T → Subscriber T
  pump_step zero prefer sub = pump_at zero prefer sub sub.pump

  abbrev pub receive_from : Subscriber T → List T → Subscriber T × Option T
  receive_from sub [] = (sub, none)
  receive_from sub (ev ∷ rest) = (record sub { out = rest }, some ev)

  -- The consumer's receive.
  unfoldable pub receive : Subscriber T → Subscriber T × Option T
  receive sub = receive_from sub sub.out

  abbrev pub cancel_subscriber : Subscriber T → Subscriber T
  cancel_subscriber sub = record sub { done = true }

-- The subscribers made so far, each at its place, with whether the hub's set still holds it.
pub record Hub {ℓ} (T : Type ℓ) : Type ℓ where
  pub key : T → Bytes
  pub made : List (Bool × Subscriber T)

abbrev change_at {ℓ} : {A : Type ℓ} → ℕ → (A → A) → List A → List A
change_at i f [] = []
change_at i f (x ∷ xs) = let rest = change_at (i - 1) f xs in if i == 0 then f x ∷ xs else x ∷ rest

module _ {ℓ} {T : Type ℓ} where
  unfoldable pub new_hub : (T → Bytes) → Hub T
  new_hub key = record { key = key; made = [] }

  unfoldable pub subscribe : Hub T → Hub T × ℕ
  subscribe h = (record h { made = h.made ++ (true, new_subscriber) ∷ [] }, length h.made)

  -- Each subscriber of the set gets the event under the one key, with nothing between these enqueues.
  unfoldable pub publish : Hub T → T → Hub T
  publish h ev = record h {
    made = map (λ s. (s.0, if s.0 then enqueue_event s.1 (h.key ev) ev else s.1)) h.made;
  }

  -- The cancel that the i-th Subscribe gave; a second call finds nothing left to do.
  unfoldable pub cancel : Hub T → ℕ → Hub T
  cancel h i = record h { made = change_at i (λ s. (false, cancel_subscriber s.1)) h.made }
