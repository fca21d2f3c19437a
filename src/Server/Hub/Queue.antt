-- ===== src/Server/Hub/Queue.antt =====
-- internal/eventhub/eventhub.go: the operations on a subscriber beside the record of its runs.
use gridwell.Base.{
  ℕ, ◌≡◌, refl, ap, sym, ◌∙◌, Bool, true, false, List, [], ◌∷◌, ◌++◌, Option, none, some, ltb,
  length, Bytes, bytes-Eq, is_empty, arith, lookup, contains, Bool-cases, inl, inr, IsOrdered,
  insert-IsOrdered, in_order-pop, pop-IsOrdered, map, length-append, lookup-insert, lookup-delete,
  bytes_eq_iff, append_assoc, append-nil,
}
use mathlib.Core.Bool.{false≢true}
use gridwell.Server.Hub.{
  stream_buffer, Pump, looping, waiting, sending, closed, Subscriber, EnqueueAction, locks,
  sends_wake, enqueue_actions, enqueue_keyed, enqueue_locked, take_first, woken, put_out,
  select_done, pump_at, pump_step, receive_from, receive, next_seq, fallback_key,
}
use gridwell.Server.Hub.Enqueues.{
  next_action, any_unwoken, all_calls, Acted, next_action-Acted, all_calls-begun, any_unwoken-begun,
}
use gridwell.Server.Hub.Logged.{
  SubscriberOp, calls, acts, pumps, receives, cancels, Logged, first_of, took_at, listed, acted,
  logged_step, run_logged, fresh_log, last_of-append, is_closed, in_hand, IsFaithful,
}

module _ {ℓ} {T : Type ℓ} where
  begun-IsFaithful :
      (l : Logged T) (key : Bytes) (ev : T)
      → IsFaithful l
      → IsFaithful (record l { enqueues = l.enqueues ++ enqueue_actions key ev ∷ [] })
  begun-IsFaithful l key ev h = record {
    ordered = h.ordered;
    latest = h.latest;
    stream = h.stream;
    roomy = h.roomy;
    awake = λ w f u. h.awake w f (sym (any_unwoken-begun l.enqueues key ev) ∙ u);
    calls_right = all_calls-begun l.enqueues key ev ∙ h.calls_right;
    ended = h.ended;
  }

  keyed-IsFaithful :
      (l : Logged T) (n : ℕ) (k : Bytes) (ev : T) (cs : List (List (EnqueueAction T)))
      → all_calls cs ≡ true
      → any_unwoken cs ≡ true
      → IsFaithful l
      → IsFaithful (record l {
        sub = enqueue_keyed (record l.sub { seq = n }) k ev;
        enqueues = cs;
        put = l.put ++ (k, ev) ∷ [];
      })
  unfolding enqueue_keyed
  keyed-IsFaithful l n k ev cs right unwoken h = record {
    ordered = insert-IsOrdered k ev l.sub.pending l.sub.keys h.ordered;
    latest = λ j.
        ground (arith, last_of-append j k ev l.put, lookup-insert k j ev l.sub.pending, h.latest j);
    stream = h.stream;
    roomy = h.roomy;
    awake = λ w f u. absurd (false≢true (sym u ∙ unwoken));
    calls_right = right;
    ended = h.ended;
  }

  acted-IsFaithful :
      (l : Logged T) (o : Option (EnqueueAction T × List (List (EnqueueAction T))))
      → Acted o
      → IsFaithful l
      → IsFaithful (acted l o)
  unfolding enqueue_locked
  acted-IsFaithful l none a h = h
  acted-IsFaithful l (some (locks key ev, cs)) (right, unwoken) h =
      elim (Bool-cases (is_empty key)) [
        | inl e ↦ rw e (
            keyed-IsFaithful l (next_seq l.sub.seq) (fallback_key (next_seq l.sub.seq)) ev cs right
              unwoken h)
        | inr e ↦ rw e (keyed-IsFaithful l l.sub.seq key ev cs right unwoken h)
      ]
  acted-IsFaithful l (some (sends_wake, cs)) (right, r) h = record {
    ordered = h.ordered;
    latest = rw (append-nil l.put) h.latest;
    stream = h.stream;
    roomy = h.roomy;
    awake = λ w f u. cc;
    calls_right = right;
    ended = h.ended;
  }

  map-append_one :
      (l : List (Bytes × T)) (k : Bytes) (v : T)
      → map (λ (e : Bytes × T). e.1) (l ++ (k, v) ∷ []) ≡ map (λ (e : Bytes × T). e.1) l ++ v ∷ []
  map-append_one [] k v = refl
  map-append_one (e ∷ l) k v = ap (λ (r : List T). e.1 ∷ r) (map-append_one l k v)

  append_one : (m g o : List T) (v : T) → m ≡ g ++ (o ++ []) → m ++ v ∷ [] ≡ g ++ (o ++ v ∷ [])
  append_one m g o v e = rw (e, append-nil o) (append_assoc g o (v ∷ []))

  stream_at :
      (l : Logged T) (p : Pump T)
      → l.sub.pump ≡ p
      → is_closed p ≡ false
      → IsFaithful l
      → map (λ (e : Bytes × T). e.1) l.taken ≡ l.got ++ (l.sub.out ++ in_hand p)
  stream_at l p e c h =
      h.stream (ap is_closed e ∙ c) ∙ ap (λ (x : Pump T). l.got ++ (l.sub.out ++ in_hand x)) e

  take-IsFaithful :
      (zr : T) (l : Logged T) (ks : List Bytes)
      → l.sub.keys ≡ ks
      → l.sub.pump ≡ looping
      → IsFaithful l
      → IsFaithful (record l {
        sub = take_first zr l.sub ks;
        taken = l.taken ++ first_of zr l.sub.pending ks;
      })
  take-IsFaithful zr l [] e p h = record {
    ordered = h.ordered;
    latest = rw (append-nil l.taken) h.latest;
    stream = λ c. rw (append-nil l.taken) (stream_at l looping p refl h);
    roomy = h.roomy;
    awake = λ w f u. e;
    calls_right = h.calls_right;
    ended = λ c. cc;
  }
  take-IsFaithful zr l (k ∷ ks) e p h =
      let o : IsOrdered l.sub.pending (k ∷ ks) = rw (← e) h.ordered in
      let (v, found, rest) = in_order-pop k l.sub.pending ks o in
      record {
        ordered = pop-IsOrdered k l.sub.pending ks o;
        latest = λ j. ground (
          arith,
          last_of-append j k v l.taken,
          lookup-delete k j l.sub.pending,
          found,
          h.latest j,
          bytes_eq_iff k j,
        );
        stream = λ c.
            map-append_one l.taken k _
            ∙ append_one (map (λ (e : Bytes × T). e.1) l.taken) l.got l.sub.out _
                (stream_at l looping p refl h);
        roomy = h.roomy;
        awake = λ w f u. cc;
        calls_right = h.calls_right;
        ended = λ c. cc;
      }

  nothing_taken :
      (l : Logged T) (s : Subscriber T)
      → IsFaithful (record l { sub = s })
      → IsFaithful (record l { sub = s; taken = l.taken ++ [] })
  nothing_taken l s h = rw (append-nil l.taken) h

  close-IsFaithful :
      (l : Logged T)
      → l.sub.done ≡ true
      → IsFaithful l
      → IsFaithful (record l { sub = record l.sub { pump = closed } })
  close-IsFaithful l d h = record {
    ordered = h.ordered;
    latest = h.latest;
    stream = λ c. cc;
    roomy = h.roomy;
    awake = λ w f u. cc;
    calls_right = h.calls_right;
    ended = λ c. d;
  }

  select-IsFaithful :
      (l : Logged T) (ready done prefer : Bool) (next : Subscriber T)
      → l.sub.done ≡ done
      → IsFaithful l
      → (ready ≡ true → IsFaithful (record l { sub = next }))
      → IsFaithful (record l { sub = select_done ready done prefer l.sub next })
  select-IsFaithful l true true true next d h g = g refl
  select-IsFaithful l true true false next d h g = close-IsFaithful l d h
  select-IsFaithful l true false prefer next d h g = g refl
  select-IsFaithful l false true prefer next d h g = close-IsFaithful l d h
  select-IsFaithful l false false prefer next d h g = h

  woken-IsFaithful :
      (l : Logged T)
      → l.sub.pump ≡ waiting
      → IsFaithful l
      → IsFaithful (record l { sub = woken l.sub })
  woken-IsFaithful l p h = record {
    ordered = h.ordered;
    latest = h.latest;
    stream = λ c. stream_at l waiting p refl h;
    roomy = h.roomy;
    awake = λ w f u. cc;
    calls_right = h.calls_right;
    ended = λ c. cc;
  }

  put_out-IsFaithful :
      (l : Logged T) (ev : T)
      → l.sub.pump ≡ sending ev
      → ltb (length l.sub.out) stream_buffer ≡ true
      → IsFaithful l
      → IsFaithful (record l { sub = put_out l.sub ev })
  put_out-IsFaithful l ev p r h = record {
    ordered = h.ordered;
    latest = h.latest;
    stream = λ c. rw (append-nil (l.sub.out ++ ev ∷ [])) (stream_at l (sending ev) p refl h);
    roomy = ground (arith, length-append l.sub.out (ev ∷ []));
    awake = λ w f u. cc;
    calls_right = h.calls_right;
    ended = λ c. cc;
  }

  pump-IsFaithful :
      (zr : T) (l : Logged T) (prefer : Bool) (p : Pump T)
      → l.sub.pump ≡ p
      → IsFaithful l
      → IsFaithful
          (record l { sub = pump_at zr prefer l.sub p; taken = l.taken ++ took_at zr l.sub p })
  pump-IsFaithful zr l prefer looping e h = take-IsFaithful zr l l.sub.keys refl e h
  pump-IsFaithful zr l prefer waiting e h = nothing_taken l _ (
      select-IsFaithful l l.sub.wake l.sub.done prefer (woken l.sub) refl h
        (λ r. woken-IsFaithful l e h))
  pump-IsFaithful zr l prefer (sending ev) e h = nothing_taken l _ (
      select-IsFaithful l (ltb (length l.sub.out) stream_buffer) l.sub.done prefer
        (put_out l.sub ev) refl h (λ r. put_out-IsFaithful l ev e r h))
  pump-IsFaithful zr l prefer closed e h = nothing_taken l l.sub h

  receive-IsFaithful :
      (l : Logged T) (out : List T)
      → l.sub.out ≡ out
      → IsFaithful l
      → IsFaithful (record l {
        sub = (receive_from l.sub out).0;
        got = l.got ++ listed (receive_from l.sub out).1;
      })
  receive-IsFaithful l [] e h = rw (append-nil l.got) h
  receive-IsFaithful l (ev ∷ rest) e h = record {
    ordered = h.ordered;
    latest = h.latest;
    stream = λ c.
        h.stream c
        ∙ ap (λ (o : List T). l.got ++ (o ++ in_hand l.sub.pump)) e
        ∙ sym (append_assoc l.got (ev ∷ []) (rest ++ in_hand l.sub.pump));
    roomy = ground (arith, h.roomy, ap length e);
    awake = h.awake;
    calls_right = h.calls_right;
    ended = h.ended;
  }

  cancel-IsFaithful : (zr : T) (l : Logged T) → IsFaithful l → IsFaithful (logged_step zr l cancels)
  cancel-IsFaithful zr l h = record {
    ordered = h.ordered;
    latest = h.latest;
    stream = h.stream;
    roomy = h.roomy;
    awake = h.awake;
    calls_right = h.calls_right;
    ended = λ c. refl;
  }

  pub step-IsFaithful :
      (zr : T) (l : Logged T) (op : SubscriberOp T)
      → IsFaithful l
      → IsFaithful (logged_step zr l op)
  unfolding pump_step receive
  step-IsFaithful zr l (calls key ev) h = begun-IsFaithful l key ev h
  step-IsFaithful zr l (acts i) h =
      acted-IsFaithful l (next_action i l.enqueues) (next_action-Acted i l.enqueues h.calls_right) h
  step-IsFaithful zr l (pumps prefer) h = pump-IsFaithful zr l prefer l.sub.pump refl h
  step-IsFaithful zr l receives h = receive-IsFaithful l l.sub.out refl h
  step-IsFaithful zr l cancels h = cancel-IsFaithful zr l h

  steps-IsFaithful :
      (zr : T) (l : Logged T) (ops : List (SubscriberOp T))
      → IsFaithful l
      → IsFaithful (run_logged zr l ops)
  steps-IsFaithful zr l [] h = h
  steps-IsFaithful zr l (op ∷ ops) h =
      steps-IsFaithful zr (logged_step zr l op) ops (step-IsFaithful zr l op h)

  -- After any enqueues, pump steps, receives and a cancel of a new subscriber, with any of them coming
  -- between what an enqueue does under the mutex and its send on wake: the last event put under each key is
  -- the one that is pending under it or, where none pends, the last one the pump took under it; what the
  -- pump took is, until the stream closes, what the consumer got, what the stream holds and what the pump
  -- holds, in order; the stream holds sixteen at most; a pump that waits with no wake signal owes nothing,
  -- unless an enqueue that has put its event has yet to send its wake; and the stream closes only after a
  -- cancel.
  pub run_logged-IsFaithful :
      (zr : T) (ops : List (SubscriberOp T)) → IsFaithful (run_logged zr fresh_log ops)
  unfolding contains lookup
  run_logged-IsFaithful zr ops = steps-IsFaithful zr fresh_log ops (record {
    ordered = record { once = refl; same_keys = λ k. refl };
    latest = λ k. refl;
    stream = λ c. refl;
    roomy = omega arith;
    awake = λ w f u. refl;
    calls_right = refl;
    ended = λ c. cc;
  })
