-- ===== src/Server/Hub/Delivery.antt =====
-- internal/eventhub/eventhub.go: the turns of a pump and of a consumer that keeps receiving.
use gridwell.Base.{
  ℕ, zero, suc, ◌+◌, ◌*◌, ◌-◌, ◌≤◌, ◌<◌, ◌≡◌, refl, ap, sym, subst, ◌∙◌, Bool, true, false, List,
  [], ◌∷◌, ◌++◌, Option, none, ltb, one_if, length, length-append, Bytes, arith, map, lookup,
  contains, ◌⊎◌, inl, inr, Option-cases, is_some, append-nil, IsOrdered, bytes-Eq,
}
use mathlib.Core.Bool.{false≢true}
use gridwell.Server.Hub.{
  stream_buffer, Pump, looping, waiting, sending, closed, Subscriber, pump_at, pump_step,
  take_first, woken, put_out, select_done, receive_from, receive,
}
use gridwell.Server.Hub.Enqueues.{any_unwoken}
use gridwell.Server.Hub.Logged.{
  SubscriberOp, pumps, receives, Logged, logged_step, run_logged, fresh_log, last_of, else_from,
  is_closed, is_waiting, in_hand, IsFaithful,
}
use gridwell.Server.Hub.Queue.{step-IsFaithful, run_logged-IsFaithful}

module _ {ℓ} {T : Type ℓ} where
  -- The pump and the consumer by turns.
  abbrev pub rounds : ℕ → List (SubscriberOp T)
  rounds zero = []
  rounds (suc n) = pumps true ∷ receives ∷ rounds n

  -- The pump's steps to its next wait.
  abbrev weight : Pump T → ℕ
  weight looping = 1
  weight waiting = 0
  weight (sending ev) = 3
  weight closed = 1

  -- Rounds that are enough.
  abbrev backlog : Subscriber T → ℕ
  backlog sub = 3 * length sub.keys + length sub.out + weight sub.pump + 2 * one_if sub.wake

  -- A turn that leaves no less to do has left something to receive, or there was nothing to do.
  abbrev Shrinks : Subscriber T → Subscriber T → Type 0
  Shrinks sub s =
      (s.done ≡ false)
      × (((backlog s < backlog sub) ⊎ ((backlog s ≡ backlog sub) × (0 < length s.out)))
          ⊎ ((backlog s ≡ 0) × (backlog sub ≡ 0)))

  take-Shrinks :
      (zr : T) (sub : Subscriber T) (ks : List Bytes)
      → sub.keys ≡ ks
      → sub.pump ≡ looping
      → sub.done ≡ false
      → Shrinks sub (take_first zr sub ks)
  take-Shrinks zr sub [] k e d = (d, inl (inl (omega (arith, ap weight e))))
  take-Shrinks zr sub (i ∷ ks) k e d =
      (d, inl (inl (omega (arith, ap weight e, ap (length {A = Bytes}) k))))

  woken-Shrinks :
      (sub : Subscriber T) (wake : Bool)
      → sub.wake ≡ wake
      → sub.pump ≡ waiting
      → sub.done ≡ false
      → (wake ≡ false → sub.keys ≡ [])
      → Shrinks sub (select_done wake false true sub (woken sub))
  woken-Shrinks sub true w e d h = (d, inl (inl (omega (arith, ap weight e, ap one_if w))))
  woken-Shrinks sub false w e d h =
      (d, ground (arith, ap weight e, ap one_if w, ap (length {A = Bytes}) (h refl)))

  put_out-Shrinks :
      (sub : Subscriber T) (ev : T) (room : Bool)
      → ltb (length sub.out) stream_buffer ≡ room
      → sub.pump ≡ sending ev
      → sub.done ≡ false
      → Shrinks sub (select_done room false true sub (put_out sub ev))
  put_out-Shrinks sub ev true r e d =
      (d, inl (inl (omega (arith, ap weight e, length-append sub.out (ev ∷ [])))))
  put_out-Shrinks sub ev false r e d = (d, inl (inr (refl, ground arith)))

  pump-Shrinks :
      (zr : T) (l : Logged T) (p : Pump T)
      → l.sub.pump ≡ p
      → l.sub.done ≡ false
      → any_unwoken l.enqueues ≡ false
      → IsFaithful l
      → Shrinks l.sub (pump_at zr true l.sub p)
  pump-Shrinks zr l looping e d u h = take-Shrinks zr l.sub l.sub.keys refl e d
  pump-Shrinks zr l waiting e d u h =
      subst (λ (b : Bool). Shrinks l.sub (select_done l.sub.wake b true l.sub (woken l.sub)))
        (sym d) (woken-Shrinks l.sub l.sub.wake refl e d (λ f. h.awake (ap is_waiting e) f u))
  pump-Shrinks zr l (sending ev) e d u h =
      let room = ltb (length l.sub.out) stream_buffer in
      subst (λ (b : Bool). Shrinks l.sub (select_done room b true l.sub (put_out l.sub ev))) (sym d)
        (put_out-Shrinks l.sub ev room refl e d)
  pump-Shrinks zr l closed e d u h = absurd (false≢true (sym d ∙ h.ended (ap is_closed e)))

  receive-backlog :
      (sub : Subscriber T) (out : List T)
      → sub.out ≡ out
      → let s = (receive_from sub out).0 in
        (s.done ≡ sub.done)
        × (((0 < length out) × (backlog s + 1 ≡ backlog sub))
            ⊎ ((length out ≡ 0) × (backlog s ≡ backlog sub)))
  receive-backlog sub [] e = (refl, inr (refl, refl))
  receive-backlog sub (ev ∷ rest) e = (refl, inl (omega arith, omega (arith, ap length e)))

  turn-backlog :
      (zr : T) (l : Logged T)
      → l.sub.done ≡ false
      → any_unwoken l.enqueues ≡ false
      → IsFaithful l
      → let s = (logged_step zr (logged_step zr l (pumps true)) receives).sub in
        (s.done ≡ false) × (backlog s ≤ backlog l.sub - 1)
  unfolding pump_step receive
  turn-backlog zr l d u h =
      let p = pump-Shrinks zr l l.sub.pump refl d u h in
      let s = pump_at zr true l.sub l.sub.pump in
      let r = receive-backlog s s.out refl in
      (r.0 ∙ p.0, less (backlog s) (backlog l.sub) (length s.out) _ p.1 r.1)
    where
      less :
          (b a o c : ℕ)
          → (((b < a) ⊎ ((b ≡ a) × (0 < o))) ⊎ ((b ≡ 0) × (a ≡ 0)))
          → (((0 < o) × (c + 1 ≡ b)) ⊎ ((o ≡ 0) × (c ≡ b)))
          → c ≤ a - 1
      less b a o c p r = omega arith

  rounds-backlog :
      (zr : T) (l : Logged T) (n : ℕ)
      → l.sub.done ≡ false
      → any_unwoken l.enqueues ≡ false
      → IsFaithful l
      → backlog l.sub ≤ n
      → let e = run_logged zr l (rounds n) in IsFaithful e × (backlog e.sub ≡ 0)
  rounds-backlog zr l zero d u h b = (h, omega arith)
  rounds-backlog zr l (suc n) d u h b =
      let l1 = logged_step zr l (pumps true) in
      let l2 = logged_step zr l1 receives in
      let turn = turn-backlog zr l d u h in
      rounds-backlog zr l2 n turn.0 u
        (step-IsFaithful zr l1 receives (step-IsFaithful zr l (pumps true) h))
        (omega (arith, turn.1, b))

  put-rounds : (zr : T) (l : Logged T) (n : ℕ) → (run_logged zr l (rounds n)).put ≡ l.put
  put-rounds zr l zero = refl
  put-rounds zr l (suc n) =
      put-rounds zr (logged_step zr (logged_step zr l (pumps true)) receives) n

  no_keys :
      (sub : Subscriber T) (ks : List Bytes)
      → sub.keys ≡ ks
      → IsOrdered sub.pending ks
      → length ks ≡ 0
      → (k : Bytes) → lookup k sub.pending ≡ none
  unfolding contains
  no_keys sub [] e o z k = elim (Option-cases (lookup k sub.pending)) [
    | inl q ↦ q
    | inr (v, q) ↦ absurd (false≢true (sym (o.same_keys k) ∙ ap is_some q))
  ]
  no_keys sub (i ∷ ks) e o z k = absurd (omega arith)

  nothing_left :
      (sub : Subscriber T) (p : Pump T) (out : List T)
      → backlog (record sub { pump = p; out = out }) ≡ 0
      → (is_closed p ≡ false) × (out ++ in_hand p ≡ [])
  nothing_left sub waiting [] z = (refl, refl)
  nothing_left sub looping [] z = absurd (omega arith)
  nothing_left sub (sending ev) [] z = absurd (omega arith)
  nothing_left sub closed [] z = absurd (omega arith)
  nothing_left sub p (ev ∷ out) z = absurd (omega arith)

  -- While nobody has cancelled and each enqueue that has put its event has sent its wake, after enough
  -- turns of the pump and the consumer the consumer has got all that the pump took, in order, and the
  -- last event it got under each key is the last that was put under it. Enough is three turns for each
  -- key that is owed, one for each event in the stream, and five.
  pub rounds-delivered :
      (zr : T) (ops : List (SubscriberOp T)) (n : ℕ)
      → (run_logged zr fresh_log ops).sub.done ≡ false
      → any_unwoken (run_logged zr fresh_log ops).enqueues ≡ false
      → backlog (run_logged zr fresh_log ops).sub ≤ n
      → let e = run_logged zr (run_logged zr fresh_log ops) (rounds n) in
        (map (λ (x : Bytes × T). x.1) e.taken ≡ e.got)
        × ((k : Bytes) → last_of k e.taken ≡ last_of k (run_logged zr fresh_log ops).put)
  rounds-delivered zr ops n d u b =
      let l = run_logged zr fresh_log ops in
      let e = run_logged zr l (rounds n) in
      let (h, z) = rounds-backlog zr l n d u (run_logged-IsFaithful zr ops) b in
      let (open_still, empty) = nothing_left e.sub e.sub.pump e.sub.out z in
      (
        h.stream open_still ∙ ap (λ (o : List T). e.got ++ o) empty ∙ append-nil e.got,
        λ k.
            ap (λ (o : Option T). else_from o (last_of k e.taken))
              (sym (no_keys e.sub e.sub.keys refl h.ordered (omega (arith, z)) k))
            ∙ sym (h.latest k)
            ∙ ap (last_of k) (put-rounds zr l n),
      )
