-- ===== src/Server/Hub/Enqueues.antt =====
-- internal/eventhub/eventhub.go: the calls of enqueue that have begun, with what each has yet to do.
use gridwell.Base.{
  ℕ, zero, suc, ◌≡◌, refl, ap, Bool, true, false, ◌&&◌, ◌||◌, List, [], ◌∷◌, ◌++◌, Option, none,
  some, Bytes, arith, &&_left, &&_right,
}
use gridwell.Server.Hub.{EnqueueAction, locks, sends_wake, enqueue_actions}

module _ {ℓ} {T : Type ℓ} where
  abbrev kept_call :
      List (EnqueueAction T)
      → Option (EnqueueAction T × List (List (EnqueueAction T)))
      → Option (EnqueueAction T × List (List (EnqueueAction T)))
  kept_call c none = none
  kept_call c (some (a, cs)) = some (a, c ∷ cs)

  -- The next action of the i-th enqueue, and what is then left to do.
  abbrev pub next_action :
      ℕ → List (List (EnqueueAction T)) → Option (EnqueueAction T × List (List (EnqueueAction T)))
  next_action i [] = none
  next_action zero ([] ∷ cs) = none
  next_action zero ((a ∷ rest) ∷ cs) = some (a, rest ∷ cs)
  next_action (suc i) (c ∷ cs) = kept_call c (next_action i cs)

  -- An enqueue that has put its event and not sent its wake.
  abbrev is_unwoken : List (EnqueueAction T) → Bool
  is_unwoken (sends_wake ∷ []) = true
  is_unwoken _ = false

  abbrev pub any_unwoken : List (List (EnqueueAction T)) → Bool
  any_unwoken [] = false
  any_unwoken (c ∷ cs) = is_unwoken c || any_unwoken cs

  -- What is left of a call of enqueue.
  abbrev is_call : List (EnqueueAction T) → Bool
  is_call [] = true
  is_call (sends_wake ∷ []) = true
  is_call (locks key ev ∷ sends_wake ∷ []) = true
  is_call _ = false

  abbrev pub all_calls : List (List (EnqueueAction T)) → Bool
  all_calls [] = true
  all_calls (c ∷ cs) = is_call c && all_calls cs

  -- The next action is taken from a call; a call that has put its event has yet to send its wake.
  abbrev pub Acted : Option (EnqueueAction T × List (List (EnqueueAction T))) → Type 0
  Acted none = true ≡ true
  Acted (some (locks key ev, cs)) = (all_calls cs ≡ true) × (any_unwoken cs ≡ true)
  Acted (some (sends_wake, cs)) = (all_calls cs ≡ true) × (true ≡ true)

  first-Acted :
      (c : List (EnqueueAction T)) (cs : List (List (EnqueueAction T)))
      → all_calls (c ∷ cs) ≡ true
      → Acted (next_action zero (c ∷ cs))
  first-Acted [] cs h = refl
  first-Acted (sends_wake ∷ []) cs h = (h, refl)
  first-Acted (locks key ev ∷ sends_wake ∷ []) cs h = (h, refl)
  first-Acted (sends_wake ∷ a ∷ rest) cs h = cc
  first-Acted (locks key ev ∷ []) cs h = cc
  first-Acted (locks key ev ∷ locks j w ∷ rest) cs h = cc
  first-Acted (locks key ev ∷ sends_wake ∷ a ∷ rest) cs h = cc

  kept-Acted :
      (c : List (EnqueueAction T)) (o : Option (EnqueueAction T × List (List (EnqueueAction T))))
      → is_call c ≡ true
      → Acted o
      → Acted (kept_call c o)
  kept-Acted c none e h = refl
  kept-Acted c (some (locks key ev, cs)) e h = (ground (arith, e, h.0), ground (arith, h.1))
  kept-Acted c (some (sends_wake, cs)) e h = (ground (arith, e, h.0), refl)

  pub next_action-Acted :
      (i : ℕ) (cs : List (List (EnqueueAction T))) → all_calls cs ≡ true → Acted (next_action i cs)
  next_action-Acted i [] h = refl
  next_action-Acted zero (c ∷ cs) h = first-Acted c cs h
  next_action-Acted (suc i) (c ∷ cs) h =
      kept-Acted c (next_action i cs) (&&_left (is_call c) (all_calls cs) h)
        (next_action-Acted i cs (&&_right (is_call c) (all_calls cs) h))

  pub all_calls-begun :
      (cs : List (List (EnqueueAction T))) (key : Bytes) (ev : T)
      → all_calls (cs ++ enqueue_actions key ev ∷ []) ≡ all_calls cs
  all_calls-begun [] key ev = refl
  all_calls-begun (c ∷ cs) key ev = ap (λ b. is_call c && b) (all_calls-begun cs key ev)

  pub any_unwoken-begun :
      (cs : List (List (EnqueueAction T))) (key : Bytes) (ev : T)
      → any_unwoken (cs ++ enqueue_actions key ev ∷ []) ≡ any_unwoken cs
  any_unwoken-begun [] key ev = refl
  any_unwoken-begun (c ∷ cs) key ev = ap (λ b. is_unwoken c || b) (any_unwoken-begun cs key ev)
