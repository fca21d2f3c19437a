-- ===== src/Client/Outbox/Saves/Served.antt =====
-- client/outbox/chain.go: the goroutines of the keys beside their tasks.
use gridwell.Base.{
  ℕ, zero, suc, ◌+◌, ◌≤◌, ◌≡◌, refl, ap, sym, ◌∙◌, Bool, true, false, List, [], ◌∷◌, ◌++◌,
  append-nil, append_assoc, Option, none, some, if◌then◌else◌, Bytes, bytes_eq, bytes_eq→eq,
  Bool-cases, inl, inr, arith,
}
use mathlib.Core.Bool.{false≢true}
use gridwell.Client.Outbox.Saves.{
  Task, Run, SaveQueue, write, new_save_queue, add, answered_by, take_next, kept_before, pick,
  finish_picked, finish,
}

at_most_one : (b : Bool) → (if b then 1 else 0) ≤ 1
at_most_one true = omega arith
at_most_one false = omega arith

pub one_when : {b c : Bool} → b ≡ c → ◌≡◌ {A = ℕ} (if b then 1 else 0) (if c then 1 else 0)
one_when e = ap (λ (b : Bool). if b then 1 else 0) e

module _ {ℓ} {A : Type ℓ} where
  -- How many goroutines a key has.
  abbrev pub live : Bytes → List (Run A) → ℕ
  live k [] = 0
  live k (r ∷ rs) = (if bytes_eq r.key k then 1 else 0) + live k rs

  -- A key has one goroutine while it is busy and none else, and then nothing pends on it.
  pub record IsServed (q : SaveQueue A) (k : Bytes) : Type ℓ where
    pub one : live k q.runs ≡ (if q.busy k then 1 else 0)
    pub idle : q.busy k ≡ false → q.pending k ≡ []

  abbrev pub tasks_if : Bool → List (Task A) → List (Task A)
  tasks_if true ts = ts
  tasks_if false ts = []

  -- The tasks that a key's goroutines run.
  abbrev pub running : Bytes → List (Run A) → List (Task A)
  running k [] = []
  running k (r ∷ rs) = let rest = running k rs in if bytes_eq r.key k then r.task ∷ rest else rest

  -- The task that a finish ends, if it is of the key.
  abbrev pub ended_by : Bytes → Option (Run A × List (Run A)) → List (Task A)
  ended_by k none = []
  ended_by k (some (r, others)) = tasks_if (bytes_eq r.key k) (r.task ∷ [])

  not_live-running : (k : Bytes) (rs : List (Run A)) → live k rs ≡ 0 → running k rs ≡ []
  not_live-running k [] e = refl
  not_live-running k (r ∷ rs) e = elim (Bool-cases (bytes_eq r.key k)) [
    | inl g ↦ absurd (omega (arith, one_when g, e))
    | inr g ↦ rw g (not_live-running k rs (omega (arith, one_when g, e)))
  ]

  pub add-IsServed :
      (q : SaveQueue A) (key k : Bytes) (t : Task A) → IsServed q k → IsServed (add q key t) k
  unfolding add
  add-IsServed q key k t v = started (q.busy key) refl
    where
      started :
          (b : Bool)
          → q.busy key ≡ b
          → IsServed
              (if b
                then record q { pending = write q.pending key (q.pending key ++ t ∷ []) }
                else record q {
                  busy = write q.busy key true;
                  runs = record { key = key; task = t; prev = true } ∷ q.runs;
                })
              k
      started true e = record {
        one = v.one;
        idle = λ h. elim (Bool-cases (bytes_eq key k)) [
          | inl g ↦ absurd (false≢true (sym h ∙ ap q.busy (sym (bytes_eq→eq key k g)) ∙ e))
          | inr g ↦ rw g (v.idle h)
        ];
      }
      started false e = record {
        one = elim (Bool-cases (bytes_eq key k)) [
          | inl g ↦ rw g (
              omega (
                arith,
                v.one
                    ∙ ap (λ (c : Bool). if c then 1 else 0)
                        (ap q.busy (sym (bytes_eq→eq key k g)) ∙ e),
              ))
          | inr g ↦ rw g (omega (arith, v.one))
        ];
        idle = λ h. elim (Bool-cases (bytes_eq key k)) [
          | inl g ↦ absurd (false≢true (sym h ∙ rw g refl))
          | inr g ↦ v.idle (sym (rw g refl) ∙ h)
        ];
      }

  pub add-order :
      (q : SaveQueue A) (key k : Bytes) (t : Task A)
      → IsServed q k
      → running k (add q key t).runs ++ (add q key t).pending k
        ≡ (running k q.runs ++ q.pending k) ++ tasks_if (bytes_eq key k) (t ∷ [])
  unfolding add
  add-order q key k t v = started (q.busy key) refl
    where
      same : (b : Bool) → bytes_eq key k ≡ true → q.busy key ≡ b → q.busy k ≡ b
      same b g e = ap q.busy (sym (bytes_eq→eq key k g)) ∙ e

      started :
          (b : Bool)
          → q.busy key ≡ b
          → let q' =
              if b
              then record q { pending = write q.pending key (q.pending key ++ t ∷ []) }
              else record q {
                busy = write q.busy key true;
                runs = record { key = key; task = t; prev = true } ∷ q.runs;
              } in
            running k q'.runs ++ q'.pending k
            ≡ (running k q.runs ++ q.pending k) ++ tasks_if (bytes_eq key k) (t ∷ [])
      started true e = elim (Bool-cases (bytes_eq key k)) [
        | inl g ↦ rw g (
            ap (λ (j : Bytes). running k q.runs ++ (q.pending j ++ t ∷ [])) (bytes_eq→eq key k g)
            ∙ sym (append_assoc (running k q.runs) (q.pending k) (t ∷ [])))
        | inr g ↦ rw g (sym (append-nil (running k q.runs ++ q.pending k)))
      ]
      started false e = elim (Bool-cases (bytes_eq key k)) [
        | inl g ↦
            let nothing = v.idle (same false g e) in
            let none_run = not_live-running k q.runs (v.one ∙ one_when (same false g e)) in
            rw (g, nothing, none_run) refl
        | inr g ↦ rw g (sym (append-nil (running k q.runs ++ q.pending k)))
      ]

  -- The goroutine picked and the others are all there are.
  abbrev Parted : Bytes → List (Run A) → Option (Run A × List (Run A)) → Type 0
  Parted k rs none = Unit
  Parted k rs (some (r, others)) = live k rs ≡ (if bytes_eq r.key k then 1 else 0) + live k others

  pick-Parted : (i : ℕ) (rs : List (Run A)) (k : Bytes) → Parted k rs (pick i rs)
  pick-Parted i [] k = tt
  pick-Parted zero (r ∷ rs) k = refl
  pick-Parted (suc i) (r ∷ rs) k = kept (pick i rs) (pick-Parted i rs k)
    where
      kept :
          (o : Option (Run A × List (Run A))) → Parted k rs o → Parted k (r ∷ rs) (kept_before r o)
      kept none h = tt
      kept (some (s, ss)) h = omega (arith, h)

  -- A goroutine past its task, given what pends on its key.
  take_next-IsServed :
      (q : SaveQueue A) (r : Run A) (others : List (Run A)) (landed : Bool) (k : Bytes)
      → IsServed q k
      → live k q.runs ≡ (if bytes_eq r.key k then 1 else 0) + live k others
      → (ts : List (Task A)) → IsServed (take_next q r.key landed others ts) k
  take_next-IsServed q r others landed k v e [] = elim (Bool-cases (bytes_eq r.key k)) [
    | inl g ↦
        let only : live k others ≡ 0 =
          omega (arith, e, one_when g, v.one, at_most_one (q.busy k)) in
        record { one = rw g only; idle = λ h. rw g refl }
    | inr g ↦
        let same : live k others ≡ live k q.runs = omega (arith, e, one_when g) in
        record { one = rw g (same ∙ v.one); idle = λ h. rw g (v.idle (rw g at h)) }
  ]
  take_next-IsServed q r others landed k v e (t ∷ ts) = record {
    one = sym e ∙ v.one;
    idle = λ h. elim (Bool-cases (bytes_eq r.key k)) [
      | inl g ↦ absurd (omega (arith, e, one_when g, v.one, one_when h))
      | inr g ↦ rw g (v.idle h)
    ];
  }

  pub finish-IsServed :
      (q : SaveQueue A) (i : ℕ) (landed : Bool) (k : Bytes)
      → IsServed q k
      → IsServed (finish q i landed) k
  unfolding finish
  finish-IsServed q i landed k v = picked (pick i q.runs) (pick-Parted i q.runs k)
    where
      picked :
          (o : Option (Run A × List (Run A)))
          → Parted k q.runs o
          → IsServed (finish_picked q landed o) k
      picked none h = v
      picked (some (r, others)) h =
          take_next-IsServed q r others (answered_by r.task r.prev landed) k v h (q.pending r.key)

  -- What the goroutine picked runs, and what the others run.
  abbrev Shared : Bytes → List (Run A) → Option (Run A × List (Run A)) → Type ℓ
  Shared k rs none = rs ≡ rs
  Shared k rs (some (r, others)) =
      tasks_if (bytes_eq r.key k) (r.task ∷ []) ++ running k others ≡ running k rs

  pick-Shared : (i : ℕ) (rs : List (Run A)) (k : Bytes) → live k rs ≤ 1 → Shared k rs (pick i rs)
  pick-Shared i [] k h = refl
  pick-Shared zero (r ∷ rs) k h = elim (Bool-cases (bytes_eq r.key k)) [
    | inl g ↦ rw g refl
    | inr g ↦ rw g refl
  ]
  pick-Shared (suc i) (r ∷ rs) k h =
      kept (pick i rs) (pick-Parted i rs k) (pick-Shared i rs k (omega (arith, h)))
    where
      kept :
          (o : Option (Run A × List (Run A)))
          → Parted k rs o
          → Shared k rs o
          → Shared k (r ∷ rs) (kept_before r o)
      kept none p e = refl
      kept (some (s, ss)) p e = elim (Bool-cases (bytes_eq r.key k)) [
        | inr g ↦ rw g e
        | inl g ↦ elim (Bool-cases (bytes_eq s.key k)) [
          | inl d ↦ absurd (omega (arith, h, p, one_when g, one_when d))
          | inr d ↦ rw (g, d) (ap (λ (ts : List (Task A)). r.task ∷ ts) (rw d at e))
        ]
      ]

  take_next-order :
      (q : SaveQueue A) (r : Run A) (k : Bytes) (landed : Bool) (others : List (Run A))
      (ts : List (Task A))
      → q.pending r.key ≡ ts
      → tasks_if (bytes_eq r.key k) (r.task ∷ []) ++ running k others ≡ running k q.runs
      → (bytes_eq r.key k ≡ true → running k others ≡ [])
      → let q' = take_next q r.key landed others ts in
        tasks_if (bytes_eq r.key k) (r.task ∷ []) ++ (running k q'.runs ++ q'.pending k)
        ≡ running k q.runs ++ q.pending k
  take_next-order q r k landed others [] e s z = elim (Bool-cases (bytes_eq r.key k)) [
    | inl g ↦
        let nothing = ap q.pending (sym (bytes_eq→eq r.key k g)) ∙ e in
        let own : r.task ∷ [] ≡ running k q.runs = rw (g, z g) at s in
        rw (g, z g, nothing, sym own) refl
    | inr g ↦ rw g (ap (λ (ts : List (Task A)). ts ++ q.pending k) (rw g at s))
  ]
  take_next-order q r k landed others (t ∷ ts) e s z = elim (Bool-cases (bytes_eq r.key k)) [
    | inl g ↦
        let some_pend = ap q.pending (sym (bytes_eq→eq r.key k g)) ∙ e in
        let own : r.task ∷ [] ≡ running k q.runs = rw (g, z g) at s in
        rw (g, z g, some_pend, sym own) refl
    | inr g ↦ rw g (ap (λ (ts : List (Task A)). ts ++ q.pending k) (rw g at s))
  ]

  -- What a finish ends, what then runs and what pends are what ran and what pended.
  pub finish-order :
      (q : SaveQueue A) (i : ℕ) (landed : Bool) (k : Bytes)
      → IsServed q k
      → ended_by k (pick i q.runs)
          ++ (running k (finish q i landed).runs ++ (finish q i landed).pending k)
        ≡ running k q.runs ++ q.pending k
  unfolding finish
  finish-order q i landed k v =
      picked (pick i q.runs) (pick-Parted i q.runs k) (pick-Shared i q.runs k served)
    where
      served : live k q.runs ≤ 1
      served = omega (arith, v.one, at_most_one (q.busy k))

      picked :
          (o : Option (Run A × List (Run A)))
          → Parted k q.runs o
          → Shared k q.runs o
          → let q' = finish_picked q landed o in
            ended_by k o ++ (running k q'.runs ++ q'.pending k) ≡ running k q.runs ++ q.pending k
      picked none p s = refl
      picked (some (r, others)) p s =
          take_next-order q r k (answered_by r.task r.prev landed) others (q.pending r.key) refl s
            (λ g. not_live-running k others (omega (arith, p, one_when g, served)))

  pub new_save_queue-IsServed : (k : Bytes) → IsServed new_save_queue k
  new_save_queue-IsServed k = record { one = refl; idle = λ h. refl }
