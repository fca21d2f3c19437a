-- ===== src/Server/Sessions/Run.antt =====
-- internal/subscription/subscription.go: runs of the book, with what spread heard.
use gridwell.Base.{
  ℕ, ◌+◌, ◌-◌, ◌≡◌, refl, ap, ◌∙◌, List, [], ◌∷◌, ◌++◌, if◌then◌else◌, Bytes, bytes_eq, bytes-Eq,
  lookup, contains, arith,
}
use gridwell.Server.Sessions.{
  ShownView, Book, new_book, open_stream, close_stream, set_shown, sessions_at,
}
use gridwell.Server.Sessions.Tracked.{streams_of}
use gridwell.Server.Sessions.Steps.{
  IsBook, last_told, Steps, open-Steps, close-Steps, set-Steps, sessions_at-Steps,
}

-- What clients do to the book, and who lists it.
pub data BookOp : Type 0 where
  opens : Bytes → BookOp
  closes : Bytes → ℕ → BookOp
  sets : Bytes → ShownView → ℕ → BookOp
  lists : ℕ → BookOp

abbrev book_step : Book → BookOp → Book × List (List Bytes)
book_step b (opens id) = open_stream b id
book_step b (closes id now) = close_stream b id now
book_step b (sets id v now) = set_shown b id v now
book_step b (lists now) = ((sessions_at b now).0, [])

abbrev pub run_book : Book → List BookOp → Book × List (List Bytes)
run_book b [] = (b, [])
run_book b (op ∷ ops) =
    let (b', told) = book_step b op in let (end, later) = run_book b' ops in (end, told ++ later)

-- The streams open under an id, by the opens and closes alone.
abbrev live_step : (Bytes → ℕ) → BookOp → Bytes → ℕ
live_step n (opens id) j = if bytes_eq id j then n j + 1 else n j
live_step n (closes id now) j = if bytes_eq id j then n j - 1 else n j
live_step n (sets id v now) j = n j
live_step n (lists now) j = n j

abbrev pub live_streams : (Bytes → ℕ) → List BookOp → Bytes → ℕ
live_streams n [] = n
live_streams n (op ∷ ops) = live_streams (live_step n op) ops

step-Steps :
    (b : Book) (op : BookOp) → IsBook b → Steps b (live_step (streams_of b) op) (book_step b op)
step-Steps b (opens id) h = open-Steps b id h
step-Steps b (closes id now) h = close-Steps b id now h
step-Steps b (sets id v now) h = set-Steps b id v now h
step-Steps b (lists now) h = sessions_at-Steps b now h

last_told-append :
    (u : List Bytes) (s t : List (List Bytes)) → last_told u (s ++ t) ≡ last_told (last_told u s) t
last_told-append u [] t = refl
last_told-append u (v ∷ s) t = last_told-append v s t

live_step-same :
    (m n : Bytes → ℕ) (op : BookOp)
    → ((j : Bytes) → m j ≡ n j)
    → (j : Bytes) → live_step m op j ≡ live_step n op j
live_step-same m n (opens id) e j = ground (arith, e j)
live_step-same m n (closes id now) e j = ground (arith, e j)
live_step-same m n (sets id v now) e j = e j
live_step-same m n (lists now) e j = e j

run_book-Steps :
    (b : Book) (n : Bytes → ℕ) (ops : List BookOp)
    → ((j : Bytes) → streams_of b j ≡ n j)
    → IsBook b
    → Steps b (live_streams n ops) (run_book b ops)
run_book-Steps b n [] e h = (h, e, refl)
run_book-Steps b n (op ∷ ops) e h =
    let r = book_step b op in
    let (h', streams, told) = step-Steps b op h in
    let (end, left, later) =
      run_book-Steps r.0 (live_step n op) ops
        (λ j. streams j ∙ live_step-same (streams_of b) n op e j) h' in
    (
      end,
      left,
      last_told-append b.union r.1 (run_book r.0 ops).1
          ∙ ap (λ u. last_told u (run_book r.0 ops).1) told
          ∙ later,
    )

-- After any opens, closes, views and listings of a new book: a session has the streams that were opened
-- under its id and not closed, so one with a stream is never forgotten; the idle sessions are those
-- without one, each once and sixteen at most; the union holds, ascending, exactly the grids that a
-- session with a stream shows; and the last union that spread heard is it.
pub run_book-IsBook :
    (ops : List BookOp)
    → let r = run_book new_book ops in
      IsBook r.0
      × ((j : Bytes) → streams_of r.0 j ≡ live_streams (λ k. 0) ops j)
      × (last_told [] r.1 ≡ r.0.union)
unfolding contains lookup
run_book-IsBook ops =
    run_book-Steps new_book (λ k. 0) ops (λ j. refl)
      (record {
        kept = record { tracked = record { once = refl; same = λ j. refl }; bounded = omega arith };
        union_shows = λ g. refl;
        ascending = refl;
      })
