-- ===== src/Tests/Sessions.antt =====
-- The book of sessions of internal/subscription on a concrete run.
use gridwell.Base.{
  ◌≡◌, refl, List, [], ◌∷◌, Bytes, bytes, bytes_eq, compact_out, lookup, insert, sorted, compact,
  sort_insert, bytes_le,
}
use gridwell.Server.Sessions.{
  ShownView, new_book, open_stream, close_stream, set_shown, recount, at, rest,
}
use gridwell.Server.Sessions.Tracked.{streams_of}
use gridwell.Server.Sessions.Steps.{IsBook, last_told}
use gridwell.Server.Sessions.Run.{
  BookOp, opens, closes, sets, lists, run_book, live_streams, run_book-IsBook,
}

abbrev showing : List Bytes → ShownView
showing grids = record { grids = grids; others = [] }

-- A view before its stream, a second client, and the first one going away.
abbrev some_clients : List BookOp
some_clients =
    sets (bytes "one") (showing (bytes "a/2" ∷ bytes "a/1" ∷ [])) 5
    ∷ opens (bytes "one")
    ∷ opens (bytes "two")
    ∷ sets (bytes "two") (showing (bytes "a/1" ∷ [])) 7
    ∷ closes (bytes "one") 9
    ∷ lists 12
    ∷ []

run_book-IsBook_example :
    let r = run_book new_book some_clients in
    IsBook r.0
    × ((j : Bytes) → streams_of r.0 j ≡ live_streams (λ k. 0) some_clients j)
    × (last_told [] r.1 ≡ r.0.union)
run_book-IsBook_example = run_book-IsBook some_clients

clients_told :
    (run_book new_book some_clients).1 ≡ (bytes "a/1" ∷ bytes "a/2" ∷ []) ∷ (bytes "a/1" ∷ []) ∷ []
unfolding open_stream close_stream set_shown recount at rest compact_out lookup insert sorted
    compact sort_insert bytes_le bytes_eq
clients_told = refl
