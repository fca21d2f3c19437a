-- ===== src/Tests/Selections.antt =====
-- The selects of a grid on concrete runs.
use gridwell.Base.{
  ◌≡◌, refl, true, List, [], ◌∷◌, Bytes, bytes, bytes_eq, lookup, insert, delete, contains, has_key,
  sorted, compact, sort_insert, bytes_le, bytes-Eq, arith,
}
use gridwell.Client.Selections.{selection, list_or_none, select, answered, select_locked, sent_of}
use gridwell.Client.Selections.Owed.{
  SelectOp, selects, sends, lands, tells, run_selects, run_tile, drawn_of,
}
use gridwell.Client.Selections.Run.{fresh, fresh_tile, run_selects-drawn}

abbrev told_one : List (Bytes × List Bytes)
told_one = (bytes "g", bytes "a" ∷ []) ∷ []

-- A select, its write, a second word on the tile before the answer, and another writer's set.
abbrev some_selects : List SelectOp
some_selects =
    selects (bytes "g") (bytes "b" ∷ []) (bytes "a" ∷ [])
    ∷ sends (bytes "g")
    ∷ selects (bytes "g") (bytes "a" ∷ []) []
    ∷ lands (bytes "g")
    ∷ tells (bytes "g") (bytes "c" ∷ [])
    ∷ []

run_selects-drawn_example :
    let t =
      run_tile
        (has_key (bytes "g") told_one)
        (bytes "g")
        (bytes "a")
        (fresh_tile (contains (bytes "a") (list_or_none (lookup (bytes "g") told_one))))
        some_selects in
    contains (bytes "a") (selection (run_selects (fresh told_one) some_selects).cache (bytes "g"))
    ≡ drawn_of t.state t.node
run_selects-drawn_example =
    run_selects-drawn told_one some_selects (bytes "g") (bytes "a") (omega arith)

told_over :
    (select_locked (run_selects (fresh told_one) some_selects).cache (bytes "g") []).1 ≡ true
unfolding select answered select_locked sent_of lookup insert delete contains sorted compact
    sort_insert bytes_le bytes_eq
told_over = refl
