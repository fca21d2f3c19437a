-- ===== src/Tests/Notices.antt =====
-- The notice queue of client/errsurface on concrete reports.
use gridwell.Base.{◌≡◌, refl, ◌≤◌, ◌⊎◌, none, bytes, List, [], ◌∷◌, length}
use gridwell.Client.Notices.{
  info, error, no_action, disable, new_surface, take_source, offer, max_notices,
}
use gridwell.Client.Notices.Queue.{
  IsQueue, SurfaceOp, offers, reports, expires, dismisses, resolves, run_surface,
  run_surface-IsQueue, plain, offer-bounded,
}

abbrev some_reports : List SurfaceOp
some_reports =
    reports error (bytes "rpc:MoveTile") (bytes "no such tile") 100
    ∷ offers info (bytes "plugin:ab12") (bytes "down") disable 200
    ∷ reports error (bytes "rpc:MoveTile") (bytes "no such tile") 300
    ∷ expires 20000000000
    ∷ dismisses 1
    ∷ resolves (bytes "plugin:ab12")
    ∷ []

run_surface-IsQueue_example : IsQueue (run_surface new_surface some_reports)
run_surface-IsQueue_example = run_surface-IsQueue some_reports

nothing_reported : take_source (bytes "events") new_surface.notices ≡ none
unfolding take_source new_surface
nothing_reported = refl

offer-bounded_example :
    let ns =
      (offer new_surface info (bytes "events") (bytes "stream down") no_action 100).notices in
    (length ns ≤ max_notices) ⊎ (plain ns ≡ 0)
offer-bounded_example =
    offer-bounded new_surface info (bytes "events") (bytes "stream down") no_action 100
      nothing_reported
