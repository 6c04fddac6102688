-- ===== src/Server/Tests.antt =====
-- Runs of the tracker and of Run, and their laws at concrete reports.
use webhttp.Prelude.{◌≤◌, true, false, List, [], ◌∷◌, ◌++◌, ◌≡◌, refl, some}
use webhttp.Server.Silent.{
  SilentConns, no_conns, state_new, state_other, ConnEvent, conn_state, on_shutdown,
}
use webhttp.Server.Silent
use webhttp.Server.Silent.Fate.{Agrees, fate, unseen, count_conn, run_refines}
use webhttp.Server.Silent.Shutdown.{run-closes, run-spares}
use webhttp.Server.Run.{
  RunConfig, run_server, server_closed, shutdown_late, pre_drain, shutdown, grace_expired,
}
use webhttp.Server.Run.Order.{IsOrderly, is_none, run_server-IsOrderly}

-- 1 speaks, 2 stays silent, 3 comes after the shutdown
abbrev early : List ConnEvent
early = conn_state 1 state_new ∷ conn_state 2 state_new ∷ conn_state 1 state_other ∷ []

abbrev late : List ConnEvent
late = conn_state 3 state_new ∷ []

runs : (Silent.run (early ++ on_shutdown ∷ late) no_conns).closed ≡ 2 ∷ 3 ∷ []
unfolding Silent.run
runs = refl

run_refines_example :
    Agrees 2
      (Silent.run (early ++ on_shutdown ∷ late) no_conns)
      (fate 2 (early ++ on_shutdown ∷ late) unseen)
run_refines_example = run_refines 2 (early ++ on_shutdown ∷ late)

run-closes_example : 1 ≤ count_conn 3 (Silent.run (early ++ on_shutdown ∷ late) no_conns).closed
run-closes_example = run-closes 3 (early ++ on_shutdown ∷ late) refl refl

run-spares_example : count_conn 1 (Silent.run (early ++ on_shutdown ∷ late) no_conns).closed ≡ 0
run-spares_example = run-spares 1 early late refl refl refl

abbrev draining : RunConfig
draining = record { has_pre_drain = true; has_serve_exit = true; shutdown_grace = 5 }

drain_run :
    run_server draining false true 100 server_closed shutdown_late
    ≡ (pre_drain 105 ∷ (shutdown 105 ∷ []), some grace_expired)
unfolding run_server
drain_run = refl

run_server-IsOrderly_example :
    let (calls, err) = run_server draining false true 100 server_closed shutdown_late in
    IsOrderly draining false true 100 server_closed shutdown_late calls (is_none err)
run_server-IsOrderly_example =
    run_server-IsOrderly draining false true 100 server_closed shutdown_late
