-- ===== src/Tests/Threads.antt =====
-- The threads of main, the daemon and the projection.
use syrius_orbit_daemon.Common.{
  ℕ, ◌≡◌, refl, true, false, List, [], ◌∷◌, ◌++◌, ◌⊎◌, arith, fold_left,
}
use syrius_orbit_daemon.Daemon.Threads.{
  finished, exited, undefined, initial, daemon_step, main_step, Turn, signal, http, main, daemon,
  step, run_turns,
}
use syrius_orbit_daemon.Daemon.Threads.Exits.{signal-exits}
use syrius_orbit_daemon.Daemon.Threads.Leaves.{IsDown, exited-IsDown}
use syrius_orbit_daemon.Projection.Engine
use syrius_orbit_daemon.Projection.Engine.{new_engine, call_start, call_stop, wait, thread_turn}
use syrius_orbit_daemon.Projection.Engine.Stop.{Stopped, run_logs, stop-returns}
use syrius_orbit_daemon.Tests.Data.{codec, log, no_rows}
use syrius_orbit_daemon.Tests.Events.{scan}

-- The daemon is up and waits, the HTTP server listens, then a signal comes.
abbrev serving : List Turn
serving =
    daemon true ∷ daemon true ∷ daemon true ∷ daemon true ∷ http ∷ daemon true ∷ main ∷ signal ∷ []

abbrev asking : List Turn
asking = main ∷ daemon true ∷ main ∷ main ∷ []

abbrev calling : List Turn
calling = main ∷ daemon true ∷ daemon true ∷ daemon true ∷ main ∷ []

abbrev ending : List Turn
ending = daemon true ∷ daemon true ∷ main ∷ daemon true ∷ daemon true ∷ []

abbrev joins : List Turn
joins = main ∷ main ∷ main ∷ main ∷ main ∷ main ∷ []

signal-exits_example :
    let run = run_turns false in
    let s =
      run (run (run (run (run (run initial serving) asking) calling) (http ∷ [])) ending) joins in
    ((code : ℕ) × (s.watch ≡ exited code) × (s.phase ≡ finished code)) ⊎ (s.watch ≡ undefined)
unfolding run_turns fold_left step daemon_step main_step
signal-exits_example =
    signal-exits false serving asking calling (http ∷ []) ending joins (refl, λ _. refl) refl
      (omega arith) (omega arith) (omega arith) (omega arith) (omega arith)

abbrev whole : List Turn
whole = serving ++ asking ++ calling ++ (http ∷ []) ++ ending ++ joins

exited-IsDown_example :
    ((run_turns false initial whole).phase ≡ finished 0) × IsDown (run_turns false initial whole)
unfolding run_turns fold_left step daemon_step main_step
exited-IsDown_example = exited-IsDown false whole 0 refl

-- The HTTP thread is created, and main's stop and the daemon's own come before it listens.
abbrev early_stop : List Turn
early_stop =
    daemon true
    ∷ daemon true
    ∷ daemon true
    ∷ daemon true
    ∷ signal
    ∷ main
    ∷ main
    ∷ main
    ∷ main
    ∷ main
    ∷ daemon true
    ∷ daemon true
    ∷ daemon true
    ∷ []

-- main holds a copy of the stop function while run returns, and calls it on a server that is gone.
abbrev late : List Turn
late =
    main
    ∷ daemon true
    ∷ daemon true
    ∷ daemon true
    ∷ http
    ∷ daemon true
    ∷ daemon true
    ∷ daemon true
    ∷ main
    ∷ []

late_call : (run_turns false initial (serving ++ asking ++ late)).watch ≡ undefined
unfolding run_turns fold_left step daemon_step main_step
late_call = refl

stop-returns_example :
    let e = Engine.run_turns scan codec (new_engine no_rows) (call_start ∷ thread_turn log ∷ []) in
    Stopped scan codec (log ∷ log ∷ []) e.read_model (
      Engine.step scan codec
        (run_logs scan codec (Engine.step scan codec e call_stop) (log ∷ log ∷ []))
        wait)
unfolding Engine.run_turns fold_left Engine.step Engine.start Engine.run_step
stop-returns_example =
    stop-returns scan codec (call_start ∷ thread_turn log ∷ []) no_rows (log ∷ log ∷ []) refl
      (omega arith)
