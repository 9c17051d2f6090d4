-- ===== src/Projection/Engine.antt =====
-- ProjectionEngine::start, stop and the thread that they control (src/projection/ProjectionEngine.cpp).
-- A step is one access to running_, one cycle, which holds the database lock, or the return of a join.
-- One thread owns the engine: it calls start and stop, one after the other, so while stop waits in the
-- join no other call is made. sleep_for is the time between two steps of the engine's thread.
pub mod Stop
use syrius_orbit_daemon.Common.{
  Bool, true, false, not, Option, none, some, List, [], ◌∷◌, fold_left, if◌then◌else◌,
}
use syrius_orbit_daemon.Codec.{Codec}
use syrius_orbit_daemon.Db.Events.{Event, Table}
use syrius_orbit_daemon.Projection.{ReadModel, cycle}

-- Where run stands: at the test of the while, behind the sleep, before the cycle, or at its end.
pub data Loop : Type 0 where
  testing slept projecting ended : Loop

pub record Engine : Type 0 where
  pub running : Bool
  pub thread : Option Loop  -- a thread that can be joined
  pub joining : Bool  -- stop waits in thread_.join()
  pub read_model : ReadModel

abbrev pub new_engine : ReadModel → Engine
new_engine m = record { running = false; thread = none; joining = false; read_model = m }

-- start.
unfoldable pub start : Engine → Engine
start e = if e.running then e else record e { running = true; thread = some testing }

-- stop, up to the join; a thread that can be joined is waited for.
abbrev begin_join : Option Loop → Bool
begin_join none = false
begin_join (some loop) = true

unfoldable pub stop : Engine → Engine
stop e = if not e.running then e else record e { running = false; joining = begin_join e.thread }

-- The join returns where run is at its end.
abbrev joined : Option Loop → Engine → Engine
joined (some ended) e = record e { thread = none; joining = false }
joined thread e = e

unfoldable pub join : Engine → Engine
join e = if e.joining then joined e.thread e else e

module _ (scan : List Event → List Event) (c : Codec) where
  -- A step of run at its place; `log` is the event log that a cycle finds.
  abbrev loop_step : Table → Option Loop → Engine → Engine
  loop_step log none e = e
  loop_step log (some testing) e =
      if e.running then record e { thread = some slept } else record e { thread = some ended }
  loop_step log (some slept) e =
      if not e.running
      then record e { thread = some ended }
      else record e { thread = some projecting }
  loop_step log (some projecting) e = record e {
    thread = some testing;
    read_model = cycle scan c log e.read_model;
  }
  loop_step log (some ended) e = e

  -- run, one step.
  unfoldable pub run_step : Table → Engine → Engine
  run_step log e = loop_step log e.thread e

-- The owner's calls, its wait in stop, or a step of the engine's thread.
pub data Turn : Type 0 where
  call_start call_stop wait : Turn
  thread_turn : Table → Turn

module _ (scan : List Event → List Event) (c : Codec) where
  unfoldable pub step : Engine → Turn → Engine
  step e call_start = if e.joining then e else start e
  step e call_stop = if e.joining then e else stop e
  step e wait = join e
  step e (thread_turn log) = run_step scan c log e

  unfoldable pub run_turns : Engine → List Turn → Engine
  run_turns = fold_left step
