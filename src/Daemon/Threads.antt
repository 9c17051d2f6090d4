-- ===== src/Daemon/Threads.antt =====
-- The threads of the program: main's loop on the signal and daemon_finished, and Daemon::stop, on one
-- (src/main.cpp), Daemon::run with daemon_finished on another, and the HTTP server's own
-- (src/Daemon.cpp). A step is an access to what they share: the atomic flags, stop_http_server_fn_
-- under its mutex, the server, a join. What run does between is one step (`Daemon.run` has its
-- detail), and each of its tests takes its outcome from the turn. The two reads of main's loop
-- condition are one step, as both flags are only ever set. `early` is what httplib's stop does on a
-- server whose thread has not begun to listen: whether that stop is remembered, or lost.
pub mod Phases
pub mod Servers
pub mod Ends
pub mod Signal
pub mod Exits
pub mod Leaves
pub mod Lost
use syrius_orbit_daemon.Common.{
  ℕ, Bool, true, false, not, ◌||◌, List, [], ◌∷◌, fold_left, if◌then◌else◌,
}

pub data Server : Type 0 where
  absent bound starting listening halting ended destroyed : Server

-- httplib's Server::stop. The HTTP thread still has to leave listen_after_bind.
abbrev pub stop_server : Bool → Server → Server
stop_server early listening = halting
stop_server true starting = halting
stop_server early s = s

-- Where Daemon::run stands, with its local copy of the stop function and its result.
pub data Phase : Type 0 where
  preparing binding registering launching waiting copying joining clearing stopping : Phase
  calling : Bool → Phase
  returned finished : ℕ → Phase

-- Where main stands. In `undefined` it has called stop on a destroyed server, from where on C++ says
-- nothing of what the program does.
pub data Watch : Type 0 where
  polling deciding requesting fetching joining_daemon undefined : Watch
  invoking : Bool → Watch
  exited : ℕ → Watch

pub record System : Type 0 where
  pub signal_received : Bool
  pub stop_requested : Bool
  pub stop_http_server_fn : Bool
  pub server : Server
  pub http_server_started : Bool
  pub exit_code : ℕ
  pub phase : Phase
  pub watch : Watch

-- main before its loop, with the thread of the daemon just created.
abbrev pub initial : System
initial = record {
  signal_received = false;
  stop_requested = false;
  stop_http_server_fn = false;
  server = absent;
  http_server_started = false;
  exit_code = 0;
  phase = preparing;
  watch = polling;
}

abbrev pub is_finished : Phase → Bool
is_finished (finished code) = true
is_finished _ = false

-- The HTTP thread is at its end, and http_thread.join() returns.
abbrev pub is_ended : Server → Bool
is_ended ended = true
is_ended _ = false

-- A step of run at its phase, and the store to daemon_finished behind it. `answer` says whether the
-- start-up succeeds, whether the port is bound, and whether the gateway still runs.
unfoldable pub daemon_step : Bool → Bool → Phase → System → System
daemon_step early answer preparing s =
    if answer then record s { phase = binding } else record s { phase = returned 1 }
daemon_step early answer binding s =
    if answer
    then record s { server = bound; phase = registering }
    else record s { server = absent; phase = waiting }
daemon_step early answer registering s = record s { stop_http_server_fn = true; phase = launching }
daemon_step early answer launching s =
    if not s.stop_requested
    then record s { http_server_started = true; server = starting; phase = waiting }
    else record s { phase = waiting }
daemon_step early answer waiting s =
    if s.stop_requested
    then record s { phase = copying }
    else if not answer
    then record s { exit_code = 1; phase = copying }
    else s
daemon_step early answer copying s = record s { phase = calling s.stop_http_server_fn }
daemon_step early answer (calling held) s =
    if held
    then record s { server = stop_server early s.server; phase = joining }
    else record s { phase = joining }
daemon_step early answer joining s =
    if s.http_server_started
    then (if is_ended s.server then record s { phase = clearing } else s)
    else record s { phase = clearing }
daemon_step early answer clearing s = record s { stop_http_server_fn = false; phase = stopping }
daemon_step early answer stopping s = record s { server = destroyed; phase = returned s.exit_code }
daemon_step early answer (returned code) s = record s { phase = finished code }
daemon_step early answer (finished code) s = s

abbrev pub is_destroyed : Server → Bool
is_destroyed destroyed = true
is_destroyed _ = false

-- daemon_thread.join() and what main does behind it.
abbrev pub join_daemon : Phase → System → System
join_daemon (finished code) s = record s { watch = exited code }
join_daemon phase s = s

-- Daemon::stop: the store to stop_requested_, the copy of the stop function under its mutex, and the
-- call of the copy.
abbrev pub request_stop : System → System
request_stop s = record s { stop_requested = true; watch = fetching }

abbrev pub copy_stop_fn : System → System
copy_stop_fn s = record s { watch = invoking s.stop_http_server_fn }

abbrev pub call_stop_fn : Bool → Bool → System → System
call_stop_fn early held s =
    if held
    then (if is_destroyed s.server
        then record s { watch = undefined }
        else record s { server = stop_server early s.server; watch = joining_daemon })
    else record s { watch = joining_daemon }

-- A step of main's loop, of Daemon::stop, and of the join.
unfoldable pub main_step : Bool → Watch → System → System
main_step early polling s =
    if s.signal_received || is_finished s.phase then record s { watch = deciding } else s
main_step early deciding s =
    if not (is_finished s.phase)
    then record s { watch = requesting }
    else record s { watch = joining_daemon }
main_step early requesting s = request_stop s
main_step early fetching s = copy_stop_fn s
main_step early (invoking held) s = call_stop_fn early held s
main_step early joining_daemon s = join_daemon s.phase s
main_step early undefined s = s
main_step early (exited code) s = s

-- The HTTP thread begins to listen, or returns from listen_after_bind.
abbrev pub http_step : Server → Server
http_step starting = listening
http_step halting = ended
http_step s = s

-- on_signal, or the turn of a thread.
pub data Turn : Type 0 where
  signal http main : Turn
  daemon : Bool → Turn

module _ (early : Bool) where
  unfoldable pub step : System → Turn → System
  unfolding daemon_step main_step
  step s signal = record s { signal_received = true }
  step s http = record s { server = http_step s.server }
  step s main = main_step early s.watch s
  step s (daemon answer) = daemon_step early answer s.phase s

  unfoldable pub run_turns : System → List Turn → System
  run_turns = fold_left step
