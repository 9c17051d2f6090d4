-- ===== src/Daemon/Threads/Phases.antt =====
-- What is known of the HTTP server at each phase of Daemon::run, once run waits and the server, if there
-- is one, listens.
use syrius_orbit_daemon.Common.{
  ◌≡◌, refl, Bool, true, false, not, ◌||◌, List, [], ◌∷◌, fold_left, if_ind, arith,
}
use syrius_orbit_daemon.Daemon.Threads.{
  Server, listening, halting, ended, stop_server, Phase, preparing, binding, registering, launching,
  waiting, copying, joining, clearing, stopping, calling, returned, finished, Watch, polling,
  deciding, requesting, fetching, joining_daemon, undefined, invoking, exited, System, is_finished,
  is_ended, daemon_step, is_destroyed, join_daemon, main_step, http_step, Turn, signal, http, main,
  daemon, step, run_turns,
}

-- A stop has reached the server.
abbrev pub is_heard : Server → Bool
is_heard halting = true
is_heard ended = true
is_heard _ = false

-- The server listens, or a stop has reached it.
abbrev pub is_live : Server → Bool
is_live listening = true
is_live v = is_heard v

-- The stop function is there when the HTTP thread is started.
abbrev pub RegisteredAt : Phase → System → Type 0
RegisteredAt preparing s = s.http_server_started ≡ false
RegisteredAt binding s = s.http_server_started ≡ false
RegisteredAt registering s = s.http_server_started ≡ false
RegisteredAt launching s = (s.http_server_started ≡ false) × (s.stop_http_server_fn ≡ true)
RegisteredAt waiting s = s.http_server_started ≡ true → s.stop_http_server_fn ≡ true
RegisteredAt phase s = Unit

-- A started server is live while run waits, and hears run's own stop.
abbrev pub LiveAt : Phase → System → Type 0
LiveAt waiting s =
    s.http_server_started ≡ true → (s.stop_http_server_fn ≡ true) × (is_live s.server ≡ true)
LiveAt copying s =
    s.http_server_started ≡ true → (s.stop_http_server_fn ≡ true) × (is_live s.server ≡ true)
LiveAt (calling held) s = s.http_server_started ≡ true → (held ≡ true) × (is_live s.server ≡ true)
LiveAt joining s = s.http_server_started ≡ true → is_heard s.server ≡ true
LiveAt clearing s = Unit
LiveAt stopping s = Unit
LiveAt (returned code) s = Unit
LiveAt (finished code) s = Unit
LiveAt phase s = ⊥

-- A property of the server that neither a stop nor the server's own thread undoes.
abbrev pub Steady : Bool → (Server → Bool) → Type 0
Steady early ok =
    ((v : Server) → ok v ≡ true → ok (stop_server early v) ≡ true)
    × ((v : Server) → ok v ≡ true → ok (http_step v) ≡ true)

pub is_live-Steady : (early : Bool) → Steady early is_live
is_live-Steady early = (λ v h. ground arith, λ v h. ground arith)

pub is_heard-Steady : (early : Bool) → Steady early is_heard
is_heard-Steady early = (λ v h. ground arith, λ v h. ground arith)

pub is_ended-Steady : (early : Bool) → Steady early is_ended
is_ended-Steady early = (λ v h. ground arith, λ v h. ground arith)

pub stop-heard :
    (early : Bool) (v : Server) → is_live v ≡ true → is_heard (stop_server early v) ≡ true
stop-heard early v h = ground arith

module _ (early : Bool) where
  -- A step of another thread: run stays where it is, and no steady property of the server is lost.
  pub record Calm (s s' : System) : Type 0 where
    pub phase : s'.phase ≡ s.phase
    pub started : s'.http_server_started ≡ s.http_server_started
    pub fn : s'.stop_http_server_fn ≡ s.stop_http_server_fn
    pub requested : s.stop_requested ≡ true → s'.stop_requested ≡ true
    pub server : (ok : Server → Bool) → Steady early ok → ok s.server ≡ true → ok s'.server ≡ true

  -- Only the place of main changes.
  moved : (s : System) (w : Watch) → Calm s (record s { watch = w })
  moved s w = record {
    phase = refl;
    started = refl;
    fn = refl;
    requested = λ h. h;
    server = λ ok k h. h;
  }

  join_daemon-Calm : (p : Phase) (s : System) → Calm s (join_daemon p s)
  join_daemon-Calm (finished code) s = moved s (exited code)
  join_daemon-Calm preparing s = moved s s.watch
  join_daemon-Calm binding s = moved s s.watch
  join_daemon-Calm registering s = moved s s.watch
  join_daemon-Calm launching s = moved s s.watch
  join_daemon-Calm waiting s = moved s s.watch
  join_daemon-Calm copying s = moved s s.watch
  join_daemon-Calm (calling held) s = moved s s.watch
  join_daemon-Calm joining s = moved s s.watch
  join_daemon-Calm clearing s = moved s s.watch
  join_daemon-Calm stopping s = moved s s.watch
  join_daemon-Calm (returned code) s = moved s s.watch

  pub main_step-Calm : (w : Watch) (s : System) → Calm s (main_step early w s)
  unfolding main_step
  main_step-Calm polling s =
      if_ind {A = System} (Calm s) (s.signal_received || is_finished s.phase)
        (λ _. moved s deciding) (λ _. moved s s.watch)
  main_step-Calm deciding s =
      if_ind {A = System} (Calm s) (not (is_finished s.phase)) (λ _. moved s requesting)
        (λ _. moved s joining_daemon)
  main_step-Calm requesting s = record {
    phase = refl;
    started = refl;
    fn = refl;
    requested = λ h. refl;
    server = λ ok k h. h;
  }
  main_step-Calm fetching s = moved s (invoking s.stop_http_server_fn)
  main_step-Calm (invoking false) s = moved s joining_daemon
  main_step-Calm (invoking true) s =
      if_ind {A = System} (Calm s) (is_destroyed s.server) (λ _. moved s undefined)
        (λ _. record {
          phase = refl;
          started = refl;
          fn = refl;
          requested = λ h. h;
          server = λ ok k h. k.0 s.server h;
        })
  main_step-Calm joining_daemon s = join_daemon-Calm s.phase s
  main_step-Calm undefined s = moved s s.watch
  main_step-Calm (exited code) s = moved s s.watch

  pub signal-Calm : (s : System) → Calm s (record s { signal_received = true })
  signal-Calm s = record {
    phase = refl;
    started = refl;
    fn = refl;
    requested = λ h. h;
    server = λ ok k h. h;
  }

  pub http-Calm : (s : System) → Calm s (record s { server = http_step s.server })
  http-Calm s = record {
    phase = refl;
    started = refl;
    fn = refl;
    requested = λ h. h;
    server = λ ok k h. k.1 s.server h;
  }

  -- What every step of another thread and every step of run keeps, every turn keeps.
  pub run_turns-keeps :
      (At : Phase → System → Type 0)
      → ((s s' : System) → Calm s s' → At s.phase s → At s'.phase s')
      → ((answer : Bool) (s : System)
          → At s.phase s
          → At (daemon_step early answer s.phase s).phase (daemon_step early answer s.phase s))
      → (turns : List Turn) (s : System) → At s.phase s
      → At (run_turns early s turns).phase (run_turns early s turns)
  unfolding run_turns fold_left step
  run_turns-keeps At calm own [] s h = h
  run_turns-keeps At calm own (signal ∷ turns) s h =
      run_turns-keeps At calm own turns _ (calm s _ (signal-Calm s) h)
  run_turns-keeps At calm own (http ∷ turns) s h =
      run_turns-keeps At calm own turns _ (calm s _ (http-Calm s) h)
  run_turns-keeps At calm own (main ∷ turns) s h =
      run_turns-keeps At calm own turns _ (calm s _ (main_step-Calm s.watch s) h)
  run_turns-keeps At calm own (daemon answer ∷ turns) s h =
      run_turns-keeps At calm own turns _ (own answer s h)
