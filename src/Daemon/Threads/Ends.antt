-- ===== src/Daemon/Threads/Ends.antt =====
-- How Daemon::run comes to its end once stop is requested, from a state in which it waits and the HTTP
-- server, if there is one, listens.
use syrius_orbit_daemon.Common.{
  ℕ, suc, ◌-◌, ◌≤◌, ◌≡◌, refl, sym, ◌∙◌, ap, Bool, true, List, [], ◌∷◌, fold_left, if_ind, subst,
  arith,
}
use syrius_orbit_daemon.Daemon.Threads.{
  Server, Phase, preparing, binding, registering, launching, waiting, copying, joining, clearing,
  stopping, calling, returned, finished, System, is_finished, is_ended, daemon_step, http_step,
  Turn, signal, http, main, daemon, step, run_turns, main_step,
}
use syrius_orbit_daemon.Daemon.Threads.Phases.{
  is_heard, LiveAt, Steady, Calm, main_step-Calm, http-Calm, signal-Calm, run_turns-keeps,
  is_heard-Steady, is_ended-Steady,
}

-- The number of run's own steps that are left at a phase.
abbrev pub left : Phase → ℕ
left preparing = 11
left binding = 10
left registering = 9
left launching = 8
left waiting = 7
left copying = 6
left (calling held) = 5
left joining = 4
left clearing = 3
left stopping = 2
left (returned code) = 1
left (finished code) = 0

-- The turns that the daemon's thread and the HTTP thread have.
abbrev pub daemon_turns : List Turn → ℕ
daemon_turns [] = 0
daemon_turns (daemon answer ∷ turns) = suc (daemon_turns turns)
daemon_turns (signal ∷ turns) = daemon_turns turns
daemon_turns (http ∷ turns) = daemon_turns turns
daemon_turns (main ∷ turns) = daemon_turns turns

abbrev pub http_turns : List Turn → ℕ
http_turns [] = 0
http_turns (daemon answer ∷ turns) = http_turns turns
http_turns (signal ∷ turns) = http_turns turns
http_turns (http ∷ turns) = suc (http_turns turns)
http_turns (main ∷ turns) = http_turns turns

-- run is at the join or behind it, and the server that it joins has this property.
abbrev pub LateAt : (Server → Bool) → Phase → System → Type 0
LateAt ok joining s = s.http_server_started ≡ true → ok s.server ≡ true
LateAt ok clearing s = Unit
LateAt ok stopping s = Unit
LateAt ok (returned code) s = Unit
LateAt ok (finished code) s = Unit
LateAt ok phase s = ⊥

module _ (early : Bool) where
  daemon_step-left :
      (answer : Bool) (p : Phase) (s : System)
      → s.phase ≡ p
      → s.stop_requested ≡ true
      → ((daemon_step early answer p s).stop_requested ≡ true)
        × (left (daemon_step early answer p s).phase - 4 ≤ left p - 4 - 1)
  unfolding daemon_step
  daemon_step-left answer preparing s e stop = ground arith
  daemon_step-left answer binding s e stop = ground arith
  daemon_step-left answer registering s e stop = ground arith
  daemon_step-left answer launching s e stop = ground arith
  daemon_step-left answer waiting s e stop = ground arith
  daemon_step-left answer copying s e stop = ground arith
  daemon_step-left answer joining s e stop = ground arith
  daemon_step-left answer clearing s e stop = ground arith
  daemon_step-left answer stopping s e stop = ground arith
  daemon_step-left answer (calling held) s e stop = ground arith
  daemon_step-left answer (returned code) s e stop = ground arith
  daemon_step-left answer (finished code) s e stop = ground arith

  -- From a stop request on each of its turns brings run nearer to the join.
  pub run_turns-left :
      (turns : List Turn) (s : System)
      → s.stop_requested ≡ true
      → left (run_turns early s turns).phase - 4 ≤ left s.phase - 4 - daemon_turns turns
  unfolding run_turns fold_left step
  run_turns-left [] s stop = omega arith
  run_turns-left (signal ∷ turns) s stop =
      run_turns-left turns (record s { signal_received = true }) stop
  run_turns-left (http ∷ turns) s stop =
      run_turns-left turns (record s { server = http_step s.server }) stop
  run_turns-left (main ∷ turns) s stop =
      let c = main_step-Calm early s.watch s in
      let rest = run_turns-left turns (main_step early s.watch s) (c.requested stop) in
      ground (arith, ap left c.phase)
  run_turns-left (daemon answer ∷ turns) s stop =
      let (stop', fewer) = daemon_step-left answer s.phase s refl stop in
      let rest = run_turns-left turns (daemon_step early answer s.phase s) stop' in omega arith

  module _ (ok : Server → Bool) (steady : Steady early ok) where
    Calm-LateAt : (p : Phase) (s s' : System) → Calm early s s' → LateAt ok p s → LateAt ok p s'
    Calm-LateAt joining s s' c h = λ e. c.server ok steady (h (sym c.started ∙ e))
    Calm-LateAt preparing s s' c h = h
    Calm-LateAt binding s s' c h = h
    Calm-LateAt registering s s' c h = h
    Calm-LateAt launching s s' c h = h
    Calm-LateAt waiting s s' c h = h
    Calm-LateAt copying s s' c h = h
    Calm-LateAt clearing s s' c h = tt
    Calm-LateAt stopping s s' c h = tt
    Calm-LateAt (calling held) s s' c h = h
    Calm-LateAt (returned code) s s' c h = tt
    Calm-LateAt (finished code) s s' c h = tt

    late_still : (s s' : System) → Calm early s s' → LateAt ok s.phase s → LateAt ok s'.phase s'
    late_still s s' c h = Calm-LateAt s'.phase s s' c (subst (λ p. LateAt ok p s) (sym c.phase) h)

    daemon_step-LateAt :
        (answer : Bool) (p : Phase) (s : System)
        → s.phase ≡ p
        → LateAt ok p s
        → LateAt ok (daemon_step early answer p s).phase (daemon_step early answer p s)
    unfolding daemon_step
    daemon_step-LateAt answer preparing s e h = absurd h
    daemon_step-LateAt answer binding s e h = absurd h
    daemon_step-LateAt answer registering s e h = absurd h
    daemon_step-LateAt answer launching s e h = absurd h
    daemon_step-LateAt answer waiting s e h = absurd h
    daemon_step-LateAt answer copying s e h = absurd h
    daemon_step-LateAt answer (calling held) s e h = absurd h
    daemon_step-LateAt answer joining s e h =
        let stay = subst (λ q. LateAt ok q s) (sym e) h in
        if_ind {A = System} (λ r. LateAt ok r.phase r) s.http_server_started
          (λ _.
            if_ind {A = System} (λ r. LateAt ok r.phase r) (is_ended s.server) (λ _. tt)
              (λ _. stay))
          (λ _. tt)
    daemon_step-LateAt answer clearing s e h = tt
    daemon_step-LateAt answer stopping s e h = tt
    daemon_step-LateAt answer (returned code) s e h = tt
    daemon_step-LateAt answer (finished code) s e h = subst (λ q. LateAt ok q s) (sym e) h

    pub run_turns-LateAt :
        (turns : List Turn) (s : System)
        → LateAt ok s.phase s
        → LateAt ok (run_turns early s turns).phase (run_turns early s turns)
    run_turns-LateAt =
        run_turns-keeps early (LateAt ok) late_still
          (λ answer s h. daemon_step-LateAt answer s.phase s refl h)

  heard-ends : (v : Server) → is_heard v ≡ true → is_ended (http_step v) ≡ true
  heard-ends v h = ground arith

  http-LateAt :
      (p : Phase) (s : System)
      → LateAt is_heard p s
      → LateAt is_ended p (record s { server = http_step s.server })
  http-LateAt joining s h = λ started. heard-ends s.server (h started)
  http-LateAt preparing s h = absurd h
  http-LateAt binding s h = absurd h
  http-LateAt registering s h = absurd h
  http-LateAt launching s h = absurd h
  http-LateAt waiting s h = absurd h
  http-LateAt copying s h = absurd h
  http-LateAt (calling held) s h = absurd h
  http-LateAt clearing s h = tt
  http-LateAt stopping s h = tt
  http-LateAt (returned code) s h = tt
  http-LateAt (finished code) s h = tt

  -- Once the stop is heard, a turn of the HTTP thread ends it.
  pub run_turns_end :
      (turns : List Turn) (s : System)
      → LateAt is_heard s.phase s
      → 1 ≤ http_turns turns
      → LateAt is_ended (run_turns early s turns).phase (run_turns early s turns)
  unfolding run_turns fold_left step
  run_turns_end [] s h n = absurd (omega arith)
  run_turns_end (http ∷ turns) s h n =
      run_turns-LateAt is_ended (is_ended-Steady early) turns _ (http-LateAt s.phase s h)
  run_turns_end (signal ∷ turns) s h n =
      run_turns_end turns _
        (late_still is_heard (is_heard-Steady early) s _ (signal-Calm early s) h) n
  run_turns_end (main ∷ turns) s h n =
      run_turns_end turns _
        (late_still is_heard (is_heard-Steady early) s _ (main_step-Calm early s.watch s) h) n
  run_turns_end (daemon answer ∷ turns) s h n =
      run_turns_end turns _
        (daemon_step-LateAt is_heard (is_heard-Steady early) answer s.phase s refl h) n

  daemon_step_late :
      (answer : Bool) (p : Phase) (s : System)
      → s.phase ≡ p
      → LateAt is_ended p s
      → left (daemon_step early answer p s).phase ≤ left p - 1
  unfolding daemon_step
  daemon_step_late answer preparing s e h = absurd h
  daemon_step_late answer binding s e h = absurd h
  daemon_step_late answer registering s e h = absurd h
  daemon_step_late answer launching s e h = absurd h
  daemon_step_late answer waiting s e h = absurd h
  daemon_step_late answer copying s e h = absurd h
  daemon_step_late answer (calling held) s e h = absurd h
  daemon_step_late answer joining s e h = ground arith
  daemon_step_late answer clearing s e h = ground arith
  daemon_step_late answer stopping s e h = ground arith
  daemon_step_late answer (returned code) s e h = ground arith
  daemon_step_late answer (finished code) s e h = ground arith

  -- Behind that each of its turns brings run nearer to its end.
  pub run_turns_late :
      (turns : List Turn) (s : System)
      → LateAt is_ended s.phase s
      → left (run_turns early s turns).phase ≤ left s.phase - daemon_turns turns
  unfolding run_turns fold_left step
  run_turns_late [] s h = omega arith
  run_turns_late (signal ∷ turns) s h =
      run_turns_late turns _
        (late_still is_ended (is_ended-Steady early) s _ (signal-Calm early s) h)
  run_turns_late (http ∷ turns) s h =
      run_turns_late turns _ (late_still is_ended (is_ended-Steady early) s _ (http-Calm early s) h)
  run_turns_late (main ∷ turns) s h =
      let c = main_step-Calm early s.watch s in
      let rest =
        run_turns_late turns (main_step early s.watch s)
          (late_still is_ended (is_ended-Steady early) s _ c h) in
      ground (arith, ap left c.phase)
  run_turns_late (daemon answer ∷ turns) s h =
      let fewer = daemon_step_late answer s.phase s refl h in
      let rest =
        run_turns_late turns (daemon_step early answer s.phase s)
          (daemon_step-LateAt is_ended (is_ended-Steady early) answer s.phase s refl h) in
      omega arith

pub LiveAt-left : (p : Phase) (s : System) → LiveAt p s → left p ≤ 7
LiveAt-left preparing s h = absurd h
LiveAt-left binding s h = absurd h
LiveAt-left registering s h = absurd h
LiveAt-left launching s h = absurd h
LiveAt-left waiting s h = omega arith
LiveAt-left copying s h = omega arith
LiveAt-left joining s h = omega arith
LiveAt-left clearing s h = omega arith
LiveAt-left stopping s h = omega arith
LiveAt-left (calling held) s h = omega arith
LiveAt-left (returned code) s h = omega arith
LiveAt-left (finished code) s h = omega arith

pub LiveAt-LateAt : (p : Phase) (s : System) → LiveAt p s → left p ≤ 4 → LateAt is_heard p s
LiveAt-LateAt preparing s h n = absurd (omega arith)
LiveAt-LateAt binding s h n = absurd (omega arith)
LiveAt-LateAt registering s h n = absurd (omega arith)
LiveAt-LateAt launching s h n = absurd (omega arith)
LiveAt-LateAt waiting s h n = absurd (omega arith)
LiveAt-LateAt copying s h n = absurd (omega arith)
LiveAt-LateAt (calling held) s h n = absurd (omega arith)
LiveAt-LateAt joining s h n = h
LiveAt-LateAt clearing s h n = tt
LiveAt-LateAt stopping s h n = tt
LiveAt-LateAt (returned code) s h n = tt
LiveAt-LateAt (finished code) s h n = tt

pub LateAt-left : (ok : Server → Bool) (p : Phase) (s : System) → LateAt ok p s → left p ≤ 4
LateAt-left ok preparing s h = absurd h
LateAt-left ok binding s h = absurd h
LateAt-left ok registering s h = absurd h
LateAt-left ok launching s h = absurd h
LateAt-left ok waiting s h = absurd h
LateAt-left ok copying s h = absurd h
LateAt-left ok (calling held) s h = absurd h
LateAt-left ok joining s h = omega arith
LateAt-left ok clearing s h = omega arith
LateAt-left ok stopping s h = omega arith
LateAt-left ok (returned code) s h = omega arith
LateAt-left ok (finished code) s h = omega arith

pub left_none : (p : Phase) → left p ≤ 0 → is_finished p ≡ true
left_none p h = ground arith
