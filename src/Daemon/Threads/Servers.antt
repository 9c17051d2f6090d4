-- ===== src/Daemon/Threads/Servers.antt =====
-- What each step of Daemon::run keeps of the HTTP server.
use syrius_orbit_daemon.Common.{◌≡◌, refl, sym, ◌∙◌, Bool, true, false, not, List, if_ind, subst}
use syrius_orbit_daemon.Daemon.Threads.{
  Phase, preparing, binding, registering, launching, waiting, copying, joining, clearing, stopping,
  calling, returned, finished, System, is_ended, daemon_step, Turn, run_turns,
}
use syrius_orbit_daemon.Daemon.Threads.Phases.{
  RegisteredAt, LiveAt, Calm, is_live-Steady, is_heard-Steady, stop-heard, is_heard,
  run_turns-keeps,
}

module _ (early : Bool) where
  Calm-RegisteredAt :
      (p : Phase) (s s' : System) → Calm early s s' → RegisteredAt p s → RegisteredAt p s'
  Calm-RegisteredAt preparing s s' c h = c.started ∙ h
  Calm-RegisteredAt binding s s' c h = c.started ∙ h
  Calm-RegisteredAt registering s s' c h = c.started ∙ h
  Calm-RegisteredAt launching s s' c h = (c.started ∙ h.0, c.fn ∙ h.1)
  Calm-RegisteredAt waiting s s' c h = λ e. c.fn ∙ h (sym c.started ∙ e)
  Calm-RegisteredAt copying s s' c h = tt
  Calm-RegisteredAt (calling held) s s' c h = tt
  Calm-RegisteredAt joining s s' c h = tt
  Calm-RegisteredAt clearing s s' c h = tt
  Calm-RegisteredAt stopping s s' c h = tt
  Calm-RegisteredAt (returned code) s s' c h = tt
  Calm-RegisteredAt (finished code) s s' c h = tt

  daemon_step-RegisteredAt :
      (answer : Bool) (p : Phase) (s : System)
      → s.phase ≡ p
      → RegisteredAt p s
      → RegisteredAt (daemon_step early answer p s).phase (daemon_step early answer p s)
  unfolding daemon_step
  daemon_step-RegisteredAt true preparing s e h = h
  daemon_step-RegisteredAt false preparing s e h = tt
  daemon_step-RegisteredAt true binding s e h = h
  daemon_step-RegisteredAt false binding s e h = λ started. cc (h, started)
  daemon_step-RegisteredAt answer registering s e h = (h, refl)
  daemon_step-RegisteredAt answer launching s e h =
      if_ind {A = System} (λ r. RegisteredAt r.phase r) (not s.stop_requested) (λ _ _. h.1)
        (λ _ _. h.1)
  daemon_step-RegisteredAt answer waiting s e h =
      if_ind {A = System} (λ r. RegisteredAt r.phase r) s.stop_requested (λ _. tt)
        λ _.
          if_ind {A = System} (λ r. RegisteredAt r.phase r) (not answer) (λ _. tt)
            (λ _. subst (λ q. RegisteredAt q s) (sym e) h)
  daemon_step-RegisteredAt answer copying s e h = tt
  daemon_step-RegisteredAt answer (calling true) s e h = tt
  daemon_step-RegisteredAt answer (calling false) s e h = tt
  daemon_step-RegisteredAt answer joining s e h =
      let stay = subst (λ q. RegisteredAt q s) (sym e) h in
      if_ind {A = System} (λ r. RegisteredAt r.phase r) s.http_server_started
        (λ _.
          if_ind {A = System} (λ r. RegisteredAt r.phase r) (is_ended s.server) (λ _. tt)
            (λ _. stay))
        (λ _. tt)
  daemon_step-RegisteredAt answer clearing s e h = tt
  daemon_step-RegisteredAt answer stopping s e h = tt
  daemon_step-RegisteredAt answer (returned code) s e h = tt
  daemon_step-RegisteredAt answer (finished code) s e h = subst (λ q. RegisteredAt q s) (sym e) h

  pub run_turns-RegisteredAt :
      (turns : List Turn) (s : System)
      → RegisteredAt s.phase s
      → RegisteredAt (run_turns early s turns).phase (run_turns early s turns)
  run_turns-RegisteredAt =
      run_turns-keeps early RegisteredAt
        (λ s s' c h.
          Calm-RegisteredAt s'.phase s s' c (subst (λ p. RegisteredAt p s) (sym c.phase) h))
        (λ answer s h. daemon_step-RegisteredAt answer s.phase s refl h)

  Calm-LiveAt : (p : Phase) (s s' : System) → Calm early s s' → LiveAt p s → LiveAt p s'
  Calm-LiveAt preparing s s' c h = h
  Calm-LiveAt binding s s' c h = h
  Calm-LiveAt registering s s' c h = h
  Calm-LiveAt launching s s' c h = h
  Calm-LiveAt waiting s s' c h =
      λ e. let (f, u) = h (sym c.started ∙ e) in (c.fn ∙ f, c.server _ (is_live-Steady early) u)
  Calm-LiveAt copying s s' c h =
      λ e. let (f, u) = h (sym c.started ∙ e) in (c.fn ∙ f, c.server _ (is_live-Steady early) u)
  Calm-LiveAt (calling held) s s' c h =
      λ e. let (f, u) = h (sym c.started ∙ e) in (f, c.server _ (is_live-Steady early) u)
  Calm-LiveAt joining s s' c h =
      λ e. c.server is_heard (is_heard-Steady early) (h (sym c.started ∙ e))
  Calm-LiveAt clearing s s' c h = tt
  Calm-LiveAt stopping s s' c h = tt
  Calm-LiveAt (returned code) s s' c h = tt
  Calm-LiveAt (finished code) s s' c h = tt

  daemon_step-LiveAt :
      (answer : Bool) (p : Phase) (s : System)
      → s.phase ≡ p
      → LiveAt p s
      → LiveAt (daemon_step early answer p s).phase (daemon_step early answer p s)
  unfolding daemon_step
  daemon_step-LiveAt answer preparing s e h = absurd h
  daemon_step-LiveAt answer binding s e h = absurd h
  daemon_step-LiveAt answer registering s e h = absurd h
  daemon_step-LiveAt answer launching s e h = absurd h
  daemon_step-LiveAt answer waiting s e h =
      if_ind {A = System} (λ r. LiveAt r.phase r) s.stop_requested (λ _. h)
        λ _.
          if_ind {A = System} (λ r. LiveAt r.phase r) (not answer) (λ _. h)
            (λ _. subst (λ q. LiveAt q s) (sym e) h)
  daemon_step-LiveAt answer copying s e h = h
  daemon_step-LiveAt answer (calling true) s e h =
      λ started. stop-heard early s.server (h started).1
  daemon_step-LiveAt answer (calling false) s e h = λ started. cc ((h started).0)
  daemon_step-LiveAt answer joining s e h =
      let stay = subst (λ q. LiveAt q s) (sym e) h in
      if_ind {A = System} (λ r. LiveAt r.phase r) s.http_server_started
        (λ _. if_ind {A = System} (λ r. LiveAt r.phase r) (is_ended s.server) (λ _. tt) (λ _. stay))
        (λ _. tt)
  daemon_step-LiveAt answer clearing s e h = tt
  daemon_step-LiveAt answer stopping s e h = tt
  daemon_step-LiveAt answer (returned code) s e h = tt
  daemon_step-LiveAt answer (finished code) s e h = subst (λ q. LiveAt q s) (sym e) h

  pub run_turns-LiveAt :
      (turns : List Turn) (s : System)
      → LiveAt s.phase s
      → LiveAt (run_turns early s turns).phase (run_turns early s turns)
  run_turns-LiveAt =
      run_turns-keeps early LiveAt
        (λ s s' c h. Calm-LiveAt s'.phase s s' c (subst (λ p. LiveAt p s) (sym c.phase) h))
        (λ answer s h. daemon_step-LiveAt answer s.phase s refl h)
