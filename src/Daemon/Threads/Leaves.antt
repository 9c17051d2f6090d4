-- ===== src/Daemon/Threads/Leaves.antt =====
-- What the daemon's thread has taken down when it ends.
use syrius_orbit_daemon.Common.{
  ℕ, ◌≡◌, refl, sym, ◌∙◌, Bool, true, false, not, List, [], ◌∷◌, fold_left, if_ind, subst, arith,
}
use syrius_orbit_daemon.Daemon.Threads.{
  Server, absent, destroyed, Phase, preparing, binding, registering, launching, waiting, copying,
  joining, clearing, stopping, calling, returned, finished, Watch, polling, deciding, requesting,
  fetching, joining_daemon, undefined, invoking, exited, System, initial, is_ended, daemon_step,
  join_daemon, main_step, Turn, signal, http, main, daemon, step, run_turns,
}
use syrius_orbit_daemon.Daemon.Threads.Signal.{WatchAt, run_turns-WatchAt}

abbrev pub is_gone : Server → Bool
is_gone absent = true
is_gone destroyed = true
is_gone _ = false

-- No HTTP server is left, and nothing to stop one.
abbrev pub IsDown : System → Type 0
IsDown s = (is_gone s.server ≡ true) × (s.stop_http_server_fn ≡ false)

abbrev DownAt : Phase → System → Type 0
DownAt preparing s = IsDown s
DownAt stopping s = s.stop_http_server_fn ≡ false
DownAt (returned code) s = IsDown s
DownAt (finished code) s = IsDown s
DownAt p s = Unit

daemon_step-DownAt :
    (early answer : Bool) (p : Phase) (s : System)
    → s.phase ≡ p
    → DownAt p s
    → DownAt (daemon_step early answer p s).phase (daemon_step early answer p s)
unfolding daemon_step
daemon_step-DownAt early true preparing s e h = tt
daemon_step-DownAt early false preparing s e h = h
daemon_step-DownAt early true binding s e h = tt
daemon_step-DownAt early false binding s e h = tt
daemon_step-DownAt early answer registering s e h = tt
daemon_step-DownAt early answer launching s e h =
    if_ind {A = System} (λ r. DownAt r.phase r) (not s.stop_requested) (λ _. tt) (λ _. tt)
daemon_step-DownAt early answer waiting s e h =
    let stay = subst (λ q. DownAt q s) (sym e) h in
    if_ind {A = System} (λ r. DownAt r.phase r) s.stop_requested (λ _. tt)
      λ _. if_ind {A = System} (λ r. DownAt r.phase r) (not answer) (λ _. tt) (λ _. stay)
daemon_step-DownAt early answer copying s e h = tt
daemon_step-DownAt early answer (calling true) s e h = tt
daemon_step-DownAt early answer (calling false) s e h = tt
daemon_step-DownAt early answer joining s e h =
    let stay = subst (λ q. DownAt q s) (sym e) h in
    if_ind {A = System} (λ r. DownAt r.phase r) s.http_server_started
      (λ _. if_ind {A = System} (λ r. DownAt r.phase r) (is_ended s.server) (λ _. tt) (λ _. stay))
      (λ _. tt)
daemon_step-DownAt early answer clearing s e h = refl
daemon_step-DownAt early answer stopping s e h = (refl, h)
daemon_step-DownAt early answer (returned code) s e h = h
daemon_step-DownAt early answer (finished code) s e h = subst (λ q. DownAt q s) (sym e) h

-- Another thread leaves a server that is gone as it is.
record Aside (s s' : System) : Type 0 where
  phase : s'.phase ≡ s.phase
  fn : s'.stop_http_server_fn ≡ s.stop_http_server_fn
  gone : is_gone s.server ≡ true → is_gone s'.server ≡ true

Aside-at : (p : Phase) (s s' : System) → Aside s s' → DownAt p s → DownAt p s'
Aside-at preparing s s' a h = (a.gone h.0, a.fn ∙ h.1)
Aside-at stopping s s' a h = a.fn ∙ h
Aside-at (returned code) s s' a h = (a.gone h.0, a.fn ∙ h.1)
Aside-at (finished code) s s' a h = (a.gone h.0, a.fn ∙ h.1)
Aside-at binding s s' a h = tt
Aside-at registering s s' a h = tt
Aside-at launching s s' a h = tt
Aside-at waiting s s' a h = tt
Aside-at copying s s' a h = tt
Aside-at (calling held) s s' a h = tt
Aside-at joining s s' a h = tt
Aside-at clearing s s' a h = tt

Aside-DownAt : (s s' : System) → Aside s s' → DownAt s.phase s → DownAt s'.phase s'
Aside-DownAt s s' a h = Aside-at s'.phase s s' a (subst (λ p. DownAt p s) (sym a.phase) h)

join_daemon-Aside : (p : Phase) (s : System) → Aside s (join_daemon p s)
join_daemon-Aside preparing s = ground arith
join_daemon-Aside binding s = ground arith
join_daemon-Aside registering s = ground arith
join_daemon-Aside launching s = ground arith
join_daemon-Aside waiting s = ground arith
join_daemon-Aside copying s = ground arith
join_daemon-Aside (calling held) s = ground arith
join_daemon-Aside joining s = ground arith
join_daemon-Aside clearing s = ground arith
join_daemon-Aside stopping s = ground arith
join_daemon-Aside (returned code) s = ground arith
join_daemon-Aside (finished code) s = ground arith

main_step-Aside : (early : Bool) (w : Watch) (s : System) → Aside s (main_step early w s)
unfolding main_step
main_step-Aside early polling s = ground arith
main_step-Aside early deciding s = ground arith
main_step-Aside early requesting s = ground arith
main_step-Aside early fetching s = ground arith
main_step-Aside early undefined s = ground arith
main_step-Aside early (invoking held) s = ground arith
main_step-Aside early joining_daemon s = join_daemon-Aside s.phase s
main_step-Aside early (exited code) s = ground arith

module _ (early : Bool) where
  step-DownAt :
      (s : System) (t : Turn) → DownAt s.phase s → DownAt (step early s t).phase (step early s t)
  unfolding step
  step-DownAt s signal h = Aside-DownAt s _ (ground arith) h
  step-DownAt s http h = Aside-DownAt s _ (ground arith) h
  step-DownAt s main h = Aside-DownAt s _ (main_step-Aside early s.watch s) h
  step-DownAt s (daemon answer) h = daemon_step-DownAt early answer s.phase s refl h

  run_turns-DownAt :
      (turns : List Turn) (s : System)
      → DownAt s.phase s
      → DownAt (run_turns early s turns).phase (run_turns early s turns)
  unfolding run_turns fold_left
  run_turns-DownAt [] s h = h
  run_turns-DownAt (t ∷ turns) s h = run_turns-DownAt turns (step early s t) (step-DownAt s t h)

  -- Where main has returned, the daemon's thread is at its end, with the result that main returned,
  -- no HTTP server is left and no function to stop one, after any turns of the threads.
  pub exited-IsDown :
      (turns : List Turn) (code : ℕ)
      → (run_turns early initial turns).watch ≡ exited code
      → ((run_turns early initial turns).phase ≡ finished code)
        × IsDown (run_turns early initial turns)
  exited-IsDown turns code h =
      let s = run_turns early initial turns in
      let over = subst (λ w. WatchAt w s) h (run_turns-WatchAt early turns initial tt) in
      let down = subst (λ p. DownAt p s) over (run_turns-DownAt turns initial (refl, refl)) in
      (over, down)
