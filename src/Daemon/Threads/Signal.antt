-- ===== src/Daemon/Threads/Signal.antt =====
-- What ends main: a signal, or the end of the daemon's own thread.
use syrius_orbit_daemon.Common.{
  ℕ, ◌≡◌, refl, sym, Bool, true, false, not, ◌||◌, List, [], ◌∷◌, fold_left, if_ind, subst, arith,
}
use syrius_orbit_daemon.Daemon.Threads.{
  Phase, preparing, binding, registering, launching, waiting, copying, joining, clearing, stopping,
  calling, returned, finished, Watch, polling, deciding, requesting, fetching, joining_daemon,
  undefined, invoking, exited, System, is_finished, daemon_step, is_destroyed, join_daemon,
  main_step, Turn, signal, http, main, daemon, step, run_turns,
}

-- Stop is requested, or the daemon's thread is at its end.
abbrev pub asked : System → Bool
asked s = s.stop_requested || is_finished s.phase

-- What is known where main stands.
abbrev pub WatchAt : Watch → System → Type 0
WatchAt fetching s = asked s ≡ true
WatchAt (invoking held) s = asked s ≡ true
WatchAt joining_daemon s = asked s ≡ true
WatchAt undefined s = asked s ≡ true
WatchAt (exited code) s = s.phase ≡ finished code
WatchAt w s = Unit

-- What a step of another thread leaves to main.
pub record Onward (s s' : System) : Type 0 where
  pub signal : s.signal_received ≡ true → s'.signal_received ≡ true
  pub asks : asked s ≡ true → asked s' ≡ true
  pub ends : (code : ℕ) → s.phase ≡ finished code → s'.phase ≡ finished code

pub daemon_step-Onward :
    (early answer : Bool) (p : Phase) (s : System)
    → s.phase ≡ p
    → let s' = daemon_step early answer p s in (s'.watch ≡ s.watch) × Onward s s'
unfolding daemon_step
daemon_step-Onward early answer preparing s e = ground arith
daemon_step-Onward early answer binding s e = ground arith
daemon_step-Onward early answer registering s e = ground arith
daemon_step-Onward early answer launching s e = ground arith
daemon_step-Onward early answer waiting s e = ground arith
daemon_step-Onward early answer copying s e = ground arith
daemon_step-Onward early answer (calling held) s e = ground arith
daemon_step-Onward early answer joining s e = ground arith
daemon_step-Onward early answer clearing s e = ground arith
daemon_step-Onward early answer stopping s e = ground arith
daemon_step-Onward early answer (returned code) s e = ground arith
daemon_step-Onward early answer (finished code) s e = ground arith

join_daemon-Onward : (p : Phase) (s : System) → Onward s (join_daemon p s)
join_daemon-Onward preparing s = ground arith
join_daemon-Onward binding s = ground arith
join_daemon-Onward registering s = ground arith
join_daemon-Onward launching s = ground arith
join_daemon-Onward waiting s = ground arith
join_daemon-Onward copying s = ground arith
join_daemon-Onward (calling held) s = ground arith
join_daemon-Onward joining s = ground arith
join_daemon-Onward clearing s = ground arith
join_daemon-Onward stopping s = ground arith
join_daemon-Onward (returned code) s = ground arith
join_daemon-Onward (finished code) s = ground arith

pub main_step-Onward : (early : Bool) (w : Watch) (s : System) → Onward s (main_step early w s)
unfolding main_step
main_step-Onward early polling s = ground arith
main_step-Onward early deciding s = ground arith
main_step-Onward early requesting s = ground arith
main_step-Onward early fetching s = ground arith
main_step-Onward early undefined s = ground arith
main_step-Onward early (invoking held) s = ground arith
main_step-Onward early (exited code) s = ground arith
main_step-Onward early joining_daemon s = join_daemon-Onward s.phase s

watch_at : (w : Watch) (s s' : System) → Onward s s' → WatchAt w s → WatchAt w s'
watch_at polling s s' o h = tt
watch_at deciding s s' o h = tt
watch_at requesting s s' o h = tt
watch_at fetching s s' o h = o.asks h
watch_at (invoking held) s s' o h = o.asks h
watch_at joining_daemon s s' o h = o.asks h
watch_at undefined s s' o h = o.asks h
watch_at (exited code) s s' o h = o.ends code h

join_daemon-WatchAt :
    (p : Phase) (s : System)
    → s.phase ≡ p
    → WatchAt s.watch s
    → WatchAt (join_daemon p s).watch (join_daemon p s)
join_daemon-WatchAt (finished code) s e h = e
join_daemon-WatchAt preparing s e h = h
join_daemon-WatchAt binding s e h = h
join_daemon-WatchAt registering s e h = h
join_daemon-WatchAt launching s e h = h
join_daemon-WatchAt waiting s e h = h
join_daemon-WatchAt copying s e h = h
join_daemon-WatchAt (calling held) s e h = h
join_daemon-WatchAt joining s e h = h
join_daemon-WatchAt clearing s e h = h
join_daemon-WatchAt stopping s e h = h
join_daemon-WatchAt (returned code) s e h = h

main_step-WatchAt :
    (early : Bool) (w : Watch) (s : System)
    → s.watch ≡ w
    → WatchAt w s
    → WatchAt (main_step early w s).watch (main_step early w s)
unfolding main_step
main_step-WatchAt early polling s e h =
    if_ind {A = System} (λ r. WatchAt r.watch r) (s.signal_received || is_finished s.phase)
      (λ _. tt) (λ _. subst (λ w. WatchAt w s) (sym e) h)
main_step-WatchAt early deciding s e h =
    if_ind {A = System} (λ r. WatchAt r.watch r) (not (is_finished s.phase)) (λ _. tt)
      (λ over. ground arith)
main_step-WatchAt early requesting s e h = refl
main_step-WatchAt early fetching s e h = h
main_step-WatchAt early (invoking true) s e h =
    if_ind {A = System} (λ r. WatchAt r.watch r) (is_destroyed s.server) (λ _. h) (λ _. h)
main_step-WatchAt early (invoking false) s e h = h
main_step-WatchAt early joining_daemon s e h =
    join_daemon-WatchAt s.phase s refl (subst (λ w. WatchAt w s) (sym e) h)
main_step-WatchAt early undefined s e h = subst (λ w. WatchAt w s) (sym e) h
main_step-WatchAt early (exited code) s e h = subst (λ w. WatchAt w s) (sym e) h

module _ (early : Bool) where
  step-Onward : (s : System) (t : Turn) → Onward s (step early s t)
  unfolding step
  step-Onward s signal = ground arith
  step-Onward s http = ground arith
  step-Onward s main = main_step-Onward early s.watch s
  step-Onward s (daemon answer) = (daemon_step-Onward early answer s.phase s refl).1

  step-WatchAt :
      (s : System) (t : Turn) → WatchAt s.watch s → WatchAt (step early s t).watch (step early s t)
  unfolding step
  step-WatchAt s signal h = watch_at s.watch s _ (ground arith) h
  step-WatchAt s http h = watch_at s.watch s _ (ground arith) h
  step-WatchAt s main h = main_step-WatchAt early s.watch s refl h
  step-WatchAt s (daemon answer) h =
      let (same, o) = daemon_step-Onward early answer s.phase s refl in
      let s' = daemon_step early answer s.phase s in
      subst (λ w. WatchAt w s') (sym same) (watch_at s.watch s s' o h)

  pub run_turns-Onward : (turns : List Turn) (s : System) → Onward s (run_turns early s turns)
  unfolding run_turns fold_left
  run_turns-Onward [] s = record { signal = λ h. h; asks = λ h. h; ends = λ code h. h }
  run_turns-Onward (t ∷ turns) s =
      let o = step-Onward s t in
      let r = run_turns-Onward turns (step early s t) in
      record {
        signal = λ h. r.signal (o.signal h);
        asks = λ h. r.asks (o.asks h);
        ends = λ code h. r.ends code (o.ends code h);
      }

  pub run_turns-WatchAt :
      (turns : List Turn) (s : System)
      → WatchAt s.watch s
      → WatchAt (run_turns early s turns).watch (run_turns early s turns)
  unfolding run_turns fold_left
  run_turns-WatchAt [] s h = h
  run_turns-WatchAt (t ∷ turns) s h = run_turns-WatchAt turns (step early s t) (step-WatchAt s t h)
