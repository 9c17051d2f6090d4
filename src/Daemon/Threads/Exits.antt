-- ===== src/Daemon/Threads/Exits.antt =====
-- When main returns, and what then still runs.
use syrius_orbit_daemon.Common.{
  ℕ, suc, ◌-◌, ◌≤◌, ◌≡◌, refl, sym, ap, Bool, true, List, [], ◌∷◌, fold_left, subst, ◌⊎◌, inl, inr,
  Bool-cases, arith,
}
use syrius_orbit_daemon.Daemon.Threads.{
  Phase, waiting, finished, listening, is_ended, Watch, polling, deciding, requesting, fetching,
  joining_daemon, undefined, invoking, exited, System, initial, is_finished, daemon_step,
  join_daemon, main_step, Turn, signal, http, main, daemon, step, run_turns,
}
use syrius_orbit_daemon.Daemon.Threads.Phases.{is_live, RegisteredAt, LiveAt}
use syrius_orbit_daemon.Daemon.Threads.Servers.{run_turns-RegisteredAt, run_turns-LiveAt}
use syrius_orbit_daemon.Daemon.Threads.Ends.{
  daemon_turns, http_turns, LiveAt-left, run_turns-left, LiveAt-LateAt, run_turns_end, LateAt-left,
  run_turns_late, left_none,
}
use syrius_orbit_daemon.Daemon.Threads.Signal.{
  asked, WatchAt, daemon_step-Onward, main_step-Onward, run_turns-WatchAt, run_turns-Onward,
}

-- The turns that main has.
abbrev pub main_turns : List Turn → ℕ
main_turns [] = 0
main_turns (main ∷ turns) = suc (main_turns turns)
main_turns (signal ∷ turns) = main_turns turns
main_turns (http ∷ turns) = main_turns turns
main_turns (daemon answer ∷ turns) = main_turns turns

-- The steps before stop is requested, and before main returns.
abbrev before_request : Watch → ℕ
before_request polling = 3
before_request deciding = 2
before_request requesting = 1
before_request w = 0

abbrev before_exit : Watch → ℕ
before_exit polling = 6
before_exit deciding = 5
before_exit requesting = 4
before_exit fetching = 3
before_exit (invoking held) = 2
before_exit joining_daemon = 1
before_exit undefined = 0
before_exit (exited code) = 0

join_daemon-request :
    (p : Phase) (s : System) → s.watch ≡ joining_daemon → before_request (join_daemon p s).watch ≤ 0
join_daemon-request p s e = ground arith

main_step-request :
    (early : Bool) (w : Watch) (s : System)
    → s.watch ≡ w
    → s.signal_received ≡ true
    → before_request (main_step early w s).watch ≤ before_request w - 1
unfolding main_step
main_step-request early polling s e h = ground arith
main_step-request early deciding s e h = ground arith
main_step-request early requesting s e h = ground arith
main_step-request early fetching s e h = ground arith
main_step-request early (invoking held) s e h = ground arith
main_step-request early joining_daemon s e h = join_daemon-request s.phase s e
main_step-request early undefined s e h = ground arith
main_step-request early (exited code) s e h = ground arith

main_step-exit :
    (early : Bool) (w : Watch) (s : System) (code : ℕ)
    → s.watch ≡ w
    → s.phase ≡ finished code
    → before_exit (main_step early w s).watch ≤ before_exit w - 1
unfolding main_step
main_step-exit early polling s code e h = ground arith
main_step-exit early deciding s code e h = ground arith
main_step-exit early requesting s code e h = ground arith
main_step-exit early fetching s code e h = ground arith
main_step-exit early (invoking held) s code e h = ground arith
main_step-exit early joining_daemon s code e h = rw h (omega arith)
main_step-exit early undefined s code e h = ground arith
main_step-exit early (exited code') s code e h = ground arith

module _ (early : Bool) where
  -- Once a signal is there every turn of main brings the request nearer.
  run_turns-request :
      (turns : List Turn) (s : System)
      → s.signal_received ≡ true
      → before_request (run_turns early s turns).watch ≤ before_request s.watch - main_turns turns
  unfolding run_turns fold_left step
  run_turns-request [] s h = omega arith
  run_turns-request (signal ∷ turns) s h = run_turns-request turns _ refl
  run_turns-request (http ∷ turns) s h = run_turns-request turns _ h
  run_turns-request (main ∷ turns) s h =
      let fewer = main_step-request early s.watch s refl h in
      let o = main_step-Onward early s.watch s in
      let rest = run_turns-request turns (main_step early s.watch s) (o.signal h) in omega arith
  run_turns-request (daemon answer ∷ turns) s h =
      let (same, o) = daemon_step-Onward early answer s.phase s refl in
      let rest = run_turns-request turns (daemon_step early answer s.phase s) (o.signal h) in
      ground (arith, ap before_request same)

  -- Once the daemon is at its end every turn of main brings the exit nearer.
  run_turns-exit :
      (turns : List Turn) (s : System) (code : ℕ)
      → s.phase ≡ finished code
      → before_exit (run_turns early s turns).watch ≤ before_exit s.watch - main_turns turns
  unfolding run_turns fold_left step
  run_turns-exit [] s code h = omega arith
  run_turns-exit (signal ∷ turns) s code h = run_turns-exit turns _ code h
  run_turns-exit (http ∷ turns) s code h = run_turns-exit turns _ code h
  run_turns-exit (main ∷ turns) s code h =
      let fewer = main_step-exit early s.watch s code refl h in
      let o = main_step-Onward early s.watch s in
      let rest = run_turns-exit turns (main_step early s.watch s) code (o.ends code h) in
      omega arith
  run_turns-exit (daemon answer ∷ turns) s code h =
      let (same, o) = daemon_step-Onward early answer s.phase s refl in
      let rest = run_turns-exit turns (daemon_step early answer s.phase s) code (o.ends code h) in
      ground (arith, ap before_exit same)

finished_code : (p : Phase) → is_finished p ≡ true → (code : ℕ) × (p ≡ finished code)
finished_code (finished code) h = (code, refl)
finished_code p h = cc

exited_or_undefined :
    (w : Watch) → before_exit w ≤ 0 → ((code : ℕ) × (w ≡ exited code)) ⊎ (w ≡ undefined)
exited_or_undefined (exited code) h = inl (code, refl)
exited_or_undefined undefined h = inr refl
exited_or_undefined w h = absurd (omega arith)

asked_at : (w : Watch) (s : System) → before_request w ≤ 0 → WatchAt w s → asked s ≡ true
asked_at polling s n h = absurd (omega arith)
asked_at deciding s n h = absurd (omega arith)
asked_at requesting s n h = absurd (omega arith)
asked_at fetching s n h = h
asked_at (invoking held) s n h = h
asked_at joining_daemon s n h = h
asked_at undefined s n h = h
asked_at (exited code) s n h = ground arith

request-le : (w : Watch) → before_request w ≤ 3
request-le w = ground arith

exit-le : (w : Watch) → before_exit w ≤ 6
exit-le w = ground arith

-- run waits, and the HTTP server listens, if its thread was started.
abbrev pub Waits : System → Type 0
Waits s = (s.phase ≡ waiting) × (s.http_server_started ≡ true → s.server ≡ listening)

Waits-LiveAt :
    (early : Bool) (before : List Turn)
    → let s = run_turns early initial before in Waits s → LiveAt s.phase s
Waits-LiveAt early before (at, listens) =
    let s = run_turns early initial before in
    let fn = subst (λ p. RegisteredAt p s) at (run_turns-RegisteredAt early before initial refl) in
    subst (λ p. LiveAt p s) (sym at) (λ started. (fn started, ap is_live (listens started)))

module _ (early : Bool) (calling serving ending : List Turn) where
  -- The turns that bring run to its end, one kind after the other.
  abbrev end_of : System → System
  end_of s = run_turns early (run_turns early (run_turns early s calling) serving) ending

  stop-ends :
      (s : System)
      → LiveAt s.phase s
      → s.stop_requested ≡ true
      → 3 ≤ daemon_turns calling
      → 1 ≤ http_turns serving
      → 4 ≤ daemon_turns ending
      → is_finished (end_of s).phase ≡ true
  stop-ends s live stop first second third =
      let called = run_turns early s calling in
      let near = LiveAt-left s.phase s live in
      let closer = run_turns-left early calling s stop in
      let still = run_turns-LiveAt early calling s live in
      let late = LiveAt-LateAt called.phase called still (omega arith) in
      let served = run_turns early called serving in
      let ended = run_turns_end early serving called late second in
      let most = LateAt-left is_ended served.phase served ended in
      let rest = run_turns_late early ending served ended in
      left_none (run_turns early served ending).phase (omega arith)

  asked-ends :
      (s : System)
      → LiveAt s.phase s
      → asked s ≡ true
      → 3 ≤ daemon_turns calling
      → 1 ≤ http_turns serving
      → 4 ≤ daemon_turns ending
      → is_finished (end_of s).phase ≡ true
  asked-ends s live h first second third = elim (Bool-cases s.stop_requested) [
    | inl stop ↦ stop-ends s live stop first second third
    | inr other ↦
        let over : is_finished s.phase ≡ true = rw other at h in
        let (code, e) = finished_code s.phase over in
        let called = run_turns early s calling in
        let served = run_turns early called serving in
        let e1 = (run_turns-Onward early calling s).ends code e in
        let e2 = (run_turns-Onward early serving called).ends code e1 in
        ap is_finished ((run_turns-Onward early ending served).ends code e2)
  ]

-- Whatever the threads did before, from a state in which the daemon waits, its HTTP server, if one was
-- started, listens, and a signal was received, main returns with the result of the daemon's thread, or
-- it has called the stop function of a server that run has destroyed already; if main then has three
-- turns, the daemon three, the HTTP thread one, the daemon four and main six more, however they are
-- interleaved with other turns and whatever the daemon's tests find.
pub signal-exits :
    (early : Bool) (before asking calling serving ending last : List Turn)
    → Waits (run_turns early initial before)
    → (run_turns early initial before).signal_received ≡ true
    → 3 ≤ main_turns asking
    → 3 ≤ daemon_turns calling
    → 1 ≤ http_turns serving
    → 4 ≤ daemon_turns ending
    → 6 ≤ main_turns last
    → let run = run_turns early in
      let s = run (run (run (run (run (run initial before) asking) calling) serving) ending) last in
      ((code : ℕ) × (s.watch ≡ exited code) × (s.phase ≡ finished code)) ⊎ (s.watch ≡ undefined)
signal-exits early before asking calling serving ending last waits received n1 n2 n3 n4 n5 =
    let s0 = run_turns early initial before in
    let s1 = run_turns early s0 asking in
    let live = run_turns-LiveAt early asking s0 (Waits-LiveAt early before waits) in
    let nearer = run_turns-request early asking s0 received in
    let most = request-le s0.watch in
    let at1 = run_turns-WatchAt early asking s0 (run_turns-WatchAt early before initial tt) in
    let is_asked = asked_at s1.watch s1 (omega arith) at1 in
    let s = end_of early calling serving ending s1 in
    let over = asked-ends early calling serving ending s1 live is_asked n2 n3 n4 in
    let (code, e) = finished_code s.phase over in
    let r = run_turns early s last in
    let rest = run_turns-exit early last s code e in
    let far = exit-le s.watch in
    let at = run_turns-WatchAt early last s (
      run_turns-WatchAt early ending _
        (run_turns-WatchAt early serving _ (run_turns-WatchAt early calling s1 at1))) in
    elim (exited_or_undefined r.watch (omega arith)) [
      | inl (code', e') ↦ inl (code', e', subst (λ w. WatchAt w r) e' at)
      | inr e' ↦ inr e'
    ]
