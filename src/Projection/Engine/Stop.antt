-- ===== src/Projection/Engine/Stop.antt =====
-- What stop waits for, and that it gets it.
use syrius_orbit_daemon.Common.{
  ◌≤◌, ◌≡◌, refl, sym, subst, Bool, true, false, ◌⊎◌, inl, inr, Option, none, some, List, [], ◌∷◌,
  fold_left, arith, map, In, length,
}
use syrius_orbit_daemon.Codec.{Codec}
use syrius_orbit_daemon.Db.Events.{Event, Table}
use syrius_orbit_daemon.Projection.{ReadModel, cycle}
use syrius_orbit_daemon.Projection.Engine.{
  Loop, testing, slept, projecting, ended, Engine, new_engine, start, stop, join, run_step, Turn,
  call_start, call_stop, wait, thread_turn, step, run_turns,
}

-- An idle engine has no thread; a running one has a thread inside its loop, and no stop waits; a
-- stopping one has a thread, which stop waits for.
abbrev pub AtThread : Bool → Bool → Option Loop → Type 0
AtThread false false none = Unit
AtThread true false (some testing) = Unit
AtThread true false (some slept) = Unit
AtThread true false (some projecting) = Unit
AtThread false true (some loop) = Unit
AtThread running joining thread = ⊥

abbrev pub IsEngine : Engine → Type 0
IsEngine e = AtThread e.running e.joining e.thread

-- The engine at such a place.
abbrev at : Bool → Bool → Option Loop → ReadModel → Engine
at r j t m = record { running = r; thread = t; joining = j; read_model = m }

module _ (scan : List Event → List Event) (c : Codec) where
  step-AtThread :
      (r j : Bool) (t : Option Loop) (m : ReadModel) (u : Turn)
      → AtThread r j t
      → IsEngine (step scan c (at r j t m) u)
  unfolding step start stop join run_step
  step-AtThread false false none m call_start h = tt
  step-AtThread false false none m call_stop h = tt
  step-AtThread false false none m wait h = tt
  step-AtThread false false none m (thread_turn log) h = tt
  step-AtThread true false (some testing) m call_start h = tt
  step-AtThread true false (some testing) m call_stop h = tt
  step-AtThread true false (some testing) m wait h = tt
  step-AtThread true false (some testing) m (thread_turn log) h = tt
  step-AtThread true false (some slept) m call_start h = tt
  step-AtThread true false (some slept) m call_stop h = tt
  step-AtThread true false (some slept) m wait h = tt
  step-AtThread true false (some slept) m (thread_turn log) h = tt
  step-AtThread true false (some projecting) m call_start h = tt
  step-AtThread true false (some projecting) m call_stop h = tt
  step-AtThread true false (some projecting) m wait h = tt
  step-AtThread true false (some projecting) m (thread_turn log) h = tt
  step-AtThread false true (some testing) m call_start h = tt
  step-AtThread false true (some testing) m call_stop h = tt
  step-AtThread false true (some testing) m wait h = tt
  step-AtThread false true (some testing) m (thread_turn log) h = tt
  step-AtThread false true (some slept) m call_start h = tt
  step-AtThread false true (some slept) m call_stop h = tt
  step-AtThread false true (some slept) m wait h = tt
  step-AtThread false true (some slept) m (thread_turn log) h = tt
  step-AtThread false true (some projecting) m call_start h = tt
  step-AtThread false true (some projecting) m call_stop h = tt
  step-AtThread false true (some projecting) m wait h = tt
  step-AtThread false true (some projecting) m (thread_turn log) h = tt
  step-AtThread false true (some ended) m call_start h = tt
  step-AtThread false true (some ended) m call_stop h = tt
  step-AtThread false true (some ended) m wait h = tt
  step-AtThread false true (some ended) m (thread_turn log) h = tt
  step-AtThread false false (some loop) m u h = absurd h
  step-AtThread true false none m u h = absurd h
  step-AtThread true false (some ended) m u h = absurd h
  step-AtThread true true none m u h = absurd h
  step-AtThread true true (some loop) m u h = absurd h
  step-AtThread false true none m u h = absurd h

  run_turns-IsEngine :
      (turns : List Turn) (e : Engine) → IsEngine e → IsEngine (run_turns scan c e turns)
  unfolding run_turns fold_left
  run_turns-IsEngine [] e h = h
  run_turns-IsEngine (u ∷ turns) e h =
      run_turns-IsEngine turns (step scan c e u)
        (step-AtThread e.running e.joining e.thread e.read_model u h)

  abbrev pub run_logs : Engine → List Table → Engine
  run_logs e logs = run_turns scan c e (map thread_turn logs)

  -- A thread that is at its end, or is not there, does nothing more.
  still :
      (j : Bool) (m : ReadModel) (logs : List Table)
      → (run_logs (at false j (some ended) m) logs ≡ at false j (some ended) m)
        × (run_logs (at false j none m) logs ≡ at false j none m)
  unfolding run_turns fold_left step run_step
  still j m [] = (refl, refl)
  still j m (log ∷ logs) = still j m logs

  -- Stopped, with the read model as it was, or after one more cycle on one of the logs.
  abbrev pub Stopped : List Table → ReadModel → Engine → Type 0
  Stopped logs m e =
      (e.running ≡ false)
      × (e.joining ≡ false)
      × (e.thread ≡ none)
      × ((e.read_model ≡ m) ⊎ ((log : Table) × In log logs × (e.read_model ≡ cycle scan c log m)))

  Stopped-at :
      (r : Bool) (t : Option Loop) (m : ReadModel) (log next : Table) (logs : List Table)
      → AtThread r false t
      → Stopped
          (log ∷ next ∷ logs)
          m
          (step scan c (run_logs (step scan c (at r false t m) call_stop) (log ∷ next ∷ logs)) wait)
  unfolding run_turns fold_left step stop join run_step
  Stopped-at false none m log next logs h = rw ((still false m logs).1) (refl, refl, refl, inl refl)
  Stopped-at true (some testing) m log next logs h =
      rw ((still true m logs).0) (refl, refl, refl, inl refl)
  Stopped-at true (some slept) m log next logs h =
      rw ((still true m logs).0) (refl, refl, refl, inl refl)
  Stopped-at true (some projecting) m log next logs h =
      rw ((still true (cycle scan c log m) logs).0) (refl, refl, refl, inr (log, inl refl, refl))
  Stopped-at true none m log next logs h = absurd h
  Stopped-at true (some ended) m log next logs h = absurd h
  Stopped-at false (some loop) m log next logs h = absurd h

  Stopped-after :
      (e : Engine) (logs : List Table)
      → IsEngine e
      → e.joining ≡ false
      → 2 ≤ length logs
      → Stopped logs e.read_model (step scan c (run_logs (step scan c e call_stop) logs) wait)
  Stopped-after e [] h free enough = absurd (omega arith)
  Stopped-after e (log ∷ []) h free enough = absurd (omega arith)
  Stopped-after e (log ∷ next ∷ logs) h free enough =
      let place = subst (λ j. AtThread e.running j e.thread) free h in
      subst
        (λ j. Stopped (log ∷ next ∷ logs) e.read_model (
          step scan c
            (run_logs (step scan c (at e.running j e.thread e.read_model) call_stop)
              (log ∷ next ∷ logs))
            wait))
        (sym free) (Stopped-at e.running e.thread e.read_model log next logs place)

  -- Whatever calls and steps came before, a call of stop returns once the engine's thread has had two
  -- steps: then there is no thread any more, and the read model is as it was at the call or one cycle
  -- further, so that what is projected after a stop is at most the cycle that was about to run.
  pub stop-returns :
      (before : List Turn) (m : ReadModel) (logs : List Table)
      → (run_turns scan c (new_engine m) before).joining ≡ false
      → 2 ≤ length logs
      → let e = run_turns scan c (new_engine m) before in
        Stopped logs e.read_model (step scan c (run_logs (step scan c e call_stop) logs) wait)
  stop-returns before m logs free enough =
      Stopped-after (run_turns scan c (new_engine m) before) logs
        (run_turns-IsEngine before (new_engine m) tt) free enough
