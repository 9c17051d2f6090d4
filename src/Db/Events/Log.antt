-- ===== src/Db/Events/Log.antt =====
-- The event log grows by appending, under ids that rise.
use syrius_orbit_daemon.Common.{ℕ, ◌+◌, ◌≤◌, ◌<◌, List, [], ◌∷◌, ◌++◌, Bytes, All, arith}
use syrius_orbit_daemon.Db.Events.{Event, Table, empty_table, insert}

-- Every id is above `n`, and the ids rise along the list.
abbrev pub Rising : ℕ → List Event → Type 0
Rising n [] = Unit
Rising n (e ∷ rows) = (n < e.id) × Rising e.id rows

abbrev pub Below : ℕ → List Event → Type 0
Below n = All λ e. e.id ≤ n

pub record IsLog (t : Table) : Type 0 where
  pub rising : Rising 0 t.rows
  pub bounded : Below t.sequence t.rows

pub Rising-mono : (m n : ℕ) (rows : List Event) → m ≤ n → Rising n rows → Rising m rows
Rising-mono m n [] h r = tt
Rising-mono m n (e ∷ rows) h r = (omega arith, r.1)

Below-mono : (m n : ℕ) (rows : List Event) → m ≤ n → Below m rows → Below n rows
Below-mono m n [] h b = tt
Below-mono m n (e ∷ rows) h b = (omega arith, Below-mono m n rows h b.1)

Rising-append :
    (n : ℕ) (rows : List Event) (e : Event)
    → n < e.id
    → Rising n rows
    → All (λ r. r.id < e.id) rows
    → Rising n (rows ++ (e ∷ []))
Rising-append n [] e h r b = (h, tt)
Rising-append n (x ∷ rows) e h r b = (r.0, Rising-append x.id rows e b.0 r.1 b.1)

Below-append :
    (n : ℕ) (rows : List Event) (e : Event) → e.id ≤ n → Below n rows → Below n (rows ++ (e ∷ []))
Below-append n [] e h b = (h, tt)
Below-append n (x ∷ rows) e h b = (b.0, Below-append n rows e h b.1)

strictly : (n m : ℕ) (rows : List Event) → n < m → Below n rows → All (λ r. r.id < m) rows
strictly n m [] h b = tt
strictly n m (x ∷ rows) h b = (omega arith, strictly n m rows h b.1)

pub empty_table-IsLog : IsLog empty_table
empty_table-IsLog = record { rising = tt; bounded = tt }

-- Inserting an event keeps the ids of the log distinct, rising and within the sequence; the id
-- that is returned is above every earlier one.
pub insert-IsLog :
    (now : Bytes) (e : Event) (t : Table)
    → IsLog t
    → IsLog (insert now e t).1 × All (λ r. r.id < (insert now e t).0) t.rows
unfolding insert
insert-IsLog now e t log =
    let row = record e { id = t.sequence + 1; received_at = now } in
    let fresh = strictly t.sequence (t.sequence + 1) t.rows (omega arith) log.bounded in
    (
      record {
        rising = Rising-append 0 t.rows row (omega arith) log.rising fresh;
        bounded =
            Below-append (t.sequence + 1) t.rows row (omega arith)
              (Below-mono t.sequence (t.sequence + 1) t.rows (omega arith) log.bounded);
      },
      fresh,
    )
