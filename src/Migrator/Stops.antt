-- ===== src/Migrator/Stops.antt =====
-- Where a run of the migrations stops, what it leaves, and what a later run goes on with.
use syrius_orbit_daemon.Common.{
  ℕ, suc, ◌+◌, ◌≡◌, ◌≢◌, refl, sym, ap, ◌∙◌, subst, Bool, Option, none, some, List, [], ◌∷◌, ◌++◌,
  Bytes, ==_refl, ==_false, All, if◌then◌else◌, if_ind, Bool-cases, Option-cases, inl, inr, length,
  arith, append_assoc, append-nil, ◌>>=◌, select, not,
}
use syrius_orbit_daemon.Migrator.{Migration, Row, Database, has, apply, run, migrate}
use syrius_orbit_daemon.Migrator.Again.{row_of, has-append, apply-rows}

-- The migrations whose versions are not among the rows, in their order.
abbrev pub is_missing : List Row → Migration → Bool
is_missing rows m = not (has m.version rows)

abbrev pub missing : List Row → List Migration → List Migration
missing rows = select (is_missing rows)

-- No version occurs twice.
abbrev pub Distinct : List Migration → Type 0
Distinct [] = Unit
Distinct (m ∷ ms) = All (λ (x : Migration). m.version ≢ x.version) ms × Distinct ms

module _ {D : Type 0} (exec : Bytes → D → Option D) (now : Bytes) where
  -- Committing these migrations one after the other; `none` where one of them throws.
  unfoldable pub apply_all : List Migration → Database D → Option (Database D)
  apply_all [] db = some db
  apply_all (m ∷ ms) db = apply exec now m db >>= apply_all ms

  -- Either all the given migrations are applied, or the first of the rest throws on what is there.
  abbrev pub Stops : ℕ → List Migration → List Migration → Option ℕ × Database D → Type 0
  Stops count done [] r = r.0 ≡ some (count + length done)
  Stops count done (m ∷ rest) r = (r.0 ≡ none) × (apply exec now m r.1 ≡ none)

  pub record RunsTo (todo : List Migration) (count : ℕ) (db : Database D)
      (r : Option ℕ × Database D) : Type 0 where
    pub done : List Migration
    pub rest : List Migration
    pub split : todo ≡ done ++ rest
    pub committed : apply_all done db ≡ some r.1
    pub stops : Stops count done rest r

  Stops-later :
      (count : ℕ) (m : Migration) (done rest : List Migration) (r : Option ℕ × Database D)
      → Stops (suc count) done rest r
      → Stops count (m ∷ done) rest r
  Stops-later count m done [] r h = h ∙ ap some (omega arith)
  Stops-later count m done (x ∷ rest) r h = h

  run-RunsTo :
      (applied : List Row) (ms : List Migration) (count : ℕ) (db : Database D)
      → RunsTo (missing applied ms) count db (run exec now applied ms count db)
  unfolding run select apply_all
  run-RunsTo applied [] count db = record {
    done = [];
    rest = [];
    split = refl;
    committed = refl;
    stops = ap some (omega arith);
  }
  run-RunsTo applied (m ∷ ms) count db = elim (Bool-cases (has m.version applied)) [
    | inl old ↦ rw old (run-RunsTo applied ms count db)
    | inr new ↦ rw new (elim (Option-cases (apply exec now m db)) [
      | inl e ↦ rw e (record {
        done = [];
        rest = m ∷ missing applied ms;
        split = refl;
        committed = refl;
        stops = (refl, e);
      })
      | inr (db', e) ↦ rw e (later db' e (run-RunsTo applied ms (suc count) db'))
    ])
  ]
    where
      later :
          (db' : Database D)
          → apply exec now m db ≡ some db'
          → RunsTo (missing applied ms) (suc count) db' (run exec now applied ms (suc count) db')
          → RunsTo (m ∷ missing applied ms) count db (run exec now applied ms (suc count) db')
      later db' e h = record {
        done = m ∷ h.done;
        rest = h.rest;
        split = ap (λ l. m ∷ l) h.split;
        committed = ap (λ o. o >>= apply_all h.done) e ∙ h.committed;
        stops = Stops-later count m h.done h.rest _ h.stops;
      }

  -- The rows that applied migrations get.
  abbrev pub rows_of : List Migration → List Row
  rows_of [] = []
  rows_of (m ∷ ms) = row_of exec now m ∷ rows_of ms

  abbrev rows_in : Option (Database D) → List Row
  rows_in none = []
  rows_in (some db) = db.schema_migrations

  pub apply_all-rows :
      (ms : List Migration) (db db' : Database D)
      → apply_all ms db ≡ some db'
      → db'.schema_migrations ≡ db.schema_migrations ++ rows_of ms
  unfolding apply_all
  apply_all-rows [] db db' h =
      ap (λ (o : Option (Database D)). rows_in o) (sym h) ∙ sym (append-nil db.schema_migrations)
  apply_all-rows (m ∷ ms) db db' h = elim (Option-cases (apply exec now m db)) [
    | inl e ↦ absurd (cc (sym h ∙ ap (λ o. o >>= apply_all ms) e))
    | inr (next, e) ↦
        apply_all-rows ms next db' (ap (λ o. o >>= apply_all ms) (sym e) ∙ h)
        ∙ (ap (λ l. l ++ rows_of ms) (apply-rows exec now m db next e)
            ∙ append_assoc db.schema_migrations (row_of exec now m ∷ []) (rows_of ms))
  ]

  -- Rows of other versions do not matter.
  missing_other :
      (m : Migration) (rows : List Row) (ms : List Migration)
      → All (λ (x : Migration). m.version ≢ x.version) ms
      → missing (row_of exec now m ∷ rows) ms ≡ missing rows ms
  unfolding select has
  missing_other m rows [] h = refl
  missing_other m rows (x ∷ ms) h =
      let other = ==_false m.version x.version h.0 in
      rw other (ap (λ l. if is_missing rows x then x ∷ l else l) (missing_other m rows ms h.1))

  missing_none : (ms : List Migration) → missing [] ms ≡ ms
  unfolding select has
  missing_none [] = refl
  missing_none (m ∷ ms) = ap (λ l. m ∷ l) (missing_none ms)

  missing_done :
      (done rest : List Migration)
      → Distinct (done ++ rest)
      → missing (rows_of done) (done ++ rest) ≡ rest
  unfolding select has
  missing_done [] rest h = missing_none rest
  missing_done (m ∷ done) rest h =
      rw (==_refl m.version)
        (missing_other m (rows_of done) (done ++ rest) h.0 ∙ missing_done done rest h.1)

missing-append :
    (rows more : List Row) (ms : List Migration)
    → missing (rows ++ more) ms ≡ missing more (missing rows ms)
unfolding select
missing-append rows more [] = refl
missing-append rows more (m ∷ ms) =
    ground (arith, has-append m.version rows more, missing-append rows more ms)

All-select :
    {A : Type 0} (P : A → Type 0) (p : A → Bool) (xs : List A) → All P xs → All P (select p xs)
unfolding select
All-select P p [] h = tt
All-select P p (x ∷ xs) h =
    if_ind (All P) (p x) (λ _. (h.0, All-select P p xs h.1)) (λ _. All-select P p xs h.1)

select-Distinct :
    (p : Migration → Bool) (ms : List Migration) → Distinct ms → Distinct (select p ms)
unfolding select
select-Distinct p [] h = tt
select-Distinct p (m ∷ ms) h =
    if_ind {A = List Migration} Distinct (p m)
      (λ _.
        (All-select (λ (x : Migration). m.version ≢ x.version) p ms h.0, select-Distinct p ms h.1))
      (λ _. select-Distinct p ms h.1)

-- A migrate commits, one after the other, the migrations whose versions are missing up to the first
-- that throws: it returns their number if there is none, and otherwise passes the exception on and
-- leaves what the earlier ones committed. Those that a later migrate finds missing are exactly the
-- others, the one that threw first; for migrations with different versions.
pub migrate-Stops :
    {D : Type 0} (exec : Bytes → D → Option D) (now : Bytes) (ms : List Migration) (db : Database D)
    → Distinct ms
    → let r = migrate exec now ms db in
      (done : List Migration) × (rest : List Migration) × (missing db.schema_migrations ms
        ≡ done ++ rest)
      × (apply_all exec now done db ≡ some r.1)
      × Stops exec now 0 done rest r
      × (missing r.1.schema_migrations ms ≡ rest)
unfolding migrate
migrate-Stops exec now ms db distinct =
    let h = run-RunsTo exec now db.schema_migrations ms 0 db in
    let (_, db') = run exec now db.schema_migrations ms 0 db in
    let rows = apply_all-rows exec now h.done db db' h.committed in
    let todo = select-Distinct (is_missing db.schema_migrations) ms distinct in
    (
      h.done,
      h.rest,
      h.split,
      h.committed,
      h.stops,
      ap (λ l. missing l ms) rows
          ∙ (missing-append db.schema_migrations (rows_of exec now h.done) ms
              ∙ (ap (missing (rows_of exec now h.done)) h.split
                  ∙ missing_done exec now h.done h.rest (subst Distinct h.split todo))),
    )
