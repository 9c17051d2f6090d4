-- ===== src/Migrator/Again.antt =====
-- What a run of the migrations leaves behind, and a second run on it.
use syrius_orbit_daemon.Common.{
  ℕ, suc, ◌+◌, ◌≡◌, refl, sym, ap, ◌∙◌, true, ◌||◌, Option, none, some, List, [], ◌∷◌, ◌++◌, Bytes,
  ==_iff, In, map, if◌then◌else◌, Bool-cases, Option-cases, inl, inr, length, arith, append_assoc,
  append-nil,
}
use syrius_orbit_daemon.Migrator.{Migration, Row, Database, has, apply, insert_row, run, migrate}

pub has-append :
    (v : Bytes) (rows more : List Row) → has v (rows ++ more) ≡ (has v rows || has v more)
unfolding has
has-append v [] more = refl
has-append v (r ∷ rows) more = ground (arith, has-append v rows more)

module _ {D : Type 0} (exec : Bytes → D → Option D) (now : Bytes) where
  -- The row of a migration that was applied.
  abbrev pub row_of : Migration → Row
  row_of m = record { version = m.version; name = m.name; executed_at = now }

  -- The migrations of the list that are not among the rows.
  unfoldable pub pending : List Row → List Migration → List Row
  pending applied [] = []
  pending applied (m ∷ ms) =
      let rest = pending applied ms in if has m.version applied then rest else row_of m ∷ rest

  -- A run's outcome: with a count, the pending rows are there, behind the old ones, and the count is their number.
  abbrev pub Outcome : List Row → ℕ → Database D → Option ℕ × Database D → Type 0
  Outcome new count db r =
      (k : ℕ)
      → r.0 ≡ some k
      → (r.1.schema_migrations ≡ db.schema_migrations ++ new) × (k ≡ count + length new)

  abbrev rows_of : Option (Database D) → List Row
  rows_of none = []
  rows_of (some db) = db.schema_migrations

  insert_row-rows :
      (m : Migration) (db db' : Database D) (o : Option D)
      → insert_row exec now m db o ≡ some db'
      → db'.schema_migrations ≡ db.schema_migrations ++ (row_of m ∷ [])
  insert_row-rows m db db' none h = absurd (cc h)
  insert_row-rows m db db' (some d) h = elim (Bool-cases (has m.version db.schema_migrations)) [
    | inl taken ↦ absurd (cc (rw taken at h))
    | inr free ↦ sym (ap rows_of (rw free at h))
  ]

  pub apply-rows :
      (m : Migration) (db db' : Database D)
      → apply exec now m db ≡ some db'
      → db'.schema_migrations ≡ db.schema_migrations ++ (row_of m ∷ [])
  unfolding apply
  apply-rows m db db' h = insert_row-rows m db db' (exec m.sql db.contents) h

  run-Outcome :
      (applied : List Row) (ms : List Migration) (count : ℕ) (db : Database D)
      → Outcome (pending applied ms) count db (run exec now applied ms count db)
  unfolding run pending
  run-Outcome applied [] count db = λ k h. (sym (append-nil db.schema_migrations), ground arith)
  run-Outcome applied (m ∷ ms) count db = elim (Bool-cases (has m.version applied)) [
    | inl old ↦ rw old (run-Outcome applied ms count db)
    | inr new ↦ rw new (elim (Option-cases (apply exec now m db)) [
      | inl e ↦ rw e (λ k h. absurd (cc h))
      | inr (db', e) ↦ rw e λ k h.
          let (rows, n) = run-Outcome applied ms (suc count) db' k h in
          (
            rows
                ∙ (ap (λ l. l ++ pending applied ms) (apply-rows m db db' e)
                    ∙ append_assoc db.schema_migrations (row_of m ∷ []) (pending applied ms)),
            omega arith,
          )
    ])
  ]

  has-pending :
      (applied : List Row) (ms : List Migration) (v : Bytes)
      → In v (map (λ (m : Migration). m.version) ms)
      → (has v applied || has v (pending applied ms)) ≡ true
  unfolding has pending
  has-pending applied [] v i = absurd i
  has-pending applied (m ∷ ms) v (inl e) = elim (Bool-cases (has m.version applied)) [
    | inl old ↦ ground (arith, ap (λ v. has v applied) e)
    | inr new ↦ rw new (ground (arith, ==_iff m.version v))
  ]
  has-pending applied (m ∷ ms) v (inr i) = ground (arith, has-pending applied ms v i)

run-skip :
    {D : Type 0} (exec : Bytes → D → Option D) (now : Bytes) (applied : List Row)
    (ms : List Migration) (count : ℕ) (db : Database D)
    → ((v : Bytes) → In v (map (λ (m : Migration). m.version) ms) → has v applied ≡ true)
    → run exec now applied ms count db ≡ (some count, db)
unfolding run
run-skip exec now applied [] count db h = refl
run-skip exec now applied (m ∷ ms) count db h =
    rw (h m.version (inl refl)) (run-skip exec now applied ms count db (λ v i. h v (inr i)))

-- A migrate that returns has added a row for exactly those migrations whose versions were missing, in
-- their order, behind the old rows, and returns their number; a further migrate, at any time, returns 0
-- and changes nothing.
pub migrate-again :
    {D : Type 0} (exec : Bytes → D → Option D) (now later : Bytes) (ms : List Migration) (k : ℕ)
    (db db' : Database D)
    → migrate exec now ms db ≡ (some k, db')
    → (db'.schema_migrations ≡ db.schema_migrations ++ pending exec now db.schema_migrations ms)
      × (k ≡ length (pending exec now db.schema_migrations ms))
      × (migrate exec later ms db' ≡ (some 0, db'))
unfolding migrate
migrate-again {D = D} exec now later ms k db db' h =
    let new = pending exec now db.schema_migrations ms in
    let (rows, n) = run-Outcome exec now db.schema_migrations ms 0 db k (ap (λ r. r.0) h) in
    let rows' : db'.schema_migrations ≡ db.schema_migrations ++ new =
      ap (λ (r : Option ℕ × Database D). r.1.schema_migrations) (sym h) ∙ rows in
    (
      rows',
      omega arith,
      run-skip exec later db'.schema_migrations ms 0 db' λ v i.
          ap (has v) rows'
          ∙ (has-append v db.schema_migrations new
              ∙ has-pending exec now db.schema_migrations ms v i),
    )
