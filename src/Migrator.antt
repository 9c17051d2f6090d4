-- ===== src/Migrator.antt =====
-- SchemaMigrator (src/SchemaMigrator.cpp). SQLite's exec of a migration's text is a parameter on the
-- rest of the database, `none` where it throws; `now` is datetime('now'). EMBEDDED_MIGRATIONS is
-- generated by the build and is a parameter too.
pub mod Again
pub mod Stops
pub mod New
use syrius_orbit_daemon.Common.{
  ℕ, suc, ◌+◌, Bool, true, false, ◌||◌, Option, none, some, List, [], ◌∷◌, ◌++◌, Bytes, ◌==◌,
  if◌then◌else◌,
}

pub record Migration : Type 0 where
  pub version : Bytes
  pub name : Bytes
  pub sql : Bytes

-- A row of schema_migrations.
pub record Row : Type 0 where
  pub version : Bytes
  pub name : Bytes
  pub executed_at : Bytes

pub record Database (D : Type 0) : Type 0 where
  pub contents : D
  pub schema_migrations : List Row

-- applied.contains(version), and whether the primary key is taken.
unfoldable pub has : Bytes → List Row → Bool
has version [] = false
has version (r ∷ rows) = let rest = has version rows in r.version == version || rest

module _ {D : Type 0} (exec : Bytes → D → Option D) (now : Bytes) where
  abbrev insert_row : Migration → Database D → Option D → Option (Database D)
  insert_row m db none = none
  insert_row m db (some contents) =
      let row : Row = record { version = m.version; name = m.name; executed_at = now } in
      if has m.version db.schema_migrations
      then none
      else some
          (record { contents = contents; schema_migrations = db.schema_migrations ++ (row ∷ []) })

  -- The body of the try, up to the commit; a transaction that throws is rolled back.
  unfoldable pub apply : Migration → Database D → Option (Database D)
  apply m db = insert_row m db (exec m.sql db.contents)

  -- The loop; `none` for the exception that is passed on.
  unfoldable pub run : List Row → List Migration → ℕ → Database D → Option ℕ × Database D
  run applied [] count db = (some count, db)
  run applied (m ∷ ms) count db =
      let skipped = run applied ms count db in
      let step : Option ℕ × Database D = elim (apply m db) [
        | none ↦ (none, db)
        | some db' ↦ run applied ms (suc count) db'
      ] in
      if has m.version applied then skipped else step

  -- migrate.
  unfoldable pub migrate : List Migration → Database D → Option ℕ × Database D
  migrate migrations db = run db.schema_migrations migrations 0 db

-- bootstrap: CREATE TABLE IF NOT EXISTS; `none` for a database without the table.
unfoldable pub bootstrap : Option (List Row) → List Row
bootstrap none = []
bootstrap (some rows) = rows

-- Database::migrate: SchemaMigrator's constructor, then migrate.
unfoldable pub open_and_migrate :
    {D : Type 0}
    → (Bytes → D → Option D)
    → Bytes
    → List Migration
    → D
    → Option (List Row)
    → Option ℕ × Database D
open_and_migrate exec now migrations contents table =
    migrate exec now migrations
      (record { contents = contents; schema_migrations = bootstrap table })
