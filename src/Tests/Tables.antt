-- ===== src/Tests/Tables.antt =====
-- The read model's tables and the migrations.
use syrius_orbit_daemon.Common.{
  ◌≡◌, refl, true, Option, none, some, List, [], ◌∷◌, ◌++◌, Bytes, text, ◌==◌, length,
}
use syrius_orbit_daemon.Db.Table
use syrius_orbit_daemon.Db.Robots
use syrius_orbit_daemon.Db.Robots.{Robot, RobotRow}
use syrius_orbit_daemon.Db.Maps
use syrius_orbit_daemon.Projection.{ReadModel, run}
use syrius_orbit_daemon.Projection.Managed.{managed, run-managed}
use syrius_orbit_daemon.Migrator.{Migration, Row, Database, has, apply, migrate}
use syrius_orbit_daemon.Migrator
use syrius_orbit_daemon.Migrator.Again.{pending, migrate-again}
use syrius_orbit_daemon.Tests.Data.{codec, log}
use syrius_orbit_daemon.Tests.Events.{scan}

abbrev a_row : RobotRow
a_row = record {
  robot_id = text "acme.7";
  manufacturer = text "acme";
  serial_number = text "7";
  site_id = some (text "hall");
  display_name = none;
  connection_state = text "ONLINE";
  operating_mode = none;
  driving = 0;
  paused = 0;
  battery_level = none;
  charging = 0;
  suspended = 1;
  archived = 0;
  factsheet = none;
  last_updated_at = text "then";
  created_at = text "then";
}

abbrev pub a_robot : Robot
a_robot = Robots.from_row a_row

abbrev pub with_robot : ReadModel
with_robot = record { robots = a_row ∷ []; orders = []; actions = [] }

abbrev a_map : Maps.Map
a_map = record {
  map_id = text "m";
  map_version = text "1";
  map_descriptor = none;
  map_status = text "ENABLED";
  site_id = text "hall";
  graph_source = none;
  zone_set_source = none;
  last_updated_at = text "now";
}

run-managed_example :
    (r : Robot) × (Robots.find_by_id
        (text "acme.7")
        (run scan codec ((true, true, log) ∷ (true, true, log) ∷ []) with_robot).robots
      ≡ some r)
    × (managed r ≡ managed a_robot)
unfolding Robots.find_by_id Table.find Robots.from_row ◌==◌
run-managed_example =
    run-managed scan codec (text "acme.7") ((true, true, log) ∷ (true, true, log) ∷ []) with_robot
      a_robot refl

abbrev pub migrations : List Migration
migrations =
    record { version = text "001"; name = text "robots"; sql = text "a" }
    ∷ record { version = text "002"; name = text "orders"; sql = text "b" }
    ∷ []

-- A database whose contents are the statements that were run.
abbrev pub exec : Bytes → List Bytes → Option (List Bytes)
exec sql contents = some (contents ++ (sql ∷ []))

abbrev pub old_database : Database (List Bytes)
old_database = record {
  contents = text "a" ∷ [];
  schema_migrations =
      record { version = text "001"; name = text "robots"; executed_at = text "then" } ∷ [];
}

abbrev new_database : Database (List Bytes)
new_database = record {
  contents = text "a" ∷ text "b" ∷ [];
  schema_migrations =
      record { version = text "001"; name = text "robots"; executed_at = text "then" }
      ∷ record { version = text "002"; name = text "orders"; executed_at = text "now" }
      ∷ [];
}

migrate-again_example :
    (new_database.schema_migrations
      ≡ old_database.schema_migrations
        ++ pending exec (text "now") old_database.schema_migrations migrations)
    × (1 ≡ length (pending exec (text "now") old_database.schema_migrations migrations))
    × (migrate exec (text "later") migrations new_database ≡ (some 0, new_database))
unfolding migrate Migrator.run apply has ◌==◌
migrate-again_example =
    migrate-again exec (text "now") (text "later") migrations 1 old_database new_database refl
