-- ===== src/Db/Robots.antt =====
-- The robots table and RobotsRepository: src/db/RobotsRepository.cpp,
-- include/syrius_orbit/db/RobotsRepository.hpp, src/db/migrations/001_create_robots.sql.
pub mod Laws
use syrius_orbit_daemon.Common.{
  ℕ, Bool, Option, none, some, List, map, Bytes, text, text_eq, if◌then◌else◌,
}
use syrius_orbit_daemon.Db.Cells.{Double, bind_bool, get_bool}
use syrius_orbit_daemon.Db.Table
use mathlib.Core.Option

-- struct Robot.
pub record Robot : Type 0 where
  pub robot_id : Bytes
  pub manufacturer : Bytes
  pub serial_number : Bytes
  pub site_id : Option Bytes
  pub display_name : Option Bytes
  pub connection_state : Bytes
  pub operating_mode : Option Bytes
  pub driving : Bool
  pub paused : Bool
  pub battery_level : Option Double
  pub charging : Bool
  pub suspended : Bool
  pub archived : Bool
  pub factsheet : Option Bytes
  pub last_updated_at : Bytes
  pub created_at : Bytes

-- A row of the robots table.
pub record RobotRow : Type 0 where
  pub robot_id : Bytes
  pub manufacturer : Bytes
  pub serial_number : Bytes
  pub site_id : Option Bytes
  pub display_name : Option Bytes
  pub connection_state : Bytes
  pub operating_mode : Option Bytes
  pub driving : ℕ
  pub paused : ℕ
  pub battery_level : Option Double
  pub charging : ℕ
  pub suspended : ℕ
  pub archived : ℕ
  pub factsheet : Option Bytes
  pub last_updated_at : Bytes
  pub created_at : Bytes

abbrev pub key : RobotRow → Bytes
key r = r.robot_id

unfoldable pub from_row : RobotRow → Robot
from_row r = record {
  robot_id = r.robot_id;
  manufacturer = r.manufacturer;
  serial_number = r.serial_number;
  site_id = r.site_id;
  display_name = r.display_name;
  connection_state = r.connection_state;
  operating_mode = r.operating_mode;
  driving = get_bool r.driving;
  paused = get_bool r.paused;
  battery_level = r.battery_level;
  charging = get_bool r.charging;
  suspended = get_bool r.suspended;
  archived = get_bool r.archived;
  factsheet = r.factsheet;
  last_updated_at = r.last_updated_at;
  created_at = r.created_at;
}

unfoldable pub find_by_id : Bytes → List RobotRow → Option Robot
find_by_id robot_id rows = Option.map from_row (Table.find key robot_id rows)

unfoldable pub list_all : List RobotRow → List Robot
list_all rows = map from_row rows

-- The values that `upsert` binds to the sixteen columns.
unfoldable pub bind_robot : Robot → RobotRow
bind_robot robot = record {
  robot_id = robot.robot_id;
  manufacturer = robot.manufacturer;
  serial_number = robot.serial_number;
  site_id = robot.site_id;
  display_name = robot.display_name;
  connection_state = robot.connection_state;
  operating_mode = robot.operating_mode;
  driving = bind_bool robot.driving;
  paused = bind_bool robot.paused;
  battery_level = robot.battery_level;
  charging = bind_bool robot.charging;
  suspended = bind_bool robot.suspended;
  archived = bind_bool robot.archived;
  factsheet = robot.factsheet;
  last_updated_at = robot.last_updated_at;
  created_at = robot.created_at;
}

-- DO UPDATE SET of `upsert`: every column but robot_id and created_at.
abbrev pub overwrite : RobotRow → RobotRow → RobotRow
overwrite excluded r = record excluded { robot_id = r.robot_id; created_at = r.created_at }

unfoldable pub upsert : Robot → List RobotRow → List RobotRow
unfolding bind_robot
upsert robot rows =
    let excluded = bind_robot robot in
    Table.upsert key robot.robot_id (overwrite excluded) excluded rows

-- The column defaults of 001_create_robots.sql, for an INSERT that names the other columns.
unfoldable pub default_row : Bytes → Bytes → Bytes → Bytes → RobotRow
default_row robot_id manufacturer serial_number now = record {
  robot_id = robot_id;
  manufacturer = manufacturer;
  serial_number = serial_number;
  site_id = none;
  display_name = none;
  connection_state = text "OFFLINE";
  operating_mode = none;
  driving = 0;
  paused = 0;
  battery_level = none;
  charging = 0;
  suspended = 0;
  archived = 0;
  factsheet = none;
  last_updated_at = now;
  created_at = now;
}

abbrev pub set_connection : Bytes → Bytes → RobotRow → RobotRow
set_connection connection_state last_updated_at r = record r {
  connection_state = connection_state;
  last_updated_at = last_updated_at;
}

unfoldable pub upsert_connection :
    Bytes → Bytes → Bytes → Bytes → Bytes → List RobotRow → List RobotRow
upsert_connection robot_id manufacturer serial_number connection_state last_updated_at rows =
    let change = set_connection connection_state last_updated_at in
    Table.upsert key robot_id change
      (change (default_row robot_id manufacturer serial_number last_updated_at)) rows

abbrev pub set_state : Bytes → Bool → Bool → Double → Bool → Bytes → RobotRow → RobotRow
set_state operating_mode driving paused battery_level charging last_updated_at r = record r {
  operating_mode = some operating_mode;
  driving = bind_bool driving;
  paused = bind_bool paused;
  battery_level = some battery_level;
  charging = bind_bool charging;
  last_updated_at = last_updated_at;
}

unfoldable pub upsert_state :
    Bytes
    → Bytes
    → Bytes
    → Bytes
    → Bool
    → Bool
    → Double
    → Bool
    → Bytes
    → List RobotRow
    → List RobotRow
upsert_state robot_id manufacturer serial_number operating_mode driving paused battery_level
      charging last_updated_at rows =
    let change = set_state operating_mode driving paused battery_level charging last_updated_at in
    Table.upsert key robot_id change
      (change (default_row robot_id manufacturer serial_number last_updated_at)) rows

abbrev pub set_factsheet : Bytes → Bytes → RobotRow → RobotRow
set_factsheet factsheet last_updated_at r = record r {
  factsheet = some factsheet;
  last_updated_at = last_updated_at;
}

unfoldable pub upsert_factsheet :
    Bytes → Bytes → Bytes → Bytes → Bytes → List RobotRow → List RobotRow
upsert_factsheet robot_id manufacturer serial_number factsheet last_updated_at rows =
    let change = set_factsheet factsheet last_updated_at in
    Table.upsert key robot_id change
      (change (default_row robot_id manufacturer serial_number last_updated_at)) rows
