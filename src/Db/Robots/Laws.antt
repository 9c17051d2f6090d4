-- ===== src/Db/Robots/Laws.antt =====
-- What RobotsRepository promises: the table is a map from robot_id to Robot.
use syrius_orbit_daemon.Common.{
  ◌≡◌, refl, Bool, false, none, some, List, Bytes, text, text_eq, ◌==◌, if◌then◌else◌, arith,
}
use syrius_orbit_daemon.Db.Cells.{Double, bind_bool, get_bool}
use syrius_orbit_daemon.Db.Table.Laws.{changed, read-upsert}
use syrius_orbit_daemon.Db.Robots.{
  Robot, RobotRow, key, from_row, find_by_id, bind_robot, overwrite, upsert, default_row,
  set_connection, upsert_connection, set_state, upsert_state, set_factsheet, upsert_factsheet,
}

-- A robot that its first event creates: the column defaults.
abbrev pub new_robot : Bytes → Bytes → Bytes → Bytes → Robot
new_robot robot_id manufacturer serial_number now = record {
  robot_id = robot_id;
  manufacturer = manufacturer;
  serial_number = serial_number;
  site_id = none;
  display_name = none;
  connection_state = text "OFFLINE";
  operating_mode = none;
  driving = false;
  paused = false;
  battery_level = none;
  charging = false;
  suspended = false;
  archived = false;
  factsheet = none;
  last_updated_at = now;
  created_at = now;
}

from_row-bind_robot : (robot : Robot) → from_row (bind_robot robot) ≡ robot
unfolding from_row bind_robot
from_row-bind_robot robot = ground arith

-- After `upsert`, `find_by_id` returns for the robot's id the robot that was written, with the
-- created_at of the record that was there before, if there was one; other ids are not affected.
pub find_robot-upsert :
    (robot : Robot) (j : Bytes) (rows : List RobotRow)
    → find_by_id j (upsert robot rows) ≡ (
        if robot.robot_id == j
        then some (
            changed (λ old. record robot { created_at = old.created_at }) robot (find_by_id j rows))
        else find_by_id j rows)
unfolding find_by_id upsert from_row
find_robot-upsert robot j rows =
    read-upsert key from_row robot.robot_id (overwrite (bind_robot robot)) (bind_robot robot) refl
      (λ r. refl) (λ old. record robot { created_at = old.created_at }) robot
      (from_row-bind_robot robot) (λ r e. ground arith) j rows

abbrev pub see_connection : Bytes → Bytes → Robot → Robot
see_connection connection_state now r = record r {
  connection_state = connection_state;
  last_updated_at = now;
}

-- After upsertConnection the robot's record has the new connection_state and last_updated_at and
-- is unchanged otherwise; a robot that was not there starts from the column defaults; other ids
-- are not affected.
pub find_by_id-upsert_connection :
    (robot_id manufacturer serial_number connection_state now j : Bytes) (rows : List RobotRow)
    → find_by_id j (upsert_connection robot_id manufacturer serial_number connection_state now rows)
      ≡ (if robot_id == j
          then some (
              changed
                (see_connection connection_state now)
                (see_connection connection_state now
                  (new_robot robot_id manufacturer serial_number now))
                (find_by_id j rows))
          else find_by_id j rows)
unfolding find_by_id upsert_connection from_row default_row
find_by_id-upsert_connection robot_id manufacturer serial_number connection_state now j rows =
    read-upsert key from_row robot_id (set_connection connection_state now)
      (set_connection connection_state now (default_row robot_id manufacturer serial_number now))
      refl (λ r. refl) (see_connection connection_state now)
      (see_connection connection_state now (new_robot robot_id manufacturer serial_number now)) refl
      (λ r e. refl) j rows

abbrev pub see_state : Bytes → Bool → Bool → Double → Bool → Bytes → Robot → Robot
see_state operating_mode driving paused battery_level charging now r = record r {
  operating_mode = some operating_mode;
  driving = driving;
  paused = paused;
  battery_level = some battery_level;
  charging = charging;
  last_updated_at = now;
}

get_bool-bind_bool : (b : Bool) → get_bool (bind_bool b) ≡ b
get_bool-bind_bool b = ground arith

-- The same for upsertState and the columns that a state message carries.
pub find_by_id-upsert_state :
    (robot_id manufacturer serial_number mode : Bytes) (driving paused : Bool) (battery : Double)
    (charging : Bool) (now j : Bytes) (rows : List RobotRow)
    → find_by_id j (
        upsert_state robot_id manufacturer serial_number mode driving paused battery charging now
          rows)
      ≡ (if robot_id == j
          then some (
              changed
                (see_state mode driving paused battery charging now)
                (see_state mode driving paused battery charging now
                  (new_robot robot_id manufacturer serial_number now))
                (find_by_id j rows))
          else find_by_id j rows)
unfolding find_by_id upsert_state from_row default_row
find_by_id-upsert_state robot_id manufacturer serial_number mode driving paused battery charging now
      j rows =
    read-upsert key from_row robot_id (set_state mode driving paused battery charging now)
      (set_state mode driving paused battery charging now
        (default_row robot_id manufacturer serial_number now))
      refl (λ r. refl) (see_state mode driving paused battery charging now)
      (see_state mode driving paused battery charging now
        (new_robot robot_id manufacturer serial_number now))
      (simp get_bool-bind_bool) (λ r e. simp get_bool-bind_bool) j rows

abbrev pub see_factsheet : Bytes → Bytes → Robot → Robot
see_factsheet factsheet now r = record r { factsheet = some factsheet; last_updated_at = now }

-- The same for upsertFactsheet and the factsheet column.
pub find_by_id-upsert_factsheet :
    (robot_id manufacturer serial_number factsheet now j : Bytes) (rows : List RobotRow)
    → find_by_id j (upsert_factsheet robot_id manufacturer serial_number factsheet now rows) ≡ (
        if robot_id == j
        then some (
            changed
              (see_factsheet factsheet now)
              (see_factsheet factsheet now (new_robot robot_id manufacturer serial_number now))
              (find_by_id j rows))
        else find_by_id j rows)
unfolding find_by_id upsert_factsheet from_row default_row
find_by_id-upsert_factsheet robot_id manufacturer serial_number factsheet now j rows =
    read-upsert key from_row robot_id (set_factsheet factsheet now)
      (set_factsheet factsheet now (default_row robot_id manufacturer serial_number now)) refl
      (λ r. refl) (see_factsheet factsheet now)
      (see_factsheet factsheet now (new_robot robot_id manufacturer serial_number now)) refl
      (λ r e. refl) j rows
