-- ===== src/Projection/Robots.antt =====
-- What a projection cycle does to one robot's record.
pub mod Patches
pub use syrius_orbit_daemon.Projection.Robots.Patches.*
use syrius_orbit_daemon.Common.{
  ◌≡◌, refl, ap, ◌∙◌, sym, Bool, false, inl, inr, Option, none, some, List, [], ◌∷◌, ◌++◌, Bytes,
  text, ◌==◌, value_or, if◌then◌else◌, Bool-cases, arith,
}
use syrius_orbit_daemon.Codec.{Codec}
use syrius_orbit_daemon.Schema.Enums.{connection_state_name}
use syrius_orbit_daemon.Schema.StateEnums.{operating_mode_name}
use syrius_orbit_daemon.Schema.Messages.{Connection}
use syrius_orbit_daemon.Schema.State.{State}
use syrius_orbit_daemon.Db.Cells.{Double}
use syrius_orbit_daemon.Db.Events.{Event, Table, find_latest_by_topic}
use syrius_orbit_daemon.Db.Table.Laws.{changed}
use syrius_orbit_daemon.Db.Robots.{Robot, find_by_id}
use syrius_orbit_daemon.Db.Robots.Laws.{
  new_robot, see_connection, see_state, see_factsheet, find_by_id-upsert_connection,
  find_by_id-upsert_state, find_by_id-upsert_factsheet,
}
use syrius_orbit_daemon.Projection.{
  ReadModel, write_connection, write_state, project_connection, project_state, project_factsheet,
  project_or_skip, cycle,
}
use syrius_orbit_daemon.Projection.Touches.{
  Touch, touch_all, gather, fold-touch_all, touch_all-append, touch_all_idem,
}
use syrius_orbit_daemon.Projection.Frames.{phase, robots-cycle}

connection-touch :
    (j : Bytes) (e : Event) (o : Option Connection) (m : ReadModel)
    → find_by_id j (value_or (write_connection e o m) m).robots
      ≡ touch_all robot_patches (connection_touch j e o) (find_by_id j m.robots)
unfolding write_connection
connection-touch j e none m = unfold touch_all in refl
connection-touch j e (some msg) m =
    find_by_id-upsert_connection e.robot_id e.manufacturer e.serial_number
      (connection_state_name msg.connection_state) e.received_at j m.robots
    ∙ touch_if_lem j e (connection_patch e msg)
        (see_connection (connection_state_name msg.connection_state) e.received_at)
        (find_by_id j m.robots) (λ r. refl)

state-touch :
    (j : Bytes) (e : Event) (o : Option State) (m : ReadModel)
    → find_by_id j (value_or (write_state e o m) m).robots
      ≡ touch_all robot_patches (state_touch j e o) (find_by_id j m.robots)
unfolding write_state
state-touch j e none m = unfold touch_all in refl
state-touch j e (some msg) m =
    let charge = msg.power_supply.state_of_charge in
    let mode = operating_mode_name msg.operating_mode in
    find_by_id-upsert_state e.robot_id e.manufacturer e.serial_number mode msg.driving
      (value_or msg.paused false) charge msg.power_supply.charging e.received_at j m.robots
    ∙ touch_if_lem j e (state_patch e msg)
        (see_state mode msg.driving (value_or msg.paused false) charge msg.power_supply.charging
          e.received_at)
        (find_by_id j m.robots) (λ r. refl)

factsheet-touch :
    (j : Bytes) (m : ReadModel) (e : Event)
    → find_by_id j (project_or_skip project_factsheet m e).robots
      ≡ touch_all robot_patches (touch_if j e (factsheet_patch e)) (find_by_id j m.robots)
unfolding project_or_skip project_factsheet
factsheet-touch j m e =
    find_by_id-upsert_factsheet e.robot_id e.manufacturer e.serial_number e.payload e.received_at j
      m.robots
    ∙ touch_if_lem j e (factsheet_patch e) (see_factsheet e.payload e.received_at)
        (find_by_id j m.robots) (λ r. refl)

module _ (scan : List Event → List Event) (c : Codec) (events : Table) (j : Bytes) where
  abbrev pub connection_touches : List RobotTouch
  connection_touches =
      gather (λ e. connection_touch j e (c.parse_connection e.payload))
        (find_latest_by_topic scan (text "connection") events)

  abbrev pub state_touches : List RobotTouch
  state_touches =
      gather (λ e. state_touch j e (c.parse_state e.payload))
        (find_latest_by_topic scan (text "state") events)

  abbrev pub factsheet_touches : List RobotTouch
  factsheet_touches =
      gather (λ e. touch_if j e (factsheet_patch e))
        (find_latest_by_topic scan (text "factsheet") events)

  -- What one cycle writes to robot `j`: the latest connection events, then the latest states, then
  -- the latest factsheets.
  abbrev pub robot_touches : List RobotTouch
  robot_touches = connection_touches ++ (state_touches ++ factsheet_touches)

  connection_phase :
      (m : ReadModel)
      → find_by_id j (phase scan c events m (project_connection c) (text "connection") m).robots
        ≡ touch_all robot_patches connection_touches (find_by_id j m.robots)
  connection_phase m =
      fold-touch_all robot_patches (λ m. find_by_id j m.robots)
        (project_or_skip (project_connection c)) _
        (find_latest_by_topic scan (text "connection") events) m
        (λ m e.
          unfold project_or_skip project_connection in
          connection-touch j e (c.parse_connection e.payload) m)

  state_phase :
      (m : ReadModel)
      → find_by_id j (phase scan c events m (project_state c) (text "state") m).robots
        ≡ touch_all robot_patches state_touches (find_by_id j m.robots)
  state_phase m =
      fold-touch_all robot_patches (λ m. find_by_id j m.robots) (project_or_skip (project_state c))
        _ (find_latest_by_topic scan (text "state") events) m
        (λ m e. unfold project_or_skip project_state in state-touch j e (c.parse_state e.payload) m)

  factsheet_phase :
      (m : ReadModel)
      → find_by_id j (phase scan c events m project_factsheet (text "factsheet") m).robots
        ≡ touch_all robot_patches factsheet_touches (find_by_id j m.robots)
  factsheet_phase m =
      fold-touch_all robot_patches (λ m. find_by_id j m.robots) (project_or_skip project_factsheet)
        _ (find_latest_by_topic scan (text "factsheet") events) m (factsheet-touch j)

  -- After a projection cycle, a robot's record is the one before with the columns overwritten by
  -- the latest parsable connection events, then states, then factsheets of that robot, in this
  -- order; a robot without such an event is unchanged.
  pub robot-cycle :
      (m : ReadModel)
      → find_by_id j (cycle scan c events m).robots
        ≡ touch_all robot_patches robot_touches (find_by_id j m.robots)
  robot-cycle m =
      let after_connection = phase scan c events m (project_connection c) (text "connection") m in
      let after_state = phase scan c events m (project_state c) (text "state") after_connection in
      ap (find_by_id j) (robots-cycle scan c events m)
      ∙ factsheet_phase after_state
      ∙ ap (touch_all robot_patches factsheet_touches) (
          state_phase after_connection
          ∙ ap (touch_all robot_patches state_touches) (connection_phase m))
      ∙ sym (
          touch_all-append robot_patches connection_touches (state_touches ++ factsheet_touches)
            (find_by_id j m.robots)
          ∙ touch_all-append robot_patches state_touches factsheet_touches
              (touch_all robot_patches connection_touches (find_by_id j m.robots)))

  -- Running the same cycle again leaves every robot's record as the first run left it.
  pub robot-cycle_idem :
      (m : ReadModel)
      → find_by_id j (cycle scan c events (cycle scan c events m)).robots
        ≡ find_by_id j (cycle scan c events m).robots
  robot-cycle_idem m =
      robot-cycle (cycle scan c events m)
      ∙ ap (touch_all robot_patches robot_touches) (robot-cycle m)
      ∙ touch_all_idem robot_patches robot_touches (find_by_id j m.robots)
      ∙ sym (robot-cycle m)
