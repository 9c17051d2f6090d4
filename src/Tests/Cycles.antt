-- ===== src/Tests/Cycles.antt =====
-- Projection cycles.
use syrius_orbit_daemon.Common.{◌≡◌, refl, true, some, Bytes, text, ◌==◌, select, inl}
use syrius_orbit_daemon.Db.Events.{
  Event, empty_table, find_latest_by_topic, latest_rows, from_row, max_ids, raise_max, id_in,
}
use syrius_orbit_daemon.Db.Events.Log.{empty_table-IsLog}
use syrius_orbit_daemon.Db.Events.Exact.{IsLatest, find_latest_by_topic_iff}
use syrius_orbit_daemon.Db.Robots
use syrius_orbit_daemon.Db.Robots.{Robot}
use syrius_orbit_daemon.Db.Orders
use syrius_orbit_daemon.Db.Actions
use syrius_orbit_daemon.Projection.{ReadModel, cycle}
use syrius_orbit_daemon.Projection.Touches.{touch_all}
use syrius_orbit_daemon.Projection.Robots.{robot_patches, robot_touches, robot-cycle}
use syrius_orbit_daemon.Projection.Orders.{order_patches, order_touches, order-cycle}
use syrius_orbit_daemon.Projection.Fresh.{IsSnapshotLog}
use syrius_orbit_daemon.Projection.Fresh.Columns.{
  state_current, last_updated_of_factsheet, state_view, reported,
}
use syrius_orbit_daemon.Mqtt.Messages.{state_message}
use syrius_orbit_daemon.Recorder.{record_message, robot_name}
use syrius_orbit_daemon.Recorder.Rows.{is_snapshot, Tidy-IsSnapshotLog, IsRecorded}
use syrius_orbit_daemon.Recorder.Shown.{state-recorded}
use syrius_orbit_daemon.Tests.Data.{codec, event, log, no_rows, a_state, robot_context}
use syrius_orbit_daemon.Tests.Events.{scan, scan-IsScan, log-IsLog}

pub log-IsSnapshotLog : (topic : Bytes) → is_snapshot topic ≡ true → IsSnapshotLog topic log
unfolding ◌==◌
log-IsSnapshotLog topic h = Tidy-IsSnapshotLog topic log h (
  (λ _. refl),
  ((λ _. refl), ((λ _. refl), ((λ _. refl), ((λ h. absurd (cc h)), ((λ h. absurd (cc h)), tt))))),
)

abbrev pub connection_event : Event
connection_event = event 4 (text "connection") (text "acme.7") (text "C")

abbrev pub state_event : Event
state_event = event 2 (text "state") (text "acme.7") (text "S")

abbrev factsheet_event : Event
factsheet_event = event 5 (text "factsheet") (text "acme.7") (text "F")

pub connection_event-IsLatest : IsLatest (text "connection") log.rows connection_event
unfolding find_latest_by_topic latest_rows from_row max_ids raise_max id_in select ◌==◌
connection_event-IsLatest =
    (find_latest_by_topic_iff scan (text "connection") log connection_event scan-IsScan log-IsLog).0
      (inl refl)

pub state_event-IsLatest : IsLatest (text "state") log.rows state_event
unfolding find_latest_by_topic latest_rows from_row max_ids raise_max id_in select ◌==◌
state_event-IsLatest =
    (find_latest_by_topic_iff scan (text "state") log state_event scan-IsScan log-IsLog).0
      (inl refl)

factsheet_event-IsLatest : IsLatest (text "factsheet") log.rows factsheet_event
unfolding find_latest_by_topic latest_rows from_row max_ids raise_max id_in select ◌==◌
factsheet_event-IsLatest =
    (find_latest_by_topic_iff scan (text "factsheet") log factsheet_event scan-IsScan log-IsLog).0
      (inl refl)

-- The read model that a cycle makes of an empty one.
abbrev shown : ReadModel
shown = cycle scan codec log no_rows

state_current_example :
    (r : Robot) × (Robots.find_by_id (text "acme.7") shown.robots ≡ some r)
    × (state_view r ≡ reported a_state)
unfolding ◌==◌
state_current_example =
    state_current scan codec log no_rows state_event scan-IsScan log-IsLog a_state
      (log-IsSnapshotLog (text "state") refl) state_event-IsLatest refl

last_updated_of_factsheet_example :
    (r : Robot) × (Robots.find_by_id (text "acme.7") shown.robots ≡ some r)
    × (r.last_updated_at ≡ text "now")
unfolding ◌==◌
last_updated_of_factsheet_example =
    last_updated_of_factsheet scan codec log no_rows factsheet_event scan-IsScan log-IsLog
      (log-IsSnapshotLog (text "factsheet") refl) factsheet_event-IsLatest

pub empty_table-IsRecorded : IsRecorded empty_table
empty_table-IsRecorded = record { log = empty_table-IsLog; tidy = tt }

state-recorded_example :
    (r : Robot) × (Robots.find_by_id
        (robot_name robot_context)
        (cycle scan codec
          (record_message codec (λ n. text "now") robot_context (state_message a_state) empty_table)
          no_rows).robots
      ≡ some r)
    × (state_view r ≡ reported a_state)
unfolding ◌==◌
state-recorded_example =
    state-recorded scan codec (λ n. text "now") robot_context empty_table no_rows scan-IsScan
      empty_table-IsRecorded a_state refl

robot-cycle_example :
    Robots.find_by_id (text "acme.7") shown.robots
    ≡ touch_all robot_patches
        (robot_touches scan codec log (text "acme.7"))
        (Robots.find_by_id (text "acme.7") no_rows.robots)
robot-cycle_example = robot-cycle scan codec log (text "acme.7") no_rows

order-cycle_example :
    Orders.find_by_id (text "o1") shown.orders
    ≡ touch_all order_patches
        (order_touches scan codec log (text "o1"))
        (Orders.find_by_id (text "o1") no_rows.orders)
order-cycle_example = order-cycle scan codec log (text "o1") no_rows
