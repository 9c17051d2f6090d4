-- ===== src/Tests/Events.antt =====
-- The event log and its latest events.
use syrius_orbit_daemon.Common.{◌↔◌, List, [], ◌∷◌, text, In, arith}
use syrius_orbit_daemon.Db.Events.{Event, Table, empty_table, find_latest_by_topic}
use syrius_orbit_daemon.Db.Events.Log.{IsLog}
use syrius_orbit_daemon.Db.Events.Exact.{IsScan, IsLatest, find_latest_by_topic_iff}
use syrius_orbit_daemon.Mqtt.Messages.{connection_message, instant_actions_message}
use syrius_orbit_daemon.Projection.Fresh.{IsSnapshotLog}
use syrius_orbit_daemon.Recorder.Rows.{record_all, record_all-IsRecorded}
use syrius_orbit_daemon.Tests.Data.{codec, event, log, robot_context, a_connection, some_actions}

-- SQLite that scans in the order of insertion.
abbrev pub scan : List Event → List Event
scan rows = rows

pub scan-IsScan : IsScan scan
scan-IsScan = record { only = λ rows e i. i; every = λ rows e i. i }

pub log-IsLog : IsLog log
log-IsLog = record {
  rising =
      (omega arith, (omega arith, (omega arith, (omega arith, (omega arith, (omega arith, tt))))));
  bounded =
      (omega arith, (omega arith, (omega arith, (omega arith, (omega arith, (omega arith, tt))))));
}

find_latest_by_topic_iff_example :
    In
      (event 4 (text "connection") (text "acme.7") (text "C"))
      (find_latest_by_topic scan (text "connection") log)
    ↔ IsLatest (text "connection") log.rows (event 4 (text "connection") (text "acme.7") (text "C"))
find_latest_by_topic_iff_example =
    find_latest_by_topic_iff scan (text "connection") log
      (event 4 (text "connection") (text "acme.7") (text "C")) scan-IsScan log-IsLog

abbrev recorded : Table
recorded =
    record_all codec (λ n. text "now")
      ((robot_context, connection_message a_connection)
        ∷ (robot_context, instant_actions_message some_actions)
        ∷ [])
      empty_table

record_all-IsRecorded_example :
    IsLog recorded
    × IsSnapshotLog (text "connection") recorded
    × IsSnapshotLog (text "state") recorded
    × IsSnapshotLog (text "factsheet") recorded
record_all-IsRecorded_example =
    record_all-IsRecorded codec (λ n. text "now")
      ((robot_context, connection_message a_connection)
        ∷ (robot_context, instant_actions_message some_actions)
        ∷ [])
