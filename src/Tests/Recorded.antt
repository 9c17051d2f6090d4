-- ===== src/Tests/Recorded.antt =====
-- Downlink messages from the recorder to the read model, and an interrupted migration.
use mathlib.Core.Option
use syrius_orbit_daemon.Common.{
  ℕ, ◌≡◌, refl, some, none, Option, value_or, List, [], ◌∷◌, ◌++◌, Bytes, text, ◌==◌, nat_eq,
  fold_left, select, find_first, ==_apart, if◌then◌else◌,
}
use syrius_orbit_daemon.Codec.{Codec}
use syrius_orbit_daemon.Topic.{TopicContext}
use syrius_orbit_daemon.Schema.Enums.{
  ConnectionState, connection_state_name, GrantType, grant_type_name,
}
use syrius_orbit_daemon.Schema.Messages.{Response, Responses}
use syrius_orbit_daemon.Db.Cells.{bind_nonempty}
use syrius_orbit_daemon.Db.Events.{
  Event, Table, empty_table, insert, find_latest_by_topic, latest_rows, max_ids, raise_max, id_in,
}
use syrius_orbit_daemon.Db.Table as Db_table
use syrius_orbit_daemon.Db.Events
use syrius_orbit_daemon.Db.Robots
use syrius_orbit_daemon.Db.Orders
use syrius_orbit_daemon.Db.Actions
use syrius_orbit_daemon.Mqtt.Messages.{
  Message, connection_message, order_message, instant_actions_message, responses_message,
}
use syrius_orbit_daemon.Projection.{
  cycle, run_entry, projectors, project_or_skip, project_responses, write_response,
}
use syrius_orbit_daemon.Projection.Twice.{cycle_idem}
use syrius_orbit_daemon.Projection.Fresh.Columns.{state_view}
use syrius_orbit_daemon.Projection.Fresh.Unread.{unread_state_kept}
use syrius_orbit_daemon.Recorder.{robot_name, record_message, insert_event, insert_responses}
use syrius_orbit_daemon.Recorder.Rows.{record_all}
use syrius_orbit_daemon.Recorder.Orders.{order-recorded}
use syrius_orbit_daemon.Migrator.{migrate}
use syrius_orbit_daemon.Migrator.Stops.{missing, apply_all, Stops, migrate-Stops}
use syrius_orbit_daemon.Migrator
use syrius_orbit_daemon.Tests.Data.{
  codec, robot_context, a_connection, an_order, some_actions, no_rows, log,
}
use syrius_orbit_daemon.Tests.Events.{scan, scan-IsScan, log-IsLog}
use syrius_orbit_daemon.Tests.Cycles.{
  connection_event, state_event, connection_event-IsLatest, state_event-IsLatest, log-IsSnapshotLog,
}
use syrius_orbit_daemon.Tests.Tables.{migrations, old_database, a_robot, with_robot}

abbrev now : ℕ → Bytes
now n = text "now"

abbrev deliveries : List (TopicContext × Message)
deliveries =
    (robot_context, order_message an_order) ∷ (robot_context, connection_message a_connection) ∷ []

order-recorded_example :
    (r : Orders.Order) × (Orders.find_by_id
        (text "o1")
        (cycle scan codec
          (record_message codec now robot_context
            (order_message an_order)
            (record_all codec now deliveries empty_table))
          no_rows).orders
      ≡ some r)
    × (r.assigned_robot_id ≡ robot_name robot_context)
    × (r.order_update_id ≡ 2)
    × (r.order_description ≡ bind_nonempty (value_or none (text "")))
    × (r.nodes ≡ text "[]")
    × (r.edges ≡ text "[]")
unfolding ◌==◌
order-recorded_example =
    order-recorded codec now scan scan-IsScan no_rows deliveries robot_context an_order
      (refl, (tt, tt)) refl

-- The same actions were recorded before.
abbrev acted : Table
acted = record_message codec now robot_context (instant_actions_message some_actions) empty_table

abbrev answer : Bytes → GrantType → Response
answer request_id grant_type = record {
  request_id = request_id;
  grant_type = grant_type;
  lease_expiry = none;
}

abbrev answers_of : ℕ → List Response → Responses
answers_of header_id responses = record {
  header_id = header_id;
  timestamp = text "t";
  version = text "3.0.0";
  manufacturer = text "acme";
  serial_number = text "7";
  responses = responses;
}

-- A request is granted, then it and another one are queued.
abbrev prior : Responses
prior = answers_of 1 (answer (text "z1") GrantType.granted ∷ [])

abbrev answers : Responses
answers =
    answers_of 9 (answer (text "z1") GrantType.queued ∷ answer (text "z2") GrantType.granted ∷ [])

abbrev answering : Codec
answering = record codec {
  parse_responses = λ s. if s == text "R" then some answers else some prior;
  dump_responses = λ msg. if nat_eq msg.header_id 9 then text "R" else text "P";
}

abbrev answered : Table
answered = record_message answering now robot_context (responses_message prior) empty_table

-- Two requests are answered together, then one of them is granted; the order of the index is a, z.
abbrev together : Responses
together =
    answers_of 9 (answer (text "z") GrantType.queued ∷ answer (text "a") GrantType.queued ∷ [])

abbrev granting : Responses
granting = answers_of 1 (answer (text "a") GrantType.granted ∷ [])

abbrev changing : Codec
changing = record answering {
  parse_responses = λ s. if s == text "R" then some together else some granting;
}

abbrev by_index : List Event → List Event
by_index (x ∷ y ∷ []) = y ∷ x ∷ []
by_index rows = rows

-- The granted request is left with its earlier status.
stale_answer :
    Option.map
      (λ (a : Actions.InstantAction). a.action_status)
      (Actions.find_by_id
        (text "a")
        (cycle by_index changing
          (record_message changing now robot_context
            (responses_message granting)
            (record_message changing now robot_context (responses_message together) empty_table))
          no_rows).actions)
    ≡ some (grant_type_name GrantType.queued)
unfolding record_message insert_responses insert_event insert fold_left cycle run_entry projectors
    project_or_skip project_responses write_response find_latest_by_topic latest_rows max_ids
    raise_max id_in Events.from_row ◌==◌ select Actions.find_by_id Actions.upsert_from_response
    Actions.from_row Actions.default_row Db_table.find Db_table.upsert find_first
stale_answer = refl

-- The second migration throws.
abbrev failing : Bytes → List Bytes → Option (List Bytes)
failing sql contents = if sql == text "b" then none else some (contents ++ (sql ∷ []))

migrate-Stops_example :
    let r = migrate failing (text "now") migrations old_database in
    (done : List Migrator.Migration) × (rest : List Migrator.Migration) × (missing
        old_database.schema_migrations migrations
      ≡ done ++ rest)
    × (apply_all failing (text "now") done old_database ≡ some r.1)
    × Stops failing (text "now") 0 done rest r
    × (missing r.1.schema_migrations migrations ≡ rest)
unfolding ◌==◌
migrate-Stops_example =
    migrate-Stops failing (text "now") migrations old_database
      ((==_apart (text "001") (text "002") refl, tt), (tt, tt))

cycle_idem_example :
    let once = cycle scan codec log no_rows in
    let twice = cycle scan codec log once in
    (Robots.find_by_id (text "acme.7") twice.robots ≡ Robots.find_by_id (text "acme.7") once.robots)
    × (Orders.find_by_id (text "acme.7") twice.orders
        ≡ Orders.find_by_id (text "acme.7") once.orders)
    × (Actions.find_by_id (text "acme.7") twice.actions
        ≡ Actions.find_by_id (text "acme.7") once.actions)
cycle_idem_example = cycle_idem scan codec log (text "acme.7") no_rows

-- A codec that reads no state.
abbrev deaf : Codec
deaf = record codec { parse_state = λ s. none }

unread_state_kept_example :
    (r : Robots.Robot) × (Robots.find_by_id (text "acme.7") (cycle scan deaf log with_robot).robots
      ≡ some r)
    × (state_view r ≡ state_view a_robot)
    × (r.connection_state ≡ connection_state_name ConnectionState.offline)
unfolding Robots.find_by_id Db_table.find Robots.from_row ◌==◌
unread_state_kept_example =
    unread_state_kept scan deaf log with_robot state_event scan-IsScan log-IsLog a_robot
      connection_event a_connection (log-IsSnapshotLog (text "state") refl) state_event-IsLatest
      refl refl (log-IsSnapshotLog (text "connection") refl) connection_event-IsLatest refl refl
