-- ===== src/Projection.antt =====
-- The projection of the event log into the read model: src/projection and
-- include/syrius_orbit/projection. A projector that throws returns `none`; parsing is the only
-- thing in it that throws, and it precedes every write.
pub mod Touches
pub mod Frames
pub mod Robots
pub mod Managed
pub mod Fresh
pub mod Orders
pub mod Actions
pub mod Engine
pub mod Twice
use syrius_orbit_daemon.Common.{
  Bool, true, false, not, Option, none, some, List, [], ◌∷◌, Bytes, text, value_or, fold_left,
  if◌then◌else◌,
}
use syrius_orbit_daemon.Codec.{Codec}
use syrius_orbit_daemon.Schema.Enums.{connection_state_name, blocking_type_name, grant_type_name}
use syrius_orbit_daemon.Schema.StateEnums.{operating_mode_name}
use syrius_orbit_daemon.Schema.Shapes.{Action}
use syrius_orbit_daemon.Schema.Messages.{Connection, InstantActions, Response, Responses}
use syrius_orbit_daemon.Schema.State.{State}
use syrius_orbit_daemon.Schema.Order.{Order}
use syrius_orbit_daemon.Db.Events.{Event, Table, find_latest_by_topic}
use syrius_orbit_daemon.Db.Robots.{RobotRow, upsert_connection, upsert_state, upsert_factsheet}
use syrius_orbit_daemon.Db.Orders.{OrderRow, upsert_from_order}
use syrius_orbit_daemon.Db.Actions.{ActionRow, upsert_from_action, upsert_from_response}

-- The tables that the projectors write.
pub record ReadModel : Type 0 where
  pub robots : List RobotRow
  pub orders : List OrderRow
  pub actions : List ActionRow

abbrev pub Projector : Type 0
Projector = Event → ReadModel → Option ReadModel

write_connection : Event → Option Connection → ReadModel → Option ReadModel
write_connection event none m = none
write_connection event (some msg) m = some (record m {
  robots =
      upsert_connection event.robot_id event.manufacturer event.serial_number
        (connection_state_name msg.connection_state) event.received_at m.robots;
})

-- ConnectionProjector::project.
unfoldable pub project_connection : Codec → Projector
unfolding write_connection
project_connection c event m = write_connection event (c.parse_connection event.payload) m

write_state : Event → Option State → ReadModel → Option ReadModel
write_state event none m = none
write_state event (some msg) m = some (record m {
  robots =
      upsert_state event.robot_id event.manufacturer event.serial_number
        (operating_mode_name msg.operating_mode) msg.driving (value_or msg.paused false)
        msg.power_supply.state_of_charge msg.power_supply.charging event.received_at m.robots;
})

-- StateProjector::project.
unfoldable pub project_state : Codec → Projector
unfolding write_state
project_state c event m = write_state event (c.parse_state event.payload) m

-- FactsheetProjector::project: the payload is stored as it is.
unfoldable pub project_factsheet : Projector
project_factsheet event m = some (record m {
  robots =
      upsert_factsheet event.robot_id event.manufacturer event.serial_number event.payload
        event.received_at m.robots;
})

write_order : Codec → Event → Option Order → ReadModel → Option ReadModel
write_order c event none m = none
write_order c event (some msg) m = some (record m {
  orders =
      upsert_from_order msg.order_id event.robot_id msg.order_update_id
        (value_or msg.order_description (text "")) (c.dump_nodes msg.nodes) (c.dump_edges msg.edges)
        event.received_at m.orders;
})

-- OrderProjector::project.
unfoldable pub project_order : Codec → Projector
unfolding write_order
project_order c event m = write_order c event (c.parse_order event.payload) m

unfoldable pub params_json : Codec → Action → Bytes
params_json c action = elim action.action_parameters [
  | none ↦ text ""
  | some parameters ↦ c.dump_parameters parameters
]

-- The body of InstantActionsProjector's loop.
unfoldable pub write_action : Codec → Event → List ActionRow → Action → List ActionRow
write_action c event rows action =
    upsert_from_action action.action_id action.action_type
      (value_or action.action_descriptor (text "")) (blocking_type_name action.blocking_type)
      (params_json c action) event.robot_id event.received_at rows

write_instant_actions : Codec → Event → Option InstantActions → ReadModel → Option ReadModel
write_instant_actions c event none m = none
write_instant_actions c event (some msg) m =
    some (record m { actions = fold_left (write_action c event) m.actions msg.actions })

-- InstantActionsProjector::project.
unfoldable pub project_instant_actions : Codec → Projector
unfolding write_instant_actions
project_instant_actions c event m =
    write_instant_actions c event (c.parse_instant_actions event.payload) m

-- The body of ResponsesProjector's loop.
unfoldable pub write_response : Event → List ActionRow → Response → List ActionRow
write_response event rows response =
    upsert_from_response response.request_id event.robot_id (grant_type_name response.grant_type)
      event.received_at rows

write_responses : Event → Option Responses → ReadModel → Option ReadModel
write_responses event none m = none
write_responses event (some msg) m =
    some (record m { actions = fold_left (write_response event) m.actions msg.responses })

-- ResponsesProjector::project.
unfoldable pub project_responses : Codec → Projector
unfolding write_responses
project_responses c event m = write_responses event (c.parse_responses event.payload) m

-- `projectors` of ProjectionEngine::run: the topics and what projects them, in order.
unfoldable pub projectors : Codec → List (Bytes × Projector)
projectors c =
    (text "connection", project_connection c)
    ∷ (text "state", project_state c)
    ∷ (text "factsheet", project_factsheet)
    ∷ (text "order", project_order c)
    ∷ (text "instantActions", project_instant_actions c)
    ∷ (text "responses", project_responses c)
    ∷ []

-- The inner try: an event whose projection throws is logged and skipped.
unfoldable pub project_or_skip : Projector → ReadModel → Event → ReadModel
project_or_skip project m event = value_or (project event m) m

module _ (scan : List Event → List Event) where
  unfoldable pub run_entry : Table → ReadModel → Bytes × Projector → ReadModel
  run_entry events m (topic, project) =
      fold_left (project_or_skip project) m (find_latest_by_topic scan topic events)

  -- The body of the outer try: one projection cycle, which holds the database lock.
  unfoldable pub cycle : Codec → Table → ReadModel → ReadModel
  unfolding run_entry projectors fold_left
  cycle c events m = fold_left (run_entry events) m (projectors c)

  -- The loop of ProjectionEngine::run. Each round has the two values of running_ that it reads,
  -- before and after the sleep, and the event log that it finds.
  unfoldable pub run : Codec → List (Bool × Bool × Table) → ReadModel → ReadModel
  run c [] m = m
  run c ((awake, still, events) ∷ rounds) m =
      let rest = run c rounds (cycle c events m) in
      if not awake then m else if not still then m else rest
