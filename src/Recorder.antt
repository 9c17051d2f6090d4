-- ===== src/Recorder.antt =====
-- Vda5050EventRecorder (src/Vda5050EventRecorder.cpp, include/syrius_orbit/Vda5050EventRecorder.hpp).
-- `clock` gives the time that SQLite stamps on the insertion that follows the given sequence number.
pub mod Rows
pub mod Attach
pub mod Shown
pub mod Orders
pub mod Items
pub mod Actions
use mathlib.Core.Option
use syrius_orbit_daemon.Common.{
  ℕ, Bool, true, false, not, ◌||◌, Option, none, some, List, [], ◌∷◌, ◌++◌, Bytes, text, is_some,
  if◌then◌else◌, fold_left,
}
use syrius_orbit_daemon.Codec.{Codec}
use syrius_orbit_daemon.Topic.{TopicContext}
use syrius_orbit_daemon.Schema.Shapes.{Action}
use syrius_orbit_daemon.Schema.Messages.{InstantActions, Response, Responses}
use syrius_orbit_daemon.Db.Cells.{Int64}
use syrius_orbit_daemon.Db.Events.{Event, Table, insert}
use syrius_orbit_daemon.Mqtt.Messages.{
  Kind, state, visualization, connection, factsheet, order, instant_actions, responses, zone_set,
  Message, state_message, visualization_message, connection_message, factsheet_message,
  order_message, instant_actions_message, responses_message, zone_set_message,
}
use syrius_orbit_daemon.Mqtt.EndPoint
use syrius_orbit_daemon.Mqtt.EndPoint.{EndPoint}
use syrius_orbit_daemon.Proxy.{Callback, record_event, Proxy}

abbrev pub uplink : Bytes
uplink = text "uplink"

abbrev pub downlink : Bytes
downlink = text "downlink"

abbrev pub robot_name : TopicContext → Bytes
robot_name context = context.manufacturer ++ (text "." ++ context.serial_number)

-- The event that insertEvent fills in; insert does not read the id and the time.
abbrev pub event_of : Bytes → Bytes → TopicContext → Bytes → Int64 → Bytes → Bytes → Bytes → Event
event_of topic item_id context direction header_id version timestamp payload = record {
  id = 0;
  topic = topic;
  item_id = item_id;
  received_at = [];
  manufacturer = context.manufacturer;
  serial_number = context.serial_number;
  robot_id = robot_name context;
  direction = direction;
  header_id = some header_id;
  header_version = some version;
  header_timestamp = some timestamp;
  payload = payload;
}

-- insertEvent.
unfoldable pub insert_event :
    (ℕ → Bytes)
    → Bytes
    → Bytes
    → TopicContext
    → Bytes
    → Int64
    → Bytes
    → Bytes
    → Bytes
    → Table
    → Table
insert_event clock topic item_id context direction header_id version timestamp payload t =
    let event = event_of topic item_id context direction header_id version timestamp payload in
    (insert (clock t.sequence) event t).1

module _ (c : Codec) (clock : ℕ → Bytes) (context : TopicContext) where
  -- The loop over the actions of one message.
  unfoldable pub insert_actions : InstantActions → Bytes → List Action → Table → Table
  insert_actions msg payload actions t =
      fold_left
        (λ t (action : Action).
          insert_event clock (text "instantActions") action.action_id context downlink msg.header_id
            msg.version msg.timestamp payload t)
        t actions

  unfoldable pub insert_responses : Responses → Bytes → List Response → Table → Table
  insert_responses msg payload answers t =
      fold_left
        (λ t (response : Response).
          insert_event clock (text "responses") response.request_id context downlink msg.header_id
            msg.version msg.timestamp payload t)
        t answers

  -- The callbacks of attach and attachCloud.
  unfoldable pub record_message : Message → Table → Table
  record_message (state_message msg) t =
      insert_event clock (text "state") (robot_name context) context uplink msg.header_id
        msg.version msg.timestamp (c.dump_state msg) t
  record_message (visualization_message msg) t =
      insert_event clock (text "visualization") (robot_name context) context uplink msg.header_id
        msg.version msg.timestamp (c.dump_visualization msg) t
  record_message (connection_message msg) t =
      insert_event clock (text "connection") (robot_name context) context uplink msg.header_id
        msg.version msg.timestamp (c.dump_connection msg) t
  record_message (factsheet_message msg) t =
      insert_event clock (text "factsheet") (robot_name context) context uplink msg.header_id
        msg.version msg.timestamp (c.dump_factsheet msg) t
  record_message (order_message msg) t =
      insert_event clock (text "order") msg.order_id context downlink msg.header_id msg.version
        msg.timestamp (c.dump_order msg) t
  record_message (instant_actions_message msg) t =
      insert_actions msg (c.dump_instant_actions msg) msg.actions t
  record_message (responses_message msg) t =
      insert_responses msg (c.dump_responses msg) msg.responses t
  record_message (zone_set_message msg) t =
      insert_event clock (text "zoneSet") msg.zone_set.zone_set_id context downlink msg.header_id
        msg.version msg.timestamp (c.dump_zone_set msg) t

-- The recorder's own state: whether the endpoint pointers that it was built with are not null, and
-- attached_cloud_. The pointers lead to the endpoints that the proxy owns.
pub record Recorder : Type 0 where
  pub local_ep : Bool
  pub cloud_ep : Bool
  pub attached_cloud : Bool

-- The constructor, on localEndpoint() and cloudEndpoint().
unfoldable pub new_recorder : Proxy → Recorder
new_recorder p = record {
  local_ep = is_some p.local_endpoint;
  cloud_ep = is_some p.cloud_endpoint;
  attached_cloud = false;
}

-- The On... calls of one side, whose results are ignored.
unfoldable pub register : List Kind → EndPoint Callback → EndPoint Callback
register [] ep = ep
register (kind ∷ kinds) ep = register kinds (EndPoint.on kind (some record_event) ep).1

-- attachCloud.
unfoldable pub attach_cloud : Recorder × Proxy → Recorder × Proxy
attach_cloud (r, p) =
    let registered =
      Option.map (register (order ∷ instant_actions ∷ responses ∷ zone_set ∷ []))
        p.cloud_endpoint in
    if not r.cloud_ep || r.attached_cloud
    then (r, p)
    else (record r { attached_cloud = true }, record p { cloud_endpoint = registered })

-- attach. It is called behind a start that succeeded, where the local pointer is not null.
unfoldable pub attach : Recorder × Proxy → Recorder × Proxy
attach (r, p) =
    let registered =
      Option.map (register (state ∷ visualization ∷ connection ∷ factsheet ∷ []))
        p.local_endpoint in
    let p' = record p { local_endpoint = registered } in
    if r.cloud_ep then attach_cloud (r, p') else (r, p')
