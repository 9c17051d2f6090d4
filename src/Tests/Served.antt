-- ===== src/Tests/Served.antt =====
-- Messages at a daemon that runs.
use syrius_orbit_daemon.Common.{
  ℕ, ◌≡◌, refl, true, false, some, List, [], ◌∷◌, Bool, Bytes, text, ◌==◌, is_some, if◌then◌else◌,
}
use syrius_orbit_daemon.Bytes.{find, starts_with}
use syrius_orbit_daemon.Config.{default_config}
use syrius_orbit_daemon.Topic.{
  parse_topic_context, at_first, at_second, split_remainder, parse_topic_prefix, prefix_at,
  split_prefix, build_filter,
}
use syrius_orbit_daemon.Db.Events.{empty_table}
use syrius_orbit_daemon.Mqtt.Messages.{
  Kind, state, visualization, connection, factsheet, order, instant_actions, responses, zone_set,
  connection_message, order_message, suffix,
}
use syrius_orbit_daemon.Mqtt.Client
use syrius_orbit_daemon.Mqtt.Client.{Mosquitto}
use syrius_orbit_daemon.Mqtt.Subscriber.Laws.{same_kind}
use syrius_orbit_daemon.Mqtt.Subscriber
use syrius_orbit_daemon.Mqtt.Subscriber.{new_subscriber}
use syrius_orbit_daemon.Mqtt.EndPoint
use syrius_orbit_daemon.Mqtt.EndPoint.{EndPoint, Side, new_end_point, subscribe_all}
use syrius_orbit_daemon.Mqtt.EndPoint.Forward.{sent_as}
use syrius_orbit_daemon.Proxy
use syrius_orbit_daemon.Proxy.{
  Network, Callback, forward_to_cloud, forward_to_local, record_event, start_local, finish_start,
  configure_client, on_cloud_connect, connect_cloud, setup_bridge_callbacks, bridge_local_to_cloud,
  bridge_cloud_to_local, register_all,
}
use syrius_orbit_daemon.Proxy.Setup.{with_uplink, with_downlink}
use syrius_orbit_daemon.Recorder.{
  robot_name, new_recorder, attach, attach_cloud, register, record_message,
}
use syrius_orbit_daemon.Daemon.{Gaps, gateway_init, gateway_start, begin_serving, connected}
use syrius_orbit_daemon.Daemon.Handling.{Effects, deliver}
use syrius_orbit_daemon.Daemon.Served.Shown.{connection-shown}
use syrius_orbit_daemon.Schema.Enums.{connection_state_name}
use syrius_orbit_daemon.Db.Robots.{Robot, find_by_id}
use syrius_orbit_daemon.Projection.{cycle}
use syrius_orbit_daemon.Tests.Events.{scan, scan-IsScan}
use syrius_orbit_daemon.Tests.Cycles.{empty_table-IsRecorded}
use syrius_orbit_daemon.Daemon.Served.{serving}
use syrius_orbit_daemon.Daemon.Served.Relays.{uplink-handled, downlink-handled}
use syrius_orbit_daemon.Tests.Data.{
  template, robot_context, a_connection, an_order, codec, mosquitto, broker, serializer, no_rows,
}
use syrius_orbit_daemon.Tests.Tables.{old_database}

abbrev clock : ℕ → Bytes
clock n = text "now"

abbrev no_gaps : Gaps
no_gaps = record { before = []; built = []; attached = [] }

-- The connections fail once, then succeed twice.
abbrev tries : List Bool
tries = false ∷ true ∷ true ∷ []

abbrev initialized : EndPoint Callback → EndPoint Callback
initialized ep = record ep { subscriber = record ep.subscriber { initialized = true } }

abbrev local_end : EndPoint Callback
local_end =
    with_uplink forward_to_cloud
      (with_uplink record_event (initialized (new_end_point 0 Side.local template)))

abbrev cloud_end : EndPoint Callback
cloud_end = with_downlink forward_to_local (initialized (new_end_point 1 Side.cloud template))

-- The cloud connects before the recorder is built.
abbrev early_cloud : Gaps
early_cloud = record { before = false ∷ true ∷ []; built = true ∷ []; attached = [] }

abbrev cloud_end_recorded : EndPoint Callback
cloud_end_recorded = with_downlink record_event cloud_end

-- A network of brokers that tell the eight topics of the robot apart.
abbrev apart : Bytes → Mosquitto
apart filter = record mosquitto { matches = λ f topic. f == filter }

abbrev here : Network
here = record {
  lib_init = true;
  local_broker = record broker { mosquitto = apart (text "vda5050/v3/+/+/connection") };
  cloud_broker = record broker { mosquitto = apart (text "vda5050/v3/+/+/order") };
}

connection_matches :
    (k : Kind)
    → here.local_broker.mosquitto.matches
        (build_filter template (suffix k))
        (text "vda5050/v3/acme/7/connection")
      ≡ same_kind k connection
unfolding build_filter ◌==◌
connection_matches state = refl
connection_matches visualization = refl
connection_matches connection = refl
connection_matches factsheet = refl
connection_matches order = refl
connection_matches instant_actions = refl
connection_matches responses = refl
connection_matches zone_set = refl

order_matches :
    (k : Kind)
    → here.cloud_broker.mosquitto.matches
        (build_filter template (suffix k))
        (text "vda5050/v3/acme/7/order")
      ≡ same_kind k order
unfolding build_filter ◌==◌
order_matches state = refl
order_matches visualization = refl
order_matches connection = refl
order_matches factsheet = refl
order_matches order = refl
order_matches instant_actions = refl
order_matches responses = refl
order_matches zone_set = refl

uplink-handled_example :
    let p = serving here no_gaps default_config old_database tries in
    deliver codec clock here.cloud_broker.mosquitto serializer p.cloud_endpoint
      here.local_broker.mosquitto p.local_client local_end
      (record { topic = some (text "vda5050/v3/acme/7/connection"); payload = text "C" })
      ([], empty_table)
    ≡ some (
      if is_some p.cloud_endpoint
          then sent_as
              (text "vda5050/v3/acme/7/connection")
              (text "{}")
              (connection_message a_connection)
            ∷ []
          else [],
      record_message codec clock robot_context (connection_message a_connection) empty_table,
    )
unfolding parse_topic_context at_first at_second split_remainder find starts_with ◌==◌ new_end_point
    new_subscriber parse_topic_prefix prefix_at split_prefix gateway_init gateway_start Proxy.init
    Proxy.start start_local finish_start configure_client EndPoint.init Subscriber.init
    subscribe_all Subscriber.subscribe Client.subscribe build_filter begin_serving attach
    new_recorder register EndPoint.on Subscriber.on attach_cloud connected on_cloud_connect
    connect_cloud setup_bridge_callbacks bridge_local_to_cloud bridge_cloud_to_local register_all
uplink-handled_example =
    uplink-handled codec clock here serializer default_config old_database no_gaps tries template
      refl refl local_end (connection_message a_connection) (text "vda5050/v3/acme/7/connection")
      (text "C") (text "{}") robot_context empty_table refl refl refl refl connection_matches refl
      refl

downlink-handled_example :
    let p = serving here early_cloud default_config old_database tries in
    deliver codec clock here.local_broker.mosquitto serializer p.local_endpoint
      here.cloud_broker.mosquitto p.cloud_client cloud_end_recorded
      (record { topic = some (text "vda5050/v3/acme/7/order"); payload = text "O" })
      ([], empty_table)
    ≡ some (
      sent_as (text "vda5050/v3/acme/7/order") (text "{}") (order_message an_order) ∷ [],
      record_message codec clock robot_context (order_message an_order) empty_table,
    )
unfolding parse_topic_context at_first at_second split_remainder find starts_with ◌==◌ new_end_point
    new_subscriber parse_topic_prefix prefix_at split_prefix gateway_init gateway_start Proxy.init
    Proxy.start start_local finish_start configure_client EndPoint.init Subscriber.init
    subscribe_all Subscriber.subscribe Client.subscribe build_filter begin_serving attach
    new_recorder register EndPoint.on Subscriber.on attach_cloud connected on_cloud_connect
    connect_cloud setup_bridge_callbacks bridge_local_to_cloud bridge_cloud_to_local register_all
downlink-handled_example =
    downlink-handled codec clock here serializer default_config old_database early_cloud tries
      template refl refl cloud_end_recorded (order_message an_order)
      (text "vda5050/v3/acme/7/order") (text "O") (text "{}") robot_context empty_table refl refl
      refl refl refl order_matches refl refl

-- The cloud connects behind the recorder's construction: an order is sent on and not recorded.
downlink_unrecorded :
    let p = serving here no_gaps default_config old_database tries in
    deliver codec clock here.local_broker.mosquitto serializer p.local_endpoint
      here.cloud_broker.mosquitto p.cloud_client cloud_end
      (record { topic = some (text "vda5050/v3/acme/7/order"); payload = text "O" })
      ([], empty_table)
    ≡ some (
      sent_as (text "vda5050/v3/acme/7/order") (text "{}") (order_message an_order) ∷ [],
      empty_table,
    )
unfolding parse_topic_context at_first at_second split_remainder find starts_with ◌==◌ new_end_point
    new_subscriber parse_topic_prefix prefix_at split_prefix gateway_init gateway_start Proxy.init
    Proxy.start start_local finish_start configure_client EndPoint.init Subscriber.init
    subscribe_all Subscriber.subscribe Client.subscribe build_filter begin_serving attach
    new_recorder register EndPoint.on Subscriber.on attach_cloud connected on_cloud_connect
    connect_cloud setup_bridge_callbacks bridge_local_to_cloud bridge_cloud_to_local register_all
downlink_unrecorded =
    downlink-handled codec clock here serializer default_config old_database no_gaps tries template
      refl refl cloud_end (order_message an_order) (text "vda5050/v3/acme/7/order") (text "O")
      (text "{}") robot_context empty_table refl refl refl refl refl order_matches refl refl

connection-shown_example :
    let p = serving here no_gaps default_config old_database tries in
    (e : Effects) × (deliver codec clock here.cloud_broker.mosquitto serializer p.cloud_endpoint
        here.local_broker.mosquitto p.local_client local_end
        (record { topic = some (text "vda5050/v3/acme/7/connection"); payload = text "C" })
        ([], empty_table)
      ≡ some e)
    × (r : Robot) × (find_by_id (robot_name robot_context) (cycle scan codec e.1 no_rows).robots
        ≡ some r)
    × (r.connection_state ≡ connection_state_name a_connection.connection_state)
unfolding parse_topic_context at_first at_second split_remainder find starts_with ◌==◌ new_end_point
    new_subscriber parse_topic_prefix prefix_at split_prefix gateway_init gateway_start Proxy.init
    Proxy.start start_local finish_start configure_client EndPoint.init Subscriber.init
    subscribe_all Subscriber.subscribe Client.subscribe build_filter begin_serving attach
    new_recorder register EndPoint.on Subscriber.on attach_cloud connected on_cloud_connect
    connect_cloud setup_bridge_callbacks bridge_local_to_cloud bridge_cloud_to_local register_all
connection-shown_example =
    connection-shown scan codec clock here serializer default_config old_database no_gaps tries
      template refl refl local_end a_connection (text "vda5050/v3/acme/7/connection") (text "C")
      robot_context empty_table no_rows scan-IsScan empty_table-IsRecorded refl refl refl refl
      connection_matches
