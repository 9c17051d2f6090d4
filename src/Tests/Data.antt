-- ===== src/Tests/Data.antt =====
-- A robot, its messages, a codec and a network to try things on.
use syrius_orbit_daemon.Common.{
  ℕ, true, false, none, some, [], ◌∷◌, Bytes, text, ◌==◌, if◌then◌else◌,
}
use syrius_orbit_daemon.Codec.{Codec}
use syrius_orbit_daemon.Json.{null, number, object, member, end}
use syrius_orbit_daemon.Topic.{TopicContext}
use syrius_orbit_daemon.Schema.Enums.{ConnectionState, BlockingType}
use syrius_orbit_daemon.Schema.StateEnums.{OperatingMode, ActiveEmergencyStop}
use syrius_orbit_daemon.Schema.Shapes.{Action}
use syrius_orbit_daemon.Schema.Messages.{Connection, InstantActions}
use syrius_orbit_daemon.Schema.State.{State}
use syrius_orbit_daemon.Schema.Order
use syrius_orbit_daemon.Db.Events.{Event, Table}
use syrius_orbit_daemon.Projection.{ReadModel}
use syrius_orbit_daemon.Mqtt.Client.{Mosquitto}
use syrius_orbit_daemon.Mqtt.Publisher.{Serializer}
use syrius_orbit_daemon.Proxy.{Broker, Network}

abbrev pub template : TopicContext
template = record {
  interface_name = text "vda5050";
  major_version = text "v3";
  manufacturer = [];
  serial_number = [];
}

abbrev pub robot_context : TopicContext
robot_context = record template { manufacturer = text "acme"; serial_number = text "7" }

abbrev pub a_connection : Connection
a_connection = record {
  header_id = 4;
  timestamp = text "t";
  version = text "3.0.0";
  manufacturer = text "acme";
  serial_number = text "7";
  connection_state = ConnectionState.offline;
}

abbrev pub a_state : State
a_state = record {
  header_id = 5;
  timestamp = text "t";
  version = text "3.0.0";
  manufacturer = text "acme";
  serial_number = text "7";
  maps = none;
  zone_sets = none;
  order_id = [];
  order_update_id = 0;
  last_node_id = [];
  last_node_sequence_id = 0;
  node_states = [];
  edge_states = [];
  planned_path = none;
  intermediate_path = none;
  mobile_robot_position = none;
  velocity = none;
  loads = none;
  driving = true;
  paused = none;
  new_base_request = none;
  zone_requests = none;
  edge_requests = none;
  distance_since_last_node = none;
  action_states = [];
  instant_action_states = [];
  zone_action_states = none;
  power_supply = record {
    state_of_charge = 80;
    battery_voltage = none;
    battery_current = none;
    battery_health = none;
    charging = true;
    range = none;
  };
  operating_mode = OperatingMode.automatic;
  errors = [];
  information = none;
  safety_state = record {
    active_emergency_stop = ActiveEmergencyStop.none;
    field_violation = false;
  };
}

abbrev pub an_order : Order.Order
an_order = record {
  header_id = 6;
  timestamp = text "t";
  version = text "3.0.0";
  manufacturer = text "acme";
  serial_number = text "7";
  order_id = text "o1";
  order_update_id = 2;
  order_description = none;
  nodes = [];
  edges = [];
}

abbrev pub an_action : Action
an_action = record {
  action_type = text "pick";
  action_id = text "a1";
  action_descriptor = none;
  blocking_type = BlockingType.hard;
  action_parameters = none;
  retriable = none;
}

abbrev pub some_actions : InstantActions
some_actions = record {
  header_id = 8;
  timestamp = text "t";
  version = text "3.0.0";
  manufacturer = text "acme";
  serial_number = text "7";
  actions = an_action ∷ [];
}

-- One text for every message.
abbrev pub codec : Codec
codec = record {
  parse_connection = λ s. if s == text "C" then some a_connection else none;
  parse_state = λ s. if s == text "S" then some a_state else none;
  parse_order = λ s. if s == text "O" then some an_order else none;
  parse_instant_actions = λ s. if s == text "I" then some some_actions else none;
  parse_responses = λ s. none;
  parse_visualization = λ s. none;
  parse_factsheet = λ s. none;
  parse_zone_set = λ s. none;
  dump_connection = λ m. text "C";
  dump_state = λ m. text "S";
  dump_visualization = λ m. text "V";
  dump_factsheet = λ m. text "F";
  dump_order = λ m. text "O";
  dump_instant_actions = λ m. text "I";
  dump_responses = λ m. text "R";
  dump_zone_set = λ m. text "Z";
  dump_nodes = λ m. text "[]";
  dump_edges = λ m. text "[]";
  dump_parameters = λ m. text "[]";
}

-- An event of the robot.
abbrev pub event : ℕ → Bytes → Bytes → Bytes → Event
event id topic item_id payload = record {
  id = id;
  topic = topic;
  item_id = item_id;
  received_at = text "now";
  manufacturer = text "acme";
  serial_number = text "7";
  robot_id = text "acme.7";
  direction = text "uplink";
  header_id = none;
  header_version = none;
  header_timestamp = none;
  payload = payload;
}

abbrev pub log : Table
log = record {
  rows =
      event 1 (text "connection") (text "acme.7") (text "?")
      ∷ event 2 (text "state") (text "acme.7") (text "S")
      ∷ event 4 (text "connection") (text "acme.7") (text "C")
      ∷ event 5 (text "factsheet") (text "acme.7") (text "F")
      ∷ event 6 (text "order") (text "o1") (text "O")
      ∷ event 7 (text "instantActions") (text "a1") (text "I")
      ∷ [];
  sequence = 7;
}

abbrev pub no_rows : ReadModel
no_rows = record { robots = []; orders = []; actions = [] }

-- A broker that accepts everything, and a network of two.
abbrev pub mosquitto : Mosquitto
mosquitto = record {
  subscribe = λ filter qos. true;
  matches = λ filter topic. true;
  publish = λ topic payload qos retain. true;
}

abbrev pub broker : Broker
broker = record {
  mosquitto = mosquitto;
  reinitialise = λ id. true;
  username_pw_set = λ user password. true;
  connect = λ host port. true;
  loop_start = true;
}

abbrev pub network : Network
network = record { lib_init = true; local_broker = broker; cloud_broker = broker }

abbrev pub serializer : Serializer
serializer = record {
  to_json = λ message.
      some (object (member (text "headerId") (number 4) (member (text "maps") null end)));
  dump = λ json. some (text "{}");
}
