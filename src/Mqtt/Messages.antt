-- ===== src/Mqtt/Messages.antt =====
-- The eight VDA5050 message types as one type, with what the MQTT layer knows of each: its topic
-- suffix and quality of service (include/syrius_orbit/mqtt/VDA5050Subscriber.hpp and
-- VDA5050Publisher.hpp) and its direction (include/syrius_orbit/mqtt/VDA5050EndPoint.hpp).
use mathlib.Core.Option
use syrius_orbit_daemon.Common.{ℕ, Bool, true, false, Option, Bytes, text}
use syrius_orbit_daemon.Codec.{Codec}
use syrius_orbit_daemon.Schema.Shapes.{Visualization}
use syrius_orbit_daemon.Schema.Messages.{Connection, InstantActions, Responses}
use syrius_orbit_daemon.Schema.State.{State}
use syrius_orbit_daemon.Schema.Order.{Order}
use syrius_orbit_daemon.Schema.ZoneSet.{ZoneSetMessage}
use syrius_orbit_daemon.Schema.FactSheet.{FactSheet}

pub data Kind : Type 0 where
  state visualization connection factsheet order instant_actions responses zone_set : Kind

pub data Message : Type 0 where
  state_message : State → Message
  visualization_message : Visualization → Message
  connection_message : Connection → Message
  factsheet_message : FactSheet → Message
  order_message : Order → Message
  instant_actions_message : InstantActions → Message
  responses_message : Responses → Message
  zone_set_message : ZoneSetMessage → Message

abbrev pub kind_of : Message → Kind
kind_of (state_message m) = state
kind_of (visualization_message m) = visualization
kind_of (connection_message m) = connection
kind_of (factsheet_message m) = factsheet
kind_of (order_message m) = order
kind_of (instant_actions_message m) = instant_actions
kind_of (responses_message m) = responses
kind_of (zone_set_message m) = zone_set

-- The topic suffixes of SubscribeState and the others.
abbrev pub suffix : Kind → Bytes
suffix state = text "state"
suffix visualization = text "visualization"
suffix connection = text "connection"
suffix factsheet = text "factsheet"
suffix order = text "order"
suffix instant_actions = text "instantActions"
suffix responses = text "responses"
suffix zone_set = text "zoneSet"

-- The quality of service of subscriptions and of Publish.
abbrev pub qos : Kind → ℕ
qos connection = 1
qos _ = 0

-- From the robots to the cloud.
abbrev pub is_uplink : Kind → Bool
is_uplink state = true
is_uplink visualization = true
is_uplink connection = true
is_uplink factsheet = true
is_uplink order = false
is_uplink instant_actions = false
is_uplink responses = false
is_uplink zone_set = false

-- json::parse(payload).get<T>() for the T of the kind.
abbrev pub parse : Codec → Kind → Bytes → Option Message
parse c state s = Option.map state_message (c.parse_state s)
parse c visualization s = Option.map visualization_message (c.parse_visualization s)
parse c connection s = Option.map connection_message (c.parse_connection s)
parse c factsheet s = Option.map factsheet_message (c.parse_factsheet s)
parse c order s = Option.map order_message (c.parse_order s)
parse c instant_actions s = Option.map instant_actions_message (c.parse_instant_actions s)
parse c responses s = Option.map responses_message (c.parse_responses s)
parse c zone_set s = Option.map zone_set_message (c.parse_zone_set s)
