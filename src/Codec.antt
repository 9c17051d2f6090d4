-- ===== src/Codec.antt =====
-- The conversions between messages and JSON texts that nlohmann/json and its macros provide. The
-- code that they generate is not modelled: a theorem names what it relies on.
use syrius_orbit_daemon.Common.{Option, List, Bytes}
use syrius_orbit_daemon.Json.{Json}
use syrius_orbit_daemon.Schema.Shapes.{Visualization}
use syrius_orbit_daemon.Schema.Messages.{Connection, InstantActions, Responses}
use syrius_orbit_daemon.Schema.State.{State}
use syrius_orbit_daemon.Schema.Order.{Node, Edge, Order}
use syrius_orbit_daemon.Schema.ZoneSet.{ZoneSetMessage}
use syrius_orbit_daemon.Schema.FactSheet.{FactSheet}

-- `parse_...` is json::parse(payload).get<T>(), with `none` where it throws; `dump_...` is
-- json(value).dump().
pub record Codec : Type 0 where
  pub parse_connection : Bytes → Option Connection
  pub parse_state : Bytes → Option State
  pub parse_order : Bytes → Option Order
  pub parse_instant_actions : Bytes → Option InstantActions
  pub parse_responses : Bytes → Option Responses
  pub parse_visualization : Bytes → Option Visualization
  pub parse_factsheet : Bytes → Option FactSheet
  pub parse_zone_set : Bytes → Option ZoneSetMessage
  pub dump_connection : Connection → Bytes
  pub dump_state : State → Bytes
  pub dump_visualization : Visualization → Bytes
  pub dump_factsheet : FactSheet → Bytes
  pub dump_order : Order → Bytes
  pub dump_instant_actions : InstantActions → Bytes
  pub dump_responses : Responses → Bytes
  pub dump_zone_set : ZoneSetMessage → Bytes
  pub dump_nodes : List Node → Bytes
  pub dump_edges : List Edge → Bytes
  pub dump_parameters : List (Bytes × Json) → Bytes
