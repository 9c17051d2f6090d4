-- ===== src/Schema/ZoneSet.antt =====
-- The structs of the VDA5050 messages: include/syrius_orbit/vda5050_schemas/ZoneSet.hpp.
use syrius_orbit_daemon.Common.{Bool, Option, List, Bytes}
use syrius_orbit_daemon.Db.Cells.{Double, Int64}
use syrius_orbit_daemon.Json.{Json}
use syrius_orbit_daemon.Schema.Enums.{BlockingType}
use syrius_orbit_daemon.Schema.Shapes.{Vertex}
use syrius_orbit_daemon.Schema.ZoneEnums.{
  ZoneBidirectedLimitation, ZoneDirectedLimitation, ZoneReleaseLossBehavior, ZoneZoneType,
}

-- struct ZoneAction (include/syrius_orbit/vda5050_schemas/ZoneSet.hpp).
pub record ZoneAction : Type 0 where
  pub action_type : Bytes
  pub action_descriptor : Option Bytes
  pub blocking_type : BlockingType
  pub action_parameters : Option (List (Bytes × Json))
  pub retriable : Option Bool

-- struct Zone (include/syrius_orbit/vda5050_schemas/ZoneSet.hpp).
pub record Zone : Type 0 where
  pub zone_id : Bytes
  pub zone_type : ZoneZoneType
  pub zone_descriptor : Option Bytes
  pub vertices : List Vertex
  pub release_loss_behavior : Option ZoneReleaseLossBehavior
  pub maximum_speed : Option Double
  pub entry_actions : Option (List ZoneAction)
  pub during_actions : Option (List ZoneAction)
  pub exit_actions : Option (List ZoneAction)
  pub priority_factor : Option Double
  pub penalty_factor : Option Double
  pub direction : Option Double
  pub directed_limitation : Option ZoneDirectedLimitation
  pub bidirected_limitation : Option ZoneBidirectedLimitation

-- struct ZoneSetDefinition (include/syrius_orbit/vda5050_schemas/ZoneSet.hpp).
pub record ZoneSetDefinition : Type 0 where
  pub map_id : Bytes
  pub zone_set_id : Bytes
  pub zone_set_descriptor : Option Bytes
  pub zones : List Zone

-- struct ZoneSetMessage (include/syrius_orbit/vda5050_schemas/ZoneSet.hpp).
pub record ZoneSetMessage : Type 0 where
  pub header_id : Int64
  pub timestamp : Bytes
  pub version : Bytes
  pub manufacturer : Bytes
  pub serial_number : Bytes
  pub zone_set : ZoneSetDefinition
