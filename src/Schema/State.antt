-- ===== src/Schema/State.antt =====
-- The structs of the VDA5050 messages: include/syrius_orbit/vda5050_schemas/State.hpp.
use syrius_orbit_daemon.Common.{Bool, Option, List, Bytes}
use syrius_orbit_daemon.Db.Cells.{Double, Int64}
use syrius_orbit_daemon.Schema.Shapes.{
  BoundingBox, IntermediatePath, MobileRobotPosition, NodePosition, PlannedPath, Trajectory,
  Velocity,
}
use syrius_orbit_daemon.Schema.StateEnums.{
  ActionStatus, ActiveEmergencyStop, EdgeRequestType, ErrorLevel, InfoLevel, MapStatus,
  OperatingMode, RequestStatus, ZoneRequestType, ZoneSetStatus,
}

-- struct Map (include/syrius_orbit/vda5050_schemas/State.hpp).
pub record Map : Type 0 where
  pub map_id : Bytes
  pub map_version : Bytes
  pub map_descriptor : Option Bytes
  pub map_status : MapStatus

-- struct ZoneSet (include/syrius_orbit/vda5050_schemas/State.hpp).
pub record ZoneSet : Type 0 where
  pub zone_set_id : Bytes
  pub map_id : Bytes
  pub zone_set_status : ZoneSetStatus

-- struct NodeState (include/syrius_orbit/vda5050_schemas/State.hpp).
pub record NodeState : Type 0 where
  pub node_id : Bytes
  pub sequence_id : Int64
  pub node_descriptor : Option Bytes
  pub released : Bool
  pub node_position : Option NodePosition

-- struct EdgeState (include/syrius_orbit/vda5050_schemas/State.hpp).
pub record EdgeState : Type 0 where
  pub edge_id : Bytes
  pub sequence_id : Int64
  pub edge_descriptor : Option Bytes
  pub released : Bool
  pub trajectory : Option Trajectory

-- struct LoadLoadDimensions (include/syrius_orbit/vda5050_schemas/State.hpp).
pub record LoadLoadDimensions : Type 0 where
  pub length : Double
  pub width : Double
  pub height : Option Double

-- struct Load (include/syrius_orbit/vda5050_schemas/State.hpp).
pub record Load : Type 0 where
  pub load_id : Option Bytes
  pub load_type : Option Bytes
  pub load_position : Option Bytes
  pub bounding_box_reference : Option BoundingBox
  pub load_dimensions : Option LoadLoadDimensions
  pub weight : Option Double

-- struct ZoneRequest (include/syrius_orbit/vda5050_schemas/State.hpp).
pub record ZoneRequest : Type 0 where
  pub request_id : Bytes
  pub request_type : ZoneRequestType
  pub zone_id : Bytes
  pub zone_set_id : Bytes
  pub request_status : RequestStatus
  pub trajectory : Option Trajectory

-- struct EdgeRequest (include/syrius_orbit/vda5050_schemas/State.hpp).
pub record EdgeRequest : Type 0 where
  pub request_id : Bytes
  pub request_type : EdgeRequestType
  pub edge_id : Bytes
  pub sequence_id : Int64
  pub request_status : RequestStatus

-- struct ActionState (include/syrius_orbit/vda5050_schemas/State.hpp).
pub record ActionState : Type 0 where
  pub action_id : Bytes
  pub action_type : Option Bytes
  pub action_descriptor : Option Bytes
  pub action_status : ActionStatus
  pub action_result : Option Bytes

-- struct PowerSupply (include/syrius_orbit/vda5050_schemas/State.hpp).
pub record PowerSupply : Type 0 where
  pub state_of_charge : Double
  pub battery_voltage : Option Double
  pub battery_current : Option Double
  pub battery_health : Option Double
  pub charging : Bool
  pub range : Option Double

-- struct Translation (include/syrius_orbit/vda5050_schemas/State.hpp).
pub record Translation : Type 0 where
  pub translation_key : Bytes
  pub translation_value : Bytes

-- struct Reference (include/syrius_orbit/vda5050_schemas/State.hpp).
pub record Reference : Type 0 where
  pub reference_key : Bytes
  pub reference_value : Bytes

-- struct Error (include/syrius_orbit/vda5050_schemas/State.hpp).
pub record Error : Type 0 where
  pub error_type : Bytes
  pub error_references : Option (List Reference)
  pub error_description : Option Bytes
  pub error_description_translations : Option (List Translation)
  pub error_hint : Option Bytes
  pub error_hint_translations : Option (List Translation)
  pub error_level : ErrorLevel

-- struct Info (include/syrius_orbit/vda5050_schemas/State.hpp).
pub record Info : Type 0 where
  pub info_type : Bytes
  pub info_references : Option (List Reference)
  pub info_descriptor : Option Bytes
  pub info_level : InfoLevel

-- struct SafetyState (include/syrius_orbit/vda5050_schemas/State.hpp).
pub record SafetyState : Type 0 where
  pub active_emergency_stop : ActiveEmergencyStop
  pub field_violation : Bool

-- struct State (include/syrius_orbit/vda5050_schemas/State.hpp).
pub record State : Type 0 where
  pub header_id : Int64
  pub timestamp : Bytes
  pub version : Bytes
  pub manufacturer : Bytes
  pub serial_number : Bytes
  pub maps : Option (List Map)
  pub zone_sets : Option (List ZoneSet)
  pub order_id : Bytes
  pub order_update_id : Int64
  pub last_node_id : Bytes
  pub last_node_sequence_id : Int64
  pub node_states : List NodeState
  pub edge_states : List EdgeState
  pub planned_path : Option PlannedPath
  pub intermediate_path : Option IntermediatePath
  pub mobile_robot_position : Option MobileRobotPosition
  pub velocity : Option Velocity
  pub loads : Option (List Load)
  pub driving : Bool
  pub paused : Option Bool
  pub new_base_request : Option Bool
  pub zone_requests : Option (List ZoneRequest)
  pub edge_requests : Option (List EdgeRequest)
  pub distance_since_last_node : Option Double
  pub action_states : List ActionState
  pub instant_action_states : List ActionState
  pub zone_action_states : Option (List ActionState)
  pub power_supply : PowerSupply
  pub operating_mode : OperatingMode
  pub errors : List Error
  pub information : Option (List Info)
  pub safety_state : SafetyState
