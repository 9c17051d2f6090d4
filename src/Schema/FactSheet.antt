-- ===== src/Schema/FactSheet.antt =====
-- The structs of the VDA5050 messages: include/syrius_orbit/vda5050_schemas/FactSheet.hpp.
pub mod ArrayLengths
use syrius_orbit_daemon.Common.{Bool, Option, List, Bytes}
use syrius_orbit_daemon.Db.Cells.{Double, Int64}
use syrius_orbit_daemon.Json.{Json}
use syrius_orbit_daemon.Schema.Enums.{BlockingType}
use syrius_orbit_daemon.Schema.FactSheetEnums.{
  ActionScope, SupportType, SupportedZoneType, ValueDataType,
}
use syrius_orbit_daemon.Schema.Shapes.{BoundingBox, Vertex}

-- struct TypeSpecification (include/syrius_orbit/vda5050_schemas/FactSheet.hpp).
pub record TypeSpecification : Type 0 where
  pub series_name : Bytes
  pub series_description : Option Bytes
  pub mobile_robot_kinematics : Bytes
  pub mobile_robot_class : Bytes
  pub maximum_load_mass : Double
  pub localization_types : List Bytes
  pub navigation_types : List Bytes
  pub supported_zones : Option (List SupportedZoneType)

-- struct PhysicalParameters (include/syrius_orbit/vda5050_schemas/FactSheet.hpp).
pub record PhysicalParameters : Type 0 where
  pub minimum_speed : Double
  pub maximum_speed : Double
  pub minimum_angular_speed : Option Double
  pub maximum_angular_speed : Option Double
  pub maximum_acceleration : Double
  pub maximum_deceleration : Double
  pub minimum_height : Double
  pub maximum_height : Double
  pub width : Double
  pub length : Double

-- struct MaximumStringLengths (include/syrius_orbit/vda5050_schemas/FactSheet.hpp).
pub record MaximumStringLengths : Type 0 where
  pub maximum_message_length : Option Int64
  pub maximum_topic_serial_length : Option Int64
  pub maximum_topic_element_length : Option Int64
  pub maximum_id_length : Option Int64
  pub id_numerical_only : Option Bool
  pub maximum_load_id_length : Option Int64

-- struct MaximumArrayLengths (include/syrius_orbit/vda5050_schemas/FactSheet.hpp).
pub record MaximumArrayLengths : Type 0 where
  pub order_nodes : Option Int64
  pub order_edges : Option Int64
  pub node_actions : Option Int64
  pub edge_actions : Option Int64
  pub actions_actions_parameters : Option Int64
  pub instant_actions : Option Int64
  pub trajectory_knot_vector : Option Int64
  pub trajectory_control_points : Option Int64
  pub zone_set_zones : Option Int64
  pub state_node_states : Option Int64
  pub state_edge_states : Option Int64
  pub state_loads : Option Int64
  pub state_action_states : Option Int64
  pub state_instant_action_states : Option Int64
  pub state_zone_action_states : Option Int64
  pub state_errors : Option Int64
  pub state_information : Option Int64
  pub error_error_references : Option Int64
  pub information_info_references : Option Int64

-- struct Timing (include/syrius_orbit/vda5050_schemas/FactSheet.hpp).
pub record Timing : Type 0 where
  pub minimum_order_interval : Double
  pub minimum_state_interval : Double
  pub default_state_interval : Option Double
  pub visualization_interval : Option Double

-- struct ProtocolLimits (include/syrius_orbit/vda5050_schemas/FactSheet.hpp).
pub record ProtocolLimits : Type 0 where
  pub maximum_string_lengths : MaximumStringLengths
  pub maximum_array_lengths : MaximumArrayLengths
  pub timing : Timing

-- struct OptionalParameter (include/syrius_orbit/vda5050_schemas/FactSheet.hpp).
pub record OptionalParameter : Type 0 where
  pub parameter : Bytes
  pub support : SupportType
  pub description : Option Bytes

-- struct ActionParameterSchema (include/syrius_orbit/vda5050_schemas/FactSheet.hpp).
pub record ActionParameterSchema : Type 0 where
  pub key : Bytes
  pub value_data_type : ValueDataType
  pub description : Option Bytes
  pub is_optional : Option Bool

-- struct MobileRobotAction (include/syrius_orbit/vda5050_schemas/FactSheet.hpp).
pub record MobileRobotAction : Type 0 where
  pub action_type : Bytes
  pub action_description : Option Bytes
  pub action_scopes : List ActionScope
  pub action_parameters : Option (List ActionParameterSchema)
  pub action_result : Option Bytes
  pub blocking_types : Option (List BlockingType)
  pub pause_allowed : Bool
  pub cancel_allowed : Bool

-- struct ProtocolFeatures (include/syrius_orbit/vda5050_schemas/FactSheet.hpp).
pub record ProtocolFeatures : Type 0 where
  pub optional_parameters : List OptionalParameter
  pub mobile_robot_actions : List MobileRobotAction

-- struct Position (include/syrius_orbit/vda5050_schemas/FactSheet.hpp).
pub record Position : Type 0 where
  pub x : Double
  pub y : Double
  pub theta : Option Double

-- struct WheelDefinition (include/syrius_orbit/vda5050_schemas/FactSheet.hpp).
pub record WheelDefinition : Type 0 where
  pub type : Bytes
  pub is_active_driven : Bool
  pub is_active_steered : Bool
  pub position : Position
  pub diameter : Double
  pub width : Double
  pub center_displacement : Option Double
  pub constraints : Option Bytes

-- struct Envelope2d (include/syrius_orbit/vda5050_schemas/FactSheet.hpp).
pub record Envelope2d : Type 0 where
  pub envelope2d_id : Bytes
  pub vertices : List Vertex
  pub description : Option Bytes

-- struct Envelope3d (include/syrius_orbit/vda5050_schemas/FactSheet.hpp).
pub record Envelope3d : Type 0 where
  pub envelope3d_id : Bytes
  pub format : Bytes
  pub content : Json
  pub url : Option Bytes
  pub description : Option Bytes

-- struct MobileRobotGeometry (include/syrius_orbit/vda5050_schemas/FactSheet.hpp).
pub record MobileRobotGeometry : Type 0 where
  pub wheel_definitions : Option (List WheelDefinition)
  pub envelopes2d : Option (List Envelope2d)
  pub envelopes3d : Option (List Envelope3d)

-- struct LoadDimensions (include/syrius_orbit/vda5050_schemas/FactSheet.hpp).
pub record LoadDimensions : Type 0 where
  pub length : Double
  pub width : Double
  pub height : Option Double

-- struct LoadSet (include/syrius_orbit/vda5050_schemas/FactSheet.hpp).
pub record LoadSet : Type 0 where
  pub set_name : Bytes
  pub load_type : Bytes
  pub load_positions : Option (List Bytes)
  pub bounding_box_reference : Option BoundingBox
  pub load_dimensions : Option LoadDimensions
  pub maximum_weight : Option Double
  pub minimum_loadhandling_height : Option Double
  pub maximum_loadhandling_height : Option Double
  pub minimum_loadhandling_depth : Option Double
  pub maximum_loadhandling_depth : Option Double
  pub minimum_loadhandling_tilt : Option Double
  pub maximum_loadhandling_tilt : Option Double
  pub maximum_speed : Option Double
  pub maximum_acceleration : Option Double
  pub maximum_deceleration : Option Double
  pub pick_time : Option Double
  pub drop_time : Option Double
  pub description : Option Bytes

-- struct LoadSpecification (include/syrius_orbit/vda5050_schemas/FactSheet.hpp).
pub record LoadSpecification : Type 0 where
  pub load_positions : Option (List Bytes)
  pub load_sets : Option (List LoadSet)

-- struct Version (include/syrius_orbit/vda5050_schemas/FactSheet.hpp).
pub record Version : Type 0 where
  pub key : Bytes
  pub value : Bytes

-- struct Network (include/syrius_orbit/vda5050_schemas/FactSheet.hpp).
pub record Network : Type 0 where
  pub dns_servers : Option (List Bytes)
  pub ntp_servers : Option (List Bytes)
  pub local_ip_address : Option Bytes
  pub netmask : Option Bytes
  pub default_gateway : Option Bytes

-- struct BatteryCharging (include/syrius_orbit/vda5050_schemas/FactSheet.hpp).
pub record BatteryCharging : Type 0 where
  pub critical_low_charging_level : Option Double
  pub minimum_desired_charging_level : Option Double
  pub maximum_desired_charging_level : Option Double
  pub minimum_charging_time : Option Double

-- struct MobileRobotConfiguration (include/syrius_orbit/vda5050_schemas/FactSheet.hpp).
pub record MobileRobotConfiguration : Type 0 where
  pub versions : Option (List Version)
  pub network : Option Network
  pub battery_charging : Option BatteryCharging

-- struct FactSheet (include/syrius_orbit/vda5050_schemas/FactSheet.hpp).
pub record FactSheet : Type 0 where
  pub header_id : Int64
  pub timestamp : Bytes
  pub version : Bytes
  pub manufacturer : Bytes
  pub serial_number : Bytes
  pub type_specification : TypeSpecification
  pub physical_parameters : PhysicalParameters
  pub protocol_limits : ProtocolLimits
  pub protocol_features : ProtocolFeatures
  pub mobile_robot_geometry : MobileRobotGeometry
  pub load_specification : LoadSpecification
  pub mobile_robot_configuration : Option MobileRobotConfiguration
