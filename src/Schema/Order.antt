-- ===== src/Schema/Order.antt =====
-- The structs of the VDA5050 messages: include/syrius_orbit/vda5050_schemas/Order.hpp.
use syrius_orbit_daemon.Common.{Bool, Option, List, Bytes}
use syrius_orbit_daemon.Db.Cells.{Double, Int64}
use syrius_orbit_daemon.Schema.Enums.{CorridorReleaseLossBehavior, OrientationType, ReferencePoint}
use syrius_orbit_daemon.Schema.Shapes.{Action, NodePosition, Trajectory}

-- struct Node (include/syrius_orbit/vda5050_schemas/Order.hpp).
pub record Node : Type 0 where
  pub node_id : Bytes
  pub sequence_id : Int64
  pub node_descriptor : Option Bytes
  pub released : Bool
  pub node_position : Option NodePosition
  pub actions : List Action

-- struct Corridor (include/syrius_orbit/vda5050_schemas/Order.hpp).
pub record Corridor : Type 0 where
  pub left_width : Double
  pub right_width : Double
  pub corridor_reference_point : Option ReferencePoint
  pub release_required : Option Bool
  pub release_loss_behavior : Option CorridorReleaseLossBehavior

-- struct Edge (include/syrius_orbit/vda5050_schemas/Order.hpp).
pub record Edge : Type 0 where
  pub edge_id : Bytes
  pub sequence_id : Int64
  pub edge_descriptor : Option Bytes
  pub released : Bool
  pub maximum_speed : Option Double
  pub maximum_mobile_robot_height : Option Double
  pub minimum_load_handling_device_height : Option Double
  pub orientation : Option Double
  pub orientation_type : Option OrientationType
  pub direction : Option Bytes
  pub reach_orientation_before_entering : Option Bool
  pub max_rotation_speed : Option Double
  pub trajectory : Option Trajectory
  pub length : Option Double
  pub corridor : Option Corridor
  pub actions : List Action

-- struct Order (include/syrius_orbit/vda5050_schemas/Order.hpp).
pub record Order : Type 0 where
  pub header_id : Int64
  pub timestamp : Bytes
  pub version : Bytes
  pub manufacturer : Bytes
  pub serial_number : Bytes
  pub order_id : Bytes
  pub order_update_id : Int64
  pub order_description : Option Bytes
  pub nodes : List Node
  pub edges : List Edge
