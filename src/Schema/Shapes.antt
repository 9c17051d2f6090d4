-- ===== src/Schema/Shapes.antt =====
-- The structs of the VDA5050 messages: include/syrius_orbit/vda5050_schemas/Common.hpp,
-- include/syrius_orbit/vda5050_schemas/NodePosition.h,
-- include/syrius_orbit/vda5050_schemas/Trajectory.h,
-- include/syrius_orbit/vda5050_schemas/Action.h,
-- include/syrius_orbit/vda5050_schemas/Visualization.hpp.
use syrius_orbit_daemon.Common.{Bool, Option, List, Bytes}
use syrius_orbit_daemon.Db.Cells.{Double, Int64, Int32}
use syrius_orbit_daemon.Json.{Json}
use syrius_orbit_daemon.Schema.Enums.{BlockingType}

-- struct BoundingBox (include/syrius_orbit/vda5050_schemas/Common.hpp).
pub record BoundingBox : Type 0 where
  pub x : Double
  pub y : Double
  pub z : Double
  pub theta : Option Double

-- struct Vertex (include/syrius_orbit/vda5050_schemas/Common.hpp).
pub record Vertex : Type 0 where
  pub x : Double
  pub y : Double

-- struct AllowedDeviationXY (include/syrius_orbit/vda5050_schemas/NodePosition.h).
pub record AllowedDeviationXy : Type 0 where
  pub a : Double
  pub b : Double
  pub theta : Double

-- struct NodePosition (include/syrius_orbit/vda5050_schemas/NodePosition.h).
pub record NodePosition : Type 0 where
  pub x : Double
  pub y : Double
  pub theta : Option Double
  pub allowed_deviation_xy : Option AllowedDeviationXy
  pub allowed_deviation_theta : Option Double
  pub map_id : Bytes

-- struct ControlPoint (include/syrius_orbit/vda5050_schemas/Trajectory.h).
pub record ControlPoint : Type 0 where
  pub x : Double
  pub y : Double
  pub weight : Option Double

-- struct Trajectory (include/syrius_orbit/vda5050_schemas/Trajectory.h).
pub record Trajectory : Type 0 where
  pub degree : Option Int32
  pub knot_vector : Option (List Double)
  pub control_points : List ControlPoint

-- struct Action (include/syrius_orbit/vda5050_schemas/Action.h).
pub record Action : Type 0 where
  pub action_type : Bytes
  pub action_id : Bytes
  pub action_descriptor : Option Bytes
  pub blocking_type : BlockingType
  pub action_parameters : Option (List (Bytes × Json))
  pub retriable : Option Bool

-- struct PlannedPath (include/syrius_orbit/vda5050_schemas/Visualization.hpp).
pub record PlannedPath : Type 0 where
  pub trajectory : Trajectory
  pub traversed_nodes : Option (List Bytes)

-- struct WayPoint (include/syrius_orbit/vda5050_schemas/Visualization.hpp).
pub record WayPoint : Type 0 where
  pub x : Double
  pub y : Double
  pub theta : Option Double
  pub eta : Bytes

-- struct IntermediatePath (include/syrius_orbit/vda5050_schemas/Visualization.hpp).
pub record IntermediatePath : Type 0 where
  pub polyline : List WayPoint

-- struct MobileRobotPosition (include/syrius_orbit/vda5050_schemas/Visualization.hpp).
pub record MobileRobotPosition : Type 0 where
  pub x : Double
  pub y : Double
  pub theta : Double
  pub map_id : Bytes
  pub localized : Bool
  pub localization_score : Option Double
  pub deviation_range : Option Double

-- struct Velocity (include/syrius_orbit/vda5050_schemas/Visualization.hpp).
pub record Velocity : Type 0 where
  pub vx : Option Double
  pub vy : Option Double
  pub omega : Option Double

-- struct Visualization (include/syrius_orbit/vda5050_schemas/Visualization.hpp).
pub record Visualization : Type 0 where
  pub header_id : Int64
  pub timestamp : Bytes
  pub version : Bytes
  pub manufacturer : Bytes
  pub serial_number : Bytes
  pub reference_state_header_id : Int64
  pub planned_path : Option PlannedPath
  pub intermediate_path : Option IntermediatePath
  pub mobile_robot_position : Option MobileRobotPosition
  pub velocity : Option Velocity
