-- ===== src/Schema/Enums.antt =====
-- The enumerations of the VDA5050 messages and their JSON names: include/syrius_orbit/vda5050_schemas/Common.hpp,
-- include/syrius_orbit/vda5050_schemas/Connection.hpp,
-- include/syrius_orbit/vda5050_schemas/Order.hpp,
-- include/syrius_orbit/vda5050_schemas/Responses.hpp.
-- NLOHMANN_JSON_SERIALIZE_ENUM writes the name that its table has, and reads an unknown name as
-- the first entry of the table.
use syrius_orbit_daemon.Common.{◌≡◌, refl, Bytes, text, ◌==◌, if◌then◌else◌}

-- enum class BlockingType (include/syrius_orbit/vda5050_schemas/Common.hpp) and its JSON names.
pub data BlockingType : Type 0 where
  none single soft hard : BlockingType

unfoldable pub blocking_type_name : BlockingType → Bytes
blocking_type_name BlockingType.none = text "NONE"
blocking_type_name BlockingType.soft = text "SOFT"
blocking_type_name BlockingType.single = text "SINGLE"
blocking_type_name BlockingType.hard = text "HARD"

unfoldable pub blocking_type_of : Bytes → BlockingType
blocking_type_of s =
    if s == text "NONE"
    then BlockingType.none
    else if s == text "SOFT"
    then BlockingType.soft
    else if s == text "SINGLE"
    then BlockingType.single
    else if s == text "HARD"
    then BlockingType.hard
    else BlockingType.none

pub blocking_type_of-blocking_type_name :
    (x : BlockingType) → blocking_type_of (blocking_type_name x) ≡ x
unfolding blocking_type_of blocking_type_name ◌==◌
blocking_type_of-blocking_type_name BlockingType.none = refl
blocking_type_of-blocking_type_name BlockingType.single = refl
blocking_type_of-blocking_type_name BlockingType.soft = refl
blocking_type_of-blocking_type_name BlockingType.hard = refl

-- enum class ConnectionState (include/syrius_orbit/vda5050_schemas/Connection.hpp) and its JSON names.
pub data ConnectionState : Type 0 where
  online offline hibernating connection_broken : ConnectionState

unfoldable pub connection_state_name : ConnectionState → Bytes
connection_state_name ConnectionState.online = text "ONLINE"
connection_state_name ConnectionState.offline = text "OFFLINE"
connection_state_name ConnectionState.hibernating = text "HIBERNATING"
connection_state_name ConnectionState.connection_broken = text "CONNECTION_BROKEN"

unfoldable pub connection_state_of : Bytes → ConnectionState
connection_state_of s =
    if s == text "ONLINE"
    then ConnectionState.online
    else if s == text "OFFLINE"
    then ConnectionState.offline
    else if s == text "HIBERNATING"
    then ConnectionState.hibernating
    else if s == text "CONNECTION_BROKEN"
    then ConnectionState.connection_broken
    else ConnectionState.online

pub connection_state_of-connection_state_name :
    (x : ConnectionState) → connection_state_of (connection_state_name x) ≡ x
unfolding connection_state_of connection_state_name ◌==◌
connection_state_of-connection_state_name ConnectionState.online = refl
connection_state_of-connection_state_name ConnectionState.offline = refl
connection_state_of-connection_state_name ConnectionState.hibernating = refl
connection_state_of-connection_state_name ConnectionState.connection_broken = refl

-- enum class GrantType (include/syrius_orbit/vda5050_schemas/Responses.hpp) and its JSON names.
pub data GrantType : Type 0 where
  granted queued revoked rejected : GrantType

unfoldable pub grant_type_name : GrantType → Bytes
grant_type_name GrantType.granted = text "GRANTED"
grant_type_name GrantType.queued = text "QUEUED"
grant_type_name GrantType.revoked = text "REVOKED"
grant_type_name GrantType.rejected = text "REJECTED"

unfoldable pub grant_type_of : Bytes → GrantType
grant_type_of s =
    if s == text "GRANTED"
    then GrantType.granted
    else if s == text "QUEUED"
    then GrantType.queued
    else if s == text "REVOKED"
    then GrantType.revoked
    else if s == text "REJECTED"
    then GrantType.rejected
    else GrantType.granted

pub grant_type_of-grant_type_name : (x : GrantType) → grant_type_of (grant_type_name x) ≡ x
unfolding grant_type_of grant_type_name ◌==◌
grant_type_of-grant_type_name GrantType.granted = refl
grant_type_of-grant_type_name GrantType.queued = refl
grant_type_of-grant_type_name GrantType.revoked = refl
grant_type_of-grant_type_name GrantType.rejected = refl

-- enum class OrientationType (include/syrius_orbit/vda5050_schemas/Order.hpp) and its JSON names.
pub data OrientationType : Type 0 where
  global tangential : OrientationType

unfoldable pub orientation_type_name : OrientationType → Bytes
orientation_type_name OrientationType.global = text "GLOBAL"
orientation_type_name OrientationType.tangential = text "TANGENTIAL"

unfoldable pub orientation_type_of : Bytes → OrientationType
orientation_type_of s =
    if s == text "GLOBAL"
    then OrientationType.global
    else if s == text "TANGENTIAL"
    then OrientationType.tangential
    else OrientationType.global

pub orientation_type_of-orientation_type_name :
    (x : OrientationType) → orientation_type_of (orientation_type_name x) ≡ x
unfolding orientation_type_of orientation_type_name ◌==◌
orientation_type_of-orientation_type_name OrientationType.global = refl
orientation_type_of-orientation_type_name OrientationType.tangential = refl

-- enum class ReferencePoint (include/syrius_orbit/vda5050_schemas/Order.hpp) and its JSON names.
pub data ReferencePoint : Type 0 where
  kinematic_center contour : ReferencePoint

unfoldable pub reference_point_name : ReferencePoint → Bytes
reference_point_name ReferencePoint.kinematic_center = text "KINEMATIC_CENTER"
reference_point_name ReferencePoint.contour = text "CONTOUR"

unfoldable pub reference_point_of : Bytes → ReferencePoint
reference_point_of s =
    if s == text "KINEMATIC_CENTER"
    then ReferencePoint.kinematic_center
    else if s == text "CONTOUR"
    then ReferencePoint.contour
    else ReferencePoint.kinematic_center

pub reference_point_of-reference_point_name :
    (x : ReferencePoint) → reference_point_of (reference_point_name x) ≡ x
unfolding reference_point_of reference_point_name ◌==◌
reference_point_of-reference_point_name ReferencePoint.kinematic_center = refl
reference_point_of-reference_point_name ReferencePoint.contour = refl

-- enum class CorridorReleaseLossBehavior (include/syrius_orbit/vda5050_schemas/Order.hpp) and its JSON names.
pub data CorridorReleaseLossBehavior : Type 0 where
  stop return : CorridorReleaseLossBehavior

unfoldable pub corridor_release_loss_behavior_name : CorridorReleaseLossBehavior → Bytes
corridor_release_loss_behavior_name CorridorReleaseLossBehavior.stop = text "STOP"
corridor_release_loss_behavior_name CorridorReleaseLossBehavior.return = text "RETURN"

unfoldable pub corridor_release_loss_behavior_of : Bytes → CorridorReleaseLossBehavior
corridor_release_loss_behavior_of s =
    if s == text "STOP"
    then CorridorReleaseLossBehavior.stop
    else if s == text "RETURN"
    then CorridorReleaseLossBehavior.return
    else CorridorReleaseLossBehavior.stop

pub corridor_release_loss_behavior_of-corridor_release_loss_behavior_name :
    (x : CorridorReleaseLossBehavior)
    → corridor_release_loss_behavior_of (corridor_release_loss_behavior_name x) ≡ x
unfolding corridor_release_loss_behavior_of corridor_release_loss_behavior_name ◌==◌
corridor_release_loss_behavior_of-corridor_release_loss_behavior_name
      CorridorReleaseLossBehavior.stop =
    refl
corridor_release_loss_behavior_of-corridor_release_loss_behavior_name
      CorridorReleaseLossBehavior.return =
    refl
