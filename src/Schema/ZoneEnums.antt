-- ===== src/Schema/ZoneEnums.antt =====
-- The enumerations of the VDA5050 messages and their JSON names: include/syrius_orbit/vda5050_schemas/ZoneSet.hpp.
-- NLOHMANN_JSON_SERIALIZE_ENUM writes the name that its table has, and reads an unknown name as
-- the first entry of the table.
use syrius_orbit_daemon.Common.{◌≡◌, refl, Bytes, text, ◌==◌, if◌then◌else◌}

-- enum class ZoneZoneType (include/syrius_orbit/vda5050_schemas/ZoneSet.hpp) and its JSON names.
pub data ZoneZoneType : Type 0 where
  blocked line_guided release coordinated_replanning speed_limit action priority penalty :
      ZoneZoneType
  directed bidirected : ZoneZoneType

unfoldable pub zone_zone_type_name : ZoneZoneType → Bytes
zone_zone_type_name ZoneZoneType.blocked = text "BLOCKED"
zone_zone_type_name ZoneZoneType.line_guided = text "LINE_GUIDED"
zone_zone_type_name ZoneZoneType.release = text "RELEASE"
zone_zone_type_name ZoneZoneType.coordinated_replanning = text "COORDINATED_REPLANNING"
zone_zone_type_name ZoneZoneType.speed_limit = text "SPEED_LIMIT"
zone_zone_type_name ZoneZoneType.action = text "ACTION"
zone_zone_type_name ZoneZoneType.priority = text "PRIORITY"
zone_zone_type_name ZoneZoneType.penalty = text "PENALTY"
zone_zone_type_name ZoneZoneType.directed = text "DIRECTED"
zone_zone_type_name ZoneZoneType.bidirected = text "BIDIRECTED"

unfoldable pub zone_zone_type_of : Bytes → ZoneZoneType
zone_zone_type_of s =
    if s == text "BLOCKED"
    then ZoneZoneType.blocked
    else if s == text "LINE_GUIDED"
    then ZoneZoneType.line_guided
    else if s == text "RELEASE"
    then ZoneZoneType.release
    else if s == text "COORDINATED_REPLANNING"
    then ZoneZoneType.coordinated_replanning
    else if s == text "SPEED_LIMIT"
    then ZoneZoneType.speed_limit
    else if s == text "ACTION"
    then ZoneZoneType.action
    else if s == text "PRIORITY"
    then ZoneZoneType.priority
    else if s == text "PENALTY"
    then ZoneZoneType.penalty
    else if s == text "DIRECTED"
    then ZoneZoneType.directed
    else if s == text "BIDIRECTED"
    then ZoneZoneType.bidirected
    else ZoneZoneType.blocked

pub zone_zone_type_of-zone_zone_type_name :
    (x : ZoneZoneType) → zone_zone_type_of (zone_zone_type_name x) ≡ x
unfolding zone_zone_type_of zone_zone_type_name ◌==◌
zone_zone_type_of-zone_zone_type_name ZoneZoneType.blocked = refl
zone_zone_type_of-zone_zone_type_name ZoneZoneType.line_guided = refl
zone_zone_type_of-zone_zone_type_name ZoneZoneType.release = refl
zone_zone_type_of-zone_zone_type_name ZoneZoneType.coordinated_replanning = refl
zone_zone_type_of-zone_zone_type_name ZoneZoneType.speed_limit = refl
zone_zone_type_of-zone_zone_type_name ZoneZoneType.action = refl
zone_zone_type_of-zone_zone_type_name ZoneZoneType.priority = refl
zone_zone_type_of-zone_zone_type_name ZoneZoneType.penalty = refl
zone_zone_type_of-zone_zone_type_name ZoneZoneType.directed = refl
zone_zone_type_of-zone_zone_type_name ZoneZoneType.bidirected = refl

-- enum class ZoneReleaseLossBehavior (include/syrius_orbit/vda5050_schemas/ZoneSet.hpp) and its JSON names.
pub data ZoneReleaseLossBehavior : Type 0 where
  stop continue evacuate : ZoneReleaseLossBehavior

unfoldable pub zone_release_loss_behavior_name : ZoneReleaseLossBehavior → Bytes
zone_release_loss_behavior_name ZoneReleaseLossBehavior.stop = text "STOP"
zone_release_loss_behavior_name ZoneReleaseLossBehavior.continue = text "CONTINUE"
zone_release_loss_behavior_name ZoneReleaseLossBehavior.evacuate = text "EVACUATE"

unfoldable pub zone_release_loss_behavior_of : Bytes → ZoneReleaseLossBehavior
zone_release_loss_behavior_of s =
    if s == text "STOP"
    then ZoneReleaseLossBehavior.stop
    else if s == text "CONTINUE"
    then ZoneReleaseLossBehavior.continue
    else if s == text "EVACUATE"
    then ZoneReleaseLossBehavior.evacuate
    else ZoneReleaseLossBehavior.stop

pub zone_release_loss_behavior_of-zone_release_loss_behavior_name :
    (x : ZoneReleaseLossBehavior)
    → zone_release_loss_behavior_of (zone_release_loss_behavior_name x) ≡ x
unfolding zone_release_loss_behavior_of zone_release_loss_behavior_name ◌==◌
zone_release_loss_behavior_of-zone_release_loss_behavior_name ZoneReleaseLossBehavior.stop = refl
zone_release_loss_behavior_of-zone_release_loss_behavior_name ZoneReleaseLossBehavior.continue =
    refl
zone_release_loss_behavior_of-zone_release_loss_behavior_name ZoneReleaseLossBehavior.evacuate =
    refl

-- enum class ZoneDirectedLimitation (include/syrius_orbit/vda5050_schemas/ZoneSet.hpp) and its JSON names.
pub data ZoneDirectedLimitation : Type 0 where
  soft restricted strict : ZoneDirectedLimitation

unfoldable pub zone_directed_limitation_name : ZoneDirectedLimitation → Bytes
zone_directed_limitation_name ZoneDirectedLimitation.soft = text "SOFT"
zone_directed_limitation_name ZoneDirectedLimitation.restricted = text "RESTRICTED"
zone_directed_limitation_name ZoneDirectedLimitation.strict = text "STRICT"

unfoldable pub zone_directed_limitation_of : Bytes → ZoneDirectedLimitation
zone_directed_limitation_of s =
    if s == text "SOFT"
    then ZoneDirectedLimitation.soft
    else if s == text "RESTRICTED"
    then ZoneDirectedLimitation.restricted
    else if s == text "STRICT"
    then ZoneDirectedLimitation.strict
    else ZoneDirectedLimitation.soft

pub zone_directed_limitation_of-zone_directed_limitation_name :
    (x : ZoneDirectedLimitation) → zone_directed_limitation_of (zone_directed_limitation_name x) ≡ x
unfolding zone_directed_limitation_of zone_directed_limitation_name ◌==◌
zone_directed_limitation_of-zone_directed_limitation_name ZoneDirectedLimitation.soft = refl
zone_directed_limitation_of-zone_directed_limitation_name ZoneDirectedLimitation.restricted = refl
zone_directed_limitation_of-zone_directed_limitation_name ZoneDirectedLimitation.strict = refl

-- enum class ZoneBidirectedLimitation (include/syrius_orbit/vda5050_schemas/ZoneSet.hpp) and its JSON names.
pub data ZoneBidirectedLimitation : Type 0 where
  soft restricted : ZoneBidirectedLimitation

unfoldable pub zone_bidirected_limitation_name : ZoneBidirectedLimitation → Bytes
zone_bidirected_limitation_name ZoneBidirectedLimitation.soft = text "SOFT"
zone_bidirected_limitation_name ZoneBidirectedLimitation.restricted = text "RESTRICTED"

unfoldable pub zone_bidirected_limitation_of : Bytes → ZoneBidirectedLimitation
zone_bidirected_limitation_of s =
    if s == text "SOFT"
    then ZoneBidirectedLimitation.soft
    else if s == text "RESTRICTED"
    then ZoneBidirectedLimitation.restricted
    else ZoneBidirectedLimitation.soft

pub zone_bidirected_limitation_of-zone_bidirected_limitation_name :
    (x : ZoneBidirectedLimitation)
    → zone_bidirected_limitation_of (zone_bidirected_limitation_name x) ≡ x
unfolding zone_bidirected_limitation_of zone_bidirected_limitation_name ◌==◌
zone_bidirected_limitation_of-zone_bidirected_limitation_name ZoneBidirectedLimitation.soft = refl
zone_bidirected_limitation_of-zone_bidirected_limitation_name ZoneBidirectedLimitation.restricted =
    refl
