-- ===== src/Schema/FactSheetEnums.antt =====
-- The enumerations of the VDA5050 messages and their JSON names: include/syrius_orbit/vda5050_schemas/FactSheet.hpp.
-- NLOHMANN_JSON_SERIALIZE_ENUM writes the name that its table has, and reads an unknown name as
-- the first entry of the table.
use syrius_orbit_daemon.Common.{◌≡◌, refl, Bytes, text, ◌==◌, if◌then◌else◌}

-- enum class SupportedZoneType (include/syrius_orbit/vda5050_schemas/FactSheet.hpp) and its JSON names.
pub data SupportedZoneType : Type 0 where
  blocked line_guided release coordinated_replanning speed_limit action priority penalty :
      SupportedZoneType
  directed bidirected : SupportedZoneType

unfoldable pub supported_zone_type_name : SupportedZoneType → Bytes
supported_zone_type_name SupportedZoneType.blocked = text "BLOCKED"
supported_zone_type_name SupportedZoneType.line_guided = text "LINE_GUIDED"
supported_zone_type_name SupportedZoneType.release = text "RELEASE"
supported_zone_type_name SupportedZoneType.coordinated_replanning = text "COORDINATED_REPLANNING"
supported_zone_type_name SupportedZoneType.speed_limit = text "SPEED_LIMIT"
supported_zone_type_name SupportedZoneType.action = text "ACTION"
supported_zone_type_name SupportedZoneType.priority = text "PRIORITY"
supported_zone_type_name SupportedZoneType.penalty = text "PENALTY"
supported_zone_type_name SupportedZoneType.directed = text "DIRECTED"
supported_zone_type_name SupportedZoneType.bidirected = text "BIDIRECTED"

unfoldable pub supported_zone_type_of : Bytes → SupportedZoneType
supported_zone_type_of s =
    if s == text "BLOCKED"
    then SupportedZoneType.blocked
    else if s == text "LINE_GUIDED"
    then SupportedZoneType.line_guided
    else if s == text "RELEASE"
    then SupportedZoneType.release
    else if s == text "COORDINATED_REPLANNING"
    then SupportedZoneType.coordinated_replanning
    else if s == text "SPEED_LIMIT"
    then SupportedZoneType.speed_limit
    else if s == text "ACTION"
    then SupportedZoneType.action
    else if s == text "PRIORITY"
    then SupportedZoneType.priority
    else if s == text "PENALTY"
    then SupportedZoneType.penalty
    else if s == text "DIRECTED"
    then SupportedZoneType.directed
    else if s == text "BIDIRECTED"
    then SupportedZoneType.bidirected
    else SupportedZoneType.blocked

pub supported_zone_type_of-supported_zone_type_name :
    (x : SupportedZoneType) → supported_zone_type_of (supported_zone_type_name x) ≡ x
unfolding supported_zone_type_of supported_zone_type_name ◌==◌
supported_zone_type_of-supported_zone_type_name SupportedZoneType.blocked = refl
supported_zone_type_of-supported_zone_type_name SupportedZoneType.line_guided = refl
supported_zone_type_of-supported_zone_type_name SupportedZoneType.release = refl
supported_zone_type_of-supported_zone_type_name SupportedZoneType.coordinated_replanning = refl
supported_zone_type_of-supported_zone_type_name SupportedZoneType.speed_limit = refl
supported_zone_type_of-supported_zone_type_name SupportedZoneType.action = refl
supported_zone_type_of-supported_zone_type_name SupportedZoneType.priority = refl
supported_zone_type_of-supported_zone_type_name SupportedZoneType.penalty = refl
supported_zone_type_of-supported_zone_type_name SupportedZoneType.directed = refl
supported_zone_type_of-supported_zone_type_name SupportedZoneType.bidirected = refl

-- enum class SupportType (include/syrius_orbit/vda5050_schemas/FactSheet.hpp) and its JSON names.
pub data SupportType : Type 0 where
  supported required : SupportType

unfoldable pub support_type_name : SupportType → Bytes
support_type_name SupportType.supported = text "SUPPORTED"
support_type_name SupportType.required = text "REQUIRED"

unfoldable pub support_type_of : Bytes → SupportType
support_type_of s =
    if s == text "SUPPORTED"
    then SupportType.supported
    else if s == text "REQUIRED"
    then SupportType.required
    else SupportType.supported

pub support_type_of-support_type_name :
    (x : SupportType) → support_type_of (support_type_name x) ≡ x
unfolding support_type_of support_type_name ◌==◌
support_type_of-support_type_name SupportType.supported = refl
support_type_of-support_type_name SupportType.required = refl

-- enum class ActionScope (include/syrius_orbit/vda5050_schemas/FactSheet.hpp) and its JSON names.
pub data ActionScope : Type 0 where
  instant node edge zone : ActionScope

unfoldable pub action_scope_name : ActionScope → Bytes
action_scope_name ActionScope.instant = text "INSTANT"
action_scope_name ActionScope.node = text "NODE"
action_scope_name ActionScope.edge = text "EDGE"
action_scope_name ActionScope.zone = text "ZONE"

unfoldable pub action_scope_of : Bytes → ActionScope
action_scope_of s =
    if s == text "INSTANT"
    then ActionScope.instant
    else if s == text "NODE"
    then ActionScope.node
    else if s == text "EDGE"
    then ActionScope.edge
    else if s == text "ZONE"
    then ActionScope.zone
    else ActionScope.instant

pub action_scope_of-action_scope_name :
    (x : ActionScope) → action_scope_of (action_scope_name x) ≡ x
unfolding action_scope_of action_scope_name ◌==◌
action_scope_of-action_scope_name ActionScope.instant = refl
action_scope_of-action_scope_name ActionScope.node = refl
action_scope_of-action_scope_name ActionScope.edge = refl
action_scope_of-action_scope_name ActionScope.zone = refl

-- enum class ValueDataType (include/syrius_orbit/vda5050_schemas/FactSheet.hpp) and its JSON names.
pub data ValueDataType : Type 0 where
  bool number integer string object array : ValueDataType

unfoldable pub value_data_type_name : ValueDataType → Bytes
value_data_type_name ValueDataType.bool = text "BOOL"
value_data_type_name ValueDataType.number = text "NUMBER"
value_data_type_name ValueDataType.integer = text "INTEGER"
value_data_type_name ValueDataType.string = text "STRING"
value_data_type_name ValueDataType.object = text "OBJECT"
value_data_type_name ValueDataType.array = text "ARRAY"

unfoldable pub value_data_type_of : Bytes → ValueDataType
value_data_type_of s =
    if s == text "BOOL"
    then ValueDataType.bool
    else if s == text "NUMBER"
    then ValueDataType.number
    else if s == text "INTEGER"
    then ValueDataType.integer
    else if s == text "STRING"
    then ValueDataType.string
    else if s == text "OBJECT"
    then ValueDataType.object
    else if s == text "ARRAY"
    then ValueDataType.array
    else ValueDataType.bool

pub value_data_type_of-value_data_type_name :
    (x : ValueDataType) → value_data_type_of (value_data_type_name x) ≡ x
unfolding value_data_type_of value_data_type_name ◌==◌
value_data_type_of-value_data_type_name ValueDataType.bool = refl
value_data_type_of-value_data_type_name ValueDataType.number = refl
value_data_type_of-value_data_type_name ValueDataType.integer = refl
value_data_type_of-value_data_type_name ValueDataType.string = refl
value_data_type_of-value_data_type_name ValueDataType.object = refl
value_data_type_of-value_data_type_name ValueDataType.array = refl
