-- ===== src/Schema/StateEnums.antt =====
-- The enumerations of the VDA5050 messages and their JSON names: include/syrius_orbit/vda5050_schemas/State.hpp.
-- NLOHMANN_JSON_SERIALIZE_ENUM writes the name that its table has, and reads an unknown name as
-- the first entry of the table.
use syrius_orbit_daemon.Common.{◌≡◌, refl, Bytes, text, ◌==◌, if◌then◌else◌}

-- enum class MapStatus (include/syrius_orbit/vda5050_schemas/State.hpp) and its JSON names.
pub data MapStatus : Type 0 where
  enabled disabled : MapStatus

unfoldable pub map_status_name : MapStatus → Bytes
map_status_name MapStatus.enabled = text "ENABLED"
map_status_name MapStatus.disabled = text "DISABLED"

unfoldable pub map_status_of : Bytes → MapStatus
map_status_of s =
    if s == text "ENABLED"
    then MapStatus.enabled
    else if s == text "DISABLED"
    then MapStatus.disabled
    else MapStatus.enabled

pub map_status_of-map_status_name : (x : MapStatus) → map_status_of (map_status_name x) ≡ x
unfolding map_status_of map_status_name ◌==◌
map_status_of-map_status_name MapStatus.enabled = refl
map_status_of-map_status_name MapStatus.disabled = refl

-- enum class ZoneSetStatus (include/syrius_orbit/vda5050_schemas/State.hpp) and its JSON names.
pub data ZoneSetStatus : Type 0 where
  enabled disabled : ZoneSetStatus

unfoldable pub zone_set_status_name : ZoneSetStatus → Bytes
zone_set_status_name ZoneSetStatus.enabled = text "ENABLED"
zone_set_status_name ZoneSetStatus.disabled = text "DISABLED"

unfoldable pub zone_set_status_of : Bytes → ZoneSetStatus
zone_set_status_of s =
    if s == text "ENABLED"
    then ZoneSetStatus.enabled
    else if s == text "DISABLED"
    then ZoneSetStatus.disabled
    else ZoneSetStatus.enabled

pub zone_set_status_of-zone_set_status_name :
    (x : ZoneSetStatus) → zone_set_status_of (zone_set_status_name x) ≡ x
unfolding zone_set_status_of zone_set_status_name ◌==◌
zone_set_status_of-zone_set_status_name ZoneSetStatus.enabled = refl
zone_set_status_of-zone_set_status_name ZoneSetStatus.disabled = refl

-- enum class ZoneRequestType (include/syrius_orbit/vda5050_schemas/State.hpp) and its JSON names.
pub data ZoneRequestType : Type 0 where
  access replanning : ZoneRequestType

unfoldable pub zone_request_type_name : ZoneRequestType → Bytes
zone_request_type_name ZoneRequestType.access = text "ACCESS"
zone_request_type_name ZoneRequestType.replanning = text "REPLANNING"

unfoldable pub zone_request_type_of : Bytes → ZoneRequestType
zone_request_type_of s =
    if s == text "ACCESS"
    then ZoneRequestType.access
    else if s == text "REPLANNING"
    then ZoneRequestType.replanning
    else ZoneRequestType.access

pub zone_request_type_of-zone_request_type_name :
    (x : ZoneRequestType) → zone_request_type_of (zone_request_type_name x) ≡ x
unfolding zone_request_type_of zone_request_type_name ◌==◌
zone_request_type_of-zone_request_type_name ZoneRequestType.access = refl
zone_request_type_of-zone_request_type_name ZoneRequestType.replanning = refl

-- enum class EdgeRequestType (include/syrius_orbit/vda5050_schemas/State.hpp) and its JSON names.
pub data EdgeRequestType : Type 0 where
  corridor : EdgeRequestType

unfoldable pub edge_request_type_name : EdgeRequestType → Bytes
edge_request_type_name EdgeRequestType.corridor = text "CORRIDOR"

unfoldable pub edge_request_type_of : Bytes → EdgeRequestType
edge_request_type_of s = EdgeRequestType.corridor

pub edge_request_type_of-edge_request_type_name :
    (x : EdgeRequestType) → edge_request_type_of (edge_request_type_name x) ≡ x
unfolding edge_request_type_of edge_request_type_name ◌==◌
edge_request_type_of-edge_request_type_name EdgeRequestType.corridor = refl

-- enum class RequestStatus (include/syrius_orbit/vda5050_schemas/State.hpp) and its JSON names.
pub data RequestStatus : Type 0 where
  requested granted revoked expired : RequestStatus

unfoldable pub request_status_name : RequestStatus → Bytes
request_status_name RequestStatus.requested = text "REQUESTED"
request_status_name RequestStatus.granted = text "GRANTED"
request_status_name RequestStatus.revoked = text "REVOKED"
request_status_name RequestStatus.expired = text "EXPIRED"

unfoldable pub request_status_of : Bytes → RequestStatus
request_status_of s =
    if s == text "REQUESTED"
    then RequestStatus.requested
    else if s == text "GRANTED"
    then RequestStatus.granted
    else if s == text "REVOKED"
    then RequestStatus.revoked
    else if s == text "EXPIRED"
    then RequestStatus.expired
    else RequestStatus.requested

pub request_status_of-request_status_name :
    (x : RequestStatus) → request_status_of (request_status_name x) ≡ x
unfolding request_status_of request_status_name ◌==◌
request_status_of-request_status_name RequestStatus.requested = refl
request_status_of-request_status_name RequestStatus.granted = refl
request_status_of-request_status_name RequestStatus.revoked = refl
request_status_of-request_status_name RequestStatus.expired = refl

-- enum class ActionStatus (include/syrius_orbit/vda5050_schemas/State.hpp) and its JSON names.
pub data ActionStatus : Type 0 where
  waiting initializing running paused retriable finished failed : ActionStatus

unfoldable pub action_status_name : ActionStatus → Bytes
action_status_name ActionStatus.waiting = text "WAITING"
action_status_name ActionStatus.initializing = text "INITIALIZING"
action_status_name ActionStatus.running = text "RUNNING"
action_status_name ActionStatus.paused = text "PAUSED"
action_status_name ActionStatus.retriable = text "RETRIABLE"
action_status_name ActionStatus.finished = text "FINISHED"
action_status_name ActionStatus.failed = text "FAILED"

unfoldable pub action_status_of : Bytes → ActionStatus
action_status_of s =
    if s == text "WAITING"
    then ActionStatus.waiting
    else if s == text "INITIALIZING"
    then ActionStatus.initializing
    else if s == text "RUNNING"
    then ActionStatus.running
    else if s == text "PAUSED"
    then ActionStatus.paused
    else if s == text "RETRIABLE"
    then ActionStatus.retriable
    else if s == text "FINISHED"
    then ActionStatus.finished
    else if s == text "FAILED"
    then ActionStatus.failed
    else ActionStatus.waiting

pub action_status_of-action_status_name :
    (x : ActionStatus) → action_status_of (action_status_name x) ≡ x
unfolding action_status_of action_status_name ◌==◌
action_status_of-action_status_name ActionStatus.waiting = refl
action_status_of-action_status_name ActionStatus.initializing = refl
action_status_of-action_status_name ActionStatus.running = refl
action_status_of-action_status_name ActionStatus.paused = refl
action_status_of-action_status_name ActionStatus.retriable = refl
action_status_of-action_status_name ActionStatus.finished = refl
action_status_of-action_status_name ActionStatus.failed = refl

-- enum class OperatingMode (include/syrius_orbit/vda5050_schemas/State.hpp) and its JSON names.
pub data OperatingMode : Type 0 where
  startup automatic semiautomatic intervened manual service teach_in : OperatingMode

unfoldable pub operating_mode_name : OperatingMode → Bytes
operating_mode_name OperatingMode.startup = text "STARTUP"
operating_mode_name OperatingMode.automatic = text "AUTOMATIC"
operating_mode_name OperatingMode.semiautomatic = text "SEMIAUTOMATIC"
operating_mode_name OperatingMode.intervened = text "INTERVENED"
operating_mode_name OperatingMode.manual = text "MANUAL"
operating_mode_name OperatingMode.service = text "SERVICE"
operating_mode_name OperatingMode.teach_in = text "TEACH_IN"

unfoldable pub operating_mode_of : Bytes → OperatingMode
operating_mode_of s =
    if s == text "STARTUP"
    then OperatingMode.startup
    else if s == text "AUTOMATIC"
    then OperatingMode.automatic
    else if s == text "SEMIAUTOMATIC"
    then OperatingMode.semiautomatic
    else if s == text "INTERVENED"
    then OperatingMode.intervened
    else if s == text "MANUAL"
    then OperatingMode.manual
    else if s == text "SERVICE"
    then OperatingMode.service
    else if s == text "TEACH_IN"
    then OperatingMode.teach_in
    else OperatingMode.startup

pub operating_mode_of-operating_mode_name :
    (x : OperatingMode) → operating_mode_of (operating_mode_name x) ≡ x
unfolding operating_mode_of operating_mode_name ◌==◌
operating_mode_of-operating_mode_name OperatingMode.startup = refl
operating_mode_of-operating_mode_name OperatingMode.automatic = refl
operating_mode_of-operating_mode_name OperatingMode.semiautomatic = refl
operating_mode_of-operating_mode_name OperatingMode.intervened = refl
operating_mode_of-operating_mode_name OperatingMode.manual = refl
operating_mode_of-operating_mode_name OperatingMode.service = refl
operating_mode_of-operating_mode_name OperatingMode.teach_in = refl

-- enum class ErrorLevel (include/syrius_orbit/vda5050_schemas/State.hpp) and its JSON names.
pub data ErrorLevel : Type 0 where
  warning urgent critical fatal : ErrorLevel

unfoldable pub error_level_name : ErrorLevel → Bytes
error_level_name ErrorLevel.warning = text "WARNING"
error_level_name ErrorLevel.urgent = text "URGENT"
error_level_name ErrorLevel.critical = text "CRITICAL"
error_level_name ErrorLevel.fatal = text "FATAL"

unfoldable pub error_level_of : Bytes → ErrorLevel
error_level_of s =
    if s == text "WARNING"
    then ErrorLevel.warning
    else if s == text "URGENT"
    then ErrorLevel.urgent
    else if s == text "CRITICAL"
    then ErrorLevel.critical
    else if s == text "FATAL"
    then ErrorLevel.fatal
    else ErrorLevel.warning

pub error_level_of-error_level_name : (x : ErrorLevel) → error_level_of (error_level_name x) ≡ x
unfolding error_level_of error_level_name ◌==◌
error_level_of-error_level_name ErrorLevel.warning = refl
error_level_of-error_level_name ErrorLevel.urgent = refl
error_level_of-error_level_name ErrorLevel.critical = refl
error_level_of-error_level_name ErrorLevel.fatal = refl

-- enum class InfoLevel (include/syrius_orbit/vda5050_schemas/State.hpp) and its JSON names.
pub data InfoLevel : Type 0 where
  info debug : InfoLevel

unfoldable pub info_level_name : InfoLevel → Bytes
info_level_name InfoLevel.info = text "INFO"
info_level_name InfoLevel.debug = text "DEBUG"

unfoldable pub info_level_of : Bytes → InfoLevel
info_level_of s =
    if s == text "INFO"
    then InfoLevel.info
    else if s == text "DEBUG"
    then InfoLevel.debug
    else InfoLevel.info

pub info_level_of-info_level_name : (x : InfoLevel) → info_level_of (info_level_name x) ≡ x
unfolding info_level_of info_level_name ◌==◌
info_level_of-info_level_name InfoLevel.info = refl
info_level_of-info_level_name InfoLevel.debug = refl

-- enum class ActiveEmergencyStop (include/syrius_orbit/vda5050_schemas/State.hpp) and its JSON names.
pub data ActiveEmergencyStop : Type 0 where
  manual remote none : ActiveEmergencyStop

unfoldable pub active_emergency_stop_name : ActiveEmergencyStop → Bytes
active_emergency_stop_name ActiveEmergencyStop.manual = text "MANUAL"
active_emergency_stop_name ActiveEmergencyStop.remote = text "REMOTE"
active_emergency_stop_name ActiveEmergencyStop.none = text "NONE"

unfoldable pub active_emergency_stop_of : Bytes → ActiveEmergencyStop
active_emergency_stop_of s =
    if s == text "MANUAL"
    then ActiveEmergencyStop.manual
    else if s == text "REMOTE"
    then ActiveEmergencyStop.remote
    else if s == text "NONE"
    then ActiveEmergencyStop.none
    else ActiveEmergencyStop.manual

pub active_emergency_stop_of-active_emergency_stop_name :
    (x : ActiveEmergencyStop) → active_emergency_stop_of (active_emergency_stop_name x) ≡ x
unfolding active_emergency_stop_of active_emergency_stop_name ◌==◌
active_emergency_stop_of-active_emergency_stop_name ActiveEmergencyStop.manual = refl
active_emergency_stop_of-active_emergency_stop_name ActiveEmergencyStop.remote = refl
active_emergency_stop_of-active_emergency_stop_name ActiveEmergencyStop.none = refl
