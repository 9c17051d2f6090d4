-- ===== src/Schema/Messages.antt =====
-- The structs of the VDA5050 messages: include/syrius_orbit/vda5050_schemas/Connection.hpp,
-- include/syrius_orbit/vda5050_schemas/InstantActions.hpp,
-- include/syrius_orbit/vda5050_schemas/Responses.hpp.
use syrius_orbit_daemon.Common.{Option, List, Bytes}
use syrius_orbit_daemon.Db.Cells.{Int64}
use syrius_orbit_daemon.Schema.Enums.{ConnectionState, GrantType}
use syrius_orbit_daemon.Schema.Shapes.{Action}

-- struct Connection (include/syrius_orbit/vda5050_schemas/Connection.hpp).
pub record Connection : Type 0 where
  pub header_id : Int64
  pub timestamp : Bytes
  pub version : Bytes
  pub manufacturer : Bytes
  pub serial_number : Bytes
  pub connection_state : ConnectionState

-- struct InstantActions (include/syrius_orbit/vda5050_schemas/InstantActions.hpp).
pub record InstantActions : Type 0 where
  pub header_id : Int64
  pub timestamp : Bytes
  pub version : Bytes
  pub manufacturer : Bytes
  pub serial_number : Bytes
  pub actions : List Action

-- struct Response (include/syrius_orbit/vda5050_schemas/Responses.hpp).
pub record Response : Type 0 where
  pub request_id : Bytes
  pub grant_type : GrantType
  pub lease_expiry : Option Bytes

-- struct Responses (include/syrius_orbit/vda5050_schemas/Responses.hpp).
pub record Responses : Type 0 where
  pub header_id : Int64
  pub timestamp : Bytes
  pub version : Bytes
  pub manufacturer : Bytes
  pub serial_number : Bytes
  pub responses : List Response
