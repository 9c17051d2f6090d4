-- ===== src/Db/Actions.antt =====
-- The instant_actions table and InstantActionsRepository: src/db/InstantActionsRepository.cpp,
-- include/syrius_orbit/db/InstantActionsRepository.hpp,
-- src/db/migrations/003_create_instant_actions.sql.
pub mod Laws
use mathlib.Core.Option
use syrius_orbit_daemon.Common.{ℕ, Bool, Option, none, List, map, Bytes, text, text_eq}
use syrius_orbit_daemon.Db.Cells.{bind_bool, get_bool, bind_nonempty}
use syrius_orbit_daemon.Db.Table

-- struct InstantAction.
pub record InstantAction : Type 0 where
  pub action_id : Bytes
  pub action_type : Bytes
  pub action_descriptor : Option Bytes
  pub blocking_type : Bytes
  pub action_parameters : Option Bytes
  pub retriable : Bool
  pub action_status : Bytes
  pub action_result : Option Bytes
  pub robot_id : Bytes
  pub site_id : Option Bytes
  pub archived : Bool
  pub created_at : Bytes
  pub last_updated_at : Bytes

-- A row of the instant_actions table.
pub record ActionRow : Type 0 where
  pub action_id : Bytes
  pub action_type : Bytes
  pub action_descriptor : Option Bytes
  pub blocking_type : Bytes
  pub action_parameters : Option Bytes
  pub retriable : ℕ
  pub action_status : Bytes
  pub action_result : Option Bytes
  pub robot_id : Bytes
  pub site_id : Option Bytes
  pub archived : ℕ
  pub created_at : Bytes
  pub last_updated_at : Bytes

abbrev pub key : ActionRow → Bytes
key r = r.action_id

unfoldable pub from_row : ActionRow → InstantAction
from_row r = record {
  action_id = r.action_id;
  action_type = r.action_type;
  action_descriptor = r.action_descriptor;
  blocking_type = r.blocking_type;
  action_parameters = r.action_parameters;
  retriable = get_bool r.retriable;
  action_status = r.action_status;
  action_result = r.action_result;
  robot_id = r.robot_id;
  site_id = r.site_id;
  archived = get_bool r.archived;
  created_at = r.created_at;
  last_updated_at = r.last_updated_at;
}

unfoldable pub find_by_id : Bytes → List ActionRow → Option InstantAction
find_by_id action_id rows = Option.map from_row (Table.find key action_id rows)

unfoldable pub list_all : List ActionRow → List InstantAction
list_all rows = map from_row rows

-- The values that `upsert` binds to the thirteen columns.
unfoldable pub bind_action : InstantAction → ActionRow
bind_action action = record {
  action_id = action.action_id;
  action_type = action.action_type;
  action_descriptor = action.action_descriptor;
  blocking_type = action.blocking_type;
  action_parameters = action.action_parameters;
  retriable = bind_bool action.retriable;
  action_status = action.action_status;
  action_result = action.action_result;
  robot_id = action.robot_id;
  site_id = action.site_id;
  archived = bind_bool action.archived;
  created_at = action.created_at;
  last_updated_at = action.last_updated_at;
}

-- DO UPDATE SET of `upsert`: every column but action_id and created_at.
abbrev pub overwrite : ActionRow → ActionRow → ActionRow
overwrite excluded r = record excluded { action_id = r.action_id; created_at = r.created_at }

unfoldable pub upsert : InstantAction → List ActionRow → List ActionRow
unfolding bind_action
upsert action rows =
    let excluded = bind_action action in
    Table.upsert key action.action_id (overwrite excluded) excluded rows

-- DO UPDATE SET of upsertFromAction.
abbrev pub set_action : Bytes → Bytes → Bytes → Bytes → Bytes → Bytes → ActionRow → ActionRow
set_action action_type action_descriptor blocking_type action_parameters robot_id last_updated_at
      r =
    record r {
      action_type = action_type;
      action_descriptor = bind_nonempty action_descriptor;
      blocking_type = blocking_type;
      action_parameters = bind_nonempty action_parameters;
      robot_id = robot_id;
      last_updated_at = last_updated_at;
    }

-- An inserted row before its named columns are written: the defaults of
-- 003_create_instant_actions.sql.
unfoldable pub default_row : Bytes → Bytes → Bytes → Bytes → ActionRow
default_row action_id action_type robot_id now = record {
  action_id = action_id;
  action_type = action_type;
  action_descriptor = none;
  blocking_type = text "NONE";
  action_parameters = none;
  retriable = 0;
  action_status = text "WAITING";
  action_result = none;
  robot_id = robot_id;
  site_id = none;
  archived = 0;
  created_at = now;
  last_updated_at = now;
}

unfoldable pub upsert_from_action :
    Bytes → Bytes → Bytes → Bytes → Bytes → Bytes → Bytes → List ActionRow → List ActionRow
upsert_from_action action_id action_type action_descriptor blocking_type action_parameters robot_id
      last_updated_at rows =
    let change =
      set_action action_type action_descriptor blocking_type action_parameters robot_id
        last_updated_at in
    Table.upsert key action_id change
      (change (default_row action_id action_type robot_id last_updated_at)) rows

-- DO UPDATE SET of upsertFromResponse.
abbrev pub set_status : Bytes → Bytes → ActionRow → ActionRow
set_status action_status last_updated_at r = record r {
  action_status = action_status;
  last_updated_at = last_updated_at;
}

unfoldable pub upsert_from_response :
    Bytes → Bytes → Bytes → Bytes → List ActionRow → List ActionRow
upsert_from_response action_id robot_id action_status last_updated_at rows =
    let change = set_status action_status last_updated_at in
    Table.upsert key action_id change
      (change (default_row action_id (text "zoneRequest") robot_id last_updated_at)) rows
