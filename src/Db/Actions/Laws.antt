-- ===== src/Db/Actions/Laws.antt =====
-- What InstantActionsRepository promises: the table is a map from action_id to InstantAction.
use syrius_orbit_daemon.Common.{
  ◌≡◌, refl, false, none, some, List, Bytes, text, text_eq, ◌==◌, if◌then◌else◌, arith,
}
use syrius_orbit_daemon.Db.Cells.{bind_nonempty}
use syrius_orbit_daemon.Db.Table.Laws.{changed, read-upsert}
use syrius_orbit_daemon.Db.Actions.{
  InstantAction, ActionRow, key, from_row, find_by_id, bind_action, overwrite, upsert, set_action,
  default_row, upsert_from_action, set_status, upsert_from_response,
}

from_row-bind_action : (action : InstantAction) → from_row (bind_action action) ≡ action
unfolding from_row bind_action
from_row-bind_action action = ground arith

-- After `upsert`, `find_by_id` returns for the action's id the action that was written, with the
-- created_at of the record that was there before, if there was one; other ids are not affected.
pub find_action-upsert :
    (action : InstantAction) (j : Bytes) (rows : List ActionRow)
    → find_by_id j (upsert action rows) ≡ (
        if action.action_id == j
        then some (
            changed
              (λ old. record action { created_at = old.created_at })
              action
              (find_by_id j rows))
        else find_by_id j rows)
unfolding find_by_id upsert from_row
find_action-upsert action j rows =
    read-upsert key from_row action.action_id (overwrite (bind_action action)) (bind_action action)
      refl (λ r. refl) (λ old. record action { created_at = old.created_at }) action
      (from_row-bind_action action) (λ r e. ground arith) j rows

-- An action that its first event creates: the column defaults.
abbrev pub new_action : Bytes → Bytes → Bytes → Bytes → InstantAction
new_action action_id action_type robot_id now = record {
  action_id = action_id;
  action_type = action_type;
  action_descriptor = none;
  blocking_type = text "NONE";
  action_parameters = none;
  retriable = false;
  action_status = text "WAITING";
  action_result = none;
  robot_id = robot_id;
  site_id = none;
  archived = false;
  created_at = now;
  last_updated_at = now;
}

abbrev pub see_action :
    Bytes → Bytes → Bytes → Bytes → Bytes → Bytes → InstantAction → InstantAction
see_action action_type action_descriptor blocking_type action_parameters robot_id now r = record r {
  action_type = action_type;
  action_descriptor = bind_nonempty action_descriptor;
  blocking_type = blocking_type;
  action_parameters = bind_nonempty action_parameters;
  robot_id = robot_id;
  last_updated_at = now;
}

-- After upsertFromAction the action's record has the new type, descriptor and parameters (absent if
-- the text is empty), blocking type, robot and last_updated_at, and keeps its status, result and
-- the other columns; a new action starts from the column defaults; other ids are not affected.
pub find_by_id-upsert_from_action :
    (id type descriptor blocking parameters robot_id now j : Bytes) (rows : List ActionRow)
    → find_by_id j (upsert_from_action id type descriptor blocking parameters robot_id now rows) ≡ (
        if id == j
        then some (
            changed
              (see_action type descriptor blocking parameters robot_id now)
              (see_action type descriptor blocking parameters robot_id now
                (new_action id type robot_id now))
              (find_by_id j rows))
        else find_by_id j rows)
unfolding find_by_id upsert_from_action from_row default_row
find_by_id-upsert_from_action id type descriptor blocking parameters robot_id now j rows =
    read-upsert key from_row id (set_action type descriptor blocking parameters robot_id now)
      (set_action type descriptor blocking parameters robot_id now
        (default_row id type robot_id now))
      refl (λ r. refl) (see_action type descriptor blocking parameters robot_id now)
      (see_action type descriptor blocking parameters robot_id now
        (new_action id type robot_id now))
      refl (λ r e. refl) j rows

abbrev pub see_status : Bytes → Bytes → InstantAction → InstantAction
see_status action_status now r = record r { action_status = action_status; last_updated_at = now }

-- After upsertFromResponse the action's record has the new status and last_updated_at and is
-- unchanged otherwise, its robot_id included; an id that was not there gets a record of type
-- "zoneRequest" with the column defaults; other ids are not affected.
pub find_by_id-upsert_from_response :
    (id robot_id status now j : Bytes) (rows : List ActionRow)
    → find_by_id j (upsert_from_response id robot_id status now rows) ≡ (
        if id == j
        then some (
            changed
              (see_status status now)
              (see_status status now (new_action id (text "zoneRequest") robot_id now))
              (find_by_id j rows))
        else find_by_id j rows)
unfolding find_by_id upsert_from_response from_row default_row
find_by_id-upsert_from_response id robot_id status now j rows =
    read-upsert key from_row id (set_status status now)
      (set_status status now (default_row id (text "zoneRequest") robot_id now)) refl (λ r. refl)
      (see_status status now)
      (see_status status now (new_action id (text "zoneRequest") robot_id now)) refl (λ r e. refl) j
      rows
