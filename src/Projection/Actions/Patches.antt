-- ===== src/Projection/Actions/Patches.antt =====
-- The columns of an instant action that the projectors of src/projection write.
use syrius_orbit_daemon.Common.{◌≡◌, Option, none, some, Bytes, arith}
use syrius_orbit_daemon.Db.Cells.{bind_nonempty}
use syrius_orbit_daemon.Db.Actions.{InstantAction}
use syrius_orbit_daemon.Projection.Touches.{later, Patches, Touch}

-- The columns of an instant action message.
pub record ActionColumns : Type 0 where
  pub action_type : Bytes
  pub action_descriptor : Bytes
  pub blocking_type : Bytes
  pub action_parameters : Bytes
  pub robot_id : Bytes

pub record ActionPatch : Type 0 where
  pub action : Option ActionColumns
  pub status : Option Bytes
  pub at : Bytes

abbrev patch_action : Option ActionColumns → InstantAction → InstantAction
patch_action none r = r
patch_action (some a) r = record r {
  action_type = a.action_type;
  action_descriptor = bind_nonempty a.action_descriptor;
  blocking_type = a.blocking_type;
  action_parameters = bind_nonempty a.action_parameters;
  robot_id = a.robot_id;
}

abbrev patch_status : Option Bytes → InstantAction → InstantAction
patch_status none r = r
patch_status (some s) r = record r { action_status = s }

abbrev pub apply : ActionPatch → InstantAction → InstantAction
apply p r =
    let r' = patch_status p.status (patch_action p.action r) in record r' { last_updated_at = p.at }

abbrev pub merge : ActionPatch → ActionPatch → ActionPatch
merge p q = record { action = later p.action q.action; status = later p.status q.status; at = q.at }

pub apply-merge :
    (p q : ActionPatch) (r : InstantAction) → apply (merge p q) r ≡ apply q (apply p r)
apply-merge p q r = ground arith

pub apply_idem : (p : ActionPatch) (r : InstantAction) → apply p (apply p r) ≡ apply p r
apply_idem p r = ground arith

abbrev pub action_patches : Patches InstantAction
action_patches = record {
  Patch = ActionPatch;
  apply = apply;
  merge = merge;
  apply-merge = apply-merge;
  apply_idem = apply_idem;
}

abbrev pub ActionTouch : Type 0
ActionTouch = Touch action_patches
