-- ===== src/Projection/Fresh.antt =====
-- How current the columns of a robot's record are after a projection cycle.
pub mod Columns
pub mod Unread
use syrius_orbit_daemon.Common.{
  ◌≡◌, refl, ap, ◌∙◌, sym, Bool, true, false, inl, inr, Option, none, some, List, [], ◌∷◌, ◌++◌,
  Bytes, text, ◌==◌, ==_iff, if◌then◌else◌, In, value_or, Bool-cases, arith,
}
use syrius_orbit_daemon.Codec.{Codec}
use syrius_orbit_daemon.Schema.Enums.{connection_state_name}
use syrius_orbit_daemon.Schema.StateEnums.{operating_mode_name}
use syrius_orbit_daemon.Schema.Messages.{Connection}
use syrius_orbit_daemon.Schema.State.{State}
use syrius_orbit_daemon.Db.Cells.{Double}
use syrius_orbit_daemon.Db.Events.{Event, Table, find_latest_by_topic}
use syrius_orbit_daemon.Db.Events.Log.{IsLog}
use syrius_orbit_daemon.Db.Events.Exact.{
  IsScan, IsLatest, find_latest_by_topic_iff, find_latest_by_topic_unique,
}
use syrius_orbit_daemon.Db.Robots.{Robot, find_by_id}
use syrius_orbit_daemon.Projection.{ReadModel, cycle}
use syrius_orbit_daemon.Projection.Touches.{touch_all, touch_all-append, gather}
use syrius_orbit_daemon.Projection.Touches.Views.{Keeps, Shows}
use syrius_orbit_daemon.Projection.Robots.{
  RobotPatch, RobotTouch, apply, robot_patches, robot-cycle, touch_if, connection_touch,
  state_touch, factsheet_patch, connection_touches, state_touches, factsheet_touches,
}

-- The robots' snapshots go under the robot's id.
abbrev pub IsSnapshotLog : Bytes → Table → Type 0
IsSnapshotLog topic t = (x : Event) → In x t.rows → x.topic ≡ topic → x.item_id ≡ x.robot_id

-- A view of a robot's record, and the value that it should have.
module _ {B : Type 0} (view : Robot → B) (v : B) where
  touch_if-Keeps :
      (j : Bytes) (e : Event) (p : RobotPatch)
      → (e.robot_id ≡ j → (r : Robot) → view r ≡ v → view (apply p r) ≡ v)
      → Keeps robot_patches view v (touch_if j e p)
  touch_if-Keeps j e p h = elim (Bool-cases (e.robot_id == j)) [
    | inl same ↦ rw same (h ((==_iff e.robot_id j).0 same), tt)
    | inr other ↦ rw other tt
  ]

  touch_if-Shows :
      (e : Event) (p : RobotPatch) (o : Option Robot)
      → ((r : Robot) → view (apply p r) ≡ v)
      → Shows robot_patches view v (touch_all robot_patches (touch_if e.robot_id e p) o)
  unfolding touch_all
  touch_if-Shows e p o h = rw ((==_iff e.robot_id e.robot_id).1 refl) (_, refl, h _)

-- In a snapshot topic the robot has one event among the latest.
only_one :
    (scan : List Event → List Event) (topic : Bytes) (t : Table) (e x : Event)
    → IsScan scan
    → IsLog t
    → IsSnapshotLog topic t
    → IsLatest topic t.rows e
    → In x (find_latest_by_topic scan topic t)
    → x.robot_id ≡ e.robot_id
    → x ≡ e
only_one scan topic t e x s log snapshots latest i same =
    let l = (find_latest_by_topic_iff scan topic t x s log).0 i in
    find_latest_by_topic_unique scan topic t x e s log i
      ((find_latest_by_topic_iff scan topic t e s log).1 latest)
      (snapshots x l.logged l.of_topic ∙ same ∙ sym (snapshots e latest.logged latest.of_topic))
