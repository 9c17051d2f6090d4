-- ===== src/Projection/Managed.antt =====
-- What the projection never changes in a robot's record.
use syrius_orbit_daemon.Common.{
  ◌≡◌, refl, ◌∙◌, Bool, true, false, Option, some, List, [], ◌∷◌, Bytes, arith,
}
use syrius_orbit_daemon.Codec.{Codec}
use syrius_orbit_daemon.Db.Events.{Event, Table}
use syrius_orbit_daemon.Db.Robots.{Robot, find_by_id}
use syrius_orbit_daemon.Projection.{ReadModel, cycle, run}
use syrius_orbit_daemon.Projection.Touches.{touch_all-keeps}
use syrius_orbit_daemon.Projection.Robots.{
  RobotPatch, apply, robot_patches, robot_touches, robot-cycle,
}

-- The columns of management: only the API may write them.
pub record Managed : Type 0 where
  pub robot_id : Bytes
  pub manufacturer : Bytes
  pub serial_number : Bytes
  pub site_id : Option Bytes
  pub display_name : Option Bytes
  pub suspended : Bool
  pub archived : Bool
  pub created_at : Bytes

unfoldable pub managed : Robot → Managed
managed r = record {
  robot_id = r.robot_id;
  manufacturer = r.manufacturer;
  serial_number = r.serial_number;
  site_id = r.site_id;
  display_name = r.display_name;
  suspended = r.suspended;
  archived = r.archived;
  created_at = r.created_at;
}

managed-apply : (p : RobotPatch) (r : Robot) → managed (apply p r) ≡ managed r
unfolding managed
managed-apply p r = ground arith

module _ (scan : List Event → List Event) (c : Codec) (j : Bytes) where
  cycle-managed :
      (events : Table) (m : ReadModel) (r : Robot)
      → find_by_id j m.robots ≡ some r
      → (r' : Robot) × (find_by_id j (cycle scan c events m).robots ≡ some r')
        × (managed r' ≡ managed r)
  cycle-managed events m r h =
      let (r', e, k) =
        touch_all-keeps robot_patches managed (robot_touches scan c events j) r managed-apply in
      (r', robot-cycle scan c events j m ∙ rw h e, k)

  -- However often the projection runs and whatever the event logs hold, a robot that is in the read
  -- model stays there, and its identity, site_id, display_name, suspended and archived flags and
  -- created_at do not change.
  pub run-managed :
      (rounds : List (Bool × Bool × Table)) (m : ReadModel) (r : Robot)
      → find_by_id j m.robots ≡ some r
      → (r' : Robot) × (find_by_id j (run scan c rounds m).robots ≡ some r')
        × (managed r' ≡ managed r)
  unfolding run
  run-managed [] m r h = (r, h, refl)
  run-managed ((false, still, events) ∷ rounds) m r h = (r, h, refl)
  run-managed ((true, false, events) ∷ rounds) m r h = (r, h, refl)
  run-managed ((true, true, events) ∷ rounds) m r h =
      let (r', e, k) = cycle-managed events m r h in
      let (last, e', k') = run-managed rounds (cycle scan c events m) r' e in (last, e', k' ∙ k)
