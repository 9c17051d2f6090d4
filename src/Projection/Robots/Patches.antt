-- ===== src/Projection/Robots/Patches.antt =====
-- The columns of a robot that the projectors of src/projection write.
use syrius_orbit_daemon.Common.{
  ◌≡◌, ap, Bool, false, inl, inr, Option, none, some, List, [], ◌∷◌, Bytes, ◌==◌, value_or,
  if◌then◌else◌, Bool-cases, arith,
}
use syrius_orbit_daemon.Schema.Enums.{connection_state_name}
use syrius_orbit_daemon.Schema.StateEnums.{operating_mode_name}
use syrius_orbit_daemon.Schema.Messages.{Connection}
use syrius_orbit_daemon.Schema.State.{State}
use syrius_orbit_daemon.Db.Cells.{Double}
use syrius_orbit_daemon.Db.Events.{Event}
use syrius_orbit_daemon.Db.Table.Laws.{changed}
use syrius_orbit_daemon.Db.Robots.{Robot}
use syrius_orbit_daemon.Db.Robots.Laws.{new_robot}
use syrius_orbit_daemon.Projection.Touches.{later, Patches, Touch, touch_all}

pub record StateColumns : Type 0 where
  pub operating_mode : Bytes
  pub driving : Bool
  pub paused : Bool
  pub battery_level : Double
  pub charging : Bool

-- The columns that projections write, where a projection writes them.
pub record RobotPatch : Type 0 where
  pub connection : Option Bytes
  pub state : Option StateColumns
  pub factsheet : Option Bytes
  pub at : Bytes

abbrev patch_state : Option StateColumns → Robot → Robot
patch_state none r = r
patch_state (some s) r = record r {
  operating_mode = some s.operating_mode;
  driving = s.driving;
  paused = s.paused;
  battery_level = some s.battery_level;
  charging = s.charging;
}

abbrev patch_factsheet : Option Bytes → Robot → Robot
patch_factsheet none r = r
patch_factsheet (some f) r = record r { factsheet = some f }

abbrev patch_connection : Option Bytes → Robot → Robot
patch_connection none r = r
patch_connection (some s) r = record r { connection_state = s }

abbrev pub apply : RobotPatch → Robot → Robot
apply p r =
    let r' = patch_factsheet p.factsheet (patch_state p.state (patch_connection p.connection r)) in
    record r' { last_updated_at = p.at }

abbrev pub merge : RobotPatch → RobotPatch → RobotPatch
merge p q = record {
  connection = later p.connection q.connection;
  state = later p.state q.state;
  factsheet = later p.factsheet q.factsheet;
  at = q.at;
}

pub apply-merge : (p q : RobotPatch) (r : Robot) → apply (merge p q) r ≡ apply q (apply p r)
apply-merge p q r = ground arith

pub apply_idem : (p : RobotPatch) (r : Robot) → apply p (apply p r) ≡ apply p r
apply_idem p r = ground arith

abbrev pub robot_patches : Patches Robot
robot_patches = record {
  Patch = RobotPatch;
  apply = apply;
  merge = merge;
  apply-merge = apply-merge;
  apply_idem = apply_idem;
}

abbrev pub RobotTouch : Type 0
RobotTouch = Touch robot_patches

abbrev pub base : Event → Robot
base e = new_robot e.robot_id e.manufacturer e.serial_number e.received_at

-- The write that an event makes to robot `j`, if its payload parses and it is the robot's.
abbrev pub touch_if : Bytes → Event → RobotPatch → List RobotTouch
touch_if j e p = if e.robot_id == j then (p, base e) ∷ [] else []

abbrev pub connection_patch : Event → Connection → RobotPatch
connection_patch e msg = record {
  connection = some (connection_state_name msg.connection_state);
  state = none;
  factsheet = none;
  at = e.received_at;
}

abbrev pub state_patch : Event → State → RobotPatch
state_patch e msg = record {
  connection = none;
  state = some (record {
    operating_mode = operating_mode_name msg.operating_mode;
    driving = msg.driving;
    paused = value_or msg.paused false;
    battery_level = msg.power_supply.state_of_charge;
    charging = msg.power_supply.charging;
  });
  factsheet = none;
  at = e.received_at;
}

abbrev pub factsheet_patch : Event → RobotPatch
factsheet_patch e = record {
  connection = none;
  state = none;
  factsheet = some e.payload;
  at = e.received_at;
}

abbrev pub connection_touch : Bytes → Event → Option Connection → List RobotTouch
connection_touch j e none = []
connection_touch j e (some msg) = touch_if j e (connection_patch e msg)

abbrev pub state_touch : Bytes → Event → Option State → List RobotTouch
state_touch j e none = []
state_touch j e (some msg) = touch_if j e (state_patch e msg)

pub touch_if_lem :
    (j : Bytes) (e : Event) (p : RobotPatch) (see : Robot → Robot) (o : Option Robot)
    → ((r : Robot) → see r ≡ apply p r)
    → (if e.robot_id == j then some (changed see (see (base e)) o) else o)
      ≡ touch_all robot_patches (touch_if j e p) o
unfolding touch_all
touch_if_lem j e p see none h = elim (Bool-cases (e.robot_id == j)) [
  | inl same ↦ rw same (ap some (h (base e)))
  | inr other ↦ rw other
]
touch_if_lem j e p see (some r) h = elim (Bool-cases (e.robot_id == j)) [
  | inl same ↦ rw same (ap some (h r))
  | inr other ↦ rw other
]
