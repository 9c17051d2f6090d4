-- ===== src/Projection/Fresh/Columns.antt =====
-- Each group of columns against the latest event of its topic.
use syrius_orbit_daemon.Common.{
  ◌≡◌, refl, ap, ◌∙◌, Bool, false, Option, none, some, List, ◌++◌, Bytes, text, value_or, arith,
}
use syrius_orbit_daemon.Codec.{Codec}
use syrius_orbit_daemon.Schema.Enums.{connection_state_name}
use syrius_orbit_daemon.Schema.StateEnums.{operating_mode_name}
use syrius_orbit_daemon.Schema.Messages.{Connection}
use syrius_orbit_daemon.Schema.State.{State}
use syrius_orbit_daemon.Db.Cells.{Double}
use syrius_orbit_daemon.Db.Events.{Event, Table, find_latest_by_topic}
use syrius_orbit_daemon.Db.Events.Log.{IsLog}
use syrius_orbit_daemon.Db.Events.Exact.{IsScan, IsLatest, find_latest_by_topic_iff}
use syrius_orbit_daemon.Db.Robots.{Robot, find_by_id}
use syrius_orbit_daemon.Projection.{ReadModel, cycle}
use syrius_orbit_daemon.Projection.Touches.{touch_all, touch_all-append}
use syrius_orbit_daemon.Projection.Robots.{
  RobotPatch, apply, robot_patches, robot-cycle, touch_if, connection_touch, state_touch,
  connection_patch, state_patch, factsheet_patch, connection_touches, state_touches,
  factsheet_touches,
}
use syrius_orbit_daemon.Projection.Fresh.{IsSnapshotLog, touch_if-Keeps, touch_if-Shows, only_one}
use syrius_orbit_daemon.Projection.Touches.Views.{
  Keeps, Shows, Shows-keep, gather-Keeps, gather-Shows,
}

-- A connection event writes no other view than its own.
pub connection_touch-Keeps :
    {B : Type 0} (view : Robot → B) (v : B) (j : Bytes) (e : Event) (o : Option Connection)
    → ((msg : Connection)
        → o ≡ some msg
        → e.robot_id ≡ j
        → (r : Robot) → view r ≡ v
        → view (apply (connection_patch e msg) r) ≡ v)
    → Keeps robot_patches view v (connection_touch j e o)
connection_touch-Keeps view v j e none h = tt
connection_touch-Keeps view v j e (some msg) h =
    touch_if-Keeps view v j e (connection_patch e msg) (h msg refl)

pub state_touch-Keeps :
    {B : Type 0} (view : Robot → B) (v : B) (j : Bytes) (e : Event) (o : Option State)
    → ((msg : State)
        → o ≡ some msg
        → e.robot_id ≡ j
        → (r : Robot) → view r ≡ v
        → view (apply (state_patch e msg) r) ≡ v)
    → Keeps robot_patches view v (state_touch j e o)
state_touch-Keeps view v j e none h = tt
state_touch-Keeps view v j e (some msg) h =
    touch_if-Keeps view v j e (state_patch e msg) (h msg refl)

-- The columns that a state message sets.
abbrev pub state_view : Robot → Option Bytes × Bool × Bool × Option Double × Bool
state_view r = (r.operating_mode, r.driving, r.paused, r.battery_level, r.charging)

abbrev pub reported : State → Option Bytes × Bool × Bool × Option Double × Bool
reported msg = (
  some (operating_mode_name msg.operating_mode),
  msg.driving,
  value_or msg.paused false,
  some msg.power_supply.state_of_charge,
  msg.power_supply.charging,
)

-- A cycle shows what its last two or its last phase brings about.
module _ (scan : List Event → List Event) (c : Codec) (t : Table) (m : ReadModel) (j : Bytes)
    {B : Type 0} (view : Robot → B) (v : B) where
  abbrev pub after_connections : Option Robot
  after_connections =
      touch_all robot_patches (connection_touches scan c t j) (find_by_id j m.robots)

  abbrev pub after_states : Option Robot
  after_states = touch_all robot_patches (state_touches scan c t j) after_connections

  pub Shows-factsheets :
      Shows robot_patches view v
        (touch_all robot_patches (factsheet_touches scan c t j) after_states)
      → Shows robot_patches view v (find_by_id j (cycle scan c t m).robots)
  Shows-factsheets h = rw (robot-cycle scan c t j m) (
      rw
        (touch_all-append robot_patches (connection_touches scan c t j)
          (state_touches scan c t j ++ factsheet_touches scan c t j) (find_by_id j m.robots))
        (rw
          (touch_all-append robot_patches (state_touches scan c t j) (factsheet_touches scan c t j)
            after_connections)
          h))

  pub Shows-states :
      ((p : RobotPatch) (r : Robot)
        → p.connection ≡ none
        → p.state ≡ none
        → view (apply p r) ≡ view r)
      → Shows robot_patches view v after_states
      → Shows robot_patches view v (find_by_id j (cycle scan c t m).robots)
  Shows-states blind h = Shows-factsheets (
      Shows-keep robot_patches view v (factsheet_touches scan c t j) after_states
        (gather-Keeps robot_patches view v (λ x. touch_if j x (factsheet_patch x))
          (find_latest_by_topic scan (text "factsheet") t)
          (λ x _.
            touch_if-Keeps view v j x (factsheet_patch x)
              (λ _ r k. blind (factsheet_patch x) r refl refl ∙ k)))
        h)

  pub Shows-connections :
      ((p : RobotPatch) (r : Robot) → p.connection ≡ none → view (apply p r) ≡ view r)
      → Shows robot_patches view v after_connections
      → Shows robot_patches view v (find_by_id j (cycle scan c t m).robots)
  Shows-connections blind h =
      Shows-states (λ p r n _. blind p r n)
        (Shows-keep robot_patches view v (state_touches scan c t j) after_connections
          (gather-Keeps robot_patches view v (λ x. state_touch j x (c.parse_state x.payload))
            (find_latest_by_topic scan (text "state") t)
            (λ x _.
              state_touch-Keeps view v j x (c.parse_state x.payload)
                (λ msg _ _ r k. blind (state_patch x msg) r refl ∙ k)))
          h)

module _ (scan : List Event → List Event) (c : Codec) (t : Table) (m : ReadModel) (e : Event)
    (s : IsScan scan) (log : IsLog t) where
  -- After a projection cycle the connection_state of a robot is that of its connection event with
  -- the largest id, if that event's payload parses: on every log in which the connection events
  -- of a robot have its robot_id as their item_id, whatever the read model held before and
  -- whatever other events there are.
  pub connection_state_current :
      (msg : Connection)
      → IsSnapshotLog (text "connection") t
      → IsLatest (text "connection") t.rows e
      → c.parse_connection e.payload ≡ some msg
      → (r : Robot) × (find_by_id e.robot_id (cycle scan c t m).robots ≡ some r)
        × (r.connection_state ≡ connection_state_name msg.connection_state)
  connection_state_current msg snapshots latest parsed =
      let j = e.robot_id in
      let events = find_latest_by_topic scan (text "connection") t in
      let view = λ (r : Robot). r.connection_state in
      let v = connection_state_name msg.connection_state in
      let found = (find_latest_by_topic_iff scan (text "connection") t e s log).1 latest in
      let writes = λ (x : Event). connection_touch j x (c.parse_connection x.payload) in
      let first =
        gather-Shows robot_patches view v writes e events (find_by_id j m.robots)
          (λ o. rw parsed (touch_if-Shows view v e (connection_patch e msg) o (λ r. refl)))
          (λ x i.
            connection_touch-Keeps view v j x (c.parse_connection x.payload) (λ other p same r _.
              let q = only_one scan (text "connection") t e x s log snapshots latest i same in
              cc (ap (λ (x : Event). c.parse_connection x.payload) q, p, parsed)))
          found in
      Shows-connections scan c t m j view v (λ p r n. ground arith) first

  -- After a projection cycle the operating mode, driving, paused, battery level and charging columns
  -- of a robot are those of its state event with the largest id, if that event's payload parses,
  -- where `paused` counts as false if the message lacks it: on every log in which the state events
  -- of a robot have its robot_id as their item_id, whatever the read model held before.
  pub state_current :
      (msg : State)
      → IsSnapshotLog (text "state") t
      → IsLatest (text "state") t.rows e
      → c.parse_state e.payload ≡ some msg
      → (r : Robot) × (find_by_id e.robot_id (cycle scan c t m).robots ≡ some r)
        × (state_view r ≡ reported msg)
  state_current msg snapshots latest parsed =
      let j = e.robot_id in
      let events = find_latest_by_topic scan (text "state") t in
      let v = reported msg in
      let found = (find_latest_by_topic_iff scan (text "state") t e s log).1 latest in
      let writes = λ (x : Event). state_touch j x (c.parse_state x.payload) in
      let first =
        gather-Shows robot_patches state_view v writes e events
          (after_connections scan c t m j state_view v)
          (λ o. rw parsed (touch_if-Shows state_view v e (state_patch e msg) o (λ r. refl)))
          (λ x i. state_touch-Keeps state_view v j x (c.parse_state x.payload) (λ other p same r _.
            let q = only_one scan (text "state") t e x s log snapshots latest i same in
            let z : other ≡ msg = cc (ap (λ (x : Event). c.parse_state x.payload) q, p, parsed) in
            ap reported z))
          found in
      Shows-states scan c t m j state_view v (λ p r _ n. ground arith) first

  -- A robot whose latest factsheet event is in the log has that event's time as last_updated_at
  -- after a cycle, also where its connection and state events came later: on every log in which
  -- the factsheet events of a robot have its robot_id as their item_id.
  pub last_updated_of_factsheet :
      IsSnapshotLog (text "factsheet") t
      → IsLatest (text "factsheet") t.rows e
      → (r : Robot) × (find_by_id e.robot_id (cycle scan c t m).robots ≡ some r)
        × (r.last_updated_at ≡ e.received_at)
  last_updated_of_factsheet snapshots latest =
      let j = e.robot_id in
      let view = λ (r : Robot). r.last_updated_at in
      let events = find_latest_by_topic scan (text "factsheet") t in
      let found = (find_latest_by_topic_iff scan (text "factsheet") t e s log).1 latest in
      Shows-factsheets scan c t m j view e.received_at (
        gather-Shows robot_patches view e.received_at (λ x. touch_if j x (factsheet_patch x)) e
          events (after_states scan c t m j view e.received_at)
          (λ o. touch_if-Shows view e.received_at e (factsheet_patch e) o (λ r. refl))
          (λ x i. touch_if-Keeps view e.received_at j x (factsheet_patch x) (λ same r _.
            ap (λ (x : Event). x.received_at)
              (only_one scan (text "factsheet") t e x s log snapshots latest i same)))
          found)
