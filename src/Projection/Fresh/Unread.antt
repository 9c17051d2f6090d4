-- ===== src/Projection/Fresh/Unread.antt =====
-- A payload that does not parse: what a cycle still brings up to date, and what it leaves.
use syrius_orbit_daemon.Common.{◌≡◌, refl, sym, ap, ◌∙◌, none, some, List, text, arith}
use syrius_orbit_daemon.Codec.{Codec}
use syrius_orbit_daemon.Schema.Enums.{connection_state_name}
use syrius_orbit_daemon.Schema.Messages.{Connection}
use syrius_orbit_daemon.Db.Events.{Event, Table, find_latest_by_topic}
use syrius_orbit_daemon.Db.Events.Log.{IsLog}
use syrius_orbit_daemon.Db.Events.Exact.{IsScan, IsLatest}
use syrius_orbit_daemon.Db.Robots.{Robot, find_by_id}
use syrius_orbit_daemon.Projection.{ReadModel, cycle}
use syrius_orbit_daemon.Projection.Touches.Views.{Shows, Shows-keep, gather-Keeps}
use syrius_orbit_daemon.Projection.Robots.{
  robot_patches, connection_touch, state_touch, connection_touches, state_touches,
}
use syrius_orbit_daemon.Projection.Fresh.{IsSnapshotLog, only_one}
use syrius_orbit_daemon.Projection.Fresh.Columns.{
  connection_touch-Keeps, state_touch-Keeps, state_view, after_connections, Shows-states,
  connection_state_current,
}

module _ (scan : List Event → List Event) (c : Codec) (t : Table) (m : ReadModel) (e : Event)
    (s : IsScan scan) (log : IsLog t) where
  unread-Shows :
      (r : Robot)
      → IsSnapshotLog (text "state") t
      → IsLatest (text "state") t.rows e
      → c.parse_state e.payload ≡ none
      → find_by_id e.robot_id m.robots ≡ some r
      → Shows robot_patches state_view
          (state_view r)
          (find_by_id e.robot_id (cycle scan c t m).robots)
  unread-Shows r snapshots latest unread there =
      let j = e.robot_id in
      let v = state_view r in
      let connections =
        gather-Keeps robot_patches state_view v
          (λ (x : Event). connection_touch j x (c.parse_connection x.payload))
          (find_latest_by_topic scan (text "connection") t)
          (λ x _.
            connection_touch-Keeps state_view v j x (c.parse_connection x.payload)
              (λ msg _ _ r k. k)) in
      let states =
        gather-Keeps robot_patches state_view v
          (λ (x : Event). state_touch j x (c.parse_state x.payload))
          (find_latest_by_topic scan (text "state") t)
          (λ x i. state_touch-Keeps state_view v j x (c.parse_state x.payload) (λ msg p same r k.
            let q = only_one scan (text "state") t e x s log snapshots latest i same in
            absurd (cc (ap (λ (x : Event). c.parse_state x.payload) q, p, unread)))) in
      Shows-states scan c t m j state_view v (λ p r _ n. ground arith)
        (Shows-keep robot_patches state_view v (state_touches scan c t j)
          (after_connections scan c t m j state_view v) states
          (Shows-keep robot_patches state_view v (connection_touches scan c t j)
            (find_by_id j m.robots) connections (r, there, refl)))

  -- A robot in the read model whose state event with the largest id does not parse keeps the columns
  -- of the state message that it had, while its connection_state becomes that of its connection
  -- event with the largest id, if that parses: on every log in which the connection and state
  -- events of a robot have its robot_id as their item_id.
  pub unread_state_kept :
      (r : Robot) (ce : Event) (msg : Connection)
      → IsSnapshotLog (text "state") t
      → IsLatest (text "state") t.rows e
      → c.parse_state e.payload ≡ none
      → find_by_id e.robot_id m.robots ≡ some r
      → IsSnapshotLog (text "connection") t
      → IsLatest (text "connection") t.rows ce
      → c.parse_connection ce.payload ≡ some msg
      → ce.robot_id ≡ e.robot_id
      → (r' : Robot) × (find_by_id e.robot_id (cycle scan c t m).robots ≡ some r')
        × (state_view r' ≡ state_view r)
        × (r'.connection_state ≡ connection_state_name msg.connection_state)
  unread_state_kept r ce msg snapshots latest unread there connections newest parsed same =
      let (r', found, kept) = unread-Shows r snapshots latest unread there in
      let (r2, found2, fresh) =
        connection_state_current scan c t m ce s log msg connections newest parsed in
      let z : r2 ≡ r' = cc (ap (λ j. find_by_id j (cycle scan c t m).robots) same, found, found2) in
      (r', found, kept, ap (λ (r : Robot). r.connection_state) (sym z) ∙ fresh)
