-- ===== src/Projection/Twice.antt =====
-- A cycle on a log that has not changed.
use syrius_orbit_daemon.Common.{◌≡◌, List, Bytes}
use syrius_orbit_daemon.Codec.{Codec}
use syrius_orbit_daemon.Db.Events.{Event, Table}
use syrius_orbit_daemon.Db.Robots
use syrius_orbit_daemon.Db.Orders
use syrius_orbit_daemon.Db.Actions
use syrius_orbit_daemon.Projection.{ReadModel, cycle}
use syrius_orbit_daemon.Projection.Robots.{robot-cycle_idem}
use syrius_orbit_daemon.Projection.Orders.{order-cycle_idem}
use syrius_orbit_daemon.Projection.Actions.{action-cycle_idem}

-- Running the same cycle again leaves every robot's, order's and instant action's record as the first
-- run left it, whatever the payloads and whatever the read model held before.
pub cycle_idem :
    (scan : List Event → List Event) (c : Codec) (t : Table) (j : Bytes) (m : ReadModel)
    → let once = cycle scan c t m in
      let twice = cycle scan c t once in
      (Robots.find_by_id j twice.robots ≡ Robots.find_by_id j once.robots)
      × (Orders.find_by_id j twice.orders ≡ Orders.find_by_id j once.orders)
      × (Actions.find_by_id j twice.actions ≡ Actions.find_by_id j once.actions)
cycle_idem scan c t j m =
    (robot-cycle_idem scan c t j m, order-cycle_idem scan c t j m, action-cycle_idem scan c t j m)
