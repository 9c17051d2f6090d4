-- ===== src/Projection/Orders/Fresh.antt =====
-- How current an order's record is after a projection cycle.
use syrius_orbit_daemon.Common.{
  ◌≡◌, refl, ap, ◌∙◌, sym, inl, inr, Option, none, some, List, Bytes, text, ◌==◌, ==_iff, value_or,
  Bool-cases, In,
}
use syrius_orbit_daemon.Codec.{Codec}
use syrius_orbit_daemon.Db.Cells.{Int64, bind_nonempty}
use syrius_orbit_daemon.Db.Events.{Event, Table, find_latest_by_topic}
use syrius_orbit_daemon.Db.Events.Log.{IsLog}
use syrius_orbit_daemon.Db.Events.Exact.{
  IsScan, IsLatest, find_latest_by_topic_iff, find_latest_by_topic_unique,
}
use syrius_orbit_daemon.Db.Orders.{find_by_id}
use syrius_orbit_daemon.Db.Orders as Db_orders
use syrius_orbit_daemon.Schema.Order as Schema_order
use syrius_orbit_daemon.Projection.{ReadModel, cycle}
use syrius_orbit_daemon.Projection.Touches.{touch_all}
use syrius_orbit_daemon.Projection.Touches.Views.{Keeps, Shows, gather-Shows}
use syrius_orbit_daemon.Projection.Orders.{order_patches, order_touch, order-cycle}

-- Order events carry an order with the id that is their item, where they parse.
abbrev pub IsOrderEvent : Codec → Event → Type 0
IsOrderEvent c e =
    (msg : Schema_order.Order)
    → e.topic ≡ text "order"
    → c.parse_order e.payload ≡ some msg
    → msg.order_id ≡ e.item_id

abbrev pub IsOrderLog : Codec → Table → Type 0
IsOrderLog c t = (x : Event) → In x t.rows → IsOrderEvent c x

-- The columns that an order event sets.
abbrev pub order_view : Db_orders.Order → Bytes × Int64 × Option Bytes × Bytes × Bytes × Bytes
order_view r = (
  r.assigned_robot_id, r.order_update_id, r.order_description, r.nodes, r.edges, r.last_updated_at,
)

abbrev pub ordered :
    Codec → Event → Schema_order.Order → Bytes × Int64 × Option Bytes × Bytes × Bytes × Bytes
ordered c e msg = (
  e.robot_id,
  msg.order_update_id,
  bind_nonempty (value_or msg.order_description (text "")),
  c.dump_nodes msg.nodes,
  c.dump_edges msg.edges,
  e.received_at,
)

module _ (scan : List Event → List Event) (c : Codec) (t : Table) (m : ReadModel) (e : Event)
    (s : IsScan scan) (log : IsLog t) where
  order_touch-Shows :
      (j : Bytes) (msg : Schema_order.Order) (o : Option Db_orders.Order)
      → msg.order_id ≡ j
      → Shows order_patches order_view
          (ordered c e msg)
          (touch_all order_patches (order_touch c j e (some msg)) o)
  unfolding touch_all
  order_touch-Shows j msg o own = rw ((==_iff msg.order_id j).1 own) (_, refl, refl)

  order_touch-Keeps :
      (j : Bytes) (v : Bytes × Int64 × Option Bytes × Bytes × Bytes × Bytes) (x : Event)
      (o : Option Schema_order.Order)
      → ((other : Schema_order.Order) → o ≡ some other → other.order_id ≡ j → ordered c x other ≡ v)
      → Keeps order_patches order_view v (order_touch c j x o)
  order_touch-Keeps j v x none h = tt
  order_touch-Keeps j v x (some other) h = elim (Bool-cases (other.order_id == j)) [
    | inl same ↦ rw same ((λ r k. h other refl ((==_iff other.order_id j).0 same)), tt)
    | inr different ↦ rw different tt
  ]

  -- After a projection cycle the record of an order has the robot, update id, description, nodes,
  -- edges and time of its order event with the largest id, if that event's payload parses: on every
  -- log in which an order event that parses has the order's id as its item_id, whatever the read
  -- model held before and whatever other events there are.
  pub order_current :
      (msg : Schema_order.Order)
      → IsOrderLog c t
      → IsLatest (text "order") t.rows e
      → c.parse_order e.payload ≡ some msg
      → (r : Db_orders.Order) × (find_by_id e.item_id (cycle scan c t m).orders ≡ some r)
        × (order_view r ≡ ordered c e msg)
  order_current msg orders latest parsed =
      let j = e.item_id in
      let v = ordered c e msg in
      let own = orders e latest.logged msg latest.of_topic parsed in
      let found = (find_latest_by_topic_iff scan (text "order") t e s log).1 latest in
      rw (order-cycle scan c t j m) (
        gather-Shows order_patches order_view v
          (λ (x : Event). order_touch c j x (c.parse_order x.payload)) e
          (find_latest_by_topic scan (text "order") t) (find_by_id j m.orders)
          (λ o. rw parsed (order_touch-Shows j msg o own))
          (λ x i. order_touch-Keeps j v x (c.parse_order x.payload) (λ other p same.
            let l = (find_latest_by_topic_iff scan (text "order") t x s log).0 i in
            let mine = orders x l.logged other l.of_topic p in
            let q =
              find_latest_by_topic_unique scan (text "order") t x e s log i found
                (sym mine ∙ same) in
            let z : other ≡ msg = cc (ap (λ (x : Event). c.parse_order x.payload) q, p, parsed) in
            ap (λ (x : Event). ordered c x other) q ∙ ap (ordered c e) z))
          found)
