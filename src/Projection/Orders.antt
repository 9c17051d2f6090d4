-- ===== src/Projection/Orders.antt =====
-- What a projection cycle does to one order's record.
pub mod Fresh
use syrius_orbit_daemon.Common.{
  ◌≡◌, refl, ap, ◌∙◌, sym, inl, inr, Option, none, some, List, [], ◌∷◌, Bytes, text, ◌==◌, value_or,
  if◌then◌else◌, Bool-cases,
}
use syrius_orbit_daemon.Codec.{Codec}
use syrius_orbit_daemon.Db.Cells.{Int64}
use syrius_orbit_daemon.Db.Events.{Event, Table, find_latest_by_topic}
use syrius_orbit_daemon.Db.Table.Laws.{changed}
use syrius_orbit_daemon.Db.Orders.{OrderRow, find_by_id}
use syrius_orbit_daemon.Db.Orders as Db_orders
use syrius_orbit_daemon.Db.Orders.Laws.{see_order, new_order, find_by_id-upsert_from_order}
use syrius_orbit_daemon.Schema.Order as Schema_order
use syrius_orbit_daemon.Projection.{
  ReadModel, write_order, project_order, project_factsheet, project_state, project_connection,
  project_or_skip, cycle,
}
use syrius_orbit_daemon.Projection.Touches.{
  later, Patches, Touch, touch_all, gather, fold-touch_all, touch_all_idem,
}
use syrius_orbit_daemon.Projection.Frames.{phase, orders-cycle, orders-before}

-- The columns that an order event writes.
pub record OrderPatch : Type 0 where
  pub robot_id : Bytes
  pub order_update_id : Int64
  pub order_description : Bytes
  pub nodes : Bytes
  pub edges : Bytes
  pub at : Bytes

abbrev pub apply : OrderPatch → Db_orders.Order → Db_orders.Order
apply p r = see_order p.robot_id p.order_update_id p.order_description p.nodes p.edges p.at r

-- A later patch replaces an earlier one.
abbrev pub order_patches : Patches Db_orders.Order
order_patches = record {
  Patch = OrderPatch;
  apply = apply;
  merge = λ p q. q;
  apply-merge = λ p q r. refl;
  apply_idem = λ p r. refl;
}

abbrev pub order_patch : Codec → Event → Schema_order.Order → OrderPatch
order_patch c e msg = record {
  robot_id = e.robot_id;
  order_update_id = msg.order_update_id;
  order_description = value_or msg.order_description (text "");
  nodes = c.dump_nodes msg.nodes;
  edges = c.dump_edges msg.edges;
  at = e.received_at;
}

-- The record that a first order event creates.
abbrev pub created : Codec → Event → Schema_order.Order → Db_orders.Order
created c e msg =
    new_order msg.order_id e.robot_id msg.order_update_id (value_or msg.order_description (text ""))
      (c.dump_nodes msg.nodes) (c.dump_edges msg.edges) e.received_at

abbrev pub order_touch :
    Codec → Bytes → Event → Option Schema_order.Order → List (Touch order_patches)
order_touch c j e none = []
order_touch c j e (some msg) =
    if msg.order_id == j then (order_patch c e msg, created c e msg) ∷ [] else []

changed-touch :
    (c : Codec) (j : Bytes) (e : Event) (msg : Schema_order.Order) (o : Option Db_orders.Order)
    → (if msg.order_id == j
        then some (changed (apply (order_patch c e msg)) (created c e msg) o)
        else o)
      ≡ touch_all order_patches (order_touch c j e (some msg)) o
unfolding touch_all
changed-touch c j e msg none = elim (Bool-cases (msg.order_id == j)) [
  | inl same ↦ rw same
  | inr other ↦ rw other
]
changed-touch c j e msg (some r) = elim (Bool-cases (msg.order_id == j)) [
  | inl same ↦ rw same
  | inr other ↦ rw other
]

order-touch :
    (c : Codec) (j : Bytes) (e : Event) (o : Option Schema_order.Order) (m : ReadModel)
    → find_by_id j (value_or (write_order c e o m) m).orders
      ≡ touch_all order_patches (order_touch c j e o) (find_by_id j m.orders)
unfolding write_order
order-touch c j e none m = unfold touch_all in refl
order-touch c j e (some msg) m =
    find_by_id-upsert_from_order msg.order_id e.robot_id msg.order_update_id
      (value_or msg.order_description (text "")) (c.dump_nodes msg.nodes) (c.dump_edges msg.edges)
      e.received_at j m.orders
    ∙ changed-touch c j e msg (find_by_id j m.orders)

module _ (scan : List Event → List Event) (c : Codec) (events : Table) (j : Bytes) where
  abbrev pub order_touches : List (Touch order_patches)
  order_touches =
      gather (λ e. order_touch c j e (c.parse_order e.payload))
        (find_latest_by_topic scan (text "order") events)

  -- After a projection cycle, an order's record is the one before, or else a new one, with the
  -- columns of the latest parsable order events that carry its id; an order without such an event
  -- is unchanged.
  pub order-cycle :
      (m : ReadModel)
      → find_by_id j (cycle scan c events m).orders
        ≡ touch_all order_patches order_touches (find_by_id j m.orders)
  order-cycle m =
      let before = phase scan c events m project_factsheet (text "factsheet") (
        phase scan c events m (project_state c) (text "state")
          (phase scan c events m (project_connection c) (text "connection") m)) in
      ap (find_by_id j) (orders-cycle scan c events m)
      ∙ fold-touch_all order_patches (λ m. find_by_id j m.orders)
          (project_or_skip (project_order c)) (λ e. order_touch c j e (c.parse_order e.payload))
          (find_latest_by_topic scan (text "order") events) before
          (λ m e.
            unfold project_or_skip project_order in order-touch c j e (c.parse_order e.payload) m)
      ∙ ap (λ (o : List OrderRow). touch_all order_patches order_touches (find_by_id j o))
          (orders-before scan c events m)

  -- Running the same cycle again leaves every order's record as the first run left it.
  pub order-cycle_idem :
      (m : ReadModel)
      → find_by_id j (cycle scan c events (cycle scan c events m)).orders
        ≡ find_by_id j (cycle scan c events m).orders
  order-cycle_idem m =
      order-cycle (cycle scan c events m)
      ∙ ap (touch_all order_patches order_touches) (order-cycle m)
      ∙ touch_all_idem order_patches order_touches (find_by_id j m.orders)
      ∙ sym (order-cycle m)
