-- ===== src/Db/Orders/Laws.antt =====
-- What OrdersRepository promises: the table is a map from order_id to Order.
use syrius_orbit_daemon.Common.{
  ◌≡◌, refl, false, some, List, [], Bytes, text, text_eq, ◌==◌, if◌then◌else◌, arith,
}
use syrius_orbit_daemon.Db.Cells.{Int64, bind_nonempty}
use syrius_orbit_daemon.Db.Table.Laws.{changed, read-upsert}
use syrius_orbit_daemon.Db.Orders.{
  Order, OrderRow, key, from_row, find_by_id, bind_order, overwrite, upsert, set_order, order_row,
  upsert_from_order,
}

from_row-bind_order : (order : Order) → from_row (bind_order order) ≡ order
unfolding from_row bind_order
from_row-bind_order order = ground arith

-- After `upsert`, `find_by_id` returns for the order's id the order that was written, with the
-- created_at of the record that was there before, if there was one; other ids are not affected.
pub find_order-upsert :
    (order : Order) (j : Bytes) (rows : List OrderRow)
    → find_by_id j (upsert order rows) ≡ (
        if order.order_id == j
        then some (
            changed (λ old. record order { created_at = old.created_at }) order (find_by_id j rows))
        else find_by_id j rows)
unfolding find_by_id upsert from_row
find_order-upsert order j rows =
    read-upsert key from_row order.order_id (overwrite (bind_order order)) (bind_order order) refl
      (λ r. refl) (λ old. record order { created_at = old.created_at }) order
      (from_row-bind_order order) (λ r e. ground arith) j rows

abbrev pub see_order : Bytes → Int64 → Bytes → Bytes → Bytes → Bytes → Order → Order
see_order robot_id order_update_id order_description nodes edges now r = record r {
  order_update_id = order_update_id;
  order_description = bind_nonempty order_description;
  assigned_robot_id = robot_id;
  nodes = nodes;
  edges = edges;
  last_updated_at = now;
}

-- An order that its first event creates.
abbrev pub new_order : Bytes → Bytes → Int64 → Bytes → Bytes → Bytes → Bytes → Order
new_order order_id robot_id order_update_id order_description nodes edges now = record {
  order_id = order_id;
  order_update_id = order_update_id;
  order_description = bind_nonempty order_description;
  status = text "QUEUED";
  assigned_robot_id = robot_id;
  site_id = [];
  nodes = nodes;
  edges = edges;
  archived = false;
  created_at = now;
  last_updated_at = now;
}

-- After upsertFromOrder the order's record has the new update id, description (absent if the text
-- is empty), robot, nodes, edges and last_updated_at, and keeps its status, site_id, archived flag
-- and created_at; a new order is QUEUED, not archived, with an empty site_id; other ids are not
-- affected.
pub find_by_id-upsert_from_order :
    (order_id robot_id : Bytes) (update_id : Int64) (description nodes edges now j : Bytes)
    (rows : List OrderRow)
    → find_by_id j (upsert_from_order order_id robot_id update_id description nodes edges now rows)
      ≡ (if order_id == j
          then some (
              changed
                (see_order robot_id update_id description nodes edges now)
                (new_order order_id robot_id update_id description nodes edges now)
                (find_by_id j rows))
          else find_by_id j rows)
unfolding find_by_id upsert_from_order from_row order_row
find_by_id-upsert_from_order order_id robot_id update_id description nodes edges now j rows =
    read-upsert key from_row order_id (set_order robot_id update_id description nodes edges now)
      (order_row order_id robot_id update_id description nodes edges now) refl (λ r. refl)
      (see_order robot_id update_id description nodes edges now)
      (new_order order_id robot_id update_id description nodes edges now) refl (λ r e. refl) j rows
