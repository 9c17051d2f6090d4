-- ===== src/Db/Orders.antt =====
-- The orders table and OrdersRepository: src/db/OrdersRepository.cpp,
-- include/syrius_orbit/db/OrdersRepository.hpp, src/db/migrations/002_create_orders.sql.
pub mod Laws
use mathlib.Core.Option
use syrius_orbit_daemon.Common.{ℕ, Bool, Option, none, List, map, Bytes, text, text_eq}
use syrius_orbit_daemon.Db.Cells.{Int64, bind_bool, get_bool, bind_nonempty}
use syrius_orbit_daemon.Db.Table

-- struct Order of the read model.
pub record Order : Type 0 where
  pub order_id : Bytes
  pub order_update_id : Int64
  pub order_description : Option Bytes
  pub status : Bytes
  pub assigned_robot_id : Bytes
  pub site_id : Bytes
  pub nodes : Bytes
  pub edges : Bytes
  pub archived : Bool
  pub created_at : Bytes
  pub last_updated_at : Bytes

-- A row of the orders table.
pub record OrderRow : Type 0 where
  pub order_id : Bytes
  pub order_update_id : Int64
  pub order_description : Option Bytes
  pub status : Bytes
  pub assigned_robot_id : Bytes
  pub site_id : Bytes
  pub nodes : Bytes
  pub edges : Bytes
  pub archived : ℕ
  pub created_at : Bytes
  pub last_updated_at : Bytes

abbrev pub key : OrderRow → Bytes
key r = r.order_id

unfoldable pub from_row : OrderRow → Order
from_row r = record {
  order_id = r.order_id;
  order_update_id = r.order_update_id;
  order_description = r.order_description;
  status = r.status;
  assigned_robot_id = r.assigned_robot_id;
  site_id = r.site_id;
  nodes = r.nodes;
  edges = r.edges;
  archived = get_bool r.archived;
  created_at = r.created_at;
  last_updated_at = r.last_updated_at;
}

unfoldable pub find_by_id : Bytes → List OrderRow → Option Order
find_by_id order_id rows = Option.map from_row (Table.find key order_id rows)

unfoldable pub list_all : List OrderRow → List Order
list_all rows = map from_row rows

-- The values that `upsert` binds to the eleven columns.
unfoldable pub bind_order : Order → OrderRow
bind_order order = record {
  order_id = order.order_id;
  order_update_id = order.order_update_id;
  order_description = order.order_description;
  status = order.status;
  assigned_robot_id = order.assigned_robot_id;
  site_id = order.site_id;
  nodes = order.nodes;
  edges = order.edges;
  archived = bind_bool order.archived;
  created_at = order.created_at;
  last_updated_at = order.last_updated_at;
}

-- DO UPDATE SET of `upsert`: every column but order_id and created_at.
abbrev pub overwrite : OrderRow → OrderRow → OrderRow
overwrite excluded r = record excluded { order_id = r.order_id; created_at = r.created_at }

unfoldable pub upsert : Order → List OrderRow → List OrderRow
unfolding bind_order
upsert order rows =
    let excluded = bind_order order in
    Table.upsert key order.order_id (overwrite excluded) excluded rows

-- DO UPDATE SET of upsertFromOrder.
abbrev pub set_order : Bytes → Int64 → Bytes → Bytes → Bytes → Bytes → OrderRow → OrderRow
set_order robot_id order_update_id order_description nodes edges last_updated_at r = record r {
  order_update_id = order_update_id;
  order_description = bind_nonempty order_description;
  assigned_robot_id = robot_id;
  nodes = nodes;
  edges = edges;
  last_updated_at = last_updated_at;
}

-- The row that upsertFromOrder inserts: its nine columns, and the defaults of
-- 002_create_orders.sql for status and archived.
unfoldable pub order_row : Bytes → Bytes → Int64 → Bytes → Bytes → Bytes → Bytes → OrderRow
order_row order_id robot_id order_update_id order_description nodes edges now = record {
  order_id = order_id;
  order_update_id = order_update_id;
  order_description = bind_nonempty order_description;
  status = text "QUEUED";
  assigned_robot_id = robot_id;
  site_id = text "";
  nodes = nodes;
  edges = edges;
  archived = 0;
  created_at = now;
  last_updated_at = now;
}

unfoldable pub upsert_from_order :
    Bytes → Bytes → Int64 → Bytes → Bytes → Bytes → Bytes → List OrderRow → List OrderRow
upsert_from_order order_id robot_id order_update_id order_description nodes edges last_updated_at
      rows =
    Table.upsert key order_id
      (set_order robot_id order_update_id order_description nodes edges last_updated_at)
      (order_row order_id robot_id order_update_id order_description nodes edges last_updated_at)
      rows
