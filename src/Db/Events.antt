-- ===== src/Db/Events.antt =====
-- The append-only vda5050_events table and Vda5050EventsRepository:
-- src/db/Vda5050EventsRepository.cpp, include/syrius_orbit/db/Vda5050EventsRepository.hpp,
-- src/db/migrations/005_create_vda5050_events.sql. Rows stand in their order of insertion. The
-- order in which SQLite hands out the rows of a SELECT without ORDER BY is a parameter, `scan`.
pub mod Log
pub mod Latest
pub mod Kept
pub mod Exact
use Prim.Native.Nat.{max}
use syrius_orbit_daemon.Common.{
  ℕ, suc, ◌+◌, Bool, true, false, ◌&&◌, ◌||◌, Option, none, some, List, [], ◌∷◌, ◌++◌, map, Bytes,
  ◌==◌, nat_eq, select, if◌then◌else◌,
}
use syrius_orbit_daemon.Db.Cells.{Int64}

-- struct Vda5050Event; a row of the table has the same fields.
pub record Event : Type 0 where
  pub id : ℕ
  pub topic : Bytes
  pub item_id : Bytes
  pub received_at : Bytes
  pub manufacturer : Bytes
  pub serial_number : Bytes
  pub robot_id : Bytes
  pub direction : Bytes
  pub header_id : Option Int64
  pub header_version : Option Bytes
  pub header_timestamp : Option Bytes
  pub payload : Bytes

-- The rows, and the largest id that AUTOINCREMENT has given so far.
pub record Table : Type 0 where
  pub rows : List Event
  pub sequence : ℕ

abbrev pub empty_table : Table
empty_table = record { rows = []; sequence = 0 }

-- INSERT: the id and received_at of the argument are not used; `now` is strftime(..., 'now').
-- Returns getLastInsertRowid.
unfoldable pub insert : Bytes → Event → Table → ℕ × Table
insert now event t =
    let id = t.sequence + 1 in
    let row = record event { id = id; received_at = now } in
    (id, record { rows = t.rows ++ (row ∷ []); sequence = id })

-- Enters an id into its group of GROUP BY item_id, under MAX(id).
unfoldable pub raise_max : Bytes → ℕ → List (Bytes × ℕ) → List (Bytes × ℕ)
raise_max item id [] = (item, id) ∷ []
raise_max item id ((j, m) ∷ groups) =
    let rest = raise_max item id groups in
    if j == item then (j, max id m) ∷ groups else (j, m) ∷ rest

-- SELECT MAX(id) FROM vda5050_events WHERE topic = ? GROUP BY item_id, with the groups' keys.
unfoldable pub max_ids : Bytes → List Event → List (Bytes × ℕ)
max_ids topic [] = []
max_ids topic (e ∷ rows) =
    let rest = max_ids topic rows in
    if e.topic == topic then raise_max e.item_id e.id rest else rest

-- id IN (...).
unfoldable pub id_in : ℕ → List (Bytes × ℕ) → Bool
id_in id [] = false
id_in id ((j, m) ∷ groups) = nat_eq id m || id_in id groups

unfoldable pub from_row : Event → Event
from_row r = record {
  id = r.id;
  topic = r.topic;
  item_id = r.item_id;
  received_at = r.received_at;
  manufacturer = r.manufacturer;
  serial_number = r.serial_number;
  robot_id = r.robot_id;
  direction = r.direction;
  header_id = r.header_id;
  header_version = r.header_version;
  header_timestamp = r.header_timestamp;
  payload = r.payload;
}

unfoldable pub latest_rows : Bytes → List Event → List Event
latest_rows topic rows = select (λ e. e.topic == topic && id_in e.id (max_ids topic rows)) rows

unfoldable pub find_latest_by_topic : (List Event → List Event) → Bytes → Table → List Event
find_latest_by_topic scan topic t = map from_row (scan (latest_rows topic t.rows))
