-- ===== src/Db/Maps.antt =====
-- The maps table and MapsRepository: src/db/MapsRepository.cpp,
-- include/syrius_orbit/db/MapsRepository.hpp, src/db/migrations/004_create_maps.sql.
-- A row has the fields of the struct: no column is converted.
pub mod Laws
use mathlib.Core.Option
use syrius_orbit_daemon.Common.{Option, List, map, Bytes, pair_eq}
use syrius_orbit_daemon.Db.Table

-- struct Map, and a row of the maps table.
pub record Map : Type 0 where
  pub map_id : Bytes
  pub map_version : Bytes
  pub map_descriptor : Option Bytes
  pub map_status : Bytes
  pub site_id : Bytes
  pub graph_source : Option Bytes
  pub zone_set_source : Option Bytes
  pub last_updated_at : Bytes

abbrev pub MapRow : Type 0
MapRow = Map

-- PRIMARY KEY (map_id, site_id).
abbrev pub key : MapRow → Bytes × Bytes
key r = (r.map_id, r.site_id)

unfoldable pub from_row : MapRow → Map
from_row r = record {
  map_id = r.map_id;
  map_version = r.map_version;
  map_descriptor = r.map_descriptor;
  map_status = r.map_status;
  site_id = r.site_id;
  graph_source = r.graph_source;
  zone_set_source = r.zone_set_source;
  last_updated_at = r.last_updated_at;
}

unfoldable pub find_by_id : Bytes → Bytes → List MapRow → Option Map
find_by_id map_id site_id rows = Option.map from_row (Table.find key (map_id, site_id) rows)

unfoldable pub list_all : List MapRow → List Map
list_all rows = map from_row rows

-- DO UPDATE SET of `upsert`: every column outside the key.
abbrev pub overwrite : Map → MapRow → MapRow
overwrite excluded r = record excluded { map_id = r.map_id; site_id = r.site_id }

unfoldable pub upsert : Map → List MapRow → List MapRow
upsert m rows = Table.upsert key (m.map_id, m.site_id) (overwrite m) m rows
