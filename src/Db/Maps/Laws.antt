-- ===== src/Db/Maps/Laws.antt =====
-- What MapsRepository promises: the table is a map from (map_id, site_id) to Map.
use syrius_orbit_daemon.Common.{
  ◌≡◌, refl, ap, Option, none, some, List, Bytes, pair_eq, ◌==◌, ◌&&◌, if◌then◌else◌, ◌∙◌,
}
use syrius_orbit_daemon.Db.Table.Laws.{changed, read-upsert}
use syrius_orbit_daemon.Db.Maps.{Map, MapRow, key, from_row, find_by_id, overwrite, upsert}

-- Writing a known key returns what was written too, since no column keeps its old value.
changed-const : {R : Type 0} (m : R) (o : Option R) → changed (λ _. m) m o ≡ m
changed-const m none = refl
changed-const m (some r) = refl

-- After `upsert`, `find_by_id` returns the map that was written exactly for its own map_id and
-- site_id; a map of another id, or of the same id at another site, is not affected.
pub find_map-upsert :
    (m : Map) (map_id site_id : Bytes) (rows : List MapRow)
    → find_by_id map_id site_id (upsert m rows) ≡ (
        if m.map_id == map_id && m.site_id == site_id
        then some m
        else find_by_id map_id site_id rows)
unfolding find_by_id upsert from_row
find_map-upsert m map_id site_id rows =
    read-upsert key from_row (m.map_id, m.site_id) (overwrite m) m refl (λ r. refl) (λ _. m) m refl
      (λ r e. cc (ap (λ (p : Bytes × Bytes). p.0) e, ap (λ (p : Bytes × Bytes). p.1) e))
      (map_id, site_id) rows
    ∙ rw changed-const
