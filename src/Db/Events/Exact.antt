-- ===== src/Db/Events/Exact.antt =====
-- What findLatestByTopic returns, as a set of events.
pub use syrius_orbit_daemon.Db.Events.Kept.{IsLatest}
use syrius_orbit_daemon.Common.{◌≡◌, ◌↔◌, refl, ap, List, [], ◌∷◌, map, Bytes, In}
use syrius_orbit_daemon.Db.Events.{Event, Table, from_row, latest_rows, find_latest_by_topic}
use syrius_orbit_daemon.Db.Events.Log.{IsLog}
use syrius_orbit_daemon.Db.Events.Latest.{last_of_each, latest_rows-eq-last_of_each}
use syrius_orbit_daemon.Db.Events.Kept.{
  In-last_of_each, last_of_each_unique, last_of_each_complete, last_of_each-maximal,
}

-- SQLite hands out the rows that the WHERE clause keeps, in some order.
pub record IsScan (scan : List Event → List Event) : Type 0 where
  pub only : (rows : List Event) (e : Event) → In e (scan rows) → In e rows
  pub every : (rows : List Event) (e : Event) → In e rows → In e (scan rows)

pub map-from_row : (rows : List Event) → map from_row rows ≡ rows
unfolding from_row
map-from_row [] = refl
map-from_row (e ∷ rows) = ap (λ (l : List Event). e ∷ l) (map-from_row rows)

find_latest-In :
    (scan : List Event → List Event) (topic : Bytes) (t : Table) (e : Event)
    → IsScan scan
    → IsLog t
    → In e (find_latest_by_topic scan topic t) ↔ In e (last_of_each topic t.rows)
unfolding find_latest_by_topic
find_latest-In scan topic t e s log =
    let same = latest_rows-eq-last_of_each 0 topic t.rows log.rising in
    rw (map-from_row (scan (latest_rows topic t.rows)), same) (s.only _ e, s.every _ e)

-- findLatestByTopic returns exactly the events of the topic with the largest id of their item,
-- whatever the order in which SQLite scans them, on a log whose ids rise.
pub find_latest_by_topic_iff :
    (scan : List Event → List Event) (topic : Bytes) (t : Table) (e : Event)
    → IsScan scan
    → IsLog t
    → In e (find_latest_by_topic scan topic t) ↔ IsLatest topic t.rows e
find_latest_by_topic_iff scan topic t e s log =
    let same = find_latest-In scan topic t e s log in
    (
      λ h.
          let kept = same.0 h in
          record {
            logged = (In-last_of_each topic t.rows e kept).0;
            of_topic = (In-last_of_each topic t.rows e kept).1;
            maximal = λ x i q k. last_of_each-maximal topic 0 t.rows e x log.rising kept i q k;
          },
      λ l. same.1 (last_of_each_complete topic 0 t.rows e log.rising l),
    )

-- It returns one event for an item.
pub find_latest_by_topic_unique :
    (scan : List Event → List Event) (topic : Bytes) (t : Table) (x y : Event)
    → IsScan scan
    → IsLog t
    → In x (find_latest_by_topic scan topic t)
    → In y (find_latest_by_topic scan topic t)
    → x.item_id ≡ y.item_id
    → x ≡ y
find_latest_by_topic_unique scan topic t x y s log i k e =
    last_of_each_unique topic t.rows x y ((find_latest-In scan topic t x s log).0 i)
      ((find_latest-In scan topic t y s log).0 k) e
