-- ===== src/Db/Table.antt =====
-- A SQLite table with a primary key, as the list of its rows in their order of insertion.
-- `upsert` is INSERT ... ON CONFLICT(key) DO UPDATE: `change` is the DO UPDATE SET part, `fresh` is
-- the inserted row, which has the key `k`.
pub mod Laws
use syrius_orbit_daemon.Common.{
  ◌≡◌, Bool, Option, none, some, List, [], ◌∷◌, Eq, find_first, if◌then◌else◌,
}

module _ {K R : Type 0} ⦃e : Eq K⦄ (key : R → K) where
  -- SELECT ... WHERE key = k.
  unfoldable pub find : K → List R → Option R
  find k [] = none
  find k (r ∷ rows) = let rest = find k rows in if e.beq (key r) k then some r else rest

  unfoldable pub upsert : K → (R → R) → R → List R → List R
  upsert k change fresh [] = fresh ∷ []
  upsert k change fresh (r ∷ rows) =
      let rest = upsert k change fresh rows in if e.beq (key r) k then change r ∷ rows else r ∷ rest
