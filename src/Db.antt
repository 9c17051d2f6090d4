-- ===== src/Db.antt =====
-- The SQLite database of the daemon: include/syrius_orbit/db, src/db and the migrations.
pub mod Cells
pub mod Table
pub mod Events
pub mod Robots
pub mod Orders
pub mod Actions
pub mod Maps
