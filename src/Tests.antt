-- ===== src/Tests.antt =====
-- Examples: the theorems at concrete inputs. `Data` holds the inputs.
pub mod Data
pub mod Topics
pub mod Options
pub mod Served
pub mod Threads
pub mod Events
pub mod Tables
pub mod Cycles
pub mod Recorded
pub mod Wire
pub mod Life
