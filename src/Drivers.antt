-- ===== src/Drivers.antt =====
-- The drivers sqlite and dqlite (pkg/kine/drivers/sqlite, pkg/kine/drivers/dqlite): what they set up before
-- the dialect runs.
pub mod Schema
pub mod Setup
pub mod Options
pub mod Opening
pub mod Dqlite
