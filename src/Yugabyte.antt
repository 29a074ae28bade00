-- ===== src/Yugabyte.antt =====
-- lib/boostd-data/yugabyte: the index directory over Cassandra (YCQL) and Postgres (YSQL).
pub mod Db
pub mod Errors
pub mod Settings
pub mod Batches
pub mod Queue
pub mod Works
pub mod Store
pub mod Postgres
pub mod Tracker
pub mod Flags
