-- ===== src/Ldb.antt =====
-- lib/boostd-data: the local index directory over LevelDB.
pub mod Model
pub mod Uvarint
pub mod Env
pub mod Keys
pub mod Works
pub mod Cursor
pub mod Tables
pub mod Index
pub mod Scan
pub mod View
pub mod Store
