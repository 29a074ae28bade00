-- ===== src/Db.antt =====
-- lib/boost/db and lib/boost/storagemarket/types: how deals are written into SQL tables and read
-- back, and which queries list them.
pub mod Checkpoints
pub mod Fields
pub mod DirectDeals
