-- ===== src/Yugabyte/Settings.antt =====
-- `NewStore` of lib/boostd-data/yugabyte/service.go, on the numbers of `DBSettings`. A Go `int` that
-- is negative passes the tests for 0 and stays as it is; the settings here are not negative.
use txcartool.Common.{ℕ, ◌≤◌, ◌<◌, if◌then◌else◌, ◌==◌, ltb, arith}

pub record Settings : Type 0 where
  pub payload_pieces_parallelism : ℕ
  pub cql_timeout : ℕ
  pub insert_batch_size : ℕ
  pub insert_concurrency : ℕ

abbrev pub default_insert_batch_size : ℕ
default_insert_batch_size = 10000

abbrev pub max_insert_batch_size : ℕ
max_insert_batch_size = 50000

abbrev pub default_insert_concurrency : ℕ
default_insert_concurrency = 4

abbrev or_default : ℕ → ℕ → ℕ
or_default n d = if n == 0 then d else n

abbrev at_most : ℕ → ℕ → ℕ
at_most n m = if ltb m n then m else n

unfoldable pub new_store : Settings → Settings
new_store s = record s {
  payload_pieces_parallelism = or_default s.payload_pieces_parallelism 16;
  insert_batch_size =
      at_most (or_default s.insert_batch_size default_insert_batch_size) max_insert_batch_size;
  insert_concurrency = or_default s.insert_concurrency default_insert_concurrency;
}

-- What the inserts and the removals rely on.
pub record IsUsable (s : Settings) : Type 0 where
  pub parallelism_pos : 0 < s.payload_pieces_parallelism
  pub batch_size_pos : 0 < s.insert_batch_size
  pub batch_size_max : s.insert_batch_size ≤ max_insert_batch_size
  pub concurrency_pos : 0 < s.insert_concurrency

pub new_store-IsUsable : (s : Settings) → IsUsable (new_store s)
unfolding new_store
new_store-IsUsable s = record {
  parallelism_pos = ground arith;
  batch_size_pos = ground arith;
  batch_size_max = ground arith;
  concurrency_pos = ground arith;
}
