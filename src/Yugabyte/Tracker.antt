-- ===== src/Yugabyte/Tracker.antt =====
-- The tracker of lib/boostd-data/yugabyte/piecedoctor.go: which pieces the piece doctor is to check
-- next. A `time.Time` is a number of nanoseconds, and `time.UnixMilli(0)` is 0. An item of a queue
-- is one step.
pub mod Works
pub mod Copies
pub mod Created
pub mod Period
use txcartool.Common.{
  ℕ, ◌+◌, ◌-◌, ◌*◌, ◌%◌, ◌^◌, Bool, true, false, ◌||◌, Option, none, some, List, [], ◌∷◌, ◌++◌,
  Bytes, Result, ok, err, panic, Error, Exec, pure, lift, gets, continue, ◌>>=◌, ◌>>◌, bind_result,
  if◌then◌else◌, ◌==◌, ltb, leb,
}
use txcartool.Ldb.Model.{Cid, Address, Time}
use txcartool.Yugabyte.Db.{Cassandra, Texts, Iter}
use txcartool.Yugabyte.Postgres.{Postgres}
use txcartool.Yugabyte.Queue.{exec_with_concurrency}
use txcartool.Yugabyte.Store.{scan}

abbrev pub tracker_check_batch_size : ℕ
tracker_check_batch_size = 1024

abbrev pub insert_tracker_parallelism : ℕ
insert_tracker_parallelism = 16

pub record PieceCreated : Type 0 where
  pub miner_addr : Address
  pub piece_cid : Cid
  pub created_at : Time

-- 5 minutes in nanoseconds
abbrev pub min_piece_check_period : ℕ
min_piece_check_period = 300000000000

-- `time.Duration(count*100) * time.Millisecond`, a signed number of 64 bits: what is negative is
-- below the least period too.
unfoldable pub piece_check_period : ℕ → ℕ
piece_check_period count =
    let period = (count * 100 * 1000000) % 2 ^ 64 in
    if leb (2 ^ 63) period || ltb period min_piece_check_period
    then min_piece_check_period
    else period

abbrev pub or_zero : Option Time → Time
or_zero none = 0
or_zero (some t) = t

-- The variable that the loop scans into, after the loop: the time of the last row.
unfoldable pub last_scanned : List (Bytes × Time) → Time
last_scanned [] = 0
last_scanned ((text, t) ∷ []) = t
last_scanned (row ∷ row' ∷ rows) = last_scanned (row' ∷ rows)

-- `types.ScanProgress`, with the progress as a fraction
pub record ScanProgress : Type 0 where
  pub scanned : ℕ
  pub total : ℕ
  pub last_scan : Time

module _ {S : Type 0} (db : Cassandra S) (pg : Postgres S) (tx : Texts) where
  abbrev pub read_new : Bytes × Time → Result PieceCreated
  read_new (text, t) =
      bind_result (tx.cid_decode text)
        λ c. ok (record { miner_addr = []; piece_cid = c; created_at = t })

  -- The rows of `PieceDeal` for a piece. Each miner is put into the list that the goroutines share,
  -- with the time in the variable of the loop above, not with that of the piece.
  unfoldable pub append_miners :
      Time → Cid → List Bytes → Option Error → Exec (S × List PieceCreated) (Unit {0})
  append_miners created_at piece_cid [] none st = (ok tt, st)
  append_miners created_at piece_cid [] (some e) st = (err e, st)
  append_miners created_at piece_cid (row ∷ rows) closed st =
      continue (tx.addr_parse row)
        (λ ma (s, found). append_miners created_at piece_cid rows closed (
          s,
          found ++ record { miner_addr = ma; piece_cid = piece_cid; created_at = created_at } ∷ [],
        ))
        st

  unfoldable pub miners_of_piece : Time → PieceCreated → Exec (S × List PieceCreated) (Unit {0})
  miners_of_piece created_at pc (s, found) =
      let (rows, closed) = db.select_miners pc.piece_cid s in
      append_miners created_at pc.piece_cid rows closed (s, found)

  -- the pieces with the miners on which they are stored
  unfoldable pub with_miners : Time → List PieceCreated → S → Result (List PieceCreated)
  with_miners created_at new_pieces s =
      let (r, (s', found)) =
        exec_with_concurrency (miners_of_piece created_at) new_pieces insert_tracker_parallelism
          (s, []) in
      bind_result r λ u. ok found

  unfoldable pub insert_tracked : PieceCreated → Exec S (Unit {0})
  insert_tracked pc =
      pg.insert_tracker (tx.addr_string pc.miner_addr) (tx.cid_string pc.piece_cid) pc.created_at 0

  -- the pieces added since the tracker was filled last
  unfoldable pub new_pieces : S → Result (List PieceCreated)
  new_pieces s = bind_result (pg.max_created s) λ last_copied.
      let rows = db.select_since (or_zero last_copied) s in
      bind_result (scan read_new rows) λ found. with_miners (last_scanned rows.0) found s

  -- the first part: they are put into the tracker
  unfoldable pub copy_new_pieces : Exec S (Unit {0})
  copy_new_pieces = do
    found ← gets new_pieces
    exec_with_concurrency insert_tracked found insert_tracker_parallelism

  unfoldable pub get_piece_check_period : S → Result ℕ
  get_piece_check_period s = bind_result (pg.count_tracker s) λ count. ok (piece_check_period count)

  -- A time before 1970 is below that of every row, as 0 is.
  unfoldable pub next_pieces_to_check : Address → Time → Exec S (List Cid)
  next_pieces_to_check maddr now = do
    copy_new_pieces
    period ← gets get_piece_check_period
    rows ← pg.claim_tracker (tx.addr_string maddr) (now - period) tracker_check_batch_size now
    lift (scan tx.cid_decode rows)

  unfoldable pub pieces_count : Address → S → Result ℕ
  pieces_count maddr s = pg.count_tracked (tx.addr_string maddr) s

  -- With no deals the progress is 1, and above 95 percent it is put up to 1.
  abbrev pub progress_of : ℕ → ℕ → Time → ScanProgress
  progress_of scanned total last_scan =
      if total == 0 || ltb (95 * total) (100 * scanned)
      then record { scanned = 1; total = 1; last_scan = last_scan }
      else record { scanned = scanned; total = total; last_scan = last_scan }

  unfoldable pub scan_progress : Address → S → Result ScanProgress
  scan_progress maddr s = bind_result (pg.count_scanned (tx.addr_string maddr) s) λ scanned.
      bind_result (db.count_deals (tx.addr_string maddr) s) λ total.
        bind_result (pg.max_updated (tx.addr_string maddr) s)
          λ last. ok (progress_of scanned total (or_zero last))

  unfoldable pub untrack_piece : Cid → Address → Exec S (Unit {0})
  untrack_piece piece_cid maddr = pg.delete_tracker (tx.addr_string maddr) (tx.cid_string piece_cid)
