-- ===== src/Ldb/Store/Scans.antt =====
-- The scans of lib/boostd-data/ldb/service.go, which pass a call on to the database.
use txcartool.Common.{ℕ, Option, List, Exec}
use txcartool.Ldb.Model.{Cid, Address, Time, FlaggedPiece}
use txcartool.Ldb.Env.{Env}
use txcartool.Ldb.Scan
use txcartool.Ldb.Scan.{Tracker, ScanProgress}
use txcartool.Ldb.Scan.Flagged
use txcartool.Ldb.Scan.Flagged.{Filter}

module _ {S : Type 0} (env : Env S) where
  unfoldable pub pieces_count : Address → Exec S ℕ
  pieces_count maddr = Scan.pieces_count env maddr

  unfoldable pub scan_progress : Address → Tracker → Exec S ScanProgress
  scan_progress maddr t = Scan.scan_progress env maddr t.checked

  unfoldable pub list_pieces : Exec S (List Cid)
  list_pieces = Scan.list_pieces env

  unfoldable pub next_pieces_to_check : Address → Time → S → Exec Tracker (List Cid)
  next_pieces_to_check maddr now s = Scan.next_pieces_to_check env maddr now s

  unfoldable pub flagged_pieces_list :
      Tracker → Option Filter → Option Time → ℕ → ℕ → Exec S (List FlaggedPiece)
  flagged_pieces_list t filter cursor offset limit =
      Flagged.list_flagged_pieces env t.offset filter cursor offset limit

  unfoldable pub flagged_pieces_count : Option Filter → Exec S ℕ
  flagged_pieces_count filter = Flagged.flagged_pieces_count env filter
