-- ===== src/Ldb/Scan.antt =====
-- The scans of lib/boostd-data/ldb/db.go: the pieces to check next, the counts and the lists.
pub mod Flagged
use txcartool.Common.{
  ℕ, zero, suc, ◌+◌, ◌-◌, Bool, true, false, Option, none, some, List, [], ◌∷◌, ◌++◌, Bytes, Result,
  ok, err, panic, bind_result, ◌==◌, Exec, pure, lift, gets, continue, ◌>>=◌, ◌>>◌, bytes_eq,
  if◌then◌else◌, slice_from, ltb, leb, length,
}
use txcartool.Ldb.Model.{Cid, Address, Time, DealInfo}
use txcartool.Ldb.Env.{Env, Row, Query}
use txcartool.Ldb.Keys.{uvarint_buffer, prefix_piece_cid_to_cursor, slash}
use txcartool.Ldb.Tables.{get_piece_cid_to_metadata}

-- 5 minutes in nanoseconds
abbrev pub min_piece_check_period : ℕ
min_piece_check_period = 300000000000

abbrev pub pieces_to_tracker_batch_size : ℕ
pieces_to_tracker_batch_size = 1024

-- The map `checked`, newest entry first.
abbrev pub Checked : Type 0
Checked = List (Bytes × Time)

unfoldable pub last_checked : Checked → Bytes → Option Time
last_checked [] k = none
last_checked ((j, t) ∷ m) k = if bytes_eq j k then some t else last_checked m k

-- `checked[k] = t`
unfoldable pub mark_checked : Checked → Bytes → Time → Checked
mark_checked [] k t = (k, t) ∷ []
mark_checked ((j, u) ∷ m) k t = if bytes_eq j k then (k, t) ∷ m else (j, u) ∷ mark_checked m k t

-- The package's variables `offset` and `checked`.
pub record Tracker : Type 0 where
  pub offset : ℕ
  pub checked : Checked

-- `t.After(now.Add(-MinPieceCheckPeriod))`
unfoldable pub is_fresh : Time → Option Time → Bool
is_fresh now none = false
is_fresh now (some t) = ltb now (t + min_piece_check_period)

-- whether one of the deals is with the miner
unfoldable pub has_miner : Address → List DealInfo → Bool
has_miner maddr [] = false
has_miner maddr (dl ∷ deals) = if bytes_eq dl.miner_addr maddr then true else has_miner maddr deals

unfoldable pub metadata_prefix : Bytes
unfolding uvarint_buffer
metadata_prefix = slash ∷ uvarint_buffer prefix_piece_cid_to_cursor ++ slash ∷ []

module _ {S : Type 0} (env : Env S) where
  -- what is read of a piece in the loops
  deals_of : S → Cid → Result (List DealInfo)
  deals_of s piece_cid =
      bind_result (get_piece_cid_to_metadata env piece_cid s).0 (λ md. ok md.deals)

  -- A row of the loop: its piece, if it is to be returned. The state is the map `checked`.
  unfoldable pub check_row : Address → Time → S → Bytes → Exec Checked (Option Cid)
  unfolding deals_of is_fresh last_checked
  check_row maddr now s key = do
    k ← lift (slice_from (length metadata_prefix) key)
    let miner_piece = env.addr_string maddr ++ k
    fresh ← gets (λ checked. ok (is_fresh now (last_checked checked miner_piece)))
    if fresh then pure none else do
      piece_cid ← lift (env.cid_parse k)
      deals ← lift (deals_of s piece_cid)
      if has_miner maddr deals
          then (λ checked. (ok (some piece_cid), mark_checked checked miner_piece now))
          else pure none

  -- A row that ends the loop by an error leaves the marks of the rows before it.
  unfoldable pub check_rows : Address → Time → S → List Row → Exec Checked (List Cid)
  check_rows maddr now s [] = pure []
  check_rows maddr now s (row ∷ rows) = do
    found ← check_row maddr now s row.0
    pcids ← check_rows maddr now s rows
    pure (elim found [ none ↦ pcids | some piece_cid ↦ piece_cid ∷ pcids ])

  -- the offset after a batch of `n` rows
  unfoldable pub advance : ℕ → ℕ → ℕ
  advance offset n = if ltb n (pieces_to_tracker_batch_size - 1) then 0 else offset + n

  -- The offset moves only where the loop ends without an error.
  unfoldable pub next_pieces_to_check : Address → Time → S → Exec Tracker (List Cid)
  next_pieces_to_check maddr now s t =
      let q : Query = record {
        prefix = metadata_prefix;
        keys_only = true;
        limit = pieces_to_tracker_batch_size;
        offset = t.offset;
      } in
      elim (env.query q s) [
        | ok rows ↦
            let (r, checked) = check_rows maddr now s rows t.checked in
            elim r [
              | ok pcids ↦
                  (ok pcids, record { offset = advance t.offset (length rows); checked = checked })
              | err e ↦ (err e, record t { checked = checked })
              | panic ↦ (panic, record t { checked = checked })
            ]
        | err e ↦ (err e, t)
        | panic ↦ (panic, t)
      ]

  unfoldable pub count_rows : Address → S → List Row → Result ℕ
  unfolding deals_of
  count_rows maddr s [] = ok 0
  count_rows maddr s (row ∷ rows) = bind_result (slice_from (length metadata_prefix) row.0) λ k.
      bind_result (env.cid_parse k) λ piece_cid. bind_result (deals_of s piece_cid) λ deals.
        bind_result (count_rows maddr s rows) λ n. ok (if has_miner maddr deals then suc n else n)

  abbrev all_pieces : Bool → Query
  all_pieces keys_only = record {
    prefix = metadata_prefix;
    keys_only = keys_only;
    limit = 0;
    offset = 0;
  }

  -- the number of pieces that have a deal with the miner
  unfoldable pub pieces_count : Address → Exec S ℕ
  pieces_count maddr = do
    rows ← gets (env.query (all_pieces false))
    gets (λ s. count_rows maddr s rows)

  unfoldable pub parse_rows : List Row → Result (List Cid)
  parse_rows [] = ok []
  parse_rows (row ∷ rows) = bind_result (slice_from (length metadata_prefix) row.0) λ k.
      bind_result (env.cid_parse k)
        λ piece_cid. bind_result (parse_rows rows) λ pcids. ok (piece_cid ∷ pcids)

  unfoldable pub list_pieces : Exec S (List Cid)
  list_pieces = do rows ← gets (env.query (all_pieces true)); lift (parse_rows rows)

-- the latest time in `checked`, from the zero time on
unfoldable pub latest : Time → Checked → Time
latest last [] = last
latest last ((k, t) ∷ m) = latest (if ltb last t then t else last) m

-- The progress is a fraction: the pieces checked of the pieces there are, or 1 of 1.
pub record ScanProgress : Type 0 where
  pub checked_count : ℕ
  pub count : ℕ
  pub last_scan : Time

unfoldable pub scan_progress : {S : Type 0} → Env S → Address → Checked → Exec S ScanProgress
scan_progress env maddr checked = do
  count ← pieces_count env maddr
  pure (
      if count == 0
      then record { checked_count = 1; count = 1; last_scan = latest 0 checked }
      else record { checked_count = length checked; count = count; last_scan = latest 0 checked })
