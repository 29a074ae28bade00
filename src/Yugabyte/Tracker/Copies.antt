-- ===== src/Yugabyte/Tracker/Copies.antt =====
-- What `NextPiecesToCheck` comes to, and what its first part keeps.
use txcartool.Common.{
  ℕ, ◌-◌, ◌*◌, ◌≤◌, ◌<◌, ◌≡◌, refl, sym, ap, ◌∙◌, none, some, List, Bytes, Result, ok, err, panic,
  lift, gets, continue, ◌>>=◌, bind_result-ok, bind-ok, ok-injective, subst, bytes_eq, bytes_eq_iff,
  arith, inl, inr, Bool-cases, if◌then◌else◌, ltb,
}
use txcartool.Ldb.Model.{Cid, Address, Time}
use txcartool.Yugabyte.Db.{Cassandra, Texts, Iter}
use txcartool.Yugabyte.Postgres.{Postgres}
use txcartool.Yugabyte.Queue.{exec_with_concurrency}
use txcartool.Yugabyte.Queue.Keeps.{exec_queue-keeps}
use txcartool.Yugabyte.Store.{scan, scan_rows}
use txcartool.Yugabyte.Tracker.{
  min_piece_check_period, piece_check_period, PieceCreated, insert_tracker_parallelism, new_pieces,
  copy_new_pieces, get_piece_check_period, next_pieces_to_check, insert_tracked,
  tracker_check_batch_size,
}
use txcartool.Yugabyte.Tracker.Works.{TrackerRow, TrackerWorks}

pub piece_check_period_min : (count : ℕ) → min_piece_check_period ≤ piece_check_period count
unfolding piece_check_period
piece_check_period_min count = ground arith

pub piece_check_period_lem :
    (count : ℕ)
    → count < 92233720368
    → piece_check_period count ≡ (
        if ltb (count * 100000000) min_piece_check_period
        then min_piece_check_period
        else count * 100000000)
unfolding piece_check_period
piece_check_period_lem count h = ground arith

module _ {S : Type 0} (db : Cassandra S) (pg : Postgres S) (works : TrackerWorks pg)
    (tx : Texts) where
  -- Every piece in the tracker has the text of a cid, as all that is inserted has.
  abbrev pub AllCids : S → Type 0
  AllCids s =
      (m p : Bytes) (row : TrackerRow)
      → works.tracker s m p ≡ some row
      → (c : Cid) × (p ≡ tx.cid_string c)

  -- A row of the tracker that is there is still there.
  abbrev pub Has : Bytes → Bytes → TrackerRow → S → Type 0
  Has m p row s = works.tracker s m p ≡ some row

  pub Has-insert :
      (m p : Bytes) (row : TrackerRow) (created updated : Time) (n q : Bytes) (s : S)
      → Has m p row s
      → Has m p row (pg.insert_tracker n q created updated s).1
  Has-insert m p row created updated n q s h =
      ground (arith, h, works.tracker-insert n q created updated s m p)

  pub AllCids-insert :
      (created updated : Time) (n : Bytes) (c : Cid) (s : S)
      → AllCids s
      → AllCids (pg.insert_tracker n (tx.cid_string c) created updated s).1
  AllCids-insert created updated n c s h m p row e =
      elim (Bool-cases (bytes_eq (tx.cid_string c) p)) [
        | inl same ↦ (c, sym ((bytes_eq_iff (tx.cid_string c) p).0 same))
        | inr apart ↦
            h m p row
              (ground (arith, works.tracker-insert n (tx.cid_string c) created updated s m p))
      ]

  -- What each insert keeps, the first part of `NextPiecesToCheck` keeps.
  pub copy_new_pieces-keeps {κ} :
      (P : S → Type κ)
      → ((created updated : Time) (n : Bytes) (c : Cid) (s : S)
          → P s
          → P (pg.insert_tracker n (tx.cid_string c) created updated s).1)
      → (s : S) → P s
      → P (copy_new_pieces db pg tx s).1
  unfolding copy_new_pieces exec_with_concurrency insert_tracked
  copy_new_pieces-keeps P keeps s h = go (new_pieces db pg tx s)
    where
      go :
          (r : Result (List PieceCreated))
          → P
              (continue r
                (λ found.
                  exec_with_concurrency (insert_tracked db pg tx) found insert_tracker_parallelism)
                s).1
      go (ok found) =
          exec_queue-keeps P (insert_tracked db pg tx)
            (λ pc t k. keeps pc.created_at 0 (tx.addr_string pc.miner_addr) pc.piece_cid t k)
            insert_tracker_parallelism found (ok tt) s h
      go (err e) = h
      go panic = h

  -- the state when the rows are claimed
  abbrev pub copied : S → S
  copied s = (copy_new_pieces db pg tx s).1

  -- What `NextPiecesToCheck` comes to, where it returns pieces.
  pub next_pieces-ok :
      (maddr : Address) (now : Time) (s : S) (cs : List Cid)
      → (next_pieces_to_check db pg tx maddr now s).0 ≡ ok cs
      → (period : ℕ) × (min_piece_check_period ≤ period)
        × (scan_rows tx.cid_decode
              (works.claimed
                (tx.addr_string maddr)
                (now - period)
                tracker_check_batch_size
                (copied s))
              none
            ≡ ok cs)
        × ((next_pieces_to_check db pg tx maddr now s).1
            ≡ (pg.claim_tracker
                (tx.addr_string maddr)
                (now - period)
                tracker_check_batch_size
                now
                (copied s)).1)
  unfolding next_pieces_to_check get_piece_check_period
  next_pieces-ok maddr now s cs e =
      let m = tx.addr_string maddr in
      let claim = λ (period : ℕ). pg.claim_tracker m (now - period) tracker_check_batch_size now in
      let read = λ (rows : Iter Bytes). lift {S = S} (scan tx.cid_decode rows) in
      let period_of = gets (get_piece_check_period db pg tx) in
      let rest = λ (period : ℕ). claim period >>= read in
      let (u, copy_ok, e1) = bind-ok (copy_new_pieces db pg tx) (λ u. period_of >>= rest) s cs e in
      let (period, period_ok, e2) = bind-ok period_of rest (copied s) cs e1 in
      let (count, count_ok, is_period) =
        bind_result-ok (pg.count_tracker (copied s)) (λ count. ok (piece_check_period count)) period
          period_ok in
      let (rows, claim_ok, e3) = bind-ok (claim period) read (copied s) cs e2 in
      let claimed_ok = works.claim_works m (now - period) tracker_check_batch_size now (copied s) in
      (
        period,
        subst (λ p. min_piece_check_period ≤ p) (ok-injective _ _ is_period)
            (piece_check_period_min count),
        ap (λ r. scan tx.cid_decode r) (ok-injective _ _ (sym claimed_ok ∙ claim_ok)) ∙ e3,
        rw (next_pieces_to_check, copy_ok) (rw period_ok (rw claim_ok refl)),
      )
