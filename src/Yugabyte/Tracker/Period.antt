-- ===== src/Yugabyte/Tracker/Period.antt =====
-- That a piece is not handed out again before its period has passed.
use txcartool.Common.{
  ℕ, ◌+◌, ◌-◌, ◌≤◌, ◌<◌, ◌≡◌, refl, sym, ap, ◌∙◌, true, false, none, some, List, [], ◌∷◌, Bytes, ok,
  bind_result-ok, ok-injective, subst, bytes_eq, bytes_eq_iff, bytes_eq_refl, any, arith, inl, inr,
  Bool-cases, Option-cases,
}
use txcartool.Ldb.Model.{Cid, Address, Time}
use txcartool.Yugabyte.Db.{Cassandra, Texts}
use txcartool.Yugabyte.Postgres.{Postgres}
use txcartool.Yugabyte.Store.{scan_rows}
use txcartool.Yugabyte.Tracker.{
  min_piece_check_period, next_pieces_to_check, tracker_check_batch_size,
}
use txcartool.Yugabyte.Tracker.Copies.{
  AllCids, Has, Has-insert, AllCids-insert, copy_new_pieces-keeps, copied, next_pieces-ok,
}
use txcartool.Yugabyte.Tracker.Works.{TrackerRow, TrackerWorks, DecodesCids}

module _ {S : Type 0} (db : Cassandra S) (pg : Postgres S) (works : TrackerWorks pg) (tx : Texts)
    (decodes : DecodesCids tx) where
  -- what was decoded from a row is decoded from one of them
  scan_rows-any :
      (rows : List Bytes) (cs : List Cid) (c : Cid)
      → scan_rows tx.cid_decode rows none ≡ ok cs
      → any (bytes_eq c) cs ≡ true
      → (p : Bytes) × (any (bytes_eq p) rows ≡ true) × (tx.cid_decode p ≡ ok c)
  unfolding scan_rows
  scan_rows-any [] cs c e h = ground arith
  scan_rows-any (row ∷ rows) cs c e h =
      let ih = scan_rows-any rows in
      let (d, first, e1) = bind_result-ok (tx.cid_decode row) _ cs e in
      let (ds, later, e2) = bind_result-ok (scan_rows tx.cid_decode rows none) _ cs e1 in
      elim (Bool-cases (bytes_eq c d)) [
        | inl same ↦ (
          row,
          ground (arith, bytes_eq_refl row),
          first ∙ ap ok (sym ((bytes_eq_iff c d).0 same)),
        )
        | inr apart ↦
            let (p, found, decoded) =
              ih ds c later (either d ds cs c apart (ok-injective _ _ e2) h) in
            (p, ground (arith, found), decoded)
      ]
    where
      either :
          (d : Cid) (ds cs : List Cid) (c : Cid)
          → bytes_eq c d ≡ false
          → d ∷ ds ≡ cs
          → any (bytes_eq c) cs ≡ true
          → any (bytes_eq c) ds ≡ true
      either d ds cs c apart e h =
          let h' = subst (λ xs. any (bytes_eq c) xs ≡ true) (sym e) h in ground (arith, apart, h')

  abbrev claimed_at : Address → ℕ → S → List Bytes
  claimed_at maddr before t = works.claimed (tx.addr_string maddr) before tracker_check_batch_size t

  -- A row that was claimed is that of the cid which was read from it.
  claimed-row :
      (maddr : Address) (before : ℕ) (t : S) (p : Bytes) (c : Cid)
      → (AllCids db pg works tx) t
      → any (bytes_eq p) (claimed_at maddr before t) ≡ true
      → tx.cid_decode p ≡ ok c
      → (row : TrackerRow) × (works.tracker t (tx.addr_string maddr) p ≡ some row)
        × (row.updated_at < before)
        × (p ≡ tx.cid_string c)
  claimed-row maddr before t p c canonical h decoded =
      let m = tx.addr_string maddr in
      let due = works.claimed-due m before tracker_check_batch_size t p h in
      elim (Option-cases (works.tracker t m p)) [
        | inl e ↦ absurd (ground (arith, due, e))
        | inr (row, e) ↦
            let (d, text) = canonical m p row e in
            let same = ok-injective d c (sym (decodes d) ∙ ap tx.cid_decode (sym text) ∙ decoded) in
            (row, e, ground (arith, due, e), text ∙ ap tx.cid_string same)
      ]

  AllCids-claim :
      (m : Bytes) (before : ℕ) (now : Time) (t : S)
      → (AllCids db pg works tx) t
      → (AllCids db pg works tx) (pg.claim_tracker m before tracker_check_batch_size now t).1
  AllCids-claim m before now t canonical n q row e = elim (Option-cases (works.tracker t n q)) [
    | inl none_there ↦ absurd (
        ground
          (arith, e, none_there, works.tracker-claim m before tracker_check_batch_size now t n q))
    | inr (old, there) ↦ canonical n q old there
  ]

  -- The row of a piece that was claimed says so afterwards, and goes on to.
  Has-claimed :
      (m : Bytes) (before : ℕ) (now : Time) (t : S) (p : Bytes) (row : TrackerRow)
      → works.tracker t m p ≡ some row
      → any (bytes_eq p) (works.claimed m before tracker_check_batch_size t) ≡ true
      → (Has db pg works tx) m p
          (record row { updated_at = now })
          (pg.claim_tracker m before tracker_check_batch_size now t).1
  Has-claimed m before now t p row e h =
      works.tracker-claim m before tracker_check_batch_size now t m p
      ∙ rw (bytes_eq_refl m) (rw h (rw e refl))

  -- Where Postgres does to the tracker what its statements say and each of its pieces is the text
  -- of a cid: of two calls of NextPiecesToCheck for a miner, one right after the other and no more
  -- than five minutes later, the second returns no piece that the first returned.
  pub next_pieces_to_check-apart :
      (maddr : Address) (now later : Time) (s : S) (cs ds : List Cid) (c : Cid)
      → (AllCids db pg works tx) s
      → (next_pieces_to_check db pg tx maddr now s).0 ≡ ok cs
      → (next_pieces_to_check db pg tx maddr later (next_pieces_to_check db pg tx maddr now s).1).0
        ≡ ok ds
      → later ≤ now + min_piece_check_period
      → any (bytes_eq c) cs ≡ true
      → any (bytes_eq c) ds ≡ false
  next_pieces_to_check-apart maddr now later s cs ds c canonical e e' h k =
      let m = tx.addr_string maddr in
      let (period, min, decoded, claimed_state) =
        (next_pieces-ok db pg works tx) maddr now s cs e in
      let (period', min', decoded', claimed_state') =
        (next_pieces-ok db pg works tx) maddr later (next_pieces_to_check db pg tx maddr now s).1 ds
          e' in
      let s1 = (next_pieces_to_check db pg tx maddr now s).1 in
      let (p, in_first, first) =
        scan_rows-any (claimed_at maddr (now - period) ((copied db pg works tx) s)) cs c decoded
          k in
      let canonical1 =
        (copy_new_pieces-keeps db pg works tx) (AllCids db pg works tx)
          (AllCids-insert db pg works tx) s canonical in
      let (row, there, due, text) =
        claimed-row maddr (now - period) ((copied db pg works tx) s) p c canonical1 in_first
          first in
      let marked : (Has db pg works tx) m p (record row { updated_at = now }) s1 =
        subst ((Has db pg works tx) m p (record row { updated_at = now })) (sym claimed_state)
          (Has-claimed m (now - period) now ((copied db pg works tx) s) p row there in_first) in
      let kept =
        (copy_new_pieces-keeps db pg works tx)
          ((Has db pg works tx) m p (record row { updated_at = now }))
          (λ created updated n d t g.
            (Has-insert db pg works tx) m p (record row { updated_at = now }) created updated n
              (tx.cid_string d) t g)
          s1 marked in
      let canonical2 =
        (copy_new_pieces-keeps db pg works tx) (AllCids db pg works tx)
          (AllCids-insert db pg works tx) s1
          (subst (AllCids db pg works tx) (sym claimed_state)
            (AllCids-claim m (now - period) now ((copied db pg works tx) s) canonical1)) in
      elim (Bool-cases (any (bytes_eq c) ds)) [
        | inr apart ↦ apart
        | inl again ↦
            let (q, in_second, second) =
              scan_rows-any (claimed_at maddr (later - period') ((copied db pg works tx) s1)) ds c
                decoded' again in
            let (row', there', due', text') =
              claimed-row maddr (later - period') ((copied db pg works tx) s1) q c canonical2
                in_second second in
            let same : q ≡ p = text' ∙ sym text in
            let rows_agree =
              sym there' ∙ ap (works.tracker ((copied db pg works tx) s1) m) same ∙ kept in
            absurd (ground (arith, due', rows_agree, h, min'))
      ]
