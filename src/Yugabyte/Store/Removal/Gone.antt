-- ===== src/Yugabyte/Store/Removal/Gone.antt =====
-- What the removal of a piece's last deal leaves in the tables.
use txcartool.Common.{
  ℕ, zero, suc, ◌<◌, ◌≡◌, refl, ap, ◌∙◌, Bool, true, false, ◌&&◌, none, List, [], ◌∷◌, map, Bytes,
  ok, Exec, bytes_eq, bytes_eq_iff, bytes_eq_refl, any, arith, inl, inr, Bool-cases, if◌then◌else◌,
}
use txcartool.Ldb.Model.{Cid, Multihash}
use txcartool.Yugabyte.Db.{Cassandra, Texts, IndexRow, MetadataRow}
use txcartool.Yugabyte.Errors.{trim_multihash}
use txcartool.Yugabyte.Settings.{Settings}
use txcartool.Yugabyte.Queue.{exec_queue, exec_with_concurrency}
use txcartool.Yugabyte.Batches.Order.{apply_all, then-works}
use txcartool.Yugabyte.Works.{Works, Reads, Tables, drop_holder, drop_block, of_multihash}
use txcartool.Yugabyte.Store.{
  IndexRecord, indexed, send_records, get_index, get_metadata_row, piece_has_records,
}
use txcartool.Yugabyte.Store.Removal.{multihash_of, remove_record, remove_indexes}

-- Where no item fails, the queue is emptied.
pub exec_queue-works :
    {A S T : Type 0} (exec : A → Exec S (Unit {0})) (view : S → T) (effect : A → T → T)
    → ((a : A) (s : S) → ((exec a s).0 ≡ ok tt) × (view (exec a s).1 ≡ effect a (view s)))
    → (live : ℕ) (items : List A) (s : S)
    → let after = exec_queue exec (suc live) items (ok tt) s in
      (after.0 ≡ ok tt) × (view after.1 ≡ apply_all effect items (view s))
unfolding exec_queue apply_all
exec_queue-works exec view effect works live [] s = (refl, refl)
exec_queue-works exec view effect works live (x ∷ xs) s =
    let h = works x s in
    let k = exec_queue-works exec view effect works live xs (exec x s).1 in
    rw (exec_queue, h.0) (k.0, k.1 ∙ ap (λ t. apply_all effect xs t) h.1)

-- the tables without the multihash of a row, in both places
unfoldable pub drop_row : Cid → IndexRow → Tables → Tables
drop_row pc row v =
    drop_block row.payload_multihash pc (drop_holder (trim_multihash row.payload_multihash) pc v)

abbrev pub dropped : Cid → List IndexRow → Tables → Tables
dropped pc rows v = apply_all (drop_row pc) rows v

pub blocks-dropped :
    (pc : Cid) (rows : List IndexRow) (v : Tables) (qc : Cid) (m : Multihash)
    → (dropped pc rows v).blocks qc m
      ≡ (if bytes_eq pc qc && any (of_multihash m) rows then none else v.blocks qc m)
unfolding apply_all drop_row drop_block drop_holder
blocks-dropped pc [] v qc m = ground arith
blocks-dropped pc (row ∷ rows) v qc m =
    let k = blocks-dropped pc rows (drop_row pc row v) qc m in ground (arith, k)

pub metadata-dropped :
    (pc : Cid) (rows : List IndexRow) (v : Tables) (k : Bytes)
    → (dropped pc rows v).metadata k ≡ v.metadata k
unfolding apply_all drop_row drop_block drop_holder
metadata-dropped pc [] v k = refl
metadata-dropped pc (row ∷ rows) v k = metadata-dropped pc rows (drop_row pc row v) k

pub holders-dropped_ne :
    (pc : Cid) (rows : List IndexRow) (v : Tables) (t : Bytes) (qc : Cid)
    → bytes_eq pc qc ≡ false
    → (dropped pc rows v).holders t qc ≡ v.holders t qc
unfolding apply_all drop_row drop_block drop_holder
holders-dropped_ne pc [] v t qc h = refl
holders-dropped_ne pc (row ∷ rows) v t qc h =
    let k = holders-dropped_ne pc rows (drop_row pc row v) t qc h in ground (arith, k)

holders-kept :
    (pc : Cid) (rows : List IndexRow) (v : Tables) (t : Bytes) (qc : Cid)
    → v.holders t qc ≡ false
    → (dropped pc rows v).holders t qc ≡ false
unfolding apply_all drop_row drop_block drop_holder
holders-kept pc [] v t qc h = h
holders-kept pc (row ∷ rows) v t qc h =
    holders-kept pc rows (drop_row pc row v) t qc (ground (arith, h))

pub holders-dropped :
    (pc : Cid) (rows : List IndexRow) (v : Tables) (m : Multihash)
    → any (of_multihash m) rows ≡ true
    → (dropped pc rows v).holders (trim_multihash m) pc ≡ false
unfolding apply_all drop_row drop_block drop_holder
holders-dropped pc [] v m h = ground arith
holders-dropped pc (row ∷ rows) v m h =
    let later = holders-dropped pc rows (drop_row pc row v) m in
    let kept = holders-kept pc rows (drop_row pc row v) (trim_multihash m) pc in
    elim (Bool-cases (bytes_eq row.payload_multihash m)) [
      | inl e ↦ kept (
          ground (
            arith,
            (bytes_eq_iff row.payload_multihash m).0 e,
            bytes_eq_refl pc,
            bytes_eq_refl (trim_multihash m),
          ))
      | inr e ↦ later (ground (arith, h, e))
    ]

if_same : {A : Type 0} (b : Bool) (x : A) → (if b then x else x) ≡ x
if_same true x = refl
if_same false x = refl

module _ {S : Type 0} (db : Cassandra S) (works : Works db) (tx : Texts) (reads : Reads tx)
    (settings : Settings) (pc : Cid) where
  abbrev to_record : IndexRow → IndexRecord
  to_record row =
      indexed (record { cid = tx.new_raw_cid row.payload_multihash; offset_size = row.offset_size })

  send_records-map : (rows : List IndexRow) → send_records tx rows none ≡ ok (map to_record rows)
  unfolding send_records
  send_records-map [] = refl
  send_records-map (row ∷ rows) =
      rw (reads.mh_from_bytes_works row.payload_multihash) (rw (send_records-map rows) refl)

  abbrev pub rows_at : S → List IndexRow
  rows_at s = (db.select_index pc s).0

  get_index-works :
      (row : MetadataRow) (s : S)
      → get_metadata_row db tx pc s ≡ ok row
      → get_index db tx pc s ≡ ok (map to_record (rows_at s))
  unfolding get_index
  get_index-works row s e = rw (works.select_index_works pc s).0 (
      rw (send_records-map (rows_at s)) (
        rw e
          (if_same (piece_has_records db tx (rows_at s, none)) (ok (map to_record (rows_at s))))))

  abbrev effect : IndexRecord → Tables → Tables
  effect rec v =
      drop_block (multihash_of db tx settings rec) pc
        (drop_holder (trim_multihash (multihash_of db tx settings rec)) pc v)

  remove_record-works :
      (rec : IndexRecord) (s : S)
      → ((remove_record db tx settings pc rec s).0 ≡ ok tt)
        × (works.tables (remove_record db tx settings pc rec s).1 ≡ effect rec (works.tables s))
  unfolding remove_record
  remove_record-works rec s =
      let m = multihash_of db tx settings rec in
      then-works works.tables (db.delete_to_piece (trim_multihash m) pc) (db.delete_block m pc)
        (drop_holder (trim_multihash m) pc) (drop_block m pc) s
        (works.delete_to_piece_works (trim_multihash m) pc s)
        (works.delete_block_works m pc (db.delete_to_piece (trim_multihash m) pc s).1)

  effect-dropped :
      (rows : List IndexRow) (v : Tables)
      → apply_all effect (map to_record rows) v ≡ dropped pc rows v
  unfolding apply_all drop_row
  effect-dropped [] v = refl
  effect-dropped (row ∷ rows) v =
      ap
        (λ m.
          apply_all effect (map to_record rows)
            (drop_block m pc (drop_holder (trim_multihash m) pc v)))
        (reads.hash_raw row.payload_multihash)
      ∙ effect-dropped rows (drop_row pc row v)

  -- Where the piece has metadata, its rows are dropped and no error comes back.
  pub remove_indexes-works :
      (row : MetadataRow) (s : S)
      → get_metadata_row db tx pc s ≡ ok row
      → 0 < settings.payload_pieces_parallelism
      → ((remove_indexes db tx settings pc s).0 ≡ ok tt)
        × (works.tables (remove_indexes db tx settings pc s).1
            ≡ dropped pc (rows_at s) (works.tables s))
  unfolding remove_indexes exec_with_concurrency
  remove_indexes-works row s e pos =
      rw (get_index-works row s e) (go settings.payload_pieces_parallelism pos)
    where
      go :
          (n : ℕ)
          → 0 < n
          → let after =
              exec_queue
                (remove_record db tx settings pc)
                n
                (map to_record (rows_at s))
                (ok tt)
                s in
            (after.0 ≡ ok tt) × (works.tables after.1 ≡ dropped pc (rows_at s) (works.tables s))
      go zero h = absurd (omega arith)
      go (suc live) h =
          let k =
            exec_queue-works (remove_record db tx settings pc) works.tables effect
              remove_record-works live (map to_record (rows_at s)) s in
          (k.0, k.1 ∙ effect-dropped (rows_at s) (works.tables s))
