-- ===== src/Yugabyte/Store/Reads.antt =====
-- What the reads of the index directory over Cassandra return, of the tables.
use txcartool.Common.{
  ◌≡◌, refl, Bool, false, Option, none, some, List, [], ◌∷◌, Bytes, Result, ok, err, panic, absent,
  bytes_eq, any,
}
use txcartool.Ldb.Model.{Cid, Multihash, Time, OffsetSize}
use txcartool.Yugabyte.Db.{Cassandra, Texts, MetadataRow}
use txcartool.Yugabyte.Errors.{trim_multihash, normalized, normalize_error, is_not_found_err}
use txcartool.Yugabyte.Works.{Works, Reads, found, row_of}
use txcartool.Yugabyte.Store.{
  scan_rows, some_found, get_offset_size, pieces_containing_multihash, get_metadata_row,
}

-- A scan of bytes that are all valid cids.
pub scan-cast :
    (tx : Texts) (reads : Reads tx) (rows : List Bytes) → scan_rows tx.cid_cast rows none ≡ ok rows
unfolding scan_rows
scan-cast tx reads [] = refl
scan-cast tx reads (c ∷ rows) = rw (reads.cid_cast_works c) (rw (scan-cast tx reads rows) refl)

abbrev pub listed : Cid → Result (List Cid) → Bool
listed pc (ok cs) = any (bytes_eq pc) cs
listed pc (err e) = false
listed pc panic = false

-- What a piece with no row or a multihash with no piece comes to: the error of a missing key.
abbrev pub or_absent {ℓ} : {A : Type ℓ} → Option A → Result A
or_absent none = err absent
or_absent (some a) = ok a

abbrev pub row_or_absent : Option (MetadataRow × Time) → Result MetadataRow
row_or_absent none = err absent
row_or_absent (some (md, created)) = ok md

module _ {S : Type 0} (db : Cassandra S) (works : Works db) (tx : Texts) (s : S) where
  pub listed-pieces_containing_multihash :
      (reads : Reads tx) (m : Multihash) (pc : Cid)
      → listed pc (pieces_containing_multihash db tx m s)
        ≡ (works.tables s).holders (trim_multihash m) pc
  unfolding pieces_containing_multihash
  listed-pieces_containing_multihash reads m pc =
      let h = works.select_holders_works (trim_multihash m) s in
      rw h.0 (
        rw (scan-cast tx reads (db.select_holders (trim_multihash m) s).0)
          (go (db.select_holders (trim_multihash m) s).0 (h.1 pc)))
    where
      go :
          (rows : List Bytes)
          → any (bytes_eq pc) rows ≡ (works.tables s).holders (trim_multihash m) pc
          → listed pc (some_found db tx rows) ≡ (works.tables s).holders (trim_multihash m) pc
      go [] e = e
      go (c ∷ cs) e = e

  pub get_offset_size_lem :
      (pc : Cid) (m : Multihash)
      → get_offset_size db tx pc m s ≡ or_absent ((works.tables s).blocks pc m)
  unfolding get_offset_size normalize_error is_not_found_err
  get_offset_size_lem pc m =
      rw (works.select_offset_size_works pc m s) (go ((works.tables s).blocks pc m))
    where
      go : (o : Option OffsetSize) → normalized (found o) ≡ or_absent o
      go none = refl
      go (some os) = refl

  pub get_metadata_row_lem :
      (pc : Cid)
      → get_metadata_row db tx pc s ≡ row_or_absent ((works.tables s).metadata (tx.cid_string pc))
  unfolding get_metadata_row normalize_error is_not_found_err
  get_metadata_row_lem pc =
      rw (works.select_metadata_works (tx.cid_string pc) s)
        (go ((works.tables s).metadata (tx.cid_string pc)))
    where
      go : (o : Option (MetadataRow × Time)) → normalized (row_of o) ≡ row_or_absent o
      go none = refl
      go (some row) = refl
