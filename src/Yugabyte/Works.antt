-- ===== src/Yugabyte/Works.antt =====
-- What the index directory relies on in the two databases: no statement fails, and each does to the
-- tables what CQL says of it.
pub mod Entries
use txcartool.Common.{
  ℕ, ◌≡◌, Bool, true, false, ◌&&◌, ◌||◌, not, Option, none, some, List, [], ◌∷◌, Bytes, Result, ok,
  err, Error, not_found, bytes_eq, if◌then◌else◌, any,
}
use txcartool.Ldb.Model.{Cid, Multihash, Time, DealInfo, OffsetSize}
use txcartool.Yugabyte.Db.{Cassandra, Texts, Iter, MetadataRow, IndexRow, Entry, to_piece, block_at}
use txcartool.Yugabyte.Batches.Order.{apply_all}

-- The tables by their keys. The last part of a row of `PieceMetadata` is `CreatedAt`.
pub record Tables : Type 0 where
  pub metadata : Bytes → Option (MetadataRow × Time)
  pub deals : Bytes → Option (Cid × DealInfo)
  pub holders : Bytes → Cid → Bool
  pub blocks : Cid → Multihash → Option OffsetSize

abbrev pub unless_there {ℓ} : {A : Type ℓ} → Option A → A → Option A
unless_there none a = some a
unless_there (some b) a = some b

abbrev pub new_row : Bytes → Time → MetadataRow × Time
new_row version now = (record { version = version; indexed_at = 0; complete_index = false }, now)

-- An `UPDATE` of a row that is missing makes one, with nulls in the other columns.
abbrev pub updated_row : Time → Bool → Option (MetadataRow × Time) → MetadataRow × Time
updated_row t complete none =
    (record { version = []; indexed_at = t; complete_index = complete }, 0)
updated_row t complete (some (md, created)) =
    (record md { indexed_at = t; complete_index = complete }, created)

unfoldable pub put_entry : Entry → Tables → Tables
put_entry (to_piece t pc) v = record v {
  holders = λ u qc. (bytes_eq t u && bytes_eq pc qc) || v.holders u qc;
}
put_entry (block_at pc m os) v = record v {
  blocks = λ qc n. if bytes_eq pc qc && bytes_eq m n then some os else v.blocks qc n;
}

unfoldable pub put_metadata : Bytes → Bytes → Time → Tables → Tables
put_metadata key version now v = record v {
  metadata = λ k.
      if bytes_eq key k then unless_there (v.metadata k) (new_row version now) else v.metadata k;
}

unfoldable pub set_indexed : Time → Bool → Bytes → Tables → Tables
set_indexed t complete key v = record v {
  metadata =
      λ k. if bytes_eq key k then some (updated_row t complete (v.metadata k)) else v.metadata k;
}

unfoldable pub put_deal : Cid → DealInfo → Tables → Tables
put_deal pc d v = record v {
  deals = λ u. if bytes_eq d.deal_uuid u then unless_there (v.deals u) (pc, d) else v.deals u;
}

unfoldable pub drop_deal : Bytes → Tables → Tables
drop_deal uuid v = record v { deals = λ u. if bytes_eq uuid u then none else v.deals u }

unfoldable pub drop_metadata : Bytes → Tables → Tables
drop_metadata key v = record v { metadata = λ k. if bytes_eq key k then none else v.metadata k }

unfoldable pub drop_holder : Bytes → Cid → Tables → Tables
drop_holder t pc v = record v {
  holders = λ u qc. not (bytes_eq t u && bytes_eq pc qc) && v.holders u qc;
}

unfoldable pub drop_block : Multihash → Cid → Tables → Tables
drop_block m pc v = record v {
  blocks = λ qc n. if bytes_eq pc qc && bytes_eq m n then none else v.blocks qc n;
}

abbrev pub found {ℓ} : {A : Type ℓ} → Option A → Result A
found none = err not_found
found (some a) = ok a

abbrev pub row_of : Option (MetadataRow × Time) → Result MetadataRow
row_of none = err not_found
row_of (some (md, created)) = ok md

abbrev pub is_some {ℓ} : {A : Type ℓ} → Option A → Bool
is_some none = false
is_some (some a) = true

abbrev pub is_deal_of : Cid → Option (Cid × DealInfo) → Bool
is_deal_of pc none = false
is_deal_of pc (some (qc, d)) = bytes_eq pc qc

abbrev pub of_uuid : Bytes → DealInfo → Bool
of_uuid u d = bytes_eq d.deal_uuid u

abbrev pub of_multihash : Multihash → IndexRow → Bool
of_multihash m row = bytes_eq row.payload_multihash m

pub record Works {S : Type 0} (db : Cassandra S) : Type 0 where
  pub tables : S → Tables
  pub insert_metadata_works :
      (k version : Bytes) (now : Time) (s : S)
      → ((db.insert_metadata k version now s).0 ≡ ok tt)
        × (tables (db.insert_metadata k version now s).1 ≡ put_metadata k version now (tables s))
  pub insert_deal_works :
      (pc : Cid) (d : DealInfo) (s : S)
      → ((db.insert_deal pc d s).0 ≡ ok tt)
        × (tables (db.insert_deal pc d s).1 ≡ put_deal pc d (tables s))
  pub execute_batch_works :
      (es : List Entry) (s : S)
      → ((db.execute_batch es s).0 ≡ ok tt)
        × (tables (db.execute_batch es s).1 ≡ apply_all put_entry es (tables s))
  pub update_metadata_works :
      (t : Time) (complete : Bool) (k : Bytes) (s : S)
      → ((db.update_metadata t complete k s).0 ≡ ok tt)
        × (tables (db.update_metadata t complete k s).1 ≡ set_indexed t complete k (tables s))
  pub delete_deal_works :
      (uuid : Bytes) (s : S)
      → ((db.delete_deal uuid s).0 ≡ ok tt)
        × (tables (db.delete_deal uuid s).1 ≡ drop_deal uuid (tables s))
  pub delete_metadata_works :
      (k : Bytes) (s : S)
      → ((db.delete_metadata k s).0 ≡ ok tt)
        × (tables (db.delete_metadata k s).1 ≡ drop_metadata k (tables s))
  pub delete_to_piece_works :
      (t : Bytes) (pc : Cid) (s : S)
      → ((db.delete_to_piece t pc s).0 ≡ ok tt)
        × (tables (db.delete_to_piece t pc s).1 ≡ drop_holder t pc (tables s))
  pub delete_block_works :
      (m : Multihash) (pc : Cid) (s : S)
      → ((db.delete_block m pc s).0 ≡ ok tt)
        × (tables (db.delete_block m pc s).1 ≡ drop_block m pc (tables s))
  pub select_offset_size_works :
      (pc : Cid) (m : Multihash) (s : S)
      → db.select_offset_size pc m s ≡ found ((tables s).blocks pc m)
  pub select_metadata_works :
      (k : Bytes) (s : S) → db.select_metadata k s ≡ row_of ((tables s).metadata k)
  -- the rows that a scan gives, in whatever order
  pub select_deals_works :
      (pc : Cid) (s : S)
      → ((db.select_deals pc s).1 ≡ none)
        × ((u : Bytes)
            → any (of_uuid u) (db.select_deals pc s).0 ≡ is_deal_of pc ((tables s).deals u))
  pub select_holders_works :
      (t : Bytes) (s : S)
      → ((db.select_holders t s).1 ≡ none)
        × ((pc : Cid) → any (bytes_eq pc) (db.select_holders t s).0 ≡ (tables s).holders t pc)
  pub select_index_works :
      (pc : Cid) (s : S)
      → ((db.select_index pc s).1 ≡ none)
        × ((m : Multihash)
            → any (of_multihash m) (db.select_index pc s).0 ≡ is_some ((tables s).blocks pc m))

-- The text forms of cids and multihashes that are valid.
pub record Reads (tx : Texts) : Type 0 where
  pub cid_cast_works : (c : Cid) → tx.cid_cast c ≡ ok c
  pub hash_raw : (m : Multihash) → tx.cid_hash (tx.new_raw_cid m) ≡ m
  pub mh_from_bytes_works : (m : Multihash) → tx.mh_from_bytes m ≡ ok m
  pub cid_injective : (c d : Cid) → tx.cid_string c ≡ tx.cid_string d → c ≡ d
