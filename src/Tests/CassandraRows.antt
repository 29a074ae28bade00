-- ===== src/Tests/CassandraRows.antt =====
-- The Cassandra tables in memory, with the laws that the theorems rest on.
use txcartool.Common.{
  ◌≡◌, ap, Bool, true, ◌&&◌, ◌↔◌, Option, none, some, List, [], ◌∷◌, Bytes, ok, bytes_eq,
  bytes_eq_iff, leb, arith,
}
use txcartool.Ldb.Model.{Cid, Multihash, Time, DealInfo, OffsetSize}
use txcartool.Yugabyte.Db.{Cassandra, MetadataRow, IndexRow, Entry, to_piece, block_at}
use txcartool.Yugabyte.Batches.Order.{apply_all}
use txcartool.Yugabyte.Works.{Tables, new_row, updated_row, found, row_of, is_some}
use txcartool.Yugabyte.Tracker.Works.{TrackerRow}
use txcartool.Tests.Tables.{collect, first, erase, nub}

pub record MetadataEntry : Type 0 where
  pub key : Bytes
  pub row : MetadataRow × Time

pub record BlockEntry : Type 0 where
  pub piece : Cid
  pub multihash : Multihash
  pub offset_size : OffsetSize

pub record TrackerEntry : Type 0 where
  pub miner : Bytes
  pub piece : Bytes
  pub row : TrackerRow

-- the rows of the tables, those of the tracker too
pub record Rows : Type 0 where
  pub metadata : List MetadataEntry
  pub deals : List (Cid × DealInfo)
  pub holders : List (Bytes × Cid)
  pub blocks : List BlockEntry
  pub tracker : List TrackerEntry

abbrev pub no_rows : Rows
no_rows = record { metadata = []; deals = []; holders = []; blocks = []; tracker = [] }

abbrev pub pair_eq : Bytes × Bytes → Bytes × Bytes → Bool
pair_eq (a, b) (c, d) = bytes_eq a c && bytes_eq b d

pub pair_eq_iff : (a b : Bytes × Bytes) → (pair_eq a b ≡ true) ↔ (a ≡ b)
pair_eq_iff a b = (forth, back)
  where
    forth : pair_eq a b ≡ true → a ≡ b
    forth h =
        let l : a.0 ≡ b.0 = ground (arith, h, bytes_eq_iff a.0 b.0) in
        let r : a.1 ≡ b.1 = ground (arith, h, bytes_eq_iff a.1 b.1) in λ i. (l i, r i)

    back : a ≡ b → pair_eq a b ≡ true
    back h =
        let l = ap (λ p. p.0) h in
        let r = ap (λ p. p.1) h in ground (arith, l, r, bytes_eq_iff a.0 b.0, bytes_eq_iff a.1 b.1)

abbrev pub find_metadata : Bytes → List MetadataEntry → Option MetadataEntry
find_metadata = first bytes_eq bytes_eq_iff (λ e. e.key)

abbrev pub find_deal : Bytes → List (Cid × DealInfo) → Option (Cid × DealInfo)
find_deal = first bytes_eq bytes_eq_iff (λ (pc, d). d.deal_uuid)

abbrev pub find_holder : Bytes × Cid → List (Bytes × Cid) → Option (Bytes × Cid)
find_holder = first pair_eq pair_eq_iff (λ h. h)

abbrev pub block_key : BlockEntry → Bytes × Bytes
block_key e = (e.piece, e.multihash)

abbrev pub find_block : Bytes × Bytes → List BlockEntry → Option BlockEntry
find_block = first pair_eq pair_eq_iff block_key

abbrev pub row_in : Option MetadataEntry → Option (MetadataRow × Time)
row_in none = none
row_in (some e) = some e.row

abbrev pub block_in : Option BlockEntry → Option OffsetSize
block_in none = none
block_in (some e) = some e.offset_size

unfoldable pub tables : Rows → Tables
unfolding first
tables s = record {
  metadata = λ k. row_in (find_metadata k s.metadata);
  deals = λ u. find_deal u s.deals;
  holders = λ t pc. is_some (find_holder (t, pc) s.holders);
  blocks = λ pc m. block_in (find_block (pc, m) s.blocks);
}

abbrev pub metadata_unless :
    Option MetadataEntry → MetadataEntry → List MetadataEntry → List MetadataEntry
metadata_unless none e es = e ∷ es
metadata_unless (some d) e es = es

abbrev pub deal_unless :
    Option (Cid × DealInfo) → Cid × DealInfo → List (Cid × DealInfo) → List (Cid × DealInfo)
deal_unless none e es = e ∷ es
deal_unless (some d) e es = es

unfoldable pub write_entry : Entry → Rows → Rows
write_entry (to_piece t pc) s = record s { holders = (t, pc) ∷ s.holders }
write_entry (block_at pc m os) s = record s {
  blocks = record { piece = pc; multihash = m; offset_size = os } ∷ s.blocks;
}

abbrev pub index_row : BlockEntry → IndexRow
index_row e = record { payload_multihash = e.multihash; offset_size = e.offset_size }

unfoldable pub cassandra : Cassandra Rows
unfolding first erase nub collect write_entry apply_all
cassandra = record {
  insert_metadata = λ k version now s. (
    ok tt,
    record s {
      metadata =
          metadata_unless (find_metadata k s.metadata)
            (record { key = k; row = new_row version now }) s.metadata;
    },
  );
  insert_deal = λ pc d s.
      (ok tt, record s { deals = deal_unless (find_deal d.deal_uuid s.deals) (pc, d) s.deals });
  select_offset_size = λ pc m s. found (block_in (find_block (pc, m) s.blocks));
  select_metadata = λ k s. row_of (row_in (find_metadata k s.metadata));
  select_deals = λ pc s. (
    collect (λ e. bytes_eq pc e.0) (λ e. e.1)
        (nub bytes_eq bytes_eq_iff (λ e. e.1.deal_uuid) s.deals),
    none,
  );
  select_holders = λ t s. (collect (λ e. bytes_eq e.0 t) (λ e. e.1) s.holders, none);
  select_index = λ pc s. (
    collect (λ e. bytes_eq e.piece pc) index_row (nub pair_eq pair_eq_iff block_key s.blocks),
    none,
  );
  select_pieces = λ s. (collect (λ e. true) (λ e. e.key) s.metadata, none);
  execute_batch = λ es s. (ok tt, apply_all write_entry es s);
  update_metadata = λ t complete k s. (
    ok tt,
    record s {
      metadata =
          record { key = k; row = updated_row t complete (row_in (find_metadata k s.metadata)) }
          ∷ s.metadata;
    },
  );
  delete_deal = λ u s.
      (ok tt, record s { deals = erase bytes_eq bytes_eq_iff (λ e. e.1.deal_uuid) u s.deals });
  delete_metadata =
      λ k s. (ok tt, record s { metadata = erase bytes_eq bytes_eq_iff (λ e. e.key) k s.metadata });
  delete_to_piece = λ t pc s.
      (ok tt, record s { holders = erase pair_eq pair_eq_iff (λ h. h) (t, pc) s.holders });
  delete_block =
      λ m pc s. (ok tt, record s { blocks = erase pair_eq pair_eq_iff block_key (pc, m) s.blocks });
  select_since = λ t s. (collect (λ e. leb t e.row.1) (λ e. (e.key, e.row.1)) s.metadata, none);
  select_miners = λ pc s. (collect (λ e. bytes_eq pc e.0) (λ e. e.1.miner_addr) s.deals, none);
  count_deals = λ m s. ok 0;
}
