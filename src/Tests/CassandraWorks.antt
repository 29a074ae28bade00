-- ===== src/Tests/CassandraWorks.antt =====
-- That the Cassandra tables in memory do what the theorems rely on.
use txcartool.Common.{
  ◌≡◌, refl, ap, ◌∙◌, sym, Bool, true, not, ◌&&◌, ◌||◌, Option, none, some, List, [], ◌∷◌, Bytes,
  bytes_eq, bytes_eq_iff, any, any-ext, arith, if◌then◌else◌, Option-cases, Bool-cases, inl, inr,
}
use txcartool.Ldb.Model.{Cid, Multihash, Time, DealInfo}
use txcartool.Yugabyte.Db.{Entry, to_piece, block_at}
use txcartool.Yugabyte.Batches.Order.{apply_all}
use txcartool.Yugabyte.Works.{
  Works, put_entry, put_metadata, set_indexed, put_deal, drop_deal, drop_metadata, drop_holder,
  drop_block, unless_there, new_row, updated_row, is_some, is_deal_of, of_uuid, of_multihash,
}
use txcartool.Tests.Tables.{
  collect, any-collect, first, erase, nub, first-erase, any-nub, either_of,
}
use txcartool.Tests.CassandraRows.{
  Rows, MetadataEntry, BlockEntry, pair_eq, pair_eq_iff, tables, cassandra, write_entry,
  find_metadata, find_deal, find_holder, find_block, block_key, index_row, row_in, block_in,
  metadata_unless, deal_unless,
}

tables-write_entry : (e : Entry) (s : Rows) → tables (write_entry e s) ≡ put_entry e (tables s)
unfolding tables write_entry put_entry first
tables-write_entry (to_piece t pc) s = λ i. record (tables s) { holders = λ u qc. either u qc i }
  where
    either :
        (u : Bytes) (qc : Cid)
        → is_some (find_holder (u, qc) ((t, pc) ∷ s.holders))
          ≡ ((bytes_eq t u && bytes_eq pc qc) || is_some (find_holder (u, qc) s.holders))
    either u qc = ground arith
tables-write_entry (block_at pc m os) s = λ i. record (tables s) { blocks = λ qc n. either qc n i }
  where
    either :
        (qc : Cid) (n : Multihash)
        → block_in
            (find_block (qc, n) (record { piece = pc; multihash = m; offset_size = os } ∷ s.blocks))
          ≡ (if bytes_eq pc qc && bytes_eq m n
              then some os
              else block_in (find_block (qc, n) s.blocks))
    either qc n = ground arith

tables-batch :
    (es : List Entry) (s : Rows)
    → tables (apply_all write_entry es s) ≡ apply_all put_entry es (tables s)
unfolding apply_all
tables-batch [] s = refl
tables-batch (e ∷ es) s =
    tables-batch es (write_entry e s) ∙ ap (apply_all put_entry es) (tables-write_entry e s)

metadata-insert :
    (k version : Bytes) (now : Time) (es : List MetadataEntry) (j : Bytes)
    → row_in (
        find_metadata j
          (metadata_unless (find_metadata k es) (record { key = k; row = new_row version now }) es))
      ≡ (if bytes_eq k j
          then unless_there (row_in (find_metadata j es)) (new_row version now)
          else row_in (find_metadata j es))
unfolding first
metadata-insert k version now es j = elim (Bool-cases (bytes_eq k j)) [
  | inl e ↦
      let same = ap (λ i. find_metadata i es) (sym ((bytes_eq_iff k j).0 e)) in
      elim (Option-cases (find_metadata k es)) [
        | inl f ↦ rw f (rw e (rw (same ∙ f) refl))
        | inr (d, f) ↦ rw f (rw e (rw (same ∙ f) refl))
      ]
  | inr e ↦ elim (Option-cases (find_metadata k es)) [
    | inl f ↦ rw f (rw e refl)
    | inr (d, f) ↦ rw f (rw e refl)
  ]
]

metadata-update :
    (t : Time) (complete : Bool) (k : Bytes) (es : List MetadataEntry) (j : Bytes)
    → row_in (
        find_metadata j
          (record { key = k; row = updated_row t complete (row_in (find_metadata k es)) } ∷ es))
      ≡ (if bytes_eq k j
          then some (updated_row t complete (row_in (find_metadata j es)))
          else row_in (find_metadata j es))
unfolding first
metadata-update t complete k es j = elim (Bool-cases (bytes_eq k j)) [
  | inl e ↦ rw e (
      ap (λ i. some (updated_row t complete (row_in (find_metadata i es))))
        ((bytes_eq_iff k j).0 e))
  | inr e ↦ rw e refl
]

deal-insert :
    (pc : Cid) (d : DealInfo) (es : List (Cid × DealInfo)) (u : Bytes)
    → find_deal u (deal_unless (find_deal d.deal_uuid es) (pc, d) es)
      ≡ (if bytes_eq d.deal_uuid u then unless_there (find_deal u es) (pc, d) else find_deal u es)
unfolding first
deal-insert pc d es u = elim (Bool-cases (bytes_eq d.deal_uuid u)) [
  | inl e ↦
      let same = ap (λ i. find_deal i es) (sym ((bytes_eq_iff d.deal_uuid u).0 e)) in
      elim (Option-cases (find_deal d.deal_uuid es)) [
        | inl f ↦ rw f (rw e (rw (same ∙ f) refl))
        | inr (o, f) ↦ rw f (rw e (rw (same ∙ f) refl))
      ]
  | inr e ↦ elim (Option-cases (find_deal d.deal_uuid es)) [
    | inl f ↦ rw f (rw e refl)
    | inr (o, f) ↦ rw f (rw e refl)
  ]
]

holders-erase :
    (t : Bytes) (pc : Cid) (es : List (Bytes × Cid)) (u : Bytes) (qc : Cid)
    → is_some (find_holder (u, qc) (erase pair_eq pair_eq_iff (λ h. h) (t, pc) es))
      ≡ (not (bytes_eq t u && bytes_eq pc qc) && is_some (find_holder (u, qc) es))
holders-erase t pc es u qc =
    ground (arith, first-erase pair_eq pair_eq_iff (λ h. h) (t, pc) (u, qc) es)

blocks-erase :
    (m : Multihash) (pc : Cid) (es : List BlockEntry) (qc : Cid) (n : Multihash)
    → block_in (find_block (qc, n) (erase pair_eq pair_eq_iff block_key (pc, m) es))
      ≡ (if bytes_eq pc qc && bytes_eq m n then none else block_in (find_block (qc, n) es))
blocks-erase m pc es qc n =
    ground (arith, first-erase pair_eq pair_eq_iff block_key (pc, m) (qc, n) es)

metadata-erase :
    (k : Bytes) (es : List MetadataEntry) (j : Bytes)
    → row_in (find_metadata j (erase bytes_eq bytes_eq_iff (λ e. e.key) k es))
      ≡ (if bytes_eq k j then none else row_in (find_metadata j es))
metadata-erase k es j = ground (arith, first-erase bytes_eq bytes_eq_iff (λ e. e.key) k j es)

deals-listed :
    (pc : Cid) (es : List (Cid × DealInfo)) (u : Bytes)
    → any (of_uuid u) (
        collect
          (λ e. bytes_eq pc e.0)
          (λ e. e.1)
          (nub bytes_eq bytes_eq_iff (λ e. e.1.deal_uuid) es))
      ≡ is_deal_of pc (find_deal u es)
deals-listed pc es u =
    let rows = nub bytes_eq bytes_eq_iff (λ (e : Cid × DealInfo). e.1.deal_uuid) es in
    any-collect (λ e. bytes_eq pc e.0) (λ e. e.1) (of_uuid u) rows
    ∙ any-ext (λ e. bytes_eq pc e.0 && of_uuid u e.1) (λ e. of_uuid u e.1 && bytes_eq pc e.0) rows
        (λ e. ground arith)
    ∙ any-nub bytes_eq bytes_eq_iff (λ e. e.1.deal_uuid) u (λ e. bytes_eq pc e.0) es
    ∙ go (find_deal u es)
  where
    go : (o : Option (Cid × DealInfo)) → either_of o (λ e. bytes_eq pc e.0) ≡ is_deal_of pc o
    go none = refl
    go (some e) = refl

index-listed :
    (pc : Cid) (es : List BlockEntry) (m : Multihash)
    → any
        (of_multihash m)
        (collect (λ e. bytes_eq e.piece pc) index_row (nub pair_eq pair_eq_iff block_key es))
      ≡ is_some (block_in (find_block (pc, m) es))
index-listed pc es m =
    let rows = nub pair_eq pair_eq_iff block_key es in
    any-collect (λ e. bytes_eq e.piece pc) index_row (of_multihash m) rows
    ∙ any-ext (λ e. bytes_eq e.piece pc && bytes_eq e.multihash m)
        (λ e. pair_eq (block_key e) (pc, m) && true) rows (λ e. ground arith)
    ∙ any-nub pair_eq pair_eq_iff block_key (pc, m) (λ e. true) es
    ∙ go (find_block (pc, m) es)
  where
    go : (o : Option BlockEntry) → either_of o (λ e. true) ≡ is_some (block_in o)
    go none = refl
    go (some e) = refl

holders-listed :
    (t : Bytes) (es : List (Bytes × Cid)) (pc : Cid)
    → any (bytes_eq pc) (collect (λ e. bytes_eq e.0 t) (λ e. e.1) es)
      ≡ is_some (find_holder (t, pc) es)
unfolding collect first
holders-listed t [] pc = refl
holders-listed t (e ∷ es) pc =
    ground (arith, holders-listed t es pc, bytes_eq_iff pc e.1, bytes_eq_iff e.1 pc)

pub cassandra-Works : Works cassandra
unfolding cassandra tables put_metadata set_indexed put_deal drop_deal drop_metadata drop_holder
    drop_block
cassandra-Works = record {
  tables = tables;
  insert_metadata_works = λ k version now s. (
    refl,
    λ i. record (tables s) { metadata = λ j. metadata-insert k version now s.metadata j i },
  );
  insert_deal_works =
      λ pc d s. (refl, λ i. record (tables s) { deals = λ u. deal-insert pc d s.deals u i });
  execute_batch_works = λ es s. (refl, tables-batch es s);
  update_metadata_works = λ t complete k s. (
    refl,
    λ i. record (tables s) { metadata = λ j. metadata-update t complete k s.metadata j i },
  );
  delete_deal_works = λ u s. (
    refl,
    λ i. record (tables s) {
      deals = λ v.
          first-erase bytes_eq bytes_eq_iff (λ (e : Cid × DealInfo). e.1.deal_uuid) u v s.deals i;
    },
  );
  delete_metadata_works =
      λ k s. (refl, λ i. record (tables s) { metadata = λ j. metadata-erase k s.metadata j i });
  delete_to_piece_works = λ t pc s.
      (refl, λ i. record (tables s) { holders = λ u qc. holders-erase t pc s.holders u qc i });
  delete_block_works = λ m pc s.
      (refl, λ i. record (tables s) { blocks = λ qc n. blocks-erase m pc s.blocks qc n i });
  select_offset_size_works = λ pc m s. refl;
  select_metadata_works = λ k s. refl;
  select_deals_works = λ pc s. (refl, λ u. deals-listed pc s.deals u);
  select_holders_works = λ t s. (refl, λ pc. holders-listed t s.holders pc);
  select_index_works = λ pc s. (refl, λ m. index-listed pc s.blocks m);
}

pub tables-cassandra : (s : Rows) → cassandra-Works.tables s ≡ tables s
unfolding cassandra-Works
tables-cassandra s = refl
