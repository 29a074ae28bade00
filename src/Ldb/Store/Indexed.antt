-- ===== src/Ldb/Store/Indexed.antt =====
-- `AddIndex` of lib/boostd-data/ldb/service.go on the view.
use txcartool.Common.{
  ℕ, ◌+◌, ◌%◌, ◌^◌, ◌≡◌, refl, ap, Bool, Option, none, some, List, [], ◌∷◌, map, Bytes, Result, ok,
  catch_not_found, if_found, arith,
}
use mathlib.Core.Option
use txcartool.Ldb.Model.{Cid, Time, Record, LeveldbMetadata, new_leveldb_metadata, to_wire}
use txcartool.Ldb.Uvarint
use txcartool.Ldb.Uvarint.{IsU64, uvarint, value, put_uvarint}
use txcartool.Ldb.Uvarint.RoundTrip.{uvarint-put}
use txcartool.Ldb.Env.{Env}
use txcartool.Ldb.Works.{Works, Named}
use txcartool.Ldb.Keys.{record_key, key_cursor_prefix, dskey_next_cursor, uvarint_buffer, decimal}
use txcartool.Ldb.Cursor.{next_cursor, set_next_cursor}
use txcartool.Ldb.Tables.{get_piece_cid_to_metadata}
use txcartool.Ldb.Tables.Laws.{
  stored, after_set, set_metadata_lem, get_metadata_lem, decode_metadata, decode-metadata_bytes,
}
use txcartool.Ldb.Index.{set_multihashes_to_piece_cid, add_index_record}
use txcartool.Ldb.View.{View, Represents, encoded, put_piece, put_block}
use txcartool.Ldb.View.Writes.{
  Represents-put_piece, Represents-set_next, Represents-put_block, Represents-sync,
}
use txcartool.Ldb.View.Multihashes.{index_holders, set_multihashes_lem}
use txcartool.Ldb.Store.Indexing.{progress, allocate, add_records, finish_index, add_index}

-- the blocks of a piece, written under its cursor
unfoldable pub put_blocks : {S : Type 0} → Env S → ℕ → List Record → View → View
put_blocks env c [] v = v
put_blocks env c (r ∷ rs) v = put_blocks env c rs (put_block c (env.cid_hash r.cid) r.offset_size v)

-- The metadata that a piece is indexed with, and the next cursor: a piece that has metadata keeps
-- its cursor.
unfoldable pub given_metadata : Bool → Option LeveldbMetadata → ℕ → LeveldbMetadata
given_metadata complete none next = record new_leveldb_metadata {
  metadata = record new_leveldb_metadata.metadata { complete_index = complete };
  cursor = next;
}
given_metadata complete (some md) next = stored md

unfoldable pub next_after : Option LeveldbMetadata → ℕ → ℕ
next_after none next = (next + 1) % 2 ^ 64
next_after (some md) next = next

-- What indexing a piece does to the view.
unfoldable pub index_piece : {S : Type 0} → Env S → Cid → List Record → Bool → Time → View → View
index_piece env pc records complete now v =
    let md = given_metadata complete (v.pieces pc) v.next in
    put_piece pc (record md { metadata = record md.metadata { indexed_at = now } })
      (put_blocks env md.cursor records (
        let w = index_holders env (map (λ r. r.cid) records) pc v in
        record w { next = next_after (v.pieces pc) v.next }))

module _ {S : Type 0} (env : Env S) (works : Works env) (named : Named env) where
  -- The metadata of a piece as it is read.
  pub read_piece :
      (pc : Cid) (s : S) (v : View)
      → Represents env works s v
      → catch_not_found (get_piece_cid_to_metadata env pc) s
        ≡ (ok (Option.map stored (v.pieces pc)), s)
  read_piece pc s v rep =
      rw (get_metadata_lem env works pc s) (rw (rep.pieces_at pc) (at (v.pieces pc)))
    where
      at :
          (o : Option LeveldbMetadata)
          → ◌≡◌ {A = Result (Option LeveldbMetadata) × S}
              (
                if_found (
                    decode_metadata env works
                      (encoded (λ md. works.metadata_bytes (to_wire md)) o)),
                s,
              )
              (ok (Option.map stored o), s)
      at none = unfold decode_metadata in refl
      at (some md) = rw (decode-metadata_bytes env works md)

  next_cursor_lem :
      (s : S) (v : View)
      → Represents env works s v
      → next_cursor env s ≡ (ok (v.next, key_cursor_prefix v.next), s)
  unfolding next_cursor uvarint_buffer
  next_cursor_lem s v rep =
      rw (works.get_works (dskey_next_cursor env) s)
        (rw rep.next_at (rw (uvarint-put v.next _ rep.next_IsU64)))

  allocate_lem :
      (complete : Bool) (o : Option LeveldbMetadata) (s : S) (v : View)
      → Represents env works s v
      → (t : S) × (allocate env complete (Option.map stored o) s ≡ (
        ok (
          given_metadata complete o v.next,
          key_cursor_prefix (given_metadata complete o v.next).cursor,
        ),
        t,
      ))
        × Represents env works t (record v { next = next_after o v.next })
  unfolding allocate given_metadata next_after set_next_cursor
  allocate_lem complete (some md) s v rep = (s, refl, rep)
  allocate_lem complete none s v rep =
      let n = (v.next + 1) % 2 ^ 64 in
      (
        (env.put (dskey_next_cursor env) (uvarint_buffer n) s).1,
        rw (next_cursor_lem s v rep)
            (ground (arith, works.put_works (dskey_next_cursor env) (uvarint_buffer n) s)),
        Represents-set_next env works named s v rep n (omega arith),
      )

  add_records_lem :
      (c : ℕ) (rs : List Record) (s : S) (v : View)
      → IsU64 c
      → Represents env works s v
      → (t : S) × (add_records env (key_cursor_prefix c) rs s ≡ (ok tt, t))
        × Represents env works t (put_blocks env c rs v)
  unfolding add_records put_blocks add_index_record
  add_records_lem c [] s v hc rep = (s, refl, rep)
  add_records_lem c (r ∷ rs) s v hc rep =
      let key = record_key env (key_cursor_prefix c) (env.cid_hash r.cid) in
      let val = Uvarint.encode_offset_size r.offset_size in
      let s' = (env.put key val s).1 in
      let (t, e, rep') =
        add_records_lem c rs s' (put_block c (env.cid_hash r.cid) r.offset_size v) hc
          (Represents-put_block env works named s v rep c (env.cid_hash r.cid) r.offset_size hc) in
      (t, rw (works.put_works key val s) e, rep')

  finish_lem :
      (pc : Cid) (now : Time) (md : LeveldbMetadata) (s : S) (v : View)
      → Represents env works s v
      → (t : S) × (finish_index env pc now md s ≡ (progress 95 ∷ progress 100 ∷ [], t))
        × Represents env works t
            (put_piece pc (record md { metadata = record md.metadata { indexed_at = now } }) v)
  unfolding finish_index
  finish_lem pc now md s v rep =
      let md' : LeveldbMetadata = record md {
        metadata = record md.metadata { indexed_at = now };
      } in
      let u = after_set env works pc md' s in
      let key = env.new_key (decimal md.cursor) in
      (
        (env.sync key u).1,
        rw (set_metadata_lem env works pc md' s) (ground (arith, works.sync_works key u)),
        Represents-sync env works named u (put_piece pc md' v)
            (Represents-put_piece env works named s v rep pc md') key,
      )

  add_index_run :
      (pc : Cid) (records : List Record) (complete : Bool) (now : Time) (s s1 s3 s4 s5 : S)
      (o : Option LeveldbMetadata) (md : LeveldbMetadata) (prefix : Bytes)
      → set_multihashes_to_piece_cid env (map (λ r. r.cid) records) pc s ≡ (ok tt, s1)
      → catch_not_found (get_piece_cid_to_metadata env pc) s1 ≡ (ok o, s1)
      → allocate env complete o s1 ≡ (ok (md, prefix), s3)
      → add_records env prefix records s3 ≡ (ok tt, s4)
      → finish_index env pc now md s4 ≡ (progress 95 ∷ progress 100 ∷ [], s5)
      → add_index env pc records complete now s
        ≡ (progress 45 ∷ progress 90 ∷ progress 95 ∷ progress 100 ∷ [], s5)
  unfolding add_index
  add_index_run pc records complete now s s1 s3 s4 s5 o md prefix e1 e2 e3 e4 e5 =
      let found : if_found (get_piece_cid_to_metadata env pc s1).0 ≡ ok o = ap (λ r. r.0) e2 in
      let same : (get_piece_cid_to_metadata env pc s1).1 ≡ s1 = ap (λ r. r.1) e2 in
      rw e1 (rw found (rw same (rw e3 (rw e4 (rw e5)))))

  -- On a datastore that works and holds a view (four maps), indexing a piece whose cursor fits in
  -- 64 bits sends the progress messages 45, 90, 95, 100 and no error, and the database then holds
  -- the view in which the holders, blocks, next cursor and metadata are those that indexing is to
  -- give.
  pub add_index-Represents :
      (pc : Cid) (records : List Record) (complete : Bool) (now : Time) (s : S) (v : View)
      → Represents env works s v
      → IsU64 (given_metadata complete (v.pieces pc) v.next).cursor
      → ((add_index env pc records complete now s).0
          ≡ progress 45 ∷ progress 90 ∷ progress 95 ∷ progress 100 ∷ [])
        × Represents env works
            (add_index env pc records complete now s).1
            (index_piece env pc records complete now v)
  unfolding add_index index_piece index_holders
  add_index-Represents pc records complete now s v rep hc =
      let (s1, e1, rep1) =
        set_multihashes_lem env works named (map (λ r. r.cid) records) pc s v rep in
      let v1 = index_holders env (map (λ r. r.cid) records) pc v in
      let e2 = read_piece pc s1 v1 rep1 in
      let (s3, e3, rep3) = allocate_lem complete (v.pieces pc) s1 v1 rep1 in
      let md = given_metadata complete (v.pieces pc) v.next in
      let v3 : View = record v1 { next = next_after (v.pieces pc) v.next } in
      let (s4, e4, rep4) = add_records_lem md.cursor records s3 v3 hc rep3 in
      let (s5, e5, rep5) = finish_lem pc now md s4 (put_blocks env md.cursor records v3) rep4 in
      let e =
        add_index_run pc records complete now s s1 s3 s4 s5 (Option.map stored (v.pieces pc)) md
          (key_cursor_prefix md.cursor) e1 e2 e3 e4 e5 in
      rw e (refl, rep5)
