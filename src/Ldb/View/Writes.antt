-- ===== src/Ldb/View/Writes.antt =====
-- The single writes of the database, on the view.
use txcartool.Common.{
  ℕ, ◌≡◌, refl, sym, ◌∙◌, true, false, ◌&&◌, some, Bytes, bytes_eq, bytes_eq_iff, if◌then◌else◌,
  ◌==◌, ==_iff, arith, Bool-cases, inl, inr,
}
use txcartool.Ldb.Model.{Cid, Multihash, LeveldbMetadata, OffsetSize}
use txcartool.Ldb.Uvarint.{encode_offset_size, IsU64}
use txcartool.Ldb.Env.{Env}
use txcartool.Ldb.Works.{Works, Named}
use txcartool.Ldb.Keys.{
  metadata_key, mh_key, record_key, key_cursor_prefix, dskey_next_cursor, uvarint_buffer,
}
use txcartool.Ldb.Keys.Distinct.{
  metadata_key-eq, metadata-mh, metadata-cursor, cursor-metadata, cursor-mh,
}
use txcartool.Ldb.Keys.Records.{
  record-metadata, metadata-record, record-mh, record-cursor, cursor-record, record_key-eq,
  record_key-ne,
}
use txcartool.Ldb.Tables.Laws.{after_set, contents-after_set}
use txcartool.Ldb.View.{View, Represents, encoded, put_piece, put_block}

module _ {S : Type 0} (env : Env S) (works : Works env) (named : Named env) (s : S) (v : View)
    (rep : Represents env works s v) where
  pub Represents-put_piece :
      (pc : Cid) (md : LeveldbMetadata)
      → Represents env works (after_set env works pc md s) (put_piece pc md v)
  unfolding put_piece
  Represents-put_piece pc md = record {
    pieces_at = λ qc.
        contents-after_set env works pc md s (metadata_key env qc)
        ∙ rw (metadata_key-eq env named pc qc) (ground (arith, rep.pieces_at qc));
    holders_at = λ m.
        contents-after_set env works pc md s (mh_key env m)
        ∙ rw (metadata-mh env named pc m) (rep.holders_at m);
    blocks_at = λ c m h.
        contents-after_set env works pc md s (record_key env (key_cursor_prefix c) m)
        ∙ rw (metadata-record env named c m pc) (rep.blocks_at c m h);
    next_at =
        contents-after_set env works pc md s (dskey_next_cursor env)
        ∙ rw (metadata-cursor env named pc) rep.next_at;
    next_IsU64 = rep.next_IsU64;
  }

  pub Represents-set_next :
      (n : ℕ)
      → IsU64 n
      → Represents env works
          (env.put (dskey_next_cursor env) (uvarint_buffer n) s).1
          (record v { next = n })
  Represents-set_next n h = record {
    pieces_at = λ qc.
        works.contents-put _ _ s (metadata_key env qc)
        ∙ rw (cursor-metadata env named qc) (rep.pieces_at qc);
    holders_at = λ m.
        works.contents-put _ _ s (mh_key env m) ∙ rw (cursor-mh env named m) (rep.holders_at m);
    blocks_at = λ c m hc.
        works.contents-put _ _ s (record_key env (key_cursor_prefix c) m)
        ∙ rw (cursor-record env named c m) (rep.blocks_at c m hc);
    next_at = works.contents-put _ _ s (dskey_next_cursor env) ∙ rw ((bytes_eq_iff _ _).1 refl);
    next_IsU64 = h;
  }

  block-at :
      (c d : ℕ) (m n : Multihash) (os : OffsetSize)
      → IsU64 c
      → IsU64 d
      → (if bytes_eq
            (record_key env (key_cursor_prefix c) m)
            (record_key env (key_cursor_prefix d) n)
          then some (encode_offset_size os)
          else encoded encode_offset_size (v.blocks d n))
        ≡ encoded encode_offset_size (if (c == d) && bytes_eq m n then some os else v.blocks d n)
  block-at c d m n os hc hd = elim (Bool-cases (c == d)) [
    | inl e ↦ rw (← (==_iff c d).0 e) (rw (record_key-eq env named c m n) (ground arith))
    | inr e ↦
        rw (record_key-ne env named c d m n hc hd (λ p. absurd (clash (sym e ∙ (==_iff c d).1 p))))
          (rw e)
  ]
    where
      clash : false ≡ true → ⊥
      clash h = cc

  pub Represents-put_block :
      (c : ℕ) (m : Multihash) (os : OffsetSize)
      → IsU64 c
      → Represents env works
          (env.put (record_key env (key_cursor_prefix c) m) (encode_offset_size os) s).1
          (put_block c m os v)
  unfolding put_block
  Represents-put_block c m os hc = record {
    pieces_at = λ qc.
        works.contents-put _ _ s (metadata_key env qc)
        ∙ rw (record-metadata env named c m qc) (rep.pieces_at qc);
    holders_at = λ n.
        works.contents-put _ _ s (mh_key env n) ∙ rw (record-mh env named c m n) (rep.holders_at n);
    blocks_at = λ d n hd.
        works.contents-put _ _ s (record_key env (key_cursor_prefix d) n)
        ∙ rw (rep.blocks_at d n hd) (block-at c d m n os hc hd);
    next_at =
        works.contents-put _ _ s (dskey_next_cursor env)
        ∙ rw (record-cursor env named c m) rep.next_at;
    next_IsU64 = rep.next_IsU64;
  }

  pub Represents-sync : (k : Bytes) → Represents env works (env.sync k s).1 v
  Represents-sync k = record {
    pieces_at = λ qc. works.contents-sync k s _ ∙ rep.pieces_at qc;
    holders_at = λ m. works.contents-sync k s _ ∙ rep.holders_at m;
    blocks_at = λ c m h. works.contents-sync k s _ ∙ rep.blocks_at c m h;
    next_at = works.contents-sync k s _ ∙ rep.next_at;
    next_IsU64 = rep.next_IsU64;
  }
