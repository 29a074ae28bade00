-- ===== src/Ldb/View/Multihashes.antt =====
-- `SetMultihashesToPieceCid` on the view: the piece comes to hold every multihash of the records.
use txcartool.Common.{
  ◌≡◌, refl, ap, ◌∙◌, Bool, true, false, ◌||◌, Option, none, some, List, [], ◌∷◌, ◌++◌, Bytes, ok,
  if_found, bytes_eq, bytes_eq_iff, if◌then◌else◌, arith, Bool-cases, inl, inr,
}
use txcartool.Ldb.Model.{Cid, Multihash}
use txcartool.Ldb.Env.{Env, BatchOp, batch_put}
use txcartool.Ldb.Works.{Works, Named, found_in, after_batch}
use txcartool.Ldb.Keys.{
  metadata_key, mh_key, record_key, key_cursor_prefix, dskey_next_cursor, uvarint_buffer,
  prefix_mh_to_piece_cids,
}
use txcartool.Ldb.Keys.Distinct.{mh_key-eq, mh-metadata, mh-cursor}
use txcartool.Ldb.Keys.Records.{mh-record}
use txcartool.Ldb.Index.{has, stage_piece_cid, stage_records, set_multihashes_to_piece_cid}
use txcartool.Ldb.View.{View, Represents, encoded, insert_cid}
use txcartool.Ldb.View.Writes.{Represents-sync}

-- whether a record has the multihash
unfoldable pub mentions : {S : Type 0} → Env S → List Cid → Multihash → Bool
mentions env [] m = false
mentions env (c ∷ recs) m = bytes_eq (env.cid_hash c) m || mentions env recs m

unfoldable pub index_holders : {S : Type 0} → Env S → List Cid → Cid → View → View
index_holders env recs pc v = record v {
  holders = λ m. if mentions env recs m then some (insert_cid pc (v.holders m)) else v.holders m;
}

after_batch-append :
    (xs ys : List BatchOp) (j : Bytes) (o : Option Bytes)
    → after_batch (xs ++ ys) j o ≡ after_batch ys j (after_batch xs j o)
unfolding after_batch
after_batch-append [] ys j o = refl
after_batch-append (batch_put k b ∷ xs) ys j o = after_batch-append xs ys j _
after_batch-append (BatchOp.batch_delete k ∷ xs) ys j o = after_batch-append xs ys j _

module _ {S : Type 0} (env : Env S) (works : Works env) where
  -- the writes for a key, by what its row holds
  staged_one : Bytes → Cid → Option (List Cid) → List BatchOp
  staged_one key pc none = batch_put key (works.cids_bytes (pc ∷ [])) ∷ []
  staged_one key pc (some cs) =
      if has cs pc then [] else batch_put key (works.cids_bytes (cs ++ pc ∷ [])) ∷ []

  staged : List Cid → Cid → (Multihash → Option (List Cid)) → List BatchOp
  staged [] pc holders = []
  staged (c ∷ recs) pc holders =
      staged_one (mh_key env (env.cid_hash c)) pc (holders (env.cid_hash c))
      ++ staged recs pc holders

  stage_one_lem :
      (key : Bytes) (pc : Cid) (o : Option (List Cid)) (s : S)
      → stage_piece_cid env key pc (encoded works.cids_bytes o) s ≡ (ok (staged_one key pc o), s)
  unfolding stage_piece_cid staged_one
  stage_one_lem key pc none s = rw (works.marshal_cids_works (pc ∷ [])) (rw works.stage_works)
  stage_one_lem key pc (some cs) s =
      rw (works.unmarshal_cids_works cs) (elim (Bool-cases (has cs pc)) [
        | inl e ↦ rw e
        | inr e ↦ rw e (rw (works.marshal_cids_works (cs ++ pc ∷ [])) (rw works.stage_works))
      ])

  found_encoded :
      (o : Option (List Cid))
      → if_found (found_in (encoded works.cids_bytes o)) ≡ ok (encoded works.cids_bytes o)
  found_encoded none = refl
  found_encoded (some cs) = refl

  stage_records_lem :
      (recs : List Cid) (pc : Cid) (s : S) (v : View)
      → Represents env works s v
      → stage_records env recs pc s ≡ (ok (staged recs pc v.holders), s)
  unfolding stage_records staged
  stage_records_lem [] pc s v rep = refl
  stage_records_lem (c ∷ recs) pc s v rep = rw (works.get_works (mh_key env (env.cid_hash c)) s) (
      rw (rep.holders_at (env.cid_hash c)) (
        rw (found_encoded (v.holders (env.cid_hash c))) (
          rw (stage_one_lem (mh_key env (env.cid_hash c)) pc (v.holders (env.cid_hash c)) s)
            (rw (stage_records_lem recs pc s v rep)))))

  -- keys of other tables
  staged_one-other :
      (key : Bytes) (pc : Cid) (o : Option (List Cid)) (j : Bytes) (w : Option Bytes)
      → bytes_eq key j ≡ false
      → after_batch (staged_one key pc o) j w ≡ w
  unfolding staged_one after_batch
  staged_one-other key pc none j w h = rw h
  staged_one-other key pc (some cs) j w h = ground arith

  staged-other :
      (recs : List Cid) (pc : Cid) (holders : Multihash → Option (List Cid)) (j : Bytes)
      (w : Option Bytes)
      → ((m : Multihash) → bytes_eq (mh_key env m) j ≡ false)
      → after_batch (staged recs pc holders) j w ≡ w
  unfolding staged after_batch
  staged-other [] pc holders j w h = refl
  staged-other (c ∷ recs) pc holders j w h =
      after_batch-append (staged_one (mh_key env (env.cid_hash c)) pc (holders (env.cid_hash c))) _
        j w
      ∙ rw
          (staged_one-other (mh_key env (env.cid_hash c)) pc (holders (env.cid_hash c)) j w
            (h (env.cid_hash c)))
          (staged-other recs pc holders j w h)

  module _ (named : Named env) where
    staged_one_self :
        (key : Bytes) (pc : Cid) (o : Option (List Cid)) (b : Bool)
        → after_batch
            (staged_one key pc o)
            key
            (encoded works.cids_bytes (if b then some (insert_cid pc o) else o))
          ≡ encoded works.cids_bytes (some (insert_cid pc o))
    unfolding staged_one after_batch insert_cid
    staged_one_self key pc none b = rw ((bytes_eq_iff key key).1 refl)
    staged_one_self key pc (some cs) b = ground (arith, (bytes_eq_iff key key).1 refl)

    -- The row of a multihash that may have been written already.
    staged-mh :
        (recs : List Cid) (pc : Cid) (holders : Multihash → Option (List Cid)) (m : Multihash)
        (b : Bool)
        → after_batch
            (staged recs pc holders)
            (mh_key env m)
            (encoded works.cids_bytes (if b then some (insert_cid pc (holders m)) else holders m))
          ≡ encoded works.cids_bytes
              (if mentions env recs m || b then some (insert_cid pc (holders m)) else holders m)
    unfolding staged after_batch mentions
    staged-mh [] pc holders m b = refl
    staged-mh (c ∷ recs) pc holders m b =
        after_batch-append (staged_one (mh_key env (env.cid_hash c)) pc (holders (env.cid_hash c)))
          _ (mh_key env m) _
        ∙ elim (Bool-cases (bytes_eq (env.cid_hash c) m)) [
          | inl e ↦
              let same = (bytes_eq_iff (env.cid_hash c) m).0 e in
              rw e (
                rw same (
                  rw (staged_one_self (mh_key env m) pc (holders m) b)
                    (staged-mh recs pc holders m true ∙ or_true (mentions env recs m))))
          | inr e ↦ rw e (
              rw
                (staged_one-other (mh_key env (env.cid_hash c)) pc (holders (env.cid_hash c))
                  (mh_key env m) _ (mh_key-eq env named (env.cid_hash c) m ∙ e))
                (staged-mh recs pc holders m b))
        ]
      where
        or_true :
            (a : Bool)
            → encoded works.cids_bytes
                (if a || true then some (insert_cid pc (holders m)) else holders m)
              ≡ encoded works.cids_bytes (some (insert_cid pc (holders m)))
        or_true true = refl
        or_true false = refl

    Represents-commit :
        (recs : List Cid) (pc : Cid) (s : S) (v : View)
        → Represents env works s v
        → Represents env works
            (env.commit (staged recs pc v.holders) s).1
            (index_holders env recs pc v)
    unfolding index_holders
    Represents-commit recs pc s v rep = record {
      pieces_at = λ qc.
          works.contents-commit _ s (metadata_key env qc)
          ∙ staged-other recs pc v.holders _ _ (λ m. mh-metadata env named m qc)
          ∙ rep.pieces_at qc;
      holders_at = λ m.
          works.contents-commit _ s (mh_key env m)
          ∙ ap (after_batch (staged recs pc v.holders) (mh_key env m)) (rep.holders_at m)
          ∙ staged-mh recs pc v.holders m false
          ∙ or_false (mentions env recs m) m;
      blocks_at = λ c m h.
          works.contents-commit _ s (record_key env (key_cursor_prefix c) m)
          ∙ staged-other recs pc v.holders _ _ (λ n. mh-record env named c m n)
          ∙ rep.blocks_at c m h;
      next_at =
          works.contents-commit _ s (dskey_next_cursor env)
          ∙ staged-other recs pc v.holders _ _ (λ m. mh-cursor env named m)
          ∙ rep.next_at;
      next_IsU64 = rep.next_IsU64;
    }
      where
        or_false :
            (a : Bool) (m : Multihash)
            → encoded works.cids_bytes
                (if a || false then some (insert_cid pc (v.holders m)) else v.holders m)
              ≡ encoded works.cids_bytes
                  (if a then some (insert_cid pc (v.holders m)) else v.holders m)
        or_false true m = refl
        or_false false m = refl

    -- On a datastore that works and holds a view, writing the multihashes of records returns no
    -- error, and the piece is then behind the holders of each of these multihashes unless it was
    -- among them, and all else of the view is as before.
    pub set_multihashes_lem :
        (recs : List Cid) (pc : Cid) (s : S) (v : View)
        → Represents env works s v
        → (t : S) × (set_multihashes_to_piece_cid env recs pc s ≡ (ok tt, t))
          × Represents env works t (index_holders env recs pc v)
    unfolding set_multihashes_to_piece_cid
    set_multihashes_lem recs pc s v rep =
        let ops = staged recs pc v.holders in
        let u = (env.commit ops s).1 in
        let key = env.new_key (uvarint_buffer prefix_mh_to_piece_cids) in
        (
          (env.sync key u).1,
          rw (works.batch_works s) (
              rw (stage_records_lem recs pc s v rep)
                (ground (arith, works.commit_works ops s, works.sync_works key u))),
          Represents-sync env works named u (index_holders env recs pc v)
              (Represents-commit recs pc s v rep) key,
        )
