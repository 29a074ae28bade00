-- ===== src/Pieces/Blocks/Hashes.antt =====
-- The data that `BlockstoreGet` of lib/boost/piecedirectory/piecedirectory.go returns.
use txcartool.Common.{
  ℕ, suc, ◌≡◌, refl, ap, ◌∙◌, Bool, true, false, Option, List, [], ◌∷◌, Bytes, Error, Result, ok,
  err, panic, bind_result, Exec, lift, ◌>>=◌, bind-ok, bind_result-ok, bytes_eq, bytes_eq_iff, ltb,
  if◌then◌else◌, ◌==◌, arith, ◌⊎◌, inl, inr, Bool-cases,
}
use txcartool.Ldb.Model.{Cid, OffsetSize}
use txcartool.Pieces.{Store, Libraries, recover, or_else, keep_error}
use txcartool.Pieces.Readers.{SectorAccessor, Parsers}
use txcartool.Pieces.Blocks.{
  is_identity, buffer_size, same_hash, or_open, read_block, first_block, block_of, if_identity,
  found_pieces, blockstore_get,
}

-- What a loop over the pieces returns is what one of its rounds returned.
or_else-ok :
    {S A : Type 0} (m : Exec S A) (h : Error → Exec S A) (s : S) (a : A)
    → (or_else m h s).0 ≡ ok a
    → ((t : S) × ((m t).0 ≡ ok a)) ⊎ ((e : Error) × (t : S) × ((h e t).0 ≡ ok a))
or_else-ok {S} {A} m h s a e = go (m s).0 refl e
  where
    go :
        (r : Result A)
        → (m s).0 ≡ r
        → (recover r h (m s).1).0 ≡ ok a
        → ((t : S) × ((m t).0 ≡ ok a)) ⊎ ((e : Error) × (t : S) × ((h e t).0 ≡ ok a))
    go (ok b) er e' = inl (s, er ∙ e')
    go (err x) er e' = inr (x, (m s).1, e')
    go panic er e' = ground arith

module _ {S R : Type 0} (store : Store S) (lib : Libraries) (sa : SectorAccessor R)
    (parsers : Parsers R) (cached : Cid → Option (Result R))
    (read_node : R → ℕ → ℕ → Result (Cid × Bytes)) where
  -- The block was read from a reader, under a cid with the same multihash.
  pub record WasRead (c : Cid) (bs : Bytes) : Type 0 where
    pub reader : R
    pub os : OffsetSize
    pub read_cid : Cid
    pub reads :
        read_node reader os.offset (if ltb os.size 4096 then os.size else 4096) ≡ ok (read_cid, bs)
    pub same : lib.hash read_cid ≡ lib.hash c

  -- The block is the digest of an identity multihash.
  pub record IsDigest (c : Cid) (bs : Bytes) : Type 0 where
    pub decodes : lib.decode_multihash (lib.hash c) ≡ ok (lib.identity_code, bs)

  same_hash-ok :
      (c read_cid : Cid) (found bs : Bytes)
      → same_hash store lib sa parsers cached read_node c (read_cid, found) ≡ ok bs
      → (found ≡ bs) × (lib.hash read_cid ≡ lib.hash c)
  same_hash-ok c read_cid found bs e =
      elim (Bool-cases (bytes_eq (lib.hash read_cid) (lib.hash c))) [
        | inl same ↦ (ground arith, (bytes_eq_iff _ _).0 same)
        | inr differs ↦ ground arith
      ]

  read_block-ok :
      (c piece_cid : Cid) (s : S) (bs : Bytes)
      → (read_block store lib sa parsers cached read_node c piece_cid s).0 ≡ ok bs
      → WasRead c bs
  unfolding read_block
  read_block-ok c piece_cid s bs e =
      let (reader, got, e') = bind-ok open' at_offset s bs e in
      let (os, at, e'') =
        bind-ok (store.get_offset_size piece_cid (lib.hash c)) (node reader) _ bs e' in
      let ((read_cid, found), reads, e3) = bind_result-ok _ _ bs e'' in
      let (same_data, same) = same_hash-ok c read_cid found bs e3 in
      record {
        reader = reader;
        os = os;
        read_cid = read_cid;
        reads = reads ∙ ap (λ (b : Bytes). ok (read_cid, b)) same_data;
        same = same;
      }
    where
      open' : Exec S R
      open' = or_open store lib sa parsers cached read_node piece_cid (cached piece_cid)

      node : R → OffsetSize → Exec S Bytes
      node reader os = lift (
          bind_result
            (read_node reader os.offset (buffer_size store lib sa parsers cached read_node os))
            (same_hash store lib sa parsers cached read_node c))

      at_offset : R → Exec S Bytes
      at_offset reader = store.get_offset_size piece_cid (lib.hash c) >>= node reader

  first_block-ok :
      (c : Cid) (i : ℕ) (merr : List Error) (pieces : List Cid) (s : S) (bs : Bytes)
      → (first_block store lib sa parsers cached read_node c i merr pieces s).0 ≡ ok bs
      → WasRead c bs
  unfolding first_block
  first_block-ok c i merr [] s bs e = ground arith
  first_block-ok c i merr (piece_cid ∷ pieces) s bs e =
      elim (or_else-ok (read_block store lib sa parsers cached read_node c piece_cid)
        (λ x.
          first_block store lib sa parsers cached read_node c (suc i) (keep_error i merr x) pieces)
        s bs e) [
          | inl now ↦ read_block-ok c piece_cid now.0 bs now.1
          | inr later ↦
              first_block-ok c (suc i) (keep_error i merr later.0) pieces later.1 bs later.2
        ]

  identity-ok :
      (c : Cid) (x : Error) (bs : Bytes)
      → if_identity store lib sa parsers cached read_node x
          (is_identity store lib sa parsers cached read_node c)
        ≡ ok bs
      → IsDigest c bs
  unfolding is_identity
  identity-ok c x bs e = go (lib.decode_multihash (lib.hash c)) refl e
    where
      go :
          (r : Result (ℕ × Bytes))
          → lib.decode_multihash (lib.hash c) ≡ r
          → if_identity store lib sa parsers cached read_node x
              (bind_result r λ (code, digest). ok (digest, code == lib.identity_code))
            ≡ ok bs
          → IsDigest c bs
      go (ok (code, digest)) er e' = test (code == lib.identity_code) refl e'
        where
          test :
              (b : Bool)
              → (code == lib.identity_code) ≡ b
              → if_identity store lib sa parsers cached read_node x (ok (digest, b)) ≡ ok bs
              → IsDigest c bs
          test true same e'' =
              let is_code : code ≡ lib.identity_code = ground arith in
              let is_digest : digest ≡ bs = ground arith in
              record { decodes = er ∙ rw (is_code, is_digest) refl }
          test false differs e'' = ground arith
      go (err y) er e' = ground arith
      go panic er e' = ground arith

  block_of-ok :
      (c : Cid) (pieces : List Cid) (s : S) (bs : Bytes)
      → (block_of store lib sa parsers cached read_node c pieces s).0 ≡ ok bs
      → WasRead c bs
  block_of-ok c [] s bs e = ground arith
  block_of-ok c (piece_cid ∷ pieces) s bs e = first_block-ok c 0 [] (piece_cid ∷ pieces) s bs e

  -- A block that is returned was read from a reader under a cid with the multihash that was asked
  -- for, or is the digest of an identity multihash.
  pub blockstore_get-WasRead :
      (c : Cid) (s : S) (bs : Bytes)
      → (blockstore_get store lib sa parsers cached read_node c s).0 ≡ ok bs
      → WasRead c bs ⊎ IsDigest c bs
  unfolding blockstore_get
  blockstore_get-WasRead c s bs e = go (store.pieces_containing_multihash (lib.hash c) s) e
    where
      go :
          (o : Result (List Cid) × S)
          → (found_pieces store lib sa parsers cached read_node c o.0 o.1).0 ≡ ok bs
          → WasRead c bs ⊎ IsDigest c bs
      go (ok pieces, t) e' = inl (block_of-ok c pieces t bs e')
      go (err x, t) e' = inr (identity-ok c x bs e')
      go (panic, t) e' = ground arith
