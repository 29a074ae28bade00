-- ===== src/Ldb/Works.antt =====
-- What the index directory relies on in a datastore that works: no operation fails, and a read
-- returns what was written last. JSON gives back the value that it was made from.
use txcartool.Common.{
  ◌≡◌, Option, none, some, List, [], ◌∷◌, ◌++◌, Bytes, Result, ok, err, not_found, bytes_eq,
  if◌then◌else◌, ◌≢◌, All,
}
use txcartool.Ldb.Model.{Cid, Address, Multihash, WireMetadata, LeveldbFlaggedMetadata}
use txcartool.Ldb.Env.{Env, BatchOp, batch_put, batch_delete}
use txcartool.Ldb.Keys.{slash}

abbrev pub found_in : Option Bytes → Result Bytes
found_in none = err not_found
found_in (some v) = ok v

-- the value at the key `j` after the writes of a batch, in their order
unfoldable pub after_batch : List BatchOp → Bytes → Option Bytes → Option Bytes
after_batch [] j v = v
after_batch (batch_put k b ∷ ops) j v = after_batch ops j (if bytes_eq k j then some b else v)
after_batch (batch_delete k ∷ ops) j v = after_batch ops j (if bytes_eq k j then none else v)

pub record Works {S : Type 0} (env : Env S) : Type 0 where
  pub contents : Bytes → S → Option Bytes
  pub get_works : (k : Bytes) (s : S) → env.get k s ≡ found_in (contents k s)
  pub put_works : (k v : Bytes) (s : S) → (env.put k v s).0 ≡ ok tt
  pub contents-put :
      (k v : Bytes) (s : S) (j : Bytes)
      → contents j (env.put k v s).1 ≡ (if bytes_eq k j then some v else contents j s)
  pub delete_works : (k : Bytes) (s : S) → (env.delete k s).0 ≡ ok tt
  pub contents-delete :
      (k : Bytes) (s : S) (j : Bytes)
      → contents j (env.delete k s).1 ≡ (if bytes_eq k j then none else contents j s)
  pub batch_works : (s : S) → env.batch s ≡ ok tt
  pub stage_works : (op : BatchOp) → env.stage op ≡ ok tt
  pub commit_works : (ops : List BatchOp) (s : S) → (env.commit ops s).0 ≡ ok tt
  pub contents-commit :
      (ops : List BatchOp) (s : S) (j : Bytes)
      → contents j (env.commit ops s).1 ≡ after_batch ops j (contents j s)
  pub sync_works : (k : Bytes) (s : S) → (env.sync k s).0 ≡ ok tt
  pub contents-sync : (k : Bytes) (s : S) (j : Bytes) → contents j (env.sync k s).1 ≡ contents j s
  pub metadata_bytes : WireMetadata → Bytes
  pub marshal_metadata_works : (w : WireMetadata) → env.marshal_metadata w ≡ ok (metadata_bytes w)
  pub unmarshal_metadata_works :
      (w : WireMetadata) → env.unmarshal_metadata (metadata_bytes w) ≡ ok w
  pub flagged_bytes : LeveldbFlaggedMetadata → Bytes
  pub marshal_flagged_works :
      (fm : LeveldbFlaggedMetadata) → env.marshal_flagged fm ≡ ok (flagged_bytes fm)
  pub unmarshal_flagged_works :
      (fm : LeveldbFlaggedMetadata) → env.unmarshal_flagged (flagged_bytes fm) ≡ ok fm
  pub cids_bytes : List Cid → Bytes
  pub marshal_cids_works : (cs : List Cid) → env.marshal_cids cs ≡ ok (cids_bytes cs)
  pub unmarshal_cids_works : (cs : List Cid) → env.unmarshal_cids (cids_bytes cs) ≡ ok cs

-- A part of a key: not empty, with no slash in it and no dot at its front.
abbrev pub IsPlain : Bytes → Type 0
IsPlain [] = ⊥
IsPlain (b ∷ bs) = (b ≢ slash) × (b ≢ b'.') × All (λ c. c ≢ slash) bs

-- A key of plain parts is the slashed text itself, since there is nothing to clean in it. The text
-- forms are plain and tell their values apart.
pub record Named {S : Type 0} (env : Env S) : Type 0 where
  pub new_key_one : (p : Bytes) → IsPlain p → env.new_key p ≡ slash ∷ p
  pub new_key_two :
      (p q : Bytes) → IsPlain p → IsPlain q → env.new_key (p ++ slash ∷ q) ≡ slash ∷ p ++ slash ∷ q
  pub new_key_three :
      (p q r : Bytes)
      → IsPlain p
      → IsPlain q
      → IsPlain r
      → env.new_key (p ++ slash ∷ q ++ slash ∷ r) ≡ slash ∷ p ++ slash ∷ q ++ slash ∷ r
  pub cid_plain : (c : Cid) → IsPlain (env.cid_string c)
  pub cid_injective : (c d : Cid) → env.cid_string c ≡ env.cid_string d → c ≡ d
  pub addr_plain : (a : Address) → IsPlain (env.addr_string a)
  pub addr_injective : (a b : Address) → env.addr_string a ≡ env.addr_string b → a ≡ b
  pub mh_plain : (m : Multihash) → IsPlain (env.mh_string m)
  pub mh_injective : (m n : Multihash) → env.mh_string m ≡ env.mh_string n → m ≡ n
