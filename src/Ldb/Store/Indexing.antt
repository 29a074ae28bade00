-- ===== src/Ldb/Store/Indexing.antt =====
-- `AddIndex` of lib/boostd-data/ldb/service.go.
use txcartool.Common.{
  ℕ, ◌+◌, ◌%◌, ◌^◌, Bool, Option, none, some, List, [], ◌∷◌, map, Bytes, Result, ok, err, panic,
  Error, Exec, pure, catch_not_found, ◌>>=◌, ◌>>◌,
}
use txcartool.Ldb.Model.{Cid, Time, Record, LeveldbMetadata, new_leveldb_metadata}
use txcartool.Ldb.Env.{Env}
use txcartool.Ldb.Keys.{decimal, key_cursor_prefix}
use txcartool.Ldb.Cursor.{next_cursor, set_next_cursor}
use txcartool.Ldb.Tables.{get_piece_cid_to_metadata, set_piece_cid_to_metadata}
use txcartool.Ldb.Index.{set_multihashes_to_piece_cid, add_index_record}

-- `AddIndexProgress`: the messages of the channel, a percentage or the error that ends it.
-- `crashed` is a panic of the goroutine.
pub data Progress : Type 0 where
  progress : ℕ → Progress
  failure : Error → Progress
  crashed : Progress

-- A process that sends messages and changes the state.
abbrev pub Sender : Type 0 → Type 0
Sender S = S → List Progress × S

module _ {S A : Type 0} where
  abbrev pub step_from : Result A → (A → Sender S) → Sender S
  step_from (ok a) k s = k a s
  step_from (err e) k s = (failure e ∷ [], s)
  step_from panic k s = (crashed ∷ [], s)

  -- An error is sent, and ends the process.
  abbrev pub step : Exec S A → (A → Sender S) → Sender S
  step m k s = let (r, s') = m s in step_from r k s'

abbrev pub send : {S : Type 0} → ℕ → Sender S → Sender S
send p k s = let (ps, s') = k s in (progress p ∷ ps, s')

module _ {S : Type 0} (env : Env S) where
  -- The metadata and the key prefix of the records. A piece that has metadata keeps it.
  unfoldable pub allocate : Bool → Option LeveldbMetadata → Exec S (LeveldbMetadata × Bytes)
  allocate is_complete_index (some md) = pure (md, key_cursor_prefix md.cursor)
  allocate is_complete_index none = do
    (cursor, prefix) ← next_cursor env
    set_next_cursor env ((cursor + 1) % 2 ^ 64)
    let md = new_leveldb_metadata
    pure (
      record md {
        metadata = record md.metadata { complete_index = is_complete_index };
        cursor = cursor;
      },
      prefix,
    )

  unfoldable pub add_records : Bytes → List Record → Exec S (Unit {0})
  add_records prefix [] = pure tt
  add_records prefix (rec ∷ records) = do
    add_index_record env prefix rec
    add_records prefix records

  -- the last part: the time of the index, and the sync
  unfoldable pub finish_index : Cid → Time → LeveldbMetadata → Sender S
  finish_index piece_cid now md =
      step
        (set_piece_cid_to_metadata env piece_cid
          (record md { metadata = record md.metadata { indexed_at = now } }))
        λ _.
          send 95 (step (env.sync (env.new_key (decimal md.cursor))) λ _. send 100 (λ s. ([], s)))

  unfoldable pub add_index : Cid → List Record → Bool → Time → Sender S
  add_index piece_cid records is_complete_index now =
      step (set_multihashes_to_piece_cid env (map (λ r. r.cid) records) piece_cid) λ _. send 45 (
        step (catch_not_found (get_piece_cid_to_metadata env piece_cid)) λ found.
          step (allocate is_complete_index found) λ (md, prefix).
            step (add_records prefix records) λ _. send 90 (finish_index piece_cid now md))
