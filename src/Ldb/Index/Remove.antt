-- ===== src/Ldb/Index/Remove.antt =====
-- `RemoveIndexes` and `RemovePieceMetadata` of lib/boostd-data/ldb/db.go.
use txcartool.Common.{
  ℕ, zero, suc, ◌+◌, false, Option, none, some, List, [], ◌∷◌, ◌++◌, Bytes, Result, ok, panic, Exec,
  pure, lift, gets, if_found, ◌>>=◌, ◌>>◌, bytes_eq, if◌then◌else◌, slice_from, bind_result, leb,
  length, get_elem?, set, take,
}
use txcartool.Ldb.Model.{Cid, of_wire}
use txcartool.Ldb.Env.{Env, Row, BatchOp, batch_put, batch_delete}
use txcartool.Ldb.Keys.{metadata_key, mh_text_key, key_cursor_prefix}
use txcartool.Ldb.Index.{has}

-- `pcids[i] = pcids[len(pcids)-1]; pcids = pcids[:len(pcids)-1]` on a slice of `len` elements over
-- the array `arr`: an index that is not below `len` panics.
unfoldable pub swap_out : List Cid → ℕ → ℕ → Result (List Cid × ℕ)
swap_out arr zero i = panic
swap_out arr (suc last) i = elim (get_elem? arr last) [
  | none ↦ panic
  | some v ↦ if leb i last then ok (set arr i v, last) else panic
]

-- `for i, v := range pcids`: the range runs over the array of the list it began with, and reads
-- what the rounds before it have written there. `rounds` are left, from index `i` on.
unfoldable pub drop_loop : ℕ → ℕ → Cid → List Cid → ℕ → Result (List Cid × ℕ)
unfolding swap_out
drop_loop zero i piece_cid arr len = ok (arr, len)
drop_loop (suc rounds) i piece_cid arr len =
    let passed = drop_loop rounds (i + 1) piece_cid arr len in
    let dropped =
      bind_result (swap_out arr len i)
        (λ (arr', len'). drop_loop rounds (i + 1) piece_cid arr' len') in
    elim (get_elem? arr i) [
      | none ↦ panic
      | some v ↦ if bytes_eq v piece_cid then dropped else passed
    ]

unfoldable pub drop_piece_cid : Cid → List Cid → Result (List Cid)
unfolding drop_loop
drop_piece_cid piece_cid pcids =
    bind_result (drop_loop (length pcids) 0 piece_cid pcids (length pcids))
      (λ (arr, len). ok (take len arr))

module _ {S : Type 0} (env : Env S) where
  stage : BatchOp → Exec S (List BatchOp)
  stage op = do lift (env.stage op); pure (op ∷ [])

  -- the write for one multihash, once its list has been read
  unfoldable pub stage_removal : Bytes → Cid → List Cid → Exec S (List BatchOp)
  unfolding stage
  stage_removal key piece_cid pcids =
      if has pcids piece_cid
      then (if leb (length pcids) 1 then stage (batch_delete key) else do
        rest ← lift (drop_piece_cid piece_cid pcids)
        b ← lift (env.marshal_cids rest)
        stage (batch_put key b))
      else pure []

  abbrev stage_multihash : Bytes → Cid → Option Bytes → Exec S (List BatchOp)
  stage_multihash key piece_cid none = pure []
  stage_multihash key piece_cid (some val) = do
    pcids ← lift (env.unmarshal_cids val)
    stage_removal key piece_cid pcids

  -- the loop over the rows of a cursor
  unfoldable pub stage_rows : ℕ → Cid → List Row → Exec S (List BatchOp)
  unfolding stage
  stage_rows skip piece_cid [] = pure []
  stage_rows skip piece_cid ((row_key, _) ∷ rows) = do
    m ← lift (slice_from skip row_key)
    let key = mh_text_key env m
    found ← gets (λ s. if_found (env.get key s))
    ops ← stage_multihash key piece_cid found
    op ← stage (batch_delete (env.new_key row_key))
    more ← stage_rows skip piece_cid rows
    pure (ops ++ op ++ more)

  unfoldable pub remove_indexes : ℕ → Cid → Exec S (Unit {0})
  remove_indexes cursor piece_cid = do
    let prefix = key_cursor_prefix cursor
    rows ← gets (env.query (record { prefix = prefix; keys_only = false; limit = 0; offset = 0 }))
    gets env.batch
    ops ← stage_rows (length prefix + 1) piece_cid rows
    env.commit ops

  unfoldable pub remove_piece_metadata : Cid → Exec S (Unit {0})
  remove_piece_metadata piece_cid = do
    let key = metadata_key env piece_cid
    piece ← gets (env.get key)
    w ← lift (env.unmarshal_metadata piece)
    let metadata = of_wire w
    remove_indexes metadata.cursor piece_cid
    env.delete key
