-- ===== src/Ldb/Scan/Flagged.antt =====
-- `ListFlaggedPieces` and `FlaggedPiecesCount` of lib/boostd-data/ldb/db.go.
use txcartool.Common.{
  ℕ, suc, Bool, true, false, ◌&&◌, Option, none, some, List, [], ◌∷◌, ◌++◌, Bytes, Result, ok, Exec,
  pure, lift, gets, ◌>>=◌, bind_result, bytes_eq, if◌then◌else◌, leb, ◌==◌, take, drop,
}
use txcartool.Ldb.Model.{Cid, Address, Time, LeveldbFlaggedMetadata, FlaggedPiece, bool_eq}
use txcartool.Ldb.Env.{Env, Row}
use txcartool.Ldb.Keys.{uvarint_buffer, prefix_piece_cid_to_flagged, slash}

-- `FlaggedPiecesListFilter`
pub record Filter : Type 0 where
  pub miner_addr : Address
  pub has_unsealed_copy : Bool

-- The last element of `strings.Split(key, "/")`.
last_part_from : Bytes → Bytes → Bytes
last_part_from part [] = part
last_part_from part (b ∷ bs) = last_part_from (if b == slash then [] else part ++ b ∷ []) bs

unfoldable pub last_part : Bytes → Bytes
unfolding last_part_from
last_part key = last_part_from [] key

-- `sort.Slice` by the creation time. The order of equal times is not specified by Go; here it is
-- that of the rows.
insert_by_time : FlaggedPiece → List FlaggedPiece → List FlaggedPiece
insert_by_time p [] = p ∷ []
insert_by_time p (q ∷ qs) =
    if leb p.created_at q.created_at then p ∷ q ∷ qs else q ∷ insert_by_time p qs

unfoldable pub sort_by_time : List FlaggedPiece → List FlaggedPiece
unfolding insert_by_time
sort_by_time [] = []
sort_by_time (p ∷ ps) = insert_by_time p (sort_by_time ps)

unfoldable pub flagged_prefix : Bytes
unfolding uvarint_buffer
flagged_prefix = slash ∷ uvarint_buffer prefix_piece_cid_to_flagged ++ slash ∷ []

module _ {S : Type 0} (env : Env S) where
  -- the two tests of a filter, each of which skips a row
  unfoldable pub passes : Option Filter → LeveldbFlaggedMetadata → Bool
  unfolding bool_eq
  passes none v = true
  passes (some f) v =
      bool_eq f.has_unsealed_copy v.has_unsealed_copy
      && (if env.addr_empty f.miner_addr then true else bytes_eq f.miner_addr v.miner_addr)

  -- `v.CreatedAt.Before(*cursor)` skips a row
  abbrev not_before : Option Time → Time → Bool
  not_before none t = true
  not_before (some c) t = leb c t

  -- a row's place in the result: the miner's address is left out
  unfoldable pub flagged_piece : Cid → LeveldbFlaggedMetadata → FlaggedPiece
  flagged_piece piece_cid v = record {
    miner_addr = [];
    piece_cid = piece_cid;
    created_at = v.created_at;
    updated_at = v.updated_at;
    has_unsealed_copy = v.has_unsealed_copy;
  }

  unfoldable pub read_flagged : Option Filter → Option Time → List Row → Result (List FlaggedPiece)
  unfolding passes flagged_piece
  read_flagged filter cursor [] = ok []
  read_flagged filter cursor ((key, val) ∷ rows) =
      bind_result (env.cid_parse (last_part key)) λ piece_cid.
        bind_result (env.unmarshal_flagged val) λ v.
          bind_result (read_flagged filter cursor rows) λ records. ok (
            if passes filter v && not_before cursor v.created_at
            then flagged_piece piece_cid v ∷ records
            else records)

  -- The two cuts of the sorted list. `offset` is the package's variable, and not the argument `o`.
  unfoldable pub page : ℕ → ℕ → List FlaggedPiece → List FlaggedPiece
  page offset limit records =
      let rest = drop offset records in if limit == 0 then rest else take limit rest

  unfoldable pub list_flagged_pieces :
      ℕ → Option Filter → Option Time → ℕ → ℕ → Exec S (List FlaggedPiece)
  unfolding read_flagged page
  list_flagged_pieces offset filter cursor o limit = do
    rows ←
        gets
          (env.query (record { prefix = flagged_prefix; keys_only = false; limit = 0; offset = 0 }))
    records ← lift (read_flagged filter cursor rows)
    pure (page offset limit (sort_by_time records))

  -- With no filter the values are not read.
  unfoldable pub count_flagged : Option Filter → List Row → Result ℕ
  unfolding passes
  count_flagged filter [] = ok 0
  count_flagged none (row ∷ rows) = bind_result (count_flagged none rows) λ n. ok (suc n)
  count_flagged (some f) (row ∷ rows) = bind_result (env.unmarshal_flagged row.1) λ v.
      bind_result (count_flagged (some f) rows) λ n. ok (if passes (some f) v then suc n else n)

  unfoldable pub flagged_pieces_count : Option Filter → Exec S ℕ
  unfolding count_flagged
  flagged_pieces_count filter = do
    let keys_only : Bool = elim filter [ none ↦ true | some _ ↦ false ]
    rows ← gets (
        env.query
          (record { prefix = flagged_prefix; keys_only = keys_only; limit = 0; offset = 0 }))
    lift (count_flagged filter rows)
