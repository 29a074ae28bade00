-- ===== src/Yugabyte/Flags.antt =====
-- The flags of lib/boostd-data/yugabyte/piecedoctor.go. `now` is what the clock says.
pub mod Query
use txcartool.Common.{
  ℕ, suc, ◌+◌, Bool, true, false, not, Option, none, some, List, [], ◌∷◌, ◌++◌, Bytes, Result, ok,
  err, panic, Exec, bind_result, if◌then◌else◌, length,
}
use txcartool.Ldb.Model.{Cid, Address, Time, FlaggedPiece}
use txcartool.Yugabyte.Db.{Texts}
use txcartool.Yugabyte.Postgres.{
  Postgres, Condition, created_before, miner_is, unsealed_is, Arg, time, text, address, flag, int,
  CountQuery, ListQuery, FlaggedRow,
}
use txcartool.Yugabyte.Store.{scan}

-- `types.FlaggedPiecesListFilter`
pub record FlaggedPiecesListFilter : Type 0 where
  pub miner_addr : Address
  pub has_unsealed_copy : Bool

-- the text of the `WHERE` and its arguments, as the code puts them together
pub record Where : Type 0 where
  pub conditions : List Condition
  pub args : List Arg
  pub idx : ℕ

abbrev pub add_cursor : Option Time → Where
add_cursor none = record { conditions = []; args = []; idx = 0 }
add_cursor (some t) = record { conditions = created_before 1 ∷ []; args = time t ∷ []; idx = 1 }

abbrev pub add_condition : (ℕ → Condition) → Arg → Where → Where
add_condition c a w = record {
  conditions = w.conditions ++ c (w.idx + 1) ∷ [];
  args = w.args ++ a ∷ [];
  idx = suc w.idx;
}

module _ (tx : Texts) where
  abbrev pub add_miner : Address → Where → Where
  add_miner maddr w =
      if not (tx.addr_empty maddr)
      then add_condition miner_is (text (tx.addr_string maddr)) w
      else w

  abbrev pub add_filter : Option FlaggedPiecesListFilter → Where → Where
  add_filter none w = w
  add_filter (some f) w =
      add_condition unsealed_is (flag f.has_unsealed_copy) (add_miner f.miner_addr w)

  unfoldable pub list_query :
      Option FlaggedPiecesListFilter → Option Time → (offset limit : ℕ) → ListQuery
  list_query filter cursor offset limit =
      let w = add_filter filter (add_cursor cursor) in
      record {
        conditions = w.conditions;
        limit_at = w.idx + 1;
        offset_at = w.idx + 2;
        args = w.args ++ int limit ∷ int offset ∷ [];
      }

  -- Here the miner is passed as an `address.Address`, not as its text.
  abbrev pub count_conditions : Option FlaggedPiecesListFilter → CountQuery
  count_conditions none = record { conditions = []; args = [] }
  count_conditions (some f) =
      if not (tx.addr_empty f.miner_addr)
      then record {
        conditions = unsealed_is 1 ∷ miner_is 2 ∷ [];
        args = flag f.has_unsealed_copy ∷ address f.miner_addr ∷ [];
      }
      else record { conditions = unsealed_is 1 ∷ []; args = flag f.has_unsealed_copy ∷ [] }

  abbrev pub read_flagged : FlaggedRow → Result FlaggedPiece
  read_flagged row = bind_result (tx.addr_parse row.miner_addr) λ ma.
      bind_result (tx.cid_decode row.piece_cid) λ c. ok (record {
        miner_addr = ma;
        piece_cid = c;
        created_at = row.created_at;
        updated_at = row.updated_at;
        has_unsealed_copy = row.has_unsealed_copy;
      })

  module _ {S : Type 0} (pg : Postgres S) where
    unfoldable pub flag_piece : Cid → Bool → Address → Time → Exec S (Unit {0})
    flag_piece piece_cid has_unsealed_copy maddr now =
        pg.insert_flagged (tx.addr_string maddr) (tx.cid_string piece_cid) now now has_unsealed_copy

    unfoldable pub unflag_piece : Cid → Address → Exec S (Unit {0})
    unflag_piece piece_cid maddr =
        pg.delete_flagged (tx.addr_string maddr) (tx.cid_string piece_cid)

    unfoldable pub flagged_pieces_list :
        Option FlaggedPiecesListFilter
        → Option Time
        → (offset limit : ℕ) → S
        → Result (List FlaggedPiece)
    flagged_pieces_list filter cursor offset limit s =
        bind_result (pg.select_flagged (list_query filter cursor offset limit) s)
          (scan read_flagged)

    unfoldable pub flagged_pieces_count : Option FlaggedPiecesListFilter → S → Result ℕ
    flagged_pieces_count filter s = pg.count_flagged (count_conditions filter) s
