-- ===== src/Yugabyte/Flags/Query.antt =====
-- What the query of `FlaggedPiecesList` asks for, whatever placeholders and arguments it is made of.
use txcartool.Common.{
  ℕ, ◌-◌, ◌≡◌, refl, Bool, true, false, ◌&&◌, ◌||◌, Option, none, some, List, [], ◌∷◌, Bytes,
  bytes_eq, ltb, get_elem?, arith, Bool-cases, inl, inr,
}
use txcartool.Ldb.Model.{Time, bool_eq}
use txcartool.Yugabyte.Db.{Texts}
use txcartool.Yugabyte.Postgres.{
  Condition, created_before, miner_is, unsealed_is, Arg, time, text, flag, int, ListQuery,
  FlaggedRow,
}
use txcartool.Yugabyte.Flags.{FlaggedPiecesListFilter, list_query}

-- A placeholder stands for the argument of its number, counted from 1.
abbrev pub arg : List Arg → ℕ → Option Arg
arg args k = get_elem? args (k - 1)

abbrev before_arg : Time → Option Arg → Bool
before_arg t (some (time u)) = ltb t u
before_arg t _ = false

abbrev is_text_arg : Bytes → Option Arg → Bool
is_text_arg b (some (text c)) = bytes_eq b c
is_text_arg b _ = false

abbrev is_flag_arg : Bool → Option Arg → Bool
is_flag_arg b (some (flag c)) = bool_eq b c
is_flag_arg b _ = false

abbrev holds : List Arg → FlaggedRow → Condition → Bool
holds args row (created_before k) = before_arg row.created_at (arg args k)
holds args row (miner_is k) = is_text_arg row.miner_addr (arg args k)
holds args row (unsealed_is k) = is_flag_arg row.has_unsealed_copy (arg args k)

-- whether a row meets the conditions
abbrev pub selects_of : List Condition → List Arg → FlaggedRow → Bool
selects_of [] args row = true
selects_of (c ∷ cs) args row = holds args row c && selects_of cs args row

abbrev pub selects : ListQuery → FlaggedRow → Bool
selects q row = selects_of q.conditions q.args row

-- what the caller asked for
abbrev pub before_cursor : Option Time → FlaggedRow → Bool
before_cursor none row = true
before_cursor (some t) row = ltb row.created_at t

abbrev pub passes : Texts → Option FlaggedPiecesListFilter → FlaggedRow → Bool
passes tx none row = true
passes tx (some f) row =
    (tx.addr_empty f.miner_addr || bytes_eq row.miner_addr (tx.addr_string f.miner_addr))
    && bool_eq row.has_unsealed_copy f.has_unsealed_copy

-- Whatever the filter and the cursor, the placeholders of the query for flagged pieces stand for
-- its arguments: its conditions select the rows older than the cursor that have the miner of the
-- filter, if that is not empty, and its mark of an unsealed copy, and its limit and offset are
-- those that were asked for.
pub list_query_lem :
    (tx : Texts) (filter : Option FlaggedPiecesListFilter) (cursor : Option Time) (offset limit : ℕ)
    (row : FlaggedRow)
    → let q = list_query tx filter cursor offset limit in
      (selects q row ≡ (before_cursor cursor row && passes tx filter row))
      × (arg q.args q.limit_at ≡ some (int limit))
      × (arg q.args q.offset_at ≡ some (int offset))
unfolding list_query
list_query_lem tx none none offset limit row = (refl, refl, refl)
list_query_lem tx none (some t) offset limit row = (ground arith, refl, refl)
list_query_lem tx (some f) none offset limit row = elim (Bool-cases (tx.addr_empty f.miner_addr)) [
  | inl e ↦ rw e (ground arith, refl, refl)
  | inr e ↦ rw e (ground arith, refl, refl)
]
list_query_lem tx (some f) (some t) offset limit row =
    elim (Bool-cases (tx.addr_empty f.miner_addr)) [
      | inl e ↦ rw e (ground arith, refl, refl)
      | inr e ↦ rw e (ground arith, refl, refl)
    ]
