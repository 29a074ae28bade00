-- ===== src/Reseal/Stages.antt =====
-- One sector of cmd/reseal.go, from its row of the database to the files in the storage: the worker
-- of `Reseal`, `addPiece`, `precommit1`, `precommit2`, `finalize`, `move` and `removeFile`. What they
-- call of other packages, of the database and of the file system answers by the parameter `World`,
-- and each such call that writes is recorded, in order. A worker asks for each of them once.
pub mod Checked
pub mod Whole
use txcartool.Common.{
  ℕ, zero, suc, Bool, true, false, not, ◌&&◌, ◌||◌, List, [], ◌∷◌, ◌++◌, Bytes, Error, failed,
  codes, bytes_eq, ◌==◌, if◌then◌else◌, length, Result, ok, err, panic, Exec, pure, raise, lift,
  continue, ◌>>=◌, ◌>>◌,
}
use txcartool.Reseal.{SectorSealInfo, SectorMeta}

-- `abi.PieceInfo`; its zero value has no size and an undefined CID.
pub record PieceInfo : Type 0 where
  pub size : ℕ
  pub piece_cid : Bytes

abbrev pub no_piece : PieceInfo
no_piece = record { size = 0; piece_cid = [] }

-- `storiface.PathTypes` has more members than the two that are moved.
pub data PathType : Type 0 where
  ft_sealed : PathType
  ft_cache : PathType
  ft_other : PathType

pub data Call (Uuid : Type 0) : Type 0 where
  create_car_file : Uuid → Call Uuid
  create_tx_unsealed : Call Uuid
  acquire_sector : ℕ → Call Uuid
  rename_unsealed : Call Uuid
  seal_pre_commit1 : ℕ → Bytes → List PieceInfo → Call Uuid
  seal_pre_commit2 : ℕ → Bytes → Call Uuid
  finalize_sector : ℕ → Call Uuid
  mkdir_all : Bytes → Call Uuid
  run_mv : Bytes → Bytes → Call Uuid
  run_rm : Bytes → Call Uuid

pub record World (Uuid : Type 0) : Type 0 where
  -- `sectors_meta`, and `sectors_sdr_pipeline`
  pub select_meta : ℕ → Result (List SectorMeta)
  pub select_pipeline : ℕ → Result (List SectorMeta)
  -- `cid.Decode` and `Cid.String`
  pub decode : Bytes → Result Bytes
  pub cid_text : Bytes → Bytes
  -- package txcar: the file's piece, and the unsealed file
  pub create_car : Uuid → Result PieceInfo
  pub create_unsealed : Uuid → Result (Unit {0})
  -- `AcquireSector`: its error, and whether there is a function that ends the use
  pub acquire : ℕ → Result (Unit {0})
  pub has_done : ℕ → Bool
  pub rename : ℕ → Result (Unit {0})
  -- the sealer
  pub seal1 : ℕ → Bytes → List PieceInfo → Result Bytes
  pub seal2 : ℕ → Bytes → Result Bytes
  pub finalize : ℕ → Result (Unit {0})
  -- paths and commands
  pub path_types : List PathType
  pub seal_path : PathType → ℕ → Bytes
  pub storage_path : PathType → ℕ → Bytes
  pub unsealed_path : ℕ → Bytes
  pub expand : Bytes → Result Bytes
  pub base : Bytes → Bytes
  pub dir : Bytes → Bytes
  pub is_darwin : Bool
  pub mkdir : Bytes → Result (Unit {0})
  pub mv : Bytes → Bytes → Result (Unit {0})
  pub rm : Bytes → Result (Unit {0})

abbrev pub Trace : Type 0 → Type 0
Trace Uuid = List (Call Uuid)

abbrev pub call : {Uuid A : Type 0} → Call Uuid → Result A → Exec (Trace Uuid) A
call c r s = (r, s ++ c ∷ [])

-- a deferred call of `done`, which panics where there is none
abbrev pub deferring : {S A : Type 0} → Bool → Exec S A → Exec S A
deferring true m s = m s
deferring false m s = let (r, s') = m s in (panic, s')

-- Ends the worker where the seal type is the stage it has come to.
abbrev pub unless : {S : Type 0} → Bool → Exec S (Unit {0}) → Exec S (Unit {0})
unless true m = pure tt
unless false m = m

abbrev pub is_moved : PathType → Bool
is_moved ft_sealed = true
is_moved ft_cache = true
is_moved ft_other = false

-- the one row of a sector, in the second table if not in the first
abbrev pub one_row : List SectorMeta → Result SectorMeta
one_row [] = err (failed (codes "got from db2"))
one_row (meta ∷ []) = ok meta
one_row (meta ∷ more ∷ metas) = err (failed (codes "got from db2"))

abbrev pub second_row : Result (List SectorMeta) → Result SectorMeta
second_row (ok metas) = one_row metas
second_row (err e) = err e
second_row panic = panic

abbrev pub different_cid : Error
different_cid = failed (codes "cids.Sealed.String() != commR.String()")

module _ {Uuid : Type 0} (w : World Uuid) where
  unfoldable pub add_piece : SectorSealInfo Uuid → SectorMeta → Exec (Trace Uuid) PieceInfo
  add_piece info meta = lift (w.decode meta.orig_unsealed_cid) >>= λ orig_unsealed.
      call (create_car_file info.car_key) (w.create_car info.car_key) >>= λ tx_piece.
      if bytes_eq tx_piece.piece_cid orig_unsealed
      then (call create_tx_unsealed (w.create_unsealed info.car_key) >>= λ _.
          deferring (w.has_done info.sid) (
            call (acquire_sector info.sid) (w.acquire info.sid) >>= λ _.
            call rename_unsealed (w.rename info.sid) >>= λ _. pure tx_piece))
      -- the error that is returned here is that of `CreateCarFile`, which is nil
      else pure no_piece

  unfoldable pub precommit1 : ℕ → PieceInfo → SectorMeta → Exec (Trace Uuid) Bytes
  precommit1 sid pi meta =
      call (seal_pre_commit1 sid meta.ticket_value (pi ∷ []))
        (w.seal1 sid meta.ticket_value (pi ∷ []))

  unfoldable pub precommit2 : ℕ → Bytes → SectorMeta → Exec (Trace Uuid) (Unit {0})
  precommit2 sid p1_out meta = lift (w.decode meta.orig_sealed_cid) >>= λ orig_sealed.
      call (seal_pre_commit2 sid p1_out) (w.seal2 sid p1_out) >>= λ sealed.
      if bytes_eq (w.cid_text sealed) (w.cid_text orig_sealed) then pure tt else raise different_cid

  unfoldable pub move : Bytes → Bytes → Exec (Trace Uuid) (Unit {0})
  move from_path to_path = lift (w.expand from_path) >>= λ from'. lift (w.expand to_path) >>= λ to'.
      if bytes_eq (w.base from') (w.base to')
      then ((if w.is_darwin then call (mkdir_all (w.dir to')) (w.mkdir (w.dir to')) else pure tt)
          >>= λ _. call (run_mv from' (w.dir to')) (w.mv from' (w.dir to')))
      else raise (failed (codes "move: base names must match"))

  unfoldable pub remove_file : Bytes → Exec (Trace Uuid) (Unit {0})
  remove_file file_path = lift (w.expand file_path) >>= λ path. call (run_rm path) (w.rm path)

  unfoldable pub move_all : ℕ → List PathType → Exec (Trace Uuid) (Unit {0})
  move_all sid [] = pure tt
  move_all sid (pt ∷ pts) =
      let rest = move_all sid pts in
      if is_moved pt
      then move (w.seal_path pt sid) (w.storage_path pt sid) >>= (λ _. rest)
      else rest

  unfoldable pub finalize : ℕ → Exec (Trace Uuid) (Unit {0})
  finalize sid = call (finalize_sector sid) (w.finalize sid) >>= λ _.
      move_all sid w.path_types >>= λ _. remove_file (w.unsealed_path sid)

  abbrev pub first_row : ℕ → Result (List SectorMeta) → Result SectorMeta
  first_row sid (ok []) = second_row (w.select_pipeline sid)
  first_row sid (ok (meta ∷ [])) = ok meta
  first_row sid (ok (meta ∷ more ∷ metas)) = second_row (w.select_pipeline sid)
  first_row sid (err e) = err e
  first_row sid panic = panic

  unfoldable pub sector_meta : ℕ → Result SectorMeta
  sector_meta sid = first_row sid (w.select_meta sid)

  -- The worker of one sector. It returns nothing: an error, which it logs, is given here.
  unfoldable pub redo_sector : SectorSealInfo Uuid → Exec (Trace Uuid) (Unit {0})
  redo_sector info = lift (sector_meta info.sid) >>= λ meta. add_piece info meta >>= λ pi.
      unless (bytes_eq info.seal_type (codes "AP")) (
        precommit1 info.sid pi meta >>= λ p1_out. unless (bytes_eq info.seal_type (codes "P1")) (
          precommit2 info.sid p1_out meta >>= λ _.
          unless (bytes_eq info.seal_type (codes "P2")) (finalize info.sid)))
