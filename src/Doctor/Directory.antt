-- ===== src/Doctor/Directory.antt =====
-- The doctor over the local index directory of lib/boostd-data/ldb, on a datastore that works.
use txcartool.Common.{ℕ, ◌≡◌, refl, ap, not, Option, none, some, ok, err, not_found, if_found, ◌==◌}
use txcartool.Ldb.Model.{Cid, Address, Time, LeveldbMetadata, LeveldbFlaggedMetadata}
use txcartool.Ldb.Env.{Env}
use txcartool.Ldb.Works.{Works}
use txcartool.Ldb.Tables.{get_piece_cid_to_metadata, get_piece_cid_to_flagged}
use txcartool.Ldb.Store.{
  flag_piece, unflag_piece, untrack_piece, get_piece_metadata, is_indexed, indexed_at,
  normalize_error,
}
use txcartool.Ldb.Store.Flags.{new_flag, flag_piece_lem, unflag_piece_lem}
use txcartool.Sectors.Refresh.{SectorStateUpdates}
use txcartool.Doctor.{Store, Doctor, check_piece, drop_missing, says_not_found}
use txcartool.Doctor.Verdicts.{Verdict, leave, unflag, flag, verdict, perform, check_piece_lem}

-- The index directory as the doctor's store, at the time of a check.
abbrev pub ldb_store : {S : Type 0} → Env S → Time → Store S
ldb_store env now = record {
  get_piece_metadata = get_piece_metadata env;
  is_indexed = is_indexed env;
  flag_piece = λ pc b maddr. flag_piece env pc b maddr now;
  unflag_piece = unflag_piece env;
  untrack_piece = untrack_piece env;
}

abbrev pub flag_after :
    Verdict → Address → Time → Option LeveldbFlaggedMetadata → Option LeveldbFlaggedMetadata
flag_after leave maddr now found = found
flag_after unflag maddr now found = none
flag_after (flag b) maddr now found = some (new_flag maddr b now found)

module _ {S : Type 0} (env : Env S) (works : Works env) where
  perform_lem :
      (d : Doctor) (pc : Cid) (now : Time) (s : S) (found : Option LeveldbFlaggedMetadata)
      (w : Verdict)
      → if_found (get_piece_cid_to_flagged env pc d.maddr s).0 ≡ ok found
      → ((perform d (ldb_store env now) pc w s).0 ≡ ok tt)
        × (if_found
              (get_piece_cid_to_flagged env pc d.maddr (perform d (ldb_store env now) pc w s).1).0
            ≡ ok (flag_after w d.maddr now found))
  unfolding perform
  perform_lem d pc now s found leave e = (refl, e)
  perform_lem d pc now s found unflag e =
      let (r, f) = unflag_piece_lem env works pc d.maddr s in (r, ap if_found f)
  perform_lem d pc now s found (flag b) e =
      let (r, f) = flag_piece_lem env works pc d.maddr s found b now e in (r, ap if_found f)

  -- Over the index directory on a datastore that works: where the miner's address has an actor id,
  -- the piece's metadata can be read, and its flag can be read or is absent, a check of the piece
  -- returns no error and leaves the flag that the verdict on the piece's deals and on the time of
  -- its index says.
  pub check_piece-flag :
      (d : Doctor) (mid : ℕ) (lu : SectorStateUpdates) (pc : Cid) (md : LeveldbMetadata)
      (now : Time) (s : S) (found : Option LeveldbFlaggedMetadata)
      → d.id_from_address d.maddr ≡ ok mid
      → get_piece_cid_to_metadata env pc s ≡ (ok md, s)
      → if_found (get_piece_cid_to_flagged env pc d.maddr s).0 ≡ ok found
      → ((check_piece d (ldb_store env now) pc lu s).0 ≡ ok tt)
        × (if_found
              (get_piece_cid_to_flagged env pc d.maddr
                (check_piece d (ldb_store env now) pc lu s).1).0
            ≡ ok (
                flag_after
                  (verdict d mid lu md.deals (not (md.indexed_at == 0)))
                  d.maddr
                  now
                  found))
  check_piece-flag d mid lu pc md now s found known row e =
      rw
        (check_piece_lem d mid lu known (ldb_store env now) pc md.metadata
          (not (md.indexed_at == 0)) s (unfold get_piece_metadata in rw row)
          (unfold is_indexed indexed_at in rw row))
        (perform_lem d pc now s found (verdict d mid lu md.deals (not (md.indexed_at == 0))) e)

  -- Over the index directory on a datastore that works: a check of a piece that has no metadata
  -- returns no error and leaves the piece without a flag.
  pub check_piece-missing :
      (d : Doctor) (lu : SectorStateUpdates) (pc : Cid) (now : Time) (s : S)
      → get_piece_cid_to_metadata env pc s ≡ (err not_found, s)
      → ((check_piece d (ldb_store env now) pc lu s).0 ≡ ok tt)
        × ((get_piece_cid_to_flagged env pc d.maddr (check_piece d (ldb_store env now) pc lu s).1).0
            ≡ err not_found)
  unfolding check_piece drop_missing says_not_found untrack_piece get_piece_metadata normalize_error
  check_piece-missing d lu pc now s row =
      let (r, f) = unflag_piece_lem env works pc d.maddr s in rw row (rw r (refl, f))
