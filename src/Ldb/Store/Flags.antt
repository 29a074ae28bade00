-- ===== src/Ldb/Store/Flags.antt =====
-- `FlagPiece` and `UnflagPiece` of lib/boostd-data/ldb/service.go, on a datastore that works.
use txcartool.Common.{
  ◌≡◌, refl, sym, ap, ◌∙◌, Bool, Option, none, some, ok, err, not_found, if_found, bytes_eq_refl,
  arith,
}
use txcartool.Ldb.Model.{Cid, Address, Time, LeveldbFlaggedMetadata}
use txcartool.Ldb.Env.{Env}
use txcartool.Ldb.Works.{Works}
use txcartool.Ldb.Keys.{piece_cid_to_flagged_key}
use txcartool.Ldb.Tables.{
  set_piece_cid_to_flagged, get_piece_cid_to_flagged, delete_piece_cid_to_flagged,
}
use txcartool.Ldb.Tables.Laws.{get_flagged_lem, decode_flagged}
use txcartool.Ldb.Store.{flag_piece, unflag_piece, flag_of}

-- the flag that is written over the one there is
abbrev pub new_flag : Address → Bool → Time → Option LeveldbFlaggedMetadata → LeveldbFlaggedMetadata
new_flag maddr b now found = record (flag_of maddr now found) {
  updated_at = now;
  has_unsealed_copy = b;
}

module _ {S : Type 0} (env : Env S) (works : Works env) (pc : Cid) (a : Address) (s : S) where
  abbrev after_flag : LeveldbFlaggedMetadata → S
  after_flag fm = (env.put (piece_cid_to_flagged_key env a pc) (works.flagged_bytes fm) s).1

  set_flagged_lem :
      (fm : LeveldbFlaggedMetadata)
      → set_piece_cid_to_flagged env pc a fm s ≡ (ok tt, after_flag fm)
  unfolding set_piece_cid_to_flagged
  set_flagged_lem fm = rw (works.marshal_flagged_works fm) (
      ground
        (arith, works.put_works (piece_cid_to_flagged_key env a pc) (works.flagged_bytes fm) s))

  read_flagged : get_piece_cid_to_flagged env pc a s ≡ ((get_piece_cid_to_flagged env pc a s).0, s)
  read_flagged =
      get_flagged_lem env works pc a s ∙ sym (ap (λ r. (r.0, s)) (get_flagged_lem env works pc a s))

  flag_run :
      (found : Option LeveldbFlaggedMetadata) (b : Bool) (now : Time)
      → if_found (get_piece_cid_to_flagged env pc a s).0 ≡ ok found
      → flag_piece env pc b a now s ≡ (ok tt, after_flag (new_flag a b now found))
  unfolding flag_piece
  flag_run found b now e = rw read_flagged (rw e (set_flagged_lem (new_flag a b now found)))

  get_flagged-set_self :
      (fm : LeveldbFlaggedMetadata) → (get_piece_cid_to_flagged env pc a (after_flag fm)).0 ≡ ok fm
  unfolding decode_flagged
  get_flagged-set_self fm =
      let k = piece_cid_to_flagged_key env a pc in
      rw (get_flagged_lem env works pc a (after_flag fm)) (
        rw (works.contents-put k (works.flagged_bytes fm) s k)
          (rw (bytes_eq_refl k) (rw (works.unmarshal_flagged_works fm))))

  -- On a datastore that works: where the flag of a piece can be read or is absent, flagging
  -- returns no error, and the flag is then as it was with the new mark and the time of the change;
  -- a piece that had none has one with that time as the time of its creation.
  pub flag_piece_lem :
      (found : Option LeveldbFlaggedMetadata) (b : Bool) (now : Time)
      → if_found (get_piece_cid_to_flagged env pc a s).0 ≡ ok found
      → ((flag_piece env pc b a now s).0 ≡ ok tt)
        × ((get_piece_cid_to_flagged env pc a (flag_piece env pc b a now s).1).0
            ≡ ok (new_flag a b now found))
  flag_piece_lem found b now e =
      rw (flag_run found b now e) (refl, get_flagged-set_self (new_flag a b now found))

  -- On a datastore that works: unflagging returns no error, and the piece has no flag then.
  pub unflag_piece_lem :
      ((unflag_piece env pc a s).0 ≡ ok tt)
      × ((get_piece_cid_to_flagged env pc a (unflag_piece env pc a s).1).0 ≡ err not_found)
  unfolding unflag_piece delete_piece_cid_to_flagged decode_flagged
  unflag_piece_lem =
      let k = piece_cid_to_flagged_key env a pc in
      (
        works.delete_works k s,
        rw (get_flagged_lem env works pc a (env.delete k s).1)
            (rw (works.contents-delete k s k) (rw (bytes_eq_refl k))),
      )

-- On a datastore that works: a piece without a flag that is flagged twice keeps the time of the
-- first as the time of creation, and has the mark and the time of the second.
pub flag_piece_twice :
    {S : Type 0} (env : Env S) (works : Works env) (pc : Cid) (a : Address) (s : S) (b c : Bool)
    (before now : Time)
    → (get_piece_cid_to_flagged env pc a s).0 ≡ err not_found
    → (get_piece_cid_to_flagged env pc a
        (flag_piece env pc c a now (flag_piece env pc b a before s).1).1).0
      ≡ ok (record { created_at = before; updated_at = now; has_unsealed_copy = c; miner_addr = a })
flag_piece_twice env works pc a s b c before now e =
    (flag_piece_lem env works pc a (flag_piece env pc b a before s).1
      (some (new_flag a b before none)) c now
      (ap if_found (flag_piece_lem env works pc a s none b before (ap if_found e)).1)).1
