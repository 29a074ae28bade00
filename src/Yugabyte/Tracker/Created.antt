-- ===== src/Yugabyte/Tracker/Created.antt =====
-- The creation times that the tracker's new rows get.
use txcartool.Common.{
  ◌≡◌, refl, Option, none, some, List, [], ◌∷◌, ◌++◌, Bytes, Result, ok, err, panic, Error, Exec,
  continue, All, All-append, bind_result-ok, ok-injective, subst,
}
use txcartool.Ldb.Model.{Cid, Address, Time}
use txcartool.Yugabyte.Db.{Cassandra, Texts}
use txcartool.Yugabyte.Postgres.{Postgres}
use txcartool.Yugabyte.Queue.{exec_queue, exec_with_concurrency}
use txcartool.Yugabyte.Queue.Keeps.{exec_queue-keeps}
use txcartool.Yugabyte.Tracker.{
  PieceCreated, append_miners, miners_of_piece, with_miners, insert_tracker_parallelism,
}

module _ {S : Type 0} (db : Cassandra S) (pg : Postgres S) (tx : Texts) (created : Time) where
  abbrev pub AllCreated : List PieceCreated → Type 0
  AllCreated found = All (λ pc. pc.created_at ≡ created) found

  append_miners-AllCreated :
      (pc : Cid) (rows : List Bytes) (closed : Option Error) (s : S) (found : List PieceCreated)
      → AllCreated found
      → AllCreated (append_miners db pg tx created pc rows closed (s, found)).1.1
  unfolding append_miners
  append_miners-AllCreated pc [] none s found h = h
  append_miners-AllCreated pc [] (some e) s found h = h
  append_miners-AllCreated pc (row ∷ rows) closed s found h = go _ (tx.addr_parse row) (λ ma.
      append_miners-AllCreated pc rows closed s
        (found ++ record { miner_addr = ma; piece_cid = pc; created_at = created } ∷ [])
        (All-append (λ p. p.created_at ≡ created) found _ h (refl, tt)))
    where
      go :
          (f : Address → Exec (S × List PieceCreated) (Unit {0})) (r : Result Address)
          → ((ma : Address) → AllCreated (f ma (s, found)).1.1)
          → AllCreated (continue r f (s, found)).1.1
      go f (ok ma) k = k ma
      go f (err e) k = h
      go f panic k = h

  -- Where the miners of the pieces are found, all rows have the time that the loop was given.
  pub with_miners-created :
      (pieces found : List PieceCreated) (s : S)
      → with_miners db pg tx created pieces s ≡ ok found
      → AllCreated found
  unfolding with_miners exec_with_concurrency miners_of_piece
  with_miners-created pieces found s e =
      let keeps =
        exec_queue-keeps (λ st. AllCreated st.1) (miners_of_piece db pg tx created)
          (λ pc st h.
            append_miners-AllCreated pc.piece_cid (db.select_miners pc.piece_cid st.0).0
              (db.select_miners pc.piece_cid st.0).1 st.0 st.1 h)
          insert_tracker_parallelism pieces (ok tt) (s, []) tt in
      let after =
        exec_queue (miners_of_piece db pg tx created) insert_tracker_parallelism pieces (ok tt)
          (s, []) in
      let (u, done, same) = bind_result-ok after.0 (λ u. ok after.1.1) found e in
      subst AllCreated (ok-injective _ _ same) keeps
