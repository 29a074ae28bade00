-- ===== src/Ldb/Store/Histories.antt =====
-- Sequences of calls of `AddDealForPiece` and `AddIndex` of lib/boostd-data/ldb/service.go, from a
-- start on an empty database.
use txcartool.Common.{
  ℕ, ◌≡◌, refl, sym, ap, ◌∙◌, Bool, true, false, Option, none, some, List, [], ◌∷◌, Bytes, ok,
  bytes_eq, bytes_eq_iff, if◌then◌else◌, arith, Bool-cases, inl, inr, if_found, subst,
}
use mathlib.Core.Option
use mathlib.Core.Option.{some-injective}
use txcartool.Ldb.Model.{Cid, Time, Record, DealInfo, LeveldbMetadata, new_leveldb_metadata}
use txcartool.Ldb.Uvarint.{IsU64}
use txcartool.Ldb.Env.{Env}
use txcartool.Ldb.Works.{Works, Named}
use txcartool.Ldb.Tables.{get_piece_cid_to_metadata}
use txcartool.Ldb.Tables.Laws.{stored}
use txcartool.Ldb.View.{View, Represents, put_piece}
use txcartool.Ldb.View.Writes.{Represents-put_piece}
use txcartool.Ldb.Store.{start, add_deal_for_piece, has_deal, or_new}
use txcartool.Ldb.Store.Start.{no_pieces, start-Represents}
use txcartool.Ldb.Store.Indexing.{add_index}
use txcartool.Ldb.Store.Indexed.{given_metadata, index_piece, read_piece, add_index-Represents}
use txcartool.Ldb.Store.Cursors.{pieces-index_piece}
use txcartool.Ldb.Store.Deals.{insert_deal, with_deal, add_known, add_unknown}

pub data Write : Type 0 where
  deal_added : Cid → DealInfo → Write
  piece_indexed : Cid → List Record → Bool → Time → Write

abbrev pub piece_of : Write → Cid
piece_of (deal_added pc d) = pc
piece_of (piece_indexed pc records complete now) = pc

abbrev pub deals_or_nil : Option (List DealInfo) → List DealInfo
deals_or_nil none = []
deals_or_nil (some ds) = ds

-- the deals of its piece after a call, from those before
abbrev pub new_deals : Write → List DealInfo → List DealInfo
new_deals (deal_added pc d) ds = insert_deal ds d
new_deals (piece_indexed pc records complete now) ds = ds

abbrev pub write_deals : Write → Cid → Option (List DealInfo) → Option (List DealInfo)
write_deals w pc o = if bytes_eq (piece_of w) pc then some (new_deals w (deals_or_nil o)) else o

-- The deals of a piece after the calls; `none` is a piece that is not there.
unfoldable pub deals_after : List Write → Cid → Option (List DealInfo) → Option (List DealInfo)
deals_after [] pc o = o
deals_after (w ∷ ws) pc o = deals_after ws pc (write_deals w pc o)

abbrev deals_of : Option LeveldbMetadata → Option (List DealInfo)
deals_of none = none
deals_of (some md) = some md.deals

abbrev pub HasU64Cursors : View → Type 0
HasU64Cursors v = (pc : Cid) (md : LeveldbMetadata) → v.pieces pc ≡ some md → IsU64 md.cursor

module _ {S : Type 0} (env : Env S) where
  abbrev pub run_write : Write → S → S
  run_write (deal_added pc d) s = (add_deal_for_piece env pc d s).1
  run_write (piece_indexed pc records complete now) s = (add_index env pc records complete now s).1

  -- the database after the calls
  unfoldable pub run_writes : List Write → S → S
  run_writes [] s = s
  run_writes (w ∷ ws) s = run_writes ws (run_write w s)

  module _ (works : Works env) (named : Named env) where
    -- The database holds a view, with the deals of the pieces that `p` tells.
    pub record Holds (s : S) (p : Cid → Option (List DealInfo)) : Type 0 where
      pub view : View
      pub represents : Represents env works s view
      pub cursors : HasU64Cursors view
      pub pieces_in : (pc : Cid) → deals_of (view.pieces pc) ≡ p pc

    given-IsU64 :
        (complete : Bool) (o : Option LeveldbMetadata) (next : ℕ)
        → ((md : LeveldbMetadata) → o ≡ some md → IsU64 md.cursor)
        → IsU64 next
        → IsU64 (given_metadata complete o next).cursor
    unfolding given_metadata
    given-IsU64 complete none next h k = k
    given-IsU64 complete (some md) next h k = h md refl

    found-IsU64 :
        (o : Option LeveldbMetadata)
        → ((md : LeveldbMetadata) → o ≡ some md → IsU64 md.cursor)
        → IsU64 (or_new (Option.map stored o)).cursor
    unfolding new_leveldb_metadata
    found-IsU64 none h = omega arith
    found-IsU64 (some md) h = h md refl

    put-IsU64 :
        (b : Bool) (md nd : LeveldbMetadata) (o : Option LeveldbMetadata)
        → (if b then some md else o) ≡ some nd
        → IsU64 md.cursor
        → (o ≡ some nd → IsU64 nd.cursor)
        → IsU64 nd.cursor
    put-IsU64 true md nd o e fits h =
        subst (λ (x : LeveldbMetadata). IsU64 x.cursor) (some-injective md nd e) fits
    put-IsU64 false md nd o e fits h = h e

    -- A call that writes the metadata of its piece, whatever else it does to the view.
    put_lem :
        (s t : S) (p : Cid → Option (List DealInfo)) (h : Holds s p) (w : Write)
        (md : LeveldbMetadata) (v : View)
        → Represents env works t v
        → IsU64 md.cursor
        → md.deals ≡ new_deals w (deals_or_nil (p (piece_of w)))
        → ((qc : Cid)
            → v.pieces qc ≡ (if bytes_eq (piece_of w) qc then some md else h.view.pieces qc))
        → Holds t (λ qc. write_deals w qc (p qc))
    put_lem s t p h w md v rep fits deals e = record {
      view = v;
      represents = rep;
      cursors = λ qc nd at_qc.
          put-IsU64 (bytes_eq (piece_of w) qc) md nd (h.view.pieces qc) (sym (e qc) ∙ at_qc) fits
            (h.cursors qc nd);
      pieces_in = λ qc. rw (e qc) (elim (Bool-cases (bytes_eq (piece_of w) qc)) [
        | inl same ↦ rw same (
            ap some (
              deals
              ∙ ap (λ x. new_deals w (deals_or_nil (p x))) ((bytes_eq_iff (piece_of w) qc).0 same)))
        | inr apart ↦ rw apart (h.pieces_in qc)
      ]);
    }

    -- A call that writes nothing, as its piece is to be as it was.
    kept_lem :
        (s : S) (p : Cid → Option (List DealInfo)) (w : Write)
        → some (new_deals w (deals_or_nil (p (piece_of w)))) ≡ p (piece_of w)
        → Holds s p
        → Holds s (λ qc. write_deals w qc (p qc))
    kept_lem s p w e h = record {
      view = h.view;
      represents = h.represents;
      cursors = h.cursors;
      pieces_in = λ qc. h.pieces_in qc ∙ (elim (Bool-cases (bytes_eq (piece_of w) qc)) [
        | inl same ↦ rw same (
            subst (λ x. p x ≡ some (new_deals w (deals_or_nil (p x))))
              ((bytes_eq_iff (piece_of w) qc).0 same) (sym e))
        | inr apart ↦ rw apart
      ]);
    }

    deal_known :
        (o : Option LeveldbMetadata) (d : DealInfo)
        → has_deal (or_new (Option.map stored o)).deals d ≡ true
        → some (insert_deal (deals_or_nil (deals_of o)) d) ≡ deals_of o
    unfolding has_deal new_leveldb_metadata
    deal_known none d e = cc
    deal_known (some md) d e = rw e

    deal_new :
        (o : Option LeveldbMetadata) (d : DealInfo)
        → has_deal (or_new (Option.map stored o)).deals d ≡ false
        → (with_deal (or_new (Option.map stored o)) d).deals
          ≡ insert_deal (deals_or_nil (deals_of o)) d
    unfolding has_deal new_leveldb_metadata
    deal_new none d e = refl
    deal_new (some md) d e = rw e

    given-deals :
        (complete : Bool) (o : Option LeveldbMetadata) (next : ℕ)
        → (given_metadata complete o next).deals ≡ deals_or_nil (deals_of o)
    unfolding given_metadata new_leveldb_metadata
    given-deals complete none next = refl
    given-deals complete (some md) next = refl

    add_deal_lem :
        (s : S) (p : Cid → Option (List DealInfo)) (pc : Cid) (d : DealInfo)
        → Holds s p
        → Holds (add_deal_for_piece env pc d s).1 (λ qc. write_deals (deal_added pc d) qc (p qc))
    add_deal_lem s p pc d h =
        let o = h.view.pieces pc in
        let found = Option.map stored o in
        let md = with_deal (or_new found) d in
        let e : if_found (get_piece_cid_to_metadata env pc s).0 ≡ ok found =
          ap (λ r. r.0) (read_piece env works named pc s h.view h.represents) in
        elim (Bool-cases (has_deal (or_new found).deals d)) [
          | inl old ↦
              rw (add_known env works pc d s found e old)
                (kept_lem s p (deal_added pc d) (rw (← h.pieces_in pc) (deal_known o d old)) h)
          | inr new ↦ rw (add_unknown env works pc d s found e new) (
              put_lem s _ p h (deal_added pc d) md (put_piece pc md h.view)
                (Represents-put_piece env works named s h.view h.represents pc md)
                (found-IsU64 o (h.cursors pc)) (rw (← h.pieces_in pc) (deal_new o d new))
                (λ qc. unfold put_piece in refl))
        ]

    run_write_lem :
        (w : Write) (s : S) (p : Cid → Option (List DealInfo))
        → Holds s p
        → Holds (run_write w s) (λ qc. write_deals w qc (p qc))
    run_write_lem (deal_added pc d) s p h = add_deal_lem s p pc d h
    run_write_lem (piece_indexed pc records complete now) s p h =
        let o = h.view.pieces pc in
        let fits = given-IsU64 complete o h.view.next (h.cursors pc) h.represents.next_IsU64 in
        put_lem s _ p h (piece_indexed pc records complete now) _
          (index_piece env pc records complete now h.view)
          (add_index-Represents env works named pc records complete now s h.view h.represents
            fits).1
          fits (given-deals complete o h.view.next ∙ ap deals_or_nil (h.pieces_in pc))
          (pieces-index_piece env pc records complete now h.view)

    run_writes_lem :
        (ws : List Write) (s : S) (p : Cid → Option (List DealInfo))
        → Holds s p
        → Holds (run_writes ws s) (λ qc. deals_after ws qc (p qc))
    unfolding run_writes deals_after
    run_writes_lem [] s p h = h
    run_writes_lem (w ∷ ws) s p h = run_writes_lem ws (run_write w s) _ (run_write_lem w s p h)

    -- After a start on an empty database and any calls, the view has exactly the pieces that the
    -- calls are for, with their deals.
    pub run_writes-Holds :
        (ws : List Write) (s : S)
        → ((k : Bytes) → works.contents k s ≡ none)
        → Holds (run_writes ws (start env s).1) (λ pc. deals_after ws pc none)
    run_writes-Holds ws s empty =
        run_writes_lem ws (start env s).1 (λ pc. none)
          (record {
            view = no_pieces;
            represents = (start-Represents env works named s empty).1;
            cursors = λ pc md e. cc;
            pieces_in = λ pc. refl;
          })
