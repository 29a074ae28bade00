-- ===== src/Ldb/Store/Deals.antt =====
-- `AddDealForPiece` and the reads of the deals, on a datastore that works.
use txcartool.Common.{
  ◌≡◌, ◌≢◌, refl, sym, ap, ◌∙◌, true, false, Option, none, some, List, [], ◌∷◌, ◌++◌, Result, ok,
  if_found, bytes_eq_refl, arith, Bool-cases, inl, inr, if◌then◌else◌,
}
use txcartool.Ldb.Model.{Cid, DealInfo, LeveldbMetadata, deal_eq, new_leveldb_metadata}
use txcartool.Ldb.Env.{Env}
use txcartool.Ldb.Works.{Works, Named}
use txcartool.Ldb.Tables.{get_piece_cid_to_metadata}
use txcartool.Ldb.Tables.Laws.{
  stored, after_set, set_metadata_lem, get_metadata-set_self, get_metadata-set_ne, get_metadata_lem,
}
use txcartool.Ldb.Store.{add_deal_for_piece, get_piece_deals, has_deal, or_new}

deal_eq_refl : (d : DealInfo) → deal_eq d d ≡ true
unfolding deal_eq
deal_eq_refl d = ground (arith, bytes_eq_refl d.deal_uuid, bytes_eq_refl d.miner_addr)

has_deal_append : (ds : List DealInfo) (d : DealInfo) → has_deal (ds ++ d ∷ []) d ≡ true
unfolding has_deal
has_deal_append [] d = rw (deal_eq_refl d)
has_deal_append (x ∷ ds) d = ground (arith, has_deal_append ds d)

-- The deals of a piece as a set in the order of their coming.
abbrev pub insert_deal : List DealInfo → DealInfo → List DealInfo
insert_deal ds d = if has_deal ds d then ds else ds ++ d ∷ []

abbrev pub with_deal : LeveldbMetadata → DealInfo → LeveldbMetadata
with_deal md d = record md { metadata = record md.metadata { deals = md.deals ++ d ∷ [] } }

module _ {S : Type 0} (env : Env S) (works : Works env) (pc : Cid) (d : DealInfo) (s : S) where
  -- what the database holds of the piece
  abbrev pub row : Result LeveldbMetadata
  row = (get_piece_cid_to_metadata env pc s).0

  pub read : get_piece_cid_to_metadata env pc s ≡ (row, s)
  read =
      get_metadata_lem env works pc s ∙ sym (ap (λ r. (r.0, s)) (get_metadata_lem env works pc s))

  module _ (found : Option LeveldbMetadata) (e : if_found row ≡ ok found) where
    pub add_known :
        has_deal (or_new found).deals d ≡ true → add_deal_for_piece env pc d s ≡ (ok tt, s)
    unfolding add_deal_for_piece
    add_known h = rw read (rw e (rw h))

    pub add_unknown :
        has_deal (or_new found).deals d ≡ false
        → add_deal_for_piece env pc d s
          ≡ (ok tt, after_set env works pc (with_deal (or_new found) d) s)
    unfolding add_deal_for_piece
    add_unknown h =
        rw read (rw e (rw h (set_metadata_lem env works pc (with_deal (or_new found) d) s)))

deals-some :
    {S : Type 0} (env : Env S) (pc : Cid) (t : S) (md : LeveldbMetadata)
    → (get_piece_cid_to_metadata env pc t).0 ≡ ok md
    → (get_piece_deals env pc t).0 ≡ ok md.deals
unfolding get_piece_deals
deals-some env pc t md e = ground arith

deals-same :
    {S : Type 0} (env : Env S) (qc : Cid) (s t : S)
    → (get_piece_cid_to_metadata env qc t).0 ≡ (get_piece_cid_to_metadata env qc s).0
    → (get_piece_deals env qc t).0 ≡ (get_piece_deals env qc s).0
unfolding get_piece_deals
deals-same env qc s t e = ground arith

deals-known :
    {S : Type 0} (env : Env S) (pc : Cid) (d : DealInfo) (s : S) (found : Option LeveldbMetadata)
    → if_found (get_piece_cid_to_metadata env pc s).0 ≡ ok found
    → has_deal (or_new found).deals d ≡ true
    → (get_piece_deals env pc s).0 ≡ ok (or_new found).deals
unfolding get_piece_deals new_leveldb_metadata has_deal
deals-known env pc d s none e h = ground arith
deals-known env pc d s (some md) e h = ground arith

-- On a datastore that works: where the row of the piece can be read or is absent, adding a deal
-- returns no error, and the deals of the piece are then those of before, with the deal behind them
-- unless it was among them.
pub get_piece_deals-add_deal :
    {S : Type 0} (env : Env S) (works : Works env) (pc : Cid) (d : DealInfo) (s : S)
    (found : Option LeveldbMetadata)
    → if_found (get_piece_cid_to_metadata env pc s).0 ≡ ok found
    → ((add_deal_for_piece env pc d s).0 ≡ ok tt)
      × ((get_piece_deals env pc (add_deal_for_piece env pc d s).1).0
          ≡ ok (insert_deal (or_new found).deals d))
get_piece_deals-add_deal env works pc d s found e =
    elim (Bool-cases (has_deal (or_new found).deals d)) [
      | inl old ↦
          rw (add_known env works pc d s found e old)
            (refl, rw old (deals-known env pc d s found e old))
      | inr new ↦
          let md = with_deal (or_new found) d in
          rw (add_unknown env works pc d s found e new) (
            refl,
            rw new (
                deals-some env pc _ (stored md)
                  (ap (λ r. r.0) (get_metadata-set_self env works pc md s))),
          )
    ]

-- On a datastore that works: where the row of the piece can be read or is absent, adding a deal
-- leaves what the directory returns for the deals of every other piece.
pub get_piece_deals-add_deal_ne :
    {S : Type 0} (env : Env S) (works : Works env) (named : Named env) (pc qc : Cid) (d : DealInfo)
    (s : S) (found : Option LeveldbMetadata)
    → if_found (get_piece_cid_to_metadata env pc s).0 ≡ ok found
    → pc ≢ qc
    → (get_piece_deals env qc (add_deal_for_piece env pc d s).1).0 ≡ (get_piece_deals env qc s).0
get_piece_deals-add_deal_ne env works named pc qc d s found e ne =
    elim (Bool-cases (has_deal (or_new found).deals d)) [
      | inl old ↦ rw (add_known env works pc d s found e old)
      | inr new ↦
          let md = with_deal (or_new found) d in
          rw (add_unknown env works pc d s found e new)
            (deals-same env qc s _ (get_metadata-set_ne env works named pc qc md s ne))
    ]

-- On a datastore that works: where the row of the piece can be read or is absent, adding a deal
-- once more returns no error and changes nothing.
pub add_deal_twice :
    {S : Type 0} (env : Env S) (works : Works env) (pc : Cid) (d : DealInfo) (s : S)
    (found : Option LeveldbMetadata)
    → if_found (get_piece_cid_to_metadata env pc s).0 ≡ ok found
    → add_deal_for_piece env pc d (add_deal_for_piece env pc d s).1
      ≡ (ok tt, (add_deal_for_piece env pc d s).1)
add_deal_twice env works pc d s found e = elim (Bool-cases (has_deal (or_new found).deals d)) [
  | inl old ↦ let same = add_known env works pc d s found e old in rw same (rw same)
  | inr new ↦
      let md = with_deal (or_new found) d in
      rw (add_unknown env works pc d s found e new) (
        add_known env works pc d _ (some (stored md))
          (ap (λ r. if_found r.0) (get_metadata-set_self env works pc md s))
          (has_deal_append (or_new found).deals d))
]
