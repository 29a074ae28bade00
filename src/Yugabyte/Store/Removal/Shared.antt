-- ===== src/Yugabyte/Store/Removal/Shared.antt =====
-- `RemoveDealForPiece` where the piece has another deal.
use txcartool.Common.{
  ◌≡◌, ◌≢◌, refl, ◌∙◌, true, false, Option, List, [], ◌∷◌, Bytes, Result, ok, err, panic, Error,
  bind_result, continue, bytes_eq, bytes_eq_iff, any, arith,
}
use txcartool.Ldb.Model.{Cid, DealInfo}
use txcartool.Yugabyte.Db.{Cassandra, Texts}
use txcartool.Yugabyte.Settings.{Settings}
use txcartool.Yugabyte.Works.{Works, drop_deal, is_deal_of, of_uuid}
use txcartool.Yugabyte.Store.{scan_rows, read_deal, get_piece_deals, checked}
use txcartool.Yugabyte.Store.Removal.{remove_deal_for_piece, remove_piece_if}

-- A scan of rows never comes to the empty list.
abbrev IsLeft : {A : Type 0} → Result (List A) → Type 0
IsLeft (ok []) = ⊥
IsLeft (ok (a ∷ as')) = Unit
IsLeft (err e) = Unit
IsLeft panic = Unit

scan_rows-IsLeft :
    {A B : Type 0} (f : A → Result B) (a : A) (rows : List A) (closed : Option Error)
    → IsLeft (scan_rows f (a ∷ rows) closed)
unfolding scan_rows
scan_rows-IsLeft {A} {B} f a rows closed = go (f a) (scan_rows f rows closed)
  where
    go :
        (first : Result B) (rest : Result (List B))
        → IsLeft (bind_result first λ b. bind_result rest λ bs. ok (b ∷ bs))
    go (ok b) (ok bs) = tt
    go (ok b) (err e) = tt
    go (ok b) panic = tt
    go (err e) rest = tt
    go panic rest = tt

apart-keys : (a b : Bytes) → b ≢ a → bytes_eq a b ≡ false
apart-keys a b ne = ground (arith, bytes_eq_iff a b)

module _ {S : Type 0} (db : Cassandra S) (works : Works db) (tx : Texts) (settings : Settings)
    (pc : Cid) (deal_id : Bytes) (s : S) where
  abbrev undealt : S
  undealt = (db.delete_deal deal_id s).1

  -- On databases that work: removing a deal while the piece has another one takes the row of the
  -- deal away and nothing else, whether an error is returned or not.
  pub remove_deal_for_piece-shared :
      (u : Bytes)
      → u ≢ deal_id
      → is_deal_of pc ((works.tables s).deals u) ≡ true
      → works.tables (remove_deal_for_piece db tx settings pc deal_id s).1
        ≡ drop_deal deal_id (works.tables s)
  unfolding remove_deal_for_piece get_piece_deals checked drop_deal
  remove_deal_for_piece-shared u ne other = rw (works.delete_deal_works deal_id s).0 (
      kept (get_piece_deals db tx pc undealt)
        (found (db.select_deals pc undealt).0 (db.select_deals pc undealt).1 listed)
      ∙ (works.delete_deal_works deal_id s).1)
    where
      listed : any (of_uuid u) (db.select_deals pc undealt).0 ≡ true
      listed =
          (works.select_deals_works pc undealt).1 u
          ∙ rw (works.delete_deal_works deal_id s).1 (rw (apart-keys deal_id u ne) other)

      nonempty :
          (r : Result (List DealInfo))
          → IsLeft r
          → IsLeft (bind_result r λ ds. checked db tx pc ds undealt)
      nonempty (ok []) h = absurd h
      nonempty (ok (d ∷ ds)) h = tt
      nonempty (err e) h = tt
      nonempty panic h = tt

      found :
          (rows : List DealInfo) (closed : Option Error)
          → any (of_uuid u) rows ≡ true
          → IsLeft (
              bind_result
                (scan_rows (read_deal db tx) rows closed)
                λ ds. checked db tx pc ds undealt)
      found [] closed h = ground arith
      found (d ∷ rows) closed h =
          nonempty (scan_rows (read_deal db tx) (d ∷ rows) closed)
            (scan_rows-IsLeft (read_deal db tx) d rows closed)

      kept :
          (r : Result (List DealInfo))
          → IsLeft r
          → works.tables (continue r (λ dls. remove_piece_if db tx settings dls pc) undealt).1
            ≡ works.tables undealt
      kept (ok []) h = absurd h
      kept (ok (d ∷ ds)) h = refl
      kept (err e) h = refl
      kept panic h = refl
