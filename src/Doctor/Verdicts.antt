-- ===== src/Doctor/Verdicts.antt =====
-- What `checkPiece` of lib/boost/piecedirectory/doctor.go does with a piece, said without its loops.
use txcartool.Common.{
  ℕ, ◌≡◌, refl, sym, ◌∙◌, Bool, true, false, not, ◌&&◌, ◌||◌, Option, none, some, List, [], ◌∷◌,
  ◌++◌, Result, ok, Exec, bytes_eq, bytes_eq_iff, if◌then◌else◌, arith, Bool-cases, inl, inr,
}
use mathlib.Core.List.{append_assoc, append-nil}
use txcartool.Ldb.Model.{Cid, DealInfo, Metadata}
use txcartool.Sectors.{lookup}
use txcartool.Sectors.Refresh.{SectorStateUpdates}
use txcartool.Doctor.{
  Store, FullNode, Doctor, Found, is_active, is_unsealed, sector_of, find_active, has_claim, is_ok,
  find_on_chain, find_unsealed, on_chain, judge, check_metadata, check_piece,
}

unfoldable pub any : (DealInfo → Bool) → List DealInfo → Bool
any test [] = false
any test (dl ∷ deals) = test dl || any test deals

keep : (DealInfo → Bool) → List DealInfo → List DealInfo
keep test [] = []
keep test (dl ∷ deals) = let rest = keep test deals in if test dl then dl ∷ rest else rest

found_eq :
    (a a' b b' : Bool) (xs ys : List DealInfo)
    → a ≡ a'
    → b ≡ b'
    → xs ≡ ys
    → ◌≡◌ {A = Result Found}
        (ok (record { has_deals = a; lacks_active_sector = b; chain_deals = xs }))
        (ok (record { has_deals = a'; lacks_active_sector = b'; chain_deals = ys }))
found_eq a a' b b' xs ys p q r = rw (p, q, r)

or_true : (b : Bool) → true ≡ (b || true)
or_true true = refl
or_true false = refl

and_true : (b : Bool) → b ≡ (b && true)
and_true true = refl
and_true false = refl

and_false : (b : Bool) → false ≡ (b && false)
and_false true = refl
and_false false = refl

or_false : (b : Bool) → b ≡ (b || false)
or_false true = refl
or_false false = refl

pub data Verdict : Type 0 where
  leave unflag : Verdict
  flag : Bool → Verdict

unfoldable pub perform : {S : Type 0} → Doctor → Store S → Cid → Verdict → Exec S (Unit {0})
perform d store piece_cid leave s = (ok tt, s)
perform d store piece_cid unflag s = store.unflag_piece piece_cid d.maddr s
perform d store piece_cid (flag b) s = store.flag_piece piece_cid b d.maddr s

module _ (d : Doctor) (mid : ℕ) (lu : SectorStateUpdates) where
  abbrev pub is_mine : DealInfo → Bool
  is_mine dl = bytes_eq d.maddr dl.miner_addr

  abbrev pub in_active_sector : DealInfo → Bool
  in_active_sector dl =
      is_mine dl && is_active lu.active_sectors (record { miner = mid; number = dl.sector_id })

  abbrev pub in_unsealed_sector : DealInfo → Bool
  in_unsealed_sector dl =
      is_mine dl
      && is_unsealed (lookup lu.sector_states (record { miner = mid; number = dl.sector_id }))

  -- A direct deal is on chain if a claim has its sector, a market deal if the chain knows its id.
  abbrev pub is_on_chain : FullNode → DealInfo → Bool
  is_on_chain api dl =
      if dl.is_direct_deal
      then has_claim d api.claims dl.sector_id
      else is_ok d (api.market_deal dl.chain_deal_id)

  abbrev pub with_api : Option FullNode → DealInfo → Bool
  with_api none dl = in_active_sector dl
  with_api (some api) dl = in_active_sector dl && is_on_chain api dl

  -- A piece that has no deal with this miner is left alone. A piece is flagged if one of the deals
  -- stands in an active sector and on chain, and the piece is not indexed or no deal's sector is
  -- unsealed. Any other piece is unflagged.
  unfoldable pub verdict : List DealInfo → Bool → Verdict
  verdict deals is_indexed =
      if not (any is_mine deals)
      then leave
      else if any (with_api d.fullnode_api) deals
          && not (is_indexed && any in_unsealed_sector deals)
      then flag (any in_unsealed_sector deals)
      else unflag

  module _ (known_id : d.id_from_address d.maddr ≡ ok mid) where
    sector-mine :
        (dl : DealInfo)
        → is_mine dl ≡ true
        → sector_of d dl ≡ ok (record { miner = mid; number = dl.sector_id })
    unfolding sector_of
    sector-mine dl e = rw (sym ((bytes_eq_iff d.maddr dl.miner_addr).0 e)) (rw known_id)

    find_active_lem :
        (deals : List DealInfo) (f : Found)
        → find_active d lu deals f
          ≡ ok (record {
            has_deals = f.has_deals || any is_mine deals;
            lacks_active_sector = f.lacks_active_sector && not (any in_active_sector deals);
            chain_deals = f.chain_deals ++ keep in_active_sector deals;
          })
    unfolding find_active any keep
    find_active_lem [] f =
        found_eq _ _ _ _ _ _ (or_false f.has_deals) (and_true f.lacks_active_sector)
          (sym (append-nil f.chain_deals))
    find_active_lem (dl ∷ deals) f = elim (Bool-cases (is_mine dl)) [
      | inl mine ↦
          elim (Bool-cases
            (is_active lu.active_sectors (record { miner = mid; number = dl.sector_id }))) [
              | inl act ↦ rw mine (
                  rw (sector-mine dl mine) (
                    rw act (
                      find_active_lem deals _
                      ∙ found_eq _ _ _ _ _ _ (or_true f.has_deals) (and_false f.lacks_active_sector)
                          (append_assoc f.chain_deals (dl ∷ []) _))))
              | inr idle ↦ rw mine (
                  rw (sector-mine dl mine) (
                    rw idle (
                      find_active_lem deals _
                      ∙ found_eq _ _ _ _ _ _ (or_true f.has_deals) refl refl)))
            ]
      | inr other ↦ rw other (find_active_lem deals f)
    ]

    find_unsealed_lem :
        (deals : List DealInfo) → find_unsealed d lu deals ≡ ok (any in_unsealed_sector deals)
    unfolding find_unsealed any
    find_unsealed_lem [] = refl
    find_unsealed_lem (dl ∷ deals) = elim (Bool-cases (is_mine dl)) [
      | inl mine ↦ rw mine (rw (sector-mine dl mine) (ground (arith, find_unsealed_lem deals)))
      | inr other ↦ rw other (find_unsealed_lem deals)
    ]

    on_chain_lem :
        (api : FullNode) (deals : List DealInfo) (b : Bool)
        → find_on_chain d api (keep in_active_sector deals) b
          ≡ (b || any (with_api (some api)) deals)
    unfolding find_on_chain keep any
    on_chain_lem api [] b = ground arith
    on_chain_lem api (dl ∷ deals) b = elim (Bool-cases (in_active_sector dl)) [
      | inl act ↦ rw act (
          ground (
            arith,
            on_chain_lem api deals b,
            on_chain_lem api deals (b || has_claim d api.claims dl.sector_id),
          ))
      | inr idle ↦ rw idle (on_chain_lem api deals b)
    ]

    any-with_api :
        (api : Option FullNode) (deals : List DealInfo)
        → any in_active_sector deals ≡ false
        → any (with_api api) deals ≡ false
    unfolding any
    any-with_api none deals e = e
    any-with_api (some api) [] e = refl
    any-with_api (some api) (dl ∷ deals) e = ground (arith, any-with_api (some api) deals)

    on_chain-with_api :
        (api : Option FullNode) (deals : List DealInfo)
        → any in_active_sector deals ≡ true
        → on_chain d api (keep in_active_sector deals) ≡ any (with_api api) deals
    on_chain-with_api none deals e = sym e
    on_chain-with_api (some api) deals e = on_chain_lem api deals false

    module _ {S : Type 0} (store : Store S) where
      judge_lem :
          (pc : Cid) (md : Metadata) (is_indexed : Bool) (s : S)
          → store.is_indexed pc s ≡ (ok is_indexed, s)
          → judge d store pc lu md s
            ≡ perform d store pc
                (if not (is_indexed && any in_unsealed_sector md.deals)
                  then flag (any in_unsealed_sector md.deals)
                  else unflag)
                s
      unfolding judge perform
      judge_lem pc md is_indexed s e = rw (find_unsealed_lem md.deals) (
          rw e (elim (Bool-cases is_indexed) [
            | inl i ↦ elim (Bool-cases (any in_unsealed_sector md.deals)) [
              | inl u ↦ rw (i, u)
              | inr u ↦ rw (i, u)
            ]
            | inr i ↦ rw i
          ]))

      check_metadata_lem :
          (pc : Cid) (md : Metadata) (is_indexed : Bool) (s : S)
          → store.is_indexed pc s ≡ (ok is_indexed, s)
          → check_metadata d store pc lu md s ≡ perform d store pc (verdict md.deals is_indexed) s
      unfolding check_metadata verdict perform
      check_metadata_lem pc md is_indexed s e =
          rw (find_active_lem md.deals _) (elim (Bool-cases (any is_mine md.deals)) [
            | inr other ↦ rw other
            | inl mine ↦ elim (Bool-cases (any in_active_sector md.deals)) [
              | inr idle ↦ rw (mine, idle, any-with_api d.fullnode_api md.deals idle)
              | inl act ↦
                  rw (mine, act)
                    (rw (on_chain-with_api d.fullnode_api md.deals act)
                      (elim (Bool-cases (any (with_api d.fullnode_api) md.deals)) [
                        | inr off ↦ rw off
                        | inl on ↦ rw on (judge_lem pc md is_indexed s e)
                      ]))
            ]
          ])

      -- Where the miner's address has an actor id, and the directory gives the piece's metadata
      -- and says whether it is indexed, a check of the piece does to the directory what the
      -- verdict on its deals says, and returns what that returns.
      pub check_piece_lem :
          (pc : Cid) (md : Metadata) (is_indexed : Bool) (s : S)
          → store.get_piece_metadata pc s ≡ (ok md, s)
          → store.is_indexed pc s ≡ (ok is_indexed, s)
          → check_piece d store pc lu s ≡ perform d store pc (verdict md.deals is_indexed) s
      unfolding check_piece
      check_piece_lem pc md is_indexed s em ei = rw em (check_metadata_lem pc md is_indexed s ei)
