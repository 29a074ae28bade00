-- ===== src/Tests/Chunks.antt =====
-- A coding of the stored values, in place of JSON: lists of chunks, each with its length before it.
use txcartool.Common.{
  ℕ, zero, suc, ◌≤◌, ◌≡◌, refl, ap, Bool, true, false, Option, none, some, List, [], ◌∷◌, ◌++◌,
  Bytes, Result, ok, err, failed, arith, length, length-append, take, drop,
}
use txcartool.Ldb.Model.{DealInfo, WireMetadata, LeveldbFlaggedMetadata}

chunks : List Bytes → Bytes
chunks [] = []
chunks (b ∷ bs) = length b ∷ b ++ chunks bs

unchunk : ℕ → Bytes → List Bytes
unchunk zero r = []
unchunk (suc f) [] = []
unchunk (suc f) (n ∷ r) = take n r ∷ unchunk f (drop n r)

take-append : (p q : Bytes) → take (length p) (p ++ q) ≡ p
take-append [] q = refl
take-append (x ∷ p) q = ap (◌∷◌ x) (take-append p q)

drop-append : (p q : Bytes) → drop (length p) (p ++ q) ≡ q
drop-append [] q = refl
drop-append (x ∷ p) q = drop-append p q

unchunk-chunks : (f : ℕ) (bs : List Bytes) → length bs ≤ f → unchunk f (chunks bs) ≡ bs
unfolding chunks unchunk
unchunk-chunks zero [] h = refl
unchunk-chunks zero (b ∷ bs) h = absurd (omega arith)
unchunk-chunks (suc f) [] h = refl
unchunk-chunks (suc f) (b ∷ bs) h =
    rw (take-append b (chunks bs))
      (rw (drop-append b (chunks bs)) (ap (◌∷◌ b) (unchunk-chunks f bs (omega arith))))

length-chunks : (bs : List Bytes) → length bs ≤ length (chunks bs)
unfolding chunks
length-chunks [] = omega arith
length-chunks (b ∷ bs) = omega (arith, length-chunks bs, length-append b (chunks bs))

unfoldable pub pack : List Bytes → Bytes
unfolding chunks
pack = chunks

unfoldable pub unpack : Bytes → List Bytes
unfolding unchunk
unpack b = unchunk (length b) b

pub unpack-pack : (bs : List Bytes) → unpack (pack bs) ≡ bs
unfolding unpack pack
unpack-pack bs = unchunk-chunks (length (chunks bs)) bs (length-chunks bs)

abbrev bit : Bool → ℕ
bit true = 1
bit false = 0

abbrev unbit : ℕ → Bool
unbit zero = false
unbit (suc n) = true

unbit-bit : (b : Bool) → unbit (bit b) ≡ b
unbit-bit true = refl
unbit-bit false = refl

deal_chunks : List DealInfo → List Bytes
deal_chunks [] = []
deal_chunks (d ∷ ds) =
    d.deal_uuid
    ∷ d.miner_addr
    ∷ (bit d.is_legacy
        ∷ d.chain_deal_id
        ∷ d.sector_id
        ∷ d.piece_offset
        ∷ d.piece_length
        ∷ d.car_length
        ∷ bit d.is_direct_deal
        ∷ [])
    ∷ deal_chunks ds

deal_of : Bytes → Bytes → Bytes → DealInfo
deal_of u m (l ∷ c ∷ s ∷ o ∷ p ∷ z ∷ t ∷ _) = record {
  deal_uuid = u;
  is_legacy = unbit l;
  chain_deal_id = c;
  miner_addr = m;
  sector_id = s;
  piece_offset = o;
  piece_length = p;
  car_length = z;
  is_direct_deal = unbit t;
}
deal_of u m _ = record {
  deal_uuid = u;
  is_legacy = false;
  chain_deal_id = 0;
  miner_addr = m;
  sector_id = 0;
  piece_offset = 0;
  piece_length = 0;
  car_length = 0;
  is_direct_deal = false;
}

deals_of : List Bytes → List DealInfo
deals_of (u ∷ m ∷ n ∷ rest) = deal_of u m n ∷ deals_of rest
deals_of _ = []

deals_of-chunks : (ds : List DealInfo) → deals_of (deal_chunks ds) ≡ ds
unfolding deals_of deal_chunks deal_of
deals_of-chunks [] = refl
deals_of-chunks (d ∷ ds) =
    ground (arith, deals_of-chunks ds, unbit-bit d.is_legacy, unbit-bit d.is_direct_deal)

abbrev bool_option : Option Bool → Bytes
bool_option none = []
bool_option (some b) = bit b ∷ []

abbrev unbool_option : Bytes → Option Bool
unbool_option [] = none
unbool_option (b ∷ bs) = some (unbit b)

abbrev num_option : Option ℕ → Bytes
num_option none = []
num_option (some b) = b ∷ []

abbrev unnum_option : Bytes → Option ℕ
unnum_option [] = none
unnum_option (b ∷ bs) = some b

unfoldable pub metadata_chunks : WireMetadata → List Bytes
unfolding deal_chunks
metadata_chunks w = w.v ∷ (w.i ∷ []) ∷ bool_option w.complete ∷ num_option w.c ∷ deal_chunks w.d

unfoldable pub metadata_of : List Bytes → Result WireMetadata
unfolding deals_of deal_of
metadata_of (v ∷ (i ∷ _) ∷ b ∷ c ∷ ds) =
    ok (record { v = v; i = i; d = deals_of ds; complete = unbool_option b; c = unnum_option c })
metadata_of _ = err (failed [])

pub metadata_of-chunks : (w : WireMetadata) → metadata_of (metadata_chunks w) ≡ ok w
unfolding metadata_of metadata_chunks
metadata_of-chunks w = ground (arith, deals_of-chunks w.d)

unfoldable pub flagged_chunks : LeveldbFlaggedMetadata → List Bytes
flagged_chunks fm =
    (fm.created_at ∷ fm.updated_at ∷ bit fm.has_unsealed_copy ∷ []) ∷ fm.miner_addr ∷ []

unfoldable pub flagged_of : List Bytes → Result LeveldbFlaggedMetadata
flagged_of ((c ∷ u ∷ h ∷ _) ∷ m ∷ _) =
    ok (record { created_at = c; updated_at = u; has_unsealed_copy = unbit h; miner_addr = m })
flagged_of _ = err (failed [])

pub flagged_of-chunks : (fm : LeveldbFlaggedMetadata) → flagged_of (flagged_chunks fm) ≡ ok fm
unfolding flagged_of flagged_chunks
flagged_of-chunks fm = ground (arith, unbit-bit fm.has_unsealed_copy)
