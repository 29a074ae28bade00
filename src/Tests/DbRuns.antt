-- ===== src/Tests/DbRuns.antt =====
-- The theorems about the SQL tables and the sector accessor at concrete inputs.
use txcartool.Common.{
  ℕ, ◌+◌, ◌≡◌, ◌≢◌, refl, true, not, ◌&&◌, ◌||◌, none, some, [], ◌∷◌, codes, ok, err, failed, arith,
  length,
}
use txcartool.Db.Fields.{
  DealLabel, label_text, label_bytes, Libraries, label_marshall, label_unmarshall,
}
use txcartool.Db.Fields.Labels.{label_unmarshall-label_marshall}
use txcartool.Db.DirectDeals.{FilterOptions, list_deals, is_query}
use txcartool.Db.DirectDeals.WellFormed.{
  is_sql, is_idle, is_given, placeholders, bit, list_deals-is_sql,
}
use txcartool.Pieces.Readers.{get_reader}
use txcartool.Pieces.SectorAccess.{SectorInfo, Lotus, is_unsealed, unseal_sector_at, sectors_status}
use txcartool.Pieces.SectorAccess.Fills.{accessor, SaysUnsealed, WasRead, get_reader-WasRead}
use txcartool.Tests.Inputs.{deal}

abbrev libraries : Libraries
libraries = record {
  cid_string = λ c. c;
  cid_parse = λ t. ok t;
  peer_string = λ p. p;
  peer_parse = λ t. ok t;
  label_from_string = λ s. ok (label_text s);
  label_from_bytes = λ b. ok (label_bytes b);
  addr_string = λ a. a;
  addr_parse = λ t. ok t;
}

abbrev label : DealLabel
label = label_bytes (171 ∷ 5 ∷ [])

label_not_empty : label ≢ label_bytes []
label_not_empty e = ground (arith, e)

label_unmarshall-label_marshall_example :
    label_unmarshall libraries (label_marshall (some label)) (label_text []) ≡ ok label
label_unmarshall-label_marshall_example =
    label_unmarshall-label_marshall libraries label (label_text [])
      ((omega arith, (omega arith, tt)), refl) label_not_empty

-- A filter with no checkpoint behind a cursor: what is sent is no SQL.
abbrev idle : FilterOptions
idle = record {
  checkpoint = none;
  is_offline = some true;
  transfer_type = none;
  is_verified = none;
}

list_deals-is_sql_example :
    let s = list_deals [] (some idle) (some (codes "deal")) 20 10 in
    (is_sql s.parts ≡ not (is_idle (some idle) && (is_given (some (codes "deal")) || is_query [])))
    × (length s.args ≡ placeholders s.parts + bit s.has_limit + bit s.has_offset)
list_deals-is_sql_example = list_deals-is_sql [] (some idle) (some (codes "deal")) 20 10

abbrev sector_info : SectorInfo
sector_info = record {
  seal_proof = 8;
  comm_d = none;
  ticket = codes "ticket";
  activation = 0;
  expiration = 0;
  deal_weight = 0;
  verified_deal_weight = 0;
  initial_pledge = 0;
  on_time = 0;
  early = 0;
}

-- A piece is given back as its offset and its length.
abbrev lotus : Lotus (ℕ × ℕ)
lotus = record {
  sectors_status = λ sid. ok sector_info;
  state_sector_get_info = λ a sid. ok none;
  state_sector_expiration = λ a sid. err (failed []);
  read_piece = λ ref off len ticket c. ok (off, len);
  is_unsealed = λ ref off len. ok true;
  id_from_address = λ a. ok 7;
}

get_reader-WasRead_example :
    SaysUnsealed lotus [] (λ n. n) deal
    × WasRead lotus [] (λ n. n) deal (deal.piece_offset, deal.piece_length)
unfolding get_reader accessor is_unsealed unseal_sector_at sectors_status
get_reader-WasRead_example =
    get_reader-WasRead lotus [] (λ n. n) deal (deal.piece_offset, deal.piece_length) refl
