-- ===== src/Ldb/Model.antt =====
-- lib/boostd-data/model/model.go and the row types of lib/boostd-data/ldb/service.go.
-- A cid, a multihash and an address are their bytes, compared as such. A `time.Time` is a number
-- of nanoseconds, and 0 is its zero value.
use txcartool.Common.{
  ℕ, ◌≡◌, refl, Bool, true, false, not, ◌&&◌, ◌||◌, Option, none, some, List, [], ◌∷◌, Bytes, codes,
  bytes_eq, ltb, ◌==◌, if◌then◌else◌,
}

abbrev pub Cid : Type 0
Cid = Bytes

abbrev pub Multihash : Type 0
Multihash = Bytes

abbrev pub Address : Type 0
Address = Bytes

abbrev pub Time : Type 0
Time = ℕ

pub record DealInfo : Type 0 where
  pub deal_uuid : Bytes
  pub is_legacy : Bool
  pub chain_deal_id : ℕ
  pub miner_addr : Address
  pub sector_id : ℕ
  pub piece_offset : ℕ
  pub piece_length : ℕ
  pub car_length : ℕ
  pub is_direct_deal : Bool

pub record Metadata : Type 0 where
  pub version : Bytes
  pub indexed_at : Time
  pub complete_index : Bool
  pub deals : List DealInfo

pub record OffsetSize : Type 0 where
  pub offset : ℕ
  pub size : ℕ

pub record Record : Type 0 where
  pub cid : Cid
  pub offset_size : OffsetSize
  pub open offset_size use *

pub record FlaggedPiece : Type 0 where
  pub miner_addr : Address
  pub piece_cid : Cid
  pub created_at : Time
  pub updated_at : Time
  pub has_unsealed_copy : Bool

pub record LeveldbFlaggedMetadata : Type 0 where
  pub created_at : Time
  pub updated_at : Time
  pub has_unsealed_copy : Bool
  pub miner_addr : Address

-- The struct that embeds `model.Metadata` and adds a cursor.
pub record LeveldbMetadata : Type 0 where
  pub metadata : Metadata
  pub open metadata use *
  pub cursor : ℕ

unfoldable pub new_leveldb_metadata : LeveldbMetadata
new_leveldb_metadata = record {
  metadata = record { version = codes "1"; indexed_at = 0; complete_index = false; deals = [] };
  cursor = 0;
}

unfoldable pub bool_eq : Bool → Bool → Bool
bool_eq true b = b
bool_eq false b = not b

-- Go's `==` on two `DealInfo` structs.
unfoldable pub deal_eq : DealInfo → DealInfo → Bool
unfolding bool_eq
deal_eq a b =
    bytes_eq a.deal_uuid b.deal_uuid
    && bool_eq a.is_legacy b.is_legacy
    && a.chain_deal_id == b.chain_deal_id
    && bytes_eq a.miner_addr b.miner_addr
    && a.sector_id == b.sector_id
    && a.piece_offset == b.piece_offset
    && a.piece_length == b.piece_length
    && a.car_length == b.car_length
    && bool_eq a.is_direct_deal b.is_direct_deal

-- The fields of a `LeveldbMetadata` with their JSON names and their depth in the struct.
pub data Field : Type 0 where
  version indexed_at complete_index deals cursor : Field

abbrev pub json_name : Field → ℕ
json_name Field.version = b'v'
json_name Field.indexed_at = b'i'
json_name Field.complete_index = b'c'
json_name Field.deals = b'd'
json_name Field.cursor = b'c'

abbrev pub depth : Field → ℕ
depth Field.cursor = 0
depth _ = 1

abbrev fields : List Field
fields = Field.version ∷ Field.indexed_at ∷ Field.complete_index ∷ Field.deals ∷ Field.cursor ∷ []

-- encoding/json drops a field if one of the same name stands less deep.
unfoldable pub is_hidden : Field → List Field → Bool
is_hidden f [] = false
is_hidden f (g ∷ gs) = (json_name f == json_name g && ltb (depth g) (depth f)) || is_hidden f gs

-- The JSON object: a field that is hidden is not in it.
pub record WireMetadata : Type 0 where
  pub v : Bytes
  pub i : Time
  pub d : List DealInfo
  pub complete : Option Bool
  pub c : Option ℕ

abbrev unless_hidden {ℓ} : {A : Type ℓ} → Field → A → Option A
unfolding is_hidden
unless_hidden f a = if is_hidden f fields then none else some a

unfoldable pub to_wire : LeveldbMetadata → WireMetadata
unfolding is_hidden
to_wire md = record {
  v = md.version;
  i = md.indexed_at;
  d = md.deals;
  complete = unless_hidden Field.complete_index md.complete_index;
  c = unless_hidden Field.cursor md.cursor;
}

abbrev or_default {ℓ} : {A : Type ℓ} → A → Option A → A
or_default a none = a
or_default a (some b) = b

-- A field that the object lacks keeps the zero value of the variable that is decoded into.
unfoldable pub of_wire : WireMetadata → LeveldbMetadata
of_wire w = record {
  metadata = record {
    version = w.v;
    indexed_at = w.i;
    complete_index = or_default false w.complete;
    deals = w.d;
  };
  cursor = or_default 0 w.c;
}

-- What comes back from the database of a row that was written: all but `complete_index`.
pub of_wire-to_wire :
    (md : LeveldbMetadata)
    → of_wire (to_wire md) ≡ record md { metadata = record md.metadata { complete_index = false } }
unfolding of_wire to_wire
of_wire-to_wire md = refl
