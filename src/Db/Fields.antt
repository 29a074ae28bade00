-- ===== src/Db/Fields.antt =====
-- lib/boost/db/fielddef/fielddef.go: the columns of the SQL tables. A `sql.NullString` that is not
-- valid is `none`; a field keeps what it had where nothing is decoded. go-cid, go-libp2p, go-address,
-- math/big and the deal labels of go-state-types are parameters.
pub mod Labels
use txcartool.Common.{
  ℕ, ◌+◌, ◌-◌, ◌*◌, ◌/◌, ◌%◌, Bool, true, false, ◌&&◌, Option, none, some, List, [], ◌∷◌, Bytes,
  codes, Result, ok, err, panic, Error, failed, bind_result, bytes_eq, if◌then◌else◌, ◌==◌, ltb,
  leb, bytes_eq,
}
use txcartool.Ldb.Model.{Cid, Address}
use txcartool.Db.Checkpoints.{Checkpoint, Entry, string, from_string}

-- `market.DealLabel`
pub data DealLabel : Type 0 where
  label_text : Bytes → DealLabel
  label_bytes : Bytes → DealLabel

abbrev pub empty_deal_label : DealLabel
empty_deal_label = label_text []

-- The numbers of `big.Int` are those of its texts.
pub record Libraries : Type 0 where
  pub cid_string : Cid → Bytes
  pub cid_parse : Bytes → Result Cid
  -- `peer.ID.String` and `UnmarshalText`
  pub peer_string : Bytes → Bytes
  pub peer_parse : Bytes → Result Bytes
  pub label_from_string : Bytes → Result DealLabel
  pub label_from_bytes : Bytes → Result DealLabel
  pub addr_string : Address → Bytes
  pub addr_parse : Bytes → Result Address

-- `hex.EncodeToString`
abbrev pub hex_digit : ℕ → ℕ
hex_digit n = if ltb n 10 then n + b'0' else n - 10 + b'a'

unfoldable pub hex_encode : Bytes → Bytes
hex_encode [] = []
hex_encode (b ∷ bs) = hex_digit (b / 16) ∷ hex_digit (b % 16) ∷ hex_encode bs

-- `hex.DecodeString`
abbrev pub hex_error : Error
hex_error = failed (codes "encoding/hex")

abbrev pub from_hex_digit : ℕ → Result ℕ
from_hex_digit c =
    if leb b'0' c && leb c b'9'
    then ok (c - b'0')
    else if leb b'a' c && leb c b'f'
    then ok (c - b'a' + 10)
    else if leb b'A' c && leb c b'F'
    then ok (c - b'A' + 10)
    else err hex_error

unfoldable pub hex_decode : Bytes → Result Bytes
hex_decode [] = ok []
hex_decode (c ∷ []) = err hex_error
hex_decode (c ∷ d ∷ cs) =
    let rest = hex_decode cs in
    bind_result (from_hex_digit c)
      λ hi. bind_result (from_hex_digit d) λ lo. bind_result rest λ bs. ok ((hi * 16 + lo) ∷ bs)

-- `CidFieldDef`; the pointer may be nil.
unfoldable pub cid_marshall : Libraries → Option Cid → Option Bytes
cid_marshall lib none = none
cid_marshall lib (some c) = some (lib.cid_string c)

unfoldable pub cid_unmarshall : Libraries → Option Bytes → Cid → Result Cid
cid_unmarshall lib none old = ok old
cid_unmarshall lib (some t) old = lib.cid_parse t

-- `CidPtrFieldDef`, whose field may be nil too
unfoldable pub cid_ptr_unmarshall : Libraries → Option Bytes → Option Cid → Result (Option Cid)
cid_ptr_unmarshall lib none old = ok old
cid_ptr_unmarshall lib (some t) old = bind_result (lib.cid_parse t) λ c. ok (some c)

-- `PeerIDFieldDef`
unfoldable pub peer_marshall : Libraries → Option Bytes → Option Bytes
peer_marshall lib none = none
peer_marshall lib (some p) = some (lib.peer_string p)

unfoldable pub peer_unmarshall : Libraries → Option Bytes → Bytes → Result Bytes
peer_unmarshall lib none old = ok old
peer_unmarshall lib (some t) old =
    if bytes_eq t [] then ok [] else if bytes_eq t (codes "dummy") then ok t else lib.peer_parse t

-- `LabelFieldDef`
unfoldable pub label_marshall : Option DealLabel → Option Bytes
label_marshall none = none
label_marshall (some (label_text s)) = some (b'\'' ∷ s)
label_marshall (some (label_bytes bz)) = some (b'x' ∷ hex_encode bz)

abbrev pub unmarshall_hex : Libraries → Bytes → Result DealLabel
unmarshall_hex lib [] = err (failed (codes "cannot unmarshall empty string to hex"))
unmarshall_hex lib (c ∷ cs) = bind_result (hex_decode (c ∷ cs)) lib.label_from_bytes

abbrev pub unmarshall_text : Libraries → Bytes → Result DealLabel
unmarshall_text lib [] = ok empty_deal_label
unmarshall_text lib (c ∷ cs) =
    if bytes_eq (c ∷ cs) (b'\'' ∷ [])
    then ok empty_deal_label
    else if c == b'x'
    then unmarshall_hex lib cs
    else lib.label_from_string cs

unfoldable pub label_unmarshall : Libraries → Option Bytes → DealLabel → Result DealLabel
label_unmarshall lib none old = ok old
label_unmarshall lib (some t) old = unmarshall_text lib t

-- `LabelFieldDefUnmarshall`, into a new label
unfoldable pub label_field_def_unmarshall : Libraries → Option Bytes → Result DealLabel
label_field_def_unmarshall lib marshalled = label_unmarshall lib marshalled empty_deal_label

-- `AddrFieldDef`
unfoldable pub addr_marshall : Libraries → Address → Bytes
addr_marshall lib a = lib.addr_string a

unfoldable pub addr_unmarshall : Libraries → Bytes → Result Address
addr_unmarshall lib t = lib.addr_parse t

-- `CkptFieldDef`
unfoldable pub ckpt_marshall : Checkpoint → Bytes
ckpt_marshall c = string c

unfoldable pub ckpt_unmarshall : List Entry → Bytes → Result Checkpoint
ckpt_unmarshall order t = from_string order t
