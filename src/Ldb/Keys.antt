-- ===== src/Ldb/Keys.antt =====
-- The keys of the database (lib/boostd-data/ldb/db.go): the prefixes that `init` builds and the
-- texts that are made into keys.
pub mod Distinct
pub mod Records
use txcartool.Common.{
  ℕ, zero, suc, ◌+◌, ◌-◌, ◌/◌, ◌%◌, List, [], ◌∷◌, ◌++◌, Bytes, ltb, if◌then◌else◌, length,
  replicate,
}
use txcartool.Ldb.Model.{Cid, Multihash, Address}
use txcartool.Ldb.Uvarint.{max_varint_len, put_uvarint}
use txcartool.Ldb.Env.{Env}

-- `make([]byte, MaxVarintLen64)` with a number put at its front.
unfoldable pub uvarint_buffer : ℕ → Bytes
unfolding put_uvarint
uvarint_buffer x = let b = put_uvarint x in b ++ replicate (max_varint_len - length b) 0

abbrev pub key_next_cursor : ℕ
key_next_cursor = 0

abbrev pub prefix_piece_cid_to_cursor : ℕ
prefix_piece_cid_to_cursor = 1

abbrev pub prefix_mh_to_piece_cids : ℕ
prefix_mh_to_piece_cids = 2

abbrev pub prefix_piece_cid_to_flagged : ℕ
prefix_piece_cid_to_flagged = 3

abbrev pub slash : ℕ
slash = b'/'

decimal_loop : ℕ → ℕ → Bytes
decimal_loop zero n = []
decimal_loop (suc f) n =
    let front = decimal_loop f (n / 10) in
    if ltb n 10 then (48 + n) ∷ [] else front ++ (48 + n % 10) ∷ []

-- `%d` of a uint64, which has at most 20 digits.
unfoldable pub decimal : ℕ → Bytes
unfolding decimal_loop
decimal n = decimal_loop 20 n

unfoldable pub key_cursor_prefix : ℕ → Bytes
unfolding decimal
key_cursor_prefix cursor = decimal cursor ++ slash ∷ []

module _ {S : Type 0} (env : Env S) where
  open env use {new_key, cid_string, mh_string, addr_string}

  unfoldable pub dskey_next_cursor : Bytes
  unfolding uvarint_buffer
  dskey_next_cursor = new_key (uvarint_buffer key_next_cursor)

  unfoldable pub metadata_key : Cid → Bytes
  unfolding uvarint_buffer
  metadata_key piece_cid =
      new_key (uvarint_buffer prefix_piece_cid_to_cursor ++ slash ∷ cid_string piece_cid)

  -- The callers hold the multihash itself, or its text.
  unfoldable pub mh_text_key : Bytes → Bytes
  unfolding uvarint_buffer
  mh_text_key m = new_key (uvarint_buffer prefix_mh_to_piece_cids ++ m)

  abbrev pub mh_key : Multihash → Bytes
  mh_key mh = mh_text_key (mh_string mh)

  unfoldable pub piece_cid_to_flagged_key : Address → Cid → Bytes
  unfolding uvarint_buffer
  piece_cid_to_flagged_key maddr piece_cid = new_key (
      uvarint_buffer prefix_piece_cid_to_flagged
      ++ slash ∷ addr_string maddr
      ++ slash ∷ cid_string piece_cid)

  unfoldable pub record_key : Bytes → Multihash → Bytes
  record_key cursor_prefix m = new_key (cursor_prefix ++ mh_string m)
