-- ===== src/Yugabyte/Works/Entries.antt =====
-- What a list of inserts leaves in the tables.
use txcartool.Common.{
  ◌≡◌, refl, Bool, true, false, not, ◌&&◌, ◌||◌, some, List, [], ◌∷◌, ◌++◌, Bytes, bytes_eq, any,
  concat, arith, ◌==◌, ◌⊎◌, ◌∙◌, sym,
}
use txcartool.Ldb.Model.{Cid, Multihash, OffsetSize}
use txcartool.Yugabyte.Db.{Entry, to_piece, block_at}
use txcartool.Yugabyte.Batches.Order.{apply_all}
use txcartool.Yugabyte.Works.{Tables, put_entry}

unfoldable pub os_eq : OffsetSize → OffsetSize → Bool
os_eq a b = a.offset == b.offset && a.size == b.size

pub eq_of_os_eq : (a b : OffsetSize) → os_eq a b ≡ true → a ≡ b
unfolding os_eq
eq_of_os_eq a b h = ground arith

abbrev pub is_block : Cid → Multihash → Entry → Bool
is_block pc m (to_piece t qc) = false
is_block pc m (block_at qc n os) = bytes_eq qc pc && bytes_eq n m

-- an entry of the block with another offset or size
abbrev pub is_other_block : Cid → Multihash → OffsetSize → Entry → Bool
is_other_block pc m os (to_piece t qc) = false
is_other_block pc m os (block_at qc n os') = (bytes_eq qc pc && bytes_eq n m) && not (os_eq os' os)

abbrev pub is_holder : Bytes → Cid → Entry → Bool
is_holder t pc (to_piece u qc) = bytes_eq u t && bytes_eq qc pc
is_holder t pc (block_at qc n os) = false

abbrev pub inserted : List Entry → Tables → Tables
inserted es v = apply_all put_entry es v

pub blocks-inserted_ne :
    (es : List Entry) (v : Tables) (pc : Cid) (m : Multihash)
    → any (is_block pc m) es ≡ false
    → (inserted es v).blocks pc m ≡ v.blocks pc m
unfolding apply_all put_entry
blocks-inserted_ne [] v pc m h = refl
blocks-inserted_ne (to_piece t qc ∷ es) v pc m h =
    blocks-inserted_ne es (put_entry (to_piece t qc) v) pc m h
blocks-inserted_ne (block_at qc n os ∷ es) v pc m h =
    let k = blocks-inserted_ne es (put_entry (block_at qc n os) v) pc m (ground arith) in
    ground (arith, k)

pub blocks-inserted :
    (es : List Entry) (v : Tables) (pc : Cid) (m : Multihash) (os : OffsetSize)
    → any (is_other_block pc m os) es ≡ false
    → (any (is_block pc m) es ≡ true) ⊎ (v.blocks pc m ≡ some os)
    → (inserted es v).blocks pc m ≡ some os
unfolding apply_all put_entry
blocks-inserted [] v pc m os h k = ground arith
blocks-inserted (to_piece t qc ∷ es) v pc m os h k =
    blocks-inserted es (put_entry (to_piece t qc) v) pc m os h k
blocks-inserted (block_at qc n os' ∷ es) v pc m os h k =
    let rest = blocks-inserted es (put_entry (block_at qc n os') v) pc m os in
    ground (arith, rest, eq_of_os_eq os' os)

pub holders-inserted :
    (es : List Entry) (v : Tables) (t : Bytes) (pc : Cid)
    → (inserted es v).holders t pc ≡ (v.holders t pc || any (is_holder t pc) es)
unfolding apply_all put_entry
holders-inserted [] v t pc = ground arith
holders-inserted (to_piece u qc ∷ es) v t pc =
    let k = holders-inserted es (put_entry (to_piece u qc) v) t pc in ground (arith, k)
holders-inserted (block_at qc n os ∷ es) v t pc =
    holders-inserted es (put_entry (block_at qc n os) v) t pc

pub metadata-inserted : (es : List Entry) (v : Tables) → (inserted es v).metadata ≡ v.metadata
unfolding apply_all put_entry
metadata-inserted [] v = refl
metadata-inserted (to_piece u qc ∷ es) v = metadata-inserted es (put_entry (to_piece u qc) v)
metadata-inserted (block_at qc n os ∷ es) v = metadata-inserted es (put_entry (block_at qc n os) v)

inserted-append :
    (es fs : List Entry) (v : Tables) → inserted (es ++ fs) v ≡ inserted fs (inserted es v)
unfolding apply_all put_entry
inserted-append [] fs v = refl
inserted-append (e ∷ es) fs v = inserted-append es fs (put_entry e v)

pub inserted-concat :
    (bss : List (List Entry)) (v : Tables)
    → apply_all (apply_all put_entry) bss v ≡ inserted (concat bss) v
unfolding apply_all put_entry
inserted-concat [] v = refl
inserted-concat (bs ∷ bss) v =
    inserted-concat bss (inserted bs v) ∙ sym (inserted-append bs (concat bss) v)
