-- ===== src/Ldb/Keys/Distinct.antt =====
-- The keys of the tables in lib/boostd-data/ldb/db.go differ from table to table and from value to
-- value.
use txcartool.Common.{
  ℕ, ◌≡◌, ◌≢◌, inl, inr, refl, sym, ap, ◌∙◌, true, false, ◌&&◌, [], ◌∷◌, ◌++◌, arith, Bytes,
  bytes_eq, bytes_eq_iff, All, Bool-cases,
}
use txcartool.Ldb.Model.{Cid, Address, Multihash}
use txcartool.Ldb.Env.{Env}
use txcartool.Ldb.Works.{IsPlain, Named}
use txcartool.Ldb.Keys.{
  slash, uvarint_buffer, dskey_next_cursor, metadata_key, mh_key, mh_text_key,
  piece_cid_to_flagged_key,
}

append-cancel : (p a b : Bytes) → p ++ a ≡ p ++ b → a ≡ b
append-cancel [] a b e = e
append-cancel (x ∷ p) a b e = append-cancel p a b (cc)

-- Two texts without a slash, each with a slash and more behind it.
pub split-eq :
    (p q r t : Bytes)
    → All (λ c. c ≢ slash) p
    → All (λ c. c ≢ slash) q
    → p ++ slash ∷ r ≡ q ++ slash ∷ t
    → (p ≡ q) × (r ≡ t)
split-eq [] [] r t hp hq e = (refl, cc)
split-eq [] (y ∷ q) r t hp hq e = absurd (hq.0 (cc))
split-eq (x ∷ p) [] r t hp hq e = absurd (hp.0 (cc))
split-eq (x ∷ p) (y ∷ q) r t hp hq e = let (ep, er) = split-eq p q r t hp.1 hq.1 (cc) in (cc, er)

pub plain-All : (p : Bytes) → IsPlain p → All (λ c. c ≢ slash) p
plain-All [] h = absurd h
plain-All (b ∷ bs) h = (h.0, h.2)

append-IsPlain : (p q : Bytes) → IsPlain p → All (λ c. c ≢ slash) q → IsPlain (p ++ q)
append-IsPlain [] q h k = absurd h
append-IsPlain (b ∷ bs) q h k = (h.0, h.1, tail bs h.2)
  where
    tail : (xs : Bytes) → All (λ c. c ≢ slash) xs → All (λ c. c ≢ slash) (xs ++ q)
    tail [] hs = k
    tail (x ∷ xs) hs = (hs.0, tail xs hs.1)

-- The byte behind the slash tells the table.
abbrev pub tag : Bytes → ℕ
tag (b ∷ c ∷ k) = c
tag _ = 0

pub bytes_ne_of_tag : (k j : Bytes) → tag k ≢ tag j → bytes_eq k j ≡ false
bytes_ne_of_tag k j h = elim (Bool-cases (bytes_eq k j)) [
  | inl e ↦ absurd (h (ap tag ((bytes_eq_iff k j).0 e)))
  | inr e ↦ e
]

pub same_test : (k j a b : Bytes) → (k ≡ j → a ≡ b) → (a ≡ b → k ≡ j) → bytes_eq k j ≡ bytes_eq a b
same_test k j a b f g = elim (Bool-cases (bytes_eq k j)) [
  | inl e ↦ e ∙ sym ((bytes_eq_iff a b).1 (f ((bytes_eq_iff k j).0 e)))
  | inr e ↦ elim (Bool-cases (bytes_eq a b)) [
    | inl e' ↦ absurd (clash (sym e ∙ (bytes_eq_iff k j).1 (g ((bytes_eq_iff a b).0 e'))))
    | inr e' ↦ e ∙ sym e'
  ]
]
  where
    clash : false ≡ true → ⊥
    clash h = cc

pub pair_test :
    (k j a b c d : Bytes)
    → (k ≡ j → (a ≡ b) × (c ≡ d))
    → (a ≡ b → c ≡ d → k ≡ j)
    → bytes_eq k j ≡ (bytes_eq a b && bytes_eq c d)
pair_test k j a b c d f g = elim (Bool-cases (bytes_eq k j)) [
  | inl e ↦
      let p = f ((bytes_eq_iff k j).0 e) in
      ground (arith, e, (bytes_eq_iff a b).1 p.0, (bytes_eq_iff c d).1 p.1)
  | inr e ↦ elim (Bool-cases (bytes_eq a b && bytes_eq c d)) [
    | inr e' ↦ e ∙ sym e'
    | inl e' ↦ ground (arith, e, e', bytes_eq_iff a b, bytes_eq_iff c d, bytes_eq_iff k j, g)
  ]
]

abbrev pub nul9 : Bytes
nul9 = 0 ∷ 0 ∷ 0 ∷ 0 ∷ 0 ∷ 0 ∷ 0 ∷ 0 ∷ 0 ∷ []

module _ {S : Type 0} (env : Env S) (named : Named env) where
  pub metadata_key_lem :
      (c : Cid) → metadata_key env c ≡ slash ∷ 1 ∷ nul9 ++ slash ∷ env.cid_string c
  unfolding metadata_key uvarint_buffer
  metadata_key_lem c =
      named.new_key_two (1 ∷ nul9) (env.cid_string c) (omega arith) (named.cid_plain c)

  pub flagged_key_lem :
      (a : Address) (c : Cid)
      → piece_cid_to_flagged_key env a c
        ≡ slash ∷ 3 ∷ nul9 ++ slash ∷ env.addr_string a ++ slash ∷ env.cid_string c
  unfolding piece_cid_to_flagged_key uvarint_buffer
  flagged_key_lem a c =
      named.new_key_three (3 ∷ nul9) (env.addr_string a) (env.cid_string c) (omega arith)
        (named.addr_plain a) (named.cid_plain c)

  pub cursor_key_lem : dskey_next_cursor env ≡ slash ∷ 0 ∷ nul9
  unfolding dskey_next_cursor uvarint_buffer
  cursor_key_lem = named.new_key_one (0 ∷ nul9) (omega arith)

  pub mh_key_lem : (m : Multihash) → mh_key env m ≡ slash ∷ 2 ∷ nul9 ++ env.mh_string m
  unfolding mh_text_key uvarint_buffer
  mh_key_lem m =
      named.new_key_one (2 ∷ nul9 ++ env.mh_string m)
        (append-IsPlain (2 ∷ nul9) (env.mh_string m) (omega arith) (plain-All _ (named.mh_plain m)))

  pub metadata_key-eq :
      (a b : Cid) → bytes_eq (metadata_key env a) (metadata_key env b) ≡ bytes_eq a b
  metadata_key-eq a b =
      same_test _ _ a b
        (λ e. named.cid_injective a b (cc (metadata_key_lem a, metadata_key_lem b, e)))
        (λ e. ap (metadata_key env) e)

  pub metadata-flagged :
      (a : Cid) (m : Address) (c : Cid)
      → bytes_eq (metadata_key env a) (piece_cid_to_flagged_key env m c) ≡ false
  metadata-flagged a m c =
      bytes_ne_of_tag _ _ (rw (metadata_key_lem a, flagged_key_lem m c) (omega arith))

  pub flagged-metadata :
      (m : Address) (c a : Cid)
      → bytes_eq (piece_cid_to_flagged_key env m c) (metadata_key env a) ≡ false
  flagged-metadata m c a =
      bytes_ne_of_tag _ _ (rw (metadata_key_lem a, flagged_key_lem m c) (omega arith))

  pub metadata-cursor : (a : Cid) → bytes_eq (metadata_key env a) (dskey_next_cursor env) ≡ false
  metadata-cursor a = bytes_ne_of_tag _ _ (rw (metadata_key_lem a, cursor_key_lem) (omega arith))

  pub cursor-metadata : (a : Cid) → bytes_eq (dskey_next_cursor env) (metadata_key env a) ≡ false
  cursor-metadata a = bytes_ne_of_tag _ _ (rw (metadata_key_lem a, cursor_key_lem) (omega arith))

  pub mh-metadata : (m : Multihash) (a : Cid) → bytes_eq (mh_key env m) (metadata_key env a) ≡ false
  mh-metadata m a = bytes_ne_of_tag _ _ (rw (metadata_key_lem a, mh_key_lem m) (omega arith))

  pub metadata-mh : (a : Cid) (m : Multihash) → bytes_eq (metadata_key env a) (mh_key env m) ≡ false
  metadata-mh a m = bytes_ne_of_tag _ _ (rw (metadata_key_lem a, mh_key_lem m) (omega arith))

  pub mh-cursor : (m : Multihash) → bytes_eq (mh_key env m) (dskey_next_cursor env) ≡ false
  mh-cursor m = bytes_ne_of_tag _ _ (rw (mh_key_lem m, cursor_key_lem) (omega arith))

  pub cursor-mh : (m : Multihash) → bytes_eq (dskey_next_cursor env) (mh_key env m) ≡ false
  cursor-mh m = bytes_ne_of_tag _ _ (rw (mh_key_lem m, cursor_key_lem) (omega arith))

  pub mh_key-eq : (m n : Multihash) → bytes_eq (mh_key env m) (mh_key env n) ≡ bytes_eq m n
  mh_key-eq m n =
      same_test _ _ m n (λ e. named.mh_injective m n (cc (mh_key_lem m, mh_key_lem n, e)))
        (λ e. ap (λ (x : Bytes). mh_key env x) e)

  pub flagged_key-eq :
      (a b : Address) (c d : Cid)
      → bytes_eq (piece_cid_to_flagged_key env a c) (piece_cid_to_flagged_key env b d)
        ≡ (bytes_eq a b && bytes_eq c d)
  flagged_key-eq a b c d =
      pair_test _ _ a b c d
        (λ e.
          let (ea, ec) =
            split-eq (env.addr_string a) (env.addr_string b) (env.cid_string c) (env.cid_string d)
              (plain-All _ (named.addr_plain a)) (plain-All _ (named.addr_plain b))
              (cc (flagged_key_lem a c, flagged_key_lem b d, e)) in
          (named.addr_injective a b ea, named.cid_injective c d ec))
        (λ ea ec. cc)
