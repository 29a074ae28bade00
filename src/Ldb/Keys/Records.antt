-- ===== src/Ldb/Keys/Records.antt =====
-- The keys of the index records: a cursor in decimal, a slash and a multihash.
use txcartool.Common.{
  ℕ, zero, suc, ◌+◌, ◌-◌, ◌*◌, ◌%◌, ◌/◌, ◌^◌, ◌≤◌, ◌<◌, ◌≡◌, ◌≢◌, inl, inr, refl, sym, ap, ◌∙◌,
  false, [], ◌∷◌, ◌++◌, arith, Bytes, bytes_eq, bytes_eq_iff, All, Bool-cases, ltb,
}
use mathlib.Core.List.{append_assoc}
use native.Mathlib.Nat.{pow-suc}
use txcartool.Ldb.Model.{Cid, Multihash}
use txcartool.Ldb.Uvarint.{IsU64}
use txcartool.Ldb.Env.{Env}
use txcartool.Ldb.Works.{IsPlain, Named}
use txcartool.Ldb.Keys.{
  slash, dskey_next_cursor, metadata_key, mh_key, record_key, decimal, decimal_loop,
  key_cursor_prefix,
}
use txcartool.Ldb.Keys.Distinct.{
  tag, bytes_ne_of_tag, same_test, split-eq, metadata_key_lem, mh_key_lem, cursor_key_lem,
}

abbrev IsDigit : ℕ → Type 0
IsDigit c = (48 ≤ c) × (c < 58)

digits_append : (p q : Bytes) → All IsDigit p → All IsDigit q → All IsDigit (p ++ q)
digits_append [] q hp hq = hq
digits_append (x ∷ p) q hp hq = (hp.0, digits_append p q hp.1 hq)

decimal-digits : (f n : ℕ) → All IsDigit (decimal_loop f n)
unfolding decimal_loop
decimal-digits zero n = tt
decimal-digits (suc f) n = elim (Bool-cases (ltb n 10)) [
  | inl e ↦ rw e (ground arith)
  | inr e ↦ rw e (digits_append _ _ (decimal-digits f (n / 10)) (omega arith))
]

-- what the digits stand for
value_of : ℕ → Bytes → ℕ
value_of acc [] = acc
value_of acc (c ∷ cs) = value_of (acc * 10 + (c - 48)) cs

value_of-append :
    (acc : ℕ) (p : Bytes) (c : ℕ) → value_of acc (p ++ c ∷ []) ≡ value_of acc p * 10 + (c - 48)
unfolding value_of
value_of-append acc [] c = refl
value_of-append acc (x ∷ p) c = value_of-append (acc * 10 + (x - 48)) p c

value_of-decimal : (f n : ℕ) → n < 10 ^ f → value_of 0 (decimal_loop f n) ≡ n
unfolding decimal_loop value_of
value_of-decimal zero n h = omega arith
value_of-decimal (suc f) n h = elim (Bool-cases (ltb n 10)) [
  | inl e ↦ rw e (ground arith)
  | inr e ↦
      let h' : n < 10 ^ f * 10 = rw pow-suc at h in
      rw e (
        rw (value_of-append 0 (decimal_loop f (n / 10)) (48 + n % 10))
          (omega (arith, value_of-decimal f (n / 10) (omega arith))))
]

decimal-injective : (n m : ℕ) → IsU64 n → IsU64 m → decimal n ≡ decimal m → n ≡ m
unfolding decimal
decimal-injective n m hn hm e =
    sym (value_of-decimal 20 n (omega arith))
    ∙ ap (value_of 0) e
    ∙ value_of-decimal 20 m (omega arith)

digits-IsPlain : (p : Bytes) → All IsDigit p → p ≢ [] → IsPlain p
digits-IsPlain [] h ne = absurd (ne refl)
digits-IsPlain (c ∷ p) h ne = (omega arith, omega arith, rest p h.1)
  where
    rest : (q : Bytes) → All IsDigit q → All (λ c. c ≢ slash) q
    rest [] h' = tt
    rest (d ∷ q) h' = (omega arith, rest q h'.1)

append-ne-nil : (p : Bytes) (c : ℕ) (q : Bytes) → p ++ c ∷ q ≢ []
append-ne-nil [] c q e = cc
append-ne-nil (x ∷ p) c q e = cc

decimal-ne-nil : (n : ℕ) → decimal n ≢ []
unfolding decimal
decimal-ne-nil n e = elim (Bool-cases (ltb n 10)) [
  | inl small ↦ absurd (not_one (rw small at e))
  | inr big ↦ append-ne-nil (decimal_loop 19 (n / 10)) (48 + n % 10) [] (rw big at e)
]
  where
    not_one : (48 + n) ∷ [] ≢ []
    not_one h = cc

decimal-IsPlain : (n : ℕ) → IsPlain (decimal n)
unfolding decimal
decimal-IsPlain n = digits-IsPlain _ (decimal-digits 20 n) (decimal-ne-nil n)

no_slash : (p : Bytes) → All IsDigit p → All (λ c. c ≢ slash) p
no_slash [] h = tt
no_slash (d ∷ p) h = (omega arith, no_slash p h.1)

decimal-no_slash : (n : ℕ) → All (λ c. c ≢ slash) (decimal n)
unfolding decimal
decimal-no_slash n = no_slash _ (decimal-digits 20 n)

tag-digits : (p q : Bytes) → All IsDigit p → p ≢ [] → 48 ≤ tag (slash ∷ p ++ q)
tag-digits [] q h ne = absurd (ne refl)
tag-digits (c ∷ p) q h ne = h.0.0

module _ {S : Type 0} (env : Env S) (named : Named env) where
  record_key_lem :
      (c : ℕ) (m : Multihash)
      → record_key env (key_cursor_prefix c) m ≡ slash ∷ decimal c ++ slash ∷ env.mh_string m
  unfolding record_key key_cursor_prefix
  record_key_lem c m =
      ap env.new_key (append_assoc (decimal c) (slash ∷ []) (env.mh_string m))
      ∙ named.new_key_two (decimal c) (env.mh_string m) (decimal-IsPlain c) (named.mh_plain m)

  tag-record : (c : ℕ) (m : Multihash) → 48 ≤ tag (record_key env (key_cursor_prefix c) m)
  unfolding decimal
  tag-record c m =
      rw (record_key_lem c m)
        (tag-digits (decimal c) (slash ∷ env.mh_string m) (decimal-digits 20 c) (decimal-ne-nil c))

  tag-metadata : (a : Cid) → tag (metadata_key env a) ≡ 1
  tag-metadata a = rw (metadata_key_lem env named a)

  tag-mh : (m : Multihash) → tag (mh_key env m) ≡ 2
  tag-mh m = rw (mh_key_lem env named m)

  tag-cursor : tag (dskey_next_cursor env) ≡ 0
  tag-cursor = rw (cursor_key_lem env named)

  module _ (c : ℕ) (m : Multihash) where
    pub record-metadata :
        (a : Cid) → bytes_eq (record_key env (key_cursor_prefix c) m) (metadata_key env a) ≡ false
    record-metadata a = bytes_ne_of_tag _ _ (omega (arith, tag-record c m, tag-metadata a))

    pub metadata-record :
        (a : Cid) → bytes_eq (metadata_key env a) (record_key env (key_cursor_prefix c) m) ≡ false
    metadata-record a = bytes_ne_of_tag _ _ (omega (arith, tag-record c m, tag-metadata a))

    pub record-mh :
        (n : Multihash) → bytes_eq (record_key env (key_cursor_prefix c) m) (mh_key env n) ≡ false
    record-mh n = bytes_ne_of_tag _ _ (omega (arith, tag-record c m, tag-mh n))

    pub mh-record :
        (n : Multihash) → bytes_eq (mh_key env n) (record_key env (key_cursor_prefix c) m) ≡ false
    mh-record n = bytes_ne_of_tag _ _ (omega (arith, tag-record c m, tag-mh n))

    pub record-cursor :
        bytes_eq (record_key env (key_cursor_prefix c) m) (dskey_next_cursor env) ≡ false
    record-cursor = bytes_ne_of_tag _ _ (omega (arith, tag-record c m, tag-cursor))

    pub cursor-record :
        bytes_eq (dskey_next_cursor env) (record_key env (key_cursor_prefix c) m) ≡ false
    cursor-record = bytes_ne_of_tag _ _ (omega (arith, tag-record c m, tag-cursor))

  parts :
      (c d : ℕ) (m n : Multihash)
      → record_key env (key_cursor_prefix c) m ≡ record_key env (key_cursor_prefix d) n
      → (decimal c ≡ decimal d) × (env.mh_string m ≡ env.mh_string n)
  parts c d m n e =
      split-eq (decimal c) (decimal d) (env.mh_string m) (env.mh_string n) (decimal-no_slash c)
        (decimal-no_slash d) (cc (record_key_lem c m, record_key_lem d n, e))

  -- Under one cursor the keys tell the multihashes apart.
  pub record_key-eq :
      (c : ℕ) (m n : Multihash)
      → bytes_eq (record_key env (key_cursor_prefix c) m) (record_key env (key_cursor_prefix c) n)
        ≡ bytes_eq m n
  record_key-eq c m n =
      same_test _ _ m n (λ e. named.mh_injective m n (parts c c m n e).1)
        (λ e. ap (record_key env (key_cursor_prefix c)) e)

  -- Two cursors have no key in common.
  pub record_key-ne :
      (c d : ℕ) (m n : Multihash)
      → IsU64 c
      → IsU64 d
      → c ≢ d
      → bytes_eq (record_key env (key_cursor_prefix c) m) (record_key env (key_cursor_prefix d) n)
        ≡ false
  record_key-ne c d m n hc hd ne =
      elim (Bool-cases (
        bytes_eq (record_key env (key_cursor_prefix c) m)
          (record_key env (key_cursor_prefix d) n))) [
            | inr e ↦ e
            | inl e ↦
                absurd (ne (decimal-injective c d hc hd (parts c d m n ((bytes_eq_iff _ _).0 e)).0))
          ]
