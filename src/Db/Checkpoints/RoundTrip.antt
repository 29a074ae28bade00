-- ===== src/Db/Checkpoints/RoundTrip.antt =====
-- That the texts of the checkpoints are read back, whatever the order of the map.
use txcartool.Common.{
  ◌≡◌, ◌<◌, refl, sym, ap, ◌∙◌, Bool, true, false, ◌&&◌, ◌==◌, ◌⊎◌, inl, inr, ◌↔◌, Option, none,
  some, List, [], ◌∷◌, Bytes, ok, bytes_eq, bytes_eq_iff, bytes_eq_refl, any, arith, if◌then◌else◌,
  Bool-cases, Option-cases,
}
use txcartool.Db.Checkpoints.{Checkpoint, Entry, names, name_in, string, init, from_string}

abbrev pub is_entry : Checkpoint → Bytes → Entry → Bool
is_entry c t (cp, str) = cp == c && bytes_eq str t

-- An order of the entries of `names`: what is in one is in the other.
abbrev pub IsOrder : List Entry → Type 0
IsOrder order = (p : Entry → Bool) → any p order ≡ any p names

init-found :
    (es : List Entry) (m : Bytes → Option Checkpoint) (t : Bytes) (c : Checkpoint)
    → init es m t ≡ some c
    → (any (is_entry c t) es ≡ true) ⊎ (m t ≡ some c)
unfolding init
init-found [] m t c e = inr e
init-found ((cp, str) ∷ es) m t c e =
    elim (init-found es (λ s. if bytes_eq str s then some cp else m s) t c e) [
      | inl h ↦ inl (ground (arith, h))
      | inr h ↦ elim (Bool-cases (bytes_eq str t)) [
        | inl same ↦ inl (ground (arith, h, same))
        | inr apart ↦ inr (ground (arith, h, apart))
      ]
    ]

init-none :
    (es : List Entry) (m : Bytes → Option Checkpoint) (t : Bytes)
    → init es m t ≡ none
    → (any (λ e. bytes_eq e.1 t) es ≡ false) × (m t ≡ none)
unfolding init
init-none [] m t e = (refl, e)
init-none ((cp, str) ∷ es) m t e =
    let h = init-none es (λ s. if bytes_eq str s then some cp else m s) t e in
    (ground (arith, h.0, h.1), ground (arith, h.1))

-- No two entries have the same number, and no two the same text.
abbrev AreDistinct : List Entry → Type 0
AreDistinct [] = Unit
AreDistinct ((cp, str) ∷ es) =
    (any (λ e. e.0 == cp) es ≡ false) × (any (λ e. bytes_eq e.1 str) es ≡ false) × AreDistinct es

entry-number :
    (es : List Entry) (c : Checkpoint) (t : Bytes)
    → any (is_entry c t) es ≡ true
    → any (λ e. e.0 == c) es ≡ true
entry-number [] c t h = ground arith
entry-number (e ∷ es) c t h = ground (arith, h, entry-number es c t)

entry-text :
    (es : List Entry) (c : Checkpoint) (t : Bytes)
    → any (is_entry c t) es ≡ true
    → any (λ e. bytes_eq e.1 t) es ≡ true
entry-text [] c t h = ground arith
entry-text (e ∷ es) c t h = ground (arith, h, entry-text es c t)

name_in-entry :
    (es : List Entry) (c : Checkpoint) (t : Bytes)
    → AreDistinct es
    → any (is_entry c t) es ≡ true
    → name_in c es ≡ t
unfolding name_in
name_in-entry [] c t d h = ground arith
name_in-entry (e ∷ es) c t d h = elim (Bool-cases (e.0 == c)) [
  | inl same ↦ elim (Bool-cases (bytes_eq e.1 t)) [
    | inl text ↦ ground (arith, same, text, bytes_eq_iff e.1 t)
    | inr other ↦ absurd (ground (arith, h, same, other, entry-number es c t, d.0))
  ]
  | inr apart ↦ rw apart (name_in-entry es c t d.2 (ground (arith, h, apart)))
]

entry-name_in :
    (es : List Entry) (c : Checkpoint)
    → any (λ e. e.0 == c) es ≡ true
    → any (is_entry c (name_in c es)) es ≡ true
unfolding name_in
entry-name_in [] c h = h
entry-name_in (e ∷ es) c h = elim (Bool-cases (e.0 == c)) [
  | inl same ↦ rw same (ground (arith, bytes_eq_refl e.1))
  | inr apart ↦
      let n : name_in c (e ∷ es) ≡ name_in c es = rw apart refl in
      ap (λ t. any (is_entry c t) (e ∷ es)) n
      ∙ rw apart (entry-name_in es c (ground (arith, h, apart)))
]

one_number :
    (es : List Entry) (c d : Checkpoint) (t : Bytes)
    → AreDistinct es
    → any (is_entry c t) es ≡ true
    → any (is_entry d t) es ≡ true
    → c ≡ d
one_number [] c d t k h h' = ground arith
one_number (e ∷ es) c d t k h h' = elim (Bool-cases (bytes_eq e.1 t)) [
  | inl same ↦
      ground (arith, h, h', same, entry-text es c t, entry-text es d t, k.1, bytes_eq_iff e.1 t)
  | inr apart ↦ one_number es c d t k.2 (ground (arith, h, apart)) (ground (arith, h', apart))
]

names-AreDistinct : AreDistinct names
unfolding bytes_eq
names-AreDistinct = (
  refl,
  refl,
  (refl, refl, (refl, refl, (refl, refl, (refl, refl, (refl, refl, (refl, refl, tt)))))),
)

number-below : (c : Checkpoint) → (any (λ (e : Entry). e.0 == c) names ≡ true) ↔ (c < 7)
number-below c = ground arith

-- Whatever the order in which Go gives the entries of the map, `FromString` gives a checkpoint
-- exactly for the text of one of the seven.
from_string-string :
    (order : List Entry) (t : Bytes) (c : Checkpoint)
    → IsOrder order
    → (from_string order t ≡ ok c) ↔ ((c < 7) × (string c ≡ t))
unfolding from_string string
from_string-string order t c same = (forth, back)
  where
    entry : (d : Checkpoint) → init order (λ s. none) t ≡ some d → any (is_entry d t) names ≡ true
    entry d e = elim (init-found order (λ s. none) t d e) [
      | inl h ↦ sym (same (is_entry d t)) ∙ h
      | inr h ↦ absurd (ground arith)
    ]

    forth : from_string order t ≡ ok c → (c < 7) × (string c ≡ t)
    forth e = elim (Option-cases (init order (λ s. none) t)) [
      | inl missing ↦ absurd (ground (arith, e, missing))
      | inr (d, found) ↦
          let h = entry d found in
          let is_c : d ≡ c = ground (arith, e, found) in
          let k = ap (λ x. any (is_entry x t) names) (sym is_c) ∙ h in
          (
            (number-below c).0 (entry-number names c t k),
            name_in-entry names c t names-AreDistinct k,
          )
    ]

    back : (c < 7) × (string c ≡ t) → from_string order t ≡ ok c
    back h =
        let k = entry-name_in names c ((number-below c).1 h.0) in
        let k' = ap (λ u. any (is_entry c u) names) (sym h.1) ∙ k in
        elim (Option-cases (init order (λ s. none) t)) [
          | inl missing ↦
              let gone = (init-none order (λ s. none) t missing).0 in
              let listed = entry-text order c t (same (is_entry c t) ∙ k') in
              absurd (ground (arith, gone, listed))
          | inr (d, found) ↦
              rw found (ap ok (one_number names d c t names-AreDistinct (entry d found) k'))
        ]
