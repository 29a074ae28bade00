-- ===== src/Db/DirectDeals/WellFormed.antt =====
-- Which of the queries for direct deals are SQL, and that their placeholders have their arguments.
use txcartool.Common.{
  ℕ, zero, suc, ◌+◌, ◌≡◌, refl, Bool, true, false, not, ◌&&◌, ◌||◌, Option, none, some, List, [],
  ◌∷◌, ◌++◌, Bytes, if◌then◌else◌, length, length-append, ltb, arith, Bool-cases, Option-cases, inl,
  inr,
}
use txcartool.Db.DirectDeals.{
  Part, created_at_most, search_in, checkpoint_is, condition, conj, where_, Arg, Clause,
  FilterOptions, list, list_where, list_deals, count_where, with_search_query,
  with_direct_deals_search_filter, is_query, repeated, is_empty, where_parts, append, and_if,
  cursor_clause, add_search, add_filter, dd_search_fields, text, int, trim_left, trim_right,
}

abbrev placeholders_of : Part → ℕ
placeholders_of created_at_most = 1
placeholders_of (search_in n) = n + 1
placeholders_of checkpoint_is = 1
placeholders_of (condition n) = n
placeholders_of conj = 0
placeholders_of where_ = 0

abbrev pub placeholders : List Part → ℕ
placeholders [] = 0
placeholders (p ∷ ps) = placeholders_of p + placeholders ps

abbrev is_condition : Part → Bool
is_condition conj = false
is_condition where_ = false
is_condition _ = true

-- conditions with an AND between each two
abbrev pub is_chain : List Part → Bool
is_chain [] = false
is_chain (p ∷ []) = is_condition p
is_chain (p ∷ conj ∷ ps) = is_condition p && is_chain ps
is_chain (p ∷ q ∷ ps) = false

-- nothing, or WHERE and a chain
abbrev pub is_sql : List Part → Bool
is_sql [] = true
is_sql (where_ ∷ ps) = is_chain ps
is_sql (p ∷ ps) = false

abbrev pub is_given {ℓ} : {A : Type ℓ} → Option A → Bool
is_given none = false
is_given (some a) = true

-- a filter that is given and asks for nothing
abbrev pub is_idle : Option FilterOptions → Bool
is_idle none = false
is_idle (some f) = not (is_given f.checkpoint)

-- the clause of `List`, a condition at its front where there is one
list_where-sql :
    (query : Bytes) (filter : Option FilterOptions) (cursor : Option Bytes)
    → is_sql (where_parts (list_where query filter cursor).parts)
      ≡ not (is_idle filter && (is_given cursor || is_query query))
unfolding list_where with_search_query with_direct_deals_search_filter
list_where-sql [] none none = refl
list_where-sql [] none (some c) = refl
list_where-sql (q ∷ query) none none = refl
list_where-sql (q ∷ query) none (some c) = refl
list_where-sql [] (some f) none = elim (Option-cases f.checkpoint) [
  | inl e ↦ rw e refl
  | inr (t, e) ↦ rw e refl
]
list_where-sql [] (some f) (some c) = elim (Option-cases f.checkpoint) [
  | inl e ↦ rw e refl
  | inr (t, e) ↦ rw e refl
]
list_where-sql (q ∷ query) (some f) none = elim (Option-cases f.checkpoint) [
  | inl e ↦ rw e refl
  | inr (t, e) ↦ rw e refl
]
list_where-sql (q ∷ query) (some f) (some c) = elim (Option-cases f.checkpoint) [
  | inl e ↦ rw e refl
  | inr (t, e) ↦ rw e refl
]

placeholders-append :
    (ps qs : List Part) → placeholders (ps ++ qs) ≡ placeholders ps + placeholders qs
placeholders-append [] qs = omega arith
placeholders-append (p ∷ ps) qs = omega (arith, placeholders-append ps qs)

placeholders-where_parts : (ps : List Part) → placeholders (where_parts ps) ≡ placeholders ps
placeholders-where_parts [] = refl
placeholders-where_parts (p ∷ ps) = omega arith

-- The placeholders of a clause have their arguments.
abbrev pub IsFilled : Clause → Type 0
IsFilled w = length w.args ≡ placeholders w.parts

IsFilled-append :
    (w c : Clause) (between : List Part)
    → IsFilled w
    → IsFilled c
    → placeholders between ≡ 0
    → IsFilled (append w between c)
IsFilled-append w c between h k e = omega (
  arith,
  length-append w.args c.args,
  placeholders-append w.parts (between ++ c.parts),
  placeholders-append between c.parts,
  h,
  k,
  e,
)

length-repeated : (n : ℕ) (a : Arg) → length (repeated n a) ≡ n
unfolding repeated
length-repeated zero a = refl
length-repeated (suc n) a = omega (arith, length-repeated n a)

IsFilled-search : (n : ℕ) (query : Bytes) → IsFilled (with_search_query n query)
unfolding with_search_query
IsFilled-search n query =
    let a = text (trim_right (trim_left query)) in
    omega (arith, length-append (repeated n a) (a ∷ []), length-repeated n a)

IsFilled-filter : (f : FilterOptions) → IsFilled (with_direct_deals_search_filter f)
unfolding with_direct_deals_search_filter
IsFilled-filter f = elim (Option-cases f.checkpoint) [ inl e ↦ rw e refl | inr (t, e) ↦ rw e refl ]

and_if-none : (w : Clause) → placeholders (and_if w) ≡ 0
and_if-none w = elim (Bool-cases (is_empty w.parts)) [ inl e ↦ rw e refl | inr e ↦ rw e refl ]

IsFilled-list_where :
    (query : Bytes) (filter : Option FilterOptions) (cursor : Option Bytes)
    → IsFilled (list_where query filter cursor)
unfolding list_where
IsFilled-list_where query filter cursor =
    filtered filter (add_search query (cursor_clause cursor))
      (searched query (cursor_clause cursor) (started cursor))
  where
    started : (cursor : Option Bytes) → IsFilled (cursor_clause cursor)
    started none = refl
    started (some c) = refl

    searched : (query : Bytes) (w : Clause) → IsFilled w → IsFilled (add_search query w)
    searched [] w h = h
    searched (c ∷ query) w h =
        IsFilled-append w (with_search_query dd_search_fields (c ∷ query)) (and_if w) h
          (IsFilled-search dd_search_fields (c ∷ query)) (and_if-none w)

    filtered :
        (filter : Option FilterOptions) (w : Clause) → IsFilled w → IsFilled (add_filter filter w)
    filtered none w h = h
    filtered (some f) w h =
        IsFilled-append w (with_direct_deals_search_filter f) (and_if w) h (IsFilled-filter f)
          (and_if-none w)

abbrev pub bit : Bool → ℕ
bit true = 1
bit false = 0

length-if : (b : Bool) (a : Arg) → length (if b then a ∷ [] else []) ≡ bit b
length-if true a = refl
length-if false a = refl

-- The WHERE of the query that lists direct deals is well formed exactly unless there is a filter
-- that asks for nothing, and a cursor or a search beside it; and it has as many placeholders, with
-- those of the limit and the offset, as it is given arguments.
pub list_deals-is_sql :
    (query : Bytes) (filter : Option FilterOptions) (cursor : Option Bytes) (offset limit : ℕ)
    → let s = list_deals query filter cursor offset limit in
      (is_sql s.parts ≡ not (is_idle filter && (is_given cursor || is_query query)))
      × (length s.args ≡ placeholders s.parts + bit s.has_limit + bit s.has_offset)
unfolding list_deals list
list_deals-is_sql query filter cursor offset limit =
    let w = list_where query filter cursor in
    let paged = ltb 0 limit in
    let moved = ltb 0 limit && ltb 0 offset in
    (
      list_where-sql query filter cursor,
      omega (
        arith,
        length-append w.args (if paged then int limit ∷ [] else []),
        length-append (w.args ++ (if paged then int limit ∷ [] else []))
            (if moved then int offset ∷ [] else []),
        length-if paged (int limit),
        length-if moved (int offset),
        IsFilled-list_where query filter cursor,
        placeholders-where_parts w.parts,
      ),
    )

-- The WHERE of the query that counts direct deals is well formed, whatever the search and the
-- filter, and it has as many placeholders as arguments.
count_where-is_sql :
    (query : Bytes) (filter : Option FilterOptions)
    → (is_sql (count_where query filter).parts ≡ true) × IsFilled (count_where query filter)
unfolding count_where with_search_query with_direct_deals_search_filter repeated
count_where-is_sql [] none = (refl, refl)
count_where-is_sql (q ∷ query) none = (refl, refl)
count_where-is_sql [] (some f) = elim (Option-cases f.checkpoint) [
  | inl e ↦ rw e (refl, refl)
  | inr (t, e) ↦ rw e (refl, refl)
]
count_where-is_sql (q ∷ query) (some f) = elim (Option-cases f.checkpoint) [
  | inl e ↦ rw e (refl, refl)
  | inr (t, e) ↦ rw e (refl, refl)
]
