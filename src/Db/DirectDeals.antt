-- ===== src/Db/DirectDeals.antt =====
-- The queries of lib/boost/db/directdeals.go that list and count deals, with `withSearchQuery` of
-- lib/boost/db/deals.go. The text of a `WHERE` is the list of the parts that the code appends, and
-- an argument is the value that is passed for a placeholder.
pub mod WellFormed
use txcartool.Common.{
  ℕ, zero, suc, ◌+◌, Bool, true, false, not, ◌&&◌, ◌||◌, Option, none, some, List, [], ◌∷◌, ◌++◌,
  Bytes, codes, if◌then◌else◌, ◌==◌, ltb, length, map,
}

-- `CreatedAt <= (SELECT CreatedAt FROM Deals WHERE ID = ?)`, the search in so many fields and in
-- `Error`, `(Checkpoint = ?)`, any other condition with its placeholders, ` AND ` and ` WHERE `.
pub data Part : Type 0 where
  created_at_most : Part
  search_in : ℕ → Part
  checkpoint_is : Part
  condition : ℕ → Part
  conj : Part
  where_ : Part

pub data Arg : Type 0 where
  id : Bytes → Arg
  text : Bytes → Arg
  int : ℕ → Arg

pub record Clause : Type 0 where
  pub parts : List Part
  pub args : List Arg

pub record FilterOptions : Type 0 where
  pub checkpoint : Option Bytes
  pub is_offline : Option Bool
  pub transfer_type : Option Bytes
  pub is_verified : Option Bool

abbrev pub is_blank : ℕ → Bool
is_blank c = c == b' ' || c == b'\t' || c == b'\n'

-- `strings.Trim(query, " \t\n")`
unfoldable pub trim_left : Bytes → Bytes
trim_left [] = []
trim_left (c ∷ cs) = let rest = trim_left cs in if is_blank c then rest else c ∷ cs

abbrev pub unless_blank : ℕ → Bytes → Bytes
unless_blank c [] = if is_blank c then [] else c ∷ []
unless_blank c (d ∷ ds) = c ∷ d ∷ ds

unfoldable pub trim_right : Bytes → Bytes
trim_right [] = []
trim_right (c ∷ cs) = unless_blank c (trim_right cs)

unfoldable pub repeated : ℕ → Arg → List Arg
repeated zero a = []
repeated (suc n) a = a ∷ repeated n a

-- The label is not searched for direct deals.
unfoldable pub with_search_query : ℕ → Bytes → Clause
with_search_query fields query =
    let arg = text (trim_right (trim_left query)) in
    record { parts = search_in fields ∷ []; args = repeated fields arg ++ arg ∷ [] }

-- `ddSearchFields`
abbrev pub dd_search_fields : ℕ
dd_search_fields = 4

abbrev pub checkpoint_clause : Option Bytes → Clause
checkpoint_clause none = record { parts = []; args = [] }
checkpoint_clause (some c) = record { parts = checkpoint_is ∷ []; args = text c ∷ [] }

unfoldable pub with_direct_deals_search_filter : FilterOptions → Clause
with_direct_deals_search_filter f = checkpoint_clause f.checkpoint

abbrev pub append : Clause → List Part → Clause → Clause
append w between c = record { parts = w.parts ++ (between ++ c.parts); args = w.args ++ c.args }

abbrev pub is_empty : List Part → Bool
is_empty [] = true
is_empty (p ∷ ps) = false

-- ` AND ` where the clause has a condition already
abbrev pub and_if : Clause → List Part
and_if w = if is_empty w.parts then [] else conj ∷ []

abbrev pub cursor_clause : Option Bytes → Clause
cursor_clause none = record { parts = []; args = [] }
cursor_clause (some c) = record { parts = created_at_most ∷ []; args = id c ∷ [] }

abbrev pub add_search : Bytes → Clause → Clause
add_search [] w = w
add_search (c ∷ query) w = append w (and_if w) (with_search_query dd_search_fields (c ∷ query))

-- `List` appends the ` AND ` before it looks whether the filter has a condition.
abbrev pub add_filter : Option FilterOptions → Clause → Clause
add_filter none w = w
add_filter (some f) w = append w (and_if w) (with_direct_deals_search_filter f)

unfoldable pub list_where : Bytes → Option FilterOptions → Option Bytes → Clause
list_where query filter cursor = add_filter filter (add_search query (cursor_clause cursor))

abbrev pub count_search : Bytes → Clause
count_search [] = record { parts = []; args = [] }
count_search (c ∷ query) =
    append (record { parts = where_ ∷ []; args = [] }) []
      (with_search_query dd_search_fields (c ∷ query))

-- `Count` looks first.
abbrev pub count_filter : Option FilterOptions → Bool → Clause → Clause
count_filter none searched w = w
count_filter (some f) searched w =
    let c = with_direct_deals_search_filter f in
    if is_empty c.parts then w else append w (if searched then conj ∷ [] else where_ ∷ []) c

abbrev pub is_query : Bytes → Bool
is_query [] = false
is_query (c ∷ query) = true

unfoldable pub count_where : Bytes → Option FilterOptions → Clause
count_where query filter = count_filter filter (is_query query) (count_search query)

-- the statement of the private `list`
pub record Statement : Type 0 where
  pub parts : List Part
  pub has_limit : Bool
  pub has_offset : Bool
  pub args : List Arg

abbrev pub where_parts : List Part → List Part
where_parts [] = []
where_parts (p ∷ ps) = where_ ∷ p ∷ ps

unfoldable pub list : (offset limit : ℕ) → Clause → Statement
list offset limit w =
    let paged = ltb 0 limit in
    let moved = ltb 0 limit && ltb 0 offset in
    record {
      parts = where_parts w.parts;
      has_limit = paged;
      has_offset = moved;
      args =
          w.args
          ++ (if paged then int limit ∷ [] else [])
          ++ (if moved then int offset ∷ [] else []);
    }

abbrev pub complete_text : Arg
complete_text = text (codes "Complete")

unfoldable pub by_piece_cid : Bytes → Statement
by_piece_cid piece_cid = list 0 0 (record { parts = condition 1 ∷ []; args = text piece_cid ∷ [] })

unfoldable pub by_sector_id : ℕ → Statement
by_sector_id sector_id = list 0 0 (record { parts = condition 1 ∷ []; args = int sector_id ∷ [] })

-- `PieceCID=? AND AllocationID=? AND Checkpoint != ?`
unfoldable pub active_by_piece_alloc_id : Bytes → ℕ → Statement
active_by_piece_alloc_id piece alloc = list 0 0 (record {
  parts = condition 1 ∷ conj ∷ condition 1 ∷ conj ∷ condition 1 ∷ [];
  args = text piece ∷ int alloc ∷ complete_text ∷ [];
})

unfoldable pub list_all : Statement
list_all = list 0 0 (record { parts = []; args = [] })

unfoldable pub list_deals :
    Bytes → Option FilterOptions → Option Bytes → (offset limit : ℕ) → Statement
list_deals query filter cursor offset limit = list offset limit (list_where query filter cursor)

unfoldable pub list_active : Statement
list_active = list 0 0 (record { parts = condition 1 ∷ []; args = complete_text ∷ [] })

unfoldable pub list_completed : Statement
list_completed = list 0 0 (record { parts = condition 1 ∷ []; args = complete_text ∷ [] })
