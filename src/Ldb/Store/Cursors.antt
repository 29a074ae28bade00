-- ===== src/Ldb/Store/Cursors.antt =====
-- The cursors that `AddIndex` gives to the pieces: which of the pieces share one, and what that
-- means for the lookups.
use txcartool.Common.{
  ℕ, ◌+◌, ◌<◌, ◌≡◌, ◌≢◌, refl, sym, ap, subst, ◌∙◌, Bool, Option, none, some, List, [], ◌∷◌,
  bytes_eq, bytes_eq_iff, if◌then◌else◌, arith, Bool-cases, Option-cases, inl, inr, map, ◌⊎◌,
}
use txcartool.Ldb.Model.{Cid, Multihash, Time, Record, OffsetSize, LeveldbMetadata}
use txcartool.Ldb.Uvarint.{IsU64}
use txcartool.Ldb.Env.{Env}
use txcartool.Ldb.Works.{Works, Named}
use txcartool.Ldb.View.{View, Represents, put_piece, put_block}
use txcartool.Ldb.View.Multihashes.{index_holders}
use txcartool.Ldb.Store.Indexing.{add_index}
use txcartool.Ldb.Store.Indexed.{
  put_blocks, given_metadata, index_piece, next_after, add_index-Represents,
}
use txcartool.Ldb.Store.Reads.{last_block, blocks-put_blocks, pieces-put_blocks}

-- The cursors in use are below the next one, and no two pieces share one.
pub record HasOwnCursors (v : View) : Type 0 where
  pub below : (pc : Cid) (md : LeveldbMetadata) → v.pieces pc ≡ some md → md.cursor < v.next
  pub apart :
      (pc qc : Cid) (md nd : LeveldbMetadata)
      → v.pieces pc ≡ some md
      → v.pieces qc ≡ some nd
      → md.cursor ≡ nd.cursor
      → pc ≡ qc

module _ {S : Type 0} (env : Env S) where
  next-put_blocks : (c : ℕ) (rs : List Record) (v : View) → (put_blocks env c rs v).next ≡ v.next
  unfolding put_blocks put_block
  next-put_blocks c [] v = refl
  next-put_blocks c (r ∷ rs) v =
      next-put_blocks c rs (put_block c (env.cid_hash r.cid) r.offset_size v)

  blocks-put_blocks_ne :
      (c d : ℕ) (rs : List Record) (v : View) (m : Multihash)
      → c ≢ d
      → (put_blocks env c rs v).blocks d m ≡ v.blocks d m
  unfolding put_blocks
  blocks-put_blocks_ne c d [] v m ne = refl
  blocks-put_blocks_ne c d (r ∷ rs) v m ne =
      blocks-put_blocks_ne c d rs (put_block c (env.cid_hash r.cid) r.offset_size v) m ne
      ∙ unfold put_block in ground arith

  module _ (pc : Cid) (records : List Record) (complete : Bool) (now : Time) (v : View) where
    abbrev given : LeveldbMetadata
    given = given_metadata complete (v.pieces pc) v.next

    abbrev given_now : LeveldbMetadata
    given_now = record given { metadata = record given.metadata { indexed_at = now } }

    abbrev after : View
    after = index_piece env pc records complete now v

    next-index_piece : after.next ≡ next_after (v.pieces pc) v.next
    unfolding index_piece put_piece
    next-index_piece = next-put_blocks given.cursor records _

    pub pieces-index_piece :
        (qc : Cid) → after.pieces qc ≡ (if bytes_eq pc qc then some given_now else v.pieces qc)
    unfolding index_piece put_piece index_holders
    pieces-index_piece qc = rw (
        pieces-put_blocks env given.cursor records
          (record (index_holders env (map (λ r. r.cid) records) pc v) {
            next = next_after (v.pieces pc) v.next;
          }))

    pub blocks-index_piece :
        (d : ℕ) (m : Multihash) → given.cursor ≢ d → after.blocks d m ≡ v.blocks d m
    unfolding index_piece put_piece index_holders
    blocks-index_piece d m ne = blocks-put_blocks_ne given.cursor d records _ m ne

    -- A piece of the view after is the piece that was indexed, with its cursor, or one of before.
    piece-cases :
        (qc : Cid) (md : LeveldbMetadata)
        → after.pieces qc ≡ some md
        → ((pc ≡ qc) × (given.cursor ≡ md.cursor)) ⊎ (v.pieces qc ≡ some md)
    piece-cases qc md e = elim (Bool-cases (bytes_eq pc qc)) [
      | inl same ↦ inl (
        (bytes_eq_iff pc qc).0 same,
        ap cursor_in (
            sym (ap (λ b. if b then some given_now else v.pieces qc) same)
            ∙ sym (pieces-index_piece qc)
            ∙ e),
      )
      | inr ne ↦ inr (
          sym (ap (λ b. if b then some given_now else v.pieces qc) ne)
          ∙ sym (pieces-index_piece qc)
          ∙ e)
    ]
      where
        cursor_in : Option LeveldbMetadata → ℕ
        cursor_in none = 0
        cursor_in (some md) = md.cursor

    -- Under the cursor of the piece stand the records, over what was there.
    pub blocks-index_piece_self :
        (d : ℕ) (m : Multihash) (os : OffsetSize)
        → given.cursor ≡ d
        → last_block env records m ≡ some os
        → after.blocks d m ≡ some os
    unfolding index_piece put_piece
    blocks-index_piece_self d m os same e =
        ap (λ c. after.blocks c m) (sym same)
        ∙ blocks-put_blocks env given.cursor records _ m
        ∙ rw e

    module _ (own : HasOwnCursors v) (fits : IsU64 (v.next + 1)) where
      pub given-below : given.cursor < next_after (v.pieces pc) v.next
      unfolding given_metadata next_after
      given-below = elim (Option-cases (v.pieces pc)) [
        | inl e ↦ rw e (omega (arith, fits))
        | inr (md, e) ↦ rw e (own.below pc md e)
      ]

      pub given-fits : IsU64 given.cursor
      unfolding given_metadata
      given-fits = elim (Option-cases (v.pieces pc)) [
        | inl e ↦ rw e (omega (arith, fits))
        | inr (md, e) ↦ rw e (omega (arith, fits, own.below pc md e))
      ]

      next-grows : (n : ℕ) → n < v.next → n < next_after (v.pieces pc) v.next
      unfolding next_after
      next-grows n h = elim (Option-cases (v.pieces pc)) [
        | inl e ↦ rw e (omega (arith, fits, h))
        | inr (md, e) ↦ rw e h
      ]

      pub given-apart :
          (qc : Cid) (nd : LeveldbMetadata)
          → v.pieces qc ≡ some nd
          → given.cursor ≡ nd.cursor
          → pc ≡ qc
      unfolding given_metadata
      given-apart qc nd e' same = elim (Option-cases (v.pieces pc)) [
        | inl e ↦ absurd (fresh e)
        | inr (md, e) ↦
            own.apart pc qc md nd e e'
              (ap (λ o. (given_metadata complete o v.next).cursor) (sym e) ∙ same)
      ]
        where
          fresh : v.pieces pc ≡ none → ⊥
          fresh e = omega (
            arith,
            own.below qc nd e',
            same,
            ap (λ o. (given_metadata complete o v.next).cursor) e,
          )

      pub index_piece-HasOwnCursors : HasOwnCursors after
      index_piece-HasOwnCursors = record {
        below = λ qc md e. rw next-index_piece (elim (piece-cases qc md e) [
          | inl (same, c) ↦ subst (λ n. n < next_after (v.pieces pc) v.next) c given-below
          | inr old ↦ next-grows md.cursor (own.below qc md old)
        ]);
        apart = λ qc rc md nd e e' c. elim (piece-cases qc md e) [
          | inl (a, i) ↦ elim (piece-cases rc nd e') [
            | inl (b, j) ↦ sym a ∙ b
            | inr old ↦ sym a ∙ given-apart rc nd old (i ∙ c)
          ]
          | inr old ↦ elim (piece-cases rc nd e') [
            | inl (b, j) ↦ sym (given-apart qc md old (j ∙ sym c)) ∙ b
            | inr old' ↦ own.apart qc rc md nd old old' c
          ]
        ];
      }

module _ {S : Type 0} (env : Env S) (works : Works env) (named : Named env) where
  -- On a datastore that works: indexing a piece keeps the cursors apart: where the database holds
  -- a view in which each cursor is below the next one and used by one piece, and the next cursor
  -- is not the last of the 64 bits, the database after it holds such a view.
  pub add_index-HasOwnCursors :
      (pc : Cid) (records : List Record) (complete : Bool) (now : Time) (s : S) (v : View)
      → Represents env works s v
      → HasOwnCursors v
      → IsU64 (v.next + 1)
      → (w : View) × Represents env works (add_index env pc records complete now s).1 w
        × HasOwnCursors w
  add_index-HasOwnCursors pc records complete now s v rep own fits = (
    index_piece env pc records complete now v,
    (add_index-Represents env works named pc records complete now s v rep
        (given-fits env pc records complete now v own fits)).1,
    index_piece-HasOwnCursors env pc records complete now v own fits,
  )
