-- ===== src/Tests/Memory.antt =====
-- A datastore in memory, with the laws that the theorems rest on.
use txcartool.Common.{
  ◌+◌, ◌-◌, ◌≡◌, ◌≢◌, refl, ap, ◌∙◌, Bool, true, false, ◌&&◌, Option, none, some, List, [], ◌∷◌,
  map, Bytes, ok, arith, take, drop, if◌then◌else◌, bytes_eq, bytes_eq_iff, ◌==◌, All,
}
use txcartool.Ldb.Env.{Env, Row, BatchOp, batch_put, batch_delete}
use txcartool.Ldb.Keys.{slash}
use txcartool.Ldb.Works.{Works, Named, IsPlain, found_in, after_batch}
use txcartool.Tests.Chunks.{
  pack, unpack, unpack-pack, metadata_chunks, metadata_of, metadata_of-chunks, flagged_chunks,
  flagged_of, flagged_of-chunks,
}

abbrev pub Rows : Type 0
Rows = List Row

unfoldable pub lookup : Bytes → Rows → Option Bytes
lookup k [] = none
lookup k ((j, v) ∷ rows) = if bytes_eq k j then some v else lookup k rows

unfoldable pub without : Bytes → Rows → Rows
without k [] = []
without k ((j, v) ∷ rows) =
    let rest = without k rows in if bytes_eq k j then rest else (j, v) ∷ rest

lookup-without :
    (k j : Bytes) (rows : Rows)
    → lookup j (without k rows) ≡ (if bytes_eq k j then none else lookup j rows)
unfolding lookup without
lookup-without k j [] = ground arith
lookup-without k j ((i, v) ∷ rows) =
    ground (arith, lookup-without k j rows, bytes_eq_iff k i, bytes_eq_iff j i, bytes_eq_iff k j)

unfoldable pub insert : Bytes → Bytes → Rows → Rows
unfolding without
insert k v rows = (k, v) ∷ without k rows

lookup-insert :
    (k v j : Bytes) (rows : Rows)
    → lookup j (insert k v rows) ≡ (if bytes_eq k j then some v else lookup j rows)
unfolding lookup insert
lookup-insert k v j rows =
    ground (arith, lookup-without k j rows, bytes_eq_iff k j, bytes_eq_iff j k)

unfoldable pub write : List BatchOp → Rows → Rows
unfolding insert without
write [] rows = rows
write (batch_put k b ∷ ops) rows = write ops (insert k b rows)
write (batch_delete k ∷ ops) rows = write ops (without k rows)

lookup-write :
    (ops : List BatchOp) (rows : Rows) (j : Bytes)
    → lookup j (write ops rows) ≡ after_batch ops j (lookup j rows)
unfolding write after_batch
lookup-write [] rows j = refl
lookup-write (batch_put k b ∷ ops) rows j =
    lookup-write ops (insert k b rows) j ∙ ap (after_batch ops j) (lookup-insert k b j rows)
lookup-write (batch_delete k ∷ ops) rows j =
    lookup-write ops (without k rows) j ∙ ap (after_batch ops j) (lookup-without k j rows)

unfoldable pub has_prefix : Bytes → Bytes → Bool
has_prefix [] k = true
has_prefix (p ∷ ps) [] = false
has_prefix (p ∷ ps) (k ∷ ks) = (p == k) && has_prefix ps ks

unfoldable pub with_prefix : Bytes → Rows → Rows
unfolding has_prefix
with_prefix p [] = []
with_prefix p ((k, v) ∷ rows) =
    let rest = with_prefix p rows in if has_prefix p k then (k, v) ∷ rest else rest

-- a prefix with its slash before it
abbrev slashed : Bytes → Bytes
slashed [] = slash ∷ []
slashed (b ∷ bs) = if b == slash then b ∷ bs else slash ∷ b ∷ bs

-- A text of values is each of them moved past the slash, behind a letter.
unfoldable pub text : Bytes → Bytes
text c = b'b' ∷ map (λ b. b + 48) c

unfoldable pub untext : Bytes → Bytes
untext [] = []
untext (b ∷ bs) = map (λ b. b - 48) bs

text_injective : (c d : Bytes) → text c ≡ text d → c ≡ d
unfolding text
text_injective [] [] e = refl
text_injective [] (y ∷ d) e = cc
text_injective (x ∷ c) [] e = cc
text_injective (x ∷ c) (y ∷ d) e = ground (arith, text_injective c d)

text-IsPlain : (c : Bytes) → IsPlain (text c)
unfolding text
text-IsPlain c = (omega arith, omega arith, rest c)
  where
    rest : (c : Bytes) → All (λ b. b ≢ slash) (map (λ b. b + 48) c)
    rest [] = tt
    rest (x ∷ c) = (omega arith, rest c)

unfoldable pub memory : Env Rows
unfolding lookup insert without write with_prefix text untext pack unpack metadata_chunks
    metadata_of flagged_chunks flagged_of
memory = record {
  get = λ k rows. found_in (lookup k rows);
  put = λ k v rows. (ok tt, insert k v rows);
  delete = λ k rows. (ok tt, without k rows);
  query = λ q rows.
      let found = drop q.offset (with_prefix (slashed q.prefix) rows) in
      ok (if q.limit == 0 then found else take q.limit found);
  batch = λ rows. ok tt;
  stage = λ op. ok tt;
  commit = λ ops rows. (ok tt, write ops rows);
  sync = λ k rows. (ok tt, rows);
  new_key = λ k. slash ∷ k;
  cid_string = text;
  cid_parse = λ t. ok (untext t);
  cid_hash = λ c. c;
  new_raw_cid = λ m. m;
  mh_string = text;
  mh_from_hex = λ t. ok (untext t);
  addr_string = text;
  addr_empty = λ a. bytes_eq a [];
  marshal_metadata = λ w. ok (pack (metadata_chunks w));
  unmarshal_metadata = λ b. metadata_of (unpack b);
  marshal_flagged = λ fm. ok (pack (flagged_chunks fm));
  unmarshal_flagged = λ b. flagged_of (unpack b);
  marshal_cids = λ cs. ok (pack cs);
  unmarshal_cids = λ b. ok (unpack b);
}

pub memory-Works : Works memory
unfolding memory
memory-Works = record {
  contents = lookup;
  get_works = λ k s. refl;
  put_works = λ k v s. refl;
  contents-put = λ k v s j. lookup-insert k v j s;
  delete_works = λ k s. refl;
  contents-delete = λ k s j. lookup-without k j s;
  batch_works = λ s. refl;
  stage_works = λ op. refl;
  commit_works = λ ops s. refl;
  contents-commit = lookup-write;
  sync_works = λ k s. refl;
  contents-sync = λ k s j. refl;
  metadata_bytes = λ w. pack (metadata_chunks w);
  marshal_metadata_works = λ w. refl;
  unmarshal_metadata_works =
      λ w. ap metadata_of (unpack-pack (metadata_chunks w)) ∙ metadata_of-chunks w;
  flagged_bytes = λ fm. pack (flagged_chunks fm);
  marshal_flagged_works = λ fm. refl;
  unmarshal_flagged_works =
      λ fm. ap flagged_of (unpack-pack (flagged_chunks fm)) ∙ flagged_of-chunks fm;
  cids_bytes = pack;
  marshal_cids_works = λ cs. refl;
  unmarshal_cids_works = λ cs. ap ok (unpack-pack cs);
}

pub memory-Named : Named memory
unfolding memory
memory-Named = record {
  new_key_one = λ p h. refl;
  new_key_two = λ p q h k. refl;
  new_key_three = λ p q r h k l. refl;
  cid_plain = text-IsPlain;
  cid_injective = text_injective;
  addr_plain = text-IsPlain;
  addr_injective = text_injective;
  mh_plain = text-IsPlain;
  mh_injective = text_injective;
}

pub contents-empty : (k : Bytes) → memory-Works.contents k [] ≡ none
unfolding memory-Works lookup
contents-empty k = refl
