-- ===== src/Tests/PostgresRows.antt =====
-- The tracker's table in memory, with the laws that the theorems rest on.
use txcartool.Common.{
  ℕ, ◌≡◌, refl, ap, ◌∙◌, sym, Bool, ◌&&◌, Option, none, some, List, [], ◌∷◌, Bytes, ok, bytes_eq,
  bytes_eq_iff, any, any-ext, map, take, length, ltb, arith, if◌then◌else◌, Option-cases,
  Bool-cases, inl, inr,
}
use txcartool.Ldb.Model.{Time}
use txcartool.Yugabyte.Postgres.{Postgres}
use txcartool.Yugabyte.Tracker.Works.{TrackerRow, TrackerWorks, is_due, touched, kept_or}
use txcartool.Tests.Tables.{
  collect, any-collect, any-take, take-all, first, erase, nub, any-nub, either_of,
}
use txcartool.Tests.CassandraRows.{Rows, TrackerEntry, pair_eq, pair_eq_iff}

abbrev tracker_key : TrackerEntry → Bytes × Bytes
tracker_key e = (e.miner, e.piece)

abbrev tracker_row_in : Option TrackerEntry → Option TrackerRow
tracker_row_in none = none
tracker_row_in (some e) = some e.row

abbrev find_tracker : Bytes × Bytes → List TrackerEntry → Option TrackerEntry
find_tracker = first pair_eq pair_eq_iff tracker_key

unfoldable pub tracker : Rows → Bytes → Bytes → Option TrackerRow
unfolding first
tracker s m p = tracker_row_in (find_tracker (m, p) s.tracker)

abbrev entry_unless : Option TrackerEntry → TrackerEntry → List TrackerEntry → List TrackerEntry
entry_unless none e es = e ∷ es
entry_unless (some d) e es = es

abbrev is_due_of : Bytes → Time → TrackerEntry → Bool
is_due_of m before e = bytes_eq e.miner m && ltb e.row.updated_at before

unfoldable pub due : Bytes → Time → List TrackerEntry → List Bytes
unfolding collect nub erase
due m before es =
    collect (is_due_of m before) (λ e. e.piece) (nub pair_eq pair_eq_iff tracker_key es)

unfoldable pub claimed : Bytes → Time → ℕ → Rows → List Bytes
unfolding due
claimed m before limit s = take limit (due m before s.tracker)

abbrev touch : Bytes → List Bytes → Time → TrackerEntry → TrackerEntry
touch m ps now e =
    if bytes_eq m e.miner && any (bytes_eq e.piece) ps
    then record e { row = record e.row { updated_at = now } }
    else e

abbrev insert_row : Bytes → Bytes → Time → Time → List TrackerEntry → List TrackerEntry
insert_row m p created updated es =
    entry_unless (find_tracker (m, p) es)
      (record { miner = m; piece = p; row = record { created_at = created; updated_at = updated } })
      es

unfoldable pub postgres : Postgres Rows
unfolding claimed first erase
postgres = record {
  max_created = λ s. ok none;
  insert_tracker = λ m p created updated s.
      (ok tt, record s { tracker = insert_row m p created updated s.tracker });
  count_tracker = λ s. ok (length s.tracker);
  claim_tracker = λ m before limit now s. (
    ok (claimed m before limit s, none),
    record s { tracker = map (touch m (claimed m before limit s) now) s.tracker },
  );
  count_tracked = λ m s. ok 0;
  count_scanned = λ m s. ok 0;
  max_updated = λ m s. ok none;
  delete_tracker = λ m p s.
      (ok tt, record s { tracker = erase pair_eq pair_eq_iff tracker_key (m, p) s.tracker });
  insert_flagged = λ m p created updated unsealed s. (ok tt, s);
  delete_flagged = λ m p s. (ok tt, s);
  select_flagged = λ q s. ok ([], none);
  count_flagged = λ q s. ok 0;
}

row-insert :
    (m p : Bytes) (created updated : Time) (es : List TrackerEntry) (n q : Bytes)
    → tracker_row_in (find_tracker (n, q) (insert_row m p created updated es)) ≡ (
        if bytes_eq m n && bytes_eq p q
        then kept_or
            (tracker_row_in (find_tracker (n, q) es))
            (record { created_at = created; updated_at = updated })
        else tracker_row_in (find_tracker (n, q) es))
unfolding first
row-insert m p created updated es n q = elim (Bool-cases (pair_eq (m, p) (n, q))) [
  | inl e ↦
      let same = ap (λ i. find_tracker i es) (sym ((pair_eq_iff (m, p) (n, q)).0 e)) in
      elim (Option-cases (find_tracker (m, p) es)) [
        | inl f ↦ rw f (rw e (rw (same ∙ f) refl))
        | inr (d, f) ↦ rw f (rw e (rw (same ∙ f) refl))
      ]
  | inr e ↦ elim (Option-cases (find_tracker (m, p) es)) [
    | inl f ↦ rw f (rw e refl)
    | inr (d, f) ↦ rw f (rw e refl)
  ]
]

row-touch :
    (m : Bytes) (ps : List Bytes) (now : Time) (es : List TrackerEntry) (n q : Bytes)
    → tracker_row_in (find_tracker (n, q) (map (touch m ps now) es)) ≡ (
        if bytes_eq m n && any (bytes_eq q) ps
        then touched now (tracker_row_in (find_tracker (n, q) es))
        else tracker_row_in (find_tracker (n, q) es))
unfolding first
row-touch m ps now [] n q = ground arith
row-touch m ps now (e ∷ es) n q =
    ground (arith, row-touch m ps now es n q, bytes_eq_iff e.miner n, bytes_eq_iff e.piece q)

any-due :
    (m : Bytes) (before : Time) (es : List TrackerEntry) (p : Bytes)
    → any (bytes_eq p) (due m before es) ≡ is_due before (tracker_row_in (find_tracker (m, p) es))
unfolding due
any-due m before es p =
    let rows = nub pair_eq pair_eq_iff tracker_key es in
    any-collect (is_due_of m before) (λ e. e.piece) (bytes_eq p) rows
    ∙ any-ext (λ e. is_due_of m before e && bytes_eq p e.piece)
        (λ e. pair_eq (tracker_key e) (m, p) && ltb e.row.updated_at before) rows
        (λ e. ground (arith, bytes_eq_iff p e.piece, bytes_eq_iff e.piece p))
    ∙ any-nub pair_eq pair_eq_iff tracker_key (m, p) (λ e. ltb e.row.updated_at before) es
    ∙ go (find_tracker (m, p) es)
  where
    go :
        (o : Option TrackerEntry)
        → either_of o (λ e. ltb e.row.updated_at before) ≡ is_due before (tracker_row_in o)
    go none = refl
    go (some e) = refl

pub postgres-TrackerWorks : TrackerWorks postgres
unfolding postgres tracker claimed
postgres-TrackerWorks = record {
  tracker = tracker;
  tracker-insert = λ m p created updated s n q. row-insert m p created updated s.tracker n q;
  claimed = claimed;
  claim_works = λ m before limit now s. refl;
  claimed-due = λ m before limit s p h.
      sym (any-due m before s.tracker p) ∙ any-take (bytes_eq p) limit (due m before s.tracker) h;
  claimed-all = λ m before limit s p h.
      ap (any (bytes_eq p)) (take-all limit (due m before s.tracker) h)
      ∙ any-due m before s.tracker p;
  tracker-claim =
      λ m before limit now s n q. row-touch m (claimed m before limit s) now s.tracker n q;
}
