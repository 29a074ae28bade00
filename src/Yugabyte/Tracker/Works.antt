-- ===== src/Yugabyte/Tracker/Works.antt =====
-- What the tracker relies on in Postgres, by the key of a row: the texts of its miner and its piece.
use txcartool.Common.{
  ℕ, ◌<◌, ◌≡◌, Bool, true, false, ◌&&◌, Option, none, some, List, Bytes, ok, bytes_eq, any, ltb,
  length, if◌then◌else◌,
}
use txcartool.Ldb.Model.{Cid, Time}
use txcartool.Yugabyte.Db.{Texts}
use txcartool.Yugabyte.Postgres.{Postgres}

pub record TrackerRow : Type 0 where
  pub created_at : Time
  pub updated_at : Time

abbrev pub is_due : Time → Option TrackerRow → Bool
is_due before none = false
is_due before (some row) = ltb row.updated_at before

abbrev pub touched : Time → Option TrackerRow → Option TrackerRow
touched now none = none
touched now (some row) = some (record row { updated_at = now })

abbrev pub kept_or : Option TrackerRow → TrackerRow → Option TrackerRow
kept_or none row = some row
kept_or (some old) row = some old

pub record TrackerWorks {S : Type 0} (pg : Postgres S) : Type 0 where
  pub tracker : S → Bytes → Bytes → Option TrackerRow
  -- a row that is there stays
  pub tracker-insert :
      (m p : Bytes) (created updated : Time) (s : S) (n q : Bytes)
      → tracker (pg.insert_tracker m p created updated s).1 n q ≡ (
          if bytes_eq m n && bytes_eq p q
          then kept_or (tracker s n q) (record { created_at = created; updated_at = updated })
          else tracker s n q)
  -- the texts of the pieces whose rows the statement takes
  pub claimed : Bytes → Time → ℕ → S → List Bytes
  pub claim_works :
      (m : Bytes) (before : Time) (limit : ℕ) (now : Time) (s : S)
      → (pg.claim_tracker m before limit now s).0 ≡ ok (claimed m before limit s, none)
  pub claimed-due :
      (m : Bytes) (before : Time) (limit : ℕ) (s : S) (p : Bytes)
      → any (bytes_eq p) (claimed m before limit s) ≡ true
      → is_due before (tracker s m p) ≡ true
  -- short of the limit, no row that is due is left out
  pub claimed-all :
      (m : Bytes) (before : Time) (limit : ℕ) (s : S) (p : Bytes)
      → length (claimed m before limit s) < limit
      → any (bytes_eq p) (claimed m before limit s) ≡ is_due before (tracker s m p)
  pub tracker-claim :
      (m : Bytes) (before : Time) (limit : ℕ) (now : Time) (s : S) (n q : Bytes)
      → tracker (pg.claim_tracker m before limit now s).1 n q ≡ (
          if bytes_eq m n && any (bytes_eq q) (claimed m before limit s)
          then touched now (tracker s n q)
          else tracker s n q)

-- A text that `cid.String` made is read back.
abbrev pub DecodesCids : Texts → Type 0
DecodesCids tx = (c : Cid) → tx.cid_decode (tx.cid_string c) ≡ ok c
