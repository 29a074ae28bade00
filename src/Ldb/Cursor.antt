-- ===== src/Ldb/Cursor.antt =====
-- The cursor counter of lib/boostd-data/ldb/db.go.
use txcartool.Common.{ℕ, Option, none, some, Bytes, Exec, pure, gets, if_found, ◌>>=◌}
use txcartool.Ldb.Env.{Env}
use txcartool.Ldb.Uvarint.{uvarint, value}
use txcartool.Ldb.Keys.{uvarint_buffer, dskey_next_cursor, key_cursor_prefix}

module _ {S : Type 0} (env : Env S) where
  unfoldable pub set_next_cursor : ℕ → Exec S (Unit {0})
  set_next_cursor cursor = env.put (dskey_next_cursor env) (uvarint_buffer cursor)

  abbrev start_at_100 : Option Bytes → Exec S (Unit {0})
  start_at_100 (some b) = pure tt
  start_at_100 none = set_next_cursor 100

  unfoldable pub init_cursor : Exec S (Unit {0})
  init_cursor = do
    found ← gets (λ s. if_found (env.get (dskey_next_cursor env) s))
    start_at_100 found

  -- the cursor and its key prefix
  unfoldable pub next_cursor : Exec S (ℕ × Bytes)
  next_cursor = do
    b ← gets (env.get (dskey_next_cursor env))
    let cursor = value (uvarint b)
    pure (cursor, key_cursor_prefix cursor)
