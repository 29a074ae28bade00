-- ===== src/Ldb/Store/Start.antt =====
-- `Start` of lib/boostd-data/ldb/service.go, on an empty database and on one that holds a view.
use txcartool.Common.{◌≡◌, false, none, Bytes, ok, bytes_eq, bytes_eq_iff, refl, arith}
use txcartool.Ldb.Env.{Env}
use txcartool.Ldb.Works.{Works, Named}
use txcartool.Ldb.Keys.{dskey_next_cursor, uvarint_buffer}
use txcartool.Ldb.Keys.Distinct.{cursor-metadata, cursor-mh}
use txcartool.Ldb.Keys.Records.{cursor-record}
use txcartool.Ldb.Cursor.{init_cursor, set_next_cursor}
use txcartool.Ldb.View.{View, Represents}
use txcartool.Ldb.Store.{start}

abbrev pub no_pieces : View
no_pieces = record { pieces = λ pc. none; holders = λ m. none; blocks = λ c m. none; next = 100 }

module _ {S : Type 0} (env : Env S) (works : Works env) where
  abbrev started : S → S
  started s = (env.put (dskey_next_cursor env) (uvarint_buffer 100) s).1

  start_run :
      (s : S) → works.contents (dskey_next_cursor env) s ≡ none → start env s ≡ (ok tt, started s)
  unfolding start init_cursor set_next_cursor
  start_run s e =
      rw (works.get_works (dskey_next_cursor env) s)
        (rw e (ground (arith, works.put_works (dskey_next_cursor env) (uvarint_buffer 100) s)))

  -- On an empty database that works, the start succeeds, and the database then holds no piece and
  -- the next cursor 100.
  pub start-Represents :
      (named : Named env) (s : S)
      → ((k : Bytes) → works.contents k s ≡ none)
      → ((start env s).0 ≡ ok tt) × Represents env works (start env s).1 no_pieces
  start-Represents named s e = rw (start_run s (e _)) (
    refl,
    record {
      pieces_at = λ pc. at _ (cursor-metadata env named pc);
      holders_at = λ m. at _ (cursor-mh env named m);
      blocks_at = λ c m h. at _ (cursor-record env named c m);
      next_at =
          rw
            (works.contents-put (dskey_next_cursor env) (uvarint_buffer 100) s
              (dskey_next_cursor env))
            (rw ((bytes_eq_iff (dskey_next_cursor env) _).1 refl));
      next_IsU64 = omega arith;
    },
  )
    where
      at :
          (j : Bytes)
          → bytes_eq (dskey_next_cursor env) j ≡ false
          → works.contents j (started s) ≡ none
      at j ne =
          rw (works.contents-put (dskey_next_cursor env) (uvarint_buffer 100) s j) (rw ne (e j))

  -- On a datastore that works: a start on a database that holds a view succeeds and changes
  -- nothing.
  pub start_again : (s : S) (v : View) → Represents env works s v → start env s ≡ (ok tt, s)
  unfolding start init_cursor
  start_again s v rep = rw (works.get_works (dskey_next_cursor env) s) (rw rep.next_at)
