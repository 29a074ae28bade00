-- ===== src/Lib.antt =====
-- Models of txcartool, a tool around a Filecoin storage miner, and proofs about them.
--
-- The parts and how they interact. The local index directory (lib/boostd-data/ldb) keeps, for each
-- piece, its deals and the offsets of its blocks, and for each multihash the pieces that hold it. The
-- sector state manager (lib/boost/sectorstatemgr) asks lotus which files of the sectors are there,
-- keeps the table of lib/boost/db/sectors.go up to date and publishes what it found. The piece doctor
-- (lib/boost/piecedirectory/doctor.go) checks the pieces of the index directory against the latest
-- sector states and the chain, and flags those that have a problem. The piece directory
-- (lib/boost/piecedirectory/piecedirectory.go) reads pieces from their sectors, parses the records of
-- their blocks and answers reads of blocks from the index directory's pieces and offsets. The reseal
-- command (cmd/reseal.go) seals sectors again: a worker for each runs up to four stages, which
-- channels bound. The index directory has a second implementation (lib/boostd-data/yugabyte), whose
-- tables are in Cassandra and, for the piece doctor, in Postgres. Deals are kept in SQL tables, which
-- lib/boost/db writes and lists.
--
-- Files and code:
-- Common: lists, tests, results, and a state with errors and panics (`Exec`).
-- Ldb.Model, Ldb.Uvarint: lib/boostd-data/model/model.go, the row types of ldb/service.go, and Go's
--   varints. An index row is ten bytes at most for each of its two numbers, so the varint loops run
--   on fuel 10; a decimal text of a uint64 has at most 20 digits, which is the fuel of `decimal`.
-- Ldb.Env: the datastore, the text forms and JSON as a parameter. Ldb.Works: what is relied on in it.
-- Ldb.Keys, Ldb.Cursor, Ldb.Tables, Ldb.Index, Ldb.Scan: lib/boostd-data/ldb/db.go, a definition for
--   each method, under the method's name (`SetNextCursor` is `set_next_cursor`).
-- Ldb.Store: lib/boostd-data/ldb/service.go, with AddIndex in Ldb.Store.Indexing, the removals in
--   Ldb.Store.Removal and the methods that only pass a call on in Ldb.Store.Scans. Each method holds
--   the store's lock, so it is one step on the state.
-- Ldb.View: the abstract state, four maps, which the database represents. Ldb.Store.Histories:
--   sequences of calls of AddDealForPiece and AddIndex, from a start on an empty database.
-- Sectors: lib/boost/sectorstatemgr/sectorstatemgr.go, pubsub.go and the types of db/sectors.go.
-- Doctor: lib/boost/piecedirectory/doctor.go over a record of the operations of the index directory;
--   Doctor.Directory fills it with Ldb.Store.
-- Car: lib/boost/car/multi_reader_at.go. The loop of ReadAt runs on fuel; as many rounds as there are
--   parts and one are enough.
-- Pieces: lib/boost/piecedirectory/piecedirectory.go over a record of the operations of the index
--   directory, which Pieces.Readers.Unindexed fills with Ldb.Store: Pieces.Readers (GetPieceReader,
--   AddDealForPiece, BuildIndexForPiece), Pieces.SectorAccess (lib/boost/markets/sectoraccessor, which
--   the readers read through), Pieces.Blocks (the Blockstore methods), Pieces.Segments
--   (parsePieceWithDataSegmentIndex, validateEntries, parseRecordsFromCar, whose loop runs on fuel:
--   one round more than there are blocks is enough), Pieces.Blockstore (GetBlockstore and the readers
--   that it puts together), Pieces.SharedReader (one entry of the cache of GetSharedPieceReader, with
--   its callers' events in any order) and Pieces.Throttle (addIndexForPieceThrottled, with its
--   callers' events in any order; a call of it elsewhere is the call that it makes in its turn).
-- Reseal: cmd/reseal.go: Reseal.SidFile (ReadSectorSealInfos), Reseal.Stages (the worker of one
--   sector, addPiece to removeFile, with the calls that it makes) and Reseal.Pool (the workers of all
--   sectors and the channels as steps in any order).
-- Config: lib/boost/node/config/migrate.go over config.toml and the files of the versions.
-- Yugabyte: lib/boostd-data/yugabyte. Yugabyte.Db and Yugabyte.Postgres are the statements that the
--   code sends, as parameters; Yugabyte.Works and Yugabyte.Tracker.Works are what is relied on in the
--   databases, on tables by their keys. Yugabyte.Errors: err.go and encode.go. Yugabyte.Settings,
--   Yugabyte.Store: service.go, with AddIndex in Yugabyte.Store.Indexing and the removals in
--   Yugabyte.Store.Removal. Yugabyte.Batches: how AddIndex splits records into slices and batches;
--   the loop over the slices runs on fuel, and as many rounds as there are records are enough. The
--   order in which the goroutines' batches arrive is a schedule. Yugabyte.Queue: goroutines that take
--   items from a queue, where an item is one step. Yugabyte.Tracker, Yugabyte.Flags: piecedoctor.go.
-- Db: Db.Checkpoints (lib/boost/storagemarket/types/dealcheckpoints/checkpoints.go), Db.Fields
--   (lib/boost/db/fielddef/fielddef.go) and Db.DirectDeals (the queries of lib/boost/db/directdeals.go
--   that list and count deals, as lists of the parts of their text).
-- Tests: a datastore and tables in memory, and runs of the definitions at concrete inputs.
--
-- Numbers: a uint64 is a native number with its wrap-around written out; times are nanoseconds.
-- A Go map is a list of its entries, whose order stands for the order of a loop over it.
--
-- Not modelled: logs, metrics and tracing; timers and goroutines that only start the modelled
-- steps; SQL, Cassandra and JSON-RPC, which stand outside the repository, and the connections to
-- them; the statements that insert, update and scan a whole deal; the other commands, the set-up of
-- the reseal command and the rest of the configuration; and of the piece directory the methods that
-- only pass a call on. The scans of the LevelDB index directory and the removal of its index are
-- modelled and no theorem is stated about them.
pub mod Common
pub mod Ldb
pub mod Sectors
pub mod Doctor
pub mod Car
pub mod Pieces
pub mod Reseal
pub mod Config
pub mod Yugabyte
pub mod Db
pub mod Tests
