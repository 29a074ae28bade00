-- ===== src/Tests.antt =====
-- An environment in memory, and the theorems at concrete inputs.
mod Chunks
mod Memory
mod Tables
mod CassandraRows
mod PostgresRows
mod CassandraWorks
mod YugabyteRuns
mod DbRuns
mod Inputs
mod LdbRuns
mod CarRuns
mod ResealRuns
mod PieceRuns
mod ThrottleRuns
mod ConfigRuns
mod SectorRuns
mod DoctorRuns
