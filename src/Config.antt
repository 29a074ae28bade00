-- ===== src/Config.antt =====
-- The migration of the config file: lib/boost/node/config/migrate.go. The files are config.toml, which
-- is a file or a link to one of a version, and config/config.toml.<version>; their operations fail
-- only where a file is missing. The content `C`, the version in it and the migrations are parameters.
pub mod Roundtrip
use txcartool.Common.{
  ℕ, zero, suc, ◌+◌, ◌-◌, Bool, true, false, Option, none, some, Error, failed, codes, ltb, leb,
  ◌==◌, if◌then◌else◌, Result, ok, err, panic, Exec, pure, raise, lift, gets, continue, ◌>>=◌, ◌>>◌,
}

pub data Current (C : Type 0) : Type 0 where
  file : C → Current C
  link : ℕ → Current C
  missing : Current C

pub record Repo (C : Type 0) : Type 0 where
  pub current : Current C
  pub versions : ℕ → Option C

abbrev pub no_file : Error
no_file = failed (codes "no such file or directory")

module _ {C : Type 0} where
  abbrev pub or_no_file : Option C → Result C
  or_no_file none = err no_file
  or_no_file (some c) = ok c

  -- `os.ReadFile` of config.toml
  abbrev pub read_at_path : Current C → (ℕ → Option C) → Result C
  read_at_path (file c) versions = ok c
  read_at_path (link v) versions = or_no_file (versions v)
  read_at_path missing versions = err no_file

  abbrev pub read_current : Repo C → Result C
  read_current repo = read_at_path repo.current repo.versions

  -- `os.WriteFile` of the file of a version
  abbrev pub write_version : ℕ → C → Exec (Repo C) (Unit {0})
  write_version v c repo =
      (ok tt, record repo { versions = λ j. if j == v then some c else repo.versions j })

  abbrev pub relink : Current C → ℕ → Result (Unit {0}) × Current C
  relink (file c) v = (ok tt, link v)
  relink (link w) v = (ok tt, link v)
  relink missing v = (err no_file, missing)

  -- `makeSymlink`
  unfoldable pub make_symlink : ℕ → Exec (Repo C) (Unit {0})
  make_symlink v repo = let (r, c) = relink repo.current v in (r, record repo { current = c })

  abbrev pub exists_version : Option C → Result (Unit {0})
  exists_version none = err no_file
  exists_version (some c) = ok tt

  -- `migrateDown`
  unfoldable pub migrate_down : ℕ → Exec (Repo C) (Unit {0})
  unfolding make_symlink
  migrate_down to_version =
      if to_version == 0
      then pure tt
      else gets (λ repo. exists_version (repo.versions to_version)) >>= λ _. make_symlink to_version

  -- A config file that is not there has the default, version 0.
  abbrev pub version_at : (C → Result ℕ) → Result C → Result ℕ
  version_at version_of (ok c) = version_of c
  version_at version_of (err e) = ok 0
  version_at version_of panic = panic

  -- `migrations` is the count of the migrations and what each makes of the content.
  module _ (version_of : C → Result ℕ) (migrations : ℕ) (migrate : ℕ → C → Result C) where
    -- `migrateUp`, for as many versions as are left
    unfoldable pub migrate_up : ℕ → ℕ → ℕ → Exec (Repo C) (Unit {0})
    unfolding make_symlink
    migrate_up zero old_version to_version = pure tt
    migrate_up (suc left) old_version to_version = gets read_current >>= λ old_content.
        write_version old_version old_content >>= λ _.
        if leb migrations old_version
        then raise (failed (codes "no migration script defined"))
        else (gets read_current >>= λ content. lift (migrate old_version content) >>= λ new_content.
            write_version to_version new_content >>= λ _.
            make_symlink to_version >>= λ _. migrate_up left (suc old_version) to_version)

    -- `configMigrate`
    unfoldable pub config_migrate : ℕ → Exec (Repo C) (Unit {0})
    unfolding migrate_up migrate_down
    config_migrate to_version =
        gets (λ repo. version_at version_of (read_current repo)) >>= λ version.
        (if ltb version to_version
          then migrate_up (to_version - version) version to_version
          else pure tt)
        >>= λ _. if ltb to_version version then migrate_down to_version else pure tt
