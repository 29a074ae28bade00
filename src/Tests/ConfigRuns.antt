-- ===== src/Tests/ConfigRuns.antt =====
-- The theorem about the config file at a concrete input.
use txcartool.Common.{ℕ, ◌+◌, ◌≡◌, refl, none, Result, ok, arith}
use txcartool.Config.{Current, Repo, read_current, config_migrate}
use txcartool.Config.Roundtrip.{Migrates, config_migrate-back}

-- a content is its version
abbrev version_of : ℕ → Result ℕ
version_of c = ok c

abbrev migrate : ℕ → ℕ → Result ℕ
migrate version c = ok (c + 1)

abbrev repo : Repo ℕ
repo = record { current = Current.file 3; versions = λ v. none }

two_versions : Migrates version_of 6 migrate 2 3 3 5
two_versions = Migrates.then' (omega arith) refl (Migrates.then' (omega arith) refl Migrates.done)

config_migrate-back_example :
    ((config_migrate version_of 6 migrate 5 repo).0 ≡ ok tt)
    × ((read_current (config_migrate version_of 6 migrate 5 repo).1 ≡ ok 5)
        × (((config_migrate version_of 6 migrate 3 (config_migrate version_of 6 migrate 5 repo).1).0
              ≡ ok tt)
            × (read_current
                  (config_migrate version_of 6 migrate 3
                    (config_migrate version_of 6 migrate 5 repo).1).1
                ≡ ok 3)))
config_migrate-back_example =
    config_migrate-back version_of 6 migrate 3 2 3 5 repo refl refl (omega arith) (omega arith)
      two_versions refl
