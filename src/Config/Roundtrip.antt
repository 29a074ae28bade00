-- ===== src/Config/Roundtrip.antt =====
-- A migration of the config file by lib/boost/node/config/migrate.go and back.
use txcartool.Common.{
  ℕ, zero, suc, ◌+◌, ◌-◌, ◌≤◌, ◌<◌, ◌≡◌, refl, ◌∙◌, Option, some, Result, ok, ltb, leb, ◌==◌,
  if◌then◌else◌, arith, true, false, Bool-cases, inl, inr,
}
use txcartool.Config.{
  Current, Repo, read_at_path, read_current, relink, make_symlink, migrate_down, migrate_up,
  config_migrate,
}

module _ {C : Type 0} (version_of : C → Result ℕ) (migrations : ℕ)
    (migrate : ℕ → C → Result C) where
  -- The migrations from a version on, one after another, make the second content of the first.
  pub data Migrates : ℕ → ℕ → C → C → Type 0 where
    done : {version : ℕ} {c : C} → Migrates 0 version c c
    then' :
        {left version : ℕ} {c next last : C}
        → version < migrations
        → migrate version c ≡ ok next
        → Migrates left (suc version) next last
        → Migrates (suc left) version c last

  -- what a migration up leaves
  record IsUp (left version : ℕ) (c last : C) (repo : Repo C) (r : Result (Unit {0}) × Repo C)
      : Type 0 where
    returns : r.0 ≡ ok tt
    reads : read_current r.1 ≡ ok last
    keeps : (j : ℕ) → j < version → r.1.versions j ≡ repo.versions j
    saves : 1 ≤ left → r.1.versions version ≡ some c

  copy_reads :
      (current : Current C) (versions : ℕ → Option C) (version : ℕ) (c : C)
      → read_at_path current versions ≡ ok c
      → read_at_path current (λ j. if j == version then some c else versions j) ≡ ok c
  copy_reads (Current.file x) versions version c e = e
  copy_reads (Current.link v) versions version c e = elim (Bool-cases (v == version)) [
    | inl same ↦ rw same refl
    | inr differs ↦ rw differs e
  ]
  copy_reads Current.missing versions version c e = ground arith

  relink_read :
      (current : Current C) (versions : ℕ → Option C) (v : ℕ) (c : C)
      → read_at_path current versions ≡ ok c
      → relink current v ≡ (ok tt, Current.link v)
  relink_read (Current.file x) versions v c e = refl
  relink_read (Current.link w) versions v c e = refl
  relink_read Current.missing versions v c e = ground arith

  migrate_up-IsUp :
      (left version to_version : ℕ) (c last : C) (repo : Repo C)
      → Migrates left version c last
      → version + left ≡ to_version
      → read_current repo ≡ ok c
      → IsUp left version c last repo
          (migrate_up version_of migrations migrate left version to_version repo)
  unfolding migrate_up make_symlink
  migrate_up-IsUp zero version to_version c last repo done e reads = record {
    returns = refl;
    reads = reads;
    keeps = λ j h. refl;
    saves = λ h. absurd (omega arith);
  }
  migrate_up-IsUp (suc left) version to_version c last repo
        (then' {next = next} defined migrated rest) e reads =
      let up =
        migrate_up-IsUp left (suc version) to_version next last moved rest (omega arith)
          (let same : (to_version == to_version) ≡ true = ground arith in rw same refl) in
      rw reads (
        rw migrates_on (
          rw still (
            rw migrated (
              rw relinks (record {
                returns = up.returns;
                reads = up.reads;
                keeps = λ j h. up.keeps j (omega arith) ∙ untouched j h;
                saves = λ h. up.keeps version (omega arith) ∙ saved;
              })))))
    where
      copied : Repo C
      copied = record repo { versions = λ j. if j == version then some c else repo.versions j }

      moved : Repo C
      moved = record {
        current = Current.link to_version;
        versions = λ j. if j == to_version then some next else copied.versions j;
      }

      still : read_current copied ≡ ok c
      still = copy_reads repo.current repo.versions version c reads

      relinks : relink repo.current to_version ≡ (ok tt, Current.link to_version)
      relinks = relink_read repo.current repo.versions to_version c reads

      migrates_on : leb migrations version ≡ false
      migrates_on = ground arith

      untouched : (j : ℕ) → j < version → moved.versions j ≡ repo.versions j
      untouched j h =
          let a : (j == to_version) ≡ false = ground arith in
          let b : (j == version) ≡ false = ground arith in rw (a, b) refl

      saved : moved.versions version ≡ some c
      saved =
          let a : (version == to_version) ≡ false = ground arith in
          let b : (version == version) ≡ true = ground arith in rw (a, b) refl

  config_migrate-up :
      (version left : ℕ) (c : C) (repo : Repo C)
      → read_current repo ≡ ok c
      → version_of c ≡ ok version
      → 1 ≤ left
      → (migrate_up version_of migrations migrate left version (version + left) repo).0 ≡ ok tt
      → config_migrate version_of migrations migrate (version + left) repo
        ≡ (ok tt, (migrate_up version_of migrations migrate left version (version + left) repo).1)
  unfolding config_migrate
  config_migrate-up version left c repo reads has_version some_left returns =
      rw (reads, has_version, is_up, steps, returns, not_down) refl
    where
      is_up : ltb version (version + left) ≡ true
      is_up = ground arith

      not_down : ltb (version + left) version ≡ false
      not_down = ground arith

      steps : version + left - version ≡ left
      steps = omega arith

  config_migrate-down :
      (version left : ℕ) (c last : C) (repo : Repo C)
      → read_current repo ≡ ok last
      → version_of last ≡ ok (version + left)
      → 1 ≤ version
      → 1 ≤ left
      → repo.versions version ≡ some c
      → config_migrate version_of migrations migrate version repo
        ≡ (ok tt, record repo { current = Current.link version })
  unfolding config_migrate migrate_down make_symlink
  config_migrate-down version left c last repo reads has_version pos some_left saved =
      rw
        (
          reads,
          has_version,
          not_up,
          is_down,
          not_zero,
          saved,
          relink_read repo.current repo.versions version last reads,
        )
        refl
    where
      not_up : ltb (version + left) version ≡ false
      not_up = ground arith

      is_down : ltb version (version + left) ≡ true
      is_down = ground arith

      not_zero : (version == 0) ≡ false
      not_zero = ground arith

  -- Where config.toml is there with a version from which the migrations lead to a later one, and
  -- the content that they make has that version: a migration to the later version succeeds, and
  -- config.toml then has that content; and a migration from there back to the version that it had,
  -- unless that is 0, succeeds too, and config.toml then has the content that it had.
  pub config_migrate-back :
      (version left : ℕ) (c last : C) (repo : Repo C)
      → read_current repo ≡ ok c
      → version_of c ≡ ok version
      → 1 ≤ version
      → 1 ≤ left
      → Migrates left version c last
      → version_of last ≡ ok (version + left)
      → ((config_migrate version_of migrations migrate (version + left) repo).0 ≡ ok tt)
        × ((read_current (config_migrate version_of migrations migrate (version + left) repo).1
              ≡ ok last)
            × (((config_migrate version_of migrations migrate version
                    (config_migrate version_of migrations migrate (version + left) repo).1).0
                  ≡ ok tt)
                × (read_current
                      (config_migrate version_of migrations migrate version
                        (config_migrate version_of migrations migrate (version + left) repo).1).1
                    ≡ ok c)))
  config_migrate-back version left c last repo reads has_version pos some_left path has_last =
      let up = migrate_up-IsUp left version (version + left) c last repo path refl reads in
      rw (config_migrate-up version left c repo reads has_version some_left up.returns) (
        refl,
        (
          up.reads,
          rw
              (config_migrate-down version left c last
                (migrate_up version_of migrations migrate left version (version + left) repo).1
                up.reads has_last pos some_left (up.saves some_left))
              (refl, rw (up.saves some_left) refl),
        ),
      )
