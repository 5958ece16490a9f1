-- ===== src/Examples/Migrate.antt =====
-- Two migrations and a file that is none.
use ponshot.Base.Text.{Text, codes}
use ponshot.Base.{ℕ, ◌+◌, ◌≡◌, refl, true, Option, some, List, [], ◌∷◌, All, length}
use ponshot.Indexer.Migrate.{Database, Run, has_name, migrate, sql_files}
use ponshot.Indexer.Migrate.Once.{IsBuilt, migrate_once, run_all}

-- A schema as the number of characters of the files that made it.
abbrev apply_file : Text → ℕ → Option ℕ
apply_file f n = some (n + length f)

abbrev names : List Text
names = codes "002_b.sql" ∷ codes "README" ∷ codes "001.sql" ∷ []

abbrev no_tables : Database ℕ
no_tables = record { applied = []; schema = 0 }

abbrev both_applied : Database ℕ
both_applied = record { applied = codes "001.sql" ∷ codes "002_b.sql" ∷ []; schema = 16 }

migrate_once_example :
    IsBuilt apply_file 0 both_applied
    × All (λ f. has_name both_applied.applied f ≡ true) (sql_files names)
    × (migrate apply_file names both_applied ≡ Run.done [] both_applied)
unfolding migrate run_all
migrate_once_example =
    migrate_once apply_file names (codes "001.sql" ∷ codes "002_b.sql" ∷ []) 0 no_tables
      both_applied refl refl
