-- ===== src/Indexer/Migrate.antt =====
-- `migrate` of apps/indexer/src/db.ts. What a file of SQL makes of the schema is a parameter, `none`
-- where it fails; PostgreSQL undoes a transaction that is rolled back.
pub mod Once
use mathlib.Core.List.{reverse}
use ponshot.Base.Text.{Text, codes, same_text, starts_with}
use ponshot.Base.{
  ℕ, Bool, true, false, Option, none, some, List, [], ◌∷◌, ◌++◌, any, ltb, if◌then◌else◌,
}

-- The table `migrations`, and the rest of the database.
pub record Database {ℓ} (S : Type ℓ) : Type ℓ where
  pub applied : List Text
  pub schema : S

-- The order of `sort` on texts.
unfoldable pub text_le : Text → Text → Bool
text_le [] t = true
text_le (c ∷ s) [] = false
text_le (c ∷ s) (d ∷ t) =
    let rest = text_le s t in if ltb c d then true else if ltb d c then false else rest

unfoldable pub insert_name : Text → List Text → List Text
unfolding text_le
insert_name f [] = f ∷ []
insert_name f (x ∷ xs) = if text_le f x then f ∷ x ∷ xs else x ∷ insert_name f xs

abbrev pub is_sql : Text → Bool
is_sql f = starts_with (reverse f) (reverse (codes ".sql"))

-- `readdirSync(dir).filter(…).sort()`
unfoldable pub sql_files : List Text → List Text
unfolding insert_name starts_with
sql_files [] = []
sql_files (f ∷ fs) = let rest = sql_files fs in if is_sql f then insert_name f rest else rest

abbrev pub has_name : List Text → Text → Bool
has_name names f = any (λ x. same_text x f) names

-- The end of a run: the files that it ran, or the one that failed.
pub data Run {ℓ} (S : Type ℓ) : Type ℓ where
  done : List Text → Database S → Run S
  failed : Text → Database S → Run S

module _ {ℓ} {S : Type ℓ} where
  abbrev pub after_file : Text → Run S → Run S
  after_file f (Run.done ran db) = Run.done (f ∷ ran) db
  after_file f (Run.failed g db) = Run.failed g db

  abbrev pub database_of : Run S → Database S
  database_of (Run.done ran db) = db
  database_of (Run.failed f db) = db

  -- The loop over the files; `before` are the names read at the start.
  unfoldable pub run_files : (Text → S → Option S) → List Text → List Text → Database S → Run S
  run_files run before [] db = Run.done [] db
  run_files run before (f ∷ fs) db = elim (has_name before f) [
    | true ↦ run_files run before fs db
    | false ↦ elim (run f db.schema) [
      | none ↦ Run.failed f db
      | some s ↦
          after_file f
            (run_files run before fs (record { applied = db.applied ++ (f ∷ []); schema = s }))
    ]
  ]

  unfoldable pub migrate : (Text → S → Option S) → (dir : List Text) → Database S → Run S
  unfolding run_files sql_files
  migrate run dir db = run_files run db.applied (sql_files dir) db
