-- ===== src/Indexer/Migrate/Once.antt =====
-- Each migration runs once.
use mathlib.Core.Path.{subst}
use ponshot.Base.Text.{Text, same_text}
use ponshot.Base.{
  ◌≡◌, refl, sym, ap, ◌∙◌, Bool, true, false, Bool-cases, Option-cases, inl, inr, Option, none,
  some, List, [], ◌∷◌, ◌++◌, All, any, arith,
}
use ponshot.Indexer.Migrate.{
  Database, Run, has_name, run_files, migrate, after_file, database_of, sql_files,
}

some_inj {ℓ} : {A : Type ℓ} {x y : A} → some x ≡ some y → x ≡ y
some_inj e = cc

module _ {ℓ} {S : Type ℓ} (run : Text → S → Option S) where
  -- What the files make of a schema, one after the other.
  unfoldable pub run_all : List Text → S → Option S
  run_all [] s = some s
  run_all (f ∷ fs) s = elim (run f s) [ some t ↦ run_all fs t | none ↦ none ]

  -- The schema is what the files in the table made of the first one, in the order of the table.
  abbrev pub IsBuilt : S → Database S → Type ℓ
  IsBuilt first db = run_all db.applied first ≡ some db.schema

  run_all-append :
      (fs : List Text) (f : Text) (s t u : S)
      → run_all fs s ≡ some t
      → run f t ≡ some u
      → run_all (fs ++ (f ∷ [])) s ≡ some u
  unfolding run_all
  run_all-append [] f s t u e r =
      let at : run f s ≡ some u = subst (λ x. run f x ≡ some u) (sym (some_inj e)) r in
      rw (run_all, at) refl
  run_all-append (g ∷ fs) f s t u e r = elim (Option-cases (run g s)) [
    | inl bad ↦ grind (arith, rw (run_all, bad) at e)
    | inr (v, good) ↦ rw (run_all, good) (run_all-append fs f v t u (rw (run_all, good) at e) r)
  ]

  after_file-database : (f : Text) (r : Run S) → database_of (after_file f r) ≡ database_of r
  after_file-database f (Run.done ran db) = refl
  after_file-database f (Run.failed g db) = refl

  files-IsBuilt :
      (before : List Text) (fs : List Text) (first : S) (db : Database S)
      → IsBuilt first db
      → IsBuilt first (database_of (run_files run before fs db))
  unfolding run_files
  files-IsBuilt before [] first db h = h
  files-IsBuilt before (f ∷ fs) first db h = elim (Bool-cases (has_name before f)) [
    | inl old ↦ rw (run_files, old) (files-IsBuilt before fs first db h)
    | inr new ↦ elim (Option-cases (run f db.schema)) [
      | inl bad ↦ rw (run_files, new, bad) h
      | inr (s, good) ↦
          let next : Database S = record { applied = db.applied ++ (f ∷ []); schema = s } in
          rw (run_files, new, good, after_file-database f (run_files run before fs next))
            (files-IsBuilt before fs first next
              (run_all-append db.applied f first db.schema s h good))
    ]
  ]

  -- A table with all the files leaves nothing to run.
  nothing_left :
      (before fs : List Text) (db : Database S)
      → All (λ f. has_name before f ≡ true) fs
      → run_files run before fs db ≡ Run.done [] db
  unfolding run_files
  nothing_left before [] db h = refl
  nothing_left before (f ∷ fs) db h = rw (run_files, h.0) (nothing_left before fs db h.1)

same_text_refl : (t : Text) → same_text t t ≡ true
same_text_refl [] = refl
same_text_refl (c ∷ t) = ground (arith, same_text_refl t)

has_more :
    (names : List Text) (f x : Text)
    → has_name names x ≡ true
    → has_name (names ++ (f ∷ [])) x ≡ true
has_more [] f x h = grind (arith, h)
has_more (n ∷ names) f x h = elim (Bool-cases (same_text n x)) [
  | inl hit ↦ rw (any, hit) refl
  | inr miss ↦ rw (any, miss) (has_more names f x (rw (any, miss) at h))
]

has_last : (names : List Text) (f : Text) → has_name (names ++ (f ∷ [])) f ≡ true
has_last [] f = rw (any, same_text_refl f) refl
has_last (n ∷ names) f = elim (Bool-cases (same_text n f)) [
  | inl hit ↦ rw (any, hit) refl
  | inr miss ↦ rw (any, miss) (has_last names f)
]

module _ {ℓ} {S : Type ℓ} (run : Text → S → Option S) where
  -- The databases to which a run can lead keep the names.
  abbrev Keeps : Database S → Database S → Type 0
  Keeps db db' = (x : Text) → has_name db.applied x ≡ true → has_name db'.applied x ≡ true

  files_kept :
      (before fs : List Text) (db : Database S)
      → Keeps db (database_of (run_files run before fs db))
  unfolding run_files
  files_kept before [] db x h = h
  files_kept before (f ∷ fs) db x h = elim (Bool-cases (has_name before f)) [
    | inl old ↦ rw (run_files, old) (files_kept before fs db x h)
    | inr new ↦ elim (Option-cases (run f db.schema)) [
      | inl bad ↦ rw (run_files, new, bad) h
      | inr (s, good) ↦
          let next : Database S = record { applied = db.applied ++ (f ∷ []); schema = s } in
          rw (run_files, new, good, after_file-database run f (run_files run before fs next))
            (files_kept before fs next x (has_more db.applied f x h))
    ]
  ]

  abbrev is_done : Run S → Bool
  is_done (Run.done ran db) = true
  is_done (Run.failed f db) = false

  after_file-done : (f : Text) (r : Run S) → is_done (after_file f r) ≡ is_done r
  after_file-done f (Run.done ran db) = refl
  after_file-done f (Run.failed g db) = refl

  -- A run that ends well leaves every file among the names that it leads to.
  files_listed :
      (before fs names : List Text) (db : Database S)
      → ((x : Text) → has_name before x ≡ true → has_name db.applied x ≡ true)
      → is_done (run_files run before fs db) ≡ true
      → ((x : Text)
          → has_name (database_of (run_files run before fs db)).applied x ≡ true
          → has_name names x ≡ true)
      → All (λ f. has_name names f ≡ true) fs
  unfolding run_files
  files_listed before [] names db sub e sup = tt
  files_listed before (f ∷ fs) names db sub e sup = elim (Bool-cases (has_name before f)) [
    | inl old ↦ (
      sup f (files_kept before (f ∷ fs) db f (sub f old)),
      files_listed before fs names db sub (rw (run_files, old) at e)
          (λ x h. sup x (rw (run_files, old) h)),
    )
    | inr new ↦ elim (Option-cases (run f db.schema)) [
      | inl bad ↦ grind (arith, rw (run_files, new, bad) at e)
      | inr (s, good) ↦
          let next : Database S = record { applied = db.applied ++ (f ∷ []); schema = s } in
          let rest = run_files run before fs next in
          let up : (x : Text)
              → has_name (database_of rest).applied x ≡ true
              → has_name names x ≡ true =
            λ x h. sup x (rw (run_files, new, good, after_file-database run f rest) h) in
          (
            up f (files_kept before fs next f (has_last db.applied f)),
            files_listed before fs names next (λ x h. has_more db.applied f x (sub x h))
                (sym (after_file-done f rest) ∙ (rw (run_files, new, good) at e)) up,
          )
    ]
  ]

-- From a database whose schema is what the files in its table made of a first schema, in the order of
-- the table, a run of `migrate` that ends well leads to one of which the same holds; every file of the
-- directory is then in the table, and running it again runs no file and changes nothing.
pub migrate_once {ℓ} :
    {S : Type ℓ} (run : Text → S → Option S) (dir ran : List Text) (first : S) (db db' : Database S)
    → IsBuilt run first db
    → migrate run dir db ≡ Run.done ran db'
    → IsBuilt run first db'
      × All (λ f. has_name db'.applied f ≡ true) (sql_files dir)
      × (migrate run dir db' ≡ Run.done [] db')
unfolding migrate
migrate_once run dir ran first db db' h e =
    let end : database_of (run_files run db.applied (sql_files dir) db) ≡ db' = ap database_of e in
    let there =
      files_listed run db.applied (sql_files dir) db'.applied db (λ x k. k) (ap (is_done run) e)
        (λ x k. subst (λ d. has_name d.applied x ≡ true) end k) in
    (
      subst (IsBuilt run first) end (files-IsBuilt run db.applied (sql_files dir) first db h),
      there,
      nothing_left run db'.applied (sql_files dir) db' there,
    )
