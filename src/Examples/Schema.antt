-- ===== src/Examples/Schema.antt =====
-- A database that holds its highest version alone.
use iot_dashboard_flutter.Common.{
  ℕ, ◌+◌, ◌≤◌, leb, if◌then◌else◌, List, [], ◌∷◌, Option, none, some, str, ◌≡◌, refl, arith,
}
use iot_dashboard_flutter.Errors.{ok}
use iot_dashboard_flutter.Database.Migrations.{
  Migration, Sqlite, Statement, create_version_table, begin_transaction, commit, migration_sql,
  latest, ensure_version_table, migrate,
}
use iot_dashboard_flutter.Database.Migrations.Rerun.{IsQuiet, migrate-migrate}

record_version : ℕ → Option ℕ → Option ℕ
record_version v none = some v
record_version v (some w) = some (if leb w v then v else w)

abbrev memory : Sqlite (Option ℕ)
memory = record {
  execute = λ s d. (d, ok tt);
  select_max_version = λ d. d;
  insert_version = λ v now d. record_version v d;
}

memory-IsQuiet : (s : Statement) → IsQuiet memory s
unfolding IsQuiet latest
memory-IsQuiet s d = omega arith

recorded :
    (v now : ℕ) (d : Option ℕ)
    → (latest memory d ≤ latest memory (memory.insert_version v now d))
      × (v ≤ latest memory (memory.insert_version v now d))
unfolding latest record_version
recorded v now none = (omega arith, omega arith)
recorded v now (some w) = (ground arith, ground arith)

abbrev schema : List Migration
schema =
    record { version = 1; description = str "first"; sql = str "a" }
    ∷ record { version = 2; description = str "second"; sql = str "b" }
    ∷ []

migrated : (migrate memory (λ v. v) schema none).1 ≡ ok tt
unfolding migrate record_version
migrated = refl

migrate-migrate_example :
    migrate memory (λ v. v + 9) schema (migrate memory (λ v. v) schema none).0 ≡ (
      ensure_version_table memory
          (ensure_version_table memory (migrate memory (λ v. v) schema none).0),
      ok tt,
    )
migrate-migrate_example =
    migrate-migrate memory (memory-IsQuiet create_version_table) (memory-IsQuiet begin_transaction)
      (memory-IsQuiet commit) recorded (λ v. v) (λ v. v + 9) schema none
      (memory-IsQuiet (migration_sql (str "a")), (memory-IsQuiet (migration_sql (str "b")), tt))
      migrated
