-- ===== src/Database/Migrations.antt =====
-- src/database/migration_manager.cpp and .hpp. SQLite is an interface; the statements that the manager
-- builds from a query are its operations, which are taken to be prepared without an error.
pub mod Rerun
use iot_dashboard_flutter.Common.{
  ℕ, Bool, leb, if◌then◌else◌, List, [], ◌∷◌, ◌++◌, Option, none, some, Str,
}
use iot_dashboard_flutter.Errors.{Result, ok, err}

pub record Migration : Type 0 where
  pub version : ℕ
  pub description : Str
  pub sql : Str

-- The texts given to Execute: CREATE TABLE IF NOT EXISTS schema_version, BEGIN TRANSACTION, COMMIT,
-- ROLLBACK, and the text of a migration.
pub data Statement : Type 0 where
  create_version_table begin_transaction commit rollback : Statement
  migration_sql : Str → Statement

-- A connection: Execute, SELECT MAX(version), which is null on an empty table, and the insertion of a
-- version with its time.
pub record Sqlite (D : Type 0) : Type 0 where
  pub execute : Statement → D → D × Result (Unit {0})
  pub select_max_version : D → Option ℕ
  pub insert_version : ℕ → ℕ → D → D

unfoldable pub add_migration : Migration → List Migration → List Migration
add_migration migration migrations = migrations ++ migration ∷ []

module _ {D : Type 0} where
  -- The early return of an error.
  unfoldable pub and_then :
      D × Result (Unit {0}) → (D → D × Result (Unit {0})) → D × Result (Unit {0})
  and_then (d, err e) rest = (d, err e)
  and_then (d, ok u) rest = rest d

  module _ (conn : Sqlite D) where
    unfoldable pub or_rollback : D × Result (Unit {0}) → D × Result (Unit {0})
    or_rollback (d, err e) = ((conn.execute rollback d).0, err e)
    or_rollback (d, ok u) = (d, ok u)

    unfoldable pub ensure_version_table : D → D
    ensure_version_table d = (conn.execute create_version_table d).0

    unfoldable pub latest : D → ℕ
    latest d = elim (conn.select_max_version d) [ none ↦ 0 | some v ↦ v ]

    unfoldable pub current_version : D → D × ℕ
    unfolding ensure_version_table latest
    current_version d = (ensure_version_table d, latest (ensure_version_table d))

    -- The body of the loop for a migration that is not skipped.
    unfoldable pub apply : ℕ → Migration → D → D × Result (Unit {0})
    unfolding and_then or_rollback
    apply now m d = and_then (conn.execute begin_transaction d) (λ begun.
        and_then (or_rollback (conn.execute (migration_sql m.sql) begun)) (λ changed.
          or_rollback (conn.execute commit (conn.insert_version m.version now changed))))

    -- The loop; `clock` gives the time at which a version is recorded.
    unfoldable pub apply_newer : (ℕ → ℕ) → ℕ → List Migration → D → D × Result (Unit {0})
    unfolding and_then apply
    apply_newer clock current [] d = (d, ok tt)
    apply_newer clock current (m ∷ ms) d =
        let rest = apply_newer clock current ms in
        if leb m.version current then rest d else and_then (apply (clock m.version) m d) rest

    unfoldable pub migrate : (ℕ → ℕ) → List Migration → D → D × Result (Unit {0})
    unfolding current_version apply_newer
    migrate clock migrations d =
        let now = current_version (ensure_version_table d) in
        apply_newer clock now.1 migrations now.0
