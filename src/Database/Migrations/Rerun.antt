-- ===== src/Database/Migrations/Rerun.antt =====
-- What a successful run of the migrations leaves for the next one.
use iot_dashboard_flutter.Common.{
  ℕ, ◌≤◌, leb, true, Bool-cases, inl, inr, List, [], ◌∷◌, All, ◌≡◌, refl, sym, ap, ◌∙◌, subst,
  arith,
}
use iot_dashboard_flutter.Errors.{Result, ok, err}
use iot_dashboard_flutter.Database.Migrations.{
  Migration, Sqlite, Statement, create_version_table, begin_transaction, commit, migration_sql,
  and_then, or_rollback, ensure_version_table, latest, current_version, apply, apply_newer, migrate,
}

module _ {D : Type 0} where
  and_then-ok :
      (r : D × Result (Unit {0})) (f : D → D × Result (Unit {0}))
      → (and_then r f).1 ≡ ok tt
      → (r.1 ≡ ok tt) × (and_then r f ≡ f r.0)
  unfolding and_then
  and_then-ok (d, err e) f h = cc
  and_then-ok (d, ok tt) f h = (refl, refl)

  module _ (conn : Sqlite D) where
    or_rollback-ok :
        (r : D × Result (Unit {0})) → (or_rollback conn r).1 ≡ ok tt → (or_rollback conn r).0 ≡ r.0
    unfolding or_rollback
    or_rollback-ok (d, err e) h = cc
    or_rollback-ok (d, ok tt) h = refl

    -- A statement that forgets no version.
    unfoldable pub IsQuiet : Statement → Type 0
    IsQuiet s = (d : D) → latest conn d ≤ latest conn (conn.execute s d).0

    module _ (create_quiet : IsQuiet create_version_table) (begin_quiet : IsQuiet begin_transaction)
        (commit_quiet : IsQuiet commit)
        (recorded : (v now : ℕ) (d : D)
          → (latest conn d ≤ latest conn (conn.insert_version v now d))
            × (v ≤ latest conn (conn.insert_version v now d))) where
      apply-latest :
          (now : ℕ) (m : Migration) (d : D)
          → IsQuiet (migration_sql m.sql)
          → (apply conn now m d).1 ≡ ok tt
          → (latest conn d ≤ latest conn (apply conn now m d).0)
            × (m.version ≤ latest conn (apply conn now m d).0)
      unfolding apply IsQuiet
      apply-latest now m d quiet h =
          let begun = (conn.execute begin_transaction d).0 in
          let ran = or_rollback conn (conn.execute (migration_sql m.sql) begun) in
          let filled = conn.insert_version m.version now ran.0 in
          let finish : D → D × Result (Unit {0}) =
            λ c. or_rollback conn (conn.execute commit (conn.insert_version m.version now c)) in
          let first =
            and_then-ok (conn.execute begin_transaction d)
              (λ b. and_then (or_rollback conn (conn.execute (migration_sql m.sql) b)) finish) h in
          let second = and_then-ok ran finish (subst (λ r. r.1 ≡ ok tt) first.1 h) in
          let same_ran = or_rollback-ok (conn.execute (migration_sql m.sql) begun) second.0 in
          let total = first.1 ∙ second.1 in
          let same_end =
            or_rollback-ok (conn.execute commit filled) (subst (λ r. r.1 ≡ ok tt) total h) in
          let end : (apply conn now m d).0 ≡ (conn.execute commit filled).0 =
            ap (λ r. r.0) total ∙ same_end in
          let kept : latest conn begun ≤ latest conn ran.0 =
            subst (λ c. latest conn begun ≤ latest conn c) (sym same_ran) (quiet begun) in
          let b = begin_quiet d in
          let r = recorded m.version now ran.0 in
          let c = commit_quiet filled in
          subst (λ x. (latest conn d ≤ latest conn x) × (m.version ≤ latest conn x)) (sym end)
            (omega arith, omega arith)

      apply_newer-latest :
          (clock : ℕ → ℕ) (current : ℕ) (ms : List Migration) (d : D)
          → All (λ m. IsQuiet (migration_sql m.sql)) ms
          → current ≤ latest conn d
          → (apply_newer conn clock current ms d).1 ≡ ok tt
          → (latest conn d ≤ latest conn (apply_newer conn clock current ms d).0)
            × All (λ m. m.version ≤ latest conn (apply_newer conn clock current ms d).0) ms
      unfolding apply_newer
      apply_newer-latest clock current [] d quiet known h = (omega arith, tt)
      apply_newer-latest clock current (m ∷ ms) d quiet known h =
          elim (Bool-cases (leb m.version current)) [
            | inl old ↦
                let same : apply_newer conn clock current (m ∷ ms) d
                    ≡ apply_newer conn clock current ms d =
                  rw (old) in
                let ih =
                  apply_newer-latest clock current ms d quiet.1 known
                    (subst (λ r. r.1 ≡ ok tt) same h) in
                subst
                  (λ r.
                    (latest conn d ≤ latest conn r.0)
                    × All (λ k. k.version ≤ latest conn r.0) (m ∷ ms))
                  (sym same) (ih.0, (ground arith, ih.1))
            | inr new ↦
                let same : apply_newer conn clock current (m ∷ ms) d
                    ≡ and_then (apply conn (clock m.version) m d)
                        (apply_newer conn clock current ms) =
                  rw (new) in
                let steps =
                  and_then-ok (apply conn (clock m.version) m d) (apply_newer conn clock current ms)
                    (subst (λ r. r.1 ≡ ok tt) same h) in
                let one = apply-latest (clock m.version) m d quiet.0 steps.0 in
                let total = same ∙ steps.1 in
                let ih =
                  apply_newer-latest clock current ms (apply conn (clock m.version) m d).0 quiet.1
                    (omega arith) (subst (λ r. r.1 ≡ ok tt) total h) in
                subst
                  (λ r.
                    (latest conn d ≤ latest conn r.0)
                    × All (λ k. k.version ≤ latest conn r.0) (m ∷ ms))
                  (sym total) (omega arith, (omega arith, ih.1))
          ]

      apply_newer-none :
          (clock : ℕ → ℕ) (current : ℕ) (ms : List Migration) (d : D)
          → All (λ m. m.version ≤ current) ms
          → apply_newer conn clock current ms d ≡ (d, ok tt)
      unfolding apply_newer
      apply_newer-none clock current [] d h = refl
      apply_newer-none clock current (m ∷ ms) d h =
          let old : leb m.version current ≡ true = (let le = h.0 in ground arith) in
          rw (old, apply_newer-none clock current ms d h.1)

      All-latest :
          (a b : ℕ) (ms : List Migration)
          → a ≤ b
          → All (λ m. m.version ≤ a) ms
          → All (λ m. m.version ≤ b) ms
      All-latest a b [] le h = tt
      All-latest a b (m ∷ ms) le h = ((let l = h.0 in omega arith), All-latest a b ms le h.1)

      ensure-quiet :
          (d : D)
          → latest conn d ≤ latest conn (ensure_version_table conn (ensure_version_table conn d))
      unfolding ensure_version_table IsQuiet
      ensure-quiet d =
          let one = create_quiet d in
          let two = create_quiet (conn.execute create_version_table d).0 in omega arith

      -- Where an inserted version is recorded, and neither the statements of the manager nor the
      -- migrations forget a recorded one, a second run after a successful one succeeds, and does nothing
      -- but create the version table where it is missing.
      pub migrate-migrate :
          (clock later : ℕ → ℕ) (ms : List Migration) (d : D)
          → All (λ m. IsQuiet (migration_sql m.sql)) ms
          → (migrate conn clock ms d).1 ≡ ok tt
          → migrate conn later ms (migrate conn clock ms d).0 ≡ (
            ensure_version_table conn (ensure_version_table conn (migrate conn clock ms d).0),
            ok tt,
          )
      unfolding migrate current_version
      migrate-migrate clock later ms d quiet h =
          let d₁ = ensure_version_table conn (ensure_version_table conn d) in
          let e = (migrate conn clock ms d).0 in
          let first = apply_newer-latest clock (latest conn d₁) ms d₁ quiet (omega arith) h in
          let again = ensure_version_table conn (ensure_version_table conn e) in
          apply_newer-none later (latest conn again) ms again
            (All-latest (latest conn e) (latest conn again) ms (ensure-quiet e) first.1)
