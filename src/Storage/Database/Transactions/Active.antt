-- ===== src/Storage/Database/Transactions/Active.antt =====
-- The transactions of SQLite behind the flag of the wrapper in src/storage/Database.cpp.
use code_tribunal.Prelude.{
  ℕ, ◌≡◌, refl, sym, subst, Bool, true, false, Option, Option-cases, Bool-cases, inl, inr, none,
  some, List, [], ◌∷◌, Text, text, All, arith,
}
use code_tribunal.Storage.Database.{
  Sqlite, Database, Outcome, returned, thrown, Transaction, exec_on, run_sql, execute, end_call,
  begin_unless, begin_transaction, commit_if, commit_transaction, rolled_back, rollback_if,
  rollback_transaction, finish, commit, rollback, end_scope,
}
use code_tribunal.Storage.Database.Calls.{commit_open, commit_done, rollback_open, rollback_done}
use code_tribunal.Storage.Database.Transactions.{
  Action, statement, do_commit, do_rollback, after_execute, after_call, act, run_body, run_begun,
  run_scope, new_transaction_returned, new_transaction_thrown, outcome_cases, run_scope-idle,
}

module _ {S : Type 0} (sqlite : Sqlite S) (active : S → Bool) where
  -- What SQLite documents of its transactions: a BEGIN that fails starts none, a COMMIT that succeeds
  -- ends it, and behind a ROLLBACK there is none, since it fails only where there was none.
  pub record IsTransactional : Type 0 where
    pub begin_failed :
        (c : S) (message : Text)
        → (sqlite.exec c (text "BEGIN TRANSACTION")).1 ≡ some message
        → active c ≡ false
        → active (sqlite.exec c (text "BEGIN TRANSACTION")).0 ≡ false
    pub commit_ends :
        (c : S)
        → (sqlite.exec c (text "COMMIT")).1 ≡ none
        → active (sqlite.exec c (text "COMMIT")).0 ≡ false
    pub rollback_ends : (c : S) → active (sqlite.exec c (text "ROLLBACK")).0 ≡ false

  abbrev pub active_on : Option S → Bool
  active_on none = false
  active_on (some c) = active c

  -- A statement that begins no transaction of its own.
  abbrev pub IsPlain : Action → Type 0
  IsPlain (statement sql) = (c : S) → active c ≡ false → active (sqlite.exec c sql).0 ≡ false
  IsPlain do_commit = Unit
  IsPlain do_rollback = Unit

  -- Where the flag is not set, SQLite has no active transaction.
  abbrev Tracks : Database S → Type 0
  Tracks d = d.in_transaction ≡ false → active_on d.db ≡ false

  exec_on-failed :
      (sql : Text)
      → ((c : S) (m : Text)
          → (sqlite.exec c sql).1 ≡ some m
          → active c ≡ false
          → active (sqlite.exec c sql).0 ≡ false)
      → (db : Option S) (m : Text) → (exec_on sqlite db sql).1 ≡ some m
      → active_on db ≡ false
      → active_on (exec_on sqlite db sql).0 ≡ false
  unfolding exec_on
  exec_on-failed sql keeps none m e h = refl
  exec_on-failed sql keeps (some c) m e h = keeps c m e h

  run_sql-Tracks :
      (d : Database S) (c : S) (sql prefix : Text)
      → d.db ≡ some c
      → ((c : S) → active c ≡ false → active (sqlite.exec c sql).0 ≡ false)
      → Tracks d
      → Tracks (run_sql sqlite d c sql prefix).0
  unfolding run_sql
  run_sql-Tracks d c sql prefix open_on plain h =
      let before = subst (λ o. d.in_transaction ≡ false → active_on o ≡ false) open_on h in
      elim (Option-cases ((sqlite.exec c sql).1)) [
        | inl e ↦ rw (e, run_sql) (λ flag. plain c (before flag))
        | inr (m, e) ↦ rw (e, run_sql) (λ flag. plain c (before flag))
      ]

  execute-Tracks :
      (d : Database S) (sql : Text)
      → ((c : S) → active c ≡ false → active (sqlite.exec c sql).0 ≡ false)
      → Tracks d
      → Tracks (execute sqlite d sql).0
  unfolding execute
  execute-Tracks d sql plain h = elim (Option-cases (d.db)) [
    | inl e ↦ rw (e, execute) (λ flag. rw e refl)
    | inr (c, e) ↦ rw (e, execute) (run_sql-Tracks d c sql (text "Database error: ") e plain h)
  ]

  module _ (laws : IsTransactional) where
    begun :
        (d : Database S) (e : Option Text)
        → (exec_on sqlite d.db (text "BEGIN TRANSACTION")).1 ≡ e
        → Tracks d
        → Tracks
            (end_call sqlite d
              (exec_on sqlite d.db (text "BEGIN TRANSACTION")).0
              e
              true
              (text "Failed to begin transaction: ")).0
    unfolding end_call
    begun d none h tracks = λ flag. absurd (ground (arith, flag))
    begun d (some m) h tracks =
        λ flag. exec_on-failed (text "BEGIN TRANSACTION") laws.begin_failed d.db m h (tracks flag)

    begin-Tracks : (b : Bool) (d : Database S) → Tracks d → Tracks (begin_unless sqlite b d).0
    unfolding begin_unless
    begin-Tracks true d tracks = tracks
    begin-Tracks false d tracks = begun d _ refl tracks

    committed_on :
        (db : Option S)
        → (exec_on sqlite db (text "COMMIT")).1 ≡ none
        → active_on (exec_on sqlite db (text "COMMIT")).0 ≡ false
    unfolding exec_on
    committed_on none h = refl
    committed_on (some c) h = laws.commit_ends c h

    ended :
        (d : Database S) (e : Option Text)
        → d.in_transaction ≡ true
        → (exec_on sqlite d.db (text "COMMIT")).1 ≡ e
        → Tracks
            (end_call sqlite d
              (exec_on sqlite d.db (text "COMMIT")).0
              e
              false
              (text "Failed to commit transaction: ")).0
    unfolding end_call
    ended d none is_set h = λ flag. committed_on d.db h
    ended d (some m) is_set h = λ flag. absurd (ground (arith, flag, is_set))

    commit_if-Tracks :
        (b : Bool) (d : Database S)
        → d.in_transaction ≡ b
        → Tracks d
        → Tracks (commit_if sqlite b d).0
    unfolding commit_if
    commit_if-Tracks true d e tracks = ended d _ e refl
    commit_if-Tracks false d e tracks = tracks

    rolled_back-Tracks :
        (d : Database S) (db : Option S) (e : Option Text)
        → active_on db ≡ false
        → Tracks (rolled_back sqlite d db e)
    unfolding rolled_back
    rolled_back-Tracks d db none h = λ flag. h
    rolled_back-Tracks d db (some m) h = λ flag. h

    rolled_back_on : (db : Option S) → active_on (exec_on sqlite db (text "ROLLBACK")).0 ≡ false
    unfolding exec_on
    rolled_back_on none = refl
    rolled_back_on (some c) = laws.rollback_ends c

    rollback_if-Tracks : (b : Bool) (d : Database S) → Tracks d → Tracks (rollback_if sqlite b d).0
    unfolding rollback_if
    rollback_if-Tracks true d tracks = rolled_back-Tracks d _ _ (rolled_back_on d.db)
    rollback_if-Tracks false d tracks = tracks

    finish-Tracks :
        (t : Transaction sqlite) (r : Database S × Outcome (Unit {0}))
        → Tracks r.0
        → Tracks (finish sqlite t r).0.database
    unfolding finish
    finish-Tracks t (d, returned u) h = h
    finish-Tracks t (d, thrown m) h = h

    commit-Tracks :
        (t : Transaction sqlite) → Tracks t.database → Tracks (commit sqlite t).0.database
    unfolding commit_transaction
    commit-Tracks t h = elim (Bool-cases (t.committed)) [
      | inl e ↦ subst (λ r. Tracks r.0.database) (sym (commit_done sqlite t e)) h
      | inr e ↦
          subst (λ r. Tracks r.0.database) (sym (commit_open sqlite t e))
            (finish-Tracks t (commit_transaction sqlite t.database)
              (commit_if-Tracks _ t.database refl h))
    ]

    rollback-Tracks :
        (t : Transaction sqlite) → Tracks t.database → Tracks (rollback sqlite t).0.database
    unfolding rollback_transaction
    rollback-Tracks t h = elim (Bool-cases (t.committed)) [
      | inl e ↦ subst (λ r. Tracks r.0.database) (sym (rollback_done sqlite t e)) h
      | inr e ↦
          subst (λ r. Tracks r.0.database) (sym (rollback_open sqlite t e))
            (finish-Tracks t (rollback_transaction sqlite t.database)
              (rollback_if-Tracks _ t.database h))
    ]

    after_call-Tracks :
        (r : Transaction sqlite × Outcome (Unit {0}))
        → Tracks r.0.database
        → Tracks (after_call sqlite r).0.database
    unfolding after_call
    after_call-Tracks (t, returned u) h = h
    after_call-Tracks (t, thrown m) h = h

    after_execute-Tracks :
        (t : Transaction sqlite) (r : Database S × Outcome ℕ)
        → Tracks r.0
        → Tracks (after_execute sqlite t r).0.database
    unfolding after_execute
    after_execute-Tracks t (d, returned n) h = h
    after_execute-Tracks t (d, thrown m) h = h

    act-Tracks :
        (a : Action) (t : Transaction sqlite)
        → IsPlain a
        → Tracks t.database
        → Tracks (act sqlite a t).0.database
    unfolding act
    act-Tracks (statement sql) t plain h =
        after_execute-Tracks t _ (execute-Tracks t.database sql plain h)
    act-Tracks do_commit t plain h = after_call-Tracks _ (commit-Tracks t h)
    act-Tracks do_rollback t plain h = after_call-Tracks _ (rollback-Tracks t h)

    run_body-Tracks :
        (actions : List Action) (t : Transaction sqlite)
        → All IsPlain actions
        → Tracks t.database
        → Tracks (run_body sqlite actions t).database
    unfolding run_body
    run_body-Tracks [] t plain h = h
    run_body-Tracks (a ∷ actions) t plain h =
        let first = act-Tracks a t plain.0 h in
        let rest = run_body-Tracks actions ((act sqlite a t).0) plain.1 first in
        elim (Bool-cases ((act sqlite a t).1)) [
          | inl e ↦ rw (e, run_body) rest
          | inr e ↦ rw (e, run_body) first
        ]

    end_scope-Tracks : (t : Transaction sqlite) → Tracks t.database → Tracks (end_scope sqlite t)
    unfolding end_scope rollback_transaction
    end_scope-Tracks t h = elim (Bool-cases (t.committed)) [
      | inl e ↦ rw (e, end_scope) h
      | inr e ↦ rw (e, end_scope) (rollback_if-Tracks _ t.database h)
    ]

    run_scope-Tracks :
        (actions : List Action) (d : Database S)
        → All IsPlain actions
        → Tracks d
        → Tracks (run_scope sqlite actions d)
    unfolding run_scope run_begun begin_transaction
    run_scope-Tracks actions d plain h =
        let started = begin-Tracks d.in_transaction d h in
        elim (outcome_cases sqlite ((begin_transaction sqlite d).1)) [
          | inl (u, e) ↦
              subst (λ r. Tracks (run_begun sqlite actions r))
                (sym (new_transaction_returned sqlite d e))
                (end_scope-Tracks _ (run_body-Tracks actions _ plain started))
          | inr (m, e) ↦
              subst (λ r. Tracks (run_begun sqlite actions r))
                (sym (new_transaction_thrown sqlite d m e)) started
        ]

-- A scope that is entered with no transaction active, and whose statements begin none, leaves none active
-- behind: neither the flag of the wrapper is set nor has SQLite an active transaction, whatever the calls
-- in the scope are and wherever SQLite fails in the begin, a statement, the commit or the rollback.
-- That holds for an SQLite whose BEGIN starts nothing where it fails, whose COMMIT has ended the
-- transaction where it succeeds, and behind whose ROLLBACK there is none, as SQLite documents.
pub run_scope-inactive :
    {S : Type 0} (sqlite : Sqlite S) (active : S → Bool) (laws : IsTransactional sqlite active)
    (actions : List Action) (d : Database S)
    → All (IsPlain sqlite active) actions
    → d.in_transaction ≡ false
    → active_on sqlite active d.db ≡ false
    → let d' = run_scope sqlite actions d in
      (d'.in_transaction ≡ false) × (active_on sqlite active d'.db ≡ false)
run_scope-inactive sqlite active laws actions d plain flag inactive =
    let idle = run_scope-idle sqlite actions d flag in
    (idle, run_scope-Tracks sqlite active laws actions d plain (λ f. inactive) idle)
