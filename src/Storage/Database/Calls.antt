-- ===== src/Storage/Database/Calls.antt =====
-- What single calls leave of an active transaction (src/storage/Database.cpp).
use code_tribunal.Prelude.{
  ◌≡◌, refl, sym, subst, ap, Bool, true, false, ◌&&◌, Option, Option-cases, Bool-cases, inl, inr,
  none, some, Text, text, if◌then◌else◌,
}
use code_tribunal.Storage.Database.{
  Sqlite, Database, Outcome, returned, thrown, Transaction, run_sql, execute, end_call, commit_if,
  commit_transaction, rolled_back, rollback_if, rollback_transaction, finish, commit, rollback,
}

module _ {S : Type 0} (sqlite : Sqlite S) where
  -- An object that has ended has no active transaction.
  abbrev pub IsSettled : Transaction sqlite → Type 0
  IsSettled t = (t.committed && t.database.in_transaction) ≡ false

  run_sql-in_transaction :
      (d : Database S) (c : S) (sql prefix : Text)
      → (run_sql sqlite d c sql prefix).0.in_transaction ≡ d.in_transaction
  unfolding run_sql
  run_sql-in_transaction d c sql prefix = elim (Option-cases ((sqlite.exec c sql).1)) [
    | inl e ↦ rw (e, run_sql) refl
    | inr (m, e) ↦ rw (e, run_sql) refl
  ]

  pub execute-in_transaction :
      (d : Database S) (sql : Text) → (execute sqlite d sql).0.in_transaction ≡ d.in_transaction
  unfolding execute
  execute-in_transaction d sql = elim (Option-cases (d.db)) [
    | inl e ↦ rw (e, execute) refl
    | inr (c, e) ↦ rw (e, execute) (run_sql-in_transaction d c sql (text "Database error: "))
  ]

  rolled_back_idle :
      (d : Database S) (c : Option S) (e : Option Text)
      → (rolled_back sqlite d c e).in_transaction ≡ false
  unfolding rolled_back
  rolled_back_idle d c none = refl
  rolled_back_idle d c (some m) = refl

  rollback_if_idle :
      (b : Bool) (d : Database S)
      → d.in_transaction ≡ b
      → (rollback_if sqlite b d).0.in_transaction ≡ false
  unfolding rollback_if
  rollback_if_idle true d h = rolled_back_idle d _ _
  rollback_if_idle false d h = h

  -- Whatever SQLite answers, no transaction is active after a rollback.
  pub rollback_idle : (d : Database S) → (rollback_transaction sqlite d).0.in_transaction ≡ false
  unfolding rollback_transaction
  rollback_idle d = rollback_if_idle (d.in_transaction) d refl

  -- A call that returns has ended the transaction.
  abbrev Ends : Database S × Outcome (Unit {0}) → Type 0
  Ends (d, returned u) = d.in_transaction ≡ false
  Ends (d, thrown message) = Unit

  end_call-Ends :
      (d : Database S) (c : Option S) (e : Option Text) (prefix : Text)
      → Ends (end_call sqlite d c e false prefix)
  unfolding end_call
  end_call-Ends d c none prefix = refl
  end_call-Ends d c (some m) prefix = tt

  commit_if-Ends : (b : Bool) (d : Database S) → Ends (commit_if sqlite b d)
  unfolding commit_if
  commit_if-Ends true d = end_call-Ends d _ _ _
  commit_if-Ends false d = tt

  rollback_if-Ends : (b : Bool) (d : Database S) → Ends (rollback_if sqlite b d)
  unfolding rollback_if
  rollback_if-Ends true d = rolled_back_idle d _ _
  rollback_if-Ends false d = tt

  finish-IsSettled :
      (t : Transaction sqlite) (r : Database S × Outcome (Unit {0}))
      → t.committed ≡ false
      → Ends r
      → IsSettled ((finish sqlite t r).0)
  unfolding finish
  finish-IsSettled t (d, returned u) h e = e
  finish-IsSettled t (d, thrown m) h e = rw h refl

  pub and_right : (b c : Bool) → b ≡ true → (b && c) ≡ false → c ≡ false
  and_right true c e h = h
  and_right false c e h = cc

  pub commit_open :
      (t : Transaction sqlite)
      → t.committed ≡ false
      → commit sqlite t ≡ finish sqlite t (commit_transaction sqlite (t.database))
  unfolding commit
  commit_open t e =
      ap
        (λ b.
          if b then (t, returned tt) else finish sqlite t (commit_transaction sqlite (t.database)))
        e

  pub commit_done :
      (t : Transaction sqlite) → t.committed ≡ true → commit sqlite t ≡ (t, returned tt)
  unfolding commit
  commit_done t e =
      ap
        (λ b.
          if b then (t, returned tt) else finish sqlite t (commit_transaction sqlite (t.database)))
        e

  pub commit-IsSettled : (t : Transaction sqlite) → IsSettled t → IsSettled ((commit sqlite t).0)
  unfolding commit_transaction
  commit-IsSettled t h = elim (Bool-cases (t.committed)) [
    | inl e ↦ subst (λ r. IsSettled (r.0)) (sym (commit_done t e)) h
    | inr e ↦
        subst (λ r. IsSettled (r.0)) (sym (commit_open t e))
          (finish-IsSettled t (commit_transaction sqlite (t.database)) e
            (commit_if-Ends (t.database.in_transaction) (t.database)))
  ]

  pub rollback_open :
      (t : Transaction sqlite)
      → t.committed ≡ false
      → rollback sqlite t ≡ finish sqlite t (rollback_transaction sqlite (t.database))
  unfolding rollback
  rollback_open t e =
      ap
        (λ b.
          if b
          then (t, returned tt)
          else finish sqlite t (rollback_transaction sqlite (t.database)))
        e

  pub rollback_done :
      (t : Transaction sqlite) → t.committed ≡ true → rollback sqlite t ≡ (t, returned tt)
  unfolding rollback
  rollback_done t e =
      ap
        (λ b.
          if b
          then (t, returned tt)
          else finish sqlite t (rollback_transaction sqlite (t.database)))
        e

  pub rollback-IsSettled :
      (t : Transaction sqlite) → IsSettled t → IsSettled ((rollback sqlite t).0)
  unfolding rollback_transaction
  rollback-IsSettled t h = elim (Bool-cases (t.committed)) [
    | inl e ↦ subst (λ r. IsSettled (r.0)) (sym (rollback_done t e)) h
    | inr e ↦
        subst (λ r. IsSettled (r.0)) (sym (rollback_open t e))
          (finish-IsSettled t (rollback_transaction sqlite (t.database)) e
            (rollback_if-Ends (t.database.in_transaction) (t.database)))
  ]
