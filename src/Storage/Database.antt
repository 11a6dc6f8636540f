-- ===== src/Storage/Database.antt =====
-- The SQLite wrapper: src/storage/Database.h and Database.cpp. The SQLite library is the record `Sqlite`
-- over a type of connections; every operation of the wrapper holds the mutex, so that it is one step.
pub mod Calls
pub mod Transactions
pub mod Queries
pub mod Closing
use code_tribunal.Prelude.{
  ℕ, zero, suc, Bool, true, false, Option, none, some, List, [], ◌∷◌, ◌++◌, Text, text, map,
  if◌then◌else◌,
}
use code_tribunal.Prelude.Int.{ℤ, pos, negsuc}

-- What `sqlite3_step` returns one call after the other: rows, then the end or an error. A column is
-- `none` where `sqlite3_column_text` returns a null pointer.
pub data Steps : Type 0 where
  row : List (Option Text) → Steps → Steps
  done : Steps
  failed : Text → Steps

pub data Prepared : Type 0 where
  prepared : Steps → Prepared
  prepare_error : Text → Prepared

-- `open_error` and `exec` give the error message, if any; `exec_null` is the message of a call with a
-- null connection, which SQLite refuses. `after_steps c sql n` is the connection after n steps of `sql`.
pub record Sqlite (S : Type 0) : Type 0 where
  pub open_path : Text → S
  pub open_error : Text → Option Text
  pub exec : S → Text → S × Option Text
  pub exec_null : Text
  pub prepare : S → Text → Prepared
  pub after_steps : S → Text → ℕ → S
  pub last_insert_rowid : S → ℤ
  pub get_changes : S → ℕ

pub record Database (S : Type 0) : Type 0 where
  pub db : Option S
  pub last_error : Text
  pub in_transaction : Bool

-- What a call gives: its value or the message of its exception.
pub data Outcome {ℓ} (A : Type ℓ) : Type ℓ where
  returned : A → Outcome A
  thrown : Text → Outcome A

module _ {S : Type 0} (sqlite : Sqlite S) where
  -- The constructor: no object where it throws.
  unfoldable pub new_database : Text → Option (Database S)
  new_database path = elim (sqlite.open_error path) [
    | none ↦
        some (record { db = some (sqlite.open_path path); last_error = []; in_transaction = false })
    | some message ↦ none
  ]

  -- The connection and the message after `sqlite3_exec` on a connection or a null pointer.
  unfoldable pub exec_on : Option S → Text → Option S × Option Text
  exec_on none sql = (none, some (sqlite.exec_null))
  exec_on (some c) sql = let (c', e) = sqlite.exec c sql in (some c', e)

  abbrev not_open : Database S → Database S
  not_open d = record d { last_error = text "Database not open" }

  -- A statement on an open connection; `prefix` begins the exception's message.
  unfoldable pub run_sql : Database S → S → Text → Text → Database S × Outcome ℕ
  run_sql d c sql prefix =
      let (c', e) = sqlite.exec c sql in
      elim e [
        | none ↦ (record d { db = some c' }, returned (sqlite.get_changes c'))
        | some message ↦
            (record d { db = some c'; last_error = message }, thrown (prefix ++ message))
      ]

  unfoldable pub execute : Database S → Text → Database S × Outcome ℕ
  unfolding run_sql
  execute d sql = elim (d.db) [
    | none ↦ (not_open d, thrown (text "Database not open"))
    | some c ↦ run_sql d c sql (text "Database error: ")
  ]

  -- A column's text; a null pointer is the empty text.
  unfoldable pub column_text : Option Text → Text
  column_text none = []
  column_text (some t) = t

  -- The first step of a query: whether there is a row, and its columns.
  unfoldable pub first_row :
      Database S → S → Text → Steps → Database S × Outcome (Option (List Text))
  unfolding column_text
  first_row d c sql (row columns steps) = (
    record d { db = some (sqlite.after_steps c sql 1) },
    returned (some (map column_text columns)),
  )
  first_row d c sql done = (record d { db = some (sqlite.after_steps c sql 1) }, returned none)
  first_row d c sql (failed message) = (
    record d { db = some (sqlite.after_steps c sql 1); last_error = message },
    thrown (text "Query failed: " ++ message),
  )

  unfoldable pub query_one : Database S → Text → Database S × Outcome (Option (List Text))
  unfolding first_row
  query_one d sql = elim (d.db) [
    | none ↦ (not_open d, thrown (text "Database not open"))
    | some c ↦ elim (sqlite.prepare c sql) [
      | prepared steps ↦ first_row d c sql steps
      | prepare_error message ↦
          (record d { last_error = message }, thrown (text "Prepare failed: " ++ message))
    ]
  ]

  -- The loop over the steps: `n` steps so far, which gave `rows`.
  unfoldable pub all_rows :
      Database S → S → Text → ℕ → List (List Text) → Steps → Database S × Outcome (List (List Text))
  unfolding column_text
  all_rows d c sql n rows (row columns steps) =
      all_rows d c sql (suc n) (rows ++ map column_text columns ∷ []) steps
  all_rows d c sql n rows done =
      (record d { db = some (sqlite.after_steps c sql (suc n)) }, returned rows)
  all_rows d c sql n rows (failed message) = (
    record d { db = some (sqlite.after_steps c sql (suc n)); last_error = message },
    thrown (text "Query failed: " ++ message),
  )

  -- The rows; the count that the function returns is their number.
  unfoldable pub query_all : Database S → Text → Database S × Outcome (List (List Text))
  unfolding all_rows
  query_all d sql = elim (d.db) [
    | none ↦ (not_open d, thrown (text "Database not open"))
    | some c ↦ elim (sqlite.prepare c sql) [
      | prepared steps ↦ all_rows d c sql 0 [] steps
      | prepare_error message ↦
          (record d { last_error = message }, thrown (text "Prepare failed: " ++ message))
    ]
  ]

  -- The end of `begin_transaction` and `commit_transaction`: the flag changes only on success.
  unfoldable pub end_call :
      Database S → Option S → Option Text → Bool → Text → Database S × Outcome (Unit {0})
  end_call d c none flag prefix = (record d { db = c; in_transaction = flag }, returned tt)
  end_call d c (some message) flag prefix =
      (record d { db = c; last_error = message }, thrown (prefix ++ message))

  unfoldable pub begin_unless : Bool → Database S → Database S × Outcome (Unit {0})
  unfolding exec_on end_call
  begin_unless true d = (d, thrown (text "Transaction already active"))
  begin_unless false d =
      let (c, e) = exec_on (d.db) (text "BEGIN TRANSACTION") in
      end_call d c e true (text "Failed to begin transaction: ")

  unfoldable pub begin_transaction : Database S → Database S × Outcome (Unit {0})
  unfolding begin_unless
  begin_transaction d = begin_unless (d.in_transaction) d

  unfoldable pub commit_if : Bool → Database S → Database S × Outcome (Unit {0})
  unfolding exec_on end_call
  commit_if false d = (d, thrown (text "No active transaction"))
  commit_if true d =
      let (c, e) = exec_on (d.db) (text "COMMIT") in
      end_call d c e false (text "Failed to commit transaction: ")

  unfoldable pub commit_transaction : Database S → Database S × Outcome (Unit {0})
  unfolding commit_if
  commit_transaction d = commit_if (d.in_transaction) d

  -- An error of the rollback is only recorded.
  unfoldable pub rolled_back : Database S → Option S → Option Text → Database S
  rolled_back d c none = record d { db = c; in_transaction = false }
  rolled_back d c (some message) = record d { db = c; last_error = message; in_transaction = false }

  unfoldable pub rollback_if : Bool → Database S → Database S × Outcome (Unit {0})
  unfolding exec_on rolled_back
  rollback_if false d = (d, thrown (text "No active transaction"))
  rollback_if true d =
      let (c, e) = exec_on (d.db) (text "ROLLBACK") in (rolled_back d c e, returned tt)

  unfoldable pub rollback_transaction : Database S → Database S × Outcome (Unit {0})
  unfolding rollback_if
  rollback_transaction d = rollback_if (d.in_transaction) d

  unfoldable pub is_open : Database S → Bool
  is_open d = elim (d.db) [ none ↦ false | some c ↦ true ]

  unfoldable pub last_rowid : Database S → ℤ
  last_rowid d = elim (d.db) [ none ↦ negsuc 0 | some c ↦ sqlite.last_insert_rowid c ]

  unfoldable pub changes : Database S → ℕ
  changes d = elim (d.db) [ none ↦ 0 | some c ↦ sqlite.get_changes c ]

  -- A rollback before closing leaves the connection to SQLite; the wrapper forgets it.
  unfoldable pub close : Database S → Database S
  close d = elim (d.db) [ none ↦ d | some c ↦ record d { db = none; in_transaction = false } ]

  -- A moved-from object, or one that was never opened.
  abbrev pub emptied : Database S
  emptied = record { db = none; last_error = []; in_transaction = false }

  -- The connections that SQLite is given back, besides the new values of the two objects. `same` tells
  -- whether they are one object.
  unfoldable pub assign : Bool → Database S → Database S → Option S × Database S × Database S
  unfolding close
  assign same d other = if same then (none, d, other) else (d.db, other, emptied)

  -- `ok` is the comparison with `SQLITE_OK`, and the message is that of the connection.
  unfoldable pub check_error : Bool → Text → Database S → Database S × Bool
  check_error ok message d =
      if ok
      then (d, false)
      else (elim (d.db) [ none ↦ d | some c ↦ record d { last_error = message } ], true)

  -- The new object and what is left of the old one.
  unfoldable pub move : Database S → Database S × Database S
  move other = (other, emptied)

  -- A `Transaction` object with its database.
  pub record Transaction : Type 0 where
    pub database : Database S
    pub committed : Bool

  -- `none` if the constructor throws.
  unfoldable pub new_transaction : Database S → Database S × Outcome Transaction
  new_transaction d =
      let (d', o) = begin_transaction d in
      elim o [
        | returned u ↦ (d', returned (record { database = d'; committed = false }))
        | thrown message ↦ (d', thrown message)
      ]

  -- `commit` and `rollback` end the transaction with a call, unless it has ended.
  unfoldable pub finish :
      Transaction → Database S × Outcome (Unit {0}) → Transaction × Outcome (Unit {0})
  finish t (d, returned u) = (record { database = d; committed = true }, returned tt)
  finish t (d, thrown message) = (record t { database = d }, thrown message)

  unfoldable pub commit : Transaction → Transaction × Outcome (Unit {0})
  unfolding finish
  commit t = if t.committed then (t, returned tt) else finish t (commit_transaction (t.database))

  unfoldable pub rollback : Transaction → Transaction × Outcome (Unit {0})
  unfolding finish
  rollback t =
      if t.committed then (t, returned tt) else finish t (rollback_transaction (t.database))

  -- The destructor; it drops the exception of the rollback.
  unfoldable pub end_scope : Transaction → Database S
  end_scope t = if t.committed then t.database else (rollback_transaction (t.database)).0
