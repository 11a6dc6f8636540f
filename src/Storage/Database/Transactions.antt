-- ===== src/Storage/Database/Transactions.antt =====
-- What transactions leave behind (src/storage/Database.cpp). A scope is a `Transaction` object, the
-- calls made while it lives, up to the first that throws, and its destructor.
pub mod Active
use code_tribunal.Prelude.{
  ℕ, ◌≡◌, ◌⊎◌, refl, ap, ◌∙◌, Bool, true, false, ◌&&◌, Option, Bool-cases, inl, inr, none, some,
  List, [], ◌∷◌, Text, if◌then◌else◌, arith,
}
use code_tribunal.Storage.Database.{
  Sqlite, Database, Outcome, returned, thrown, Transaction, execute, end_call, begin_unless,
  begin_transaction, new_transaction, commit, rollback, end_scope,
}
use code_tribunal.Storage.Database.Calls.{
  IsSettled, execute-in_transaction, rollback_idle, and_right, commit-IsSettled, rollback-IsSettled,
}

-- A call in a scope: a statement on the database, or a call of the object.
pub data Action : Type 0 where
  statement : Text → Action
  do_commit : Action
  do_rollback : Action

module _ {S : Type 0} (sqlite : Sqlite S) where
  pub after_execute : Transaction sqlite → Database S × Outcome ℕ → Transaction sqlite × Bool
  after_execute t (d, returned n) = (record t { database = d }, true)
  after_execute t (d, thrown message) = (record t { database = d }, false)

  pub after_call : Transaction sqlite × Outcome (Unit {0}) → Transaction sqlite × Bool
  after_call (t, returned u) = (t, true)
  after_call (t, thrown message) = (t, false)

  -- The state after a call, and whether it returned.
  pub act : Action → Transaction sqlite → Transaction sqlite × Bool
  act (statement sql) t = after_execute t (execute sqlite (t.database) sql)
  act do_commit t = after_call (commit sqlite t)
  act do_rollback t = after_call (rollback sqlite t)

  pub run_body : List Action → Transaction sqlite → Transaction sqlite
  run_body [] t = t
  run_body (a ∷ actions) t =
      let (t', returns) = act a t in let rest = run_body actions t' in if returns then rest else t'

  pub run_begun : List Action → Database S × Outcome (Transaction sqlite) → Database S
  run_begun actions (d, returned t) = end_scope sqlite (run_body actions t)
  run_begun actions (d, thrown message) = d

  pub run_scope : List Action → Database S → Database S
  run_scope actions d = run_begun actions (new_transaction sqlite d)

  after_call-IsSettled :
      (r : Transaction sqlite × Outcome (Unit {0}))
      → IsSettled sqlite (r.0)
      → IsSettled sqlite ((after_call r).0)
  unfolding after_call
  after_call-IsSettled (t, returned u) h = h
  after_call-IsSettled (t, thrown m) h = h

  after_execute-IsSettled :
      (t : Transaction sqlite) (r : Database S × Outcome ℕ)
      → r.0.in_transaction ≡ t.database.in_transaction
      → IsSettled sqlite t
      → IsSettled sqlite ((after_execute t r).0)
  unfolding after_execute
  after_execute-IsSettled t (d, returned n) e h = ap (λ b. t.committed && b) e ∙ h
  after_execute-IsSettled t (d, thrown m) e h = ap (λ b. t.committed && b) e ∙ h

  act-IsSettled :
      (a : Action) (t : Transaction sqlite) → IsSettled sqlite t → IsSettled sqlite ((act a t).0)
  unfolding act
  act-IsSettled (statement sql) t h =
      after_execute-IsSettled t (execute sqlite (t.database) sql)
        (execute-in_transaction sqlite (t.database) sql) h
  act-IsSettled do_commit t h = after_call-IsSettled (commit sqlite t) (commit-IsSettled sqlite t h)
  act-IsSettled do_rollback t h =
      after_call-IsSettled (rollback sqlite t) (rollback-IsSettled sqlite t h)

  run_body-IsSettled :
      (actions : List Action) (t : Transaction sqlite)
      → IsSettled sqlite t
      → IsSettled sqlite (run_body actions t)
  unfolding run_body
  run_body-IsSettled [] t h = h
  run_body-IsSettled (a ∷ actions) t h =
      let first = act-IsSettled a t h in
      let rest = run_body-IsSettled actions ((act a t).0) first in
      elim (Bool-cases ((act a t).1)) [
        | inl e ↦ rw (e, run_body) rest
        | inr e ↦ rw (e, run_body) first
      ]

  end_scope_idle :
      (t : Transaction sqlite) → IsSettled sqlite t → (end_scope sqlite t).in_transaction ≡ false
  unfolding end_scope
  end_scope_idle t h = elim (Bool-cases (t.committed)) [
    | inl e ↦ rw (e, end_scope) (and_right sqlite (t.committed) _ e h)
    | inr e ↦ rw (e, end_scope) (rollback_idle sqlite (t.database))
  ]

  pub new_transaction_returned :
      (d : Database S)
      → (begin_transaction sqlite d).1 ≡ returned tt
      → new_transaction sqlite d ≡ (
        (begin_transaction sqlite d).0,
        returned (record { database = (begin_transaction sqlite d).0; committed = false }),
      )
  unfolding new_transaction
  new_transaction_returned d e = rw (e, new_transaction) refl

  pub new_transaction_thrown :
      (d : Database S) (message : Text)
      → (begin_transaction sqlite d).1 ≡ thrown message
      → new_transaction sqlite d ≡ ((begin_transaction sqlite d).0, thrown message)
  unfolding new_transaction
  new_transaction_thrown d message e = rw (e, new_transaction) refl

  pub outcome_cases :
      {A : Type 0} (o : Outcome A) → ((a : A) × (o ≡ returned a)) ⊎ ((m : Text) × (o ≡ thrown m))
  outcome_cases (returned a) = inl (a, refl)
  outcome_cases (thrown m) = inr (m, refl)

  -- A call that throws leaves the flag.
  abbrev Keeps : Bool → Database S × Outcome (Unit {0}) → Type 0
  Keeps b (d, returned u) = Unit
  Keeps b (d, thrown message) = d.in_transaction ≡ b

  end_call-Keeps :
      (d : Database S) (c : Option S) (e : Option Text) (flag : Bool) (prefix : Text)
      → Keeps (d.in_transaction) (end_call sqlite d c e flag prefix)
  unfolding end_call
  end_call-Keeps d c none flag prefix = tt
  end_call-Keeps d c (some m) flag prefix = refl

  begin_unless-Keeps :
      (b : Bool) (d : Database S) → Keeps (d.in_transaction) (begin_unless sqlite b d)
  unfolding begin_unless
  begin_unless-Keeps true d = refl
  begin_unless-Keeps false d = end_call-Keeps d _ _ _ _

  thrown_Keeps :
      (b : Bool) (r : Database S × Outcome (Unit {0})) (m : Text)
      → Keeps b r
      → r.1 ≡ thrown m
      → r.0.in_transaction ≡ b
  thrown_Keeps b (d, returned u) m k e = ground arith
  thrown_Keeps b (d, thrown n) m k e = k

  -- A scope that is entered while the flag of the wrapper is not set leaves it so, whatever the calls
  -- in it are and wherever SQLite fails: in the begin, in a statement, in the commit or in the rollback.
  pub run_scope-idle :
      (actions : List Action) (d : Database S)
      → d.in_transaction ≡ false
      → (run_scope actions d).in_transaction ≡ false
  unfolding run_scope run_begun begin_transaction
  run_scope-idle actions d h = elim (outcome_cases ((begin_transaction sqlite d).1)) [
    | inl (u, e) ↦
        ap (λ r. (run_begun actions r).in_transaction) (new_transaction_returned d e)
        ∙ end_scope_idle _ (run_body-IsSettled actions _ refl)
    | inr (m, e) ↦
        ap (λ r. (run_begun actions r).in_transaction) (new_transaction_thrown d m e)
        ∙ thrown_Keeps (d.in_transaction) (begin_transaction sqlite d) m
            (begin_unless-Keeps (d.in_transaction) d) e
        ∙ h
  ]
