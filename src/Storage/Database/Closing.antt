-- ===== src/Storage/Database/Closing.antt =====
-- What is left of a closed database (src/storage/Database.cpp).
use code_tribunal.Prelude.{
  ◌≡◌, refl, ap, ◌∙◌, false, Option-cases, inl, inr, none, some, Text, text,
}
use code_tribunal.Storage.Database.{Sqlite, Database, thrown, execute, is_open, close}

module _ {S : Type 0} (sqlite : Sqlite S) where
  close-none : (d : Database S) → d.db ≡ none → close sqlite d ≡ d
  unfolding close
  close-none d e =
      ap
        (λ o. elim o as (λ o. Database S) [
          | none ↦ d
          | some c ↦ record d { db = none; in_transaction = false }
        ])
        e

  is_open-none : (d : Database S) → d.db ≡ none → is_open sqlite d ≡ false
  unfolding is_open
  is_open-none d e = rw (e, is_open) refl

  execute-none :
      (d : Database S) (sql : Text)
      → d.db ≡ none
      → (execute sqlite d sql).1 ≡ thrown (text "Database not open")
  unfolding execute
  execute-none d sql e = rw (e, execute) refl

  close-db : (d : Database S) → (close sqlite d).db ≡ none
  unfolding close
  close-db d = elim (Option-cases (d.db)) [
    | inl e ↦ ap (λ r. r.db) (close-none d e) ∙ e
    | inr (c, e) ↦ rw (e, close) refl
  ]

  -- A closed object is not open, closing it again does nothing, and a statement on it throws.
  pub close-closed :
      (d : Database S) (sql : Text)
      → (is_open sqlite (close sqlite d) ≡ false)
        × (close sqlite (close sqlite d) ≡ close sqlite d)
        × ((execute sqlite (close sqlite d) sql).1 ≡ thrown (text "Database not open"))
  close-closed d sql =
      let closed = close-db d in
      (
        is_open-none (close sqlite d) closed,
        close-none (close sqlite d) closed,
        execute-none (close sqlite d) sql closed,
      )
