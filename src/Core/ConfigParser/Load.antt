-- ===== src/Core/ConfigParser/Load.antt =====
-- What loading a configuration does with the lines of the file and with the variables of the system
-- (src/core/ConfigParser.cpp).
use code_tribunal.Prelude.{
  ◌≡◌, ◌≢◌, refl, sym, subst, ap, ◌∙◌, none, some, List, [], ◌∷◌, ◌++◌, Text, text, text_eq,
  is_empty, Bool-cases, inl, inr, Option-cases,
}
use code_tribunal.Prelude.Stoi.{stoi}
use code_tribunal.Core.Types.{Configuration, default_configuration}
use code_tribunal.Core.ConfigParser.{
  parse_line, set_config_value, apply_line, read_lines, Environment, first_filled, or_empty,
  read_claude_cli_credentials, apply_env_overrides, load,
}

read_lines_step :
    (config config' : Configuration) (x : Text) (xs : List Text)
    → apply_line config (parse_line x) ≡ some config'
    → read_lines config (x ∷ xs) ≡ read_lines config' xs
unfolding read_lines
read_lines_step config config' x xs e = rw (e, read_lines) refl

read_lines_stop :
    (config : Configuration) (x : Text) (xs : List Text)
    → apply_line config (parse_line x) ≡ none
    → read_lines config (x ∷ xs) ≡ none
unfolding read_lines
read_lines_stop config x xs e = rw (e, read_lines) refl

some_eq {ℓ} : {A : Type ℓ} (a b : A) → some a ≡ some b → a ≡ b
some_eq a b e = ap (λ o. elim o [ none ↦ a | some x ↦ x ]) e

none_some {ℓ κ} : {A : Type ℓ} {P : Type κ} (a : A) → none ≡ some a → P
none_some a e = absurd (subst (λ o. elim o as (λ o. Type 0) [ none ↦ Unit {0} | some x ↦ ⊥ ]) e tt)

read_lines_nil : (config : Configuration) → read_lines config [] ≡ some config
unfolding read_lines
read_lines_nil config = refl

-- The lines of a file are read one after the other.
read_lines-append :
    (config config' : Configuration) (xs ys : List Text)
    → read_lines config xs ≡ some config'
    → read_lines config (xs ++ ys) ≡ read_lines config' ys
read_lines-append config config' [] ys h =
    ap (λ c. read_lines c ys) (some_eq config config' (sym (read_lines_nil config) ∙ h))
read_lines-append config config' (x ∷ xs) ys h =
    elim (Option-cases (apply_line config (parse_line x))) [
      | inl e ↦ none_some config' (sym (read_lines_stop config x xs e) ∙ h)
      | inr (c, e) ↦
          (read_lines_step config c x (xs ++ ys) e
            ∙ read_lines-append c config' xs ys (sym (read_lines_step config c x xs e) ∙ h))
    ]

rounds_throws :
    (config : Configuration) (value : Text)
    → stoi 10 value ≡ none
    → apply_line config (some (text "rounds", value)) ≡ none
unfolding apply_line set_config_value text_eq
rounds_throws config value h = rw h refl

-- Loading throws when a line of the file gives `rounds` a value that `std::stoi` does not accept, even
-- though the lines before it are readable: the load is not one that never fails.
pub load-throws :
    (env : Environment) (path line value : Text) (before after : List Text) (config : Configuration)
    → env.read_file path ≡ some (before ++ line ∷ after)
    → read_lines default_configuration before ≡ some config
    → parse_line line ≡ some (text "rounds", value)
    → stoi 10 value ≡ none
    → load env path ≡ none
unfolding load
load-throws env path line value before after config f b l v =
    let stops =
      read_lines-append default_configuration config before (line ∷ after) b
      ∙ read_lines_stop config line after
          (ap (apply_line config) l ∙ rounds_throws config value v) in
    rw (f, load) (rw stops refl)

-- A first value that is filled is taken.
first_filled_head : (t : Text) (ts : List Text) → t ≢ [] → first_filled (t ∷ ts) ≡ t
unfolding first_filled
first_filled_head [] ts h = absurd (h refl)
first_filled_head (x ∷ t) ts h = refl

-- A Claude key that the configuration file sets is never replaced, whatever variables and credentials
-- the environment holds: the environment does not take precedence.
pub apply_env_overrides-claude_api_key :
    (env : Environment) (config : Configuration)
    → config.claude_api_key ≢ []
    → (apply_env_overrides env config).claude_api_key ≡ config.claude_api_key
unfolding apply_env_overrides
apply_env_overrides-claude_api_key env config h =
    first_filled_head (config.claude_api_key)
      (or_empty (env.getenv (text "CLAUDE_API_KEY"))
        ∷ or_empty (env.getenv (text "ANTHROPIC_API_KEY"))
        ∷ read_claude_cli_credentials env
        ∷ [])
      h

first_filled_twice :
    (t : Text) (ts : List Text) → first_filled (first_filled (t ∷ ts) ∷ ts) ≡ first_filled (t ∷ ts)
unfolding first_filled
first_filled_twice [] ts = elim (Bool-cases (is_empty (first_filled ts))) [
  | inl e ↦ rw e refl
  | inr e ↦ rw e refl
]
first_filled_twice (x ∷ t) ts = refl

-- Applying the overrides a second time changes nothing.
pub apply_env_overrides-apply_env_overrides :
    (env : Environment) (config : Configuration)
    → apply_env_overrides env (apply_env_overrides env config) ≡ apply_env_overrides env config
unfolding apply_env_overrides
apply_env_overrides-apply_env_overrides env config =
    rw
      (
        first_filled_twice (config.claude_api_key),
        first_filled_twice (config.google_agy_api_key),
        first_filled_twice (config.google_agy_model),
        first_filled_twice (config.google_agy_endpoint),
      )
      refl
