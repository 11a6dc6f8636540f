-- ===== src/Main/Arguments.antt =====
-- The command line (`parse_arguments` of src/main.cpp).
use code_tribunal.Prelude.{
  ◌≡◌, ◌≢◌, ◌⊎◌, refl, inl, inr, Option, none, some, List, [], ◌∷◌, Text, arith, Bool-cases,
}
use code_tribunal.Prelude.Int.{ℤ}
use code_tribunal.Prelude.Stoi.{stoi}
use code_tribunal.Main.{
  Options, no_options, split_models, set_models, set_rounds, Step, next, stop, raise, no_fuel,
  takes_value, set_value, set_alone, parse_from, with_query, parse_arguments,
}
use code_tribunal.Main.Commas.{split_models-joined}

set_models-ne-no_fuel : (opts : Options) (s : Text) → set_models opts (split_models s) ≢ no_fuel
set_models-ne-no_fuel opts s =
    let (names, split, _, _) = split_models-joined s in rw split (ground arith)

set_rounds-ne-no_fuel : (opts : Options) (o : Option ℤ) → set_rounds opts o ≢ no_fuel
set_rounds-ne-no_fuel opts none = ground arith
set_rounds-ne-no_fuel opts (some n) = ground arith

set_value-ne-no_fuel : (arg value : Text) (opts : Options) → set_value arg value opts ≢ no_fuel
unfolding set_value
set_value-ne-no_fuel arg value opts =
    ground (arith, set_models-ne-no_fuel opts value, set_rounds-ne-no_fuel opts (stoi 10 value))

set_alone-ne-no_fuel : (arg : Text) (opts : Options) → set_alone arg opts ≢ no_fuel
unfolding set_alone
set_alone-ne-no_fuel arg opts = ground arith

Step-cases :
    (s : Step) → s ≢ no_fuel → ((opts : Options) × (s ≡ next opts)) ⊎ ((s ≡ stop) ⊎ (s ≡ raise))
Step-cases (next opts) h = inl (opts, refl)
Step-cases stop h = inr (inl refl)
Step-cases raise h = inr (inr refl)
Step-cases no_fuel h = absurd (h refl)

parse_from-ne-no_fuel : (args : List Text) (opts : Options) → parse_from args opts ≢ no_fuel
unfolding parse_from
parse_from-ne-no_fuel [] opts = ground arith
parse_from-ne-no_fuel (arg ∷ []) opts = set_alone-ne-no_fuel arg opts
parse_from-ne-no_fuel (arg ∷ value ∷ args) opts = elim (Bool-cases (takes_value arg)) [
  | inl t ↦
      rw (t, parse_from)
        (elim (Step-cases (set_value arg value opts) (set_value-ne-no_fuel arg value opts)) [
          | inl (opts', e) ↦ rw (e, parse_from) (parse_from-ne-no_fuel args opts')
          | inr (inl e) ↦ rw (e, parse_from) (ground arith)
          | inr (inr e) ↦ rw (e, parse_from) (ground arith)
        ])
  | inr f ↦
      rw (f, parse_from)
        (elim (Step-cases (set_alone arg opts) (set_alone-ne-no_fuel arg opts)) [
          | inl (opts', e) ↦ rw (e, parse_from) (parse_from-ne-no_fuel (value ∷ args) opts')
          | inr (inl e) ↦ rw (e, parse_from) (ground arith)
          | inr (inr e) ↦ rw (e, parse_from) (ground arith)
        ])
]

with_query-ne-no_fuel : (s : Step) → s ≢ no_fuel → with_query s ≢ no_fuel
with_query-ne-no_fuel (next opts) h = ground arith
with_query-ne-no_fuel stop h = ground arith
with_query-ne-no_fuel raise h = ground arith
with_query-ne-no_fuel no_fuel h = absurd (h refl)

-- The command line is always read to an end: for any arguments, the loop over the names after
-- `--models` never runs out of its fuel.
pub parse_arguments-ne-no_fuel : (args : List Text) → parse_arguments args ≢ no_fuel
unfolding parse_arguments
parse_arguments-ne-no_fuel args =
    with_query-ne-no_fuel (parse_from args no_options) (parse_from-ne-no_fuel args no_options)
