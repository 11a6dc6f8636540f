-- ===== src/Core/Pool/Counter.antt =====
-- The unprotected counter of a round (`success_count` in src/core/Pool.cpp).
use mathlib.Core.List.{append-nil}
use code_tribunal.Prelude.{
  ℕ, zero, suc, ◌+◌, ◌≤◌, ◌≡◌, refl, ◌∙◌, ap, ◌⊎◌, inl, inr, List, [], ◌∷◌, ◌++◌, length, replicate,
  arith,
}
use code_tribunal.Core.Pool.{Phase, start, loaded, stored, race_step, race, join, success_count}

abbrev stores : List Phase → ℕ
stores [] = 0
stores (stored ∷ ps) = suc (stores ps)
stores (start ∷ ps) = stores ps
stores (loaded v ∷ ps) = stores ps

-- No thread has loaded more than `d`.
abbrev LoadsAtMost : ℕ → List Phase → Type 0
LoadsAtMost d [] = Unit {0}
LoadsAtMost d (loaded v ∷ ps) = (v ≤ d) × LoadsAtMost d ps
LoadsAtMost d (start ∷ ps) = LoadsAtMost d ps
LoadsAtMost d (stored ∷ ps) = LoadsAtMost d ps

LoadsAtMost-mono : (d e : ℕ) (ps : List Phase) → d ≤ e → LoadsAtMost d ps → LoadsAtMost e ps
LoadsAtMost-mono d e [] h l = tt
LoadsAtMost-mono d e (loaded v ∷ ps) h l = (omega arith, LoadsAtMost-mono d e ps h l.1)
LoadsAtMost-mono d e (start ∷ ps) h l = LoadsAtMost-mono d e ps h l
LoadsAtMost-mono d e (stored ∷ ps) h l = LoadsAtMost-mono d e ps h l

-- With `d` stores made elsewhere, the counter is at most the stores made, and at least 1 after one.
record IsCounted (d : ℕ) (ps : List Phase) (c : ℕ) : Type 0 where
  most : c ≤ d + stores ps
  least : (d + stores ps ≡ 0) ⊎ (1 ≤ c)
  loads : LoadsAtMost (d + stores ps) ps

race_step-stores : (t : ℕ) (ps : List Phase) (c : ℕ) → stores ps ≤ stores (race_step t ps c).0
unfolding race_step
race_step-stores t [] c = omega arith
race_step-stores zero (start ∷ ps) c = omega arith
race_step-stores zero (loaded v ∷ ps) c = omega arith
race_step-stores zero (stored ∷ ps) c = omega arith
race_step-stores (suc t) (start ∷ ps) c = race_step-stores t ps c
race_step-stores (suc t) (loaded v ∷ ps) c = race_step-stores t ps c
race_step-stores (suc t) (stored ∷ ps) c = omega (arith, race_step-stores t ps c)

-- A thread that has stored counts as a store made elsewhere.
shift : (d : ℕ) (ps : List Phase) (c : ℕ) → IsCounted d (stored ∷ ps) c → IsCounted (suc d) ps c
shift d ps c v = record {
  most = omega (arith, v.most);
  least = elim v.least [ inl e ↦ absurd (omega (arith, e)) | inr h ↦ inr h ];
  loads = LoadsAtMost-mono _ (suc d + stores ps) ps (omega arith) v.loads;
}

shift_back :
    (d : ℕ) (ps : List Phase) (c : ℕ) → IsCounted (suc d) ps c → IsCounted d (stored ∷ ps) c
shift_back d ps c v = record {
  most = omega (arith, v.most);
  least = elim v.least [ inl e ↦ absurd (omega (arith, e)) | inr h ↦ inr h ];
  loads = LoadsAtMost-mono (suc d + stores ps) _ ps (omega arith) v.loads;
}

race_step-IsCounted :
    (t d : ℕ) (ps : List Phase) (c : ℕ)
    → IsCounted d ps c
    → IsCounted d (race_step t ps c).0 (race_step t ps c).1
unfolding race_step
race_step-IsCounted t d [] c v = v
race_step-IsCounted zero d (start ∷ ps) c v = record {
  most = v.most;
  least = v.least;
  loads = (v.most, v.loads);
}
race_step-IsCounted zero d (loaded w ∷ ps) c v = record {
  most = omega (arith, v.loads.0);
  least = inr (omega arith);
  loads = LoadsAtMost-mono (d + stores ps) (d + suc (stores ps)) ps (omega arith) v.loads.1;
}
race_step-IsCounted zero d (stored ∷ ps) c v = v
race_step-IsCounted (suc t) d (start ∷ ps) c v =
    let ih =
      race_step-IsCounted t d ps c (record { most = v.most; least = v.least; loads = v.loads }) in
    record { most = ih.most; least = ih.least; loads = ih.loads }
race_step-IsCounted (suc t) d (loaded w ∷ ps) c v =
    let ih =
      race_step-IsCounted t d ps c (record { most = v.most; least = v.least; loads = v.loads.1 }) in
    record {
      most = ih.most;
      least = ih.least;
      loads = (omega (arith, v.loads.0, race_step-stores t ps c), ih.loads);
    }
race_step-IsCounted (suc t) d (stored ∷ ps) c v =
    shift_back d (race_step t ps c).0 (race_step t ps c).1
      (race_step-IsCounted t (suc d) ps c (shift d ps c v))

race_step-length : (t : ℕ) (ps : List Phase) (c : ℕ) → length (race_step t ps c).0 ≡ length ps
unfolding race_step
race_step-length t [] c = refl
race_step-length zero (p ∷ ps) c = refl
race_step-length (suc t) (p ∷ ps) c = omega (arith, race_step-length t ps c)

race-IsCounted :
    (s : List ℕ) (ps : List Phase) (c : ℕ)
    → IsCounted 0 ps c
    → IsCounted 0 (race s ps c).0 (race s ps c).1
unfolding race
race-IsCounted [] ps c v = v
race-IsCounted (t ∷ s) ps c v = race-IsCounted s _ _ (race_step-IsCounted t 0 ps c v)

race-length : (s : List ℕ) (ps : List Phase) (c : ℕ) → length (race s ps c).0 ≡ length ps
unfolding race
race-length [] ps c = refl
race-length (t ∷ s) ps c = race-length s _ _ ∙ race_step-length t ps c

-- Joining runs each thread that is left to its store.
join_bounds :
    (d : ℕ) (ps : List Phase) (c : ℕ)
    → IsCounted d ps c
    → (join ps c ≤ d + length ps) × ((d + length ps ≡ 0) ⊎ (1 ≤ join ps c))
unfolding join
join_bounds d [] c v = (v.most, v.least)
join_bounds d (start ∷ ps) c v = omega (
  arith,
  join_bounds (suc d) ps (suc c) (record {
    most = omega (arith, v.most);
    least = inr (omega arith);
    loads = LoadsAtMost-mono (d + stores ps) (suc d + stores ps) ps (omega arith) v.loads;
  }),
)
join_bounds d (loaded w ∷ ps) c v = omega (
  arith,
  join_bounds (suc d) ps (suc w) (record {
    most = omega (arith, v.loads.0);
    least = inr (omega arith);
    loads = LoadsAtMost-mono (d + stores ps) (suc d + stores ps) ps (omega arith) v.loads.1;
  }),
)
join_bounds d (stored ∷ ps) c v = omega (arith, join_bounds (suc d) ps c (shift d ps c v))

starts : (k : ℕ) → (stores (replicate k start) ≡ 0) × (length (replicate k start) ≡ k)
starts zero = (refl, refl)
starts (suc k) = ((starts k).0, omega (arith, (starts k).1))

starts-LoadsAtMost : (d k : ℕ) → LoadsAtMost d (replicate k start)
starts-LoadsAtMost d zero = tt
starts-LoadsAtMost d (suc k) = starts-LoadsAtMost d k

-- Whatever the schedule, `k` increments leave the counter at most at `k`, and at 1 or more if there
-- is an increment at all: a round with a success is never taken for a failed one.
pub success_count_bounds :
    (schedule : List ℕ) (k : ℕ)
    → (success_count schedule k ≤ k) × ((k ≡ 0) ⊎ (1 ≤ success_count schedule k))
unfolding success_count
success_count_bounds schedule k =
    let counted = race-IsCounted schedule (replicate k start) 0 (record {
      most = omega arith;
      least = inl (omega (arith, (starts k).0));
      loads = starts-LoadsAtMost _ k;
    }) in
    let bounds = join_bounds 0 _ _ counted in
    let same = race-length schedule (replicate k start) 0 in
    (omega (arith, bounds.0, same, (starts k).1), omega (arith, bounds.1, same, (starts k).1))

-- Every thread of a round loads before any of them stores.
abbrev pub all_load : ℕ → List ℕ
all_load zero = []
all_load (suc k) = k ∷ all_load k

load_last :
    (k : ℕ) (ps : List Phase)
    → race_step k (start ∷ (replicate k start ++ ps)) 0 ≡ (replicate k start ++ loaded 0 ∷ ps, 0)
unfolding race_step
load_last zero ps = refl
load_last (suc k) ps = cc (load_last k ps)

replicate_shift :
    (k : ℕ) (p : Phase) (ps : List Phase) → replicate k p ++ p ∷ ps ≡ p ∷ (replicate k p ++ ps)
replicate_shift zero p ps = refl
replicate_shift (suc k) p ps = ap (◌∷◌ p) (replicate_shift k p ps)

race-all_load :
    (k : ℕ) (ps : List Phase)
    → race (all_load k) (replicate k start ++ ps) 0 ≡ (replicate k (loaded 0) ++ ps, 0)
unfolding race
race-all_load zero ps = refl
race-all_load (suc k) ps =
    rw (load_last k ps, race)
      (rw (race-all_load k (loaded 0 ∷ ps), replicate_shift k (loaded 0) ps))

join-loaded : (k c : ℕ) → join (replicate (suc k) (loaded 0)) c ≡ 1
unfolding join
join-loaded zero c = refl
join-loaded (suc k) c = join-loaded k 1

-- The counter may lose updates: for any number of successes from 1 on there is a schedule after
-- which it is 1.
pub success_count_lost : (k : ℕ) → 1 ≤ k → (schedule : List ℕ) × (success_count schedule k ≡ 1)
unfolding success_count
success_count_lost zero h = absurd (omega arith)
success_count_lost (suc k) h = (
  all_load (suc k),
  rw (← append-nil (replicate (suc k) start), race-all_load (suc k) [])
      (rw append-nil (join-loaded k 0)),
)

join-starts : (k c : ℕ) → join (replicate k start) c ≡ c + k
unfolding join
join-starts zero c = omega arith
join-starts (suc k) c = omega (arith, join-starts k (suc c))

-- With one thread after the other the counter is exact.
pub success_count_sequential : (k : ℕ) → success_count [] k ≡ k
unfolding success_count
success_count_sequential k = omega (arith, join-starts k 0)
