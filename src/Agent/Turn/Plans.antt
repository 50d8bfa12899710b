-- ===== src/Agent/Turn/Plans.antt =====
-- agent/core/reasoner.py: the order of the attempts that `run_turn` plans.
use minicode_agent_runtime.Prelude.{
  map, ◌++◌, ℕ, true, false, zero, suc, ◌/◌, ◌*◌, ◌==◌, List, [], ◌∷◌, ◌≡◌, refl, ◌≤◌, arith,
}
use minicode_agent_runtime.Agent.Turn.{
  ContextTrimPlan, first_trim_plans, AttemptPlan, build_attempt_plans, all_in, last_trim_plan,
  same_key,
}

-- A plan drops no section less than the one before and keeps no more of the history, and it is not
-- the same.
abbrev Stricter : AttemptPlan → AttemptPlan → Type 0
Stricter p q =
    (all_in p.disabled_sections q.disabled_sections ≡ true)
    × (q.history_window ≤ p.history_window)
    × (same_key p q.disabled_sections q.history_window ≡ false)

-- Each is stricter than the one before; the last drops every section and the whole history.
abbrev pub Descends : List AttemptPlan → Type 0
Descends [] = Unit
Descends (p ∷ []) =
    (all_in last_trim_plan.drop_sections p.disabled_sections ≡ true) × (p.history_window ≡ 0)
Descends (p ∷ q ∷ ps) = Stricter p q × Descends (q ∷ ps)

-- The first attempt keeps every section and the whole history.
abbrev pub StartsFull : ℕ → List AttemptPlan → Type 0
StartsFull total [] = zero ≡ suc zero
StartsFull total (p ∷ ps) = (p.disabled_sections ≡ []) × (p.history_window ≡ total)

half_pos : (n : ℕ) → ((suc (suc n) * 1 / 2) == 0) ≡ false
half_pos n = ground arith

half_lt : (n : ℕ) → (suc (suc n) == (suc (suc n) * 1 / 2)) ≡ false
half_lt n = ground arith

no_window : (n : ℕ) → n * 0 / 2 ≡ 0
no_window n = omega arith

some_pos : (n : ℕ) → (suc (suc n) == 0) ≡ false
some_pos n = ground arith

-- The plans when a half of the history is less than the whole and more than nothing
abbrev long_plans : ℕ → List AttemptPlan
long_plans total =
    map
      (λ (t : ContextTrimPlan). record {
        name = t.name;
        disabled_sections = t.drop_sections;
        history_window = total;
      })
      (first_trim_plans ++ last_trim_plan ∷ [])
    ++ map
        (λ (window : ℕ). record {
          name = "trim_retrieved_memory_history";
          disabled_sections = last_trim_plan.drop_sections;
          history_window = window;
        })
        (total * 1 / 2 ∷ 0 ∷ [])

build_attempt_plans_long : (n : ℕ) → build_attempt_plans (suc (suc n)) ≡ long_plans (suc (suc n))
unfolding build_attempt_plans
build_attempt_plans_long n = rw (half_lt n, no_window (suc (suc n)), half_pos n, some_pos n) refl

long_plans-Descends : (n : ℕ) → Descends (long_plans (suc (suc n)))
long_plans-Descends n = (
  (refl, omega arith, refl),
  (
    (refl, omega arith, refl),
    (
      (refl, omega arith, refl),
      (
        (refl, omega arith, refl),
        ((refl, omega arith, half_lt n), ((refl, omega arith, half_pos n), (refl, refl))),
      ),
    ),
  ),
)

-- The first attempt of a turn drops no section and keeps the whole history; each later one drops
-- no section less and keeps no more of it than the one before, and is another; the last drops
-- every section and the whole history.
pub build_attempt_plans-Descends :
    (total : ℕ)
    → StartsFull total (build_attempt_plans total) × Descends (build_attempt_plans total)
unfolding build_attempt_plans
build_attempt_plans-Descends zero = (
  (refl, refl),
  (
    (refl, omega arith, refl),
    (
      (refl, omega arith, refl),
      ((refl, omega arith, refl), ((refl, omega arith, refl), (refl, refl))),
    ),
  ),
)
build_attempt_plans-Descends (suc zero) = (
  (refl, refl),
  (
    (refl, omega arith, refl),
    (
      (refl, omega arith, refl),
      (
        (refl, omega arith, refl),
        ((refl, omega arith, refl), ((refl, omega arith, refl), (refl, refl))),
      ),
    ),
  ),
)
build_attempt_plans-Descends (suc (suc n)) =
    rw (build_attempt_plans_long n) ((refl, refl), long_plans-Descends n)
