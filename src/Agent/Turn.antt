-- ===== src/Agent/Turn.antt =====
-- agent/core/reasoner.py and agent/prompting/budget.py: the attempts that `run_turn` plans.
pub mod Plans
pub mod Retry
use minicode_agent_runtime.Prelude.{
  ℕ, String, Bool, true, false, zero, suc, ◌+◌, ◌-◌, ◌*◌, ◌/◌, ltb, leb, ◌==◌, if◌then◌else◌, List,
  [], ◌∷◌, ◌++◌, contains, ◌&&◌, ◌||◌, length, drop,
}

-- `ContextTrimPlan`
pub record ContextTrimPlan : Type 0 where
  pub name : String
  pub drop_sections : List String

-- `DEFAULT_CONTEXT_TRIM_PLANS`, all but the last, and the last
abbrev pub first_trim_plans : List ContextTrimPlan
first_trim_plans =
    record { name = "full"; drop_sections = [] }
    ∷ record { name = "trim_skills_catalog"; drop_sections = "skills_catalog" ∷ [] }
    ∷ record { name = "trim_memes"; drop_sections = "skills_catalog" ∷ "memes" ∷ [] }
    ∷ record {
      name = "trim_long_term_memory";
      drop_sections = "skills_catalog" ∷ "memes" ∷ "long_term_memory" ∷ [];
    }
    ∷ []

abbrev pub last_trim_plan : ContextTrimPlan
last_trim_plan = record {
  name = "trim_retrieved_memory";
  drop_sections = "skills_catalog" ∷ "memes" ∷ "long_term_memory" ∷ "retrieved_memory" ∷ [];
}

-- An entry of `attempts`
pub record AttemptPlan : Type 0 where
  pub name : String
  pub disabled_sections : List String
  pub history_window : ℕ

-- `_SAFETY_RETRY_RATIOS` after the first, which is 1, in halves
abbrev pub retry_halves : List ℕ
retry_halves = 1 ∷ 0 ∷ []

abbrev pub all_in : List String → List String → Bool
all_in [] ys = true
all_in (x ∷ xs) ys = contains ys x && all_in xs ys

-- Two keys are the same: the same sections, and the same window.
abbrev pub same_key : AttemptPlan → List String → ℕ → Bool
same_key p sections window =
    all_in p.disabled_sections sections
    && all_in sections p.disabled_sections
    && p.history_window == window

abbrev pub is_seen : List AttemptPlan → List String → ℕ → Bool
is_seen [] sections window = false
is_seen (p ∷ ps) sections window = same_key p sections window || is_seen ps sections window

-- A plan after the others unless its key is among theirs
abbrev pub add_attempt : AttemptPlan → List AttemptPlan → List AttemptPlan
add_attempt p attempts =
    if is_seen attempts p.disabled_sections p.history_window then attempts else attempts ++ p ∷ []

abbrev pub trim_attempts : ℕ → List ContextTrimPlan → List AttemptPlan → List AttemptPlan
trim_attempts window [] attempts = attempts
trim_attempts window (t ∷ ts) attempts = trim_attempts window ts (
    add_attempt
      (record { name = t.name; disabled_sections = t.drop_sections; history_window = window })
      attempts)

abbrev pub history_attempts : ℕ → List ℕ → List AttemptPlan → List AttemptPlan
history_attempts total [] attempts = attempts
history_attempts total (h ∷ hs) attempts = history_attempts total hs (
    add_attempt
      (record {
        name = "trim_retrieved_memory_history";
        disabled_sections = last_trim_plan.drop_sections;
        history_window = total * h / 2;
      })
      attempts)

-- `_build_attempt_plans`; the keys seen are those of the attempts.
unfoldable pub build_attempt_plans : ℕ → List AttemptPlan
build_attempt_plans total =
    history_attempts total retry_halves
      (trim_attempts total (first_trim_plans ++ last_trim_plan ∷ []) [])

-- `_slice_history`
unfoldable pub slice_history {ℓ} : {A : Type ℓ} → List A → ℕ → List A
slice_history source_history window =
    if leb window 0
    then []
    else if leb (length source_history) window
    then source_history
    else drop (length source_history - window) source_history
