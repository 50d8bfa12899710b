-- ===== src/Router/Dispatch/Turns.antt =====
-- agent/provider_router.py: the turns of the round robin.
use mathlib.Core.List.{Perm, perm_append_comm}
use native.Mathlib.Nat.{mod-add-mod, mod-lt, mod-eq_of_lt}
use minicode_agent_runtime.Prelude.{
  ℕ, ◌≡◌, ◌<◌, refl, List, [], ◌∷◌, ◌++◌, Option, none, some, arith, length, take, drop, suc, ◌%◌,
  ◌+◌, get_elem?, take-append-drop, ◌∙◌, ap, sym, subst,
}
use minicode_agent_runtime.Router.{ModelRoute, round_robin, ModelRouter, State}
use minicode_agent_runtime.Router.Dispatch.{select, hinted, select_by}
use Prim.Native.Nat.{zero}

-- The state after `n` selections by turns.
unfoldable pub after_turns : {W : Type 0} → ℕ → ModelRouter → State W → State W
after_turns zero m s = s
after_turns (suc n) m s = after_turns n m (select m round_robin none s).1

abbrev pub first : {A : Type 0} → List A → Option A
first [] = none
first (x ∷ xs) = some x

mod_suc : (a k n : ℕ) → 0 < n → (((a + 1) % n) + k) % n ≡ (a + suc k) % n
mod_suc a k n h = mod-add-mod (a + 1) n k ∙ ap (λ (x : ℕ). x % n) (omega arith)

first-drop :
    {A : Type 0} (i : ℕ) (xs ys : List A) → i < length xs → first (drop i xs ++ ys) ≡ get_elem? xs i
first-drop i [] ys h = absurd (omega (arith, h))
first-drop zero (x ∷ xs) ys h = refl
first-drop (suc i) (x ∷ xs) ys h = first-drop i xs ys (omega (arith, h))

after_turns-rr :
    {W : Type 0} (k : ℕ) (m : ModelRouter) (s : State W)
    → s.rr < length m.routes
    → (after_turns k m s).rr ≡ (s.rr + k) % length m.routes
unfolding after_turns select hinted select_by
after_turns-rr zero m s h = sym (mod-eq_of_lt h) ∙ ap (λ (x : ℕ). x % length m.routes) (omega arith)
after_turns-rr (suc k) m s h =
    after_turns-rr k m (select m round_robin none s).1 (mod-lt (s.rr + 1) (omega (arith, h)))
    ∙ mod_suc s.rr k (length m.routes) (omega (arith, h))

-- From a turn within the routes, after k selections by round robin the next one begins with the
-- route k places further on, cyclically, and its candidates are all the routes.
pub select-turns :
    {W : Type 0} (k : ℕ) (m : ModelRouter) (s : State W)
    → s.rr < length m.routes
    → let candidates = (select m round_robin none (after_turns k m s)).0 in
      (first candidates ≡ get_elem? m.routes ((s.rr + k) % length m.routes))
      × Perm candidates m.routes
unfolding select hinted select_by
select-turns k m s h =
    let i = (after_turns k m s).rr in
    (
      first-drop (after_turns k m s).rr m.routes _
            (rw (after_turns-rr k m s h) (mod-lt (s.rr + k) (omega (arith, h))))
          ∙ ap (get_elem? m.routes) (after_turns-rr k m s h),
      subst (λ (l : List ModelRoute). Perm (drop i m.routes ++ take i m.routes) l)
          (take-append-drop i m.routes) (perm_append_comm (drop i m.routes) (take i m.routes)),
    )
