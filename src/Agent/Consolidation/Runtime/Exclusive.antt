-- ===== src/Agent/Consolidation/Runtime/Exclusive.antt =====
-- agent/looping/ports.py: interleaved consolidations of several sessions.
use Prim.Native.String.{String}
use minicode_agent_runtime.Prelude.{
  ℕ, Bool, true, false, if◌then◌else◌, List, [], ◌∷◌, ◌≡◌, refl, sym, ap, ◌∙◌, ◌&&◌, ◌||◌, not,
  keep, contains, Distinct, str_eq, eq_iff, Bool-cases, inl, inr, arith,
}
use minicode_agent_runtime.Session.{Session}
use minicode_agent_runtime.Agent.Consolidation.Runtime.{
  Consolidating, mark_manual_start, mark_end, schedule_consolidation,
}

-- The set, and the sessions of the consolidations that run, of whatever kind
pub record Locks : Type 0 where
  pub consolidating : Consolidating
  pub running : List String

-- A consolidation starts if its key was free.
abbrev pub begun : String → Bool × Consolidating → Locks → Locks
begun key (true, set) locks = record { consolidating = set; running = key ∷ locks.running }
begun key (false, set) locks = record locks { consolidating = set }

-- A turn that may start one in the background, a manual start, and the end of one that runs, with
-- or without an exception
pub data LockStep (Any : Type 0) (keep_count : ℕ) : Locks → Locks → Type 0 where
  scheduled :
      (session : Session Any) (key : String) (s : Locks)
      → LockStep Any keep_count s
          (begun key (schedule_consolidation keep_count session key s.consolidating) s)
  manual :
      (key : String) (s : Locks)
      → LockStep Any keep_count s (begun key (mark_manual_start key s.consolidating) s)
  ended :
      (key : String) (s : Locks)
      → contains s.running key ≡ true
      → LockStep Any keep_count s (record {
        consolidating = mark_end key s.consolidating;
        running = keep (λ (k : String). not (str_eq k key)) s.running;
      })

pub data Reach (Any : Type 0) (keep_count : ℕ) (s : Locks) : Locks → Type 0 where
  here : Reach Any keep_count s s
  next :
      {t u : Locks}
      → Reach Any keep_count s t
      → LockStep Any keep_count t u
      → Reach Any keep_count s u

abbrev pub unlocked : Locks
unlocked = record { consolidating = []; running = [] }

-- No session is consolidated twice at a time, and the set has exactly those that are.
pub record IsExclusive (s : Locks) : Type 0 where
  pub once : Distinct s.running
  pub exact : (k : String) → contains s.consolidating k ≡ contains s.running k

pub contains-keep :
    (key k : String) (xs : List String)
    → contains (keep (λ (x : String). not (str_eq x key)) xs) k
      ≡ (contains xs k && not (str_eq k key))
contains-keep key k [] = refl
contains-keep key k (x ∷ xs) =
    ground (arith, eq_iff x key, eq_iff k key, eq_iff x k, contains-keep key k xs)

keep-Distinct :
    (key : String) (xs : List String)
    → Distinct xs
    → Distinct (keep (λ (x : String). not (str_eq x key)) xs)
keep-Distinct key [] d = tt
keep-Distinct key (x ∷ xs) d = elim (Bool-cases (str_eq x key)) [
  | inl e ↦ rw e (keep-Distinct key xs d.1)
  | inr e ↦ rw e (rw (contains-keep key x xs) (ground (arith, d.0)), keep-Distinct key xs d.1)
]

start-IsExclusive :
    (key : String) (s : Locks)
    → IsExclusive s
    → contains s.consolidating key ≡ false
    → IsExclusive (record { consolidating = key ∷ s.consolidating; running = key ∷ s.running })
start-IsExclusive key s x free = record {
  once = (sym (x.exact key) ∙ free, x.once);
  exact = λ k. ap (λ b. str_eq key k || b) (x.exact k);
}

guarded-IsExclusive :
    (key : String) (s : Locks) (ready : Bool)
    → IsExclusive s
    → IsExclusive (
        begun key
          (if ready && not (contains s.consolidating key)
            then (true, key ∷ s.consolidating)
            else (false, s.consolidating))
          s)
guarded-IsExclusive key s false x = x
guarded-IsExclusive key s true x = elim (Bool-cases (contains s.consolidating key)) [
  | inl e ↦ rw e x
  | inr e ↦ rw e (start-IsExclusive key s x e)
]

LockStep-IsExclusive :
    {Any : Type 0} {keep_count : ℕ} {s t : Locks}
    → LockStep Any keep_count s t
    → IsExclusive s
    → IsExclusive t
unfolding mark_manual_start schedule_consolidation mark_end
LockStep-IsExclusive (scheduled session key s) x = guarded-IsExclusive key s _ x
LockStep-IsExclusive (manual key s) x = elim (Bool-cases (contains s.consolidating key)) [
  | inl e ↦ rw e x
  | inr e ↦ rw e (start-IsExclusive key s x e)
]
LockStep-IsExclusive (ended key s runs) x = record {
  once = keep-Distinct key s.running x.once;
  exact = λ k.
      contains-keep key k s.consolidating
      ∙ ap (λ b. b && not (str_eq k key)) (x.exact k)
      ∙ sym (contains-keep key k s.running);
}

-- In any interleaving of turns that may schedule a consolidation, of manual starts, and of ends of
-- running ones, no session is consolidated twice at a time, and the set of the scheduler holds
-- exactly the sessions that are.
pub Reach-IsExclusive :
    {Any : Type 0} {keep_count : ℕ} {s : Locks} → Reach Any keep_count unlocked s → IsExclusive s
Reach-IsExclusive here = record { once = tt; exact = λ k. refl }
Reach-IsExclusive (next r step) = LockStep-IsExclusive step (Reach-IsExclusive r)
