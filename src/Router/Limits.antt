-- ===== src/Router/Limits.antt =====
-- The token bucket of agent/provider_router.py: how many requests it lets through.
use minicode_agent_runtime.Prelude.{
  ℕ, true, false, ◌≡◌, ◌≤◌, ◌-◌, ◌*◌, ◌+◌, List, [], ◌∷◌, if◌then◌else◌, arith, leb, Bool-cases,
  inl, leb→le, inr, ap, ◌∙◌, ◌↔◌, leb→lt,
}
use minicode_agent_runtime.Router.{TokenBucket, acquire, refilled, token, one_rpm}

-- The requests that pass in a run of `acquire(1)` at the given instants.
unfoldable pub granted : List ℕ → TokenBucket → ℕ
granted [] b = 0
granted (now ∷ later) b =
    let (passed, b') = acquire now 1 b in
    let rest = granted later b' in if passed then rest + 1 else rest

-- The instants do not go back, and none is after `last`.
abbrev pub Ascends : ℕ → ℕ → List ℕ → Type 0
Ascends from last [] = from ≤ last
Ascends from last (now ∷ later) = (from ≤ now) × Ascends now last later

Ascends-le : (from last : ℕ) (ts : List ℕ) → Ascends from last ts → from ≤ last
Ascends-le from last [] h = h
Ascends-le from last (now ∷ later) h = omega (arith, h.0, Ascends-le now last later h.1)

split_span :
    (u now last r : ℕ) → u ≤ now → now ≤ last → (last - u) * r ≡ (last - now) * r + (now - u) * r
split_span u now last r h k = ap (λ (x : ℕ). x * r) (sum_span) ∙ grind arith
  where
    sum_span : last - u ≡ (last - now) + (now - u)
    sum_span = omega (arith, h, k)

refilled-le : (now : ℕ) (b : TokenBucket) → refilled now b ≤ b.tokens + (now - b.updated) * b.rate
unfolding refilled
refilled-le now b = omega arith

acquire-granted :
    (now : ℕ) (b : TokenBucket)
    → leb (1 * token) (refilled now b) ≡ true
    → acquire now 1 b ≡ (true, record b { tokens = refilled now b - 1 * token; updated = now })
unfolding acquire
acquire-granted now b e = rw e

acquire-refused :
    (now : ℕ) (b : TokenBucket)
    → leb (1 * token) (refilled now b) ≡ false
    → acquire now 1 b ≡ (false, record b { tokens = refilled now b; updated = now })
unfolding acquire
acquire-refused now b e = rw e

-- However the requests of one token are timed, as long as the instants do not go back, those that
-- a TokenBucket lets through until an instant cost no more tokens than it held at the start and
-- gained until then.
pub granted-le :
    (ts : List ℕ) (last : ℕ) (b : TokenBucket)
    → Ascends b.updated last ts
    → granted ts b * token ≤ b.tokens + (last - b.updated) * b.rate
unfolding granted
granted-le [] last b h = omega arith
granted-le (now ∷ later) last b h = elim (Bool-cases (leb (1 * token) (refilled now b))) [
  | inl e ↦ rw (acquire-granted now b e) (
      omega (
        arith,
        granted-le later last (record b { tokens = refilled now b - 1 * token; updated = now }) h.1,
        refilled-le now b,
        split_span b.updated now last b.rate h.0 (Ascends-le now last later h.1),
        leb→le (1 * token) (refilled now b) e,
      ))
  | inr e ↦ rw (acquire-refused now b e) (
      omega (
        arith,
        granted-le later last (record b { tokens = refilled now b; updated = now }) h.1,
        refilled-le now b,
        split_span b.updated now last b.rate h.0 (Ascends-le now last later h.1),
      ))
]

-- acquire(1) succeeds exactly when the rate of the bucket is at least one request per minute and
-- the tokens held and gained since the last call make a whole one; a bucket of a positive rate
-- below one never lets a request through.
pub acquire-passes_iff :
    (now : ℕ) (b : TokenBucket)
    → ((acquire now 1 b).0 ≡ true)
      ↔ ((one_rpm ≤ b.rate) × (token ≤ b.tokens + (now - b.updated) * b.rate))
acquire-passes_iff now b = elim (Bool-cases (leb (1 * token) (refilled now b))) [
  | inl e ↦ rw (acquire-granted now b e) (
    λ _. unfold refilled in (omega (arith, leb→le _ _ e), omega (arith, leb→le _ _ e)),
    λ _ i. true,
  )
  | inr e ↦
      rw (acquire-refused now b e)
        (λ q. absurd (cc q), λ q. absurd (unfold refilled in omega (arith, q.0, q.1, leb→lt _ _ e)))
]
