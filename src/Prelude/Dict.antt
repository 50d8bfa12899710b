-- ===== src/Prelude/Dict.antt =====
-- Python's `dict` with text keys, in insertion order: assigning an existing key keeps its place.
use Prim.Native.String.{String}
use mathlib.Core.Bool.{Bool, true, false}
use mathlib.Core.List.{List, [], ◌∷◌}
use mathlib.Core.Option.{Option, none, some}
use mathlib.Core.Path.{◌≡◌, refl, subst}
use native.Mathlib.Omega.{arith}
use text.Mathlib.Text.{◌==◌ as str_eq}
use text.Mathlib.TextEquality.{eq_iff}
use mathlib.Core.Logic.{inl, inr}
use text.Mathlib.TextPositions.{eq_refl}
use minicode_agent_runtime.Prelude.Lists.{All}
use minicode_agent_runtime.Prelude.Text.{contains, Distinct, str_eq_comm}
use minicode_agent_runtime.Prelude.Tests.{if◌then◌else◌, Bool-cases}

abbrev pub Dict {ℓ} : Type ℓ → Type ℓ
Dict V = List (String × V)

module _ {ℓ} {V : Type ℓ} where
  -- d.get(k)
  unfoldable pub get : Dict V → String → Option V
  get [] k = none
  get ((j, v) ∷ d) k = if str_eq j k then some v else get d k

  -- d[k] = v
  unfoldable pub put : Dict V → String → V → Dict V
  put [] k v = (k, v) ∷ []
  put ((j, w) ∷ d) k v = if str_eq j k then (j, v) ∷ d else (j, w) ∷ put d k v

  -- d.pop(k, None)
  unfoldable pub pop : Dict V → String → Dict V
  pop [] k = []
  pop ((j, v) ∷ d) k = let rest = pop d k in if str_eq j k then rest else (j, v) ∷ rest

  -- k in d
  abbrev pub has : Dict V → String → Bool
  has d k = elim (get d k) [ none ↦ false | some _ ↦ true ]

  abbrev pub values : Dict V → List V
  values [] = []
  values ((k, v) ∷ d) = v ∷ values d

  abbrev pub keys : Dict V → List String
  keys [] = []
  keys ((k, v) ∷ d) = k ∷ keys d

  pub get-put :
      (d : Dict V) (k j : String) (v : V)
      → get (put d k v) j ≡ (if str_eq k j then some v else get d j)
  unfolding get put
  get-put [] k j v = refl
  get-put ((i, w) ∷ d) k j v = ground (arith, eq_iff k j, eq_iff i k, eq_iff i j, get-put d k j v)

  pub get-pop :
      (d : Dict V) (k j : String) → get (pop d k) j ≡ (if str_eq k j then none else get d j)
  unfolding get pop
  get-pop [] k j = ground arith
  get-pop ((i, w) ∷ d) k j = ground (arith, eq_iff k j, eq_iff i k, eq_iff i j, get-pop d k j)

pub ruleset dict_laws = (get-put, get-pop)

-- A key that is not among the keys has no value, and conversely.
module _ {ℓ} {V : Type ℓ} where
  contains-keys-put :
      (d : Dict V) (k j : String) (v : V)
      → contains (keys d) j ≡ false
      → str_eq k j ≡ false
      → contains (keys (put d k v)) j ≡ false
  unfolding put
  contains-keys-put [] k j v h e = rw e
  contains-keys-put ((i, w) ∷ d) k j v h e =
      ground (arith, contains-keys-put d k j v, eq_iff i k, eq_iff i j, eq_iff k j)

  pub put-Distinct :
      (d : Dict V) (k : String) (v : V) → Distinct (keys d) → Distinct (keys (put d k v))
  unfolding put
  put-Distinct [] k v h = (refl, tt)
  put-Distinct ((i, w) ∷ d) k v h = elim (Bool-cases (str_eq i k)) [
    | inl e ↦ rw e h
    | inr e ↦ rw e (contains-keys-put d k i v h.0 (str_eq_comm i k e), put-Distinct d k v h.1)
  ]

  contains-keys-pop :
      (d : Dict V) (k j : String)
      → contains (keys d) j ≡ false
      → contains (keys (pop d k)) j ≡ false
  unfolding pop
  contains-keys-pop [] k j h = refl
  contains-keys-pop ((i, w) ∷ d) k j h = ground (arith, contains-keys-pop d k j)

  pub pop-Distinct : (d : Dict V) (k : String) → Distinct (keys d) → Distinct (keys (pop d k))
  unfolding pop
  pop-Distinct [] k h = tt
  pop-Distinct ((i, w) ∷ d) k h = elim (Bool-cases (str_eq i k)) [
    | inl e ↦ rw e (pop-Distinct d k h.1)
    | inr e ↦ rw e (contains-keys-pop d k i h.0, pop-Distinct d k h.1)
  ]

some_inj {ℓ} : {A : Type ℓ} (a b : A) → some a ≡ some b → a ≡ b
some_inj a b h = cc

-- A property of every entry is kept by an assignment of an entry that has it, and by `pop`.
module _ {ℓ κ} {V : Type ℓ} (P : String × V → Type κ) where
  pub All-put :
      (d : Dict V) (k : String) (v : V)
      → ((j : String) → str_eq j k ≡ true → P (j, v))
      → All P d
      → All P (put d k v)
  unfolding put
  All-put [] k v p h = (p k (eq_refl k), tt)
  All-put ((i, w) ∷ d) k v p h = elim (Bool-cases (str_eq i k)) [
    | inl e ↦ rw e (p i e, h.1)
    | inr e ↦ rw e (h.0, All-put d k v p h.1)
  ]

  pub All-pop : (d : Dict V) (k : String) → All P d → All P (pop d k)
  unfolding pop
  All-pop [] k h = tt
  All-pop ((i, w) ∷ d) k h = elim (Bool-cases (str_eq i k)) [
    | inl e ↦ rw e (All-pop d k h.1)
    | inr e ↦ rw e (h.0, All-pop d k h.1)
  ]

  -- What is found under a key has the property, under the key as it stands in the dict.
  pub All-get :
      (d : Dict V) (k : String) (v : V)
      → get d k ≡ some v
      → All P d
      → (j : String) × (str_eq j k ≡ true) × P (j, v)
  unfolding get
  All-get [] k v e h = absurd (cc e)
  All-get ((i, w) ∷ d) k v e h = elim (Bool-cases (str_eq i k)) [
    | inl q ↦ (i, q, subst (λ (u : V). P (i, u)) (some_inj w v (rw (q, get) at e)) h.0)
    | inr q ↦ All-get d k v (rw (q, get) at e) h.1
  ]
