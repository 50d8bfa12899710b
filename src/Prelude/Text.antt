-- ===== src/Prelude/Text.antt =====
-- What the code uses of Python's `str`: truth, `strip`, and membership in a collection of texts.
use Prim.Native.Char.{code}
use Prim.Native.Nat.{ℕ}
use Prim.Native.String.{String, ◌++◌ as str_append}
use text.Mathlib.TextLemmas.{append-eq-nil_iff}
use mathlib.Core.Logic.{inl, inr}
use minicode_agent_runtime.Prelude.Tests.{Bool-cases}
use mathlib.Core.Bool.{true}
use mathlib.Core.Bool.{Bool, false, ◌&&◌, ◌||◌, not}
use mathlib.Core.List.{List, [], ◌∷◌, ◌++◌}
use text.Mathlib.Text.{◌==◌ as str_eq}
use text.Mathlib.TextEquality.{eq_iff}
use mathlib.Core.Path.{◌≡◌, refl, ◌∙◌}
use native.Mathlib.Omega.{arith}
use minicode_agent_runtime.Prelude.Tests.{leb, ◌==◌, if◌then◌else◌}

-- `bool(s)`
abbrev pub truthy : String → Bool
truthy s = not (str_eq s "")

-- `s or d`
abbrev pub or_text : String → String → String
or_text s d = if str_eq s "" then d else s

-- The code points that `str.strip` removes.
unfoldable pub is_space : ℕ → Bool
is_space c =
    (leb 9 c && leb c 13)
    || (leb 28 c && leb c 32)
    || c == 133
    || c == 160
    || c == 5760
    || (leb 8192 c && leb c 8202)
    || c == 8232
    || c == 8233
    || c == 8239
    || c == 8287
    || c == 12288

module _ (drop : ℕ → Bool) where
  lstrip : String → String
  lstrip String.[] = String.[]
  lstrip (String.◌∷◌ c s) = let rest = lstrip s in if drop (code c) then rest else String.◌∷◌ c s

  rstrip : String → String
  rstrip String.[] = String.[]
  rstrip (String.◌∷◌ c s) =
      let rest = rstrip s in if str_eq rest "" && drop (code c) then "" else String.◌∷◌ c rest

-- `s.strip(chars)`, for the characters that `drop` names
unfoldable pub strip_by : (ℕ → Bool) → String → String
unfolding lstrip rstrip
strip_by drop s = rstrip drop (lstrip drop s)

-- `s.strip()`
unfoldable pub strip : String → String
unfolding strip_by is_space
strip s = strip_by is_space s

-- `x in xs`
abbrev pub contains : List String → String → Bool
contains [] x = false
contains (y ∷ ys) x = str_eq y x || contains ys x

pub eq_of_truthy : (s : String) → truthy s ≡ false → s ≡ ""
eq_of_truthy s h = ground (arith, eq_iff s "")

-- No text twice.
abbrev pub Distinct : List String → Type 0
Distinct [] = Unit
Distinct (x ∷ xs) = (contains xs x ≡ false) × Distinct xs

pub contains-snoc_ne :
    (x y : String) (xs : List String)
    → str_eq x y ≡ false
    → contains (xs ++ x ∷ []) y ≡ contains xs y
contains-snoc_ne x y [] e = rw e
contains-snoc_ne x y (z ∷ xs) e = ground (arith, contains-snoc_ne x y xs)

pub str_eq_comm : (x y : String) → str_eq x y ≡ false → str_eq y x ≡ false
str_eq_comm x y e = ground (arith, eq_iff x y, eq_iff y x)

pub snoc-Distinct :
    (x : String) (xs : List String) → contains xs x ≡ false → Distinct xs → Distinct (xs ++ x ∷ [])
snoc-Distinct x [] h d = (refl, tt)
snoc-Distinct x (y ∷ ys) h d = (
  contains-snoc_ne x y ys (str_eq_comm y x (ground arith)) ∙ d.0,
  snoc-Distinct x ys (ground arith) d.1,
)

pub truthy-append : (s t : String) → truthy s ≡ true → truthy (str_append s t) ≡ true
truthy-append s t h = elim (Bool-cases (str_eq (str_append s t) "")) [
  | inl e ↦ ground (arith, eq_iff s "", append-eq-nil_iff.0 ((eq_iff (str_append s t) "").0 e))
  | inr e ↦ rw e refl
]

-- `s or d` is not empty if `d` is not.
pub or_text-truthy : (s d : String) → truthy d ≡ true → truthy (or_text s d) ≡ true
or_text-truthy s d h = elim (Bool-cases (str_eq s "")) [ inl e ↦ rw e h | inr e ↦ rw (e, e) refl ]
