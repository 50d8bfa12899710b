-- ===== src/Prelude/Codes.antt =====
-- Texts that are read and written as files, as lists of code points: what the code uses of
-- Python's `str`, `splitlines` and text files.
use Prim.Native.Char.{code}
use Prim.Native.Nat.{ℕ, ◌+◌, ◌≤◌}
use Prim.Native.String.{String}
use mathlib.Core.Bool.{Bool, true, false, ◌&&◌, ◌||◌}
use mathlib.Core.List.{List, [], ◌∷◌, ◌++◌}
use mathlib.Core.Path.{◌≡◌, refl, ap, sym}
use mathlib.Core.Logic.{inl, inr}
use native.Mathlib.Omega.{arith}
use minicode_agent_runtime.Prelude.Tests.{leb, ◌==◌, if◌then◌else◌, Bool-cases}
use minicode_agent_runtime.Prelude.Text.{is_space}
use minicode_agent_runtime.Prelude.{◌∙◌}

abbrev pub Text : Type 0
Text = List ℕ

abbrev pub codes : String → Text
codes String.[] = []
codes (String.◌∷◌ c s) = code c ∷ codes s

-- `not s`
abbrev pub blank : Text → Bool
blank [] = true
blank (c ∷ s) = false

-- `s == t`
abbrev pub same_text : Text → Text → Bool
same_text [] [] = true
same_text [] (d ∷ t) = false
same_text (c ∷ s) [] = false
same_text (c ∷ s) (d ∷ t) = c == d && same_text s t

-- `t.startswith(s)`
abbrev pub starts : Text → Text → Bool
starts [] t = true
starts (c ∷ s) [] = false
starts (c ∷ s) (d ∷ t) = c == d && starts s t

-- `t.endswith(s)`
unfoldable pub ends : Text → Text → Bool
ends s [] = blank s
ends s (d ∷ t) = same_text s (d ∷ t) || ends s t

-- `s in t`
unfoldable pub within : Text → Text → Bool
within s [] = blank s
within s (d ∷ t) = starts s (d ∷ t) || within s t

unfoldable pub rstrip : Text → Text
rstrip [] = []
rstrip (c ∷ s) = let rest = rstrip s in if blank rest && is_space c then [] else c ∷ rest

unfoldable pub lstrip : Text → Text
lstrip [] = []
lstrip (c ∷ s) = let rest = lstrip s in if is_space c then rest else c ∷ s

-- `s.strip()`
unfoldable pub strip : Text → Text
unfolding rstrip lstrip
strip s = rstrip (lstrip s)

-- What ends a line for `splitlines`; 13 and 10 together are one end.
pub is_break : ℕ → Bool
is_break c = (leb 10 c && leb c 13) || (leb 28 c && leb c 30) || c == 133 || c == 8232 || c == 8233

abbrev pub put_first : ℕ → List Text → List Text
put_first c [] = (c ∷ []) ∷ []
put_first c (l ∷ ls) = (c ∷ l) ∷ ls

pub lines_from : Bool → Text → List Text
unfolding is_break
lines_from after_cr [] = []
lines_from after_cr (c ∷ s) =
    let rest = lines_from (c == 13) s in
    if c == 10 && after_cr then rest else if is_break c then [] ∷ rest else put_first c rest

-- `s.splitlines()`
unfoldable pub split_lines : Text → List Text
unfolding lines_from
split_lines s = lines_from false s

-- `"\n".join(lines)`
unfoldable pub join_lines : List Text → Text
join_lines [] = []
join_lines (l ∷ []) = l
join_lines (l ∷ l' ∷ ls) = l ++ 10 ∷ join_lines (l' ∷ ls)

pub read_from : Bool → Text → Text
read_from after_cr [] = []
read_from after_cr (c ∷ s) =
    let rest = read_from (c == 13) s in
    if c == 10 && after_cr then rest else (if c == 13 then 10 else c) ∷ rest

-- `read_text`: a text file is read with each end of line as "\n".
unfoldable pub read_text : Text → Text
unfolding read_from
read_text s = read_from false s

-- The number of bytes of a character in UTF-8
unfoldable pub utf8_size : Text → ℕ
utf8_size [] = 0
utf8_size (c ∷ s) =
    (if leb c 127 then 1 else if leb c 2047 then 2 else if leb c 65535 then 3 else 4) + utf8_size s

-- The last `limit` bytes, decoded with `errors="ignore"`: a character that is cut is left out.
unfoldable pub last_bytes : ℕ → Text → Text
unfolding utf8_size
last_bytes limit [] = []
last_bytes limit (c ∷ s) =
    let rest = last_bytes limit s in if leb (utf8_size (c ∷ s)) limit then c ∷ s else rest

-- The characters that are not white space.
unfoldable pub ink : Text → Text
ink [] = []
ink (c ∷ s) = let rest = ink s in if is_space c then rest else c ∷ rest

pub same_text_refl : (s : Text) → same_text s s ≡ true
same_text_refl [] = refl
same_text_refl (c ∷ s) = ground (arith, same_text_refl s)

pub eq_of_same_text : (s t : Text) → same_text s t ≡ true → s ≡ t
eq_of_same_text [] [] h = refl
eq_of_same_text [] (d ∷ t) h = cc
eq_of_same_text (c ∷ s) [] h = cc
eq_of_same_text (c ∷ s) (d ∷ t) h = ground (arith, eq_of_same_text s t)

pub starts-append : (s t : Text) → starts s (s ++ t) ≡ true
starts-append [] t = refl
starts-append (c ∷ s) t = ground (arith, starts-append s t)

pub within-append : (s t : Text) → within s (s ++ t) ≡ true
unfolding within
within-append [] [] = refl
within-append [] (d ∷ t) = refl
within-append (c ∷ s) t = rw (starts-append (c ∷ s) t) refl

-- What stands in the end of a text stands in the text.
pub within-append_right : (s a t : Text) → within s t ≡ true → within s (a ++ t) ≡ true
unfolding within
within-append_right s [] t h = h
within-append_right s (d ∷ a) t h = ground (arith, within-append_right s a t h)

pub ink-append : (s t : Text) → ink (s ++ t) ≡ ink s ++ ink t
unfolding ink
ink-append [] t = refl
ink-append (c ∷ s) t = elim (Bool-cases (is_space c)) [
  | inl e ↦ rw e (ink-append s t)
  | inr e ↦ rw e (ap (◌∷◌ c) (ink-append s t))
]

ink-keep_if :
    (c : ℕ) (r s : Text)
    → ink r ≡ ink s
    → ink (if blank r && is_space c then [] else c ∷ r) ≡ ink (c ∷ s)
unfolding ink
ink-keep_if c [] s h = ground (arith, h)
ink-keep_if c (d ∷ r) s h = rw h refl

pub ink-rstrip : (s : Text) → ink (rstrip s) ≡ ink s
unfolding rstrip
ink-rstrip [] = refl
ink-rstrip (c ∷ s) = ink-keep_if c (rstrip s) s (ink-rstrip s)

ink-lstrip : (s : Text) → ink (lstrip s) ≡ ink s
unfolding lstrip ink
ink-lstrip [] = refl
ink-lstrip (c ∷ s) = elim (Bool-cases (is_space c)) [
  | inl e ↦ rw e (ink-lstrip s)
  | inr e ↦ rw e (rw e refl)
]

pub ink-strip : (s : Text) → ink (strip s) ≡ ink s
unfolding strip
ink-strip s = ink-rstrip (lstrip s) ∙ ink-lstrip s

ink_of_blank : (s : Text) → blank s ≡ true → ink s ≡ []
unfolding ink
ink_of_blank [] h = refl
ink_of_blank (c ∷ s) h = cc

-- A text of white space has no ink.
pub ink_of_blank-strip : (s : Text) → blank (strip s) ≡ true → ink s ≡ []
ink_of_blank-strip s h = sym (ink-strip s) ∙ ink_of_blank (strip s) h

pub ink-read_from : (b : Bool) (s : Text) → ink (read_from b s) ≡ ink s
unfolding ink read_from is_space
ink-read_from b [] = refl
ink-read_from b (c ∷ s) = ground (arith, ink-read_from (c == 13) s)

pub ink-read_text : (s : Text) → ink (read_text s) ≡ ink s
unfolding read_text
ink-read_text s = ink-read_from false s

pub last_bytes_all : (limit : ℕ) (s : Text) → utf8_size s ≤ limit → last_bytes limit s ≡ s
unfolding last_bytes
last_bytes_all limit [] h = refl
last_bytes_all limit (c ∷ s) h = ground arith

pub ink-line : (s t : Text) → ink (rstrip s ++ 10 ∷ t) ≡ ink s ++ ink t
unfolding ink is_space
ink-line s t = ink-append (rstrip s) (10 ∷ t) ∙ ap (λ (l : Text). l ++ ink t) (ink-rstrip s)

-- What stands in the last bytes stands in the text.
pub within-of-last_bytes :
    (limit : ℕ) (s t : Text) → within s (last_bytes limit t) ≡ true → within s t ≡ true
unfolding within last_bytes
within-of-last_bytes limit s [] h = h
within-of-last_bytes limit s (c ∷ t) h = elim (Bool-cases (leb (utf8_size (c ∷ t)) limit)) [
  | inl e ↦ rw e at h
  | inr e ↦ within-append_right s (c ∷ []) t (within-of-last_bytes limit s t (rw e at h))
]
