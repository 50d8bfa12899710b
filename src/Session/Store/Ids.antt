-- ===== src/Session/Store/Ids.antt =====
-- session/store.py: the id of a message, the key of its session and its number between a colon.
use Prim.Native.String.{◌++◌ as str_append}
use Prim.Native.Char.{Char, code}
use text.Mathlib.TextLemmas.{cons-append, nil-append, head-eq_of_cons-eq, tail-eq_of_cons-eq}
use minicode_agent_runtime.Prelude.{
  ℕ, String, Bool, true, false, ◌≡◌, refl, sym, ap, ◌∙◌, ◌==◌, ◌||◌, arith,
}
use minicode_agent_runtime.Session.Store.{message_id}

abbrev pub has_colon : String → Bool
has_colon String.[] = false
has_colon (String.◌∷◌ c s) = code c == 58 || has_colon s

colon-append : (a : String) → str_append ":" a ≡ String.◌∷◌ ":" a
colon-append a = cons-append ":" "" a ∙ ap (String.◌∷◌ ":") (nil-append a)

has_colon-append : (k a : String) → has_colon (str_append k (str_append ":" a)) ≡ true
has_colon-append String.[] a = rw (nil-append (str_append ":" a), colon-append a) refl
has_colon-append (String.◌∷◌ c k) a =
    rw (cons-append c k (str_append ":" a), has_colon-append k a) (ground arith)

-- What stands before the colon cannot reach into a text without one.
no_colon_ne :
    (c : Char) (k a b : String)
    → has_colon a ≡ false
    → String.◌∷◌ ":" a ≡ String.◌∷◌ c (str_append k (str_append ":" b))
    → true ≡ false
no_colon_ne c k a b ha e =
    sym (has_colon-append k b) ∙ ap has_colon (sym (tail-eq_of_cons-eq e)) ∙ ha

empty_key : (a : String) → str_append "" (str_append ":" a) ≡ String.◌∷◌ ":" a
empty_key a = nil-append (str_append ":" a) ∙ colon-append a

-- A text is split at its last colon in one way.
split_at_colon :
    (k k' a b : String)
    → has_colon a ≡ false
    → has_colon b ≡ false
    → str_append k (str_append ":" a) ≡ str_append k' (str_append ":" b)
    → (k ≡ k') × (a ≡ b)
split_at_colon String.[] String.[] a b ha hb e =
    (refl, tail-eq_of_cons-eq (sym (empty_key a) ∙ e ∙ empty_key b))
split_at_colon String.[] (String.◌∷◌ c k') a b ha hb e =
    absurd
      (cc (no_colon_ne c k' a b ha (sym (empty_key a) ∙ e ∙ cons-append c k' (str_append ":" b))))
split_at_colon (String.◌∷◌ c k) String.[] a b ha hb e =
    absurd
      (cc (no_colon_ne c k b a hb (sym (empty_key b) ∙ sym e ∙ cons-append c k (str_append ":" a))))
split_at_colon (String.◌∷◌ c k) (String.◌∷◌ d k') a b ha hb e =
    let e' = sym (cons-append c k (str_append ":" a)) ∙ e ∙ cons-append d k' (str_append ":" b) in
    let rest = split_at_colon k k' a b ha hb (tail-eq_of_cons-eq e') in
    (cc (head-eq_of_cons-eq e', rest.0), rest.1)

-- Two messages with one id have one session and one number, if the texts of numbers differ and have
-- no colon.
pub message_id-differ :
    (decimal : ℕ → String)
    → ((n : ℕ) → has_colon (decimal n) ≡ false)
    → ((n n' : ℕ) → decimal n ≡ decimal n' → n ≡ n')
    → (k k' : String) (n n' : ℕ) → message_id decimal k n ≡ message_id decimal k' n'
    → (k ≡ k') × (n ≡ n')
message_id-differ decimal plain differ k k' n n' e =
    let parts = split_at_colon k k' (decimal n) (decimal n') (plain n) (plain n') e in
    (parts.0, differ n n' parts.1)
