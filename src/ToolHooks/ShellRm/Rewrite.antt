-- ===== src/ToolHooks/ShellRm/Rewrite.antt =====
-- What `_rewrite_command` of agent/tool_hooks/builtin.py makes of the tokens of a command.
use minicode_agent_runtime.ToolHooks.ShellRm.{
  is_rm, is_prefix, is_option, scan_prefix, collect_targets, rewrite_tokens,
}
use minicode_agent_runtime.Prelude.{
  String, true, false, Option, none, some, List, [], ◌∷◌, ◌++◌, str_eq, All, ◌≡◌, ◌≢◌, refl, arith,
  Bool-cases, ◌⊎◌, inl, inr, ap, eq_iff, ◌∙◌,
}

-- A token that the first loop passes over.
abbrev pub IsPrefixToken : String → Type 0
IsPrefixToken token = (is_prefix token ≡ true) × (is_rm token ≡ false)

abbrev pub IsOptionToken : String → Type 0
IsOptionToken token = (is_option token ≡ true) × (str_eq token "--" ≡ false)

-- The options end at the target that follows: by one `--`, or because it is no option.
abbrev NoOption : List String → Type 0
NoOption [] = Unit
NoOption (target ∷ targets) = is_option target ≡ false

abbrev pub Ends : List String → List String → Type 0
Ends dashes targets = (dashes ≡ "--" ∷ []) ⊎ ((dashes ≡ []) × NoOption targets)

-- What the first loop returns: the tokens are the prefix, an `rm`, and its arguments.
abbrev ScanSpec : List String → Option (List String × List String) → Type 0
ScanSpec tokens none = Unit
ScanSpec tokens (some (prefix, args)) =
    (rm : String) × (tokens ≡ prefix ++ rm ∷ args) × (is_rm rm ≡ true) × All IsPrefixToken prefix

abbrev consed : String → Option (List String × List String) → Option (List String × List String)
consed token r = elim r [ none ↦ none | some (prefix, args) ↦ some (token ∷ prefix, args) ]

ScanSpec-consed :
    (token : String) (tokens : List String) (r : Option (List String × List String))
    → IsPrefixToken token
    → ScanSpec tokens r
    → ScanSpec (token ∷ tokens) (consed token r)
ScanSpec-consed token tokens none p h = tt
ScanSpec-consed token tokens (some (prefix, args)) p (rm, e, is, all) =
    (rm, ap (◌∷◌ token) e, is, (p, all))

scan_prefix-ScanSpec : (tokens : List String) → ScanSpec tokens (scan_prefix tokens)
unfolding scan_prefix
scan_prefix-ScanSpec [] = tt
scan_prefix-ScanSpec (token ∷ tokens) = elim (Bool-cases (is_rm token)) [
  | inl e ↦ rw e (token, refl, e, tt)
  | inr e ↦ elim (Bool-cases (is_prefix token)) [
    | inl f ↦
        rw (e, f)
          (ScanSpec-consed token tokens (scan_prefix tokens) (f, e) (scan_prefix-ScanSpec tokens))
    | inr f ↦ rw (e, f) tt
  ]
]

scan_prefix-append :
    (prefix : List String) (rm : String) (args : List String)
    → All IsPrefixToken prefix
    → is_rm rm ≡ true
    → scan_prefix (prefix ++ rm ∷ args) ≡ some (prefix, args)
unfolding scan_prefix
scan_prefix-append [] rm args all e = rw e
scan_prefix-append (token ∷ prefix) rm args (h, all) e =
    rw (h.1, h.0, scan_prefix-append prefix rm args all e)

collect_targets-ended : (tokens : List String) → collect_targets false tokens ≡ tokens
unfolding collect_targets
collect_targets-ended [] = refl
collect_targets-ended (token ∷ tokens) = rw (collect_targets-ended tokens)

dashes-IsOption : is_option "--" ≡ true
unfolding is_option
dashes-IsOption = refl

collect_targets-split :
    (args : List String)
    → (options : List String) × (dashes : List String) × (args
        ≡ options ++ dashes ++ collect_targets true args)
      × All IsOptionToken options
      × Ends dashes (collect_targets true args)
unfolding collect_targets
collect_targets-split [] = ([], [], refl, tt, inr (refl, tt))
collect_targets-split (token ∷ tokens) = elim (Bool-cases (str_eq token "--")) [
  | inl e ↦
      rw (e, collect_targets-ended)
        ([], token ∷ [], refl, tt, inl (ap (λ (t : String). t ∷ []) ((eq_iff token "--").0 e)))
  | inr e ↦ elim (Bool-cases (is_option token)) [
    | inl f ↦
        let (options, dashes, eq, all, ends) = collect_targets-split tokens in
        rw (e, f) (token ∷ options, dashes, ap (◌∷◌ token) eq, ((f, e), all), ends)
    | inr f ↦ rw (e, f, collect_targets-ended) ([], [], refl, tt, inr (refl, f))
  ]
]

collect_targets-append :
    (options : List String) (target : String) (targets : List String)
    → All IsOptionToken options
    → is_option target ≡ false
    → collect_targets true (options ++ target ∷ targets) ≡ target ∷ targets
unfolding collect_targets
collect_targets-append [] target targets all e = elim (Bool-cases (str_eq target "--")) [
  | inl f ↦ absurd (cc (dashes-IsOption, e, (eq_iff target "--").0 f))
  | inr f ↦ rw (f, e, collect_targets-ended)
]
collect_targets-append (option ∷ options) target targets (h, all) e =
    rw (h.1, h.0) (collect_targets-append options target targets all e)

-- The tokens are a prefix of `sudo`, `env` and assignments, an `rm`, options, and at least one
-- target, which one `--` or the absence of a dash sets off; the parts are the same prefix and the
-- move of these targets to the restore folder.
abbrev pub Rewrites : String → List String → List String → Type 0
Rewrites restore_dir tokens parts =
    (prefix : List String) × (rm : String) × (options : List String) × (dashes : List String)
    × (targets : List String) × (tokens ≡ prefix ++ (rm ∷ options ++ dashes ++ targets))
    × (parts ≡ prefix ++ ("mv" ∷ "--" ∷ targets ++ restore_dir ∷ []))
    × (is_rm rm ≡ true)
    × All IsPrefixToken prefix
    × All IsOptionToken options
    × Ends dashes targets
    × (targets ≢ [])

abbrev with_targets : String → List String → List String → Option (List String)
with_targets restore_dir prefix targets = elim targets [
  | [] ↦ none
  | t ∷ ts ↦ some (prefix ++ ("mv" ∷ "--" ∷ (t ∷ ts) ++ restore_dir ∷ []))
]

with_targets-eq :
    (restore_dir : String) (prefix targets parts : List String)
    → with_targets restore_dir prefix targets ≡ some parts
    → (parts ≡ prefix ++ ("mv" ∷ "--" ∷ targets ++ restore_dir ∷ [])) × (targets ≢ [])
with_targets-eq restore_dir prefix [] parts h = absurd (cc h)
with_targets-eq restore_dir prefix (t ∷ ts) parts h = (cc, λ e. cc e)

abbrev from_scan : String → Option (List String × List String) → Option (List String)
from_scan restore_dir none = none
from_scan restore_dir (some (prefix, args)) =
    with_targets restore_dir prefix (collect_targets true args)

from_scan-Rewrites :
    (restore_dir : String) (tokens : List String) (r : Option (List String × List String))
    (parts : List String)
    → ScanSpec tokens r
    → from_scan restore_dir r ≡ some parts
    → Rewrites restore_dir tokens parts
from_scan-Rewrites restore_dir tokens none parts s h = absurd (cc h)
from_scan-Rewrites restore_dir tokens (some (prefix, args)) parts (rm, e, is, all) h =
    let (options, dashes, split, opts, ends) = collect_targets-split args in
    let (eq, ne) = with_targets-eq restore_dir prefix (collect_targets true args) parts h in
    (
      prefix,
      rm,
      options,
      dashes,
      collect_targets true args,
      e ∙ ap (λ (a : List String). prefix ++ rm ∷ a) split,
      eq,
      is,
      all,
      opts,
      ends,
      ne,
    )

rewrite_tokens-from_scan :
    (restore_dir : String) (tokens : List String)
    → rewrite_tokens restore_dir tokens ≡ from_scan restore_dir (scan_prefix tokens)
unfolding rewrite_tokens
rewrite_tokens-from_scan restore_dir tokens = ground arith

-- A command is rewritten only if its tokens are a prefix of sudo, env and assignments, an rm,
-- options other than --, and then at least one target; between the options and the targets stands
-- one --, behind which a target may begin with a dash, or nothing, and then the first target is no
-- option. The new command is the prefix, mv --, all the targets in order, and the restore folder.
pub rewrite_tokens-Rewrites :
    (restore_dir : String) (tokens parts : List String)
    → rewrite_tokens restore_dir tokens ≡ some parts
    → Rewrites restore_dir tokens parts
rewrite_tokens-Rewrites restore_dir tokens parts h =
    from_scan-Rewrites restore_dir tokens (scan_prefix tokens) parts (scan_prefix-ScanSpec tokens)
      (rw rewrite_tokens-from_scan at h)

-- Every command made of such a prefix, an rm, options other than --, and targets of which the
-- first is no option is rewritten to a move of all its targets.
pub rewrite_tokens-rm :
    (restore_dir : String) (prefix : List String) (rm : String) (options : List String)
    (target : String) (targets : List String)
    → All IsPrefixToken prefix
    → is_rm rm ≡ true
    → All IsOptionToken options
    → is_option target ≡ false
    → rewrite_tokens restore_dir (prefix ++ (rm ∷ options ++ target ∷ targets))
      ≡ some (prefix ++ ("mv" ∷ "--" ∷ target ∷ targets ++ restore_dir ∷ []))
rewrite_tokens-rm restore_dir prefix rm options target targets p e o t = rw (
  rewrite_tokens-from_scan,
  scan_prefix-append prefix rm (options ++ target ∷ targets) p e,
  collect_targets-append options target targets o t,
)

mv_facts : (is_rm "mv" ≡ false) × (is_prefix "mv" ≡ false)
unfolding is_rm is_prefix
mv_facts = (refl, refl)

scan_prefix-mv :
    (prefix rest : List String)
    → All IsPrefixToken prefix
    → scan_prefix (prefix ++ "mv" ∷ rest) ≡ none
unfolding scan_prefix
scan_prefix-mv [] rest all = rw (mv_facts.0, mv_facts.1)
scan_prefix-mv (token ∷ prefix) rest (h, all) = rw (h.1, h.0, scan_prefix-mv prefix rest all)

-- What was rewritten is not rewritten again, whatever the restore folders.
pub rewrite_tokens-rewrite_tokens :
    (restore_dir other_dir : String) (tokens parts : List String)
    → rewrite_tokens restore_dir tokens ≡ some parts
    → rewrite_tokens other_dir parts ≡ none
rewrite_tokens-rewrite_tokens restore_dir other_dir tokens parts h =
    let (prefix, rm, options, dashes, targets, e, eq, is, all, opts, ends, ne) =
      rewrite_tokens-Rewrites restore_dir tokens parts h in
    rw (eq, rewrite_tokens-from_scan, scan_prefix-mv prefix _ all)
