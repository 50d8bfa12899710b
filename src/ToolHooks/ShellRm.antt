-- ===== src/ToolHooks/ShellRm.antt =====
-- agent/tool_hooks/builtin.py: `ShellRmToRestoreHook`, which turns `rm` into `mv` to a folder.
--
-- `shlex.split` and `shlex.join` are parameters (`split` is none where Python raises ValueError).
-- Paths are those of POSIX.
pub mod Rewrite
use Prim.Native.Char.{Char, code}
use Prim.Native.String.{◌∷◌ as cons_text}
use minicode_agent_runtime.Prelude.{
  ℕ, String, Bool, true, false, Option, none, some, List, [], ◌∷◌, ◌++◌, truthy, or_text, strip,
  str_eq, not, ◌&&◌, ◌||◌, ◌==◌, keep, if◌then◌else◌, ◌≡◌,
}
use minicode_agent_runtime.Prelude.Dict.{Dict, get, put}
use minicode_agent_runtime.ToolHooks.{
  HookContext, HookOutcome, pre_tool_use, pass, ok, Call, ToolHook, Result, raised,
}

-- `c in s`
unfoldable pub has_char : ℕ → String → Bool
has_char n String.[] = false
has_char n (String.◌∷◌ c s) = code c == n || has_char n s

-- `s.startswith("-")`
unfoldable pub starts_with_dash : String → Bool
starts_with_dash String.[] = false
starts_with_dash (String.◌∷◌ c s) = code c == b'-'

push : Char → List String → List String
push c [] = cons_text c "" ∷ []
push c (p ∷ ps) = cons_text c p ∷ ps

-- `s.split("/")`
split_path : String → List String
unfolding push
split_path String.[] = "" ∷ []
split_path (String.◌∷◌ c s) =
    let rest = split_path s in if code c == b'/' then "" ∷ rest else push c rest

last_or_empty : List String → String
last_or_empty [] = ""
last_or_empty (p ∷ []) = p
last_or_empty (p ∷ q ∷ ps) = last_or_empty (q ∷ ps)

-- `Path(s).name`: the last component that is neither empty nor "."
unfoldable pub path_name : String → String
unfolding split_path last_or_empty
path_name s = last_or_empty (keep (λ p. not (str_eq p "" || str_eq p ".")) (split_path s))

unfoldable pub is_rm : String → Bool
unfolding path_name
is_rm token = str_eq (path_name token) "rm"

-- A token that may stand before `rm`.
unfoldable pub is_prefix : String → Bool
unfolding has_char
is_prefix token = str_eq token "sudo" || str_eq token "env" || has_char b'=' token

-- An option of `rm`, "--" included.
unfoldable pub is_option : String → Bool
unfolding starts_with_dash
is_option token = starts_with_dash token && not (str_eq token "-")

-- The first loop: the prefix, and the tokens behind `rm`.
unfoldable pub scan_prefix : List String → Option (List String × List String)
scan_prefix [] = none
scan_prefix (token ∷ tokens) =
    let rest : Option (List String × List String) = elim (scan_prefix tokens) [
      | none ↦ none
      | some (prefix, args) ↦ some (token ∷ prefix, args)
    ] in
    if is_rm token then some ([], tokens) else if is_prefix token then rest else none

-- The second loop: the targets; the flag is `parsing_options`.
unfoldable pub collect_targets : Bool → List String → List String
collect_targets parsing [] = []
collect_targets false (token ∷ tokens) = token ∷ collect_targets false tokens
collect_targets true (token ∷ tokens) =
    let ended = collect_targets false tokens in
    let skipped = collect_targets true tokens in
    if str_eq token "--" then ended else if is_option token then skipped else token ∷ ended

-- `_rewrite_command` between `shlex.split` and `shlex.join`.
unfoldable pub rewrite_tokens : String → List String → Option (List String)
rewrite_tokens restore_dir tokens = elim (scan_prefix tokens) [
  | none ↦ none
  | some (prefix, args) ↦ elim (collect_targets true args) [
    | [] ↦ none
    | target ∷ targets ↦ some (prefix ++ ("mv" ∷ "--" ∷ (target ∷ targets) ++ restore_dir ∷ []))
  ]
]

module _ (split : String → Option (List String)) (join : List String → String) where
  -- `_rewrite_command`
  unfoldable pub rewrite_command : String → String → Option String
  rewrite_command restore_dir command = elim (split command) [
    | none ↦ none
    | some tokens ↦ elim (rewrite_tokens restore_dir tokens) [
      | none ↦ none
      | some parts ↦ some (join parts)
    ]
  ]

  -- `as_text` is `str(v or "")`, `text` makes a value of a text, `mkdir` makes the folder.
  module _ {Any W : Type 0} (as_text : Any → String) (text : String → Any)
      (mkdir : String → Call W (Unit {0})) (restore_dir : String) where
    command_of : HookContext Any → String
    command_of ctx = elim (get ctx.current_arguments "command") [
      | none ↦ strip ""
      | some v ↦ strip (as_text v)
    ]

    -- `bool(self._rewrite_command(command))`
    rm_matches : HookContext Any → Bool
    rm_matches ctx =
        str_eq ctx.request.tool_name "shell"
        && elim (rewrite_command restore_dir (command_of ctx)) [
          | none ↦ false
          | some rewritten ↦ truthy rewritten
        ]

    abbrev rm_outcome : Option (Dict Any) → HookOutcome Any
    rm_outcome input = record {
      decision = pass;
      updated_input = input;
      extra_message = "";
      reason = "";
    }

    after_mkdir : Dict Any → Result (Unit {0}) × W → Result (HookOutcome Any) × W
    after_mkdir updated (raised e, w) = (raised e, w)
    after_mkdir updated (ok _, w) = (ok (rm_outcome (some updated)), w)

    rm_run : HookContext Any → Call W (HookOutcome Any)
    rm_run ctx w =
        let rewritten : String = elim (rewrite_command restore_dir (command_of ctx)) [
          | none ↦ ""
          | some rewritten ↦ rewritten
        ] in
        if truthy rewritten
        then after_mkdir (put ctx.current_arguments "command" (text rewritten))
            (mkdir restore_dir w)
        else (ok (rm_outcome none), w)

    -- `ShellRmToRestoreHook`
    unfoldable pub shell_rm_to_restore : ToolHook Any W
    unfolding command_of rm_matches rm_run after_mkdir
    shell_rm_to_restore = record {
      name = "shell_rm_to_restore";
      event = pre_tool_use;
      matches = λ ctx w. (ok (rm_matches ctx), w);
      run = rm_run;
    }
