-- ===== src/Tests/ToolCalls.antt =====
-- Tool calls between hooks: samples and examples for agent/tool_hooks/.
use minicode_agent_runtime.Prelude.{
  ℕ, suc, String, true, false, ◌≡◌, refl, some, List, [], ◌∷◌, contains, strip,
}
use minicode_agent_runtime.ToolHooks.{
  pre_tool_use, post_tool_use, deny, passive, ToolExecutionRequest, ok, raised, ToolHook, success,
}
use minicode_agent_runtime.ToolHooks.Executor.{
  run_pre_hooks, pre_step, run_post_hooks, post_step, Invoker, execute, returned, empty_trail,
}
use minicode_agent_runtime.ToolHooks.Executor.Outcomes.{pre_phase, execute-success_iff}
use minicode_agent_runtime.ToolHooks.RiskGuard.{risk_guard, risk_of}
use minicode_agent_runtime.ToolHooks.ShellRm.{
  rewrite_tokens, is_rm, is_prefix, scan_prefix, is_option, collect_targets,
}
use minicode_agent_runtime.ToolHooks.ShellRm.Rewrite.{Rewrites, rewrite_tokens-Rewrites}

-- Values are texts, and the world counts what was done.
abbrev delete_file : ToolExecutionRequest String
delete_file = record {
  call_id = "1";
  tool_name = "delete_file";
  arguments = ("path", "a.txt") ∷ [];
  source = passive;
  tool_risk = " write ";
  session_key = "cli:1";
  channel = "cli";
  chat_id = "1";
  request_text = "";
}

abbrev same_text : String → String
same_text s = s

abbrev count_call : Invoker String ℕ
count_call name arguments w = (ok "done", suc w)

abbrev other_call : Invoker String ℕ
other_call name arguments w = (raised "no such tool", w)

abbrev observe_none : String → ℕ → ℕ
observe_none risk w = w

-- A hook whose `run` raises.
abbrev broken : ToolHook String ℕ
broken = record {
  name = "broken";
  event = post_tool_use;
  matches = λ ctx w. (ok true, w);
  run = λ ctx w. (raised "boom", w);
}

abbrev read_only_guard : ToolHook String ℕ
read_only_guard = risk_guard observe_none ("read-only" ∷ []) "denied"

refused_write : contains ("read-only" ∷ []) (risk_of delete_file) ≡ false
unfolding risk_of strip
refused_write = refl

-- The post hook that raises is only recorded.
broken_post_hook :
    ((execute same_text (broken ∷ []) delete_file count_call 0).0.status ≡ success)
    × ((execute same_text (broken ∷ []) delete_file count_call 0).1 ≡ 1)
unfolding execute run_pre_hooks pre_step run_post_hooks post_step
broken_post_hook = (refl, refl)

passed_pre :
    pre_phase (broken ∷ []) delete_file 0 ≡ returned "" delete_file.arguments (empty_trail []) 0
unfolding run_pre_hooks pre_step
passed_pre = refl

execute-success_iff_example :
    (execute same_text (broken ∷ []) delete_file count_call 0).0.status ≡ success
execute-success_iff_example =
    (execute-success_iff same_text (broken ∷ []) delete_file count_call 0).0.1
      (delete_file.arguments, empty_trail [], 0, "done", passed_pre, refl)

abbrev by_policy : String
by_policy = "denied: write"

denied_pre :
    pre_phase (read_only_guard ∷ broken ∷ []) delete_file 0
    ≡ returned by_policy delete_file.arguments
        (record {
          extra_messages = [];
          traces =
              record {
                hook_name = "tool_risk_guard";
                event = pre_tool_use;
                matched = true;
                decision = deny;
                reason = by_policy;
                extra_message = "";
              }
              ∷ [];
        })
        0
unfolding run_pre_hooks pre_step risk_guard risk_of strip
denied_pre = refl

abbrev rm_command : List String
rm_command = "sudo" ∷ "/bin/rm" ∷ "-rf" ∷ "foo" ∷ "bar" ∷ []

abbrev mv_command : List String
mv_command = "sudo" ∷ "mv" ∷ "--" ∷ "foo" ∷ "bar" ∷ "/restore" ∷ []

rm_rewritten : rewrite_tokens "/restore" rm_command ≡ some mv_command
unfolding rewrite_tokens scan_prefix collect_targets is_rm is_prefix is_option
rm_rewritten = refl

rewrite_tokens-Rewrites_example : Rewrites "/restore" rm_command mv_command
rewrite_tokens-Rewrites_example =
    rewrite_tokens-Rewrites "/restore" rm_command mv_command rm_rewritten

rm_facts :
    (is_prefix "sudo" ≡ true)
    × (is_rm "sudo" ≡ false)
    × (is_rm "/bin/rm" ≡ true)
    × (is_option "-rf" ≡ true)
    × (is_option "foo" ≡ false)
unfolding is_rm is_prefix is_option
rm_facts = (refl, refl, refl, refl, refl)
