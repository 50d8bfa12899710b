-- ===== src/Tests/Catalogue.antt =====
-- The tool registry: samples and examples for agent/tools/registry.py and search_backend.py.
use minicode_agent_runtime.Prelude.{
  strip, ℕ, String, true, false, ◌≡◌, refl, List, [], ◌∷◌, none, some, str_eq, ◌+◌,
}
use minicode_agent_runtime.Prelude.Dict.{get, put, pop}
use minicode_agent_runtime.ToolHooks.{ok}
use minicode_agent_runtime.Tools.{sort, insert_sorted, ToolMeta, Found, sort}
use minicode_agent_runtime.Tools.Search.{
  cjk, distinct, risk_passes, score, score_keyword, exact, by_keywords, default_normalize,
  doc_to_result, add, TextLib, search_docs, add, remove, exact, by_keywords, default_normalize,
  distinct, risk_passes, score, score_keyword, cjk,
}
use minicode_agent_runtime.Tools.Registry.{
  Tool, tool_registry, search, register, from_tool_and_meta, unregister,
}
use minicode_agent_runtime.Tools.Registry.Agreement.{
  Command, enter, leave, run, Agrees, run-Agrees, tool_registry-Agrees, apply,
}

-- Texts in lower case without white space, as their own words and parts.
abbrev lib : TextLib
lib = record {
  lower = λ s. s;
  words = λ s. s ∷ [];
  segments = λ s. s ∷ [];
  parts = λ s. s ∷ [];
  within = str_eq;
  start = λ s. s;
  before = λ a b. true;
}

abbrev reader : Tool String ℕ
reader = record {
  name = "read";
  description = "reads";
  schema = "{}";
  call = λ arguments w. (ok "text", w + 1);
}

abbrev safe : ToolMeta
safe = record { risk = "read-only"; always_on = true; search_hint = none }

abbrev unsafe : ToolMeta
unsafe = record { risk = "write"; always_on = false; search_hint = some "edit" }

abbrev commands : List (Command String ℕ)
commands =
    enter reader safe "builtin" ""
    ∷ enter (record reader { name = "write" }) unsafe "builtin" ""
    ∷ enter (record reader { name = "tool_search" }) safe "builtin" ""
    ∷ leave "none"
    ∷ []

run-Agrees_example : Agrees (run commands tool_registry)
run-Agrees_example = run-Agrees commands tool_registry tool_registry-Agrees

abbrev names : List Found → List String
names [] = []
names (f ∷ fs) = f.name ∷ names fs

search_edit :
    names (search lib (run commands tool_registry) "edit" 5 (some ("write" ∷ [])) ("read" ∷ []))
    ≡ "write" ∷ []
unfolding search run apply register add from_tool_and_meta unregister remove search_docs exact
    by_keywords default_normalize get pop put strip distinct sort risk_passes score score_keyword
    cjk insert_sorted doc_to_result
search_edit = refl
