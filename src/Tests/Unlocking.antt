-- ===== src/Tests/Unlocking.antt =====
-- The tools a session used: samples and examples for agent/core/runtime_support.py.
use minicode_agent_runtime.Prelude.{String, ◌≡◌, refl, List, [], ◌∷◌}
use minicode_agent_runtime.Prelude.Dict.{get, put}
use minicode_agent_runtime.Tools.Discovery.{
  ToolDiscoveryState, update, get_preloaded, use_tools, touch, evict,
}

abbrev remembered : ToolDiscoveryState
remembered = record { unlocked = ("s", "a" ∷ "b" ∷ []) ∷ []; capacity = 2 }

abbrev used_tools : List String
used_tools = "c" ∷ "tool_search" ∷ "b" ∷ []

preloaded_used : get_preloaded (update "s" used_tools [] remembered) "s" ≡ "c" ∷ "b" ∷ []
unfolding get_preloaded update get put use_tools touch evict
preloaded_used = refl
