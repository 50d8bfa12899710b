-- ===== src/Tools/Discovery.antt =====
-- agent/core/runtime_support.py: `ToolDiscoveryState`, the tools that a session used last.
pub mod Recency
use minicode_agent_runtime.Prelude.{
  ℕ, String, Bool, true, false, ltb, if◌then◌else◌, List, [], ◌∷◌, ◌++◌, Option, none, some, length,
  contains, keep, not, str_eq,
}
use minicode_agent_runtime.Prelude.Dict.{Dict, get, put}

-- An `OrderedDict` whose values are None is the list of its keys, the oldest first.
pub record ToolDiscoveryState : Type 0 where
  pub unlocked : Dict (List String)
  pub capacity : ℕ

abbrev pub or_empty : Option (List String) → List String
or_empty none = []
or_empty (some names) = names

unfoldable pub get_preloaded : ToolDiscoveryState → String → List String
get_preloaded d session_key = or_empty (get d.unlocked session_key)

-- `move_to_end`, or a new key at the end
unfoldable pub touch : List String → String → List String
touch lru name =
    if contains lru name then keep (λ x. not (str_eq x name)) lru ++ name ∷ [] else lru ++ name ∷ []

-- `while len(lru) > capacity: lru.popitem(last=False)`
unfoldable pub evict : ℕ → List String → List String
evict capacity [] = []
evict capacity (x ∷ xs) =
    let rest = evict capacity xs in if ltb capacity (length (x ∷ xs)) then rest else x ∷ xs

-- The loop over the tools used; `skip` are those that are not noted.
unfoldable pub use_tools : ℕ → List String → List String → List String → List String
use_tools capacity skip [] lru = lru
use_tools capacity skip (name ∷ names) lru =
    use_tools capacity skip names
      (if contains skip name then lru else evict capacity (touch lru name))

-- `update`
unfoldable pub update : String → List String → List String → ToolDiscoveryState → ToolDiscoveryState
update session_key tools_used always_on d = record d {
  unlocked = put d.unlocked session_key (
      use_tools d.capacity (always_on ++ "tool_search" ∷ []) tools_used
        (get_preloaded d session_key));
}
