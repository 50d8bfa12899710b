-- ===== src/Tools/Registry.antt =====
-- agent/tools/registry.py: `ToolRegistry`, over the keyword search.
use Prim.Native.String.{◌++◌ as str_append}
pub mod Agreement
use minicode_agent_runtime.Prelude.{
  ℕ, String, Bool, true, false, if◌then◌else◌, List, [], ◌∷◌, ◌++◌, Option, none, some, str_eq,
  contains, take, not, map, ◌&&◌, ◌||◌,
}
use minicode_agent_runtime.Prelude.Dict.{Dict, get, put, pop, has, keys, values}
use minicode_agent_runtime.ToolHooks.{Result, ok, raised, Call}
use minicode_agent_runtime.Tools.{ToolMeta, ToolDocument, Found, sort}
use minicode_agent_runtime.Tools.Search.{TextLib, add, remove, search_docs}

-- A tool: `execute` may raise; `Any` is what arguments, results and schemas are made of.
pub record Tool (Any W : Type 0) : Type 0 where
  pub name : String
  pub description : String
  pub schema : Any
  pub call : Dict Any → Call W Any

-- `backend` holds the documents of the `KeywordSearchBackend`.
pub record ToolRegistry (Any W : Type 0) : Type 0 where
  pub tools : Dict (Tool Any W)
  pub metadata : Dict ToolMeta
  pub documents : Dict ToolDocument
  pub context : Dict Any
  pub backend : Dict ToolDocument

-- `_META_TOOLS`
abbrev pub meta_tools : List String
meta_tools = "tool_search" ∷ []

-- `d.update(e)`; `{**d, **e}`
unfoldable pub update : {V : Type 0} → Dict V → Dict V → Dict V
update d [] = d
update d ((k, v) ∷ e) = update (put d k v) e

-- `d.setdefault(k, []).append(x)`
unfoldable pub append_at : Dict (List String) → String → String → Dict (List String)
append_at d k x = elim (get d k) [ none ↦ put d k (x ∷ []) | some xs ↦ put d k (xs ++ x ∷ []) ]

-- The deferred tools by source.
pub record Deferred : Type 0 where
  pub builtin : List String
  pub mcp : Dict (List String)

always_on_of : Dict ToolMeta → List String
always_on_of [] = []
always_on_of ((name, meta) ∷ metas) =
    let rest = always_on_of metas in if meta.always_on then name ∷ rest else rest

-- The loop of `get_deferred_names`
unfoldable pub group : List String → Dict ToolDocument → Deferred → Deferred
group excluded [] d = d
group excluded ((name, doc) ∷ docs) d =
    let next =
      if contains excluded name
      then d
      else (if str_eq doc.source_type "mcp"
          then record d { mcp = append_at d.mcp doc.source_name name }
          else record d { builtin = d.builtin ++ name ∷ [] }) in
    group excluded docs next

-- `before` is the order of texts.
sort_groups : (String → String → Bool) → Dict (List String) → Dict (List String)
sort_groups before d =
    map (λ (e : String × List String). (e.0, sort before e.1))
      (sort (λ (e f : String × List String). before e.0 f.0) d)

names_from : String → String → Dict ToolDocument → List String
names_from source_type source_name [] = []
names_from source_type source_name ((name, doc) ∷ docs) =
    let rest = names_from source_type source_name docs in
    if str_eq doc.source_type source_type && str_eq doc.source_name source_name
    then name ∷ rest
    else rest

module _ {Any W : Type 0} where
  -- `ToolDocument.from_tool_and_meta`
  unfoldable pub from_tool_and_meta : Tool Any W → ToolMeta → String → String → ToolDocument
  from_tool_and_meta tool meta source_type source_name = record {
    name = tool.name;
    description = tool.description;
    risk = meta.risk;
    always_on = meta.always_on;
    search_hint = meta.search_hint;
    source_type = source_type;
    source_name = source_name;
  }

  -- `ToolRegistry()`
  abbrev pub tool_registry : ToolRegistry Any W
  tool_registry = record { tools = []; metadata = []; documents = []; context = []; backend = [] }

  unfoldable pub set_context : Dict Any → ToolRegistry Any W → ToolRegistry Any W
  set_context given r = record r { context = update r.context given }

  unfoldable pub register :
      Tool Any W → ToolMeta → String → String → ToolRegistry Any W → ToolRegistry Any W
  register tool meta source_type source_name r =
      let doc = from_tool_and_meta tool meta source_type source_name in
      record {
        tools = put r.tools tool.name tool;
        metadata = put r.metadata tool.name meta;
        documents = put r.documents tool.name doc;
        context = r.context;
        backend = add r.backend doc;
      }

  unfoldable pub unregister : String → ToolRegistry Any W → ToolRegistry Any W
  unregister name r = record {
    tools = pop r.tools name;
    metadata = pop r.metadata name;
    documents = pop r.documents name;
    context = r.context;
    backend = remove r.backend name;
  }

  unfoldable pub has_tool : ToolRegistry Any W → String → Bool
  has_tool r name = has r.tools name

  unfoldable pub get_tool_risk : ToolRegistry Any W → String → String
  get_tool_risk r name = elim (get r.metadata name) [ none ↦ "read-only" | some meta ↦ meta.risk ]

  schemas_of : List String → Dict (Tool Any W) → List Any
  schemas_of names [] = []
  schemas_of names ((name, tool) ∷ tools) =
      let rest = schemas_of names tools in if contains names name then tool.schema ∷ rest else rest

  unfoldable pub get_schemas : ToolRegistry Any W → Option (List String) → List Any
  unfolding schemas_of
  get_schemas r none = map (λ (t : Tool Any W). t.schema) (values r.tools)
  get_schemas r (some names) = schemas_of names r.tools

  unfoldable pub get_always_on_names : ToolRegistry Any W → List String
  unfolding always_on_of
  get_always_on_names r = always_on_of r.metadata

  unfoldable pub get_deferred_names :
      (String → String → Bool) → ToolRegistry Any W → List String → Deferred
  unfolding sort_groups group
  get_deferred_names before r visible =
      let d =
        group (get_always_on_names r ++ meta_tools ++ visible) r.documents
          (record { builtin = []; mcp = [] }) in
      record { builtin = sort before d.builtin; mcp = sort_groups before d.mcp }

  -- `execute`; `text` makes a value of a text, and an exception of the tool becomes a text.
  unfoldable pub settle_call : (String → Any) → Result Any × W → Any × W
  settle_call text (ok a, w) = (a, w)
  settle_call text (raised e, w) = (text (str_append "工具执行出错: " e), w)

  unfoldable pub execute : (String → Any) → ToolRegistry Any W → String → Dict Any → W → Any × W
  unfolding settle_call
  execute text r name arguments w = elim (get r.tools name) [
    | none ↦ (text (str_append "工具 '" (str_append name "' 不存在")), w)
    | some tool ↦ settle_call text (tool.call (update r.context arguments) w)
  ]

  unfoldable pub get_tool_names_by_source : ToolRegistry Any W → String → String → List String
  unfolding names_from
  get_tool_names_by_source r source_type source_name =
      names_from source_type source_name r.documents

  -- `search`
  unfoldable pub search :
      TextLib → ToolRegistry Any W → String → ℕ → Option (List String) → List String → List Found
  search lib r query top_k risks excluded =
      search_docs lib r.backend query top_k risks (meta_tools ++ excluded)
