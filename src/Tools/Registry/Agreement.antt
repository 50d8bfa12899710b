-- ===== src/Tools/Registry/Agreement.antt =====
-- agent/tools/registry.py: the tables of a registry agree, and what a search finds in it.
use minicode_agent_runtime.Prelude.{
  ℕ, String, Bool, true, false, ◌≡◌, refl, List, [], ◌∷◌, ◌++◌, Option, none, some, All, subst, sym,
  ap, ◌∙◌, str_eq, eq_iff, if◌then◌else◌, Bool-cases, inl, inr,
}
use minicode_agent_runtime.Prelude.Dict.{
  Dict, get, put, pop, has, get-put, get-pop, All-put, All-pop,
}
use minicode_agent_runtime.Tools.{ToolMeta, ToolDocument}
use minicode_agent_runtime.Tools.Search.{TextLib, add, remove}
use minicode_agent_runtime.Tools.Search.Filters.{Named, Admitted, search_docs-Admitted}
use minicode_agent_runtime.Tools.Registry.{
  Tool, ToolRegistry, tool_registry, set_context, register, unregister, from_tool_and_meta,
  meta_tools, search,
}

-- The metadata that a document carries.
abbrev pub meta_in : Option ToolDocument → Option ToolMeta
meta_in none = none
meta_in (some d) =
    some (record { risk = d.risk; always_on = d.always_on; search_hint = d.search_hint })

-- The same tools in every table, each document under its own name and with the risk of the
-- metadata, and the search over the same documents.
pub record Agrees {Any W : Type 0} (r : ToolRegistry Any W) : Type 0 where
  pub indexed : r.backend ≡ r.documents
  pub named : Named r.documents
  pub tools : (k : String) → has r.tools k ≡ has r.documents k
  pub metadata : (k : String) → get r.metadata k ≡ meta_in (get r.documents k)

pub data Command (Any W : Type 0) : Type 0 where
  set : Dict Any → Command Any W
  enter : Tool Any W → ToolMeta → String → String → Command Any W
  leave : String → Command Any W

module _ {V : Type 0} where
  has-put :
      (d : Dict V) (k j : String) (v : V)
      → has (put d k v) j ≡ (if str_eq k j then true else has d j)
  has-put d k j v =
      ap (λ (o : Option V). elim o [ none ↦ false | some _ ↦ true ]) (get-put d k j v)
      ∙ elim (Bool-cases (str_eq k j)) [ inl e ↦ rw e refl | inr e ↦ rw e refl ]

  has-pop : (d : Dict V) (k j : String) → has (pop d k) j ≡ (if str_eq k j then false else has d j)
  has-pop d k j =
      ap (λ (o : Option V). elim o [ none ↦ false | some _ ↦ true ]) (get-pop d k j)
      ∙ elim (Bool-cases (str_eq k j)) [ inl e ↦ rw e refl | inr e ↦ rw e refl ]

module _ {Any W : Type 0} where
  unfoldable pub apply : Command Any W → ToolRegistry Any W → ToolRegistry Any W
  apply (set given) r = set_context given r
  apply (enter tool meta source_type source_name) r = register tool meta source_type source_name r
  apply (leave name) r = unregister name r

  unfoldable pub run : List (Command Any W) → ToolRegistry Any W → ToolRegistry Any W
  run [] r = r
  run (c ∷ cs) r = run cs (apply c r)

  register-Agrees :
      (tool : Tool Any W) (meta : ToolMeta) (source_type source_name : String)
      (r : ToolRegistry Any W)
      → Agrees r
      → Agrees (register tool meta source_type source_name r)
  unfolding register add from_tool_and_meta
  register-Agrees tool meta source_type source_name r h =
      let doc = from_tool_and_meta tool meta source_type source_name in
      record {
        indexed = ap (λ (d : Dict ToolDocument). put d tool.name doc) h.indexed;
        named =
            All-put (λ e. e.0 ≡ e.1.name) r.documents tool.name doc
              (λ j e. (eq_iff j tool.name).0 e) h.named;
        tools = λ k.
            has-put r.tools tool.name k tool
            ∙ ap (λ (b : Bool). if str_eq tool.name k then true else b) (h.tools k)
            ∙ sym (has-put r.documents tool.name k doc);
        metadata = λ k. elim (Bool-cases (str_eq tool.name k)) [
          | inl e ↦
              rw (get-put r.metadata tool.name k meta, get-put r.documents tool.name k doc)
                (rw e refl)
          | inr e ↦
              rw (get-put r.metadata tool.name k meta, get-put r.documents tool.name k doc)
                (rw e (h.metadata k))
        ];
      }

  unregister-Agrees :
      (name : String) (r : ToolRegistry Any W) → Agrees r → Agrees (unregister name r)
  unfolding unregister remove
  unregister-Agrees name r h = record {
    indexed = ap (λ (d : Dict ToolDocument). pop d name) h.indexed;
    named = All-pop (λ e. e.0 ≡ e.1.name) r.documents name h.named;
    tools = λ k.
        has-pop r.tools name k
        ∙ ap (λ (b : Bool). if str_eq name k then false else b) (h.tools k)
        ∙ sym (has-pop r.documents name k);
    metadata = λ k. elim (Bool-cases (str_eq name k)) [
      | inl e ↦ rw (get-pop r.metadata name k, get-pop r.documents name k) (rw e refl)
      | inr e ↦ rw (get-pop r.metadata name k, get-pop r.documents name k) (rw e (h.metadata k))
    ];
  }

  apply-Agrees : (c : Command Any W) (r : ToolRegistry Any W) → Agrees r → Agrees (apply c r)
  unfolding apply set_context
  apply-Agrees (set given) r h = record {
    indexed = h.indexed;
    named = h.named;
    tools = h.tools;
    metadata = h.metadata;
  }
  apply-Agrees (enter tool meta source_type source_name) r h =
      register-Agrees tool meta source_type source_name r h
  apply-Agrees (leave name) r h = unregister-Agrees name r h

  -- Every sequence of set_context, register and unregister keeps the tables of a registry in
  -- agreement: the same names are tools and documents, each document stands under its own name,
  -- its risk, always_on and hint are those of the metadata, and the search backend has exactly
  -- these documents.
  pub run-Agrees :
      (cs : List (Command Any W)) (r : ToolRegistry Any W) → Agrees r → Agrees (run cs r)
  unfolding run
  run-Agrees [] r h = h
  run-Agrees (c ∷ cs) r h = run-Agrees cs (apply c r) (apply-Agrees c r h)

  pub tool_registry-Agrees : Agrees (tool_registry {Any = Any} {W = W})
  unfolding get
  tool_registry-Agrees = record {
    indexed = refl;
    named = tt;
    tools = λ k. refl;
    metadata = λ k. refl;
  }

  -- In a registry that any sequence of registrations and removals has made, every item that a
  -- search returns is no meta tool, is not among the excluded names, and has a risk that the
  -- filter passes, by the fast path for an exact name as well as by keywords.
  pub search-Admitted :
      (lib : TextLib) (cs : List (Command Any W)) (query : String) (top_k : ℕ)
      (risks : Option (List String)) (excluded : List String)
      → All
          (Admitted lib risks (meta_tools ++ excluded))
          (search lib (run cs (tool_registry {Any = Any} {W = W})) query top_k risks excluded)
  unfolding search
  search-Admitted lib cs query top_k risks excluded =
      let h = run-Agrees cs (tool_registry {Any = Any} {W = W}) tool_registry-Agrees in
      search_docs-Admitted lib risks (meta_tools ++ excluded)
        (run cs (tool_registry {Any = Any} {W = W})).backend query top_k
        (subst Named (sym h.indexed) h.named)
