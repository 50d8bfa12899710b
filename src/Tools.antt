-- ===== src/Tools.antt =====
-- agent/tools: the registered tools and the search among them. Here is what both share.
pub mod Checkpoint
pub mod Discovery
pub mod Registry
pub mod Search
use minicode_agent_runtime.Prelude.{String, Bool, List, [], ◌∷◌, Option, if◌then◌else◌}

pub record ToolMeta : Type 0 where
  pub risk : String
  pub always_on : Bool
  pub search_hint : Option String

pub record ToolDocument : Type 0 where
  pub name : String
  pub description : String
  pub risk : String
  pub always_on : Bool
  pub search_hint : Option String
  pub source_type : String
  pub source_name : String

-- One item of a search's answer; `summary` is the start of the description.
pub record Found : Type 0 where
  pub name : String
  pub summary : String
  pub why_matched : List String
  pub risk : String
  pub always_on : Bool

-- A stable sort by an order that is given as a test.
unfoldable pub insert_sorted : {A : Type 0} → (A → A → Bool) → A → List A → List A
insert_sorted before x [] = x ∷ []
insert_sorted before x (y ∷ ys) =
    let rest = insert_sorted before x ys in if before x y then x ∷ y ∷ ys else y ∷ rest

unfoldable pub sort : {A : Type 0} → (A → A → Bool) → List A → List A
sort before [] = []
sort before (x ∷ xs) = insert_sorted before x (sort before xs)
