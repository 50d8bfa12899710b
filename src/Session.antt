-- ===== src/Session.antt =====
-- session/manager.py and session/store.py: the messages of a session, and their history as the
-- model reads it.
pub mod History
pub mod Store
pub mod Manager
use minicode_agent_runtime.Prelude.{ℕ, String, List, Option, some, none, [], ◌∷◌, ◌++◌}
use minicode_agent_runtime.Prelude.Dict.{Dict, get, put}
use minicode_agent_runtime.Agent.Reasoner.{Group}

-- A message of a session: the keys that the store has a column for, and the others in `extra`.
-- A message that was never written has no id and no seq.
pub record SessionMessage (Any : Type 0) : Type 0 where
  pub id : Option String
  pub seq : Option ℕ
  pub role : String
  pub content : String
  pub timestamp : Option String
  pub tool_chain : Option (List (Group Any))
  pub extra : Dict Any

-- `Session`; the metadata and the instants are values of the caller.
pub record Session (Any : Type 0) : Type 0 where
  pub key : String
  pub messages : List (SessionMessage Any)
  pub created_at : String
  pub updated_at : String
  pub metadata : Dict Any
  pub last_consolidated : ℕ

module _ {Any : Type 0} where
  -- `add_message`, with the instant in two formats and the value of the paths
  unfoldable pub add_message :
      (List String → Any)
      → (stamp now : String) → (role content : String) → List String
      → Option (List (Group Any))
      → Dict Any
      → Session Any
      → Session Any
  add_message paths stamp now role content [] tool_chain extra session = record session {
    messages =
        session.messages
        ++ record {
          id = none;
          seq = none;
          role = role;
          content = content;
          timestamp = some stamp;
          tool_chain = tool_chain;
          extra = extra;
        }
          ∷ [];
    updated_at = now;
  }
  add_message paths stamp now role content (p ∷ ps) tool_chain extra session = record session {
    messages =
        session.messages
        ++ record {
          id = none;
          seq = none;
          role = role;
          content = content;
          timestamp = some stamp;
          tool_chain = tool_chain;
          extra = put extra "media" (paths (p ∷ ps));
        }
          ∷ [];
    updated_at = now;
  }

  -- `clear`
  unfoldable pub clear : (now : String) → Session Any → Session Any
  clear now session = record session { messages = []; updated_at = now; last_consolidated = 0 }
