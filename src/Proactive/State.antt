-- ===== src/Proactive/State.antt =====
-- proactive_v2/state.py: `ProactiveStateStore`, its tables of marks. Instants are counted in a unit of
-- which `hour` make an hour; the ISO texts of instants in one time zone are in their order.
pub mod Tables
pub mod TickLog
pub mod Recent
use minicode_agent_runtime.Prelude.{
  ℕ, String, Bool, true, false, zero, suc, ◌+◌, ◌-◌, ◌*◌, max, ltb, leb, ◌==◌, if◌then◌else◌, List,
  [], ◌∷◌, ◌++◌, Option, none, some, str_eq, truthy, strip, strip_by, keep, not, ◌&&◌, ◌||◌, length,
  take, map,
}
use minicode_agent_runtime.Prelude.Dict.{Dict, get, put}
use minicode_agent_runtime.Tools.{sort}
use Prim.Native.Char.{code}
use text.Mathlib.Text.{starts_with}

-- A microsecond is the unit.
abbrev pub hour : ℕ
hour = 3600000000

-- A row of `seen_items`, `deliveries` or `rejection_cooldown`: two keys and an instant
pub record Mark : Type 0 where
  pub owner : String
  pub item : String
  pub at : ℕ

-- A row of `semantic_items`
pub record SemanticItem : Type 0 where
  pub source_key : String
  pub item_id : String
  pub text : String
  pub ts : ℕ

-- The tables; `session_state` and `kv_state` hold instants under names.
pub record ProactiveState : Type 0 where
  pub seen_items : List Mark
  pub deliveries : List Mark
  pub rejections : List Mark
  pub semantic_items : List SemanticItem
  pub context_only : List (String × ℕ)
  pub session_state : List Mark
  pub kv_state : Dict ℕ

abbrev pub empty_state : ProactiveState
empty_state = record {
  seen_items = [];
  deliveries = [];
  rejections = [];
  semantic_items = [];
  context_only = [];
  session_state = [];
  kv_state = [];
}

abbrev pub same_keys : Mark → String → String → Bool
same_keys m owner item = str_eq m.owner owner && str_eq m.item item

-- SELECT ... WHERE both keys are given
abbrev pub find_mark : List Mark → String → String → Option ℕ
find_mark [] owner item = none
find_mark (m ∷ ms) owner item =
    if same_keys m owner item then some m.at else find_mark ms owner item

-- INSERT ... ON CONFLICT DO UPDATE
abbrev pub upsert_mark : List Mark → String → String → ℕ → List Mark
upsert_mark [] owner item at = record { owner = owner; item = item; at = at } ∷ []
upsert_mark (m ∷ ms) owner item at =
    let rest = upsert_mark ms owner item at in
    if same_keys m owner item then record m { at = at } ∷ ms else m ∷ rest

-- An instant is older than so many hours.
abbrev pub is_older : ℕ → (hours now : ℕ) → Bool
is_older at hours now = ltb (at + hours * hour) now

-- DELETE ... WHERE the instant is before the cutoff
abbrev pub purge : (hours now : ℕ) → List Mark → List Mark
purge hours now ms = keep (λ (m : Mark). not (is_older m.at hours now)) ms

-- What a text has before its colon number `n`, counted from 0
before_colon : ℕ → String → String
before_colon n String.[] = String.[]
before_colon n (String.◌∷◌ c s) =
    let rest = before_colon (if code c == 58 then n - 1 else n) s in
    if code c == 58 && n == 0 then String.[] else String.◌∷◌ c rest

-- `_dedupe_source_key`: of a source behind MCP the server counts.
unfoldable pub dedupe_source_key : String → String
unfolding before_colon
dedupe_source_key source_key =
    let raw = strip source_key in if starts_with raw "mcp:" then before_colon 1 raw else raw

abbrev pub recent : Option ℕ → (hours now : ℕ) → Bool
recent none hours now = false
recent (some at) hours now = not (is_older at hours now)

-- `is_item_seen`
unfoldable pub is_item_seen :
    (source_key item_id : String) → (ttl_hours now : ℕ) → ProactiveState → Bool
is_item_seen source_key item_id ttl_hours now st =
    recent (find_mark st.seen_items (dedupe_source_key source_key) item_id) (max ttl_hours 1) now

abbrev pub mark_all : List (String × String) → ℕ → List Mark → List Mark
mark_all [] at ms = ms
mark_all ((source_key, item_id) ∷ entries) at ms =
    mark_all entries at (upsert_mark ms (dedupe_source_key source_key) item_id at)

-- `mark_items_seen`
unfoldable pub mark_items_seen :
    List (String × String) → (now : ℕ) → ProactiveState → ProactiveState
mark_items_seen entries now st = record st { seen_items = mark_all entries now st.seen_items }

-- `is_delivery_duplicate`
unfoldable pub is_delivery_duplicate :
    (session_key delivery_key : String) → (window_hours now : ℕ) → ProactiveState → Bool
is_delivery_duplicate session_key delivery_key window_hours now st =
    recent (find_mark st.deliveries session_key delivery_key) (max window_hours 1) now

-- `mark_delivery`
unfoldable pub mark_delivery :
    (session_key delivery_key : String) → (now : ℕ) → ProactiveState → ProactiveState
mark_delivery session_key delivery_key now st = record st {
  deliveries = upsert_mark st.deliveries session_key delivery_key now;
}

-- `count_deliveries_in_window`
unfoldable pub count_deliveries_in_window :
    (session_key : String) → (window_hours now : ℕ) → ProactiveState → ℕ
count_deliveries_in_window session_key window_hours now st = length (
    keep (λ (m : Mark). str_eq m.owner session_key && not (is_older m.at window_hours now))
      st.deliveries)

-- `get_semantic_items`: the newest first; rows without a text are left out after the limit.
unfoldable pub get_semantic_items :
    (window_hours max_candidates now : ℕ) → ProactiveState → List SemanticItem
get_semantic_items window_hours max_candidates now st =
    keep (λ (r : SemanticItem). truthy (strip r.text))
      (take (max max_candidates 1) (
        sort (λ (a b : SemanticItem). leb b.ts a.ts)
          (keep (λ (r : SemanticItem). not (is_older r.ts window_hours now)) st.semantic_items)))

-- An entry of `mark_semantic_items`
pub record SemanticEntry : Type 0 where
  pub source_key : String
  pub item_id : String
  pub text : String

abbrev pub semantic_row : ℕ → SemanticEntry → SemanticItem
semantic_row now e = record {
  source_key = e.source_key;
  item_id = e.item_id;
  text = strip e.text;
  ts = now;
}

-- `mark_semantic_items`
unfoldable pub mark_semantic_items :
    List SemanticEntry → (now : ℕ) → ProactiveState → ProactiveState
mark_semantic_items entries now st = record st {
  semantic_items =
      st.semantic_items
      ++ map (semantic_row now) (keep (λ (e : SemanticEntry). truthy (strip e.text)) entries);
}

-- `is_rejection_cooled`
unfoldable pub is_rejection_cooled :
    (source_key item_id : String) → (ttl_hours now : ℕ) → ProactiveState → Bool
is_rejection_cooled source_key item_id ttl_hours now st =
    ltb 0 ttl_hours
    && recent (find_mark st.rejections (dedupe_source_key source_key) item_id) ttl_hours now

-- `mark_rejection_cooldown`
unfoldable pub mark_rejection_cooldown :
    List (String × String) → (hours now : ℕ) → ProactiveState → ProactiveState
mark_rejection_cooldown entries hours now st =
    if ltb 0 hours then record st { rejections = mark_all entries now st.rejections } else st

-- `cleanup`; TRIM takes spaces only.
unfoldable pub cleanup :
    (seen_ttl delivery_ttl semantic_ttl rejection_ttl now : ℕ) → ProactiveState → ProactiveState
cleanup seen_ttl delivery_ttl semantic_ttl rejection_ttl now st = record st {
  seen_items = purge (max seen_ttl 1) now st.seen_items;
  deliveries = purge (max delivery_ttl 1) now st.deliveries;
  semantic_items =
      keep
        (λ (r : SemanticItem).
          not (is_older r.ts (max semantic_ttl 1) now) && truthy (strip_by (λ c. c == 32) r.text))
        st.semantic_items;
  rejections = if ltb 0 rejection_ttl then purge rejection_ttl now st.rejections else st.rejections;
  context_only = keep (λ (r : String × ℕ). not (is_older r.1 24 now)) st.context_only;
}

-- `get_bg_context_last_main_at` and `mark_bg_context_main_send`
unfoldable pub get_bg_context_last_main_at : ProactiveState → Option ℕ
get_bg_context_last_main_at st = get st.kv_state "bg_context_last_main_at"

unfoldable pub mark_bg_context_main_send : (now : ℕ) → ProactiveState → ProactiveState
mark_bg_context_main_send now st = record st {
  kv_state = put st.kv_state "bg_context_last_main_at" now;
}

-- `get_last_drift_at` and `mark_drift_run`
unfoldable pub get_last_drift_at : String → ProactiveState → Option ℕ
get_last_drift_at session_key st = find_mark st.session_state session_key "drift_last_at"

unfoldable pub mark_drift_run : String → (now : ℕ) → ProactiveState → ProactiveState
mark_drift_run session_key now st = record st {
  session_state = upsert_mark st.session_state session_key "drift_last_at" now;
}

-- `get_last_context_only_at` and `mark_context_only_send`
unfoldable pub get_last_context_only_at : String → ProactiveState → Option ℕ
get_last_context_only_at session_key st =
    find_mark st.session_state session_key "context_only_last_at"

unfoldable pub mark_context_only_send : String → (now : ℕ) → ProactiveState → ProactiveState
mark_context_only_send session_key now st = record st {
  session_state = upsert_mark st.session_state session_key "context_only_last_at" now;
  context_only = st.context_only ++ (session_key, now) ∷ [];
}

-- `count_context_only_in_window`
unfoldable pub count_context_only_in_window :
    (session_key : String) → (window_hours now : ℕ) → ProactiveState → ℕ
count_context_only_in_window session_key window_hours now st = length (
    keep (λ (r : String × ℕ). str_eq r.0 session_key && not (is_older r.1 window_hours now))
      st.context_only)
