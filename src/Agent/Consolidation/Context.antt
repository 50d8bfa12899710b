-- ===== src/Agent/Consolidation/Context.antt =====
-- agent/looping/consolidation.py: RECENT_CONTEXT.md, its text and how it is made again.
use minicode_agent_runtime.Prelude.{
  ℕ, if◌then◌else◌, List, [], ◌∷◌, ◌++◌, Option, none, some, ◌&&◌, ◌||◌, not, take, drop, map, ◌==◌,
}
use minicode_agent_runtime.Prelude.Codes.{
  Text, codes, blank, strip, rstrip, put_first, same_text, starts, within, join_lines, split_lines,
}

-- The five lists of a compression
pub record Compression : Type 0 where
  pub active_topics : List Text
  pub user_preferences : List Text
  pub follow_ups : List Text
  pub avoidances : List Text
  pub ongoing_threads : List Text

abbrev pub no_compression : Compression
no_compression = record {
  active_topics = [];
  user_preferences = [];
  follow_ups = [];
  avoidances = [];
  ongoing_threads = [];
}

-- `[str(item).strip() for item in items if str(item).strip()]`
unfoldable pub cleaned : List Text → List Text
cleaned [] = []
cleaned (t ∷ ts) = let rest = cleaned ts in if blank (strip t) then rest else strip t ∷ rest

-- `"；".join(items)`
unfoldable pub join_items : List Text → Text
join_items [] = []
join_items (t ∷ []) = t
join_items (t ∷ t' ∷ ts) = t ++ (codes "；" ++ join_items (t' ∷ ts))

abbrev section_lines : (title : Text) → List Text → List Text
section_lines title [] = []
section_lines title (t ∷ ts) =
    (codes "- " ++ (title ++ (codes "：" ++ join_items (take 3 (t ∷ ts))))) ∷ []

abbrev or_none : List Text → List Text
or_none [] = codes "- none" ∷ []
or_none (l ∷ ls) = l ∷ ls

abbrev pub none_if_blank : Text → Text
none_if_blank t = if blank t then codes "- none" else t

-- `_render_recent_context`
unfoldable pub render_compression : Compression → (compression_until recent_turns : Text) → Text
unfolding cleaned join_items
render_compression c until turns =
    let sections =
      section_lines (codes "最近持续关注") (cleaned c.active_topics)
      ++ (section_lines (codes "最近明确偏好") (cleaned c.user_preferences)
          ++ (section_lines (codes "最近待延续话题") (cleaned c.follow_ups)
              ++ section_lines (codes "最近避免事项") (cleaned c.avoidances))) in
    let threads = map (λ (t : Text). codes "- " ++ t) (take 3 (cleaned c.ongoing_threads)) in
    rstrip (
      join_lines (
        codes "# Recent Context"
        ∷ []
        ∷ codes "## Compression"
        ∷ (codes "until: " ++ (if blank until then codes "none" else until))
        ∷ (or_none sections
            ++ ([]
                ∷ codes "## Ongoing Threads"
                ∷ (or_none threads
                    ++ ([]
                        ∷ codes "## Recent Turns"
                        ∷ codes "<!-- a-preview = assistant reply preview only -->"
                        ∷ none_if_blank (strip turns)
                        ∷ []))))))
    ++ 10 ∷ []

unfoldable pub render_recent_context :
    Option Compression → (compression_until recent_turns : Text) → Text
unfolding render_compression
render_recent_context none until turns = render_compression no_compression until turns
render_recent_context (some c) until turns = render_compression c until turns

-- `text.split(marker, 1)[0]`
unfoldable pub text_before : (marker : Text) → Text → Text
text_before marker [] = []
text_before marker (c ∷ t) =
    let rest = text_before marker t in if starts marker (c ∷ t) then [] else c ∷ rest

-- `_replace_recent_turns_block`
unfoldable pub replace_recent_turns_block : (existing_text recent_turns : Text) → Text
unfolding text_before render_recent_context
replace_recent_turns_block existing turns =
    let block =
      rstrip (
        join_lines (
          codes "## Recent Turns"
          ∷ codes "<!-- a-preview = assistant reply preview only -->"
          ∷ none_if_blank (strip turns)
          ∷ []))
      ++ 10 ∷ [] in
    let marker = 10 ∷ (codes "## Recent Turns" ++ 10 ∷ []) in
    let text = strip existing in
    if within marker text
    then rstrip (text_before marker text) ++ 10 ∷ 10 ∷ block
    else (if blank text
        then render_recent_context none (codes "none") turns
        else text ++ 10 ∷ 10 ∷ block)

-- The parts of a text at each place where `separator` stands: `value.split("；")`
unfoldable pub split_at : (separator : ℕ) → Text → List Text
split_at separator [] = [] ∷ []
split_at separator (c ∷ t) =
    let rest = split_at separator t in if c == separator then [] ∷ rest else put_first c rest

abbrev put_title : ℕ → Option (Text × Text) → Option (Text × Text)
put_title c none = none
put_title c (some (title, value)) = some (c ∷ title, value)

-- `value.split("：", 1)`, if the colon is in it
unfoldable pub split_once : (separator : ℕ) → Text → Option (Text × Text)
split_once separator [] = none
split_once separator (c ∷ t) =
    let rest = split_once separator t in if c == separator then some ([], t) else put_title c rest

abbrev put_section : Option (Text × Text) → Compression → Compression
put_section none c = c
put_section (some (title, value)) c =
    let items = take 3 (cleaned (split_at 0xff1b value)) in
    let t = strip title in
    if same_text t (codes "最近持续关注")
    then record c { active_topics = items }
    else (if same_text t (codes "最近明确偏好")
        then record c { user_preferences = items }
        else (if same_text t (codes "最近待延续话题")
            then record c { follow_ups = items }
            else (if same_text t (codes "最近避免事项") then record c { avoidances = items } else c)))

-- The loop of `_extract_recent_context_compression` over the lines of the compression
unfoldable pub read_sections : List Text → Compression → Compression
unfolding split_once split_at cleaned
read_sections [] c = c
read_sections (raw ∷ lines) c =
    let line = strip raw in
    read_sections lines (
      if blank line
        || starts (codes "until:") line
        || same_text line (codes "- none")
        || not (starts (codes "- ") line)
      then c
      else put_section (split_once 0xff1a (drop 2 line)) c)

-- The loop over the lines of the ongoing threads
unfoldable pub read_threads : List Text → List Text
read_threads [] = []
read_threads (raw ∷ lines) =
    let rest = read_threads lines in
    let line = strip raw in
    let item = strip (drop 2 line) in
    if starts (codes "- ") line && not (blank item) && not (same_text item (codes "none"))
    then item ∷ rest
    else rest

-- What the patterns of the code find in a text: the body of "## Compression", that of "## Ongoing
-- Threads", and the end of the line that begins with "until:".
pub record Patterns : Type 0 where
  pub compression_body : Text → Option Text
  pub ongoing_body : Text → Option Text
  pub until_line : Text → Option Text

abbrev with_threads : Option Text → Compression → Compression
with_threads none c = c
with_threads (some body) c = record c { ongoing_threads = take 3 (read_threads (split_lines body)) }

abbrev extract_from : Patterns → Text → Option Text → Option Compression
extract_from patterns text none = none
extract_from patterns text (some body) =
    some
      (with_threads (patterns.ongoing_body text) (read_sections (split_lines body) no_compression))

-- `_extract_recent_context_compression`
unfoldable pub extract_recent_context_compression : Patterns → Text → Option Compression
unfolding read_sections read_threads
extract_recent_context_compression patterns text =
    if blank (strip text) then none else extract_from patterns text (patterns.compression_body text)
