-- ===== src/Translator/Tools.antt =====
-- The rest of internal/translator/codex/claude/request_tools.go: the tools of a request, and how
-- much the model is asked to think.
use ai_proxy_pool.Base.{Bool, false, ◌||◌, List, [], ◌∷◌, ◌++◌, Option, none, some, if◌then◌else◌}
use ai_proxy_pool.Base.Int.{ℤ, pos, ltb_ℤ}
use ai_proxy_pool.Base.Word.{leb_ℤ}
use ai_proxy_pool.Base.Text.{Bytes, codes, str_eq, trim_space, to_lower}
use ai_proxy_pool.Base.Dict.{lookup, insert, delete}
use ai_proxy_pool.Base.Json.{Json, bool, str, Object, object, field}
use ai_proxy_pool.Translator.Values.{as_map, as_slice, as_string, as_int64, is_none}
use ai_proxy_pool.Translator.Names.{sent_name}

-- A key that is missing gets a value.
abbrev insert_missing : Bytes → Json → Object → Option Json → Object
insert_missing key v schema none = insert key v schema
insert_missing key v schema (some _) = schema

unfoldable pub normalize_tool_parameters : Json → Object
unfolding as_map as_string field lookup insert delete str_eq
normalize_tool_parameters v =
    let schema = as_map v in
    let typed =
      if is_none (as_string (field schema (codes "type")))
      then insert (codes "type") (str (codes "object")) schema
      else schema in
    let filled =
      if str_eq (as_string (field typed (codes "type"))) (codes "object")
      then insert_missing (codes "properties") (object []) typed (lookup (codes "properties") typed)
      else typed in
    if is_none schema
    then (codes "type", str (codes "object")) ∷ (codes "properties", object []) ∷ []
    else delete (codes "$schema") filled

abbrev add_description : Bytes → Object → Object
add_description desc fn = if is_none desc then fn else insert (codes "description") (str desc) fn

-- A tool as a function, under the name that it is sent with.
unfoldable pub function_tool : Bytes → Object → Json
unfolding normalize_tool_parameters as_string field insert
function_tool name tool = object (
    add_description (as_string (field tool (codes "description"))) (
      (codes "type", str (codes "function"))
      ∷ (codes "name", str name)
      ∷ (codes "parameters", object (normalize_tool_parameters (field tool (codes "input_schema"))))
      ∷ (codes "strict", bool false)
      ∷ []))

unfoldable pub convert_tool : List (Bytes × Bytes) → Object → List Json
unfolding function_tool sent_name as_string field str_eq
convert_tool short_map tool =
    let name = as_string (field tool (codes "name")) in
    if str_eq (as_string (field tool (codes "type"))) (codes "web_search_20250305")
    then object ((codes "type", str (codes "web_search")) ∷ []) ∷ []
    else if is_none name
    then []
    else function_tool (sent_name short_map name) tool ∷ []

unfoldable pub convert_tool_list : List (Bytes × Bytes) → List Json → List Json
unfolding convert_tool as_map
convert_tool_list short_map [] = []
convert_tool_list short_map (raw_tool ∷ tools) =
    convert_tool short_map (as_map raw_tool) ++ convert_tool_list short_map tools

unfoldable pub convert_tools : Object → List (Bytes × Bytes) → List Json
unfolding convert_tool_list as_slice field
convert_tools root short_map = convert_tool_list short_map (as_slice (field root (codes "tools")))

-- The effort for a budget of tokens.
unfoldable pub effort_of_budget : ℤ → Bytes
unfolding leb_ℤ
effort_of_budget budget =
    if leb_ℤ budget (pos 0)
    then codes "minimal"
    else if ltb_ℤ budget (pos 2048)
    then codes "low"
    else if ltb_ℤ budget (pos 8192)
    then codes "medium"
    else codes "high"

abbrev or_high : Bytes → Bytes
or_high v = if is_none v then codes "high" else v

unfoldable pub adaptive_effort : Object → Bytes
unfolding as_string field to_lower trim_space
adaptive_effort output_cfg =
    or_high (to_lower (trim_space (as_string (field output_cfg (codes "effort")))))

unfoldable pub reasoning_effort : Object → Bytes
unfolding as_map as_string as_int64 field to_lower str_eq adaptive_effort effort_of_budget
reasoning_effort root =
    let thinking = as_map (field root (codes "thinking")) in
    let kind = to_lower (as_string (field thinking (codes "type"))) in
    if is_none thinking
    then codes "medium"
    else if str_eq kind (codes "disabled")
    then codes "minimal"
    else if str_eq kind (codes "adaptive") || str_eq kind (codes "auto")
    then adaptive_effort (as_map (field root (codes "output_config")))
    else if str_eq kind (codes "enabled")
    then effort_of_budget (as_int64 (field thinking (codes "budget_tokens")))
    else codes "medium"

-- An effort that Codex knows.
abbrev is_known_effort : Bytes → Bool
is_known_effort s =
    str_eq s (codes "low")
    || str_eq s (codes "medium")
    || str_eq s (codes "high")
    || str_eq s (codes "xhigh")

unfoldable pub normalize_reasoning_effort : Bytes → Bytes
unfolding to_lower trim_space str_eq
normalize_reasoning_effort effort =
    if is_known_effort (to_lower (trim_space effort)) then effort else codes "low"

unfoldable pub should_include_reasoning_summary : Object → Bool
unfolding as_map as_string field to_lower str_eq
should_include_reasoning_summary root =
    let thinking = as_map (field root (codes "thinking")) in
    let kind = to_lower (as_string (field thinking (codes "type"))) in
    if is_none thinking
    then false
    else str_eq kind (codes "enabled")
      || str_eq kind (codes "adaptive")
      || str_eq kind (codes "auto")
