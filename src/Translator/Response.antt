-- ===== src/Translator/Response.antt =====
-- Complete answers, in internal/translator/codex/claude/response.go.
use ai_proxy_pool.Base.{
  Bool, true, false, not, ◌&&◌, ◌||◌, List, [], ◌∷◌, ◌++◌, Option, none, some, if◌then◌else◌,
}
use ai_proxy_pool.Base.Int.{pos, ltb_ℤ}
use ai_proxy_pool.Base.Regexp.{Regexp}
use ai_proxy_pool.Base.Result.{Result, ok, err}
use ai_proxy_pool.Base.Text.{Bytes, codes, str_eq, trim_space}
use ai_proxy_pool.Base.Dict.{lookup}
use ai_proxy_pool.Base.Lines.{join}
use ai_proxy_pool.Base.Number.{format_int}
use ai_proxy_pool.Base.Json.{Json, str, arr, Object, object, array, number, field, items, Codec}
use ai_proxy_pool.Translator.Registry.{
  TranslateError, decode_failed, encode_failed, missing_usage, missing_input_tokens,
}
use ai_proxy_pool.Translator.Values.{as_map, as_slice, as_string, as_raw_string, as_int64, is_none}
use ai_proxy_pool.Translator.Names.{build_tool_short_name_map, reversed, restore_original_tool_name}
use ai_proxy_pool.Translator.Tools.{should_include_reasoning_summary}
use ai_proxy_pool.Translator.Messages.{text_part}
use ai_proxy_pool.Translator.Usage.{Usage, extract_usage}
use ai_proxy_pool.Translator.Decoration.{remove_leading_codex_decoration}

-- The source of the expression `ansiPattern`.
abbrev pub ansi_pattern : Bytes
ansi_pattern = codes "\\x1b(?:\\[[0-9;]*[a-zA-Z]|\\][^\\x07\\x1b]*(?:\\x07|\\x1b\\\\))|\\x1b"

unfoldable pub strip_ansi : Regexp → Bytes → Bytes
strip_ansi re s = re.replace_all_string ansi_pattern s []

pub record OriginalRequestInfo : Type 0 where
  pub reverse_tool_name_map : List (Bytes × Bytes)
  pub emit_thinking : Bool

abbrev original_request : Option Object → OriginalRequestInfo
original_request none = record { reverse_tool_name_map = []; emit_thinking = false }
original_request (some root) = record {
  reverse_tool_name_map = reversed (build_tool_short_name_map root) [];
  emit_thinking = should_include_reasoning_summary root;
}

unfoldable pub parse_original_request : Codec → Bytes → OriginalRequestInfo
unfolding build_tool_short_name_map reversed should_include_reasoning_summary
parse_original_request codec raw = original_request (codec.decode raw)

-- The response within an event, or the object itself.
unfoldable pub response_of : Object → Object
unfolding as_map as_string field str_eq
response_of root =
    let resp = as_map (field root (codes "response")) in
    if str_eq (as_string (field root (codes "type"))) (codes "response.completed")
    then if is_none resp then root else resp
    else root

-- The texts of a list of parts that are not empty.
unfoldable pub raw_texts : List Json → List Bytes
unfolding as_map as_raw_string field
raw_texts [] = []
raw_texts (p ∷ ps) =
    let text = as_raw_string (field (as_map p) (codes "text")) in
    let rest = raw_texts ps in if is_none text then rest else text ∷ rest

abbrev summary_texts : Json → List Bytes
summary_texts (arr vs) = raw_texts (items vs)
summary_texts (str text) = if is_none text then [] else text ∷ []
summary_texts _ = []

unfoldable pub collect_reasoning_text : Object → Bytes
unfolding raw_texts as_slice field join
collect_reasoning_text item =
    let parts = summary_texts (field item (codes "summary")) in
    join [] (if is_none parts then raw_texts (as_slice (field item (codes "content"))) else parts)

-- The local variables of the loop over the output.
pub record Content : Type 0 where
  pub content : List Json
  pub has_tool_call : Bool
  pub trim_leading_decorations : Bool

abbrev add_content : Json → Content → Content
add_content block c = record c { content = c.content ++ block ∷ [] }

-- A part of a message.
abbrev add_output_text : Bytes → Bytes × Bool → Content → Content
add_output_text raw (clean, removed) c =
    let text = if c.trim_leading_decorations then clean else raw in
    let c' = record c {
      trim_leading_decorations =
          c.trim_leading_decorations && is_none (trim_space clean) && removed;
    } in
    if is_none text then c' else add_content (text_part (codes "text") text) c'

unfoldable pub add_parts : List Json → Content → Content
unfolding as_map as_string as_raw_string field str_eq remove_leading_codex_decoration trim_space
add_parts [] c = c
add_parts (part_raw ∷ parts) c =
    let part = as_map part_raw in
    let text = as_raw_string (field part (codes "text")) in
    add_parts parts (
      if str_eq (as_string (field part (codes "type"))) (codes "output_text")
      then add_output_text text (remove_leading_codex_decoration text) c
      else c)

-- The input of a tool, for the object that its arguments decode to.
abbrev tool_input : Option Object → Json
tool_input none = object []
tool_input (some args) = object args

unfoldable pub tool_use : Regexp → Codec → OriginalRequestInfo → Object → Json
unfolding as_string field restore_original_tool_name strip_ansi
tool_use re codec info item =
    let args = strip_ansi re (as_string (field item (codes "arguments"))) in
    let name = as_string (field item (codes "name")) in
    object (
      (codes "type", str (codes "tool_use"))
      ∷ (codes "id", str (as_string (field item (codes "call_id"))))
      ∷ (codes "name", str (restore_original_tool_name info.reverse_tool_name_map name))
      ∷ (codes "input", if is_none args then object [] else tool_input (codec.unmarshal args))
      ∷ [])

abbrev thinking_part : Bytes → Json
thinking_part text =
    object ((codes "type", str (codes "thinking")) ∷ (codes "thinking", str text) ∷ [])

-- One item of the output.
unfoldable pub add_item : Regexp → Codec → OriginalRequestInfo → Object → Content → Content
unfolding as_string as_slice field str_eq collect_reasoning_text add_parts tool_use
add_item re codec info item c =
    let kind = as_string (field item (codes "type")) in
    let text = collect_reasoning_text item in
    if str_eq kind (codes "reasoning")
    then if not info.emit_thinking || is_none text then c else add_content (thinking_part text) c
    else if str_eq kind (codes "message")
    then add_parts (as_slice (field item (codes "content"))) c
    else if str_eq kind (codes "function_call")
    then add_content (tool_use re codec info item) (record c { has_tool_call = true })
    else c

unfoldable pub add_items : Regexp → Codec → OriginalRequestInfo → List Json → Content → Content
unfolding add_item as_map
add_items re codec info [] c = c
add_items re codec info (item_raw ∷ rest) c =
    add_items re codec info rest (add_item re codec info (as_map item_raw) c)

-- The counts as a Claude answer gives them.
unfoldable pub usage_json : Usage → Json
unfolding format_int
usage_json usage = object (
    (codes "input_tokens", number usage.input)
    ∷ (codes "output_tokens", number usage.output)
    ∷ (if ltb_ℤ (pos 0) usage.cached
        then (codes "cache_read_input_tokens", number usage.cached) ∷ []
        else []))

abbrev stop_reason_of : Bool → Bytes → Bytes
stop_reason_of true reason = codes "tool_use"
stop_reason_of false reason = if is_none reason then codes "end_turn" else reason

-- The fields of the message.
unfoldable pub claude_message : Regexp → Codec → OriginalRequestInfo → Object → Object
unfolding as_map as_slice as_string field add_items usage_json extract_usage
claude_message re codec info response =
    let c =
      add_items re codec info (as_slice (field response (codes "output")))
        (record { content = []; has_tool_call = false; trim_leading_decorations = true }) in
    (codes "id", str (as_string (field response (codes "id"))))
    ∷ (codes "type", str (codes "message"))
    ∷ (codes "role", str (codes "assistant"))
    ∷ (codes "model", str (as_string (field response (codes "model"))))
    ∷ (codes "content", array c.content)
    ∷ (
      codes "stop_reason",
      str (stop_reason_of c.has_tool_call (as_string (field response (codes "stop_reason")))),
    )
    ∷ (codes "stop_sequence", field response (codes "stop_sequence"))
    ∷ (codes "usage", usage_json (extract_usage (as_map (field response (codes "usage")))))
    ∷ []

abbrev or_encode_failed : Option Bytes → Result TranslateError Bytes
or_encode_failed none = err encode_failed
or_encode_failed (some encoded) = ok encoded

unfoldable pub convert_codex_response_to_claude_non_stream :
    Regexp → Codec → Bytes → Bytes → Result TranslateError Bytes
unfolding parse_original_request response_of claude_message
convert_codex_response_to_claude_non_stream re codec original_request_raw raw =
    elim (codec.decode raw) [
      | none ↦ err decode_failed
      | some root ↦ or_encode_failed (
          codec.marshal (
            object (
              claude_message re codec (parse_original_request codec original_request_raw)
                (response_of root))))
    ]

abbrev is_missing : Option Json → Bool
is_missing none = true
is_missing (some _) = false

unfoldable pub convert_codex_count_tokens_to_claude : Codec → Bytes → Result TranslateError Bytes
unfolding response_of as_map as_int64 field lookup
convert_codex_count_tokens_to_claude codec raw = elim (codec.decode raw) [
  | none ↦ err decode_failed
  | some root ↦
      let usage = as_map (field (response_of root) (codes "usage")) in
      if is_none usage
      then err missing_usage
      else if is_missing (lookup (codes "input_tokens") usage)
      then err missing_input_tokens
      else or_encode_failed (
          codec.marshal (
            object (
              (codes "input_tokens", number (as_int64 (field usage (codes "input_tokens")))) ∷ [])))
]
