-- ===== src/Translator/Request.antt =====
-- `ConvertClaudeRequestToCodex` of internal/translator/codex/claude/request.go.
pub mod Outcome
use ai_proxy_pool.Base.{Bool, true, false, List, [], ◌∷◌, Option, none, some, if◌then◌else◌}
use ai_proxy_pool.Base.Int.{pos}
use ai_proxy_pool.Base.Result.{Result, ok, err}
use ai_proxy_pool.Base.Text.{Bytes, codes, str_eq, trim_space}
use ai_proxy_pool.Base.Dict.{insert}
use ai_proxy_pool.Base.Json.{Json, bool, str, Object, object, array, number, field, Codec}
use ai_proxy_pool.Translator.Registry.{
  TranslateRequest, TranslateResult, TranslateError, decode_failed, encode_failed, missing_model,
}
use ai_proxy_pool.Translator.Values.{as_string, is_none}
use ai_proxy_pool.Translator.Names.{build_tool_short_name_map}
use ai_proxy_pool.Translator.Tools.{
  convert_tools, reasoning_effort, normalize_reasoning_effort, should_include_reasoning_summary,
}
use ai_proxy_pool.Translator.Messages.{append_system_as_developer_message, append_messages}

abbrev pub count_tokens_path : Bytes
count_tokens_path = codes "/v1/messages/count_tokens"

-- The model of the request, or else of its body.
unfoldable pub model_of : TranslateRequest → Object → Bytes
unfolding trim_space as_string field
model_of req root =
    let model = trim_space req.model in
    if is_none model then as_string (field root (codes "model")) else model

abbrev stream_of : Bool → Json → Bool
stream_of default (bool v) = v
stream_of default _ = default

unfoldable pub stream_wanted : TranslateRequest → Object → Bool
unfolding str_eq field
stream_wanted req root =
    if str_eq req.path count_tokens_path
    then false
    else stream_of req.stream (field root (codes "stream"))

unfoldable pub add_reasoning : Object → Object → Object
unfolding insert should_include_reasoning_summary normalize_reasoning_effort reasoning_effort
add_reasoning root out =
    let reasoning = object (
      (codes "effort", str (normalize_reasoning_effort (reasoning_effort root)))
      ∷ (codes "summary", str (codes "auto"))
      ∷ []) in
    if should_include_reasoning_summary root
    then insert (codes "include") (array (str (codes "reasoning.encrypted_content") ∷ []))
        (insert (codes "reasoning") reasoning out)
    else out

unfoldable pub add_tools : List Json → Object → Object
unfolding insert
add_tools tools out =
    if is_none tools
    then out
    else insert (codes "tool_choice") (str (codes "auto"))
        (insert (codes "tools") (array tools) out)

unfoldable pub add_limit : Bytes → Object → Object
unfolding insert str_eq
add_limit path out =
    if str_eq path count_tokens_path
    then insert (codes "max_output_tokens") (number (pos 0)) out
    else out

abbrev pub first_fields : Bytes → Bool → Object
first_fields model stream =
    (codes "model", str model)
    ∷ (codes "instructions", str [])
    ∷ (codes "input", array [])
    ∷ (codes "parallel_tool_calls", bool true)
    ∷ (
      codes "reasoning",
      object ((codes "effort", str (normalize_reasoning_effort (codes "minimal"))) ∷ []),
    )
    ∷ (codes "stream", bool stream)
    ∷ (codes "store", bool false)
    ∷ []

-- The fields of the request to Codex.
unfoldable pub codex_request : Codec → TranslateRequest → Object → Bytes → Object
unfolding insert stream_wanted add_reasoning normalize_reasoning_effort build_tool_short_name_map
    append_system_as_developer_message append_messages convert_tools add_tools add_limit
codex_request codec req root model =
    let short_map = build_tool_short_name_map root in
    let input = append_messages codec root (append_system_as_developer_message root []) short_map in
    let out = add_reasoning root (first_fields model (stream_wanted req root)) in
    add_limit req.path
      (add_tools (convert_tools root short_map) (insert (codes "input") (array input) out))

abbrev encoded_request : Bytes → Option Bytes → Result TranslateError TranslateResult
encoded_request model none = err encode_failed
encoded_request model (some body) =
    ok (record { model = model; path = codes "/v1/responses"; body = body })

abbrev converted : Codec → TranslateRequest → Option Object → Result TranslateError TranslateResult
converted codec req none = err decode_failed
converted codec req (some root) =
    let model = model_of req root in
    if is_none model
    then err missing_model
    else encoded_request model (codec.marshal (object (codex_request codec req root model)))

unfoldable pub convert_claude_request_to_codex :
    Codec → TranslateRequest → Result TranslateError TranslateResult
unfolding model_of codex_request
convert_claude_request_to_codex codec req = converted codec req (codec.decode req.body)
