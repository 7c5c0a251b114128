-- ===== src/Translator/Tests.antt =====
-- Translations of small requests and streams, and the theorems about them at these inputs.
use ai_proxy_pool.Base.{
  ◌+◌, ltb, leb, ◌&&◌, ◌≡◌, ◌≢◌, refl, true, [], ◌∷◌, ◌++◌, none, some, if◌then◌else◌,
}
use ai_proxy_pool.Base.Int.{pos, pos_part, ◌-ℤ◌}
use ai_proxy_pool.Base.Word.{IsInt64}
use ai_proxy_pool.Base.Result.{Result, err}
use ai_proxy_pool.Base.Text.{Bytes, equal_fold, codes, str_eq, trim_space, to_lower}
use ai_proxy_pool.Base.Json.{Json, num, str, Object, object, array, Codec}
use ai_proxy_pool.Translator.Registry.{
  TranslateRequest, TranslateResult, TranslateError, Registry, already_registered, key_of,
  is_spelling, normalize_api, translator_for, register, run_translator, translate,
  translate-register, register-register,
}
use ai_proxy_pool.Translator.Names.{find_unused}
use ai_proxy_pool.Translator.Names.Free.{find_unused-total}
use ai_proxy_pool.Translator.Usage.{
  extract_usage, said_input, said_output, said_cached, extract_usage-bounds,
}
use ai_proxy_pool.Translator.Request.{convert_claude_request_to_codex}

abbrev tool : Bytes → Json
tool name = object ((codes "name", str name) ∷ [])

-- Two tools whose names are cut to the same text.
abbrev pub long_name : Bytes
long_name =
    codes "mcp__a_server_with_a_name__a_tool_with_a_name_that_is_much_too_long_for_the_limit"

abbrev pub claude_request : Object
claude_request =
    (codes "model", str (codes "claude-x"))
    ∷ (
      codes "tools",
      array (tool (codes "read") ∷ tool long_name ∷ tool (long_name ++ codes "2") ∷ []),
    )
    ∷ []

find_unused-total_example : find_unused 3 (codes "a_1" ∷ codes "a_2" ∷ []) (codes "a") 1 ≢ none
find_unused-total_example = find_unused-total (codes "a_1" ∷ codes "a_2" ∷ []) (codes "a") 1

abbrev request : Bytes → TranslateRequest
request body = record { model = []; path = codes "/v1/messages"; body = body; stream = true }

-- Two texts are documents.
abbrev pub test_codec : Codec
test_codec = record {
  unmarshal = λ b. none;
  decode = λ b.
      if str_eq b (codes "claude")
      then some claude_request
      else if str_eq b (codes "created")
      then some ((codes "type", str (codes "response.created")) ∷ [])
      else some [];
  marshal = λ j. some (codes "json");
  encode = λ j. none;
  format = λ j. [];
  float_int64 = λ t. pos 0;
}

abbrev to_codex : TranslateRequest → Result TranslateError TranslateResult
to_codex req = convert_claude_request_to_codex test_codec req

abbrev registered : Registry
registered = (key_of (codes "Claude ") (codes "codex"), to_codex) ∷ []

translate-register_example :
    translate registered (codes " claude") (codes "CODEX") (request (codes "claude")) ≡ (
      if is_spelling (codes "Claude ") (codes " claude")
        && is_spelling (codes "codex") (codes "CODEX")
      then run_translator (request (codes "claude")) (some to_codex)
      else translate [] (codes " claude") (codes "CODEX") (request (codes "claude")))
unfolding register key_of normalize_api translator_for to_lower trim_space str_eq
translate-register_example =
    translate-register (codes "Claude ") (codes "codex") to_codex [] refl (codes " claude")
      (codes "CODEX") (request (codes "claude"))

register-register_example :
    register (codes " claude") (codes "CODEX") (some to_codex) registered
    ≡ err (already_registered (key_of (codes "Claude ") (codes "codex")))
unfolding register key_of normalize_api translator_for equal_fold to_lower trim_space str_eq
register-register_example =
    register-register (codes "Claude ") (codes "codex") to_codex [] refl (codes " claude")
      (codes "CODEX") to_codex refl

abbrev translated : TranslateResult
translated = record { model = codes "claude-x"; path = codes "/v1/responses"; body = codes "json" }

abbrev usage : Object
usage =
    (codes "input_tokens", num (codes "10"))
    ∷ (codes "input_tokens_details", object ((codes "cached_tokens", num (codes "4")) ∷ []))
    ∷ []

extract_usage-bounds_example :
    let got = extract_usage usage in
    (got.output ≡ said_output usage)
    × (got.cached ≡ said_cached usage)
    × (got.input ≡ (
        if ltb 0 (pos_part (said_cached usage))
        then pos (pos_part (said_input usage -ℤ said_cached usage))
        else said_input usage))
    × IsInt64 got.input
    × IsInt64 got.output
    × IsInt64 got.cached
    × (pos_part got.input + pos_part got.cached ≡ (
        if leb (pos_part (said_cached usage)) (pos_part (said_input usage))
        then pos_part (said_input usage)
        else pos_part (said_cached usage)))
extract_usage-bounds_example = extract_usage-bounds usage
