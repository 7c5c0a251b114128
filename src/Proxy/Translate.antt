-- ===== src/Proxy/Translate.antt =====
-- internal/proxy/translate.go: the choice of the translator for a provider, and the tokens that an
-- answer counts. `provider_translation` is what the upstream request asks of it.
pub mod Usage
use ai_proxy_pool.Base.{
  ℕ, ◌≡◌, refl, Bool, true, false, not, ◌||◌, List, [], ◌∷◌, ◌++◌, Option, none, some, length, take,
  if◌then◌else◌,
}
use ai_proxy_pool.Base.Int.{ℤ, pos, ◌+ℤ◌}
use ai_proxy_pool.Base.Word.{int64}
use ai_proxy_pool.Base.Regexp.{Regexp}
use ai_proxy_pool.Base.Result.{Result, ok, err}
use ai_proxy_pool.Base.Text.{Bytes, codes, str_eq}
use ai_proxy_pool.Base.Json.{Object, Codec}
use ai_proxy_pool.Config.{ProviderConfig, translate_none, translate_claude_to_codex}
use ai_proxy_pool.Router.{is_empty}
use ai_proxy_pool.Proxy.Breaker.{GoError, plain_error}
use ai_proxy_pool.Proxy.Model.{extract_model}
use ai_proxy_pool.Proxy.Upstream.{
  HttpResponse, TokenUsage, Streamed, Exchange, Translation, request_stream_or_default,
  should_translate_response, first_error,
}
use ai_proxy_pool.Proxy.Translate.Usage.{
  no_usage, first_usage, extract_usage_from_codex_response_body, extract_usage_from_response_body,
  capture_usage,
}
use ai_proxy_pool.Translator.Registry.{
  TranslateRequest, TranslateResult, TranslateError, Registry, RegisterError, api_claude, api_codex,
  register, translate,
}
use ai_proxy_pool.Translator.Request.{count_tokens_path, convert_claude_request_to_codex}
use ai_proxy_pool.Translator.Response.{
  convert_codex_response_to_claude_non_stream, convert_codex_count_tokens_to_claude,
}
use ai_proxy_pool.Translator.Stream.{
  StreamError, read_failed, write_failed, bad_event, too_long, Session,
  convert_codex_response_to_claude_stream,
}

-- `init` of internal/translator/codex/claude/init.go, on the registry that the program starts with.
unfoldable pub default_registry : Codec → Result RegisterError Registry
unfolding register convert_claude_request_to_codex
default_registry codec =
    register api_claude api_codex (some (λ req. convert_claude_request_to_codex codec req)) []

abbrev keep_or : Bytes → Bytes → Bytes
keep_or old new = if is_empty new then old else new

-- A translated request: what is empty in it is as before.
unfoldable pub next_request :
    Codec → Bytes → Bytes → Bytes → TranslateResult → Bytes × Bytes × Bytes
unfolding extract_model
next_request codec body model path out =
    let next_body = keep_or body out.body in
    let found = extract_model codec next_body (codes "application/json") in
    (
      next_body,
      keep_or path out.path,
      if is_empty out.model then keep_or model found else out.model,
    )

-- The body, the path and the model.
unfoldable pub translate_request_for_provider :
    Codec
    → Registry
    → ProviderConfig
    → Bytes
    → Bytes
    → Bytes
    → Result GoError (Bytes × Bytes × Bytes)
unfolding request_stream_or_default translate next_request str_eq
translate_request_for_provider codec registry provider body model path =
    let req : TranslateRequest = record {
      model = model;
      path = path;
      body = body;
      stream = request_stream_or_default codec body false;
    } in
    if is_empty provider.request_translate || str_eq provider.request_translate translate_none
    then ok (body, path, model)
    else if str_eq provider.request_translate translate_claude_to_codex
    then elim (translate registry api_claude api_codex req) [
      | err e ↦ err plain_error
      | ok none ↦ err plain_error
      | ok (some out) ↦ ok (next_request codec body model path out)
    ]
    else err plain_error

abbrev plain : Result TranslateError Bytes → Result GoError Bytes
plain (err e) = err plain_error
plain (ok b) = ok b

unfoldable pub translate_non_stream_response_for_provider :
    Regexp → Codec → ProviderConfig → Bytes → Bytes → Bytes → Result GoError Bytes
unfolding should_translate_response str_eq convert_codex_response_to_claude_non_stream
    convert_codex_count_tokens_to_claude
translate_non_stream_response_for_provider re codec provider original_path original_request_body
      raw =
    if not (should_translate_response provider)
    then ok raw
    else if str_eq original_path count_tokens_path
    then plain (convert_codex_count_tokens_to_claude codec raw)
    else plain (convert_codex_response_to_claude_non_stream re codec original_request_body raw)

abbrev go_error : StreamError GoError → GoError
go_error (read_failed e) = e
go_error (write_failed e) = e
go_error (bad_event e) = plain_error
go_error too_long = plain_error

-- What the translation has read of the answer: all of it unless it stops before the end.
abbrev what_was_read : ℕ → Bytes → Option (StreamError GoError) → Bytes
what_was_read stop body none = body
what_was_read stop body (some (read_failed e)) = body
what_was_read stop body (some (write_failed e)) = take stop body
what_was_read stop body (some (bad_event e)) = take stop body
what_was_read stop body (some too_long) = take stop body

abbrev go_error_of : Option (StreamError GoError) → Option GoError
go_error_of none = none
go_error_of (some e) = some (go_error e)

unfoldable pub translate_codex_to_claude_stream_with_usage :
    Regexp → Codec → Bytes → Exchange → HttpResponse → Streamed
unfolding convert_codex_response_to_claude_stream capture_usage
translate_codex_to_claude_stream_with_usage re codec original_request_body ex resp =
    let (session, e) =
      convert_codex_response_to_claude_stream re codec ex.deliver original_request_body resp.body
        resp.broken in
    record {
      output = session.output;
      written = session.total;
      usage = capture_usage codec (what_was_read ex.read_before_stop resp.body e);
      error = go_error_of e;
    }

-- io.Copy(w, r)
abbrev copied : Exchange → HttpResponse → Streamed
copied ex resp =
    let (n, e) = ex.deliver 0 resp.body in
    record {
      output = take n resp.body;
      written = pos n;
      usage = no_usage;
      error = first_error e resp.broken;
    }

unfoldable pub translate_stream_response_for_provider :
    Regexp → Codec → ProviderConfig → Bytes → Exchange → HttpResponse → Streamed
unfolding should_translate_response translate_codex_to_claude_stream_with_usage
translate_stream_response_for_provider re codec provider original_request_body ex resp =
    if not (should_translate_response provider)
    then copied ex resp
    else translate_codex_to_claude_stream_with_usage re codec original_request_body ex resp

-- The functions that the upstream request calls.
abbrev pub provider_translation : Regexp → Codec → Registry → Translation
provider_translation re codec registry = record {
  request = λ p body model path. translate_request_for_provider codec registry p body model path;
  stream = λ p body ex resp. translate_stream_response_for_provider re codec p body ex resp;
  non_stream =
      λ p path body raw. translate_non_stream_response_for_provider re codec p path body raw;
  usage = λ path raw translated.
      first_usage (extract_usage_from_codex_response_body codec raw)
        (extract_usage_from_response_body codec path translated);
}
