-- ===== src/Proxy/Upstream.antt =====
-- `doUpstreamRequest` of internal/proxy/upstream.go: the request to one provider and its answer to
-- the client. The translation between the providers' formats is an interface, `Translation`. Logs
-- and metrics are left out.
pub mod Steps
pub mod Laws
use ai_proxy_pool.Base.{
  ℕ, ◌≡◌, refl, Bool, true, false, not, ◌&&◌, ◌||◌, List, [], ◌∷◌, ◌++◌, Option, none, some, ltb,
  if◌then◌else◌, take, length,
}
use ai_proxy_pool.Base.Int.{ℤ, pos, ◌+ℤ◌, ltb_ℤ}
use ai_proxy_pool.Base.Word.{int64, leb_ℤ, eq_ℤ}
use ai_proxy_pool.Base.Text.{Bytes, codes, str_eq, to_lower, has_infix}
use ai_proxy_pool.Base.Dict.{lookup, contains}
use ai_proxy_pool.Base.Header
use ai_proxy_pool.Base.Header.{Header}
use ai_proxy_pool.Base.Json.{Json, bool, Object, Codec}
use ai_proxy_pool.Base.Regexp.{Regexp}
use ai_proxy_pool.Base.Result.{Result, ok, err}
use ai_proxy_pool.Base.Url.{Net}
use ai_proxy_pool.Config.{
  Config, ProviderConfig, retry_on_5xx_or_default, expose_provider_or_default,
  translate_claude_to_codex,
}
use ai_proxy_pool.Router.{is_empty}
use ai_proxy_pool.Stats.Provider.{ProviderStats, get_or_create, update}
use ai_proxy_pool.Proxy.Breaker.{GoError, plain_error}
use ai_proxy_pool.Proxy.World.{World, Request, Response, raw, write_header, write, respond, count}
use ai_proxy_pool.Proxy.Model.{replace_model, apply_model_regex_mapping}
use ai_proxy_pool.Proxy.Forward.{OutRequest, copy_response_headers, build_upstream_request}
use ai_proxy_pool.Proxy.Handler.{Upstream, UpstreamResult}

-- An error of another package is no responseWriteError, a type that only this file makes.
abbrev pub foreign : GoError → GoError
foreign e = record e { as_write = false }

-- `responseWriteError{err: err}`
abbrev pub response_write_error : GoError → GoError
response_write_error e = record e { as_write = true }

-- An `http.Response`: the body ends in an error where `broken` has one.
pub record HttpResponse : Type 0 where
  pub status_code : ℤ
  pub header : Header
  pub body : Bytes
  pub broken : Option GoError

-- The input and the output tokens, where they are known.
pub record TokenUsage : Type 0 where
  pub input : Option ℤ
  pub output : Option ℤ

-- What a translated stream writes.
pub record Streamed : Type 0 where
  pub output : Bytes
  pub written : ℤ
  pub usage : TokenUsage
  pub error : Option GoError

-- What the call meets: the provider's answer, how long it takes, how many bytes of a text reach the
-- client behind those that have already done so, and how much of the answer has been read when the
-- translation of a stream stops before its end.
pub record Exchange : Type 0 where
  pub send : OutRequest → Result GoError HttpResponse
  pub elapsed_ms : ℤ
  pub deliver : ℕ → Bytes → ℕ × Option GoError
  pub read_before_stop : ℕ

-- internal/proxy/translate.go and the translators behind it
pub record Translation : Type 0 where
  -- the body, the path and the model
  pub request : ProviderConfig → Bytes → Bytes → Bytes → Result GoError (Bytes × Bytes × Bytes)
  pub stream : ProviderConfig → Bytes → Exchange → HttpResponse → Streamed
  pub non_stream : ProviderConfig → Bytes → Bytes → Bytes → Result GoError Bytes
  -- from the path, the provider's answer and its translation
  pub usage : Bytes → Bytes → Bytes → TokenUsage

abbrev stream_flag : Bool → Option Json → Bool
stream_flag default (some (bool b)) = b
stream_flag default _ = default

abbrev stream_field : Bool → Option Object → Bool
stream_field default none = default
stream_field default (some payload) = stream_flag default (lookup (codes "stream") payload)

unfoldable pub request_stream_or_default : Codec → Bytes → Bool → Bool
unfolding lookup
request_stream_or_default codec body default =
    if is_empty body then default else stream_field default (codec.unmarshal body)

-- A status in a range.
abbrev pub is_2xx : ℤ → Bool
is_2xx status_code = leb_ℤ (pos 200) status_code && ltb_ℤ status_code (pos 300)

unfoldable pub response_should_stream : Codec → Bytes → Bytes → ℤ → Bytes → Bool
unfolding str_eq has_infix to_lower request_stream_or_default leb_ℤ
response_should_stream codec request_body request_path status_code content_type =
    if str_eq request_path (codes "/v1/messages/count_tokens")
    then false
    else if has_infix (to_lower content_type) (codes "text/event-stream")
    then true
    else if not (is_2xx status_code)
    then false
    else request_stream_or_default codec request_body false

unfoldable pub should_translate_response : ProviderConfig → Bool
unfolding str_eq
should_translate_response provider = str_eq provider.request_translate translate_claude_to_codex

-- The mapping of the model by the expressions, on the body.
unfoldable pub map_model_regex : Regexp → Codec → ProviderConfig → Bytes → Bytes → Bytes
unfolding apply_model_regex_mapping replace_model str_eq
map_model_regex re codec selected model body =
    let mapped = apply_model_regex_mapping re model selected.model_regex_mapping in
    if str_eq mapped model then body else replace_model codec body mapped

-- The body behind the mapping of the model.
unfoldable pub map_model : Regexp → Codec → ProviderConfig → Bytes → Bytes → Bytes
unfolding lookup map_model_regex replace_model
map_model re codec selected model body =
    if is_empty model then body else elim (lookup model selected.model_mapping) [
      | some mapped ↦ replace_model codec body mapped
      | none ↦ map_model_regex re codec selected model body
    ]

abbrev failed : World → ℤ → GoError → UpstreamResult
failed w status_code e = record { world = w; status_code = status_code; error = some e }

-- `recordUpstreamResponse` and the end of the function.
unfoldable pub finished : Bytes → ℤ → ℤ → World → UpstreamResult
finished name status_code written w = record {
  world =
      count (update name (λ ps. record ps { total_bytes = int64 (ps.total_bytes +ℤ written) })) w;
  status_code = status_code;
  error = none;
}

abbrev add_tokens : Option ℤ → ℤ → ℤ
add_tokens none total = total
add_tokens (some n) total = int64 (total +ℤ n)

unfoldable pub add_usage : TokenUsage → ProviderStats → ProviderStats
add_usage usage ps = record ps {
  prompt_tokens = add_tokens usage.input ps.prompt_tokens;
  completion_tokens = add_tokens usage.output ps.completion_tokens;
}

abbrev on_header : (Header → Header) → World → World
on_header f w =
    let resp = w.response in record w { response = record resp { header = f resp.header } }

-- The end of a call whose body was written, with the number of bytes and the error.
abbrev finish_write : Bytes → ℤ → ℤ → Option GoError → World → UpstreamResult
finish_write name status_code written none w = finished name status_code written w
finish_write name status_code written (some e) w = failed w status_code (response_write_error e)

abbrev pub first_error : Option GoError → Option GoError → Option GoError
first_error none other = other
first_error (some e) other = some e

-- w.Write(body), or io.Copy(w, body)
unfoldable pub write_body : Exchange → Bytes → ℤ → Bytes → Option GoError → World → UpstreamResult
unfolding write finished
write_body ex name status_code body broken w =
    let (n, e) = ex.deliver 0 body in
    finish_write name status_code (pos n) (first_error e broken)
      (respond (write (raw (take n body))) w)

module _ (cfg : Config) (codec : Codec) (tr : Translation) (ex : Exchange) (r : Request)
    (body : Bytes) (selected : ProviderConfig) where
  abbrev streams : HttpResponse → Bool
  streams resp =
      response_should_stream codec body r.path resp.status_code
        (Header.get resp.header (codes "Content-Type"))

  -- A response that has no body.
  abbrev is_bodiless : ℤ → Bool
  is_bodiless status_code =
      str_eq r.method (codes "HEAD") || eq_ℤ status_code (pos 204) || eq_ℤ status_code (pos 304)

  abbrev copy_headers : HttpResponse → Header → Header
  copy_headers resp header =
      let copied = copy_response_headers header resp.header in
      if expose_provider_or_default cfg.server
      then Header.set copied (codes "X-Selected-Provider") selected.name
      else copied

  abbrev drop_encoding : Header → Header
  drop_encoding header =
      Header.del (Header.del header (codes "Content-Encoding")) (codes "Content-Length")

  abbrev write_status : ℤ → World → World
  write_status status_code w = respond (write_header status_code) w

  -- The answer as the provider gave it.
  unfoldable pub answer : HttpResponse → World → UpstreamResult
  unfolding write_body finished write_header
  answer resp w =
      let status_code = resp.status_code in
      let w1 = on_header (copy_headers resp) w in
      let w2 = on_header drop_encoding w1 in
      if is_bodiless status_code
      then finished selected.name status_code (pos 0) (write_status status_code w1)
      else if not (streams resp)
      then elim resp.broken [
        | some e ↦ failed w2 status_code (foreign e)
        | none ↦
            write_body ex selected.name status_code resp.body none (write_status status_code w2)
      ]
      else write_body ex selected.name status_code resp.body resp.broken
          (write_status status_code w1)

  abbrev count_usage : TokenUsage → World → World
  count_usage usage w = count (update selected.name (add_usage usage)) w

  -- A stream, translated.
  unfoldable pub translated_stream : HttpResponse → World → UpstreamResult
  unfolding write_header write finished
  translated_stream resp w =
      let w1 = on_header (λ h. Header.set h (codes "Content-Type") (codes "text/event-stream")) w in
      let out = tr.stream selected body ex resp in
      let w2 = respond (write (raw out.output)) (write_status resp.status_code w1) in
      finish_write selected.name resp.status_code out.written out.error (count_usage out.usage w2)

  -- A complete answer, translated.
  unfoldable pub translated_body : HttpResponse → World → UpstreamResult
  unfolding write_header write_body finished
  translated_body resp w = elim resp.broken [
    | some e ↦ failed w resp.status_code (foreign e)
    | none ↦ elim (tr.non_stream selected r.path body resp.body) [
      | err e ↦ failed w resp.status_code (foreign e)
      | ok translated ↦
          let w1 = count_usage (tr.usage r.path resp.body translated) w in
          let w2 =
            on_header (λ h. Header.set h (codes "Content-Type") (codes "application/json")) w1 in
          write_body ex selected.name resp.status_code translated none
            (write_status resp.status_code w2)
    ]
  ]

  -- The answer where it is to be translated.
  unfoldable pub answer_translated : HttpResponse → World → UpstreamResult
  answer_translated resp w =
      let w1 = on_header (λ h. drop_encoding (copy_headers resp h)) w in
      if is_bodiless resp.status_code
      then finished selected.name resp.status_code (pos 0) (write_status resp.status_code w1)
      else if not (is_2xx resp.status_code)
      then answer resp w1
      else if streams resp
      then translated_stream resp w1
      else translated_body resp w1

  -- Behind the reading of an unsuccessful answer.
  unfoldable pub settle_answer : ℕ → ℕ → HttpResponse → World → UpstreamResult
  settle_answer attempt max resp w =
      if leb_ℤ (pos 500) resp.status_code
        && ltb attempt max
        && retry_on_5xx_or_default cfg.server.retry
      then failed w resp.status_code plain_error
      else if should_translate_response selected
      then answer_translated resp w
      else answer resp w

  -- An unsuccessful answer that is no stream is read before anything is written.
  unfoldable pub receive : ℕ → ℕ → HttpResponse → World → UpstreamResult
  receive attempt max resp w = elim resp.broken [
    | none ↦ settle_answer attempt max resp w
    | some e ↦
        if not (is_2xx resp.status_code) && not (streams resp)
        then failed w resp.status_code (foreign e)
        else settle_answer attempt max resp w
  ]

-- An error of url.Parse.
abbrev url_error : GoError
url_error = record { as_net = false; as_url = true; is_refused_or_reset = false; as_write = false }

module _ (net : Net) (re : Regexp) (codec : Codec) (cfg : Config) (tr : Translation)
    (clients : List Bytes) (exchange : ℕ → Exchange) where
  -- Behind the translation of the request.
  unfoldable pub send_request :
      Request → Bytes → ProviderConfig → ℕ → ℕ → Bytes → Bytes → World → UpstreamResult
  send_request r body selected attempt max upstream_body upstream_path w =
      elim (build_upstream_request net cfg r upstream_body selected upstream_path) [
        | none ↦ failed w (pos 0) url_error
        | some out ↦
            if not (contains selected.name clients)
            then failed w (pos 0) plain_error
            else elim ((exchange attempt).send out) [
              | err e ↦ failed w (pos 0) (foreign e)
              | ok resp ↦ receive cfg codec tr (exchange attempt) r body selected attempt max resp (
                  count
                    (update selected.name (λ ps. record ps {
                      total_duration_ms =
                          int64 (ps.total_duration_ms +ℤ (exchange attempt).elapsed_ms);
                    }))
                    w)
            ]
      ]

  unfoldable pub do_upstream_request : Request → Bytes → Bytes → Upstream
  do_upstream_request r body model w selected attempt max =
      let w1 = count (λ g. get_or_create g selected.name) w in
      elim (tr.request selected body model r.path) [
        | err e ↦ failed w1 (pos 0) (foreign e)
        | ok (upstream_body, upstream_path, upstream_model) ↦
            send_request r body selected attempt max
              (map_model re codec selected upstream_model upstream_body) upstream_path w1
      ]
