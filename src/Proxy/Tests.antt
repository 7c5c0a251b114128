-- ===== src/Proxy/Tests.antt =====
-- Runs of the handler on two providers, and the theorems of the proxy at concrete inputs.
use ai_proxy_pool.Base.{◌≡◌, ◌≢◌, refl, true, false, [], ◌∷◌, none, some, if◌then◌else◌}
use ai_proxy_pool.Base.Int.{pos, ◌+ℤ◌, ◌*ℤ◌}
use ai_proxy_pool.Base.Word.{int64, int32}
use ai_proxy_pool.Base.Text.{Bytes, codes, str_eq, trim_space, equal_fold, cut}
use ai_proxy_pool.Base.Dict.{lookup, insert, contains}
use ai_proxy_pool.Base.Header
use ai_proxy_pool.Config.{enabled_or_default}
use ai_proxy_pool.Router.Build.{new_selector}
use ai_proxy_pool.Router.Invariant.{IsWf, new_selector-IsWf}
use ai_proxy_pool.Proxy.Handler.Circuits.{AgreesOn, IsUsable}
use ai_proxy_pool.Proxy.Handler.Tries.{IsFresh}
use ai_proxy_pool.Router.{
  SelectionInput, select, select_forced, model_candidates, select_by_model, usable_default,
  select_fallback, filter_excluded, pick, pick_round_robin, cfg_of, scan_rules,
  match_providers_by_model,
}
use ai_proxy_pool.Stats.Window.{record_sample, snapshot, new_provider_health_window, milliseconds}
use ai_proxy_pool.Stats.Provider.{
  stats_of, get_or_create, update, ensure_health_window, reset_health_window,
}
use ai_proxy_pool.Proxy.Model.{extract_model}
use ai_proxy_pool.Proxy.Auth.{is_authorized, is_authorized-IsOffered, IsOffered}
use ai_proxy_pool.Proxy.Breaker.{is_provider_fatal_error, is_network_error}
use ai_proxy_pool.Proxy.World.{World, Request, write_header}
use ai_proxy_pool.Proxy.Handler.{
  Upstream, UpstreamOf, LoopState, Next, returned, broken, again, handle_proxy, proxy_body,
  attempts, round, try_provider, enter, settle, begin_attempt, end_attempt, score, count_attempt,
  trips, after_error, should_retry, max_attempts, open_circuits, is_open, create_all,
  read_request_body_with_limit, unix, is_successful_upstream_status,
}
use ai_proxy_pool.Proxy.Handler.Counters.{KeepsAll}
use ai_proxy_pool.Proxy.Handler.Answers.{IsAnswered}
use ai_proxy_pool.Config.{retry_on_5xx_or_default, expose_provider_or_default}
use ai_proxy_pool.Base.Text.{has_infix, to_lower}
use ai_proxy_pool.Proxy.World.{write}
use ai_proxy_pool.Proxy.Forward.{
  build_upstream_request, build_upstream_url, host_from_url, upstream_header, copy_response_headers,
  copy_request_headers, add_forward_headers, apply_provider_auth, apply_provider_static_headers,
}
use ai_proxy_pool.Proxy.Upstream.{
  do_upstream_request, send_request, receive, settle_answer, answer, write_body, finished,
  response_should_stream, request_stream_or_default, should_translate_response, map_model,
  map_model_regex,
}
use ai_proxy_pool.Proxy.Translate.{translate_request_for_provider}
use ai_proxy_pool.Proxy.Credentials.{upstream_header-drops}
use ai_proxy_pool.Proxy.Fixture.{provider}
use ai_proxy_pool.Config.{ProviderConfig}
use ai_proxy_pool.Proxy.Serve.{
  serve, client_names, upstream_of, serve-KeepsAll, serve-IsAnswered, serve-agree,
}
use ai_proxy_pool.Proxy.Fixture.{
  whole, literal_regexp, no_json, auth, cfg, selector, headers, request, env, start_world,
  plain_net, translation, exchange,
}

program : Unit {0}
unfolding handle_proxy proxy_body attempts round try_provider enter settle begin_attempt end_attempt
    score count_attempt trips after_error should_retry max_attempts open_circuits is_open create_all
    read_request_body_with_limit is_authorized extract_model write_header select stats_of
    get_or_create update lookup insert contains str_eq Header.get trim_space equal_fold cut unix
    ensure_health_window reset_health_window record_sample snapshot new_provider_health_window
    is_provider_fatal_error is_network_error int64 int32 ◌+ℤ◌ is_successful_upstream_status
    select_forced model_candidates select_by_model usable_default select_fallback filter_excluded
    pick pick_round_robin cfg_of scan_rules match_providers_by_model milliseconds ◌*ℤ◌ new_selector
    enabled_or_default IsFresh serve client_names do_upstream_request send_request receive
    settle_answer answer write_body finished write response_should_stream request_stream_or_default
    should_translate_response map_model map_model_regex build_upstream_request build_upstream_url
    host_from_url upstream_header copy_response_headers copy_request_headers add_forward_headers
    apply_provider_auth apply_provider_static_headers Header.set Header.del has_infix to_lower
    retry_on_5xx_or_default expose_provider_or_default translate_request_for_provider
program = tt

abbrev result : World
result =
    serve whole literal_regexp no_json plain_net translation cfg exchange (pos 5) env
      (request (codes "Bearer secret")) start_world

serve-KeepsAll_example : KeepsAll [] result.stats
serve-KeepsAll_example =
    serve-KeepsAll whole literal_regexp no_json plain_net translation cfg exchange (pos 5) env
      (request (codes "Bearer secret")) start_world

serve-IsAnswered_example : IsAnswered result.response
serve-IsAnswered_example =
    serve-IsAnswered whole literal_regexp no_json plain_net translation cfg exchange (pos 5) env
      (request (codes "Bearer secret")) start_world (λ k. refl) refl

is_authorized_tests :
    (is_authorized auth (headers (codes "Bearer secret")) ≡ true)
    × (is_authorized auth (headers (codes "Bearer secre")) ≡ false)
    × (is_authorized auth (headers (codes "Basic secret")) ≡ false)
    × (is_authorized auth ((codes "X-Proxy-Key", codes "token  secret" ∷ []) ∷ []) ≡ true)
unfolding is_authorized trim_space equal_fold cut Header.get str_eq lookup
is_authorized_tests = (refl, refl, refl, refl)

is_authorized-IsOffered_example :
    (trim_space auth.token ≢ [])
    × IsOffered auth (headers (codes "Bearer secret")) (trim_space auth.token)
is_authorized-IsOffered_example =
    is_authorized-IsOffered auth (headers (codes "Bearer secret")) refl is_authorized_tests.0

-- The refusal of provider a is retried on b, and both attempts are counted.
retry_test :
    let w =
      serve whole literal_regexp no_json plain_net translation cfg exchange
        (pos 5)
        env
        (request (codes "Bearer secret"))
        start_world in
    (w.response.status ≡ some (pos 200))
    × ((stats_of w.stats (codes "a")).error_requests ≡ pos 1)
    × ((stats_of w.stats (codes "a")).circuit_open_until ≡ pos 125)
    × ((stats_of w.stats (codes "b")).success_requests ≡ pos 1)
    × ((stats_of w.stats (codes "b")).active_connections ≡ pos 0)
unfolding program
retry_test = (refl, refl, refl, refl, refl)

selector-IsWf : IsWf cfg.providers selector
unfolding program
selector-IsWf = new_selector-IsWf literal_regexp cfg.router cfg.providers refl

abbrev ours : UpstreamOf
ours = upstream_of whole literal_regexp no_json plain_net translation cfg exchange

-- Breaks off for every disabled provider.
abbrev other_upstream : UpstreamOf
other_upstream r body model w p attempt max =
    if enabled_or_default p
    then ours r body model w p attempt max
    else record { world = w; status_code = pos 500; error = none }

other_upstream-AgreesOn :
    (r : Request) (body model : Bytes)
    → AgreesOn (IsUsable cfg (unix (pos 5)) []) (ours r body model) (other_upstream r body model)
other_upstream-AgreesOn r body model w p attempt max usable = rw usable.enabled refl

serve-agree_example :
    result
    ≡ handle_proxy whole literal_regexp no_json cfg other_upstream
        (pos 5)
        env
        (request (codes "Bearer secret"))
        start_world
serve-agree_example =
    serve-agree whole literal_regexp no_json plain_net translation cfg exchange other_upstream
      (pos 5) env (request (codes "Bearer secret")) start_world selector-IsWf
      other_upstream-AgreesOn

abbrev base : SelectionInput
base = record {
  path = codes "/v1/messages";
  model = [];
  forced_provider = [];
  excluded_providers = [];
}

abbrev before : LoopState
before = record { world = start_world; excluded = []; last_error = none }

abbrev state_of : Next → LoopState
state_of (returned w) = record { world = w; excluded = []; last_error = none }
state_of (broken st) = st
state_of (again st) = st

abbrev call : Upstream
call = ours (request []) (codes "{}") []

abbrev behind : LoopState
behind = state_of (round whole literal_regexp cfg call base (env 1) 1 3 before)

-- A provider without a key or static headers of its own.
abbrev bare : ProviderConfig
bare = let p = provider (codes "b") in record p { static_headers = some [] }

upstream_header-drops_example :
    let header = upstream_header plain_net cfg (request (codes "Bearer secret")) bare in
    (Header.get header (codes "X-AI-Provider") ≡ [])
    × (Header.get header (codes "Accept-Encoding") ≡ [])
    × (Header.get header (codes "Authorization") ≡ [])
    × (Header.get header (codes "X-Api-Key") ≡ [])
upstream_header-drops_example =
    upstream_header-drops plain_net cfg (request (codes "Bearer secret")) bare refl refl
