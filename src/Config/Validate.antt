-- ===== src/Config/Validate.antt =====
-- `applyDefaults`, `expandEnv` and `validate` of internal/config/config.go. `os.ExpandEnv` and
-- `url.Parse` are parameters.
use ai_proxy_pool.Base.{
  ℕ, ◌*◌, Bool, true, false, not, ◌&&◌, ◌||◌, List, [], ◌∷◌, Option, none, some, if◌then◌else◌, map,
}
use ai_proxy_pool.Base.Int.{ℤ, pos, ltb_ℤ}
use ai_proxy_pool.Base.Word.{leb_ℤ, eq_ℤ}
use ai_proxy_pool.Base.Float.{Float, f_zero, f_half, f_one}
use ai_proxy_pool.Base.Text.{Bytes, codes, str_eq, trim_space, to_lower}
use ai_proxy_pool.Base.Dict.{contains}
use ai_proxy_pool.Base.Regexp.{Regexp}
use ai_proxy_pool.Base.Result.{Result, ok, err, ◌>>=◌, ◌>>◌, refuse_if}
use ai_proxy_pool.Base.Url.{Net, Url}
use ai_proxy_pool.Config.{
  Config, ServerConfig, CircuitBreakerConfig, RouterConfig, RouteRule, ProviderConfig,
  ModelRegexMapping, strategy_round_robin, strategy_weighted_random, target_api_claude,
  target_api_codex, translate_none, translate_claude_to_codex, enabled_or_default,
}

abbrev pub is_blank : Bytes → Bool
is_blank [] = true
is_blank (_ ∷ _) = false

-- A default for an empty string, and for a zero.
abbrev text_or : Bytes → Bytes → Bytes
text_or s default = if is_blank s then default else s

abbrev number_or : ℤ → ℤ → ℤ
number_or n default = if eq_ℤ n (pos 0) then default else n

abbrev positive_or : ℤ → ℤ → ℤ
positive_or n default = if leb_ℤ n (pos 0) then default else n

-- time.Second
abbrev seconds : ℕ → ℤ
seconds n = pos (n * 1000000000)

unfoldable pub default_circuit_breaker : Float → CircuitBreakerConfig → CircuitBreakerConfig
unfolding eq_ℤ
default_circuit_breaker fl cb =
    let cb' =
      if eq_ℤ cb.threshold (pos 0) && eq_ℤ cb.open_duration (pos 0)
      then record cb { threshold = pos 3; open_duration = seconds 120 }
      else cb in
    if eq_ℤ cb.window_size (pos 0)
      && eq_ℤ cb.min_samples (pos 0)
      && fl.beq cb.failure_rate_threshold f_zero
      && eq_ℤ cb.latency_threshold (pos 0)
    then record cb' {
      window_size = pos 20;
      min_samples = pos 10;
      failure_rate_threshold = f_half;
      latency_threshold = seconds 5;
    }
    else cb'

unfoldable pub default_server : Float → ServerConfig → ServerConfig
unfolding eq_ℤ leb_ℤ default_circuit_breaker
default_server fl server =
    let auth = server.auth in
    let retry = server.retry in
    record server {
      listen_addr = text_or server.listen_addr (codes ":8080");
      read_timeout = number_or server.read_timeout (seconds 30);
      write_timeout = number_or server.write_timeout (seconds 300);
      idle_timeout = number_or server.idle_timeout (seconds 60);
      upstream_timeout = number_or server.upstream_timeout (seconds 300);
      max_request_body_bytes = number_or server.max_request_body_bytes (pos 8388608);
      auth = record auth {
        header = text_or auth.header (codes "Authorization");
        scheme = text_or auth.scheme (codes "Bearer");
      };
      retry = record retry { max_attempts = positive_or retry.max_attempts (pos 3) };
      circuit_breaker = default_circuit_breaker fl server.circuit_breaker;
    }

unfoldable pub default_router : RouterConfig → RouterConfig
unfolding to_lower trim_space
default_router router = record router {
  strategy = to_lower (trim_space (text_or router.strategy strategy_round_robin));
  header_provider_key = text_or router.header_provider_key (codes "X-AI-Provider");
}

abbrev headers_or_empty : Option (List (Bytes × Bytes)) → Option (List (Bytes × Bytes))
headers_or_empty none = some []
headers_or_empty (some headers) = some headers

-- The loop over the providers, on one of them.
unfoldable pub default_provider_config : ℤ → ProviderConfig → ProviderConfig
unfolding to_lower trim_space leb_ℤ eq_ℤ
default_provider_config upstream_timeout p = record p {
  weight = positive_or p.weight (pos 1);
  timeout = number_or p.timeout upstream_timeout;
  static_headers = headers_or_empty p.static_headers;
  target_api = text_or (to_lower (trim_space p.target_api)) target_api_claude;
  request_translate = text_or (to_lower (trim_space p.request_translate)) translate_none;
}

unfoldable pub apply_defaults : Float → Config → Config
unfolding default_server default_router default_provider_config
apply_defaults fl cfg =
    let server = default_server fl cfg.server in
    record {
      server = server;
      router = default_router cfg.router;
      providers = map (default_provider_config server.upstream_timeout) cfg.providers;
    }

abbrev expand_headers :
    (Bytes → Bytes) → Option (List (Bytes × Bytes)) → Option (List (Bytes × Bytes))
expand_headers expand none = none
expand_headers expand (some headers) = some (map (λ (k, v). (k, expand v)) headers)

unfoldable pub expand_provider : (Bytes → Bytes) → ProviderConfig → ProviderConfig
expand_provider expand p = record p {
  base_url = expand p.base_url;
  path_prefix = expand p.path_prefix;
  upstream_path = expand p.upstream_path;
  api_key = expand p.api_key;
  auth_header = expand p.auth_header;
  static_headers = expand_headers expand p.static_headers;
}

-- `expand` is `os.ExpandEnv`.
unfoldable pub expand_env : (Bytes → Bytes) → Config → Config
unfolding expand_provider
expand_env expand cfg =
    let server = cfg.server in
    let auth = server.auth in
    record cfg {
      server = record server {
        auth = record auth {
          token = expand auth.token;
          header = expand auth.header;
          scheme = expand auth.scheme;
        };
      };
      providers = map (expand_provider expand) cfg.providers;
    }

-- The errors of `validate`, without their texts.
pub data ConfigError : Type 0 where
  empty_token : ConfigError
  bad_body_limit : ConfigError
  bad_threshold : ConfigError
  bad_open_duration : ConfigError
  bad_window_size : ConfigError
  bad_min_samples : ConfigError
  min_samples_over_window : ConfigError
  bad_failure_rate : ConfigError
  bad_latency : ConfigError
  no_providers : ConfigError
  unsupported_strategy : Bytes → ConfigError
  empty_regex : Bytes → ConfigError
  invalid_regex : Bytes → Bytes → ConfigError
  empty_name : ConfigError
  duplicate_name : Bytes → ConfigError
  empty_base_url : Bytes → ConfigError
  unsupported_target_api : Bytes → ConfigError
  unsupported_translate : Bytes → ConfigError
  translate_requires_codex : Bytes → ConfigError
  invalid_base_url : Bytes → ConfigError
  no_enabled_providers : ConfigError
  default_not_enabled : Bytes → ConfigError
  empty_rule : ConfigError
  unknown_rule_provider : Bytes → ConfigError

-- The checks of the server, up to the providers.
unfoldable pub validate_server : Float → ServerConfig → Result ConfigError (Unit {0})
unfolding leb_ℤ trim_space
validate_server fl server =
    let cb = server.circuit_breaker in
    refuse_if (server.auth.enabled && is_blank (trim_space server.auth.token)) empty_token
    >> refuse_if (leb_ℤ server.max_request_body_bytes (pos 0)) bad_body_limit
    >> refuse_if (leb_ℤ cb.threshold (pos 0)) bad_threshold
    >> refuse_if (leb_ℤ cb.open_duration (pos 0)) bad_open_duration
    >> refuse_if (leb_ℤ cb.window_size (pos 0)) bad_window_size
    >> refuse_if (leb_ℤ cb.min_samples (pos 0)) bad_min_samples
    >> refuse_if (ltb_ℤ cb.window_size cb.min_samples) min_samples_over_window
    >> refuse_if
        (fl.le cb.failure_rate_threshold f_zero
          || (fl.le f_one cb.failure_rate_threshold
              && not (fl.beq f_one cb.failure_rate_threshold)))
        bad_failure_rate
    >> refuse_if (leb_ℤ cb.latency_threshold (pos 0)) bad_latency

-- The expressions of a provider, compiled.
unfoldable pub compile_mappings :
    Regexp → Bytes → List ModelRegexMapping → Result ConfigError (List ModelRegexMapping)
compile_mappings re name [] = ok []
compile_mappings re name (m ∷ mappings) =
    refuse_if (is_blank m.regex) (empty_regex name)
    >> refuse_if (not (re.compiles m.regex)) (invalid_regex name m.regex)
    >> (compile_mappings re name mappings >>= λ compiled.
        ok (record m { compiled = some m.regex } ∷ compiled))

abbrev is_absolute : Option Url → Bool
is_absolute none = false
is_absolute (some parsed) = not (is_blank parsed.scheme || is_blank parsed.host)

-- The checks of one provider, behind its name.
unfoldable pub validate_provider : Net → ProviderConfig → Result ConfigError (Unit {0})
unfolding str_eq
validate_provider net p =
    refuse_if (is_blank p.base_url) (empty_base_url p.name)
    >> refuse_if
        (not (str_eq p.target_api target_api_claude || str_eq p.target_api target_api_codex))
        (unsupported_target_api p.name)
    >> refuse_if
        (not (
          str_eq p.request_translate translate_none
          || str_eq p.request_translate translate_claude_to_codex))
        (unsupported_translate p.name)
    >> refuse_if
        (str_eq p.request_translate translate_claude_to_codex
          && not (str_eq p.target_api target_api_codex))
        (translate_requires_codex p.name)
    >> refuse_if (not (is_absolute (net.parse p.base_url))) (invalid_base_url p.name)

-- The names seen, and those of enabled providers.
pub record Seen : Type 0 where
  pub names : List Bytes
  pub enabled : List Bytes

abbrev pub add_seen : Seen → ProviderConfig → Seen
add_seen seen p = record {
  names = p.name ∷ seen.names;
  enabled = if enabled_or_default p then p.name ∷ seen.enabled else seen.enabled;
}

-- The loop over the providers; it writes the compiled expressions.
unfoldable pub validate_providers :
    Net → Regexp → Seen → List ProviderConfig → Result ConfigError (Seen × List ProviderConfig)
unfolding compile_mappings validate_provider contains enabled_or_default
validate_providers net re seen [] = ok (seen, [])
validate_providers net re seen (p ∷ ps) =
    compile_mappings re p.name p.model_regex_mapping >>= λ compiled.
    refuse_if (is_blank p.name) empty_name
    >> refuse_if (contains p.name seen.names) (duplicate_name p.name)
    >> validate_provider net p
    >> (validate_providers net re (add_seen seen p) ps >>= λ (seen', ps').
        ok (seen', record p { model_regex_mapping = compiled } ∷ ps'))

unfoldable pub validate_rule_names : List Bytes → List Bytes → Result ConfigError (Unit {0})
unfolding contains
validate_rule_names names [] = ok tt
validate_rule_names names (n ∷ ns) =
    refuse_if (not (contains n names)) (unknown_rule_provider n) >> validate_rule_names names ns

unfoldable pub validate_rules : List Bytes → List RouteRule → Result ConfigError (Unit {0})
unfolding validate_rule_names
validate_rules names [] = ok tt
validate_rules names (rule ∷ rules) = elim rule.providers [
  | [] ↦ err empty_rule
  | n ∷ ns ↦ validate_rule_names names (n ∷ ns) >> validate_rules names rules
]

abbrev pub is_none : {A : Type 0} → List A → Bool
is_none [] = true
is_none (_ ∷ _) = false

-- The configuration with the expressions compiled, or the first error.
unfoldable pub validate : Float → Net → Regexp → Config → Result ConfigError Config
unfolding validate_server validate_providers validate_rules contains str_eq
validate fl net re cfg =
    validate_server fl cfg.server
    >> refuse_if (is_none cfg.providers) no_providers
    >> refuse_if
        (not (
          str_eq cfg.router.strategy strategy_round_robin
          || str_eq cfg.router.strategy strategy_weighted_random))
        (unsupported_strategy cfg.router.strategy)
    >> (validate_providers net re (record { names = []; enabled = [] }) cfg.providers
        >>= λ (seen, ps).
            refuse_if (is_none seen.enabled) no_enabled_providers
            >> refuse_if
                (not (is_blank cfg.router.default_provider)
                  && not (contains cfg.router.default_provider seen.enabled))
                (default_not_enabled cfg.router.default_provider)
            >> validate_rules seen.names cfg.router.route_rules
            >> ok (record cfg { providers = ps }))

-- `Load` behind the reading of the YAML text.
unfoldable pub load : Float → Net → Regexp → (Bytes → Bytes) → Config → Result ConfigError Config
unfolding apply_defaults expand_env validate
load fl net re expand cfg = validate fl net re (expand_env expand (apply_defaults fl cfg))
