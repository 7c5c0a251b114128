-- ===== src/Config.antt =====
-- internal/config/config.go: the configuration. A duration is a number of nanoseconds, a pointer to
-- a flag is an `Option`, and a nil map or a nil compiled expression is `none`.
pub mod Validate
pub mod Accepted
mod Tests
use ai_proxy_pool.Base.{ℕ, Bool, true, List, [], Option, none, some}
use ai_proxy_pool.Base.Int.{ℤ, pos}
use ai_proxy_pool.Base.Text.{Bytes, codes}

-- Strategy constants.
abbrev pub strategy_round_robin : Bytes
strategy_round_robin = codes "round_robin"

abbrev pub strategy_weighted_random : Bytes
strategy_weighted_random = codes "weighted_random"

-- TargetAPI constants.
abbrev pub target_api_claude : Bytes
target_api_claude = codes "claude"

abbrev pub target_api_codex : Bytes
target_api_codex = codes "codex"

-- RequestTranslate constants.
abbrev pub translate_none : Bytes
translate_none = codes "none"

abbrev pub translate_claude_to_codex : Bytes
translate_claude_to_codex = codes "claude_to_codex"

pub record CircuitBreakerConfig : Type 0 where
  pub threshold : ℤ
  pub open_duration : ℤ
  pub window_size : ℤ
  pub min_samples : ℤ
  pub failure_rate_threshold : ℕ
  pub latency_threshold : ℤ

pub record RetryConfig : Type 0 where
  pub max_attempts : ℤ
  pub retry_on_5xx : Option Bool
  pub retry_on_network : Option Bool

pub record AuthConfig : Type 0 where
  pub enabled : Bool
  pub header : Bytes
  pub scheme : Bytes
  pub token : Bytes

pub record ServerConfig : Type 0 where
  pub listen_addr : Bytes
  pub read_timeout : ℤ
  pub write_timeout : ℤ
  pub idle_timeout : ℤ
  pub upstream_timeout : ℤ
  pub max_request_body_bytes : ℤ
  pub expose_provider : Option Bool
  pub auth : AuthConfig
  pub retry : RetryConfig
  pub circuit_breaker : CircuitBreakerConfig

pub record RouteRule : Type 0 where
  pub path_prefix : Bytes
  pub model_prefix : Bytes
  pub model_regex : Bytes
  pub providers : List Bytes

pub record RouterConfig : Type 0 where
  pub strategy : Bytes
  pub default_provider : Bytes
  pub header_provider_key : Bytes
  pub route_rules : List RouteRule

pub record ModelRegexMapping : Type 0 where
  pub regex : Bytes
  pub replacement : Bytes
  pub compiled : Option Bytes

pub record ProviderConfig : Type 0 where
  pub name : Bytes
  pub base_url : Bytes
  pub path_prefix : Bytes
  pub upstream_path : Bytes
  pub enabled : Option Bool
  pub weight : ℤ
  pub timeout : ℤ
  pub api_key : Bytes
  pub auth_type : Bytes
  pub auth_header : Bytes
  pub target_api : Bytes
  pub request_translate : Bytes
  pub static_headers : Option (List (Bytes × Bytes))
  pub model_prefixes : List Bytes
  pub model_regex : Bytes
  pub model_mapping : List (Bytes × Bytes)
  pub model_regex_mapping : List ModelRegexMapping

pub record Config : Type 0 where
  pub server : ServerConfig
  pub router : RouterConfig
  pub providers : List ProviderConfig

-- A flag that is omitted counts as set.
abbrev flag_or_true : Option Bool → Bool
flag_or_true none = true
flag_or_true (some b) = b

unfoldable pub retry_on_5xx_or_default : RetryConfig → Bool
retry_on_5xx_or_default r = flag_or_true r.retry_on_5xx

unfoldable pub retry_on_network_or_default : RetryConfig → Bool
retry_on_network_or_default r = flag_or_true r.retry_on_network

unfoldable pub enabled_or_default : ProviderConfig → Bool
enabled_or_default p = flag_or_true p.enabled

unfoldable pub expose_provider_or_default : ServerConfig → Bool
expose_provider_or_default s = flag_or_true s.expose_provider

-- The zero value `ProviderConfig{}`.
abbrev pub zero_provider : ProviderConfig
zero_provider = record {
  name = [];
  base_url = [];
  path_prefix = [];
  upstream_path = [];
  enabled = none;
  weight = pos 0;
  timeout = pos 0;
  api_key = [];
  auth_type = [];
  auth_header = [];
  target_api = [];
  request_translate = [];
  static_headers = none;
  model_prefixes = [];
  model_regex = [];
  model_mapping = [];
  model_regex_mapping = [];
}
