-- ===== src/Proxy/Fixture.antt =====
-- A configuration with two providers, a request, and stand-ins for the code of other packages.
use ai_proxy_pool.Base.{
  length, ◌++◌, ℕ, true, false, [], ◌∷◌, none, some, ◌/◌, leb, ◌==◌, if◌then◌else◌,
}
use ai_proxy_pool.Base.Int.{pos, pos_part}
use ai_proxy_pool.Base.Text.{Bytes, codes, str_eq}
use ai_proxy_pool.Base.Header
use ai_proxy_pool.Base.Float.{Float}
use ai_proxy_pool.Base.Json.{Codec}
use ai_proxy_pool.Base.Regexp.{Regexp}
use ai_proxy_pool.Base.Url.{Net}
use ai_proxy_pool.Base.Result.{ok, err}
use ai_proxy_pool.Proxy.Upstream.{Translation, Exchange}
use ai_proxy_pool.Proxy.Translate.{provider_translation}
use ai_proxy_pool.Config.{
  Config, ServerConfig, AuthConfig, ProviderConfig, zero_provider, strategy_round_robin,
}
use ai_proxy_pool.Router.{Selector}
use ai_proxy_pool.Proxy.Breaker.{GoError}
use ai_proxy_pool.Proxy.World.{World, Request, Attempt}

-- Rounds a quotient of integers down.
abbrev pub whole : Float
whole = record {
  of_int = pos_part;
  div = λ a b. if b == 0 then 0 else a / b;
  le = leb;
  beq = λ a b. a == b;
}

abbrev pub literal_regexp : Regexp
literal_regexp = record {
  compiles = λ r. true;
  match_string = λ r s. str_eq r s;
  replace_all_string = λ r s t. t;
}

abbrev pub no_json : Codec
no_json = record {
  unmarshal = λ b. none;
  decode = λ b. none;
  marshal = λ j. none;
  encode = λ j. none;
  format = λ j. [];
  float_int64 = λ t. pos 0;
}

abbrev pub provider : Bytes → ProviderConfig
provider name = record zero_provider { name = name; base_url = name; weight = pos 1 }

abbrev pub auth : AuthConfig
auth = record {
  enabled = true;
  header = codes "X-Proxy-Key";
  scheme = codes "Token";
  token = codes " secret ";
}

abbrev pub server : ServerConfig
server = record {
  listen_addr = codes ":8080";
  read_timeout = pos 0;
  write_timeout = pos 0;
  idle_timeout = pos 0;
  upstream_timeout = pos 0;
  max_request_body_bytes = pos 10;
  expose_provider = none;
  auth = auth;
  retry = record { max_attempts = pos 3; retry_on_5xx = none; retry_on_network = none };
  circuit_breaker = record {
    threshold = pos 3;
    open_duration = pos 120000000000;
    window_size = pos 2;
    min_samples = pos 1;
    failure_rate_threshold = 1;
    latency_threshold = pos 5000000000;
  };
}

abbrev pub cfg : Config
cfg = record {
  server = server;
  router = record {
    strategy = strategy_round_robin;
    default_provider = [];
    header_provider_key = codes "X-AI-Provider";
    route_rules = [];
  };
  providers = provider (codes "a") ∷ provider (codes "b") ∷ [];
}

abbrev pub selector : Selector
selector = record {
  strategy = strategy_round_robin;
  default_provider = [];
  providers =
      (codes "a", record { cfg = provider (codes "a"); model_regex = none })
      ∷ (codes "b", record { cfg = provider (codes "b"); model_regex = none })
      ∷ [];
  all_provider_names = codes "a" ∷ codes "b" ∷ [];
  rules = [];
  round_robin_count = 0;
}

abbrev pub refused_connection : GoError
refused_connection = record {
  as_net = true;
  as_url = true;
  is_refused_or_reset = true;
  as_write = false;
}

-- A URL is its host.
abbrev pub plain_net : Net
plain_net = record {
  parse =
      λ b. some (record { scheme = codes "http"; host = b; path = []; raw_query = []; rest = [] });
  print = λ u. u.host ++ u.path;
  split_host = λ a. none;
  is_loopback_ip = λ a. str_eq a (codes "::1");
}

-- Without any translator.
abbrev pub translation : Translation
translation = provider_translation literal_regexp no_json []

-- Provider a refuses the connection, any other answers.
abbrev pub exchange : ℕ → Exchange
exchange k = record {
  send = λ out.
      if str_eq out.host (codes "a")
      then err refused_connection
      else ok (record { status_code = pos 200; header = []; body = codes "hello"; broken = none });
  elapsed_ms = pos 7;
  deliver = λ n b. (length b, none);
  read_before_stop = 0;
}

abbrev pub headers : Bytes → Header.Header
headers token = (codes "Authorization", token ∷ []) ∷ []

abbrev pub request : Bytes → Request
request token = record {
  method = codes "POST";
  path = codes "/v1/messages";
  raw_query = [];
  header = headers token;
  host = codes "h";
  url_host = [];
  remote_addr = [];
  is_tls = false;
  body = codes "{}";
  body_broken = false;
}

abbrev pub env : ℕ → Attempt
env k = record { duration = pos 1000000; now = pos 5000000000; draw = λ n. 0; client_gone = false }

abbrev pub start_world : World
start_world = record {
  stats = [];
  selector = record selector { round_robin_count = 0 };
  response = record { header = []; status = none; body = [] };
}
