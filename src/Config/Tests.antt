-- ===== src/Config/Tests.antt =====
-- A small configuration that is accepted.
use ai_proxy_pool.Base.{◌≡◌, refl, true, false, [], ◌∷◌, none, some, leb, ◌==◌}
use ai_proxy_pool.Base.Int.{pos, pos_part}
use ai_proxy_pool.Base.Float.{Float}
use ai_proxy_pool.Base.Text.{codes, str_eq, to_lower, trim_space}
use ai_proxy_pool.Base.Dict.{contains}
use ai_proxy_pool.Base.Regexp.{Regexp}
use ai_proxy_pool.Base.Result.{ok}
use ai_proxy_pool.Base.Url.{Net}
use ai_proxy_pool.Config.{Config, zero_provider, enabled_or_default}
use ai_proxy_pool.Config.Validate.{
  apply_defaults, expand_env, validate, validate_server, validate_providers, validate_rules,
  validate_rule_names, validate_provider, compile_mappings,
}
use ai_proxy_pool.Config.Accepted.{IsAccepted, validate-IsAccepted}

-- Compares bit patterns, which is right for numbers that are not negative.
abbrev patterns : Float
patterns = record { of_int = pos_part; div = λ a b. a; le = leb; beq = λ a b. a == b }

abbrev no_regexp : Regexp
no_regexp = record {
  compiles = λ r. false;
  match_string = λ r s. false;
  replace_all_string = λ r s t. s;
}

abbrev plain_net : Net
plain_net = record {
  parse =
      λ b. some (record { scheme = codes "http"; host = b; path = []; raw_query = []; rest = [] });
  print = λ u. u.host;
  split_host = λ a. none;
  is_loopback_ip = λ a. false;
}

abbrev written : Config
written = record {
  server = record {
    listen_addr = [];
    read_timeout = pos 0;
    write_timeout = pos 0;
    idle_timeout = pos 0;
    upstream_timeout = pos 0;
    max_request_body_bytes = pos 0;
    expose_provider = none;
    auth = record { enabled = true; header = []; scheme = []; token = codes "t" };
    retry = record { max_attempts = pos 0; retry_on_5xx = none; retry_on_network = none };
    circuit_breaker = record {
      threshold = pos 0;
      open_duration = pos 0;
      window_size = pos 0;
      min_samples = pos 0;
      failure_rate_threshold = 0;
      latency_threshold = pos 0;
    };
  };
  router = record {
    strategy = codes " Round_Robin ";
    default_provider = codes "a";
    header_provider_key = [];
    route_rules =
        record {
          path_prefix = [];
          model_prefix = codes "m";
          model_regex = [];
          providers = codes "b" ∷ [];
        }
        ∷ [];
  };
  providers =
      record zero_provider { name = codes "a"; base_url = codes "h" }
      ∷ record zero_provider { name = codes "b"; base_url = codes "i"; enabled = some false }
      ∷ [];
}

abbrev completed : Config
completed = expand_env (λ s. s) (apply_defaults patterns written)

completed_test : validate patterns plain_net no_regexp completed ≡ ok completed
unfolding apply_defaults expand_env validate validate_server validate_providers validate_rules
    validate_rule_names validate_provider compile_mappings contains str_eq to_lower trim_space
    enabled_or_default
completed_test = refl

validate-IsAccepted_example : IsAccepted patterns completed
validate-IsAccepted_example =
    validate-IsAccepted patterns plain_net no_regexp completed completed_test
