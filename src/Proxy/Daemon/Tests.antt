-- ===== src/Proxy/Daemon/Tests.antt =====
-- A daemon with two providers.
use ai_proxy_pool.Base.{◌≡◌, refl, List, [], ◌∷◌, none, some, Option, if◌then◌else◌}
use ai_proxy_pool.Base.Int.{pos}
use ai_proxy_pool.Base.Text.{Bytes, codes, str_eq, to_lower, trim_space}
use ai_proxy_pool.Base.Dict.{contains, lookup, insert}
use ai_proxy_pool.Config.{enabled_or_default}
use ai_proxy_pool.Config.Validate.{
  load, apply_defaults, expand_env, validate, validate_server, validate_providers, validate_rules,
  validate_rule_names, validate_provider, compile_mappings,
}
use ai_proxy_pool.Router.Build.{new_selector}
use ai_proxy_pool.Stats.Persist.{load_from_disk}
use ai_proxy_pool.Proxy.World.{World, Request, Response}
use ai_proxy_pool.Proxy.Server.{Server, new_server_with_stats, new_clients, limit_body}
use ai_proxy_pool.Proxy.Daemon.{Daemon, Happening, request, change, tick, start_daemon, run_daemon}
use ai_proxy_pool.Proxy.Daemon.Routed.{daemon-agree}
use ai_proxy_pool.Proxy.Handler.{UpstreamOf, handle_proxy, unix}
use ai_proxy_pool.Proxy.Handler.Circuits.{AgreesOn, IsUsable}
use ai_proxy_pool.Proxy.Serve.{serve, upstream_of}
use ai_proxy_pool.Proxy.Daemon.Sound.{IsSound, daemon-IsSound}
use ai_proxy_pool.Proxy.Fixture
use ai_proxy_pool.Proxy.Fixture.{
  whole, literal_regexp, no_json, plain_net, translation, cfg, selector, exchange, env,
}

abbrev same : Bytes → Bytes
same s = s

abbrev no_metrics : Request → Response → Response
no_metrics r resp = resp

abbrev server : Server
server = record {
  cfg = cfg;
  selector = selector;
  clients = (codes "a", pos 300000000000) ∷ (codes "b", pos 300000000000) ∷ [];
  stats = [];
}

abbrev or_idle : Option Daemon → Daemon
or_idle none = record { current = server; stats_path = codes "idle"; files = [] }
or_idle (some d) = d

abbrev daemon : Daemon
daemon = or_idle (
    start_daemon whole literal_regexp no_json plain_net translation same no_metrics cfg
      (codes "stats") [])

abbrev ask : Bytes → Bytes → Bytes → Request
ask method path from =
    let r = Fixture.request (codes "Bearer secret") in
    record r { method = method; path = path; remote_addr = from }

-- A request that is retried, a reset, and a new configuration that cannot be read or is the same.
abbrev events : List Happening
events =
    request exchange (pos 5) env (ask (codes "POST") (codes "/v1/messages") [])
    ∷ request exchange (pos 5) env
        (ask (codes "POST") (codes "/api/internal/status/reset") (codes "[::1]"))
    ∷ change none (codes "stats") []
    ∷ change (some cfg) (codes "other") []
    ∷ tick
    ∷ []

daemon-IsSound_example :
    IsSound
      (run_daemon whole literal_regexp no_json plain_net translation same no_metrics events
        daemon).current.stats
unfolding start_daemon new_server_with_stats new_clients limit_body new_selector load load_from_disk
    apply_defaults expand_env validate validate_server validate_providers validate_rules
    validate_rule_names validate_provider compile_mappings contains str_eq to_lower trim_space
    enabled_or_default insert lookup
daemon-IsSound_example =
    daemon-IsSound whole literal_regexp no_json plain_net translation same no_metrics cfg
      (codes "stats") [] events {d = daemon} refl tt (tt, (tt, (tt, (tt, (tt, tt)))))

abbrev end : Server
end =
    (run_daemon whole literal_regexp no_json plain_net translation same no_metrics events
      daemon).current

-- Breaks off for every disabled provider.
abbrev other_upstream : UpstreamOf
other_upstream r body model w p attempt max =
    if enabled_or_default p
    then upstream_of whole literal_regexp no_json plain_net translation end.cfg exchange r body
        model w p attempt max
    else record { world = w; status_code = pos 500; error = none }

other_upstream-AgreesOn :
    (r : Request) (body model : Bytes)
    → AgreesOn
        (IsUsable end.cfg (unix (pos 5)) end.stats)
        (upstream_of whole literal_regexp no_json plain_net translation end.cfg exchange r body
          model)
        (other_upstream r body model)
other_upstream-AgreesOn r body model w p attempt max usable = rw usable.enabled refl

abbrev empty_response : Response
empty_response = record { header = []; status = none; body = [] }

abbrev end_world : World
end_world = record { stats = end.stats; selector = end.selector; response = empty_response }

daemon-agree_example :
    serve whole literal_regexp no_json plain_net translation end.cfg exchange
      (pos 5)
      env
      (Fixture.request (codes "Bearer secret"))
      end_world
    ≡ handle_proxy whole literal_regexp no_json end.cfg other_upstream
        (pos 5)
        env
        (Fixture.request (codes "Bearer secret"))
        end_world
unfolding start_daemon new_server_with_stats new_clients limit_body new_selector load load_from_disk
    apply_defaults expand_env validate validate_server validate_providers validate_rules
    validate_rule_names validate_provider compile_mappings contains str_eq to_lower trim_space
    enabled_or_default insert lookup
daemon-agree_example =
    daemon-agree whole literal_regexp no_json plain_net translation same no_metrics cfg
      (codes "stats") [] events {d = daemon} refl other_upstream exchange (pos 5) env
      (Fixture.request (codes "Bearer secret")) empty_response other_upstream-AgreesOn
