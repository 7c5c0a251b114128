-- ===== src/Proxy/Server.antt =====
-- The server of internal/proxy/handler.go around the proxy's handler: `NewServerWithStats`, the
-- routes, the health endpoint and the middleware's labels; and the statistics endpoints of
-- internal/proxy/stats_handler.go. The mux is asked for a path that is clean, and `/metrics`, a
-- handler of another package, is a parameter.
pub mod Loopback
pub mod Private
use ai_proxy_pool.Base.{
  ℕ, ◌≡◌, refl, Bool, true, false, not, ◌||◌, List, [], ◌∷◌, ◌++◌, Option, none, some, length, ◌==◌,
  if◌then◌else◌,
}
use ai_proxy_pool.Base.Int.{ℤ, pos, ◌+ℤ◌}
use ai_proxy_pool.Base.Word.{int64, leb_ℤ, eq_ℤ}
use ai_proxy_pool.Base.Float.{Float}
use ai_proxy_pool.Base.Json.{Codec}
use ai_proxy_pool.Base.Header
use ai_proxy_pool.Base.Regexp.{Regexp}
use ai_proxy_pool.Base.Result.{Result, ok, err}
use ai_proxy_pool.Base.Text.{Bytes, codes, str_eq}
use ai_proxy_pool.Base.Lines.{trim_left, trim_right}
use ai_proxy_pool.Base.Url.{Net}
use ai_proxy_pool.Config.{Config, ProviderConfig, enabled_or_default}
use ai_proxy_pool.Router.{Selector, RouterError}
use ai_proxy_pool.Router.Build.{new_selector}
use ai_proxy_pool.Stats.Provider.{GlobalStats, snapshot_all, reset_all_counters}
use ai_proxy_pool.Proxy.World.{
  World, Attempt, Request, Response, write_header, write, write_json, respond, count, report,
  status_ok, forbidden, method_not_allowed,
}
use ai_proxy_pool.Proxy.Upstream.{Translation, Exchange}
use ai_proxy_pool.Proxy.Serve.{serve, client_names}

-- The fields of a `Server`; a client is its timeout.
pub record Server : Type 0 where
  pub cfg : Config
  pub selector : Selector
  pub clients : List (Bytes × ℤ)
  pub stats : GlobalStats

abbrev pub default_max_request_body_bytes : ℤ
default_max_request_body_bytes = pos 8388608

abbrev pub default_upstream_timeout : ℤ
default_upstream_timeout = pos 300000000000

abbrev or_timeout : ℤ → ℤ → ℤ
or_timeout timeout default = if eq_ℤ timeout (pos 0) then default else timeout

-- The loop over the providers.
unfoldable pub new_clients : Config → List ProviderConfig → List (Bytes × ℤ)
unfolding enabled_or_default eq_ℤ
new_clients cfg [] = []
new_clients cfg (provider ∷ providers) =
    let rest = new_clients cfg providers in
    let timeout =
      or_timeout (or_timeout provider.timeout cfg.server.upstream_timeout)
        default_upstream_timeout in
    if enabled_or_default provider then (provider.name, timeout) ∷ rest else rest

unfoldable pub limit_body : Config → Config
unfolding leb_ℤ
limit_body cfg =
    let server = cfg.server in
    if leb_ℤ server.max_request_body_bytes (pos 0)
    then record cfg {
      server = record server { max_request_body_bytes = default_max_request_body_bytes };
    }
    else cfg

unfoldable pub new_server_with_stats : Regexp → Config → GlobalStats → Result RouterError Server
unfolding limit_body new_clients new_selector
new_server_with_stats re cfg stats = elim (new_selector re cfg.router cfg.providers) [
  | err e ↦ err e
  | ok selector ↦ ok (record {
    cfg = limit_body cfg;
    selector = selector;
    clients = new_clients (limit_body cfg) cfg.providers;
    stats = stats;
  })
]

unfoldable pub handle_health : World → World
unfolding write_json
handle_health w = respond (write_json (pos 200) status_ok) w

abbrev is_bracket : ℕ → Bool
is_bracket c = c == b'[' || c == b']'

abbrev host_of : Bytes → Option Bytes → Bytes
host_of remote_addr none = remote_addr
host_of remote_addr (some host) = host

unfoldable pub is_loopback_request : Net → Bytes → Bool
unfolding trim_left trim_right
is_loopback_request net remote_addr =
    let host = host_of remote_addr (net.split_host remote_addr) in
    net.is_loopback_ip (trim_right is_bracket (trim_left is_bracket host))

unfoldable pub handle_status : Net → Config → Request → World → World
unfolding is_loopback_request write_json write_header write snapshot_all
handle_status net cfg r w =
    if not (is_loopback_request net r.remote_addr)
    then respond (write_json (pos 403) forbidden) w
    else respond
        (λ resp. write (report (length cfg.providers) cfg.router.strategy (snapshot_all w.stats)) (
          write_header (pos 200) (record resp {
            header = Header.set resp.header (codes "Content-Type") (codes "application/json");
          })))
        w

unfoldable pub handle_status_reset : Net → Request → World → World
unfolding is_loopback_request write_json str_eq reset_all_counters
handle_status_reset net r w =
    if not (str_eq r.method (codes "POST"))
    then respond (write_json (pos 405) method_not_allowed) w
    else if not (is_loopback_request net r.remote_addr)
    then respond (write_json (pos 403) forbidden) w
    else respond (write_json (pos 200) status_ok) (count reset_all_counters w)

-- The routes of `buildHandler`.
pub data Route : Type 0 where
  health : Route
  metrics : Route
  status : Route
  status_reset : Route
  proxy : Route

unfoldable pub route_of : Bytes → Route
unfolding str_eq
route_of path =
    if str_eq path (codes "/healthz")
    then health
    else if str_eq path (codes "/metrics")
    then metrics
    else if str_eq path (codes "/api/internal/status")
    then status
    else if str_eq path (codes "/api/internal/status/reset")
    then status_reset
    else proxy

unfoldable pub path_metric_label : Bytes → Bytes
unfolding str_eq
path_metric_label path =
    if str_eq path (codes "/healthz")
    then codes "/healthz"
    else if str_eq path (codes "/metrics")
    then codes "/metrics"
    else if str_eq path (codes "/api/internal/status")
    then codes "/api/internal/status"
    else codes "/proxy"

-- A `statusRecorder`.
pub record StatusRecorder : Type 0 where
  pub status_code : ℤ
  pub bytes_written : ℤ

unfoldable pub record_header : ℤ → StatusRecorder → StatusRecorder
record_header code r = record r { status_code = code }

-- `Write`, of which so many bytes are written.
unfoldable pub record_write : ℕ → StatusRecorder → StatusRecorder
unfolding eq_ℤ int64 ◌+ℤ◌
record_write n r = record {
  status_code = if eq_ℤ r.status_code (pos 0) then pos 200 else r.status_code;
  bytes_written = int64 (r.bytes_written +ℤ pos n);
}

unfoldable pub status_code_of : StatusRecorder → ℤ
unfolding eq_ℤ
status_code_of r = if eq_ℤ r.status_code (pos 0) then pos 200 else r.status_code

module _ (fl : Float) (re : Regexp) (codec : Codec) (net : Net) (tr : Translation)
    (metrics_handler : Request → Response → Response) where
  abbrev pub handle_route :
      Config → (ℕ → Exchange) → ℤ → (ℕ → Attempt) → Route → Request → World → World
  handle_route cfg exchange start env health r w = handle_health w
  handle_route cfg exchange start env metrics r w = respond (metrics_handler r) w
  handle_route cfg exchange start env status r w = handle_status net cfg r w
  handle_route cfg exchange start env status_reset r w = handle_status_reset net r w
  handle_route cfg exchange start env proxy r w =
      serve fl re codec net tr cfg exchange start env r w

  -- A request to the server, with a new response.
  unfoldable pub serve_http :
      (ℕ → Exchange) → ℤ → (ℕ → Attempt) → Request → Server → Server × Response
  unfolding route_of handle_health handle_status handle_status_reset serve
  serve_http exchange start env r s =
      let w = handle_route s.cfg exchange start env (route_of r.path) r (record {
        stats = s.stats;
        selector = s.selector;
        response = record { header = []; status = none; body = [] };
      }) in
      (record s { stats = w.stats; selector = w.selector }, w.response)
