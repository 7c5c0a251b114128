-- ===== src/Proxy/Daemon/Routed.antt =====
-- Where a daemon sends its requests, whatever has happened to it before.
use ai_proxy_pool.Base.{ℕ, ◌≡◌, refl, inl, inr, List, [], ◌∷◌, none, some, Bool-cases}
use mathlib.Core.Option.{some-injective}
use ai_proxy_pool.Base.Int.{ℤ, pos}
use ai_proxy_pool.Base.Word.{leb_ℤ}
use ai_proxy_pool.Base.Float.{Float}
use ai_proxy_pool.Base.Json.{Codec}
use ai_proxy_pool.Base.Regexp.{Regexp}
use ai_proxy_pool.Base.Result.{ok, ok_inj, Result-cases}
use ai_proxy_pool.Base.Text.{Bytes, codes, str_eq}
use ai_proxy_pool.Base.Url.{Net}
use ai_proxy_pool.Config.{Config}
use ai_proxy_pool.Config.Validate.{load}
use ai_proxy_pool.Router.Build.{new_selector}
use ai_proxy_pool.Router.Invariant.{IsWf, new_selector-IsWf}
use ai_proxy_pool.Stats.Provider.{GlobalStats}
use ai_proxy_pool.Stats.Persist.{load_from_disk}
use ai_proxy_pool.Proxy.World.{World, Attempt, Request, Response}
use ai_proxy_pool.Proxy.Handler.{UpstreamOf, handle_proxy, unix}
use ai_proxy_pool.Proxy.Handler.Circuits.{AgreesOn, IsUsable}
use ai_proxy_pool.Proxy.Upstream.{Translation, Exchange}
use ai_proxy_pool.Proxy.Serve.{serve, serve-IsWf, serve-agree, upstream_of}
use ai_proxy_pool.Proxy.Server.{
  Server, Route, health, metrics, status, status_reset, proxy, route_of, handle_route,
  handle_health, handle_status, handle_status_reset, is_loopback_request, limit_body, serve_http,
  new_server_with_stats,
}
use ai_proxy_pool.Proxy.Daemon.{
  Snapshot, Daemon, Happening, request, change, tick, persist, has_moved, swapped, rebuild,
  reload_config, start_daemon, happen, run_daemon,
}

-- The selector of a server is well formed for the providers of its configuration.
abbrev pub IsRouted : Server → Type 0
IsRouted s = IsWf s.cfg.providers s.selector

limit_body-providers : (cfg : Config) → (limit_body cfg).providers ≡ cfg.providers
unfolding limit_body
limit_body-providers cfg = elim (Bool-cases (leb_ℤ cfg.server.max_request_body_bytes (pos 0))) [
  | inl wrong ↦ rw wrong refl
  | inr right ↦ rw right refl
]

module _ (fl : Float) (re : Regexp) (codec : Codec) (net : Net) (tr : Translation)
    (expand : Bytes → Bytes) (metrics_handler : Request → Response → Response) where
  handle_route-IsWf :
      (cfg : Config) (exchange : ℕ → Exchange) (start : ℤ) (env : ℕ → Attempt) (route : Route)
      (r : Request) (w : World)
      → IsWf cfg.providers w.selector
      → IsWf cfg.providers
          (handle_route fl re codec net tr metrics_handler cfg exchange start env route r
            w).selector
  unfolding handle_health handle_status handle_status_reset
  handle_route-IsWf cfg exchange start env health r w h = h
  handle_route-IsWf cfg exchange start env metrics r w h = h
  handle_route-IsWf cfg exchange start env status r w h =
      elim (Bool-cases (is_loopback_request net r.remote_addr)) [
        | inl here ↦ rw here h
        | inr away ↦ rw away h
      ]
  handle_route-IsWf cfg exchange start env status_reset r w h =
      elim (Bool-cases (str_eq r.method (codes "POST"))) [
        | inr other ↦ rw other h
        | inl post ↦ elim (Bool-cases (is_loopback_request net r.remote_addr)) [
          | inl here ↦ rw (post, here) h
          | inr away ↦ rw (post, away) h
        ]
      ]
  handle_route-IsWf cfg exchange start env proxy r w h =
      serve-IsWf fl re codec net tr cfg exchange start env r w h

  new_server-IsRouted :
      (cfg : Config) (stats : GlobalStats) {s : Server}
      → new_server_with_stats re cfg stats ≡ ok s
      → IsRouted s
  unfolding new_server_with_stats
  new_server-IsRouted cfg stats {s} e =
      elim (Result-cases (new_selector re cfg.router cfg.providers)) [
        | inl (_, bad) ↦ cc (rw (new_server_with_stats, bad) at e)
        | inr (selector, good) ↦
            rw (← ok_inj (rw (new_server_with_stats, good) at e), limit_body-providers cfg)
              (new_selector-IsWf re cfg.router cfg.providers good)
      ]

  swapped-IsRouted :
      (cfg : Config) (stats : GlobalStats) (path : Bytes) (d : Daemon)
      → IsRouted d.current
      → IsRouted (swapped path d (new_server_with_stats re cfg stats)).current
  swapped-IsRouted cfg stats path d h = elim (Result-cases (new_server_with_stats re cfg stats)) [
    | inl (e, bad) ↦ rw bad h
    | inr (s, good) ↦ rw good (new_server-IsRouted cfg stats good)
  ]

  happen-IsRouted :
      (event : Happening) (d : Daemon)
      → IsRouted d.current
      → IsRouted (happen fl re codec net tr expand metrics_handler event d).current
  unfolding happen serve_http persist reload_config rebuild
  happen-IsRouted (request exchange start env r) d h =
      handle_route-IsWf d.current.cfg exchange start env (route_of r.path) r _ h
  happen-IsRouted (change none path on_disk) d h = h
  happen-IsRouted (change (some raw) path on_disk) d h =
      elim (Result-cases (load fl net re expand raw)) [
        | inl (e, bad) ↦ rw (happen, reload_config, bad) h
        | inr (cfg, good) ↦
            rw (happen, reload_config, good)
              (elim (Bool-cases (has_moved path d)) [
                | inl moved ↦ rw moved (swapped-IsRouted cfg _ path (persist d) h)
                | inr same ↦ rw same (swapped-IsRouted cfg d.current.stats path d h)
              ])
      ]
  happen-IsRouted tick d h = h

  run_daemon-IsRouted :
      (events : List Happening) (d : Daemon)
      → IsRouted d.current
      → IsRouted (run_daemon fl re codec net tr expand metrics_handler events d).current
  unfolding run_daemon
  run_daemon-IsRouted [] d h = h
  run_daemon-IsRouted (event ∷ events) d h =
      run_daemon-IsRouted events _ (happen-IsRouted event d h)

  start-IsRouted :
      (raw : Config) (path : Bytes) (on_disk : Snapshot) {d : Daemon}
      → start_daemon fl re codec net tr expand metrics_handler raw path on_disk ≡ some d
      → IsRouted d.current
  unfolding start_daemon
  start-IsRouted raw path on_disk {d} e = elim (Result-cases (load fl net re expand raw)) [
    | inl (_, bad) ↦ cc (rw (start_daemon, bad) at e)
    | inr (cfg, good) ↦
        let stats = load_from_disk on_disk [] in
        elim (Result-cases (new_server_with_stats re cfg stats)) [
          | inl (_, bad) ↦ cc (rw (start_daemon, good, bad) at e)
          | inr (s, built) ↦
              rw (← some-injective _ _ (rw (start_daemon, good, built) at e))
                (new_server-IsRouted cfg stats built)
        ]
  ]

  -- From a start that succeeds, through any sequence of requests, resets, reloads and writes of the
  -- statistics, the daemon sends a request to no provider but the enabled ones of its current
  -- configuration whose circuit is not open when the request comes in: any other upstream call that
  -- does the same for those leaves the handler with the same result.
  pub daemon-agree :
      (raw : Config) (path : Bytes) (on_disk : Snapshot) (events : List Happening) {d : Daemon}
      → start_daemon fl re codec net tr expand metrics_handler raw path on_disk ≡ some d
      → (other : UpstreamOf) (exchange : ℕ → Exchange) (start : ℤ) (env : ℕ → Attempt) (r : Request)
        (resp : Response)
      → let s = (run_daemon fl re codec net tr expand metrics_handler events d).current in
        let w : World = record { stats = s.stats; selector = s.selector; response = resp } in
        ((r : Request) (body model : Bytes)
          → AgreesOn
              (IsUsable s.cfg (unix start) s.stats)
              (upstream_of fl re codec net tr s.cfg exchange r body model)
              (other r body model))
        → serve fl re codec net tr s.cfg exchange start env r w
          ≡ handle_proxy fl re codec s.cfg other start env r w
  daemon-agree raw path on_disk events {d} e other exchange start env r resp agree =
      let s = (run_daemon fl re codec net tr expand metrics_handler events d).current in
      serve-agree fl re codec net tr s.cfg exchange other start env r _
        (run_daemon-IsRouted events d (start-IsRouted raw path on_disk e)) agree
