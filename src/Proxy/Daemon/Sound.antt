-- ===== src/Proxy/Daemon/Sound.antt =====
-- The counters of a daemon, through requests, resets, reloads and restarts.
use ai_proxy_pool.Base.{ℕ, ◌≡◌, refl, ◌∙◌, inl, inr, List, [], ◌∷◌, none, some, arith, Bool-cases}
use mathlib.Core.Path.{subst}
use mathlib.Core.Option.{some-injective}
use ai_proxy_pool.Base.Int.{ℤ, pos, ◌+ℤ◌}
use ai_proxy_pool.Base.Word.{int64}
use ai_proxy_pool.Base.Float.{Float}
use ai_proxy_pool.Base.Json.{Codec}
use ai_proxy_pool.Base.Regexp.{Regexp}
use ai_proxy_pool.Base.Result.{Result-cases}
use ai_proxy_pool.Base.Text.{Bytes, codes, str_eq, str_eq→eq}
use ai_proxy_pool.Base.Dict.{lookup}
use ai_proxy_pool.Base.Url.{Net}
use ai_proxy_pool.Config.{Config}
use ai_proxy_pool.Config.Validate.{load}
use ai_proxy_pool.Router.Build.{new_selector}
use ai_proxy_pool.Stats.Provider.{
  ProviderStats, GlobalStats, stats_of, map_stats, reset_counters, reset_all_counters, update,
}
use ai_proxy_pool.Stats.Update.{stats_of-update_self, stats_of-update_ne}
use ai_proxy_pool.Stats.Reset.{stats_of_cons}
use ai_proxy_pool.Stats.Persist.{load_view, load_from_disk}
use ai_proxy_pool.Proxy.Handler.Counters.{IsBalanced, KeepsAll}
use ai_proxy_pool.Proxy.World.{World, Attempt, Request, Response}
use ai_proxy_pool.Proxy.Upstream.{Translation, Exchange}
use ai_proxy_pool.Proxy.Serve.{serve-KeepsAll}
use ai_proxy_pool.Proxy.Server.{
  Route, health, metrics, status, status_reset, proxy, route_of, handle_route, handle_health,
  handle_status, handle_status_reset, is_loopback_request, serve_http, new_server_with_stats,
}
use ai_proxy_pool.Proxy.Daemon.{
  Snapshot, Daemon, Happening, request, change, tick, persist, has_moved, swapped, rebuild,
  reload_config, start_daemon, happen, run_daemon,
}

-- No connection is active, and every request is counted as a success or as an error.
abbrev IsIdle : ProviderStats → Type 0
IsIdle ps = (ps.active_connections ≡ pos 0) × IsBalanced ps

abbrev pub IsSound : GlobalStats → Type 0
IsSound g = (name : Bytes) → IsIdle (stats_of g name)

-- A file whose requests are counted as successes and errors.
abbrev pub HasBalance : Snapshot → Type 0
HasBalance [] = Unit
HasBalance ((name, view) ∷ snap) =
    (view.total_requests ≡ int64 (view.success_requests +ℤ view.error_requests)) × HasBalance snap

abbrev pub IsFair : Happening → Type 0
IsFair (request exchange start env r) = Unit
IsFair (change raw path on_disk) = HasBalance on_disk
IsFair tick = Unit

abbrev pub AreFair : List Happening → Type 0
AreFair [] = Unit
AreFair (h ∷ hs) = IsFair h × AreFair hs

empty-IsSound : IsSound []
unfolding stats_of lookup int64 ◌+ℤ◌
empty-IsSound name = (refl, refl)

KeepsAll-IsSound : (g g' : GlobalStats) → KeepsAll g g' → IsSound g → IsSound g'
KeepsAll-IsSound g g' k h name =
    let (idle, balanced) = h name in
    ((k name).active (rw idle (omega arith, omega arith)) ∙ idle, (k name).balanced balanced)

reset-IsSound : (g : GlobalStats) → IsSound (reset_all_counters g)
unfolding reset_all_counters map_stats reset_counters int64 ◌+ℤ◌
reset-IsSound [] name = empty-IsSound name
reset-IsSound ((n, ps) ∷ g) name = elim (Bool-cases (str_eq n name)) [
  | inl same ↦ rw (stats_of_cons, same) (refl, refl)
  | inr other ↦ rw (stats_of_cons, other) (reset-IsSound g name)
]

load-IsSound :
    (snap : Snapshot) (g : GlobalStats)
    → HasBalance snap
    → IsSound g
    → IsSound (load_from_disk snap g)
unfolding load_from_disk load_view
load-IsSound [] g b h = h
load-IsSound ((n, view) ∷ snap) g (balance, b) h =
    load-IsSound snap (update n (load_view view) g) b λ name. elim (Bool-cases (str_eq n name)) [
      | inl same ↦
          subst (λ m. IsIdle (stats_of (update n (load_view view) g) m)) (str_eq→eq n name same)
            (rw (stats_of-update_self) ((h n).0, balance))
      | inr other ↦ rw (stats_of-update_ne (load_view view) g n name other) (h name)
    ]

module _ (fl : Float) (re : Regexp) (codec : Codec) (net : Net) (tr : Translation)
    (expand : Bytes → Bytes) (metrics_handler : Request → Response → Response) where
  handle_route-IsSound :
      (cfg : Config) (exchange : ℕ → Exchange) (start : ℤ) (env : ℕ → Attempt) (route : Route)
      (r : Request) (w : World)
      → IsSound w.stats
      → IsSound
          (handle_route fl re codec net tr metrics_handler cfg exchange start env route r w).stats
  unfolding handle_health handle_status handle_status_reset
  handle_route-IsSound cfg exchange start env health r w h = h
  handle_route-IsSound cfg exchange start env metrics r w h = h
  handle_route-IsSound cfg exchange start env status r w h =
      elim (Bool-cases (is_loopback_request net r.remote_addr)) [
        | inl here ↦ rw here h
        | inr away ↦ rw away h
      ]
  handle_route-IsSound cfg exchange start env status_reset r w h =
      elim (Bool-cases (str_eq r.method (codes "POST"))) [
        | inr other ↦ rw other h
        | inl post ↦ elim (Bool-cases (is_loopback_request net r.remote_addr)) [
          | inl here ↦ rw (post, here) (reset-IsSound w.stats)
          | inr away ↦ rw (post, away) h
        ]
      ]
  handle_route-IsSound cfg exchange start env proxy r w h =
      KeepsAll-IsSound w.stats _ (serve-KeepsAll fl re codec net tr cfg exchange start env r w) h

  swapped-IsSound :
      (cfg : Config) (stats : GlobalStats) (path : Bytes) (d : Daemon)
      → IsSound stats
      → IsSound d.current.stats
      → IsSound (swapped path d (new_server_with_stats re cfg stats)).current.stats
  unfolding new_server_with_stats
  swapped-IsSound cfg stats path d s h =
      elim (Result-cases (new_selector re cfg.router cfg.providers)) [
        | inl (e, bad) ↦ rw (new_server_with_stats, bad) h
        | inr (selector, good) ↦ rw (new_server_with_stats, good) s
      ]

  rebuild-IsSound :
      (cfg : Config) (path : Bytes) (on_disk : Snapshot) (d : Daemon)
      → HasBalance on_disk
      → IsSound d.current.stats
      → IsSound (rebuild fl re codec net tr expand metrics_handler cfg path on_disk d).current.stats
  unfolding rebuild persist
  rebuild-IsSound cfg path on_disk d b h = elim (Bool-cases (has_moved path d)) [
    | inl moved ↦
        rw moved
          (swapped-IsSound cfg _ path (persist d) (load-IsSound on_disk [] b empty-IsSound) h)
    | inr same ↦ rw same (swapped-IsSound cfg d.current.stats path d h h)
  ]

  happen-IsSound :
      (event : Happening) (d : Daemon)
      → IsFair event
      → IsSound d.current.stats
      → IsSound (happen fl re codec net tr expand metrics_handler event d).current.stats
  unfolding happen serve_http persist reload_config
  happen-IsSound (request exchange start env r) d b h =
      handle_route-IsSound d.current.cfg exchange start env (route_of r.path) r _ h
  happen-IsSound (change none path on_disk) d b h = h
  happen-IsSound (change (some raw) path on_disk) d b h =
      elim (Result-cases (load fl net re expand raw)) [
        | inl (e, bad) ↦ rw (happen, reload_config, bad) h
        | inr (cfg, good) ↦
            rw (happen, reload_config, good) (rebuild-IsSound cfg path on_disk d b h)
      ]
  happen-IsSound tick d b h = h

  run_daemon-IsSound :
      (events : List Happening) (d : Daemon)
      → AreFair events
      → IsSound d.current.stats
      → IsSound (run_daemon fl re codec net tr expand metrics_handler events d).current.stats
  unfolding run_daemon
  run_daemon-IsSound [] d b h = h
  run_daemon-IsSound (event ∷ events) d (b, bs) h =
      run_daemon-IsSound events _ bs (happen-IsSound event d b h)

  start-IsSound :
      (raw : Config) (path : Bytes) (on_disk : Snapshot) {d : Daemon}
      → start_daemon fl re codec net tr expand metrics_handler raw path on_disk ≡ some d
      → HasBalance on_disk
      → IsSound d.current.stats
  unfolding start_daemon new_server_with_stats
  start-IsSound raw path on_disk {d} e b = elim (Result-cases (load fl net re expand raw)) [
    | inl (_, bad) ↦ cc (rw (start_daemon, bad) at e)
    | inr (cfg, good) ↦ elim (Result-cases (new_selector re cfg.router cfg.providers)) [
      | inl (_, bad) ↦ cc (rw (start_daemon, good, new_server_with_stats, bad) at e)
      | inr (selector, built) ↦
          rw (← some-injective _ _ (rw (start_daemon, good, new_server_with_stats, built) at e))
            (load-IsSound on_disk [] b empty-IsSound)
    ]
  ]

  -- From a start that succeeds, through any sequence of requests, to any endpoint, of resets, of
  -- reloads, whether they succeed or fail and also to another file of statistics, and of writes of
  -- the statistics: between two requests no provider has an active connection, and its requests are
  -- its successes and errors together. The same must hold of the requests in the files that are read.
  pub daemon-IsSound :
      (raw : Config) (path : Bytes) (on_disk : Snapshot) (events : List Happening) {d : Daemon}
      → start_daemon fl re codec net tr expand metrics_handler raw path on_disk ≡ some d
      → HasBalance on_disk
      → AreFair events
      → IsSound (run_daemon fl re codec net tr expand metrics_handler events d).current.stats
  daemon-IsSound raw path on_disk events {d} e b fair =
      run_daemon-IsSound events d fair (start-IsSound raw path on_disk e b)
