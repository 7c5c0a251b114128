-- ===== src/Proxy/Daemon.antt =====
-- The server that runs: `ReloadableHandler` of internal/proxy/reloadable.go, which holds the current
-- server, and what cmd/ai-proxy-pool does to it: `runServer` of run.go, and `reloadConfig` of
-- reload.go with the path of the statistics in runtime_state.go. Each step runs to its end before the
-- next. What a file holds is given with the step that reads it; a file that cannot be read or has no
-- statistics gives none. Writing a file succeeds.
pub mod Sound
pub mod Routed
mod Tests
use ai_proxy_pool.Base.{
  ℕ, ◌≡◌, refl, Bool, true, false, not, ◌&&◌, List, [], ◌∷◌, Option, none, some, if◌then◌else◌,
}
use ai_proxy_pool.Base.Int.{ℤ}
use ai_proxy_pool.Base.Float.{Float}
use ai_proxy_pool.Base.Json.{Codec}
use ai_proxy_pool.Base.Regexp.{Regexp}
use ai_proxy_pool.Base.Result.{Result, ok, err}
use ai_proxy_pool.Base.Text.{Bytes, str_eq}
use ai_proxy_pool.Base.Dict.{insert}
use ai_proxy_pool.Base.Url.{Net}
use ai_proxy_pool.Config.{Config}
use ai_proxy_pool.Config.Validate.{load}
use ai_proxy_pool.Router.{is_empty}
use ai_proxy_pool.Stats.Provider.{GlobalStats, ProviderStatView}
use ai_proxy_pool.Stats.Persist.{persisted, load_from_disk}
use ai_proxy_pool.Proxy.World.{Attempt, Request, Response}
use ai_proxy_pool.Proxy.Upstream.{Translation, Exchange}
use ai_proxy_pool.Proxy.Server.{Server, new_server_with_stats, serve_http}

abbrev pub Snapshot : Type 0
Snapshot = List (Bytes × ProviderStatView)

-- The current server, the path of its statistics, and the files of statistics that were written.
pub record Daemon : Type 0 where
  pub current : Server
  pub stats_path : Bytes
  pub files : List (Bytes × Snapshot)

-- `PersistTo`, by the ticker, at the end, and when the path changes.
unfoldable pub persist : Daemon → Daemon
unfolding persisted insert
persist d = record d { files = insert d.stats_path (persisted d.current.stats) d.files }

abbrev has_moved : Bytes → Daemon → Bool
has_moved path d = not (is_empty d.stats_path) && not (str_eq d.stats_path path)

-- `Reload`, with the new path; a server that cannot be built leaves the current one.
abbrev swapped : {E : Type 0} → Bytes → Daemon → Result E Server → Daemon
swapped path d (err e) = d
swapped path d (ok server) = record d { current = server; stats_path = path }

-- What happens to a daemon: a request, a change of the configuration, or the ticker.
pub data Happening : Type 0 where
  request : (ℕ → Exchange) → ℤ → (ℕ → Attempt) → Request → Happening
  change : Option Config → Bytes → Snapshot → Happening
  tick : Happening

module _ (fl : Float) (re : Regexp) (codec : Codec) (net : Net) (tr : Translation)
    (expand : Bytes → Bytes) (metrics_handler : Request → Response → Response) where
  -- Behind the loading of the configuration.
  unfoldable pub rebuild : Config → Bytes → Snapshot → Daemon → Daemon
  unfolding str_eq persist load_from_disk new_server_with_stats
  rebuild cfg path on_disk d =
      if has_moved path d
      then swapped path (persist d) (new_server_with_stats re cfg (load_from_disk on_disk []))
      else swapped path d (new_server_with_stats re cfg d.current.stats)

  -- The configuration is none where it cannot be read.
  unfoldable pub reload_config : Option Config → Bytes → Snapshot → Daemon → Daemon
  unfolding rebuild load
  reload_config none path on_disk d = d
  reload_config (some raw) path on_disk d = elim (load fl net re expand raw) [
    | err e ↦ d
    | ok cfg ↦ rebuild cfg path on_disk d
  ]

  -- The start of `runServer`, none where it gives up.
  unfoldable pub start_daemon : Config → Bytes → Snapshot → Option Daemon
  unfolding load load_from_disk new_server_with_stats
  start_daemon raw path on_disk = elim (load fl net re expand raw) [
    | err e ↦ none
    | ok cfg ↦ elim (new_server_with_stats re cfg (load_from_disk on_disk [])) [
      | err e ↦ none
      | ok server ↦ some (record { current = server; stats_path = path; files = [] })
    ]
  ]

  unfoldable pub happen : Happening → Daemon → Daemon
  unfolding serve_http reload_config persist
  happen (request exchange start env r) d = record d {
    current = (serve_http fl re codec net tr metrics_handler exchange start env r d.current).0;
  }
  happen (change raw path on_disk) d = reload_config raw path on_disk d
  happen tick d = persist d

  unfoldable pub run_daemon : List Happening → Daemon → Daemon
  unfolding happen
  run_daemon [] d = d
  run_daemon (h ∷ hs) d = run_daemon hs (happen h d)
