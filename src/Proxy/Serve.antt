-- ===== src/Proxy/Serve.antt =====
-- The handler with the upstream request of this program: `handleProxy` on a server that `NewServer`
-- of internal/proxy/handler.go made.
use ai_proxy_pool.Base.{ℕ, ◌≡◌, false, List, [], ◌∷◌, if◌then◌else◌}
use ai_proxy_pool.Base.Int.{ℤ}
use ai_proxy_pool.Base.Float.{Float}
use ai_proxy_pool.Base.Json.{Codec}
use ai_proxy_pool.Base.Regexp.{Regexp}
use ai_proxy_pool.Base.Text.{Bytes}
use ai_proxy_pool.Base.Url.{Net}
use ai_proxy_pool.Config.{Config, ProviderConfig, enabled_or_default}
use ai_proxy_pool.Router.Invariant.{IsWf}
use ai_proxy_pool.Proxy.World.{World, Attempt, Request}
use ai_proxy_pool.Proxy.Handler.{UpstreamOf, unix, handle_proxy}
use ai_proxy_pool.Proxy.Handler.Counters.{KeepsAll}
use ai_proxy_pool.Proxy.Handler.Balance.{handle_proxy-KeepsAll}
use ai_proxy_pool.Proxy.Handler.Selectors.{handle_proxy-IsWf}
use ai_proxy_pool.Proxy.Handler.Answers.{IsAnswered, IsOpen, handle_proxy-IsAnswered}
use ai_proxy_pool.Proxy.Handler.Circuits.{AgreesOn, IsUsable, handle_proxy-agree}
use ai_proxy_pool.Proxy.Upstream.{Translation, Exchange, do_upstream_request}
use ai_proxy_pool.Proxy.Upstream.Laws.{
  do_upstream_request-KeepsCounters, do_upstream_request-KeepsSelector,
  do_upstream_request-ReportsReply,
}

-- The keys of `clients`: every enabled provider has one.
unfoldable pub client_names : List ProviderConfig → List Bytes
unfolding enabled_or_default
client_names [] = []
client_names (provider ∷ providers) =
    let rest = client_names providers in
    if enabled_or_default provider then provider.name ∷ rest else rest

module _ (fl : Float) (re : Regexp) (codec : Codec) (net : Net) (tr : Translation) (cfg : Config)
    (exchange : ℕ → Exchange) where
  abbrev pub upstream_of : UpstreamOf
  upstream_of = do_upstream_request net re codec cfg tr (client_names cfg.providers) exchange

  unfoldable pub serve : ℤ → (ℕ → Attempt) → Request → World → World
  serve start env r w = handle_proxy fl re codec cfg upstream_of start env r w

  -- A request, however it ends and however often it is retried, leaves the active connections of
  -- every provider where they were, if they were an int64, and keeps every provider's requests equal
  -- to its successes and errors together, where they were equal before.
  pub serve-KeepsAll :
      (start : ℤ) (env : ℕ → Attempt) (r : Request) (w : World)
      → KeepsAll w.stats (serve start env r w).stats
  unfolding serve
  serve-KeepsAll start env r w =
      handle_proxy-KeepsAll fl re codec cfg upstream_of
        (do_upstream_request-KeepsCounters net re codec cfg tr _ exchange) start env r w

  pub serve-IsWf :
      (start : ℤ) (env : ℕ → Attempt) (r : Request) (w : World)
      → IsWf cfg.providers w.selector
      → IsWf cfg.providers (serve start env r w).selector
  unfolding serve
  serve-IsWf start env r w wf =
      handle_proxy-IsWf fl re codec cfg upstream_of
        (do_upstream_request-KeepsSelector net re codec cfg tr _ exchange) start env r w wf

  -- When the handler returns, a status has been written, whatever the authentication, the body, the
  -- selections and the attempts do, if none had been before and no attempt finds that the client has
  -- gone.
  pub serve-IsAnswered :
      (start : ℤ) (env : ℕ → Attempt) (r : Request) (w : World)
      → ((k : ℕ) → (env k).client_gone ≡ false)
      → IsOpen w.response
      → IsAnswered (serve start env r w).response
  unfolding serve
  serve-IsAnswered start env r w here fresh =
      handle_proxy-IsAnswered fl re codec cfg upstream_of
        (do_upstream_request-ReportsReply net re codec cfg tr _ exchange) start env r w here fresh

  -- A request is sent to no provider but the enabled ones of the configuration whose circuit is not
  -- open when the request comes in: any other upstream call that does the same for those leaves the
  -- handler with the same result. The selector must be well formed, as `NewSelector` makes it.
  pub serve-agree :
      (other : UpstreamOf) (start : ℤ) (env : ℕ → Attempt) (r : Request) (w : World)
      → IsWf cfg.providers w.selector
      → ((r : Request) (body model : Bytes)
          → AgreesOn
              (IsUsable cfg (unix start) w.stats)
              (upstream_of r body model)
              (other r body model))
      → serve start env r w ≡ handle_proxy fl re codec cfg other start env r w
  unfolding serve
  serve-agree other start env r w wf agree =
      handle_proxy-agree fl re codec cfg upstream_of other
        (do_upstream_request-KeepsSelector net re codec cfg tr _ exchange) start env r w wf agree
