-- ===== src/Proxy/Handler/Balance.antt =====
-- What a whole run of `handleProxy` does to the counters of the providers.
use ai_proxy_pool.Base.{
  ℕ, zero, suc, ◌≡◌, ap, ◌∙◌, inl, inr, true, false, arith, Bool-cases, Option-cases,
}
use mathlib.Core.Path.{subst}
use ai_proxy_pool.Base.Int.{ℤ}
use ai_proxy_pool.Base.Float.{Float}
use ai_proxy_pool.Base.Regexp.{Regexp}
use ai_proxy_pool.Base.Json.{Codec}
use ai_proxy_pool.Base.Text.{Bytes, str_eq, str_eq→eq}
use ai_proxy_pool.Base.Result.{Result-cases}
use ai_proxy_pool.Config.{Config, ProviderConfig}
use ai_proxy_pool.Router.{SelectionInput, select}
use ai_proxy_pool.Stats.Provider.{stats_of, get_or_create}
use ai_proxy_pool.Stats.Update.{stats_of-update_self, stats_of-update_ne, stats_of-get_or_create}
use ai_proxy_pool.Proxy.Auth.{is_authorized}
use ai_proxy_pool.Proxy.World.{World, Attempt, Request}
use ai_proxy_pool.Proxy.Handler.Worlds.{world_of, after_error-world}
use ai_proxy_pool.Proxy.Handler.{
  Upstream, UpstreamOf, LoopState, Next-cases, ended, stopped, next, begin_attempt, settle, enter,
  try_provider, round, give_up, attempts, handle_proxy, proxy_body, read_request_body_with_limit,
  refuse_unauthorized,
}
use ai_proxy_pool.Proxy.Handler.Counters.{
  KeepsCounters, Keeps, Keeps-refl, SameCounters-Keeps, attempt-Keeps, KeepsAll, KeepsAll-trans,
  create_all-KeepsAll,
}

module _ (fl : Float) (re : Regexp) (cfg : Config) (upstream : Upstream)
    (law : KeepsCounters upstream) where
  enter_self :
      (name : Bytes) (w : World)
      → stats_of (enter fl re cfg upstream name w).stats name
        ≡ begin_attempt cfg.server.circuit_breaker (stats_of w.stats name)
  unfolding enter
  enter_self name w =
      stats_of-update_self _ (get_or_create w.stats name) name
      ∙ ap (begin_attempt cfg.server.circuit_breaker) (stats_of-get_or_create w.stats name name)

  enter_ne :
      (name asked : Bytes) (w : World)
      → str_eq name asked ≡ false
      → stats_of (enter fl re cfg upstream name w).stats asked ≡ stats_of w.stats asked
  unfolding enter
  enter_ne name asked w e =
      stats_of-update_ne _ (get_or_create w.stats name) name asked e
      ∙ stats_of-get_or_create w.stats name asked

  -- The attempt on one provider, in the store.
  settle-KeepsAll :
      (env : Attempt) (p : ProviderConfig) (attempt max : ℕ) (w : World)
      → KeepsAll w.stats
          (settle fl re cfg upstream env p.name
            (upstream (enter fl re cfg upstream p.name w) p attempt max)).stats
  unfolding settle
  settle-KeepsAll env p attempt max w name =
      let entered = enter fl re cfg upstream p.name w in
      let r = upstream entered p attempt max in
      let cb = cfg.server.circuit_breaker in
      elim (Bool-cases (str_eq p.name name)) [
        | inl same ↦
            subst
              (λ n.
                Keeps (stats_of w.stats n)
                  (stats_of (settle fl re cfg upstream env p.name r).stats n))
              (str_eq→eq p.name name same)
              (rw (stats_of-update_self) (
                attempt-Keeps fl cb env _ r.status_code r.error (stats_of w.stats p.name)
                  (rw (← enter_self p.name w) (law entered p attempt max p.name))))
        | inr other ↦ rw (stats_of-update_ne _ r.world.stats p.name name other) (
            rw (← enter_ne p.name name w other)
              (SameCounters-Keeps (law entered p attempt max name)))
      ]

  try_provider-KeepsAll :
      (env : Attempt) (attempt max : ℕ) (p : ProviderConfig) (st : LoopState)
      → KeepsAll st.world.stats
          (world_of (try_provider fl re cfg upstream env attempt max p st)).stats
  unfolding try_provider
  try_provider-KeepsAll env attempt max p st =
      let r = upstream (enter fl re cfg upstream p.name st.world) p attempt max in
      let w = settle fl re cfg upstream env p.name r in
      let kept = settle-KeepsAll env p attempt max st.world in
      elim (Option-cases r.error) [
        | inl done ↦ rw (done, try_provider) kept
        | inr (e, failed) ↦
            rw
              (
                failed,
                try_provider,
                after_error-world fl re cfg upstream env attempt max p.name r.status_code e w
                    st.excluded,
              )
              kept
      ]

  round-KeepsAll :
      (base : SelectionInput) (env : Attempt) (attempt max : ℕ) (st : LoopState)
      → KeepsAll st.world.stats (world_of (round fl re cfg upstream base env attempt max st)).stats
  unfolding round
  round-KeepsAll base env attempt max st =
      elim (Result-cases
        (select re st.world.selector env.draw
          (record base { excluded_providers = st.excluded })).1) [
            | inl (e, refused) ↦ rw (refused, round) (λ name. Keeps-refl _)
            | inr (p, selected) ↦ rw (selected, round) (try_provider-KeepsAll env attempt max p _)
          ]

  attempts-KeepsAll :
      (base : SelectionInput) (env : ℕ → Attempt) (left attempt max : ℕ) (st : LoopState)
      → KeepsAll st.world.stats (attempts fl re cfg upstream base env left attempt max st).stats
  unfolding attempts give_up
  attempts-KeepsAll base env zero attempt max st = λ name. Keeps-refl (stats_of st.world.stats name)
  attempts-KeepsAll base env (suc left) attempt max st =
      let kept = round-KeepsAll base (env attempt) attempt max st in
      elim (Next-cases (round fl re cfg upstream base (env attempt) attempt max st)) [
        | ended w e ↦ rw (e, attempts) (rw e at kept)
        | stopped st' e ↦ rw (e, attempts) (rw e at kept)
        | next st' e ↦
            rw (e, attempts)
              (KeepsAll-trans _ _ _ (rw e at kept)
                (attempts-KeepsAll base env left (suc attempt) max st'))
      ]

module _ (fl : Float) (re : Regexp) (codec : Codec) (cfg : Config) (upstream : UpstreamOf) where
  refuse_unauthorized-stats :
      (w : World) → (refuse_unauthorized fl re codec cfg upstream w).stats ≡ w.stats
  unfolding refuse_unauthorized
  refuse_unauthorized-stats w = ground arith

  -- A request, however it ends and however often it is retried, leaves the active connections of
  -- every provider where they were, and keeps every provider's requests equal to its successes and
  -- errors together, where they were equal before. The upstream call must leave those counters alone.
  pub handle_proxy-KeepsAll :
      ((r : Request) (body model : Bytes) → KeepsCounters (upstream r body model))
      → (start : ℤ) (env : ℕ → Attempt) (r : Request) (w : World)
      → KeepsAll w.stats (handle_proxy fl re codec cfg upstream start env r w).stats
  unfolding handle_proxy proxy_body
  handle_proxy-KeepsAll law start env r w =
      elim (Bool-cases (is_authorized cfg.server.auth r.header)) [
        | inr refused ↦
            rw (refused, handle_proxy, refuse_unauthorized-stats)
              (λ name. Keeps-refl (stats_of w.stats name))
        | inl granted ↦
            elim (Result-cases (read_request_body_with_limit r cfg.server.max_request_body_bytes)) [
              | inl (true, broke) ↦
                  rw (granted, broke, handle_proxy) (λ name. Keeps-refl (stats_of w.stats name))
              | inl (false, broke) ↦
                  rw (granted, broke, handle_proxy) (λ name. Keeps-refl (stats_of w.stats name))
              | inr (body, complete) ↦
                  rw (granted, complete, handle_proxy)
                    (KeepsAll-trans _ _ _ (create_all-KeepsAll w.stats cfg.providers) (
                      attempts-KeepsAll fl re cfg (upstream r body _) (law r body _) _ env _ 1 _ _))
            ]
      ]
