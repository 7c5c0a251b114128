-- ===== src/Proxy/Handler/Selectors.antt =====
-- What `handleProxy` does to the selector: it stays well formed.
use ai_proxy_pool.Base.{
  ℕ, zero, suc, ◌≡◌, sym, ap, ◌∙◌, inl, inr, true, false, arith, Bool-cases, Option-cases,
}
use mathlib.Core.Path.{subst}
use ai_proxy_pool.Base.Int.{ℤ}
use ai_proxy_pool.Base.Float.{Float}
use ai_proxy_pool.Base.Regexp.{Regexp}
use ai_proxy_pool.Base.Json.{Codec}
use ai_proxy_pool.Base.Text.{Bytes}
use ai_proxy_pool.Base.Result.{Result-cases}
use ai_proxy_pool.Config.{Config, ProviderConfig}
use ai_proxy_pool.Router.{SelectionInput, select}
use ai_proxy_pool.Router.Invariant.{IsWf}
use ai_proxy_pool.Router.Count.{select-Recounts, Recounts-IsWf}
use ai_proxy_pool.Proxy.Auth.{is_authorized}
use ai_proxy_pool.Proxy.World.{World, Attempt, Request}
use ai_proxy_pool.Proxy.Handler.{
  Upstream, UpstreamOf, LoopState, Next-cases, ended, stopped, next, settle, enter, try_provider,
  round, give_up, attempts, handle_proxy, proxy_body, read_request_body_with_limit,
  refuse_unauthorized,
}
use ai_proxy_pool.Proxy.Handler.Worlds.{world_of, after_error-world}
use ai_proxy_pool.Proxy.Handler.Rounds.{KeepsSelector}

module _ (fl : Float) (re : Regexp) (cfg : Config) (upstream : Upstream)
    (law : KeepsSelector upstream) where
  try_provider-selector :
      (env : Attempt) (attempt max : ℕ) (p : ProviderConfig) (st : LoopState)
      → (world_of (try_provider fl re cfg upstream env attempt max p st)).selector
        ≡ st.world.selector
  unfolding try_provider enter settle
  try_provider-selector env attempt max p st =
      let r = upstream (enter fl re cfg upstream p.name st.world) p attempt max in
      let w = settle fl re cfg upstream env p.name r in
      let kept = law (enter fl re cfg upstream p.name st.world) p attempt max in
      elim (Option-cases r.error) [
        | inl done ↦ rw (done, try_provider) kept
        | inr (e, failed) ↦
            rw (failed, try_provider)
              (ap (λ v. v.selector)
                  (after_error-world fl re cfg upstream env attempt max p.name r.status_code e w
                    st.excluded)
                ∙ kept)
      ]

  round-IsWf :
      (base : SelectionInput) (env : Attempt) (attempt max : ℕ) (st : LoopState)
      → IsWf cfg.providers st.world.selector
      → IsWf cfg.providers (world_of (round fl re cfg upstream base env attempt max st)).selector
  unfolding round
  round-IsWf base env attempt max st wf =
      let input : SelectionInput = record base { excluded_providers = st.excluded } in
      let recounted =
        Recounts-IsWf cfg.providers (select-Recounts re st.world.selector env.draw input) wf in
      elim (Result-cases (select re st.world.selector env.draw input).1) [
        | inl (e, refused) ↦ rw (refused, round) recounted
        | inr (p, selected) ↦
            rw (selected, round)
              (subst (IsWf cfg.providers) (sym (try_provider-selector env attempt max p _))
                recounted)
      ]

  attempts-IsWf :
      (base : SelectionInput) (env : ℕ → Attempt) (left attempt max : ℕ) (st : LoopState)
      → IsWf cfg.providers st.world.selector
      → IsWf cfg.providers (attempts fl re cfg upstream base env left attempt max st).selector
  unfolding attempts give_up
  attempts-IsWf base env zero attempt max st wf = wf
  attempts-IsWf base env (suc left) attempt max st wf =
      let kept = round-IsWf base (env attempt) attempt max st wf in
      elim (Next-cases (round fl re cfg upstream base (env attempt) attempt max st)) [
        | ended w e ↦ rw (e, attempts) (rw e at kept)
        | stopped st' e ↦ rw (e, attempts) (rw e at kept)
        | next st' e ↦
            rw (e, attempts) (attempts-IsWf base env left (suc attempt) max st' (rw e at kept))
      ]

module _ (fl : Float) (re : Regexp) (codec : Codec) (cfg : Config) (upstream : UpstreamOf) where
  refuse_unauthorized-selector :
      (w : World) → (refuse_unauthorized fl re codec cfg upstream w).selector ≡ w.selector
  unfolding refuse_unauthorized
  refuse_unauthorized-selector w = ground arith

  -- A request leaves the selector well formed.
  pub handle_proxy-IsWf :
      ((r : Request) (body model : Bytes) → KeepsSelector (upstream r body model))
      → (start : ℤ) (env : ℕ → Attempt) (r : Request) (w : World) → IsWf cfg.providers w.selector
      → IsWf cfg.providers (handle_proxy fl re codec cfg upstream start env r w).selector
  unfolding handle_proxy proxy_body
  handle_proxy-IsWf law start env r w wf =
      elim (Bool-cases (is_authorized cfg.server.auth r.header)) [
        | inr refused ↦ rw (refused, handle_proxy, refuse_unauthorized-selector) wf
        | inl granted ↦
            elim (Result-cases (read_request_body_with_limit r cfg.server.max_request_body_bytes)) [
              | inl (true, broke) ↦ rw (granted, broke, handle_proxy) wf
              | inl (false, broke) ↦ rw (granted, broke, handle_proxy) wf
              | inr (body, complete) ↦
                  rw (granted, complete, handle_proxy)
                    (attempts-IsWf fl re cfg (upstream r body _) (law r body _) _ env _ 1 _ _ wf)
            ]
      ]
