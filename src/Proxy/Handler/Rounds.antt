-- ===== src/Proxy/Handler/Rounds.antt =====
-- What a round leaves when the loop goes on.
use ai_proxy_pool.Base.{
  ℕ, ◌≡◌, sym, ap, ◌∙◌, inl, inr, List, [], ◌∷◌, ◌++◌, none, some, arith, Option-cases,
}
use mathlib.Core.Path.{subst}
use ai_proxy_pool.Base.Int.{ℤ}
use ai_proxy_pool.Base.Float.{Float}
use ai_proxy_pool.Base.Regexp.{Regexp}
use ai_proxy_pool.Base.Text.{Bytes}
use ai_proxy_pool.Base.Result.{ok, Result-cases}
use ai_proxy_pool.Config.{Config, ProviderConfig}
use ai_proxy_pool.Router.{SelectionInput, select}
use ai_proxy_pool.Router.Invariant.{IsWf}
use ai_proxy_pool.Router.Select.{IsEligible, select-IsEligible}
use ai_proxy_pool.Router.Count.{select-Recounts, Recounts-IsWf}
use ai_proxy_pool.Proxy.Breaker.{GoError}
use ai_proxy_pool.Proxy.World.{World, Attempt}
use ai_proxy_pool.Proxy.Handler.{
  Upstream, LoopState, returned, again, settle, enter, try_provider, after_error, round,
}

-- What the handler asks of `doUpstreamRequest`.
abbrev pub KeepsSelector : Upstream → Type 0
KeepsSelector upstream =
    (w : World) (p : ProviderConfig) (attempt max : ℕ)
    → (upstream w p attempt max).world.selector ≡ w.selector

-- The loop goes on behind an attempt at an eligible provider, which is excluded from here on.
pub record Tried (re : Regexp) (cfg : Config) (base : SelectionInput) (env : Attempt)
    (st st' : LoopState) : Type 0 where
  pub provider : ProviderConfig
  pub selected :
      (select re st.world.selector env.draw (record base { excluded_providers = st.excluded })).1
      ≡ ok provider
  pub eligible :
      IsEligible cfg.providers st.world.selector
        (record base { excluded_providers = st.excluded })
        provider
  pub excluded : st'.excluded ≡ st.excluded ++ provider.name ∷ []
  pub selector : IsWf cfg.providers st'.world.selector

module _ (fl : Float) (re : Regexp) (cfg : Config) (upstream : Upstream)
    (law : KeepsSelector upstream) where
  after_error-again :
      (env : Attempt) (attempt max : ℕ) (name : Bytes) (status_code : ℤ) (e : GoError) (w : World)
      (excluded : List Bytes) {st' : LoopState}
      → after_error fl re cfg upstream env attempt max name status_code e w excluded ≡ again st'
      → (st'.world ≡ w) × (st'.excluded ≡ excluded ++ name ∷ [])
  unfolding after_error
  after_error-again env attempt max name status_code e w excluded h = (ground arith, ground arith)

  try_provider-again :
      (env : Attempt) (attempt max : ℕ) (p : ProviderConfig) (st : LoopState) {st' : LoopState}
      → try_provider fl re cfg upstream env attempt max p st ≡ again st'
      → (st'.world.selector ≡ st.world.selector) × (st'.excluded ≡ st.excluded ++ p.name ∷ [])
  unfolding try_provider enter settle
  try_provider-again env attempt max p st h =
      let r = upstream (enter fl re cfg upstream p.name st.world) p attempt max in
      let w = settle fl re cfg upstream env p.name r in
      elim (Option-cases r.error) [
        | inl done ↦ cc (rw (done, try_provider) at h)
        | inr (e, failed) ↦
            let (same, out) =
              after_error-again env attempt max p.name r.status_code e w st.excluded
                (rw (failed, try_provider) at h) in
            (
              ap (λ v. v.selector) same
                  ∙ law (enter fl re cfg upstream p.name st.world) p attempt max,
              out,
            )
      ]

  -- A round depends on the upstream for the provider of its selection alone.
  pub round-alone :
      (other : Upstream) (base : SelectionInput) (env : Attempt) (attempt max : ℕ) (st : LoopState)
      (p : ProviderConfig)
      → (select re st.world.selector env.draw (record base { excluded_providers = st.excluded })).1
        ≡ ok p
      → ((w : World) → upstream w p attempt max ≡ other w p attempt max)
      → round fl re cfg upstream base env attempt max st
        ≡ round fl re cfg other base env attempt max st
  unfolding round try_provider enter settle after_error
  round-alone other base env attempt max st p selected agree =
      rw (selected, round)
        (ap
          (λ r. elim r.error [
            | none ↦ returned (settle fl re cfg upstream env p.name r)
            | some e ↦
                after_error fl re cfg upstream env attempt max p.name r.status_code e
                  (settle fl re cfg upstream env p.name r) st.excluded
          ])
          (agree (enter fl re cfg upstream p.name _)))

  pub round-again :
      (base : SelectionInput) (env : Attempt) (attempt max : ℕ) (st : LoopState) {st' : LoopState}
      → IsWf cfg.providers st.world.selector
      → round fl re cfg upstream base env attempt max st ≡ again st'
      → Tried re cfg base env st st'
  unfolding round
  round-again base env attempt max st wf h =
      let input : SelectionInput = record base { excluded_providers = st.excluded } in
      elim (Result-cases (select re st.world.selector env.draw input).1) [
        | inl (e, refused) ↦ cc (rw (refused, round) at h)
        | inr (p, selected) ↦
            let (same, out) = try_provider-again env attempt max p _ (rw (selected, round) at h) in
            record {
              provider = p;
              selected = selected;
              eligible =
                  select-IsEligible cfg.providers st.world.selector wf re env.draw input selected;
              excluded = out;
              selector = subst (IsWf cfg.providers) (sym same) (
                  Recounts-IsWf cfg.providers (select-Recounts re st.world.selector env.draw input)
                    wf);
            }
      ]
