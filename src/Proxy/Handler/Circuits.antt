-- ===== src/Proxy/Handler/Circuits.antt =====
-- Which providers the handler calls.
use ai_proxy_pool.Base.{
  ℕ, zero, suc, ◌≡◌, refl, sym, ap, ◌∙◌, inl, inr, true, false, List, [], ◌∷◌, arith, Bool-cases,
}
use mathlib.Core.List.{Memᴰ}
use mathlib.Core.Path.{subst}
use mathlib.Core.Bool.{false≢true}
use ai_proxy_pool.Base.Int.{ℤ}
use ai_proxy_pool.Base.Float.{Float}
use ai_proxy_pool.Base.Regexp.{Regexp}
use ai_proxy_pool.Base.Json.{Codec}
use ai_proxy_pool.Base.Text.{Bytes, str_eq_refl}
use ai_proxy_pool.Base.Dict.{contains}
use ai_proxy_pool.Base.Result.{Result-cases}
use ai_proxy_pool.Config.{Config, ProviderConfig, enabled_or_default}
use ai_proxy_pool.Router.{Selector, SelectionInput, select}
use ai_proxy_pool.Router.Invariant.{IsWf, contains-snoc}
use ai_proxy_pool.Router.Select.{IsEligible, select-IsEligible}
use ai_proxy_pool.Stats.Provider.{GlobalStats, stats_of}
use ai_proxy_pool.Proxy.Auth.{is_authorized}
use ai_proxy_pool.Proxy.World.{World, Attempt, Request}
use ai_proxy_pool.Proxy.Handler.{
  Upstream, UpstreamOf, LoopState, Next-cases, ended, stopped, next, round, give_up, attempts, unix,
  is_open, open_circuits, handle_proxy, proxy_body, refuse_unauthorized,
  read_request_body_with_limit,
}
use ai_proxy_pool.Proxy.Handler.Rounds.{KeepsSelector, Tried, round-again, round-alone}

-- A provider that a request may be sent to: configured, enabled, and its circuit not open.
pub record IsUsable (cfg : Config) (now : ℤ) (g : GlobalStats) (p : ProviderConfig) : Type 0 where
  pub configured : Memᴰ p cfg.providers
  pub enabled : enabled_or_default p ≡ true
  pub closed : is_open now (stats_of g p.name) ≡ false

-- Two upstream calls that agree on some providers.
abbrev pub AgreesOn : (ProviderConfig → Type 0) → Upstream → Upstream → Type 0
AgreesOn P u u' =
    (w : World) (p : ProviderConfig) (attempt max : ℕ)
    → P p
    → u w p attempt max ≡ u' w p attempt max

open_circuits-contains :
    (now : ℤ) (g : GlobalStats) (p : ProviderConfig) (ps : List ProviderConfig)
    → Memᴰ p ps
    → is_open now (stats_of g p.name) ≡ true
    → contains p.name (open_circuits now g ps) ≡ true
unfolding open_circuits contains
open_circuits-contains now g p [] none_there e = elim none_there [ ]
open_circuits-contains now g p (p' ∷ ps) (Memᴰ.head same) e =
    let e' = subst (λ q. is_open now (stats_of g q.name) ≡ true) same e in
    rw (e', contains, ap (λ q. q.name) same) (rw str_eq_refl refl)
open_circuits-contains now g p (q ∷ ps) (Memᴰ.tail m) e =
    let rest = open_circuits-contains now g p ps m e in ground (arith, rest)

module _ (fl : Float) (re : Regexp) (cfg : Config) (now : ℤ) (g : GlobalStats) (u u' : Upstream)
    (law : KeepsSelector u) (agree : AgreesOn (IsUsable cfg now g) u u') where
  -- Every provider whose circuit is open is excluded.
  abbrev Covers : List Bytes → Type 0
  Covers excluded =
      (n : Bytes)
      → contains n (open_circuits now g cfg.providers) ≡ true
      → contains n excluded ≡ true

  Eligible-IsUsable :
      (s : Selector) (base : SelectionInput) (excluded : List Bytes) (p : ProviderConfig)
      → Covers excluded
      → IsEligible cfg.providers s (record base { excluded_providers = excluded }) p
      → IsUsable cfg now g p
  Eligible-IsUsable s base excluded p covers ok_p = record {
    configured = ok_p.configured;
    enabled = ok_p.enabled;
    closed = elim (Bool-cases (is_open now (stats_of g p.name))) [
      | inr shut ↦ shut
      | inl opened ↦ absurd (
          false≢true (
            sym ok_p.allowed
            ∙ covers p.name (open_circuits-contains now g p cfg.providers ok_p.configured opened)))
    ];
  }

  round-agree :
      (base : SelectionInput) (env : Attempt) (attempt max : ℕ) (st : LoopState)
      → IsWf cfg.providers st.world.selector
      → Covers st.excluded
      → round fl re cfg u base env attempt max st ≡ round fl re cfg u' base env attempt max st
  unfolding round
  round-agree base env attempt max st wf covers =
      let input : SelectionInput = record base { excluded_providers = st.excluded } in
      elim (Result-cases (select re st.world.selector env.draw input).1) [
        | inl (e, refused) ↦ rw (refused, round) refl
        | inr (p, selected) ↦
            let usable =
              Eligible-IsUsable st.world.selector base st.excluded p covers
                (select-IsEligible cfg.providers st.world.selector wf re env.draw input selected) in
            round-alone fl re cfg u law u' base env attempt max st p selected
              (λ w. agree w p attempt max usable)
      ]

  Tried-Covers :
      (base : SelectionInput) (env : Attempt) (st st' : LoopState)
      → Tried re cfg base env st st'
      → Covers st.excluded
      → Covers st'.excluded
  Tried-Covers base env st st' tried covers n h =
      rw (tried.excluded, contains-snoc, covers n h) refl

  attempts-agree :
      (base : SelectionInput) (env : ℕ → Attempt) (left attempt max : ℕ) (st : LoopState)
      → IsWf cfg.providers st.world.selector
      → Covers st.excluded
      → attempts fl re cfg u base env left attempt max st
        ≡ attempts fl re cfg u' base env left attempt max st
  unfolding attempts give_up
  attempts-agree base env zero attempt max st wf covers = refl
  attempts-agree base env (suc left) attempt max st wf covers =
      let same = round-agree base (env attempt) attempt max st wf covers in
      elim (Next-cases (round fl re cfg u base (env attempt) attempt max st)) [
        | ended w e ↦ rw (← same, e, attempts) refl
        | stopped st' e ↦ rw (← same, e, attempts) refl
        | next st' e ↦
            let tried = round-again fl re cfg u law base (env attempt) attempt max st wf e in
            rw (← same, e, attempts)
              (attempts-agree base env left (suc attempt) max st' tried.selector
                (Tried-Covers base (env attempt) st st' tried covers))
      ]

module _ (fl : Float) (re : Regexp) (codec : Codec) (cfg : Config) (u u' : UpstreamOf) where
  -- A request is sent to no provider but the enabled ones of the configuration whose circuit is not
  -- open when the request comes in: two upstreams that agree on those leave the handler with the same
  -- result. The selector must be well formed, as `NewSelector` makes it, and the upstream call must
  -- leave the selector alone.
  pub handle_proxy-agree :
      ((r : Request) (body model : Bytes) → KeepsSelector (u r body model))
      → (start : ℤ) (env : ℕ → Attempt) (r : Request) (w : World) → IsWf cfg.providers w.selector
      → ((r : Request) (body model : Bytes)
          → AgreesOn (IsUsable cfg (unix start) w.stats) (u r body model) (u' r body model))
      → handle_proxy fl re codec cfg u start env r w ≡ handle_proxy fl re codec cfg u' start env r w
  unfolding handle_proxy proxy_body refuse_unauthorized
  handle_proxy-agree law start env r w wf agree =
      elim (Bool-cases (is_authorized cfg.server.auth r.header)) [
        | inr refused ↦ rw (refused, handle_proxy) refl
        | inl granted ↦
            elim (Result-cases (read_request_body_with_limit r cfg.server.max_request_body_bytes)) [
              | inl (true, broke) ↦ rw (granted, broke, handle_proxy) refl
              | inl (false, broke) ↦ rw (granted, broke, handle_proxy) refl
              | inr (body, complete) ↦
                  rw (granted, complete, handle_proxy)
                    (attempts-agree fl re cfg (unix start) w.stats (u r body _) (u' r body _)
                      (law r body _) (agree r body _) _ env _ 1 _ _ wf (λ n h. h))
            ]
      ]
