-- ===== src/Router/Select.antt =====
-- Which provider `Select` returns.
use ai_proxy_pool.Base.{
  ℕ, ◌≡◌, refl, ◌∙◌, ◌⊎◌, inl, inr, true, false, List, [], ◌∷◌, some, All, arith, Bool-cases,
  Option-cases, List-cases,
}
use mathlib.Core.List.{Memᴰ}
use mathlib.Core.Path.{subst}
use ai_proxy_pool.Base.Text.{Bytes}
use ai_proxy_pool.Base.Dict.{lookup, contains}
use ai_proxy_pool.Base.Regexp.{Regexp}
use ai_proxy_pool.Base.Result.{Result, ok, err, ok_inj}
use ai_proxy_pool.Config.{ProviderConfig, enabled_or_default}
use ai_proxy_pool.Router.{
  Selector, SelectionInput, pick, cfg_of, scan_rules, select_forced, usable_default,
  select_fallback, model_candidates, match_providers_by_model, select_by_model, select, is_empty,
}
use ai_proxy_pool.Router.Invariant.{IsKnown, IsWf}
use ai_proxy_pool.Router.Candidates.{
  Stands, pick-Stands, IsAllowed, filter_excluded-All, match_names-All, RuleScan-cases,
  scan_rules-All,
}

-- What every selected provider satisfies: it is an enabled provider of the configuration, kept
-- under its own name, it is not excluded, and it is the forced one where one is forced.
pub record IsEligible (providers : List ProviderConfig) (s : Selector) (input : SelectionInput)
    (cfg : ProviderConfig) : Type 0 where
  pub configured : Memᴰ cfg providers
  pub enabled : enabled_or_default cfg ≡ true
  pub allowed : contains cfg.name input.excluded_providers ≡ false
  pub forced : (input.forced_provider ≡ []) ⊎ (cfg.name ≡ input.forced_provider)

err-ne-ok : {E A : Type 0} {a : A} (x : E) → ◌≡◌ {A = Result E A} (err x) (ok a) → ⊥
err-ne-ok x e = cc

usable_default-Stands :
    (s : Selector) (input : SelectionInput) {cfg : ProviderConfig}
    → usable_default s input ≡ some cfg
    → Stands (λ n. IsKnown s.providers n × IsAllowed input n) s cfg
unfolding usable_default cfg_of
usable_default-Stands s input e = elim (Option-cases (lookup s.default_provider s.providers)) [
  | inl missing ↦ absurd (ground arith)
  | inr (item, known) ↦ (s.default_provider, ((item, known), ground arith), ground arith)
]

module _ (providers : List ProviderConfig) (s : Selector) (w : IsWf providers s) where
  Stands-IsEligible :
      (input : SelectionInput) {cfg : ProviderConfig}
      → Stands (λ n. IsKnown s.providers n × IsAllowed input n) s cfg
      → (input.forced_provider ≡ []) ⊎ (cfg.name ≡ input.forced_provider)
      → IsEligible providers s input cfg
  unfolding cfg_of
  Stands-IsEligible input (n, ((item, known), allowed), e) f =
      let same = rw (known, cfg_of) at e in
      let (name, on, member) = w.sound n item known in
      record {
        configured = subst (λ c. Memᴰ c providers) same member;
        enabled = subst (λ c. enabled_or_default c ≡ true) same on;
        allowed = rw (← same, name) allowed;
        forced = f;
      }

  select_forced-IsEligible :
      (input : SelectionInput) {cfg : ProviderConfig}
      → select_forced s input ≡ ok cfg
      → IsEligible providers s input cfg
  unfolding select_forced cfg_of
  select_forced-IsEligible input e =
      elim (Option-cases (lookup input.forced_provider s.providers)) [
        | inl missing ↦ absurd (err-ne-ok _ (rw (missing, select_forced) at e))
        | inr (item, known) ↦
            elim (Bool-cases (contains input.forced_provider input.excluded_providers)) [
              | inl out ↦ absurd (err-ne-ok _ (rw (known, out, select_forced) at e))
              | inr free ↦
                  let same = ok_inj (rw (known, free, select_forced) at e) in
                  Stands-IsEligible input
                    (input.forced_provider, ((item, known), free), rw (known, cfg_of) same)
                    (inr (rw (← same) ((w.sound _ item known).0)))
            ]
      ]

  -- The candidates of every later stage are known and allowed.
  pick-IsEligible :
      (draw : ℕ → ℕ) (input : SelectionInput) (names : List Bytes) {cfg : ProviderConfig}
      → input.forced_provider ≡ []
      → All (λ n. IsKnown s.providers n × IsAllowed input n) names
      → (pick s draw names).1 ≡ ok cfg
      → IsEligible providers s input cfg
  pick-IsEligible draw input names f h e =
      Stands-IsEligible input (pick-Stands _ s draw names h e) (inl f)

  select_fallback-IsEligible :
      (draw : ℕ → ℕ) (input : SelectionInput) {cfg : ProviderConfig}
      → input.forced_provider ≡ []
      → (select_fallback s draw input).1 ≡ ok cfg
      → IsEligible providers s input cfg
  unfolding select_fallback
  select_fallback-IsEligible draw input f e = elim (Option-cases (usable_default s input)) [
    | inl absent ↦
        pick-IsEligible draw input _ f
          (filter_excluded-All _ s.all_provider_names input.excluded_providers w.known)
          (rw (absent, select_fallback) at e)
    | inr (c, usable) ↦
        let (n, known, same) = usable_default-Stands s input usable in
        Stands-IsEligible input (n, known, same ∙ ok_inj (rw (usable, select_fallback) at e))
          (inl f)
  ]

  model_candidates-All :
      (re : Regexp) (input : SelectionInput)
      → All (λ n. IsKnown s.providers n × IsAllowed input n) (model_candidates re s input)
  unfolding model_candidates match_providers_by_model
  model_candidates-All re input = elim (Bool-cases (is_empty input.model)) [
    | inl none_given ↦ rw (none_given, model_candidates) tt
    | inr given ↦
        rw (given, model_candidates)
          (filter_excluded-All _ _ input.excluded_providers
            (match_names-All _ re s input.model s.all_provider_names w.known))
  ]

  select_by_model-IsEligible :
      (re : Regexp) (draw : ℕ → ℕ) (input : SelectionInput) {cfg : ProviderConfig}
      → input.forced_provider ≡ []
      → (select_by_model re s draw input).1 ≡ ok cfg
      → IsEligible providers s input cfg
  unfolding select_by_model
  select_by_model-IsEligible re draw input f e = elim (List-cases (model_candidates re s input)) [
    | inl absent ↦ select_fallback-IsEligible draw input f (rw (absent, select_by_model) at e)
    | inr (n, names, left) ↦
        pick-IsEligible draw input (n ∷ names) f
          (subst (All _) left (model_candidates-All re input)) (rw (left, select_by_model) at e)
  ]

  -- A provider that `Select` returns is enabled and configured, it is not excluded, and where the
  -- request forces a provider it is that one.
  pub select-IsEligible :
      (re : Regexp) (draw : ℕ → ℕ) (input : SelectionInput) {cfg : ProviderConfig}
      → (select re s draw input).1 ≡ ok cfg
      → IsEligible providers s input cfg
  unfolding select
  select-IsEligible re draw input e = elim (List-cases input.forced_provider) [
    | inr (b, f, given) ↦
        let named : is_empty input.forced_provider ≡ false = rw given refl in
        select_forced-IsEligible input (rw (named, select) at e)
    | inl free ↦
        let open_ : is_empty input.forced_provider ≡ true = rw free refl in
        elim (RuleScan-cases (scan_rules re input false s.rules)) [
          | inl (c, scanned) ↦
              pick-IsEligible draw input c free
                (scan_rules-All _ re input false s.rules c w.ruled scanned)
                (rw (open_, scanned, select) at e)
          | inr (true, scanned) ↦ absurd (err-ne-ok _ (rw (open_, scanned, select) at e))
          | inr (false, scanned) ↦
              select_by_model-IsEligible re draw input free (rw (open_, scanned, select) at e)
        ]
  ]
