-- ===== src/Router/Tests.antt =====
-- Runs of the router on a small configuration, and its theorems at concrete inputs.
use Prim.Native.Nat.{ℕ}
use ai_proxy_pool.Base.{◌≡◌, refl, true, false, List, [], ◌∷◌, map, none, some, arith}
use ai_proxy_pool.Base.Int.{pos, ◌+ℤ◌}
use ai_proxy_pool.Base.Word.{int64}
use ai_proxy_pool.Base.Text.{Bytes, codes, str_eq, has_prefix}
use ai_proxy_pool.Base.Dict.{lookup, insert, contains}
use ai_proxy_pool.Base.Regexp.{Regexp}
use ai_proxy_pool.Base.Result.{ok, err}
use ai_proxy_pool.Config.{
  ProviderConfig, RouterConfig, zero_provider, strategy_round_robin, strategy_weighted_random,
}
use ai_proxy_pool.Router.{
  Selector, SelectionInput, forced_excluded, no_candidates, rule_matches, matches_model,
  filter_excluded, match_providers_by_model, pick, pick_round_robin, cfg_of, scan_rules,
  select_forced, usable_default, select_fallback, model_candidates, select_by_model, select,
}
use ai_proxy_pool.Router.Build.{new_selector}
use ai_proxy_pool.Router.Invariant.{IsWf, new_selector-IsWf}
use ai_proxy_pool.Router.Select.{IsEligible, select-IsEligible}
use ai_proxy_pool.Router.Weights.{total, pick_interval}
use ai_proxy_pool.Router.Fair.{picks, picks_rotate}

program : Unit {0}
unfolding lookup insert contains str_eq has_prefix rule_matches matches_model filter_excluded
    match_providers_by_model pick pick_round_robin cfg_of scan_rules select_forced usable_default
    select_fallback model_candidates select_by_model select new_selector int64 ◌+ℤ◌ picks total
program = tt

-- An expression matches the texts that begin with it.
abbrev prefix_regexp : Regexp
prefix_regexp = record {
  compiles = λ r. true;
  match_string = λ r s. has_prefix s r;
  replace_all_string = λ r s t. t;
}

abbrev provider : Bytes → ℕ → ProviderConfig
provider name weight = record zero_provider { name = name; weight = pos weight }

abbrev three : List ProviderConfig
three =
    provider (codes "a") 1
    ∷ provider (codes "b") 2
    ∷ record zero_provider { name = codes "c"; weight = pos 1; enabled = some false }
    ∷ provider (codes "d") 3
    ∷ []

abbrev routing : Bytes → RouterConfig
routing strategy = record {
  strategy = strategy;
  default_provider = [];
  header_provider_key = [];
  route_rules =
      record {
        path_prefix = codes "/x";
        model_prefix = [];
        model_regex = [];
        providers = codes "c" ∷ codes "d" ∷ [];
      }
      ∷ [];
}

abbrev selector : Bytes → Selector
selector strategy = record {
  strategy = strategy;
  default_provider = [];
  providers =
      (codes "a", record { cfg = provider (codes "a") 1; model_regex = none })
      ∷ (codes "b", record { cfg = provider (codes "b") 2; model_regex = none })
      ∷ (codes "d", record { cfg = provider (codes "d") 3; model_regex = none })
      ∷ [];
  all_provider_names = codes "a" ∷ codes "b" ∷ codes "d" ∷ [];
  rules =
      record {
        path_prefix = codes "/x";
        model_prefix = [];
        model_regex = none;
        providers = codes "d" ∷ [];
      }
      ∷ [];
  round_robin_count = 0;
}

build_test :
    (strategy : Bytes)
    → new_selector prefix_regexp (routing strategy) three ≡ ok (selector strategy)
unfolding program
build_test strategy = refl

abbrev ask : Bytes → Bytes → List Bytes → SelectionInput
ask path forced excluded = record {
  path = path;
  model = [];
  forced_provider = forced;
  excluded_providers = excluded;
}

abbrev all_names : List Bytes
all_names = codes "a" ∷ codes "b" ∷ codes "d" ∷ []

abbrev rr : Selector
rr = selector strategy_round_robin

select_tests :
    ((select prefix_regexp rr (λ n. 0) (ask (codes "/y") [] (codes "a" ∷ []))).1
      ≡ ok (provider (codes "b") 2))
    × ((select prefix_regexp rr (λ n. 0) (ask (codes "/x") [] (codes "d" ∷ []))).1
        ≡ err no_candidates)
    × ((select prefix_regexp rr (λ n. 0) (ask (codes "/x") (codes "a") (codes "a" ∷ []))).1
        ≡ err (forced_excluded (codes "a")))
unfolding program
select_tests = (refl, refl, refl)

new_selector-IsWf_example : IsWf three rr
new_selector-IsWf_example =
    new_selector-IsWf prefix_regexp (routing strategy_round_robin) three
      (build_test strategy_round_robin)

select-IsEligible_example :
    IsEligible three rr (ask (codes "/y") [] (codes "a" ∷ [])) (provider (codes "b") 2)
select-IsEligible_example =
    select-IsEligible three rr new_selector-IsWf_example prefix_regexp (λ n. 0)
      (ask (codes "/y") [] (codes "a" ∷ [])) select_tests.0

pick_interval_example : pick (selector strategy_weighted_random) (λ n. 2) all_names ≡ (
  selector strategy_weighted_random,
  ok (cfg_of (selector strategy_weighted_random) (codes "b")),
)
unfolding program
pick_interval_example =
    pick_interval (selector strategy_weighted_random) (λ n. 2) (codes "a" ∷ []) (codes "b")
      (codes "d" ∷ []) refl (refl, (refl, (refl, tt))) (omega arith) (omega arith) (omega arith)

picks_rotate_example :
    picks 3 (record rr { round_robin_count = 4 }) all_names
    ≡ map (cfg_of rr) (codes "b" ∷ codes "d" ∷ codes "a" ∷ [])
unfolding program
picks_rotate_example =
    picks_rotate (record rr { round_robin_count = 4 }) all_names (omega arith) (omega arith)
