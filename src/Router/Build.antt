-- ===== src/Router/Build.antt =====
-- `NewSelector` of internal/router/router.go.
use ai_proxy_pool.Base.{not, List, [], ◌∷◌, ◌++◌, Option, none, some, if◌then◌else◌}
use ai_proxy_pool.Base.Text.{Bytes}
use ai_proxy_pool.Base.Dict.{lookup, insert}
use ai_proxy_pool.Base.Regexp.{Regexp}
use ai_proxy_pool.Base.Result.{Result, ok, err, ◌>>=◌}
use ai_proxy_pool.Config.{ProviderConfig, RouterConfig, RouteRule, enabled_or_default}
use ai_proxy_pool.Router.{
  Selector, ProviderItem, CompiledRule, RouterError, provider_regex, rule_regex,
  no_enabled_providers,
}

-- The compiled form of an expression, nil for "".
unfoldable pub compile : Regexp → Bytes → RouterError → Result RouterError (Option Bytes)
compile re [] e = ok none
compile re (c ∷ r) e = if re.compiles (c ∷ r) then ok (some (c ∷ r)) else err e

abbrev pub store : Selector → ProviderConfig → Option Bytes → Selector
store s provider r = record s {
  providers = insert provider.name (record { cfg = provider; model_regex = r }) s.providers;
  all_provider_names = s.all_provider_names ++ provider.name ∷ [];
}

unfoldable pub add_provider : Regexp → Selector → ProviderConfig → Result RouterError Selector
unfolding enabled_or_default compile
add_provider re s provider = if not (enabled_or_default provider) then ok s else do
  r ← compile re provider.model_regex (provider_regex provider.name)
  ok (store s provider r)

unfoldable pub add_providers : Regexp → Selector → List ProviderConfig → Result RouterError Selector
add_providers re s [] = ok s
add_providers re s (p ∷ providers) = add_provider re s p >>= λ s'. add_providers re s' providers

-- The providers of a rule that the selector knows.
unfoldable pub known_providers : List (Bytes × ProviderItem) → List Bytes → List Bytes
known_providers items [] = []
known_providers items (n ∷ names) = elim (lookup n items) [
  | none ↦ known_providers items names
  | some _ ↦ n ∷ known_providers items names
]

-- A rule with no provider left is dropped.
abbrev pub append_rule : Selector → CompiledRule → Selector
append_rule s rule = elim rule.providers [
  | [] ↦ s
  | _ ∷ _ ↦ record s { rules = s.rules ++ rule ∷ [] }
]

unfoldable pub add_rule : Regexp → Selector → RouteRule → Result RouterError Selector
unfolding compile known_providers
add_rule re s rule = do
  r ← compile re rule.model_regex (rule_regex rule.model_regex)
  ok (
      append_rule s (record {
        path_prefix = rule.path_prefix;
        model_prefix = rule.model_prefix;
        model_regex = r;
        providers = known_providers s.providers rule.providers;
      }))

unfoldable pub add_rules : Regexp → Selector → List RouteRule → Result RouterError Selector
add_rules re s [] = ok s
add_rules re s (r ∷ rules) = add_rule re s r >>= λ s'. add_rules re s' rules

abbrev pub empty_selector : RouterConfig → Selector
empty_selector router_cfg = record {
  strategy = router_cfg.strategy;
  default_provider = router_cfg.default_provider;
  providers = [];
  all_provider_names = [];
  rules = [];
  round_robin_count = 0;
}

-- The check between the two loops.
abbrev pub require_names : Selector → Result RouterError Selector
require_names s = elim s.all_provider_names [ [] ↦ err no_enabled_providers | _ ∷ _ ↦ ok s ]

unfoldable pub new_selector :
    Regexp → RouterConfig → List ProviderConfig → Result RouterError Selector
unfolding add_provider add_providers add_rule add_rules
new_selector re router_cfg providers =
    add_providers re (empty_selector router_cfg) providers >>= require_names >>= λ s.
    add_rules re s router_cfg.route_rules
