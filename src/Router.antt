-- ===== src/Router.antt =====
-- internal/router/router.go: the choice of a provider for a request.
pub mod Build
pub mod Invariant
pub mod Candidates
pub mod Select
pub mod Weights
pub mod Fair
pub mod Count
mod Tests
use ai_proxy_pool.Base.{
  ℕ, zero, suc, ◌+◌, ◌-◌, ◌%◌, ◌≡◌, refl, Bool, true, false, not, ◌&&◌, ◌||◌, List, [], ◌∷◌, ◌++◌,
  Option, none, some, if◌then◌else◌, length, get_or,
}
use ai_proxy_pool.Base.Int.{ℤ, pos, ◌+ℤ◌, ltb_ℤ, pos_part}
use ai_proxy_pool.Base.Word.{int64, leb_ℤ}
use ai_proxy_pool.Base.Text.{Bytes, str_eq, has_prefix}
use ai_proxy_pool.Base.Dict.{lookup, contains}
use ai_proxy_pool.Base.Regexp.{Regexp}
use ai_proxy_pool.Base.Result.{Result, ok, err}
use ai_proxy_pool.Config.{ProviderConfig, zero_provider, strategy_weighted_random}

pub record SelectionInput : Type 0 where
  pub path : Bytes
  pub model : Bytes
  pub forced_provider : Bytes
  pub excluded_providers : List Bytes

pub record ProviderItem : Type 0 where
  pub cfg : ProviderConfig
  pub model_regex : Option Bytes

pub record CompiledRule : Type 0 where
  pub path_prefix : Bytes
  pub model_prefix : Bytes
  pub model_regex : Option Bytes
  pub providers : List Bytes

-- `round_robin_count` is a uint64. The source of random numbers is an argument of `select`.
pub record Selector : Type 0 where
  pub strategy : Bytes
  pub default_provider : Bytes
  pub providers : List (Bytes × ProviderItem)
  pub all_provider_names : List Bytes
  pub rules : List CompiledRule
  pub round_robin_count : ℕ

-- The errors, without their texts.
pub data RouterError : Type 0 where
  provider_regex : Bytes → RouterError
  rule_regex : Bytes → RouterError
  no_enabled_providers : RouterError
  forced_excluded : Bytes → RouterError
  forced_unavailable : Bytes → RouterError
  no_candidates : RouterError
  weighted_failed : RouterError

-- s == ""
abbrev pub is_empty : Bytes → Bool
is_empty [] = true
is_empty (_ ∷ _) = false

-- re != nil && re.MatchString(s), and the negation with nil accepted
abbrev pub regex_matches : Regexp → Option Bytes → Bytes → Bool
regex_matches re none s = false
regex_matches re (some r) s = re.match_string r s

abbrev pub regex_allows : Regexp → Option Bytes → Bytes → Bool
regex_allows re none s = true
regex_allows re (some r) s = re.match_string r s

unfoldable pub rule_matches : Regexp → CompiledRule → Bytes → Bytes → Bool
rule_matches re rule path_value model =
    if not (is_empty rule.path_prefix) && not (has_prefix path_value rule.path_prefix)
    then false
    else if not (is_empty rule.model_prefix) && not (has_prefix model rule.model_prefix)
    then false
    else if not (regex_allows re rule.model_regex model)
    then false
    else true

unfoldable pub matches_model : Regexp → List Bytes → Option Bytes → Bytes → Bool
matches_model re [] r model = regex_matches re r model
matches_model re (prefix ∷ prefixes) r model =
    if has_prefix model prefix then true else matches_model re prefixes r model

-- The loop of `filterExcluded`.
unfoldable pub keep_allowed : List Bytes → List Bytes → List Bytes
keep_allowed [] excluded = []
keep_allowed (n ∷ names) excluded =
    if contains n excluded then keep_allowed names excluded else n ∷ keep_allowed names excluded

unfoldable pub filter_excluded : List Bytes → List Bytes → List Bytes
unfolding keep_allowed
filter_excluded names [] = names
filter_excluded names (e ∷ excluded) = keep_allowed names (e ∷ excluded)

-- s.providers[name].cfg; a missing key gives the zero value.
unfoldable pub cfg_of : Selector → Bytes → ProviderConfig
cfg_of s name = elim (lookup name s.providers) [ none ↦ zero_provider | some item ↦ item.cfg ]

abbrev pub item_matches : Regexp → Bytes → Option ProviderItem → Bool
item_matches re model none = matches_model re [] none model
item_matches re model (some item) = matches_model re item.cfg.model_prefixes item.model_regex model

-- The loop of `matchProvidersByModel` over the names.
unfoldable pub match_names : Regexp → Selector → Bytes → List Bytes → List Bytes
match_names re s model [] = []
match_names re s model (n ∷ names) =
    if item_matches re model (lookup n s.providers)
    then n ∷ match_names re s model names
    else match_names re s model names

unfoldable pub match_providers_by_model : Regexp → Selector → Bytes → List Bytes
unfolding match_names
match_providers_by_model re s model = match_names re s model s.all_provider_names

abbrev pub uint64_mod : ℕ
uint64_mod = 18446744073709551616

-- `candidates` is not empty, as every caller has checked.
unfoldable pub pick_round_robin : Selector → List Bytes → Selector × ProviderConfig
unfolding cfg_of
pick_round_robin s candidates =
    let count = (s.round_robin_count + 1) % uint64_mod in
    let idx = (count + uint64_mod - 1) % uint64_mod in
    let name = get_or candidates (idx % length candidates) [] in
    (record s { round_robin_count = count }, cfg_of s name)

unfoldable pub sum_weights : Selector → ℤ → List Bytes → ℤ
sum_weights s total [] = total
sum_weights s total (n ∷ names) = sum_weights s (int64 (total +ℤ (cfg_of s n).weight)) names

-- The last loop of `pickWeightedRandom`.
unfoldable pub walk_weights : Selector → ℤ → ℤ → List Bytes → Result RouterError ProviderConfig
walk_weights s choice acc [] = err weighted_failed
walk_weights s choice acc (n ∷ names) =
    let acc' = int64 (acc +ℤ (cfg_of s n).weight) in
    let rest = walk_weights s choice acc' names in
    if ltb_ℤ choice acc' then ok (cfg_of s n) else rest

-- `draw n` is the number that `s.random.Intn(n)` returns.
unfoldable pub pick_weighted_random :
    Selector → (ℕ → ℕ) → List Bytes → Selector × Result RouterError ProviderConfig
unfolding sum_weights walk_weights leb_ℤ pick_round_robin
pick_weighted_random s draw candidates =
    let total_weight = sum_weights s (pos 0) candidates in
    if leb_ℤ total_weight (pos 0)
    then (let (s', cfg) = pick_round_robin s candidates in (s', ok cfg))
    else (s, walk_weights s (pos (draw (pos_part total_weight))) (pos 0) candidates)

unfoldable pub pick : Selector → (ℕ → ℕ) → List Bytes → Selector × Result RouterError ProviderConfig
unfolding pick_weighted_random
pick s draw [] = (s, err no_candidates)
pick s draw (c ∷ candidates) =
    if str_eq s.strategy strategy_weighted_random
    then pick_weighted_random s draw (c ∷ candidates)
    else (let (s', cfg) = pick_round_robin s (c ∷ candidates) in (s', ok cfg))

-- How the loop over the rules ends: at a rule with candidates left, or behind the last rule with
-- `matchedRule`.
pub data RuleScan : Type 0 where
  found : List Bytes → RuleScan
  missed : Bool → RuleScan

unfoldable pub scan_rules : Regexp → SelectionInput → Bool → List CompiledRule → RuleScan
scan_rules re input matched [] = missed matched
scan_rules re input matched (rule ∷ rules) = elim (rule_matches re rule input.path input.model) [
  | true ↦ elim (filter_excluded rule.providers input.excluded_providers) [
    | [] ↦ scan_rules re input true rules
    | c ∷ candidates ↦ found (c ∷ candidates)
  ]
  | false ↦ scan_rules re input matched rules
]

unfoldable pub select_forced : Selector → SelectionInput → Result RouterError ProviderConfig
select_forced s input = elim (lookup input.forced_provider s.providers) [
  | none ↦ err (forced_unavailable input.forced_provider)
  | some item ↦
      if contains input.forced_provider input.excluded_providers
      then err (forced_excluded input.forced_provider)
      else ok item.cfg
]

-- The default provider, where it may be used.
unfoldable pub usable_default : Selector → SelectionInput → Option ProviderConfig
usable_default s input =
    if not (is_empty s.default_provider)
    then if contains s.default_provider input.excluded_providers
      then none
      else elim (lookup s.default_provider s.providers) [ none ↦ none | some item ↦ some item.cfg ]
    else none

-- `Select` behind the loop over the rules and the candidates by model.
unfoldable pub select_fallback :
    Selector → (ℕ → ℕ) → SelectionInput → Selector × Result RouterError ProviderConfig
select_fallback s draw input = elim (usable_default s input) [
  | some cfg ↦ (s, ok cfg)
  | none ↦ pick s draw (filter_excluded s.all_provider_names input.excluded_providers)
]

-- The candidates by model that are left, none for a request without a model.
unfoldable pub model_candidates : Regexp → Selector → SelectionInput → List Bytes
model_candidates re s input =
    if not (is_empty input.model)
    then filter_excluded (match_providers_by_model re s input.model) input.excluded_providers
    else []

-- `Select` behind the loop over the rules.
unfoldable pub select_by_model :
    Regexp → Selector → (ℕ → ℕ) → SelectionInput → Selector × Result RouterError ProviderConfig
select_by_model re s draw input = elim (model_candidates re s input) [
  | [] ↦ select_fallback s draw input
  | c ∷ candidates ↦ pick s draw (c ∷ candidates)
]

unfoldable pub select :
    Regexp → Selector → (ℕ → ℕ) → SelectionInput → Selector × Result RouterError ProviderConfig
select re s draw input =
    if not (is_empty input.forced_provider)
    then (s, select_forced s input)
    else elim (scan_rules re input false s.rules) [
      | found candidates ↦ pick s draw candidates
      | missed true ↦ (s, err no_candidates)
      | missed false ↦ select_by_model re s draw input
    ]
