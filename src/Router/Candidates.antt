-- ===== src/Router/Candidates.antt =====
-- Where the candidates of `Select` come from, and what a pick among them returns.
use native.Mathlib.Nat.{mod-lt}
use ai_proxy_pool.Base.{
  ℕ, zero, suc, ◌<◌, ◌≡◌, refl, sym, ◌∙◌, ◌≢◌, ◌⊎◌, inl, inr, Bool, true, false, List, [], ◌∷◌,
  if◌then◌else◌, All, All-map, arith, Bool-cases, List-cases, length, get_or,
}
use mathlib.Core.Path.{subst}
use ai_proxy_pool.Base.Int.{ℤ, pos, ◌+ℤ◌, ltb_ℤ, pos_part}
use ai_proxy_pool.Base.Word.{int64, leb_ℤ}
use ai_proxy_pool.Base.Text.{Bytes, str_eq}
use ai_proxy_pool.Base.Dict.{lookup, contains}
use ai_proxy_pool.Base.Regexp.{Regexp}
use ai_proxy_pool.Base.Result.{ok, ok_inj}
use ai_proxy_pool.Config.{ProviderConfig, strategy_weighted_random}
use ai_proxy_pool.Router.{
  Selector, SelectionInput, CompiledRule, pick, pick_round_robin, walk_weights, cfg_of,
  keep_allowed, filter_excluded, scan_rules, RuleScan, found, missed, match_names, rule_matches,
  item_matches, sum_weights,
}

get_or-All :
    (P : Bytes → Type 0) (xs : List Bytes) (i : ℕ) (d : Bytes)
    → All P xs
    → i < length xs
    → P (get_or xs i d)
get_or-All P [] i d h lt = elim lt [ ]
get_or-All P (x ∷ xs) zero d h lt = h.0
get_or-All P (x ∷ xs) (suc i) d h lt = get_or-All P xs i d h.1 (omega arith)

-- A configuration that stands for one of the names for which `P` holds.
abbrev pub Stands : (Bytes → Type 0) → Selector → ProviderConfig → Type 0
Stands P s cfg = (n : Bytes) × P n × (cfg_of s n ≡ cfg)

walk_weights-Stands :
    (P : Bytes → Type 0) (s : Selector) (choice acc : ℤ) (names : List Bytes) {cfg : ProviderConfig}
    → All P names
    → walk_weights s choice acc names ≡ ok cfg
    → Stands P s cfg
unfolding walk_weights
walk_weights-Stands P s choice acc [] h e = cc
walk_weights-Stands P s choice acc (n ∷ names) h e =
    let acc' = int64 (acc +ℤ (cfg_of s n).weight) in
    elim (Bool-cases (ltb_ℤ choice acc')) [
      | inl here ↦ (n, h.0, ok_inj (rw (here, if◌then◌else◌) at e))
      | inr past ↦ walk_weights-Stands P s choice acc' names h.1 (rw (past, if◌then◌else◌) at e)
    ]

pick_round_robin-Stands :
    (P : Bytes → Type 0) (s : Selector) (n : Bytes) (names : List Bytes)
    → All P (n ∷ names)
    → Stands P s (pick_round_robin s (n ∷ names)).1
unfolding pick_round_robin
pick_round_robin-Stands P s n names h =
    (_, get_or-All P (n ∷ names) _ [] h (mod-lt _ (omega arith)), refl)

-- The two ways to pick.
pick-cases :
    (s : Selector) (draw : ℕ → ℕ) (n : Bytes) (names : List Bytes)
    → ((pick s draw (n ∷ names)).1 ≡ ok (pick_round_robin s (n ∷ names)).1)
      ⊎ ((choice : ℤ) × ((pick s draw (n ∷ names)).1 ≡ walk_weights s choice (pos 0) (n ∷ names)))
unfolding pick
pick-cases s draw n names = elim (Bool-cases (str_eq s.strategy strategy_weighted_random)) [
  | inl weighted ↦ elim (Bool-cases (leb_ℤ (sum_weights s (pos 0) (n ∷ names)) (pos 0))) [
    | inl zero_sum ↦ inl (rw (weighted, zero_sum))
    | inr positive ↦
        inr (pos (draw (pos_part (sum_weights s (pos 0) (n ∷ names)))), rw (weighted, positive))
  ]
  | inr plain ↦ inl (rw plain)
]

pub pick-Stands :
    (P : Bytes → Type 0) (s : Selector) (draw : ℕ → ℕ) (names : List Bytes) {cfg : ProviderConfig}
    → All P names
    → (pick s draw names).1 ≡ ok cfg
    → Stands P s cfg
unfolding pick
pick-Stands P s draw [] h e = cc
pick-Stands P s draw (n ∷ names) h e = elim (pick-cases s draw n names) [
  | inl rr ↦ subst (Stands P s) (ok_inj (sym rr ∙ e)) (pick_round_robin-Stands P s n names h)
  | inr (choice, walked) ↦ walk_weights-Stands P s choice (pos 0) (n ∷ names) h (sym walked ∙ e)
]

-- What is left of a list of names is allowed, and keeps what holds of each name.
abbrev pub IsAllowed : SelectionInput → Bytes → Type 0
IsAllowed input n = contains n input.excluded_providers ≡ false

keep_allowed-All :
    (P : Bytes → Type 0) (names excluded : List Bytes)
    → All P names
    → All (λ n. P n × (contains n excluded ≡ false)) (keep_allowed names excluded)
unfolding keep_allowed
keep_allowed-All P [] excluded h = tt
keep_allowed-All P (n ∷ names) excluded (p, h) = elim (Bool-cases (contains n excluded)) [
  | inl out ↦ rw (out, if◌then◌else◌) (keep_allowed-All P names excluded h)
  | inr stays ↦ rw (stays, if◌then◌else◌) ((p, stays), keep_allowed-All P names excluded h)
]

pub filter_excluded-All :
    (P : Bytes → Type 0) (names excluded : List Bytes)
    → All P names
    → All (λ n. P n × (contains n excluded ≡ false)) (filter_excluded names excluded)
unfolding filter_excluded contains
filter_excluded-All P names [] h = All-map P names (λ n p. (p, refl)) h
filter_excluded-All P names (e ∷ excluded) h = keep_allowed-All P names (e ∷ excluded) h

pub match_names-All :
    (P : Bytes → Type 0) (re : Regexp) (s : Selector) (model : Bytes) (names : List Bytes)
    → All P names
    → All P (match_names re s model names)
unfolding match_names
match_names-All P re s model [] h = tt
match_names-All P re s model (n ∷ names) (p, h) =
    elim (Bool-cases (item_matches re model (lookup n s.providers))) [
      | inl fits ↦ rw (fits, if◌then◌else◌) (p, match_names-All P re s model names h)
      | inr not_fits ↦ rw (not_fits, if◌then◌else◌) (match_names-All P re s model names h)
    ]

-- One round of the loop over the rules.
data RuleStep (re : Regexp) (input : SelectionInput) (matched : Bool) (r : CompiledRule)
    (rules : List CompiledRule) : Type 0 where
  skipped :
      rule_matches re r input.path input.model ≡ false
      → scan_rules re input matched (r ∷ rules) ≡ scan_rules re input matched rules
      → RuleStep re input matched r rules
  exhausted :
      rule_matches re r input.path input.model ≡ true
      → filter_excluded r.providers input.excluded_providers ≡ []
      → scan_rules re input matched (r ∷ rules) ≡ scan_rules re input true rules
      → RuleStep re input matched r rules
  chosen :
      (n : Bytes) (names : List Bytes)
      → rule_matches re r input.path input.model ≡ true
      → filter_excluded r.providers input.excluded_providers ≡ n ∷ names
      → scan_rules re input matched (r ∷ rules) ≡ found (n ∷ names)
      → RuleStep re input matched r rules

rule_step :
    (re : Regexp) (input : SelectionInput) (matched : Bool) (r : CompiledRule)
    (rules : List CompiledRule)
    → RuleStep re input matched r rules
unfolding scan_rules
rule_step re input matched r rules = elim (Bool-cases (rule_matches re r input.path input.model)) [
  | inr other ↦ skipped other (rw (other, scan_rules) refl)
  | inl fits ↦ elim (List-cases (filter_excluded r.providers input.excluded_providers)) [
    | inl gone ↦ exhausted fits gone (rw (fits, gone, scan_rules) refl)
    | inr (n, names, left) ↦ chosen n names fits left (rw (fits, left, scan_rules) refl)
  ]
]

found_inj : {a b : List Bytes} → found a ≡ found b → a ≡ b
found_inj e = cc

pub RuleScan-cases :
    (r : RuleScan) → ((c : List Bytes) × (r ≡ found c)) ⊎ ((m : Bool) × (r ≡ missed m))
RuleScan-cases (found c) = inl (c, refl)
RuleScan-cases (missed m) = inr (m, refl)

pub scan_rules-All :
    (P : Bytes → Type 0) (re : Regexp) (input : SelectionInput) (matched : Bool)
    (rules : List CompiledRule) (c : List Bytes)
    → All (λ r. All P r.providers × (r.providers ≢ [])) rules
    → scan_rules re input matched rules ≡ found c
    → All (λ n. P n × IsAllowed input n) c
unfolding scan_rules
scan_rules-All P re input matched [] c h e = cc
scan_rules-All P re input matched (r ∷ rules) c ((p, _), h) e =
    elim (rule_step re input matched r rules) [
      | skipped _ same ↦ scan_rules-All P re input matched rules c h (sym same ∙ e)
      | exhausted _ _ same ↦ scan_rules-All P re input true rules c h (sym same ∙ e)
      | chosen n names _ left same ↦
          subst (All (λ n. P n × IsAllowed input n)) (left ∙ found_inj (sym same ∙ e))
            (filter_excluded-All P r.providers input.excluded_providers p)
    ]
