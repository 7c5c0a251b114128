-- ===== src/Config/Accepted.antt =====
-- What `validate` guarantees of a configuration that it lets through.
use ai_proxy_pool.Base.{
  ℕ, ◌≡◌, ◌≢◌, refl, ◌⊎◌, inl, inr, Bool, true, false, not, ◌&&◌, ◌||◌, List, [], ◌∷◌,
  if◌then◌else◌, map, All, All-map, arith, List-cases,
}
use mathlib.Core.Path.{subst}
use ai_proxy_pool.Base.Int.{pos, ltb_ℤ}
use ai_proxy_pool.Base.Word.{leb_ℤ}
use ai_proxy_pool.Base.Float.{Float, f_zero, f_one}
use ai_proxy_pool.Base.Text.{Bytes}
use ai_proxy_pool.Base.Dict.{contains}
use ai_proxy_pool.Base.Regexp.{Regexp}
use ai_proxy_pool.Base.Result.{Result, ok, err, ◌>>◌, refuse_if, bind-ok, ok_inj}
use ai_proxy_pool.Base.Url.{Net}
use ai_proxy_pool.Config.{
  Config, ServerConfig, RouteRule, ProviderConfig, CircuitBreakerConfig, enabled_or_default,
}
use ai_proxy_pool.Config.Validate.{
  ConfigError, validate_server, validate_rule_names, validate_rules, compile_mappings,
  validate_providers, validate, Seen, add_seen, is_blank,
}

-- What holds behind a check.
refuse_if-ok :
    {B : Type 0} (bad : Bool) (e : ConfigError) (next : Result ConfigError B) {b : B}
    → (refuse_if bad e >> next) ≡ ok b
    → (bad ≡ false) × (next ≡ ok b)
refuse_if-ok true e next h = cc
refuse_if-ok false e next h = (refl, h)

-- What holds behind the last check of a chain.
last_check-ok :
    (first : Result ConfigError (Unit {0})) (bad : Bool) (e : ConfigError) {u : Unit {0}}
    → (first >> refuse_if bad e) ≡ ok u
    → (first ≡ ok tt) × (bad ≡ false)
last_check-ok (err _) bad e h = cc
last_check-ok (ok _) true e h = cc
last_check-ok (ok _) false e h = (refl, refl)

-- What holds where neither of two tests does.
orb_false : (a b : Bool) → (a || b) ≡ false → (a ≡ false) × (b ≡ false)
orb_false a b h = (ground (arith, h), ground (arith, h))

-- Greater than, as `t > 1` is written of a floating-point number.
abbrev pub is_above : Float → ℕ → ℕ → Bool
is_above fl t bound = fl.le bound t && not (fl.beq bound t)

-- The numbers of the circuit breaker: all but the failure rate are positive, the samples that are
-- needed fit into the window, and the failure rate compares neither as at most 0 nor as above 1,
-- which no comparison with NaN does either.
pub record IsSane (fl : Float) (cb : CircuitBreakerConfig) : Type 0 where
  pub threshold : leb_ℤ cb.threshold (pos 0) ≡ false
  pub open_duration : leb_ℤ cb.open_duration (pos 0) ≡ false
  pub window_size : leb_ℤ cb.window_size (pos 0) ≡ false
  pub min_samples : leb_ℤ cb.min_samples (pos 0) ≡ false
  pub samples_fit : ltb_ℤ cb.window_size cb.min_samples ≡ false
  pub rate_low : fl.le cb.failure_rate_threshold f_zero ≡ false
  pub rate_high : is_above fl cb.failure_rate_threshold f_one ≡ false
  pub latency : leb_ℤ cb.latency_threshold (pos 0) ≡ false

validate_server-IsSane :
    (fl : Float) (server : ServerConfig)
    → validate_server fl server ≡ ok tt
    → IsSane fl server.circuit_breaker
unfolding validate_server
validate_server-IsSane fl server h =
    let cb = server.circuit_breaker in
    let (h1, latency) = last_check-ok _ _ _ h in
    let (h2, rate) = last_check-ok _ _ _ h1 in
    let (rate_low, rate_high) = orb_false _ _ rate in
    let (h3, samples_fit) = last_check-ok _ _ _ h2 in
    let (h4, min_samples) = last_check-ok _ _ _ h3 in
    let (h5, window_size) = last_check-ok _ _ _ h4 in
    let (h6, open_duration) = last_check-ok _ _ _ h5 in
    let (_, threshold) = last_check-ok _ _ _ h6 in
    record {
      threshold = threshold;
      open_duration = open_duration;
      window_size = window_size;
      min_samples = min_samples;
      samples_fit = samples_fit;
      rate_low = rate_low;
      rate_high = rate_high;
      latency = latency;
    }

validate_rule_names-All :
    (names ns : List Bytes)
    → validate_rule_names names ns ≡ ok tt
    → All (λ n. contains n names ≡ true) ns
unfolding validate_rule_names
validate_rule_names-All names [] h = tt
validate_rule_names-All names (n ∷ ns) h =
    let (known, rest) = refuse_if-ok (not (contains n names)) _ _ h in
    (ground (arith, known), validate_rule_names-All names ns rest)

-- A rule that names providers, each of them known.
abbrev pub IsKnownRule : List Bytes → RouteRule → Type 0
IsKnownRule names rule = (rule.providers ≢ []) × All (λ n. contains n names ≡ true) rule.providers

validate_rules-All :
    (names : List Bytes) (rules : List RouteRule)
    → validate_rules names rules ≡ ok tt
    → All (IsKnownRule names) rules
unfolding validate_rules
validate_rules-All names [] h = tt
validate_rules-All names (rule ∷ rules) h = elim (List-cases rule.providers) [
  | inl none_named ↦ cc (rw (none_named, validate_rules) at h)
  | inr (n, ns, named) ↦
      let (_, checked, rest) =
        bind-ok (validate_rule_names names (n ∷ ns)) (λ _. validate_rules names rules)
          (rw (named, validate_rules) at h) in
      (
        (rw named (λ e. cc), rw named (validate_rule_names-All names (n ∷ ns) checked)),
        validate_rules-All names rules rest,
      )
]

abbrev pub names_of : List ProviderConfig → List Bytes
names_of ps = map (λ p. p.name) ps

unfoldable pub enabled_names : List ProviderConfig → List Bytes
unfolding enabled_or_default
enabled_names [] = []
enabled_names (p ∷ ps) =
    let rest = enabled_names ps in if enabled_or_default p then p.name ∷ rest else rest

-- No provider has a name of the list, nor that of another.
unfoldable pub HasNewNames : List Bytes → List ProviderConfig → Type 0
HasNewNames out [] = Unit
HasNewNames out (p ∷ ps) = (contains p.name out ≡ false) × HasNewNames (p.name ∷ out) ps

-- What the loop over the providers has seen.
record Tracks (seen : Seen) (ps : List ProviderConfig) (seen' : Seen) : Type 0 where
  names :
      (n : Bytes)
      → contains n seen'.names ≡ true
      → (contains n (names_of ps) || contains n seen.names) ≡ true
  enabled :
      (n : Bytes)
      → contains n seen'.enabled ≡ true
      → (contains n (enabled_names ps) || contains n seen.enabled) ≡ true
  distinct : HasNewNames seen.names ps

Tracks-cons :
    (seen seen' : Seen) (p : ProviderConfig) (ps : List ProviderConfig)
    → contains p.name seen.names ≡ false
    → Tracks (add_seen seen p) ps seen'
    → Tracks seen (p ∷ ps) seen'
unfolding HasNewNames contains enabled_names
Tracks-cons seen seen' p ps fresh so_far = record {
  names = λ n m. ground (arith, so_far.names n m);
  enabled = λ n m. ground (arith, so_far.enabled n m);
  distinct = (fresh, so_far.distinct);
}

validate_providers-Tracks :
    (net : Net) (re : Regexp) (seen : Seen) (ps : List ProviderConfig)
    {final : Seen × List ProviderConfig}
    → validate_providers net re seen ps ≡ ok final
    → Tracks seen ps final.0
unfolding validate_providers HasNewNames contains enabled_names
validate_providers-Tracks net re seen [] h =
    subst (λ f. Tracks seen [] f.0) (ok_inj h)
      (record { names = λ n m. m; enabled = λ n m. m; distinct = tt })
validate_providers-Tracks net re seen (p ∷ ps) h =
    let (_, _, h1) = bind-ok (compile_mappings re p.name p.model_regex_mapping) _ h in
    let (_, checks, h2) = bind-ok _ _ h1 in
    let (_, named, _) = bind-ok _ _ checks in
    let (_, fresh) = last_check-ok _ _ _ named in
    let (rest, tail, e) = bind-ok (validate_providers net re (add_seen seen p) ps) _ h2 in
    subst (λ f. Tracks seen (p ∷ ps) f.0) (ok_inj e)
      (Tracks-cons seen rest.0 p ps fresh
        (validate_providers-Tracks net re (add_seen seen p) ps tail))

-- A configuration fit for use: the circuit breaker's numbers are in their ranges, the names of the providers are distinct, the default provider, where
-- there is one, is an enabled provider, and every rule names providers, all of the configuration.
pub record IsAccepted (fl : Float) (cfg : Config) : Type 0 where
  pub sane : IsSane fl cfg.server.circuit_breaker
  pub distinct : HasNewNames [] cfg.providers
  pub default :
      (is_blank cfg.router.default_provider ≡ true)
      ⊎ (contains cfg.router.default_provider (enabled_names cfg.providers) ≡ true)
  pub rules : All (IsKnownRule (names_of cfg.providers)) cfg.router.route_rules

orb_nil : (n : Bytes) (b : Bool) → (b || contains n []) ≡ true → b ≡ true
unfolding contains
orb_nil n b h = ground arith

blank_or_found :
    (blank found : Bool) → (not blank && not found) ≡ false → (blank ≡ true) ⊎ (found ≡ true)
blank_or_found true found h = inl refl
blank_or_found false true h = inr refl
blank_or_found false false h = cc

All-known :
    (names names' : List Bytes) (rules : List RouteRule)
    → ((n : Bytes) → contains n names ≡ true → contains n names' ≡ true)
    → All (IsKnownRule names) rules
    → All (IsKnownRule names') rules
All-known names names' rules h known =
    All-map _ rules (λ r (some_named, all). (some_named, All-map _ r.providers (λ n m. h n m) all))
      known

-- A configuration that `validate` lets through has positive numbers in the circuit breaker, a window
-- that holds the samples it needs, and a failure rate that compares neither as at most 0 nor as
-- above 1 (as a number in (0, 1] does, and NaN); it has providers with distinct names, an enabled provider as its
-- default provider, where it has one, and rules that name providers, all of the configuration.
pub validate-IsAccepted :
    (fl : Float) (net : Net) (re : Regexp) (cfg : Config) {cfg' : Config}
    → validate fl net re cfg ≡ ok cfg'
    → IsAccepted fl cfg
unfolding validate
validate-IsAccepted fl net re cfg h =
    let start : Seen = record { names = []; enabled = [] } in
    let (_, checks, h1) = bind-ok _ _ h in
    let (some_listed, _) = last_check-ok _ _ _ checks in
    let (server_ok, _) = last_check-ok _ _ _ some_listed in
    let ((seen, ps), tail, h2) = bind-ok (validate_providers net re start cfg.providers) _ h1 in
    let (_, late, _) = bind-ok _ _ h2 in
    let (_, early, ruled) =
      bind-ok _ (λ _. validate_rules seen.names cfg.router.route_rules) late in
    let (_, default_ok) = last_check-ok _ _ _ early in
    let tracks = validate_providers-Tracks net re start cfg.providers tail in
    record {
      sane = validate_server-IsSane fl cfg.server server_ok;
      distinct = tracks.distinct;
      default = elim (blank_or_found _ _ default_ok) [
        | inl blank ↦ inl blank
        | inr found ↦ inr (
            orb_nil cfg.router.default_provider _
              (tracks.enabled cfg.router.default_provider found))
      ];
      rules =
          All-known seen.names (names_of cfg.providers) cfg.router.route_rules
            (λ n m. orb_nil n _ (tracks.names n m))
            (validate_rules-All seen.names cfg.router.route_rules ruled);
    }
