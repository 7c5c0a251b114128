-- ===== src/Router/Invariant.antt =====
-- What `NewSelector` establishes and every selection relies on.
use mathlib.Core.List.{Memᴰ}
use mathlib.Core.Path.{subst}
use mathlib.Core.Bool.{or-true, true-or}
use mathlib.Core.Option.{some-injective, none-ne-some}
use ai_proxy_pool.Base.{
  ◌≡◌, refl, ◌≢◌, ◌⊎◌, inl, inr, true, ◌||◌, List, [], ◌∷◌, ◌++◌, Option, some, if◌then◌else◌, All,
  All-append, All-map, arith, Bool-cases, Option-cases, List-cases,
}
use ai_proxy_pool.Base.Text.{Bytes, str_eq, str_eq→eq}
use ai_proxy_pool.Base.Dict.{lookup, insert, lookup-insert, lookup-insert_self, contains}
use ai_proxy_pool.Base.Regexp.{Regexp}
use ai_proxy_pool.Base.Result.{ok, ◌>>=◌, bind-ok, ok_inj}
use ai_proxy_pool.Config.{ProviderConfig, RouterConfig, RouteRule, enabled_or_default}
use ai_proxy_pool.Router.{Selector, ProviderItem, CompiledRule, provider_regex, rule_regex}
use ai_proxy_pool.Router.Build.{
  compile, store, add_provider, add_providers, known_providers, append_rule, add_rule, add_rules,
  require_names, new_selector, empty_selector,
}

-- A name that the selector has a provider for.
abbrev pub IsKnown : List (Bytes × ProviderItem) → Bytes → Type 0
IsKnown items n = (item : ProviderItem) × (lookup n items ≡ some item)

-- A provider kept under its own name, enabled, and given by the configuration.
abbrev pub IsSound : List ProviderConfig → Bytes → ProviderItem → Type 0
IsSound providers n item =
    (item.cfg.name ≡ n) × (enabled_or_default item.cfg ≡ true) × Memᴰ item.cfg providers

pub record IsWf (providers : List ProviderConfig) (s : Selector) : Type 0 where
  pub sound :
      (n : Bytes) (item : ProviderItem)
      → lookup n s.providers ≡ some item
      → IsSound providers n item
  pub known : All (IsKnown s.providers) s.all_provider_names
  pub listed : (n : Bytes) → IsKnown s.providers n → contains n s.all_provider_names ≡ true
  pub ruled : All (λ r. All (IsKnown s.providers) r.providers × (r.providers ≢ [])) s.rules

pub contains-snoc :
    (n k : Bytes) (l : List Bytes) → contains n (l ++ k ∷ []) ≡ (contains n l || str_eq k n)
unfolding contains
contains-snoc n k [] = ground arith
contains-snoc n k (j ∷ l) = ground (arith, contains-snoc n k l)

IsKnown-insert :
    (items : List (Bytes × ProviderItem)) (k n : Bytes) (item : ProviderItem)
    → IsKnown items n
    → IsKnown (insert k item items) n
IsKnown-insert items k n item (old, h) = elim (Bool-cases (str_eq k n)) [
  | inl same ↦ (item, rw (lookup-insert, same))
  | inr other ↦ (old, rw (lookup-insert, other) h)
]

-- What adding a provider does, when it succeeds.
add_provider-cases :
    (re : Regexp) (s : Selector) (p : ProviderConfig) {s' : Selector}
    → add_provider re s p ≡ ok s'
    → (s ≡ s') ⊎ ((r : Option Bytes) × (enabled_or_default p ≡ true) × (store s p r ≡ s'))
unfolding add_provider
add_provider-cases re s p e = elim (Bool-cases (enabled_or_default p)) [
  | inl on ↦
      let (r, _, e') =
        bind-ok (compile re p.model_regex (provider_regex p.name)) _
          (rw (on, if◌then◌else◌) at e) in
      inr (r, on, ground arith)
  | inr off ↦ inl (ground arith)
]

known_providers-All :
    (items : List (Bytes × ProviderItem)) (names : List Bytes)
    → All (IsKnown items) (known_providers items names)
unfolding known_providers
known_providers-All items [] = tt
known_providers-All items (n ∷ names) = elim (Option-cases (lookup n items)) [
  | inl e ↦ rw (e, known_providers) (known_providers-All items names)
  | inr (item, e) ↦ rw (e, known_providers) ((item, e), known_providers-All items names)
]

require_names-eq : (s : Selector) {t : Selector} → require_names s ≡ ok t → s ≡ t
require_names-eq s e = ground arith

store-listed :
    (s : Selector) (p : ProviderConfig) (r : Option Bytes) (n : Bytes)
    → (IsKnown s.providers n → contains n s.all_provider_names ≡ true)
    → (item : ProviderItem) → lookup n (store s p r).providers ≡ some item
    → contains n (store s p r).all_provider_names ≡ true
store-listed s p r n old item h =
    rw (contains-snoc n p.name s.all_provider_names) (elim (Bool-cases (str_eq p.name n)) [
      | inl same ↦ rw same (or-true (contains n s.all_provider_names))
      | inr other ↦ rw (old (item, rw (lookup-insert, other) at h)) (true-or (str_eq p.name n))
    ])

module _ (providers : List ProviderConfig) where
  store-IsWf :
      (s : Selector) (p : ProviderConfig) (r : Option Bytes)
      → Memᴰ p providers
      → enabled_or_default p ≡ true
      → s.rules ≡ []
      → IsWf providers s
      → IsWf providers (store s p r)
  store-IsWf s p r m on empty w = record {
    sound = λ n item h. elim (Bool-cases (str_eq p.name n)) [
      | inl same ↦
          subst (IsSound providers n) (some-injective _ _ (rw (lookup-insert, same) at h))
            (str_eq→eq _ _ same, on, m)
      | inr other ↦ w.sound n item (rw (lookup-insert, other) at h)
    ];
    known =
        All-append _ s.all_provider_names (p.name ∷ [])
          (All-map _ _ (λ n. IsKnown-insert s.providers p.name n added) w.known)
          ((added, lookup-insert_self p.name added s.providers), tt);
    listed = λ n (item, h). store-listed s p r n (w.listed n) item h;
    ruled = rw empty tt;
  }
    where
      added : ProviderItem
      added = record { cfg = p; model_regex = r }

  add_providers-IsWf :
      (re : Regexp) (s : Selector) (ps : List ProviderConfig) {s' : Selector}
      → All (λ p. Memᴰ p providers) ps
      → s.rules ≡ []
      → IsWf providers s
      → add_providers re s ps ≡ ok s'
      → IsWf providers s' × (s'.rules ≡ [])
  unfolding add_providers
  add_providers-IsWf re s [] {s'} m empty w e =
      subst (λ t. IsWf providers t × (t.rules ≡ [])) (ok_inj e) (w, empty)
  add_providers-IsWf re s (p ∷ ps) {s'} (m, ms) empty w e =
      let (t, added, e') = bind-ok (add_provider re s p) _ e in
      elim (add_provider-cases re s p added) [
        | inl same ↦ add_providers-IsWf re t ps ms (rw (← same) empty) (rw (← same) w) e'
        | inr (r, on, stored) ↦
            add_providers-IsWf re t ps ms (rw (← stored) empty)
              (rw (← stored) (store-IsWf s p r m on empty w)) e'
      ]

  append_rule-IsWf :
      (s : Selector) (rule : CompiledRule)
      → All (IsKnown s.providers) rule.providers
      → IsWf providers s
      → IsWf providers (append_rule s rule)
  append_rule-IsWf s rule k w = elim (List-cases rule.providers) [
    | inl e ↦ rw (e, append_rule) w
    | inr (n, ns, e) ↦
        rw (e, append_rule)
          (record {
            sound = w.sound;
            known = w.known;
            listed = w.listed;
            ruled = All-append _ s.rules (rule ∷ []) w.ruled ((k, λ none_left. cc), tt);
          })
  ]

  add_rules-IsWf :
      (re : Regexp) (s : Selector) (rules : List RouteRule) {s' : Selector}
      → IsWf providers s
      → add_rules re s rules ≡ ok s'
      → IsWf providers s'
  unfolding add_rules add_rule
  add_rules-IsWf re s [] w e = subst (IsWf providers) (ok_inj e) w
  add_rules-IsWf re s (r ∷ rules) w e =
      let (t, added, e') = bind-ok (add_rule re s r) _ e in
      let (c, _, made) = bind-ok (compile re r.model_regex (rule_regex r.model_regex)) _ added in
      add_rules-IsWf re t rules
        (subst (IsWf providers) (ok_inj made)
          (append_rule-IsWf s _ (known_providers-All s.providers r.providers) w))
        e'

Memᴰ-All : (l : List ProviderConfig) → All (λ p. Memᴰ p l) l
Memᴰ-All [] = tt
Memᴰ-All (x ∷ l) = (Memᴰ.head refl, All-map _ l (λ p m. Memᴰ.tail m) (Memᴰ-All l))

empty-IsWf : (rc : RouterConfig) (ps : List ProviderConfig) → IsWf ps (empty_selector rc)
unfolding lookup
empty-IsWf rc ps = record {
  sound = λ n item h. absurd (none-ne-some item h);
  known = tt;
  listed = λ n (item, h). absurd (none-ne-some item h);
  ruled = tt;
}

-- A selector that `NewSelector` returns knows only enabled providers of the configuration, each
-- under its own name; it lists all their names; and each of its rules names such providers only,
-- and at least one.
pub new_selector-IsWf :
    (re : Regexp) (rc : RouterConfig) (ps : List ProviderConfig) {s : Selector}
    → new_selector re rc ps ≡ ok s
    → IsWf ps s
unfolding new_selector
new_selector-IsWf re rc ps {s} e =
    let (t, e1, e2) = bind-ok (add_providers re (empty_selector rc) ps >>= require_names) _ e in
    let (u, e3, e4) = bind-ok (add_providers re (empty_selector rc) ps) _ e1 in
    let (w, _) = add_providers-IsWf ps re _ ps (Memᴰ-All ps) refl (empty-IsWf rc ps) e3 in
    add_rules-IsWf ps re t rc.route_rules (subst (IsWf ps) (require_names-eq u e4) w) e2
