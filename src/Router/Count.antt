-- ===== src/Router/Count.antt =====
-- `Select` changes no field of the selector but the round robin counter.
use mathlib.Core.Path.{subst}
use ai_proxy_pool.Base.{
  ℕ, ◌+◌, ◌%◌, ◌≡◌, refl, sym, inl, inr, true, false, List, [], ◌∷◌, Bool-cases, Option-cases,
  List-cases,
}
use ai_proxy_pool.Base.Int.{pos}
use ai_proxy_pool.Base.Word.{leb_ℤ}
use ai_proxy_pool.Base.Text.{Bytes, str_eq}
use ai_proxy_pool.Base.Regexp.{Regexp}
use ai_proxy_pool.Config.{ProviderConfig, strategy_weighted_random}
use ai_proxy_pool.Router.{
  Selector, uint64_mod, SelectionInput, pick, pick_weighted_random, pick_round_robin, sum_weights,
  scan_rules, RuleScan, found, missed, usable_default, select_fallback, model_candidates,
  select_by_model, select, is_empty,
}
use ai_proxy_pool.Router.Invariant.{IsWf}

-- The second selector is the first with some counter.
abbrev pub Recounts : Selector → Selector → Type 0
Recounts s s' = (count : ℕ) × (s' ≡ record s { round_robin_count = count })

pick-Recounts :
    (s : Selector) (draw : ℕ → ℕ) (names : List Bytes) → Recounts s (pick s draw names).0
unfolding pick pick_weighted_random pick_round_robin
pick-Recounts s draw [] = (s.round_robin_count, refl)
pick-Recounts s draw (n ∷ names) = elim (Bool-cases (str_eq s.strategy strategy_weighted_random)) [
  | inr plain ↦ ((s.round_robin_count + 1) % uint64_mod, rw plain refl)
  | inl weighted ↦ elim (Bool-cases (leb_ℤ (sum_weights s (pos 0) (n ∷ names)) (pos 0))) [
    | inl none_left ↦ ((s.round_robin_count + 1) % uint64_mod, rw (weighted, none_left) refl)
    | inr some_left ↦ (s.round_robin_count, rw (weighted, some_left) refl)
  ]
]

select_fallback-Recounts :
    (s : Selector) (draw : ℕ → ℕ) (input : SelectionInput)
    → Recounts s (select_fallback s draw input).0
unfolding select_fallback
select_fallback-Recounts s draw input = elim (Option-cases (usable_default s input)) [
  | inl absent ↦ rw (absent, select_fallback) (pick-Recounts s draw _)
  | inr (c, usable) ↦ (s.round_robin_count, rw (usable, select_fallback) refl)
]

select_by_model-Recounts :
    (re : Regexp) (s : Selector) (draw : ℕ → ℕ) (input : SelectionInput)
    → Recounts s (select_by_model re s draw input).0
unfolding select_by_model
select_by_model-Recounts re s draw input = elim (List-cases (model_candidates re s input)) [
  | inl absent ↦ rw (absent, select_by_model) (select_fallback-Recounts s draw input)
  | inr (n, names, left) ↦ rw (left, select_by_model) (pick-Recounts s draw (n ∷ names))
]

scan-Recounts :
    (re : Regexp) (s : Selector) (draw : ℕ → ℕ) (input : SelectionInput) (scan : RuleScan)
    → scan_rules re input false s.rules ≡ scan
    → is_empty input.forced_provider ≡ true
    → Recounts s (select re s draw input).0
unfolding select
scan-Recounts re s draw input (found names) e free =
    rw (free, e, select) (pick-Recounts s draw names)
scan-Recounts re s draw input (missed true) e free =
    (s.round_robin_count, rw (free, e, select) refl)
scan-Recounts re s draw input (missed false) e free =
    rw (free, e, select) (select_by_model-Recounts re s draw input)

pub select-Recounts :
    (re : Regexp) (s : Selector) (draw : ℕ → ℕ) (input : SelectionInput)
    → Recounts s (select re s draw input).0
unfolding select
select-Recounts re s draw input = elim (List-cases input.forced_provider) [
  | inl free ↦ scan-Recounts re s draw input _ refl (rw free refl)
  | inr (c, rest, forced) ↦ (s.round_robin_count, rw forced refl)
]

pub Recounts-IsWf :
    (providers : List ProviderConfig) {s s' : Selector}
    → Recounts s s'
    → IsWf providers s
    → IsWf providers s'
Recounts-IsWf providers {s} {s'} (count, e) w =
    let recounted : IsWf providers (record s { round_robin_count = count }) = record {
      sound = w.sound;
      known = w.known;
      listed = w.listed;
      ruled = w.ruled;
    } in
    subst (IsWf providers) (sym e) recounted
