-- ===== src/Stats/Reset.antt =====
-- What `ResetAllCounters` of internal/proxy/stats.go leaves of the counters.
use ai_proxy_pool.Base.{◌≡◌, refl, [], ◌∷◌, inl, inr, Bool-cases, if◌then◌else◌}
use ai_proxy_pool.Base.Int.{pos}
use ai_proxy_pool.Base.Dict.{lookup}
use ai_proxy_pool.Base.Text.{Bytes, str_eq}
use ai_proxy_pool.Stats.Provider.{
  ProviderStats, GlobalStats, stats_of, map_stats, reset_counters, reset_all_counters,
}

pub stats_of_cons :
    (n name : Bytes) (ps : ProviderStats) (g : GlobalStats)
    → stats_of ((n, ps) ∷ g) name ≡ (if str_eq n name then ps else stats_of g name)
unfolding stats_of lookup
stats_of_cons n name ps g = elim (Bool-cases (str_eq n name)) [
  | inl same ↦ rw same refl
  | inr other ↦ rw other refl
]

-- Nothing is counted of a provider.
abbrev pub IsCleared : ProviderStats → Type 0
IsCleared ps =
    (ps.active_connections ≡ pos 0)
    × (ps.total_requests ≡ pos 0)
    × (ps.success_requests ≡ pos 0)
    × (ps.error_requests ≡ pos 0)
    × (ps.total_duration_ms ≡ pos 0)
    × (ps.total_bytes ≡ pos 0)
    × (ps.prompt_tokens ≡ pos 0)
    × (ps.completion_tokens ≡ pos 0)

pub reset-IsCleared :
    (g : GlobalStats) (name : Bytes) → IsCleared (stats_of (reset_all_counters g) name)
unfolding reset_all_counters map_stats reset_counters stats_of lookup
reset-IsCleared [] name = (refl, refl, refl, refl, refl, refl, refl, refl)
reset-IsCleared ((n, ps) ∷ g) name = elim (Bool-cases (str_eq n name)) [
  | inl same ↦ rw same (refl, refl, refl, refl, refl, refl, refl, refl)
  | inr other ↦ rw other (reset-IsCleared g name)
]
