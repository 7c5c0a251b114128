-- ===== src/Stats/Tests.antt =====
-- Runs of the counters, and their theorems at concrete inputs.
use Prim.Native.Nat.{min}
use ai_proxy_pool.Base.{◌≡◌, refl, true, false, List, [], ◌∷◌, map, Bool, arith, length}
use ai_proxy_pool.Base.Int.{ℤ, pos, ◌+ℤ◌, ◌-ℤ◌}
use ai_proxy_pool.Base.Word.{int64}
use ai_proxy_pool.Stats.Window.{new_provider_health_window, record_sample}
use ai_proxy_pool.Stats.Window.Samples.{recent, failures, total_ms}
use ai_proxy_pool.Stats.Window.History.{observe, sample_of, observe-new_provider_health_window}
use mathlib.Core.Option
use ai_proxy_pool.Base.Text.{codes}
use ai_proxy_pool.Stats.Provider.{ProviderStats, GlobalStats, zero_stats}

program : Unit {0}
unfolding new_provider_health_window record_sample observe recent failures total_ms int64 ◌+ℤ◌ ◌-ℤ◌
program = tt

-- Four attempts, in nanoseconds.
abbrev attempts : List (ℤ × Bool)
attempts =
    (pos 5000000, true) ∷ (pos 7000000, false) ∷ (pos 9000000, true) ∷ (pos 1000000, true) ∷ []

window_test :
    let w = observe (new_provider_health_window (pos 2)) attempts in
    (w.count ≡ 2) × (w.next ≡ 0) × (w.failure_count ≡ pos 2) × (w.total_duration_ms ≡ pos 10)
unfolding program
window_test = (refl, refl, refl, refl)

observe-new_provider_health_window_example :
    let w = observe (new_provider_health_window (pos 2)) attempts in
    let latest = recent 2 (map sample_of attempts) in
    (w.count ≡ min (length attempts) 2)
    × (w.failure_count ≡ int64 (failures latest))
    × (w.total_duration_ms ≡ int64 (total_ms latest))
observe-new_provider_health_window_example =
    observe-new_provider_health_window 2 attempts (omega arith)

abbrev busy : ProviderStats
busy = record zero_stats {
  active_connections = pos 2;
  total_requests = pos 3;
  success_requests = pos 2;
  error_requests = pos 1;
  total_duration_ms = pos 10;
  circuit_open_until = pos 125;
}

abbrev store : GlobalStats
store = (codes "a", busy) ∷ (codes "b", zero_stats) ∷ []
