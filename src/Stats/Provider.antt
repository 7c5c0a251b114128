-- ===== src/Stats/Provider.antt =====
-- `ProviderStats` and `GlobalStats` of internal/proxy/stats.go. The map hands out pointers, so a
-- write through one is a write to the map's entry; an atomic operation or a locked section is one
-- step. An int64 counter is an integer that wraps round.
use ai_proxy_pool.Base.{Bool, false, List, [], ◌∷◌, Option, none, some, if◌then◌else◌, length}
use ai_proxy_pool.Base.Int.{ℤ, pos, ltb_ℤ}
use ai_proxy_pool.Base.Word.{int64, leb_ℤ, eq_ℤ, quot}
use ai_proxy_pool.Base.Text.{Bytes}
use ai_proxy_pool.Base.Dict.{lookup, insert}
use ai_proxy_pool.Stats.Window.{ProviderHealthWindow, new_provider_health_window}

pub record ProviderStats : Type 0 where
  pub active_connections : ℤ
  pub total_requests : ℤ
  pub success_requests : ℤ
  pub error_requests : ℤ
  pub total_duration_ms : ℤ
  pub total_bytes : ℤ
  pub prompt_tokens : ℤ
  pub completion_tokens : ℤ
  pub health_window : Option ProviderHealthWindow
  pub consecutive_errors : ℤ
  pub circuit_open_until : ℤ

-- `&ProviderStats{}`
abbrev pub zero_stats : ProviderStats
zero_stats = record {
  active_connections = pos 0;
  total_requests = pos 0;
  success_requests = pos 0;
  error_requests = pos 0;
  total_duration_ms = pos 0;
  total_bytes = pos 0;
  prompt_tokens = pos 0;
  completion_tokens = pos 0;
  health_window = none;
  consecutive_errors = pos 0;
  circuit_open_until = pos 0;
}

abbrev pub GlobalStats : Type 0
GlobalStats = List (Bytes × ProviderStats)

-- The entry that `GetOrCreate` returns a pointer to.
abbrev pub or_zero : Option ProviderStats → ProviderStats
or_zero none = zero_stats
or_zero (some ps) = ps

unfoldable pub stats_of : GlobalStats → Bytes → ProviderStats
stats_of g provider = or_zero (lookup provider g)

-- `GetOrCreate`: the store, in which the provider has an entry now.
unfoldable pub get_or_create : GlobalStats → Bytes → GlobalStats
get_or_create g provider = elim (lookup provider g) [
  | none ↦ insert provider zero_stats g
  | some _ ↦ g
]

-- A write through the pointer that `GetOrCreate` returned.
unfoldable pub update : Bytes → (ProviderStats → ProviderStats) → GlobalStats → GlobalStats
unfolding stats_of
update provider f g = insert provider (f (stats_of g provider)) g

abbrev window_size : ProviderHealthWindow → ℤ
window_size w = pos (length w.entries)

abbrev has_window_of : ℤ → Option ProviderHealthWindow → Bool
has_window_of size none = false
has_window_of size (some w) = eq_ℤ (window_size w) size

-- EnsureHealthWindow, whose result the callers ignore
unfoldable pub ensure_health_window : ℤ → ProviderStats → ProviderStats
unfolding leb_ℤ eq_ℤ
ensure_health_window size ps =
    if leb_ℤ size (pos 0)
    then ps
    else if has_window_of size ps.health_window
    then ps
    else record ps { health_window = some (new_provider_health_window size) }

unfoldable pub reset_health_window : ℤ → ProviderStats → ProviderStats
unfolding leb_ℤ
reset_health_window size ps =
    if leb_ℤ size (pos 0)
    then record ps { health_window = none }
    else record ps { health_window = some (new_provider_health_window size) }

-- What `ResetAllCounters` does to one entry.
unfoldable pub reset_counters : ProviderStats → ProviderStats
reset_counters ps = record ps {
  active_connections = pos 0;
  total_requests = pos 0;
  success_requests = pos 0;
  error_requests = pos 0;
  total_duration_ms = pos 0;
  total_bytes = pos 0;
  prompt_tokens = pos 0;
  completion_tokens = pos 0;
  health_window = elim ps.health_window [
    | none ↦ none
    | some w ↦ some (new_provider_health_window (window_size w))
  ];
}

unfoldable pub map_stats : (ProviderStats → ProviderStats) → GlobalStats → GlobalStats
map_stats f [] = []
map_stats f ((name, ps) ∷ g) = (name, f ps) ∷ map_stats f g

unfoldable pub reset_all_counters : GlobalStats → GlobalStats
unfolding map_stats reset_counters
reset_all_counters g = map_stats reset_counters g

pub record ProviderStatView : Type 0 where
  pub name : Bytes
  pub active_connections : ℤ
  pub total_requests : ℤ
  pub success_requests : ℤ
  pub error_requests : ℤ
  pub avg_duration_ms : ℤ
  pub total_bytes : ℤ
  pub prompt_tokens : ℤ
  pub completion_tokens : ℤ
  pub consecutive_errors : ℤ
  pub circuit_open_until : ℤ

unfoldable pub view_of : Bytes → ProviderStats → ProviderStatView
unfolding quot
view_of name ps = record {
  name = name;
  active_connections = ps.active_connections;
  total_requests = ps.total_requests;
  success_requests = ps.success_requests;
  error_requests = ps.error_requests;
  avg_duration_ms =
      if ltb_ℤ (pos 0) ps.total_requests
      then int64 (quot ps.total_duration_ms ps.total_requests)
      else pos 0;
  total_bytes = ps.total_bytes;
  prompt_tokens = ps.prompt_tokens;
  completion_tokens = ps.completion_tokens;
  consecutive_errors = ps.consecutive_errors;
  circuit_open_until = ps.circuit_open_until;
}

-- `Snapshot`; the keys of the map are distinct, so each is written once.
unfoldable pub snapshot_all : GlobalStats → List (Bytes × ProviderStatView)
unfolding view_of
snapshot_all [] = []
snapshot_all ((name, ps) ∷ g) = (name, view_of name ps) ∷ snapshot_all g
