-- ===== src/Stats/Persist.antt =====
-- internal/proxy/stats_persist.go: what a snapshot on disk keeps of the counters. The JSON text
-- and the file stand between the two functions here, and are not modelled.
use ai_proxy_pool.Base.{◌≡◌, List, [], ◌∷◌, Option, none, some}
use mathlib.Core.Option
use ai_proxy_pool.Base.Int.{pos, ◌*ℤ◌}
use ai_proxy_pool.Base.Word.{int64}
use ai_proxy_pool.Base.Text.{Bytes}
use ai_proxy_pool.Base.Dict.{lookup}
use ai_proxy_pool.Stats.Provider.{
  ProviderStats, ProviderStatView, GlobalStats, view_of, snapshot_all, update, stats_of,
}

-- The loop of `PersistTo` over the snapshot.
unfoldable pub zero_active : List (Bytes × ProviderStatView) → List (Bytes × ProviderStatView)
zero_active [] = []
zero_active ((name, view) ∷ snap) =
    (name, record view { active_connections = pos 0 }) ∷ zero_active snap

-- The snapshot that `PersistTo` writes.
unfoldable pub persisted : GlobalStats → List (Bytes × ProviderStatView)
unfolding zero_active snapshot_all
persisted g = zero_active (snapshot_all g)

-- What `LoadFromDiskAt` stores in one entry.
unfoldable pub load_view : ProviderStatView → ProviderStats → ProviderStats
load_view view ps = record ps {
  total_requests = view.total_requests;
  success_requests = view.success_requests;
  error_requests = view.error_requests;
  total_duration_ms = int64 (view.avg_duration_ms *ℤ view.total_requests);
  total_bytes = view.total_bytes;
  prompt_tokens = view.prompt_tokens;
  completion_tokens = view.completion_tokens;
  circuit_open_until = view.circuit_open_until;
  consecutive_errors = view.consecutive_errors;
}

-- The loop of `LoadFromDiskAt`.
unfoldable pub load_from_disk : List (Bytes × ProviderStatView) → GlobalStats → GlobalStats
unfolding update load_view
load_from_disk [] g = g
load_from_disk ((name, view) ∷ snap) g = load_from_disk snap (update name (load_view view) g)

-- What a restart keeps: everything but the connections, the health window and the remainder of the
-- total duration by the number of requests.
unfoldable pub restarted : ProviderStats → ProviderStats
restarted ps = record ps {
  active_connections = pos 0;
  total_duration_ms = int64 ((view_of [] ps).avg_duration_ms *ℤ ps.total_requests);
  health_window = none;
}

-- The keys of a map are distinct.
abbrev pub HasKeys : GlobalStats → Type 0
HasKeys [] = Unit
HasKeys ((name, ps) ∷ g) = (lookup name g ≡ none) × HasKeys g

-- An entry of the store after its view was loaded.
abbrev loaded : GlobalStats → Bytes → Option ProviderStats → Option ProviderStats
loaded old name none = lookup name old
loaded old name (some ps) = some (load_view (view_of [] ps) (stats_of old name))
