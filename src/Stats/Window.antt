-- ===== src/Stats/Window.antt =====
-- The sliding window of health samples, `providerHealthWindow` of internal/proxy/stats.go. A nil
-- window is `none` of an `Option` where the program may hold one. Its mutex makes each method one
-- step.
pub mod Samples
pub mod Slide
pub mod History
use ai_proxy_pool.Base.{
  ℕ, zero, suc, ◌+◌, ◌-◌, ◌*◌, ◌/◌, ◌%◌, ◌^◌, ◌≤◌, ◌<◌, ◌≡◌, refl, Bool, true, false, ◌||◌, List,
  [], ◌∷◌, ◌++◌, arith, ltb, leb, ◌==◌, if◌then◌else◌, Option, none, some, length, get_or, set,
  replicate,
}
use ai_proxy_pool.Base.Int.{ℤ, pos, negsuc, ◌+ℤ◌, ◌-ℤ◌, ◌*ℤ◌}
use ai_proxy_pool.Base.Word.{int64, quot, leb_ℤ}
use ai_proxy_pool.Base.Float.{Float}

pub record HealthSample : Type 0 where
  pub failed : Bool
  pub duration_ms : ℤ

-- `next` and `count` never pass the length of `entries`.
pub record ProviderHealthWindow : Type 0 where
  pub entries : List HealthSample
  pub next : ℕ
  pub count : ℕ
  pub failure_count : ℤ
  pub total_duration_ms : ℤ

abbrev pub zero_sample : HealthSample
zero_sample = record { failed = false; duration_ms = pos 0 }

abbrev pub empty_window : List HealthSample → ProviderHealthWindow
empty_window entries = record {
  entries = entries;
  next = 0;
  count = 0;
  failure_count = pos 0;
  total_duration_ms = pos 0;
}

-- `make([]healthSample, size)` for a size that is not negative
abbrev pub make_entries : ℤ → List HealthSample
make_entries (pos size) = replicate size zero_sample
make_entries (negsuc _) = []

unfoldable pub new_provider_health_window : ℤ → ProviderHealthWindow
unfolding leb_ℤ
new_provider_health_window size =
    if leb_ℤ size (pos 0) then empty_window [] else empty_window (make_entries size)

-- time.Duration is a number of nanoseconds.
unfoldable pub milliseconds : ℤ → ℤ
unfolding quot
milliseconds d = quot d (pos 1000000)

-- One for a failed sample.
abbrev pub failures_of : HealthSample → ℤ
failures_of s = if s.failed then pos 1 else pos 0

-- The branch of `record` for a full window, before the new sample is counted.
abbrev forget : HealthSample → HealthSample → ProviderHealthWindow → ProviderHealthWindow
forget old sample w = record w {
  entries = set w.entries w.next sample;
  failure_count = if old.failed then int64 (w.failure_count -ℤ pos 1) else w.failure_count;
  total_duration_ms = int64 (w.total_duration_ms -ℤ old.duration_ms);
}

-- The rest of `record`.
abbrev account : HealthSample → ProviderHealthWindow → ProviderHealthWindow
account sample w = record w {
  failure_count = if sample.failed then int64 (w.failure_count +ℤ pos 1) else w.failure_count;
  total_duration_ms = int64 (w.total_duration_ms +ℤ sample.duration_ms);
  next = (w.next + 1) % length w.entries;
}

-- `record` with the sample made
unfoldable pub push_sample : ProviderHealthWindow → HealthSample → ProviderHealthWindow
push_sample w sample =
    if length w.entries == 0
    then w
    else if ltb w.count (length w.entries)
    then account sample (record w { entries = set w.entries w.next sample; count = w.count + 1 })
    else account sample (forget (get_or w.entries w.next zero_sample) sample w)

-- `record`, on a window that is not nil
unfoldable pub record_sample : ProviderHealthWindow → ℤ → Bool → ProviderHealthWindow
unfolding push_sample milliseconds
record_sample w duration failed =
    push_sample w (record { failed = failed; duration_ms = milliseconds duration })

pub record Snapshot : Type 0 where
  pub enough : Bool
  pub samples : ℕ
  pub failure_rate : ℕ
  pub avg : ℤ

unfoldable pub snapshot : Float → ProviderHealthWindow → ℤ → Snapshot
unfolding quot leb_ℤ
snapshot fl w min_samples =
    if w.count == 0
    then record { enough = false; samples = 0; failure_rate = fl.of_int (pos 0); avg = pos 0 }
    else record {
      enough = leb_ℤ min_samples (pos w.count);
      samples = w.count;
      failure_rate = fl.div (fl.of_int w.failure_count) (fl.of_int (pos w.count));
      avg = int64 (int64 (quot w.total_duration_ms (pos w.count)) *ℤ pos 1000000);
    }
