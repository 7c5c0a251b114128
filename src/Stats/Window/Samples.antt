-- ===== src/Stats/Window/Samples.antt =====
-- The ring buffer of health samples holds the latest samples, and its counters are their sums.
use ai_proxy_pool.Base.{
  ℕ, suc, ◌+◌, ◌-◌, ◌<◌, ◌≡◌, refl, ap, sym, ◌∙◌, List, [], ◌∷◌, ◌++◌, arith, ltb, leb,
  if◌then◌else◌, length, get_or, set, drop, append_assoc,
}
use ai_proxy_pool.Base.Int.{ℤ, pos, ◌+ℤ◌, ◌-ℤ◌, +ℤ_assoc}
use ai_proxy_pool.Base.Word.{int64, int64-+ℤ_left, int64--ℤ_left}
use ai_proxy_pool.Stats.Window.{HealthSample, ProviderHealthWindow, failures_of}

-- The last `size` samples of a history, oldest first.
unfoldable pub recent : ℕ → List HealthSample → List HealthSample
recent size h = drop (length h - size) h

unfoldable pub failures : List HealthSample → ℤ
failures [] = pos 0
failures (s ∷ l) = failures_of s +ℤ failures l

unfoldable pub total_ms : List HealthSample → ℤ
total_ms [] = pos 0
total_ms (s ∷ l) = s.duration_ms +ℤ total_ms l

-- The sliding window that the ring buffer stands for: a full window drops its oldest sample.
unfoldable pub slide : ℕ → List HealthSample → HealthSample → List HealthSample
slide size [] s = if leb size 0 then [] else s ∷ []
slide size (o ∷ view) s =
    if ltb (suc (length view)) size then o ∷ view ++ s ∷ [] else view ++ s ∷ []

-- The window whose counters are right for `view`.
abbrev pub ring : List HealthSample → ℕ → ℕ → List HealthSample → ProviderHealthWindow
ring entries next count view = record {
  entries = entries;
  next = next;
  count = count;
  failure_count = int64 (failures view);
  total_duration_ms = int64 (total_ms view);
}

-- Where the samples of `view` stand in the ring.
pub data Tracks (size : ℕ) (w : ProviderHealthWindow) (view : List HealthSample) : Type 0 where
  filling :
      (room : List HealthSample)
      → w ≡ ring (view ++ room) (length view) (length view) view
      → length view + length room ≡ size
      → 0 < length room
      → Tracks size w view
  full :
      (new old : List HealthSample)
      → w ≡ ring (new ++ old) (length new) size view
      → view ≡ old ++ new
      → length new + length old ≡ size
      → 0 < length old
      → Tracks size w view

pub set_middle :
    (a b : List HealthSample) (x y : HealthSample) → set (a ++ x ∷ b) (length a) y ≡ a ++ y ∷ b
set_middle [] b x y = refl
set_middle (z ∷ a) b x y = ap (◌∷◌ z) (set_middle a b x y)

pub get_middle :
    (a b : List HealthSample) (x d : HealthSample) → get_or (a ++ x ∷ b) (length a) d ≡ x
get_middle [] b x d = refl
get_middle (z ∷ a) b x d = get_middle a b x d

zero-+ℤ : (a : ℤ) → pos 0 +ℤ a ≡ a
unfolding ◌+ℤ◌
zero-+ℤ a = ground arith

+ℤ-zero : (a : ℤ) → a +ℤ pos 0 ≡ a
unfolding ◌+ℤ◌
+ℤ-zero a = ground arith

+ℤ_cancel_left : (a b : ℤ) → a +ℤ b -ℤ a ≡ b
unfolding ◌+ℤ◌ ◌-ℤ◌
+ℤ_cancel_left a b = ground arith

failures-append : (a b : List HealthSample) → failures (a ++ b) ≡ failures a +ℤ failures b
unfolding failures
failures-append [] b = sym (zero-+ℤ (failures b))
failures-append (x ∷ a) b = rw (failures-append a b) (sym (+ℤ_assoc _ _ _))

total_ms-append : (a b : List HealthSample) → total_ms (a ++ b) ≡ total_ms a +ℤ total_ms b
unfolding total_ms
total_ms-append [] b = sym (zero-+ℤ (total_ms b))
total_ms-append (x ∷ a) b = rw (total_ms-append a b) (sym (+ℤ_assoc _ _ _))

pub snoc-append : (a b : List HealthSample) (x : HealthSample) → (a ++ x ∷ []) ++ b ≡ a ++ x ∷ b
snoc-append a b x = append_assoc a (x ∷ []) b

-- The counters after a sample is added.
pub failures_snoc :
    (view : List HealthSample) (s : HealthSample)
    → (if s.failed then int64 (int64 (failures view) +ℤ pos 1) else int64 (failures view))
      ≡ int64 (failures (view ++ s ∷ []))
unfolding failures
failures_snoc view s = rw (failures-append view (s ∷ [])) (
    ground (
      arith,
      int64-+ℤ_left (failures view) (pos 1),
      +ℤ-zero (failures_of s),
      +ℤ-zero (failures view),
    ))

pub total_snoc :
    (view : List HealthSample) (s : HealthSample)
    → int64 (int64 (total_ms view) +ℤ s.duration_ms) ≡ int64 (total_ms (view ++ s ∷ []))
unfolding total_ms
total_snoc view s =
    rw (total_ms-append view (s ∷ []), +ℤ-zero) (int64-+ℤ_left (total_ms view) s.duration_ms)

-- The counters after the oldest sample is forgotten.
pub failures_forget :
    (old : HealthSample) (view : List HealthSample)
    → (if old.failed
        then int64 (int64 (failures (old ∷ view)) -ℤ pos 1)
        else int64 (failures (old ∷ view)))
      ≡ int64 (failures view)
unfolding failures
failures_forget old view = ground (
  arith,
  int64--ℤ_left (failures_of old +ℤ failures view) (pos 1),
  +ℤ_cancel_left (failures_of old) (failures view),
  zero-+ℤ (failures view),
)

pub total_forget :
    (old : HealthSample) (view : List HealthSample)
    → int64 (int64 (total_ms (old ∷ view)) -ℤ old.duration_ms) ≡ int64 (total_ms view)
unfolding total_ms
total_forget old view =
    int64--ℤ_left (old.duration_ms +ℤ total_ms view) old.duration_ms
    ∙ ap int64 (+ℤ_cancel_left old.duration_ms (total_ms view))
