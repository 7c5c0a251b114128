-- ===== src/Stats/Window/History.antt =====
-- A window against the whole history of attempts that it has seen.
use ai_proxy_pool.Base.{
  ℕ, zero, suc, ◌+◌, ◌-◌, ◌≤◌, ◌<◌, ◌≡◌, refl, ap, sym, ◌∙◌, Bool, List, [], ◌∷◌, ◌++◌, arith, ltb,
  ltb→lt, Bool-cases, map, length-drop, length-map, length, replicate, drop, length-append,
  append-nil, length-replicate, inl, inr,
}
use Prim.Native.Nat.{min}
use ai_proxy_pool.Base.Int.{ℤ, pos}
use ai_proxy_pool.Base.Word.{int64}
use ai_proxy_pool.Stats.Window.{
  HealthSample, ProviderHealthWindow, record_sample, milliseconds, zero_sample,
  new_provider_health_window,
}
use ai_proxy_pool.Stats.Window.Samples.{
  slide, Tracks, filling, full, snoc-append, recent, failures, total_ms,
}
use ai_proxy_pool.Stats.Window.Slide.{push_sample-Tracks, length_snoc, slide_room, slide_full}

new-Tracks : (size : ℕ) → 0 < size → Tracks size (new_provider_health_window (pos size)) []
unfolding new_provider_health_window failures total_ms int64
new-Tracks (suc n) h =
    filling (replicate (suc n) zero_sample) (ground arith)
      (omega (arith, length-replicate n zero_sample)) (omega arith)
new-Tracks zero h = elim h [ ]

drop-append : (n : ℕ) (a b : List HealthSample) → n ≤ length a → drop n (a ++ b) ≡ drop n a ++ b
drop-append zero a b h = refl
drop-append (suc n) [] b h = elim h [ ]
drop-append (suc n) (x ∷ a) b h = drop-append n a b (omega arith)

drop-suc :
    (n : ℕ) (l : List HealthSample)
    → n < length l
    → (o : HealthSample) × (drop n l ≡ o ∷ drop (suc n) l)
drop-suc n [] h = elim h [ ]
drop-suc zero (x ∷ l) h = (x, refl)
drop-suc (suc n) (x ∷ l) h = drop-suc n l (omega arith)

-- The sliding window is the end of the history.
recent_snoc :
    (size : ℕ) (h : List HealthSample) (s : HealthSample)
    → 0 < size
    → recent size (h ++ s ∷ []) ≡ slide size (recent size h) s
unfolding recent
recent_snoc size h s p = elim (Bool-cases (ltb (length h) size)) [
  | inl short ↦
      let e : length h - size ≡ 0 = ground arith in
      let e' : length h + 1 - size ≡ 0 = ground arith in
      rw (length_snoc h s, e, e') (sym (slide_room size h s (ltb→lt _ _ short)))
  | inr long ↦
      let k = length h - size in
      let le : size ≤ length h = ground arith in
      let e' : length h + 1 - size ≡ suc k = omega arith in
      let (o, split) = drop-suc k h (omega arith) in
      rw (length_snoc h s, e', drop-append (suc k) h (s ∷ []) (omega arith), split)
        (sym (slide_full size o (drop (suc k) h) s (omega (arith, length-drop (suc k) h))))
]

pub sample_of : ℤ × Bool → HealthSample
sample_of (duration, failed) = record { failed = failed; duration_ms = milliseconds duration }

-- A window after the attempts of a history, each with its duration and whether it failed.
unfoldable pub observe : ProviderHealthWindow → List (ℤ × Bool) → ProviderHealthWindow
observe w [] = w
observe w ((duration, failed) ∷ l) = observe (record_sample w duration failed) l

observe-Tracks :
    (size : ℕ) (l : List (ℤ × Bool)) {w : ProviderHealthWindow} (h : List HealthSample)
    → 0 < size
    → Tracks size w (recent size h)
    → Tracks size (observe w l) (recent size (h ++ map sample_of l))
unfolding observe record_sample sample_of
observe-Tracks size [] h p t = rw (append-nil h) t
observe-Tracks size ((duration, failed) ∷ l) h p t =
    let s : HealthSample = record { failed = failed; duration_ms = milliseconds duration } in
    rw (← snoc-append h (map sample_of l) s) (
      observe-Tracks size l (h ++ s ∷ []) p
        (rw (recent_snoc size h s p) (push_sample-Tracks size s t)))

-- What the counters of a tracking window are.
Tracks-counters :
    (size : ℕ) {w : ProviderHealthWindow} {view : List HealthSample}
    → Tracks size w view
    → (w.count ≡ length view)
      × (w.failure_count ≡ int64 (failures view))
      × (w.total_duration_ms ≡ int64 (total_ms view))
Tracks-counters size (filling room e len h) = rw e (refl, refl, refl)
Tracks-counters size (full new old e v len h) =
    (rw (e, v) (omega (arith, length-append old new)), rw e refl, rw e refl)

recent_nil : (size : ℕ) → recent size [] ≡ []
unfolding recent
recent_nil zero = refl
recent_nil (suc n) = ground arith

length-recent : (size : ℕ) (h : List HealthSample) → length (recent size h) ≡ min (length h) size
unfolding recent
length-recent size h = omega (arith, length-drop (length h - size) h)

-- After any history of attempts, a new window of `size` entries counts the last `size` of them:
-- their number, the failed ones and the sum of their durations in milliseconds, each as an int64
-- holds it.
pub observe-new_provider_health_window :
    (size : ℕ) (l : List (ℤ × Bool))
    → 0 < size
    → let w = observe (new_provider_health_window (pos size)) l in
      let latest = recent size (map sample_of l) in
      (w.count ≡ min (length l) size)
      × (w.failure_count ≡ int64 (failures latest))
      × (w.total_duration_ms ≡ int64 (total_ms latest))
observe-new_provider_health_window size l p =
    let t = observe-Tracks size l [] p (rw (recent_nil size) (new-Tracks size p)) in
    let (n, f, d) = Tracks-counters size t in
    (n ∙ length-recent size (map sample_of l) ∙ ap (λ k. min k size) (length-map l sample_of), f, d)
