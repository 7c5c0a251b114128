-- ===== src/Stats/Window/Slide.antt =====
-- What a recorded sample does to the ring buffer and to the sliding window that it stands for.
use ai_proxy_pool.Base.{
  ℕ, suc, ◌+◌, ◌%◌, ◌<◌, ◌≡◌, refl, sym, ◌∙◌, true, false, List, [], ◌∷◌, ◌++◌, arith, ltb, ◌==◌,
  lt→ltb, length, length-append, append_assoc, append-nil,
}
use native.Mathlib.Nat.{mod-eq_of_lt, mod_self}
use ai_proxy_pool.Stats.Window.{HealthSample, ProviderHealthWindow, push_sample, zero_sample}
use ai_proxy_pool.Stats.Window.Samples.{
  slide, ring, Tracks, set_middle, get_middle, snoc-append, failures_snoc, total_snoc,
  failures_forget, total_forget, filling, full,
}

push_room :
    (view rest : List HealthSample) (r s : HealthSample)
    → push_sample (ring (view ++ r ∷ rest) (length view) (length view) view) s
      ≡ ring
          (view ++ s ∷ rest)
          ((length view + 1) % (length view + suc (length rest)))
          (length view + 1)
          (view ++ s ∷ [])
unfolding push_sample
push_room view rest r s =
    let e = length-append view (r ∷ rest) in
    let lt : ltb (length view) (length (view ++ r ∷ rest)) ≡ true = lt→ltb _ _ (omega (arith, e)) in
    let ne : (length (view ++ r ∷ rest) == 0) ≡ false = ground (arith, e) in
    rw
      (
        ne,
        lt,
        set_middle view rest r s,
        failures_snoc view s,
        total_snoc view s,
        length-append view (s ∷ rest),
      )
      refl

push_full :
    (new old : List HealthSample) (o s : HealthSample) (size : ℕ)
    → length new + suc (length old) ≡ size
    → push_sample (ring (new ++ o ∷ old) (length new) size (o ∷ old ++ new)) s
      ≡ ring (new ++ s ∷ old) ((length new + 1) % size) size ((old ++ new) ++ s ∷ [])
unfolding push_sample
push_full new old o s size len =
    let e : length (new ++ o ∷ old) ≡ size = omega (arith, length-append new (o ∷ old)) in
    let e' : length (new ++ s ∷ old) ≡ size = omega (arith, length-append new (s ∷ old)) in
    let ge : ltb size size ≡ false = ground arith in
    let ne : (size == 0) ≡ false = ground arith in
    rw
      (
        e,
        ne,
        ge,
        get_middle new old o zero_sample,
        set_middle new old o s,
        e',
        failures_forget o (old ++ new),
        total_forget o (old ++ new),
        failures_snoc (old ++ new) s,
        total_snoc (old ++ new) s,
      )
      refl

pub slide_room :
    (size : ℕ) (view : List HealthSample) (s : HealthSample)
    → length view < size
    → slide size view s ≡ view ++ s ∷ []
unfolding slide
slide_room size [] s h = ground arith
slide_room size (o ∷ view) s h = ground arith

pub slide_full :
    (size : ℕ) (o : HealthSample) (view : List HealthSample) (s : HealthSample)
    → suc (length view) ≡ size
    → slide size (o ∷ view) s ≡ view ++ s ∷ []
unfolding slide
slide_full size o view s h = ground arith

ring_eq :
    {e e' : List HealthSample} {n n' c c' : ℕ} (view : List HealthSample)
    → e ≡ e'
    → n ≡ n'
    → c ≡ c'
    → ring e n c view ≡ ring e' n' c' view
ring_eq view p q r = λ i. ring (p i) (q i) (r i) view

pub length_snoc :
    (view : List HealthSample) (s : HealthSample) → length (view ++ s ∷ []) ≡ length view + 1
length_snoc view s = length-append view (s ∷ [])

mod_of_eq : (m n : ℕ) → m ≡ n → 0 < n → m % n ≡ 0
mod_of_eq m n e h = rw e (mod_self n)

mod_below : (m n : ℕ) → m < n → m % n ≡ m
mod_below m n h = mod-eq_of_lt h

-- One sample recorded is one step of the sliding window.
pub push_sample-Tracks :
    (size : ℕ) {w : ProviderHealthWindow} {view : List HealthSample} (s : HealthSample)
    → Tracks size w view
    → Tracks size (push_sample w s) (slide size view s)
push_sample-Tracks size {view} s (filling (r ∷ []) e len h) =
    let l = length_snoc view s in
    rw (e, push_room view [] r s, slide_room size view s (omega arith))
      (full [] (view ++ s ∷ []) (ring_eq _ refl (mod_of_eq _ _ refl (omega arith)) (omega arith))
        (sym (append-nil (view ++ s ∷ []))) (omega arith) (omega arith))
push_sample-Tracks size {view} s (filling (r ∷ r' ∷ rest) e len h) =
    let l = length_snoc view s in
    rw (e, push_room view (r' ∷ rest) r s, slide_room size view s (omega arith))
      (filling (r' ∷ rest)
        (ring_eq _ (sym (snoc-append view (r' ∷ rest) s)) (mod_below _ _ (omega arith) ∙ sym l)
          (sym l))
        (omega arith) (omega arith))
push_sample-Tracks size s (full new (o ∷ []) e v len h) =
    let l = length_snoc new s in
    rw (e, v, push_full new [] o s size len, slide_full size o new s (omega arith))
      (full [] (new ++ s ∷ []) (ring_eq _ refl (mod_of_eq _ _ (omega arith) (omega arith)) refl)
        (sym (append-nil (new ++ s ∷ []))) (omega arith) (omega arith))
push_sample-Tracks size s (full new (o ∷ o' ∷ old) e v len h) =
    let l = length_snoc new s in
    rw
      (
        e,
        v,
        push_full new (o' ∷ old) o s size len,
        slide_full size o (o' ∷ old ++ new) s (omega (arith, length-append old new)),
      )
      (full (new ++ s ∷ []) (o' ∷ old)
        (ring_eq _ (sym (snoc-append new (o' ∷ old) s)) (mod_below _ _ (omega arith) ∙ sym l) refl)
        (append_assoc (o' ∷ old) new (s ∷ [])) (omega arith) (omega arith))
push_sample-Tracks size s (filling [] e len h) = absurd (omega arith)
push_sample-Tracks size s (full new [] e v len h) = absurd (omega arith)
