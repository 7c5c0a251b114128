-- ===== src/Router/Fair.antt =====
-- Round robin is fair: as many picks in a row as there are candidates pick each candidate once.
use native.Mathlib.Nat.{
  mod-lt, mod-eq_of_lt, suc-mod, mod_self, mod-add-mod, zero-add, add-zero, suc-add, add-suc,
}
use ai_proxy_pool.Base.{
  ℕ, zero, suc, ◌+◌, ◌-◌, ◌%◌, ◌<◌, ◌≡◌, refl, sym, ap, ◌∙◌, List, [], ◌∷◌, ◌++◌, map, arith,
  length, length-append, get_or, take, drop, take-append-drop, length-take, length-drop,
  append_assoc, append-nil,
}
use mathlib.Core.Path.{ap₂}
use mathlib.Core.List.{map-append}
use ai_proxy_pool.Base.Text.{Bytes}
use ai_proxy_pool.Config.{ProviderConfig}
use ai_proxy_pool.Router.{Selector, pick_round_robin, cfg_of}

-- The results of `k` picks in a row.
unfoldable pub picks : ℕ → Selector → List Bytes → List ProviderConfig
picks zero s names = []
picks (suc k) s names = let (s', cfg) = pick_round_robin s names in cfg ∷ picks k s' names

abbrev at : Selector → ℕ → Selector
at s c = record s { round_robin_count = c }

round :
    (s : Selector) (c : ℕ) (names : List Bytes)
    → suc c < 18446744073709551616
    → pick_round_robin (at s c) names
      ≡ (at s (suc c), cfg_of s (get_or names (c % length names) []))
unfolding pick_round_robin cfg_of
round s c names h =
    let e : (c + 1) % 18446744073709551616 ≡ suc c = omega arith in
    let e' : (suc c + 18446744073709551616 - 1) % 18446744073709551616 ≡ c = omega arith in
    rw (e, e')

get_middle : (a : List Bytes) (x : Bytes) (b : List Bytes) → get_or (a ++ x ∷ b) (length a) [] ≡ x
get_middle [] x b = refl
get_middle (y ∷ a) x b = get_middle a x b

next_mod : (c n k : ℕ) → c % n ≡ k → suc k < n → suc c % n ≡ suc k
next_mod c n k e h = suc-mod c n ∙ ap (λ j. suc j % n) e ∙ mod-eq_of_lt h

wrap_mod : (c n k : ℕ) → c % n ≡ k → suc k ≡ n → suc c % n ≡ 0
wrap_mod c n k e h = suc-mod c n ∙ ap (λ j. suc j % n) e ∙ ap (λ j. j % n) h ∙ mod_self n

-- Picks along a part of the candidates, from its first one on.
picks_segment :
    (s : Selector) (c : ℕ) (names a b d : List Bytes)
    → names ≡ a ++ (b ++ d)
    → c % length names ≡ length a
    → c + length b < 18446744073709551616
    → picks (length b) (at s c) names ≡ map (cfg_of s) b
unfolding picks
picks_segment s c names a [] d e m fits = refl
picks_segment s c names a (x ∷ []) d e m fits =
    let here : get_or names (c % length names) [] ≡ x = rw (m, e) (get_middle a x d) in
    rw (round s c names (omega arith), here) refl
picks_segment s c names a (x ∷ y ∷ b) d e m fits =
    let here : get_or names (c % length names) [] ≡ x = rw (m, e) (get_middle a x (y ∷ (b ++ d))) in
    rw (round s c names (omega arith), here)
      (ap (λ l. cfg_of s x ∷ l)
        (picks_segment s (suc c) names (a ++ x ∷ []) (y ∷ b) d
          (e ∙ sym (append_assoc a (x ∷ []) (y ∷ (b ++ d))))
          (next_mod c (length names) (length a) m
              (rw e (omega (arith, length-append a (x ∷ y ∷ (b ++ d)))))
            ∙ sym (length-append a (x ∷ []) ∙ omega arith))
          (omega arith)))

picks-+ :
    (s : Selector) (k m c : ℕ) (names : List Bytes)
    → c + k < 18446744073709551616
    → picks (k + m) (at s c) names ≡ picks k (at s c) names ++ picks m (at s (c + k)) names
unfolding picks
picks-+ s zero m c names h = rw (zero-add m, add-zero c)
picks-+ s (suc k) m c names h = rw (
  suc-add k m,
  round s c names (omega arith),
  picks-+ s k m (suc c) names (omega arith),
  suc-add c k,
  add-suc c k,
)

module _ (s : Selector) (names : List Bytes) where
  -- As many round robin picks in a row as there are candidates pick every candidate exactly once:
  -- the candidates from the one that is due up to the last, and then those before it, in order. The
  -- uint64 counter must not wrap meanwhile.
  pub picks_rotate :
      0 < length names
      → s.round_robin_count + length names < 18446744073709551616
      → let due = s.round_robin_count % length names in
        picks (length names) s names ≡ map (cfg_of s) (drop due names ++ take due names)
  picks_rotate some_names fits =
      let c = s.round_robin_count in
      let due = c % length names in
      let below : due < length names = mod-lt c some_names in
      let a = take due names in
      let b = drop due names in
      let la : length a ≡ due = omega (arith, length-take due names) in
      let lb : length b ≡ length names - due = omega (arith, length-drop due names) in
      let split : names ≡ a ++ (b ++ []) =
        sym (take-append-drop due names) ∙ ap (λ l. a ++ l) (sym (append-nil b)) in
      let back : (c + length b) % length names ≡ 0 =
        sym (mod-add-mod c (length names) (length b))
        ∙ ap (λ n. n % length names) (omega arith)
        ∙ mod_self (length names) in
      ap (λ n. picks n s names) (omega arith)
      ∙ picks-+ s (length b) (length a) c names (omega arith)
      ∙ ap₂ (λ l r. l ++ r) (picks_segment s c names a b [] split (sym la) (omega arith))
          (picks_segment s (c + length b) names [] a b (sym (take-append-drop due names)) back
            (omega arith))
      ∙ sym (map-append (cfg_of s) b a)
