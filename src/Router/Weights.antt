-- ===== src/Router/Weights.antt =====
-- The weighted random choice: each candidate owns an interval of the draws, as long as its weight.
use ai_proxy_pool.Base.{
  ℕ, ◌+◌, ◌≤◌, ◌<◌, ◌≡◌, refl, ap, ◌∙◌, ltb, leb, inl, inr, true, List, [], ◌∷◌, ◌++◌, All, arith,
  Bool-cases,
}
use ai_proxy_pool.Base.Int.{ℤ, pos, negsuc, neg_part, pos_part, ◌+ℤ◌}
use ai_proxy_pool.Base.Word.{int64, int64_of_range}
use ai_proxy_pool.Base.Text.{Bytes, str_eq, str_eq_iff}
use ai_proxy_pool.Base.Result.{ok}
use ai_proxy_pool.Config.{ProviderConfig, strategy_weighted_random}
use ai_proxy_pool.Router.{
  Selector, pick, pick_weighted_random, pick_round_robin, walk_weights, sum_weights, cfg_of,
}

pos-+ℤ : (a : ℕ) (z : ℤ) → neg_part z ≡ 0 → pos a +ℤ z ≡ pos (a + pos_part z)
unfolding ◌+ℤ◌
pos-+ℤ a (pos n) h = ground arith
pos-+ℤ a (negsuc n) h = ground arith

module _ (s : Selector) where
  abbrev pub weight_of : Bytes → ℕ
  weight_of n = pos_part (cfg_of s n).weight

  -- The sum of the weights, with no overflow.
  unfoldable pub total : List Bytes → ℕ
  total [] = 0
  total (n ∷ names) = weight_of n + total names

  abbrev pub HasWeight : Bytes → Type 0
  HasWeight n = neg_part (cfg_of s n).weight ≡ 0

  add_weight :
      (acc : ℕ) (n : Bytes)
      → HasWeight n
      → acc + weight_of n < 9223372036854775808
      → int64 (pos acc +ℤ (cfg_of s n).weight) ≡ pos (acc + weight_of n)
  add_weight acc n h fits =
      rw (pos-+ℤ acc (cfg_of s n).weight h) (int64_of_range (pos (acc + weight_of n)) (omega arith))

  sum_weights-total :
      (acc : ℕ) (names : List Bytes)
      → All HasWeight names
      → acc + total names < 9223372036854775808
      → sum_weights s (pos acc) names ≡ pos (acc + total names)
  unfolding sum_weights total
  sum_weights-total acc [] h fits = ground arith
  sum_weights-total acc (n ∷ names) (h, hs) fits =
      rw
        (
          add_weight acc n h (omega arith),
          sum_weights-total (acc + weight_of n) names hs (omega arith),
        )
        (ground arith)

  total-append : (xs ys : List Bytes) → total (xs ++ ys) ≡ total xs + total ys
  unfolding total
  total-append [] ys = omega arith
  total-append (n ∷ xs) ys = omega (arith, total-append xs ys)

  walk_weights_interval :
      (choice acc : ℕ) (before : List Bytes) (n : Bytes) (after : List Bytes)
      → All HasWeight (before ++ n ∷ after)
      → acc + total (before ++ n ∷ after) < 9223372036854775808
      → acc + total before ≤ choice
      → choice < acc + total before + weight_of n
      → walk_weights s (pos choice) (pos acc) (before ++ n ∷ after) ≡ ok (cfg_of s n)
  unfolding walk_weights total
  walk_weights_interval choice acc [] n after (h, hs) fits low high =
      rw (add_weight acc n h (omega arith)) (ground arith)
  walk_weights_interval choice acc (m ∷ before) n after (h, hs) fits low high =
      rw (add_weight acc m h (omega arith)) (
        ground (
          arith,
          walk_weights_interval choice (acc + weight_of m) before n after hs (omega arith)
              (omega arith) (omega arith),
        ))

  sum_weights_zero :
      (names : List Bytes)
      → All HasWeight names
      → total names < 9223372036854775808
      → sum_weights s (pos 0) names ≡ pos (total names)
  sum_weights_zero names h fits = sum_weights-total 0 names h (omega arith) ∙ ap pos (omega arith)

  total_cons : (n : Bytes) (names : List Bytes) → total (n ∷ names) ≡ weight_of n + total names
  unfolding total
  total_cons n names = refl

  pick_by_weight :
      (draw : ℕ → ℕ) (names : List Bytes)
      → s.strategy ≡ strategy_weighted_random
      → 0 < total names
      → pick s draw names ≡ pick_weighted_random s draw names
  unfolding pick total
  pick_by_weight draw [] weighted more = absurd (omega arith)
  pick_by_weight draw (n ∷ names) weighted more =
      let e : str_eq s.strategy strategy_weighted_random ≡ true = (str_eq_iff _ _).1 weighted in
      rw e

  pick_weighted_walk :
      (draw : ℕ → ℕ) (names : List Bytes)
      → All HasWeight names
      → total names < 9223372036854775808
      → 0 < total names
      → pick_weighted_random s draw names
        ≡ (s, walk_weights s (pos (draw (total names))) (pos 0) names)
  unfolding pick_weighted_random
  pick_weighted_walk draw names h fits more = rw (sum_weights_zero names h fits) (ground arith)

  pick_weighted_round :
      (draw : ℕ → ℕ) (names : List Bytes)
      → All HasWeight names
      → total names ≡ 0
      → pick_weighted_random s draw names
        ≡ ((pick_round_robin s names).0, ok (pick_round_robin s names).1)
  unfolding pick_weighted_random
  pick_weighted_round draw names h none_left =
      rw (sum_weights_zero names h (omega arith), none_left) refl

  -- With the weighted strategy a candidate is picked by every draw in its interval: the draws from
  -- the weights before it up to, and without, those weights and its own. So as many of the draws
  -- below the total pick it as its weight says. The weights must not be negative, and their sum
  -- must fit an int.
  pub pick_interval :
      (draw : ℕ → ℕ) (before : List Bytes) (n : Bytes) (after : List Bytes)
      → s.strategy ≡ strategy_weighted_random
      → All HasWeight (before ++ n ∷ after)
      → total (before ++ n ∷ after) < 9223372036854775808
      → total before ≤ draw (total (before ++ n ∷ after))
      → draw (total (before ++ n ∷ after)) < total before + weight_of n
      → pick s draw (before ++ n ∷ after) ≡ (s, ok (cfg_of s n))
  pick_interval draw before n after weighted h fits low high =
      let names = before ++ n ∷ after in
      let more : 0 < total names =
        omega (arith, total-append before (n ∷ after), total_cons n after) in
      pick_by_weight draw names weighted more
      ∙ pick_weighted_walk draw names h fits more
      ∙ ap (λ r. (s, r))
          (walk_weights_interval (draw (total names)) 0 before n after h (omega arith) (omega arith)
            (omega arith))

  -- A draw below the total always picks.
  walk_weights-total :
      (choice acc : ℕ) (names : List Bytes)
      → All HasWeight names
      → acc + total names < 9223372036854775808
      → choice < acc + total names
      → acc ≤ choice
      → (cfg : ProviderConfig) × (walk_weights s (pos choice) (pos acc) names ≡ ok cfg)
  unfolding walk_weights total
  walk_weights-total choice acc [] h fits below above = absurd (omega arith)
  walk_weights-total choice acc (n ∷ names) (h, hs) fits below above =
      rw (add_weight acc n h (omega arith)) (elim (Bool-cases (ltb choice (acc + weight_of n))) [
        | inl here ↦ (cfg_of s n, ground arith)
        | inr past ↦
            let (cfg, e) =
              walk_weights-total choice (acc + weight_of n) names hs (omega arith) (omega arith)
                (ground arith) in
            (cfg, ground (arith, e))
      ])

  -- A pick among some candidates succeeds under both strategies.
  pub pick-total :
      (draw : ℕ → ℕ) (n : Bytes) (names : List Bytes)
      → ((k : ℕ) → 0 < k → draw k < k)
      → All HasWeight (n ∷ names)
      → total (n ∷ names) < 9223372036854775808
      → (cfg : ProviderConfig) × ((pick s draw (n ∷ names)).1 ≡ ok cfg)
  unfolding pick
  pick-total draw n names law h fits =
      elim (Bool-cases (str_eq s.strategy strategy_weighted_random)) [
        | inr plain ↦ ((pick_round_robin s (n ∷ names)).1, rw plain)
        | inl weighted ↦ elim (Bool-cases (leb (total (n ∷ names)) 0)) [
          | inl none_left ↦ (
            (pick_round_robin s (n ∷ names)).1,
            rw (weighted, pick_weighted_round draw (n ∷ names) h (ground arith)) refl,
          )
          | inr some_left ↦
              let more : 0 < total (n ∷ names) = ground arith in
              let (cfg, e) =
                walk_weights-total (draw (total (n ∷ names))) 0 (n ∷ names) h (omega arith)
                  (omega (arith, law _ more)) (omega arith) in
              (cfg, rw (weighted, pick_weighted_walk draw (n ∷ names) h fits more) e)
        ]
      ]
