-- ===== src/Translator/Usage.antt =====
-- The tokens of an answer, `extractUsage` of internal/translator/codex/claude/response.go.
use ai_proxy_pool.Base.{
  ◌+◌, ◌-◌, ◌≤◌, ◌<◌, ◌≡◌, refl, [], ◌∷◌, arith, leb, ltb, inl, inr, Bool-cases, if◌then◌else◌,
}
use ai_proxy_pool.Base.Int.{ℤ, pos, negsuc, pos_part, ltb_ℤ, ◌-ℤ◌}
use ai_proxy_pool.Base.Word.{int64, leb_ℤ, IsInt64, int64_of_range}
use ai_proxy_pool.Base.Text.{codes}
use ai_proxy_pool.Base.Number.{parse_int-IsInt64}
use ai_proxy_pool.Base.Json.{Json, null, bool, num, str, arr, obj, Object, field}
use ai_proxy_pool.Translator.Values.{as_map, as_int64, is_none}

pub record Usage : Type 0 where
  pub input : ℤ
  pub output : ℤ
  pub cached : ℤ

-- The input tokens without those from the cache.
abbrev pub uncached : ℤ → ℤ → ℤ
uncached input cached =
    if ltb_ℤ (pos 0) cached
    then if leb_ℤ cached input then int64 (input -ℤ cached) else pos 0
    else input

abbrev pub cached_tokens : Object → ℤ
cached_tokens details =
    if is_none details then pos 0 else as_int64 (field details (codes "cached_tokens"))

unfoldable pub extract_usage : Object → Usage
unfolding as_int64 as_map field int64 leb_ℤ ◌-ℤ◌
extract_usage usage =
    let cached = cached_tokens (as_map (field usage (codes "input_tokens_details"))) in
    if is_none usage then record { input = pos 0; output = pos 0; cached = pos 0 } else record {
      input = uncached (as_int64 (field usage (codes "input_tokens"))) cached;
      output = as_int64 (field usage (codes "output_tokens"));
      cached = cached;
    }

as_int64-IsInt64 : (v : Json) → IsInt64 (as_int64 v)
unfolding as_int64
as_int64-IsInt64 (num s) = parse_int-IsInt64 s
as_int64-IsInt64 null = omega arith
as_int64-IsInt64 (bool b) = omega arith
as_int64-IsInt64 (str s) = omega arith
as_int64-IsInt64 (arr vs) = omega arith
as_int64-IsInt64 (obj ms) = omega arith

uncached_difference :
    (input cached : ℤ)
    → IsInt64 input
    → IsInt64 cached
    → 0 < pos_part cached
    → uncached input cached ≡ pos (pos_part (input -ℤ cached))
unfolding leb_ℤ ◌-ℤ◌
uncached_difference (pos a) (pos c) h k l = ground (arith, int64_of_range (pos (a - c)))
uncached_difference (negsuc a) (pos c) h k l = ground arith
uncached_difference a (negsuc c) h k l = ground arith

uncached_whole : (input cached : ℤ) → pos_part cached ≤ 0 → uncached input cached ≡ input
uncached_whole input cached h = ground arith

difference-IsInt64 : (a b : ℤ) → IsInt64 a → 0 < pos_part b → IsInt64 (pos (pos_part (a -ℤ b)))
unfolding ◌-ℤ◌
difference-IsInt64 a b h k = ground arith

uncached-IsInt64 :
    (input cached : ℤ) → IsInt64 input → IsInt64 cached → IsInt64 (uncached input cached)
uncached-IsInt64 input cached h k = elim (Bool-cases (ltb 0 (pos_part cached))) [
  | inl some_cached ↦
      rw (uncached_difference input cached h k (ground arith))
        (difference-IsInt64 input cached h (ground arith))
  | inr no_cached ↦ rw (uncached_whole input cached (ground arith)) h
]

-- What an answer says: the tokens of the input, of the output, and of the input from the cache.
abbrev pub said_input : Object → ℤ
said_input usage = as_int64 (field usage (codes "input_tokens"))

abbrev pub said_output : Object → ℤ
said_output usage = as_int64 (field usage (codes "output_tokens"))

abbrev pub said_cached : Object → ℤ
said_cached usage =
    as_int64 (field (as_map (field usage (codes "input_tokens_details"))) (codes "cached_tokens"))

cached_tokens_said :
    (details : Object) → cached_tokens details ≡ as_int64 (field details (codes "cached_tokens"))
unfolding as_int64 field
cached_tokens_said [] = refl
cached_tokens_said (d ∷ details) = refl

-- What is left of the input.
uncached_value :
    (input cached : ℤ)
    → IsInt64 input
    → IsInt64 cached
    → uncached input cached
      ≡ (if ltb 0 (pos_part cached) then pos (pos_part (input -ℤ cached)) else input)
uncached_value input cached h k = elim (Bool-cases (ltb 0 (pos_part cached))) [
  | inl some_cached ↦
      rw some_cached (uncached_difference input cached h k (ground (arith, some_cached)))
  | inr no_cached ↦ rw no_cached (uncached_whole input cached (ground (arith, no_cached)))
]

-- It and the tokens from the cache are together those of the input, or those from the cache where
-- these are more.
uncached_sum :
    (input cached : ℤ)
    → IsInt64 input
    → IsInt64 cached
    → pos_part (uncached input cached) + pos_part cached
      ≡ (if leb (pos_part cached) (pos_part input) then pos_part input else pos_part cached)
unfolding leb_ℤ ◌-ℤ◌
uncached_sum (pos a) (pos c) h k = ground (arith, int64_of_range (pos (a - c)))
uncached_sum (negsuc a) (pos c) h k = ground arith
uncached_sum a (negsuc c) h k = ground arith

-- Whatever an answer says of its tokens, the output is what it gives as `output_tokens`, the tokens
-- from the cache are what the details of the input give as `cached_tokens`, and the three counts fit
-- an int64. The input is what it gives as `input_tokens`, less those from the cache where there are
-- any, and no less than zero then: where the answer gives no negative number, the input and the
-- tokens from the cache are together the larger of the two numbers that it gives for them.
pub extract_usage-bounds :
    (usage : Object)
    → let got = extract_usage usage in
      (got.output ≡ said_output usage)
      × (got.cached ≡ said_cached usage)
      × (got.input ≡ (
          if ltb 0 (pos_part (said_cached usage))
          then pos (pos_part (said_input usage -ℤ said_cached usage))
          else said_input usage))
      × IsInt64 got.input
      × IsInt64 got.output
      × IsInt64 got.cached
      × (pos_part got.input + pos_part got.cached ≡ (
          if leb (pos_part (said_cached usage)) (pos_part (said_input usage))
          then pos_part (said_input usage)
          else pos_part (said_cached usage)))
unfolding extract_usage as_map as_int64 field
extract_usage-bounds [] = (
  refl,
  refl,
  refl,
  (ground arith, ground arith),
  (ground arith, ground arith),
  (ground arith, ground arith),
  refl,
)
extract_usage-bounds (u ∷ usage) =
    let all = u ∷ usage in
    let details = as_map (field all (codes "input_tokens_details")) in
    let fits = as_int64-IsInt64 (field all (codes "input_tokens")) in
    let cached_fits = as_int64-IsInt64 (field details (codes "cached_tokens")) in
    rw (cached_tokens_said details) (
      refl,
      refl,
      uncached_value (said_input all) (said_cached all) fits cached_fits,
      uncached-IsInt64 (said_input all) (said_cached all) fits cached_fits,
      as_int64-IsInt64 (field all (codes "output_tokens")),
      cached_fits,
      uncached_sum (said_input all) (said_cached all) fits cached_fits,
    )
