-- ===== src/Base/Word.antt =====
-- Go's `int64` and `int`, as integers that wrap round at 2^63, and their division.
use ai_proxy_pool.Base.{
  ℕ, suc, ◌+◌, ◌-◌, ◌/◌, ◌%◌, ◌≤◌, ◌<◌, ◌≡◌, ap, ◌∙◌, Bool, arith, ltb, leb, ◌==◌, if◌then◌else◌,
}
use ai_proxy_pool.Base.Int.{ℤ, pos, negsuc, pos_part, neg_part, ◌+ℤ◌, ◌-ℤ◌, sub_ℕ}

-- The bit pattern of an integer in two's complement, and the integer that a pattern stands for.
unfoldable pub to_word : ℤ → ℕ
to_word (pos n) = n % 18446744073709551616
to_word (negsuc n) = 18446744073709551615 - n % 18446744073709551616

unfoldable pub of_word : ℕ → ℤ
of_word w = if ltb w 9223372036854775808 then pos w else negsuc (18446744073709551615 - w)

-- The value that an `int64` variable holds after an operation whose true result is `z`.
unfoldable pub int64 : ℤ → ℤ
unfolding to_word of_word
int64 z = of_word (to_word z)

to_word-of_word : (w : ℕ) → w < 18446744073709551616 → to_word (of_word w) ≡ w
unfolding to_word of_word
to_word-of_word w h = ground arith

to_word-lt : (z : ℤ) → to_word z < 18446744073709551616
unfolding to_word
to_word-lt (pos n) = omega arith
to_word-lt (negsuc n) = omega arith

to_word-+ℤ : (a b : ℤ) → to_word (a +ℤ b) ≡ (to_word a + to_word b) % 18446744073709551616
unfolding to_word ◌+ℤ◌
to_word-+ℤ (pos a) (pos b) = ground arith
to_word-+ℤ (pos a) (negsuc b) = ground arith
to_word-+ℤ (negsuc a) (pos b) = ground arith
to_word-+ℤ (negsuc a) (negsuc b) = ground arith

to_word-int64 : (z : ℤ) → to_word (int64 z) ≡ to_word z
unfolding int64
to_word-int64 z = to_word-of_word (to_word z) (to_word-lt z)

int64_of_words : (a b : ℤ) → to_word a ≡ to_word b → int64 a ≡ int64 b
unfolding int64
int64_of_words a b h = ap of_word h

-- Only the value modulo 2^64 of an operand counts, so a wrapped operand may be replaced.
pub int64-+ℤ_left : (a b : ℤ) → int64 (int64 a +ℤ b) ≡ int64 (a +ℤ b)
int64-+ℤ_left a b =
    int64_of_words (int64 a +ℤ b) (a +ℤ b)
      (omega (arith, to_word-+ℤ (int64 a) b, to_word-+ℤ a b, to_word-int64 a))

pub int64-+ℤ_right : (a b : ℤ) → int64 (a +ℤ int64 b) ≡ int64 (a +ℤ b)
int64-+ℤ_right a b =
    int64_of_words (a +ℤ int64 b) (a +ℤ b)
      (omega (arith, to_word-+ℤ a (int64 b), to_word-+ℤ a b, to_word-int64 b))

pub int64_idem : (z : ℤ) → int64 (int64 z) ≡ int64 z
int64_idem z = int64_of_words (int64 z) z (to_word-int64 z)

-- A value that an `int64` can hold.
abbrev pub IsInt64 : ℤ → Type 0
IsInt64 z = (pos_part z < 9223372036854775808) × (neg_part z ≤ 9223372036854775808)

pub int64_of_range : (z : ℤ) → IsInt64 z → int64 z ≡ z
unfolding int64 to_word of_word
int64_of_range (pos n) h = ground arith
int64_of_range (negsuc n) h = ground arith

pub int64-IsInt64 : (z : ℤ) → IsInt64 (int64 z)
unfolding int64 to_word of_word
int64-IsInt64 (pos n) = ground arith
int64-IsInt64 (negsuc n) = ground arith

-- a / b, which truncates towards zero. Division by zero, a panic, is guarded by every caller.
unfoldable pub quot : ℤ → ℤ → ℤ
quot (pos a) (pos b) = pos (a / b)
quot (pos a) (negsuc b) = sub_ℕ 0 (a / suc b)
quot (negsuc a) (pos b) = sub_ℕ 0 (suc a / b)
quot (negsuc a) (negsuc b) = pos (suc a / suc b)

-- a == b
unfoldable pub eq_ℤ : ℤ → ℤ → Bool
eq_ℤ a b = pos_part a + neg_part b == pos_part b + neg_part a

unfoldable pub leb_ℤ : ℤ → ℤ → Bool
leb_ℤ a b = leb (pos_part a + neg_part b) (pos_part b + neg_part a)

to_word--ℤ : (a b : ℤ) → (to_word (a -ℤ b) + to_word b) % 18446744073709551616 ≡ to_word a
unfolding to_word ◌-ℤ◌
to_word--ℤ (pos a) (pos b) = ground arith
to_word--ℤ (pos a) (negsuc b) = ground arith
to_word--ℤ (negsuc a) (pos b) = ground arith
to_word--ℤ (negsuc a) (negsuc b) = ground arith

pub int64--ℤ_left : (a b : ℤ) → int64 (int64 a -ℤ b) ≡ int64 (a -ℤ b)
int64--ℤ_left a b = int64_of_words (int64 a -ℤ b) (a -ℤ b) (
    omega (
      arith,
      to_word--ℤ (int64 a) b,
      to_word--ℤ a b,
      to_word-int64 a,
      to_word-lt (int64 a -ℤ b),
      to_word-lt (a -ℤ b),
      to_word-lt b,
    ))

-- The value that an `int32` variable holds after an operation whose true result is `z`.
unfoldable pub int32 : ℤ → ℤ
unfolding to_word
int32 z =
    let w = to_word z % 4294967296 in if ltb w 2147483648 then pos w else negsuc (4294967295 - w)

add_sub_one : (a : ℤ) → a +ℤ pos 1 +ℤ negsuc 0 ≡ a
unfolding ◌+ℤ◌
add_sub_one a = ground arith

-- A counter that goes up and down again has its old value, also across the wrap.
pub int64_up_down : (a : ℤ) → IsInt64 a → int64 (int64 (a +ℤ pos 1) +ℤ negsuc 0) ≡ a
int64_up_down a h =
    int64-+ℤ_left (a +ℤ pos 1) (negsuc 0) ∙ ap int64 (add_sub_one a) ∙ int64_of_range a h
