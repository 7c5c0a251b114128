-- ===== src/Base/Number.antt =====
-- Go's `strconv`: `Itoa`, `FormatInt` and `ParseInt` in base ten.
use ai_proxy_pool.Base.{
  ℕ, zero, suc, ◌+◌, ◌-◌, ◌*◌, ◌/◌, ◌%◌, ◌^◌, ◌≤◌, ◌<◌, ◌≡◌, refl, sym, ap, ◌∙◌, Bool, true, false,
  ◌&&◌, [], ◌∷◌, ◌++◌, inl, inr, length, length-append, arith, ltb, leb, ◌==◌, if◌then◌else◌,
  Bool-cases, lt→ltb, All, All-append,
}
use native.Mathlib.Nat.{pow-succ'}
use ai_proxy_pool.Base.Int.{ℤ, pos, negsuc}
use ai_proxy_pool.Base.Word.{IsInt64}
use ai_proxy_pool.Base.Text.{Bytes, codes}

-- The decimal digits, with fuel for as many divisions by ten.
decimal : ℕ → ℕ → Bytes
decimal zero n = []
decimal (suc fuel) n =
    let rest = decimal fuel (n / 10) in
    if ltb n 10 then (b'0' + n) ∷ [] else rest ++ (b'0' + n % 10) ∷ []

unfoldable pub itoa : ℕ → Bytes
unfolding decimal
itoa n = decimal (suc n) n

unfoldable pub format_int : ℤ → Bytes
unfolding itoa
format_int (pos n) = itoa n
format_int (negsuc n) = b'-' ∷ itoa (suc n)

abbrev pub is_digit : ℕ → Bool
is_digit c = leb b'0' c && leb c b'9'

-- What `ParseUint` returns.
pub data Parsed : Type 0 where
  value : ℕ → Parsed
  out_of_range : Parsed
  bad_syntax : Parsed

-- The loop over the digits. It stops at the first digit with which the number leaves a uint64.
unfoldable pub parse_digits : ℕ → Bytes → Parsed
parse_digits n [] = value n
parse_digits n (c ∷ s) =
    let n' = n * 10 + (c - b'0') in
    let rest = parse_digits n' s in
    if is_digit c then if ltb n' 18446744073709551616 then rest else out_of_range else bad_syntax

unfoldable pub parse_uint : Bytes → Parsed
unfolding parse_digits
parse_uint [] = bad_syntax
parse_uint (c ∷ s) = parse_digits 0 (c ∷ s)

-- The value and whether there is no error: a number out of range gives the nearest int64.
abbrev clip : Bool → Parsed → ℤ × Bool
clip negative bad_syntax = (pos 0, false)
clip true out_of_range = (negsuc 9223372036854775807, false)
clip false out_of_range = (pos 9223372036854775807, false)
clip false (value n) =
    if ltb n 9223372036854775808 then (pos n, true) else (pos 9223372036854775807, false)
clip true (value zero) = (pos 0, true)
clip true (value (suc n)) =
    if ltb n 9223372036854775808 then (negsuc n, true) else (negsuc 9223372036854775807, false)

-- strconv.ParseInt(s, 10, 64)
unfoldable pub parse_int : Bytes → ℤ × Bool
unfolding parse_uint
parse_int [] = (pos 0, false)
parse_int (c ∷ s) =
    if c == b'-'
    then clip true (parse_uint s)
    else if c == b'+'
    then clip false (parse_uint s)
    else clip false (parse_uint (c ∷ s))

-- The number that a text of digits denotes.
unfoldable pub value_of : ℕ → Bytes → ℕ
value_of n [] = n
value_of n (c ∷ s) = value_of (n * 10 + (c - b'0')) s

value_of-snoc :
    (n : ℕ) (s : Bytes) (c : ℕ) → value_of n (s ++ c ∷ []) ≡ value_of n s * 10 + (c - b'0')
unfolding value_of
value_of-snoc n [] c = refl
value_of-snoc n (d ∷ s) c = value_of-snoc (n * 10 + (d - b'0')) s c

value_of-decimal : (fuel n : ℕ) → n < fuel → value_of 0 (decimal fuel n) ≡ n
unfolding decimal value_of
value_of-decimal zero n h = elim h [ ]
value_of-decimal (suc fuel) n h = elim (Bool-cases (ltb n 10)) [
  | inl small ↦ rw small (omega arith)
  | inr large ↦ rw (large, value_of-snoc) (ground (arith, value_of-decimal fuel (n / 10)))
]

pub value_of-itoa : (n : ℕ) → value_of 0 (itoa n) ≡ n
unfolding itoa
value_of-itoa n = value_of-decimal (suc n) n (omega arith)

pub itoa_inj : (m n : ℕ) → itoa m ≡ itoa n → m ≡ n
itoa_inj m n e = sym (value_of-itoa m) ∙ ap (value_of 0) e ∙ value_of-itoa n

decimal-digits : (fuel n : ℕ) → All (λ c. is_digit c ≡ true) (decimal fuel n)
unfolding decimal
decimal-digits zero n = tt
decimal-digits (suc fuel) n = elim (Bool-cases (ltb n 10)) [
  | inl small ↦ rw small (ground arith, tt)
  | inr large ↦
      rw large
        (All-append _ (decimal fuel (n / 10)) _ (decimal-digits fuel (n / 10)) (ground arith, tt))
]

pub itoa-digits : (n : ℕ) → All (λ c. is_digit c ≡ true) (itoa n)
unfolding itoa
itoa-digits n = decimal-digits (suc n) n

length-decimal : (k fuel n : ℕ) → n < 10 ^ k → n < fuel → length (decimal fuel n) ≤ suc k
unfolding decimal
length-decimal k zero n small enough = omega arith
length-decimal zero (suc fuel) n small enough = rw (lt→ltb n 10 (omega arith)) (omega arith)
length-decimal (suc k) (suc fuel) n small enough = elim (Bool-cases (ltb n 10)) [
  | inl one ↦ rw one (omega arith)
  | inr more ↦
      rw (more, length-append) (ground (arith, length-decimal k fuel (n / 10), pow-succ' 10 k))
]

-- A number below 10^k has at most k + 1 digits.
pub length-itoa : (k n : ℕ) → n < 10 ^ k → length (itoa n) ≤ suc k
unfolding itoa
length-itoa k n h = length-decimal k (suc n) n h (omega arith)

parse_test :
    (parse_int (codes "-12") ≡ (negsuc 11, true))
    × (parse_int (codes "1.5") ≡ (pos 0, false))
    × (parse_int (codes "99999999999999999999.5") ≡ (pos 9223372036854775807, false))
    × (parse_int (codes "-9223372036854775808") ≡ (negsuc 9223372036854775807, true))
    × (format_int (negsuc 1234) ≡ codes "-1235")
unfolding parse_int format_int
parse_test = (refl, refl, refl, refl, refl)

clip-IsInt64 : (negative : Bool) (p : Parsed) → IsInt64 ((clip negative p).0)
clip-IsInt64 negative p = ground arith

pub parse_int-IsInt64 : (s : Bytes) → IsInt64 ((parse_int s).0)
unfolding parse_int
parse_int-IsInt64 [] = omega arith
parse_int-IsInt64 (c ∷ s) = ground (
  arith,
  clip-IsInt64 true (parse_uint s),
  clip-IsInt64 false (parse_uint s),
  clip-IsInt64 false (parse_uint (c ∷ s)),
)
