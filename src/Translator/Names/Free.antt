-- ===== src/Translator/Names/Free.antt =====
-- The loop that numbers a short name comes to an end, with a name that is not used.
use ai_proxy_pool.Base.{
  ℕ, zero, suc, ◌+◌, ◌-◌, ◌*◌, ◌^◌, ◌≤◌, ◌<◌, ◌≡◌, refl, sym, ap, ◌∙◌, ◌≢◌, true, false, List, [],
  ◌∷◌, ◌++◌, none, some, inl, inr, ◌==◌, if◌then◌else◌, length, length-append, length-take, arith,
  Bool-cases, Option-cases, All,
}
use ai_proxy_pool.Base.Text.{Bytes, str_eq, str_eq_iff, str_eq→eq}
use ai_proxy_pool.Base.Number.{itoa, value_of, value_of-itoa, itoa-digits, length-itoa, is_digit}
use ai_proxy_pool.Base.Dict.{contains}
use ai_proxy_pool.Translator.Names.{numbered, find_unused, unused_name}

-- The number behind the last underscore.
last_number : ℕ → Bytes → ℕ
last_number n [] = n
last_number n (c ∷ s) = last_number (if c == b'_' then 0 else n * 10 + (c - b'0')) s

last_number-append :
    (n : ℕ) (s t : Bytes) → last_number n (s ++ t) ≡ last_number (last_number n s) t
unfolding last_number
last_number-append n [] t = refl
last_number-append n (c ∷ s) t =
    last_number-append (if c == b'_' then 0 else n * 10 + (c - b'0')) s t

last_number-digits :
    (n : ℕ) (s : Bytes) → All (λ c. is_digit c ≡ true) s → last_number n s ≡ value_of n s
unfolding last_number value_of
last_number-digits n [] h = refl
last_number-digits n (c ∷ s) (d, ds) =
    let other : (c == b'_') ≡ false = ground arith in
    rw other (last_number-digits (n * 10 + (c - b'0')) s ds)

last_number-numbered : (base : Bytes) (i : ℕ) → last_number 0 (numbered base i) ≡ i
unfolding numbered
last_number-numbered base i =
    last_number-append 0 _ (b'_' ∷ itoa i)
    ∙ unfold last_number in last_number-digits 0 (itoa i) (itoa-digits i) ∙ value_of-itoa i

numbered_inj : (base : Bytes) (i j : ℕ) → numbered base i ≡ numbered base j → i ≡ j
numbered_inj base i j e =
    sym (last_number-numbered base i) ∙ ap (last_number 0) e ∙ last_number-numbered base j

-- A set without a name.
without : Bytes → List Bytes → List Bytes
without x [] = []
without x (y ∷ l) = let rest = without x l in if str_eq y x then rest else y ∷ rest

length-without : (x : Bytes) (l : List Bytes) → length (without x l) ≤ length l
unfolding without
length-without x [] = omega arith
length-without x (y ∷ l) = ground (arith, length-without x l)

length-without_lt :
    (x : Bytes) (l : List Bytes) → contains x l ≡ true → length (without x l) < length l
unfolding without contains
length-without_lt x [] h = cc
length-without_lt x (y ∷ l) h = ground (arith, length-without x l, length-without_lt x l)

contains-without :
    (x y : Bytes) (l : List Bytes)
    → str_eq x y ≡ false
    → contains y l ≡ true
    → contains y (without x l) ≡ true
unfolding without contains
contains-without x y [] other h = cc
contains-without x y (z ∷ l) other h =
    ground (arith, contains-without x y l, str_eq_iff z x, str_eq_iff z y, str_eq_iff x y)

-- As many different names as there are rounds do not fit into a smaller set.
pigeonhole :
    (f : ℕ → Bytes)
    → ((i j : ℕ) → f i ≡ f j → i ≡ j)
    → (rounds i : ℕ) (l : List Bytes) → ((j : ℕ) → i ≤ j → j < i + rounds → contains (f j) l ≡ true)
    → rounds ≤ length l
pigeonhole f inj zero i l h = omega arith
pigeonhole f inj (suc rounds) i l h =
    let fewer = length-without_lt (f i) l (h i (omega arith) (omega arith)) in
    let rest = pigeonhole f inj rounds (suc i) (without (f i) l) (λ j above below.
      contains-without (f i) (f j) l (differs i j (omega arith))
        (h j (omega arith) (omega arith))) in
    omega arith
  where
    differs : (i j : ℕ) → i < j → str_eq (f i) (f j) ≡ false
    differs i j lt = elim (Bool-cases (str_eq (f i) (f j))) [
      | inr other ↦ other
      | inl same ↦ absurd (omega (arith, inj i j (str_eq→eq (f i) (f j) same)))
    ]

-- Where the loop finds nothing, every candidate is used.
find_unused-none :
    (fuel : ℕ) (used : List Bytes) (base : Bytes) (i : ℕ)
    → find_unused fuel used base i ≡ none
    → (j : ℕ) → i ≤ j
    → j < i + fuel
    → contains (numbered base j) used ≡ true
unfolding find_unused
find_unused-none zero used base i h j above below = absurd (omega arith)
find_unused-none (suc fuel) used base i h j above below =
    elim (Bool-cases (contains (numbered base i) used)) [
      | inr free ↦ cc (rw free at h)
      | inl taken ↦ elim (Bool-cases (i == j)) [
        | inl here ↦ let e : i ≡ j = ground arith in rw (← e) taken
        | inr there ↦
            find_unused-none fuel used base (suc i) (rw taken at h) j (ground arith) (omega arith)
      ]
    ]

-- The loop that numbers a name comes to an end: whatever names are used, and from whatever number on,
-- it finds one that is not within one round more than there are used names.
pub find_unused-total :
    (used : List Bytes) (base : Bytes) (i : ℕ) → find_unused (suc (length used)) used base i ≢ none
find_unused-total used base i h = omega (
  arith,
  pigeonhole (numbered base) (numbered_inj base) (suc (length used)) i used
      (find_unused-none (suc (length used)) used base i h),
)

-- What the loop finds is not used, and is a candidate of one of the rounds.
pub find_unused-some :
    (fuel : ℕ) (used : List Bytes) (base : Bytes) (i : ℕ) {c : Bytes}
    → find_unused fuel used base i ≡ some c
    → (contains c used ≡ false) × ((j : ℕ) × (j < i + fuel) × (numbered base j ≡ c))
unfolding find_unused
find_unused-some zero used base i h = cc
find_unused-some (suc fuel) used base i {c} h =
    elim (Bool-cases (contains (numbered base i) used)) [
      | inr free ↦
          let e : numbered base i ≡ c = cc (rw free at h) in (rw (← e) free, (i, omega arith, e))
      | inl taken ↦
          let (free, (j, below, e)) = find_unused-some fuel used base (suc i) (rw taken at h) in
          (free, (j, omega arith, e))
    ]

-- A candidate fits into the limit, as long as its number has no more than 61 digits.
length-numbered : (base : Bytes) (j : ℕ) → j < 10 ^ 60 → length (numbered base j) ≤ 64
unfolding numbered
length-numbered base j h =
    rw length-append
      (ground (arith, length-itoa 60 j h, length-take (64 - suc (length (itoa j))) base))

-- The name for a tool is new, and is no longer than 64 bytes where the shortened name is not.
pub unused_name-IsFree :
    (used : List Bytes) (base : Bytes)
    → length used < 10 ^ 59
    → length base ≤ 64
    → (contains (unused_name used base) used ≡ false) × (length (unused_name used base) ≤ 64)
unfolding unused_name
unused_name-IsFree used base few short = elim (Bool-cases (contains base used)) [
  | inr free ↦ rw free (free, short)
  | inl taken ↦ elim (Option-cases (find_unused (suc (length used)) used base 1)) [
    | inl absent ↦ absurd (find_unused-total used base 1 absent)
    | inr (c, found) ↦
        let (free, (j, below, e)) = find_unused-some (suc (length used)) used base 1 found in
        let fits = length-numbered base j (omega arith) in
        rw (taken, found, unused_name) (free, rw (← e) fits)
  ]
]
