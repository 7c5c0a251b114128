-- ===== src/Base/Text.antt =====
-- Go strings and byte slices, as lists of bytes, and the functions of Go's `strings` package that
-- the program calls. `trim_space` knows every white space character of Unicode, in UTF-8;
-- `to_lower` maps the ASCII letters and leaves other bytes alone.
use Prim.Native.Char.{code}
use Prim.Native.String.{String}
use mathlib.Core.List.{reverse}
use mathlib.Core.Option
use mathlib.Core.Option.{Option, none, some}
use ai_proxy_pool.Base.{
  ℕ, ◌+◌, ◌≡◌, refl, ◌↔◌, Bool, true, false, ◌&&◌, ◌||◌, List, [], ◌∷◌, ◌++◌, map, arith, leb, ◌==◌,
  if◌then◌else◌,
}

abbrev pub Bytes : Type 0
Bytes = List ℕ

-- The bytes of an ASCII literal.
abbrev pub codes : String → Bytes
codes String.[] = []
codes (String.◌∷◌ c s) = code c ∷ codes s

-- a == b
unfoldable pub str_eq : Bytes → Bytes → Bool
str_eq [] [] = true
str_eq [] (y ∷ ys) = false
str_eq (x ∷ xs) [] = false
str_eq (x ∷ xs) (y ∷ ys) = x == y && str_eq xs ys

pub str_eq_refl : (s : Bytes) → str_eq s s ≡ true
unfolding str_eq
str_eq_refl [] = refl
str_eq_refl (x ∷ xs) = ground (arith, str_eq_refl xs)

pub str_eq→eq : (s t : Bytes) → str_eq s t ≡ true → s ≡ t
unfolding str_eq
str_eq→eq [] [] h = refl
str_eq→eq [] (y ∷ ys) h = cc
str_eq→eq (x ∷ xs) [] h = cc
str_eq→eq (x ∷ xs) (y ∷ ys) h = ground (arith, str_eq→eq xs ys)

pub str_eq_iff : (s t : Bytes) → (str_eq s t ≡ true) ↔ (s ≡ t)
str_eq_iff s t = (str_eq→eq s t, λ e. rw e (str_eq_refl t))

-- strings.HasPrefix(s, prefix)
unfoldable pub has_prefix : Bytes → Bytes → Bool
has_prefix s [] = true
has_prefix [] (p ∷ ps) = false
has_prefix (x ∷ xs) (p ∷ ps) = x == p && has_prefix xs ps

pub has_prefix-append : (s t : Bytes) → has_prefix (s ++ t) s ≡ true
unfolding has_prefix
has_prefix-append [] t = refl
has_prefix-append (x ∷ xs) t = ground (arith, has_prefix-append xs t)

-- White space of one, two and three bytes.
is_space : ℕ → Bool
is_space a = (leb 9 a && leb a 13) || a == 32

is_space2 : ℕ → ℕ → Bool
is_space2 a b = a == 0xC2 && (b == 0x85 || b == 0xA0)

is_space3 : ℕ → ℕ → ℕ → Bool
is_space3 a b c =
    (a == 0xE1 && b == 0x9A && c == 0x80)
    || (a == 0xE2
        && b == 0x80
        && ((leb 0x80 c && leb c 0x8A) || c == 0xA8 || c == 0xA9 || c == 0xAF))
    || (a == 0xE2 && b == 0x81 && c == 0x9F)
    || (a == 0xE3 && b == 0x80 && c == 0x80)

-- The white space at the front, where `fwd` says whether a character's bytes stand in order; at the
-- end of a text they are read backwards.
skip_space : (ℕ → ℕ → Bool) → (ℕ → ℕ → ℕ → Bool) → Bytes → Bytes
unfolding is_space
skip_space two three [] = []
skip_space two three (a ∷ []) = if is_space a then [] else a ∷ []
skip_space two three (a ∷ b ∷ []) =
    let one = skip_space two three (b ∷ []) in
    if is_space a then one else if two a b then [] else a ∷ b ∷ []
skip_space two three (a ∷ b ∷ c ∷ s) =
    let after1 = skip_space two three (b ∷ c ∷ s) in
    let after2 = skip_space two three (c ∷ s) in
    let after3 = skip_space two three s in
    if is_space a
    then after1
    else if two a b
    then after2
    else if three a b c
    then after3
    else a ∷ b ∷ c ∷ s

-- strings.TrimSpace
unfoldable pub trim_space : Bytes → Bytes
unfolding skip_space is_space2 is_space3
trim_space s = reverse (
    skip_space (λ a b. is_space2 b a) (λ a b c. is_space3 c b a)
      (reverse (skip_space is_space2 is_space3 s)))

lower_byte : ℕ → ℕ
lower_byte c = if leb b'A' c && leb c b'Z' then c + 32 else c

-- strings.ToLower
unfoldable pub to_lower : Bytes → Bytes
unfolding lower_byte
to_lower s = map lower_byte s

-- strings.EqualFold
unfoldable pub equal_fold : Bytes → Bytes → Bool
unfolding to_lower str_eq
equal_fold s t = str_eq (to_lower s) (to_lower t)

lower_byte_idem : (c : ℕ) → lower_byte (lower_byte c) ≡ lower_byte c
unfolding lower_byte
lower_byte_idem c = ground arith

pub to_lower_idem : (s : Bytes) → to_lower (to_lower s) ≡ to_lower s
unfolding to_lower
to_lower_idem [] = refl
to_lower_idem (c ∷ s) = cc (lower_byte_idem c, to_lower_idem s)

-- strings.Contains(s, part)
unfoldable pub has_infix : Bytes → Bytes → Bool
unfolding has_prefix
has_infix [] part = has_prefix [] part
has_infix (c ∷ s) part = has_prefix (c ∷ s) part || has_infix s part

-- strings.SplitN(s, sep, 2) for a one-byte sep: the text before and behind the first one.
unfoldable pub cut : ℕ → Bytes → Option (Bytes × Bytes)
cut sep [] = none
cut sep (c ∷ s) = if c == sep then some ([], s) else Option.map (λ (a, b). (c ∷ a, b)) (cut sep s)

trim_test : trim_space (codes "  a b \n") ≡ codes "a b"
unfolding trim_space
trim_test = refl

trim_wide_test : trim_space (0xE2 ∷ 0x80 ∷ 0x83 ∷ 97 ∷ 0xC2 ∷ 0xA0 ∷ []) ≡ 97 ∷ []
unfolding trim_space
trim_wide_test = refl

lower_test : to_lower (codes "X-Api-Key") ≡ codes "x-api-key"
unfolding to_lower
lower_test = refl
