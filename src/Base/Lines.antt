-- ===== src/Base/Lines.antt =====
-- The functions of Go's `strings` package that cut a text into parts and join them.
use ai_proxy_pool.Base.{
  ℕ, zero, suc, ◌≡◌, refl, Bool, true, false, ◌&&◌, List, [], ◌∷◌, ◌++◌, Option, none, some, ◌==◌,
  if◌then◌else◌, length, drop,
}
use mathlib.Core.List.{reverse}
use ai_proxy_pool.Base.Text.{Bytes, codes, has_prefix}

-- Adds a byte in front of the first part.
abbrev onto_first : ℕ → List Bytes → List Bytes
onto_first c [] = (c ∷ []) ∷ []
onto_first c (part ∷ parts) = (c ∷ part) ∷ parts

-- strings.Split(s, sep) for a one-byte sep
unfoldable pub split : ℕ → Bytes → List Bytes
split sep [] = [] ∷ []
split sep (c ∷ s) = let parts = split sep s in if c == sep then [] ∷ parts else onto_first c parts

-- strings.Join(parts, sep)
unfoldable pub join : Bytes → List Bytes → Bytes
join sep [] = []
join sep (part ∷ []) = part
join sep (part ∷ next ∷ parts) = part ++ (sep ++ join sep (next ∷ parts))

-- strings.ReplaceAll(s, "\r\n", "\n")
unfoldable pub unify_newlines : Bytes → Bytes
unify_newlines [] = []
unify_newlines (c ∷ []) = c ∷ []
unify_newlines (c ∷ d ∷ s) =
    let rest = unify_newlines (d ∷ s) in if c == b'\r' && d == b'\n' then rest else c ∷ rest

-- strings.TrimLeft(s, cutset) for a cutset of one-byte characters, by their test
unfoldable pub trim_left : (ℕ → Bool) → Bytes → Bytes
trim_left test [] = []
trim_left test (c ∷ s) = let rest = trim_left test s in if test c then rest else c ∷ s

-- strings.TrimRight
unfoldable pub trim_right : (ℕ → Bool) → Bytes → Bytes
unfolding trim_left
trim_right test s = reverse (trim_left test (reverse s))

-- strings.TrimPrefix(s, prefix)
unfoldable pub trim_prefix : Bytes → Bytes → Bytes
unfolding has_prefix
trim_prefix s start = if has_prefix s start then drop (length start) s else s

-- strings.CutPrefix(s, prefix)
unfoldable pub cut_prefix : Bytes → Bytes → Option Bytes
unfolding has_prefix
cut_prefix s start = if has_prefix s start then some (drop (length start) s) else none

abbrev later : Bool → Option ℕ → Option ℕ
later here (some i) = some (suc i)
later true none = some zero
later false none = none

-- strings.LastIndex(s, part), for a part that is not empty; none for -1
unfoldable pub last_index : Bytes → Bytes → Option ℕ
unfolding has_prefix
last_index [] part = none
last_index (c ∷ s) part = later (has_prefix (c ∷ s) part) (last_index s part)

lines_test :
    (split b'\n' (codes "a\n\nb") ≡ codes "a" ∷ [] ∷ codes "b" ∷ [])
    × (join (codes "\n") (codes "a" ∷ [] ∷ codes "b" ∷ []) ≡ codes "a\n\nb")
    × (unify_newlines (codes "a\r\r\n\rb") ≡ codes "a\r\n\rb")
    × (last_index (codes "a__b___") (codes "__") ≡ some 5)
unfolding split join unify_newlines last_index
lines_test = (refl, refl, refl, refl)
