-- ===== src/Translator/Values.antt =====
-- internal/translator/codex/claude/request_utils.go: reading decoded JSON. A value of another type
-- than the one asked for reads as the empty one. `decodeObject` is `decode` of the codec.
use ai_proxy_pool.Base.{◌≡◌, refl, Bool, true, false, List, [], ◌∷◌}
use ai_proxy_pool.Base.Int.{ℤ, pos}
use ai_proxy_pool.Base.Number.{parse_int}
use ai_proxy_pool.Base.Text.{Bytes, trim_space}
use ai_proxy_pool.Base.Json.{Json, num, str, arr, obj, Object, items, members}

-- `asMap`, and `asMapCopy`, since a value here is never shared
unfoldable pub as_map : Json → Object
as_map (obj ms) = members ms
as_map _ = []

unfoldable pub as_slice : Json → List Json
as_slice (arr vs) = items vs
as_slice _ = []

unfoldable pub as_string : Json → Bytes
unfolding trim_space
as_string (str s) = trim_space s
as_string _ = []

unfoldable pub as_raw_string : Json → Bytes
as_raw_string (str s) = s
as_raw_string _ = []

-- A decoded number is a json.Number.
unfoldable pub as_int64 : Json → ℤ
unfolding parse_int
as_int64 (num text) = (parse_int text).0
as_int64 _ = pos 0

-- len(m) == 0, len(a) == 0
abbrev pub is_none {ℓ} : {A : Type ℓ} → List A → Bool
is_none [] = true
is_none (_ ∷ _) = false

pub is_none→nil {ℓ} : {A : Type ℓ} (xs : List A) → is_none xs ≡ true → xs ≡ []
is_none→nil [] h = refl
is_none→nil (x ∷ xs) h = cc
