-- ===== src/Base/Header.antt =====
-- Go's `http.Header`: a map from canonical keys to lists of values.
use ai_proxy_pool.Base.{
  ℕ, ◌-◌, ◌+◌, ◌≡◌, refl, Bool, true, false, ◌&&◌, ◌||◌, List, [], ◌∷◌, ◌++◌, Option, none, some,
  leb, ◌==◌, if◌then◌else◌,
}
use ai_proxy_pool.Base.Text.{Bytes, codes}
use ai_proxy_pool.Base.Dict.{lookup, insert, delete}

abbrev pub Header : Type 0
Header = List (Bytes × List Bytes)

is_upper : ℕ → Bool
is_upper c = leb b'A' c && leb c b'Z'

is_lower : ℕ → Bool
is_lower c = leb b'a' c && leb c b'z'

is_one_of : ℕ → Bytes → Bool
is_one_of c [] = false
is_one_of c (d ∷ s) = c == d || is_one_of c s

-- A byte that may stand in the name of a header field.
is_token_byte : ℕ → Bool
unfolding is_upper is_lower is_one_of
is_token_byte c =
    is_upper c || is_lower c || (leb b'0' c && leb c b'9') || is_one_of c (codes "!#$%&'*+-.^_`|~")

all_tokens : Bytes → Bool
unfolding is_token_byte
all_tokens [] = true
all_tokens (c ∷ s) = is_token_byte c && all_tokens s

-- Upper case at the start and behind a hyphen, lower case elsewhere.
recase : Bool → Bytes → Bytes
unfolding is_upper is_lower
recase start [] = []
recase start (c ∷ s) =
    let c' =
      if start && is_lower c then c - 32 else if not_start start && is_upper c then c + 32 else c in
    c' ∷ recase (c' == b'-') s
  where
    not_start : Bool → Bool
    not_start true = false
    not_start false = true

-- textproto.CanonicalMIMEHeaderKey
unfoldable pub canonical : Bytes → Bytes
unfolding recase all_tokens
canonical key = if all_tokens key then recase true key else key

abbrev first_value : Option (List Bytes) → Bytes
first_value none = []
first_value (some []) = []
first_value (some (v ∷ _)) = v

abbrev values : Option (List Bytes) → List Bytes
values none = []
values (some vs) = vs

-- h.Get(key)
unfoldable pub get : Header → Bytes → Bytes
unfolding canonical lookup
get h key = first_value (lookup (canonical key) h)

-- h.Set(key, value)
unfoldable pub set : Header → Bytes → Bytes → Header
unfolding canonical insert
set h key value = insert (canonical key) (value ∷ []) h

-- h.Add(key, value)
unfoldable pub add : Header → Bytes → Bytes → Header
unfolding canonical insert lookup
add h key value = insert (canonical key) (values (lookup (canonical key) h) ++ value ∷ []) h

-- h.Del(key)
unfoldable pub del : Header → Bytes → Header
unfolding canonical delete
del h key = delete (canonical key) h

canonical_test : canonical (codes "x-API-key") ≡ codes "X-Api-Key"
unfolding canonical
canonical_test = refl
