-- ===== src/Base/Json.antt =====
-- JSON values, as `encoding/json` decodes them into an `any`: a number is the text of its literal,
-- and a decoded object has each of its keys once. Reading and writing JSON text is a parameter.
use ai_proxy_pool.Base.{Bool, List, [], ◌∷◌, Option, none, some, ◌≡◌, refl, ap}
use ai_proxy_pool.Base.Dict.{lookup}
use ai_proxy_pool.Base.Number.{format_int}
use ai_proxy_pool.Base.Int.{ℤ}
use ai_proxy_pool.Base.Text.{Bytes}

mutual
  pub data Json : Type 0 where
    null : Json
    bool : Bool → Json
    num : Bytes → Json
    str : Bytes → Json
    arr : Items → Json
    obj : Members → Json

  pub data Items : Type 0 where
    nil : Items
    cons : Json → Items → Items

  pub data Members : Type 0 where
    done : Members
    member : Bytes → Json → Members → Members

abbrev pub Object : Type 0
Object = List (Bytes × Json)

abbrev pub items : Items → List Json
items nil = []
items (cons v vs) = v ∷ items vs

abbrev pub of_items : List Json → Items
of_items [] = nil
of_items (v ∷ vs) = cons v (of_items vs)

abbrev pub members : Members → Object
members done = []
members (member k v ms) = (k, v) ∷ members ms

abbrev pub of_members : Object → Members
of_members [] = done
of_members ((k, v) ∷ ms) = member k v (of_members ms)

-- `json.Unmarshal` and `Decoder.Decode` into a map, none for an error, and `json.Marshal`. A null
-- leaves the map empty.
pub record Codec : Type 0 where
  pub unmarshal : Bytes → Option Object
  pub decode : Bytes → Option Object
  pub marshal : Json → Option Bytes
  -- an `Encoder` with SetEscapeHTML(false)
  pub encode : Json → Option Bytes
  -- fmt.Sprintf("%v", v)
  pub format : Json → Bytes
  -- the int64 of the float64 that a number's literal stands for
  pub float_int64 : Bytes → ℤ

-- root["key"]; a key that is missing reads as nil, which is null.
abbrev pub or_null : Option Json → Json
or_null none = null
or_null (some v) = v

unfoldable pub field : Object → Bytes → Json
unfolding lookup
field root key = or_null (lookup key root)

-- map[string]any{ … }
abbrev pub object : Object → Json
object ms = obj (of_members ms)

abbrev pub array : List Json → Json
array vs = arr (of_items vs)

abbrev pub number : ℤ → Json
number n = num (format_int n)

pub members-of_members : (ms : Object) → members (of_members ms) ≡ ms
members-of_members [] = refl
members-of_members ((k, v) ∷ ms) = ap (λ r. (k, v) ∷ r) (members-of_members ms)
