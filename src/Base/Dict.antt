-- ===== src/Base/Dict.antt =====
-- Go maps with string keys, as association lists, and Go sets, as lists of strings.
use ai_proxy_pool.Base.{
  ◌≡◌, refl, Bool, false, ◌||◌, Option, none, some, List, [], ◌∷◌, arith, if◌then◌else◌,
}
use ai_proxy_pool.Base.Text.{Bytes, str_eq, str_eq_refl, str_eq_iff}

module _ {ℓ} {V : Type ℓ} where
  -- v, ok := m[key]
  unfoldable pub lookup : Bytes → List (Bytes × V) → Option V
  lookup key [] = none
  lookup key ((name, value) ∷ rest) = if str_eq name key then some value else lookup key rest

  -- m[key] = value
  unfoldable pub insert : Bytes → V → List (Bytes × V) → List (Bytes × V)
  insert key value [] = (key, value) ∷ []
  insert key value ((name, old) ∷ rest) =
      if str_eq name key then (key, value) ∷ rest else (name, old) ∷ insert key value rest

  -- delete(m, key)
  unfoldable pub delete : Bytes → List (Bytes × V) → List (Bytes × V)
  delete key [] = []
  delete key ((name, old) ∷ rest) =
      if str_eq name key then delete key rest else (name, old) ∷ delete key rest

  pub lookup-insert :
      (key asked : Bytes) (value : V) (dict : List (Bytes × V))
      → lookup asked (insert key value dict)
        ≡ (if str_eq key asked then some value else lookup asked dict)
  unfolding lookup insert
  lookup-insert key asked value ((name, old) ∷ rest) = ground (
    arith,
    lookup-insert key asked value rest,
    str_eq_iff name asked,
    str_eq_iff key asked,
    str_eq_iff name key,
  )
  lookup-insert key asked value [] = refl

  pub lookup-insert_self :
      (k : Bytes) (v : V) (m : List (Bytes × V)) → lookup k (insert k v m) ≡ some v
  lookup-insert_self k v m = simp (lookup-insert, str_eq_refl)

  pub lookup-delete :
      (k j : Bytes) (m : List (Bytes × V))
      → lookup j (delete k m) ≡ (if str_eq k j then none else lookup j m)
  unfolding lookup delete
  lookup-delete k j [] = ground arith
  lookup-delete k j ((i, w) ∷ m) =
      ground (arith, str_eq_iff k j, str_eq_iff i k, str_eq_iff i j, lookup-delete k j m)

-- _, ok := set[k]
unfoldable pub contains : Bytes → List Bytes → Bool
contains k [] = false
contains k (j ∷ s) = str_eq j k || contains k s
