-- ===== src/Stats/Update.antt =====
-- What a write to one provider's entry changes in the store.
use ai_proxy_pool.Base.{
  ◌≡◌, refl, ap, false, none, some, if◌then◌else◌, arith, Option-cases, Bool-cases, inl, inr,
}
use mathlib.Core.Path.{subst}
use ai_proxy_pool.Base.Text.{Bytes, str_eq, str_eq_refl, str_eq→eq}
use ai_proxy_pool.Base.Dict.{lookup, lookup-insert}
use ai_proxy_pool.Stats.Provider.{
  ProviderStats, GlobalStats, update, stats_of, or_zero, get_or_create,
}

module _ (f : ProviderStats → ProviderStats) (g : GlobalStats) where
  pub lookup-update :
      (name asked : Bytes)
      → lookup asked (update name f g)
        ≡ (if str_eq name asked then some (f (stats_of g name)) else lookup asked g)
  unfolding update
  lookup-update name asked = lookup-insert name asked (f (stats_of g name)) g

  pub lookup-update_ne :
      (name asked : Bytes)
      → str_eq name asked ≡ false
      → lookup asked (update name f g) ≡ lookup asked g
  lookup-update_ne name asked e = rw (lookup-update, e)

  pub stats_of-update_self : (name : Bytes) → stats_of (update name f g) name ≡ f (stats_of g name)
  unfolding stats_of
  stats_of-update_self name = rw (lookup-update, str_eq_refl)

  pub stats_of-update_ne :
      (name asked : Bytes)
      → str_eq name asked ≡ false
      → stats_of (update name f g) asked ≡ stats_of g asked
  unfolding stats_of
  stats_of-update_ne name asked e = ap or_zero (lookup-update_ne name asked e)

  pub stats_of-update :
      (name asked : Bytes)
      → stats_of (update name f g) asked
        ≡ (if str_eq name asked then f (stats_of g name) else stats_of g asked)
  unfolding stats_of
  stats_of-update name asked = rw lookup-update (ground arith)

pub stats_of-get_or_create :
    (g : GlobalStats) (name asked : Bytes)
    → stats_of (get_or_create g name) asked ≡ stats_of g asked
unfolding stats_of get_or_create
stats_of-get_or_create g name asked = elim (Option-cases (lookup name g)) [
  | inr (ps, present) ↦ rw (present, get_or_create) refl
  | inl absent ↦ elim (Bool-cases (str_eq name asked)) [
    | inl same ↦
        let missing = subst (λ k. lookup k g ≡ none) (str_eq→eq name asked same) absent in
        rw (absent, get_or_create, stats_of, lookup-insert, same, missing) refl
    | inr other ↦ rw (absent, get_or_create, stats_of, lookup-insert, other) refl
  ]
]
