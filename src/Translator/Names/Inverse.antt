-- ===== src/Translator/Names/Inverse.antt =====
-- The short name of every tool leads back to its name in the map of short names.
use ai_proxy_pool.Base.{
  ℕ, ◌+◌, ◌^◌, ◌≤◌, ◌<◌, ◌≡◌, refl, sym, ap, ◌∙◌, ◌≢◌, Bool, true, false, ◌||◌, List, [], ◌∷◌, ◌++◌,
  Option, none, some, inl, inr, length, length-take, drop, arith, Bool-cases, Option-cases, All,
  All-map,
}
use ai_proxy_pool.Base.Text.{Bytes, codes, str_eq, str_eq→eq, str_eq_refl}
use ai_proxy_pool.Base.Lines.{last_index}
use ai_proxy_pool.Base.Dict.{lookup, insert, lookup-insert, contains}
use ai_proxy_pool.Base.Json.{Object, field}
use ai_proxy_pool.Translator.Values.{as_slice}
use ai_proxy_pool.Translator.Names.{
  unused_name, short_names, shorten_tool_name_to_limit, shorten_mcp, tool_names,
  build_tool_short_name_map, reversed, restore_original_tool_name, sent_name,
}
use ai_proxy_pool.Translator.Names.Free.{unused_name-IsFree}

length-shorten_mcp :
    (name : Bytes) (limit : ℕ) (idx : Option ℕ) → length (shorten_mcp name limit idx) ≤ limit
length-shorten_mcp name limit none = omega (arith, length-take limit name)
length-shorten_mcp name limit (some idx) =
    ground (arith, length-take limit name, length-take limit (codes "mcp__" ++ drop (idx + 2) name))

pub length-shorten_tool_name_to_limit :
    (name : Bytes) (limit : ℕ) → length (shorten_tool_name_to_limit name limit) ≤ limit
unfolding shorten_tool_name_to_limit
length-shorten_tool_name_to_limit name limit =
    ground
      (arith, length-take limit name, length-shorten_mcp name limit (last_index name (codes "__")))

-- No two entries have the same short name.
HasOwnNames : List (Bytes × Bytes) → Type 0
HasOwnNames [] = Unit
HasOwnNames ((k, v) ∷ out) = All (λ e. e.1 ≢ v) out × HasOwnNames out

-- What the loop over the names keeps: the short names are used, fit into the limit and differ.
record IsNaming (used : List Bytes) (out : List (Bytes × Bytes)) : Type 0 where
  taken : All (λ e. contains e.1 used ≡ true) out
  fits : All (λ e. length e.1 ≤ 64) out
  own : HasOwnNames out

All-insert :
    (P : Bytes × Bytes → Type 0) (k v : Bytes) (out : List (Bytes × Bytes))
    → P (k, v)
    → All P out
    → All P (insert k v out)
unfolding insert
All-insert P k v [] p h = (p, tt)
All-insert P k v ((j, w) ∷ out) p (q, h) = elim (Bool-cases (str_eq j k)) [
  | inl same ↦ rw same (p, h)
  | inr other ↦ rw other (q, All-insert P k v out p h)
]

HasOwnNames-insert :
    (k v : Bytes) (out : List (Bytes × Bytes))
    → All (λ e. e.1 ≢ v) out
    → HasOwnNames out
    → HasOwnNames (insert k v out)
unfolding HasOwnNames insert
HasOwnNames-insert k v [] fresh own = (tt, tt)
HasOwnNames-insert k v ((j, w) ∷ out) (new, fresh) (ws, own) = elim (Bool-cases (str_eq j k)) [
  | inl same ↦ rw same (fresh, own)
  | inr other ↦ rw other (
    All-insert (λ e. e.1 ≢ w) k v out (λ e. new (sym e)) ws,
    HasOwnNames-insert k v out fresh own,
  )
]

fresh-All :
    (used : List Bytes) (c : Bytes) (out : List (Bytes × Bytes))
    → contains c used ≡ false
    → All (λ e. contains e.1 used ≡ true) out
    → All (λ e. e.1 ≢ c) out
fresh-All used c out free = All-map _ out (λ e taken same. cc (ap (λ s. contains s used) same))

IsNaming-step :
    (name c : Bytes) (used : List Bytes) (out : List (Bytes × Bytes))
    → contains c used ≡ false
    → length c ≤ 64
    → IsNaming used out
    → IsNaming (c ∷ used) (insert name c out)
unfolding contains
IsNaming-step name c used out free fit n = record {
  taken =
      All-insert _ name c out (rw str_eq_refl refl)
        (All-map _ out (λ e t. ground (arith, t)) n.taken);
  fits = All-insert _ name c out fit n.fits;
  own = HasOwnNames-insert name c out (fresh-All used c out free n.taken) n.own;
}

short_names-IsNaming :
    (names used : List Bytes) (out : List (Bytes × Bytes))
    → length used + length names < 10 ^ 59
    → IsNaming used out
    → (used' : List Bytes) × IsNaming used' (short_names names used out)
unfolding short_names
short_names-IsNaming [] used out few n = (used, n)
short_names-IsNaming (name ∷ names) used out few n =
    let base = shorten_tool_name_to_limit name 64 in
    let (free, fit) =
      unused_name-IsFree used base (omega arith) (length-shorten_tool_name_to_limit name 64) in
    short_names-IsNaming names (unused_name used base ∷ used) _ (omega arith)
      (IsNaming-step name (unused_name used base) used out free fit n)

abbrev is_some : Option Bytes → Bool
is_some none = false
is_some (some _) = true

-- Every name gets an entry.
short_names-listed :
    (names used : List Bytes) (out : List (Bytes × Bytes)) (name : Bytes)
    → (contains name names || is_some (lookup name out)) ≡ true
    → is_some (lookup name (short_names names used out)) ≡ true
unfolding short_names contains
short_names-listed [] used out name h = h
short_names-listed (n ∷ names) used out name h =
    let c = unused_name used (shorten_tool_name_to_limit n 64) in
    short_names-listed names (c ∷ used) (insert n c out) name (rw lookup-insert (ground (arith, h)))

lookup-All :
    (P : Bytes × Bytes → Type 0) (k : Bytes) (out : List (Bytes × Bytes)) {v : Bytes}
    → lookup k out ≡ some v
    → All P out
    → P (k, v)
unfolding lookup
lookup-All P k [] e h = cc
lookup-All P k ((j, w) ∷ out) {v} e (p, h) = elim (Bool-cases (str_eq j k)) [
  | inl same ↦ let e' : w ≡ v = cc (rw same at e) in rw (← e', ← str_eq→eq j k same) p
  | inr other ↦ lookup-All P k out (rw other at e) h
]

-- A short name that no later entry has is kept.
reversed-other :
    (out rev : List (Bytes × Bytes)) (v : Bytes)
    → All (λ e. e.1 ≢ v) out
    → lookup v (reversed out rev) ≡ lookup v rev
unfolding reversed
reversed-other [] rev v h = refl
reversed-other ((k, w) ∷ out) rev v (p, h) = elim (Bool-cases (str_eq w v)) [
  | inl same ↦ absurd (p (str_eq→eq w v same))
  | inr other ↦ reversed-other out (insert w k rev) v h ∙ rw (lookup-insert, other) refl
]

lookup-reversed :
    (out rev : List (Bytes × Bytes)) (name : Bytes) {short : Bytes}
    → HasOwnNames out
    → lookup name out ≡ some short
    → lookup short (reversed out rev) ≡ some name
unfolding lookup reversed HasOwnNames
lookup-reversed [] rev name own e = cc
lookup-reversed ((k, w) ∷ out) rev name {short} (ws, own) e = elim (Bool-cases (str_eq k name)) [
  | inl same ↦
      let e' : w ≡ short = cc (rw same at e) in
      rw (← e') (
        reversed-other out (insert w k rev) w ws
        ∙ rw (lookup-insert, str_eq_refl) (ap some (str_eq→eq k name same)))
  | inr other ↦ lookup-reversed out (insert w k rev) name own (rw other at e)
]

-- Every tool with a name is sent under a name of at most 64 bytes, and in the map that name leads to
-- its own, where there are fewer than 10^59 tools.
pub restore-sent_name :
    (root : Object) (name : Bytes)
    → let names = tool_names (as_slice (field root (codes "tools"))) in
      length names < 10 ^ 59
      → contains name names ≡ true
      → let short_map = build_tool_short_name_map root in
        let short = sent_name short_map name in
        (length short ≤ 64) × (restore_original_tool_name (reversed short_map []) short ≡ name)
unfolding build_tool_short_name_map sent_name restore_original_tool_name HasOwnNames
restore-sent_name root name few listed =
    let names = tool_names (as_slice (field root (codes "tools"))) in
    let short_map = short_names names [] [] in
    let (_, naming) =
      short_names-IsNaming names [] [] (omega arith) (record { taken = tt; fits = tt; own = tt }) in
    elim (Option-cases (lookup name short_map)) [
      | inl absent ↦
          cc (rw absent at (short_names-listed names [] [] name (ground (arith, listed))))
      | inr (short, found) ↦
          let fit = lookup-All (λ e. length e.1 ≤ 64) name short_map found naming.fits in
          let back = lookup-reversed short_map [] name naming.own found in
          rw (found, back) (fit, refl)
    ]
