-- ===== src/Translator/Names.antt =====
-- The short names of tools, in internal/translator/codex/claude/request_tools.go, and the map back
-- to the original names, in response.go.
pub mod Free
pub mod Inverse
use ai_proxy_pool.Base.{
  ℕ, zero, suc, ◌+◌, ◌-◌, Bool, true, false, ◌&&◌, List, [], ◌∷◌, ◌++◌, Option, none, some, ltb,
  leb, if◌then◌else◌, length, take, drop,
}
use ai_proxy_pool.Base.Text.{Bytes, codes, has_prefix}
use ai_proxy_pool.Base.Number.{itoa}
use ai_proxy_pool.Base.Lines.{last_index}
use ai_proxy_pool.Base.Dict.{lookup, insert, contains}
use ai_proxy_pool.Base.Json.{Json, Object, field}
use ai_proxy_pool.Translator.Values.{as_map, as_slice, as_string, is_none}

abbrev cut_to : ℕ → Bytes → Bytes
cut_to limit s = if leb (length s) limit then s else take limit s

-- The name of an MCP tool without that of its server, where it has both.
abbrev shorten_mcp : Bytes → ℕ → Option ℕ → Bytes
shorten_mcp name limit none = take limit name
shorten_mcp name limit (some idx) =
    if ltb 0 idx && ltb (idx + 2) (length name)
    then cut_to limit (codes "mcp__" ++ drop (idx + 2) name)
    else take limit name

unfoldable pub shorten_tool_name_to_limit : Bytes → ℕ → Bytes
unfolding has_prefix last_index
shorten_tool_name_to_limit name limit =
    if leb (length name) limit
    then name
    else if has_prefix name (codes "mcp__")
    then shorten_mcp name limit (last_index name (codes "__"))
    else take limit name

abbrev pub tool_name_limit : ℕ
tool_name_limit = 64

unfoldable pub shorten_tool_name_if_needed : Bytes → Bytes
unfolding shorten_tool_name_to_limit
shorten_tool_name_if_needed name = shorten_tool_name_to_limit name tool_name_limit

-- A candidate of the inner loop: the base, cut so that the number fits behind it.
unfoldable pub numbered : Bytes → ℕ → Bytes
unfolding itoa
numbered base i =
    let suffix = b'_' ∷ itoa i in
    let allowed = tool_name_limit - length suffix in
    (if ltb allowed (length base) then take allowed base else base) ++ suffix

-- The inner loop, with fuel; none if the fuel runs out.
unfoldable pub find_unused : ℕ → List Bytes → Bytes → ℕ → Option Bytes
unfolding numbered contains
find_unused zero used base i = none
find_unused (suc fuel) used base i =
    let candidate = numbered base i in
    let rest = find_unused fuel used base (suc i) in
    if contains candidate used then rest else some candidate

abbrev or_base : Bytes → Option Bytes → Bytes
or_base base none = base
or_base base (some candidate) = candidate

-- A name that is not used. One round more than there are used names is enough for the loop.
unfoldable pub unused_name : List Bytes → Bytes → Bytes
unfolding find_unused contains
unused_name used base =
    if contains base used then or_base base (find_unused (suc (length used)) used base 1) else base

-- The loop over the names, with the names used so far and the map so far.
unfoldable pub short_names : List Bytes → List Bytes → List (Bytes × Bytes) → List (Bytes × Bytes)
unfolding unused_name shorten_tool_name_to_limit insert
short_names [] used out = out
short_names (name ∷ names) used out =
    let candidate = unused_name used (shorten_tool_name_to_limit name tool_name_limit) in
    short_names names (candidate ∷ used) (insert name candidate out)

-- The names of the tools, without empty ones.
unfoldable pub tool_names : List Json → List Bytes
unfolding as_string as_map field
tool_names [] = []
tool_names (raw ∷ tools) =
    let name = as_string (field (as_map raw) (codes "name")) in
    let names = tool_names tools in if is_none name then names else name ∷ names

unfoldable pub build_tool_short_name_map : Object → List (Bytes × Bytes)
unfolding short_names tool_names as_slice
build_tool_short_name_map root =
    short_names (tool_names (as_slice (field root (codes "tools")))) [] []

-- The loop of `parseOriginalRequest`.
unfoldable pub reversed : List (Bytes × Bytes) → List (Bytes × Bytes) → List (Bytes × Bytes)
unfolding insert
reversed [] rev = rev
reversed ((original, short) ∷ names) rev = reversed names (insert short original rev)

abbrev or_name : Bytes → Option Bytes → Bytes
or_name name none = name
or_name name (some other) = other

unfoldable pub restore_original_tool_name : List (Bytes × Bytes) → Bytes → Bytes
unfolding lookup
restore_original_tool_name reverse current = or_name current (lookup current reverse)

-- The name under which a tool is sent.
unfoldable pub sent_name : List (Bytes × Bytes) → Bytes → Bytes
unfolding lookup shorten_tool_name_if_needed
sent_name short_map name = or_name (shorten_tool_name_if_needed name) (lookup name short_map)
