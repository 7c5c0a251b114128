-- ===== src/Proxy/Model.antt =====
-- internal/proxy/model.go: the model name in a request, and its labels.
use ai_proxy_pool.Base.{not, ◌&&◌, List, [], ◌∷◌, Option, none, some, if◌then◌else◌}
use ai_proxy_pool.Base.Text.{Bytes, codes, to_lower, trim_space, has_prefix, has_infix}
use ai_proxy_pool.Base.Dict.{lookup, insert}
use ai_proxy_pool.Base.Json.{Json, str, obj, Object, of_members, Codec}
use ai_proxy_pool.Base.Regexp.{Regexp}
use ai_proxy_pool.Config.{ModelRegexMapping}
use ai_proxy_pool.Router.{is_empty}

abbrev model_value : Option Json → Bytes
model_value (some (str s)) = s
model_value _ = []

abbrev model_field : Option Object → Bytes
model_field none = []
model_field (some payload) = model_value (lookup (codes "model") payload)

unfoldable pub extract_model : Codec → Bytes → Bytes → Bytes
unfolding lookup
extract_model codec body content_type =
    if is_empty body
    then []
    else if not (is_empty content_type)
        && not (has_infix (to_lower content_type) (codes "application/json"))
    then []
    else model_field (codec.unmarshal body)

abbrev replaced : Bytes → Option Bytes → Bytes
replaced body none = body
replaced body (some out) = trim_space out

-- The encoder's output ends in a newline, which is trimmed off.
unfoldable pub replace_model : Codec → Bytes → Bytes → Bytes
unfolding insert
replace_model codec body to = elim (codec.decode body) [
  | none ↦ body
  | some payload ↦
      replaced body (codec.encode (obj (of_members (insert (codes "model") (str to) payload))))
]

unfoldable pub apply_model_regex_mapping : Regexp → Bytes → List ModelRegexMapping → Bytes
apply_model_regex_mapping re model [] = model
apply_model_regex_mapping re model (mapping ∷ mappings) = elim mapping.compiled [
  | none ↦ apply_model_regex_mapping re model mappings
  | some r ↦
      if re.match_string r model
      then re.replace_all_string r model mapping.replacement
      else apply_model_regex_mapping re model mappings
]

unfoldable pub model_metric_label : Bytes → Bytes
model_metric_label model =
    let normalized = to_lower (trim_space model) in
    if is_empty normalized
    then codes "unknown"
    else if has_prefix normalized (codes "claude-opus")
    then codes "claude-opus"
    else if has_prefix normalized (codes "claude-sonnet")
    then codes "claude-sonnet"
    else if has_prefix normalized (codes "claude-haiku")
    then codes "claude-haiku"
    else if has_prefix normalized (codes "claude-")
    then codes "claude-other"
    else codes "custom"
