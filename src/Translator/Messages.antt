-- ===== src/Translator/Messages.antt =====
-- The messages of a request, in internal/translator/codex/claude/request.go: what Claude's system
-- prompt and messages become in Codex's `input`.
use ai_proxy_pool.Base.{◌||◌, List, [], ◌∷◌, ◌++◌, Option, none, some, if◌then◌else◌}
use ai_proxy_pool.Base.Text.{Bytes, codes, str_eq, trim_space, has_prefix}
use ai_proxy_pool.Base.Json.{Json, null, str, arr, obj, Object, object, array, field, items, Codec}
use ai_proxy_pool.Translator.Values.{as_map, as_slice, as_string, is_none}
use ai_proxy_pool.Translator.Names.{sent_name}

-- A part of a message.
abbrev pub text_part : Bytes → Bytes → Json
text_part part_type text = object ((codes "type", str part_type) ∷ (codes "text", str text) ∷ [])

abbrev image_part : Bytes → Json
image_part data_url =
    object ((codes "type", str (codes "input_image")) ∷ (codes "image_url", str data_url) ∷ [])

abbrev message : Bytes → List Json → Json
message role parts = object (
    (codes "type", str (codes "message"))
    ∷ (codes "role", str role)
    ∷ (codes "content", array parts)
    ∷ [])

-- `appendText` of the system prompt
abbrev system_text : Bytes → List Json
system_text raw_text =
    let text = trim_space raw_text in
    if is_none text || has_prefix text (codes "x-anthropic-billing-header: ")
    then []
    else text_part (codes "input_text") text ∷ []

unfoldable pub system_items : List Json → List Json
unfolding as_map as_string field str_eq trim_space has_prefix
system_items [] = []
system_items (item ∷ rest) =
    let m = as_map item in
    (if str_eq (as_string (field m (codes "type"))) (codes "text")
      then system_text (as_string (field m (codes "text")))
      else [])
    ++ system_items rest

unfoldable pub system_content : Json → List Json
unfolding system_items trim_space has_prefix
system_content (str v) = system_text v
system_content (arr vs) = system_items (items vs)
system_content _ = []

unfoldable pub append_system_as_developer_message : Object → List Json → List Json
unfolding system_content field
append_system_as_developer_message root input =
    let content = system_content (field root (codes "system")) in
    if is_none content then input else input ++ message (codes "developer") content ∷ []

abbrev first_text : Bytes → Bytes → Bytes
first_text a b = if is_none a then b else a

unfoldable pub claude_image_to_data_url : Object → Bytes
unfolding as_map as_string field
claude_image_to_data_url part =
    let source = as_map (field part (codes "source")) in
    let payload =
      first_text (as_string (field source (codes "data")))
        (as_string (field source (codes "base64"))) in
    let media_type = first_text (as_string (field source (codes "media_type"))) (
      first_text (as_string (field source (codes "mime_type")))
        (codes "application/octet-stream")) in
    if is_none payload then [] else codes "data:" ++ (media_type ++ (codes ";base64," ++ payload))

-- A part of the output of a tool.
unfoldable pub tool_output_part : Object → List Json
unfolding as_string field str_eq claude_image_to_data_url
tool_output_part part =
    let kind = as_string (field part (codes "type")) in
    let text = as_string (field part (codes "text")) in
    let data_url = claude_image_to_data_url part in
    if str_eq kind (codes "text")
    then if is_none text then [] else text_part (codes "input_text") text ∷ []
    else if str_eq kind (codes "image")
    then if is_none data_url then [] else image_part data_url ∷ []
    else []

unfoldable pub tool_output_parts : List Json → List Json
unfolding tool_output_part as_map
tool_output_parts [] = []
tool_output_parts (item ∷ rest) = tool_output_part (as_map item) ++ tool_output_parts rest

-- The text of a value, or its Go notation where it cannot be encoded.
abbrev text_of : Bytes → Option Bytes → Bytes
text_of notation none = notation
text_of notation (some text) = text

unfoldable pub normalize_tool_output : Codec → Json → Json
unfolding tool_output_parts
normalize_tool_output codec (str raw_text) = str raw_text
normalize_tool_output codec (arr vs) =
    let out = tool_output_parts (items vs) in
    if is_none out
    then str (text_of (codec.format (arr vs)) (codec.marshal (arr vs)))
    else array out
normalize_tool_output codec (obj ms) =
    str (text_of (codec.format (obj ms)) (codec.marshal (obj ms)))
normalize_tool_output codec _ = str []

abbrev or_braces : Bytes → Bytes
or_braces text = if is_none text then codes "{}" else text

abbrev encoded_or_braces : Option Bytes → Bytes
encoded_or_braces none = codes "{}"
encoded_or_braces (some text) = or_braces text

unfoldable pub normalize_function_arguments : Codec → Json → Bytes
unfolding trim_space
normalize_function_arguments codec null = codes "{}"
normalize_function_arguments codec (str s) = or_braces (trim_space s)
normalize_function_arguments codec v = encoded_or_braces (codec.marshal v)

-- The local variables of `appendMessages`: the input and the parts of the message that is open.
pub record Messages : Type 0 where
  pub input : List Json
  pub parts : List Json

unfoldable pub flush : Bytes → Messages → Messages
flush role m =
    if is_none m.parts
    then m
    else record { input = m.input ++ message role m.parts ∷ []; parts = [] }

abbrev add_part : Json → Messages → Messages
add_part part m = record m { parts = m.parts ++ part ∷ [] }

abbrev add_input : Json → Messages → Messages
add_input item m = record m { input = m.input ++ item ∷ [] }

unfoldable pub append_text : Bytes → Bytes → Messages → Messages
unfolding trim_space str_eq
append_text role raw_text m =
    let text = trim_space raw_text in
    let part_type =
      if str_eq role (codes "assistant") then codes "output_text" else codes "input_text" in
    if is_none text then m else add_part (text_part part_type text) m

unfoldable pub append_image : Bytes → Messages → Messages
append_image data_url m = if is_none data_url then m else add_part (image_part data_url) m

unfoldable pub function_call : Codec → List (Bytes × Bytes) → Object → Json
unfolding as_string field sent_name normalize_function_arguments
function_call codec short_map part = object (
    (codes "type", str (codes "function_call"))
    ∷ (codes "call_id", str (as_string (field part (codes "id"))))
    ∷ (codes "name", str (sent_name short_map (as_string (field part (codes "name")))))
    ∷ (codes "arguments", str (normalize_function_arguments codec (field part (codes "input"))))
    ∷ [])

unfoldable pub function_call_output : Codec → Object → Json
unfolding as_string field normalize_tool_output
function_call_output codec part = object (
    (codes "type", str (codes "function_call_output"))
    ∷ (codes "call_id", str (as_string (field part (codes "tool_use_id"))))
    ∷ (codes "output", normalize_tool_output codec (field part (codes "content")))
    ∷ [])

unfoldable pub append_part : Codec → List (Bytes × Bytes) → Bytes → Object → Messages → Messages
unfolding as_string field str_eq append_text append_image claude_image_to_data_url flush
    function_call function_call_output
append_part codec short_map role part m =
    let kind = as_string (field part (codes "type")) in
    if str_eq kind (codes "text")
    then append_text role (as_string (field part (codes "text"))) m
    else if str_eq kind (codes "image")
    then append_image (claude_image_to_data_url part) m
    else if str_eq kind (codes "tool_use")
    then add_input (function_call codec short_map part) (flush role m)
    else if str_eq kind (codes "tool_result")
    then add_input (function_call_output codec part) (flush role m)
    else m

unfoldable pub append_parts : Codec → List (Bytes × Bytes) → Bytes → List Json → Messages → Messages
unfolding append_part as_map
append_parts codec short_map role [] m = m
append_parts codec short_map role (raw_part ∷ rest) m =
    append_parts codec short_map role rest (append_part codec short_map role (as_map raw_part) m)

unfoldable pub append_content : Codec → List (Bytes × Bytes) → Bytes → Json → Messages → Messages
unfolding append_text append_parts
append_content codec short_map role (str v) m = append_text role v m
append_content codec short_map role (arr vs) m = append_parts codec short_map role (items vs) m
append_content codec short_map role _ m = m

-- One message.
unfoldable pub append_message : Codec → List (Bytes × Bytes) → Object → List Json → List Json
unfolding as_string field append_content flush
append_message codec short_map msg input =
    let role = as_string (field msg (codes "role")) in
    let m =
      append_content codec short_map role (field msg (codes "content"))
        (record { input = input; parts = [] }) in
    if is_none role then input else (flush role m).input

unfoldable pub append_message_list :
    Codec → List (Bytes × Bytes) → List Json → List Json → List Json
unfolding append_message as_map
append_message_list codec short_map [] input = input
append_message_list codec short_map (raw_message ∷ rest) input =
    append_message_list codec short_map rest
      (append_message codec short_map (as_map raw_message) input)

unfoldable pub append_messages : Codec → Object → List Json → List (Bytes × Bytes) → List Json
unfolding append_message_list as_slice field
append_messages codec root input short_map =
    append_message_list codec short_map (as_slice (field root (codes "messages"))) input
