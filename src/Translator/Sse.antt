-- ===== src/Translator/Sse.antt =====
-- The text of the events for Claude: `sse` of internal/translator/codex/claude/response_sse_utils.go
-- and the payloads that the handlers of response_stream.go give it.
use ai_proxy_pool.Base.{◌≡◌, refl, sym, ap, List, [], ◌∷◌, ◌++◌, append_assoc, Option, none, some}
use ai_proxy_pool.Base.Int.{pos}
use ai_proxy_pool.Base.Text.{Bytes, codes}
use ai_proxy_pool.Base.Json.{Json, null, str, Object, object, array, number, Codec}
use ai_proxy_pool.Translator.Response.{usage_json}
use ai_proxy_pool.Translator.Claude.{
  Block, thinking, text, tool_use, Delta, thinking_delta, text_delta, input_json_delta, Event,
  message_start, content_block_start, content_block_delta, content_block_stop, message_delta,
  message_stop,
}

abbrev event_name : Event → Bytes
event_name (message_start id model) = codes "message_start"
event_name (content_block_start i b) = codes "content_block_start"
event_name (content_block_delta i d) = codes "content_block_delta"
event_name (content_block_stop i) = codes "content_block_stop"
event_name (message_delta reason usage) = codes "message_delta"
event_name message_stop = codes "message_stop"

abbrev block_json : Block → Json
block_json thinking =
    object ((codes "type", str (codes "thinking")) ∷ (codes "thinking", str []) ∷ [])
block_json text = object ((codes "type", str (codes "text")) ∷ (codes "text", str []) ∷ [])
block_json (tool_use id name) = object (
    (codes "type", str (codes "tool_use"))
    ∷ (codes "id", str id)
    ∷ (codes "name", str name)
    ∷ (codes "input", object [])
    ∷ [])

abbrev delta_json : Delta → Json
delta_json (thinking_delta t) =
    object ((codes "type", str (codes "thinking_delta")) ∷ (codes "thinking", str t) ∷ [])
delta_json (text_delta t) =
    object ((codes "type", str (codes "text_delta")) ∷ (codes "text", str t) ∷ [])
delta_json (input_json_delta t) =
    object ((codes "type", str (codes "input_json_delta")) ∷ (codes "partial_json", str t) ∷ [])

-- The message of a start, without content.
abbrev empty_message : Bytes → Bytes → Json
empty_message id model = object (
    (codes "id", str id)
    ∷ (codes "type", str (codes "message"))
    ∷ (codes "role", str (codes "assistant"))
    ∷ (codes "model", str model)
    ∷ (codes "stop_sequence", null)
    ∷ (
      codes "usage",
      object
          ((codes "input_tokens", number (pos 0)) ∷ (codes "output_tokens", number (pos 0)) ∷ []),
    )
    ∷ (codes "content", array [])
    ∷ (codes "stop_reason", null)
    ∷ [])

abbrev payload_fields : Event → Object
payload_fields (message_start id model) = (codes "message", empty_message id model) ∷ []
payload_fields (content_block_start i b) =
    (codes "index", number (pos i)) ∷ (codes "content_block", block_json b) ∷ []
payload_fields (content_block_delta i d) =
    (codes "index", number (pos i)) ∷ (codes "delta", delta_json d) ∷ []
payload_fields (content_block_stop i) = (codes "index", number (pos i)) ∷ []
payload_fields (message_delta reason usage) =
    (codes "delta", object ((codes "stop_reason", str reason) ∷ (codes "stop_sequence", null) ∷ []))
    ∷ (codes "usage", usage_json usage)
    ∷ []
payload_fields message_stop = []

unfoldable pub payload : Event → Json
unfolding usage_json
payload e = object ((codes "type", str (event_name e)) ∷ payload_fields e)

abbrev sse_text : Bytes → Bytes → Bytes
sse_text name encoded =
    codes "event: " ++ (name ++ (codes "\n" ++ (codes "data: " ++ (encoded ++ codes "\n\n"))))

-- none where the payload cannot be encoded
unfoldable pub sse : Codec → Event → Option Bytes
unfolding payload
sse codec e = elim (codec.marshal (payload e)) [
  | none ↦ none
  | some encoded ↦ some (sse_text (event_name e) encoded)
]

-- One text behind the other, where there are both.
abbrev pub both : Option Bytes → Option Bytes → Option Bytes
both none b = none
both (some a) none = none
both (some a) (some b) = some (a ++ b)

unfoldable pub sse_all : Codec → List Event → Option Bytes
unfolding sse
sse_all codec [] = some []
sse_all codec (e ∷ es) = both (sse codec e) (sse_all codec es)

both_nil : (b : Option Bytes) → both (some []) b ≡ b
both_nil none = refl
both_nil (some b) = refl

both_assoc : (a b c : Option Bytes) → both (both a b) c ≡ both a (both b c)
both_assoc none b c = refl
both_assoc (some a) none c = refl
both_assoc (some a) (some b) none = refl
both_assoc (some a) (some b) (some c) = ap some (append_assoc a b c)

pub sse_all-append :
    (codec : Codec) (es fs : List Event)
    → sse_all codec (es ++ fs) ≡ both (sse_all codec es) (sse_all codec fs)
unfolding sse_all
sse_all-append codec [] fs = sym (both_nil (sse_all codec fs))
sse_all-append codec (e ∷ es) fs =
    rw (sse_all-append codec es fs)
      (sym (both_assoc (sse codec e) (sse_all codec es) (sse_all codec fs)))
