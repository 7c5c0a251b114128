-- ===== src/Translator/Events/Tools.antt =====
-- The name of a tool, from the request to Codex and back in the event that starts a call of it.
use ai_proxy_pool.Base.{◌^◌, ◌≤◌, ◌<◌, ◌≡◌, refl, ap, ◌∙◌, true, [], ◌∷◌, length}
use ai_proxy_pool.Base.Regexp.{Regexp}
use ai_proxy_pool.Base.Text.{Bytes, codes, trim_space}
use ai_proxy_pool.Base.Dict.{contains}
use ai_proxy_pool.Base.Json.{str, Object, field}
use ai_proxy_pool.Translator.Values.{as_map, as_slice, as_string}
use ai_proxy_pool.Translator.Claude.{
  tool_use, input_json_delta, content_block_start, content_block_delta,
}
use ai_proxy_pool.Translator.Kinds.{output_item_added}
use ai_proxy_pool.Translator.Names.{
  tool_names, build_tool_short_name_map, sent_name, restore_original_tool_name, reversed,
}
use ai_proxy_pool.Translator.Names.Inverse.{restore-sent_name}
use ai_proxy_pool.Translator.Events.{
  StreamState, handle, handle_output_item_added, is_function_call,
}

-- The fields of the item of an event.
abbrev pub item_of : Object → Object
item_of event = as_map (field event (codes "item"))

handle_call :
    (re : Regexp) (event : Object) (st : StreamState)
    → is_function_call event ≡ true
    → (handle re output_item_added event st).0
      ≡ content_block_start st.block_index (
          tool_use (as_string (field (item_of event) (codes "call_id"))) (
            restore_original_tool_name st.reverse_tool_name_map
              (as_string (field (item_of event) (codes "name")))))
        ∷ content_block_delta st.block_index (input_json_delta [])
        ∷ []
unfolding handle handle_output_item_added
handle_call re event st call = rw (handle_output_item_added, call) refl

-- A tool of the request is sent under a name of at most 64 bytes; and when an event starts a call
-- with that name in it, and the name has no white space at its ends, then the block for Claude is a
-- call of the tool under its own name. The request has fewer than 10^59 tools, and the state has the
-- names of its tools. The event is what has been decoded: that the name is the one that was sent is a
-- condition.
pub handle-sent_name :
    (re : Regexp) (root : Object) (name : Bytes) (event : Object) (st : StreamState)
    → let names = tool_names (as_slice (field root (codes "tools"))) in
      let short_map = build_tool_short_name_map root in
      let short = sent_name short_map name in
      length names < 10 ^ 59
      → contains name names ≡ true
      → st.reverse_tool_name_map ≡ reversed short_map []
      → is_function_call event ≡ true
      → field (item_of event) (codes "name") ≡ str short
      → trim_space short ≡ short
      → (length short ≤ 64)
        × ((handle re output_item_added event st).0
            ≡ content_block_start st.block_index
                (tool_use (as_string (field (item_of event) (codes "call_id"))) name)
              ∷ content_block_delta st.block_index (input_json_delta [])
              ∷ [])
unfolding as_string
handle-sent_name re root name event st few listed known call named clean =
    let (fit, back) = restore-sent_name root name few listed in
    let short = sent_name (build_tool_short_name_map root) name in
    let read : as_string (field (item_of event) (codes "name")) ≡ short =
      ap as_string named ∙ clean in
    let own : restore_original_tool_name st.reverse_tool_name_map
          (as_string (field (item_of event) (codes "name")))
        ≡ name =
      ap (restore_original_tool_name st.reverse_tool_name_map) read
      ∙ ap (λ m. restore_original_tool_name m short) known
      ∙ back in
    (
      fit,
      handle_call re event st call
          ∙ ap
              (λ n.
                content_block_start st.block_index
                  (tool_use (as_string (field (item_of event) (codes "call_id"))) n)
                ∷ content_block_delta st.block_index (input_json_delta [])
                ∷ [])
              own,
    )
