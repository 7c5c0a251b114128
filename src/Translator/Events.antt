-- ===== src/Translator/Events.antt =====
-- The events of an answer that comes as a stream, in
-- internal/translator/codex/claude/response_stream.go: the handler of each event of Codex. A
-- handler gives the events for Claude; `sse` writes them. The index of a block is an `int` that
-- counts blocks, a number here.
pub mod Numbered
pub mod Protocol
pub mod First
pub mod Tools
use ai_proxy_pool.Base.{
  ℕ, suc, ◌≡◌, refl, Bool, true, false, ◌||◌, List, [], ◌∷◌, ◌++◌, Option, none, some,
  if◌then◌else◌,
}
use ai_proxy_pool.Base.Int.{pos}
use ai_proxy_pool.Base.Regexp.{Regexp}
use ai_proxy_pool.Base.Text.{Bytes, codes, str_eq, trim_space}
use ai_proxy_pool.Base.Json.{Json, null, str, Object, object, array, number, field, Codec}
use ai_proxy_pool.Translator.Values.{as_map, as_string, as_raw_string, is_none}
use ai_proxy_pool.Translator.Claude.{
  Block, thinking, text, tool_use, Delta, thinking_delta, text_delta, input_json_delta, Event,
  message_start, content_block_start, content_block_delta, content_block_stop, message_delta,
  message_stop,
}
use ai_proxy_pool.Translator.Kinds.{
  Kind, created, summary_part_added, summary_text_delta, summary_part_done, content_part_added,
  output_text_delta, content_part_done, output_item_added, arguments_delta, arguments_done,
  output_item_done, completed, other, kind_of,
}
use ai_proxy_pool.Translator.Names.{restore_original_tool_name}
use ai_proxy_pool.Translator.Usage.{Usage, extract_usage}
use ai_proxy_pool.Translator.Decoration.{remove_leading_codex_decoration}
use ai_proxy_pool.Translator.Response.{strip_ansi, usage_json}

pub record StreamState : Type 0 where
  pub has_tool_call : Bool
  pub block_index : ℕ
  pub has_received_arguments_delta : Bool
  pub reverse_tool_name_map : List (Bytes × Bytes)
  pub emit_thinking : Bool
  pub leading_text_pending : Bool
  pub buffering_first_text_block : Bool
  pub first_text_block : Bytes

abbrev Handled : Type 0
Handled = List Event × StreamState

abbrev next_block : StreamState → StreamState
next_block state = record state { block_index = suc state.block_index }

unfoldable pub handle_response_created : Object → StreamState → Handled
unfolding as_map as_string field
handle_response_created root state =
    let response = as_map (field root (codes "response")) in
    (
      message_start (as_string (field response (codes "id")))
            (as_string (field response (codes "model")))
          ∷ [],
      state,
    )

unfoldable pub handle_reasoning_summary_part_added : StreamState → Handled
handle_reasoning_summary_part_added state =
    if state.emit_thinking
    then (content_block_start state.block_index thinking ∷ [], state)
    else ([], state)

unfoldable pub handle_reasoning_summary_text_delta : Object → StreamState → Handled
unfolding as_raw_string field
handle_reasoning_summary_text_delta root state =
    if state.emit_thinking
    then (
      content_block_delta state.block_index
            (thinking_delta (as_raw_string (field root (codes "delta"))))
          ∷ [],
      state,
    )
    else ([], state)

unfoldable pub handle_reasoning_summary_part_done : StreamState → Handled
handle_reasoning_summary_part_done state =
    if state.emit_thinking
    then (content_block_stop state.block_index ∷ [], next_block state)
    else ([], state)

unfoldable pub handle_content_part_added : StreamState → Handled
handle_content_part_added state =
    if state.leading_text_pending
    then ([], record state { buffering_first_text_block = true; first_text_block = [] })
    else (content_block_start state.block_index text ∷ [], state)

unfoldable pub handle_output_text_delta : Object → StreamState → Handled
unfolding as_raw_string field
handle_output_text_delta root state =
    let delta = as_raw_string (field root (codes "delta")) in
    if state.buffering_first_text_block
    then ([], record state { first_text_block = state.first_text_block ++ delta })
    else (content_block_delta state.block_index (text_delta delta) ∷ [], state)

-- The end of the first text, without its decoration.
unfoldable pub flush_first_text : Bytes × Bool → StreamState → Handled
unfolding trim_space
flush_first_text (cleaned, removed) state =
    let flushed = record state { buffering_first_text_block = false; first_text_block = [] } in
    if is_none (trim_space cleaned)
    then if removed then ([], flushed) else ([], record flushed { leading_text_pending = false })
    else (
      content_block_start state.block_index text
          ∷ content_block_delta state.block_index (text_delta cleaned)
          ∷ content_block_stop state.block_index
          ∷ [],
      next_block (record flushed { leading_text_pending = false }),
    )

unfoldable pub handle_content_part_done : StreamState → Handled
unfolding flush_first_text remove_leading_codex_decoration
handle_content_part_done state =
    if state.buffering_first_text_block
    then flush_first_text (remove_leading_codex_decoration state.first_text_block) state
    else (content_block_stop state.block_index ∷ [], next_block state)

-- Whether the item of an event is a call of a function.
unfoldable pub is_function_call : Object → Bool
unfolding as_map as_string field str_eq
is_function_call root =
    str_eq (as_string (field (as_map (field root (codes "item"))) (codes "type")))
      (codes "function_call")

unfoldable pub handle_output_item_added : Object → StreamState → Handled
unfolding is_function_call as_map as_string field restore_original_tool_name
handle_output_item_added root state =
    let item = as_map (field root (codes "item")) in
    let name =
      restore_original_tool_name state.reverse_tool_name_map
        (as_string (field item (codes "name"))) in
    if is_function_call root
    then (
      content_block_start state.block_index
            (tool_use (as_string (field item (codes "call_id"))) name)
          ∷ content_block_delta state.block_index (input_json_delta [])
          ∷ [],
      record state {
        has_tool_call = true;
        leading_text_pending = false;
        has_received_arguments_delta = false;
      },
    )
    else ([], state)

unfoldable pub handle_output_item_done : Object → StreamState → Handled
unfolding is_function_call
handle_output_item_done root state =
    if is_function_call root
    then (content_block_stop state.block_index ∷ [], next_block state)
    else ([], state)

abbrev stop_reason : Bool → Bytes → Bytes
stop_reason true reason = codes "tool_use"
stop_reason false reason =
    if str_eq reason (codes "max_tokens") || str_eq reason (codes "stop")
    then reason
    else codes "end_turn"

unfoldable pub handle_response_completed : Object → StreamState → Handled
unfolding as_map as_string field str_eq extract_usage
handle_response_completed root state =
    let response = as_map (field root (codes "response")) in
    (
      message_delta
            (stop_reason state.has_tool_call (as_string (field response (codes "stop_reason"))))
            (extract_usage (as_map (field response (codes "usage"))))
          ∷ message_stop
          ∷ [],
      state,
    )

module _ (re : Regexp) where
  unfoldable pub handle_function_call_args_delta : Object → StreamState → Handled
  unfolding as_raw_string field strip_ansi
  handle_function_call_args_delta root state = (
    content_block_delta state.block_index
          (input_json_delta (strip_ansi re (as_raw_string (field root (codes "delta")))))
        ∷ [],
    record state { has_received_arguments_delta = true },
  )

  unfoldable pub handle_function_call_args_done : Object → StreamState → Handled
  unfolding as_raw_string field strip_ansi
  handle_function_call_args_done root state =
      let args = strip_ansi re (as_raw_string (field root (codes "arguments"))) in
      if state.has_received_arguments_delta || is_none args
      then ([], state)
      else (content_block_delta state.block_index (input_json_delta args) ∷ [], state)

  -- The switch over the type of an event.
  unfoldable pub handle : Kind → Object → StreamState → Handled
  unfolding handle_response_created handle_reasoning_summary_part_added
      handle_reasoning_summary_text_delta handle_reasoning_summary_part_done
      handle_content_part_added handle_output_text_delta handle_content_part_done
      handle_output_item_added handle_function_call_args_delta handle_function_call_args_done
      handle_output_item_done handle_response_completed
  handle created root state = handle_response_created root state
  handle summary_part_added root state = handle_reasoning_summary_part_added state
  handle summary_text_delta root state = handle_reasoning_summary_text_delta root state
  handle summary_part_done root state = handle_reasoning_summary_part_done state
  handle content_part_added root state = handle_content_part_added state
  handle output_text_delta root state = handle_output_text_delta root state
  handle content_part_done root state = handle_content_part_done state
  handle output_item_added root state = handle_output_item_added root state
  handle arguments_delta root state = handle_function_call_args_delta root state
  handle arguments_done root state = handle_function_call_args_done root state
  handle output_item_done root state = handle_output_item_done root state
  handle completed root state = handle_response_completed root state
  handle other root state = ([], state)

  -- Decoded events, one after the other.
  unfoldable pub handle_all : List Object → StreamState → Handled
  unfolding handle kind_of
  handle_all [] state = ([], state)
  handle_all (root ∷ roots) state =
      let (events, state1) = handle (kind_of root) root state in
      let (later, state2) = handle_all roots state1 in (events ++ later, state2)
