-- ===== src/Translator/StreamTests.antt =====
-- Translations of a small stream, and the theorems about streams at these inputs.
use ai_proxy_pool.Base.{
  ℕ, ◌≤◌, ◌≡◌, ◌≢◌, refl, true, false, List, [], ◌∷◌, ◌++◌, none, some, Option, leb, Bool-cases,
  inl, inr, length, arith, if◌then◌else◌,
}
use ai_proxy_pool.Base.Int.{pos}
use ai_proxy_pool.Base.Word.{int64}
use ai_proxy_pool.Base.Regexp.{Regexp}
use ai_proxy_pool.Base.Text.{has_prefix, Bytes, codes, str_eq, trim_space}
use ai_proxy_pool.Base.Dict.{lookup, contains}
use ai_proxy_pool.Base.Json.{Json, str, Object, object, field}
use ai_proxy_pool.Translator.Values.{as_map, as_slice, as_string}
use ai_proxy_pool.Translator.Kinds.{output_item_added, kind_of}
use ai_proxy_pool.Translator.Events.{StreamState, handle, is_function_call, handle_all}
use ai_proxy_pool.Translator.Events.First.{text_of, holding, handle_all-first}
use ai_proxy_pool.Translator.Decoration.{remove_leading_codex_decoration}
use ai_proxy_pool.Translator.Events.{flush_first_text}
use ai_proxy_pool.Translator.Events.Numbered.{index_after, index_after-handle_all}
use ai_proxy_pool.Translator.Events.Protocol.{
  outside, over, end, then_send, on_created, content_added, content_delta, content_done, call_added,
  call_delta, call_done, on_completed, place_after, handle_all-protocol,
}
use ai_proxy_pool.Translator.Response.{parse_original_request}
use ai_proxy_pool.Base.Lines.{split, join, trim_prefix}
use ai_proxy_pool.Translator.Stream.{
  is_blank_data, new_session, Session, StreamError, scan, scan_line, scan_lines, flush_data,
  add_line, write_chunk, drop_cr, convert_single_codex_event_to_claude_sse, new_state,
  convert_codex_response_to_claude_stream,
}
use ai_proxy_pool.Translator.Stream.Completes.{stream-completes}
use ai_proxy_pool.Translator.Stream.Runs.{AreDecoded, line_data, events_of}
use ai_proxy_pool.Translator.Stream.Refines.{stream-refines}
use ai_proxy_pool.Translator.Sse.{sse, sse_all}
use ai_proxy_pool.Translator.Stream.Counted.{stream-IsCounted}
use ai_proxy_pool.Translator.Tests.{test_codec, long_name, claude_request}
use ai_proxy_pool.Translator.Events.Tools.{item_of, handle-sent_name}
use ai_proxy_pool.Translator.Claude.{
  tool_use, input_json_delta, content_block_start, content_block_delta,
}
use ai_proxy_pool.Translator.Names.{tool_names, build_tool_short_name_map, sent_name, reversed}

abbrev event : Bytes → Object → Object
event kind fields = (codes "type", str (codes "response." ++ kind)) ∷ fields

abbrev call_item : Object
call_item =
    (
      codes "item",
      object (
          (codes "type", str (codes "function_call"))
          ∷ (codes "call_id", str (codes "c"))
          ∷ (codes "name", str (codes "read"))
          ∷ []),
    )
    ∷ []

-- A text and a call.
abbrev codex_events : List Object
codex_events =
    event (codes "created") []
    ∷ event (codes "content_part.added") []
    ∷ event (codes "output_text.delta") ((codes "delta", str (codes "hi")) ∷ [])
    ∷ event (codes "content_part.done") []
    ∷ event (codes "output_item.added") call_item
    ∷ event (codes "function_call_arguments.delta") ((codes "delta", str (codes "{}")) ∷ [])
    ∷ event (codes "output_item.done") call_item
    ∷ event (codes "completed") []
    ∷ []

abbrev plain_regexp : Regexp
plain_regexp = record {
  compiles = λ r. true;
  match_string = λ r s. false;
  replace_all_string = λ r s t. s;
}

abbrev start : StreamState
start = new_state (parse_original_request test_codec (codes "claude"))

index_after-handle_all_example :
    index_after ((handle_all plain_regexp codex_events start).0) start.block_index
    ≡ some ((handle_all plain_regexp codex_events start).1.block_index)
index_after-handle_all_example = index_after-handle_all plain_regexp codex_events start

handle_all-protocol_example :
    place_after ((handle_all plain_regexp codex_events start).0) outside ≡ some over
unfolding new_state kind_of is_function_call as_map as_string field lookup str_eq trim_space
handle_all-protocol_example = handle_all-protocol plain_regexp {roots = codex_events} start refl (
    then_send on_created (
      then_send content_added (
        then_send content_delta (
          then_send content_done (
            then_send call_added
              (then_send call_delta (then_send call_done (then_send on_completed end))))))))

-- The start of a call of a tool with a long name.
abbrev second_tool : Bytes
second_tool = long_name ++ codes "2"

abbrev long_call : Object
long_call = event (codes "output_item.added") (
    (
      codes "item",
      object (
          (codes "type", str (codes "function_call"))
          ∷ (codes "call_id", str (codes "c"))
          ∷ (codes "name", str (sent_name (build_tool_short_name_map claude_request) second_tool))
          ∷ []),
    )
    ∷ [])

handle-sent_name_example :
    (length (sent_name (build_tool_short_name_map claude_request) second_tool) ≤ 64)
    × ((handle plain_regexp output_item_added long_call start).0
        ≡ content_block_start start.block_index
            (tool_use (as_string (field (item_of long_call) (codes "call_id"))) second_tool)
          ∷ content_block_delta start.block_index (input_json_delta [])
          ∷ [])
unfolding new_state tool_names as_slice as_map as_string field lookup str_eq trim_space contains
    is_function_call build_tool_short_name_map sent_name reversed parse_original_request
handle-sent_name_example =
    handle-sent_name plain_regexp claude_request second_tool long_call start (omega arith) refl refl
      refl refl refl

-- A writer that takes at most 1000 bytes of a text.
abbrev test_deliver : ℕ → Bytes → ℕ × Option (Unit {0})
test_deliver gone b = if leb (length b) 1000 then (length b, none) else (1000, some tt)

test_deliver-full :
    (gone : ℕ) (b : Bytes) → (test_deliver gone b).1 ≡ none → (test_deliver gone b).0 ≡ length b
test_deliver-full gone b h = elim (Bool-cases (leb (length b) 1000)) [
  | inl small ↦ rw small refl
  | inr large ↦ cc (rw large at h)
]

test_deliver-fits : (gone : ℕ) (b : Bytes) → (test_deliver gone b).0 ≤ length b
test_deliver-fits gone b = ground arith

abbrev codex_stream : Bytes
codex_stream = codes ": hello\n\nevent: x\ndata: created\r\n\ndata: [DONE]\n"

abbrev ended : Session × Option (StreamError (Unit {0}))
ended =
    convert_codex_response_to_claude_stream plain_regexp test_codec test_deliver (codes "claude")
      codex_stream none

stream-IsCounted_example : ended.0.total ≡ int64 (pos (length ended.0.output))
stream-IsCounted_example =
    stream-IsCounted plain_regexp test_codec test_deliver test_deliver-fits (codes "claude")
      codex_stream none

stream-refines_example :
    (roots : List Object) × AreDecoded test_codec (events_of [] (scan_lines codex_stream)) roots
    × (sse_all test_codec (
          (handle_all plain_regexp roots
            (new_state (parse_original_request test_codec (codes "claude")))).0)
        ≡ some ended.0.output)
unfolding convert_codex_response_to_claude_stream scan scan_line flush_data add_line write_chunk
    drop_cr scan_lines convert_single_codex_event_to_claude_sse handle kind_of sse_all sse
    new_session
stream-refines_example =
    stream-refines plain_regexp test_codec test_deliver test_deliver-full (codes "claude")
      codex_stream none {t = ended.0} refl

output_test : ended.0.output ≡ codes "event: message_start\ndata: json\n\n"
unfolding convert_codex_response_to_claude_stream scan scan_line flush_data add_line write_chunk
    drop_cr scan_lines convert_single_codex_event_to_claude_sse handle kind_of sse_all sse
    new_session
output_test = refl

test_codec-total : (j : Json) → test_codec.marshal j ≢ none
test_codec-total j h = cc

abbrev full_deliver : ℕ → Bytes → ℕ × Option (Unit {0})
full_deliver gone b = (length b, none)

stream-completes_example :
    (convert_codex_response_to_claude_stream plain_regexp test_codec full_deliver
      (codes "claude")
      codex_stream
      none).1
    ≡ none
unfolding scan_lines drop_cr events_of line_data is_blank_data split join trim_space has_prefix
    trim_prefix str_eq
stream-completes_example =
    stream-completes plain_regexp test_codec full_deliver test_codec-total (λ gone b. refl)
      (codes "claude") codex_stream (((codes "type", str (codes "response.created")) ∷ []) ∷ [])
      (omega arith, (omega arith, (omega arith, (omega arith, (omega arith, (omega arith, tt))))))
      (refl, tt)

-- A text in two pieces.
abbrev pieces : List Object
pieces =
    event (codes "output_text.delta") ((codes "delta", str (codes "Baked for 2s\nh")) ∷ [])
    ∷ event (codes "output_text.delta") ((codes "delta", str (codes "i")) ∷ [])
    ∷ []

handle_all-first_example :
    handle_all plain_regexp
      (event (codes "content_part.added") []
        ∷ (pieces ++ event (codes "content_part.done") [] ∷ []))
      start
    ≡ flush_first_text
        (remove_leading_codex_decoration (text_of pieces))
        (holding (text_of pieces) start)
unfolding new_state kind_of as_string field lookup str_eq trim_space
handle_all-first_example =
    handle_all-first plain_regexp (event (codes "content_part.added") [])
      (event (codes "content_part.done") []) pieces start refl refl (refl, (refl, tt)) refl
