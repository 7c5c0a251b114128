-- ===== src/Translator/Kinds.antt =====
-- The events of a stream of Codex, by their type, as the switch of
-- internal/translator/codex/claude/response_stream.go tells them apart.
use ai_proxy_pool.Base.{List, [], ◌∷◌, if◌then◌else◌}
use ai_proxy_pool.Base.Text.{Bytes, codes, str_eq}
use ai_proxy_pool.Base.Json.{Object, field}
use ai_proxy_pool.Translator.Values.{as_string}

-- The types of events that have a handler.
pub data Kind : Type 0 where
  created : Kind
  summary_part_added : Kind
  summary_text_delta : Kind
  summary_part_done : Kind
  content_part_added : Kind
  output_text_delta : Kind
  content_part_done : Kind
  output_item_added : Kind
  arguments_delta : Kind
  arguments_done : Kind
  output_item_done : Kind
  completed : Kind
  other : Kind

abbrev find_kind : List (Bytes × Kind) → Bytes → Kind
find_kind [] name = other
find_kind ((asked, kind) ∷ kinds) name = if str_eq name asked then kind else find_kind kinds name

unfoldable pub kind_of : Object → Kind
unfolding as_string field str_eq
kind_of root =
    find_kind
      ((codes "response.created", created)
        ∷ (codes "response.reasoning_summary_part.added", summary_part_added)
        ∷ (codes "response.reasoning_summary_text.delta", summary_text_delta)
        ∷ (codes "response.reasoning_summary_part.done", summary_part_done)
        ∷ (codes "response.content_part.added", content_part_added)
        ∷ (codes "response.output_text.delta", output_text_delta)
        ∷ (codes "response.content_part.done", content_part_done)
        ∷ (codes "response.output_item.added", output_item_added)
        ∷ (codes "response.function_call_arguments.delta", arguments_delta)
        ∷ (codes "response.function_call_arguments.done", arguments_done)
        ∷ (codes "response.output_item.done", output_item_done)
        ∷ (codes "response.completed", completed)
        ∷ [])
      (as_string (field root (codes "type")))
