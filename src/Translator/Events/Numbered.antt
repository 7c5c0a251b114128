-- ===== src/Translator/Events/Numbered.antt =====
-- The indices of the blocks in the events for Claude.
use ai_proxy_pool.Base.{
  ℕ, suc, ◌≡◌, refl, ◌∙◌, Bool, List, [], ◌∷◌, ◌++◌, inl, inr, Bool-cases, Option-cases, Option,
  none, some, arith, ◌==◌, if◌then◌else◌,
}
use ai_proxy_pool.Base.Regexp.{Regexp}
use ai_proxy_pool.Base.Json.{Object}
use ai_proxy_pool.Base.Text.{Bytes, trim_space}
use ai_proxy_pool.Translator.Values.{is_none}
use ai_proxy_pool.Translator.Decoration.{remove_leading_codex_decoration}
use ai_proxy_pool.Translator.Claude.{
  Block, text, Delta, input_json_delta, Event, content_block_start, content_block_delta,
  content_block_stop,
}
use ai_proxy_pool.Translator.Kinds.{
  Kind, created, summary_part_added, summary_text_delta, summary_part_done, content_part_added,
  output_text_delta, content_part_done, output_item_added, arguments_delta, arguments_done,
  output_item_done, completed, other, kind_of,
}
use ai_proxy_pool.Translator.Events.{
  StreamState, handle_response_created, handle_reasoning_summary_part_added,
  handle_reasoning_summary_text_delta, handle_reasoning_summary_part_done,
  handle_content_part_added, handle_output_text_delta, flush_first_text, handle_content_part_done,
  handle_output_item_added, handle_output_item_done, handle_response_completed,
  handle_function_call_args_delta, handle_function_call_args_done, handle, handle_all,
  is_function_call,
}

-- The index of the next block behind an event, which must itself be about the block at that index.
abbrev next_index : Event → ℕ → Option ℕ
next_index (content_block_start i b) n = if i == n then some n else none
next_index (content_block_delta i d) n = if i == n then some n else none
next_index (content_block_stop i) n = if i == n then some (suc n) else none
next_index _ n = some n

unfoldable pub index_after : List Event → ℕ → Option ℕ
index_after [] n = some n
index_after (e ∷ es) n = elim (next_index e n) [ none ↦ none | some m ↦ index_after es m ]

index_after-append :
    (es fs : List Event) (n m : ℕ)
    → index_after es n ≡ some m
    → index_after (es ++ fs) n ≡ index_after fs m
unfolding index_after
index_after-append [] fs n m h = cc
index_after-append (e ∷ es) fs n m h = elim (Option-cases (next_index e n)) [
  | inl wrong ↦ cc (rw (index_after, wrong) at h)
  | inr (k, right) ↦
      rw (index_after, right) (index_after-append es fs k m (rw (index_after, right) at h))
]

index_after-open :
    (b : Block) (d : Delta) (i : ℕ)
    → index_after (content_block_start i b ∷ content_block_delta i d ∷ []) i ≡ some i
unfolding index_after
index_after-open b d i = ground arith

index_after-close : (i : ℕ) → index_after (content_block_stop i ∷ []) i ≡ some (suc i)
unfolding index_after
index_after-close i = ground arith

index_after-flush :
    (cleaned : Bytes × Bool) (st : StreamState)
    → index_after ((flush_first_text cleaned st).0) st.block_index
      ≡ some ((flush_first_text cleaned st).1.block_index)
unfolding index_after flush_first_text
index_after-flush cleaned st = elim (Bool-cases (is_none (trim_space cleaned.0))) [
  | inl blank ↦ elim (Bool-cases cleaned.1) [
    | inl removed ↦ rw (blank, removed) refl
    | inr kept ↦ rw (blank, kept) refl
  ]
  | inr filled ↦ rw filled (ground arith)
]

index_after-handle :
    (re : Regexp) (k : Kind) (root : Object) (st : StreamState)
    → index_after ((handle re k root st).0) st.block_index
      ≡ some ((handle re k root st).1.block_index)
unfolding index_after handle handle_response_created handle_reasoning_summary_part_added
    handle_reasoning_summary_text_delta handle_reasoning_summary_part_done handle_content_part_added
    handle_output_text_delta handle_content_part_done handle_output_item_added
    handle_function_call_args_delta handle_function_call_args_done handle_output_item_done
    handle_response_completed
index_after-handle re created root st = refl
index_after-handle re summary_part_added root st = ground arith
index_after-handle re summary_text_delta root st = ground arith
index_after-handle re summary_part_done root st = ground arith
index_after-handle re content_part_added root st = ground arith
index_after-handle re output_text_delta root st = ground arith
index_after-handle re content_part_done root st =
    ground (arith, index_after-flush (remove_leading_codex_decoration st.first_text_block) st)
index_after-handle re output_item_added root st = elim (Bool-cases (is_function_call root)) [
  | inl call ↦ rw call (index_after-open text (input_json_delta []) st.block_index)
  | inr item ↦ rw item refl
]
index_after-handle re arguments_delta root st = ground arith
index_after-handle re arguments_done root st = ground arith
index_after-handle re output_item_done root st = elim (Bool-cases (is_function_call root)) [
  | inl call ↦ rw call (index_after-close st.block_index)
  | inr item ↦ rw item refl
]
index_after-handle re completed root st = refl
index_after-handle re other root st = refl

-- Whatever events come from Codex, in whatever order, each event for Claude about a block is about
-- the block at the state's index, which goes up by one with the end of each block.
pub index_after-handle_all :
    (re : Regexp) (roots : List Object) (st : StreamState)
    → index_after ((handle_all re roots st).0) st.block_index
      ≡ some ((handle_all re roots st).1.block_index)
unfolding index_after handle_all
index_after-handle_all re [] st = refl
index_after-handle_all re (root ∷ roots) st =
    let (events, st') = handle re (kind_of root) root st in
    index_after-append events ((handle_all re roots st').0) st.block_index st'.block_index
      (index_after-handle re (kind_of root) root st)
    ∙ index_after-handle_all re roots st'
