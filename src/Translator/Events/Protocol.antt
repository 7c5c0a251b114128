-- ===== src/Translator/Events/Protocol.antt =====
-- The order of the events: what Codex is to send, and what Claude's clients are to get.
use ai_proxy_pool.Base.{
  ◌≡◌, refl, ◌∙◌, Bool, true, false, List, [], ◌∷◌, ◌++◌, Option, none, some, arith, if◌then◌else◌,
  inl, inr, Bool-cases, Option-cases,
}
use ai_proxy_pool.Base.Regexp.{Regexp}
use ai_proxy_pool.Base.Json.{Object}
use ai_proxy_pool.Base.Text.{Bytes, trim_space}
use ai_proxy_pool.Translator.Values.{is_none}
use ai_proxy_pool.Translator.Decoration.{remove_leading_codex_decoration}
use ai_proxy_pool.Translator.Claude.{
  Block, thinking, text, tool_use, thinking_delta, text_delta, input_json_delta, Event,
  message_start, content_block_start, content_block_delta, content_block_stop, message_delta,
  message_stop,
}
use ai_proxy_pool.Translator.Kinds.{
  Kind, created, summary_part_added, summary_text_delta, summary_part_done, content_part_added,
  output_text_delta, content_part_done, output_item_added, arguments_delta, arguments_done,
  output_item_done, completed, other, kind_of,
}
use ai_proxy_pool.Translator.Events.{
  StreamState, handle_response_created, handle_reasoning_summary_part_added,
  handle_reasoning_summary_text_delta, handle_reasoning_summary_part_done,
  handle_content_part_added, handle_output_text_delta, flush_first_text, handle_content_part_done,
  handle_output_item_added, handle_output_item_done, handle_response_completed,
  handle_function_call_args_delta, handle_function_call_args_done, handle, handle_all,
  is_function_call,
}

-- Where a client of Claude is: outside of a message, between two blocks or in one, behind the end
-- of the blocks with its reason, or behind the message.
pub data Place : Type 0 where
  outside : Place
  between : Place
  in_thinking : Place
  in_text : Place
  in_tool : Place
  reported : Place
  over : Place

abbrev place_of : Block → Place
place_of thinking = in_thinking
place_of text = in_text
place_of (tool_use id name) = in_tool

-- Claude's protocol: a message starts once and first; its blocks do not overlap, each is closed, and
-- a delta is of the kind of its block; behind the last block come one message_delta and then one
-- message_stop, and nothing follows.
abbrev advance : Event → Place → Option Place
advance (message_start id model) outside = some between
advance (content_block_start i b) between = some (place_of b)
advance (content_block_delta i (thinking_delta t)) in_thinking = some in_thinking
advance (content_block_delta i (text_delta t)) in_text = some in_text
advance (content_block_delta i (input_json_delta t)) in_tool = some in_tool
advance (content_block_stop i) in_thinking = some between
advance (content_block_stop i) in_text = some between
advance (content_block_stop i) in_tool = some between
advance (message_delta reason usage) between = some reported
advance message_stop reported = some over
advance _ _ = none

unfoldable pub place_after : List Event → Place → Option Place
place_after [] p = some p
place_after (e ∷ es) p = elim (advance e p) [ none ↦ none | some q ↦ place_after es q ]

-- What Codex is sending, once it has begun and before it has finished.
pub data Sending : Type 0 where
  unsent : Sending
  nothing : Sending
  summary : Sending
  content : Sending
  call : Sending
  finished : Sending

-- Codex's protocol: it says that the answer is created, once and first, and that it is completed,
-- once and last but for events that are no part of it; between, parts do not overlap. An item that is no call may begin and end at any time,
-- since its parts have events of their own. The Boolean says whether the item is a call.
pub data Follow : Kind → Bool → Sending → Sending → Type 0 where
  on_created : {b : Bool} → Follow created b unsent nothing
  on_completed : {b : Bool} → Follow completed b nothing finished
  summary_added : {b : Bool} → Follow summary_part_added b nothing summary
  summary_delta : {b : Bool} → Follow summary_text_delta b summary summary
  summary_done : {b : Bool} → Follow summary_part_done b summary nothing
  content_added : {b : Bool} → Follow content_part_added b nothing content
  content_delta : {b : Bool} → Follow output_text_delta b content content
  content_done : {b : Bool} → Follow content_part_done b content nothing
  call_added : Follow output_item_added true nothing call
  call_delta : {b : Bool} → Follow arguments_delta b call call
  call_arguments : {b : Bool} → Follow arguments_done b call call
  call_done : Follow output_item_done true call nothing
  item_added : {s : Sending} → Follow output_item_added false s s
  item_done : {s : Sending} → Follow output_item_done false s s
  on_other : {b : Bool} {s : Sending} → Follow other b s s

pub data Sends : Sending → List Object → Sending → Type 0 where
  end : {s : Sending} → Sends s [] s
  then_send :
      {s t u : Sending} {root : Object} {roots : List Object}
      → Follow (kind_of root) (is_function_call root) s t
      → Sends t roots u
      → Sends s (root ∷ roots) u

-- Where the client is while Codex is sending something. A summary may not be asked for, and the
-- first text is held back.
abbrev pub place_while : Sending → StreamState → Place
place_while unsent st = outside
place_while nothing st = between
place_while summary st = if st.emit_thinking then in_thinking else between
place_while content st = if st.buffering_first_text_block then between else in_text
place_while call st = in_tool
place_while finished st = over

-- Nothing is held back but within a text.
abbrev pub IsSettled : Sending → StreamState → Type 0
IsSettled content st = Unit {0}
IsSettled _ st = st.buffering_first_text_block ≡ false

place_after-append :
    (es fs : List Event) (p q : Place)
    → place_after es p ≡ some q
    → place_after (es ++ fs) p ≡ place_after fs q
unfolding place_after
place_after-append [] fs p q h = cc
place_after-append (e ∷ es) fs p q h = elim (Option-cases (advance e p)) [
  | inl wrong ↦ cc (rw (place_after, wrong) at h)
  | inr (r, right) ↦
      rw (place_after, right) (place_after-append es fs r q (rw (place_after, right) at h))
]

-- What one event does to the two.
abbrev IsStep : Regexp → Object → StreamState → Kind → Sending → Sending → Type 0
IsStep re root st k s t =
    (place_after ((handle re k root st).0) (place_while s st)
      ≡ some (place_while t ((handle re k root st).1)))
    × IsSettled t ((handle re k root st).1)

flush-IsStep :
    (cleaned : Bytes × Bool) (st : StreamState)
    → (place_after ((flush_first_text cleaned st).0) between ≡ some between)
      × ((flush_first_text cleaned st).1.buffering_first_text_block ≡ false)
unfolding place_after flush_first_text
flush-IsStep cleaned st = elim (Bool-cases (is_none (trim_space cleaned.0))) [
  | inl blank ↦ elim (Bool-cases cleaned.1) [
    | inl removed ↦ rw (blank, removed) (refl, refl)
    | inr kept ↦ rw (blank, kept) (refl, refl)
  ]
  | inr filled ↦ rw filled (refl, refl)
]

handle-IsStep :
    (re : Regexp) (root : Object) (st : StreamState) {k : Kind} {is_call : Bool} {s t : Sending}
    → is_function_call root ≡ is_call
    → IsSettled s st
    → Follow k is_call s t
    → IsStep re root st k s t
unfolding place_after handle handle_response_created handle_reasoning_summary_part_added
    handle_reasoning_summary_text_delta handle_reasoning_summary_part_done handle_content_part_added
    handle_output_text_delta handle_content_part_done handle_output_item_added
    handle_function_call_args_delta handle_function_call_args_done handle_output_item_done
    handle_response_completed
handle-IsStep re root st e w on_created = (refl, w)
handle-IsStep re root st e w on_completed = (refl, w)
handle-IsStep re root st e w summary_added = ground arith
handle-IsStep re root st e w summary_delta = ground arith
handle-IsStep re root st e w summary_done = ground arith
handle-IsStep re root st e w content_added = ground arith
handle-IsStep re root st e w content_delta = ground arith
handle-IsStep re root st e w content_done =
    ground (arith, flush-IsStep (remove_leading_codex_decoration st.first_text_block) st)
handle-IsStep re root st e w call_added = rw e (refl, w)
handle-IsStep re root st e w call_delta = (refl, w)
handle-IsStep re root st e w call_arguments = ground arith
handle-IsStep re root st e w call_done = rw e (refl, w)
handle-IsStep re root st e w item_added = rw e (refl, w)
handle-IsStep re root st e w item_done = rw e (refl, w)
handle-IsStep re root st e w on_other = (refl, w)

handle_all-steps :
    (re : Regexp) {roots : List Object} (st : StreamState) {s t : Sending}
    → IsSettled s st
    → Sends s roots t
    → let (events, st') = handle_all re roots st in
      (place_after events (place_while s st) ≡ some (place_while t st')) × IsSettled t st'
unfolding place_after handle_all
handle_all-steps re st w end = (refl, w)
handle_all-steps re st w (then_send {root = root} {roots = roots} f rest) =
    let (events, st') = handle re (kind_of root) root st in
    let (moved, w') = handle-IsStep re root st refl w f in
    let (after, settled) = handle_all-steps re st' w' rest in
    (place_after-append events ((handle_all re roots st').0) _ _ moved ∙ after, settled)

-- If Codex keeps to its protocol from the first event to the last and no text is held back before,
-- then the events for Claude are one whole message of its protocol: they start with message_start,
-- and end with message_stop.
pub handle_all-protocol :
    (re : Regexp) {roots : List Object} (st : StreamState)
    → st.buffering_first_text_block ≡ false
    → Sends unsent roots finished
    → place_after ((handle_all re roots st).0) outside ≡ some over
handle_all-protocol re st w sends = (handle_all-steps re st w sends).0
