-- ===== src/Translator/Claude.antt =====
-- The events of a stream for Claude, which the handlers of
-- internal/translator/codex/claude/response_stream.go build.
use ai_proxy_pool.Base.{ℕ}
use ai_proxy_pool.Base.Text.{Bytes}
use ai_proxy_pool.Translator.Usage.{Usage}

pub data Block : Type 0 where
  thinking : Block
  text : Block
  -- with its id and its name
  tool_use : Bytes → Bytes → Block

pub data Delta : Type 0 where
  thinking_delta : Bytes → Delta
  text_delta : Bytes → Delta
  input_json_delta : Bytes → Delta

-- An event for Claude. The start has the id and the model, the end the reason.
pub data Event : Type 0 where
  message_start : Bytes → Bytes → Event
  content_block_start : ℕ → Block → Event
  content_block_delta : ℕ → Delta → Event
  content_block_stop : ℕ → Event
  message_delta : Bytes → Usage → Event
  message_stop : Event
