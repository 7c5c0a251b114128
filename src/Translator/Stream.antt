-- ===== src/Translator/Stream.antt =====
-- `ConvertCodexResponseToClaudeStream` of internal/translator/codex/claude/response_stream.go: the
-- loop over the lines that Codex sends. The reader gives bytes and then ends, or breaks off with an
-- error; the lines are those of a `bufio.Scanner`, which refuses one that does not fit its buffer.
pub mod Runs
pub mod Refines
pub mod Counted
pub mod Completes
use ai_proxy_pool.Base.{
  ℕ, ◌≡◌, refl, Bool, true, false, ◌||◌, List, [], ◌∷◌, ◌++◌, Option, none, some, length, take, leb,
  ◌==◌, if◌then◌else◌,
}
use ai_proxy_pool.Base.Int.{ℤ, pos, ◌+ℤ◌}
use ai_proxy_pool.Base.Word.{int64}
use ai_proxy_pool.Base.Regexp.{Regexp}
use ai_proxy_pool.Base.Result.{Result, ok, err}
use ai_proxy_pool.Base.Text.{Bytes, codes, str_eq, trim_space, has_prefix}
use ai_proxy_pool.Base.Lines.{split, join, trim_prefix}
use ai_proxy_pool.Base.Json.{Codec}
use ai_proxy_pool.Translator.Registry.{TranslateError, decode_failed, encode_failed}
use ai_proxy_pool.Translator.Values.{is_none}
use ai_proxy_pool.Translator.Response.{OriginalRequestInfo, parse_original_request}
use ai_proxy_pool.Translator.Kinds.{kind_of}
use ai_proxy_pool.Translator.Events.{StreamState, handle}
use ai_proxy_pool.Translator.Sse.{sse_all}

-- The largest buffer of the scanner.
abbrev pub max_line : ℕ
max_line = 2097152

-- The lines of a text: what is behind the last newline is one only if it is not empty.
abbrev closed_lines : Bytes → List Bytes → List Bytes
closed_lines line [] = if is_none line then [] else line ∷ []
closed_lines line (next ∷ lines) = line ∷ closed_lines next lines

abbrev lines_from : List Bytes → List Bytes
lines_from [] = []
lines_from (line ∷ lines) = closed_lines line lines

unfoldable pub scan_lines : Bytes → List Bytes
unfolding split
scan_lines s = lines_from (split b'\n' s)

-- dropCR of bufio
unfoldable pub drop_cr : Bytes → Bytes
drop_cr [] = []
drop_cr (c ∷ []) = if c == b'\r' then [] else c ∷ []
drop_cr (c ∷ d ∷ s) = c ∷ drop_cr (d ∷ s)

-- Errors: of the reader or the writer, of an event, or a line that is too long.
pub data StreamError (E : Type 0) : Type 0 where
  read_failed : E → StreamError E
  write_failed : E → StreamError E
  bad_event : TranslateError → StreamError E
  too_long : StreamError E

-- The local variables: the lines of data, the state, what has reached the writer and its count.
pub record Session : Type 0 where
  pub data_lines : List Bytes
  pub state : StreamState
  pub output : Bytes
  pub total : ℤ

unfoldable pub is_blank_data : Bytes → Bool
unfolding trim_space str_eq
is_blank_data raw_data =
    is_none (trim_space raw_data) || str_eq (trim_space raw_data) (codes "[DONE]")

abbrev in_session : StreamState → Session → Session
in_session state s = record s { state = state }

-- Any text behind "data:" is a line of data; a comment and any other field are skipped.
unfoldable pub add_line : Bytes → Session → Session
unfolding has_prefix trim_prefix trim_space
add_line line s =
    if has_prefix line (codes ":")
    then s
    else if has_prefix line (codes "data:")
    then record s {
      data_lines = s.data_lines ++ trim_space (trim_prefix line (codes "data:")) ∷ [];
    }
    else s

unfoldable pub new_state : OriginalRequestInfo → StreamState
new_state info = record {
  has_tool_call = false;
  block_index = 0;
  has_received_arguments_delta = false;
  reverse_tool_name_map = info.reverse_tool_name_map;
  emit_thinking = info.emit_thinking;
  leading_text_pending = true;
  buffering_first_text_block = false;
  first_text_block = [];
}

-- The start of the function.
unfoldable pub new_session : OriginalRequestInfo → Session
unfolding new_state
new_session info = record { data_lines = []; state = new_state info; output = []; total = pos 0 }

-- The text and the state behind the handler, or the error of the encoding.
abbrev encoded : Option Bytes → StreamState → Result TranslateError (Bytes × StreamState)
encoded none state = err encode_failed
encoded (some chunk) state = ok (chunk, state)

unfoldable pub convert_single_codex_event_to_claude_sse :
    Regexp → Codec → Bytes → StreamState → Result TranslateError (Bytes × StreamState)
unfolding handle kind_of sse_all
convert_single_codex_event_to_claude_sse re codec raw state = elim (codec.decode raw) [
  | none ↦ err decode_failed
  | some root ↦
      let (events, state') = handle re (kind_of root) root state in
      encoded (sse_all codec events) state'
]

-- `deliver` says how many bytes of a text reach the writer, when some have reached it before.
module _ {E : Type 0} (re : Regexp) (codec : Codec) (deliver : ℕ → Bytes → ℕ × Option E) where
  abbrev write_error : Option E → Option (StreamError E)
  write_error none = none
  write_error (some e) = some (write_failed e)

  unfoldable pub write_chunk : Bytes → Session → Session × Option (StreamError E)
  unfolding int64 ◌+ℤ◌
  write_chunk chunk s =
      let (n, e) = deliver (length s.output) chunk in
      if is_none chunk then (s, none) else (
        record s { output = s.output ++ take n chunk; total = int64 (s.total +ℤ pos n) },
        write_error e,
      )

  -- The event of the lines of data so far.
  unfoldable pub flush_data : Session → Session × Option (StreamError E)
  unfolding join is_blank_data convert_single_codex_event_to_claude_sse write_chunk
  flush_data s =
      let raw_data = join (codes "\n") s.data_lines in
      let s' = record s { data_lines = [] } in
      if is_none s.data_lines
      then (s, none)
      else if is_blank_data raw_data
      then (s', none)
      else elim (convert_single_codex_event_to_claude_sse re codec raw_data s.state) [
        | err e ↦ (s', some (bad_event e))
        | ok (chunk, state) ↦ write_chunk chunk (in_session state s')
      ]

  unfoldable pub scan_line : Bytes → Session → Session × Option (StreamError E)
  unfolding trim_space flush_data add_line
  scan_line line s = if is_none (trim_space line) then flush_data s else (add_line line s, none)

  abbrev end_scan : Option E → Session → Session × Option (StreamError E)
  end_scan none s = flush_data s
  end_scan (some e) s = (s, some (read_failed e))

  -- The loop of the scanner, and what comes behind it.
  unfoldable pub scan : Option E → List Bytes → Session → Session × Option (StreamError E)
  unfolding flush_data scan_line drop_cr
  scan broken [] s = end_scan broken s
  scan broken (line ∷ lines) s =
      let (s1, e) = scan_line (drop_cr line) s in
      if leb max_line (length line)
      then (s, some too_long)
      else elim e [ some e' ↦ (s1, some e') | none ↦ scan broken lines s1 ]

  unfoldable pub convert_codex_response_to_claude_stream :
      Bytes → Bytes → Option E → Session × Option (StreamError E)
  unfolding parse_original_request new_session scan scan_lines
  convert_codex_response_to_claude_stream original_request_raw r broken =
      scan broken (scan_lines r) (new_session (parse_original_request codec original_request_raw))
