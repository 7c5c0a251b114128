-- ===== src/Proxy/Translate/Usage.antt =====
-- The tokens that an answer counts, in internal/proxy/translate.go: in a complete answer, and in a
-- stream as it passes.
use ai_proxy_pool.Base.{
  Bool, true, false, ◌&&◌, List, [], ◌∷◌, ◌++◌, Option, none, some, ◌==◌, if◌then◌else◌,
}
use ai_proxy_pool.Base.Int.{ℤ}
use ai_proxy_pool.Base.Text.{Bytes, codes, str_eq, trim_space, has_prefix}
use ai_proxy_pool.Base.Lines.{join, trim_right, cut_prefix}
use ai_proxy_pool.Base.Number.{parse_int}
use ai_proxy_pool.Base.Json.{Json, num, str, Object, field, Codec}
use ai_proxy_pool.Translator.Values.{as_map, as_raw_string, is_none}
use ai_proxy_pool.Translator.Request.{count_tokens_path}
use ai_proxy_pool.Translator.Stream.{is_blank_data}
use ai_proxy_pool.Proxy.Upstream.{TokenUsage}

abbrev pub no_usage : TokenUsage
no_usage = record { input = none; output = none }

abbrev if_valid : ℤ × Bool → Option ℤ
if_valid (n, true) = some n
if_valid (n, false) = none

-- A number that `json.Unmarshal` gives is a float64.
unfoldable pub as_int64_from_any : Codec → Json → Option ℤ
unfolding parse_int trim_space
as_int64_from_any codec (num text) = some (codec.float_int64 text)
as_int64_from_any codec (str t) =
    let s = trim_space t in if is_none s then none else if_valid (parse_int s)
as_int64_from_any codec _ = none

-- The two counts of an object.
unfoldable pub counts_of : Codec → Object → TokenUsage
unfolding as_int64_from_any field
counts_of codec usage = record {
  input = as_int64_from_any codec (field usage (codes "input_tokens"));
  output = as_int64_from_any codec (field usage (codes "output_tokens"));
}

abbrev is_completed : Object → Bool
is_completed root = str_eq (as_raw_string (field root (codes "type"))) (codes "response.completed")

abbrev response_in : Object → Object
response_in root =
    let resp = as_map (field root (codes "response")) in
    if is_completed root then if is_none resp then root else resp else root

-- An object that is missing has no counts.
unfoldable pub extract_usage_from_codex_response_body : Codec → Bytes → TokenUsage
unfolding counts_of as_map as_raw_string field str_eq
extract_usage_from_codex_response_body codec body =
    if is_none body then no_usage else elim (codec.unmarshal body) [
      | none ↦ no_usage
      | some root ↦ counts_of codec (as_map (field (response_in root) (codes "usage")))
    ]

abbrev is_absent : Option ℤ → Bool
is_absent none = true
is_absent (some n) = false

-- The other where the one knows nothing.
abbrev pub first_usage : TokenUsage → TokenUsage → TokenUsage
first_usage usage other = if is_absent usage.input && is_absent usage.output then other else usage

unfoldable pub extract_usage_from_response_body : Codec → Bytes → Bytes → TokenUsage
unfolding extract_usage_from_codex_response_body counts_of as_int64_from_any as_map field str_eq
extract_usage_from_response_body codec path body =
    if is_none body then no_usage else elim (codec.unmarshal body) [
      | none ↦ no_usage
      | some root ↦
          if str_eq path count_tokens_path
          then record {
            input = as_int64_from_any codec (field root (codes "input_tokens"));
            output = none;
          }
          else first_usage (extract_usage_from_codex_response_body codec body)
              (counts_of codec (as_map (field root (codes "usage"))))
    ]

-- What reads along while a stream passes: the line that is not finished, the lines of data of the
-- event that is not, and the counts so far.
pub record Capture : Type 0 where
  pub line_buf : Bytes
  pub data_lines : List Bytes
  pub usage : TokenUsage

-- The later count where there is one.
abbrev or_kept : Option ℤ → Option ℤ → Option ℤ
or_kept none kept = kept
or_kept (some n) kept = some n

abbrev later_usage : TokenUsage → TokenUsage → TokenUsage
later_usage new old = record {
  input = or_kept new.input old.input;
  output = or_kept new.output old.output;
}

abbrev count_event : Codec → Option Object → TokenUsage → TokenUsage
count_event codec none usage = usage
count_event codec (some event) usage =
    if is_completed event
    then later_usage
        (counts_of codec (as_map (field (as_map (field event (codes "response"))) (codes "usage"))))
        usage
    else usage

unfoldable pub flush_event : Codec → Capture → Capture
unfolding join is_blank_data counts_of as_map as_raw_string field str_eq
flush_event codec c =
    let joined = join (codes "\n") c.data_lines in
    if is_none c.data_lines
    then c
    else if is_blank_data joined
    then record c { data_lines = [] }
    else record c { data_lines = []; usage = count_event codec (codec.unmarshal joined) c.usage }

abbrev add_data : Option Bytes → Capture → Capture
add_data none c = c
add_data (some rest) c = record c { data_lines = c.data_lines ++ trim_space rest ∷ [] }

unfoldable pub consume_line : Codec → Bytes → Capture → Capture
unfolding trim_space has_prefix cut_prefix flush_event
consume_line codec line c =
    if is_none (trim_space line)
    then flush_event codec c
    else if has_prefix line (codes ":")
    then c
    else add_data (cut_prefix line (codes "data:")) c

-- The line in the buffer, without the carriage returns at its end.
unfoldable pub end_line : Codec → Capture → Capture
unfolding consume_line trim_right
end_line codec c =
    consume_line codec (trim_right (λ b. b == b'\r') c.line_buf) (record c { line_buf = [] })

-- `Write`
unfoldable pub capture_bytes : Codec → Bytes → Capture → Capture
unfolding end_line
capture_bytes codec [] c = c
capture_bytes codec (b ∷ p) c =
    capture_bytes codec p
      (if b == b'\n' then end_line codec c else record c { line_buf = c.line_buf ++ b ∷ [] })

-- `Finish`
unfoldable pub finish_capture : Codec → Capture → Capture
unfolding end_line flush_event
finish_capture codec c = flush_event codec (if is_none c.line_buf then c else end_line codec c)

abbrev pub new_capture : Capture
new_capture = record { line_buf = []; data_lines = []; usage = no_usage }

-- The counts of a stream of which these bytes have been read.
unfoldable pub capture_usage : Codec → Bytes → TokenUsage
unfolding capture_bytes finish_capture
capture_usage codec r = (finish_capture codec (capture_bytes codec r new_capture)).usage
