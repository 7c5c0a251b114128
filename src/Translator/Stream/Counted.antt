-- ===== src/Translator/Stream/Counted.antt =====
-- The number of bytes that a translated stream reports.
use ai_proxy_pool.Base.{
  ℕ, ◌≤◌, ◌≡◌, refl, ◌∙◌, ap, inl, inr, List, [], ◌∷◌, ◌++◌, Option, none, some, length,
  length-append, length-take, take, leb, Bool-cases, Option-cases, arith,
}
use ai_proxy_pool.Base.Int.{ℤ, pos, ◌+ℤ◌}
use ai_proxy_pool.Base.Word.{int64, int64-+ℤ_left}
use ai_proxy_pool.Base.Regexp.{Regexp}
use ai_proxy_pool.Base.Result.{Result-cases}
use ai_proxy_pool.Base.Text.{Bytes, codes, trim_space, has_prefix}
use ai_proxy_pool.Base.Lines.{join}
use ai_proxy_pool.Base.Json.{Codec}
use ai_proxy_pool.Translator.Values.{is_none}
use ai_proxy_pool.Translator.Response.{parse_original_request}
use ai_proxy_pool.Translator.Stream.{
  max_line, drop_cr, Session, new_session, is_blank_data, add_line, write_chunk, flush_data,
  scan_line, scan, scan_lines, convert_single_codex_event_to_claude_sse,
  convert_codex_response_to_claude_stream,
}

abbrev pub IsCounted : Session → Type 0
IsCounted s = s.total ≡ int64 (pos (length s.output))

add_line-IsCounted : (line : Bytes) (s : Session) → IsCounted s → IsCounted (add_line line s)
unfolding add_line
add_line-IsCounted line s h = elim (Bool-cases (has_prefix line (codes ":"))) [
  | inl comment ↦ rw comment h
  | inr other ↦ elim (Bool-cases (has_prefix line (codes "data:"))) [
    | inl is_data ↦ rw (other, is_data) h
    | inr field ↦ rw (other, field) h
  ]
]

length_more :
    (output chunk : Bytes) (n : ℕ)
    → n ≤ length chunk
    → pos (length output) +ℤ pos n ≡ pos (length (output ++ take n chunk))
unfolding ◌+ℤ◌
length_more output chunk n h =
    ground (arith, length-append output (take n chunk), length-take n chunk)

counted_more :
    (total : ℤ) (output chunk : Bytes) (n : ℕ)
    → n ≤ length chunk
    → total ≡ int64 (pos (length output))
    → int64 (total +ℤ pos n) ≡ int64 (pos (length (output ++ take n chunk)))
counted_more total output chunk n h e =
    rw e (int64-+ℤ_left (pos (length output)) (pos n) ∙ ap int64 (length_more output chunk n h))

module _ {E : Type 0} (re : Regexp) (codec : Codec) (deliver : ℕ → Bytes → ℕ × Option E)
    (fits : (gone : ℕ) (b : Bytes) → (deliver gone b).0 ≤ length b) where
  write_chunk-IsCounted :
      (chunk : Bytes) (s : Session)
      → IsCounted s
      → IsCounted ((write_chunk re codec deliver chunk s).0)
  unfolding write_chunk
  write_chunk-IsCounted [] s h = h
  write_chunk-IsCounted (c ∷ chunk) s h =
      counted_more s.total s.output (c ∷ chunk) ((deliver (length s.output) (c ∷ chunk)).0)
        (fits (length s.output) (c ∷ chunk)) h

  flush_data-IsCounted : (s : Session) → IsCounted s → IsCounted ((flush_data re codec deliver s).0)
  unfolding flush_data
  flush_data-IsCounted s h =
      let raw = join (codes "\n") s.data_lines in
      elim (Bool-cases (is_none s.data_lines)) [
        | inl empty ↦ rw empty h
        | inr full ↦ elim (Bool-cases (is_blank_data raw)) [
          | inl blank ↦ rw (full, blank) h
          | inr filled ↦
              elim (Result-cases (convert_single_codex_event_to_claude_sse re codec raw s.state)) [
                | inl (e, bad) ↦ rw (full, filled, bad) h
                | inr ((chunk, st), good) ↦
                    rw (full, filled, good)
                      (write_chunk-IsCounted chunk (record s { data_lines = []; state = st }) h)
              ]
        ]
      ]

  scan_line-IsCounted :
      (line : Bytes) (s : Session) → IsCounted s → IsCounted ((scan_line re codec deliver line s).0)
  unfolding scan_line
  scan_line-IsCounted line s h = elim (Bool-cases (is_none (trim_space line))) [
    | inl blank ↦ rw blank (flush_data-IsCounted s h)
    | inr filled ↦ rw filled (add_line-IsCounted line s h)
  ]

  scan-IsCounted :
      (broken : Option E) (lines : List Bytes) (s : Session)
      → IsCounted s
      → IsCounted ((scan re codec deliver broken lines s).0)
  unfolding scan
  scan-IsCounted none [] s h = flush_data-IsCounted s h
  scan-IsCounted (some e) [] s h = h
  scan-IsCounted broken (line ∷ lines) s h =
      let out = scan_line re codec deliver (drop_cr line) s in
      let kept = scan_line-IsCounted (drop_cr line) s h in
      elim (Bool-cases (leb max_line (length line))) [
        | inl long ↦ rw long h
        | inr short ↦ elim (Option-cases out.1) [
          | inl sound ↦ rw (short, sound) (scan-IsCounted broken lines out.0 kept)
          | inr (e, bad) ↦ rw (short, bad) kept
        ]
      ]

-- However the translation of a stream ends, the number that it returns is the number of bytes that
-- have reached the writer, as an int64, if the writer takes no more of a text than there is.
pub stream-IsCounted :
    {E : Type 0} (re : Regexp) (codec : Codec) (deliver : ℕ → Bytes → ℕ × Option E)
    → ((gone : ℕ) (b : Bytes) → (deliver gone b).0 ≤ length b)
    → (request r : Bytes) (broken : Option E)
    → let t = (convert_codex_response_to_claude_stream re codec deliver request r broken).0 in
      t.total ≡ int64 (pos (length t.output))
unfolding convert_codex_response_to_claude_stream new_session int64
stream-IsCounted re codec deliver fits request r broken =
    scan-IsCounted re codec deliver fits broken (scan_lines r)
      (new_session (parse_original_request codec request)) refl
