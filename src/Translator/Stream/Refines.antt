-- ===== src/Translator/Stream/Refines.antt =====
-- What the loop over the lines comes to: it handles the events that the lines spell, and writes the
-- texts of what the handlers give.
use ai_proxy_pool.Base.{
  ℕ, ◌≡◌, refl, ◌∙◌, sym, ap, inl, inr, List, [], ◌∷◌, ◌++◌, append-nil, Option, none, some, length,
  take-length, leb, Bool-cases, Option-cases,
}
use ai_proxy_pool.Base.Regexp.{Regexp}
use ai_proxy_pool.Base.Result.{ok, Result-cases, ok_inj}
use ai_proxy_pool.Base.Text.{Bytes, codes, trim_space}
use ai_proxy_pool.Base.Lines.{join}
use ai_proxy_pool.Base.Json.{Object, Codec}
use ai_proxy_pool.Translator.Values.{is_none, is_none→nil}
use ai_proxy_pool.Translator.Kinds.{kind_of}
use ai_proxy_pool.Translator.Events.{StreamState, handle, handle_all}
use ai_proxy_pool.Translator.Response.{parse_original_request}
use ai_proxy_pool.Translator.Sse.{sse_all}
use ai_proxy_pool.Translator.Stream.{
  max_line, drop_cr, StreamError, Session, is_blank_data, add_line,
  convert_single_codex_event_to_claude_sse, write_chunk, flush_data, scan_line, scan, scan_lines,
  new_state, new_session, convert_codex_response_to_claude_stream,
}
use ai_proxy_pool.Translator.Stream.Runs.{
  spelled, line_data, events_of, AreDecoded, HasRun, HasRun-then, HasRun-idle, HasRun-one,
  add_line-keeps,
}

module _ {E : Type 0} (re : Regexp) (codec : Codec) (deliver : ℕ → Bytes → ℕ × Option E)
    (full : (gone : ℕ) (b : Bytes)
      → (deliver gone b).1 ≡ none
      → (deliver gone b).0 ≡ length b) where
  abbrev flushed : Session → Session × Option (StreamError E)
  flushed s = flush_data re codec deliver s

  write-HasRun :
      (chunk : Bytes) (s : Session) {t : Session}
      → write_chunk re codec deliver chunk s ≡ (t, none)
      → (t.output ≡ s.output ++ chunk) × (t.state ≡ s.state) × (t.data_lines ≡ s.data_lines)
  unfolding write_chunk
  write-HasRun [] s h = rw (← ap (λ p. p.0) h) (sym (append-nil s.output), refl, refl)
  write-HasRun (c ∷ chunk) s h =
      let gone = deliver (length s.output) (c ∷ chunk) in
      elim (Option-cases gone.1) [
        | inl sound ↦
            rw
              (← ap (λ p. p.0) h, full (length s.output) (c ∷ chunk) sound, take-length (c ∷ chunk))
              (refl, refl, refl)
        | inr (e, failed) ↦ cc (rw (write_chunk, failed) at h)
      ]

  convert-ok :
      (raw : Bytes) (st : StreamState) {chunk : Bytes} {st' : StreamState}
      → convert_single_codex_event_to_claude_sse re codec raw st ≡ ok (chunk, st')
      → (root : Object) × (codec.decode raw ≡ some root)
        × (sse_all codec ((handle re (kind_of root) root st).0) ≡ some chunk)
        × (st' ≡ (handle re (kind_of root) root st).1)
  unfolding convert_single_codex_event_to_claude_sse
  convert-ok raw st h = elim (Option-cases (codec.decode raw)) [
    | inl bad ↦ cc (rw (convert_single_codex_event_to_claude_sse, bad) at h)
    | inr (root, good) ↦
        let out = handle re (kind_of root) root st in
        elim (Option-cases (sse_all codec out.0)) [
          | inl bad ↦ cc (rw (convert_single_codex_event_to_claude_sse, good, bad) at h)
          | inr (text, has) ↦
              let e = ok_inj (rw (convert_single_codex_event_to_claude_sse, good, has) at h) in
              (root, good, has ∙ ap (λ p. some (p.0)) e, sym (ap (λ p. p.1) e))
        ]
  ]

  pub flush-HasRun :
      (s : Session) {t : Session}
      → flushed s ≡ (t, none)
      → HasRun re codec (spelled s.data_lines) s t × (t.data_lines ≡ [])
  unfolding flush_data
  flush-HasRun s {t = t} h =
      let raw = join (codes "\n") s.data_lines in
      elim (Bool-cases (is_none s.data_lines)) [
        | inl empty ↦
            let same : t ≡ s = sym (ap (λ p. p.0) (rw (flush_data, empty) at h)) in
            rw (empty, same) (HasRun-idle re codec s s refl refl, is_none→nil s.data_lines empty)
        | inr full ↦ elim (Bool-cases (is_blank_data raw)) [
          | inl blank ↦
              rw (full, blank, ← ap (λ p. p.0) (rw (flush_data, full, blank) at h))
                (HasRun-idle re codec s (record s { data_lines = [] }) refl refl, refl)
          | inr filled ↦
              elim (Result-cases (convert_single_codex_event_to_claude_sse re codec raw s.state)) [
                | inl (e, bad) ↦ cc (rw (flush_data, full, filled, bad) at h)
                | inr ((chunk, st), good) ↦
                    let (root, decoded, texts, state) = convert-ok raw s.state good in
                    let (o, kept, lines) =
                      write-HasRun chunk (record s { data_lines = []; state = st })
                        (rw (flush_data, full, filled, good) at h) in
                    rw (full, filled)
                      (HasRun-one re codec raw chunk root s t decoded texts o (kept ∙ state), lines)
              ]
        ]
      ]

  scan_line-HasRun :
      (line : Bytes) (lines : List Bytes) (s u : Session) {t : Session}
      → scan_line re codec deliver (drop_cr line) s ≡ (t, none)
      → HasRun re codec (events_of t.data_lines lines) t u
      → HasRun re codec (events_of s.data_lines (line ∷ lines)) s u
  unfolding scan_line events_of
  scan_line-HasRun line lines s u {t = t} h later =
      elim (Bool-cases (is_none (trim_space (drop_cr line)))) [
        | inl blank ↦
            let (now, empty) = flush-HasRun s (rw (scan_line, blank) at h) in
            rw blank (
              HasRun-then re codec (spelled s.data_lines) (events_of [] lines) s t u now
                (rw empty at later))
        | inr some_line ↦
            let (o, e, data_lines) = add_line-keeps (drop_cr line) s in
            let same : t ≡ add_line (drop_cr line) s =
              sym (ap (λ p. p.0) (rw (scan_line, some_line) at h)) in
            rw some_line (
              HasRun-then re codec [] (events_of (s.data_lines ++ line_data (drop_cr line)) lines) s
                t u
                (HasRun-idle re codec s t (ap (λ r. r.output) same ∙ o)
                  (ap (λ r. r.state) same ∙ e))
                (rw (ap (λ r. r.data_lines) same ∙ data_lines) at later))
      ]

  scan-HasRun :
      (broken : Option E) (lines : List Bytes) (s : Session) {u : Session}
      → scan re codec deliver broken lines s ≡ (u, none)
      → HasRun re codec (events_of s.data_lines lines) s u
  unfolding scan events_of
  scan-HasRun broken [] s h = elim (Option-cases broken) [
    | inl ended ↦ (flush-HasRun s (rw (scan, ended) at h)).0
    | inr (e, cut_off) ↦ cc (rw (scan, cut_off) at h)
  ]
  scan-HasRun broken (line ∷ lines) s {u = u} h =
      let out = scan_line re codec deliver (drop_cr line) s in
      elim (Bool-cases (leb max_line (length line))) [
        | inl long ↦ cc (rw (scan, long) at h)
        | inr short ↦ elim (Option-cases out.1) [
          | inl sound ↦
              scan_line-HasRun line lines s u {t = out.0} (ap (λ e. (out.0, e)) sound)
                (scan-HasRun broken lines out.0 (rw (scan, short, sound) at h))
          | inr (e, bad) ↦ cc (rw (scan, short, bad) at h)
        ]
      ]

-- A stream that is translated without an error, to a writer that takes all of a text where it gives
-- no error, was translated event by event: the lines spell events that decode, and what has been
-- written is the texts of what their handlers give, one after the other from a new state.
pub stream-refines :
    {E : Type 0} (re : Regexp) (codec : Codec) (deliver : ℕ → Bytes → ℕ × Option E)
    → ((gone : ℕ) (b : Bytes) → (deliver gone b).1 ≡ none → (deliver gone b).0 ≡ length b)
    → (request r : Bytes) (broken : Option E) {t : Session}
    → convert_codex_response_to_claude_stream re codec deliver request r broken ≡ (t, none)
    → (roots : List Object) × AreDecoded codec (events_of [] (scan_lines r)) roots
      × (sse_all codec ((handle_all re roots (new_state (parse_original_request codec request))).0)
          ≡ some t.output)
unfolding convert_codex_response_to_claude_stream new_session
stream-refines re codec deliver full request r broken h =
    let (roots, written, decoded, texts, output, state) =
      scan-HasRun re codec deliver full broken (scan_lines r)
        (new_session (parse_original_request codec request)) h in
    (roots, decoded, texts ∙ ap some (sym output))
