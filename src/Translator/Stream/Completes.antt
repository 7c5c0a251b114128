-- ===== src/Translator/Stream/Completes.antt =====
-- The loop over the lines gets to its end where nothing fails.
use ai_proxy_pool.Base.{
  ℕ, ◌<◌, ◌≡◌, ◌≢◌, refl, ap, ◌∙◌, inl, inr, true, false, List, [], ◌∷◌, ◌++◌, Option, none, some,
  length, leb, All, Bool-cases, Option-cases, arith,
}
use ai_proxy_pool.Base.Regexp.{Regexp}
use ai_proxy_pool.Base.Result.{ok}
use ai_proxy_pool.Base.Text.{Bytes, codes, trim_space}
use ai_proxy_pool.Base.Lines.{join}
use ai_proxy_pool.Base.Json.{Json, Object, Codec}
use ai_proxy_pool.Translator.Values.{is_none, is_none→nil}
use ai_proxy_pool.Translator.Response.{parse_original_request}
use ai_proxy_pool.Translator.Claude.{Event}
use ai_proxy_pool.Translator.Kinds.{kind_of}
use ai_proxy_pool.Translator.Events.{StreamState, handle}
use ai_proxy_pool.Translator.Sse.{payload, sse, sse_all}
use ai_proxy_pool.Translator.Stream.{
  max_line, drop_cr, Session, new_session, is_blank_data, add_line,
  convert_single_codex_event_to_claude_sse, write_chunk, flush_data, scan_line, scan, scan_lines,
  convert_codex_response_to_claude_stream,
}
use ai_proxy_pool.Translator.Stream.Runs.{AreDecoded, spelled, events_of, add_line-keeps}

AreDecoded-split :
    (codec : Codec) (xs ys : List Bytes) (rs : List Object)
    → AreDecoded codec (xs ++ ys) rs
    → ((as' : List Object) × AreDecoded codec xs as')
      × ((bs : List Object) × AreDecoded codec ys bs)
AreDecoded-split codec [] ys rs h = (([], tt), (rs, h))
AreDecoded-split codec (x ∷ xs) ys (r ∷ rs) (first, h) =
    let ((as', da), later) = AreDecoded-split codec xs ys rs h in ((r ∷ as', (first, da)), later)
AreDecoded-split codec (x ∷ xs) ys [] h = elim h [ ]

first-decoded :
    (codec : Codec) (raw : Bytes) (rs : List Object)
    → AreDecoded codec (raw ∷ []) rs
    → (root : Object) × (codec.decode raw ≡ some root)
first-decoded codec raw (r ∷ rs) (first, h) = (r, first)
first-decoded codec raw [] h = elim h [ ]

module _ (codec : Codec) (total : (j : Json) → codec.marshal j ≢ none) where
  sse-total : (e : Event) → (text : Bytes) × (sse codec e ≡ some text)
  unfolding sse payload
  sse-total e = elim (Option-cases (codec.marshal (payload e))) [
    | inl no_text ↦ elim (total (payload e) no_text) [ ]
    | inr (encoded, has_text) ↦ rw (sse, has_text) (_, refl)
  ]

  sse_all-total : (es : List Event) → (text : Bytes) × (sse_all codec es ≡ some text)
  unfolding sse_all
  sse_all-total [] = ([], refl)
  sse_all-total (e ∷ es) =
      let (first, has_text) = sse-total e in
      let (rest, has_rest) = sse_all-total es in
      (first ++ rest, rw (sse_all, has_text, has_rest) refl)

  convert-total :
      (re : Regexp) (raw : Bytes) (st : StreamState) {root : Object}
      → codec.decode raw ≡ some root
      → (out : Bytes × StreamState) × (convert_single_codex_event_to_claude_sse re codec raw st
          ≡ ok out)
  unfolding convert_single_codex_event_to_claude_sse
  convert-total re raw st {root} decoded =
      let (text, has) = sse_all-total ((handle re (kind_of root) root st).0) in
      (
        (text, (handle re (kind_of root) root st).1),
        rw (convert_single_codex_event_to_claude_sse, decoded, has) refl,
      )

  module _ {E : Type 0} (re : Regexp) (deliver : ℕ → Bytes → ℕ × Option E)
      (sound : (gone : ℕ) (b : Bytes) → (deliver gone b).1 ≡ none) where
    write_sound :
        (chunk : Bytes) (s : Session)
        → ((write_chunk re codec deliver chunk s).1 ≡ none)
          × ((write_chunk re codec deliver chunk s).0.data_lines ≡ s.data_lines)
    unfolding write_chunk
    write_sound [] s = (refl, refl)
    write_sound (c ∷ chunk) s = rw (sound (length s.output) (c ∷ chunk)) (refl, refl)

    flush_sound :
        (s : Session) (rs : List Object)
        → AreDecoded codec (spelled s.data_lines) rs
        → ((flush_data re codec deliver s).1 ≡ none)
          × ((flush_data re codec deliver s).0.data_lines ≡ [])
    unfolding flush_data
    flush_sound s rs h =
        let raw = join (codes "\n") s.data_lines in
        elim (Bool-cases (is_none s.data_lines)) [
          | inl empty ↦ rw empty (refl, is_none→nil s.data_lines empty)
          | inr full ↦ elim (Bool-cases (is_blank_data raw)) [
            | inl blank ↦ rw (full, blank) (refl, refl)
            | inr filled ↦
                let (root, decoded) = first-decoded codec raw rs (rw (full, filled) at h) in
                let ((chunk, st), good) = convert-total re raw s.state decoded in
                rw (full, filled, good)
                  (write_sound chunk (record s { data_lines = []; state = st }))
          ]
        ]

    scan_line_blank :
        (line : Bytes) (s : Session)
        → is_none (trim_space line) ≡ true
        → scan_line re codec deliver line s ≡ flush_data re codec deliver s
    unfolding scan_line
    scan_line_blank line s blank = rw blank refl

    scan_line_filled :
        (line : Bytes) (s : Session)
        → is_none (trim_space line) ≡ false
        → scan_line re codec deliver line s ≡ (add_line line s, none)
    unfolding scan_line
    scan_line_filled line s filled = rw filled refl

    -- A line that is no trouble.
    scan_next :
        (line : Bytes) (lines : List Bytes) (s t : Session)
        → length line < max_line
        → scan_line re codec deliver (drop_cr line) s ≡ (t, none)
        → scan re codec deliver none (line ∷ lines) s ≡ scan re codec deliver none lines t
    unfolding scan
    scan_next line lines s t small h =
        let fits : leb max_line (length line) ≡ false = ground arith in
        rw (fits, ap (λ o. o.1) h) (ap (λ o. scan re codec deliver none lines o.0) h)

    scan_sound :
        (lines : List Bytes) (s : Session) (rs : List Object)
        → All (λ line. length line < max_line) lines
        → AreDecoded codec (events_of s.data_lines lines) rs
        → (scan re codec deliver none lines s).1 ≡ none
    unfolding scan events_of
    scan_sound [] s rs short h = (flush_sound s rs h).0
    scan_sound (line ∷ lines) s rs (small, short) h =
        elim (Bool-cases (is_none (trim_space (drop_cr line)))) [
          | inl blank ↦
              let ((now, dn), (later, dl)) =
                AreDecoded-split codec (spelled s.data_lines) (events_of [] lines) rs
                  (rw blank at h) in
              let (quiet, empty) = flush_sound s now dn in
              let t = (flush_data re codec deliver s).0 in
              ap (λ o. o.1)
                (scan_next line lines s t small
                  (scan_line_blank (drop_cr line) s blank ∙ ap (λ e. (t, e)) quiet))
              ∙ scan_sound lines t later short (rw empty dl)
          | inr filled ↦
              let (_, _, data_lines) = add_line-keeps (drop_cr line) s in
              let t = add_line (drop_cr line) s in
              ap (λ o. o.1)
                (scan_next line lines s t small (scan_line_filled (drop_cr line) s filled))
              ∙ scan_sound lines t rs short (rw data_lines (rw filled at h))
        ]

-- If every event that the lines spell decodes, no line is too long for the scanner, the reader ends
-- without an error, the writer gives none and no payload fails to encode, then the whole stream is
-- translated without an error.
pub stream-completes :
    {E : Type 0} (re : Regexp) (codec : Codec) (deliver : ℕ → Bytes → ℕ × Option E)
    → ((j : Json) → codec.marshal j ≢ none)
    → ((gone : ℕ) (b : Bytes) → (deliver gone b).1 ≡ none)
    → (request r : Bytes) (roots : List Object)
    → All (λ line. length line < max_line) (scan_lines r)
    → AreDecoded codec (events_of [] (scan_lines r)) roots
    → (convert_codex_response_to_claude_stream re codec deliver request r none).1 ≡ none
unfolding convert_codex_response_to_claude_stream new_session
stream-completes re codec deliver total sound request r roots short decoded =
    scan_sound codec total re deliver sound (scan_lines r)
      (new_session (parse_original_request codec request)) roots short decoded
