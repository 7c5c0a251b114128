-- ===== src/Translator/Events/First.antt =====
-- The first text of a stream, which is held back until its end.
use ai_proxy_pool.Base.{
  ◌≡◌, refl, sym, ap, ◌∙◌, true, All, List, [], ◌∷◌, ◌++◌, append_assoc, append-nil,
}
use ai_proxy_pool.Base.Regexp.{Regexp}
use ai_proxy_pool.Base.Json.{Object, field}
use ai_proxy_pool.Base.Text.{Bytes, codes}
use ai_proxy_pool.Translator.Values.{as_raw_string}
use ai_proxy_pool.Translator.Decoration.{remove_leading_codex_decoration}
use ai_proxy_pool.Translator.Kinds.{
  content_part_added, output_text_delta, content_part_done, kind_of,
}
use ai_proxy_pool.Translator.Events.{
  StreamState, handle_content_part_added, handle_output_text_delta, handle_content_part_done,
  flush_first_text, handle, handle_all,
}

-- The texts of deltas, one behind the other.
abbrev pub text_of : List Object → Bytes
text_of [] = []
text_of (root ∷ roots) = as_raw_string (field root (codes "delta")) ++ text_of roots

-- The state that holds a text back.
abbrev pub holding : Bytes → StreamState → StreamState
holding text st = record st { buffering_first_text_block = true; first_text_block = text }

-- Nothing of the events is seen by the client while a text is held back.
held_back :
    (re : Regexp) (roots later : List Object) (held : Bytes) (st : StreamState)
    → All (λ root. kind_of root ≡ output_text_delta) roots
    → handle_all re (roots ++ later) (holding held st)
      ≡ handle_all re later (holding (held ++ text_of roots) st)
unfolding handle_all handle handle_output_text_delta
held_back re [] later held st h =
    ap (λ t. handle_all re later (holding t st)) (sym (append-nil held))
held_back re (root ∷ roots) later held st (e, h) =
    let delta = as_raw_string (field root (codes "delta")) in
    rw e (
      held_back re roots later (held ++ delta) st h
      ∙ ap (λ t. handle_all re later (holding t st)) (append_assoc held delta (text_of roots)))

begin_first :
    (re : Regexp) (added : Object) (st : StreamState)
    → st.leading_text_pending ≡ true
    → kind_of added ≡ content_part_added
    → handle re (kind_of added) added st ≡ ([], holding [] st)
unfolding handle handle_content_part_added
begin_first re added st pending a = rw (a, pending) refl

end_first :
    (re : Regexp) (done : Object) (text : Bytes) (st : StreamState)
    → kind_of done ≡ content_part_done
    → handle_all re (done ∷ []) (holding text st)
      ≡ flush_first_text (remove_leading_codex_decoration text) (holding text st)
unfolding handle_all handle handle_content_part_done
end_first re done text st d =
    let out = flush_first_text (remove_leading_codex_decoration text) (holding text st) in
    rw d (ap (λ es. (es, out.1)) (append-nil out.0))

-- However Codex cuts a text into deltas, while the first text is still to come: what the client gets
-- for it, and the state behind it, is what the whole text gives, without the decoration in front.
pub handle_all-first :
    (re : Regexp) (added done : Object) (deltas : List Object) (st : StreamState)
    → st.leading_text_pending ≡ true
    → kind_of added ≡ content_part_added
    → All (λ root. kind_of root ≡ output_text_delta) deltas
    → kind_of done ≡ content_part_done
    → let whole = text_of deltas in
      handle_all re (added ∷ (deltas ++ done ∷ [])) st
      ≡ flush_first_text (remove_leading_codex_decoration whole) (holding whole st)
unfolding handle_all
handle_all-first re added done deltas st pending a h d =
    let rest = deltas ++ done ∷ [] in
    ap (λ o. (o.0 ++ (handle_all re rest o.1).0, (handle_all re rest o.1).1))
      (begin_first re added st pending a)
    ∙ held_back re deltas (done ∷ []) [] st h
    ∙ end_first re done (text_of deltas) st d
