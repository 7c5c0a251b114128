-- ===== src/Translator/Stream/Runs.antt =====
-- The events that lines spell, and what it is to handle them and to write their texts.
use ai_proxy_pool.Base.{
  ◌≡◌, refl, ◌∙◌, sym, ap, inl, inr, ◌||◌, List, [], ◌∷◌, ◌++◌, append_assoc, append-nil, some,
  if◌then◌else◌, Bool-cases,
}
use ai_proxy_pool.Base.Regexp.{Regexp}
use ai_proxy_pool.Base.Text.{Bytes, codes, trim_space, has_prefix}
use ai_proxy_pool.Base.Lines.{join, trim_prefix}
use ai_proxy_pool.Base.Json.{Object, Codec}
use ai_proxy_pool.Translator.Values.{is_none}
use ai_proxy_pool.Translator.Kinds.{kind_of}
use ai_proxy_pool.Translator.Events.{StreamState, handle, handle_all}
use ai_proxy_pool.Translator.Sse.{sse_all, sse_all-append}
use ai_proxy_pool.Translator.Stream.{drop_cr, Session, is_blank_data, add_line}

-- The event that lines of data spell, if any.
abbrev pub spelled : List Bytes → List Bytes
spelled lines =
    if is_none lines || is_blank_data (join (codes "\n") lines)
    then []
    else join (codes "\n") lines ∷ []

-- The data of a line.
unfoldable pub line_data : Bytes → List Bytes
unfolding has_prefix trim_prefix trim_space
line_data line =
    if has_prefix line (codes ":")
    then []
    else if has_prefix line (codes "data:")
    then trim_space (trim_prefix line (codes "data:")) ∷ []
    else []

-- The events that lines spell, behind some lines of data.
unfoldable pub events_of : List Bytes → List Bytes → List Bytes
unfolding is_blank_data line_data drop_cr trim_space join
events_of lines [] = spelled lines
events_of lines (line ∷ rest) =
    if is_none (trim_space (drop_cr line))
    then spelled lines ++ events_of [] rest
    else events_of (lines ++ line_data (drop_cr line)) rest

-- These texts decode to these events.
abbrev pub AreDecoded : Codec → List Bytes → List Object → Type 0
AreDecoded codec [] [] = Unit {0}
AreDecoded codec (raw ∷ raws) (root ∷ roots) =
    (codec.decode raw ≡ some root) × AreDecoded codec raws roots
AreDecoded codec _ _ = ⊥

AreDecoded-append :
    (codec : Codec) (xs ys : List Bytes) (rs qs : List Object)
    → AreDecoded codec xs rs
    → AreDecoded codec ys qs
    → AreDecoded codec (xs ++ ys) (rs ++ qs)
AreDecoded-append codec [] ys [] qs h k = k
AreDecoded-append codec (x ∷ xs) ys (r ∷ rs) qs (first, h) k =
    (first, AreDecoded-append codec xs ys rs qs h k)
AreDecoded-append codec [] ys (r ∷ rs) qs h k = elim h [ ]
AreDecoded-append codec (x ∷ xs) ys [] qs h k = elim h [ ]

handle_all-append :
    (re : Regexp) (rs qs : List Object) (st : StreamState)
    → handle_all re (rs ++ qs) st ≡ (
      (handle_all re rs st).0 ++ (handle_all re qs (handle_all re rs st).1).0,
      (handle_all re qs (handle_all re rs st).1).1,
    )
unfolding handle_all
handle_all-append re [] qs st = refl
handle_all-append re (r ∷ rs) qs st =
    rw (handle_all-append re rs qs ((handle re (kind_of r) r st).1), append_assoc) refl

-- From one session to another, the events of these texts are handled and their texts written.
abbrev pub HasRun : Regexp → Codec → List Bytes → Session → Session → Type 0
HasRun re codec raws s s' =
    (roots : List Object) × (written : Bytes) × AreDecoded codec raws roots
    × (sse_all codec ((handle_all re roots s.state).0) ≡ some written)
    × (s'.output ≡ s.output ++ written)
    × (s'.state ≡ (handle_all re roots s.state).1)

pub HasRun-then :
    (re : Regexp) (codec : Codec) (xs ys : List Bytes) (s t u : Session)
    → HasRun re codec xs s t
    → HasRun re codec ys t u
    → HasRun re codec (xs ++ ys) s u
HasRun-then re codec xs ys s t u (rs, a, ds, ea, oa, sa) (qs, b, dq, eb, ob, sb) = (
  rs ++ qs,
  a ++ b,
  AreDecoded-append codec xs ys rs qs ds dq,
  rw (handle_all-append re rs qs s.state, sse_all-append, ea, ← sa, eb) refl,
  rw (ob, oa, append_assoc) refl,
  rw (handle_all-append re rs qs s.state, ← sa) sb,
)

pub HasRun-idle :
    (re : Regexp) (codec : Codec) (s t : Session)
    → t.output ≡ s.output
    → t.state ≡ s.state
    → HasRun re codec [] s t
unfolding handle_all sse_all
HasRun-idle re codec s t o e = ([], [], tt, refl, o ∙ sym (append-nil s.output), e)

pub HasRun-one :
    (re : Regexp) (codec : Codec) (raw chunk : Bytes) (root : Object) (s t : Session)
    → codec.decode raw ≡ some root
    → sse_all codec ((handle re (kind_of root) root s.state).0) ≡ some chunk
    → t.output ≡ s.output ++ chunk
    → t.state ≡ (handle re (kind_of root) root s.state).1
    → HasRun re codec (raw ∷ []) s t
unfolding handle_all
HasRun-one re codec raw chunk root s t d e o st = (
  root ∷ [],
  chunk,
  (d, tt),
  ap (sse_all codec) (append-nil ((handle re (kind_of root) root s.state).0)) ∙ e,
  o,
  st,
)

pub add_line-keeps :
    (line : Bytes) (s : Session)
    → ((add_line line s).output ≡ s.output)
      × ((add_line line s).state ≡ s.state)
      × ((add_line line s).data_lines ≡ s.data_lines ++ line_data line)
unfolding add_line line_data
add_line-keeps line s = elim (Bool-cases (has_prefix line (codes ":"))) [
  | inl comment ↦ rw comment (refl, refl, sym (append-nil s.data_lines))
  | inr other ↦ elim (Bool-cases (has_prefix line (codes "data:"))) [
    | inl is_data ↦ rw (other, is_data) (refl, refl, refl)
    | inr field ↦ rw (other, field) (refl, refl, sym (append-nil s.data_lines))
  ]
]
