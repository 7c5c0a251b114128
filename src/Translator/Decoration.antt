-- ===== src/Translator/Decoration.antt =====
-- The lines that Codex puts in front of an answer, and their removal, in
-- internal/translator/codex/claude/response.go.
use ai_proxy_pool.Base.{
  ℕ, ◌≡◌, refl, Bool, true, false, ◌&&◌, ◌||◌, List, [], ◌∷◌, ◌==◌, if◌then◌else◌,
}
use ai_proxy_pool.Base.Text.{Bytes, codes, trim_space, to_lower, has_prefix, has_infix}
use ai_proxy_pool.Base.Lines.{split, join, unify_newlines, trim_left}
use ai_proxy_pool.Translator.Values.{is_none}

abbrev is_mark : ℕ → Bool
is_mark c = c == b'*' || c == b'-' || c == b' '

-- The bullet, in UTF-8.
abbrev is_bullet : ℕ → ℕ → ℕ → Bool
is_bullet a b c = a == 0xE2 && b == 0x80 && c == 0xA2

-- strings.TrimLeft(s, "*-• ")
unfoldable trim_marks : Bytes → Bytes
trim_marks [] = []
trim_marks (a ∷ []) = if is_mark a then [] else a ∷ []
trim_marks (a ∷ b ∷ []) = let rest = trim_marks (b ∷ []) in if is_mark a then rest else a ∷ b ∷ []
trim_marks (a ∷ b ∷ c ∷ s) =
    let after1 = trim_marks (b ∷ c ∷ s) in
    let after3 = trim_marks s in
    if is_mark a then after1 else if is_bullet a b c then after3 else a ∷ b ∷ c ∷ s

unfoldable pub is_codex_decoration_line : Bytes → Bool
unfolding trim_marks trim_space to_lower has_prefix has_infix
is_codex_decoration_line line =
    let s = trim_marks (to_lower (trim_space line)) in
    has_prefix s (codes "baked for ")
    || (has_prefix s (codes "read ")
        && has_infix s (codes " files")
        && has_infix s (codes "ctrl+o"))

-- The loop over the lines: the lines that are left, and whether one was removed.
unfoldable pub skip_decoration : Bool → List Bytes → List Bytes × Bool
unfolding trim_space is_codex_decoration_line
skip_decoration removed [] = ([], removed)
skip_decoration removed (line ∷ lines) =
    let trimmed = trim_space line in
    let rest = skip_decoration true lines in
    if is_none trimmed
    then if removed then rest else (line ∷ lines, removed)
    else if is_codex_decoration_line trimmed
    then rest
    else (line ∷ lines, removed)

abbrev cleaned : Bytes → List Bytes × Bool → Bytes × Bool
cleaned text (lines, false) = (text, false)
cleaned text (lines, true) = (trim_left (λ c. c == b'\n') (join (codes "\n") lines), true)

-- The text behind the decoration, and whether there was one.
unfoldable pub remove_leading_codex_decoration : Bytes → Bytes × Bool
unfolding skip_decoration split join unify_newlines trim_left
remove_leading_codex_decoration text =
    if is_none text
    then ([], false)
    else cleaned text (skip_decoration false (split b'\n' (unify_newlines text)))

decoration_test :
    (remove_leading_codex_decoration (codes "* Baked for 3s\r\n\nhi\r\nyou")
      ≡ (codes "hi\nyou", true))
    × (remove_leading_codex_decoration (codes "\n* Baked for 3s")
        ≡ (codes "\n* Baked for 3s", false))
    × (remove_leading_codex_decoration
          (0xE2 ∷ 0x80 ∷ 0xA2 ∷ codes " Read 3 files (ctrl+o to expand)\n-x")
        ≡ (codes "-x", true))
unfolding remove_leading_codex_decoration
decoration_test = (refl, refl, refl)
