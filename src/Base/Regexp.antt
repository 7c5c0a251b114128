-- ===== src/Base/Regexp.antt =====
-- Go's `regexp` package, whose engine is no part of this repository. A compiled expression is
-- represented by its source text, so a nil `*regexp.Regexp` is `none` of an `Option Bytes`.
use ai_proxy_pool.Base.{Bool}
use ai_proxy_pool.Base.Text.{Bytes}

pub record Regexp : Type 0 where
  -- whether `regexp.Compile` returns no error
  pub compiles : Bytes → Bool
  -- re.MatchString(s)
  pub match_string : Bytes → Bytes → Bool
  -- re.ReplaceAllString(s, replacement)
  pub replace_all_string : Bytes → Bytes → Bytes → Bytes
