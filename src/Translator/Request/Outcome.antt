-- ===== src/Translator/Request/Outcome.antt =====
-- What the translation of a request comes to, where it succeeds.
use ai_proxy_pool.Base.{◌≡◌, false, some}
use ai_proxy_pool.Base.Text.{Bytes, codes, str_eq}
use ai_proxy_pool.Base.Dict.{lookup}
use ai_proxy_pool.Base.Json.{Json, bool, str, Object}
use ai_proxy_pool.Translator.Registry.{TranslateRequest}
use ai_proxy_pool.Translator.Request.{stream_wanted}

-- The keys that only the start of the function writes.
abbrev IsFixed : Bytes → Type 0
IsFixed key =
    (str_eq (codes "include") key ≡ false)
    × (str_eq (codes "reasoning") key ≡ false)
    × (str_eq (codes "input") key ≡ false)
    × (str_eq (codes "tools") key ≡ false)
    × (str_eq (codes "tool_choice") key ≡ false)
    × (str_eq (codes "max_output_tokens") key ≡ false)

-- What is asked of the model, whatever the request holds.
abbrev pub IsCodexRequest : TranslateRequest → Object → Bytes → Object → Type 0
IsCodexRequest req root model fields =
    (lookup (codes "model") fields ≡ some (str model))
    × (lookup (codes "stream") fields ≡ some (bool (stream_wanted req root)))
    × (lookup (codes "store") fields ≡ some (bool false))
